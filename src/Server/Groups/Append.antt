-- ===== src/Server/Groups/Append.antt =====
-- crates/nemo-server/src/group.rs: `append`, a member's object in the stream of a group.
use nemo_messenger.Prelude.{ℕ}
use nemo_messenger.Prelude.Bytes.{Bytes}
use nemo_messenger.Prelude.Result.{ok, err}
use nemo_messenger.Wire.Sign.{Crypto}
use nemo_messenger.Wire.Envelope.{
  MessageType, double_ratchet, mls_app, attachment_dr, remove_bundle, signing_key_replace,
  attachment_reserve, revocation_statement, mls_handshake,
}
use nemo_messenger.Server.Error.{ServerResult, denied}
use nemo_messenger.Server.Groups.{MemberCred, StreamAppend, GroupHandler, authorize_live}
use nemo_messenger.Server.Groups.Stream.{Draw, fanout_copy, append_remove, append_replace}
use nemo_messenger.Server.Groups.Files.{append_reserve}

module _ (crypto : Crypto) where
  abbrev pub append_typed :
      (ℕ → Draw) → Bytes → Bytes → MessageType → Bytes → GroupHandler StreamAppend
  append_typed draws gid cid remove_bundle body h = append_remove crypto draws gid cid body h
  append_typed draws gid cid signing_key_replace body h = append_replace crypto draws gid cid body h
  append_typed draws gid cid mls_handshake body h =
      fanout_copy crypto draws gid mls_handshake body h
  append_typed draws gid cid mls_app body h = fanout_copy crypto draws gid mls_app body h
  append_typed draws gid cid revocation_statement body h =
      fanout_copy crypto draws gid revocation_statement body h
  append_typed draws gid cid attachment_reserve body h = append_reserve crypto draws gid cid body h
  append_typed draws gid cid double_ratchet body h = (err denied, h)
  append_typed draws gid cid attachment_dr body h = (err denied, h)

  abbrev pub append_authorized :
      (ℕ → Draw)
      → Bytes
      → Bytes
      → MessageType
      → Bytes
      → ServerResult (Unit {0})
      → GroupHandler StreamAppend
  append_authorized draws gid cid type body (err e) h = (err e, h)
  append_authorized draws gid cid type body (ok _) h = append_typed draws gid cid type body h

  unfoldable pub append :
      (ℕ → Draw) → Bytes → MemberCred → MessageType → Bytes → GroupHandler StreamAppend
  unfolding authorize_live append_remove append_replace append_reserve fanout_copy
  append draws gid cred type body h =
      append_authorized draws gid cred.credential_id type body (authorize_live crypto gid cred h) h
