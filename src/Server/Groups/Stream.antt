-- ===== src/Server/Groups/Stream.antt =====
-- crates/nemo-server/src/group.rs: appending to the stream of a group, with a copy sealed to the home
-- server of every live member.
use nemo_messenger.Prelude.{
  ℕ, suc, false, Option, none, some, List, [], ◌∷◌, ◌++◌, length, ltb, add64, saturating_add,
  if◌then◌else◌,
}
use nemo_messenger.Prelude.Bytes.{Bytes}
use nemo_messenger.Prelude.Map
use nemo_messenger.Prelude.Map.{Map}
use nemo_messenger.Prelude.Result.{ok, err, ◌>>=◌, ◌>>◌}
use nemo_messenger.Wire.Error.{WireResult}
use nemo_messenger.Wire.Sign.{Crypto}
use nemo_messenger.Wire.Envelope.{
  MessageType, remove_bundle, signing_key_replace, revocation_statement, InnerEnvelope,
  OuterEnvelope, pad,
}
use nemo_messenger.Wire.Hpke.{seal_to_server}
use nemo_messenger.Wire.Revocation.{RevocationStatement, revocation_encode}
use nemo_messenger.Wire.Bodies.{remove_decode, verify_sidecar, replace_decode, replace_verify}
use nemo_messenger.Server.Error.{ServerResult, denied, from_wire}
use nemo_messenger.Server.Groups.{
  FanoutTarget, StreamAppend, CredRecord, GroupState, GroupHost, GroupHandler, mark_groups,
  mark_group, mark_cred, put_group, put_cred, signing_pk, checked_key, stream_max_bytes,
}

-- What the random generator yields for one copy: its idempotency token and the HPKE randomness.
pub record Draw : Type 0 where
  pub token : Bytes
  pub rng : Bytes

-- `creds.values().filter(live and fanout).filter_map(fanout)`
abbrev pub target_of : CredRecord → Option FanoutTarget
target_of rec = if rec.live then rec.fanout else none

abbrev pub add_target : Option FanoutTarget → List FanoutTarget → List FanoutTarget
add_target none ts = ts
add_target (some t) ts = t ∷ ts

unfoldable pub targets : Map CredRecord → List FanoutTarget
targets [] = []
targets ((cid, rec) ∷ creds) = add_target (target_of rec) (targets creds)

abbrev pub mark_row : Bytes → ℕ → GroupState → GroupHost → GroupHost
mark_row gid seq g h =
    mark_groups (λ d. mark_group gid (record d { stream_new = d.stream_new ++ ((gid, seq) ∷ []) }))
      (put_group gid g h)

abbrev pub pushed : ℕ → MessageType → Bytes → GroupState → GroupState
pushed now type body g = record g {
  next_seq = add64 g.next_seq 1;
  bytes = saturating_add g.bytes (length body);
  stream =
      g.stream ++ (record { seq = g.next_seq; type = type; body = body; received_at = now } ∷ []);
}

abbrev pub with_copies : ℕ → WireResult (List OuterEnvelope) → ServerResult StreamAppend
with_copies seq r = do outers ← from_wire r; ok (record { seq = seq; outers = outers })

abbrev pub dead : CredRecord → CredRecord
dead rec = record rec { live = false; fanout = none }

abbrev pub dropped : Bytes → Option CredRecord → GroupState → GroupState
dropped cid none g = g
dropped cid (some rec) g = put_cred cid (dead rec) g

abbrev pub drop_with : Bytes → Bytes → Option GroupState → GroupHost → GroupHost
drop_with gid cid none h = h
drop_with gid cid (some g) h = put_group gid (dropped cid (Map.get cid g.creds) g) h

-- The end of `append_remove`.
unfoldable pub drop_cred : Bytes → Bytes → GroupHost → GroupHost
drop_cred gid cid h = mark_groups (mark_cred gid cid) (drop_with gid cid (Map.get gid h.groups) h)

abbrev pub after_copy :
    Bytes → Bytes → ServerResult StreamAppend × GroupHost → ServerResult StreamAppend × GroupHost
after_copy gid named (err e, h) = (err e, h)
after_copy gid named (ok out, h) = (ok out, drop_cred gid named h)

abbrev pub rekeyed : Bytes → Bytes → Option CredRecord → GroupState → GroupState
rekeyed cid pk none g = g
rekeyed cid pk (some rec) g = put_cred cid (record rec { signing_pk = some pk }) g

abbrev pub rekey_with : Bytes → Bytes → Bytes → Option GroupState → GroupHost → GroupHost
rekey_with gid cid pk none h = h
rekey_with gid cid pk (some g) h = put_group gid (rekeyed cid pk (Map.get cid g.creds) g) h

-- The end of `apply_signing_replace`.
unfoldable pub rekey : Bytes → Bytes → Bytes → GroupHost → GroupHost
rekey gid cid pk h =
    mark_groups (mark_cred gid cid) (rekey_with gid cid pk (Map.get gid h.groups) h)

module _ (crypto : Crypto) where
  abbrev pub seal_copy : Draw → FanoutTarget → MessageType → Bytes → WireResult OuterEnvelope
  seal_copy draw t type body = do
    padded ← pad type body
    let inner : InnerEnvelope = record {
      delivery_capability = t.delivery_capability;
      ttl_bucket = record { code = 0 };
      idempotency_token = draw.token;
      padded_message = padded;
    }
    seal_to_server crypto draw.rng t.home_hpke_public inner

  -- The loop over the targets; the draws are numbered by the rounds.
  unfoldable pub seal_copies :
      (ℕ → Draw) → ℕ → List FanoutTarget → MessageType → Bytes → WireResult (List OuterEnvelope)
  seal_copies draws k [] type body = ok []
  seal_copies draws k (t ∷ ts) type body =
      let rest = seal_copies draws (suc k) ts type body in
      (do outer ← seal_copy (draws k) t type body; outers ← rest; ok (outer ∷ outers))

  abbrev pub fanout_in :
      (ℕ → Draw) → Bytes → MessageType → Bytes → Option GroupState → GroupHandler StreamAppend
  fanout_in draws gid type body none h = (err denied, h)
  fanout_in draws gid type body (some g) h =
      if ltb stream_max_bytes (saturating_add g.bytes (length body)) then (err denied, h) else (
        with_copies g.next_seq (seal_copies draws 0 (targets g.creds) type body),
        mark_row gid g.next_seq (pushed h.now type body g) h,
      )

  -- The row is written before the copies are sealed, and stays if one cannot be.
  unfoldable pub fanout_copy : (ℕ → Draw) → Bytes → MessageType → Bytes → GroupHandler StreamAppend
  unfolding seal_copies targets
  fanout_copy draws gid type body h = fanout_in draws gid type body (Map.get gid h.groups) h

  -- A statement that the caller has verified.
  unfoldable pub append_host_revocation :
      (ℕ → Draw) → Bytes → RevocationStatement → GroupHandler StreamAppend
  unfolding fanout_copy revocation_encode
  append_host_revocation draws gid stmt h =
      fanout_copy draws gid revocation_statement (revocation_encode stmt) h

  -- `append_remove` up to the fan-out: the credential that is to go.
  unfoldable pub remove_checks : Bytes → Bytes → Bytes → GroupHost → ServerResult Bytes
  unfolding remove_decode signing_pk verify_sidecar
  remove_checks gid cid body h = do
    bundle ← from_wire (remove_decode body)
    pk ← checked_key crypto (signing_pk gid cid h)
    from_wire (verify_sidecar crypto bundle pk gid)
    ok bundle.credential_id

  abbrev pub remove_named :
      (ℕ → Draw) → Bytes → Bytes → ServerResult Bytes → GroupHandler StreamAppend
  remove_named draws gid body (err e) h = (err e, h)
  remove_named draws gid body (ok named) h =
      after_copy gid named (fanout_copy draws gid remove_bundle body h)

  unfoldable pub append_remove : (ℕ → Draw) → Bytes → Bytes → Bytes → GroupHandler StreamAppend
  unfolding remove_checks fanout_copy drop_cred
  append_remove draws gid cid body h = remove_named draws gid body (remove_checks gid cid body h) h

  unfoldable pub replace_checks : Bytes → Bytes → Bytes → GroupHost → ServerResult Bytes
  unfolding replace_decode signing_pk replace_verify
  replace_checks gid cid body h = do
    replace ← from_wire (replace_decode body)
    pk ← checked_key crypto (signing_pk gid cid h)
    from_wire (replace_verify crypto replace pk)
    ok replace.new_public_key

  abbrev pub replace_with :
      (ℕ → Draw) → Bytes → Bytes → Bytes → ServerResult Bytes → GroupHandler StreamAppend
  replace_with draws gid cid body (err e) h = (err e, h)
  replace_with draws gid cid body (ok pk) h =
      fanout_copy draws gid signing_key_replace body (rekey gid cid pk h)

  -- `apply_signing_replace` and the fan-out behind it.
  unfoldable pub append_replace : (ℕ → Draw) → Bytes → Bytes → Bytes → GroupHandler StreamAppend
  unfolding replace_checks fanout_copy rekey
  append_replace draws gid cid body h =
      replace_with draws gid cid body (replace_checks gid cid body h) h
