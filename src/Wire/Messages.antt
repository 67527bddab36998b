-- ===== src/Wire/Messages.antt =====
-- The messages of the wire crate, with what their two ends agree on (crates/nemo-wire).
use nemo_messenger.Wire.Cbor.{u64_mod}
use nemo_messenger.Prelude.{ℕ, false, ◌<◌, ◌≤◌, ◌≡◌, ◌++◌, ◌^◌, length}
use nemo_messenger.Prelude.Bytes.{Bytes, IsArray}
use nemo_messenger.Prelude.Result.{ok, ◌>>=◌}
use nemo_messenger.Wire.Ids.{key_len, sig_len}
use nemo_messenger.Wire.Card.{ContactCard, card_encode, card_decode}
use nemo_messenger.Wire.Card.RoundTrip.{IsCard, card_decode-card_encode}
use nemo_messenger.Wire.Revocation.{
  RevocationStatement, IsStatement, revocation_encode, revocation_decode,
  revocation_decode-revocation_encode,
}
use nemo_messenger.Wire.OwnerAuth.{
  MailboxOwnerAuth, IsAuth, auth_encode, auth_decode, auth_decode-auth_encode,
}
use nemo_messenger.Wire.Bundle.{
  ServerBundle, IsBundle, bundle_encode, bundle_decode, bundle_decode-bundle_encode,
}
use nemo_messenger.Wire.S2s.{
  S2sFrame, frame_encode, frame_decode, hello, ok_seq, fail, hello_payload, ok_payload,
  fail_payload, parse_payload,
}
use nemo_messenger.Wire.S2s.RoundTrip.{
  frame_decode-frame_encode, parse_payload-hello_payload, parse_payload-ok_payload,
  parse_payload-fail_payload,
}
use nemo_messenger.Wire.Envelope.{
  OuterEnvelope, encode_outer, decode_outer, PaddedMessage, InnerEnvelope, is_attachment,
  encode_message, decode_message, encode_padded, decode_padded,
}
use nemo_messenger.Wire.Envelope.Inner.{IsInner}
use nemo_messenger.Wire.Envelope.RoundTrip.{IsTight, decode-encode_padded_text}
use nemo_messenger.Wire.Envelope.Outer.{decode-encode_outer}
use nemo_messenger.Wire.Envelope.Padding.{IsPadded, padded_body, decode-encode_message}
use nemo_messenger.Wire.Join.{
  GroupInvite, invite_encode, invite_decode, GroupAdmit, admit_encode, admit_decode, InviteeProof,
  proof_encode, proof_decode,
}
use nemo_messenger.Wire.Join.RoundTrip.{
  IsInvite, IsAdmit, IsProof, invite_decode-invite_encode, admit_decode-admit_encode,
  proof_decode-proof_encode,
}
use nemo_messenger.Wire.Prekey.{
  SignedPrekey, IsPrekey, prekey_encode, prekey_decode, prekey_decode-prekey_encode,
}
use nemo_messenger.Wire.Discovery.{
  DiscoveryRecord, IsRecord, discovery_encode, discovery_decode, discovery_decode-discovery_encode,
}
use nemo_messenger.Wire.Bodies.{
  RemoveBundle, remove_encode, remove_decode, SigningKeyReplace, replace_encode, replace_decode,
  AttachmentReserve, reserve_encode, reserve_decode,
}
use nemo_messenger.Wire.Bodies.RoundTrip.{
  IsRemove, remove_decode-remove_encode, replace_decode-replace_encode,
  reserve_decode-reserve_encode,
}

-- A message as its sender holds it. A kind whose encoder can refuse it comes with its encoding, and
-- a body of a group stream with the padding that follows it.
pub data WireMessage : Type 0 where
  contact : ContactCard → Bytes → WireMessage
  revocation : RevocationStatement → WireMessage
  owner_auth : MailboxOwnerAuth → WireMessage
  server_bundle : ServerBundle → WireMessage
  link_frame : S2sFrame → WireMessage
  link_hello : Bytes → Bytes → WireMessage
  link_ok : ℕ → WireMessage
  link_fail : WireMessage
  outer : OuterEnvelope → WireMessage
  padded : PaddedMessage → WireMessage
  text_envelope : InnerEnvelope → Bytes → WireMessage
  invite : GroupInvite → WireMessage
  admission : GroupAdmit → WireMessage
  joining : InviteeProof → WireMessage
  signed_prekey : SignedPrekey → WireMessage
  discovery_record : DiscoveryRecord → WireMessage
  removal : RemoveBundle → Bytes → Bytes → WireMessage
  new_key : SigningKeyReplace → Bytes → WireMessage
  new_file : AttachmentReserve → Bytes → WireMessage

-- What the Rust types of a message's fields promise, and that its encoder has accepted it.
abbrev pub IsWireMessage : WireMessage → Type 0
IsWireMessage (contact c out) = IsCard c × (card_encode c ≡ ok out)
IsWireMessage (revocation s) = IsStatement s
IsWireMessage (owner_auth a) = IsAuth a
IsWireMessage (server_bundle b) = IsBundle b
IsWireMessage (link_frame f) = (f.counter < 2 ^ 64) × (length f.payload < 2 ^ 32)
IsWireMessage (link_hello s r) = IsArray key_len s × IsArray key_len r
IsWireMessage (link_ok seq) = seq < u64_mod
IsWireMessage link_fail = Unit
IsWireMessage (outer e) =
    (length e.destination_server_id ≡ key_len) × (length e.hpke_ciphertext < 2 ^ 32)
IsWireMessage (padded m) = IsPadded m
IsWireMessage (text_envelope e out) =
    IsInner e
    × (is_attachment e.padded_message.type ≡ false)
    × (IsTight e.padded_message × (encode_padded e ≡ ok out))
IsWireMessage (invite i) = IsInvite i
IsWireMessage (admission a) = IsAdmit a
IsWireMessage (joining p) = IsProof p
IsWireMessage (signed_prekey p) = IsPrekey p
IsWireMessage (discovery_record d) = IsRecord d
IsWireMessage (removal r out padding) = IsRemove r × (remove_encode r ≡ ok out)
IsWireMessage (new_key r padding) =
    (length r.new_public_key ≡ key_len) × (length r.signature ≡ sig_len)
IsWireMessage (new_file r padding) = (length r.fetch_token ≡ key_len) × (r.ttl_bucket.code ≤ 3)

-- The receiver's decoder gives back what the sender encoded.
abbrev pub ReadsBack : WireMessage → Type 0
ReadsBack (contact c out) = card_decode out ≡ ok c
ReadsBack (revocation s) = revocation_decode (revocation_encode s) ≡ ok s
ReadsBack (owner_auth a) = auth_decode (auth_encode a) ≡ ok a
ReadsBack (server_bundle b) = bundle_decode (bundle_encode b) ≡ ok b
ReadsBack (link_frame f) = (frame_encode f >>= frame_decode) ≡ ok f
ReadsBack (link_hello s r) = parse_payload (hello_payload s r) ≡ ok (hello s r)
ReadsBack (link_ok seq) = parse_payload (ok_payload seq) ≡ ok (ok_seq seq)
ReadsBack link_fail = parse_payload fail_payload ≡ ok fail
ReadsBack (outer e) = decode_outer (encode_outer e) ≡ ok e
ReadsBack (padded m) = decode_message (encode_message m) ≡ ok (record m { body = padded_body m })
ReadsBack (text_envelope e out) =
    decode_padded out
    ≡ ok (record e {
      padded_message = record e.padded_message { body = padded_body e.padded_message };
    })
ReadsBack (invite i) = invite_decode (invite_encode i) ≡ ok i
ReadsBack (admission a) = admit_decode (admit_encode a) ≡ ok a
ReadsBack (joining p) = proof_decode (proof_encode p) ≡ ok p
ReadsBack (signed_prekey p) = prekey_decode (prekey_encode p) ≡ ok p
ReadsBack (discovery_record d) = discovery_decode (discovery_encode d) ≡ ok d
ReadsBack (removal r out padding) = remove_decode (out ++ padding) ≡ ok r
ReadsBack (new_key r padding) = replace_decode (replace_encode r ++ padding) ≡ ok r
ReadsBack (new_file r padding) = reserve_decode (reserve_encode r ++ padding) ≡ ok r

-- A message is read back as it was sent, signature included, when its fields are what their types promise
-- and its encoder accepts it. The messages are: contact cards, revocations, the owner's authorisations,
-- server bundles, the frames of a link and its three payloads, outer envelopes, padded messages, inner
-- envelopes with a text, group invites, admissions, invitee proofs, prekeys, discovery records, and the
-- remove, replace and reserve bodies of a group stream. A padded message and an inner envelope come back
-- with the body filled up to the size of the bucket; of an inner envelope it is assumed that no smaller
-- bucket would cut off zeros alone. A body of a group stream comes back whatever padding follows it. Inner
-- envelopes with an attachment are not among the messages.
pub messages_read_back : (m : WireMessage) → IsWireMessage m → ReadsBack m
messages_read_back (contact c out) w = card_decode-card_encode c w.0 w.1
messages_read_back (revocation s) w = revocation_decode-revocation_encode s w
messages_read_back (owner_auth a) w = auth_decode-auth_encode a w
messages_read_back (server_bundle b) w = bundle_decode-bundle_encode b w
messages_read_back (link_frame f) w = frame_decode-frame_encode f w.0 w.1
messages_read_back (link_hello s r) w = parse_payload-hello_payload s r w.0 w.1
messages_read_back (link_ok seq) w = parse_payload-ok_payload seq w
messages_read_back link_fail w = parse_payload-fail_payload
messages_read_back (outer e) w = decode-encode_outer e w.0 w.1
messages_read_back (padded m) w = decode-encode_message m w
messages_read_back (text_envelope e out) w = decode-encode_padded_text e out w.0 w.1 w.2.0 w.2.1
messages_read_back (invite i) w = invite_decode-invite_encode i w
messages_read_back (admission a) w = admit_decode-admit_encode a w
messages_read_back (joining p) w = proof_decode-proof_encode p w
messages_read_back (signed_prekey p) w = prekey_decode-prekey_encode p w
messages_read_back (discovery_record d) w = discovery_decode-discovery_encode d w
messages_read_back (removal r out padding) w = remove_decode-remove_encode r padding w.0 w.1
messages_read_back (new_key r padding) w = replace_decode-replace_encode r padding w.0 w.1
messages_read_back (new_file r padding) w = reserve_decode-reserve_encode r padding w.0 w.1
