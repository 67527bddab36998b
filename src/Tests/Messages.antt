-- ===== src/Tests/Messages.antt =====
-- The theorems on the messages of the wire crate and on invites, at concrete inputs.
use nemo_messenger.Prelude.{◌<◌, ◌≡◌, refl, true, none, some, ◌++◌, arith}
use nemo_messenger.Prelude.Bytes.{Bytes}
use nemo_messenger.Prelude.Result.{ok}
use nemo_messenger.Wire.Sign.{ascii, IsSigner}
use nemo_messenger.Wire.Cbor.{encode, map}
use nemo_messenger.Wire.Cbor.Utf8.{utf8_valid}
use nemo_messenger.Wire.Card.{HomeServerBinding, ContactCard, card_pairs, card_encode, card_decode}
use nemo_messenger.Wire.Card.RoundTrip.{IsCard}
use nemo_messenger.Wire.Revocation.{RevocationStatement}
use nemo_messenger.Wire.OwnerAuth.{MailboxOwnerAuth, scope_body}
use nemo_messenger.Wire.Bundle.{ServerBundle}
use nemo_messenger.Wire.Messages.{contact, messages_read_back}
use nemo_messenger.Wire.Join.{GroupInvite, InviteeProof, proof_sign, verify_bound_invite}
use nemo_messenger.Wire.Join.Bound.{bound_invite-one_identity, verify_bound_invite-proof_sign}
use nemo_messenger.Tests.Toy.{key, sig, toy, key-IsArray, sig-IsArray}

abbrev pub binding : HomeServerBinding
binding = record {
  server_id = key 1;
  server_hpke_public_key = key 1;
  host = ascii "a.example";
  seq = 1;
  expires_at = 1800000000;
  signature = sig;
}

abbrev pub card : ContactCard
card = record {
  identity_public_key = key 5;
  revocation_public_key = key 6;
  share_token = key 7;
  binding = binding;
}

host_valid : utf8_valid (ascii "a.example") ≡ true
unfolding utf8_valid
host_valid = refl

card-IsCard : IsCard card
card-IsCard = record {
  identity_public_key = key-IsArray 5 (omega arith);
  revocation_public_key = key-IsArray 6 (omega arith);
  share_token = key-IsArray 7 (omega arith);
  binding = record {
    server_id = key-IsArray 1 (omega arith);
    server_hpke_public_key = key-IsArray 1 (omega arith);
    host_bytes = ground arith;
    host_length = omega arith;
    host_utf8 = host_valid;
    seq = omega arith;
    expires_at = omega arith;
    signature = sig-IsArray;
  };
}

card_encoded : card_encode card ≡ ok (encode (map (card_pairs card)))
unfolding card_encode encode nemo_messenger.Wire.Cbor.write_value
    nemo_messenger.Wire.Cbor.write_head nemo_messenger.Wire.Cbor.concat_entries
    nemo_messenger.Wire.Cbor.sort_by_key nemo_messenger.Wire.Cbor.insert_by_key
    nemo_messenger.Wire.Card.binding_to_cbor_value nemo_messenger.Prelude.Bytes.to_be_bytes
card_encoded = refl

messages_read_back_example : card_decode (encode (map (card_pairs card))) ≡ ok card
messages_read_back_example =
    messages_read_back (contact card (encode (map (card_pairs card)))) (card-IsCard, card_encoded)

abbrev pub statement : RevocationStatement
statement = record { identity_id = key 5; coarse_timestamp = 1700000000; signature = sig }

abbrev pub auth : MailboxOwnerAuth
auth = record {
  mailbox_hint = key 5;
  cursor = 3;
  limit = 10;
  ts = 1700000000;
  scope = scope_body (key 1) (ascii "POST") (ascii "/v1/mailbox/ack");
  nonce = key 8;
  signature = sig;
}

abbrev pub bundle : ServerBundle
bundle = record {
  server_id = key 1;
  server_hpke_public_key = key 1;
  server_sign_public_key = key 2;
  host = ascii "a.example";
  s2s_port = 8443;
  signature = sig;
}

-- An invite that is bound to the identity 5 by the salt 4; hashing is the identity.
abbrev bound : GroupInvite
bound = record {
  group_id = key 7;
  nonce = key 6;
  ttl_secs = 300;
  binding = some (key 5 ++ key 4);
  salt = some (key 4);
  signature = sig;
}

abbrev proof : InviteeProof
proof = record { group_id = key 7; pending_id = key 12; signature = sig }

toy-IsSigner : IsSigner toy (key 5)
toy-IsSigner = record { holds = λ m. refl }

proof_made : proof_sign toy (key 5) (key 7) (key 12) ≡ ok proof
unfolding proof_sign
proof_made = refl

verify_bound_invite-proof_sign_example : verify_bound_invite toy bound proof (key 5) ≡ ok tt
verify_bound_invite-proof_sign_example =
    verify_bound_invite-proof_sign toy bound (key 5) (key 4) (key 12) toy-IsSigner refl refl
      proof_made

bound_invite-one_identity_example : key 5 ≡ key 5
bound_invite-one_identity_example =
    bound_invite-one_identity toy bound proof proof (key 5) (key 5) (key 5 ++ key 4) (key 4) refl
      refl refl refl (λ same. same) checked checked
  where
    checked : verify_bound_invite toy bound proof (key 5) ≡ ok tt
    checked =
        verify_bound_invite-proof_sign toy bound (key 5) (key 4) (key 12) toy-IsSigner refl refl
          proof_made
