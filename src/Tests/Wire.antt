-- ===== src/Tests/Wire.antt =====
-- The theorems on CBOR, envelopes and sealing, at concrete inputs.
use nemo_messenger.Prelude.{
  ℕ, ◌-◌, ◌≡◌, ◌<◌, false, refl, true, [], ◌∷◌, ◌++◌, drop, take, arith, all, ◌==◌,
}
use nemo_messenger.Prelude.Bytes.{Bytes}
use nemo_messenger.Prelude.Result.{ok}
use nemo_messenger.Wire.Sign.{ascii, message, revocation, context_prefix, message_injective}
use nemo_messenger.Wire.Cbor.{
  Value, uint, text, bytes, map, array, cons, nil, pair, end, encode, decode, read_value,
}
use nemo_messenger.Wire.Cbor.Utf8.{utf8_valid}
use nemo_messenger.Wire.Cbor.Canonical.{IsWire}
use nemo_messenger.Wire.Cbor.RoundTrip.{decode-encode}
use nemo_messenger.Wire.Cbor.Sound.{decode-IsWire}
use nemo_messenger.Wire.Cbor.Fuel.{read_value_fuel}
use nemo_messenger.Wire.Envelope.{
  double_ratchet, PaddedMessage, InnerEnvelope, OuterEnvelope, pad, contains, text_inner, t1, t2,
  encode_message, decode_padded,
}
use nemo_messenger.Wire.Envelope.Padding.{IsPadded, padded_body}
use nemo_messenger.Wire.Envelope.Inner.{IsInner, encode_padded_text_size}
use nemo_messenger.Wire.Envelope.RoundTrip.{IsLoose, decode-encode_padded_loose}
use nemo_messenger.Wire.Hpke.{seal_to_server, open_outer, hpke_seal, open_outer-seal_to_server}
use nemo_messenger.Wire.Hex.{from_hex, to_hex, parse_identity_id, from_hex-to_hex}
use nemo_messenger.Tests.Toy.{
  key-IsArray, key, toy, pair_of_keys, toy-IsKeypair, note, note-IsTight, letter, letter-IsInner,
  letter_bytes, letter_encoded,
}

abbrev sample : Value
sample = map (
    pair 1 (uint 500) (pair 2 (text (ascii "hi")) (pair 7 (array (cons (bytes (1 ∷ [])) nil)) end)))

sample-IsWire : IsWire sample
unfolding utf8_valid
sample-IsWire = ground arith

decode-encode_example : decode (encode sample) ≡ ok sample
decode-encode_example = decode-encode sample sample-IsWire

-- A map from 1 to 5.
abbrev small_input : Bytes
small_input = 161 ∷ 1 ∷ 5 ∷ []

small_decoded : decode small_input ≡ ok (map (pair 1 (uint 5) end))
unfolding decode
small_decoded = refl

decode-IsWire_example : IsWire (map (pair 1 (uint 5) end))
decode-IsWire_example =
    decode-IsWire small_input (map (pair 1 (uint 5) end)) (ground arith) small_decoded

read_value_fuel_example : read_value 3 small_input ≡ read_value 9 small_input
read_value_fuel_example = read_value_fuel 3 9 small_input (ground arith) (omega arith) (omega arith)

padded : pad double_ratchet (7 ∷ 8 ∷ []) ≡ ok note
unfolding pad
padded = refl

-- A short body in a bucket that is larger than it needs.
abbrev roomy : PaddedMessage
roomy = record note { inner_len = t2 }

abbrev roomy_letter : InnerEnvelope
roomy_letter = record letter { padded_message = roomy }

roomy_IsPadded : IsPadded roomy
roomy_IsPadded = record { fits = omega arith; bucket = refl }

roomy_IsInner : IsInner roomy_letter
roomy_IsInner = record {
  capability = refl;
  idempotency = refl;
  ttl = omega arith;
  message = roomy_IsPadded;
}

abbrev roomy_bytes : Bytes
roomy_bytes = (encode_padded_text_size roomy_letter roomy_IsInner refl).0

zeros_behind : all (λ x. x == 0) (drop t1 (encode_message roomy)) ≡ true
unfolding encode_message
zeros_behind = refl

none_below :
    (c : ℕ)
    → contains text_inner c ≡ true
    → c < t1
    → all (λ x. x == 0) (drop c (encode_message roomy)) ≡ false
none_below c h less = ground arith

roomy-IsLoose : IsLoose roomy t1
roomy-IsLoose = record {
  bucket = refl;
  smaller = omega arith;
  zeros = zeros_behind;
  first = none_below;
}

decode-encode_padded_loose_example :
    decode_padded roomy_bytes
    ≡ ok (record roomy_letter {
      padded_message = record roomy { body = take (t1 - 2) (padded_body roomy); inner_len = t1 };
    })
decode-encode_padded_loose_example =
    decode-encode_padded_loose roomy_letter roomy_bytes t1 roomy_IsInner refl roomy-IsLoose
      (encode_padded_text_size roomy_letter roomy_IsInner refl).1

abbrev outer : OuterEnvelope
outer = record { destination_server_id = key 1; hpke_ciphertext = 5 ∷ 6 ∷ [] }

abbrev sealed_letter : OuterEnvelope
sealed_letter = record { destination_server_id = key 1; hpke_ciphertext = key 0 ++ letter_bytes }

letter_sealed : seal_to_server toy [] (key 1) letter ≡ ok sealed_letter
unfolding seal_to_server hpke_seal
letter_sealed = rw (letter_encoded)

open_outer-seal_to_server_example :
    open_outer toy pair_of_keys sealed_letter
    ≡ ok (record letter { padded_message = record note { body = padded_body note } })
open_outer-seal_to_server_example =
    open_outer-seal_to_server toy pair_of_keys [] letter toy-IsKeypair letter-IsInner refl
      note-IsTight letter_sealed

abbrev payload : Bytes
payload = 1 ∷ []

abbrev signed_bytes : Bytes
signed_bytes = context_prefix ++ (revocation ++ (0 ∷ payload))

signed : message revocation payload ≡ ok signed_bytes
unfolding message
signed = refl

message_injective_example : (revocation ≡ revocation) × (payload ≡ payload)
message_injective_example =
    message_injective revocation revocation payload payload signed_bytes (ground arith)
      (ground arith) signed signed

from_hex-to_hex_example :
    (from_hex (to_hex (0xab ∷ 7 ∷ [])) ≡ ok (0xab ∷ 7 ∷ []))
    × (parse_identity_id (to_hex (key 5)) ≡ ok (key 5))
from_hex-to_hex_example =
    from_hex-to_hex (0xab ∷ 7 ∷ []) (key 5) (ground arith) (key-IsArray 5 (omega arith))
