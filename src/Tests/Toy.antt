-- ===== src/Tests/Toy.antt =====
-- Concrete inputs: keys, envelopes, and a toy of the cryptography in which every signature holds.
use nemo_messenger.Prelude.{ℕ, ◌<◌, ◌≡◌, refl, true, some, [], ◌∷◌, replicate, arith}
use nemo_messenger.Prelude.Bytes.{Bytes, IsArray}
use nemo_messenger.Prelude.Result.{ok}
use nemo_messenger.Wire.Sign.{Crypto}
use nemo_messenger.Wire.Envelope.{double_ratchet, PaddedMessage, InnerEnvelope, t1, encode_padded}
use nemo_messenger.Wire.Envelope.Padding.{IsPadded}
use nemo_messenger.Wire.Envelope.Inner.{IsInner, encode_padded_text_size}
use nemo_messenger.Wire.Envelope.RoundTrip.{IsTight}
use nemo_messenger.Wire.Hpke.{HpkeKeypair, IsKeypair}

abbrev pub key : ℕ → Bytes
key n = replicate 32 n

abbrev pub sig : Bytes
sig = replicate 64 9

pub key-IsArray : (n : ℕ) → n < 256 → IsArray 32 (key n)
key-IsArray n h = ground arith

pub sig-IsArray : IsArray 64 sig
sig-IsArray = ground arith

-- Sealing leaves the plaintext as it is, behind a key of zeros; hashing is the identity.
abbrev pub toy : Crypto
toy = record {
  sha256 = λ b. b;
  public_key = λ secret. secret;
  key_ok = λ pk. true;
  sign_bytes = λ secret m. sig;
  verify_bytes = λ pk m s. true;
  kem_public_ok = λ pk. true;
  kem_secret_ok = λ sk. true;
  kem_enc_ok = λ enc. true;
  seal_base = λ rng pk i p a. some (key 0, p);
  open_base = λ sk enc i c a. some c;
}

abbrev pub pair_of_keys : HpkeKeypair
pair_of_keys = record { public = key 1; secret = key 2 }

pub toy-IsKeypair : IsKeypair toy pair_of_keys
toy-IsKeypair = record {
  public_ok = refl;
  secret_ok = refl;
  enc = λ rng i p a e. ground arith;
  opens = λ rng i p a e. cc;
}

abbrev pub note : PaddedMessage
note = record { type = double_ratchet; body = 7 ∷ 8 ∷ []; inner_len = t1 }

pub note_IsPadded : IsPadded note
note_IsPadded = record { fits = omega arith; bucket = refl }

pub note-IsTight : IsTight note
note-IsTight b h l = absurd (ground arith)

abbrev pub letter : InnerEnvelope
letter = record {
  delivery_capability = key 3;
  ttl_bucket = record { code = 2 };
  idempotency_token = key 4;
  padded_message = note;
}

pub letter-IsInner : IsInner letter
letter-IsInner = record {
  capability = refl;
  idempotency = refl;
  ttl = omega arith;
  message = note_IsPadded;
}

-- The bytes of the letter.
abbrev pub letter_bytes : Bytes
letter_bytes = (encode_padded_text_size letter letter-IsInner refl).0

pub letter_encoded : encode_padded letter ≡ ok letter_bytes
letter_encoded = (encode_padded_text_size letter letter-IsInner refl).1
