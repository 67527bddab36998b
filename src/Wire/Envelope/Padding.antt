-- ===== src/Wire/Envelope/Padding.antt =====
-- crates/nemo-wire/src/envelope.rs: the padding of a message to its bucket, and back.
use nemo_messenger.Prelude.{
  ℕ, suc, ◌↔◌, ◌+◌, ◌-◌, ◌≤◌, ◌<◌, ◌≡◌, refl, ◌∙◌, true, Bool-cases, inl, inr, List, ◌∷◌, ◌++◌,
  arith, length, length-append, length-take, length-replicate, take, take_all, replicate,
}
use nemo_messenger.Prelude.Bytes.{Bytes}
use nemo_messenger.Prelude.Result.{ok, err}
use nemo_messenger.Wire.Error.{no_bucket}
use nemo_messenger.Wire.Ids.{protocol_version}
use nemo_messenger.Wire.Envelope.{
  t3, a4, MessageType, double_ratchet, mls_app, attachment_dr, remove_bundle, signing_key_replace,
  attachment_reserve, revocation_statement, mls_handshake, to_u8, from_u8, PaddedMessage,
  is_attachment, buckets, contains, resize, pad, encode_message, decode_message,
}

-- The message fits a bucket of its type.
pub record IsPadded (m : PaddedMessage) : Type 0 where
  pub fits : 2 + length m.body ≤ m.inner_len
  pub bucket : contains (buckets m.type) m.inner_len ≡ true

-- The code of a type is read back as the type.
pub from_u8-to_u8 : (t : MessageType) → from_u8 (to_u8 t) ≡ ok t
unfolding from_u8 to_u8
from_u8-to_u8 double_ratchet = refl
from_u8-to_u8 mls_app = refl
from_u8-to_u8 attachment_dr = refl
from_u8-to_u8 remove_bundle = refl
from_u8-to_u8 signing_key_replace = refl
from_u8-to_u8 attachment_reserve = refl
from_u8-to_u8 revocation_statement = refl
from_u8-to_u8 mls_handshake = refl

-- `n` is the least number of `xs` that is not below `size`.
abbrev pub Least : List ℕ → ℕ → ℕ → Type 0
Least xs size n =
    (contains xs n ≡ true) × (size ≤ n) × ((b : ℕ) → contains xs b ≡ true → size ≤ b → n ≤ b)

-- Padding keeps the type and the body, and chooses the smallest bucket of the type in which the version
-- byte, the type byte and the body fit.
pub pad-Least :
    (t : MessageType) (body : Bytes) (m : PaddedMessage)
    → pad t body ≡ ok m
    → (m.type ≡ t) × (m.body ≡ body) × Least (buckets t) (2 + length body) m.inner_len
unfolding pad
pad-Least t body m e = elim (Bool-cases (is_attachment t)) [
  | inl a ↦ rw a (ground arith, ground arith, (ground arith, ground arith, λ b hb hs. ground arith))
  | inr a ↦ rw a (ground arith, ground arith, (ground arith, ground arith, λ b hb hs. ground arith))
]

-- The largest bucket of a type.
abbrev pub largest : MessageType → ℕ
largest attachment_dr = a4
largest _ = t3

-- Padding fails exactly on the bodies that exceed the largest bucket of the type, with `no_bucket`.
pub pad-no_bucket :
    (t : MessageType) (body : Bytes) → (pad t body ≡ err no_bucket) ↔ (largest t < 2 + length body)
unfolding pad
pad-no_bucket attachment_dr body = ground arith
pad-no_bucket _ body = ground arith

pub pad-IsPadded :
    (t : MessageType) (body : Bytes) (m : PaddedMessage) → pad t body ≡ ok m → IsPadded m
pad-IsPadded t body m e =
    let (et, eb, least) = pad-Least t body m e in
    record { fits = rw eb least.1; bucket = rw et least.0 }

pub resize_fits :
    (n : ℕ) (xs : Bytes) → length xs ≤ n → resize n xs ≡ xs ++ replicate (n - length xs) 0
resize_fits n xs h = rw (take_all n xs h)

pub length-resize : (n : ℕ) (xs : Bytes) → length (resize n xs) ≡ n
length-resize n xs =
    length-append (take n xs) (replicate (n - length xs) 0)
    ∙ omega (arith, length-take n xs, length-replicate {A = ℕ} (n - length xs) 0)

-- A padded message has the length of its bucket.
pub length-encode_message : (m : PaddedMessage) → length (encode_message m) ≡ m.inner_len
unfolding encode_message
length-encode_message m = length-resize m.inner_len _

-- The body with the zeros that pad it.
abbrev pub padded_body : PaddedMessage → Bytes
padded_body m = m.body ++ replicate (m.inner_len - (2 + length m.body)) 0

pub encode_message_lem :
    (m : PaddedMessage)
    → IsPadded m
    → encode_message m ≡ protocol_version ∷ to_u8 m.type ∷ padded_body m
unfolding encode_message
encode_message_lem m v =
    let size : suc (suc (length m.body)) ≡ 2 + length m.body = omega arith in
    let whole =
      take_all m.inner_len (protocol_version ∷ to_u8 m.type ∷ m.body) (omega (arith, v.fits)) in
    rw (whole, size)

-- Decoding an encoded message gives its type and bucket back, and the body with its padding.
pub decode-encode_message :
    (m : PaddedMessage)
    → IsPadded m
    → decode_message (encode_message m) ≡ ok (record m { body = padded_body m })
unfolding decode_message
decode-encode_message m v =
    let n = m.inner_len in
    let size : 2 + length (padded_body m) ≡ n = omega (
      arith,
      v.fits,
      length-append m.body (replicate (n - (2 + length m.body)) 0),
      length-replicate {A = ℕ} (n - (2 + length m.body)) 0,
    ) in
    rw (encode_message_lem m v) (rw (from_u8-to_u8 m.type, size, v.bucket))
