-- ===== src/Wire/Bodies/RoundTrip.antt =====
-- The bodies of a group stream come back from their encoding, with any padding behind them
-- (crates/nemo-wire/src/hostframe.rs).
use nemo_messenger.Prelude.{
  ℕ, ◌+◌, ◌≤◌, ◌<◌, ◌^◌, ◌≡◌, refl, ◌∙◌, [], ◌∷◌, ◌++◌, true, false, length, take, drop, ltb, leb,
  le→ltb, arith, length-append, take-append_eq, drop-append_eq, drop_past, get_elem?-append,
}
use mathlib.Core.List.{append_assoc}
use nemo_messenger.Prelude.Bytes.{
  Bytes, to_be_bytes, from_be_bytes, length-to_be_bytes, from_be_bytes-to_be_bytes,
}
use nemo_messenger.Prelude.Result.{ok}
use nemo_messenger.Wire.Ids.{key_len, sig_len, copy_fixed_exact}
use nemo_messenger.Wire.Envelope.{ttl_from_u8, byte_at}
use nemo_messenger.Wire.Bodies.{
  AttachmentSizeBucket, a1, a2, a3, a4, size_to_u8, size_from_u8, RemoveBundle, remove_encode,
  remove_decode, SigningKeyReplace, replace_encode, replace_decode, AttachmentReserve,
  reserve_encode, reserve_decode,
}

-- A key and a signature at the front of a body.
record Layout (c s t body : Bytes) : Type 0 where
  key : take 32 body ≡ c
  sig : take 64 (drop 32 body) ≡ s
  rest : drop 96 body ≡ t
  later : (j : ℕ) → drop (96 + j) body ≡ drop j t
  size : length body ≡ 96 + length t

laid_out : (c s t : Bytes) → length c ≡ key_len → length s ≡ sig_len → Layout c s t (c ++ (s ++ t))
laid_out c s t hc hs = record {
  key = take-append_eq 32 c (s ++ t) hc;
  sig = rw (drop-append_eq 32 c (s ++ t) hc) (take-append_eq 64 s t hs);
  rest = drop_past 32 96 64 c (s ++ t) hc (omega arith) ∙ drop-append_eq 64 s t hs;
  later = λ j.
      drop_past 32 (96 + j) (64 + j) c (s ++ t) hc (omega arith)
      ∙ drop_past 64 (64 + j) j s t hs (omega arith);
  size = omega (arith, hc, hs, length-append s t, length-append c (s ++ t));
}

-- What the Rust types of the fields promise.
pub record IsRemove (r : RemoveBundle) : Type 0 where
  pub credential_id : length r.credential_id ≡ key_len
  pub sidecar_signature : length r.sidecar_signature ≡ sig_len
  pub mls_commit : length r.mls_commit < 2 ^ 32

-- A remove bundle whose commit fits the length field is read back from its encoding, whatever padding
-- follows.
pub remove_decode-remove_encode :
    (r : RemoveBundle) (padding : Bytes) {out : Bytes}
    → IsRemove r
    → remove_encode r ≡ ok out
    → remove_decode (out ++ padding) ≡ ok r
unfolding remove_encode remove_decode
remove_decode-remove_encode r padding {out} w e =
    let c = r.credential_id in
    let s = r.sidecar_signature in
    let m = r.mls_commit in
    let len : Bytes = to_be_bytes 4 (length m) in
    let len_size : length len ≡ 4 = length-to_be_bytes 4 (length m) in
    let small : leb (length m) 4294967295 ≡ true = ground (arith, w.mls_commit) in
    let t = len ++ (m ++ padding) in
    let flat : out ++ padding ≡ c ++ (s ++ t) =
      let joined : c ++ (s ++ (len ++ m)) ≡ out = ground arith in
      rw (← joined) (simp append_assoc) in
    let at = laid_out c s t w.credential_id w.sidecar_signature in
    let size : length (c ++ (s ++ t)) ≡ 100 + (length m + length padding) =
      omega (arith, at.size, len_size, length-append m padding, length-append len (m ++ padding)) in
    let long : ltb (length (c ++ (s ++ t))) 100 ≡ false = le→ltb _ _ (omega (arith, size)) in
    let whole : ltb (length (c ++ (s ++ t))) (100 + length m) ≡ false =
      le→ltb _ _ (omega (arith, size)) in
    let field : take 4 (drop 96 (c ++ (s ++ t))) ≡ len =
      rw (at.rest) (take-append_eq 4 len (m ++ padding) len_size) in
    let commit : drop 100 (c ++ (s ++ t)) ≡ m ++ padding =
      at.later 4 ∙ drop-append_eq 4 len (m ++ padding) len_size in
    let number : from_be_bytes len ≡ length m =
      from_be_bytes-to_be_bytes 4 (length m) (omega (arith, w.mls_commit)) in
    let key = copy_fixed_exact 32 c w.credential_id in
    let sig = copy_fixed_exact 64 s w.sidecar_signature in
    rw (flat) (
      rw (long, at.key, key, at.sig, sig, field, number, whole, commit)
        (rw (take-append_eq (length m) m padding refl) refl))

-- A key replacement is read back from its encoding, whatever padding follows.
pub replace_decode-replace_encode :
    (r : SigningKeyReplace) (padding : Bytes)
    → length r.new_public_key ≡ key_len
    → length r.signature ≡ sig_len
    → replace_decode (replace_encode r ++ padding) ≡ ok r
unfolding replace_encode replace_decode
replace_decode-replace_encode r padding hk hs =
    let k = r.new_public_key in
    let s = r.signature in
    let flat : (k ++ s) ++ padding ≡ k ++ (s ++ padding) = simp append_assoc in
    let at = laid_out k s padding hk hs in
    let long : ltb (length (k ++ (s ++ padding))) 96 ≡ false =
      le→ltb _ _ (omega (arith, at.size)) in
    rw (flat) (rw (long, at.key, copy_fixed_exact 32 k hk, at.sig, copy_fixed_exact 64 s hs) refl)

pub size_from_u8-size_to_u8 : (b : AttachmentSizeBucket) → size_from_u8 (size_to_u8 b) ≡ ok b
unfolding size_from_u8
size_from_u8-size_to_u8 a1 = refl
size_from_u8-size_to_u8 a2 = refl
size_from_u8-size_to_u8 a3 = refl
size_from_u8-size_to_u8 a4 = refl

byte_after :
    (t rest : Bytes) (x y : ℕ)
    → length t ≡ key_len
    → (byte_at 32 (t ++ (x ∷ y ∷ rest)) ≡ x) × (byte_at 33 (t ++ (x ∷ y ∷ rest)) ≡ y)
byte_after t rest x y h =
    let grown : t ++ (x ∷ y ∷ rest) ≡ (t ++ (x ∷ [])) ++ (y ∷ rest) = simp append_assoc in
    let size : length (t ++ (x ∷ [])) ≡ 33 = omega (arith, h, length-append t (x ∷ [])) in
    (
      rw (get_elem?-append 32 t (y ∷ rest) x h, byte_at) refl,
      rw (grown, get_elem?-append 33 (t ++ (x ∷ [])) rest y size, byte_at) refl,
    )

-- A reservation is read back from its encoding, whatever padding follows.
pub reserve_decode-reserve_encode :
    (r : AttachmentReserve) (padding : Bytes)
    → length r.fetch_token ≡ key_len
    → r.ttl_bucket.code ≤ 3
    → reserve_decode (reserve_encode r ++ padding) ≡ ok r
unfolding reserve_encode reserve_decode
reserve_decode-reserve_encode r padding ht hb =
    let t = r.fetch_token in
    let x = size_to_u8 r.size_bucket in
    let y = r.ttl_bucket.code in
    let flat : (t ++ (x ∷ y ∷ [])) ++ padding ≡ t ++ (x ∷ y ∷ padding) = simp append_assoc in
    let size : length (t ++ (x ∷ y ∷ padding)) ≡ 34 + length padding =
      omega (arith, ht, length-append t (x ∷ y ∷ padding)) in
    let long : ltb (length (t ++ (x ∷ y ∷ padding))) 34 ≡ false =
      le→ltb _ _ (omega (arith, size)) in
    let (first, second) = byte_after t padding x y ht in
    let small : ttl_from_u8 y ≡ ok r.ttl_bucket = unfold ttl_from_u8 in ground arith in
    rw (flat) (
      rw (long, take-append_eq 32 t (x ∷ y ∷ padding) ht, copy_fixed_exact 32 t ht, first, second)
        (rw (size_from_u8-size_to_u8 r.size_bucket, small) refl))
