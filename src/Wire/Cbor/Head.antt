-- ===== src/Wire/Cbor/Head.antt =====
-- The head of an item in crates/nemo-wire/src/cbor.rs: `write_head` and `read_head`.
use nemo_messenger.Prelude.{
  ℕ, ◌+◌, ◌*◌, ◌/◌, ◌^◌, ◌<◌, ◌≡◌, ◌∙◌, bit_and, bit_or, ◌∷◌, ◌++◌, inl, inr, arith, length,
  length-append, take-append_eq, drop-append_eq, low_five, join_fields, ltb, leb, ltb→lt, le→ltb,
  Bool-cases,
}
use nemo_messenger.Prelude.Bytes.{
  Bytes, to_be_bytes, from_be_bytes, length-to_be_bytes, from_be_bytes-to_be_bytes,
}
use nemo_messenger.Prelude.Result.{ok}
use nemo_messenger.Wire.Cbor.{write_head, read_head, read_argument, u64_mod}
use Prim.Native.String.{String}

-- A written argument of `k` bytes is read back with what follows.
read_argument-to_be_bytes :
    (k : ℕ) (msg : String) (major n : ℕ) (rest : Bytes)
    → n < 256 ^ k
    → read_argument k msg major (to_be_bytes k n ++ rest) ≡ ok (major, n, rest)
unfolding read_argument
read_argument-to_be_bytes k msg major n rest h =
    let b : Bytes = to_be_bytes k n in
    let len : length b ≡ k = length-to_be_bytes k n in
    rw (
      le→ltb (length (b ++ rest)) k (omega (arith, length-append b rest)),
      take-append_eq k b rest len,
      drop-append_eq k b rest len,
      from_be_bytes-to_be_bytes k n h,
    )

major_of : (m i : ℕ) → m < 8 → i < 32 → bit_or (m * 32) i / 2 ^ 5 ≡ m
major_of m i hm hi = rw (join_fields m i hm hi) (omega arith)

info_of : (m i : ℕ) → m < 8 → i < 32 → bit_and (bit_or (m * 32) i) 0x1f ≡ i
info_of m i hm hi = rw (join_fields m i hm hi) (low_five (m * 32 + i) (omega arith) ∙ omega arith)

-- `read_head` on a first byte whose fields are known.
read_head_short :
    (m i : ℕ) (rest : Bytes)
    → m < 8
    → i < 24
    → read_head (bit_or (m * 32) i ∷ rest) ≡ ok (m, i, rest)
unfolding read_head
read_head_short m i rest hm hi =
    rw (major_of m i hm (omega arith), info_of m i hm (omega arith)) (ground arith)

read_head_8 :
    (m n : ℕ) (rest : Bytes)
    → m < 8
    → n < 256
    → read_head (bit_or (m * 32) 24 ∷ n ∷ rest) ≡ ok (m, n, rest)
unfolding read_head from_be_bytes
read_head_8 m n rest hm hn =
    rw (major_of m 24 hm (omega arith), info_of m 24 hm (omega arith)) (ground arith)

module _ (m : ℕ) (tail : Bytes) (hm : m < 8) where
  read_head_16 : read_head (bit_or (m * 32) 25 ∷ tail) ≡ read_argument 2 "truncated u16" m tail
  unfolding read_head
  read_head_16 = rw (major_of m 25 hm (omega arith), info_of m 25 hm (omega arith))

  read_head_32 : read_head (bit_or (m * 32) 26 ∷ tail) ≡ read_argument 4 "truncated u32" m tail
  unfolding read_head
  read_head_32 = rw (major_of m 26 hm (omega arith), info_of m 26 hm (omega arith))

  read_head_64 : read_head (bit_or (m * 32) 27 ∷ tail) ≡ read_argument 8 "truncated u64" m tail
  unfolding read_head
  read_head_64 = rw (major_of m 27 hm (omega arith), info_of m 27 hm (omega arith))

-- Every major type and every u64 argument is read back from its head, whatever follows.
pub read_head-write_head :
    (m n : ℕ) (rest : Bytes)
    → m < 8
    → n < u64_mod
    → read_head (write_head m n ++ rest) ≡ ok (m, n, rest)
unfolding write_head
read_head-write_head m n rest hm hn = elim (Bool-cases (ltb n 24)) [
  | inl a ↦ rw a (read_head_short m n rest hm (ltb→lt n 24 a))
  | inr a ↦ rw a (elim (Bool-cases (leb n 255)) [
    | inl b ↦ rw b (read_head_8 m n rest hm (ground arith))
    | inr b ↦ rw b (elim (Bool-cases (leb n 65535)) [
      | inl c ↦ rw c (
          read_head_16 m _ hm ∙ read_argument-to_be_bytes 2 "truncated u16" m n rest (ground arith))
      | inr c ↦ rw c (elim (Bool-cases (leb n 4294967295)) [
        | inl d ↦ rw d (
            read_head_32 m _ hm
            ∙ read_argument-to_be_bytes 4 "truncated u32" m n rest (ground arith))
        | inr d ↦ rw d (
            read_head_64 m _ hm
            ∙ read_argument-to_be_bytes 8 "truncated u64" m n rest (omega arith))
      ])
    ])
  ])
]

-- A head has one byte at least.
pub length-write_head-pos : (m n : ℕ) → 0 < length (write_head m n)
unfolding write_head
length-write_head-pos m n = ground arith
