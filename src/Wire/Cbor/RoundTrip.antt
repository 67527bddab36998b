-- ===== src/Wire/Cbor/RoundTrip.antt =====
-- What `encode` of crates/nemo-wire/src/cbor.rs writes, `decode` reads back.
use nemo_messenger.Prelude.{
  ℕ, zero, suc, ◌<◌, ◌≤◌, ◌≡◌, refl, ◌∙◌, ap, true, false, Option, none, some, [], ◌∷◌, ◌++◌, arith,
  length, length-append, take-append_eq, drop-append_eq, le→ltb, lt→ltb,
}
use nemo_messenger.Prelude.Bytes.{Bytes}
use nemo_messenger.Prelude.Result.{ok}
use nemo_messenger.Wire.Cbor.{
  Value, uint, bytes, text, array, map, Values, nil, cons, Pairs, end, pair, length_values,
  length_pairs, u64_mod, write_head, insert_by_key, sort_by_key, concat_entries, write_value,
  write_values, write_entries, encode, read_items, key_out_of_order, read_pairs, read_string,
  read_array, read_map, read_body, read_value, decode, Reader,
}
use nemo_messenger.Wire.Cbor.Head.{read_head-write_head, length-write_head-pos}
use nemo_messenger.Wire.Cbor.Canonical.{Above, IsWire, IsWireValues, IsWirePairs, IsAscending}
use nemo_messenger.Wire.Cbor.Utf8.{utf8_valid}
use Prim.Native.String.{String}
use mathlib.Core.List.{append_assoc, append-nil}

-- The entries of a map in the order of its keys, which sorting leaves alone.
abbrev concat_pairs : Pairs → Bytes
concat_pairs end = []
concat_pairs (pair k v ps) = write_head 0 k ++ (write_value v ++ concat_pairs ps)

insert_by_key-first :
    (last : Option ℕ) (k : ℕ) (e : Bytes) (ps : Pairs)
    → IsAscending (some k) ps
    → insert_by_key (k, e) (write_entries ps) ≡ (k, e) ∷ write_entries ps
unfolding insert_by_key write_value
insert_by_key-first last k e end h = refl
insert_by_key-first last k e (pair j v ps) h = ground (arith, h.0)

sort-ascending :
    (last : Option ℕ) (ps : Pairs)
    → IsAscending last ps
    → sort_by_key (write_entries ps) ≡ write_entries ps
unfolding sort_by_key write_value
sort-ascending last end h = refl
sort-ascending last (pair k v ps) h =
    rw (sort-ascending (some k) ps h.1) (insert_by_key-first last k (write_value v) ps h.1)

concat-write_entries : (ps : Pairs) → concat_entries (write_entries ps) ≡ concat_pairs ps
unfolding concat_entries write_value
concat-write_entries end = refl
concat-write_entries (pair k v ps) =
    ap (λ t. write_head 0 k ++ (write_value v ++ t)) (concat-write_entries ps)

-- A map with ascending keys is written in the order in which it stands.
write_map-ascending :
    (ps : Pairs)
    → IsAscending none ps
    → concat_entries (sort_by_key (write_entries ps)) ≡ concat_pairs ps
write_map-ascending ps a = rw (sort-ascending none ps a) (concat-write_entries ps)

head_append_pos : (m n : ℕ) (tail : Bytes) → 0 < length (write_head m n ++ tail)
head_append_pos m n tail =
    omega (arith, length-append (write_head m n) tail, length-write_head-pos m n)

-- Every encoding has one byte at least, which the guards on the counts rest on.
pub length-write_value-pos : (v : Value) → 0 < length (write_value v)
unfolding write_value
length-write_value-pos (uint n) = length-write_head-pos 0 n
length-write_value-pos (bytes b) = head_append_pos _ _ _
length-write_value-pos (text s) = head_append_pos _ _ _
length-write_value-pos (array vs) = head_append_pos _ _ _
length-write_value-pos (map ps) = head_append_pos _ _ _

length_values-le : (vs : Values) → length_values vs ≤ length (write_values vs)
unfolding write_value
length_values-le nil = omega arith
length_values-le (cons v vs) = omega (
  arith,
  length_values-le vs,
  length-write_value-pos v,
  length-append (write_value v) (write_values vs),
)

length_pairs-le : (ps : Pairs) → length_pairs ps ≤ length (concat_pairs ps)
length_pairs-le end = omega arith
length_pairs-le (pair k v ps) = omega (
  arith,
  length_pairs-le ps,
  length-write_head-pos 0 k,
  length-append (write_head 0 k) (write_value v ++ concat_pairs ps),
  length-append (write_value v) (concat_pairs ps),
)

read_value_step :
    (f m n : ℕ) (tail : Bytes)
    → m < 8
    → n < u64_mod
    → read_value (suc f) (write_head m n ++ tail) ≡ read_body (read_value f) (m, n, tail)
unfolding read_value
read_value_step f m n tail hm hn = rw (read_head-write_head m n tail hm hn)

read_string-append :
    (msg : String) (b rest : Bytes) → read_string msg (length b) (b ++ rest) ≡ ok (b, rest)
unfolding read_string
read_string-append msg b rest = rw (
  le→ltb (length (b ++ rest)) (length b) (omega (arith, length-append b rest)),
  take-append_eq (length b) b rest refl,
  drop-append_eq (length b) b rest refl,
)

module _ (read : Reader) (rest : Bytes) where
  body_bytes :
      (b : Bytes)
      → length b < u64_mod
      → read_body read (2, length b, b ++ rest) ≡ ok (bytes b, rest)
  unfolding read_body
  body_bytes b h = rw (lt→ltb _ _ h, read_string-append "truncated bstr" b rest)

  body_text :
      (s : Bytes)
      → length s < u64_mod
      → utf8_valid s ≡ true
      → read_body read (3, length s, s ++ rest) ≡ ok (text s, rest)
  unfolding read_body
  body_text s h u = rw (lt→ltb _ _ h, read_string-append "truncated tstr" s rest, u)

  body_array :
      (vs : Values) (tail : Bytes)
      → length_values vs < u64_mod
      → length_values vs ≤ length tail
      → read_items read (length_values vs) tail ≡ ok (vs, rest)
      → read_body read (4, length_values vs, tail) ≡ ok (array vs, rest)
  unfolding read_body read_array
  body_array vs tail h fits loop = rw (lt→ltb _ _ h, le→ltb _ _ fits, loop)

  body_map :
      (ps : Pairs) (tail : Bytes)
      → length_pairs ps < u64_mod
      → length_pairs ps ≤ length tail
      → read_pairs read (length_pairs ps) none tail ≡ ok (ps, rest)
      → read_body read (5, length_pairs ps, tail) ≡ ok (map ps, rest)
  unfolding read_body read_map
  body_map ps tail h fits loop = rw (lt→ltb _ _ h, le→ltb _ _ fits, loop)

in_order : (last : Option ℕ) (k : ℕ) → Above last k → key_out_of_order last k ≡ false
in_order none k h = refl
in_order (some j) k h = ground arith

read_key :
    (f k : ℕ) (tail : Bytes)
    → k < u64_mod
    → 0 < f
    → read_value f (write_head 0 k ++ tail) ≡ ok (uint k, tail)
read_key zero k tail h p = absurd (omega arith)
read_key (suc f) k tail h p = read_value_step f 0 k tail (omega arith) h ∙ unfold read_body in refl

mutual
  unfolding write_value read_items read_pairs

  read-write :
      (v : Value) (f : ℕ) (rest : Bytes)
      → IsWire v
      → length (write_value v) ≤ f
      → read_value f (write_value v ++ rest) ≡ ok (v, rest)
  read-write (uint n) zero rest w l = absurd (omega (arith, length-write_value-pos (uint n)))
  read-write (bytes b) zero rest w l = absurd (omega (arith, length-write_value-pos (bytes b)))
  read-write (text s) zero rest w l = absurd (omega (arith, length-write_value-pos (text s)))
  read-write (array vs) zero rest w l = absurd (omega (arith, length-write_value-pos (array vs)))
  read-write (map ps) zero rest w l = absurd (omega (arith, length-write_value-pos (map ps)))
  read-write (uint n) (suc f) rest w l = read_key (suc f) n rest w (omega arith)
  read-write (bytes b) (suc f) rest w l =
      rw append_assoc (read_value_step f 2 (length b) _ (omega arith) w.1 ∙ body_bytes _ rest b w.1)
  read-write (text s) (suc f) rest w l =
      rw append_assoc
        (read_value_step f 3 (length s) _ (omega arith) w.1 ∙ body_text _ rest s w.1 w.2)
  read-write (array vs) (suc f) rest w l = rw append_assoc (
      read_value_step f 4 (length_values vs) _ (omega arith) w.0
      ∙ body_array _ rest vs (write_values vs ++ rest) w.0
          (omega (arith, length_values-le vs, length-append (write_values vs) rest))
          (read_items-write vs f rest w.1 (
            omega (
              arith,
              length-append (write_head 4 (length_values vs)) (write_values vs),
              length-write_head-pos 4 (length_values vs),
            ))))
  read-write (map ps) (suc f) rest w l =
      let written = write_map-ascending ps w.1 in
      let size : length (concat_entries (sort_by_key (write_entries ps)))
          ≡ length (concat_pairs ps) =
        ap length written in
      rw (append_assoc, written)
        (read_value_step f 5 (length_pairs ps) _ (omega arith) w.0
          ∙ body_map _ rest ps (concat_pairs ps ++ rest) w.0
              (omega (arith, length_pairs-le ps, length-append (concat_pairs ps) rest))
              (read_pairs-write ps f none rest w.1 w.2 (
                omega (
                  arith,
                  size,
                  length-append (write_head 5 (length_pairs ps))
                      (concat_entries (sort_by_key (write_entries ps))),
                  length-write_head-pos 5 (length_pairs ps),
                ))))

  read_items-write :
      (vs : Values) (f : ℕ) (rest : Bytes)
      → IsWireValues vs
      → length (write_values vs) ≤ f
      → read_items (read_value f) (length_values vs) (write_values vs ++ rest) ≡ ok (vs, rest)
  read_items-write nil f rest w l = refl
  read_items-write (cons v vs) f rest w l =
      let size = length-append (write_value v) (write_values vs) in
      rw (
        append_assoc,
        read-write v f (write_values vs ++ rest) w.0 (omega (arith, size)),
        read_items-write vs f rest w.1 (omega (arith, size)),
      )

  read_pairs-write :
      (ps : Pairs) (f : ℕ) (last : Option ℕ) (rest : Bytes)
      → IsAscending last ps
      → IsWirePairs ps
      → length (concat_pairs ps) ≤ f
      → read_pairs (read_value f) (length_pairs ps) last (concat_pairs ps ++ rest) ≡ ok (ps, rest)
  read_pairs-write end f last rest a w l = refl
  read_pairs-write (pair k v ps) f last rest a w l =
      let size = length-append (write_head 0 k) (write_value v ++ concat_pairs ps) in
      let size' = length-append (write_value v) (concat_pairs ps) in
      rw (
        append_assoc,
        read_key f k ((write_value v ++ concat_pairs ps) ++ rest) w.0
            (omega (arith, size, length-write_head-pos 0 k)),
        in_order last k a.0,
        append_assoc,
        read-write v f (concat_pairs ps ++ rest) w.1 (omega (arith, size, size')),
        read_pairs-write ps f (some k) rest a.1 w.2 (omega (arith, size, size')),
      )

-- Decoding the encoding of a value gives the value back. The value has u64 numbers and lengths, texts
-- in UTF-8 and, in every map, strictly increasing keys.
pub decode-encode : (v : Value) → IsWire v → decode (encode v) ≡ ok v
unfolding decode encode
decode-encode v w =
    let whole : read_value (length (write_value v)) (write_value v) ≡ ok (v, []) =
      rw append-nil at (read-write v (length (write_value v)) [] w (omega arith)) in
    rw whole
