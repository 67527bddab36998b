-- ===== src/Wire/Cbor/Sound.antt =====
-- What `decode` of crates/nemo-wire/src/cbor.rs accepts: it returns canonical values, and it takes at
-- least one byte for each item.
use nemo_messenger.Prelude.{
  ℕ, zero, suc, ◌/◌, ◌<◌, ◌≤◌, ◌≡◌, refl, ap, true, false, Option, none, some, [], ◌∷◌, arith,
  length, length-take, length-drop, take, low_five, ltb, ◌==◌, if◌then◌else◌,
}
use nemo_messenger.Prelude.Bytes.{
  Bytes, IsBytes, take-IsBytes, drop-IsBytes, from_be_bytes, from_be_bytes-lt,
}
use nemo_messenger.Prelude.Result.{
  ok, Ensures, Ensures-bind, Ensures-guard, Ensures-eq_ok, Ensures-if, Ensures-mono,
}
use nemo_messenger.Wire.Error.{cbor}
use nemo_messenger.Wire.Cbor.{
  Value, uint, Values, Pairs, length_values, length_pairs, u64_mod, read_head, read_argument,
  to_usize, read_items, key_out_of_order, read_pairs, read_string, read_array, read_map, read_body,
  read_value, decode, Reader, expect_key,
}
use nemo_messenger.Wire.Cbor.Canonical.{Above, IsWire, IsWireValues, IsWirePairs, IsAscending}
use nemo_messenger.Wire.Cbor.Utf8.{utf8_valid}
use Prim.Native.String.{String}
use native.Mathlib.Nat.{le_trans, pow-le-pow_right}

-- The head that was read: its parts in range, and a rest that is shorter than the input.
abbrev pub HeadOf : Bytes → ℕ × ℕ × Bytes → Type 0
HeadOf input (major, n, rest) =
    (major < 8) × (n < u64_mod) × IsBytes rest × (length rest < length input)

argument_bound :
    (k : ℕ) (rest : Bytes) → k ≤ 8 → IsBytes rest → from_be_bytes (take k rest) < u64_mod
argument_bound k rest h b =
    let bound = from_be_bytes-lt (take k rest) (take-IsBytes k rest b) in
    let short : length (take k rest) ≤ 8 = omega (arith, length-take k rest) in
    le_trans bound (pow-le-pow_right {n = 256} (omega arith) short)

read_argument_sound :
    (k : ℕ) (msg : String) (major first : ℕ) (rest : Bytes)
    → major < 8
    → k ≤ 8
    → IsBytes rest
    → Ensures (HeadOf (first ∷ rest)) (read_argument k msg major rest)
unfolding read_argument
read_argument_sound k msg major first rest hm hk hb =
    ground (arith, argument_bound k rest hk hb, drop-IsBytes k rest hb, length-drop k rest)

pub read_head_sound : (input : Bytes) → IsBytes input → Ensures (HeadOf input) (read_head input)
unfolding read_head
read_head_sound [] b = tt
read_head_sound (first ∷ rest) b = ground (
  arith,
  low_five first b.0,
  read_argument_sound 1 "truncated u8" (first / 32) first rest (omega arith) (omega arith) b.1,
  read_argument_sound 2 "truncated u16" (first / 32) first rest (omega arith) (omega arith) b.1,
  read_argument_sound 4 "truncated u32" (first / 32) first rest (omega arith) (omega arith) b.1,
  read_argument_sound 8 "truncated u64" (first / 32) first rest (omega arith) (omega arith) b.1,
)

-- What a reader of one item promises: a canonical value, and a shorter rest.
abbrev pub ItemOf : Bytes → Value × Bytes → Type 0
ItemOf input (v, rest) = IsWire v × IsBytes rest × (length rest < length input)

pub record IsSound (read : Reader) : Type 0 where
  pub at : (input : Bytes) → IsBytes input → Ensures (ItemOf input) (read input)

abbrev pub ItemsOf : ℕ → Bytes → Values × Bytes → Type 0
ItemsOf count input (vs, rest) =
    IsWireValues vs × (length_values vs ≡ count) × IsBytes rest × (length rest ≤ length input)

abbrev pub PairsOf : ℕ → Option ℕ → Bytes → Pairs × Bytes → Type 0
PairsOf count last input (ps, rest) =
    IsAscending last ps
    × IsWirePairs ps
    × (length_pairs ps ≡ count)
    × IsBytes rest
    × (length rest ≤ length input)

key_sound : (v : Value) → IsWire v → Ensures (λ key. key < u64_mod) (expect_key v)
key_sound (uint n) w = w
key_sound _ w = tt

Above-of_order : (last : Option ℕ) (key : ℕ) → key_out_of_order last key ≡ false → Above last key
Above-of_order none key h = tt
Above-of_order (some prev) key h = ground arith

module _ (read : Reader) (sound : IsSound read) where
  read_items_sound :
      (count : ℕ) (input : Bytes)
      → IsBytes input
      → Ensures (ItemsOf count input) (read_items read count input)
  unfolding read_items
  read_items_sound zero input b = (tt, refl, b, omega arith)
  read_items_sound (suc count) input b =
      Ensures-bind (ItemOf input) _ (read input) _ (sound.at input b) λ x hx.
        Ensures-bind (ItemsOf count x.1) _ (read_items read count x.1) _
          (read_items_sound count x.1 hx.1) λ y hy. ((hx.0, hy.0), ap suc hy.1, hy.2, omega arith)

  read_pairs_sound :
      (count : ℕ) (last : Option ℕ) (input : Bytes)
      → IsBytes input
      → Ensures (PairsOf count last input) (read_pairs read count last input)
  unfolding read_pairs
  read_pairs_sound zero last input b = (tt, tt, refl, b, omega arith)
  read_pairs_sound (suc count) last input b =
      Ensures-bind (ItemOf input) _ (read input) _ (sound.at input b) λ x hx.
        Ensures-bind (λ key. key < u64_mod) _ (expect_key x.0) _ (key_sound x.0 hx.0)
          λ key hk.
            Ensures-guard _ (key_out_of_order last key) (cbor "map keys not strictly increasing") _
              λ ho. Ensures-bind (ItemOf x.1) _ (read x.1) _ (sound.at x.1 hx.1) λ y hy.
                Ensures-bind (PairsOf count (some key) y.1) _ (read_pairs read count (some key) y.1)
                  _ (read_pairs_sound count (some key) y.1 hy.1)
                  λ z hz. (
                    (Above-of_order last key ho, hz.0),
                    (hk, hy.0, hz.1),
                    ap suc hz.2,
                    hz.3,
                    omega arith,
                  )

-- `read_string` with its length test passed: `n` bytes and the rest.
abbrev pub StringOf : ℕ → Bytes → Bytes × Bytes → Type 0
StringOf n input (s, rest) =
    IsBytes s × (length s ≡ n) × IsBytes rest × (length rest ≤ length input)

read_string_sound :
    (msg : String) (n : ℕ) (input : Bytes)
    → IsBytes input
    → Ensures (StringOf n input) (read_string msg n input)
unfolding read_string
read_string_sound msg n input b = ground (
  arith,
  take-IsBytes n input b,
  drop-IsBytes n input b,
  length-take n input,
  length-drop n input,
)

to_usize_sound : (msg : String) (n : ℕ) → Ensures (λ m. (m ≡ n) × (m < u64_mod)) (to_usize msg n)
unfolding to_usize
to_usize_sound msg n = ground arith

-- An item whose head has been taken off may leave the rest as it is.
abbrev pub BodyOf : Bytes → Value × Bytes → Type 0
BodyOf rest (v, r) = IsWire v × IsBytes r × (length r ≤ length rest)

valid_of_test : (s : Bytes) → (if utf8_valid s then false else true) ≡ false → utf8_valid s ≡ true
valid_of_test s h = ground arith

module _ (read : Reader) (sound : IsSound read) (n : ℕ) (rest : Bytes) (b : IsBytes rest) where
  body_sound : (major : ℕ) → n < u64_mod → Ensures (BodyOf rest) (read_body read (major, n, rest))
  unfolding read_body read_array read_map
  body_sound major hn =
      Ensures-if _ (major == 0) _ _ (hn, b, omega arith)
        (Ensures-if _ (major == 2) _ _
          (Ensures-bind (λ m. (m ≡ n) × (m < u64_mod)) _ (to_usize "bstr too large" n) _
            (to_usize_sound "bstr too large" n)
            λ m hm.
              Ensures-bind (StringOf m rest) _ (read_string "truncated bstr" m rest) _
                (read_string_sound "truncated bstr" m rest b)
                λ x hx. ((hx.0, omega arith), hx.2, hx.3))
          (Ensures-if _ (major == 3) _ _
            (Ensures-bind (λ m. (m ≡ n) × (m < u64_mod)) _ (to_usize "tstr too large" n) _
              (to_usize_sound "tstr too large" n)
              λ m hm.
                Ensures-bind (StringOf m rest) _ (read_string "truncated tstr" m rest) _
                  (read_string_sound "truncated tstr" m rest b)
                  λ x hx.
                    Ensures-guard _ (if utf8_valid x.0 then false else true) (cbor "tstr not utf-8")
                      _ λ hv. ((hx.0, omega arith, valid_of_test x.0 hv), hx.2, hx.3))
            (Ensures-if _ (major == 4) _ _
              (Ensures-bind (λ m. (m ≡ n) × (m < u64_mod)) _ (to_usize "array too large" n) _
                (to_usize_sound "array too large" n)
                λ m hm. Ensures-guard _ (ltb (length rest) m) (cbor "array too large") _ λ _.
                  Ensures-bind (ItemsOf m rest) _ (read_items read m rest) _
                    (read_items_sound read sound m rest b)
                    λ x hx. ((omega arith, hx.0), hx.2, hx.3))
              (Ensures-if _ (major == 5) _ _
                (Ensures-bind (λ m. (m ≡ n) × (m < u64_mod)) _ (to_usize "map too large" n) _
                  (to_usize_sound "map too large" n)
                  λ m hm. Ensures-guard _ (ltb (length rest) m) (cbor "map too large") _ λ _.
                    Ensures-bind (PairsOf m none rest) _ (read_pairs read m none rest) _
                      (read_pairs_sound read sound m none rest b)
                      λ x hx. ((omega arith, hx.0, hx.1), hx.3, hx.4))
                tt))))

pub read_value-IsSound : (fuel : ℕ) → IsSound (read_value fuel)
unfolding read_value
read_value-IsSound zero = record { at = λ input b. tt }
read_value-IsSound (suc fuel) = record {
  at = λ input b.
      Ensures-bind (HeadOf input) _ (read_head input) _ (read_head_sound input b) λ h hh.
        Ensures-mono (BodyOf h.2) _ _
          (body_sound (read_value fuel) (read_value-IsSound fuel) h.1 h.2 hh.2 h.0 hh.1)
          λ p hp. (hp.0, hp.1, omega arith);
}

decode_sound : (input : Bytes) → IsBytes input → Ensures IsWire (decode input)
unfolding decode
decode_sound input b =
    Ensures-bind (ItemOf input) _ (read_value (length input) input) _
      ((read_value-IsSound (length input)).at input b)
      λ p hp. Ensures-guard _ (ltb 0 (length p.1)) (cbor "trailing bytes") _ λ _. hp.0

-- Whatever bytes `decode` accepts, the value is canonical: u64 numbers, texts in UTF-8, and map keys in
-- strictly increasing order at every depth.
pub decode-IsWire : (input : Bytes) (v : Value) → IsBytes input → decode input ≡ ok v → IsWire v
decode-IsWire input v b e = Ensures-eq_ok IsWire (decode input) (decode_sound input b) e
