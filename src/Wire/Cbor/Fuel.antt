-- ===== src/Wire/Cbor/Fuel.antt =====
-- The fuel of `read_value` (crates/nemo-wire/src/cbor.rs): any that is not below the length of the input
-- gives the same result, so that of `decode` stands for the unbounded recursion of the source.
use nemo_messenger.Prelude.{
  ℕ, zero, suc, ◌≤◌, ◌≡◌, refl, Option, none, some, [], ◌∷◌, arith, length, ltb,
}
use nemo_messenger.Prelude.Bytes.{Bytes, IsBytes}
use nemo_messenger.Prelude.Result.{bind_cong, bind_ext, fail_if}
use nemo_messenger.Wire.Cbor.{
  read_head, to_usize, read_items, read_pairs, read_array, read_map, read_body, read_value, Reader,
  expect_key, key_out_of_order,
}
use nemo_messenger.Wire.Cbor.Sound.{HeadOf, ItemOf, IsSound, read_head_sound, read_value-IsSound}

-- The readers agree on inputs of at most `limit` bytes, and `r` returns a shorter rest.
module _ (r s : Reader) (limit : ℕ) (sound : IsSound r)
    (agree : (input : Bytes) → IsBytes input → length input ≤ limit → r input ≡ s input) where
  read_items_agree :
      (count : ℕ) (input : Bytes)
      → IsBytes input
      → length input ≤ limit
      → read_items r count input ≡ read_items s count input
  unfolding read_items
  read_items_agree zero input b h = refl
  read_items_agree (suc count) input b h = rw (← agree input b h) (
      bind_cong (ItemOf input) (r input) _ _ (sound.at input b)
        λ x hx. rw (read_items_agree count x.1 hx.1 (omega arith)))

  read_pairs_agree :
      (count : ℕ) (last : Option ℕ) (input : Bytes)
      → IsBytes input
      → length input ≤ limit
      → read_pairs r count last input ≡ read_pairs s count last input
  unfolding read_pairs
  read_pairs_agree zero last input b h = refl
  read_pairs_agree (suc count) last input b h = rw (← agree input b h) (
      bind_cong (ItemOf input) (r input) _ _ (sound.at input b) λ x hx.
        bind_ext (expect_key x.0) _ _ λ key.
          bind_ext (fail_if (key_out_of_order last key) _) _ _ λ _.
            rw (← agree x.1 hx.1 (omega arith)) (
              bind_cong (ItemOf x.1) (r x.1) _ _ (sound.at x.1 hx.1)
                λ y hy. rw (read_pairs_agree count (some key) y.1 hy.1 (omega arith))))

  module _ (n : ℕ) (rest : Bytes) (b : IsBytes rest) (h : length rest ≤ limit) where
    read_array_agree : read_array r n rest ≡ read_array s n rest
    unfolding read_array
    read_array_agree = bind_ext (to_usize "array too large" n) _ _ λ count.
        bind_ext (fail_if (ltb (length rest) count) _) _ _ λ _. rw (read_items_agree count rest b h)

    read_map_agree : read_map r n rest ≡ read_map s n rest
    unfolding read_map
    read_map_agree = bind_ext (to_usize "map too large" n) _ _ λ count.
        bind_ext (fail_if (ltb (length rest) count) _) _ _
          λ _. rw (read_pairs_agree count none rest b h)

    read_body_agree : (major : ℕ) → read_body r (major, n, rest) ≡ read_body s (major, n, rest)
    unfolding read_body
    read_body_agree major = rw (read_array_agree, read_map_agree)

-- Any two amounts of fuel that are not below the length of the input give the same result.
pub read_value_fuel :
    (f g : ℕ) (input : Bytes)
    → IsBytes input
    → length input ≤ f
    → length input ≤ g
    → read_value f input ≡ read_value g input
unfolding read_value
read_value_fuel zero zero input b hf hg = refl
read_value_fuel zero (suc g) [] b hf hg = unfold read_head in refl
read_value_fuel zero (suc g) (x ∷ xs) b hf hg = absurd (omega arith)
read_value_fuel (suc f) zero [] b hf hg = unfold read_head in refl
read_value_fuel (suc f) zero (x ∷ xs) b hf hg = absurd (omega arith)
read_value_fuel (suc f) (suc g) input b hf hg =
    bind_cong (HeadOf input) (read_head input) _ _ (read_head_sound input b) λ h hh.
      read_body_agree (read_value f) (read_value g) (length h.2) (read_value-IsSound f)
        (λ i bi li. read_value_fuel f g i bi (omega arith) (omega arith)) h.1 h.2 hh.2 (omega arith)
        h.0
