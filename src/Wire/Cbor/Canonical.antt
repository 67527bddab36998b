-- ===== src/Wire/Cbor/Canonical.antt =====
-- The values that crates/nemo-wire/src/cbor.rs can hold and write: `u64` numbers and lengths, bytes
-- in range, texts in UTF-8, and map keys in strictly increasing order, as `read_value` demands them.
use nemo_messenger.Prelude.{ℕ, ◌<◌, ◌≡◌, true, Option, none, some, length}
use nemo_messenger.Prelude.Bytes.{IsBytes}
use nemo_messenger.Wire.Cbor.{
  Value, uint, bytes, text, array, map, Values, nil, cons, Pairs, end, pair, length_values,
  length_pairs, u64_mod,
}
use nemo_messenger.Wire.Cbor.Utf8.{utf8_valid}

abbrev pub Above : Option ℕ → ℕ → Type 0
Above none k = Unit
Above (some j) k = j < k

-- Every key is above the one before it, the first above `last`.
abbrev pub IsAscending : Option ℕ → Pairs → Type 0
IsAscending last end = Unit
IsAscending last (pair k v ps) = Above last k × IsAscending (some k) ps

abbrev mutual
  pub IsWire : Value → Type 0
  IsWire (uint n) = n < u64_mod
  IsWire (bytes b) = IsBytes b × (length b < u64_mod)
  IsWire (text s) = IsBytes s × (length s < u64_mod) × (utf8_valid s ≡ true)
  IsWire (array vs) = (length_values vs < u64_mod) × IsWireValues vs
  IsWire (map ps) = (length_pairs ps < u64_mod) × IsAscending none ps × IsWirePairs ps

  pub IsWireValues : Values → Type 0
  IsWireValues nil = Unit
  IsWireValues (cons v vs) = IsWire v × IsWireValues vs

  pub IsWirePairs : Pairs → Type 0
  IsWirePairs end = Unit
  IsWirePairs (pair k v ps) = (k < u64_mod) × IsWire v × IsWirePairs ps
