-- ===== src/Wire/Cbor.antt =====
-- crates/nemo-wire/src/cbor.rs: the values, the encoder, the decoder and the map accessors.
-- `usize` is that of a 64-bit target. `String` is its UTF-8 bytes; `from_utf8` is the automaton below.
pub mod Utf8
pub mod Head
pub mod Canonical
pub mod RoundTrip
pub mod Sound
pub mod Fuel
use nemo_messenger.Prelude.{
  ℕ, zero, suc, ◌+◌, ◌*◌, ◌/◌, ◌^◌, ◌-◌, bit_and, bit_or, Bool, true, false, Option, none, some,
  List, [], ◌∷◌, ◌++◌, ltb, leb, ◌==◌, if◌then◌else◌, length, take, drop,
}
use nemo_messenger.Prelude.Bytes.{Bytes, to_be_bytes, from_be_bytes}
use nemo_messenger.Prelude.Result.{Result, ok, err, ◌>>=◌, ◌>>◌, fail_if, ok_or}
use nemo_messenger.Wire.Error.{WireError, WireResult, cbor}
use Prim.Native.String.{String}
use Utf8.{utf8_valid}

mutual
  pub data Value : Type 0 where
    uint : ℕ → Value
    bytes : Bytes → Value
    text : Bytes → Value
    array : Values → Value
    map : Pairs → Value

  -- `Vec<Value>`
  pub data Values : Type 0 where
    nil : Values
    cons : Value → Values → Values

  -- `Vec<(u64, Value)>`
  pub data Pairs : Type 0 where
    end : Pairs
    pair : ℕ → Value → Pairs → Pairs

abbrev pub length_values : Values → ℕ
length_values nil = 0
length_values (cons v vs) = suc (length_values vs)

abbrev pub length_pairs : Pairs → ℕ
length_pairs end = 0
length_pairs (pair k v ps) = suc (length_pairs ps)

abbrev pub u64_mod : ℕ
u64_mod = 2 ^ 64

-- The head of an item: the major type in the three high bits of the first byte.
unfoldable pub write_head : ℕ → ℕ → Bytes
write_head major n =
    if ltb n 24
    then bit_or (major * 32) n ∷ []
    else if leb n 255
    then bit_or (major * 32) 24 ∷ n ∷ []
    else if leb n 65535
    then bit_or (major * 32) 25 ∷ to_be_bytes 2 n
    else if leb n 4294967295
    then bit_or (major * 32) 26 ∷ to_be_bytes 4 n
    else bit_or (major * 32) 27 ∷ to_be_bytes 8 n

-- `sort_by_key` is stable; it compares the keys alone, so it sorts the entries as encoded.
unfoldable pub insert_by_key : ℕ × Bytes → List (ℕ × Bytes) → List (ℕ × Bytes)
insert_by_key (k, e) [] = (k, e) ∷ []
insert_by_key (k, e) ((j, d) ∷ l) =
    let rest = insert_by_key (k, e) l in if leb k j then (k, e) ∷ (j, d) ∷ l else (j, d) ∷ rest

unfoldable pub sort_by_key : List (ℕ × Bytes) → List (ℕ × Bytes)
sort_by_key [] = []
sort_by_key (e ∷ l) = insert_by_key e (sort_by_key l)

unfoldable pub concat_entries : List (ℕ × Bytes) → Bytes
concat_entries [] = []
concat_entries ((k, e) ∷ l) = write_head 0 k ++ (e ++ concat_entries l)

unfoldable mutual
  -- What `write_value` appends to its output.
  pub write_value : Value → Bytes
  write_value (uint n) = write_head 0 n
  write_value (bytes b) = write_head 2 (length b) ++ b
  write_value (text s) = write_head 3 (length s) ++ s
  write_value (array vs) = write_head 4 (length_values vs) ++ write_values vs
  write_value (map ps) =
      write_head 5 (length_pairs ps) ++ concat_entries (sort_by_key (write_entries ps))

  pub write_values : Values → Bytes
  write_values nil = []
  write_values (cons v vs) = write_value v ++ write_values vs

  pub write_entries : Pairs → List (ℕ × Bytes)
  write_entries end = []
  write_entries (pair k v ps) = (k, write_value v) ∷ write_entries ps

unfoldable pub encode : Value → Bytes
encode v = write_value v

-- The `k` bytes of a big-endian argument, and what follows them.
unfoldable pub read_argument : ℕ → String → ℕ → Bytes → WireResult (ℕ × ℕ × Bytes)
read_argument k truncated major rest =
    if ltb (length rest) k
    then err (cbor truncated)
    else ok (major, from_be_bytes (take k rest), drop k rest)

unfoldable pub read_head : Bytes → WireResult (ℕ × ℕ × Bytes)
unfolding read_argument
read_head [] = err (cbor "empty")
read_head (first ∷ rest) =
    let major = first / 2 ^ 5 in
    let ai = bit_and first 0x1f in
    if ltb ai 24
    then ok (major, ai, rest)
    else if ai == 24
    then read_argument 1 "truncated u8" major rest
    else if ai == 25
    then read_argument 2 "truncated u16" major rest
    else if ai == 26
    then read_argument 4 "truncated u32" major rest
    else if ai == 27
    then read_argument 8 "truncated u64" major rest
    else err (cbor "indefinite or reserved additional info")

-- `usize::try_from(n)`
unfoldable pub to_usize : String → ℕ → WireResult ℕ
to_usize too_large n = if ltb n u64_mod then ok n else err (cbor too_large)

abbrev pub Reader : Type 0
Reader = Bytes → WireResult (Value × Bytes)

-- The loop over the elements of an array.
unfoldable pub read_items : Reader → ℕ → Bytes → WireResult (Values × Bytes)
read_items read zero rest = ok (nil, rest)
read_items read (suc count) rest = do
  (v, r) ← read rest
  (vs, r') ← read_items read count r
  ok (cons v vs, r')

abbrev pub expect_key : Value → WireResult ℕ
expect_key (uint n) = ok n
expect_key _ = err (cbor "map key must be uint")

-- `key <= prev` for the key before, if there is one.
abbrev pub key_out_of_order : Option ℕ → ℕ → Bool
key_out_of_order none key = false
key_out_of_order (some prev) key = leb key prev

-- The loop over the entries of a map.
unfoldable pub read_pairs : Reader → ℕ → Option ℕ → Bytes → WireResult (Pairs × Bytes)
read_pairs read zero last_key rest = ok (end, rest)
read_pairs read (suc count) last_key rest = do
  (k, r) ← read rest
  key ← expect_key k
  fail_if (key_out_of_order last_key key) (cbor "map keys not strictly increasing")
  (v, r') ← read r
  (ps, r'') ← read_pairs read count (some key) r'
  ok (pair key v ps, r'')

unfoldable pub read_string : String → ℕ → Bytes → WireResult (Bytes × Bytes)
read_string truncated n rest =
    if ltb (length rest) n then err (cbor truncated) else ok (take n rest, drop n rest)

-- The arms of major types 4 and 5.
unfoldable pub read_array : Reader → ℕ → Bytes → WireResult (Value × Bytes)
unfolding read_items to_usize
read_array read n rest = do
  count ← to_usize "array too large" n
  fail_if (ltb (length rest) count) (cbor "array too large")
  (vs, r) ← read_items read count rest
  ok (array vs, r)

unfoldable pub read_map : Reader → ℕ → Bytes → WireResult (Value × Bytes)
unfolding read_pairs to_usize
read_map read n rest = do
  count ← to_usize "map too large" n
  fail_if (ltb (length rest) count) (cbor "map too large")
  (ps, r) ← read_pairs read count none rest
  ok (map ps, r)

-- `match major`
unfoldable pub read_body : Reader → ℕ × ℕ × Bytes → WireResult (Value × Bytes)
unfolding read_string to_usize
read_body read (major, n, rest) =
    if major == 0
    then ok (uint n, rest)
    else if major == 2
    then (do
      n' ← to_usize "bstr too large" n
      (b, r) ← read_string "truncated bstr" n' rest
      ok (bytes b, r))
    else if major == 3
    then (do
      n' ← to_usize "tstr too large" n
      (s, r) ← read_string "truncated tstr" n' rest
      fail_if (if utf8_valid s then false else true) (cbor "tstr not utf-8")
      ok (text s, r))
    else if major == 4
    then read_array read n rest
    else if major == 5
    then read_map read n rest
    else err (cbor "unsupported major type")

-- The recursion of `read_value` on fuel. Every call has taken a byte at least, so that fuel `length
-- input` never runs out before the input does, and an empty input is the error "empty" anyhow.
unfoldable pub read_value : ℕ → Reader
unfolding read_head read_body read_array read_map
read_value zero input = err (cbor "empty")
read_value (suc fuel) input = do h ← read_head input; read_body (read_value fuel) h

unfoldable pub decode : Bytes → WireResult Value
unfolding read_value
decode input = do
  (v, rest) ← read_value (length input) input
  fail_if (ltb 0 (length rest)) (cbor "trailing bytes")
  ok v

unfoldable pub map_get_opt : Pairs → ℕ → Option Value
map_get_opt end key = none
map_get_opt (pair k v ps) key = if k == key then some v else map_get_opt ps key

unfoldable pub map_get : Pairs → ℕ → WireResult Value
unfolding map_get_opt
map_get ps key = ok_or (map_get_opt ps key) (cbor "missing map key")

unfoldable pub expect_bytes : Value → WireResult Bytes
expect_bytes (bytes b) = ok b
expect_bytes _ = err (cbor "expected bstr")

unfoldable pub expect_text : Value → WireResult Bytes
expect_text (text s) = ok s
expect_text _ = err (cbor "expected tstr")

unfoldable pub expect_uint : Value → WireResult ℕ
expect_uint (uint n) = ok n
expect_uint _ = err (cbor "expected uint")

unfoldable pub expect_map : Value → WireResult Pairs
expect_map (map ps) = ok ps
expect_map _ = err (cbor "expected map")

unfoldable pub expect_array : Value → WireResult Values
expect_array (array vs) = ok vs
expect_array _ = err (cbor "expected array")
