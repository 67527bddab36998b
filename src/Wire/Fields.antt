-- ===== src/Wire/Fields.antt =====
-- The steps by which the wire messages read their CBOR maps: crates/nemo-wire/src/card.rs,
-- revocation.rs and hostframe.rs.
use nemo_messenger.Prelude.{
  ℕ, ◌≡◌, true, false, some, length, ◌==◌, if◌then◌else◌, arith, ltb, Bool-cases, inl, inr,
}
use nemo_messenger.Prelude.Bytes.{Bytes}
use nemo_messenger.Prelude.Result.{ok, err, ◌>>=◌, fail_if}
use nemo_messenger.Wire.Error.{WireError, WireResult, cbor, unknown_version}
use nemo_messenger.Wire.Ids.{protocol_version, copy_fixed, copy_fixed_exact}
use nemo_messenger.Wire.Cbor.{
  Value, uint, bytes, text, map, Pairs, encode, decode, map_get_opt, map_get, expect_bytes,
  expect_text, expect_uint,
}
use nemo_messenger.Wire.Cbor.Canonical.{IsWire}
use nemo_messenger.Wire.Cbor.RoundTrip.{decode-encode}
use Prim.Native.String.{String}

abbrev the_map : String → Value → WireResult Pairs
the_map what (map m) = ok m
the_map what _ = err (cbor what)

-- `let Value::Map(m) = cbor::decode(bytes)? else { return Err(..) }`
unfoldable pub decode_map : String → Bytes → WireResult Pairs
decode_map what input = do v ← decode input; the_map what v

-- `copy_fixed(cbor::expect_bytes(cbor::map_get(m, key)?)?)?`
unfoldable pub fixed_field : Pairs → ℕ → ℕ → WireResult Bytes
unfolding map_get expect_bytes copy_fixed
fixed_field m key n = do v ← map_get m key; b ← expect_bytes v; copy_fixed n b

-- `cbor::expect_bytes(cbor::map_get(m, key)?)?.to_vec()`
unfoldable pub bytes_field : Pairs → ℕ → WireResult Bytes
unfolding map_get expect_bytes
bytes_field m key = do v ← map_get m key; expect_bytes v

-- `cbor::expect_text(cbor::map_get(m, key)?)?.to_owned()`
unfoldable pub text_field : Pairs → ℕ → WireResult Bytes
unfolding map_get expect_text
text_field m key = do v ← map_get m key; expect_text v

-- `cbor::expect_uint(cbor::map_get(m, key)?)?`
unfoldable pub uint_field : Pairs → ℕ → WireResult ℕ
unfolding map_get expect_uint
uint_field m key = do v ← map_get m key; expect_uint v

-- Key 0 must hold the protocol version.
unfoldable pub check_version : Pairs → WireResult (Unit {0})
unfolding uint_field
check_version m = do
  version ← uint_field m 0
  fail_if (if version == protocol_version then false else true) (unknown_version version)

pub fixed_field-some :
    (m : Pairs) (key n : ℕ) (b : Bytes)
    → map_get_opt m key ≡ some (bytes b)
    → length b ≡ n
    → fixed_field m key n ≡ ok b
unfolding fixed_field
fixed_field-some m key n b e h = rw (e, map_get, expect_bytes) (copy_fixed_exact n b h)

pub bytes_field-some :
    (m : Pairs) (key : ℕ) (b : Bytes)
    → map_get_opt m key ≡ some (bytes b)
    → bytes_field m key ≡ ok b
unfolding bytes_field
bytes_field-some m key b e = rw (e, map_get, expect_bytes)

pub text_field-some :
    (m : Pairs) (key : ℕ) (b : Bytes) → map_get_opt m key ≡ some (text b) → text_field m key ≡ ok b
unfolding text_field
text_field-some m key b e = rw (e, map_get, expect_text)

pub uint_field-some :
    (m : Pairs) (key n : ℕ) → map_get_opt m key ≡ some (uint n) → uint_field m key ≡ ok n
unfolding uint_field
uint_field-some m key n e = rw (e, map_get, expect_uint)

-- What was encoded as a map is read as that map.
pub decode_map-encode :
    (what : String) (m : Pairs) → IsWire (map m) → decode_map what (encode (map m)) ≡ ok m
unfolding decode_map
decode_map-encode what m w = rw (decode-encode (map m) w, the_map)

-- The result of an encoder with a size limit.
pub within_limit :
    (max : ℕ) (out : Bytes) (e : WireError) {b : Bytes}
    → (if ltb max (length out) then err e else ok out) ≡ ok b
    → (out ≡ b) × (ltb max (length b) ≡ false)
within_limit max out e h = elim (Bool-cases (ltb max (length out))) [
  | inl over ↦ ground arith
  | inr fits ↦ let same : out ≡ _ = ground arith in (same, rw (same) at fits)
]
