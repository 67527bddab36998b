-- ===== src/Wire/S2s.antt =====
-- crates/nemo-wire/src/hostframe.rs: `S2sFrame` and the payloads of the server-to-server link.
pub mod RoundTrip
use nemo_messenger.Prelude.{
  ℕ, ◌-◌, ◌<◌, ◌≡◌, refl, [], ◌++◌, Bool, true, false, Option, none, some, length, take, drop, ltb,
  leb, ◌==◌, if◌then◌else◌, arith, ◌^◌,
}
use nemo_messenger.Prelude.Bytes.{Bytes, IsBytes, IsArray, beq, beq_iff, to_be_bytes, from_be_bytes}
use nemo_messenger.Prelude.Result.{Result, ok, err, ◌>>=◌, ◌>>◌, fail_if}
use nemo_messenger.Wire.Error.{WireError, WireResult, bad_envelope, no_bucket, length_error}
use nemo_messenger.Wire.Ids.{key_len, protocol_version, copy_fixed_exact}
use nemo_messenger.Wire.Cbor.{
  Value, Pairs, uint, bytes, text, array, map, end, pair, encode, decode, map_get_opt, u64_mod,
  expect_uint,
}
use nemo_messenger.Wire.Fields.{decode_map, fixed_field, uint_field, check_version}
use nemo_messenger.Wire.Sign.{ascii}

pub record S2sFrame : Type 0 where
  pub counter : ℕ
  pub payload : Bytes

unfoldable pub frame_encode : S2sFrame → WireResult Bytes
frame_encode f =
    if leb (length f.payload) (2 ^ 32 - 1)
    then ok (to_be_bytes 8 f.counter ++ (to_be_bytes 4 (length f.payload) ++ f.payload))
    else err no_bucket

unfoldable pub frame_decode : Bytes → WireResult S2sFrame
frame_decode input = do
  fail_if (ltb (length input) 12) bad_envelope
  let counter = from_be_bytes (take 8 input)
  let n = from_be_bytes (take 4 (drop 8 input))
  let rest = drop 12 input
  fail_if (if length rest == n then false else true) (length_error n (length rest))
  ok (record { counter = counter; payload = rest })

unfoldable pub hello_payload : Bytes → Bytes → Bytes
hello_payload sender receiver =
    encode
      (map (pair 0 (uint protocol_version) (pair 1 (bytes sender) (pair 2 (bytes receiver) end))))

unfoldable pub ok_payload : ℕ → Bytes
ok_payload seq = encode (map (pair 0 (text (ascii "ok")) (pair 1 (uint seq) end)))

unfoldable pub fail_payload : Bytes
fail_payload = encode (map (pair 0 (text (ascii "fail")) end))

pub data S2sPayload : Type 0 where
  hello : Bytes → Bytes → S2sPayload
  ok_seq : ℕ → S2sPayload
  fail : S2sPayload
  ciphertext : Bytes → S2sPayload

unfoldable pub parse_hello : Bytes → WireResult (Bytes × Bytes)
unfolding decode_map check_version fixed_field
parse_hello input = do
  m ← decode_map "hello must be a map" input
  check_version m
  sender ← fixed_field m 1 key_len
  receiver ← fixed_field m 2 key_len
  ok (sender, receiver)

-- The branches of `parse_payload` on the value under key 0 of the map.
abbrev parse_text : Bytes → Pairs → Bytes → WireResult S2sPayload
parse_text input m s =
    if beq s (ascii "ok")
    then (do seq ← uint_field m 1; ok (ok_seq seq))
    else if beq s (ascii "fail")
    then ok fail
    else ok (ciphertext input)

abbrev parse_tagged : Bytes → Pairs → Option Value → WireResult S2sPayload
parse_tagged input m (some (uint n)) =
    if n == 1
    then (do (sender, receiver) ← parse_hello input; ok (hello sender receiver))
    else ok (ciphertext input)
parse_tagged input m (some (text s)) = parse_text input m s
parse_tagged input m _ = ok (ciphertext input)

abbrev parse_value : Bytes → WireResult Value → WireResult S2sPayload
parse_value input (ok (map m)) = parse_tagged input m (map_get_opt m 0)
parse_value input _ = ok (ciphertext input)

unfoldable pub parse_payload : Bytes → WireResult S2sPayload
unfolding parse_hello uint_field map_get_opt
parse_payload input = parse_value input (decode input)
