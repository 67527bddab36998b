-- ===== src/Wire/S2s/RoundTrip.antt =====
-- Frames and payloads of the server-to-server link come back from their encoding
-- (crates/nemo-wire/src/hostframe.rs).
use nemo_messenger.Prelude.{
  ℕ, ◌+◌, ◌<◌, ◌^◌, ◌≡◌, refl, ◌∙◌, ◌++◌, true, false, length, take, drop, ltb, leb, le→ltb, arith,
  length-append, take-append_eq, drop-append_eq, drop_past,
}
use nemo_messenger.Prelude.Bytes.{
  Bytes, IsArray, beq, to_be_bytes, from_be_bytes, length-to_be_bytes, from_be_bytes-to_be_bytes,
}
use nemo_messenger.Prelude.Result.{ok, ◌>>=◌}
use nemo_messenger.Wire.Ids.{key_len, copy_fixed_exact}
use nemo_messenger.Wire.Cbor.{map, Pairs, pair, end, uint, bytes, text, u64_mod}
use nemo_messenger.Wire.Cbor.Utf8.{utf8_valid}
use nemo_messenger.Wire.Cbor.Canonical.{IsWire}
use nemo_messenger.Wire.Cbor.RoundTrip.{decode-encode}
use nemo_messenger.Wire.Fields.{decode_map-encode}
use nemo_messenger.Wire.Sign.{ascii}
use nemo_messenger.Wire.S2s.{
  S2sFrame, frame_encode, frame_decode, hello, ok_seq, fail, hello_payload, ok_payload,
  fail_payload, parse_hello, parse_payload,
}

-- A frame with a `u64` counter and a payload whose length fits 32 bits comes back from its encoding.
pub frame_decode-frame_encode :
    (f : S2sFrame)
    → f.counter < 2 ^ 64
    → length f.payload < 2 ^ 32
    → (frame_encode f >>= frame_decode) ≡ ok f
unfolding frame_encode frame_decode
frame_decode-frame_encode f hc hp =
    let p = f.payload in
    let c : Bytes = to_be_bytes 8 f.counter in
    let len : Bytes = to_be_bytes 4 (length p) in
    let c_size : length c ≡ 8 = length-to_be_bytes 8 f.counter in
    let len_size : length len ≡ 4 = length-to_be_bytes 4 (length p) in
    let size : length (c ++ (len ++ p)) ≡ 8 + (4 + length p) =
      omega (arith, c_size, len_size, length-append len p, length-append c (len ++ p)) in
    let small : leb (length p) 4294967295 ≡ true = ground arith in
    let long : ltb (length (c ++ (len ++ p))) 12 ≡ false = le→ltb _ _ (omega (arith, size)) in
    let front : take 8 (c ++ (len ++ p)) ≡ c = take-append_eq 8 c (len ++ p) c_size in
    let field : take 4 (drop 8 (c ++ (len ++ p))) ≡ len =
      rw (drop-append_eq 8 c (len ++ p) c_size) (take-append_eq 4 len p len_size) in
    let rest : drop 12 (c ++ (len ++ p)) ≡ p =
      drop_past 8 12 4 c (len ++ p) c_size (omega arith) ∙ drop-append_eq 4 len p len_size in
    let counter : from_be_bytes c ≡ f.counter =
      from_be_bytes-to_be_bytes 8 f.counter (omega (arith, hc)) in
    let number : from_be_bytes len ≡ length p =
      from_be_bytes-to_be_bytes 4 (length p) (omega (arith, hp)) in
    rw (small) (rw (long, front, field, rest) (rw (counter, number) (ground arith)))

-- A hello is read as the hello of its two servers.
pub parse_payload-hello_payload :
    (s r : Bytes)
    → IsArray key_len s
    → IsArray key_len r
    → parse_payload (hello_payload s r) ≡ ok (hello s r)
unfolding parse_payload hello_payload parse_hello
parse_payload-hello_payload s r hs hr =
    let m : Pairs = pair 0 (uint 1) (pair 1 (bytes s) (pair 2 (bytes r) end)) in
    let w : IsWire (map m) = ground arith in
    rw (decode-encode (map m) w, decode_map-encode "hello must be a map" m w)
      (rw (copy_fixed_exact key_len s hs.1, copy_fixed_exact key_len r hr.1))

tags_utf8 : (utf8_valid (ascii "ok") ≡ true) × (utf8_valid (ascii "fail") ≡ true)
unfolding utf8_valid
tags_utf8 = (refl, refl)

-- An acknowledgement is read as that of its sequence number.
pub parse_payload-ok_payload :
    (seq : ℕ) → seq < u64_mod → parse_payload (ok_payload seq) ≡ ok (ok_seq seq)
unfolding parse_payload ok_payload beq
parse_payload-ok_payload seq h =
    let w : IsWire (map (pair 0 (text (ascii "ok")) (pair 1 (uint seq) end))) =
      ground (arith, tags_utf8) in
    rw (decode-encode (map (pair 0 (text (ascii "ok")) (pair 1 (uint seq) end))) w)

-- A refusal is read as a refusal.
pub parse_payload-fail_payload : parse_payload fail_payload ≡ ok fail
unfolding parse_payload fail_payload beq
parse_payload-fail_payload =
    let w : IsWire (map (pair 0 (text (ascii "fail")) end)) = ground (arith, tags_utf8) in
    rw (decode-encode (map (pair 0 (text (ascii "fail")) end)) w)
