-- ===== src/Wire/Envelope/Outer.antt =====
-- crates/nemo-wire/src/envelope.rs: the outer envelope, a destination and a ciphertext with its length.
use nemo_messenger.Prelude.{
  ◌+◌, ◌^◌, ◌<◌, ◌≡◌, ◌∙◌, false, ◌++◌, arith, length, length-append, take, take-append_eq, drop,
  drop_past, drop-append_eq, ltb, le→ltb,
}
use nemo_messenger.Prelude.Bytes.{
  Bytes, to_be_bytes, from_be_bytes, length-to_be_bytes, from_be_bytes-to_be_bytes,
}
use nemo_messenger.Prelude.Result.{ok}
use nemo_messenger.Wire.Ids.{key_len}
use nemo_messenger.Wire.Envelope.{OuterEnvelope, encode_outer, decode_outer}

-- The outer envelope comes back from its bytes: the destination has 32 bytes, and the length of the
-- ciphertext fits the 32-bit field.
pub decode-encode_outer :
    (e : OuterEnvelope)
    → length e.destination_server_id ≡ key_len
    → length e.hpke_ciphertext < 2 ^ 32
    → decode_outer (encode_outer e) ≡ ok e
unfolding decode_outer encode_outer
decode-encode_outer e hd hc =
    let dest = e.destination_server_id in
    let ct = e.hpke_ciphertext in
    let len : Bytes = to_be_bytes 4 (length ct) in
    let len_size : length len ≡ 4 = length-to_be_bytes 4 (length ct) in
    let size : length (dest ++ (len ++ ct)) ≡ key_len + (4 + length ct) =
      omega (arith, hd, len_size, length-append len ct, length-append dest (len ++ ct)) in
    let long : ltb (length (encode_outer e)) (1 + key_len + 4) ≡ false =
      le→ltb _ _ (omega (arith, size)) in
    let front : take key_len (dest ++ (len ++ ct)) ≡ dest =
      take-append_eq key_len dest (len ++ ct) hd in
    let field : take 4 (drop 32 (dest ++ (len ++ ct))) ≡ len =
      rw (drop-append_eq 32 dest (len ++ ct) hd) (take-append_eq 4 len ct len_size) in
    let rest : drop 36 (dest ++ (len ++ ct)) ≡ ct =
      drop_past 32 36 4 dest (len ++ ct) hd (omega arith) ∙ drop-append_eq 4 len ct len_size in
    let number : from_be_bytes len ≡ length ct =
      from_be_bytes-to_be_bytes 4 (length ct) (omega (arith, hc)) in
    rw (long, front, hd) (rw (field, rest, number) (ground arith))
