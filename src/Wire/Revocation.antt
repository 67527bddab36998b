-- ===== src/Wire/Revocation.antt =====
-- crates/nemo-wire/src/revocation.rs: the statement that an identity is revoked.
use nemo_messenger.Prelude.{ℕ, ◌<◌, ◌≡◌, refl, [], true, false, if◌then◌else◌, arith}
use nemo_messenger.Prelude.Bytes.{Bytes, beq, IsArray}
use nemo_messenger.Prelude.Result.{ok, ◌>>=◌, ◌>>◌, fail_if}
use nemo_messenger.Wire.Error.{WireResult, bad_revocation_status}
use nemo_messenger.Wire.Ids.{key_len, sig_len, protocol_version, copy_fixed_exact}
use nemo_messenger.Wire.Cbor.{Pairs, uint, bytes, text, map, end, pair, encode, u64_mod}
use nemo_messenger.Wire.Cbor.Canonical.{IsWire}
use nemo_messenger.Wire.Cbor.Utf8.{utf8_valid}
use nemo_messenger.Wire.Fields.{
  decode_map, fixed_field, text_field, uint_field, check_version, decode_map-encode,
}
use nemo_messenger.Wire.Sign.{Crypto, sign, verify, ascii, revocation}

pub record RevocationStatement : Type 0 where
  pub identity_id : Bytes
  pub coarse_timestamp : ℕ
  pub signature : Bytes

unfoldable pub revocation_unsigned_cbor : RevocationStatement → Bytes
revocation_unsigned_cbor s = encode (
    map (
      pair 0 (uint protocol_version) (
        pair 1 (bytes s.identity_id)
          (pair 2 (text (ascii "revoked")) (pair 3 (uint s.coarse_timestamp) end)))))

abbrev pub revocation_pairs : RevocationStatement → Pairs
revocation_pairs s = pair 0 (uint protocol_version) (
    pair 1 (bytes s.identity_id) (
      pair 2 (text (ascii "revoked"))
        (pair 3 (uint s.coarse_timestamp) (pair 4 (bytes s.signature) end))))

unfoldable pub revocation_encode : RevocationStatement → Bytes
revocation_encode s = encode (map (revocation_pairs s))

unfoldable pub revocation_decode : Bytes → WireResult RevocationStatement
unfolding decode_map check_version fixed_field text_field uint_field
revocation_decode input = do
  m ← decode_map "revocation must be a map" input
  check_version m
  status ← text_field m 2
  fail_if (if beq status (ascii "revoked") then false else true) bad_revocation_status
  identity_id ← fixed_field m 1 key_len
  coarse_timestamp ← uint_field m 3
  sig ← fixed_field m 4 sig_len
  ok (record { identity_id = identity_id; coarse_timestamp = coarse_timestamp; signature = sig })

module _ (crypto : Crypto) where
  unfoldable pub revocation_sign : Bytes → Bytes → ℕ → WireResult RevocationStatement
  unfolding sign
  revocation_sign secret identity_id coarse_timestamp = do
    let blank : RevocationStatement = record {
      identity_id = identity_id;
      coarse_timestamp = coarse_timestamp;
      signature = [];
    }
    sig ← sign crypto secret revocation (revocation_unsigned_cbor blank)
    ok (record blank { signature = sig })

  unfoldable pub revocation_verify : RevocationStatement → Bytes → WireResult (Unit {0})
  unfolding verify
  revocation_verify s pk = verify crypto pk revocation (revocation_unsigned_cbor s) s.signature

-- What the Rust types of the fields promise.
pub record IsStatement (s : RevocationStatement) : Type 0 where
  pub identity_id : IsArray key_len s.identity_id
  pub coarse_timestamp : s.coarse_timestamp < u64_mod
  pub signature : IsArray sig_len s.signature

revoked_utf8 : utf8_valid (ascii "revoked") ≡ true
unfolding utf8_valid
revoked_utf8 = refl

revocation_IsWire : (s : RevocationStatement) → IsStatement s → IsWire (map (revocation_pairs s))
revocation_IsWire s w = ground (arith, revoked_utf8)

-- A revocation statement comes back from its encoding.
pub revocation_decode-revocation_encode :
    (s : RevocationStatement) → IsStatement s → revocation_decode (revocation_encode s) ≡ ok s
unfolding revocation_encode revocation_decode beq
revocation_decode-revocation_encode s w =
    rw (decode_map-encode "revocation must be a map" (revocation_pairs s) (revocation_IsWire s w)) (
      rw (
        copy_fixed_exact key_len s.identity_id w.identity_id.1,
        copy_fixed_exact sig_len s.signature w.signature.1,
      ))
