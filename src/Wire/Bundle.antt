-- ===== src/Wire/Bundle.antt =====
-- crates/nemo-wire/src/hostframe.rs: `ServerBundle` and `ServerSignRotate`, what servers pin of each
-- other.
use nemo_messenger.Prelude.{ℕ, ◌<◌, ◌≡◌, [], true, false, if◌then◌else◌, arith}
use nemo_messenger.Prelude.Bytes.{Bytes, IsArray, beq}
use nemo_messenger.Prelude.Result.{ok, ◌>>=◌, ◌>>◌, fail_if}
use nemo_messenger.Wire.Error.{WireResult, server_id_mismatch, signature}
use nemo_messenger.Wire.Ids.{key_len, sig_len, protocol_version, copy_fixed_exact}
use nemo_messenger.Wire.Cbor.{Pairs, uint, bytes, text, map, end, pair, encode, u64_mod}
use nemo_messenger.Wire.Cbor.Canonical.{IsWire}
use nemo_messenger.Wire.Fields.{
  decode_map, fixed_field, text_field, uint_field, check_version, decode_map-encode,
}
use nemo_messenger.Wire.Sign.{Crypto, sign, verify, server_bundle, server_sign_rotate}

pub record ServerBundle : Type 0 where
  pub server_id : Bytes
  pub server_hpke_public_key : Bytes
  pub server_sign_public_key : Bytes
  pub host : Bytes
  pub s2s_port : ℕ
  pub signature : Bytes

unfoldable pub bundle_unsigned_cbor : ServerBundle → Bytes
bundle_unsigned_cbor b = encode (
    map (
      pair 0 (uint protocol_version) (
        pair 1 (bytes b.server_id) (
          pair 2 (bytes b.server_hpke_public_key) (
            pair 3 (bytes b.server_sign_public_key)
              (pair 4 (text b.host) (pair 5 (uint b.s2s_port) end)))))))

abbrev pub bundle_pairs : ServerBundle → Pairs
bundle_pairs b = pair 0 (uint protocol_version) (
    pair 1 (bytes b.server_id) (
      pair 2 (bytes b.server_hpke_public_key) (
        pair 3 (bytes b.server_sign_public_key)
          (pair 4 (text b.host) (pair 5 (uint b.s2s_port) (pair 6 (bytes b.signature) end))))))

unfoldable pub bundle_encode : ServerBundle → Bytes
bundle_encode b = encode (map (bundle_pairs b))

unfoldable pub bundle_decode : Bytes → WireResult ServerBundle
unfolding decode_map check_version fixed_field text_field uint_field
bundle_decode input = do
  m ← decode_map "server bundle must be a map" input
  check_version m
  server_id ← fixed_field m 1 key_len
  server_hpke_public_key ← fixed_field m 2 key_len
  server_sign_public_key ← fixed_field m 3 key_len
  host ← text_field m 4
  s2s_port ← uint_field m 5
  sig ← fixed_field m 6 sig_len
  ok (record {
    server_id = server_id;
    server_hpke_public_key = server_hpke_public_key;
    server_sign_public_key = server_sign_public_key;
    host = host;
    s2s_port = s2s_port;
    signature = sig;
  })

pub record ServerSignRotate : Type 0 where
  pub new_public_key : Bytes
  pub seq : ℕ
  pub signature : Bytes

unfoldable pub rotate_unsigned_cbor : ServerSignRotate → Bytes
rotate_unsigned_cbor r = encode (map (pair 0 (bytes r.new_public_key) (pair 1 (uint r.seq) end)))

module _ (crypto : Crypto) where
  unfoldable pub bundle_sign : Bytes → ServerBundle → WireResult ServerBundle
  unfolding sign
  bundle_sign secret b = do
    fail_if (if beq b.server_id (crypto.sha256 b.server_hpke_public_key) then false else true)
        server_id_mismatch
    fail_if (if beq b.server_sign_public_key (crypto.public_key secret) then false else true)
        signature
    sig ← sign crypto secret server_bundle (bundle_unsigned_cbor b)
    ok (record b { signature = sig })

  unfoldable pub bundle_verify : ServerBundle → WireResult (Unit {0})
  unfolding verify
  bundle_verify b = do
    fail_if (if beq b.server_id (crypto.sha256 b.server_hpke_public_key) then false else true)
        server_id_mismatch
    fail_if (if crypto.key_ok b.server_sign_public_key then false else true) signature
    verify crypto b.server_sign_public_key server_bundle (bundle_unsigned_cbor b) b.signature

  unfoldable pub rotate_sign : Bytes → Bytes → ℕ → WireResult ServerSignRotate
  unfolding sign
  rotate_sign secret new_public_key seq = do
    let blank : ServerSignRotate = record {
      new_public_key = new_public_key;
      seq = seq;
      signature = [];
    }
    sig ← sign crypto secret server_sign_rotate (rotate_unsigned_cbor blank)
    ok (record blank { signature = sig })

  unfoldable pub rotate_verify : ServerSignRotate → Bytes → WireResult (Unit {0})
  unfolding verify
  rotate_verify r pk = verify crypto pk server_sign_rotate (rotate_unsigned_cbor r) r.signature

-- What the Rust types of the fields promise.
pub record IsBundle (b : ServerBundle) : Type 0 where
  pub server_id : IsArray key_len b.server_id
  pub server_hpke_public_key : IsArray key_len b.server_hpke_public_key
  pub server_sign_public_key : IsArray key_len b.server_sign_public_key
  pub host : IsWire (text b.host)
  pub s2s_port : b.s2s_port < u64_mod
  pub signature : IsArray sig_len b.signature

bundle_IsWire : (b : ServerBundle) → IsBundle b → IsWire (map (bundle_pairs b))
bundle_IsWire b w = ground arith

-- A server bundle comes back from its encoding.
pub bundle_decode-bundle_encode :
    (b : ServerBundle) → IsBundle b → bundle_decode (bundle_encode b) ≡ ok b
unfolding bundle_encode bundle_decode
bundle_decode-bundle_encode b w =
    rw (decode_map-encode "server bundle must be a map" (bundle_pairs b) (bundle_IsWire b w)) (
      rw (
        copy_fixed_exact key_len b.server_id w.server_id.1,
        copy_fixed_exact key_len b.server_hpke_public_key w.server_hpke_public_key.1,
        copy_fixed_exact key_len b.server_sign_public_key w.server_sign_public_key.1,
        copy_fixed_exact sig_len b.signature w.signature.1,
      ))
