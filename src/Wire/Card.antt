-- ===== src/Wire/Card.antt =====
-- crates/nemo-wire/src/card.rs: home-server bindings and contact cards. The URI form is not modelled.
pub mod RoundTrip
use nemo_messenger.Prelude.{
  ℕ, Bool, true, false, ◌||◌, List, [], ◌∷◌, length, ltb, ◌==◌, if◌then◌else◌, add64,
}
use nemo_messenger.Prelude.Bytes.{Bytes, beq}
use nemo_messenger.Prelude.Result.{Result, ok, err, ◌>>=◌, ◌>>◌, fail_if}
use nemo_messenger.Wire.Error.{
  WireResult, bad_host, server_id_mismatch, binding_expired, card_too_large, signature,
}
use nemo_messenger.Wire.Ids.{key_len, sig_len, protocol_version}
use nemo_messenger.Wire.Cbor.{
  Value, uint, bytes, text, map, Pairs, end, pair, encode, expect_map, map_get,
}
use nemo_messenger.Wire.Fields.{decode_map, fixed_field, text_field, uint_field, check_version}
use nemo_messenger.Wire.Sign.{Crypto, sign, verify, home_server_binding}

abbrev pub card_max_bytes : ℕ
card_max_bytes = 400

abbrev pub host_max_bytes : ℕ
host_max_bytes = 64

abbrev pub clock_skew_secs : ℕ
clock_skew_secs = 300

pub record HomeServerBinding : Type 0 where
  pub server_id : Bytes
  pub server_hpke_public_key : Bytes
  pub host : Bytes
  pub seq : ℕ
  pub expires_at : ℕ
  pub signature : Bytes

-- `host.contains(c)`
abbrev pub has_byte : ℕ → Bytes → Bool
has_byte c [] = false
has_byte c (b ∷ bs) = b == c || has_byte c bs

-- A text with "://" holds a colon, so the third test of the source adds nothing.
unfoldable pub validate_host : Bytes → WireResult (Unit {0})
validate_host host = do
  fail_if (length host == 0 || ltb host_max_bytes (length host)) bad_host
  fail_if (has_byte b'/' host || has_byte b':' host) bad_host

unfoldable pub binding_unsigned_cbor : HomeServerBinding → Bytes
binding_unsigned_cbor b = encode (
    map (
      pair 0 (bytes b.server_id) (
        pair 1 (bytes b.server_hpke_public_key)
          (pair 2 (text b.host) (pair 3 (uint b.seq) (pair 4 (uint b.expires_at) end))))))

unfoldable pub binding_to_cbor_value : HomeServerBinding → Value
binding_to_cbor_value b = map (
    pair 0 (bytes b.server_id) (
      pair 1 (bytes b.server_hpke_public_key) (
        pair 2 (text b.host)
          (pair 3 (uint b.seq) (pair 4 (uint b.expires_at) (pair 5 (bytes b.signature) end))))))

unfoldable pub binding_from_cbor_value : Value → WireResult HomeServerBinding
unfolding expect_map fixed_field text_field uint_field
binding_from_cbor_value v = do
  m ← expect_map v
  server_id ← fixed_field m 0 key_len
  server_hpke_public_key ← fixed_field m 1 key_len
  host ← text_field m 2
  seq ← uint_field m 3
  expires_at ← uint_field m 4
  sig ← fixed_field m 5 sig_len
  ok (record {
    server_id = server_id;
    server_hpke_public_key = server_hpke_public_key;
    host = host;
    seq = seq;
    expires_at = expires_at;
    signature = sig;
  })

pub record ContactCard : Type 0 where
  pub identity_public_key : Bytes
  pub revocation_public_key : Bytes
  pub share_token : Bytes
  pub binding : HomeServerBinding

abbrev pub card_pairs : ContactCard → Pairs
card_pairs c = pair 0 (uint protocol_version) (
    pair 1 (bytes c.identity_public_key) (
      pair 2 (bytes c.revocation_public_key)
        (pair 3 (bytes c.share_token) (pair 4 (binding_to_cbor_value c.binding) end))))

unfoldable pub card_encode : ContactCard → WireResult Bytes
card_encode c =
    let out = encode (map (card_pairs c)) in
    if ltb card_max_bytes (length out) then err card_too_large else ok out

unfoldable pub card_decode : Bytes → WireResult ContactCard
unfolding decode_map check_version fixed_field map_get binding_from_cbor_value
card_decode input = do
  fail_if (ltb card_max_bytes (length input)) card_too_large
  m ← decode_map "card must be a map" input
  check_version m
  identity_public_key ← fixed_field m 1 key_len
  revocation_public_key ← fixed_field m 2 key_len
  share_token ← fixed_field m 3 key_len
  v ← map_get m 4
  binding ← binding_from_cbor_value v
  ok (record {
    identity_public_key = identity_public_key;
    revocation_public_key = revocation_public_key;
    share_token = share_token;
    binding = binding;
  })

module _ (crypto : Crypto) where
  unfoldable pub binding_sign : Bytes → HomeServerBinding → WireResult HomeServerBinding
  unfolding validate_host sign
  binding_sign secret b = do
    validate_host b.host
    fail_if (if beq b.server_id (crypto.sha256 b.server_hpke_public_key) then false else true)
        server_id_mismatch
    sig ← sign crypto secret home_server_binding (binding_unsigned_cbor b)
    ok (record b { signature = sig })

  -- `self.expires_at + CLOCK_SKEW_SECS` wraps around in a release build.
  unfoldable pub binding_verify : HomeServerBinding → Bytes → ℕ → WireResult (Unit {0})
  unfolding validate_host verify
  binding_verify b pk now_unix = do
    validate_host b.host
    fail_if (if beq b.server_id (crypto.sha256 b.server_hpke_public_key) then false else true)
        server_id_mismatch
    fail_if (ltb (add64 b.expires_at clock_skew_secs) now_unix) binding_expired
    verify crypto pk home_server_binding (binding_unsigned_cbor b) b.signature

  unfoldable pub card_verify : ContactCard → ℕ → WireResult (Unit {0})
  unfolding binding_verify
  card_verify c now_unix = do
    fail_if (if crypto.key_ok c.identity_public_key then false else true) signature
    binding_verify c.binding c.identity_public_key now_unix
