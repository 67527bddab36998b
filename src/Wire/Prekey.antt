-- ===== src/Wire/Prekey.antt =====
-- crates/nemo-wire/src/prekey.rs: the signed prekey that a home server hands out unread.
use nemo_messenger.Prelude.{ℕ, ◌<◌, ◌≡◌, [], true, false, if◌then◌else◌, length, arith}
use nemo_messenger.Prelude.Bytes.{Bytes, IsBytes, IsArray, beq}
use nemo_messenger.Prelude.Result.{ok, ◌>>=◌, ◌>>◌, fail_if}
use nemo_messenger.Wire.Error.{WireResult, signature}
use nemo_messenger.Wire.Ids.{key_len, sig_len, protocol_version, copy_fixed_exact}
use nemo_messenger.Wire.Cbor.{Pairs, uint, bytes, map, end, pair, encode, u64_mod}
use nemo_messenger.Wire.Cbor.Canonical.{IsWire}
use nemo_messenger.Wire.Fields.{
  decode_map, fixed_field, bytes_field, uint_field, check_version, decode_map-encode,
}
use nemo_messenger.Wire.Sign.{Crypto, sign, verify, prekey}

pub record SignedPrekey : Type 0 where
  pub identity_public_key : Bytes
  pub prekey_id : ℕ
  pub libsignal_prekey : Bytes
  pub signature : Bytes

-- The signed fields, before what is pushed later.
abbrev pub prekey_pairs : SignedPrekey → Pairs → Pairs
prekey_pairs p later = pair 0 (uint protocol_version) (
    pair 1 (bytes p.identity_public_key)
      (pair 2 (uint p.prekey_id) (pair 3 (bytes p.libsignal_prekey) later)))

unfoldable pub prekey_unsigned_cbor : SignedPrekey → Bytes
prekey_unsigned_cbor p = encode (map (prekey_pairs p end))

unfoldable pub prekey_encode : SignedPrekey → Bytes
prekey_encode p = encode (map (prekey_pairs p (pair 4 (bytes p.signature) end)))

unfoldable pub prekey_decode : Bytes → WireResult SignedPrekey
unfolding decode_map check_version fixed_field bytes_field uint_field
prekey_decode input = do
  m ← decode_map "prekey must be a map" input
  check_version m
  identity_public_key ← fixed_field m 1 key_len
  prekey_id ← uint_field m 2
  libsignal_prekey ← bytes_field m 3
  sig ← fixed_field m 4 sig_len
  ok (record {
    identity_public_key = identity_public_key;
    prekey_id = prekey_id;
    libsignal_prekey = libsignal_prekey;
    signature = sig;
  })

module _ (crypto : Crypto) where
  unfoldable pub prekey_sign : Bytes → ℕ → Bytes → WireResult SignedPrekey
  unfolding sign prekey_unsigned_cbor
  prekey_sign secret prekey_id libsignal_prekey = do
    let blank : SignedPrekey = record {
      identity_public_key = crypto.public_key secret;
      prekey_id = prekey_id;
      libsignal_prekey = libsignal_prekey;
      signature = [];
    }
    sig ← sign crypto secret prekey (prekey_unsigned_cbor blank)
    ok (record blank { signature = sig })

  -- `verify` against the pinned identity key
  unfoldable pub prekey_verify : SignedPrekey → Bytes → WireResult (Unit {0})
  unfolding verify prekey_unsigned_cbor
  prekey_verify p pinned = do
    fail_if (if beq p.identity_public_key pinned then false else true) signature
    verify crypto pinned prekey (prekey_unsigned_cbor p) p.signature

-- What the Rust types of the fields promise.
pub record IsPrekey (p : SignedPrekey) : Type 0 where
  pub identity_public_key : IsArray key_len p.identity_public_key
  pub prekey_id : p.prekey_id < u64_mod
  pub libsignal_bytes : IsBytes p.libsignal_prekey
  pub libsignal_length : length p.libsignal_prekey < u64_mod
  pub signature : IsArray sig_len p.signature

prekey_IsWire :
    (p : SignedPrekey) → IsPrekey p → IsWire (map (prekey_pairs p (pair 4 (bytes p.signature) end)))
prekey_IsWire p w = ground arith

-- A signed prekey comes back from its encoding.
pub prekey_decode-prekey_encode :
    (p : SignedPrekey) → IsPrekey p → prekey_decode (prekey_encode p) ≡ ok p
unfolding prekey_encode prekey_decode
prekey_decode-prekey_encode p w =
    rw (decode_map-encode "prekey must be a map" _ (prekey_IsWire p w)) (
      rw (
        copy_fixed_exact key_len p.identity_public_key w.identity_public_key.1,
        copy_fixed_exact sig_len p.signature w.signature.1,
      ))
