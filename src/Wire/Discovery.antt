-- ===== src/Wire/Discovery.antt =====
-- crates/nemo-wire/src/discovery.rs: what a home server tells of an identity.
use nemo_messenger.Prelude.{◌<◌, ◌≡◌, refl, Option, none, some, length, arith}
use nemo_messenger.Prelude.Bytes.{Bytes, IsBytes, IsArray}
use nemo_messenger.Prelude.Result.{ok, ◌>>=◌, ◌>>◌}
use nemo_messenger.Wire.Error.{WireResult}
use nemo_messenger.Wire.Ids.{key_len, protocol_version, copy_fixed_exact}
use nemo_messenger.Wire.Cbor.{
  Value, Pairs, uint, bytes, map, end, pair, encode, expect_bytes, map_get, map_get_opt, u64_mod,
}
use nemo_messenger.Wire.Cbor.Canonical.{IsWire}
use nemo_messenger.Wire.Fields.{decode_map, fixed_field, check_version, decode_map-encode}
use nemo_messenger.Wire.Card.{HomeServerBinding, binding_to_cbor_value, binding_from_cbor_value}
use nemo_messenger.Wire.Card.RoundTrip.{IsBinding, binding_IsWire, binding_from_to}
use nemo_messenger.Wire.Revocation.{
  RevocationStatement, revocation_encode, revocation_decode, IsStatement,
  revocation_decode-revocation_encode,
}

pub record DiscoveryRecord : Type 0 where
  pub identity_public_key : Bytes
  pub revocation_public_key : Bytes
  pub binding : HomeServerBinding
  pub revocation : Option RevocationStatement

abbrev push_statement : Option RevocationStatement → Pairs
push_statement none = end
push_statement (some stmt) = pair 4 (bytes (revocation_encode stmt)) end

abbrev pub discovery_pairs : DiscoveryRecord → Pairs
discovery_pairs d = pair 0 (uint protocol_version) (
    pair 1 (bytes d.identity_public_key) (
      pair 2 (bytes d.revocation_public_key)
        (pair 3 (binding_to_cbor_value d.binding) (push_statement d.revocation))))

unfoldable pub discovery_encode : DiscoveryRecord → Bytes
discovery_encode d = encode (map (discovery_pairs d))

abbrev read_statement : Option Value → WireResult (Option RevocationStatement)
read_statement none = ok none
read_statement (some v) = do b ← expect_bytes v; stmt ← revocation_decode b; ok (some stmt)

unfoldable pub discovery_decode : Bytes → WireResult DiscoveryRecord
unfolding decode_map check_version fixed_field map_get map_get_opt expect_bytes
discovery_decode input = do
  m ← decode_map "discovery must be a map" input
  check_version m
  revocation ← read_statement (map_get_opt m 4)
  identity_public_key ← fixed_field m 1 key_len
  revocation_public_key ← fixed_field m 2 key_len
  v ← map_get m 3
  binding ← binding_from_cbor_value v
  ok (record {
    identity_public_key = identity_public_key;
    revocation_public_key = revocation_public_key;
    binding = binding;
    revocation = revocation;
  })

-- The statement is one, and its encoding fits a CBOR byte string.
abbrev pub IsSent : Option RevocationStatement → Type 0
IsSent none = Unit
IsSent (some stmt) =
    IsStatement stmt
    × IsBytes (revocation_encode stmt)
    × (length (revocation_encode stmt) < u64_mod)

pub record IsRecord (d : DiscoveryRecord) : Type 0 where
  pub identity_public_key : IsArray key_len d.identity_public_key
  pub revocation_public_key : IsArray key_len d.revocation_public_key
  pub binding : IsBinding d.binding
  pub revocation : IsSent d.revocation

statement_read :
    (o : Option RevocationStatement)
    → IsSent o
    → read_statement (map_get_opt (push_statement o) 4) ≡ ok o
unfolding map_get_opt expect_bytes
statement_read none h = refl
statement_read (some stmt) h = rw (revocation_decode-revocation_encode stmt h.0) refl

module _ (d : DiscoveryRecord) (w : IsRecord d) where
  abbrev telling : Option RevocationStatement → DiscoveryRecord
  telling o = record d { revocation = o }

  discovery_IsWire :
      (o : Option RevocationStatement) → IsSent o → IsWire (map (discovery_pairs (telling o)))
  discovery_IsWire none h = let inner = binding_IsWire d.binding w.binding in ground arith
  discovery_IsWire (some stmt) h =
      let inner = binding_IsWire d.binding w.binding in ground (arith, h.1, h.2)

  discovery_with :
      (o : Option RevocationStatement)
      → IsSent o
      → discovery_decode (discovery_encode (telling o)) ≡ ok (telling o)
  unfolding discovery_encode discovery_decode
  discovery_with o h =
      rw
        (decode_map-encode "discovery must be a map" (discovery_pairs (telling o))
          (discovery_IsWire o h))
        (rw (
          statement_read o h,
          copy_fixed_exact key_len d.identity_public_key w.identity_public_key.1,
          copy_fixed_exact key_len d.revocation_public_key w.revocation_public_key.1,
          binding_from_to d.binding w.binding,
        ))

-- A discovery record, revoked or not, comes back from its encoding.
pub discovery_decode-discovery_encode :
    (d : DiscoveryRecord) → IsRecord d → discovery_decode (discovery_encode d) ≡ ok d
discovery_decode-discovery_encode d w = discovery_with d w d.revocation w.revocation
