-- ===== src/Wire/Card/RoundTrip.antt =====
-- Bindings and contact cards come back from their encoding (crates/nemo-wire/src/card.rs).
use nemo_messenger.Prelude.{◌<◌, ◌≡◌, true, length, arith}
use nemo_messenger.Prelude.Bytes.{Bytes, IsBytes, IsArray}
use nemo_messenger.Prelude.Result.{ok}
use nemo_messenger.Wire.Ids.{key_len, sig_len, copy_fixed_exact}
use nemo_messenger.Wire.Cbor.{encode, expect_map, map, u64_mod}
use nemo_messenger.Wire.Cbor.Utf8.{utf8_valid}
use nemo_messenger.Wire.Cbor.Canonical.{IsWire}
use nemo_messenger.Wire.Fields.{decode_map-encode, within_limit}
use nemo_messenger.Wire.Error.{card_too_large}
use nemo_messenger.Wire.Card.{
  HomeServerBinding, binding_to_cbor_value, binding_from_cbor_value, ContactCard, card_pairs,
  card_encode, card_decode, card_max_bytes,
}

-- What the Rust types of a binding's fields promise; a host fits its field by `validate_host`.
pub record IsBinding (b : HomeServerBinding) : Type 0 where
  pub server_id : IsArray key_len b.server_id
  pub server_hpke_public_key : IsArray key_len b.server_hpke_public_key
  pub host_bytes : IsBytes b.host
  pub host_length : length b.host < u64_mod
  pub host_utf8 : utf8_valid b.host ≡ true
  pub seq : b.seq < u64_mod
  pub expires_at : b.expires_at < u64_mod
  pub signature : IsArray sig_len b.signature

pub record IsCard (c : ContactCard) : Type 0 where
  pub identity_public_key : IsArray key_len c.identity_public_key
  pub revocation_public_key : IsArray key_len c.revocation_public_key
  pub share_token : IsArray key_len c.share_token
  pub binding : IsBinding c.binding

-- A binding comes back from its CBOR value.
pub binding_from_to :
    (b : HomeServerBinding) → IsBinding b → binding_from_cbor_value (binding_to_cbor_value b) ≡ ok b
unfolding binding_from_cbor_value binding_to_cbor_value expect_map
binding_from_to b w = rw (
  copy_fixed_exact key_len b.server_id w.server_id.1,
  copy_fixed_exact key_len b.server_hpke_public_key w.server_hpke_public_key.1,
  copy_fixed_exact sig_len b.signature w.signature.1,
)

pub binding_IsWire : (b : HomeServerBinding) → IsBinding b → IsWire (binding_to_cbor_value b)
unfolding binding_to_cbor_value
binding_IsWire b w = ground arith

card_IsWire : (c : ContactCard) → IsCard c → IsWire (map (card_pairs c))
card_IsWire c w = let inner = binding_IsWire c.binding w.binding in ground arith

-- A card that fits the size limit comes back from its encoding.
pub card_decode-card_encode :
    (c : ContactCard) {out : Bytes} → IsCard c → card_encode c ≡ ok out → card_decode out ≡ ok c
unfolding card_encode card_decode
card_decode-card_encode c {out} w e =
    let (same, fits) = within_limit card_max_bytes (encode (map (card_pairs c))) card_too_large e in
    rw (fits) (
      rw (← same, decode_map-encode "card must be a map" (card_pairs c) (card_IsWire c w))
        (rw
          (
            copy_fixed_exact key_len c.identity_public_key w.identity_public_key.1,
            copy_fixed_exact key_len c.revocation_public_key w.revocation_public_key.1,
            copy_fixed_exact key_len c.share_token w.share_token.1,
          )
          (rw (binding_from_to c.binding w.binding))))
