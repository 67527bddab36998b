-- ===== src/Wire/Envelope/Inner.antt =====
-- crates/nemo-wire/src/envelope.rs: the fixed layout of the inner envelope, its size, and its decoding.
use nemo_messenger.Prelude.{
  ℕ, ◌+◌, ◌-◌, ◌≤◌, ◌≡◌, ◌∙◌, ap, true, false, Bool-cases, inl, inr, ◌∷◌, ◌++◌, arith, length,
  length-append, length-replicate, take, take-append_eq, replicate, drop, drop_past, drop-append_eq,
  get_elem?-append, ltb, le→ltb,
}
use nemo_messenger.Prelude.Bytes.{Bytes}
use nemo_messenger.Prelude.Result.{ok, ◌>>=◌, ◌>>◌, fail_if}
use nemo_messenger.Wire.Error.{bad_envelope}
use nemo_messenger.Wire.Ids.{key_len, protocol_version}
use nemo_messenger.Wire.Envelope.{
  inner_text_outer, is_attachment, buckets, contains, InnerEnvelope, header_len, encode_message,
  decode_message, ttl_from_u8, outer_len, unpadded, encode_padded, inner_bucket, byte_at,
  decode_padded,
}
use nemo_messenger.Wire.Envelope.Padding.{IsPadded, length-encode_message, resize_fits}

-- An envelope as the types of the source and `pad` make it.
pub record IsInner (e : InnerEnvelope) : Type 0 where
  pub capability : length e.delivery_capability ≡ key_len
  pub idempotency : length e.idempotency_token ≡ key_len
  pub ttl : e.ttl_bucket.code ≤ 3
  pub message : IsPadded e.padded_message

pub length-unpadded :
    (e : InnerEnvelope) → IsInner e → length (unpadded e) ≡ header_len + e.padded_message.inner_len
unfolding unpadded
length-unpadded e v = omega (
  arith,
  v.capability,
  v.idempotency,
  length-encode_message e.padded_message,
  length-append e.idempotency_token (encode_message e.padded_message),
  length-append e.delivery_capability
      (e.ttl_bucket.code ∷ (e.idempotency_token ++ encode_message e.padded_message)),
)

-- The header and any message of its bucket fit the outer size of the type.
pub outer_fits :
    (e : InnerEnvelope)
    → contains (buckets e.padded_message.type) e.padded_message.inner_len ≡ true
    → header_len + e.padded_message.inner_len ≤ outer_len e
unfolding outer_len
outer_fits e h = elim (Bool-cases (is_attachment e.padded_message.type)) [
  | inl a ↦ ground arith
  | inr a ↦ ground arith
]

-- A well-formed envelope is always encoded, as its fields followed by zeros up to the size of its type.
pub encode_padded_lem :
    (e : InnerEnvelope)
    → IsInner e
    → encode_padded e ≡ ok (unpadded e ++ replicate (outer_len e - length (unpadded e)) 0)
unfolding encode_padded
encode_padded_lem e v =
    let fits : length (unpadded e) ≤ outer_len e =
      omega (arith, length-unpadded e v, outer_fits e v.message.bucket) in
    rw (le→ltb _ _ fits) (ap ok (resize_fits (outer_len e) (unpadded e) fits))

-- Every well-formed text envelope is encoded, in exactly `inner_text_outer` bytes, whatever its type,
-- its body and its bucket.
pub encode_padded_text_size :
    (e : InnerEnvelope)
    → IsInner e
    → is_attachment e.padded_message.type ≡ false
    → (bytes : Bytes) × (encode_padded e ≡ ok bytes) × (length bytes ≡ inner_text_outer)
encode_padded_text_size e v h =
    let zeros = outer_len e - length (unpadded e) in
    let size : outer_len e ≡ inner_text_outer = unfold outer_len in rw h in
    (
      unpadded e ++ replicate zeros 0,
      encode_padded_lem e v,
      omega (
        arith,
        size,
        length-append (unpadded e) (replicate zeros 0),
        length-replicate {A = ℕ} zeros 0,
        length-unpadded e v,
        outer_fits e v.message.bucket,
      ),
    )

-- What `decode_padded` makes of the fields, in front of any message and padding.
module _ (capability idempotency tail : Bytes) (code : ℕ) (hc : length capability ≡ key_len)
    (hi : length idempotency ≡ key_len) (ht : 2 ≤ length tail) where
  abbrev pub layout : Bytes
  layout = protocol_version ∷ (capability ++ (code ∷ (idempotency ++ tail)))

  length-layout : length layout ≡ header_len + length tail
  length-layout = omega (
    arith,
    hc,
    hi,
    length-append idempotency tail,
    length-append capability (code ∷ (idempotency ++ tail)),
  )

  pub decode_layout : decode_padded layout ≡ (do
    ttl_bucket ← ttl_from_u8 code
    inner_len ← inner_bucket (header_len + length tail) tail
    fail_if (ltb (length tail) inner_len) bad_envelope
    padded_message ← decode_message (take inner_len tail)
    ok (record {
      delivery_capability = capability;
      ttl_bucket = ttl_bucket;
      idempotency_token = idempotency;
      padded_message = padded_message;
    }))
  unfolding decode_padded
  decode_layout =
      let fields : Bytes = code ∷ (idempotency ++ tail) in
      let long : ltb (length layout) (header_len + 2) ≡ false =
        le→ltb _ _ (omega (arith, length-layout)) in
      let cap : take key_len (capability ++ fields) ≡ capability =
        take-append_eq key_len capability fields hc in
      let ttl : byte_at (1 + key_len) layout ≡ code =
        rw (get_elem?-append key_len capability (idempotency ++ tail) code hc, byte_at) in
      let idem : take key_len (drop (1 + key_len + 1) layout) ≡ idempotency =
        rw (drop_past key_len 33 1 capability fields hc (omega arith))
          (take-append_eq key_len idempotency tail hi) in
      let rest : drop header_len layout ≡ tail =
        drop_past key_len 65 33 capability fields hc (omega arith)
        ∙ drop-append_eq key_len idempotency tail hi in
      rw (long, cap, hc) (rw (ttl, idem, hi, rest, length-layout))
