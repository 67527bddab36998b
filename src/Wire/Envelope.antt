-- ===== src/Wire/Envelope.antt =====
-- crates/nemo-wire/src/envelope.rs: message types, padding buckets, the inner and the outer envelope.
pub mod Padding
pub mod Inner
pub mod RoundTrip
pub mod Outer
use nemo_messenger.Prelude.{
  ℕ, ◌+◌, ◌-◌, Bool, true, false, Option, none, some, List, [], ◌∷◌, ◌++◌, length, take, drop,
  replicate, all, find, get_elem?, ltb, leb, ◌==◌, ◌&&◌, if◌then◌else◌,
}
use nemo_messenger.Prelude.Bytes.{Bytes, to_be_bytes, from_be_bytes}
use nemo_messenger.Prelude.Result.{ok, err, ◌>>=◌, ◌>>◌, fail_if, ok_or}
use nemo_messenger.Wire.Error.{
  WireResult, unknown_version, unknown_message_type, unknown_ttl, no_bucket, bad_envelope,
  length_error,
}
use nemo_messenger.Wire.Ids.{key_len, protocol_version, copy_fixed}

abbrev pub t1 : ℕ
t1 = 1024

abbrev pub t2 : ℕ
t2 = 4096

abbrev pub t3 : ℕ
t3 = 16384

abbrev pub a1 : ℕ
a1 = 262144

abbrev pub a2 : ℕ
a2 = 1048576

abbrev pub a3 : ℕ
a3 = 4194304

abbrev pub a4 : ℕ
a4 = 16777216

abbrev pub inner_text_outer : ℕ
inner_text_outer = 20480

abbrev pub a1_outer : ℕ
a1_outer = 266240

abbrev pub a2_outer : ℕ
a2_outer = 1052672

abbrev pub a3_outer : ℕ
a3_outer = 4202496

abbrev pub a4_outer : ℕ
a4_outer = 16781312

abbrev pub text_inner : List ℕ
text_inner = t1 ∷ t2 ∷ t3 ∷ []

abbrev pub attach_inner : List ℕ
attach_inner = a1 ∷ a2 ∷ a3 ∷ a4 ∷ []

pub data MessageType : Type 0 where
  double_ratchet mls_app attachment_dr remove_bundle signing_key_replace : MessageType
  attachment_reserve revocation_statement mls_handshake : MessageType

-- The discriminants, as `type_ as u8` reads them.
unfoldable pub to_u8 : MessageType → ℕ
to_u8 double_ratchet = 0x01
to_u8 mls_app = 0x02
to_u8 attachment_dr = 0x03
to_u8 remove_bundle = 0x10
to_u8 signing_key_replace = 0x11
to_u8 attachment_reserve = 0x12
to_u8 revocation_statement = 0x13
to_u8 mls_handshake = 0x14

unfoldable pub from_u8 : ℕ → WireResult MessageType
from_u8 v =
    if v == 0x01
    then ok double_ratchet
    else if v == 0x02
    then ok mls_app
    else if v == 0x03
    then ok attachment_dr
    else if v == 0x10
    then ok remove_bundle
    else if v == 0x11
    then ok signing_key_replace
    else if v == 0x12
    then ok attachment_reserve
    else if v == 0x13
    then ok revocation_statement
    else if v == 0x14
    then ok mls_handshake
    else err (unknown_message_type v)

abbrev pub is_attachment : MessageType → Bool
is_attachment attachment_dr = true
is_attachment _ = false

-- `TtlBucket(pub u8)`
pub record TtlBucket : Type 0 where
  pub code : ℕ

unfoldable pub ttl_from_u8 : ℕ → WireResult TtlBucket
ttl_from_u8 v = if leb v 3 then ok (record { code = v }) else err (unknown_ttl v)

unfoldable pub ttl_secs : TtlBucket → Option ℕ
ttl_secs t =
    if t.code == 0
    then none
    else if t.code == 1
    then some 60
    else if t.code == 2
    then some 3600
    else if t.code == 3
    then some 86400
    else none

pub record PaddedMessage : Type 0 where
  pub type : MessageType
  pub body : Bytes
  pub inner_len : ℕ

-- The bucket sizes that a type may use.
abbrev pub buckets : MessageType → List ℕ
buckets t = if is_attachment t then attach_inner else text_inner

abbrev pub contains : List ℕ → ℕ → Bool
contains [] n = false
contains (x ∷ xs) n = if x == n then true else contains xs n

-- `out.resize(n, 0)`
abbrev pub resize : ℕ → Bytes → Bytes
resize n out = take n out ++ replicate (n - length out) 0

unfoldable pub pad : MessageType → Bytes → WireResult PaddedMessage
pad t body = do
  inner_len ← ok_or (find (λ b. leb (2 + length body) b) (buckets t)) no_bucket
  ok (record { type = t; body = body; inner_len = inner_len })

unfoldable pub encode_message : PaddedMessage → Bytes
unfolding to_u8
encode_message m = resize m.inner_len (protocol_version ∷ to_u8 m.type ∷ m.body)

unfoldable pub decode_message : Bytes → WireResult PaddedMessage
unfolding from_u8
decode_message (version ∷ kind ∷ body) = do
  fail_if (if version == protocol_version then false else true) (unknown_version version)
  t ← from_u8 kind
  fail_if (if contains (buckets t) (2 + length body) then false else true) bad_envelope
  ok (record { type = t; body = body; inner_len = 2 + length body })
decode_message _ = err bad_envelope

pub record InnerEnvelope : Type 0 where
  pub delivery_capability : Bytes
  pub ttl_bucket : TtlBucket
  pub idempotency_token : Bytes
  pub padded_message : PaddedMessage

abbrev pub header_len : ℕ
header_len = 1 + key_len + 1 + key_len

-- `match self.padded_message.inner_len`
abbrev attachment_outer : ℕ → ℕ
attachment_outer n =
    if n == a1
    then a1_outer
    else if n == a2
    then a2_outer
    else if n == a3
    then a3_outer
    else if n == a4
    then a4_outer
    else inner_text_outer

unfoldable pub outer_len : InnerEnvelope → ℕ
outer_len e =
    if is_attachment e.padded_message.type
    then attachment_outer e.padded_message.inner_len
    else inner_text_outer

-- The envelope before it is padded to its bucket.
unfoldable pub unpadded : InnerEnvelope → Bytes
unpadded e =
    protocol_version
    ∷ (e.delivery_capability
        ++ (e.ttl_bucket.code ∷ (e.idempotency_token ++ encode_message e.padded_message)))

unfoldable pub encode_padded : InnerEnvelope → WireResult Bytes
unfolding unpadded
encode_padded e = do
  fail_if (ltb (outer_len e) (length (unpadded e))) no_bucket
  ok (resize (outer_len e) (unpadded e))

-- The inner bucket: for the text size the smallest with nothing but zeros behind it.
unfoldable pub inner_bucket : ℕ → Bytes → WireResult ℕ
inner_bucket total rest =
    if total == inner_text_outer
    then ok_or (find (λ n. leb n (length rest) && all (λ b. b == 0) (drop n rest)) text_inner)
        bad_envelope
    else if total == a1_outer
    then ok a1
    else if total == a2_outer
    then ok a2
    else if total == a3_outer
    then ok a3
    else if total == a4_outer
    then ok a4
    else err bad_envelope

-- `bytes[i]`, after the length check that makes it safe.
abbrev pub byte_at : ℕ → Bytes → ℕ
byte_at i bytes = elim (get_elem? bytes i) [ none ↦ 0 | some b ↦ b ]

unfoldable pub decode_padded : Bytes → WireResult InnerEnvelope
unfolding inner_bucket ttl_from_u8 copy_fixed decode_message
decode_padded bytes = do
  fail_if (ltb (length bytes) (header_len + 2)) bad_envelope
  fail_if (if byte_at 0 bytes == protocol_version then false else true)
      (unknown_version (byte_at 0 bytes))
  delivery_capability ← copy_fixed key_len (take key_len (drop 1 bytes))
  ttl_bucket ← ttl_from_u8 (byte_at (1 + key_len) bytes)
  idempotency_token ← copy_fixed key_len (take key_len (drop (1 + key_len + 1) bytes))
  let rest = drop header_len bytes
  inner_len ← inner_bucket (length bytes) rest
  fail_if (ltb (length rest) inner_len) bad_envelope
  padded_message ← decode_message (take inner_len rest)
  ok (record {
    delivery_capability = delivery_capability;
    ttl_bucket = ttl_bucket;
    idempotency_token = idempotency_token;
    padded_message = padded_message;
  })

pub record OuterEnvelope : Type 0 where
  pub destination_server_id : Bytes
  pub hpke_ciphertext : Bytes

-- `len() as u32` keeps the low 32 bits.
unfoldable pub encode_outer : OuterEnvelope → Bytes
encode_outer e =
    protocol_version
    ∷ (e.destination_server_id ++ (to_be_bytes 4 (length e.hpke_ciphertext) ++ e.hpke_ciphertext))

unfoldable pub decode_outer : Bytes → WireResult OuterEnvelope
unfolding copy_fixed
decode_outer bytes = do
  fail_if (ltb (length bytes) (1 + key_len + 4)) bad_envelope
  fail_if (if byte_at 0 bytes == protocol_version then false else true)
      (unknown_version (byte_at 0 bytes))
  destination_server_id ← copy_fixed key_len (take key_len (drop 1 bytes))
  let n = from_be_bytes (take 4 (drop (1 + key_len) bytes))
  let rest = drop (1 + key_len + 4) bytes
  fail_if (if length rest == n then false else true) (length_error n (length rest))
  ok (record { destination_server_id = destination_server_id; hpke_ciphertext = rest })
