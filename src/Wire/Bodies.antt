-- ===== src/Wire/Bodies.antt =====
-- crates/nemo-wire/src/hostframe.rs: the bodies of a group stream that the host reads, and signed HTTP
-- responses.
pub mod RoundTrip
use nemo_messenger.Prelude.{
  ℕ, ◌+◌, ◌^◌, ◌-◌, true, false, Option, none, some, List, [], ◌∷◌, ◌++◌, length, take, drop, ltb,
  leb, ◌==◌, if◌then◌else◌, get_elem?, find,
}
use nemo_messenger.Prelude.Bytes.{Bytes, to_be_bytes, from_be_bytes}
use nemo_messenger.Prelude.Result.{ok, err, ◌>>=◌, ◌>>◌, fail_if, ok_or}
use nemo_messenger.Wire.Error.{WireResult, bad_envelope, no_bucket}
use nemo_messenger.Wire.Ids.{key_len, sig_len, protocol_version, copy_fixed}
use nemo_messenger.Wire.Cbor.{uint, bytes, text, map, end, pair, encode}
use nemo_messenger.Wire.Envelope
use nemo_messenger.Wire.Envelope.{TtlBucket, ttl_from_u8, byte_at}
use nemo_messenger.Wire.Sign.{
  Crypto, sign, verify, ascii, remove_sidecar, signing_key_replace, server_response,
}

pub data AttachmentSizeBucket : Type 0 where
  a1 a2 a3 a4 : AttachmentSizeBucket

-- The discriminants, as `size_bucket as u8` reads them.
abbrev pub size_to_u8 : AttachmentSizeBucket → ℕ
size_to_u8 a1 = 1
size_to_u8 a2 = 2
size_to_u8 a3 = 3
size_to_u8 a4 = 4

-- `AttachmentSizeBucket::from_u8`
unfoldable pub size_from_u8 : ℕ → WireResult AttachmentSizeBucket
size_from_u8 v =
    if v == 1
    then ok a1
    else if v == 2
    then ok a2
    else if v == 3
    then ok a3
    else if v == 4
    then ok a4
    else err bad_envelope

abbrev pub inner_len : AttachmentSizeBucket → ℕ
inner_len a1 = Envelope.a1
inner_len a2 = Envelope.a2
inner_len a3 = Envelope.a3
inner_len a4 = Envelope.a4

unfoldable pub for_len : ℕ → WireResult AttachmentSizeBucket
for_len n = ok_or (find (λ b. leb n (inner_len b)) (a1 ∷ a2 ∷ a3 ∷ a4 ∷ [])) no_bucket

pub record RemoveBundle : Type 0 where
  pub credential_id : Bytes
  pub sidecar_signature : Bytes
  pub mls_commit : Bytes

-- Credential, signature and the length of the commit.
abbrev pub remove_header : ℕ
remove_header = 100

unfoldable pub remove_encode : RemoveBundle → WireResult Bytes
remove_encode r =
    if leb (length r.mls_commit) (2 ^ 32 - 1)
    then ok (
        r.credential_id
        ++ (r.sidecar_signature ++ (to_be_bytes 4 (length r.mls_commit) ++ r.mls_commit)))
    else err no_bucket

unfoldable pub remove_decode : Bytes → WireResult RemoveBundle
unfolding copy_fixed
remove_decode body = do
  fail_if (ltb (length body) remove_header) bad_envelope
  credential_id ← copy_fixed key_len (take key_len body)
  sidecar_signature ← copy_fixed sig_len (take sig_len (drop key_len body))
  let n = from_be_bytes (take 4 (drop (key_len + sig_len) body))
  fail_if (ltb (length body) (remove_header + n)) bad_envelope
  ok (record {
    credential_id = credential_id;
    sidecar_signature = sidecar_signature;
    mls_commit = take n (drop remove_header body);
  })

pub record SigningKeyReplace : Type 0 where
  pub new_public_key : Bytes
  pub signature : Bytes

unfoldable pub replace_payload : Bytes → Bytes
replace_payload new_public_key = encode (map (pair 0 (bytes new_public_key) end))

unfoldable pub replace_encode : SigningKeyReplace → Bytes
replace_encode r = r.new_public_key ++ r.signature

unfoldable pub replace_decode : Bytes → WireResult SigningKeyReplace
unfolding copy_fixed
replace_decode body = do
  fail_if (ltb (length body) (key_len + sig_len)) bad_envelope
  new_public_key ← copy_fixed key_len (take key_len body)
  sig ← copy_fixed sig_len (take sig_len (drop key_len body))
  ok (record { new_public_key = new_public_key; signature = sig })

pub record AttachmentReserve : Type 0 where
  pub fetch_token : Bytes
  pub size_bucket : AttachmentSizeBucket
  pub ttl_bucket : TtlBucket

unfoldable pub reserve_encode : AttachmentReserve → Bytes
reserve_encode r = r.fetch_token ++ (size_to_u8 r.size_bucket ∷ r.ttl_bucket.code ∷ [])

unfoldable pub reserve_decode : Bytes → WireResult AttachmentReserve
unfolding copy_fixed size_from_u8 ttl_from_u8
reserve_decode body = do
  fail_if (ltb (length body) (key_len + 2)) bad_envelope
  fetch_token ← copy_fixed key_len (take key_len body)
  size_bucket ← size_from_u8 (byte_at key_len body)
  ttl_bucket ← ttl_from_u8 (byte_at (key_len + 1) body)
  ok (record { fetch_token = fetch_token; size_bucket = size_bucket; ttl_bucket = ttl_bucket })

module _ (crypto : Crypto) where
  unfoldable pub sidecar_payload : Bytes → Bytes → Bytes → Bytes
  sidecar_payload group_id credential_id mls_commit = encode (
      map (
        pair 0 (bytes credential_id) (
          pair 1 (text (ascii "revoke"))
            (pair 2 (bytes group_id) (pair 3 (bytes (crypto.sha256 mls_commit)) end)))))

  unfoldable pub remove_sign : Bytes → Bytes → Bytes → Bytes → WireResult RemoveBundle
  unfolding sign sidecar_payload
  remove_sign secret group_id credential_id mls_commit = do
    sig ← sign crypto secret remove_sidecar (sidecar_payload group_id credential_id mls_commit)
    ok (record { credential_id = credential_id; sidecar_signature = sig; mls_commit = mls_commit })

  unfoldable pub verify_sidecar : RemoveBundle → Bytes → Bytes → WireResult (Unit {0})
  unfolding verify sidecar_payload
  verify_sidecar r pk group_id =
      verify crypto pk remove_sidecar (sidecar_payload group_id r.credential_id r.mls_commit)
        r.sidecar_signature

  unfoldable pub replace_sign : Bytes → Bytes → WireResult SigningKeyReplace
  unfolding sign replace_payload
  replace_sign secret new_public_key = do
    sig ← sign crypto secret signing_key_replace (replace_payload new_public_key)
    ok (record { new_public_key = new_public_key; signature = sig })

  unfoldable pub replace_verify : SigningKeyReplace → Bytes → WireResult (Unit {0})
  unfolding verify replace_payload
  replace_verify r pk =
      verify crypto pk signing_key_replace (replace_payload r.new_public_key) r.signature

  unfoldable pub response_payload : Bytes → ℕ → Bytes → Bytes
  response_payload nonce status body = encode (
      map (
        pair 0 (uint protocol_version)
          (pair 1 (bytes nonce) (pair 2 (uint status) (pair 3 (bytes (crypto.sha256 body)) end)))))

  unfoldable pub sign_response : Bytes → Bytes → ℕ → Bytes → WireResult Bytes
  unfolding sign response_payload
  sign_response secret nonce status body =
      sign crypto secret server_response (response_payload nonce status body)

  unfoldable pub verify_response : Bytes → Bytes → ℕ → Bytes → Bytes → WireResult (Unit {0})
  unfolding verify response_payload
  verify_response pk nonce status body sig =
      verify crypto pk server_response (response_payload nonce status body) sig
