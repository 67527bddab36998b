-- ===== src/Wire/OwnerAuth.antt =====
-- crates/nemo-wire/src/hostframe.rs: `AuthScope` and `MailboxOwnerAuth`, an owner's signature on one
-- request.
use nemo_messenger.Prelude.{
  ℕ, ◌<◌, ◌-◌, ◌≡◌, Bool, true, false, ◌&&◌, ◌||◌, length, ltb, if◌then◌else◌, arith, add64,
  replicate,
}
use nemo_messenger.Prelude.Bytes.{Bytes, IsBytes, IsArray, beq}
use nemo_messenger.Prelude.Result.{ok, ◌>>=◌, ◌>>◌, fail_if}
use nemo_messenger.Wire.Error.{WireResult, binding_expired, signature}
use nemo_messenger.Wire.Ids.{key_len, sig_len, copy_fixed_exact}
use nemo_messenger.Wire.Cbor.{Pairs, uint, bytes, text, map, end, pair, encode, u64_mod}
use nemo_messenger.Wire.Cbor.Canonical.{IsWire}
use nemo_messenger.Wire.Fields.{
  decode_map, fixed_field, bytes_field, text_field, uint_field, decode_map-encode,
}
use nemo_messenger.Wire.Sign.{Crypto, verify, mailbox_owner}

pub record AuthScope : Type 0 where
  pub server_id : Bytes
  pub method : Bytes
  pub path : Bytes
  pub body_hash : Bytes

-- `AuthScope::body`
abbrev pub scope_body : Bytes → Bytes → Bytes → AuthScope
scope_body server_id method path = record {
  server_id = server_id;
  method = method;
  path = path;
  body_hash = replicate key_len 0;
}

-- `self.scope != *expect` compares every field.
abbrev pub scope_eq : AuthScope → AuthScope → Bool
scope_eq a b =
    beq a.server_id b.server_id
    && (beq a.method b.method && (beq a.path b.path && beq a.body_hash b.body_hash))

pub record MailboxOwnerAuth : Type 0 where
  pub mailbox_hint : Bytes
  pub cursor : ℕ
  pub limit : ℕ
  pub ts : ℕ
  pub scope : AuthScope
  pub nonce : Bytes
  pub signature : Bytes

abbrev pub max_age_secs : ℕ
max_age_secs = 120

unfoldable pub auth_unsigned_cbor : MailboxOwnerAuth → Bytes
auth_unsigned_cbor a = encode (
    map (
      pair 0 (bytes a.mailbox_hint) (
        pair 1 (uint a.cursor) (
          pair 2 (uint a.limit) (
            pair 3 (uint a.ts) (
              pair 5 (bytes a.scope.server_id) (
                pair 6 (text a.scope.method) (
                  pair 7 (text a.scope.path)
                    (pair 8 (bytes a.scope.body_hash) (pair 9 (bytes a.nonce) end))))))))))

abbrev pub auth_pairs : MailboxOwnerAuth → Pairs
auth_pairs a = pair 0 (bytes a.mailbox_hint) (
    pair 1 (uint a.cursor) (
      pair 2 (uint a.limit) (
        pair 3 (uint a.ts) (
          pair 4 (bytes a.signature) (
            pair 5 (bytes a.scope.server_id) (
              pair 6 (text a.scope.method) (
                pair 7 (text a.scope.path)
                  (pair 8 (bytes a.scope.body_hash) (pair 9 (bytes a.nonce) end)))))))))

unfoldable pub auth_encode : MailboxOwnerAuth → Bytes
auth_encode a = encode (map (auth_pairs a))

unfoldable pub auth_decode : Bytes → WireResult MailboxOwnerAuth
unfolding decode_map fixed_field bytes_field text_field uint_field
auth_decode input = do
  m ← decode_map "owner auth must be a map" input
  mailbox_hint ← bytes_field m 0
  cursor ← uint_field m 1
  limit ← uint_field m 2
  ts ← uint_field m 3
  sig ← fixed_field m 4 sig_len
  server_id ← fixed_field m 5 key_len
  method ← text_field m 6
  path ← text_field m 7
  body_hash ← fixed_field m 8 key_len
  nonce ← fixed_field m 9 key_len
  ok (record {
    mailbox_hint = mailbox_hint;
    cursor = cursor;
    limit = limit;
    ts = ts;
    signature = sig;
    scope = record { server_id = server_id; method = method; path = path; body_hash = body_hash };
    nonce = nonce;
  })

module _ (crypto : Crypto) where
  -- `AuthScope::header`
  abbrev pub scope_header : Bytes → Bytes → Bytes → Bytes → AuthScope
  scope_header server_id method path body = record {
    server_id = server_id;
    method = method;
    path = path;
    body_hash = crypto.sha256 body;
  }

  -- `now_unix + MAX_AGE_SECS` wraps around in a release build.
  unfoldable pub auth_verify : MailboxOwnerAuth → Bytes → ℕ → AuthScope → WireResult (Unit {0})
  unfolding verify
  auth_verify a pk now_unix expect = do
    fail_if (ltb max_age_secs (now_unix - a.ts) || ltb (add64 now_unix max_age_secs) a.ts)
        binding_expired
    fail_if (if scope_eq a.scope expect then false else true) signature
    verify crypto pk mailbox_owner (auth_unsigned_cbor a) a.signature

-- What the Rust types of the fields promise.
pub record IsAuth (a : MailboxOwnerAuth) : Type 0 where
  pub mailbox_hint : IsBytes a.mailbox_hint × (length a.mailbox_hint < u64_mod)
  pub cursor : a.cursor < u64_mod
  pub limit : a.limit < u64_mod
  pub ts : a.ts < u64_mod
  pub server_id : IsArray key_len a.scope.server_id
  pub method : IsWire (text a.scope.method)
  pub path : IsWire (text a.scope.path)
  pub body_hash : IsArray key_len a.scope.body_hash
  pub nonce : IsArray key_len a.nonce
  pub signature : IsArray sig_len a.signature

auth_IsWire : (a : MailboxOwnerAuth) → IsAuth a → IsWire (map (auth_pairs a))
auth_IsWire a w = ground arith

-- An owner's authorisation comes back from its encoding.
pub auth_decode-auth_encode : (a : MailboxOwnerAuth) → IsAuth a → auth_decode (auth_encode a) ≡ ok a
unfolding auth_encode auth_decode
auth_decode-auth_encode a w =
    rw (decode_map-encode "owner auth must be a map" (auth_pairs a) (auth_IsWire a w)) (
      rw (
        copy_fixed_exact sig_len a.signature w.signature.1,
        copy_fixed_exact key_len a.scope.server_id w.server_id.1,
        copy_fixed_exact key_len a.scope.body_hash w.body_hash.1,
        copy_fixed_exact key_len a.nonce w.nonce.1,
      ))
