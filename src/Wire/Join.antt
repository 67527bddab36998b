-- ===== src/Wire/Join.antt =====
-- crates/nemo-wire/src/join.rs: signed group invites and admissions, and the proof of an invitee.
pub mod RoundTrip
pub mod Bound
use nemo_messenger.Prelude.{
  ℕ, Bool, true, false, Option, none, some, [], ◌++◌, ◌||◌, ◌==◌, if◌then◌else◌,
}
use nemo_messenger.Prelude.Bytes.{Bytes, beq}
use nemo_messenger.Prelude.Result.{ok, err, ◌>>=◌, ◌>>◌, fail_if}
use nemo_messenger.Wire.Error.{WireResult, cbor, signature}
use nemo_messenger.Wire.Ids.{key_len, sig_len, protocol_version, copy_fixed}
use nemo_messenger.Wire.Cbor.{
  Value, Pairs, uint, bytes, text, map, end, pair, encode, expect_bytes, map_get_opt,
}
use nemo_messenger.Wire.Fields.{decode_map, fixed_field, text_field, uint_field, check_version}
use nemo_messenger.Wire.Sign.{Crypto, sign, verify, ascii, group_invite, group_admit, invitee_proof}

abbrev pub intro_ttl_5_min : ℕ
intro_ttl_5_min = 300

abbrev pub intro_ttl_30_min : ℕ
intro_ttl_30_min = 1800

abbrev pub intro_ttl_1_hour : ℕ
intro_ttl_1_hour = 3600

abbrev pub allowed_intro_ttl : ℕ → Bool
allowed_intro_ttl ttl_secs =
    ttl_secs == intro_ttl_5_min || (ttl_secs == intro_ttl_30_min || ttl_secs == intro_ttl_1_hour)

pub record GroupInvite : Type 0 where
  pub group_id : Bytes
  pub nonce : Bytes
  pub ttl_secs : ℕ
  pub binding : Option Bytes
  pub salt : Option Bytes
  pub signature : Bytes

-- `if let Some(b) = o { pairs.push((key, Value::Bytes(b))) }`, before what is pushed later
abbrev pub push_some : ℕ → Option Bytes → Pairs → Pairs
push_some key none later = later
push_some key (some b) later = pair key (bytes b) later

-- `payload_map`, before what is pushed later
abbrev pub invite_pairs : GroupInvite → Pairs → Pairs
invite_pairs i later = pair 0 (uint protocol_version) (
    pair 1 (bytes i.group_id) (
      pair 2 (bytes i.nonce)
        (pair 3 (uint i.ttl_secs) (push_some 4 i.binding (push_some 5 i.salt later)))))

unfoldable pub invite_payload : GroupInvite → Bytes
invite_payload i = encode (map (invite_pairs i end))

unfoldable pub invite_encode : GroupInvite → Bytes
invite_encode i = encode (map (invite_pairs i (pair 6 (bytes i.signature) end)))

abbrev read_some : Option Value → WireResult (Option Bytes)
read_some none = ok none
read_some (some v) = do b ← expect_bytes v; fixed ← copy_fixed key_len b; ok (some fixed)

-- A field that may be missing.
unfoldable pub opt_field : Pairs → ℕ → WireResult (Option Bytes)
unfolding map_get_opt expect_bytes copy_fixed
opt_field m key = read_some (map_get_opt m key)

-- `decode` on the map that it reads
unfoldable pub invite_from : Pairs → WireResult GroupInvite
unfolding check_version fixed_field uint_field opt_field
invite_from m = do
  check_version m
  group_id ← fixed_field m 1 key_len
  nonce ← fixed_field m 2 key_len
  ttl_secs ← uint_field m 3
  binding ← opt_field m 4
  salt ← opt_field m 5
  sig ← fixed_field m 6 sig_len
  ok (record {
    group_id = group_id;
    nonce = nonce;
    ttl_secs = ttl_secs;
    binding = binding;
    salt = salt;
    signature = sig;
  })

unfoldable pub invite_decode : Bytes → WireResult GroupInvite
unfolding decode_map invite_from
invite_decode input = do m ← decode_map "group-invite must be a map" input; invite_from m

pub record GroupAdmit : Type 0 where
  pub group_id : Bytes
  pub pending_id : Bytes
  pub signature : Bytes

abbrev pub admit_pairs : Bytes → Bytes → Pairs → Pairs
admit_pairs group_id pending_id later =
    pair 0 (uint protocol_version)
      (pair 1 (bytes group_id) (pair 2 (bytes pending_id) (pair 3 (text (ascii "admit")) later)))

unfoldable pub admit_payload : Bytes → Bytes → Bytes
admit_payload group_id pending_id = encode (map (admit_pairs group_id pending_id end))

unfoldable pub admit_encode : GroupAdmit → Bytes
admit_encode a = encode (map (admit_pairs a.group_id a.pending_id (pair 4 (bytes a.signature) end)))

unfoldable pub admit_decode : Bytes → WireResult GroupAdmit
unfolding decode_map check_version fixed_field text_field
admit_decode input = do
  m ← decode_map "group-admit must be a map" input
  check_version m
  what ← text_field m 3
  fail_if (if beq what (ascii "admit") then false else true) (cbor "expected admit")
  group_id ← fixed_field m 1 key_len
  pending_id ← fixed_field m 2 key_len
  sig ← fixed_field m 4 sig_len
  ok (record { group_id = group_id; pending_id = pending_id; signature = sig })

pub record InviteeProof : Type 0 where
  pub group_id : Bytes
  pub pending_id : Bytes
  pub signature : Bytes

abbrev pub proof_pairs : Bytes → Bytes → Pairs → Pairs
proof_pairs group_id pending_id later =
    pair 0 (uint protocol_version) (pair 1 (bytes group_id) (pair 2 (bytes pending_id) later))

unfoldable pub proof_payload : Bytes → Bytes → Bytes
proof_payload group_id pending_id = encode (map (proof_pairs group_id pending_id end))

unfoldable pub proof_encode : InviteeProof → Bytes
proof_encode p = encode (map (proof_pairs p.group_id p.pending_id (pair 3 (bytes p.signature) end)))

unfoldable pub proof_decode : Bytes → WireResult InviteeProof
unfolding decode_map check_version fixed_field
proof_decode input = do
  m ← decode_map "invitee-proof must be a map" input
  check_version m
  group_id ← fixed_field m 1 key_len
  pending_id ← fixed_field m 2 key_len
  sig ← fixed_field m 3 sig_len
  ok (record { group_id = group_id; pending_id = pending_id; signature = sig })

abbrev is_some : Option Bytes → Bool
is_some none = false
is_some (some _) = true

-- `a != b` on two tests
abbrev differ : Bool → Bool → Bool
differ true b = if b then false else true
differ false b = b

module _ (crypto : Crypto) where
  -- `H(identity_public_key || salt)`
  abbrev pub invitee_binding : Bytes → Bytes → Bytes
  invitee_binding identity_public_key salt = crypto.sha256 (identity_public_key ++ salt)

  abbrev bound_pair : Option (Bytes × Bytes) → Option Bytes × Option Bytes
  bound_pair none = (none, none)
  bound_pair (some (b, s)) = (some b, some s)

  unfoldable pub invite_sign :
      Bytes → Bytes → Bytes → ℕ → Option (Bytes × Bytes) → WireResult GroupInvite
  unfolding sign invite_payload
  invite_sign secret group_id nonce ttl_secs bind = do
    fail_if (if allowed_intro_ttl ttl_secs then false else true)
        (cbor "intro ttl must be 5m, 30m, or 1h")
    let blank : GroupInvite = record {
      group_id = group_id;
      nonce = nonce;
      ttl_secs = ttl_secs;
      binding = (bound_pair bind).0;
      salt = (bound_pair bind).1;
      signature = [];
    }
    sig ← sign crypto secret group_invite (invite_payload blank)
    ok (record blank { signature = sig })

  unfoldable pub invite_verify : GroupInvite → Bytes → WireResult (Unit {0})
  unfolding verify invite_payload
  invite_verify i pk = do
    fail_if (if allowed_intro_ttl i.ttl_secs then false else true)
        (cbor "intro ttl must be 5m, 30m, or 1h")
    fail_if (differ (is_some i.binding) (is_some i.salt))
        (cbor "bound invite needs binding and salt")
    verify crypto pk group_invite (invite_payload i) i.signature

  unfoldable pub admit_sign : Bytes → Bytes → Bytes → WireResult GroupAdmit
  unfolding sign admit_payload
  admit_sign secret group_id pending_id = do
    sig ← sign crypto secret group_admit (admit_payload group_id pending_id)
    ok (record { group_id = group_id; pending_id = pending_id; signature = sig })

  unfoldable pub admit_verify : GroupAdmit → Bytes → WireResult (Unit {0})
  unfolding verify admit_payload
  admit_verify a pk =
      verify crypto pk group_admit (admit_payload a.group_id a.pending_id) a.signature

  unfoldable pub proof_sign : Bytes → Bytes → Bytes → WireResult InviteeProof
  unfolding sign proof_payload
  proof_sign secret group_id pending_id = do
    sig ← sign crypto secret invitee_proof (proof_payload group_id pending_id)
    ok (record { group_id = group_id; pending_id = pending_id; signature = sig })

  unfoldable pub proof_verify : InviteeProof → Bytes → WireResult (Unit {0})
  unfolding verify proof_payload
  proof_verify p pk =
      verify crypto pk invitee_proof (proof_payload p.group_id p.pending_id) p.signature

  abbrev pub check_bound :
      GroupInvite → InviteeProof → Bytes → Option Bytes → Option Bytes → WireResult (Unit {0})
  check_bound invite proof pk none salt = err (cbor "invite is not bound")
  check_bound invite proof pk (some want) none = err (cbor "invite is not bound")
  check_bound invite proof pk (some want) (some salt) = do
    fail_if (if beq proof.group_id invite.group_id then false else true)
        (cbor "proof group_id mismatch")
    proof_verify proof pk
    fail_if (if beq (invitee_binding pk salt) want then false else true) signature

  -- The admitter's check of a bound invite.
  unfoldable pub verify_bound_invite : GroupInvite → InviteeProof → Bytes → WireResult (Unit {0})
  unfolding proof_verify
  verify_bound_invite invite proof pk = check_bound invite proof pk invite.binding invite.salt
