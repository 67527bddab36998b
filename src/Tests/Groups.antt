-- ===== src/Tests/Groups.antt =====
-- The theorems on the group host and on invites, at concrete states.
use nemo_messenger.Prelude.{ℕ, ◌≡◌, ◌≢◌, refl, sym, true, false, none, some, [], ◌∷◌, ◌++◌, arith}
use nemo_messenger.Prelude.Bytes.{Bytes, beq, from_be_bytes}
use nemo_messenger.Prelude.Map
use nemo_messenger.Prelude.Result.{ok, err, bind_success}
use nemo_messenger.Wire.Sign.{Crypto}
use nemo_messenger.Wire.Envelope.{
  MessageType, mls_app, attachment_reserve, remove_bundle, OuterEnvelope, pad, encode_padded,
  outer_len, encode_message,
}
use nemo_messenger.Wire.Hpke.{hpke_seal, seal_to_server}
use nemo_messenger.Wire.Bodies.{RemoveBundle, remove_decode, AttachmentReserve, reserve_encode, a1}
use nemo_messenger.Server.Error.{denied}
use nemo_messenger.Server.Groups.{
  FanoutTarget, MemberCred, StreamAppend, CredRecord, GroupState, GroupHost, new_host,
  authorize_live,
}
use nemo_messenger.Server.Groups.Members.{create_group_for, accept}
use nemo_messenger.Server.Groups.Stream.{Draw, pushed, seal_copy, remove_checks}
use nemo_messenger.Server.Groups.Files.{file_bytes, upload_file, fetch_file}
use nemo_messenger.Server.Groups.Append.{append}
use nemo_messenger.Server.Groups.Steps.Log.{IsStream, Extends}
use nemo_messenger.Server.Groups.Refines.{Fates}
use nemo_messenger.Server.Groups.Reach.{
  Runs, idle, call, tick, create, appends, Runs-Fates, reachable-IsStream, stream_only_grows,
}
use nemo_messenger.Server.Groups.Removal.{removed_stays_out}
use nemo_messenger.Server.Groups.Removal.Blocked.{HasUnsealable, removal_blocked}
use nemo_messenger.Server.Groups.Once.{accept_once, upload_once}
use nemo_messenger.Server.Groups.Budget.{InBudget, append-InBudget}
use nemo_messenger.Tests.Toy.{key, sig, toy}

abbrev draws : ℕ → Draw
draws k = record { token = key k; rng = key 0 }

abbrev alice : MemberCred
alice = record { credential_id = key 3; credential_secret = key 4 }

abbrev bob : MemberCred
bob = record { credential_id = key 8; credential_secret = key 9 }

abbrev inbox : FanoutTarget
inbox = record { delivery_capability = key 5; home_hpke_public = key 1 }

abbrev member_of : MemberCred → CredRecord
member_of cred = record {
  secret = cred.credential_secret;
  live = true;
  signing_pk = some (key 2);
  fanout = some inbox;
}

-- A group of Alice and Bob.
abbrev pair_group : GroupState
pair_group = record {
  next_seq = 1;
  creds = (key 3, member_of alice) ∷ (key 8, member_of bob) ∷ [];
  invites = [];
  pending = [];
  bytes = 0;
  stream = [];
  creator = none;
}

abbrev pair_host : GroupHost
pair_host = record new_host { groups = (key 7, pair_group) ∷ [] }

abbrev created : GroupHost
created = (create_group_for toy (key 7) alice (key 2) inbox none new_host).1

runs_create : Runs toy new_host created
unfolding Map.get
runs_create = call new_host created idle (create (key 7) alice (key 2) inbox none new_host refl)

created_group : (g : GroupState) × (Map.get (key 7) created.groups ≡ some g)
unfolding Map.get create_group_for Map.insert beq
created_group = (_, refl)

-- Alice posts to the group of two.
abbrev posted : GroupHost
posted = (append toy draws (key 7) alice mls_app (1 ∷ []) pair_host).1

runs_post : Runs toy pair_host posted
runs_post =
    call pair_host posted idle
      (appends draws (key 7) alice mls_app (1 ∷ []) pair_host (omega arith, tt))

Runs-Fates_example : Fates pair_host posted
Runs-Fates_example = Runs-Fates toy pair_host posted runs_post

reachable-IsStream_example : IsStream created_group.0
reachable-IsStream_example =
    reachable-IsStream toy created (key 7) created_group.0 runs_create created_group.1

pair_found : Map.get (key 7) pair_host.groups ≡ some pair_group
unfolding Map.get beq
pair_found = refl

stream_only_grows_example :
    (g : GroupState) × (Map.get (key 7) posted.groups ≡ some g) × Extends pair_group g
stream_only_grows_example =
    stream_only_grows toy pair_host posted (key 7) pair_group runs_post pair_found

-- Alice removes Bob.
abbrev farewell : RemoveBundle
farewell = record { credential_id = key 8; sidecar_signature = sig; mls_commit = 6 ∷ [] }

abbrev farewell_body : Bytes
farewell_body = key 8 ++ (sig ++ (0 ∷ 0 ∷ 0 ∷ 1 ∷ 6 ∷ []))

bob_known : Map.get (key 8) pair_group.creds ≡ some (member_of bob)
unfolding Map.get beq
bob_known = refl

-- Alice leaves the group that she created.
abbrev leaving : RemoveBundle
leaving = record { credential_id = key 3; sidecar_signature = sig; mls_commit = [] }

abbrev leaving_body : Bytes
leaving_body = key 3 ++ (sig ++ (0 ∷ 0 ∷ 0 ∷ 0 ∷ []))

leaving_decoded : remove_decode leaving_body ≡ ok leaving
unfolding remove_decode from_be_bytes
leaving_decoded = refl

founder_known :
    (rec : CredRecord) × (Map.get (key 3) created_group.0.creds ≡ some rec) × (rec.live ≡ true)
unfolding Map.get create_group_for Map.insert beq created_group
founder_known = (_, refl, refl)

leaving_accepted :
    (out : StreamAppend) × ((append toy draws (key 7) alice remove_bundle leaving_body created).0
      ≡ ok out)
unfolding append remove_checks from_be_bytes Map.get Map.insert create_group_for beq pad
    seal_to_server encode_padded outer_len encode_message
leaving_accepted = (_, refl)

-- The group without her, and the same group later.
abbrev deserted : GroupHost
deserted = (append toy draws (key 7) alice remove_bundle leaving_body created).1

abbrev later : GroupHost
later = record deserted { now = 1800000000 }

removed_stays_out_example : authorize_live toy (key 7) alice later ≡ err denied
removed_stays_out_example =
    removed_stays_out toy draws (key 7) alice leaving_body (key 4) leaving created_group.0
      founder_known.0 created later runs_create created_group.1 leaving_decoded founder_known.1
      founder_known.2 leaving_accepted.1 (call deserted later idle (tick 1800000000 deserted))

-- The toy, but HPKE refuses every key.
abbrev strict : Crypto
strict = record toy { kem_public_ok = λ pk. false }

inbox_refused :
    (draw : Draw) (type : MessageType) (body : Bytes) (outer : OuterEnvelope)
    → seal_copy strict draw inbox type body ≢ ok outer
unfolding seal_to_server hpke_seal
inbox_refused draw type body outer = λ e.
    let (padded, (s, _)) = bind_success (pad type body) _ (sym e) in
    let (plain, (t, _)) = bind_success (encode_padded _) _ (sym s) in cc

pair_HasUnsealable : HasUnsealable strict pair_group
pair_HasUnsealable = record {
  cid = key 8;
  member = member_of bob;
  target = inbox;
  known = bob_known;
  live = refl;
  fanout = refl;
  refused = inbox_refused;
}

strict_live : authorize_live strict (key 7) alice pair_host ≡ ok tt
unfolding authorize_live Map.get beq
strict_live = refl

strict_checked : remove_checks strict (key 7) (key 3) farewell_body pair_host ≡ ok (key 8)
unfolding remove_checks from_be_bytes Map.get beq
strict_checked = refl

removal_blocked_example :
    ((out : StreamAppend)
      → (append strict draws (key 7) alice remove_bundle farewell_body pair_host).0 ≢ ok out)
    × (Map.get
          (key 7)
          (append strict draws (key 7) alice remove_bundle farewell_body pair_host).1.groups
        ≡ some (pushed 1700000000 remove_bundle farewell_body pair_group))
removal_blocked_example =
    removal_blocked strict draws (key 7) alice farewell_body (key 8) pair_group pair_host pair_found
      pair_HasUnsealable refl strict_live strict_checked

-- The group with an invite under the nonce 6.
abbrev inviting : GroupHost
inviting = record pair_host {
  groups =
      (
        key 7,
        record pair_group {
          invites = (key 6, record { expires_at = 1700001000; binding = none; salt = none }) ∷ [];
        },
      )
      ∷ [];
}

abbrev carol : MemberCred
carol = record { credential_id = key 10; credential_secret = key 11 }

accept_once_example :
    (accept toy
      (key 7)
      (key 6)
      bob
      (key 13)
      (accept toy (key 7) (key 6) carol (key 12) inviting).1).0
    ≡ err denied
accept_once_example = accept_once toy (key 7) (key 6) carol bob (key 12) (key 13) inviting

-- The group with a file of Alice's that is not there yet.
abbrev waiting_file : GroupHost
waiting_file = record pair_host {
  files =
      (
        key 14,
        record {
          group_id = key 7;
          owner = key 3;
          size = 2;
          expires_at = 1700001000;
          content = none;
        },
      )
      ∷ [];
}

abbrev with_file : GroupHost
with_file = (upload_file toy (key 7) alice (key 14) (1 ∷ 2 ∷ []) waiting_file).1

uploaded : (upload_file toy (key 7) alice (key 14) (1 ∷ 2 ∷ []) waiting_file).0 ≡ ok tt
unfolding upload_file Map.get beq
uploaded = refl

bob_reads : authorize_live toy (key 7) bob with_file ≡ ok tt
unfolding authorize_live upload_file Map.get beq
bob_reads = refl

upload_once_example :
    ((upload_file toy (key 7) bob (key 14) (3 ∷ 4 ∷ []) with_file).0 ≡ err denied)
    × (fetch_file toy (key 7) bob (key 14) with_file ≡ ok (1 ∷ 2 ∷ []))
upload_once_example =
    upload_once toy (key 14) (key 7) (key 7) alice bob bob (1 ∷ 2 ∷ []) (3 ∷ 4 ∷ []) waiting_file
      uploaded bob_reads

pair_InBudget : InBudget pair_host
unfolding file_bytes
pair_InBudget = record { bound = λ gid. omega arith; small = omega arith }

abbrev reserving : AttachmentReserve
reserving = record { fetch_token = key 14; size_bucket = a1; ttl_bucket = record { code = 0 } }

append-InBudget_example :
    InBudget
      (append toy draws (key 7) alice attachment_reserve (reserve_encode reserving) pair_host).1
append-InBudget_example =
    append-InBudget toy draws (key 7) alice attachment_reserve (reserve_encode reserving) pair_host
      pair_InBudget
