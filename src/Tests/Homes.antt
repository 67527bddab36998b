-- ===== src/Tests/Homes.antt =====
-- The theorems on a home server, at concrete states.
use nemo_messenger.Prelude.{◌≡◌, refl, false, none, some, List, [], ◌∷◌, arith}
use nemo_messenger.Prelude.Bytes.{beq}
use nemo_messenger.Prelude.Map
use nemo_messenger.Prelude.Result.{ok, err}
use nemo_messenger.Wire.Sign.{ascii}
use nemo_messenger.Wire.Envelope.{
  InnerEnvelope, double_ratchet, encode_padded, encode_message, unpadded,
}
use nemo_messenger.Wire.OwnerAuth.{AuthScope, auth_verify, scope_body}
use nemo_messenger.Wire.Revocation.{revocation_verify}
use nemo_messenger.Server.Error.{denied, owner_auth}
use nemo_messenger.Server.Mailbox.{fresh_mailbox}
use nemo_messenger.Server.Mailbox.Invariant.{fresh-IsLog}
use nemo_messenger.Server.Tokens.{ShareToken, share, token, set_token}
use nemo_messenger.Server.Home.{HomeServer, Limits, require_mailbox}
use nemo_messenger.Server.Home.Append.{authorize_append, append_inner}
use nemo_messenger.Server.Home.Owner.{check_owner}
use nemo_messenger.Server.Home.Capabilities.{fetch_prekey, publish_prekey, register_share_token}
use nemo_messenger.Server.Home.Directory.{register, ingest_revocation}
use nemo_messenger.Server.Home.Invariant.{IsHome}
use nemo_messenger.Server.Home.Reach.{new_home, Reaches, step, registers, reachable-IsHome}
use nemo_messenger.Server.Home.Reach
use nemo_messenger.Server.Home.Spent.{share_admits_once}
use nemo_messenger.Server.Home.Reserved.{Later, here, ticks, publishes, takes, one_prekey}
use nemo_messenger.Server.Home.Shared.{registered_share_admits}
use nemo_messenger.Server.Home.Replay.{Attempt, after, replay_refused}
use nemo_messenger.Server.Home.Revoked.{Closed, ingest_revocation-Closed, revoked_denies}
use nemo_messenger.Tests.Toy.{key, toy, pair_of_keys}
use nemo_messenger.Tests.Messages.{binding, bundle, statement, auth}

abbrev limits : Limits
limits = record { mailbox_max_bytes = 524288000; mailbox_max_age_secs = 1209600 }

abbrev pub start : HomeServer
start = new_home pair_of_keys (key 2) bundle limits

abbrev registered : HomeServer
registered = (register (key 5) (key 5) start).1

reachable-IsHome_example : IsHome registered
reachable-IsHome_example =
    reachable-IsHome toy pair_of_keys (key 2) bundle limits
      (step start registered Reach.here (registers (key 5) (key 5) start))

abbrev intro : ShareToken
intro = record { mailbox = key 5; expires_at = 1700001000; burned = false; reserved_prekey = none }

-- A server with a mailbox, a share token of it and two prekeys.
abbrev home : HomeServer
home = record start {
  mailboxes = (key 5, fresh_mailbox (key 5)) ∷ [];
  tokens = (key 3, share intro) ∷ [];
  prekeys = (key 5, (1 ∷ []) ∷ (2 ∷ []) ∷ []) ∷ [];
  directory =
      (
        key 5,
        record {
          identity_public_key = key 5;
          revocation_public_key = key 6;
          binding = binding;
          binding_seq = 1;
          revocation = none;
        },
      )
      ∷ [];
}

-- An envelope with no room for padding inside, which the server does not look at.
abbrev envelope : InnerEnvelope
envelope = record {
  delivery_capability = key 3;
  ttl_bucket = record { code = 2 };
  idempotency_token = key 4;
  padded_message = record { type = double_ratchet; body = 7 ∷ []; inner_len = 3 };
}

intro_found : token (key 3) home.tokens ≡ some (share intro)
unfolding token beq
intro_found = refl

mailbox_found : Map.get (key 5) home.mailboxes ≡ some (fresh_mailbox (key 5))
unfolding Map.get beq
mailbox_found = refl

nothing_known : Map.get (key 4) (fresh_mailbox (key 5)).idempotency ≡ none
unfolding Map.get
nothing_known = refl

accepted : (append_inner envelope home).0 ≡ ok 1
unfolding append_inner beq Map.get encode_padded nemo_messenger.Wire.Envelope.outer_len
    encode_message
accepted = refl

share_admits_once_example : (append_inner envelope (append_inner envelope home).1).0 ≡ err denied
share_admits_once_example =
    share_admits_once envelope envelope home intro (fresh_mailbox (key 5)) intro_found mailbox_found
      nothing_known accepted refl

prekey_given : (fetch_prekey (key 3) home).0 ≡ ok (1 ∷ [])
unfolding fetch_prekey beq Map.get
prekey_given = refl

-- Later, after another prekey was published and asked for by a token that is not there.
abbrev afterwards : HomeServer
afterwards =
    record (fetch_prekey (key 77)
      (publish_prekey (key 5) (9 ∷ []) (fetch_prekey (key 3) home).1).1).1 { now = 1700000002 }

after_that : Later (key 3) (fetch_prekey (key 3) home).1 afterwards
after_that =
    ticks 1700000002 _
      (takes (key 77) _ (publishes (key 5) (9 ∷ []) (fetch_prekey (key 3) home).1 here))

abbrev reserved_intro : ShareToken
reserved_intro = record intro { reserved_prekey = some (1 ∷ []) }

intro_still_there : token (key 3) afterwards.tokens ≡ some (share reserved_intro)
unfolding fetch_prekey publish_prekey token set_token beq Map.get Map.insert require_mailbox
intro_still_there = refl

one_prekey_example : fetch_prekey (key 3) afterwards ≡ (ok (1 ∷ []), afterwards)
one_prekey_example =
    one_prekey (key 3) (1 ∷ []) home afterwards reserved_intro prekey_given after_that
      intro_still_there refl

intro_registered : (register_share_token (key 5) (key 4) none home).0 ≡ ok tt
unfolding register_share_token require_mailbox Map.get beq
intro_registered = refl

registered_share_admits_example :
    ((authorize_append
        (key 4)
        (record (register_share_token (key 5) (key 4) none home).1 { now = 1700000600 })).0
      ≡ ok (key 5))
    × (token (key 3) (register_share_token (key 5) (key 4) none home).1.tokens
        ≡ token (key 3) home.tokens)
unfolding beq
registered_share_admits_example =
    registered_share_admits (key 5) (key 4) (key 3) none 1700000600 home intro_registered
      (ground arith) refl

abbrev scope : AuthScope
scope = scope_body (key 1) (ascii "POST") (ascii "/v1/mailbox/ack")

let_in : (check_owner toy (key 5) auth 1700000010 scope home).0 ≡ ok tt
unfolding check_owner Map.get beq auth_verify Map.retain
let_in = refl

abbrev attempts : List Attempt
attempts = record { owner = key 5; auth = auth; at = 1700000020; expect = scope } ∷ []

replay_refused_example :
    (check_owner toy
      (key 5)
      auth
      1700000030
      scope
      (after toy attempts (check_owner toy (key 5) auth 1700000010 scope home).1)).0
    ≡ err owner_auth
replay_refused_example =
    replay_refused toy (key 5) auth 1700000010 scope home let_in attempts 1700000030 scope
      (ground arith)

home-IsHome : IsHome home
home-IsHome = record { logs = (fresh-IsLog (key 5), tt); window = omega arith }

revoked : (ingest_revocation toy statement home).0 ≡ ok []
unfolding ingest_revocation Map.get beq revocation_verify
revoked = refl

ingest_revocation-Closed_example :
    Closed (key 5) (ingest_revocation toy statement home).1
    × (Map.get (key 5) (ingest_revocation toy statement home).1.memberships ≡ none)
ingest_revocation-Closed_example = ingest_revocation-Closed toy statement home home-IsHome revoked

-- The server is given the share token of the revoked mailbox once more, and a message under it.
revoked_denies_example :
    (append_inner envelope (record (ingest_revocation toy statement home).1 {
      tokens = (key 3, share intro) ∷ [];
      now = 1700000500;
    })).0
    ≡ err denied
revoked_denies_example =
    revoked_denies toy statement envelope home ((key 3, share intro) ∷ []) 1700000500 (share intro)
      home-IsHome revoked intro_found refl
