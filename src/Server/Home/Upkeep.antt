-- ===== src/Server/Home/Upkeep.antt =====
-- The handlers of tokens, prekeys, registration and revocation keep the invariant of a home server
-- (crates/nemo-server/src/home.rs).
use nemo_messenger.Prelude.{
  ℕ, ◌≡◌, refl, Bool, true, false, not, Bool-cases, inl, inr, Option, none, some, List, [], ◌∷◌,
  leb, if◌then◌else◌,
}
use nemo_messenger.Prelude.Bytes.{Bytes, beq}
use nemo_messenger.Prelude.Map
use nemo_messenger.Prelude.Map.{Map, AllValues}
use nemo_messenger.Prelude.Result.{ok, err}
use nemo_messenger.Prelude.Exec.Keeps.{then_keeps, lift_keeps}
use nemo_messenger.Wire.Sign.{Crypto}
use nemo_messenger.Wire.Card.{HomeServerBinding, ContactCard, card_verify}
use nemo_messenger.Wire.Revocation.{RevocationStatement}
use nemo_messenger.Wire.Hpke.{keypair_server_id}
use nemo_messenger.Server.Error.{from_wire, denied}
use nemo_messenger.Server.Mailbox.{Mailbox, fresh_mailbox, seqs_where}
use nemo_messenger.Server.Mailbox.Invariant.{IsLog, fresh-IsLog, remove_rows-IsLog}
use nemo_messenger.Server.Tokens.{
  ShareToken, TokenKind, share, contact, token, share_admits, dead_for, dead_all,
}
use nemo_messenger.Server.Home.{HomeServer, DirectoryRow, require_mailbox, is_open}
use nemo_messenger.Wire.Join.{allowed_intro_ttl}
use nemo_messenger.Server.Home.Capabilities.{
  ttl_or_default, register_share_token, drop_tokens_exact, sweep_dead_tokens_for, sweep_dead_tokens,
  mint_contact_capability, grace_with, rotate_contact, publish_prekey, reserve, prekey_for,
  prekey_with, fetch_prekey, queue_of,
}
use nemo_messenger.Server.Home.Directory.{
  is_some, register, closed, disable_with, disable_mailbox, key_of, stored_seq, bind_identity,
  binding_checks, observe_binding, note_revocation, mark_memberships, forget_groups, revoke,
  revocation_checks, ingest_revocation, register_from_card,
}
use nemo_messenger.Server.Home.Invariant.{IsHome, put_mailbox-IsHome}

-- Where neither the mailboxes nor the window change, the invariant carries over.
same_IsHome :
    (h h' : HomeServer)
    → h'.mailboxes ≡ h.mailboxes
    → h'.seen_enc ≡ h.seen_enc
    → IsHome h
    → IsHome h'
same_IsHome h h' em es v = record { logs = rw (em) v.logs; window = rw (es) v.window }

pub register_share_token-IsHome :
    (owner tok : Bytes) (ttl : Option ℕ) (h : HomeServer)
    → IsHome h
    → IsHome (register_share_token owner tok ttl h).1
unfolding register_share_token
register_share_token-IsHome owner tok ttl h v =
    lift_keeps IsHome (require_mailbox owner h) _ h v λ _ _.
      elim (Bool-cases (allowed_intro_ttl (ttl_or_default ttl))) [
        | inl good ↦ rw good (record { logs = v.logs; window = v.window })
        | inr bad ↦ rw bad v
      ]

drop_tokens_exact-IsHome :
    (dead : List Bytes) (h : HomeServer) → IsHome h → IsHome (drop_tokens_exact dead h)
unfolding drop_tokens_exact
drop_tokens_exact-IsHome [] h v = v
drop_tokens_exact-IsHome (t ∷ dead) h v = record { logs = v.logs; window = v.window }

pub sweep_dead_tokens_for-IsHome :
    (owner : Bytes) (h : HomeServer) → IsHome h → IsHome (sweep_dead_tokens_for owner h).0
unfolding sweep_dead_tokens_for
sweep_dead_tokens_for-IsHome owner h v =
    drop_tokens_exact-IsHome
      (dead_for h.now (not (is_open (Map.get owner h.mailboxes))) owner h.tokens) h v

pub sweep_dead_tokens-IsHome : (h : HomeServer) → IsHome h → IsHome (sweep_dead_tokens h).0
unfolding sweep_dead_tokens
sweep_dead_tokens-IsHome h v =
    drop_tokens_exact-IsHome
      (dead_all h.now (λ owner. not (is_open (Map.get owner h.mailboxes))) h.tokens) h v

pub mint_contact_capability-IsHome :
    (tok owner : Bytes) (h : HomeServer) → IsHome h → IsHome (mint_contact_capability tok owner h).1
unfolding mint_contact_capability
mint_contact_capability-IsHome tok owner h v =
    lift_keeps IsHome (require_mailbox owner h) _ h v λ _ _.
      let swept = sweep_dead_tokens_for-IsHome owner h v in
      record { logs = swept.logs; window = swept.window }

grace_with-IsHome :
    (owner old : Bytes) (o : Option TokenKind) (h : HomeServer)
    → IsHome h
    → IsHome (grace_with owner old o h)
grace_with-IsHome owner old none h v = v
grace_with-IsHome owner old (some (share s)) h v = v
grace_with-IsHome owner old (some (contact c)) h v = elim (Bool-cases (beq c.mailbox owner)) [
  | inl mine ↦ rw mine (record { logs = v.logs; window = v.window })
  | inr other ↦ rw other v
]

pub rotate_contact-IsHome :
    (tok owner old : Bytes) (confirm : Bool) (h : HomeServer)
    → IsHome h
    → IsHome (rotate_contact tok owner old confirm h).1
unfolding rotate_contact
rotate_contact-IsHome tok owner old true h v =
    then_keeps IsHome _ (mint_contact_capability tok owner h)
      (mint_contact_capability-IsHome tok owner h v)
      λ new h' v'. grace_with-IsHome owner old (token old h'.tokens) h' v'
rotate_contact-IsHome tok owner old false h v =
    then_keeps IsHome _ (mint_contact_capability tok owner h)
      (mint_contact_capability-IsHome tok owner h v) λ new h' v'. v'

pub publish_prekey-IsHome :
    (owner blob : Bytes) (h : HomeServer) → IsHome h → IsHome (publish_prekey owner blob h).1
unfolding publish_prekey
publish_prekey-IsHome owner blob h v =
    lift_keeps IsHome (require_mailbox owner h) _ h v
      λ _ _. record { logs = v.logs; window = v.window }

reserve-IsHome :
    (tok : Bytes) (s : ShareToken) (q : List Bytes) (h : HomeServer)
    → IsHome h
    → IsHome (reserve tok s q h).1
reserve-IsHome tok s [] h v = v
reserve-IsHome tok s (b ∷ q) h v = record { logs = v.logs; window = v.window }

prekey_for-IsHome :
    (tok : Bytes) (s : ShareToken) (o : Option Bytes) (h : HomeServer)
    → IsHome h
    → IsHome (prekey_for tok s o h).1
prekey_for-IsHome tok s (some b) h v = v
prekey_for-IsHome tok s none h v = reserve-IsHome tok s (queue_of (Map.get s.mailbox h.prekeys)) h v

prekey_with-IsHome :
    (tok : Bytes) (o : Option TokenKind) (h : HomeServer)
    → IsHome h
    → IsHome (prekey_with tok o h).1
prekey_with-IsHome tok none h v = v
prekey_with-IsHome tok (some (contact c)) h v = v
prekey_with-IsHome tok (some (share s)) h v = elim (Bool-cases (share_admits h.now s)) [
  | inl good ↦ rw good (prekey_for-IsHome tok s s.reserved_prekey h v)
  | inr bad ↦ rw bad v
]

pub fetch_prekey-IsHome : (tok : Bytes) (h : HomeServer) → IsHome h → IsHome (fetch_prekey tok h).1
unfolding fetch_prekey
fetch_prekey-IsHome tok h v = prekey_with-IsHome tok (token tok h.tokens) h v

pub register-IsHome : (id pk : Bytes) (h : HomeServer) → IsHome h → IsHome (register id pk h).1
unfolding register
register-IsHome id pk h v = elim (Bool-cases (is_some (Map.get id h.mailboxes))) [
  | inl taken ↦ rw taken v
  | inr free ↦
      let kept = put_mailbox-IsHome id (fresh_mailbox pk) h (fresh-IsLog pk) v in
      rw free (record { logs = kept.logs; window = kept.window })
]

pub closed-IsLog : (box : Mailbox) → IsLog box → IsLog (closed box)
closed-IsLog box l =
    let gone = remove_rows-IsLog (seqs_where (λ s r. true) box.rows) box l in
    record { started = gone.started; rows = gone.rows; bytes = gone.bytes; index = gone.index }

disable_with-IsHome :
    (owner : Bytes) (o : Option Mailbox) (h : HomeServer)
    → Map.get owner h.mailboxes ≡ o
    → IsHome h
    → IsHome (disable_with owner o h)
disable_with-IsHome owner none h e v = v
disable_with-IsHome owner (some box) h e v =
    put_mailbox-IsHome owner (closed box) h
      (closed-IsLog box (Map.get-AllValues IsLog owner h.mailboxes v.logs e)) v

pub disable_mailbox-IsHome :
    (owner : Bytes) (h : HomeServer) → IsHome h → IsHome (disable_mailbox owner h)
unfolding disable_mailbox
disable_mailbox-IsHome owner h v =
    let kept = disable_with-IsHome owner (Map.get owner h.mailboxes) h refl v in
    record { logs = kept.logs; window = kept.window }

mark_memberships-IsHome :
    (id : Bytes) (o : Option (List Bytes)) (h : HomeServer)
    → IsHome h
    → IsHome (mark_memberships id o h)
mark_memberships-IsHome id none h v = v
mark_memberships-IsHome id (some gs) h v = record { logs = v.logs; window = v.window }

forget_groups-IsHome : (id : Bytes) (h : HomeServer) → IsHome h → IsHome (forget_groups id h)
forget_groups-IsHome id h v =
    mark_memberships-IsHome id (Map.get id h.memberships)
      (record h { memberships = Map.remove id h.memberships })
      (record { logs = v.logs; window = v.window })

module _ (crypto : Crypto) where
  bind_identity-IsHome :
      (id pk : Bytes) (b : HomeServerBinding) (h : HomeServer)
      → IsHome h
      → IsHome (bind_identity crypto id pk b h)
  unfolding bind_identity
  bind_identity-IsHome id pk b h v =
      elim (Bool-cases (leb b.seq (stored_seq (Map.get id h.directory)))) [
        | inl stale ↦ rw stale v
        | inr newer ↦ elim (Bool-cases (beq b.server_id (keypair_server_id crypto h.hpke))) [
          | inl here ↦ rw (newer, here) (record { logs = v.logs; window = v.window })
          | inr away ↦
              rw (newer, away)
                (disable_mailbox-IsHome id _ (record { logs = v.logs; window = v.window }))
        ]
      ]

  pub observe_binding-IsHome :
      (id : Bytes) (b : HomeServerBinding) (h : HomeServer)
      → IsHome h
      → IsHome (observe_binding crypto id b h).1
  unfolding observe_binding
  observe_binding-IsHome id b h v =
      lift_keeps IsHome (key_of (Map.get id h.directory) (Map.get id h.mailboxes)) _ h v λ pk _.
        lift_keeps IsHome (binding_checks crypto id b h.now pk) _ h v
          λ _ _. bind_identity-IsHome id pk b h v

  pub revoke-IsHome :
      (stmt : RevocationStatement) (row : DirectoryRow) (h : HomeServer)
      → IsHome h
      → IsHome (revoke crypto stmt row h).1
  unfolding revoke
  revoke-IsHome stmt row h v =
      let noted : IsHome (note_revocation stmt row h) = record {
        logs = v.logs;
        window = v.window;
      } in
      forget_groups-IsHome stmt.identity_id
        (disable_mailbox stmt.identity_id (note_revocation stmt row h))
        (disable_mailbox-IsHome stmt.identity_id (note_revocation stmt row h) noted)

  pub ingest_revocation-IsHome :
      (stmt : RevocationStatement) (h : HomeServer)
      → IsHome h
      → IsHome (ingest_revocation crypto stmt h).1
  unfolding ingest_revocation
  ingest_revocation-IsHome stmt h v =
      lift_keeps IsHome (revocation_checks crypto stmt (Map.get stmt.identity_id h.directory)) _ h v
        λ row _. revoke-IsHome stmt row h v

  pub register_from_card-IsHome :
      (card : ContactCard) (h : HomeServer) → IsHome h → IsHome (register_from_card crypto card h).1
  unfolding register_from_card
  register_from_card-IsHome card h v =
      let id = crypto.sha256 card.identity_public_key in
      lift_keeps IsHome (from_wire (card_verify crypto card h.now)) _ h v λ _ _.
        lift_keeps IsHome
          (if beq card.binding.server_id (keypair_server_id crypto h.hpke)
            then ok tt
            else err denied)
          _ h v
          λ _ _.
            then_keeps IsHome _ (register id card.identity_public_key h)
              (register-IsHome id card.identity_public_key h v)
              λ _ h1 v1.
                then_keeps IsHome _ (register_share_token id card.share_token none _)
                  (register_share_token-IsHome id card.share_token none _
                    (record { logs = v1.logs; window = v1.window }))
                  λ _ h2 v2. v2
