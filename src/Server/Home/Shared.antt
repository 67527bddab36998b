-- ===== src/Server/Home/Shared.antt =====
-- A share token that is registered (crates/nemo-server/src/home.rs), whoever had its key before.
use nemo_messenger.Prelude.{
  ℕ, ◌<◌, ◌≡◌, refl, arith, true, false, Bool-cases, Option-cases, inl, inr, Option, some, [], ◌∷◌,
  ◌++◌, add64,
}
use nemo_messenger.Prelude.Bytes.{Bytes, beq, beq_refl}
use nemo_messenger.Prelude.Map
use nemo_messenger.Prelude.Result.{ok}
use nemo_messenger.Wire.Join.{allowed_intro_ttl}
use nemo_messenger.Server.Tokens.{share, token, share_admits}
use nemo_messenger.Server.Tokens.Lookup.{token-push}
use nemo_messenger.Server.Home.{HomeServer, require_mailbox, is_disabled}
use nemo_messenger.Server.Home.Append.{authorize_append}
use nemo_messenger.Server.Home.Capabilities.{
  register_share_token, push_token, fresh_share, ttl_or_default,
}

-- The state that `register_share_token` leaves when it returns, and that the mailbox is open.
registered :
    (owner tok : Bytes) (ttl : Option ℕ) (h : HomeServer)
    → (register_share_token owner tok ttl h).0 ≡ ok tt
    → ((register_share_token owner tok ttl h).1
        ≡ push_token tok (share (fresh_share owner (add64 h.now (ttl_or_default ttl)))) h)
      × (is_disabled (Map.get owner h.mailboxes) ≡ false)
unfolding register_share_token require_mailbox
registered owner tok ttl h done = elim (Option-cases (Map.get owner h.mailboxes)) [
  | inl missing ↦ let d = rw missing at done in cc
  | inr (box, found) ↦ elim (Bool-cases box.disabled) [
    | inl off ↦ let d = rw (found, off) at done in cc
    | inr on ↦ elim (Bool-cases (allowed_intro_ttl (ttl_or_default ttl))) [
      | inl good ↦ rw (found, on, good) (refl, refl)
      | inr bad ↦ let d = rw (found, on, bad) at done in cc
    ]
  ]
]

-- A share token that was registered admits to the mailbox that it was registered for, at any time before
-- it expires and whatever its key found before: also when the key is the share token of another mailbox.
-- The other keys find what they found before.
pub registered_share_admits :
    (owner tok j : Bytes) (ttl : Option ℕ) (now : ℕ) (h : HomeServer)
    → (register_share_token owner tok ttl h).0 ≡ ok tt
    → now < add64 h.now (ttl_or_default ttl)
    → beq tok j ≡ false
    → ((authorize_append tok (record (register_share_token owner tok ttl h).1 { now = now })).0
        ≡ ok owner)
      × (token j (register_share_token owner tok ttl h).1.tokens ≡ token j h.tokens)
unfolding authorize_append
registered_share_admits owner tok j ttl now h done early other =
    let s = fresh_share owner (add64 h.now (ttl_or_default ttl)) in
    let (same, on) = registered owner tok ttl h done in
    let found : token tok (h.tokens ++ ((tok, share s) ∷ [])) ≡ some (share s) =
      rw (token-push tok tok (share s) h.tokens, beq_refl tok) in
    let alive : share_admits now s ≡ true = ground arith in
    rw same (rw (found, alive, on), rw (token-push j tok (share s) h.tokens, other))
