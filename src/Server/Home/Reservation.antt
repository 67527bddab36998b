-- ===== src/Server/Home/Reservation.antt =====
-- What keeps the prekey that a share token has reserved (crates/nemo-server/src/home.rs).
use nemo_messenger.Prelude.{
  ℕ, arith, add64, ◌≡◌, refl, sym, ◌∙◌, true, false, Bool-cases, Option-cases, inl, inr, Option,
  none, some, List, [], ◌∷◌, ◌++◌, not, length,
}
use mathlib.Core.Path.{subst}
use nemo_messenger.Prelude.Bytes.{Bytes, beq, beq_iff}
use nemo_messenger.Prelude.Map
use nemo_messenger.Prelude.KeySet
use nemo_messenger.Prelude.Result.{ok, err}
use nemo_messenger.Prelude.Exec.Keeps.{then_keeps, lift_keeps, if_keeps}
use nemo_messenger.Wire.Join.{allowed_intro_ttl}
use nemo_messenger.Wire.Error.{WireResult}
use nemo_messenger.Wire.Envelope.{InnerEnvelope, encode_padded}
use nemo_messenger.Server.Mailbox.{Mailbox, store_envelope}
use nemo_messenger.Server.Tokens.{
  ShareToken, TokenKind, Tokens, share, contact, token, set_token, share_admits, admit,
  contact_admit, without, dead_for, dead_all,
}
use nemo_messenger.Server.Tokens.Lookup.{token-set_token, token-push, token-without}
use nemo_messenger.Server.Home.{HomeServer, put_mailbox, mark, require_mailbox, is_open}
use nemo_messenger.Server.Home.Append.{
  authorize_with, authorize_append, burn_with, burn_if_share, append_new, append_box, append_to,
  append_inner, mark_new,
}
use nemo_messenger.Server.Home.Capabilities.{
  fetch_prekey, prekey_with, prekey_for, reserve, queue_of, publish_prekey, register_share_token,
  fresh_share, ttl_or_default, drop_tokens_exact, sweep_dead_tokens_for, sweep_dead_tokens,
  mint_contact_capability, fresh_contact,
}
use nemo_messenger.Server.Home.Spent.{gc_mailbox-tokens}

module _ (tok blob : Bytes) where
  -- The token is gone, or has reserved the prekey.
  abbrev pub Holds : Tokens → Type 0
  Holds ts =
      (k : TokenKind)
      → token tok ts ≡ some k
      → (s : ShareToken) × (k ≡ share s) × (s.reserved_prekey ≡ some blob)

  abbrev pub HoldsIn : HomeServer → Type 0
  HoldsIn h = Holds h.tokens

  Holds-set_token :
      (want : Bytes) (v old : TokenKind) (ts : Tokens)
      → token want ts ≡ some old
      → ((s : ShareToken)
          → old ≡ share s
          → s.reserved_prekey ≡ some blob
          → (r : ShareToken) × (v ≡ share r) × (r.reserved_prekey ≡ some blob))
      → Holds ts
      → Holds (set_token want v ts)
  Holds-set_token want v old ts found keeps_it w k e = elim (Bool-cases (beq want tok)) [
    | inl mine ↦
        let same : want ≡ tok = ground (arith, beq_iff want tok) in
        let now_v : some v ≡ some k = sym (rw (token-set_token want tok v ts found, mine)) ∙ e in
        let (s, old_share, has) = w old (subst (λ x. token x ts ≡ some old) same found) in
        let (r, is_r, has_r) = keeps_it s old_share has in (r, (cc), has_r)
    | inr other ↦ w k (rw (token-set_token want tok v ts found, other) at e)
  ]

  Holds-push :
      (key : Bytes) (v : TokenKind) (ts : Tokens)
      → beq key tok ≡ false
      → Holds ts
      → Holds (ts ++ ((key, v) ∷ []))
  Holds-push key v ts other w k e = w k (rw (token-push tok key v ts, other) at e)

  Holds-without : (gone : List Bytes) (ts : Tokens) → Holds ts → Holds (without gone ts)
  Holds-without gone ts w k e = elim (Bool-cases (KeySet.has tok gone)) [
    | inl dropped ↦ let d = rw (token-without tok gone ts, dropped) at e in cc
    | inr kept ↦ w k (rw (token-without tok gone ts, kept) at e)
  ]

  authorize_with-Holds :
      (key : Bytes) (o : Option TokenKind) (h : HomeServer)
      → token key h.tokens ≡ o
      → HoldsIn h
      → HoldsIn (authorize_with key o h).1
  unfolding admit
  authorize_with-Holds key none h e w = w
  authorize_with-Holds key (some (share s)) h e w =
      let kept =
        Holds-set_token key (share s) (share s) h.tokens e (λ r same has. (r, same, has)) w in
      elim (Bool-cases (share_admits h.now s)) [ inl good ↦ rw good kept | inr bad ↦ rw bad kept ]
  authorize_with-Holds key (some (contact c)) h e w =
      let out = contact_admit h.now c in
      let kept = Holds-set_token key (contact out.0) (contact c) h.tokens e (λ r same has. cc) w in
      elim (Bool-cases out.1) [ inl good ↦ rw good kept | inr bad ↦ rw bad kept ]

  burn_with-Holds :
      (key : Bytes) (o : Option TokenKind) (h : HomeServer)
      → token key h.tokens ≡ o
      → HoldsIn h
      → HoldsIn (burn_with key o h)
  burn_with-Holds key none h e w = w
  burn_with-Holds key (some (contact c)) h e w = w
  burn_with-Holds key (some (share s)) h e w = elim (Bool-cases s.burned) [
    | inl spent ↦ rw spent w
    | inr fresh ↦ rw fresh (
        Holds-set_token key (share (record s { burned = true })) (share s) h.tokens e
          (λ r same has. (record r { burned = true }, (cc), has)) w)
  ]

  append_new-Holds :
      (owner : Bytes) (inner : InnerEnvelope) (box : Mailbox) (r : WireResult Bytes)
      (h : HomeServer)
      → HoldsIn h
      → HoldsIn (append_new owner inner box r h).1
  unfolding burn_if_share
  append_new-Holds owner inner box (err e) h w = w
  append_new-Holds owner inner box (ok padded) h w =
      let box' = store_envelope h.now h.limits.mailbox_max_age_secs inner (length padded) box in
      let h1 = mark (mark_new owner box.next_seq) (put_mailbox owner box' h) in
      let key = inner.delivery_capability in
      subst Holds (sym (gc_mailbox-tokens owner (burn_if_share key h1)))
        (burn_with-Holds key (token key h.tokens) h1 refl w)

  append_box-Holds :
      (owner : Bytes) (inner : InnerEnvelope) (o : Option Mailbox) (h : HomeServer)
      → HoldsIn h
      → HoldsIn (append_box owner inner o h).1
  append_box-Holds owner inner none h w = w
  append_box-Holds owner inner (some box) h w =
      elim (Option-cases (Map.get inner.idempotency_token box.idempotency)) [
        | inl fresh ↦ rw fresh (append_new-Holds owner inner box (encode_padded inner) h w)
        | inr (seq, known) ↦ rw known w
      ]

  pub append_inner-Holds :
      (inner : InnerEnvelope) (h : HomeServer) → HoldsIn h → HoldsIn (append_inner inner h).1
  unfolding append_inner append_to authorize_append
  append_inner-Holds inner h w =
      let key = inner.delivery_capability in
      then_keeps HoldsIn _ (authorize_append key h)
        (authorize_with-Holds key (token key h.tokens) h refl w)
        λ owner h' w'. append_box-Holds owner inner (Map.get owner h'.mailboxes) h' w'

  pub register_share_token-Holds :
      (owner key : Bytes) (ttl : Option ℕ) (h : HomeServer)
      → beq key tok ≡ false
      → HoldsIn h
      → HoldsIn (register_share_token owner key ttl h).1
  unfolding register_share_token
  register_share_token-Holds owner key ttl h other w =
      let s = fresh_share owner (add64 h.now (ttl_or_default ttl)) in
      lift_keeps HoldsIn (require_mailbox owner h) _ h w λ _ _.
        if_keeps HoldsIn (allowed_intro_ttl (ttl_or_default ttl)) _ _
          (Holds-push key (share s) h.tokens other w) w

  drop_tokens_exact-Holds :
      (dead : List Bytes) (h : HomeServer) → HoldsIn h → HoldsIn (drop_tokens_exact dead h)
  unfolding drop_tokens_exact
  drop_tokens_exact-Holds [] h w = w
  drop_tokens_exact-Holds (k ∷ dead) h w = Holds-without (k ∷ dead) h.tokens w

  pub sweep_dead_tokens_for-Holds :
      (owner : Bytes) (h : HomeServer) → HoldsIn h → HoldsIn (sweep_dead_tokens_for owner h).0
  unfolding sweep_dead_tokens_for
  sweep_dead_tokens_for-Holds owner h w =
      drop_tokens_exact-Holds
        (dead_for h.now (not (is_open (Map.get owner h.mailboxes))) owner h.tokens) h w

  pub sweep_dead_tokens-Holds : (h : HomeServer) → HoldsIn h → HoldsIn (sweep_dead_tokens h).0
  unfolding sweep_dead_tokens
  sweep_dead_tokens-Holds h w =
      drop_tokens_exact-Holds
        (dead_all h.now (λ owner. not (is_open (Map.get owner h.mailboxes))) h.tokens) h w

  pub mint-Holds :
      (key owner : Bytes) (h : HomeServer)
      → beq key tok ≡ false
      → HoldsIn h
      → HoldsIn (mint_contact_capability key owner h).1
  unfolding mint_contact_capability
  mint-Holds key owner h other w = lift_keeps HoldsIn (require_mailbox owner h) _ h w λ _ _.
      let swept = (sweep_dead_tokens_for owner h).0 in
      Holds-push key (contact (fresh_contact owner swept.now)) swept.tokens other
        (sweep_dead_tokens_for-Holds owner h w)

  pub publish_prekey-Holds :
      (owner fresh : Bytes) (h : HomeServer) → HoldsIn h → HoldsIn (publish_prekey owner fresh h).1
  unfolding publish_prekey
  publish_prekey-Holds owner fresh h w = lift_keeps HoldsIn (require_mailbox owner h) _ h w λ _ _. w

  reserve-Holds :
      (key : Bytes) (s : ShareToken) (q : List Bytes) (h : HomeServer)
      → token key h.tokens ≡ some (share s)
      → s.reserved_prekey ≡ none
      → HoldsIn h
      → HoldsIn (reserve key s q h).1
  reserve-Holds key s [] h e free w = w
  reserve-Holds key s (b ∷ q) h e free w =
      Holds-set_token key (share (record s { reserved_prekey = some b })) (share s) h.tokens e
        (λ r same has. cc) w

  prekey_with-Holds :
      (key : Bytes) (o : Option TokenKind) (h : HomeServer)
      → token key h.tokens ≡ o
      → HoldsIn h
      → HoldsIn (prekey_with key o h).1
  prekey_with-Holds key none h e w = w
  prekey_with-Holds key (some (contact c)) h e w = w
  prekey_with-Holds key (some (share s)) h e w = elim (Option-cases s.reserved_prekey) [
    | inl free ↦
        if_keeps HoldsIn (share_admits h.now s) _ _
          (rw (free, prekey_for)
            (reserve-Holds key s (queue_of (Map.get s.mailbox h.prekeys)) h e free w))
          w
    | inr (b, has_one) ↦ if_keeps HoldsIn (share_admits h.now s) _ _ (rw (has_one, prekey_for) w) w
  ]

  pub fetch_prekey-Holds :
      (key : Bytes) (h : HomeServer) → HoldsIn h → HoldsIn (fetch_prekey key h).1
  unfolding fetch_prekey
  fetch_prekey-Holds key h w = prekey_with-Holds key (token key h.tokens) h refl w
