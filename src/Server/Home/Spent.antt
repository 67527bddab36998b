-- ===== src/Server/Home/Spent.antt =====
-- What a share token is good for (crates/nemo-server/src/home.rs): one envelope.
use nemo_messenger.Prelude.{
  ℕ, ◌≡◌, refl, sym, ◌∙◌, ap, true, Bool-cases, inl, inr, Option, none, some, length,
}
use mathlib.Core.Path.{subst}
use nemo_messenger.Prelude.Bytes.{Bytes, beq_refl}
use nemo_messenger.Prelude.Map
use nemo_messenger.Prelude.Result.{ok, err}
use nemo_messenger.Prelude.Exec.{continue_with}
use nemo_messenger.Wire.Envelope.{InnerEnvelope, encode_padded}
use nemo_messenger.Wire.Error.{WireResult}
use nemo_messenger.Server.Error.{ServerError, ServerResult, denied}
use nemo_messenger.Server.Mailbox.{Mailbox, store_envelope, collect}
use nemo_messenger.Server.Tokens.{ShareToken, share, token, set_token, share_admits}
use nemo_messenger.Server.Tokens.Lookup.{token-set_token}
use nemo_messenger.Server.Dirty.{is_nil}
use nemo_messenger.Server.Home.{HomeServer, Handler, put_mailbox, mark, is_disabled}
use nemo_messenger.Server.Home.Append.{
  authorize_with, authorize_append, authorize_mailbox, burn_with, burn_if_share, gc_with,
  gc_mailbox, append_new, append_known, append_box, append_to, append_inner, mark_new,
}
use nemo_messenger.Server.Home.Invariant.{authorize_append-Frame}

gc_with-tokens :
    (owner : Bytes) (o : Option Mailbox) (h : HomeServer) → (gc_with owner o h).tokens ≡ h.tokens
gc_with-tokens owner none h = refl
gc_with-tokens owner (some box) h =
    elim (Bool-cases
      (is_nil (collect h.now h.limits.mailbox_max_age_secs h.limits.mailbox_max_bytes box).1)) [
        | inl nothing ↦ rw nothing
        | inr rows ↦ rw rows
      ]

pub gc_mailbox-tokens : (owner : Bytes) (h : HomeServer) → (gc_mailbox owner h).tokens ≡ h.tokens
unfolding gc_mailbox
gc_mailbox-tokens owner h = gc_with-tokens owner (Map.get owner h.mailboxes) h

-- A share token is burned.
abbrev pub IsSpent : Bytes → HomeServer → Type 0
IsSpent tok h = (s : ShareToken) × (token tok h.tokens ≡ some (share s)) × (s.burned ≡ true)

burn_spends :
    (tok : Bytes) (h : HomeServer) (s : ShareToken)
    → token tok h.tokens ≡ some (share s)
    → IsSpent tok (burn_if_share tok h)
unfolding burn_if_share
burn_spends tok h s e = elim (Bool-cases s.burned) [
  | inl spent ↦ rw (e, burn_with) (rw spent (s, e, spent))
  | inr fresh ↦
      rw (e, burn_with)
        (rw fresh (
          record s { burned = true },
          rw (token-set_token tok tok _ h.tokens e, beq_refl tok),
          refl,
        ))
]

append_new-spends :
    (owner : Bytes) (inner : InnerEnvelope) (box : Mailbox) (s : ShareToken) (h : HomeServer)
    (r : WireResult Bytes) {seq : ℕ}
    → token inner.delivery_capability h.tokens ≡ some (share s)
    → (append_new owner inner box r h).0 ≡ ok seq
    → IsSpent inner.delivery_capability (append_new owner inner box r h).1
append_new-spends owner inner box s h (err e) found done = cc
append_new-spends owner inner box s h (ok padded) found done =
    let tok = inner.delivery_capability in
    let box' = store_envelope h.now h.limits.mailbox_max_age_secs inner (length padded) box in
    let h1 = mark (mark_new owner box.next_seq) (put_mailbox owner box' h) in
    let (t, at, spent) = burn_spends tok h1 s found in
    (t, ap (token tok) (gc_mailbox-tokens owner (burn_if_share tok h1)) ∙ at, spent)

-- The state of a share token's lookup after `authorize_append`.
authorized_share :
    (tok : Bytes) (s : ShareToken) (h : HomeServer)
    → token tok h.tokens ≡ some (share s)
    → token tok (authorize_append tok h).1.tokens ≡ some (share s)
unfolding authorize_append
authorized_share tok s h e =
    let kept : token tok (set_token tok (share s) h.tokens) ≡ some (share s) =
      rw (token-set_token tok tok (share s) h.tokens e, beq_refl tok) in
    elim (Bool-cases (share_admits h.now s)) [
      | inl good ↦ rw (e, authorize_with) (rw good kept)
      | inr bad ↦ rw (e, authorize_with) (rw bad kept)
    ]

spent_denied :
    (tok : Bytes) (h : HomeServer) → IsSpent tok h → (authorize_append tok h).0 ≡ err denied
unfolding authorize_append
spent_denied tok h (s, e, spent) = rw (e, authorize_with) (rw spent)

authorized_owner :
    (tok : Bytes) (s : ShareToken) (h : HomeServer) {o : Bytes}
    → token tok h.tokens ≡ some (share s)
    → (authorize_append tok h).0 ≡ ok o
    → s.mailbox ≡ o
unfolding authorize_append
authorized_owner tok s h {o} e done =
    let d = rw (e, authorize_with) at done in
    elim (Bool-cases (share_admits h.now s)) [
      | inl good ↦
          let d1 = rw good at d in
          elim (Bool-cases (is_disabled (Map.get s.mailbox h.mailboxes))) [
            | inl off ↦ let d2 = rw (off, authorize_mailbox) at d1 in cc
            | inr on ↦ let d2 = rw (on, authorize_mailbox) at d1 in cc
          ]
      | inr bad ↦ let d1 = rw bad at d in cc
    ]

append_to-spends :
    (inner : InnerEnvelope) (s : ShareToken) (box : Mailbox) (p : ServerResult Bytes × HomeServer)
    {seq : ℕ}
    → ((o : Bytes) → p.0 ≡ ok o → s.mailbox ≡ o)
    → token inner.delivery_capability p.1.tokens ≡ some (share s)
    → Map.get s.mailbox p.1.mailboxes ≡ some box
    → Map.get inner.idempotency_token box.idempotency ≡ none
    → (continue_with (λ owner. append_to owner inner) p).0 ≡ ok seq
    → IsSpent inner.delivery_capability (continue_with (λ owner. append_to owner inner) p).1
unfolding append_to
append_to-spends inner s box (err e, h) own found there fresh done = cc
append_to-spends inner s box (ok o, h) own found there fresh done =
    let same : s.mailbox ≡ o = own o refl in
    let at : Map.get o h.mailboxes ≡ some box =
      subst (λ x. Map.get x h.mailboxes ≡ some box) same there in
    let d = rw (fresh, append_known) at (rw (at, append_box) at done) in
    rw (at, append_box)
      (rw (fresh, append_known) (append_new-spends o inner box s h (encode_padded inner) found d))

continue_err :
    {A : Type 0} (f : A → Handler ℕ) (p : ServerResult A × HomeServer) {e : ServerError}
    → p.0 ≡ err e
    → (continue_with f p).0 ≡ err e
continue_err f (ok a, h) failed = cc
continue_err f (err d, h) failed = ap err (cc)

-- A share token admits one envelope: once an envelope is accepted under it that the mailbox did not
-- know, every envelope under that token is refused.
pub share_admits_once :
    (inner other : InnerEnvelope) (h : HomeServer) (s : ShareToken) (box : Mailbox) {seq : ℕ}
    → token inner.delivery_capability h.tokens ≡ some (share s)
    → Map.get s.mailbox h.mailboxes ≡ some box
    → Map.get inner.idempotency_token box.idempotency ≡ none
    → (append_inner inner h).0 ≡ ok seq
    → other.delivery_capability ≡ inner.delivery_capability
    → (append_inner other (append_inner inner h).1).0 ≡ err denied
unfolding append_inner
share_admits_once inner other h s box {seq} found there fresh done same =
    let tok = inner.delivery_capability in
    let f = authorize_append-Frame tok h in
    let spent =
      append_to-spends inner s box (authorize_append tok h)
        (λ o e. authorized_owner tok s h found e) (authorized_share tok s h found)
        (ap (Map.get s.mailbox) f.mailboxes ∙ there) fresh done in
    let h' = (append_inner inner h).1 in
    continue_err (λ owner. append_to owner other) (authorize_append other.delivery_capability h')
      (spent_denied other.delivery_capability h' (subst (λ t. IsSpent t h') (sym same) spent))
