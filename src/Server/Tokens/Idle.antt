-- ===== src/Server/Tokens/Idle.antt =====
-- What a sweep (crates/nemo-server/src/home.rs) leaves of the contact tokens of a mailbox.
use nemo_messenger.Prelude.{
  ℕ, suc, zero, ◌+◌, ◌≤◌, ◌<◌, ◌≡◌, refl, ap, Bool, true, false, Bool-cases, inl, inr, Option, none,
  some, [], ◌∷◌, arith, get_elem?, ◌==◌, ◌-◌,
}
use mathlib.Core.Path.{subst}
use nemo_messenger.Prelude.Bytes.{Bytes, beq, beq_iff, beq_refl}
use nemo_messenger.Prelude.KeySet
use nemo_messenger.Server.Tokens.{
  ContactToken, TokenKind, share, contact, Tokens, token, without, keys_where, kind_dead, in_grace,
  contact_token_dead, newest_contact_idx_for, dead_for, is_index,
}
use nemo_messenger.Server.Tokens.Lookup.{token-without}
use nemo_messenger.Server.Tokens.Sweep.{AreDistinct, no_entry, spared}
use nemo_messenger.Server.Tokens.Newest.{AllStartBy, HasContact, survivor_at}

distinct_token :
    (m : ℕ) (ts : Tokens) {k : Bytes} {v : TokenKind}
    → AreDistinct ts
    → get_elem? ts m ≡ some (k, v)
    → token k ts ≡ some v
unfolding token
distinct_token m [] d e = cc
distinct_token zero ((j, w) ∷ ts) {k} {v} d e =
    let same : j ≡ k = cc in
    let kind : w ≡ v = cc in
    let alone : token k ts ≡ none = subst (λ x. token x ts ≡ none) same d.0 in
    rw (same, kind) (rw (alone, beq_refl k))
distinct_token (suc m) ((j, w) ∷ ts) d e = rw (distinct_token m ts d.1 e)

spared_at :
    (p : ℕ → TokenKind → Bool) (i m : ℕ) (ts : Tokens) {k : Bytes} {v : TokenKind}
    → AreDistinct ts
    → get_elem? ts m ≡ some (k, v)
    → p (i + m) v ≡ false
    → KeySet.has k (keys_where p i ts) ≡ false
unfolding keys_where KeySet.has
spared_at p i m [] d e h = refl
spared_at p i zero ((j, w) ∷ ts) {k} {v} d e h =
    let same : j ≡ k = cc in
    let kind : w ≡ v = cc in
    let start : i + 0 ≡ i = omega arith in
    let alive : p i w ≡ false = subst (λ x. p x w ≡ false) start (rw kind h) in
    let alone : token k ts ≡ none = subst (λ x. token x ts ≡ none) same d.0 in
    rw alive (
      spared (λ _. false ≡ true) p k (suc i) ts (λ _ _ never. cc)
        (no_entry (λ _. false ≡ true) k ts alone))
spared_at p i (suc m) ((j, w) ∷ ts) {k} {v} d e h =
    let there = distinct_token m ts d.1 e in
    let other : beq j k ≡ false = ground (arith, beq_iff j k, d.0) in
    let at : p (suc i + m) v ≡ false = subst (λ x. p x v ≡ false) (omega arith) h in
    let rest = spared_at p (suc i) m ts d.1 e at in ground (arith, rest, other)

survivor_alive :
    (now i : ℕ) (survivor : Option ℕ) (c : ContactToken)
    → is_index survivor i ≡ true
    → kind_dead now survivor i (contact c) ≡ false
unfolding kind_dead
survivor_alive now i survivor c h = ground arith

-- The key of an entry that passes the test is listed.
listed :
    (p : ℕ → TokenKind → Bool) (i m : ℕ) (ts : Tokens) {k : Bytes} {v : TokenKind}
    → get_elem? ts m ≡ some (k, v)
    → p (i + m) v ≡ true
    → KeySet.has k (keys_where p i ts) ≡ true
unfolding keys_where KeySet.has
listed p i m [] e h = cc
listed p i zero ((j, w) ∷ ts) {k} {v} e h =
    let same : j ≡ k = cc in
    let kind : w ≡ v = cc in
    let start : i + 0 ≡ i = omega arith in
    let here : p i w ≡ true = subst (λ x. p x w ≡ true) start (rw kind h) in
    rw (here, same) (rw (beq_refl k))
listed p i (suc m) ((j, w) ∷ ts) {k} {v} e h =
    let at : p (suc i + m) v ≡ true = subst (λ x. p x v ≡ true) (omega arith) h in
    let rest = listed p (suc i) m ts {k = k} {v = v} e at in ground (arith, rest)

AllStartBy-at :
    (owner : Bytes) (t m : ℕ) (ts : Tokens) {k : Bytes} {c : ContactToken}
    → AllStartBy owner t ts
    → get_elem? ts m ≡ some (k, contact c)
    → beq c.mailbox owner ≡ true
    → c.window_start ≤ t
AllStartBy-at owner t m [] a e own = cc
AllStartBy-at owner t zero ((j, share s) ∷ ts) a e own = cc
AllStartBy-at owner t zero ((j, contact d) ∷ ts) {k} {c} a e own =
    let same : d ≡ c = cc in subst (λ x. x.window_start ≤ t) same (a.0 (rw same own))
AllStartBy-at owner t (suc m) ((j, share s) ∷ ts) a e own = AllStartBy-at owner t m ts a e own
AllStartBy-at owner t (suc m) ((j, contact d) ∷ ts) a e own = AllStartBy-at owner t m ts a.1 e own

-- An entry whose window began earlier stands at another place.
not_there :
    (ts : Tokens) (i m : ℕ) {j k : Bytes} {b c : ContactToken}
    → get_elem? ts i ≡ some (j, contact b)
    → get_elem? ts m ≡ some (k, contact c)
    → c.window_start < b.window_start
    → (i == 0 + m) ≡ false
not_there ts i m {j} {k} {b} {c} at_i at_m early = elim (Bool-cases (i == 0 + m)) [
  | inr away ↦ away
  | inl here ↦
      let place : i ≡ m = ground arith in
      let both = subst (λ x. get_elem? ts x ≡ some (j, contact b)) place at_i in
      let same : b ≡ c = cc in
      let start : b.window_start ≡ c.window_start = ap (λ x. x.window_start) same in
      absurd (omega (arith, early, start))
]

idle_dead :
    (now i : ℕ) (survivor : Option ℕ) (c : ContactToken)
    → is_index survivor i ≡ false
    → in_grace now c.grace_until ≡ false
    → 2592000 < now - c.window_start
    → kind_dead now survivor i (contact c) ≡ true
unfolding kind_dead contact_token_dead
idle_dead now i survivor c other out idle = rw (other, out) (ground arith)

-- None of the owner's contact tokens in `before` is found in `after` that was used before `start`, is out
-- of its time of grace, and has been idle for longer than 30 days.
abbrev pub IdleGone : ℕ → Bytes → ℕ → Tokens → Tokens → Type 0
IdleGone now owner start before after =
    (m : ℕ) (k : Bytes) (c : ContactToken)
    → get_elem? before m ≡ some (k, contact c)
    → beq c.mailbox owner ≡ true
    → c.window_start < start
    → in_grace now c.grace_until ≡ false
    → 2592000 < now - c.window_start
    → token k after ≡ none

-- A sweep of an open mailbox that has contact tokens goes by their last use, not by when they were minted:
-- the one that was used last stays, even if it was minted first, and every other that was used before it,
-- is out of its time of grace and has been idle for longer than 30 days is gone, even if it was minted
-- last. The keys of the tokens are distinct.
pub sweep_by_last_use :
    (now : ℕ) (owner : Bytes) (ts : Tokens)
    → AreDistinct ts
    → HasContact owner ts
    → (k : Bytes) × (c : ContactToken) × (AllStartBy owner c.window_start ts)
      × (beq c.mailbox owner ≡ true)
      × (token k (without (dead_for now false owner ts) ts) ≡ some (contact c))
      × IdleGone now owner c.window_start ts (without (dead_for now false owner ts) ts)
unfolding dead_for
sweep_by_last_use now owner ts d has =
    let (i, j, b, entry, mine, found, oldest) = survivor_at owner ts has in
    let survivor : is_index (newest_contact_idx_for owner ts) (0 + i) ≡ true =
      rw found (ground arith) in
    let spare = survivor_alive now (0 + i) (newest_contact_idx_for owner ts) b survivor in
    let alive : KeySet.has j (dead_for now false owner ts) ≡ false =
      spared_at _ 0 i ts d entry (ground (arith, spare)) in
    (
      j,
      b,
      oldest,
      mine,
      rw (token-without j (dead_for now false owner ts) ts, alive) (distinct_token i ts d entry),
      λ m k c at own early out idle.
          let other : is_index (newest_contact_idx_for owner ts) (0 + m) ≡ false =
            rw found (not_there ts i m entry at early) in
          let gone : KeySet.has k (dead_for now false owner ts) ≡ true =
            listed _ 0 m ts at (
              rw (own, idle_dead now (0 + m) (newest_contact_idx_for owner ts) c other out idle)) in
          rw (token-without k (dead_for now false owner ts) ts, gone),
    )
