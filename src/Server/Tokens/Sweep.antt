-- ===== src/Server/Tokens/Sweep.antt =====
-- The sweepers of dead tokens (crates/nemo-server/src/home.rs): what they never drop, and that the two
-- of them apply the same test.
use nemo_messenger.Prelude.{
  ℕ, suc, ◌+◌, ◌≤◌, ◌<◌, ◌≡◌, refl, sym, Bool, true, false, Bool-cases, Option-cases, ◌⊎◌, ◌^◌, inl,
  inr, Option, none, some, [], ◌∷◌, arith,
}
use mathlib.Core.Path.{subst}
use nemo_messenger.Prelude.Bytes.{Bytes, beq, beq_iff}
use nemo_messenger.Prelude.KeySet
use nemo_messenger.Server.Tokens.{
  TokenKind, share, contact, Tokens, token, without, keys_where, kind_dead, share_token_dead,
  contact_token_dead, newest_contact_idx_for, dead_for, in_grace,
}
use nemo_messenger.Server.Tokens.Lookup.{token-without}

-- No two entries have the same key.
abbrev pub AreDistinct : Tokens → Type 0
AreDistinct [] = Unit
AreDistinct ((k, v) ∷ ts) = (token k ts ≡ none) × AreDistinct ts

-- Every entry with the key has the property.
abbrev pub Every : (TokenKind → Type 0) → Bytes → Tokens → Type 0
Every P k [] = Unit
Every P k ((j, v) ∷ ts) = (beq j k ≡ true → P v) × Every P k ts

pub no_entry : (P : TokenKind → Type 0) (k : Bytes) (ts : Tokens) → token k ts ≡ none → Every P k ts
unfolding token
no_entry P k [] e = tt
no_entry P k ((j, v) ∷ ts) e = elim (Option-cases (token k ts)) [
  | inl missing ↦ (λ same. absurd (ground arith), no_entry P k ts missing)
  | inr (u, found) ↦ absurd (ground arith)
]

only_entry :
    (P : TokenKind → Type 0) (k : Bytes) (ts : Tokens) {v : TokenKind}
    → AreDistinct ts
    → token k ts ≡ some v
    → P v
    → Every P k ts
unfolding token
only_entry P k [] d e p = tt
only_entry P k ((j, w) ∷ ts) {v} d e p = elim (Option-cases (token k ts)) [
  | inl missing ↦
      let same : w ≡ v = ground arith in (λ _. subst P (sym same) p, no_entry P k ts missing)
  | inr (u, found) ↦
      let same : u ≡ v = ground arith in
      let other : beq j k ≡ false = ground (arith, beq_iff j k, d.0) in
      (λ here. absurd (ground arith), only_entry P k ts d.1 found (subst P (sym same) p))
]

pub spared :
    (P : TokenKind → Type 0) (p : ℕ → TokenKind → Bool) (k : Bytes) (i : ℕ) (ts : Tokens)
    → ((j : ℕ) (v : TokenKind) → P v → p j v ≡ false)
    → Every P k ts
    → KeySet.has k (keys_where p i ts) ≡ false
unfolding keys_where KeySet.has
spared P p k i [] never h = refl
spared P p k i ((j, v) ∷ ts) never h = elim (Bool-cases (beq j k)) [
  | inl here ↦ rw (never i v (h.0 here), spared P p k (suc i) ts never h.1)
  | inr other ↦ ground (arith, spared P p k (suc i) ts never h.1)
]

abbrev kept_for : Option Bytes → ℕ
kept_for none = 86400
kept_for (some _) = 604800

-- A token that must not be swept yet: a share token until a day after it expires, or seven days if it
-- has reserved a prekey; a contact token in its time of grace, or used in the last thirty days.
abbrev pub InUse : ℕ → TokenKind → Type 0
InUse now (share s) = now ≤ s.expires_at + kept_for s.reserved_prekey
InUse now (contact c) = (in_grace now c.grace_until ≡ true) ⊎ (now ≤ c.window_start + 2592000)

InUse-alive :
    (now i : ℕ) (survivor : Option ℕ) (v : TokenKind)
    → now < 2 ^ 64
    → InUse now v
    → kind_dead now survivor i v ≡ false
unfolding kind_dead share_token_dead contact_token_dead
InUse-alive now i survivor (share s) hn h = ground arith
InUse-alive now i survivor (contact c) hn h = ground arith

-- A sweep of an open mailbox leaves every token that is in use. The keys of the tokens are distinct.
pub sweep_spares-InUse :
    (now : ℕ) (owner k : Bytes) (ts : Tokens) {v : TokenKind}
    → now < 2 ^ 64
    → AreDistinct ts
    → token k ts ≡ some v
    → InUse now v
    → token k (without (dead_for now false owner ts) ts) ≡ some v
unfolding dead_for
sweep_spares-InUse now owner k ts {v} hn d e busy =
    let alive : KeySet.has k (dead_for now false owner ts) ≡ false =
      spared (InUse now) _ k 0 ts
        (λ j w h. ground (arith, InUse-alive now j (newest_contact_idx_for owner ts) w hn h))
        (only_entry (InUse now) k ts d e busy) in
    rw (token-without k (dead_for now false owner ts) ts, alive) e
