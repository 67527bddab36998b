-- ===== src/Server/Tokens/Survivors.antt =====
-- `sweep_dead_tokens` and `sweep_dead_tokens_for` (crates/nemo-server/src/home.rs) apply one test.
use nemo_messenger.Prelude.{
  ℕ, suc, ◌<◌, ◌≡◌, refl, sym, ap, Bool, ◌||◌, Bool-cases, inl, inr, Option, none, some, [], ◌∷◌,
  arith,
}
use mathlib.Core.Path.{subst}
use nemo_messenger.Prelude.Bytes.{Bytes, beq, beq_iff}
use nemo_messenger.Prelude.Map
use nemo_messenger.Prelude.Map.{Map}
use nemo_messenger.Server.Tokens.{
  TokenKind, share, contact, Tokens, token_mailbox, keys_where, kind_dead, newest_from,
  newest_contact_idx_for, dead_all, survivors_from, index_of, better, keeps,
}

abbrev start_of : Option (ℕ × ℕ) → Option ℕ
start_of none = none
start_of (some (_, start)) = some start

-- The best so far lies before the index.
abbrev Before : Option (ℕ × ℕ) → ℕ → Type 0
Before none i = Unit
Before (some (b, _)) i = b < i

keeps_better :
    (best : Option (ℕ × ℕ)) (i start : ℕ)
    → Before best i
    → keeps (start_of best) start ≡ better best i start
keeps_better none i start h = refl
keeps_better (some (b, s)) i start h = ground arith

Before-suc : (best : Option (ℕ × ℕ)) (i : ℕ) → Before best i → Before best (suc i)
Before-suc none i h = tt
Before-suc (some (b, s)) i h = omega arith

survivors_agree :
    (owner : Bytes) (i : ℕ) (starts survivors : Map ℕ) (best : Option (ℕ × ℕ)) (ts : Tokens)
    → Before best i
    → Map.get owner starts ≡ start_of best
    → Map.get owner survivors ≡ index_of best
    → Map.get owner (survivors_from i starts survivors ts) ≡ index_of (newest_from owner i best ts)
unfolding survivors_from newest_from
survivors_agree owner i starts survivors best [] hb hs hi = hi
survivors_agree owner i starts survivors best ((k, share s) ∷ ts) hb hs hi =
    survivors_agree owner (suc i) starts survivors best ts (Before-suc best i hb) hs hi
survivors_agree owner i starts survivors best ((k, contact c) ∷ ts) hb hs hi =
    elim (Bool-cases (beq c.mailbox owner)) [
      | inl mine ↦
          let same : owner ≡ c.mailbox = sym ((beq_iff c.mailbox owner).0 mine) in
          let test : keeps (Map.get c.mailbox starts) c.window_start
              ≡ better best i c.window_start =
            subst (λ o. keeps (Map.get o starts) c.window_start ≡ better best i c.window_start) same
              (rw hs (keeps_better best i c.window_start hb)) in
          elim (Bool-cases (better best i c.window_start)) [
            | inl newer ↦ rw test (
                rw (mine, newer)
                  (survivors_agree owner (suc i) _ _ (some (i, c.window_start)) ts (omega arith)
                    (rw (Map.get-insert c.mailbox owner c.window_start starts, mine))
                    (rw (Map.get-insert c.mailbox owner i survivors, mine))))
            | inr older ↦ rw test (
                rw (mine, older)
                  (survivors_agree owner (suc i) starts survivors best ts (Before-suc best i hb) hs
                    hi))
          ]
      | inr other ↦ elim (Bool-cases (keeps (Map.get c.mailbox starts) c.window_start)) [
        | inl newer ↦
            rw (other, newer)
              (survivors_agree owner (suc i) _ _ best ts (Before-suc best i hb)
                (rw (Map.get-insert c.mailbox owner c.window_start starts, other) hs)
                (rw (Map.get-insert c.mailbox owner i survivors, other) hi))
        | inr older ↦
            rw (other, older)
              (survivors_agree owner (suc i) starts survivors best ts (Before-suc best i hb) hs hi)
      ]
    ]

keys_where-ext :
    (p q : ℕ → TokenKind → Bool) (i : ℕ) (ts : Tokens)
    → ((j : ℕ) (v : TokenKind) → p j v ≡ q j v)
    → keys_where p i ts ≡ keys_where q i ts
unfolding keys_where
keys_where-ext p q i [] same = refl
keys_where-ext p q i ((k, v) ∷ ts) same = rw (same i v, keys_where-ext p q (suc i) ts same)

-- The sweeper of all mailboxes drops exactly the tokens that pass, each for its own mailbox, the test of
-- the sweeper of one mailbox: both find the same newest contact token.
pub sweepers_agree :
    (now : ℕ) (closed : Bytes → Bool) (ts : Tokens)
    → dead_all now closed ts
      ≡ keys_where
          (λ i kind.
            closed (token_mailbox kind)
            || kind_dead now (newest_contact_idx_for (token_mailbox kind) ts) i kind)
          0
          ts
unfolding dead_all newest_contact_idx_for
sweepers_agree now closed ts = keys_where-ext _ _ 0 ts λ i v.
    ap (λ t. closed (token_mailbox v) || kind_dead now t i v)
      (survivors_agree (token_mailbox v) 0 [] [] none ts tt (unfold Map.get in refl)
        (unfold Map.get in refl))
