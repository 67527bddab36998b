-- ===== src/Server/Tokens/Newest.antt =====
-- The contact token of a mailbox that was used last (crates/nemo-server/src/home.rs), which the sweepers
-- call the newest.
use nemo_messenger.Prelude.{
  ℕ, suc, zero, ◌+◌, ◌≤◌, ◌≡◌, refl, Bool, true, false, ◌&&◌, Bool-cases, ◌⊎◌, inl, inr, Option,
  none, some, [], ◌∷◌, arith, get_elem?,
}
use nemo_messenger.Prelude.Bytes.{Bytes, beq}
use nemo_messenger.Server.Tokens.{
  ContactToken, share, contact, Tokens, newest_from, newest_contact_idx_for, better,
}

-- Every contact token of the owner began its window by then.
abbrev pub AllStartBy : Bytes → ℕ → Tokens → Type 0
AllStartBy owner t [] = Unit
AllStartBy owner t ((k, share s) ∷ ts) = AllStartBy owner t ts
AllStartBy owner t ((k, contact c) ∷ ts) =
    (beq c.mailbox owner ≡ true → c.window_start ≤ t) × AllStartBy owner t ts

AllStartBy-mono :
    (owner : Bytes) (t u : ℕ) (ts : Tokens) → t ≤ u → AllStartBy owner t ts → AllStartBy owner u ts
AllStartBy-mono owner t u [] l h = h
AllStartBy-mono owner t u ((k, share s) ∷ ts) l h = AllStartBy-mono owner t u ts l h
AllStartBy-mono owner t u ((k, contact c) ∷ ts) l h =
    (λ own. let first = h.0 own in omega arith, AllStartBy-mono owner t u ts l h.1)

-- The search ends with an entry no older than the best so far and than every contact token behind it.
abbrev AtMost : Option (ℕ × ℕ) → ℕ → Type 0
AtMost none t = Unit
AtMost (some (_, bs)) t = bs ≤ t

AtMost-mono : (best : Option (ℕ × ℕ)) (t u : ℕ) → t ≤ u → AtMost best t → AtMost best u
AtMost-mono none t u l h = tt
AtMost-mono (some (b, s)) t u l h = omega arith

better_newer :
    (best : Option (ℕ × ℕ)) (i start : ℕ) → better best i start ≡ true → AtMost best start
better_newer none i start h = tt
better_newer (some (b, s)) i start h = ground arith

not_better_older :
    (best : Option (ℕ × ℕ)) (i start t : ℕ)
    → better best i start ≡ false
    → AtMost best t
    → start ≤ t
not_better_older none i start t h a = cc
not_better_older (some (b, s)) i start t h a = ground arith

split_and : (a b : Bool) → (a && b) ≡ true → (a ≡ true) × (b ≡ true)
split_and a b h = ground arith

later_false : (a b : Bool) → (a && b) ≡ false → a ≡ true → b ≡ false
later_false a b h t = ground arith

newest_from-max :
    (owner : Bytes) (i : ℕ) (best : Option (ℕ × ℕ)) (ts : Tokens) {n t : ℕ}
    → newest_from owner i best ts ≡ some (n, t)
    → AtMost best t × AllStartBy owner t ts
unfolding newest_from
newest_from-max owner i none [] e = cc
newest_from-max owner i (some (b, s)) [] e = ground arith
newest_from-max owner i best ((k, share s) ∷ ts) e = newest_from-max owner (suc i) best ts e
newest_from-max owner i best ((k, contact c) ∷ ts) {n} {t} e =
    elim (Bool-cases (beq c.mailbox owner && better best i c.window_start)) [
      | inl newer ↦
          let (first, rest) =
            newest_from-max owner (suc i) (some (i, c.window_start)) ts {n = n} {t = t}
              (rw newer at e) in
          let (own, good) = split_and _ _ newer in
          (
            AtMost-mono best c.window_start t first (better_newer best i c.window_start good),
            (λ _. first, rest),
          )
      | inr older ↦
          let (first, rest) =
            newest_from-max owner (suc i) best ts {n = n} {t = t} (rw older at e) in
          (
            first,
            (
              λ own. not_better_older best i c.window_start t (later_false _ _ older own) first,
              rest,
            ),
          )
    ]

-- The entry that the search ends with is the best so far, or one of the list.
newest_from-where :
    (owner : Bytes) (i : ℕ) (best : Option (ℕ × ℕ)) (ts : Tokens) {n t : ℕ}
    → newest_from owner i best ts ≡ some (n, t)
    → (best ≡ some (n, t))
      ⊎ ((m : ℕ) × (k : Bytes) × (c : ContactToken) × (n ≡ i + m)
          × (get_elem? ts m ≡ some (k, contact c))
          × (beq c.mailbox owner ≡ true)
          × (c.window_start ≡ t))
unfolding newest_from
newest_from-where owner i best [] e = inl e
newest_from-where owner i best ((k, share s) ∷ ts) e =
    elim (newest_from-where owner (suc i) best ts e) [
      | inl old ↦ inl old
      | inr (m, j, c, at, found, own, start) ↦ inr (suc m, j, c, omega arith, found, own, start)
    ]
newest_from-where owner i best ((k, contact c) ∷ ts) {n} {t} e =
    elim (Bool-cases (beq c.mailbox owner && better best i c.window_start)) [
      | inl newer ↦
          elim (newest_from-where owner (suc i) (some (i, c.window_start)) ts {n = n} {t = t}
            (rw newer at e)) [
              | inl here ↦
                  let (own, good) = split_and _ _ newer in
                  inr (0, k, c, ground arith, refl, own, ground arith)
              | inr (m, j, d, at, found, own, start) ↦
                  inr (suc m, j, d, omega arith, found, own, start)
            ]
      | inr older ↦ elim (newest_from-where owner (suc i) best ts {n = n} {t = t} (rw older at e)) [
        | inl old ↦ inl old
        | inr (m, j, d, at, found, own, start) ↦ inr (suc m, j, d, omega arith, found, own, start)
      ]
    ]

-- A list in which no contact token of the owner is found has none.
abbrev pub HasContact : Bytes → Tokens → Type 0
HasContact owner ts =
    (m : ℕ) × (k : Bytes) × (c : ContactToken) × (get_elem? ts m ≡ some (k, contact c))
    × (beq c.mailbox owner ≡ true)

found_some :
    (owner : Bytes) (i : ℕ) (b : ℕ × ℕ) (ts : Tokens)
    → (r : ℕ × ℕ) × (newest_from owner i (some b) ts ≡ some r)
unfolding newest_from
found_some owner i b [] = (b, refl)
found_some owner i b ((k, share s) ∷ ts) = found_some owner (suc i) b ts
found_some owner i b ((k, contact c) ∷ ts) =
    elim (Bool-cases (beq c.mailbox owner && better (some b) i c.window_start)) [
      | inl newer ↦ rw newer (found_some owner (suc i) (i, c.window_start) ts)
      | inr older ↦ rw older (found_some owner (suc i) b ts)
    ]

finds :
    (owner : Bytes) (i m : ℕ) (ts : Tokens) {k : Bytes} {c : ContactToken}
    → get_elem? ts m ≡ some (k, contact c)
    → beq c.mailbox owner ≡ true
    → (r : ℕ × ℕ) × (newest_from owner i none ts ≡ some r)
unfolding newest_from
finds owner i m [] e own = cc
finds owner i zero ((j, share s) ∷ ts) e own = cc
finds owner i zero ((j, contact d) ∷ ts) {k} {c} e own =
    let mine : beq d.mailbox owner ≡ true = ground arith in
    rw mine (found_some owner (suc i) (i, d.window_start) ts)
finds owner i (suc m) ((j, share s) ∷ ts) e own = finds owner (suc i) m ts e own
finds owner i (suc m) ((j, contact d) ∷ ts) e own = elim (Bool-cases (beq d.mailbox owner)) [
  | inl mine ↦ rw mine (found_some owner (suc i) (i, d.window_start) ts)
  | inr other ↦ rw other (finds owner (suc i) m ts e own)
]

-- The entry whose window began last is what `newest_contact_idx_for` finds.
pub survivor_at :
    (owner : Bytes) (ts : Tokens)
    → HasContact owner ts
    → (i : ℕ) × (j : Bytes) × (b : ContactToken) × (get_elem? ts i ≡ some (j, contact b))
      × (beq b.mailbox owner ≡ true)
      × (newest_contact_idx_for owner ts ≡ some i)
      × AllStartBy owner b.window_start ts
unfolding newest_contact_idx_for
survivor_at owner ts (m, k, c, e, own) =
    let ((n, t), found) = finds owner 0 m ts e own in
    let (_, oldest) = newest_from-max owner 0 none ts found in
    elim (newest_from-where owner 0 none ts found) [
      | inl never ↦ cc
      | inr (i, j, b, at, entry, mine, start) ↦
          let place : n ≡ i = omega arith in
          (i, j, b, entry, mine, rw (found, place), rw start oldest)
    ]
