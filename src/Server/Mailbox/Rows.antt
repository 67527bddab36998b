-- ===== src/Server/Mailbox/Rows.antt =====
-- The rows of a mailbox log (crates/nemo-server/src/home.rs): ascending sequence numbers, and what
-- insertion, deletion and selection do to them.
use nemo_messenger.Prelude.{
  ℕ, suc, ◌+◌, ◌≤◌, ◌<◌, ◌≡◌, refl, ◌∙◌, ap, Bool, not, Bool-cases, inl, inr, none, some, List, [],
  ◌∷◌, ◌++◌, arith, ◌==◌, if◌then◌else◌,
}
use nemo_messenger.Server.Mailbox.{
  StoredEnvelope, Rows, row_at, insert_row, delete_row, envelope_size, seqs_where,
}

-- Keys ascend, from `lo` on and below `hi`, and each row bears its key.
abbrev pub RowsFrom : ℕ → ℕ → Rows → Type 0
RowsFrom lo hi [] = Unit
RowsFrom lo hi ((s, r) ∷ rows) = (lo ≤ s) × (s < hi) × (r.seq ≡ s) × RowsFrom (suc s) hi rows

-- The bytes that the rows take.
abbrev pub total : Rows → ℕ
total [] = 0
total ((s, r) ∷ rows) = envelope_size r.inner + total rows

abbrev pub keep_rows : (ℕ → StoredEnvelope → Bool) → Rows → Rows
keep_rows p [] = []
keep_rows p ((s, r) ∷ rows) = let rest = keep_rows p rows in if p s r then (s, r) ∷ rest else rest

pub RowsFrom-weaken :
    (lo lo' hi hi' : ℕ) (rows : Rows)
    → lo' ≤ lo
    → hi ≤ hi'
    → RowsFrom lo hi rows
    → RowsFrom lo' hi' rows
RowsFrom-weaken lo lo' hi hi' [] a b h = tt
RowsFrom-weaken lo lo' hi hi' ((s, r) ∷ rows) a b h =
    (omega arith, omega arith, h.2, RowsFrom-weaken (suc s) (suc s) hi hi' rows (omega arith) b h.3)

pub delete_above :
    (seq lo hi : ℕ) (rows : Rows) → seq < lo → RowsFrom lo hi rows → delete_row seq rows ≡ rows
unfolding delete_row
delete_above seq lo hi [] l h = refl
delete_above seq lo hi ((s, r) ∷ rows) l h =
    ground (arith, delete_above seq (suc s) hi rows (omega arith) h.3)

pub delete_row-RowsFrom :
    (seq lo hi : ℕ) (rows : Rows) → RowsFrom lo hi rows → RowsFrom lo hi (delete_row seq rows)
unfolding delete_row
delete_row-RowsFrom seq lo hi [] h = tt
delete_row-RowsFrom seq lo hi ((s, r) ∷ rows) h = elim (Bool-cases (s == seq)) [
  | inl e ↦
      rw (e, delete_row)
        (rw (delete_above seq (suc s) hi rows (ground arith) h.3)
          (RowsFrom-weaken (suc s) lo hi hi rows (omega arith) (omega arith) h.3))
  | inr e ↦ rw (e, delete_row) (h.0, h.1, h.2, delete_row-RowsFrom seq (suc s) hi rows h.3)
]

pub delete_missing : (seq : ℕ) (rows : Rows) → row_at seq rows ≡ none → delete_row seq rows ≡ rows
unfolding row_at delete_row
delete_missing seq [] e = refl
delete_missing seq ((s, r) ∷ rows) e = ground (arith, delete_missing seq rows)

pub total-delete_row :
    (seq lo hi : ℕ) (rows : Rows) {r : StoredEnvelope}
    → RowsFrom lo hi rows
    → row_at seq rows ≡ some r
    → total (delete_row seq rows) + envelope_size r.inner ≡ total rows
unfolding row_at delete_row
total-delete_row seq lo hi [] h e = cc
total-delete_row seq lo hi ((s, x) ∷ rows) {r} h e = elim (Bool-cases (s == seq)) [
  | inl q ↦
      rw (q, delete_row)
        (rw (delete_above seq (suc s) hi rows (ground arith) h.3)
          (let same : x ≡ r = ground arith in rw same (omega arith)))
  | inr q ↦
      let found : row_at seq rows ≡ some r = ground arith in
      rw (q, delete_row) (omega (arith, total-delete_row seq (suc s) hi rows h.3 found))
]

-- The next sequence number goes behind all others.
pub insert_row-last :
    (seq lo : ℕ) (row : StoredEnvelope) (rows : Rows)
    → RowsFrom lo seq rows
    → insert_row seq row rows ≡ rows ++ ((seq, row) ∷ [])
unfolding insert_row
insert_row-last seq lo row [] h = refl
insert_row-last seq lo row ((s, r) ∷ rows) h =
    ground (arith, insert_row-last seq (suc s) row rows h.3)

pub append-RowsFrom :
    (seq lo : ℕ) (row : StoredEnvelope) (rows : Rows)
    → lo ≤ seq
    → row.seq ≡ seq
    → RowsFrom lo seq rows
    → RowsFrom lo (seq + 1) (rows ++ ((seq, row) ∷ []))
append-RowsFrom seq lo row [] l e h = (l, omega arith, e, tt)
append-RowsFrom seq lo row ((s, r) ∷ rows) l e h =
    (h.0, omega arith, h.2, append-RowsFrom seq (suc s) row rows (omega arith) e h.3)

pub total-append : (xs ys : Rows) → total (xs ++ ys) ≡ total xs + total ys
total-append [] ys = omega arith
total-append ((s, r) ∷ xs) ys = omega (arith, total-append xs ys)

-- Deleting several rows, one after the other.
abbrev pub delete_rows : List ℕ → Rows → Rows
delete_rows [] rows = rows
delete_rows (seq ∷ seqs) rows = delete_rows seqs (delete_row seq rows)

abbrev AllFrom : ℕ → List ℕ → Type 0
AllFrom lo [] = Unit
AllFrom lo (x ∷ xs) = (lo ≤ x) × AllFrom lo xs

AllFrom-weaken : (lo lo' : ℕ) (xs : List ℕ) → lo' ≤ lo → AllFrom lo xs → AllFrom lo' xs
AllFrom-weaken lo lo' [] l h = tt
AllFrom-weaken lo lo' (x ∷ xs) l h = (omega arith, AllFrom-weaken lo lo' xs l h.1)

seqs_where-AllFrom :
    (p : ℕ → StoredEnvelope → Bool) (lo hi : ℕ) (rows : Rows)
    → RowsFrom lo hi rows
    → AllFrom lo (seqs_where p rows)
unfolding seqs_where
seqs_where-AllFrom p lo hi [] h = tt
seqs_where-AllFrom p lo hi ((s, r) ∷ rows) h =
    let later =
      AllFrom-weaken (suc s) lo (seqs_where p rows) (omega arith)
        (seqs_where-AllFrom p (suc s) hi rows h.3) in
    ground arith

delete_rows-later :
    (s : ℕ) (r : StoredEnvelope) (seqs : List ℕ) (rows : Rows)
    → AllFrom (suc s) seqs
    → delete_rows seqs ((s, r) ∷ rows) ≡ (s, r) ∷ delete_rows seqs rows
unfolding delete_row
delete_rows-later s r [] rows h = refl
delete_rows-later s r (x ∷ xs) rows h =
    ground (arith, delete_rows-later s r xs (delete_row x rows) h.1)

-- Deleting the rows that pass a test leaves those that do not, in their order.
pub delete_rows-where :
    (p : ℕ → StoredEnvelope → Bool) (lo hi : ℕ) (rows : Rows)
    → RowsFrom lo hi rows
    → delete_rows (seqs_where p rows) rows ≡ keep_rows (λ s r. not (p s r)) rows
unfolding seqs_where
delete_rows-where p lo hi [] h = refl
delete_rows-where p lo hi ((s, r) ∷ rows) h = elim (Bool-cases (p s r)) [
  | inl e ↦ rw e (
      ap (λ t. delete_rows (seqs_where p rows) t)
        (head_deleted ∙ delete_above s (suc s) hi rows (omega arith) h.3)
      ∙ delete_rows-where p (suc s) hi rows h.3)
  | inr e ↦ rw e (
      delete_rows-later s r (seqs_where p rows) rows (seqs_where-AllFrom p (suc s) hi rows h.3)
      ∙ ap (λ t. (s, r) ∷ t) (delete_rows-where p (suc s) hi rows h.3))
]
  where
    head_deleted : delete_row s ((s, r) ∷ rows) ≡ delete_row s rows
    head_deleted = unfold delete_row in ground arith
