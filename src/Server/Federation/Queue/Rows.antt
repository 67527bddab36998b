-- ===== src/Server/Federation/Queue/Rows.antt =====
-- Where a row stands in the outbound queue (crates/nemo-server/src/s2s.rs).
use nemo_messenger.Prelude.{
  ℕ, suc, ◌≡◌, refl, sym, ap, ◌∙◌, Bool, true, false, some, List, [], ◌∷◌, length, find, remove_at,
  Bool-cases, Option-cases, inl, inr,
}
use nemo_messenger.Prelude.Bytes.{beq_refl}
use nemo_messenger.Server.Home.{OutboundRow}
use nemo_messenger.Server.Federation.Queue.{matches, index_where, next_index}

matches_refl : (r : OutboundRow) → matches r r ≡ true
matches_refl r = rw (beq_refl r.dest, beq_refl r.outer.hpke_ciphertext) refl

-- A row that was found is one of the queue.
pub index_found :
    (q : OutboundRow → Bool) (row : OutboundRow) (rows : List OutboundRow)
    → find q rows ≡ some row
    → (i : ℕ) × (index_where (matches row) rows ≡ some i)
index_found q row [] e = cc
index_found q row (r ∷ rows) e = elim (Bool-cases (matches row r)) [
  | inl same ↦ (0, rw same refl)
  | inr other ↦ elim (Bool-cases (q r)) [
    | inl here ↦
        let eq : r ≡ row = cc (rw here at e) in
        absurd (true_not_false (sym (matches_refl row) ∙ rw eq at other))
    | inr there ↦
        let (i, found) = index_found q row rows (rw there at e) in (suc i, rw (other, found) refl)
  ]
]
  where
    true_not_false : true ≡ false → ⊥
    true_not_false e = cc

pub length-remove_at :
    (p : OutboundRow → Bool) (rows : List OutboundRow) (i : ℕ)
    → index_where p rows ≡ some i
    → suc (length (remove_at i rows)) ≡ length rows
length-remove_at p [] i e = cc
length-remove_at p (r ∷ rows) i e = elim (Bool-cases (p r)) [
  | inl here ↦ let first : 0 ≡ i = cc (rw here at e) in rw (← first) refl
  | inr there ↦ behind (λ j found. length-remove_at p rows j found) (rw there at e)
]
  where
    behind :
        ((j : ℕ) → index_where p rows ≡ some j → suc (length (remove_at j rows)) ≡ length rows)
        → next_index (index_where p rows) ≡ some i
        → suc (length (remove_at i (r ∷ rows))) ≡ suc (length rows)
    behind shorter e = elim (Option-cases (index_where p rows)) [
      | inl missing ↦ cc (rw missing at e)
      | inr (j, found) ↦
          let next : suc j ≡ i = cc (rw found at e) in rw (← next) (ap suc (shorter j found))
    ]
