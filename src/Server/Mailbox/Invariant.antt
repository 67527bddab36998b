-- ===== src/Server/Mailbox/Invariant.antt =====
-- The invariant of a mailbox log (crates/nemo-server/src/home.rs), and that each operation keeps it.
use nemo_messenger.Prelude.{
  ℕ, suc, zero, ◌+◌, ◌≤◌, ◌<◌, ◌≡◌, refl, sym, ◌∙◌, ap, not, add64, add64_within, ◌^◌, Bool-cases,
  inl, inr, List, [], ◌∷◌, arith, ltb, if◌then◌else◌, length, Option-cases,
}
use mathlib.Core.Path.{subst}
use nemo_messenger.Prelude.Map
use nemo_messenger.Prelude.Map.{Map, AllValues}
use nemo_messenger.Wire.Envelope.{InnerEnvelope}
use nemo_messenger.Server.Mailbox.{
  StoredEnvelope, Rows, Mailbox, fresh_mailbox, row_at, delete_row, envelope_size, seqs_where,
  remove_row, remove_rows, evict, evict_step, collect, store_envelope, new_row, ack_row, ack_rows,
  row_expired,
}
use nemo_messenger.Server.Mailbox.Rows.{
  RowsFrom, total, delete_row-RowsFrom, delete_above, delete_missing, total-delete_row,
  insert_row-last, append-RowsFrom, total-append, delete_rows, delete_rows-where, keep_rows,
}

-- A sequence number that has been given out.
abbrev pub Issued : ℕ → ℕ → Type 0
Issued next s = (1 ≤ s) × (s < next)

-- Rows ascend below the next sequence number, the byte count is that of the rows, and the idempotency
-- index names issued numbers alone.
pub record IsLog (box : Mailbox) : Type 0 where
  pub started : 1 ≤ box.next_seq
  pub rows : RowsFrom 1 box.next_seq box.rows
  pub bytes : box.bytes ≡ total box.rows
  pub index : AllValues (Issued box.next_seq) box.idempotency

pub fresh-IsLog : (pk : List ℕ) → IsLog (fresh_mailbox pk)
fresh-IsLog pk = record { started = omega arith; rows = tt; bytes = refl; index = tt }

pub remove_row-IsLog : (seq : ℕ) (box : Mailbox) → IsLog box → IsLog (remove_row seq box)
unfolding remove_row
remove_row-IsLog seq box v = elim (Option-cases (row_at seq box.rows)) [
  | inl e ↦ rw (e, remove_row) v
  | inr (r, e) ↦
      rw (e, remove_row)
        (record {
          started = v.started;
          rows = delete_row-RowsFrom seq 1 box.next_seq box.rows v.rows;
          bytes = omega (arith, v.bytes, total-delete_row seq 1 box.next_seq box.rows v.rows e);
          index = Map.retain-AllValues (Issued box.next_seq) _ box.idempotency v.index;
        })
]

pub ack_row-IsLog : (seq : ℕ) (box : Mailbox) → IsLog box → IsLog (ack_row seq box)
unfolding ack_row
ack_row-IsLog seq box v = elim (Option-cases (row_at seq box.rows)) [
  | inl e ↦ rw (e, ack_row) v
  | inr (r, e) ↦
      rw (e, ack_row)
        (record {
          started = v.started;
          rows = delete_row-RowsFrom seq 1 box.next_seq box.rows v.rows;
          bytes = omega (arith, v.bytes, total-delete_row seq 1 box.next_seq box.rows v.rows e);
          index = v.index;
        })
]

pub remove_rows-IsLog : (seqs : List ℕ) (box : Mailbox) → IsLog box → IsLog (remove_rows seqs box)
unfolding remove_rows
remove_rows-IsLog [] box v = v
remove_rows-IsLog (s ∷ seqs) box v =
    remove_rows-IsLog seqs (remove_row s box) (remove_row-IsLog s box v)

pub ack_rows-IsLog : (seqs : List ℕ) (box : Mailbox) → IsLog box → IsLog (ack_rows seqs box)
unfolding ack_rows
ack_rows-IsLog [] box v = v
ack_rows-IsLog (s ∷ seqs) box v = ack_rows-IsLog seqs (ack_row s box) (ack_row-IsLog s box v)

-- The independent description of the loop: the longest end of the rows that fits the limit.
abbrev pub newest_within : ℕ → Rows → Rows
newest_within max [] = []
newest_within max ((s, r) ∷ rows) =
    let rest = newest_within max rows in
    if ltb max (total ((s, r) ∷ rows)) then rest else (s, r) ∷ rows

rows-remove_row : (seq : ℕ) (box : Mailbox) → (remove_row seq box).rows ≡ delete_row seq box.rows
unfolding remove_row
rows-remove_row seq box = elim (Option-cases (row_at seq box.rows)) [
  | inl e ↦ rw (e, remove_row) (sym (delete_missing seq box.rows e))
  | inr (r, e) ↦ rw (e, remove_row)
]

head-delete_row :
    (s hi : ℕ) (r : StoredEnvelope) (rows : Rows)
    → RowsFrom (suc s) hi rows
    → delete_row s ((s, r) ∷ rows) ≡ rows
head-delete_row s hi r rows h =
    let first : delete_row s ((s, r) ∷ rows) ≡ delete_row s rows =
      unfold delete_row in ground arith in
    first ∙ delete_above s (suc s) hi rows (omega arith) h

-- What the loop makes of a log, for enough rounds.
pub record Evicted (max : ℕ) (rows : Rows) (box : Mailbox) : Type 0 where
  pub log : IsLog box
  pub left : box.rows ≡ newest_within max rows

evict_at :
    (rounds max : ℕ) (box : Mailbox) {rows : Rows}
    → box.rows ≡ rows
    → evict (suc rounds) max box ≡ evict_step (evict rounds max) max box rows
evict_at rounds max box e = unfold evict in ap (λ t. evict_step (evict rounds max) max box t) e

pub evict_lem :
    (rounds max : ℕ) (rows : Rows) (box : Mailbox)
    → box.rows ≡ rows
    → length rows ≤ rounds
    → IsLog box
    → Evicted max rows (evict rounds max box).0
unfolding evict_step
evict_lem zero max [] box e h v = record { log = unfold evict in v; left = unfold evict in e }
evict_lem zero max (x ∷ rows) box e h v = absurd (omega arith)
evict_lem (suc rounds) max [] box e h v =
    rw (evict_at rounds max box e) (record { log = v; left = e })
evict_lem (suc rounds) max ((s, r) ∷ rows) box e h v =
    let w : RowsFrom 1 box.next_seq ((s, r) ∷ rows) = subst (RowsFrom 1 box.next_seq) e v.rows in
    let left : (remove_row s box).rows ≡ rows =
      rows-remove_row s box ∙ ap (delete_row s) e ∙ head-delete_row s box.next_seq r rows w.3 in
    let later =
      evict_lem rounds max rows (remove_row s box) left (omega arith) (remove_row-IsLog s box v) in
    let size : total ((s, r) ∷ rows) ≡ box.bytes = sym (v.bytes ∙ ap total e) in
    rw (evict_at rounds max box e) (elim (Bool-cases (ltb max box.bytes)) [
      | inl over ↦ rw over (record { log = later.log; left = later.left ∙ rw (size, over) })
      | inr fits ↦ rw fits (record { log = v; left = e ∙ rw (size, fits) })
    ])

-- What is left fits the limit.
pub total-newest_within : (max : ℕ) (rows : Rows) → total (newest_within max rows) ≤ max
total-newest_within max [] = omega arith
total-newest_within max ((s, r) ∷ rows) = ground (arith, total-newest_within max rows)

pub rows-remove_rows :
    (seqs : List ℕ) (box : Mailbox) → (remove_rows seqs box).rows ≡ delete_rows seqs box.rows
unfolding remove_rows
rows-remove_rows [] box = refl
rows-remove_rows (s ∷ seqs) box =
    rows-remove_rows seqs (remove_row s box) ∙ ap (delete_rows seqs) (rows-remove_row s box)

-- Garbage collection keeps the log well formed. The rows that stay are, in their order, those that have
-- not expired, less the oldest of them until the rest fits the byte limit.
pub collect_lem :
    (now max_age max : ℕ) (box : Mailbox)
    → IsLog box
    → Evicted max
        (keep_rows (λ s r. not (row_expired now max_age r)) box.rows)
        (collect now max_age max box).0
collect_lem now max_age max box v =
    let expired = seqs_where (λ s r. row_expired now max_age r) box.rows in
    let box' = remove_rows expired box in
    let rows : box'.rows ≡ keep_rows (λ s r. not (row_expired now max_age r)) box.rows =
      rows-remove_rows expired box ∙ delete_rows-where _ 1 box.next_seq box.rows v.rows in
    let done =
      evict_lem (length box'.rows) max box'.rows box' refl (omega arith)
        (remove_rows-IsLog expired box v) in
    unfold collect in subst (λ t. Evicted max t (evict (length box'.rows) max box').0) rows done

-- Storing an envelope keeps the log well formed, while neither counter reaches 2 ^ 64.
pub store_envelope-IsLog :
    (now max_age : ℕ) (inner : InnerEnvelope) (box : Mailbox)
    → IsLog box
    → box.next_seq + 1 < 2 ^ 64
    → box.bytes + envelope_size inner < 2 ^ 64
    → IsLog (store_envelope now max_age inner (envelope_size inner) box)
unfolding store_envelope
store_envelope-IsLog now max_age inner box v hs hb =
    let row = new_row now max_age inner box.next_seq in
    let next : add64 box.next_seq 1 ≡ box.next_seq + 1 = add64_within box.next_seq 1 hs in
    let size : add64 box.bytes (envelope_size inner) ≡ box.bytes + envelope_size inner =
      add64_within box.bytes (envelope_size inner) hb in
    rw (insert_row-last box.next_seq 1 row box.rows v.rows) (record {
      started = rw next (omega arith);
      rows = rw next (append-RowsFrom box.next_seq 1 row box.rows v.started refl v.rows);
      bytes = rw (size, total-append) (omega (arith, v.bytes));
      index = rw next (
          Map.insert-AllValues (Issued (box.next_seq + 1)) _ box.next_seq box.idempotency
            (omega arith)
            (Map.AllValues-mono (Issued box.next_seq) (Issued (box.next_seq + 1)) box.idempotency
              (λ s h. omega arith) v.index));
    })
