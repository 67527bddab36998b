-- ===== src/Server/Mailbox/Delivery.antt =====
-- Reading a mailbox log (crates/nemo-server/src/home.rs): pages of `fetch`, acknowledgement, and what a
-- stored envelope adds.
use nemo_messenger.Prelude.{
  ℕ, suc, zero, ◌+◌, ◌^◌, ◌≤◌, ◌<◌, ◌≡◌, refl, sym, ◌∙◌, ap, true, false, not, Bool-cases, ◌⊎◌, inl,
  inr, List, [], ◌∷◌, ◌++◌, arith, ltb, leb, ◌&&◌, take, Option-cases,
}
use native.Mathlib.Nat.{le_trans}
use nemo_messenger.Wire.Envelope.{InnerEnvelope, TtlBucket, ttl_secs}
use nemo_messenger.Server.Mailbox.{
  StoredEnvelope, Rows, Mailbox, row_at, delete_row, seqs_where, new_row, envelope_expiry,
  store_envelope, ack_row, ack_rows, ack_upto, select_rows, fetch_rows,
}
use nemo_messenger.Server.Mailbox.Rows.{
  RowsFrom, delete_missing, insert_row-last, delete_rows, delete_rows-where, keep_rows,
}
use nemo_messenger.Server.Mailbox.Invariant.{IsLog}

-- Where the next page starts: the last sequence number of a page, or the cursor if it is empty.
abbrev pub page_end : ℕ → List StoredEnvelope → ℕ
page_end cursor [] = cursor
page_end cursor (r ∷ page) = page_end r.seq page

-- A lower cursor selects the same from rows that lie above both.
select_above :
    (now c d lo hi : ℕ) (rows : Rows)
    → c < lo
    → d < lo
    → RowsFrom lo hi rows
    → select_rows now c rows ≡ select_rows now d rows
unfolding select_rows
select_above now c d lo hi [] hc hd h = refl
select_above now c d lo hi ((s, r) ∷ rows) hc hd h =
    ground (arith, select_above now c d (suc s) hi rows (omega arith) (omega arith) h.3)

select_skip :
    (now c s : ℕ) (r : StoredEnvelope) (rows : Rows)
    → r.seq ≤ c
    → select_rows now c ((s, r) ∷ rows) ≡ select_rows now c rows
unfolding select_rows
select_skip now c s r rows h = ground arith

select_dead :
    (now c s : ℕ) (r : StoredEnvelope) (rows : Rows)
    → r.expires_at ≤ now
    → select_rows now c ((s, r) ∷ rows) ≡ select_rows now c rows
unfolding select_rows
select_dead now c s r rows h = ground arith

select_take :
    (now c s : ℕ) (r : StoredEnvelope) (rows : Rows)
    → c < r.seq
    → now < r.expires_at
    → select_rows now c ((s, r) ∷ rows) ≡ r ∷ select_rows now c rows
unfolding select_rows
select_take now c s r rows hc hn = ground arith

both_lt : (a b c d : ℕ) → (ltb a b && ltb c d) ≡ true → (a < b) × (c < d)
both_lt a b c d h = ground arith

one_le : (a b c d : ℕ) → (ltb a b && ltb c d) ≡ false → (b ≤ a) ⊎ (d ≤ c)
one_le a b c d h = ground arith

page_split :
    (now c limit lo hi : ℕ) (rows : Rows)
    → RowsFrom lo hi rows
    → (c ≤ page_end c (take limit (select_rows now c rows)))
      × (take limit (select_rows now c rows)
            ++ select_rows now (page_end c (take limit (select_rows now c rows))) rows
          ≡ select_rows now c rows)
page_split now c zero lo hi rows h = (omega arith, refl)
page_split now c (suc n) lo hi [] h = unfold select_rows in (omega arith, refl)
page_split now c (suc n) lo hi ((s, r) ∷ rows) h =
    elim (Bool-cases (ltb c r.seq && ltb now r.expires_at)) [
      | inl takes ↦
          let (above, alive) = both_lt c r.seq now r.expires_at takes in
          let (after, rest) = page_split now r.seq n (suc s) hi rows h.3 in
          rw
            (
              select_take now c s r rows above alive,
              select_above now c r.seq (suc s) hi rows (omega arith) (omega arith) h.3,
            )
            (omega arith, ap (λ t. r ∷ t) (rw (select_skip now _ s r rows after) rest))
      | inr skips ↦
          let (after, rest) = page_split now c (suc n) (suc s) hi rows h.3 in
          elim (one_le c r.seq now r.expires_at skips) [
            | inl below ↦
                rw (select_skip now c s r rows below)
                  (after, rw (select_skip now _ s r rows (le_trans below after)) rest)
            | inr dead ↦
                rw (select_dead now c s r rows dead)
                  (after, rw (select_dead now _ s r rows dead) rest)
          ]
    ]

-- A page and what is selected from behind its last row make up all that the cursor selects: nothing is
-- lost or repeated between two calls of `fetch`.
pub fetch_page :
    (now cursor limit : ℕ) (box : Mailbox)
    → IsLog box
    → (page : List StoredEnvelope) → fetch_rows now cursor limit box ≡ page
    → page ++ select_rows now (page_end cursor page) box.rows ≡ select_rows now cursor box.rows
unfolding fetch_rows
fetch_page now cursor limit box v page e =
    rw (← e) (page_split now cursor limit 1 box.next_seq box.rows v.rows).1

rows-ack_row : (seq : ℕ) (box : Mailbox) → (ack_row seq box).rows ≡ delete_row seq box.rows
unfolding ack_row
rows-ack_row seq box = elim (Option-cases (row_at seq box.rows)) [
  | inl e ↦ rw (e, ack_row) (sym (delete_missing seq box.rows e))
  | inr (r, e) ↦ rw (e, ack_row)
]

rows-ack_rows :
    (seqs : List ℕ) (box : Mailbox) → (ack_rows seqs box).rows ≡ delete_rows seqs box.rows
unfolding ack_rows
rows-ack_rows [] box = refl
rows-ack_rows (s ∷ seqs) box =
    rows-ack_rows seqs (ack_row s box) ∙ ap (delete_rows seqs) (rows-ack_row s box)

-- An acknowledgement removes exactly the rows up to its cursor.
rows-ack_upto :
    (up_to : ℕ) (box : Mailbox)
    → IsLog box
    → (ack_upto up_to box).rows ≡ keep_rows (λ s r. not (leb s up_to)) box.rows
unfolding ack_upto
rows-ack_upto up_to box v =
    rows-ack_rows (seqs_where (λ s r. leb s up_to) box.rows) box
    ∙ delete_rows-where (λ s r. leb s up_to) 1 box.next_seq box.rows v.rows

select-acked :
    (now c up_to lo hi : ℕ) (rows : Rows)
    → up_to ≤ c
    → RowsFrom lo hi rows
    → select_rows now c (keep_rows (λ s r. not (leb s up_to)) rows) ≡ select_rows now c rows
unfolding select_rows
select-acked now c up_to lo hi [] l h = refl
select-acked now c up_to lo hi ((s, r) ∷ rows) l h =
    ground (arith, select-acked now c up_to (suc s) hi rows l h.3)

-- Fetching a page, acknowledging its last row and fetching all the rest returns every envelope that the
-- first cursor selected, once and in order.
pub fetch_ack_fetch :
    (now cursor limit : ℕ) (box : Mailbox)
    → IsLog box
    → (page : List StoredEnvelope) → fetch_rows now cursor limit box ≡ page
    → page ++ select_rows now (page_end cursor page) (ack_upto (page_end cursor page) box).rows
      ≡ select_rows now cursor box.rows
fetch_ack_fetch now cursor limit box v page e =
    let last = page_end cursor page in
    rw
      (
        rows-ack_upto last box v,
        select-acked now last last 1 box.next_seq box.rows (omega arith) v.rows,
      )
      (fetch_page now cursor limit box v page e)

select-append :
    (now c : ℕ) (xs ys : Rows)
    → select_rows now c (xs ++ ys) ≡ select_rows now c xs ++ select_rows now c ys
unfolding select_rows
select-append now c [] ys = refl
select-append now c ((s, r) ∷ xs) ys = ground (arith, select-append now c xs ys)

-- Every expiry that the code sets lies after the receipt.
pub expiry_later :
    (now max_age : ℕ) (ttl : TtlBucket)
    → 0 < max_age
    → now + 1 < 2 ^ 64
    → now < envelope_expiry now ttl max_age
unfolding envelope_expiry ttl_secs
expiry_later now max_age ttl hm hn = ground arith

-- A stored envelope is selected last, behind what was selected before, by every cursor that is not past
-- it. The retention is not 0, and the clock is below its last value.
pub select-store_envelope :
    (now max_age cursor size : ℕ) (inner : InnerEnvelope) (box : Mailbox)
    → IsLog box
    → 0 < max_age
    → now + 1 < 2 ^ 64
    → cursor < box.next_seq
    → select_rows now cursor (store_envelope now max_age inner size box).rows
      ≡ select_rows now cursor box.rows ++ (new_row now max_age inner box.next_seq ∷ [])
unfolding store_envelope
select-store_envelope now max_age cursor size inner box v hm hn hc =
    let row = new_row now max_age inner box.next_seq in
    let later = expiry_later now max_age inner.ttl_bucket hm hn in
    let last : select_rows now cursor ((box.next_seq, row) ∷ []) ≡ row ∷ [] =
      select_take now cursor box.next_seq row [] hc later ∙ (unfold select_rows in refl) in
    rw (insert_row-last box.next_seq 1 row box.rows v.rows, select-append) (rw last)
