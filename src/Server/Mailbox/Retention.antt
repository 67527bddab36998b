-- ===== src/Server/Mailbox/Retention.antt =====
-- What a stored envelope has to fear from the collection that follows (crates/nemo-server/src/home.rs).
use nemo_messenger.Prelude.{
  ℕ, ◌+◌, ◌^◌, ◌≤◌, ◌<◌, ◌≡◌, refl, ◌∙◌, ap, Bool, false, not, Bool-cases, inl, inr, [], ◌∷◌, ◌++◌,
  arith, ltb,
}
use nemo_messenger.Wire.Envelope.{InnerEnvelope}
use nemo_messenger.Server.Mailbox.{
  StoredEnvelope, Rows, Mailbox, envelope_size, row_expired, collect, new_row, store_envelope,
}
use nemo_messenger.Server.Mailbox.Rows.{total, keep_rows, insert_row-last}
use nemo_messenger.Server.Mailbox.Invariant.{
  IsLog, newest_within, collect_lem, store_envelope-IsLog,
}
use nemo_messenger.Server.Mailbox.Delivery.{expiry_later}

newest_within-last :
    (max : ℕ) (rows : Rows) (x : ℕ × StoredEnvelope)
    → total (x ∷ []) ≤ max
    → (kept : Rows) × (newest_within max (rows ++ (x ∷ [])) ≡ kept ++ (x ∷ []))
newest_within-last max [] (s, r) h = ([], ground arith)
newest_within-last max ((s, r) ∷ rows) x h =
    let (kept, same) = newest_within-last max rows x h in
    elim (Bool-cases (ltb max (total ((s, r) ∷ (rows ++ (x ∷ [])))))) [
      | inl over ↦ (kept, rw over same)
      | inr fits ↦ ((s, r) ∷ rows, rw fits)
    ]

keep-append :
    (p : ℕ → StoredEnvelope → Bool) (xs ys : Rows)
    → keep_rows p (xs ++ ys) ≡ keep_rows p xs ++ keep_rows p ys
keep-append p [] ys = refl
keep-append p ((s, r) ∷ xs) ys = ground (arith, keep-append p xs ys)

new_row_alive :
    (now max_age seq : ℕ) (inner : InnerEnvelope)
    → 0 < max_age
    → now + 1 < 2 ^ 64
    → row_expired now max_age (new_row now max_age inner seq) ≡ false
unfolding row_expired
new_row_alive now max_age seq inner hm hn =
    let later = expiry_later now max_age inner.ttl_bucket hm hn in ground arith

-- An accepted envelope is not lost to the collection that follows at once: it is the last row of what is
-- left, however full the mailbox was. The retention is not 0, the envelope fits the byte limit, and no
-- counter overflows.
pub stored_is_kept :
    (now max_age max : ℕ) (inner : InnerEnvelope) (box : Mailbox)
    → IsLog box
    → 0 < max_age
    → now + 1 < 2 ^ 64
    → envelope_size inner ≤ max
    → box.next_seq + 1 < 2 ^ 64
    → box.bytes + envelope_size inner < 2 ^ 64
    → (kept : Rows) × ((collect now max_age max
          (store_envelope now max_age inner (envelope_size inner) box)).0.rows
        ≡ kept ++ ((box.next_seq, new_row now max_age inner box.next_seq) ∷ []))
stored_is_kept now max_age max inner box v hm hn fits hs hb =
    let row = new_row now max_age inner box.next_seq in
    let x : ℕ × StoredEnvelope = (box.next_seq, row) in
    let stored = store_envelope now max_age inner (envelope_size inner) box in
    let rows : stored.rows ≡ box.rows ++ (x ∷ []) =
      unfold store_envelope in insert_row-last box.next_seq 1 row box.rows v.rows in
    let alive = λ (s : ℕ) (r : StoredEnvelope). not (row_expired now max_age r) in
    let left =
      (collect_lem now max_age max stored
        (store_envelope-IsLog now max_age inner box v hs hb)).left in
    let last : keep_rows alive (x ∷ []) ≡ x ∷ [] =
      rw (new_row_alive now max_age box.next_seq inner hm hn) in
    let (kept, same) = newest_within-last max (keep_rows alive box.rows) x (omega arith) in
    (
      kept,
      left
          ∙ ap (λ t. newest_within max (keep_rows alive t)) rows
          ∙ ap (newest_within max)
              (keep-append alive box.rows (x ∷ []) ∙ ap (λ t. keep_rows alive box.rows ++ t) last)
          ∙ same,
    )
