-- ===== src/Server/Federation/Pump/Settle.antt =====
-- What the pump leaves behind (crates/nemo-server/src/federation.rs).
use nemo_messenger.Prelude.{
  ℕ, zero, suc, ◌+◌, ◌≤◌, ◌≡◌, refl, sym, ap, ◌∙◌, true, false, Option, none, some, List, [], ◌∷◌,
  ◌++◌, length, ltb, get_elem?, get_elem?-append, get_elem?-past, remove_at-append,
  update_at-append, length-append, remove_at, update_at, arith, Bool-cases, inl, inr,
}
use mathlib.Core.List.{append_assoc, append-nil}
use nemo_messenger.Prelude.Bytes.{Bytes, beq}
use nemo_messenger.Prelude.Result.{ok, err}
use nemo_messenger.Wire.Sign.{Crypto}
use nemo_messenger.Server.Error.{
  ServerResult, wire, denied, owner_auth, already_registered, fetch_limit, not_pinned, peer_refused,
  counter_gap, hello_mismatch, outbound_expired,
}
use nemo_messenger.Server.Home.{HomeServer, OutboundRow}
use nemo_messenger.Server.Federation.{reset_link}
use nemo_messenger.Server.Federation.Queue.{PumpStats, too_old, backed_off, put_outbound}
use nemo_messenger.Server.Federation.Pump.{
  Two, stats_sum, after_attempt, forward_one, pump_round, pump_rows,
}
use nemo_messenger.Server.Federation.Pump.Keep.{queue-reset_link, queue-forward_one}

-- What may become of a row, and whether it was one for the destination.
pub data RowFate (dest : Bytes) (now : ℕ) (r : OutboundRow) : Option OutboundRow → ℕ → Type 0 where
  for_other : beq r.dest dest ≡ false → RowFate dest now r (some r) 0
  gone : beq r.dest dest ≡ true → RowFate dest now r none 1
  not_yet : beq r.dest dest ≡ true → ltb now r.next_attempt ≡ true → RowFate dest now r (some r) 1
  again : beq r.dest dest ≡ true → RowFate dest now r (some (backed_off now r)) 1

abbrev pub keep_row : Option OutboundRow → List OutboundRow → List OutboundRow
keep_row none rows = rows
keep_row (some r) rows = r ∷ rows

-- What becomes of all rows: each has one of these fates, in their order.
pub data Handled (dest : Bytes) (now : ℕ) : List OutboundRow → List OutboundRow → ℕ → Type 0 where
  finished : Handled dest now [] [] 0
  next_row :
      (r : OutboundRow) (o : Option OutboundRow) (c : ℕ) (rows kept : List OutboundRow) (n : ℕ)
      → RowFate dest now r o c
      → Handled dest now rows kept n
      → Handled dest now (r ∷ rows) (keep_row o kept) (c + n)

-- The end of a round for the row `r`, which stands between `done` and `rows`.
record RoundEnd (dest : Bytes) (now : ℕ) (done : List OutboundRow) (r : OutboundRow)
    (rows : List OutboundRow) (s : PumpStats) (next : ℕ × (PumpStats × Two)) : Type 0 where
  left : Option OutboundRow
  count : ℕ
  fate : RowFate dest now r left count
  queue : next.1.1.0.outbound ≡ done ++ keep_row left rows
  index : next.0 ≡ length (done ++ keep_row left [])
  sum : stats_sum next.1.0 ≡ stats_sum s + count

module _ (dest : Bytes) (now : ℕ) (done : List OutboundRow) (r : OutboundRow)
    (rows : List OutboundRow) where
  taken_out :
      (s s' : PumpStats) (ab : Two)
      → beq r.dest dest ≡ true
      → ab.0.outbound ≡ done ++ (r ∷ rows)
      → stats_sum s' ≡ stats_sum s + 1
      → RoundEnd dest now done r rows s
          (length done, (s', (put_outbound (remove_at (length done) ab.0.outbound) ab.0, ab.1)))
  taken_out s s' ab mine e t = record {
    left = none;
    count = 1;
    fate = gone mine;
    queue = rw e (remove_at-append done rows r);
    index = ap length (sym (append-nil done));
    sum = t;
  }

  put_off :
      (s s' : PumpStats) (a b : HomeServer)
      → beq r.dest dest ≡ true
      → a.outbound ≡ done ++ (r ∷ rows)
      → stats_sum s' ≡ stats_sum s + 1
      → RoundEnd dest now done r rows s (
        suc (length done),
        (s', (put_outbound (update_at (backed_off now) (length done) a.outbound) a, b)),
      )
  put_off s s' a b mine e t = record {
    left = some (backed_off now r);
    count = 1;
    fate = again mine;
    queue = rw e (update_at-append (backed_off now) done rows r);
    index = omega (arith, length-append done (backed_off now r ∷ []));
    sum = t;
  }

  passed_by :
      (s s' : PumpStats) (ab : Two) (count : ℕ)
      → RowFate dest now r (some r) count
      → ab.0.outbound ≡ done ++ (r ∷ rows)
      → stats_sum s' ≡ stats_sum s + count
      → RoundEnd dest now done r rows s (suc (length done), (s', ab))
  passed_by s s' ab count f e t = record {
    left = some r;
    count = count;
    fate = f;
    queue = e;
    index = omega (arith, length-append done (r ∷ []));
    sum = t;
  }

  after_attempt-RoundEnd :
      (out : ServerResult (Unit {0})) (a_id : Bytes) (s : PumpStats) (ab : Two)
      → beq r.dest dest ≡ true
      → ab.0.outbound ≡ done ++ (r ∷ rows)
      → RoundEnd dest now done r rows s (after_attempt out a_id dest now (length done) s ab)
  after_attempt-RoundEnd (ok _) a_id s ab mine e = taken_out s _ ab mine e (omega arith)
  after_attempt-RoundEnd (err denied) a_id s ab mine e = taken_out s _ ab mine e (omega arith)
  after_attempt-RoundEnd (err peer_refused) a_id s ab mine e = taken_out s _ ab mine e (omega arith)
  after_attempt-RoundEnd (err counter_gap) a_id s ab mine e =
      put_off s _ (reset_link dest ab.0) (reset_link a_id ab.1) mine
        (ap (λ q. q.0) (queue-reset_link (ab.0.outbound, ab.0.now) dest ab.0 refl) ∙ e)
        (omega arith)
  after_attempt-RoundEnd (err (wire x)) a_id s ab mine e =
      put_off s _ ab.0 ab.1 mine e (omega arith)
  after_attempt-RoundEnd (err owner_auth) a_id s ab mine e =
      put_off s _ ab.0 ab.1 mine e (omega arith)
  after_attempt-RoundEnd (err already_registered) a_id s ab mine e =
      put_off s _ ab.0 ab.1 mine e (omega arith)
  after_attempt-RoundEnd (err fetch_limit) a_id s ab mine e =
      put_off s _ ab.0 ab.1 mine e (omega arith)
  after_attempt-RoundEnd (err not_pinned) a_id s ab mine e =
      put_off s _ ab.0 ab.1 mine e (omega arith)
  after_attempt-RoundEnd (err hello_mismatch) a_id s ab mine e =
      put_off s _ ab.0 ab.1 mine e (omega arith)
  after_attempt-RoundEnd (err outbound_expired) a_id s ab mine e =
      put_off s _ ab.0 ab.1 mine e (omega arith)

module _ (crypto : Crypto) (a_id dest : Bytes) (now : ℕ) where
  pump_round-RoundEnd :
      (done : List OutboundRow) (r : OutboundRow) (rows : List OutboundRow) (s : PumpStats)
      (ab : Two)
      → ab.0.outbound ≡ done ++ (r ∷ rows)
      → RoundEnd dest now done r rows s (pump_round crypto a_id dest now (length done) r s ab)
  pump_round-RoundEnd done r rows s ab e = elim (Bool-cases (beq r.dest dest)) [
    | inr other ↦
        rw other (passed_by dest now done r rows s s ab 0 (for_other other) e (omega arith))
    | inl mine ↦ rw mine (elim (Bool-cases (too_old now r)) [
      | inl old ↦ rw old (taken_out dest now done r rows s _ ab mine e (omega arith))
      | inr young ↦ rw young (elim (Bool-cases (ltb now r.next_attempt)) [
        | inl early ↦
            rw early (passed_by dest now done r rows s _ ab 1 (not_yet mine early) e (omega arith))
        | inr due ↦
            let out = forward_one crypto a_id dest r ab in
            let same = queue-forward_one (ab.0.outbound, ab.0.now) crypto a_id dest r ab refl in
            rw due (
              after_attempt-RoundEnd dest now done r rows out.0 a_id s out.1 mine
                (ap (λ q. q.0) same ∙ e))
      ])
    ])
  ]

  -- The end of the loop that starts behind `done`.
  pub record LoopEnd (done rows : List OutboundRow) (s : PumpStats) (out : PumpStats × Two)
      : Type 0 where
    pub kept : List OutboundRow
    pub count : ℕ
    pub handled : Handled dest now rows kept count
    pub queue : out.1.0.outbound ≡ done ++ kept
    pub sum : stats_sum out.0 ≡ stats_sum s + count

  no_more :
      (done : List OutboundRow) (s : PumpStats) (ab : Two)
      → ab.0.outbound ≡ done ++ []
      → LoopEnd done [] s (s, ab)
  no_more done s ab e = record {
    kept = [];
    count = 0;
    handled = finished;
    queue = e;
    sum = omega arith;
  }

  one_more :
      (done : List OutboundRow) (r : OutboundRow) (rows : List OutboundRow) (s : PumpStats)
      (next : ℕ × (PumpStats × Two)) (out : PumpStats × Two)
      (v : RoundEnd dest now done r rows s next)
      → LoopEnd (done ++ keep_row v.left []) rows next.1.0 out
      → LoopEnd done (r ∷ rows) s out
  one_more done r rows s next out v l = record {
    kept = keep_row v.left l.kept;
    count = v.count + l.count;
    handled = next_row r v.left v.count rows l.kept l.count v.fate l.handled;
    queue =
        l.queue
        ∙ (append_assoc done (keep_row v.left []) l.kept ∙ ap (λ x. done ++ x) (kept_front v.left));
    sum = omega (arith, l.sum, v.sum);
  }
    where
      kept_front : (o : Option OutboundRow) → keep_row o [] ++ l.kept ≡ keep_row o l.kept
      kept_front none = refl
      kept_front (some x) = refl

  pub pump_rows-LoopEnd :
      (fuel i : ℕ) (rows done : List OutboundRow) (s : PumpStats) (ab : Two)
      → ab.0.outbound ≡ done ++ rows
      → i ≡ length done
      → length rows ≤ fuel
      → LoopEnd done rows s (pump_rows crypto fuel a_id dest now i s ab)
  unfolding pump_rows
  pump_rows-LoopEnd zero i [] done s ab e at enough = no_more done s ab e
  pump_rows-LoopEnd zero i (r ∷ rows) done s ab e at enough = absurd (omega arith)
  pump_rows-LoopEnd (suc fuel) i [] done s ab e at enough =
      let past : get_elem? ab.0.outbound i ≡ none = rw (at, e) (get_elem?-past done) in
      rw past (no_more done s ab e)
  pump_rows-LoopEnd (suc fuel) i (r ∷ rows) done s ab e at enough =
      let next = pump_round crypto a_id dest now (length done) r s ab in
      let v = pump_round-RoundEnd done r rows s ab e in
      let queue : next.1.1.0.outbound ≡ (done ++ keep_row v.left []) ++ rows =
        v.queue ∙ split v.left in
      let found : get_elem? ab.0.outbound i ≡ some r =
        rw (at, e) (get_elem?-append (length done) done rows r refl) in
      rw (found, at)
        (one_more done r rows s next _ v (
          pump_rows-LoopEnd fuel next.0 rows (done ++ keep_row v.left []) next.1.0 next.1.1 queue
            v.index (omega arith)))
    where
      split : (o : Option OutboundRow) → done ++ keep_row o rows ≡ (done ++ keep_row o []) ++ rows
      split none = ap (λ x. x ++ rows) (sym (append-nil done))
      split (some x) = sym (append_assoc done (x ∷ []) rows)
