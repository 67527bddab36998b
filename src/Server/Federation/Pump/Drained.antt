-- ===== src/Server/Federation/Pump/Drained.antt =====
-- The outbound queue after `pump` (crates/nemo-server/src/federation.rs).
use nemo_messenger.Prelude.{
  ℕ, ◌+◌, ◌<◌, ◌^◌, ◌≡◌, refl, ap, Bool, true, not, ◌&&◌, ◌||◌, Option, List, [], length, all, keep,
  ltb, leb, arith,
}
use nemo_messenger.Prelude.Bytes.{Bytes, beq}
use nemo_messenger.Prelude.Result.{ok, err}
use nemo_messenger.Prelude.Exec.{continue_with}
use nemo_messenger.Wire.Sign.{Crypto}
use nemo_messenger.Server.Error.{ServerResult}
use nemo_messenger.Server.Home.{HomeServer, OutboundRow}
use nemo_messenger.Server.Federation.Queue.{PumpStats, no_stats, backed_off, backoff_cap_secs}
use nemo_messenger.Server.Federation.Pump.{
  Two, stats_sum, server_id, ensure_hello, pump_rows, pump_checks, pump,
}
use nemo_messenger.Server.Federation.Pump.Keep.{queue_view, queue-ensure_hello}
use nemo_messenger.Server.Federation.Pump.Settle.{
  RowFate, for_other, gone, not_yet, again, keep_row, Handled, finished, next_row, LoopEnd,
  pump_rows-LoopEnd,
}

-- The backoff of the row is from one second to the cap.
abbrev pub in_cap : OutboundRow → Bool
in_cap r = leb 1 r.backoff_secs && leb r.backoff_secs backoff_cap_secs

abbrev pub to_dest : Bytes → OutboundRow → Bool
to_dest dest r = beq r.dest dest

abbrev pub to_other : Bytes → OutboundRow → Bool
to_other dest r = not (beq r.dest dest)

-- Nothing is to be done for the row now.
abbrev pub rests : Bytes → ℕ → OutboundRow → Bool
rests dest now r = to_other dest r || ltb now r.next_attempt

module _ (dest : Bytes) (now : ℕ) where
  others_stay :
      (rows kept : List OutboundRow) (n : ℕ)
      → Handled dest now rows kept n
      → keep (to_other dest) kept ≡ keep (to_other dest) rows
  others_stay rows kept n finished = refl
  others_stay rows kept n (next_row r o c rs ks m (for_other other) h) =
      rw (other, others_stay rs ks m h) refl
  others_stay rows kept n (next_row r o c rs ks m (gone mine) h) = rw mine (others_stay rs ks m h)
  others_stay rows kept n (next_row r o c rs ks m (not_yet mine early) h) =
      rw mine (others_stay rs ks m h)
  others_stay rows kept n (next_row r o c rs ks m (again mine) h) = rw mine (others_stay rs ks m h)

  each_counted :
      (rows kept : List OutboundRow) (n : ℕ)
      → Handled dest now rows kept n
      → n ≡ length (keep (to_dest dest) rows)
  each_counted rows kept n finished = refl
  each_counted rows kept n (next_row r o c rs ks m (for_other other) h) =
      rw other (omega (arith, each_counted rs ks m h))
  each_counted rows kept n (next_row r o c rs ks m (gone mine) h) =
      rw mine (omega (arith, each_counted rs ks m h))
  each_counted rows kept n (next_row r o c rs ks m (not_yet mine early) h) =
      rw mine (omega (arith, each_counted rs ks m h))
  each_counted rows kept n (next_row r o c rs ks m (again mine) h) =
      rw mine (omega (arith, each_counted rs ks m h))

  backed_off-rests :
      (r : OutboundRow)
      → now + 300 < 2 ^ 64
      → in_cap r ≡ true
      → (in_cap (backed_off now r) && rests dest now (backed_off now r)) ≡ true
  backed_off-rests r room cap = ground arith

  all_rest :
      (rows kept : List OutboundRow) (n : ℕ)
      → now + 300 < 2 ^ 64
      → all in_cap rows ≡ true
      → Handled dest now rows kept n
      → all (λ r. in_cap r && rests dest now r) kept ≡ true
  all_rest rows kept n room caps finished = refl
  all_rest rows kept n room caps (next_row r o c rs ks m f h) =
      let later = all_rest rs ks m room (ground (arith, caps)) h in
      let cap : in_cap r ≡ true = ground (arith, caps) in front o c f cap later
    where
      front :
          (o : Option OutboundRow) (c : ℕ)
          → RowFate dest now r o c
          → in_cap r ≡ true
          → all (λ r. in_cap r && rests dest now r) ks ≡ true
          → all (λ r. in_cap r && rests dest now r) (keep_row o ks) ≡ true
      front o c (for_other other) cap later = rw (cap, other, later) refl
      front o c (gone mine) cap later = later
      front o c (not_yet mine early) cap later = rw (cap, early, later) (ground arith)
      front o c (again mine) cap later = rw (backed_off-rests r room cap, later) refl

module _ (crypto : Crypto) where
  -- What `pump` leaves of the queue `rows` at the time `now`.
  record Drained (dest : Bytes) (now : ℕ) (rows : List OutboundRow) (s : PumpStats) (k : HomeServer)
      : Type 0 where
    others : keep (to_other dest) k.outbound ≡ keep (to_other dest) rows
    counted : stats_sum s ≡ length (keep (to_dest dest) rows)
    resting :
        now + 300 < 2 ^ 64
        → all in_cap rows ≡ true
        → all (λ r. in_cap r && rests dest now r) k.outbound ≡ true

  LoopEnd-Drained :
      (a_id dest : Bytes) (now : ℕ) (rows : List OutboundRow) (out : PumpStats × Two)
      → LoopEnd crypto a_id dest now [] rows no_stats out
      → Drained dest now rows out.0 out.1.0
  LoopEnd-Drained a_id dest now rows out l = record {
    others = rw l.queue (others_stay dest now rows l.kept l.count l.handled);
    counted = omega (arith, l.sum, each_counted dest now rows l.kept l.count l.handled);
    resting = λ room caps. rw l.queue (all_rest dest now rows l.kept l.count room caps l.handled);
  }

  moved :
      (dest : Bytes) (now now' : ℕ) (rows rows' : List OutboundRow) (s s' : PumpStats)
      (k : HomeServer)
      → now ≡ now'
      → rows ≡ rows'
      → s ≡ s'
      → Drained dest now rows s k
      → Drained dest now' rows' s' k
  moved dest now now' rows rows' s s' k clock queue stats d = record {
    others = rw (← queue) d.others;
    counted = rw (← stats, ← queue) d.counted;
    resting = λ room caps. rw (← clock) (d.resting (rw clock room) (rw queue caps));
  }

  -- The loop, behind the checks and the hello.
  abbrev sweep : Bytes → Bytes → Two → ServerResult PumpStats × Two
  sweep a_id dest ab =
      let out = pump_rows crypto (length ab.0.outbound) a_id dest ab.0.now 0 no_stats ab in
      (ok out.0, out.1)

  swept-Drained :
      (a_id dest : Bytes) (rows : List OutboundRow) (now : ℕ) (p : ServerResult (Unit {0}) × Two)
      {s : PumpStats}
      → queue_view p.1.0 ≡ (rows, now)
      → (continue_with (λ _. sweep a_id dest) p).0 ≡ ok s
      → Drained dest now rows s (continue_with (λ _. sweep a_id dest) p).1.0
  swept-Drained a_id dest rows now (err x, ab) {s} same e = cc
  swept-Drained a_id dest rows now (ok _, ab) {s} same e =
      let queue : ab.0.outbound ≡ rows = ap (λ q. q.0) same in
      let clock : ab.0.now ≡ now = ap (λ q. q.1) same in
      let out = pump_rows crypto (length ab.0.outbound) a_id dest ab.0.now 0 no_stats ab in
      let l : LoopEnd crypto a_id dest ab.0.now [] ab.0.outbound no_stats out =
        pump_rows-LoopEnd crypto a_id dest ab.0.now (length ab.0.outbound) 0 ab.0.outbound []
          no_stats ab refl refl (omega arith) in
      let d = LoopEnd-Drained a_id dest ab.0.now ab.0.outbound out l in
      let stats : out.0 ≡ s = cc in
      moved dest ab.0.now now ab.0.outbound rows out.0 s out.1.0 clock queue stats d

  checked-Drained :
      (a_id dest : Bytes) (rows : List OutboundRow) (now : ℕ) (checks : ServerResult (Unit {0}))
      (ab : Two) {s : PumpStats}
      → queue_view ab.0 ≡ (rows, now)
      → (continue_with
          (λ _ ab. continue_with (λ _. sweep a_id dest) (ensure_hello crypto ab))
          (checks, ab)).0
        ≡ ok s
      → Drained dest now rows s
          (continue_with
            (λ _ ab. continue_with (λ _. sweep a_id dest) (ensure_hello crypto ab))
            (checks, ab)).1.0
  checked-Drained a_id dest rows now (err x) ab {s} same e = cc
  checked-Drained a_id dest rows now (ok _) ab {s} same e =
      swept-Drained a_id dest rows now (ensure_hello crypto ab)
        (queue-ensure_hello (rows, now) crypto ab same) e

  -- After a pump that was not turned away, nothing more is to be done for the receiver: the rows for other
  -- servers are as they were and in their order, every row for this one was counted once, as delivered,
  -- failed, deferred or expired, and those of them that are left wait for a later attempt, with a backoff
  -- from one second to the cap. The backoffs were in these bounds, and the clock does not overflow.
  pub pump_settles :
      (a b : HomeServer) {s : PumpStats}
      → (pump crypto (a, b)).0 ≡ ok s
      → a.now + 300 < 2 ^ 64
      → all in_cap a.outbound ≡ true
      → (keep (to_other (server_id crypto b)) (pump crypto (a, b)).1.0.outbound
          ≡ keep (to_other (server_id crypto b)) a.outbound)
        × (stats_sum s ≡ length (keep (to_dest (server_id crypto b)) a.outbound))
        × (all
              (λ r. in_cap r && rests (server_id crypto b) a.now r)
              (pump crypto (a, b)).1.0.outbound
            ≡ true)
  unfolding pump
  pump_settles a b e room caps =
      let a_id = server_id crypto a in
      let dest = server_id crypto b in
      let d =
        checked-Drained a_id dest a.outbound a.now (pump_checks crypto a_id dest (a, b)) (a, b) refl
          e in
      (d.others, d.counted, d.resting room caps)
