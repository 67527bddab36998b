-- ===== src/Server/Federation/Dial/Broken.antt =====
-- What a broken connection does to the outbound queue (crates/nemo-server/src/s2s.rs).
use nemo_messenger.Prelude.{
  ℕ, zero, suc, ◌+◌, ◌-◌, ◌||◌, not, keep, ltb, length-keep-le, ◌%◌, ◌^◌, ◌≤◌, ◌≡◌, refl, ap, ◌∙◌,
  Bool, true, false, Option, none, some, List, [], ◌∷◌, length, arith, Bool-cases, Option-cases,
  inl, inr,
}
use nemo_messenger.Prelude.Bytes.{Bytes, beq}
use nemo_messenger.Prelude.Map
use nemo_messenger.Prelude.Map.{get-insert_self}
use nemo_messenger.Prelude.Result.{ok, err}
use nemo_messenger.Prelude.Exec.{continue_with}
use nemo_messenger.Wire.Sign.{Crypto}
use nemo_messenger.Wire.S2s.{S2sFrame}
use nemo_messenger.Server.Error.{ServerResult, denied}
use nemo_messenger.Server.Home.{HomeServer, Handler, PeerState, OutboundRow}
use nemo_messenger.Server.Federation.{take_frame}
use nemo_messenger.Server.Federation.Queue.{
  PumpStats, no_stats, purge_expired, too_old, is_due, next_due, matches, index_where,
  remove_matching_outbound,
}
use nemo_messenger.Server.Federation.Queue.Rows.{index_found, length-remove_at}
use nemo_messenger.Server.Federation.Pump.Keep.{queue-take_frame}
use nemo_messenger.Server.Federation.Dial.{after_forward, forward_row, dial_rows, dial_pump}

-- The peer is pinned and not refused.
pub record Welcome (peer : Bytes) (h : HomeServer) : Type 0 where
  pub state : PeerState
  pub pinned : Map.get peer h.peers ≡ some state
  pub welcome : state.refused ≡ false

-- The stream is broken.
abbrev pub broken : ℕ → S2sFrame → Option S2sFrame
broken k frame = none

then_denied :
    (f : S2sFrame → Handler (Unit {0})) (p : ServerResult S2sFrame × HomeServer) {frame : S2sFrame}
    → ((x : S2sFrame) (h : HomeServer) → f x h ≡ (err denied, h))
    → p.0 ≡ ok frame
    → continue_with f p ≡ (err denied, p.1)
then_denied f (ok x, h) gives e = gives x h
then_denied f (err x, h) gives e = cc

module _ (crypto : Crypto) (dest : Bytes) where
  take_frame-Welcome :
      (payload : Bytes) (h : HomeServer)
      → Welcome dest h
      → (frame : S2sFrame) × ((take_frame dest payload h).0 ≡ ok frame)
        × Welcome dest (take_frame dest payload h).1
  unfolding take_frame
  take_frame-Welcome payload h w =
      let next : PeerState = record w.state { next_tx = (w.state.next_tx + 1) % 2 ^ 64 } in
      let kept : PeerState = record next { refused = false } in
      rw (w.pinned, w.welcome)
        (
          record { counter = w.state.next_tx; payload = payload },
          refl,
          record { state = kept; pinned = get-insert_self dest kept h.peers; welcome = refl },
        )

  forward_row-broken :
      (k : ℕ) (row : OutboundRow) (h : HomeServer) {frame : S2sFrame}
      → (take_frame dest row.outer.hpke_ciphertext h).0 ≡ ok frame
      → forward_row crypto broken k dest row h
        ≡ (err denied, (take_frame dest row.outer.hpke_ciphertext h).1)
  unfolding forward_row
  forward_row-broken k row h e =
      then_denied _ (take_frame dest row.outer.hpke_ciphertext h) (λ x h. refl) e

  module _ (row : OutboundRow) where
    -- A round on a broken stream: the row is given up.
    record GivenUp (s : PumpStats) (h : HomeServer) (next : Bool × (PumpStats × HomeServer))
        : Type 0 where
      goes_on : next.0 ≡ true
      delivered : next.1.0.delivered ≡ s.delivered
      failed : next.1.0.failed ≡ s.failed + 1
      expired : next.1.0.expired ≡ s.expired
      shorter : suc (length next.1.1.outbound) ≡ length h.outbound
      welcome : Welcome dest next.1.1

    gave_up :
        (s : PumpStats) (h h' : HomeServer) (i : ℕ)
        → h'.outbound ≡ h.outbound
        → index_where (matches row) h.outbound ≡ some i
        → Welcome dest h'
        → GivenUp s h (after_forward (err denied) dest row s h')
    unfolding remove_matching_outbound
    gave_up s h h' i same at w =
        let here : index_where (matches row) h'.outbound ≡ some i = rw same at in
        let less = length-remove_at (matches row) h'.outbound i here in
        rw here (record {
          goes_on = refl;
          delivered = refl;
          failed = refl;
          expired = refl;
          shorter = less ∙ ap length same;
          welcome = record { state = w.state; pinned = w.pinned; welcome = w.welcome };
        })

    broken_round :
        (k : ℕ) (s : PumpStats) (h : HomeServer)
        → Welcome dest h
        → next_due dest h ≡ some row
        → GivenUp s h (
            after_forward
              (forward_row crypto broken k dest row h).0
              dest
              row
              s
              (forward_row crypto broken k dest row h).1)
    unfolding next_due remove_matching_outbound
    broken_round k s h w found =
        let ct = row.outer.hpke_ciphertext in
        let (frame, sent, after) = take_frame-Welcome ct h w in
        let same : (take_frame dest ct h).1.outbound ≡ h.outbound =
          ap (λ q. q.0) (queue-take_frame (h.outbound, h.now) dest ct h refl) in
        let (i, at) = index_found (is_due dest h.now) row h.outbound found in
        rw (forward_row-broken k row h sent) (gave_up s h (take_frame dest ct h).1 i same at after)

  -- The end of the loop on a broken stream.
  record AllGivenUp (s : PumpStats) (h : HomeServer) (out : PumpStats × HomeServer) : Type 0 where
    none_due : next_due dest out.1 ≡ none
    delivered : out.0.delivered ≡ s.delivered
    expired : out.0.expired ≡ s.expired
    failed : out.0.failed + length out.1.outbound ≡ s.failed + length h.outbound

  rounds_up :
      (row : OutboundRow) (s : PumpStats) (h : HomeServer) (next : Bool × (PumpStats × HomeServer))
      (out : PumpStats × HomeServer)
      → GivenUp row s h next
      → AllGivenUp next.1.0 next.1.1 out
      → AllGivenUp s h out
  rounds_up row s h next out g v = record {
    none_due = v.none_due;
    delivered = v.delivered ∙ g.delivered;
    expired = v.expired ∙ g.expired;
    failed = omega (arith, v.failed, g.failed, g.shorter);
  }

  broken_rows :
      (fuel k : ℕ) (s : PumpStats) (h : HomeServer)
      → Welcome dest h
      → length h.outbound ≤ fuel
      → AllGivenUp s h (dial_rows crypto broken fuel k dest s h)
  unfolding dial_rows next_due
  broken_rows zero k s h w enough =
      let empty : h.outbound ≡ [] = no_rows h.outbound enough in
      record { none_due = rw empty refl; delivered = refl; expired = refl; failed = refl }
    where
      no_rows : (rows : List OutboundRow) → length rows ≤ 0 → rows ≡ []
      no_rows [] e = refl
      no_rows (r ∷ rows) e = absurd (omega arith)
  broken_rows (suc fuel) k s h w enough = elim (Option-cases (next_due dest h)) [
    | inl nothing ↦
        rw nothing (record { none_due = nothing; delivered = refl; expired = refl; failed = refl })
    | inr (row, found) ↦
        let out = forward_row crypto broken k dest row h in
        let next = after_forward out.0 dest row s out.1 in
        let g = broken_round row k s h w found in
        let rest =
          broken_rows fuel (suc k) next.1.0 next.1.1 g.welcome (omega (arith, g.shorter)) in
        rw (found, g.goes_on)
          (rounds_up row s h next (dial_rows crypto broken fuel (suc k) dest next.1.0 next.1.1) g
            rest)
  ]

  purged-Welcome :
      (h : HomeServer)
      → Welcome dest h
      → Welcome dest (purge_expired dest h).1
        × ((purge_expired dest h).0 + length (purge_expired dest h).1.outbound ≡ length h.outbound)
  unfolding purge_expired
  purged-Welcome h w =
      let stays = λ (r : OutboundRow). not (beq r.dest dest) || not (too_old h.now r) in
      let fewer = length-keep-le stays h.outbound in
      elim (Bool-cases (ltb 0 (length h.outbound - length (keep stays h.outbound)))) [
        | inl some_old ↦ rw some_old (
          record { state = w.state; pinned = w.pinned; welcome = w.welcome },
          omega (arith, fewer),
        )
        | inr none_old ↦ rw none_old (
          record { state = w.state; pinned = w.pinned; welcome = w.welcome },
          omega (arith, fewer),
        )
      ]

  -- A connection that breaks after the hellos costs every row that is due: each is tried on the broken
  -- stream and removed from the queue as failed, none is delivered and none kept for a later attempt.
  -- The peer is pinned and not refused.
  pub broken_stream_drops :
      (h : HomeServer)
      → Welcome dest h
      → (next_due dest (dial_pump crypto broken dest h).1 ≡ none)
        × ((dial_pump crypto broken dest h).0.delivered ≡ 0)
        × ((dial_pump crypto broken dest h).0.failed
              + ((dial_pump crypto broken dest h).0.expired
                  + length (dial_pump crypto broken dest h).1.outbound)
            ≡ length h.outbound)
  unfolding dial_pump
  broken_stream_drops h w =
      let (w', sum) = purged-Welcome h w in
      let p = purge_expired dest h in
      let v =
        broken_rows (length p.1.outbound) 0 (record no_stats { expired = p.0 }) p.1 w'
          (omega arith) in
      (v.none_due, v.delivered, omega (arith, v.failed, v.expired, sum))
