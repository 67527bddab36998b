-- ===== src/Server/Federation/Pump.antt =====
-- crates/nemo-server/src/federation.rs, `pump`: what waits for a server is handed to it, both servers
-- being at hand.
pub mod Keep
pub mod Settle
pub mod Drained
use nemo_messenger.Prelude.{
  ℕ, zero, suc, ◌+◌, Bool, true, false, not, ◌&&◌, ◌||◌, Option, none, some, List, [], ◌∷◌, length,
  get_elem?, remove_at, update_at, ltb, if◌then◌else◌,
}
use nemo_messenger.Prelude.Bytes.{Bytes, beq}
use nemo_messenger.Prelude.Map
use nemo_messenger.Prelude.Result.{Result, ok, err}
use nemo_messenger.Prelude.Exec.{Exec, lift, modify, ◌>>=◌, ◌>>◌}
use nemo_messenger.Wire.Error.{WireResult}
use nemo_messenger.Wire.Sign.{Crypto}
use nemo_messenger.Wire.Hpke.{keypair_server_id}
use nemo_messenger.Wire.S2s.{
  S2sPayload, hello, ok_seq, fail, ciphertext, hello_payload, fail_payload, parse_payload,
}
use nemo_messenger.Server.Error.{
  ServerError, ServerResult, denied, peer_refused, not_pinned, counter_gap,
}
use nemo_messenger.Server.Home.{HomeServer, Handler, PeerState, OutboundRow}
use nemo_messenger.Server.Federation.{pin, put_peer, take_frame, accept_frame, reset_link}
use nemo_messenger.Server.Federation.Queue.{
  PumpStats, no_stats, put_outbound, too_old, backed_off, is_pinned, is_peer_refused,
}

-- The sender and the receiver.
abbrev pub Two : Type 0
Two = HomeServer × HomeServer

abbrev pub TwoHandler : Type 0 → Type 0
TwoHandler A = Exec Two ServerError A

abbrev pub on_from : {A : Type 0} → Handler A → TwoHandler A
on_from m (a, b) = ((m a).0, ((m a).1, b))

abbrev pub on_to : {A : Type 0} → Handler A → TwoHandler A
on_to m (a, b) = ((m b).0, (a, (m b).1))

abbrev pub hello_done : Option PeerState → Bool
hello_done none = false
hello_done (some p) = p.hello_done

abbrev pub greet_with : Bytes → Option PeerState → HomeServer → HomeServer
greet_with peer none h = h
greet_with peer (some p) h = put_peer peer (record p { hello_done = true }) h

-- `p.hello_done = true`, if the peer is there
unfoldable pub greet : Bytes → HomeServer → HomeServer
greet peer h = greet_with peer (Map.get peer h.peers) h

abbrev pub matches_fail : WireResult S2sPayload → Bool
matches_fail (ok fail) = true
matches_fail (ok (hello s r)) = false
matches_fail (ok (ok_seq n)) = false
matches_fail (ok (ciphertext c)) = false
matches_fail (err e) = false

abbrev pub stats_sum : PumpStats → ℕ
stats_sum s = s.delivered + (s.failed + (s.deferred + s.expired))

-- What an attempt makes of its row: the index of the next one, the queue, and the statistics.
abbrev pub after_attempt :
    ServerResult (Unit {0}) → Bytes → Bytes → ℕ → ℕ → PumpStats → Two → ℕ × (PumpStats × Two)
after_attempt (ok _) a_id dest now i s (a, b) =
    (i, (record s { delivered = s.delivered + 1 }, (put_outbound (remove_at i a.outbound) a, b)))
after_attempt (err denied) a_id dest now i s (a, b) =
    (i, (record s { failed = s.failed + 1 }, (put_outbound (remove_at i a.outbound) a, b)))
after_attempt (err peer_refused) a_id dest now i s (a, b) =
    (i, (record s { failed = s.failed + 1 }, (put_outbound (remove_at i a.outbound) a, b)))
after_attempt (err counter_gap) a_id dest now i s (a, b) =
    let a' = reset_link dest a in
    (
      suc i,
      (
        record s { failed = s.failed + 1 },
        (put_outbound (update_at (backed_off now) i a'.outbound) a', reset_link a_id b),
      ),
    )
after_attempt (err e) a_id dest now i s (a, b) = (
  suc i,
  (
    record s { failed = s.failed + 1 },
    (put_outbound (update_at (backed_off now) i a.outbound) a, b),
  ),
)

module _ (crypto : Crypto) where
  abbrev pub server_id : HomeServer → Bytes
  server_id h = keypair_server_id crypto h.hpke

  unfoldable pub pin_each_other : TwoHandler (Unit {0})
  unfolding pin
  pin_each_other (a, b) = (do on_from (pin crypto b.bundle); on_to (pin crypto a.bundle)) (a, b)

  -- Each side's hello goes to the other.
  unfoldable pub exchange_hello : Bytes → Bytes → TwoHandler (Unit {0})
  unfolding take_frame accept_frame greet
  exchange_hello a_id b_id = do
    a_hello ← on_from (take_frame b_id (hello_payload a_id b_id))
    b_hello ← on_to (take_frame a_id (hello_payload b_id a_id))
    _ ← on_to (accept_frame crypto a_id a_hello)
    _ ← on_from (accept_frame crypto b_id b_hello)
    modify (λ s. (greet b_id s.0, greet a_id s.1))

  unfoldable pub ensure_hello : TwoHandler (Unit {0})
  unfolding exchange_hello
  ensure_hello (a, b) =
      let a_id = server_id a in
      let b_id = server_id b in
      if hello_done (Map.get b_id a.peers) && hello_done (Map.get a_id b.peers)
      then (ok tt, (a, b))
      else exchange_hello a_id b_id (a, b)

  -- One row's ciphertext to the receiver, and its reply back.
  unfoldable pub forward_one : Bytes → Bytes → OutboundRow → TwoHandler (Unit {0})
  unfolding take_frame accept_frame
  forward_one a_id dest row = do
    frame ← on_from (take_frame dest row.outer.hpke_ciphertext)
    reply ← on_to (accept_frame crypto a_id frame)
    reply_frame ← on_to (take_frame a_id reply)
    payload ← on_from (accept_frame crypto dest reply_frame)
    lift (
        if beq payload fail_payload || matches_fail (parse_payload payload)
        then err denied
        else ok tt)

  -- One round of the loop, for the row at `i`.
  abbrev pub pump_round :
      Bytes → Bytes → ℕ → ℕ → OutboundRow → PumpStats → Two → ℕ × (PumpStats × Two)
  pump_round a_id dest now i row s (a, b) =
      if not (beq row.dest dest)
      then (suc i, (s, (a, b)))
      else if too_old now row
      then (i, (record s { expired = s.expired + 1 }, (put_outbound (remove_at i a.outbound) a, b)))
      else if ltb now row.next_attempt
      then (suc i, (record s { deferred = s.deferred + 1 }, (a, b)))
      else let out = forward_one a_id dest row (a, b) in after_attempt out.0 a_id dest now i s out.1

  -- The row at `i`, if there is one, and the rounds after it.
  abbrev pub pump_with :
      (ℕ × (PumpStats × Two) → PumpStats × Two)
      → Bytes
      → Bytes
      → ℕ
      → ℕ
      → Option OutboundRow
      → PumpStats
      → Two
      → PumpStats × Two
  pump_with go_on a_id dest now i none s ab = (s, ab)
  pump_with go_on a_id dest now i (some row) s ab = go_on (pump_round a_id dest now i row s ab)

  -- The loop; a round passes a row or removes it, so it needs as many rounds as there are rows.
  unfoldable pub pump_rows : ℕ → Bytes → Bytes → ℕ → ℕ → PumpStats → Two → PumpStats × Two
  unfolding forward_one reset_link
  pump_rows zero a_id dest now i s ab = (s, ab)
  pump_rows (suc fuel) a_id dest now i s ab =
      pump_with (λ next. pump_rows fuel a_id dest now next.0 next.1.0 next.1.1) a_id dest now i
        (get_elem? ab.0.outbound i) s ab

  abbrev pub pump_checks : Bytes → Bytes → Two → ServerResult (Unit {0})
  pump_checks a_id dest (a, b) =
      if is_peer_refused dest a || is_peer_refused a_id b
      then err peer_refused
      else if not (is_pinned (Map.get dest a.peers)) || not (is_pinned (Map.get a_id b.peers))
      then err not_pinned
      else ok tt

  unfoldable pub pump : TwoHandler PumpStats
  unfolding is_peer_refused ensure_hello pump_rows
  pump (a, b) =
      let a_id = server_id a in
      let dest = server_id b in
      (do
        lift (pump_checks a_id dest (a, b))
        ensure_hello
        (λ ab.
            let out = pump_rows (length ab.0.outbound) a_id dest ab.0.now 0 no_stats ab in
            (ok out.0, out.1)))
        (a, b)
