-- ===== src/Server/Federation/Dial.antt =====
-- crates/nemo-server/src/s2s.rs: the two ends of a connection between servers, without its sockets. What
-- the stream brings is an argument; between two frames, nothing else touches the server.
pub mod Stuck
pub mod Broken
use nemo_messenger.Prelude.{
  ℕ, zero, suc, ◌+◌, Bool, true, false, Option, none, some, [], ◌∷◌, length, if◌then◌else◌,
}
use nemo_messenger.Prelude.Bytes.{Bytes, beq}
use nemo_messenger.Prelude.Map
use nemo_messenger.Prelude.Result.{Result, ok, err, ok_or}
use nemo_messenger.Prelude.Exec.{lift, ◌>>=◌, ◌>>◌, modify}
use nemo_messenger.Wire.Sign.{Crypto}
use nemo_messenger.Wire.S2s.{
  S2sFrame, S2sPayload, hello, ok_seq, fail, ciphertext, hello_payload, fail_payload, parse_payload,
}
use nemo_messenger.Server.Error.{
  ServerError, ServerResult, from_wire, denied, peer_refused, counter_gap,
}
use nemo_messenger.Server.Home.{HomeServer, Handler, OutboundRow}
use nemo_messenger.Server.Federation.{take_frame, accept_frame, reset_link}
use nemo_messenger.Server.Federation.Queue.{
  PumpStats, no_stats, next_due, remove_matching_outbound, purge_expired, backoff_row,
}
use nemo_messenger.Server.Federation.Pump.{greet, server_id}

-- The verdict on a parsed reply.
abbrev pub verdict : Bytes → S2sPayload → ServerResult (Unit {0})
verdict payload fail = err denied
verdict payload (ok_seq seq) = ok tt
verdict payload (hello s r) = if beq payload fail_payload then err denied else ok tt
verdict payload (ciphertext c) = if beq payload fail_payload then err denied else ok tt

-- What becomes of the row, and whether the loop goes on.
abbrev pub after_forward :
    ServerResult (Unit {0})
    → Bytes
    → OutboundRow
    → PumpStats
    → HomeServer
    → Bool × (PumpStats × HomeServer)
after_forward (ok _) dest row s h =
    (true, (record s { delivered = s.delivered + 1 }, remove_matching_outbound row h))
after_forward (err denied) dest row s h =
    (true, (record s { failed = s.failed + 1 }, remove_matching_outbound row h))
after_forward (err peer_refused) dest row s h =
    (true, (record s { failed = s.failed + 1 }, remove_matching_outbound row h))
after_forward (err counter_gap) dest row s h =
    (false, (record s { failed = s.failed + 1 }, backoff_row row (reset_link dest h)))
after_forward (err e) dest row s h =
    (false, (record s { failed = s.failed + 1 }, backoff_row row h))

module _ (crypto : Crypto) where
  -- `handle_inbound` up to its loop: the caller's hello, and ours.
  unfoldable pub inbound_hello : Bytes → S2sFrame → Handler S2sFrame
  unfolding accept_frame greet take_frame
  inbound_hello peer frame h =
      (do
        _ ← accept_frame crypto peer frame
        modify (greet peer)
        take_frame peer (hello_payload (server_id crypto h) peer))
        h

  -- The match in the loop of `handle_inbound`.
  abbrev pub inbound_reply :
      Bytes → ServerResult Bytes × HomeServer → ServerResult (Option S2sFrame) × HomeServer
  inbound_reply peer (ok [], h) = (ok none, h)
  inbound_reply peer (ok (x ∷ xs), h) =
      (do frame ← take_frame peer (x ∷ xs); lift (ok (some frame))) h
  inbound_reply peer (err counter_gap, h) = (err counter_gap, reset_link peer h)
  inbound_reply peer (err e, h) = (err e, h)

  unfoldable pub inbound_frame : Bytes → S2sFrame → Handler (Option S2sFrame)
  unfolding accept_frame take_frame reset_link
  inbound_frame peer frame h = inbound_reply peer (accept_frame crypto peer frame h)

  -- `dial_and_pump`: our hello.
  unfoldable pub dial_hello : Bytes → Handler S2sFrame
  unfolding take_frame
  dial_hello dest h = take_frame dest (hello_payload (server_id crypto h) dest) h

  -- `dial_and_pump`: the peer's hello.
  unfoldable pub dial_greeted : Bytes → S2sFrame → Handler (Unit {0})
  unfolding accept_frame greet
  dial_greeted dest peer_hello = do _ ← accept_frame crypto dest peer_hello; modify (greet dest)

  -- `exchange k` writes the `k`th frame to the stream and reads one, if the stream holds.
  module _ (exchange : ℕ → S2sFrame → Option S2sFrame) where
    unfoldable pub forward_row : ℕ → Bytes → OutboundRow → Handler (Unit {0})
    unfolding take_frame accept_frame
    forward_row k dest row = do
      frame ← take_frame dest row.outer.hpke_ciphertext
      reply ← lift (ok_or (exchange k frame) denied)
      payload ← accept_frame crypto dest reply
      parsed ← lift (from_wire (parse_payload payload))
      lift (verdict payload parsed)

    abbrev pub dial_with :
        (PumpStats × HomeServer → PumpStats × HomeServer)
        → ℕ
        → Bytes
        → Option OutboundRow
        → PumpStats
        → HomeServer
        → PumpStats × HomeServer
    dial_with go_on k dest none s h = (s, h)
    dial_with go_on k dest (some row) s h =
        let out = forward_row k dest row h in
        let next = after_forward out.0 dest row s out.1 in if next.0 then go_on next.1 else next.1

    -- The loop; a round that goes on has removed a row, so it needs at most as many rounds as rows.
    unfoldable pub dial_rows : ℕ → ℕ → Bytes → PumpStats → HomeServer → PumpStats × HomeServer
    unfolding forward_row next_due remove_matching_outbound backoff_row reset_link
    dial_rows zero k dest s h = (s, h)
    dial_rows (suc fuel) k dest s h =
        dial_with (λ next. dial_rows fuel (suc k) dest next.0 next.1) k dest (next_due dest h) s h

    -- `dial_and_pump` after the hellos.
    unfoldable pub dial_pump : Bytes → HomeServer → PumpStats × HomeServer
    unfolding purge_expired dial_rows
    dial_pump dest h =
        let (expired, h') = purge_expired dest h in
        dial_rows (length h'.outbound) 0 dest (record no_stats { expired = expired }) h'
