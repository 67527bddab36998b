-- ===== src/Server/Federation/Dial/Stuck.antt =====
-- What a lost frame does to the connections after it (crates/nemo-server/src/s2s.rs).
use nemo_messenger.Prelude.{
  ℕ, zero, suc, ◌+◌, ◌%◌, ◌^◌, ◌<◌, ◌≡◌, refl, true, false, not, leb, ◌==◌, arith,
}
use nemo_messenger.Prelude.Bytes.{Bytes}
use nemo_messenger.Prelude.Result.{err}
use nemo_messenger.Prelude.Exec.{◌>>=◌}
use nemo_messenger.Wire.Sign.{Crypto}
use nemo_messenger.Wire.S2s.{S2sFrame, hello_payload}
use nemo_messenger.Server.Error.{counter_gap}
use nemo_messenger.Server.Home.{HomeServer}
use nemo_messenger.Server.Federation.{accept_frame}
use nemo_messenger.Server.Federation.Link.{Received, Sends}
use nemo_messenger.Server.Federation.Step.{InStep, take_frame-Sends}
use nemo_messenger.Server.Federation.Pump.{Two, TwoHandler, on_from, on_to, server_id}
use nemo_messenger.Server.Federation.Dial.{dial_hello, inbound_hello}

-- The sender is ahead of the receiver by more than one frame.
record Ahead (a_id b_id : Bytes) (n m : ℕ) (ab : Two) : Type 0 where
  sends : Sends b_id m ab.0
  receives : Received a_id n ab.1
  ahead : n + 1 < m

module _ (crypto : Crypto) (a_id b_id : Bytes) where
  -- A new connection, as far as the other server's answer to the hello.
  abbrev pub connect : TwoHandler S2sFrame
  connect ab =
      (do frame ← on_from (dial_hello crypto b_id); on_to (inbound_hello crypto a_id frame)) ab

  -- After that many connections.
  abbrev pub reconnect : ℕ → Two → Two
  reconnect zero ab = ab
  reconnect (suc k) ab = reconnect k (connect ab).1

  gap_refused :
      (n : ℕ) (frame : S2sFrame) (h : HomeServer)
      → Received a_id n h
      → n + 1 < frame.counter
      → frame.counter < 2 ^ 64
      → accept_frame crypto a_id frame h ≡ (err counter_gap, h)
  unfolding accept_frame
  gap_refused n frame h r ahead small =
      let new : leb frame.counter r.state.last_rx ≡ false = ground (arith, r.at) in
      let gap : not (frame.counter == (r.state.last_rx + 1) % 2 ^ 64) ≡ true =
        ground (arith, r.at) in
      rw r.pinned (simp (r.welcome, new, gap) refl)

  connect-Ahead :
      (n m : ℕ) (ab : Two)
      → Ahead a_id b_id n m ab
      → m + 1 < 2 ^ 64
      → ((connect ab).0 ≡ err counter_gap) × Ahead a_id b_id n (m + 1) (connect ab).1
  unfolding dial_hello inbound_hello
  connect-Ahead n m ab v room =
      let payload = hello_payload (server_id crypto ab.0) b_id in
      let (sent, after) = take_frame-Sends b_id payload m ab.0 v.sends room in
      let refused =
        gap_refused n (record { counter = m; payload = payload }) ab.1 v.receives v.ahead
          (omega arith) in
      let longer : n + 1 < m + 1 = omega (arith, v.ahead) in
      rw (sent, refused) (refl, record { sends = after; receives = v.receives; ahead = longer })

  reconnect-Ahead :
      (k n m : ℕ) (ab : Two)
      → Ahead a_id b_id n m ab
      → m + k < 2 ^ 64
      → Ahead a_id b_id n (m + k) (reconnect k ab)
  reconnect-Ahead zero n m ab v room = record {
    sends = rw (zero_right m) v.sends;
    receives = v.receives;
    ahead = omega (arith, v.ahead);
  }
    where
      zero_right : (m : ℕ) → m + 0 ≡ m
      zero_right m = omega arith
  reconnect-Ahead (suc k) n m ab v room =
      let (_, next) = connect-Ahead n m ab v (omega arith) in
      let same : m + suc k ≡ m + 1 + k = omega arith in
      rw same (reconnect-Ahead k n (m + 1) (connect ab).1 next (omega arith))

  -- A link of two servers does not recover from one lost frame: the counters were in step, one hello of
  -- the sender was numbered and then lost with its connection, and from then on every further connection
  -- ends with a counter gap at the other server, however often the sender tries. The counter does not
  -- overflow.
  pub lost_hello_blocks :
      (k n : ℕ) (a b : HomeServer)
      → InStep a_id b_id n a b
      → n + 3 + k < 2 ^ 64
      → (connect (reconnect k ((dial_hello crypto b_id a).1, b))).0 ≡ err counter_gap
  unfolding dial_hello
  lost_hello_blocks k n a b link room =
      let payload = hello_payload (server_id crypto a) b_id in
      let (_, after) = take_frame-Sends b_id payload (n + 1) a link.sends (omega arith) in
      let start : Ahead a_id b_id n (n + 1 + 1) ((dial_hello crypto b_id a).1, b) = record {
        sends = after;
        receives = link.receives;
        ahead = omega arith;
      } in
      let ready =
        reconnect-Ahead k n (n + 1 + 1) ((dial_hello crypto b_id a).1, b) start (omega arith) in
      (connect-Ahead n (n + 1 + 1 + k) (reconnect k ((dial_hello crypto b_id a).1, b)) ready
        (omega arith)).0
