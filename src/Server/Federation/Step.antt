-- ===== src/Server/Federation/Step.antt =====
-- Two servers on one link (crates/nemo-server/src/federation.rs): the sender's and the receiver's
-- counters move together.
use nemo_messenger.Prelude.{
  ℕ, ◌+◌, ◌^◌, ◌%◌, ◌<◌, ◌≡◌, ◌≢◌, refl, arith, Bool-cases, inl, inr, Option, none, some, true,
  false, leb, ltb, ◌==◌, length, take,
}
use nemo_messenger.Prelude.Bytes.{Bytes}
use nemo_messenger.Prelude.Map
use nemo_messenger.Prelude.Map.{get-insert_self}
use nemo_messenger.Prelude.Result.{ok, err}
use nemo_messenger.Prelude.Exec.{continue_with}
use nemo_messenger.Wire.Sign.{Crypto}
use nemo_messenger.Wire.Error.{WireResult}
use nemo_messenger.Wire.Hpke.{encap_len, keypair_server_id}
use nemo_messenger.Wire.S2s.{S2sFrame, S2sPayload, hello, ok_seq, fail, ciphertext, parse_payload}
use nemo_messenger.Server.Error.{ServerResult, from_wire, counter_gap}
use nemo_messenger.Server.Home.{HomeServer, PeerState}
use nemo_messenger.Server.Home.Append.{ingest}
use nemo_messenger.Server.Federation.{
  accept_frame, accept_new, answer, ciphertext_new, ciphertext_with, count_with, handle_ciphertext,
  mark_received, put_peer, receive, reset_link, take_frame, this_second,
}
use nemo_messenger.Server.Federation.Link.{Received, Sends, accept-Received, accept_frame_next}

-- The next frame of the server `a_id` has the number that the server `b_id` waits for.
pub record InStep (a_id b_id : Bytes) (n : ℕ) (a b : HomeServer) : Type 0 where
  pub sends : Sends b_id (n + 1) a
  pub receives : Received a_id n b

abbrev NoGap : {A : Type 0} → ServerResult A → Type 0
NoGap r = r ≢ err counter_gap

count_with-NoGap :
    (from enc : Bytes) (seq : ℕ) (o : Option PeerState) (h : HomeServer)
    → NoGap (count_with from enc seq o h).0
count_with-NoGap from enc seq none h = λ e. cc
count_with-NoGap from enc seq (some p) h = λ e. cc

answer-NoGap :
    (from enc : Bytes) (r : ServerResult ℕ) (h : HomeServer) → NoGap (answer from enc (r, h)).0
answer-NoGap from enc (ok seq) h = count_with-NoGap from enc seq (Map.get from h.peers) h
answer-NoGap from enc (err _) h = λ e. cc

module _ (crypto : Crypto) (from : Bytes) where
  ciphertext_new-NoGap :
      (enc ct : Bytes) (o : Option ℕ) (h : HomeServer)
      → NoGap (ciphertext_new crypto from enc ct o h).0
  ciphertext_new-NoGap enc ct (some seq) h = λ e. cc
  ciphertext_new-NoGap enc ct none h =
      let out =
        ingest crypto
          (record { destination_server_id = keypair_server_id crypto h.hpke; hpke_ciphertext = ct })
          h in
      answer-NoGap from enc out.0 out.1

  ciphertext_with-NoGap :
      (ct : Bytes) (o : Option PeerState) (h : HomeServer)
      → NoGap (ciphertext_with crypto from ct o h).0
  ciphertext_with-NoGap ct none h = λ e. cc
  ciphertext_with-NoGap ct (some p) h =
      let q = this_second h.now p in
      elim (Bool-cases (leb 100 q.window_ok)) [
        | inl full ↦ rw full (λ e. cc)
        | inr room ↦ rw room (
            ciphertext_new-NoGap (take encap_len ct) ct (Map.get (take encap_len ct) q.seen_enc)
              (put_peer from q h))
      ]

  receive-NoGap :
      (payload : Bytes) (pl : S2sPayload) (h : HomeServer)
      → NoGap (receive crypto from payload pl h).0
  unfolding handle_ciphertext
  receive-NoGap payload (hello sender receiver) h = ground arith
  receive-NoGap payload (ok_seq _) h = λ e. cc
  receive-NoGap payload fail h = λ e. cc
  receive-NoGap payload (ciphertext ct) h = elim (Bool-cases (ltb (length ct) encap_len)) [
    | inl short ↦ rw short (λ e. cc)
    | inr long ↦ rw long (ciphertext_with-NoGap ct (Map.get from h.peers) h)
  ]

  parsed-NoGap :
      (payload : Bytes) (r : WireResult S2sPayload) (h : HomeServer)
      → NoGap (continue_with (λ pl h. receive crypto from payload pl h) (from_wire r, h)).0
  parsed-NoGap payload (ok pl) h = receive-NoGap payload pl h
  parsed-NoGap payload (err _) h = λ e. cc

  accept_new-NoGap :
      (frame : S2sFrame) (p : PeerState) (h : HomeServer)
      → NoGap (accept_new crypto from frame p h).0
  unfolding accept_new
  accept_new-NoGap frame p h =
      parsed-NoGap frame.payload (parse_payload frame.payload) (mark_received from frame p h)

  accept-NoGap :
      (n : ℕ) (frame : S2sFrame) (h : HomeServer)
      → Received from n h
      → frame.counter ≡ n + 1
      → n + 1 < 2 ^ 64
      → NoGap (accept_frame crypto from frame h).0
  accept-NoGap n frame h r next room =
      let fresh : leb frame.counter r.state.last_rx ≡ false = ground (arith, r.at) in
      let in_turn : (frame.counter == (r.state.last_rx + 1) % 2 ^ 64) ≡ true =
        ground (arith, r.at) in
      rw (accept_frame_next crypto from frame r.state h r.pinned r.welcome fresh in_turn)
        (accept_new-NoGap frame r.state h)

pub take_frame-Sends :
    (peer payload : Bytes) (n : ℕ) (h : HomeServer)
    → Sends peer n h
    → n + 1 < 2 ^ 64
    → ((take_frame peer payload h).0 ≡ ok (record { counter = n; payload = payload }))
      × Sends peer (n + 1) (take_frame peer payload h).1
unfolding take_frame
take_frame-Sends peer payload n h s room =
    let next : PeerState = record s.state { next_tx = (s.state.next_tx + 1) % 2 ^ 64 } in
    let moved : (s.state.next_tx + 1) % 2 ^ 64 ≡ n + 1 = omega (arith, s.at) in
    rw (s.pinned, s.welcome)
      (
        rw (s.at) refl,
        record {
          state = record next { refused = false };
          pinned = get-insert_self peer (record next { refused = false }) h.peers;
          welcome = refl;
          at = moved;
        },
      )

-- On a link that is in step, a frame with any payload goes out, moves both counters on by one and never
-- meets a gap: the link is in step again, whatever the receiver answers. Neither side refuses the other,
-- and the counter does not overflow.
pub delivery-InStep :
    (crypto : Crypto) (a_id b_id payload : Bytes) (n : ℕ) (a b : HomeServer)
    → InStep a_id b_id n a b
    → n + 2 < 2 ^ 64
    → (frame : S2sFrame) × ((take_frame b_id payload a).0 ≡ ok frame)
      × InStep a_id b_id (n + 1) (take_frame b_id payload a).1 (accept_frame crypto a_id frame b).1
      × ((accept_frame crypto a_id frame b).0 ≢ err counter_gap)
delivery-InStep crypto a_id b_id payload n a b link room =
    let sent = take_frame-Sends b_id payload (n + 1) a link.sends (omega arith) in
    let frame : S2sFrame = record { counter = n + 1; payload = payload } in
    let fits : n + 1 < 2 ^ 64 = omega arith in
    (
      frame,
      sent.0,
      record {
        sends = sent.1;
        receives = accept-Received crypto a_id n frame b link.receives refl fits;
      },
      accept-NoGap crypto a_id n frame b link.receives refl fits,
    )

-- Resetting the link on both sides brings it in step from the start.
pub reset_link-InStep :
    (a_id b_id : Bytes) (n m : ℕ) (a b : HomeServer)
    → Sends b_id n a
    → Received a_id m b
    → InStep a_id b_id 0 (reset_link b_id a) (reset_link a_id b)
unfolding reset_link
reset_link-InStep a_id b_id n m a b s r =
    let p : PeerState = record s.state { last_rx = 0; next_tx = 1; hello_done = false } in
    let q : PeerState = record r.state { last_rx = 0; next_tx = 1; hello_done = false } in
    rw (s.pinned, r.pinned)
      (record {
        sends = record {
          state = p;
          pinned = get-insert_self b_id p a.peers;
          welcome = s.welcome;
          at = refl;
        };
        receives = record {
          state = q;
          pinned = get-insert_self a_id q b.peers;
          welcome = r.welcome;
          at = refl;
        };
      })
