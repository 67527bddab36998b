-- ===== src/Server/Federation/Link.antt =====
-- The counters of a server-to-server link (crates/nemo-server/src/federation.rs).
use nemo_messenger.Prelude.{
  ℕ, ◌+◌, ◌^◌, ◌%◌, ◌≤◌, ◌<◌, ◌≡◌, refl, ap, ◌∙◌, arith, Bool-cases, inl, inr, Option, none, some,
  true, false, leb, ltb, ◌==◌, length, take,
}
use nemo_messenger.Prelude.Bytes.{Bytes}
use nemo_messenger.Prelude.Map
use nemo_messenger.Prelude.Map.{get-insert_self}
use nemo_messenger.Prelude.Result.{ok, err}
use nemo_messenger.Prelude.Exec.Keeps.{lift_keeps}
use nemo_messenger.Wire.Sign.{Crypto}
use nemo_messenger.Wire.Envelope.{OuterEnvelope}
use nemo_messenger.Wire.Hpke.{encap_len, keypair_server_id}
use nemo_messenger.Wire.S2s.{
  S2sFrame, S2sPayload, hello, ok_seq, fail, ciphertext, ok_payload, parse_payload,
}
use nemo_messenger.Server.Error.{ServerResult, from_wire}
use nemo_messenger.Server.Home.{HomeServer, PeerState}
use nemo_messenger.Server.Home.Append.{ingest}
use nemo_messenger.Server.Federation.{
  accept_frame, accept_new, accept_with, answer, count_with, counted, ciphertext_new,
  ciphertext_with, handle_ciphertext, mark_received, put_peer, receive, this_second,
}
use nemo_messenger.Server.Federation.Keep.{peers-ingest}

-- The last frame that was accepted from the peer is number `n`; the peer is not refused.
pub record Received (peer : Bytes) (n : ℕ) (h : HomeServer) : Type 0 where
  pub state : PeerState
  pub pinned : Map.get peer h.peers ≡ some state
  pub welcome : state.refused ≡ false
  pub at : state.last_rx ≡ n

-- The next frame to the peer is number `n`; the peer is not refused.
pub record Sends (peer : Bytes) (n : ℕ) (h : HomeServer) : Type 0 where
  pub state : PeerState
  pub pinned : Map.get peer h.peers ≡ some state
  pub welcome : state.refused ≡ false
  pub at : state.next_tx ≡ n

put_peer-Received :
    (peer : Bytes) (n : ℕ) (p : PeerState) (h : HomeServer)
    → p.refused ≡ false
    → p.last_rx ≡ n
    → Received peer n (put_peer peer p h)
put_peer-Received peer n p h greet at = record {
  state = p;
  pinned = get-insert_self peer p h.peers;
  welcome = greet;
  at = at;
}

module _ (from : Bytes) (n : ℕ) where
  count_with-Received :
      (enc : Bytes) (seq : ℕ) (o : Option PeerState) (h : HomeServer)
      → o ≡ Map.get from h.peers
      → Received from n h
      → Received from n (count_with from enc seq o h).1
  count_with-Received enc seq none h e r = r
  count_with-Received enc seq (some p) h e r =
      let same : p ≡ r.state = cc in
      put_peer-Received from n (counted enc seq p) h (rw (same) r.welcome) (rw (same) r.at)

  answer-Received :
      (enc : Bytes) (r : ServerResult ℕ) (h : HomeServer)
      → Received from n h
      → Received from n (answer from enc (r, h)).1
  answer-Received enc (ok seq) h r = count_with-Received enc seq (Map.get from h.peers) h refl r
  answer-Received enc (err _) h r = r

  module _ (crypto : Crypto) where
    ciphertext_new-Received :
        (enc ct : Bytes) (o : Option ℕ) (h : HomeServer)
        → Received from n h
        → Received from n (ciphertext_new crypto from enc ct o h).1
    ciphertext_new-Received enc ct (some seq) h r = r
    ciphertext_new-Received enc ct none h r =
        let outer : OuterEnvelope = record {
          destination_server_id = keypair_server_id crypto h.hpke;
          hpke_ciphertext = ct;
        } in
        let out = ingest crypto outer h in
        answer-Received enc out.0 out.1 (record {
          state = r.state;
          pinned = rw (peers-ingest h.peers crypto outer h refl) r.pinned;
          welcome = r.welcome;
          at = r.at;
        })

    ciphertext_with-Received :
        (ct : Bytes) (o : Option PeerState) (h : HomeServer)
        → o ≡ Map.get from h.peers
        → Received from n h
        → Received from n (ciphertext_with crypto from ct o h).1
    ciphertext_with-Received ct none h e r = r
    ciphertext_with-Received ct (some p) h e r =
        let q = this_second h.now p in
        let same : p ≡ r.state = cc in
        let greet : q.refused ≡ false = ground (arith, same, r.welcome) in
        let at : q.last_rx ≡ n = ground (arith, same, r.at) in
        let r' = put_peer-Received from n q h greet at in
        elim (Bool-cases (leb 100 q.window_ok)) [
          | inl full ↦ rw full r'
          | inr room ↦ rw room (
              ciphertext_new-Received (take encap_len ct) ct
                (Map.get (take encap_len ct) q.seen_enc) (put_peer from q h) r')
        ]

    receive-Received :
        (payload : Bytes) (pl : S2sPayload) (h : HomeServer)
        → Received from n h
        → Received from n (receive crypto from payload pl h).1
    unfolding handle_ciphertext
    receive-Received payload (hello sender receiver) h r = ground arith
    receive-Received payload (ok_seq _) h r = r
    receive-Received payload fail h r = r
    receive-Received payload (ciphertext ct) h r = elim (Bool-cases (ltb (length ct) encap_len)) [
      | inl short ↦ rw short r
      | inr long ↦ rw long (ciphertext_with-Received ct (Map.get from h.peers) h refl r)
    ]

module _ (crypto : Crypto) (from : Bytes) where
  accept_new-Received :
      (n : ℕ) (frame : S2sFrame) (p : PeerState) (h : HomeServer)
      → p.refused ≡ false
      → frame.counter ≡ n
      → Received from n (accept_new crypto from frame p h).1
  unfolding accept_new
  accept_new-Received n frame p h greet same =
      let got = put_peer-Received from n (record p { last_rx = frame.counter }) h greet same in
      let marked : Received from n (mark_received from frame p h) = record {
        state = got.state;
        pinned = got.pinned;
        welcome = got.welcome;
        at = got.at;
      } in
      lift_keeps (Received from n) (from_wire (parse_payload frame.payload))
        (λ payload h. receive crypto from frame.payload payload h) (mark_received from frame p h)
        marked
        λ payload _.
          receive-Received from n crypto frame.payload payload (mark_received from frame p h) marked

  accept_with_next :
      (frame : S2sFrame) (p : PeerState) (h : HomeServer)
      → p.refused ≡ false
      → leb frame.counter p.last_rx ≡ false
      → (frame.counter == (p.last_rx + 1) % 2 ^ 64) ≡ true
      → accept_with crypto from frame (some p) h ≡ accept_new crypto from frame p h
  accept_with_next frame p h greet fresh in_turn = rw (greet, fresh, in_turn) refl

  pub accept_frame_next :
      (frame : S2sFrame) (p : PeerState) (h : HomeServer)
      → Map.get from h.peers ≡ some p
      → p.refused ≡ false
      → leb frame.counter p.last_rx ≡ false
      → (frame.counter == (p.last_rx + 1) % 2 ^ 64) ≡ true
      → accept_frame crypto from frame h ≡ accept_new crypto from frame p h
  unfolding accept_frame
  accept_frame_next frame p h e greet fresh in_turn =
      ap (λ o. accept_with crypto from frame o h) e ∙ accept_with_next frame p h greet fresh in_turn

  -- The frame with the next number moves the counter on, whatever its payload does afterwards.
  pub accept-Received :
      (n : ℕ) (frame : S2sFrame) (h : HomeServer)
      → Received from n h
      → frame.counter ≡ n + 1
      → n + 1 < 2 ^ 64
      → Received from (n + 1) (accept_frame crypto from frame h).1
  accept-Received n frame h r next room =
      let fresh : leb frame.counter r.state.last_rx ≡ false = ground (arith, r.at) in
      let in_turn : (frame.counter == (r.state.last_rx + 1) % 2 ^ 64) ≡ true =
        ground (arith, r.at) in
      rw (accept_frame_next frame r.state h r.pinned r.welcome fresh in_turn)
        (accept_new-Received (n + 1) frame r.state h r.welcome next)

  seen_acked :
      (old : S2sFrame) (h : HomeServer) (n : ℕ)
      → Received from n h
      → old.counter ≤ n
      → accept_frame crypto from old h ≡ (ok (ok_payload 0), h)
  unfolding accept_frame
  seen_acked old h n r older =
      let seen : leb old.counter r.state.last_rx ≡ true = ground (arith, r.at) in
      rw (r.pinned, r.welcome, seen) refl

  -- A frame that was accepted, or an older one, may come again: it is acknowledged with 0 and nothing
  -- changes, whatever the first delivery returned. The peer is pinned and not refused, and the counter
  -- does not overflow.
  pub duplicate_acked :
      (n : ℕ) (frame old : S2sFrame) (h : HomeServer)
      → Received from n h
      → frame.counter ≡ n + 1
      → n + 1 < 2 ^ 64
      → old.counter ≤ frame.counter
      → accept_frame crypto from old (accept_frame crypto from frame h).1
        ≡ (ok (ok_payload 0), (accept_frame crypto from frame h).1)
  duplicate_acked n frame old h r next room older =
      seen_acked old (accept_frame crypto from frame h).1 (n + 1)
        (accept-Received n frame h r next room) (omega arith)
