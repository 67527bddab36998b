-- ===== src/Server/Federation/Pump/Keep.antt =====
-- Frames in and out (crates/nemo-server/src/federation.rs) leave the outbound queue and the clock alone.
use nemo_messenger.Prelude.{
  ℕ, ◌+◌, ◌%◌, ◌^◌, ◌==◌, ◌≡◌, not, ltb, ◌&&◌, ◌||◌, refl, ap, ◌∙◌, Option, none, some, List, leb,
  length, take,
}
use nemo_messenger.Prelude.Bytes.{Bytes, beq}
use nemo_messenger.Prelude.Map
use nemo_messenger.Prelude.Result.{ok, err}
use nemo_messenger.Prelude.Exec.Keeps.{then_keeps, lift_keeps, if_keeps}
use nemo_messenger.Wire.Sign.{Crypto}
use nemo_messenger.Wire.Hpke.{encap_len, keypair_server_id}
use nemo_messenger.Wire.S2s.{
  S2sFrame, S2sPayload, hello, ok_seq, fail, ciphertext, hello_payload, parse_payload,
}
use nemo_messenger.Server.Error.{ServerResult, from_wire}
use nemo_messenger.Server.Home.{HomeServer, PeerState, OutboundRow}
use nemo_messenger.Server.Home.Append.{ingest}
use nemo_messenger.Server.Federation.{
  take_with, take_frame, answer, count_with, mark_received, ciphertext_new, ciphertext_with,
  handle_ciphertext, receive, accept_new, accept_with, accept_frame, reset_with, reset_link,
  put_peer, this_second, peer_rate_per_sec,
}
use nemo_messenger.Server.Federation.Keep.{link_view, view-ingest}
use nemo_messenger.Server.Federation.Pump.{
  Two, on_from, on_to, hello_done, greet_with, greet, exchange_hello, ensure_hello, forward_one,
  server_id,
}

-- The queue and the clock.
abbrev pub QueueView : Type 0
QueueView = List OutboundRow × ℕ

abbrev pub queue_view : HomeServer → QueueView
queue_view h = (h.outbound, h.now)

module _ (q : QueueView) where
  abbrev pub HasQueue : HomeServer → Type 0
  HasQueue h = queue_view h ≡ q

  queue-take_with :
      (peer payload : Bytes) (o : Option PeerState) (h : HomeServer)
      → HasQueue h
      → HasQueue (take_with peer payload o h).1
  queue-take_with peer payload none h e = e
  queue-take_with peer payload (some p) h e = if_keeps HasQueue p.refused _ _ e e

  pub queue-take_frame :
      (peer payload : Bytes) (h : HomeServer) → HasQueue h → HasQueue (take_frame peer payload h).1
  unfolding take_frame
  queue-take_frame peer payload h e = queue-take_with peer payload (Map.get peer h.peers) h e

  queue-reset_with :
      (peer : Bytes) (o : Option PeerState) (h : HomeServer)
      → HasQueue h
      → HasQueue (reset_with peer o h)
  queue-reset_with peer none h e = e
  queue-reset_with peer (some p) h e = e

  pub queue-reset_link : (peer : Bytes) (h : HomeServer) → HasQueue h → HasQueue (reset_link peer h)
  unfolding reset_link
  queue-reset_link peer h e = queue-reset_with peer (Map.get peer h.peers) h e

  queue-greet_with :
      (peer : Bytes) (o : Option PeerState) (h : HomeServer)
      → HasQueue h
      → HasQueue (greet_with peer o h)
  queue-greet_with peer none h e = e
  queue-greet_with peer (some p) h e = e

  queue-greet : (peer : Bytes) (h : HomeServer) → HasQueue h → HasQueue (greet peer h)
  unfolding greet
  queue-greet peer h e = queue-greet_with peer (Map.get peer h.peers) h e

  queue-ingest :
      (crypto : Crypto) (ct dest : Bytes) (h : HomeServer)
      → HasQueue h
      → HasQueue (ingest crypto (record { destination_server_id = dest; hpke_ciphertext = ct }) h).1
  queue-ingest crypto ct dest h e =
      ap (λ v. (v.1.0, v.1.1.0)) (view-ingest (link_view h) crypto _ h refl) ∙ e

  queue-count_with :
      (from enc : Bytes) (seq : ℕ) (o : Option PeerState) (h : HomeServer)
      → HasQueue h
      → HasQueue (count_with from enc seq o h).1
  queue-count_with from enc seq none h e = e
  queue-count_with from enc seq (some p) h e = e

  queue-answer :
      (from enc : Bytes) (r : ServerResult ℕ) (h : HomeServer)
      → HasQueue h
      → HasQueue (answer from enc (r, h)).1
  queue-answer from enc (ok seq) h e = queue-count_with from enc seq (Map.get from h.peers) h e
  queue-answer from enc (err _) h e = e

  module _ (crypto : Crypto) (from : Bytes) where
    queue-ciphertext_new :
        (enc ct : Bytes) (o : Option ℕ) (h : HomeServer)
        → HasQueue h
        → HasQueue (ciphertext_new crypto from enc ct o h).1
    queue-ciphertext_new enc ct (some seq) h e = e
    queue-ciphertext_new enc ct none h e =
        queue-answer from enc _ _ (queue-ingest crypto ct (keypair_server_id crypto h.hpke) h e)

    queue-ciphertext_with :
        (ct : Bytes) (o : Option PeerState) (h : HomeServer)
        → HasQueue h
        → HasQueue (ciphertext_with crypto from ct o h).1
    queue-ciphertext_with ct none h e = e
    queue-ciphertext_with ct (some p) h e =
        let q = this_second h.now p in
        if_keeps HasQueue (leb peer_rate_per_sec q.window_ok) _ _ e (
          queue-ciphertext_new (take encap_len ct) ct (Map.get (take encap_len ct) q.seen_enc)
            (put_peer from q h) e)

    queue-handle :
        (ct : Bytes) (h : HomeServer) → HasQueue h → HasQueue (handle_ciphertext crypto from ct h).1
    unfolding handle_ciphertext
    queue-handle ct h e =
        if_keeps HasQueue (ltb (length ct) encap_len) _ _ e
          (queue-ciphertext_with ct (Map.get from h.peers) h e)

    queue-receive :
        (payload : Bytes) (p : S2sPayload) (h : HomeServer)
        → HasQueue h
        → HasQueue (receive crypto from payload p h).1
    queue-receive payload (hello s r) h e =
        if_keeps HasQueue (not (beq s from) || not (beq r (keypair_server_id crypto h.hpke))) _ _ e
          e
    queue-receive payload (ok_seq _) h e = e
    queue-receive payload fail h e = e
    queue-receive payload (ciphertext ct) h e = queue-handle ct h e

    queue-accept_new :
        (frame : S2sFrame) (p : PeerState) (h : HomeServer)
        → HasQueue h
        → HasQueue (accept_new crypto from frame p h).1
    unfolding accept_new
    queue-accept_new frame p h e =
        lift_keeps HasQueue (from_wire (parse_payload frame.payload)) _
          (mark_received from frame p h) e
          λ payload _. queue-receive frame.payload payload (mark_received from frame p h) e

    queue-accept_with :
        (frame : S2sFrame) (o : Option PeerState) (h : HomeServer)
        → HasQueue h
        → HasQueue (accept_with crypto from frame o h).1
    queue-accept_with frame none h e = e
    queue-accept_with frame (some p) h e = if_keeps HasQueue p.refused _ _ e (
        if_keeps HasQueue (leb frame.counter p.last_rx) _ _ e (
          if_keeps HasQueue (not (frame.counter == (p.last_rx + 1) % 2 ^ 64)) _ _ e
            (queue-accept_new frame p h e)))

    pub queue-accept_frame :
        (frame : S2sFrame) (h : HomeServer)
        → HasQueue h
        → HasQueue (accept_frame crypto from frame h).1
    unfolding accept_frame
    queue-accept_frame frame h e = queue-accept_with frame (Map.get from h.peers) h e

  -- The sender's queue and clock.
  abbrev pub FromQueue : Two → Type 0
  FromQueue ab = HasQueue ab.0

  pub queue-exchange_hello :
      (crypto : Crypto) (a_id b_id : Bytes) (ab : Two)
      → FromQueue ab
      → FromQueue (exchange_hello crypto a_id b_id ab).1
  unfolding exchange_hello
  queue-exchange_hello crypto a_id b_id ab e =
      then_keeps FromQueue _ (on_from (take_frame b_id (hello_payload a_id b_id)) ab)
        (queue-take_frame b_id (hello_payload a_id b_id) ab.0 e)
        λ a_hello ab e.
          then_keeps FromQueue _ (on_to (take_frame a_id (hello_payload b_id a_id)) ab) e
            λ b_hello ab e.
              then_keeps FromQueue _ (on_to (accept_frame crypto a_id a_hello) ab) e λ _ ab e.
                then_keeps FromQueue _ (on_from (accept_frame crypto b_id b_hello) ab)
                  (queue-accept_frame crypto b_id b_hello ab.0 e) λ _ ab e. queue-greet b_id ab.0 e

  pub queue-ensure_hello :
      (crypto : Crypto) (ab : Two) → FromQueue ab → FromQueue (ensure_hello crypto ab).1
  unfolding ensure_hello
  queue-ensure_hello crypto (a, b) e =
      let a_id = server_id crypto a in
      let b_id = server_id crypto b in
      if_keeps FromQueue (hello_done (Map.get b_id a.peers) && hello_done (Map.get a_id b.peers)) _
        _ e (queue-exchange_hello crypto a_id b_id (a, b) e)

  pub queue-forward_one :
      (crypto : Crypto) (a_id dest : Bytes) (row : OutboundRow) (ab : Two)
      → FromQueue ab
      → FromQueue (forward_one crypto a_id dest row ab).1
  unfolding forward_one
  queue-forward_one crypto a_id dest row ab e =
      then_keeps FromQueue _ (on_from (take_frame dest row.outer.hpke_ciphertext) ab)
        (queue-take_frame dest row.outer.hpke_ciphertext ab.0 e)
        λ frame ab e.
          then_keeps FromQueue _ (on_to (accept_frame crypto a_id frame) ab) e λ reply ab e.
            then_keeps FromQueue _ (on_to (take_frame a_id reply) ab) e λ reply_frame ab e.
              then_keeps FromQueue _ (on_from (accept_frame crypto dest reply_frame) ab)
                (queue-accept_frame crypto dest reply_frame ab.0 e) λ payload ab e. e
