-- ===== src/Server/Federation/Taking.antt =====
-- Envelopes that are handed in and frames of a peer (crates/nemo-server/src/home.rs, src/federation.rs) keep
-- the invariant of a home server.
use nemo_messenger.Prelude.{
  ℕ, ◌+◌, ◌%◌, ◌^◌, ◌==◌, ◌≡◌, not, ltb, ◌||◌, refl, sym, Option-cases, inl, inr, Option, none,
  some, leb, length, take,
}
use mathlib.Core.Path.{subst}
use nemo_messenger.Prelude.Bytes.{Bytes, beq}
use nemo_messenger.Prelude.Map
use nemo_messenger.Prelude.Map.{AllValues}
use nemo_messenger.Prelude.Result.{ok, err}
use nemo_messenger.Prelude.Exec.{continue_with, lift, ◌>>◌}
use nemo_messenger.Prelude.Exec.Keeps.{then_keeps, lift_keeps, if_keeps}
use nemo_messenger.Wire.Sign.{Crypto, ascii}
use nemo_messenger.Wire.Envelope.{OuterEnvelope, encode_outer}
use nemo_messenger.Wire.Hpke.{encap_len, keypair_server_id}
use nemo_messenger.Wire.OwnerAuth.{MailboxOwnerAuth, AuthScope, scope_header}
use nemo_messenger.Wire.S2s.{S2sFrame, S2sPayload, hello, ok_seq, fail, ciphertext, parse_payload}
use nemo_messenger.Server.Error.{ServerResult, from_wire}
use nemo_messenger.Server.Home.{HomeServer, PeerState, require_mailbox}
use nemo_messenger.Server.Home.Append.{ingest, enqueue}
use nemo_messenger.Server.Home.Owner.{
  check_owner, owner_checks, spend_nonce, gc_owner_nonces, enqueue_from_owner,
}
use nemo_messenger.Server.Home.Invariant.{IsHome, Room, HasRoom}
use nemo_messenger.Server.Home.Handlers.{ingest-IsHome, check_owner-IsHome}
use nemo_messenger.Server.Federation.{
  answer, count_with, mark_received, ciphertext_new, ciphertext_with, handle_ciphertext, receive,
  accept_new, accept_with, accept_frame, put_peer, this_second, peer_rate_per_sec,
}

count_with-IsHome :
    (from enc : Bytes) (seq : ℕ) (o : Option PeerState) (h : HomeServer)
    → IsHome h
    → IsHome (count_with from enc seq o h).1
count_with-IsHome from enc seq none h v = v
count_with-IsHome from enc seq (some p) h v = record { logs = v.logs; window = v.window }

answer-IsHome :
    (from enc : Bytes) (r : ServerResult ℕ) (h : HomeServer)
    → IsHome h
    → IsHome (answer from enc (r, h)).1
answer-IsHome from enc (ok seq) h v = count_with-IsHome from enc seq (Map.get from h.peers) h v
answer-IsHome from enc (err _) h v = v

module _ (crypto : Crypto) where
  pub enqueue-IsHome :
      (outer : OuterEnvelope) (h : HomeServer)
      → Room h
      → IsHome h
      → IsHome (enqueue crypto outer h).1
  unfolding enqueue
  enqueue-IsHome outer h room v =
      if_keeps IsHome (beq outer.destination_server_id (keypair_server_id crypto h.hpke)) _ _
        (then_keeps IsHome _ (ingest crypto outer h) (ingest-IsHome crypto outer h room v)
          λ seq h' v'. v')
        (record { logs = v.logs; window = v.window })

  check_owner-mailboxes :
      (owner : Bytes) (auth : MailboxOwnerAuth) (now_unix : ℕ) (expect : AuthScope) (h : HomeServer)
      → (check_owner crypto owner auth now_unix expect h).1.mailboxes ≡ h.mailboxes
  unfolding check_owner spend_nonce gc_owner_nonces
  check_owner-mailboxes owner auth now_unix expect h =
      lift_keeps (λ h'. h'.mailboxes ≡ h.mailboxes)
        (owner_checks crypto owner auth now_unix expect h) _ h refl
        λ _ _. elim (Option-cases (Map.get auth.nonce (gc_owner_nonces now_unix h).owner_nonces)) [
          | inl fresh ↦ rw fresh
          | inr (ts, seen) ↦ rw seen
        ]

  enqueue_checked :
      (owner : Bytes) (outer : OuterEnvelope) (p : ServerResult (Unit {0}) × HomeServer)
      → IsHome p.1
      → Room p.1
      → IsHome
          (continue_with (λ _ h. (lift (require_mailbox owner h) >> enqueue crypto outer) h) p).1
  enqueue_checked owner outer (err e, h) v room = v
  enqueue_checked owner outer (ok _, h) v room =
      lift_keeps IsHome (require_mailbox owner h) _ h v λ _ _. enqueue-IsHome outer h room v

  pub enqueue_from_owner-IsHome :
      (owner : Bytes) (auth : MailboxOwnerAuth) (now_unix : ℕ) (outer : OuterEnvelope)
      (h : HomeServer)
      → Room h
      → IsHome h
      → IsHome (enqueue_from_owner crypto owner auth now_unix outer h).1
  unfolding enqueue_from_owner
  enqueue_from_owner-IsHome owner auth now_unix outer h room v =
      let scope : AuthScope =
        scope_header crypto (keypair_server_id crypto h.hpke) (ascii "POST") (ascii "/v1/envelopes")
          (encode_outer outer) in
      let checked = check_owner crypto owner auth now_unix scope h in
      let both : IsHome checked.1 × Room checked.1 = (
        check_owner-IsHome crypto owner auth now_unix scope h v,
        subst (λ m. AllValues HasRoom m) (sym (check_owner-mailboxes owner auth now_unix scope h))
            room,
      ) in
      enqueue_checked owner outer checked both.0 both.1

module _ (crypto : Crypto) (from : Bytes) where
  ciphertext_new-IsHome :
      (enc ct : Bytes) (o : Option ℕ) (h : HomeServer)
      → Room h
      → IsHome h
      → IsHome (ciphertext_new crypto from enc ct o h).1
  ciphertext_new-IsHome enc ct (some seq) h room v = v
  ciphertext_new-IsHome enc ct none h room v =
      answer-IsHome from enc _ _ (ingest-IsHome crypto _ h room v)

  ciphertext_with-IsHome :
      (ct : Bytes) (o : Option PeerState) (h : HomeServer)
      → Room h
      → IsHome h
      → IsHome (ciphertext_with crypto from ct o h).1
  ciphertext_with-IsHome ct none h room v = v
  ciphertext_with-IsHome ct (some p) h room v =
      let q = this_second h.now p in
      let kept : IsHome (put_peer from q h) = record { logs = v.logs; window = v.window } in
      if_keeps IsHome (leb peer_rate_per_sec q.window_ok) _ _ kept (
        ciphertext_new-IsHome (take encap_len ct) ct (Map.get (take encap_len ct) q.seen_enc)
          (put_peer from q h) room kept)

  receive-IsHome :
      (payload : Bytes) (pl : S2sPayload) (h : HomeServer)
      → Room h
      → IsHome h
      → IsHome (receive crypto from payload pl h).1
  unfolding handle_ciphertext
  receive-IsHome payload (hello sender receiver) h room v =
      if_keeps IsHome
        (not (beq sender from) || not (beq receiver (keypair_server_id crypto h.hpke))) _ _ v v
  receive-IsHome payload (ok_seq _) h room v = v
  receive-IsHome payload fail h room v = v
  receive-IsHome payload (ciphertext ct) h room v =
      if_keeps IsHome (ltb (length ct) encap_len) _ _ v
        (ciphertext_with-IsHome ct (Map.get from h.peers) h room v)

  accept_with-IsHome :
      (frame : S2sFrame) (o : Option PeerState) (h : HomeServer)
      → Room h
      → IsHome h
      → IsHome (accept_with crypto from frame o h).1
  unfolding accept_new
  accept_with-IsHome frame none h room v = v
  accept_with-IsHome frame (some p) h room v =
      let kept : IsHome (mark_received from frame p h) = record {
        logs = v.logs;
        window = v.window;
      } in
      if_keeps IsHome p.refused _ _ v (
        if_keeps IsHome (leb frame.counter p.last_rx) _ _ v (
          if_keeps IsHome (not (frame.counter == (p.last_rx + 1) % 2 ^ 64)) _ _ v (
            lift_keeps IsHome (from_wire (parse_payload frame.payload)) _
              (mark_received from frame p h) kept
              λ pl _. receive-IsHome frame.payload pl (mark_received from frame p h) room kept)))

  -- A frame of a peer keeps the invariant, on every branch.
  pub accept_frame-IsHome :
      (frame : S2sFrame) (h : HomeServer)
      → Room h
      → IsHome h
      → IsHome (accept_frame crypto from frame h).1
  unfolding accept_frame
  accept_frame-IsHome frame h room v = accept_with-IsHome frame (Map.get from h.peers) h room v
