-- ===== src/Server/Federation.antt =====
-- crates/nemo-server/src/federation.rs: pinned peers, frame counters and what a server does with a
-- frame of a peer.
pub mod Keep
pub mod Link
pub mod Step
pub mod Resume
pub mod Queue
pub mod Pump
pub mod Dial
pub mod Logs
pub mod Taking
use nemo_messenger.Prelude.{
  ℕ, ◌+◌, ◌^◌, ◌%◌, Bool, true, false, ◌&&◌, not, ◌||◌, Option, none, some, [], length, ltb, leb,
  ◌==◌, if◌then◌else◌, take,
}
use nemo_messenger.Prelude.Bytes.{Bytes, beq}
use nemo_messenger.Prelude.Map
use nemo_messenger.Prelude.KeySet
use nemo_messenger.Prelude.Result.{ok, err}
use nemo_messenger.Prelude.Exec.{lift, ◌>>=◌}
use nemo_messenger.Wire.Sign.{Crypto}
use nemo_messenger.Wire.Bundle.{ServerBundle, ServerSignRotate, bundle_verify, rotate_verify}
use nemo_messenger.Wire.Hpke.{encap_len, keypair_server_id}
use nemo_messenger.Wire.S2s.{
  S2sFrame, S2sPayload, hello, ok_seq, fail, ciphertext, ok_payload, fail_payload, parse_payload,
}
use nemo_messenger.Server.Error.{
  ServerResult, from_wire, not_pinned, peer_refused, counter_gap, hello_mismatch,
}
use nemo_messenger.Server.Home.{HomeServer, Handler, PeerState, mark, hpke_enc_window}
use nemo_messenger.Server.Home.Append.{ingest}

abbrev pub peer_rate_per_sec : ℕ
peer_rate_per_sec = 100

-- `PeerState::new`
abbrev pub peer_new : ServerBundle → PeerState
peer_new bundle = record {
  bundle = bundle;
  refused = false;
  last_rx = 0;
  next_tx = 1;
  hello_done = false;
  window_sec = 0;
  window_ok = 0;
  seen_enc = [];
}

unfoldable pub restore : ServerBundle → Bool → ℕ → ℕ → PeerState
restore bundle refused last_rx next_tx = record {
  bundle = bundle;
  refused = refused;
  last_rx = last_rx;
  next_tx = next_tx;
  hello_done = ltb 0 last_rx || ltb 1 next_tx;
  window_sec = 0;
  window_ok = 0;
  seen_enc = [];
}

-- Writing through `peers.get_mut(&peer)`.
abbrev pub put_peer : Bytes → PeerState → HomeServer → HomeServer
put_peer peer p h = record h { peers = Map.insert peer p h.peers }

abbrev pub mark_peer_dirty : Bytes → HomeServer → HomeServer
mark_peer_dirty peer = mark (λ d. record d { peers = KeySet.add peer d.peers })

abbrev pub pin_bundle : ServerBundle → Option PeerState → PeerState
pin_bundle bundle none = peer_new bundle
pin_bundle bundle (some p) = record p { bundle = bundle }

abbrev pub refuse_with : Bytes → Option PeerState → HomeServer → HomeServer
refuse_with peer none h = h
refuse_with peer (some p) h = mark_peer_dirty peer (put_peer peer (record p { refused = true }) h)

unfoldable pub refuse : Bytes → HomeServer → HomeServer
refuse peer h = refuse_with peer (Map.get peer h.peers) h

abbrev pub reset_with : Bytes → Option PeerState → HomeServer → HomeServer
reset_with peer none h = h
reset_with peer (some p) h =
    mark_peer_dirty peer
      (put_peer peer (record p { last_rx = 0; next_tx = 1; hello_done = false }) h)

unfoldable pub reset_link : Bytes → HomeServer → HomeServer
reset_link peer h = reset_with peer (Map.get peer h.peers) h

abbrev pub take_with : Bytes → Bytes → Option PeerState → Handler S2sFrame
take_with peer payload none h = (err not_pinned, h)
take_with peer payload (some p) h = if p.refused then (err peer_refused, h) else (
  ok (record { counter = p.next_tx; payload = payload }),
  mark_peer_dirty peer (put_peer peer (record p { next_tx = (p.next_tx + 1) % 2 ^ 64 }) h),
)

-- The next frame to a peer.
unfoldable pub take_frame : Bytes → Bytes → Handler S2sFrame
take_frame peer payload h = take_with peer payload (Map.get peer h.peers) h

-- The peer's counters for this second.
abbrev pub this_second : ℕ → PeerState → PeerState
this_second now p = if p.window_sec == now then p else record p { window_sec = now; window_ok = 0 }

-- What is written when an envelope of the peer was taken in.
abbrev pub counted : Bytes → ℕ → PeerState → PeerState
counted enc seq p = record p {
  window_ok = (p.window_ok + 1) % 2 ^ 32;
  seen_enc =
      Map.insert enc seq (if leb hpke_enc_window (length p.seen_enc) then [] else p.seen_enc);
}

abbrev pub count_with : Bytes → Bytes → ℕ → Option PeerState → Handler Bytes
count_with from enc seq none h = (err not_pinned, h)
count_with from enc seq (some p) h = (ok (ok_payload seq), put_peer from (counted enc seq p) h)

-- The reply to what `ingest` returned.
abbrev pub answer : Bytes → Bytes → ServerResult ℕ × HomeServer → ServerResult Bytes × HomeServer
answer from enc (ok seq, h) = count_with from enc seq (Map.get from h.peers) h
answer from enc (err _, h) = (ok fail_payload, h)

abbrev pub mark_received : Bytes → S2sFrame → PeerState → HomeServer → HomeServer
mark_received from frame p h =
    mark_peer_dirty from (put_peer from (record p { last_rx = frame.counter }) h)

module _ (crypto : Crypto) where
  unfoldable pub pin : ServerBundle → Handler (Unit {0})
  unfolding bundle_verify
  pin bundle h =
      (do
        _ ← lift (from_wire (bundle_verify crypto bundle))
        (λ h.
            let id = bundle.server_id in
            if beq (keypair_server_id crypto h.hpke) id then (ok tt, h) else (
              ok tt,
              mark_peer_dirty id (put_peer id (pin_bundle bundle (Map.get id h.peers)) h),
            )))
        h

  abbrev pub rotate_with : Bytes → ServerSignRotate → Option PeerState → Handler (Unit {0})
  rotate_with peer rotate none h = (err not_pinned, h)
  rotate_with peer rotate (some p) h =
      if crypto.key_ok p.bundle.server_sign_public_key
      then (do
        _ ← lift (from_wire (rotate_verify crypto rotate p.bundle.server_sign_public_key))
        (λ h. (
          ok tt,
          mark_peer_dirty peer (
              put_peer peer
                (record p {
                  bundle = record p.bundle { server_sign_public_key = rotate.new_public_key };
                })
                h),
        )))
          h
      else (err not_pinned, h)

  unfoldable pub apply_sign_rotate : Bytes → ServerSignRotate → Handler (Unit {0})
  unfolding rotate_verify
  apply_sign_rotate peer rotate h = rotate_with peer rotate (Map.get peer h.peers) h

  abbrev pub ciphertext_new : Bytes → Bytes → Bytes → Option ℕ → Handler Bytes
  ciphertext_new from enc ct (some seq) h = (ok (ok_payload seq), h)
  ciphertext_new from enc ct none h = answer from enc (
      ingest crypto
        (record { destination_server_id = keypair_server_id crypto h.hpke; hpke_ciphertext = ct })
        h)

  abbrev pub ciphertext_with : Bytes → Bytes → Option PeerState → Handler Bytes
  ciphertext_with from ct none h = (err not_pinned, h)
  ciphertext_with from ct (some p) h =
      let q = this_second h.now p in
      let h' = put_peer from q h in
      if leb peer_rate_per_sec q.window_ok
      then (ok fail_payload, h')
      else ciphertext_new from (take encap_len ct) ct (Map.get (take encap_len ct) q.seen_enc) h'

  unfoldable pub handle_ciphertext : Bytes → Bytes → Handler Bytes
  unfolding ingest
  handle_ciphertext from ct h =
      if ltb (length ct) encap_len
      then (ok fail_payload, h)
      else ciphertext_with from ct (Map.get from h.peers) h

  abbrev pub receive : Bytes → Bytes → S2sPayload → Handler Bytes
  receive from payload (hello sender receiver) h =
      if not (beq sender from) || not (beq receiver (keypair_server_id crypto h.hpke))
      then (err hello_mismatch, h)
      else (ok [], h)
  receive from payload (ok_seq _) h = (ok payload, h)
  receive from payload fail h = (ok payload, h)
  receive from payload (ciphertext ct) h = handle_ciphertext from ct h

  -- A frame whose number is the next one.
  unfoldable pub accept_new : Bytes → S2sFrame → PeerState → Handler Bytes
  unfolding handle_ciphertext
  accept_new from frame p h =
      (do
        payload ← lift (from_wire (parse_payload frame.payload))
        receive from frame.payload payload)
        (mark_received from frame p h)

  abbrev pub accept_with : Bytes → S2sFrame → Option PeerState → Handler Bytes
  accept_with from frame none h = (err not_pinned, h)
  accept_with from frame (some p) h =
      if p.refused
      then (err peer_refused, h)
      else if leb frame.counter p.last_rx
      then (ok (ok_payload 0), h)
      else if not (frame.counter == (p.last_rx + 1) % 2 ^ 64)
      then (err counter_gap, h)
      else accept_new from frame p h

  -- A frame that came from a peer, with the reply to it.
  unfoldable pub accept_frame : Bytes → S2sFrame → Handler Bytes
  unfolding accept_new
  accept_frame from frame h = accept_with from frame (Map.get from h.peers) h
