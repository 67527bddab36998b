-- ===== src/Tests/Links.antt =====
-- The theorems on the link between two servers, at concrete states.
use nemo_messenger.Prelude.{
  ◌≡◌, ◌≢◌, ◌+◌, ◌&&◌, refl, true, none, [], ◌∷◌, length, all, keep, arith,
}
use nemo_messenger.Prelude.Bytes.{Bytes, beq}
use nemo_messenger.Prelude.Map
use nemo_messenger.Prelude.Result.{ok, err}
use nemo_messenger.Wire.S2s.{S2sFrame, ok_payload}
use nemo_messenger.Server.Error.{counter_gap}
use nemo_messenger.Server.Home.{HomeServer, OutboundRow}
use nemo_messenger.Server.Federation.Queue.{PumpStats, next_due}
use nemo_messenger.Server.Federation.Pump.{pump, stats_sum}
use nemo_messenger.Server.Federation.{accept_frame, peer_new, reset_link, take_frame}
use nemo_messenger.Server.Federation.Link.{Received, Sends, duplicate_acked}
use nemo_messenger.Server.Federation.Step.{InStep, delivery-InStep}
use nemo_messenger.Server.Federation.Resume.{AllTaken, send_all, reset_link_resumes}
use nemo_messenger.Server.Federation.Pump.Drained.{to_other, in_cap, rests, pump_settles}
use nemo_messenger.Server.Federation.Dial.{dial_hello, dial_pump}
use nemo_messenger.Server.Federation.Dial.Stuck.{connect, reconnect, lost_hello_blocks}
use nemo_messenger.Server.Federation.Dial.Broken.{Welcome, broken, broken_stream_drops}
use nemo_messenger.Tests.Toy.{key, toy}
use nemo_messenger.Tests.Messages.{bundle}
use nemo_messenger.Tests.Homes.{start}

-- A server with one pinned peer, with which it exchanged a few frames.
abbrev linked : Bytes → HomeServer
linked peer = record start {
  peers = (peer, record (peer_new bundle) { last_rx = 4; next_tx = 5 }) ∷ [];
}

abbrev alice : HomeServer
alice = linked (key 8)

abbrev bob : HomeServer
bob = linked (key 7)

bob-Received : Received (key 7) 4 bob
unfolding Map.get beq
bob-Received = record {
  state = record (peer_new bundle) { last_rx = 4; next_tx = 5 };
  pinned = refl;
  welcome = refl;
  at = refl;
}

alice-Sends : Sends (key 8) 5 alice
unfolding Map.get beq
alice-Sends = record {
  state = record (peer_new bundle) { last_rx = 4; next_tx = 5 };
  pinned = refl;
  welcome = refl;
  at = refl;
}

abbrev fifth : S2sFrame
fifth = record { counter = 5; payload = 7 ∷ [] }

duplicate_acked_example :
    accept_frame toy (key 7) fifth (accept_frame toy (key 7) fifth bob).1
    ≡ (ok (ok_payload 0), (accept_frame toy (key 7) fifth bob).1)
duplicate_acked_example =
    duplicate_acked toy (key 7) 4 fifth fifth bob bob-Received refl (omega arith) (omega arith)

delivery-InStep_example :
    (frame : S2sFrame) × ((take_frame (key 8) (7 ∷ []) alice).0 ≡ ok frame)
    × InStep
        (key 7)
        (key 8)
        5
        (take_frame (key 8) (7 ∷ []) alice).1
        (accept_frame toy (key 7) frame bob).1
    × ((accept_frame toy (key 7) frame bob).0 ≢ err counter_gap)
delivery-InStep_example =
    delivery-InStep toy (key 7) (key 8) (7 ∷ []) 4 alice bob
      (record { sends = alice-Sends; receives = bob-Received }) (omega arith)

reset_link_resumes_example :
    AllTaken
      ((7 ∷ []) ∷ [] ∷ [])
      (send_all
        (toy, (key 7, key 8))
        ((7 ∷ []) ∷ [] ∷ [])
        (reset_link (key 8) alice, reset_link (key 7) bob)).0
    × InStep
        (key 7)
        (key 8)
        2
        (send_all
          (toy, (key 7, key 8))
          ((7 ∷ []) ∷ [] ∷ [])
          (reset_link (key 8) alice, reset_link (key 7) bob)).1.0
        (send_all
          (toy, (key 7, key 8))
          ((7 ∷ []) ∷ [] ∷ [])
          (reset_link (key 8) alice, reset_link (key 7) bob)).1.1
reset_link_resumes_example =
    reset_link_resumes toy (key 7) (key 8) ((7 ∷ []) ∷ [] ∷ []) 5 4 alice bob alice-Sends
      bob-Received (omega arith)

-- One row that is due, one that waits, and one for another server.
abbrev queued_row : OutboundRow
queued_row = record {
  dest = key 8;
  outer = record { destination_server_id = key 8; hpke_ciphertext = 7 ∷ [] };
  enqueued_at = 1700000000;
  next_attempt = 1700000000;
  backoff_secs = 1;
}

abbrev sender : HomeServer
sender = record start {
  peers = (key 8, record (peer_new bundle) { hello_done = true }) ∷ [];
  outbound =
      queued_row
      ∷ record queued_row { next_attempt = 1800000000 }
      ∷ record queued_row { dest = key 9 }
      ∷ [];
}

abbrev receiver : HomeServer
receiver = record start {
  hpke = record { public = key 8; secret = key 2 };
  peers = (key 1, record (peer_new bundle) { hello_done = true }) ∷ [];
}

pumped : (s : PumpStats) × ((pump toy (sender, receiver)).0 ≡ ok s)
unfolding pump Map.get beq
pumped = (_, refl)

pump_settles_example :
    (keep (to_other (key 8)) (pump toy (sender, receiver)).1.0.outbound
      ≡ record queued_row { dest = key 9 } ∷ [])
    × (stats_sum pumped.0 ≡ 2)
    × (all (λ r. in_cap r && rests (key 8) 1700000000 r) (pump toy (sender, receiver)).1.0.outbound
        ≡ true)
unfolding beq
pump_settles_example = pump_settles toy sender receiver pumped.1 (omega arith) refl

sender-Welcome : Welcome (key 8) sender
unfolding Map.get beq
sender-Welcome = record {
  state = record (peer_new bundle) { hello_done = true };
  pinned = refl;
  welcome = refl;
}

broken_stream_drops_example :
    (next_due (key 8) (dial_pump toy broken (key 8) sender).1 ≡ none)
    × ((dial_pump toy broken (key 8) sender).0.delivered ≡ 0)
    × ((dial_pump toy broken (key 8) sender).0.failed
          + ((dial_pump toy broken (key 8) sender).0.expired
              + length (dial_pump toy broken (key 8) sender).1.outbound)
        ≡ 3)
broken_stream_drops_example = broken_stream_drops toy (key 8) sender sender-Welcome

lost_hello_blocks_example :
    (connect toy
      (key 7)
      (key 8)
      (reconnect toy (key 7) (key 8) 5 ((dial_hello toy (key 8) alice).1, bob))).0
    ≡ err counter_gap
lost_hello_blocks_example =
    lost_hello_blocks toy (key 7) (key 8) 5 4 alice bob
      (record { sends = alice-Sends; receives = bob-Received }) (omega arith)
