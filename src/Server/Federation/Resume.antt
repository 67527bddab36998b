-- ===== src/Server/Federation/Resume.antt =====
-- A link that was reset (crates/nemo-server/src/federation.rs): frames go through again from the start.
use nemo_messenger.Prelude.{ℕ, ◌+◌, ◌^◌, ◌<◌, ◌≡◌, ◌≢◌, arith, List, [], ◌∷◌, length}
use mathlib.Core.Path.{subst}
use nemo_messenger.Prelude.Bytes.{Bytes}
use nemo_messenger.Prelude.Result.{ok, err}
use nemo_messenger.Wire.Sign.{Crypto}
use nemo_messenger.Wire.S2s.{S2sFrame}
use nemo_messenger.Server.Error.{ServerResult, counter_gap}
use nemo_messenger.Server.Home.{HomeServer}
use nemo_messenger.Server.Federation.{accept_frame, reset_link, take_frame}
use nemo_messenger.Server.Federation.Link.{Received, Sends}
use nemo_messenger.Server.Federation.Pump.{Two}
use nemo_messenger.Server.Federation.Step.{InStep, delivery-InStep, reset_link-InStep}

-- A frame that the sender numbered, to the receiver, and what follows then; a refusal ends the run.
abbrev send_frame :
    (Crypto × (Bytes × Bytes))
    → (Two → List (ServerResult Bytes) × Two)
    → ServerResult S2sFrame × HomeServer
    → HomeServer
    → List (ServerResult Bytes) × Two
send_frame (crypto, (a_id, b_id)) go_on (err e, a) b = (err e ∷ [], (a, b))
send_frame (crypto, (a_id, b_id)) go_on (ok frame, a) b =
    let out = accept_frame crypto a_id frame b in
    let rest = go_on (a, out.1) in (out.0 ∷ rest.0, rest.1)

-- The payloads go out one after the other: what the receiver answers, and the two servers at the end.
abbrev pub send_all :
    (Crypto × (Bytes × Bytes)) → List Bytes → Two → List (ServerResult Bytes) × Two
send_all link [] ab = ([], ab)
send_all link (payload ∷ rest) (a, b) =
    send_frame link (λ ab. send_all link rest ab) (take_frame link.1.1 payload a) b

-- There is one answer for each payload, and none is a gap.
abbrev pub AllTaken : List Bytes → List (ServerResult Bytes) → Type 0
AllTaken [] [] = Unit
AllTaken (p ∷ ps) (r ∷ rs) = (r ≢ err counter_gap) × AllTaken ps rs
AllTaken [] (r ∷ rs) = ⊥
AllTaken (p ∷ ps) [] = ⊥

-- The run with its first frame known.
after_sent :
    (crypto : Crypto) (a_id b_id payload : Bytes) (frame : S2sFrame) (rest : List Bytes)
    (a b : HomeServer) (n : ℕ)
    → (take_frame b_id payload a).0 ≡ ok frame
    → (accept_frame crypto a_id frame b).0 ≢ err counter_gap
    → (let out : List (ServerResult Bytes) × Two =
          send_all
            (crypto, (a_id, b_id))
            rest
            ((take_frame b_id payload a).1, (accept_frame crypto a_id frame b).1) in
        AllTaken rest out.0
        → InStep a_id b_id n out.1.0 out.1.1
        → AllTaken (payload ∷ rest) (send_all (crypto, (a_id, b_id)) (payload ∷ rest) (a, b)).0
          × InStep a_id b_id n
              (send_all (crypto, (a_id, b_id)) (payload ∷ rest) (a, b)).1.0
              (send_all (crypto, (a_id, b_id)) (payload ∷ rest) (a, b)).1.1)
after_sent crypto a_id b_id payload frame rest a b n sent no_gap taken there =
    rw sent ((no_gap, taken), there)

send_all-InStep :
    (crypto : Crypto) (a_id b_id : Bytes) (payloads : List Bytes) (n : ℕ) (a b : HomeServer)
    → InStep a_id b_id n a b
    → n + length payloads + 1 < 2 ^ 64
    → AllTaken payloads (send_all (crypto, (a_id, b_id)) payloads (a, b)).0
      × InStep a_id b_id
          (n + length payloads)
          (send_all (crypto, (a_id, b_id)) payloads (a, b)).1.0
          (send_all (crypto, (a_id, b_id)) payloads (a, b)).1.1
send_all-InStep crypto a_id b_id [] n a b link room =
    (tt, subst (λ k. InStep a_id b_id k a b) (omega arith) link)
send_all-InStep crypto a_id b_id (payload ∷ rest) n a b link room =
    let (frame, sent, next, no_gap) =
      delivery-InStep crypto a_id b_id payload n a b link (omega arith) in
    let a' = (take_frame b_id payload a).1 in
    let b' = (accept_frame crypto a_id frame b).1 in
    let later : List (ServerResult Bytes) × Two = send_all (crypto, (a_id, b_id)) rest (a', b') in
    let (taken, there) = send_all-InStep crypto a_id b_id rest (n + 1) a' b' next (omega arith) in
    let count : n + 1 + length rest ≡ n + length (payload ∷ rest) = omega arith in
    after_sent crypto a_id b_id payload frame rest a b (n + length (payload ∷ rest)) sent no_gap
      taken (subst (λ k. InStep a_id b_id k later.1.0 later.1.1) count there)

-- Whatever the counters of two servers are, after both reset the link, any sequence of payloads of one
-- goes through: every payload gets a frame and the receiver's result for it, which is never a gap, and the
-- link ends in step, with both counters moved on by the number of payloads. Neither side refuses the
-- other, and the counter does not overflow.
pub reset_link_resumes :
    (crypto : Crypto) (a_id b_id : Bytes) (payloads : List Bytes) (n m : ℕ) (a b : HomeServer)
    → Sends b_id n a
    → Received a_id m b
    → length payloads + 1 < 2 ^ 64
    → AllTaken payloads
        (send_all (crypto, (a_id, b_id)) payloads (reset_link b_id a, reset_link a_id b)).0
      × InStep a_id b_id
          (length payloads)
          (send_all (crypto, (a_id, b_id)) payloads (reset_link b_id a, reset_link a_id b)).1.0
          (send_all (crypto, (a_id, b_id)) payloads (reset_link b_id a, reset_link a_id b)).1.1
reset_link_resumes crypto a_id b_id payloads n m a b s r room =
    let out = send_all (crypto, (a_id, b_id)) payloads (reset_link b_id a, reset_link a_id b) in
    let (taken, link) =
      send_all-InStep crypto a_id b_id payloads 0 (reset_link b_id a) (reset_link a_id b)
        (reset_link-InStep a_id b_id n m a b s r) (omega arith) in
    let count : 0 + length payloads ≡ length payloads = omega arith in
    (taken, subst (λ k. InStep a_id b_id k out.1.0 out.1.1) count link)
