-- ===== src/Server/Home/Reserved.antt =====
-- The prekey that a share token has reserved (crates/nemo-server/src/home.rs) stays its own.
use nemo_messenger.Prelude.{
  ℕ, ◌≡◌, refl, true, false, Bool-cases, Option-cases, inl, inr, Option, none, some, List, [], ◌∷◌,
}
use nemo_messenger.Prelude.Bytes.{Bytes, beq, beq_refl}
use nemo_messenger.Prelude.Map
use nemo_messenger.Prelude.Result.{ok}
use nemo_messenger.Wire.Envelope.{InnerEnvelope}
use nemo_messenger.Server.Tokens.{ShareToken, TokenKind, share, contact, token, share_admits}
use nemo_messenger.Server.Tokens.Lookup.{token-set_token}
use nemo_messenger.Server.Home.{HomeServer}
use nemo_messenger.Server.Home.Append.{append_inner}
use nemo_messenger.Server.Home.Capabilities.{
  fetch_prekey, prekey_with, prekey_for, reserve, queue_of, publish_prekey, register_share_token,
  sweep_dead_tokens_for, sweep_dead_tokens, mint_contact_capability,
}
use nemo_messenger.Server.Home.Reservation.{
  HoldsIn, append_inner-Holds, register_share_token-Holds, sweep_dead_tokens_for-Holds,
  sweep_dead_tokens-Holds, mint-Holds, publish_prekey-Holds, fetch_prekey-Holds,
}

-- The prekey that a live share token has reserved.
abbrev pub Reserved : Bytes → Bytes → HomeServer → Type 0
Reserved tok blob h =
    (s : ShareToken) × (token tok h.tokens ≡ some (share s))
    × (share_admits h.now s ≡ true)
    × (s.reserved_prekey ≡ some blob)

reserve-Reserved :
    (tok : Bytes) (s : ShareToken) (q : List Bytes) (h : HomeServer) {blob : Bytes}
    → token tok h.tokens ≡ some (share s)
    → share_admits h.now s ≡ true
    → (reserve tok s q h).0 ≡ ok blob
    → Reserved tok blob (reserve tok s q h).1
reserve-Reserved tok s [] h e live done = cc
reserve-Reserved tok s (b ∷ q) h {blob} e live done =
    let r = record s { reserved_prekey = some b } in
    (r, rw (token-set_token tok tok (share r) h.tokens e, beq_refl tok), live, cc)

fetch-Reserved :
    (tok : Bytes) (h : HomeServer) (o : Option TokenKind) {blob : Bytes}
    → token tok h.tokens ≡ o
    → (prekey_with tok o h).0 ≡ ok blob
    → Reserved tok blob (prekey_with tok o h).1
fetch-Reserved tok h none e done = cc
fetch-Reserved tok h (some (contact c)) e done = cc
fetch-Reserved tok h (some (share s)) {blob} e done = elim (Bool-cases (share_admits h.now s)) [
  | inr dead ↦ let d = rw dead at done in cc
  | inl live ↦
      let d = rw live at done in
      elim (Option-cases s.reserved_prekey) [
        | inl none_yet ↦
            let d' = rw (none_yet, prekey_for) at d in
            rw live (
              rw (none_yet, prekey_for)
                (reserve-Reserved tok s (queue_of (Map.get s.mailbox h.prekeys)) h e live d'))
        | inr (b, has_one) ↦
            let d' = rw (has_one, prekey_for) at d in
            rw live (rw (has_one, prekey_for) (s, e, live, (cc)))
      ]
]

Reserved-again :
    (tok blob : Bytes) (h : HomeServer) → Reserved tok blob h → fetch_prekey tok h ≡ (ok blob, h)
unfolding fetch_prekey
Reserved-again tok blob h (s, e, live, has_one) =
    rw (e, prekey_with) (rw live (rw (has_one, prekey_for)))

-- What may happen in between: time passes, envelopes are accepted under any token, prekeys are published
-- and fetched under any token, tokens with other keys are registered and minted, and dead tokens are swept.
pub data Later (tok : Bytes) (start : HomeServer) : HomeServer → Type 0 where
  here : Later tok start start
  ticks : (t : ℕ) (h : HomeServer) → Later tok start h → Later tok start (record h { now = t })
  appends :
      (inner : InnerEnvelope) (h : HomeServer)
      → Later tok start h
      → Later tok start (append_inner inner h).1
  publishes :
      (owner blob : Bytes) (h : HomeServer)
      → Later tok start h
      → Later tok start (publish_prekey owner blob h).1
  takes :
      (key : Bytes) (h : HomeServer) → Later tok start h → Later tok start (fetch_prekey key h).1
  shares :
      (owner key : Bytes) (ttl : Option ℕ) (h : HomeServer)
      → beq key tok ≡ false
      → Later tok start h
      → Later tok start (register_share_token owner key ttl h).1
  mints :
      (key owner : Bytes) (h : HomeServer)
      → beq key tok ≡ false
      → Later tok start h
      → Later tok start (mint_contact_capability key owner h).1
  sweeps_one :
      (owner : Bytes) (h : HomeServer)
      → Later tok start h
      → Later tok start (sweep_dead_tokens_for owner h).0
  sweeps_all : (h : HomeServer) → Later tok start h → Later tok start (sweep_dead_tokens h).0

Later-Holds :
    (tok blob : Bytes) (start h : HomeServer)
    → Later tok start h
    → HoldsIn tok blob start
    → HoldsIn tok blob h
Later-Holds tok blob start h here w = w
Later-Holds tok blob start h (ticks t g l) w = Later-Holds tok blob start g l w
Later-Holds tok blob start h (appends inner g l) w =
    append_inner-Holds tok blob inner g (Later-Holds tok blob start g l w)
Later-Holds tok blob start h (publishes owner fresh g l) w =
    publish_prekey-Holds tok blob owner fresh g (Later-Holds tok blob start g l w)
Later-Holds tok blob start h (takes key g l) w =
    fetch_prekey-Holds tok blob key g (Later-Holds tok blob start g l w)
Later-Holds tok blob start h (shares owner key ttl g other l) w =
    register_share_token-Holds tok blob owner key ttl g other (Later-Holds tok blob start g l w)
Later-Holds tok blob start h (mints key owner g other l) w =
    mint-Holds tok blob key owner g other (Later-Holds tok blob start g l w)
Later-Holds tok blob start h (sweeps_one owner g l) w =
    sweep_dead_tokens_for-Holds tok blob owner g (Later-Holds tok blob start g l w)
Later-Holds tok blob start h (sweeps_all g l) w =
    sweep_dead_tokens-Holds tok blob g (Later-Holds tok blob start g l w)

-- A share token gets one prekey: after it was handed one out, the same token is given the same prekey
-- again, and no other leaves the queue, in any later state in which the token still admits. In between,
-- time may pass, envelopes be accepted, prekeys be published and fetched under any token, tokens with
-- other keys be registered or minted, and dead tokens be swept, in any order.
pub one_prekey :
    (tok blob : Bytes) (h later : HomeServer) (s : ShareToken)
    → (fetch_prekey tok h).0 ≡ ok blob
    → Later tok (fetch_prekey tok h).1 later
    → token tok later.tokens ≡ some (share s)
    → share_admits later.now s ≡ true
    → fetch_prekey tok later ≡ (ok blob, later)
one_prekey tok blob h later s done l found live =
    let got : Reserved tok blob (fetch_prekey tok h).1 =
      unfold fetch_prekey in fetch-Reserved tok h (token tok h.tokens) refl done in
    let (r, at, _, has_one) = got in
    let start : HoldsIn tok blob (fetch_prekey tok h).1 = λ k e. (r, (cc), has_one) in
    let (q, same, has) =
      Later-Holds tok blob (fetch_prekey tok h).1 later l start (share s) found in
    let mine : s.reserved_prekey ≡ some blob = cc in
    Reserved-again tok blob later (s, found, live, mine)
