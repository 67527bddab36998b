-- ===== src/Server/Home/Replay.antt =====
-- An owner's nonce is good once (crates/nemo-server/src/home.rs, `check_owner`).
use nemo_messenger.Prelude.{
  ℕ, ◌-◌, ◌≤◌, ◌<◌, ◌≡◌, refl, ap, Bool, true, false, ◌||◌, Bool-cases, Option-cases, inl, inr,
  Option, none, some, List, [], ◌∷◌, arith, leb, ltb, leb→le, add64,
}
use nemo_messenger.Prelude.Bytes.{Bytes, beq, beq_iff}
use nemo_messenger.Prelude.Map
use nemo_messenger.Prelude.Map.{Map}
use nemo_messenger.Prelude.Result.{ok, err}
use nemo_messenger.Prelude.Exec.{continue_with}
use nemo_messenger.Prelude.Exec.Keeps.{lift_keeps}
use nemo_messenger.Wire.Error.{WireResult, binding_expired}
use nemo_messenger.Wire.Sign.{Crypto}
use nemo_messenger.Wire.OwnerAuth.{MailboxOwnerAuth, AuthScope, auth_verify, max_age_secs}
use nemo_messenger.Server.Error.{ServerResult, owner_auth}
use nemo_messenger.Server.Mailbox.{Mailbox}
use nemo_messenger.Server.Home.{HomeServer, map_err}
use nemo_messenger.Server.Home.Owner.{
  gc_owner_nonces, spend_with, spend_nonce, checks_at, owner_checks, check_owner,
}

get-retain :
    (p : ℕ → Bool) (k : Bytes) (m : Map ℕ) {v : ℕ}
    → Map.get k m ≡ some v
    → p v ≡ true
    → Map.get k (Map.retain p m) ≡ some v
unfolding Map.get Map.retain
get-retain p k [] e h = cc
get-retain p k ((j, w) ∷ m) {v} e h = elim (Bool-cases (beq j k)) [
  | inl here ↦ ground arith
  | inr other ↦ let rest = get-retain p k m (rw other at e) h in ground arith
]

-- The server remembers a nonce, with its time.
abbrev pub Remembers : MailboxOwnerAuth → HomeServer → Type 0
Remembers auth h = Map.get auth.nonce h.owner_nonces ≡ some auth.ts

spend_with-keeps :
    (auth other : MailboxOwnerAuth) (h : HomeServer) (o : Option ℕ)
    → Map.get other.nonce h.owner_nonces ≡ o
    → Remembers auth h
    → Remembers auth (spend_with other o h).1
spend_with-keeps auth other h (some ts) e r = r
spend_with-keeps auth other h none e r =
    let apart : beq other.nonce auth.nonce ≡ false =
      ground (arith, beq_iff other.nonce auth.nonce) in
    rw (Map.get-insert other.nonce auth.nonce other.ts h.owner_nonces, apart) r

spend_nonce-keeps :
    (auth other : MailboxOwnerAuth) (now_unix : ℕ) (h : HomeServer)
    → now_unix - auth.ts ≤ max_age_secs
    → Remembers auth h
    → Remembers auth (spend_nonce other now_unix h).1
unfolding spend_nonce gc_owner_nonces
spend_nonce-keeps auth other now_unix h young r =
    spend_with-keeps auth other (gc_owner_nonces now_unix h) _ refl (
      get-retain (λ ts. leb (now_unix - ts) max_age_secs) auth.nonce h.owner_nonces r
        (ground arith))

spend_nonce-refuses :
    (auth : MailboxOwnerAuth) (now_unix : ℕ) (h : HomeServer)
    → now_unix - auth.ts ≤ max_age_secs
    → Remembers auth h
    → (spend_nonce auth now_unix h).0 ≡ err owner_auth
unfolding spend_nonce gc_owner_nonces
spend_nonce-refuses auth now_unix h young r =
    let kept =
      get-retain (λ ts. leb (now_unix - ts) max_age_secs) auth.nonce h.owner_nonces r
        (ground arith) in
    rw (kept, spend_with)

spend_nonce-Remembers :
    (auth : MailboxOwnerAuth) (now_unix : ℕ) (h : HomeServer)
    → (spend_nonce auth now_unix h).0 ≡ ok tt
    → Remembers auth (spend_nonce auth now_unix h).1
unfolding spend_nonce
spend_nonce-Remembers auth now_unix h done =
    elim (Option-cases (Map.get auth.nonce (gc_owner_nonces now_unix h).owner_nonces)) [
      | inl fresh ↦ rw (fresh, spend_with) (Map.get-insert_self auth.nonce auth.ts _)
      | inr (ts, seen) ↦ let d = rw (seen, spend_with) at done in cc
    ]

-- An attempt of some owner to be let in.
pub record Attempt : Type 0 where
  pub owner : Bytes
  pub auth : MailboxOwnerAuth
  pub at : ℕ
  pub expect : AuthScope

-- A result that fails, if at all, with `OwnerAuth`.
abbrev OnlyAuth : ServerResult (Unit {0}) → Type 0
OnlyAuth (ok _) = Unit
OnlyAuth (err e) = e ≡ owner_auth

only_map : (r : WireResult (Unit {0})) → OnlyAuth (map_err owner_auth r)
only_map (ok u) = tt
only_map (err e) = refl

module _ (crypto : Crypto) where
  -- The server after a run of attempts, whatever their results.
  abbrev pub after : List Attempt → HomeServer → HomeServer
  after [] h = h
  after (a ∷ more) h = after more (check_owner crypto a.owner a.auth a.at a.expect h).1

  stale_verify :
      (auth : MailboxOwnerAuth) (pk : Bytes) (now_unix : ℕ) (expect : AuthScope)
      → max_age_secs < now_unix - auth.ts
      → auth_verify crypto auth pk now_unix expect ≡ err binding_expired
  unfolding auth_verify
  stale_verify auth pk now_unix expect old =
      let late : (ltb max_age_secs (now_unix - auth.ts)
            || ltb (add64 now_unix max_age_secs) auth.ts)
          ≡ true =
        ground arith in
      rw late

  stale_refused :
      (owner : Bytes) (auth : MailboxOwnerAuth) (now_unix : ℕ) (expect : AuthScope)
      (o : Option Mailbox)
      → max_age_secs < now_unix - auth.ts
      → checks_at crypto owner auth now_unix expect o ≡ err owner_auth
  stale_refused owner auth now_unix expect none old = refl
  stale_refused owner auth now_unix expect (some box) old =
      rw (stale_verify auth box.owner_pk now_unix expect old) (ground arith)

  check_keeps :
      (auth : MailboxOwnerAuth) (a : Attempt) (h : HomeServer)
      → a.at - auth.ts ≤ max_age_secs
      → Remembers auth h
      → Remembers auth (check_owner crypto a.owner a.auth a.at a.expect h).1
  unfolding check_owner
  check_keeps auth a h young r =
      lift_keeps (Remembers auth) (owner_checks crypto a.owner a.auth a.at a.expect h) _ h r
        λ _ _. spend_nonce-keeps auth a.auth a.at h young r

  -- Every attempt is made by the time.
  abbrev pub AllBefore : ℕ → List Attempt → Type 0
  AllBefore t [] = Unit
  AllBefore t (a ∷ more) = (a.at ≤ t) × AllBefore t more

  after-Remembers :
      (auth : MailboxOwnerAuth) (t : ℕ) (attempts : List Attempt) (h : HomeServer)
      → t - auth.ts ≤ max_age_secs
      → AllBefore t attempts
      → Remembers auth h
      → Remembers auth (after attempts h)
  after-Remembers auth t [] h young b r = r
  after-Remembers auth t (a ∷ more) h young b r =
      after-Remembers auth t more (check_owner crypto a.owner a.auth a.at a.expect h).1 young b.1
        (check_keeps auth a h (omega arith) r)

  check-Remembers :
      (auth : MailboxOwnerAuth) (now_unix : ℕ) (h : HomeServer) (r : ServerResult (Unit {0}))
      → (continue_with (λ _. spend_nonce auth now_unix) (r, h)).0 ≡ ok tt
      → Remembers auth (continue_with (λ _. spend_nonce auth now_unix) (r, h)).1
  check-Remembers auth now_unix h (err e) done = cc
  check-Remembers auth now_unix h (ok u) done = spend_nonce-Remembers auth now_unix h done

  checks_only :
      (owner : Bytes) (auth : MailboxOwnerAuth) (now_unix : ℕ) (expect : AuthScope)
      (o : Option Mailbox)
      → OnlyAuth (checks_at crypto owner auth now_unix expect o)
  checks_only owner auth now_unix expect none = refl
  checks_only owner auth now_unix expect (some box) = elim (Bool-cases box.disabled) [
    | inl off ↦ rw off refl
    | inr on ↦ elim (Bool-cases (beq auth.mailbox_hint owner)) [
      | inr stranger ↦ rw (on, stranger) refl
      | inl named ↦ elim (Bool-cases (crypto.key_ok box.owner_pk)) [
        | inr bad ↦ rw (on, named, bad) refl
        | inl good ↦
            rw (on, named, good) (only_map (auth_verify crypto auth box.owner_pk now_unix expect))
      ]
    ]
  ]

  refuse_either :
      (auth : MailboxOwnerAuth) (now_unix : ℕ) (h : HomeServer) (r : ServerResult (Unit {0}))
      → OnlyAuth r
      → (spend_nonce auth now_unix h).0 ≡ err owner_auth
      → (continue_with (λ _. spend_nonce auth now_unix) (r, h)).0 ≡ err owner_auth
  refuse_either auth now_unix h (ok u) only spent = spent
  refuse_either auth now_unix h (err e) only spent = ap err only

  check_refuses :
      (auth : MailboxOwnerAuth) (now_unix : ℕ) (h : HomeServer) (o : Option Mailbox) (owner : Bytes)
      (expect : AuthScope)
      → (spend_nonce auth now_unix h).0 ≡ err owner_auth
      → (continue_with
          (λ _. spend_nonce auth now_unix)
          (checks_at crypto owner auth now_unix expect o, h)).0
        ≡ err owner_auth
  check_refuses auth now_unix h o owner expect spent =
      refuse_either auth now_unix h (checks_at crypto owner auth now_unix expect o)
        (checks_only owner auth now_unix expect o) spent

  -- No replay: an authorisation that let an owner in is refused ever after, for whatever request and
  -- whatever attempts are made in between. The clock is not behind any of them.
  pub replay_refused :
      (owner : Bytes) (auth : MailboxOwnerAuth) (first : ℕ) (expect : AuthScope) (h : HomeServer)
      → (check_owner crypto owner auth first expect h).0 ≡ ok tt
      → (attempts : List Attempt) (now_unix : ℕ) (again : AuthScope) → AllBefore now_unix attempts
      → (check_owner crypto owner auth now_unix again
          (after attempts (check_owner crypto owner auth first expect h).1)).0
        ≡ err owner_auth
  unfolding check_owner owner_checks
  replay_refused owner auth first expect h done attempts now_unix again before =
      let r = check-Remembers auth first h (owner_checks crypto owner auth first expect h) done in
      let h' = after attempts (check_owner crypto owner auth first expect h).1 in
      elim (Bool-cases (leb (now_unix - auth.ts) max_age_secs)) [
        | inl young ↦
            let kept = after-Remembers auth now_unix attempts _ (leb→le _ _ young) before r in
            check_refuses auth now_unix h' (Map.get owner h'.mailboxes) owner again
              (spend_nonce-refuses auth now_unix h' (leb→le _ _ young) kept)
        | inr old ↦
            rw (stale_refused owner auth now_unix again (Map.get owner h'.mailboxes) (ground arith))
      ]
