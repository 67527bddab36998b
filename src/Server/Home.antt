-- ===== src/Server/Home.antt =====
-- crates/nemo-server/src/home.rs: the state of a home server, and the small changes of it that the
-- handlers share. `dummy_work` changes nothing and is left out. Random tokens are arguments.
pub mod Append
pub mod Owner
pub mod Capabilities
pub mod Directory
pub mod Operator
pub mod Invariant
pub mod Handlers
pub mod Upkeep
pub mod Settings
pub mod Reach
pub mod Spent
pub mod Reservation
pub mod Reserved
pub mod Shared
pub mod Replay
pub mod Revoked
use nemo_messenger.Prelude.{
  ℕ, Bool, true, false, not, Option, none, some, List, [], ◌∷◌, ◌++◌, if◌then◌else◌,
}
use nemo_messenger.Prelude.Bytes.{Bytes}
use nemo_messenger.Prelude.Map
use nemo_messenger.Prelude.Map.{Map}
use nemo_messenger.Prelude.KeySet
use nemo_messenger.Prelude.Result.{ok, err}
use nemo_messenger.Prelude.Exec.{Exec}
use nemo_messenger.Wire.Error.{WireResult}
use nemo_messenger.Wire.Card.{HomeServerBinding}
use nemo_messenger.Wire.Revocation.{RevocationStatement}
use nemo_messenger.Wire.Bundle.{ServerBundle}
use nemo_messenger.Wire.Envelope.{OuterEnvelope}
use nemo_messenger.Wire.Hpke.{HpkeKeypair}
use nemo_messenger.Server.Error.{ServerError, ServerResult, denied}
use nemo_messenger.Server.Mailbox.{Mailbox}
use nemo_messenger.Server.Tokens.{TokenKind, Tokens, set_token}
use nemo_messenger.Server.Dirty.{HomeDirty}

abbrev pub fetch_limit_max : ℕ
fetch_limit_max = 256

abbrev pub hpke_enc_window : ℕ
hpke_enc_window = 1024

abbrev pub token_sweep_interval_secs : ℕ
token_sweep_interval_secs = 86400

pub record Limits : Type 0 where
  pub mailbox_max_bytes : ℕ
  pub mailbox_max_age_secs : ℕ

pub record DirectoryRow : Type 0 where
  pub identity_public_key : Bytes
  pub revocation_public_key : Bytes
  pub binding : HomeServerBinding
  pub binding_seq : ℕ
  pub revocation : Option RevocationStatement

-- crates/nemo-server/src/federation.rs
pub record PeerState : Type 0 where
  pub bundle : ServerBundle
  pub refused : Bool
  pub last_rx : ℕ
  pub next_tx : ℕ
  pub hello_done : Bool
  pub window_sec : ℕ
  pub window_ok : ℕ
  pub seen_enc : Map ℕ

-- crates/nemo-server/src/federation.rs
pub record OutboundRow : Type 0 where
  pub dest : Bytes
  pub outer : OuterEnvelope
  pub enqueued_at : ℕ
  pub next_attempt : ℕ
  pub backoff_secs : ℕ

-- `sign` is the secret signing key.
pub record HomeServer : Type 0 where
  pub hpke : HpkeKeypair
  pub sign : Bytes
  pub bundle : ServerBundle
  pub now : ℕ
  pub limits : Limits
  pub mailboxes : Map Mailbox
  pub directory : Map DirectoryRow
  pub memberships : Map (List Bytes)
  pub tokens : Tokens
  pub prekeys : Map (List Bytes)
  pub seen_enc : Map ℕ
  pub peers : Map PeerState
  pub outbound : List OutboundRow
  pub last_token_sweep : ℕ
  pub dirty : HomeDirty
  pub owner_nonces : Map ℕ

abbrev pub Handler : Type 0 → Type 0
Handler A = Exec HomeServer ServerError A

-- `.map_err(|_| e)`
abbrev pub map_err : {A : Type 0} → ServerError → WireResult A → ServerResult A
map_err e (ok a) = ok a
map_err e (err _) = err e

abbrev pub mark : (HomeDirty → HomeDirty) → HomeServer → HomeServer
mark f h = record h { dirty = f h.dirty }

abbrev pub mark_identity : Bytes → HomeDirty → HomeDirty
mark_identity owner d = record d { identities = KeySet.add owner d.identities }

abbrev pub mark_token : Bytes → HomeDirty → HomeDirty
mark_token tok d = record d { tokens = KeySet.add tok d.tokens }

abbrev pub mark_prekeys : Bytes → HomeDirty → HomeDirty
mark_prekeys owner d = record d { prekeys = KeySet.add owner d.prekeys }

-- Writing through `mailboxes.get_mut(&owner)`.
abbrev pub put_mailbox : Bytes → Mailbox → HomeServer → HomeServer
put_mailbox owner box h = record h { mailboxes = Map.insert owner box h.mailboxes }

-- Writing through `token_mut(&tok)`.
abbrev pub put_token : Bytes → TokenKind → HomeServer → HomeServer
put_token tok kind h = record h { tokens = set_token tok kind h.tokens }

abbrev pub is_open : Option Mailbox → Bool
is_open none = false
is_open (some box) = not box.disabled

-- `require_mailbox`
unfoldable pub require_mailbox : Bytes → HomeServer → ServerResult (Unit {0})
require_mailbox owner h = if is_open (Map.get owner h.mailboxes) then ok tt else err denied

-- `mailboxes.get(&owner).is_some_and(|m| m.disabled)`
abbrev pub is_disabled : Option Mailbox → Bool
is_disabled none = false
is_disabled (some box) = box.disabled
