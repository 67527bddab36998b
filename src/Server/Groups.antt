-- ===== src/Server/Groups.antt =====
-- crates/nemo-server/src/group.rs: the state of the group host, and the small changes of it that its
-- operations share. `dummy_scan` changes nothing and is left out. Random tokens are arguments.
pub mod Dirty
pub mod Members
pub mod Admit
pub mod Stream
pub mod Files
pub mod Append
pub mod Steps
pub mod Refines
pub mod Reach
pub mod Removal
pub mod Once
pub mod Budget
use nemo_messenger.Prelude.{
  ℕ, ◌+◌, ◌*◌, Bool, true, false, Option, none, some, List, [], ◌∷◌, ◌&&◌, if◌then◌else◌,
}
use nemo_messenger.Prelude.Bytes.{Bytes, beq}
use nemo_messenger.Prelude.Map
use nemo_messenger.Prelude.Map.{Map}
use nemo_messenger.Prelude.KeySet
use nemo_messenger.Prelude.Result.{ok, err}
use nemo_messenger.Prelude.Exec.{Exec}
use nemo_messenger.Wire.Sign.{Crypto}
use nemo_messenger.Wire.Envelope.{MessageType, OuterEnvelope}
use nemo_messenger.Server.Error.{ServerError, ServerResult, denied}
use Dirty.{GroupDirty, clean_groups, add_pair}

abbrev pub stream_max_bytes : ℕ
stream_max_bytes = 2147483648

abbrev pub file_budget_bytes : ℕ
file_budget_bytes = 4294967296

abbrev pub stream_max_age_secs : ℕ
stream_max_age_secs = 2592000

abbrev pub groups_per_owner : ℕ
groups_per_owner = 64

pub record FanoutTarget : Type 0 where
  pub delivery_capability : Bytes
  pub home_hpke_public : Bytes

pub record MemberCred : Type 0 where
  pub credential_id : Bytes
  pub credential_secret : Bytes

pub record StreamAppend : Type 0 where
  pub seq : ℕ
  pub outers : List OuterEnvelope

-- `secret` is a hash.
pub record CredRecord : Type 0 where
  pub secret : Bytes
  pub live : Bool
  pub signing_pk : Option Bytes
  pub fanout : Option FanoutTarget

pub record StoredInvite : Type 0 where
  pub expires_at : ℕ
  pub binding : Option Bytes
  pub salt : Option Bytes

pub record PendingRecord : Type 0 where
  pub cred : MemberCred
  pub expires_at : ℕ
  pub binding : Option Bytes
  pub salt : Option Bytes

pub record FileSlot : Type 0 where
  pub group_id : Bytes
  pub owner : Bytes
  pub size : ℕ
  pub expires_at : ℕ
  pub content : Option Bytes

pub record StreamRow : Type 0 where
  pub seq : ℕ
  pub type : MessageType
  pub body : Bytes
  pub received_at : ℕ

pub record GroupState : Type 0 where
  pub next_seq : ℕ
  pub creds : Map CredRecord
  pub invites : Map StoredInvite
  pub pending : Map PendingRecord
  pub bytes : ℕ
  pub stream : List StreamRow
  pub creator : Option Bytes

pub record GroupHost : Type 0 where
  pub now : ℕ
  pub groups : Map GroupState
  pub files : Map FileSlot
  pub file_budget : ℕ
  pub dirty : GroupDirty

-- `GroupHost::new`
abbrev pub new_host : GroupHost
new_host = record {
  now = 1700000000;
  groups = [];
  files = [];
  file_budget = file_budget_bytes;
  dirty = clean_groups;
}

abbrev pub GroupHandler : Type 0 → Type 0
GroupHandler A = Exec GroupHost ServerError A

abbrev pub mark_groups : (GroupDirty → GroupDirty) → GroupHost → GroupHost
mark_groups f h = record h { dirty = f h.dirty }

abbrev pub mark_group : Bytes → GroupDirty → GroupDirty
mark_group gid d = record d { groups = KeySet.add gid d.groups }

abbrev pub mark_cred : Bytes → Bytes → GroupDirty → GroupDirty
mark_cred gid cid d = record d { creds = add_pair (gid, cid) d.creds }

abbrev pub mark_invites : Bytes → GroupDirty → GroupDirty
mark_invites gid d = record d { invites = KeySet.add gid d.invites }

abbrev pub mark_pending : Bytes → GroupDirty → GroupDirty
mark_pending gid d = record d { pending = KeySet.add gid d.pending }

-- Writing through `groups.get_mut(&group_id)`.
abbrev pub put_group : Bytes → GroupState → GroupHost → GroupHost
put_group gid g h = record h { groups = Map.insert gid g h.groups }

-- Writing through `creds.get_mut(&id)`.
abbrev pub put_cred : Bytes → CredRecord → GroupState → GroupState
put_cred cid rec g = record g { creds = Map.insert cid rec g.creds }

abbrev pub signing_pk_of : Bytes → Option GroupState → Option CredRecord
signing_pk_of cid none = none
signing_pk_of cid (some g) = Map.get cid g.creds

abbrev pub pk_of : Option CredRecord → Option Bytes
pk_of none = none
pk_of (some rec) = rec.signing_pk

unfoldable pub signing_pk : Bytes → Bytes → GroupHost → Option Bytes
signing_pk gid cid h = pk_of (signing_pk_of cid (Map.get gid h.groups))

module _ (crypto : Crypto) where
  -- The stored hash is compared with that of the presented secret.
  abbrev pub cred_live : Bytes → Option CredRecord → ServerResult (Unit {0})
  cred_live secret none = err denied
  cred_live secret (some rec) =
      if rec.live && beq rec.secret (crypto.sha256 secret) then ok tt else err denied

  abbrev pub authorize_in : MemberCred → Option GroupState → ServerResult (Unit {0})
  authorize_in cred none = err denied
  authorize_in cred (some g) = cred_live cred.credential_secret (Map.get cred.credential_id g.creds)

  unfoldable pub authorize_live : Bytes → MemberCred → GroupHost → ServerResult (Unit {0})
  authorize_live gid cred h = authorize_in cred (Map.get gid h.groups)

  -- The signing key of the member, as `VerifyingKey::from_bytes` accepts it.
  abbrev pub checked_key : Option Bytes → ServerResult Bytes
  checked_key none = err denied
  checked_key (some pk) = if crypto.key_ok pk then ok pk else err denied
