-- ===== src/Server/Groups/Members.antt =====
-- crates/nemo-server/src/group.rs: how a group is founded and how members come in.
use nemo_messenger.Prelude.{
  ℕ, Bool, true, false, not, Option, none, some, [], length, keep, leb, saturating_add,
  if◌then◌else◌,
}
use nemo_messenger.Prelude.Bytes.{Bytes, beq}
use nemo_messenger.Prelude.Map
use nemo_messenger.Prelude.Map.{Map}
use nemo_messenger.Prelude.Result.{ok, err, ◌>>=◌, ◌>>◌, fail_if}
use nemo_messenger.Wire.Sign.{Crypto}
use nemo_messenger.Wire.Join.{GroupInvite, invite_verify}
use nemo_messenger.Server.Error.{ServerResult, denied}
use nemo_messenger.Server.Home.{map_err}
use nemo_messenger.Server.Groups.{
  FanoutTarget, MemberCred, StoredInvite, PendingRecord, GroupState, GroupHost, GroupHandler,
  mark_groups, mark_group, mark_cred, mark_invites, mark_pending, put_group, signing_pk,
  authorize_live, checked_key, groups_per_owner,
}

pub record CreatedGroup : Type 0 where
  pub group_id : Bytes
  pub cred : MemberCred

pub record PendingJoin : Type 0 where
  pub pending_id : Bytes
  pub cred : MemberCred
  pub binding : Option Bytes
  pub salt : Option Bytes

pub record PendingLookup : Type 0 where
  pub credential_id : Bytes
  pub binding : Option Bytes
  pub salt : Option Bytes

-- `g.creator.as_ref() == Some(&owner)`
abbrev pub created_by : Bytes → Option Bytes → Bool
created_by owner none = false
created_by owner (some c) = beq c owner

unfoldable pub groups_of : Bytes → Map GroupState → ℕ
groups_of owner groups = length (keep (λ e. created_by owner e.1.creator) groups)

abbrev pub owner_full : Option Bytes → GroupHost → Bool
owner_full none h = false
owner_full (some owner) h = leb groups_per_owner (groups_of owner h.groups)

abbrev pub keep_invite : GroupInvite → ℕ → GroupState → GroupState
keep_invite invite now g = record g {
  invites =
      Map.insert invite.nonce
        (record {
          expires_at = saturating_add now invite.ttl_secs;
          binding = invite.binding;
          salt = invite.salt;
        })
        g.invites;
}

abbrev pub store_with :
    Bytes → GroupInvite → ServerResult (Unit {0}) → Option GroupState → GroupHandler (Unit {0})
store_with gid invite (err e) o h = (err e, h)
store_with gid invite (ok _) none h = (err denied, h)
store_with gid invite (ok _) (some g) h =
    (ok tt, mark_groups (mark_invites gid) (put_group gid (keep_invite invite h.now g) h))

abbrev pub pending_of : Bytes → Option GroupState → Option PendingRecord
pending_of pending_id none = none
pending_of pending_id (some g) = Map.get pending_id g.pending

abbrev pub still_pending : ℕ → Option PendingRecord → ServerResult PendingLookup
still_pending now none = err denied
still_pending now (some p) =
    if leb p.expires_at now
    then err denied
    else ok (record { credential_id = p.cred.credential_id; binding = p.binding; salt = p.salt })

module _ (crypto : Crypto) where
  abbrev pub founded : Bytes → FanoutTarget → Option Bytes → MemberCred → GroupState
  founded pk fanout creator cred = record {
    next_seq = 1;
    creds =
        Map.insert cred.credential_id
          (record {
            secret = crypto.sha256 cred.credential_secret;
            live = true;
            signing_pk = some pk;
            fanout = some fanout;
          })
          [];
    invites = [];
    pending = [];
    bytes = 0;
    stream = [];
    creator = creator;
  }

  -- The random group identifier and the random credential are arguments.
  unfoldable pub create_group_for :
      Bytes → MemberCred → Bytes → FanoutTarget → Option Bytes → GroupHandler CreatedGroup
  unfolding groups_of
  create_group_for gid cred pk fanout creator h =
      if owner_full creator h then (err denied, h) else (
        ok (record { group_id = gid; cred = cred }),
        mark_groups (λ d. mark_cred gid cred.credential_id (mark_group gid d))
            (put_group gid (founded pk fanout creator cred) h),
      )

  -- The checks of `store_invite`, before it changes anything.
  unfoldable pub invite_checks :
      Bytes → MemberCred → GroupInvite → GroupHost → ServerResult (Unit {0})
  unfolding authorize_live signing_pk invite_verify
  invite_checks gid cred invite h = do
    authorize_live crypto gid cred h
    fail_if (not (beq invite.group_id gid)) denied
    pk ← checked_key crypto (signing_pk gid cred.credential_id h)
    map_err denied (invite_verify crypto invite pk)

  unfoldable pub store_invite : Bytes → MemberCred → GroupInvite → GroupHandler (Unit {0})
  unfolding invite_checks
  store_invite gid cred invite h =
      store_with gid invite (invite_checks gid cred invite h) (Map.get gid h.groups) h

  abbrev pub waiting : MemberCred → Bytes → StoredInvite → GroupState → GroupState
  waiting cred pending_id stored g = record g {
    creds =
        Map.insert cred.credential_id
          (record {
            secret = crypto.sha256 cred.credential_secret;
            live = false;
            signing_pk = none;
            fanout = none;
          })
          g.creds;
    pending =
        Map.insert pending_id
          (record {
            cred = record {
              credential_id = cred.credential_id;
              credential_secret = crypto.sha256 cred.credential_secret;
            };
            expires_at = stored.expires_at;
            binding = stored.binding;
            salt = stored.salt;
          })
          g.pending;
  }

  -- `accept` with the invite that it takes out; it is gone even if it has expired.
  abbrev pub accept_stored :
      Bytes → MemberCred → Bytes → StoredInvite → GroupState → GroupHandler PendingJoin
  accept_stored gid cred pending_id stored g h =
      if leb stored.expires_at h.now then (err denied, put_group gid g h) else (
        ok (record {
          pending_id = pending_id;
          cred = cred;
          binding = stored.binding;
          salt = stored.salt;
        }),
        mark_groups (λ d. mark_cred gid cred.credential_id (mark_pending gid (mark_invites gid d)))
            (put_group gid (waiting cred pending_id stored g) h),
      )

  abbrev pub accept_from :
      Bytes
      → Bytes
      → MemberCred
      → Bytes
      → Option StoredInvite
      → GroupState
      → GroupHandler PendingJoin
  accept_from gid nonce cred pending_id none g h = (err denied, h)
  accept_from gid nonce cred pending_id (some stored) g h =
      accept_stored gid cred pending_id stored (record g { invites = Map.remove nonce g.invites }) h

  abbrev pub accept_in :
      Bytes → Bytes → MemberCred → Bytes → Option GroupState → GroupHandler PendingJoin
  accept_in gid nonce cred pending_id none h = (err denied, h)
  accept_in gid nonce cred pending_id (some g) h =
      accept_from gid nonce cred pending_id (Map.get nonce g.invites) g h

  -- The random credential and the random identifier of the pending entry are arguments.
  unfoldable pub accept : Bytes → Bytes → MemberCred → Bytes → GroupHandler PendingJoin
  accept gid nonce cred pending_id h = accept_in gid nonce cred pending_id (Map.get gid h.groups) h

  unfoldable pub lookup_pending :
      Bytes → MemberCred → Bytes → GroupHost → ServerResult PendingLookup
  unfolding authorize_live
  lookup_pending gid cred pending_id h = do
    authorize_live crypto gid cred h
    still_pending h.now (pending_of pending_id (Map.get gid h.groups))
