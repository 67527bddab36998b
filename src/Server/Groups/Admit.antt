-- ===== src/Server/Groups/Admit.antt =====
-- crates/nemo-server/src/group.rs: the admission of those who wait, and the refresh of a fan-out target.
use nemo_messenger.Prelude.{ℕ, true, not, Option, none, some, leb, ltb, if◌then◌else◌}
use nemo_messenger.Prelude.Bytes.{Bytes, beq}
use nemo_messenger.Prelude.Map
use nemo_messenger.Prelude.Map.{Map}
use nemo_messenger.Prelude.Result.{ok, err, ◌>>=◌, ◌>>◌, fail_if}
use nemo_messenger.Wire.Sign.{Crypto}
use nemo_messenger.Wire.Join.{GroupAdmit, admit_verify}
use nemo_messenger.Server.Error.{ServerResult, denied}
use nemo_messenger.Server.Home.{map_err}
use nemo_messenger.Server.Groups.{
  FanoutTarget, MemberCred, CredRecord, PendingRecord, GroupState, GroupHost, GroupHandler,
  mark_groups, mark_cred, mark_invites, mark_pending, put_group, put_cred, signing_pk,
  authorize_live, checked_key,
}

-- `gc_pending` on the group
abbrev pub without_expired : ℕ → GroupState → GroupState
without_expired now g = record g {
  pending = Map.retain (λ p. ltb now p.expires_at) g.pending;
  invites = Map.retain (λ i. ltb now i.expires_at) g.invites;
}

abbrev pub gc_pending_with : Bytes → Option GroupState → GroupHost → GroupHost
gc_pending_with gid none h = h
gc_pending_with gid (some g) h = put_group gid (without_expired h.now g) h

unfoldable pub gc_pending : Bytes → GroupHost → GroupHost
gc_pending gid h = gc_pending_with gid (Map.get gid h.groups) h

abbrev pub made_live : Bytes → FanoutTarget → CredRecord → CredRecord
made_live pk fanout rec = record rec { live = true; signing_pk = some pk; fanout = some fanout }

abbrev pub admit_cred :
    Bytes → Bytes → Bytes → FanoutTarget → Option CredRecord → GroupState → GroupHandler Bytes
admit_cred gid cid pk fanout none g h = (err denied, put_group gid g h)
admit_cred gid cid pk fanout (some rec) g h = (
  ok cid,
  mark_groups (mark_cred gid cid) (put_group gid (put_cred cid (made_live pk fanout rec) g) h),
)

-- The end of `admit`, with the pending entry that it takes out.
abbrev pub admit_reserved :
    Bytes → Bytes → FanoutTarget → PendingRecord → GroupState → GroupHandler Bytes
admit_reserved gid pk fanout p g h =
    if leb p.expires_at h.now
    then (err denied, put_group gid g h)
    else admit_cred gid p.cred.credential_id pk fanout (Map.get p.cred.credential_id g.creds) g h

abbrev pub admit_from :
    Bytes → Bytes → Bytes → FanoutTarget → Option PendingRecord → GroupState → GroupHandler Bytes
admit_from gid pending_id pk fanout none g h = (err denied, h)
admit_from gid pending_id pk fanout (some p) g h =
    admit_reserved gid pk fanout p (record g { pending = Map.remove pending_id g.pending }) h

abbrev pub admit_in : Bytes → Bytes → Bytes → FanoutTarget → Option GroupState → GroupHandler Bytes
admit_in gid pending_id pk fanout none h = (err denied, h)
admit_in gid pending_id pk fanout (some g) h =
    admit_from gid pending_id pk fanout (Map.get pending_id g.pending) g h

-- `admit` from the garbage collection on
unfoldable pub admit_swept : Bytes → Bytes → Bytes → FanoutTarget → GroupHandler Bytes
admit_swept gid pending_id pk fanout h = admit_in gid pending_id pk fanout (Map.get gid h.groups) h

abbrev pub admit_with :
    Bytes → GroupAdmit → Bytes → FanoutTarget → ServerResult (Unit {0}) → GroupHandler Bytes
admit_with gid a pk fanout (err e) h = (err e, h)
admit_with gid a pk fanout (ok _) h =
    admit_swept gid a.pending_id pk fanout
      (mark_groups (λ d. mark_pending gid (mark_invites gid d)) (gc_pending gid h))

abbrev pub refreshed : FanoutTarget → Bytes → Option CredRecord → GroupState → GroupState
refreshed fanout cid none g = g
refreshed fanout cid (some rec) g = put_cred cid (record rec { fanout = some fanout }) g

abbrev pub refresh_with :
    Bytes
    → Bytes
    → FanoutTarget
    → ServerResult (Unit {0})
    → Option GroupState
    → GroupHandler (Unit {0})
refresh_with gid cid fanout (err e) o h = (err e, h)
refresh_with gid cid fanout (ok _) none h = (err denied, h)
refresh_with gid cid fanout (ok _) (some g) h = (
  ok tt,
  mark_groups (mark_cred gid cid) (put_group gid (refreshed fanout cid (Map.get cid g.creds) g) h),
)

module _ (crypto : Crypto) where
  -- The checks of `admit`, before it changes anything.
  unfoldable pub admit_checks :
      Bytes → MemberCred → GroupAdmit → GroupHost → ServerResult (Unit {0})
  unfolding authorize_live signing_pk admit_verify
  admit_checks gid admitter a h = do
    authorize_live crypto gid admitter h
    fail_if (not (beq a.group_id gid)) denied
    pk ← checked_key crypto (signing_pk gid admitter.credential_id h)
    map_err denied (admit_verify crypto a pk)

  -- `admit`
  unfoldable pub admit_member :
      Bytes → MemberCred → GroupAdmit → Bytes → FanoutTarget → GroupHandler Bytes
  unfolding admit_checks gc_pending admit_swept
  admit_member gid admitter a pk fanout h =
      admit_with gid a pk fanout (admit_checks gid admitter a h) h

  unfoldable pub refresh_fanout : Bytes → MemberCred → FanoutTarget → GroupHandler (Unit {0})
  unfolding authorize_live
  refresh_fanout gid cred fanout h =
      refresh_with gid cred.credential_id fanout (authorize_live crypto gid cred h)
        (Map.get gid h.groups) h
