-- ===== src/Server/Groups/Refines/Members.antt =====
-- Founding a group and letting members in refine the steps of a group
-- (crates/nemo-server/src/group.rs).
use nemo_messenger.Prelude.{
  ◌≡◌, refl, Option, none, some, leb, ltb, Bool-cases, Option-cases, inl, inr,
}
use nemo_messenger.Prelude.Bytes.{Bytes, beq, beq_iff}
use nemo_messenger.Prelude.Map
use nemo_messenger.Prelude.Map.{get-insert}
use nemo_messenger.Prelude.Result.{ok, err}
use nemo_messenger.Wire.Sign.{Crypto}
use nemo_messenger.Wire.Join.{GroupInvite, GroupAdmit}
use nemo_messenger.Server.Error.{ServerResult}
use nemo_messenger.Server.Groups.{
  FanoutTarget, MemberCred, CredRecord, StoredInvite, PendingRecord, GroupState, GroupHost,
  authorize_live, mark_groups, mark_pending, mark_invites,
}
use nemo_messenger.Server.Groups.Members.{
  founded, owner_full, create_group_for, invite_checks, keep_invite, store_with, store_invite,
  waiting, accept_stored, accept_in, accept,
}
use nemo_messenger.Server.Groups.Admit.{
  without_expired, gc_pending_with, gc_pending, made_live, admit_cred, admit_reserved, admit_in,
  admit_swept, admit_checks, admit_with, admit_member, refreshed, refresh_with, refresh_fanout,
}
use nemo_messenger.Server.Groups.Steps.{
  invite, narrow, cancel, reserve, let_in, adjust, GroupPath, stay, go, one_step, founds,
}
use nemo_messenger.Server.Groups.Refines.{Fates, same-Fates, put_group-Fates, trans_Fates}

store_with-Fates :
    (gid : Bytes) (i : GroupInvite) (r : ServerResult (Unit {0})) (o : Option GroupState)
    (h : GroupHost)
    → Map.get gid h.groups ≡ o
    → Fates h (store_with gid i r o h).1
store_with-Fates gid i (err e) o h same = same-Fates h h refl
store_with-Fates gid i (ok _) none h same = same-Fates h h refl
store_with-Fates gid i (ok _) (some g) h same =
    put_group-Fates gid g (keep_invite i h.now g) h same
      (one_step g (keep_invite i h.now g) (invite g (keep_invite i h.now g).invites))

gc_pending_with-Fates :
    (gid : Bytes) (o : Option GroupState) (h : GroupHost)
    → Map.get gid h.groups ≡ o
    → Fates h (gc_pending_with gid o h)
gc_pending_with-Fates gid none h same = same-Fates h h refl
gc_pending_with-Fates gid (some g) h same =
    let stays = λ (p : PendingRecord). ltb h.now p.expires_at in
    let fewer = record g { pending = Map.retain stays g.pending } in
    put_group-Fates gid g (without_expired h.now g) h same (
      go fewer (without_expired h.now g) (one_step g fewer (narrow g stays))
        (invite fewer (without_expired h.now g).invites))

admit_cred-Fates :
    (gid pending_id pk : Bytes) (fanout : FanoutTarget) (p : PendingRecord) (o : Option CredRecord)
    (g : GroupState) (h : GroupHost)
    → Map.get gid h.groups ≡ some g
    → Map.get pending_id g.pending ≡ some p
    → Fates h
        (admit_cred gid p.cred.credential_id pk fanout o
          (record g { pending = Map.remove pending_id g.pending })
          h).1
admit_cred-Fates gid pending_id pk fanout p none g h same e =
    put_group-Fates gid g (record g { pending = Map.remove pending_id g.pending }) h same
      (one_step g _ (cancel g pending_id))
admit_cred-Fates gid pending_id pk fanout p (some rec) g h same e =
    let k = record g {
      creds = Map.insert p.cred.credential_id (made_live pk fanout rec) g.creds;
      pending = Map.remove pending_id g.pending;
    } in
    put_group-Fates gid g k h same
      (one_step g k (let_in g pending_id p (made_live pk fanout rec) e))

admit_reserved-Fates :
    (gid pending_id pk : Bytes) (fanout : FanoutTarget) (p : PendingRecord) (g : GroupState)
    (h : GroupHost)
    → Map.get gid h.groups ≡ some g
    → Map.get pending_id g.pending ≡ some p
    → Fates h
        (admit_reserved gid pk fanout p
          (record g { pending = Map.remove pending_id g.pending })
          h).1
admit_reserved-Fates gid pending_id pk fanout p g h same e =
    elim (Bool-cases (leb p.expires_at h.now)) [
      | inl late ↦ rw late (
          put_group-Fates gid g (record g { pending = Map.remove pending_id g.pending }) h same
            (one_step g _ (cancel g pending_id)))
      | inr in_time ↦ rw in_time (
          admit_cred-Fates gid pending_id pk fanout p (Map.get p.cred.credential_id g.creds) g h
            same e)
    ]

admit_in-Fates :
    (gid pending_id pk : Bytes) (fanout : FanoutTarget) (o : Option GroupState) (h : GroupHost)
    → Map.get gid h.groups ≡ o
    → Fates h (admit_in gid pending_id pk fanout o h).1
admit_in-Fates gid pending_id pk fanout none h same = same-Fates h h refl
admit_in-Fates gid pending_id pk fanout (some g) h same =
    elim (Option-cases (Map.get pending_id g.pending)) [
      | inl missing ↦ rw missing (same-Fates h h refl)
      | inr (p, found) ↦ rw found (admit_reserved-Fates gid pending_id pk fanout p g h same found)
    ]

admit_with-Fates :
    (gid : Bytes) (a : GroupAdmit) (pk : Bytes) (fanout : FanoutTarget)
    (r : ServerResult (Unit {0})) (h : GroupHost)
    → Fates h (admit_with gid a pk fanout r h).1
unfolding gc_pending admit_swept
admit_with-Fates gid a pk fanout (err e) h = same-Fates h h refl
admit_with-Fates gid a pk fanout (ok _) h =
    let m = mark_groups (λ d. mark_pending gid (mark_invites gid d)) (gc_pending gid h) in
    trans_Fates h m (admit_swept gid a.pending_id pk fanout m).1
      (gc_pending_with-Fates gid (Map.get gid h.groups) h refl)
      (admit_in-Fates gid a.pending_id pk fanout (Map.get gid m.groups) m refl)

refreshed-path :
    (fanout : FanoutTarget) (cid : Bytes) (o : Option CredRecord) (g : GroupState)
    → Map.get cid g.creds ≡ o
    → GroupPath g (refreshed fanout cid o g)
refreshed-path fanout cid none g e = stay
refreshed-path fanout cid (some rec) g e =
    one_step g _ (adjust g cid rec (record rec { fanout = some fanout }) e refl)

refresh_with-Fates :
    (gid cid : Bytes) (fanout : FanoutTarget) (r : ServerResult (Unit {0})) (o : Option GroupState)
    (h : GroupHost)
    → Map.get gid h.groups ≡ o
    → Fates h (refresh_with gid cid fanout r o h).1
refresh_with-Fates gid cid fanout (err e) o h same = same-Fates h h refl
refresh_with-Fates gid cid fanout (ok _) none h same = same-Fates h h refl
refresh_with-Fates gid cid fanout (ok _) (some g) h same =
    put_group-Fates gid g (refreshed fanout cid (Map.get cid g.creds) g) h same
      (refreshed-path fanout cid (Map.get cid g.creds) g refl)

-- A new random credential does not meet one of the group.
abbrev pub FreshIn : Bytes → Option GroupState → Type 0
FreshIn cid none = Unit
FreshIn cid (some g) = Map.get cid g.creds ≡ none

module _ (crypto : Crypto) where
  pub create_group_for-Fates :
      (gid : Bytes) (cred : MemberCred) (pk : Bytes) (fanout : FanoutTarget)
      (creator : Option Bytes) (h : GroupHost)
      → Map.get gid h.groups ≡ none
      → Fates h (create_group_for crypto gid cred pk fanout creator h).1
  unfolding create_group_for
  create_group_for-Fates gid cred pk fanout creator h fresh j =
      elim (Bool-cases (owner_full creator h)) [
        | inl full ↦ rw full (same-Fates h h refl j)
        | inr room ↦ rw room (elim (Bool-cases (beq gid j)) [
          | inl mine ↦
              let same : gid ≡ j = (beq_iff gid j).0 mine in
              let g = founded crypto pk fanout creator cred in
              rw (get-insert gid j g h.groups, mine, ← same, fresh)
                (founds g g
                  (record { next_seq = refl; bytes = refl; stream = refl; pending = refl }) stay)
          | inr other ↦
              rw (get-insert gid j (founded crypto pk fanout creator cred) h.groups, other)
                (same-Fates h h refl j)
        ])
      ]

  pub store_invite-Fates :
      (gid : Bytes) (cred : MemberCred) (i : GroupInvite) (h : GroupHost)
      → Fates h (store_invite crypto gid cred i h).1
  unfolding store_invite
  store_invite-Fates gid cred i h =
      store_with-Fates gid i (invite_checks crypto gid cred i h) (Map.get gid h.groups) h refl

  accept_stored-Fates :
      (gid nonce : Bytes) (cred : MemberCred) (pending_id : Bytes) (stored : StoredInvite)
      (g : GroupState) (h : GroupHost)
      → Map.get gid h.groups ≡ some g
      → Map.get cred.credential_id g.creds ≡ none
      → Fates h
          (accept_stored crypto gid cred pending_id stored
            (record g { invites = Map.remove nonce g.invites })
            h).1
  accept_stored-Fates gid nonce cred pending_id stored g h same fresh =
      let m = record g { invites = Map.remove nonce g.invites } in
      let k = waiting crypto cred pending_id stored m in
      let taken = one_step g m (invite g m.invites) in
      elim (Bool-cases (leb stored.expires_at h.now)) [
        | inl late ↦ rw late (put_group-Fates gid g m h same taken)
        | inr in_time ↦ rw in_time (
            put_group-Fates gid g k h same
              (go m k taken (reserve m cred.credential_id pending_id _ _ fresh refl refl)))
      ]

  accept_in-Fates :
      (gid nonce : Bytes) (cred : MemberCred) (pending_id : Bytes) (o : Option GroupState)
      (h : GroupHost)
      → Map.get gid h.groups ≡ o
      → FreshIn cred.credential_id o
      → Fates h (accept_in crypto gid nonce cred pending_id o h).1
  accept_in-Fates gid nonce cred pending_id none h same fresh = same-Fates h h refl
  accept_in-Fates gid nonce cred pending_id (some g) h same fresh =
      elim (Option-cases (Map.get nonce g.invites)) [
        | inl missing ↦ rw missing (same-Fates h h refl)
        | inr (stored, found) ↦
            rw found (accept_stored-Fates gid nonce cred pending_id stored g h same fresh)
      ]

  pub accept-Fates :
      (gid nonce : Bytes) (cred : MemberCred) (pending_id : Bytes) (h : GroupHost)
      → FreshIn cred.credential_id (Map.get gid h.groups)
      → Fates h (accept crypto gid nonce cred pending_id h).1
  unfolding accept
  accept-Fates gid nonce cred pending_id h fresh =
      accept_in-Fates gid nonce cred pending_id (Map.get gid h.groups) h refl fresh

  pub admit_member-Fates :
      (gid : Bytes) (admitter : MemberCred) (a : GroupAdmit) (pk : Bytes) (fanout : FanoutTarget)
      (h : GroupHost)
      → Fates h (admit_member crypto gid admitter a pk fanout h).1
  unfolding admit_member
  admit_member-Fates gid admitter a pk fanout h =
      admit_with-Fates gid a pk fanout (admit_checks crypto gid admitter a h) h

  pub refresh_fanout-Fates :
      (gid : Bytes) (cred : MemberCred) (fanout : FanoutTarget) (h : GroupHost)
      → Fates h (refresh_fanout crypto gid cred fanout h).1
  unfolding refresh_fanout
  refresh_fanout-Fates gid cred fanout h =
      refresh_with-Fates gid cred.credential_id fanout (authorize_live crypto gid cred h)
        (Map.get gid h.groups) h refl
