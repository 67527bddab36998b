-- ===== src/Server/Groups/Reach.antt =====
-- The states that a group host can reach by its operations (crates/nemo-server/src/group.rs), and what
-- holds in all of them.
use nemo_messenger.Prelude.{ℕ, ◌≡◌, refl, Option, none, some}
use nemo_messenger.Prelude.Bytes.{Bytes}
use nemo_messenger.Prelude.Map
use nemo_messenger.Wire.Sign.{Crypto}
use nemo_messenger.Wire.Envelope.{MessageType}
use nemo_messenger.Wire.Join.{GroupInvite, GroupAdmit}
use nemo_messenger.Wire.Revocation.{RevocationStatement}
use nemo_messenger.Server.Groups.{FanoutTarget, MemberCred, GroupState, GroupHost, new_host}
use nemo_messenger.Server.Groups.Members.{create_group_for, store_invite, accept}
use nemo_messenger.Server.Groups.Admit.{admit_member, refresh_fanout}
use nemo_messenger.Server.Groups.Stream.{Draw, append_host_revocation}
use nemo_messenger.Server.Groups.Files.{upload_file}
use nemo_messenger.Server.Groups.Append.{append}
use nemo_messenger.Server.Groups.Steps.{GroupPath, FatePath, absent, founds, ran, IsNew}
use nemo_messenger.Server.Groups.Steps.Log.{
  IsStream, Extends, GroupPath-IsStream, GroupPath-Extends, IsNew-IsStream,
}
use nemo_messenger.Server.Groups.Steps.Fair.{Fair, GroupPath-Fair, IsNew-Fair}
use nemo_messenger.Server.Groups.Refines.{Fates, same-Fates, trans_Fates}
use nemo_messenger.Server.Groups.Refines.Members.{
  FreshIn, create_group_for-Fates, store_invite-Fates, accept-Fates, admit_member-Fates,
  refresh_fanout-Fates,
}
use nemo_messenger.Server.Groups.Refines.Uploads.{upload_file-Fates}
use nemo_messenger.Server.Groups.Refines.Streams.{Room, append-Fates, append_host_revocation-Fates}

-- One call, whether it returns or fails, or a change of the clock. Random identifiers are new, and
-- rows are appended while no counter can overflow.
pub data Call (crypto : Crypto) : GroupHost → GroupHost → Type 0 where
  tick : (now : ℕ) (h : GroupHost) → Call crypto h (record h { now = now })
  create :
      (gid : Bytes) (cred : MemberCred) (pk : Bytes) (fanout : FanoutTarget)
      (creator : Option Bytes) (h : GroupHost)
      → Map.get gid h.groups ≡ none
      → Call crypto h (create_group_for crypto gid cred pk fanout creator h).1
  invites :
      (gid : Bytes) (cred : MemberCred) (i : GroupInvite) (h : GroupHost)
      → Call crypto h (store_invite crypto gid cred i h).1
  accepts :
      (gid nonce : Bytes) (cred : MemberCred) (pending_id : Bytes) (h : GroupHost)
      → FreshIn cred.credential_id (Map.get gid h.groups)
      → Call crypto h (accept crypto gid nonce cred pending_id h).1
  admits :
      (gid : Bytes) (admitter : MemberCred) (a : GroupAdmit) (pk : Bytes) (fanout : FanoutTarget)
      (h : GroupHost)
      → Call crypto h (admit_member crypto gid admitter a pk fanout h).1
  refreshes :
      (gid : Bytes) (cred : MemberCred) (fanout : FanoutTarget) (h : GroupHost)
      → Call crypto h (refresh_fanout crypto gid cred fanout h).1
  appends :
      (draws : ℕ → Draw) (gid : Bytes) (cred : MemberCred) (type : MessageType) (body : Bytes)
      (h : GroupHost)
      → Room h
      → Call crypto h (append crypto draws gid cred type body h).1
  revokes :
      (draws : ℕ → Draw) (gid : Bytes) (stmt : RevocationStatement) (h : GroupHost)
      → Room h
      → Call crypto h (append_host_revocation crypto draws gid stmt h).1
  uploads :
      (gid : Bytes) (cred : MemberCred) (tok body : Bytes) (h : GroupHost)
      → Call crypto h (upload_file crypto gid cred tok body h).1

pub data Runs (crypto : Crypto) (start : GroupHost) : GroupHost → Type 0 where
  idle : Runs crypto start start
  call : (h k : GroupHost) → Runs crypto start h → Call crypto h k → Runs crypto start k

Call-Fates : (crypto : Crypto) (h k : GroupHost) → Call crypto h k → Fates h k
Call-Fates crypto h k (tick now _) = same-Fates h k refl
Call-Fates crypto h k (create gid cred pk fanout creator _ fresh) =
    create_group_for-Fates crypto gid cred pk fanout creator h fresh
Call-Fates crypto h k (invites gid cred i _) = store_invite-Fates crypto gid cred i h
Call-Fates crypto h k (accepts gid nonce cred pending_id _ fresh) =
    accept-Fates crypto gid nonce cred pending_id h fresh
Call-Fates crypto h k (admits gid admitter a pk fanout _) =
    admit_member-Fates crypto gid admitter a pk fanout h
Call-Fates crypto h k (refreshes gid cred fanout _) = refresh_fanout-Fates crypto gid cred fanout h
Call-Fates crypto h k (appends draws gid cred type body _ room) =
    append-Fates crypto draws gid cred type body h room
Call-Fates crypto h k (revokes draws gid stmt _ room) =
    append_host_revocation-Fates crypto draws gid stmt h room
Call-Fates crypto h k (uploads gid cred tok body _) = upload_file-Fates crypto gid cred tok body h

-- The group host refines the steps of a group: whatever calls are made, and whether they return or fail,
-- each group goes through the allowed steps only, a new group starts empty, and none disappears.
pub Runs-Fates : (crypto : Crypto) (h k : GroupHost) → Runs crypto h k → Fates h k
Runs-Fates crypto h k idle = same-Fates h h refl
Runs-Fates crypto h k (call m _ r c) =
    trans_Fates h m k (Runs-Fates crypto h m r) (Call-Fates crypto m k c)

pub fate_of_some :
    (g : GroupState) (a b : Option GroupState)
    → a ≡ some g
    → FatePath a b
    → (k : GroupState) × (b ≡ some k) × GroupPath g k
fate_of_some g a b e absent = cc
fate_of_some g a b e (founds m k n p) = cc
fate_of_some g a b e (ran m k p) = let same : m ≡ g = cc in (k, refl, rw same at p)

fate_of_none :
    (k : GroupState) (a b : Option GroupState)
    → a ≡ none
    → b ≡ some k
    → FatePath a b
    → (g : GroupState) × IsNew g × GroupPath g k
fate_of_none k a b ea eb absent = cc
fate_of_none k a b ea eb (founds g m n p) = let same : m ≡ k = cc in (g, n, rw same at p)
fate_of_none k a b ea eb (ran m n p) = cc

-- In every state that a new host reaches, every stream is numbered from 1 without gaps, its counter and
-- its byte count are those of its rows, and it is within the size limit.
pub reachable-IsStream :
    (crypto : Crypto) (h : GroupHost) (gid : Bytes) (g : GroupState)
    → Runs crypto new_host h
    → Map.get gid h.groups ≡ some g
    → IsStream g
unfolding Map.get
reachable-IsStream crypto h gid g r e =
    let (start, fresh, path) =
      fate_of_none g none (Map.get gid h.groups) refl e (Runs-Fates crypto new_host h r gid) in
    GroupPath-IsStream start g path (IsNew-IsStream start fresh)

-- The host never drops a row of a stream, whatever its age and the size of the stream, although the
-- delivery protocol bounds the retention of stream objects by 30 days or 2 GiB: in every later state the
-- group is still there, and its rows begin with the rows that it had, in their order.
pub stream_only_grows :
    (crypto : Crypto) (h k : GroupHost) (gid : Bytes) (g : GroupState)
    → Runs crypto h k
    → Map.get gid h.groups ≡ some g
    → (g' : GroupState) × (Map.get gid k.groups ≡ some g') × Extends g g'
stream_only_grows crypto h k gid g r e =
    let (g', found, path) =
      fate_of_some g (Map.get gid h.groups) (Map.get gid k.groups) e
        (Runs-Fates crypto h k r gid) in
    (g', found, GroupPath-Extends g g' path)

pub reachable-Fair :
    (crypto : Crypto) (h : GroupHost) (gid cid : Bytes) (g : GroupState)
    → Runs crypto new_host h
    → Map.get gid h.groups ≡ some g
    → Fair cid g
unfolding Map.get
reachable-Fair crypto h gid cid g r e =
    let (start, fresh, path) =
      fate_of_none g none (Map.get gid h.groups) refl e (Runs-Fates crypto new_host h r gid) in
    GroupPath-Fair cid start g path (IsNew-Fair cid start fresh)
