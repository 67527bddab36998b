-- ===== src/Server/Groups/Refines.antt =====
-- Every operation of the group host (crates/nemo-server/src/group.rs) takes every group through the steps
-- that Steps allows, on every branch.
pub mod Members
pub mod Streams
pub mod Uploads
use nemo_messenger.Prelude.{◌≡◌, Option, none, some, Bool-cases, inl, inr}
use nemo_messenger.Prelude.Bytes.{Bytes, beq, beq_iff}
use nemo_messenger.Prelude.Map
use nemo_messenger.Prelude.Map.{get-insert}
use nemo_messenger.Server.Groups.{GroupState, GroupHost, put_group}
use nemo_messenger.Server.Groups.Steps.{GroupPath, stay, FatePath, absent, ran, trans_fate}

-- What became of every group.
abbrev pub Fates : GroupHost → GroupHost → Type 0
Fates h k = (j : Bytes) → FatePath (Map.get j h.groups) (Map.get j k.groups)

fate_refl : (o : Option GroupState) → FatePath o o
fate_refl none = absent
fate_refl (some g) = ran g g stay

pub same-Fates : (h k : GroupHost) → k.groups ≡ h.groups → Fates h k
same-Fates h k e j = rw e (fate_refl (Map.get j h.groups))

pub put_group-Fates :
    (gid : Bytes) (g k : GroupState) (h : GroupHost)
    → Map.get gid h.groups ≡ some g
    → GroupPath g k
    → Fates h (put_group gid k h)
put_group-Fates gid g k h e p j = elim (Bool-cases (beq gid j)) [
  | inl mine ↦
      let same : gid ≡ j = (beq_iff gid j).0 mine in
      rw (get-insert gid j k h.groups, mine, ← same, e) (ran g k p)
  | inr other ↦ rw (get-insert gid j k h.groups, other) (fate_refl (Map.get j h.groups))
]

pub trans_Fates : (h m k : GroupHost) → Fates h m → Fates m k → Fates h k
trans_Fates h m k p q j =
    trans_fate (Map.get j h.groups) (Map.get j m.groups) (Map.get j k.groups) (p j) (q j)
