-- ===== src/Server/Groups/Dirty.antt =====
-- crates/nemo-server/src/group.rs: `GroupDirty`, the journal of the group host.
use nemo_messenger.Prelude.{ℕ, Bool, false, ◌&&◌, ◌||◌, List, [], ◌∷◌, ◌++◌, if◌then◌else◌}
use nemo_messenger.Prelude.Bytes.{Bytes, beq}
use nemo_messenger.Prelude.KeySet
use nemo_messenger.Prelude.KeySet.{KeySet}
use nemo_messenger.Server.Dirty.{is_nil}

abbrev pub PairSet : Type 0
PairSet = List (Bytes × Bytes)

unfoldable pub has_pair : Bytes × Bytes → PairSet → Bool
has_pair p [] = false
has_pair p (q ∷ s) = (beq q.0 p.0 && beq q.1 p.1) || has_pair p s

unfoldable pub add_pair : Bytes × Bytes → PairSet → PairSet
unfolding has_pair
add_pair p s = if has_pair p s then s else p ∷ s

unfoldable pub extend_pairs : PairSet → PairSet → PairSet
unfolding add_pair
extend_pairs s [] = s
extend_pairs s (p ∷ ps) = extend_pairs (add_pair p s) ps

pub record GroupDirty : Type 0 where
  pub groups : KeySet
  pub creds : PairSet
  pub invites : KeySet
  pub pending : KeySet
  pub stream_new : List (Bytes × ℕ)
  pub files : KeySet

-- `GroupDirty::default()`
abbrev pub clean_groups : GroupDirty
clean_groups = record {
  groups = [];
  creds = [];
  invites = [];
  pending = [];
  stream_new = [];
  files = [];
}

unfoldable pub groups_clean : GroupDirty → Bool
groups_clean d =
    is_nil d.groups
    && (is_nil d.creds
        && (is_nil d.invites && (is_nil d.pending && (is_nil d.stream_new && is_nil d.files))))

unfoldable pub absorb_groups : GroupDirty → GroupDirty → GroupDirty
unfolding extend_pairs
absorb_groups d other = record {
  groups = KeySet.extend d.groups other.groups;
  creds = extend_pairs d.creds other.creds;
  invites = KeySet.extend d.invites other.invites;
  pending = KeySet.extend d.pending other.pending;
  stream_new = d.stream_new ++ other.stream_new;
  files = KeySet.extend d.files other.files;
}
