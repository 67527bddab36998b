-- ===== src/Prelude/KeySet.antt =====
-- `HashSet` of byte strings, as the list of its members.
use nemo_messenger.Prelude.Tests.{if◌then◌else◌}
use nemo_messenger.Prelude.Bytes.{Bytes, beq, beq_iff}
use mathlib.Core.Path.{◌≡◌, refl}
use mathlib.Core.Bool.{Bool, false, ◌||◌}
use mathlib.Core.List.{List, [], ◌∷◌}
use native.Mathlib.Omega.{arith}

abbrev pub KeySet : Type 0
KeySet = List Bytes

unfoldable pub has : Bytes → KeySet → Bool
has k [] = false
has k (j ∷ s) = beq j k || has k s

unfoldable pub add : Bytes → KeySet → KeySet
unfolding has
add k s = if has k s then s else k ∷ s

unfoldable pub extend : KeySet → KeySet → KeySet
unfolding add
extend s [] = s
extend s (k ∷ ks) = extend (add k s) ks

unfoldable pub delete : Bytes → KeySet → KeySet
delete k [] = []
delete k (j ∷ s) = let rest = delete k s in if beq j k then rest else j ∷ rest

pub has-add : (k j : Bytes) (s : KeySet) → has k (add j s) ≡ (beq j k || has k s)
unfolding has add
has-add k j s = ground (arith, beq_iff j k)

pub has-extend : (k : Bytes) (s t : KeySet) → has k (extend s t) ≡ (has k t || has k s)
unfolding extend has
has-extend k s [] = refl
has-extend k s (j ∷ t) = ground (arith, has-extend k (add j s) t, has-add k j s)
