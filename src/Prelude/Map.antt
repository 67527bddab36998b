-- ===== src/Prelude/Map.antt =====
-- `HashMap` with byte-string keys, as an association list with one entry for each key. A program that
-- iterates over such a map does so in no particular order; here it is that of the list.
use nemo_messenger.Prelude.Tests.{if◌then◌else◌, Bool-cases}
use nemo_messenger.Prelude.Bytes.{Bytes, beq, beq_iff, beq_refl}
use mathlib.Core.Path.{◌≡◌, refl, subst}
use mathlib.Core.Logic.{inl, inr}
use mathlib.Core.Bool.{Bool}
use mathlib.Core.Option.{Option, none, some}
use mathlib.Core.List.{List, [], ◌∷◌}
use native.Mathlib.Omega.{arith}

abbrev pub Map {ℓ} : Type ℓ → Type ℓ
Map V = List (Bytes × V)

module _ {ℓ} {V : Type ℓ} where
  unfoldable pub get : Bytes → Map V → Option V
  get k [] = none
  get k ((j, v) ∷ m) = if beq j k then some v else get k m

  -- `insert`, and `*get_mut(k) = v`
  unfoldable pub insert : Bytes → V → Map V → Map V
  insert k v [] = (k, v) ∷ []
  insert k v ((j, w) ∷ m) = if beq j k then (k, v) ∷ m else (j, w) ∷ insert k v m

  unfoldable pub remove : Bytes → Map V → Map V
  remove k [] = []
  remove k ((j, w) ∷ m) = let rest = remove k m in if beq j k then rest else (j, w) ∷ rest

  -- `retain` on the values
  unfoldable pub retain : (V → Bool) → Map V → Map V
  retain p [] = []
  retain p ((j, w) ∷ m) = let rest = retain p m in if p w then (j, w) ∷ rest else rest

  -- Every value of the map has the property.
  abbrev pub AllValues {κ} : (V → Type κ) → Map V → Type κ
  AllValues P [] = Unit
  AllValues P ((j, w) ∷ m) = P w × AllValues P m

  pub get-insert :
      (k j : Bytes) (v : V) (m : Map V)
      → get j (insert k v m) ≡ (if beq k j then some v else get j m)
  unfolding get insert
  get-insert k j v [] = refl
  get-insert k j v ((i, w) ∷ m) =
      ground (arith, beq_iff k j, beq_iff i k, beq_iff i j, get-insert k j v m)

  pub get-remove :
      (k j : Bytes) (m : Map V) → get j (remove k m) ≡ (if beq k j then none else get j m)
  unfolding get remove
  get-remove k j [] = ground arith
  get-remove k j ((i, w) ∷ m) =
      ground (arith, beq_iff k j, beq_iff i k, beq_iff i j, get-remove k j m)

  pub get-insert_self : (k : Bytes) (v : V) (m : Map V) → get k (insert k v m) ≡ some v
  get-insert_self k v m = rw (get-insert k k v m, beq_refl k)

  pub get-AllValues {κ} :
      (P : V → Type κ) (k : Bytes) (m : Map V) {v : V} → AllValues P m → get k m ≡ some v → P v
  unfolding get
  get-AllValues P k [] {v} h e = cc
  get-AllValues P k ((j, w) ∷ m) {v} h e = elim (Bool-cases (beq j k)) [
    | inl same ↦ let eq : w ≡ v = ground arith in subst P eq h.0
    | inr other ↦ get-AllValues P k m h.1 (rw other at e)
  ]

  pub insert-AllValues {κ} :
      (P : V → Type κ) (k : Bytes) (v : V) (m : Map V)
      → P v
      → AllValues P m
      → AllValues P (insert k v m)
  unfolding insert
  insert-AllValues P k v [] p h = (p, h)
  insert-AllValues P k v ((j, w) ∷ m) p h = ground (arith, insert-AllValues P k v m p h.1)

  pub remove-AllValues {κ} :
      (P : V → Type κ) (k : Bytes) (m : Map V) → AllValues P m → AllValues P (remove k m)
  unfolding remove
  remove-AllValues P k [] h = h
  remove-AllValues P k ((j, w) ∷ m) h = ground (arith, remove-AllValues P k m h.1)

  pub retain-AllValues {κ} :
      (P : V → Type κ) (p : V → Bool) (m : Map V) → AllValues P m → AllValues P (retain p m)
  unfolding retain
  retain-AllValues P p [] h = h
  retain-AllValues P p ((j, w) ∷ m) h = ground (arith, retain-AllValues P p m h.1)

  pub AllValues-mono {κ} :
      (P Q : V → Type κ) (m : Map V) → ((v : V) → P v → Q v) → AllValues P m → AllValues Q m
  AllValues-mono P Q [] f h = tt
  AllValues-mono P Q ((j, w) ∷ m) f h = (f w h.0, AllValues-mono P Q m f h.1)
