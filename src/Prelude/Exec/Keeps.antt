-- ===== src/Prelude/Exec/Keeps.antt =====
-- State predicates that a method keeps, one rule for each way to build a method.
use mathlib.Core.Bool.{Bool, true, false}
use nemo_messenger.Prelude.Tests.{if◌then◌else◌}
use mathlib.Core.Path.{◌≡◌, refl}
use nemo_messenger.Prelude.Result.{Result, ok, err}
use nemo_messenger.Prelude.Exec.{Exec, continue_with}

-- From a state with `P`, the method ends in a state with `Q`, whether it returns or fails.
abbrev pub Keeps {ℓ} : {S E A : Type ℓ} → (S → Type ℓ) → (S → Type ℓ) → Exec S E A → Type ℓ
Keeps {S = S} P Q m = (s : S) → P s → Q (m s).1

module _ {ℓ} {S E A B : Type ℓ} (P : S → Type ℓ) where
  -- After a method whose end state has `P`, only a result goes on.
  pub then_keeps :
      (f : A → Exec S E B) (p : Result E A × S)
      → P p.1
      → ((a : A) → Keeps P P (f a))
      → P (continue_with f p).1
  then_keeps f (ok a, s) h k = k a s h
  then_keeps f (err e, s) h k = h

  -- A value that may be an error changes nothing.
  pub lift_keeps :
      (r : Result E A) (f : A → Exec S E B) (s : S)
      → P s
      → ((a : A) → r ≡ ok a → P (f a s).1)
      → P (continue_with f (r, s)).1
  lift_keeps (ok a) f s h k = k a refl
  lift_keeps (err e) f s h k = h

-- Both branches of a test.
pub if_keeps {ℓ} :
    {S E A : Type ℓ} (P : S → Type ℓ) (b : Bool) (p q : Result E A × S)
    → P p.1
    → P q.1
    → P (if b then p else q).1
if_keeps P true p q hp hq = hp
if_keeps P false p q hp hq = hq
