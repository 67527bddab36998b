-- ===== src/Prelude/Exec.antt =====
-- Methods on `&mut self` that return a `Result`: what was written before an error stays written, so the
-- state comes back beside the error too.
pub mod Keeps
use mathlib.Core.Bool.{Bool, true, false}
use nemo_messenger.Prelude.Tests.{if◌then◌else◌}
use nemo_messenger.Prelude.Result.{Result, ok, err}

abbrev pub Exec {ℓ} : Type ℓ → Type ℓ → Type ℓ → Type ℓ
Exec S E A = S → Result E A × S

module _ {ℓ} {S E : Type ℓ} where
  abbrev pub pure : {A : Type ℓ} → A → Exec S E A
  pure a s = (ok a, s)

  -- `?` on a value
  abbrev pub lift : {A : Type ℓ} → Result E A → Exec S E A
  lift r s = (r, s)

  abbrev pub modify : (S → S) → Exec S E (Unit {ℓ})
  modify f s = (ok tt, f s)

  abbrev pub continue_with : {A B : Type ℓ} → (A → Exec S E B) → Result E A × S → Result E B × S
  continue_with f (ok a, s) = f a s
  continue_with f (err e, s) = (err e, s)

  infixl 5 ◌>>=◌ ◌>>◌
  abbrev pub ◌>>=◌ : {A B : Type ℓ} → Exec S E A → (A → Exec S E B) → Exec S E B
  ◌>>=◌ m f s = continue_with f (m s)

  abbrev pub ◌>>◌ : {B : Type ℓ} → Exec S E (Unit {ℓ}) → Exec S E B → Exec S E B
  ◌>>◌ m n s = continue_with (λ _. n) (m s)
