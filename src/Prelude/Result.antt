-- ===== src/Prelude/Result.antt =====
-- `Result<T, E>`: `?` is the bind of a `do` block.
use mathlib.Core.Path.{◌≡◌, refl}
use mathlib.Core.Bool.{Bool, true, false}
use nemo_messenger.Prelude.Tests.{if◌then◌else◌}
use mathlib.Core.Option.{Option, none, some}

pub data Result {ℓ} (E : Type ℓ) (A : Type ℓ) : Type ℓ where
  ok : A → Result E A
  err : E → Result E A

-- `?` on a result: the rest of the function runs on the value of a success.
infixl 5 ◌>>=◌ ◌>>◌
abbrev pub ◌>>=◌ {ℓ} : {E A B : Type ℓ} (m : Result E A) (rest : A → Result E B) → Result E B
err failure >>= rest = err failure
ok value >>= rest = rest value

-- `?` on a result whose value is not used.
abbrev pub ◌>>◌ {ℓ} : {E B : Type ℓ} (check : Result E (Unit {ℓ})) (rest : Result E B) → Result E B
check >> rest = check >>= (λ done. rest)

-- `if b { return Err(e) }`
abbrev pub fail_if {ℓ} : {E : Type ℓ} → Bool → E → Result E (Unit {ℓ})
fail_if true e = err e
fail_if false e = ok tt

-- `opt.ok_or(e)`
abbrev pub ok_or {ℓ} : {E A : Type ℓ} → Option A → E → Result E A
ok_or none e = err e
ok_or (some a) e = ok a

-- A chain that succeeds did so in its first step.
pub bind_success {ℓ} :
    {E A B : Type ℓ} {out : B} (m : Result E A) (rest : A → Result E B)
    → ok out ≡ (m >>= rest)
    → (value : A) × ((rest value ≡ ok out) × (m ≡ ok value))
bind_success (err failure) rest run = cc
bind_success (ok value) rest run = (value, (cc, refl))

-- A success has the property `P`; an error has nothing to show.
abbrev pub Ensures {ℓ} : {E A : Type ℓ} → (A → Type ℓ) → Result E A → Type ℓ
Ensures P (ok a) = P a
Ensures P (err e) = Unit

-- The rule for `?`.
pub Ensures-bind {ℓ} :
    {E A B : Type ℓ} (P : A → Type ℓ) (Q : B → Type ℓ) (m : Result E A) (f : A → Result E B)
    → Ensures P m
    → ((a : A) → P a → Ensures Q (f a))
    → Ensures Q (m >>= f)
Ensures-bind P Q (ok a) f h k = k a h
Ensures-bind P Q (err e) f h k = tt

-- The rule for `if b { return Err(e) }`.
pub Ensures-guard :
    {E B : Type 0} (Q : B → Type 0) (b : Bool) (e : E) (n : Result E B)
    → (b ≡ false → Ensures Q n)
    → Ensures Q (fail_if b e >> n)
Ensures-guard Q true e n h = tt
Ensures-guard Q false e n h = h refl

pub Ensures-eq_ok {ℓ} :
    {E A : Type ℓ} (P : A → Type ℓ) (m : Result E A) {a : A} → Ensures P m → m ≡ ok a → P a
Ensures-eq_ok P m h e = rw e at h

pub Ensures-if :
    {E A : Type 0} (P : A → Type 0) (b : Bool) (m n : Result E A)
    → Ensures P m
    → Ensures P n
    → Ensures P (if b then m else n)
Ensures-if P true m n hm hn = hm
Ensures-if P false m n hm hn = hn

pub Ensures-mono {ℓ} :
    {E A : Type ℓ} (P Q : A → Type ℓ) (m : Result E A)
    → Ensures P m
    → ((a : A) → P a → Q a)
    → Ensures Q m
Ensures-mono P Q (ok a) h k = k a h
Ensures-mono P Q (err e) h k = tt

-- Two continuations that agree on what `m` can return give the same result.
pub bind_cong {ℓ} :
    {E A B : Type ℓ} (P : A → Type ℓ) (m : Result E A) (f g : A → Result E B)
    → Ensures P m
    → ((a : A) → P a → f a ≡ g a)
    → (m >>= f) ≡ (m >>= g)
bind_cong P (ok a) f g h k = k a h
bind_cong P (err e) f g h k = refl

pub bind_ext {ℓ} :
    {E A B : Type ℓ} (m : Result E A) (f g : A → Result E B)
    → ((a : A) → f a ≡ g a)
    → (m >>= f) ≡ (m >>= g)
bind_ext (ok a) f g k = k a
bind_ext (err e) f g k = refl
