-- ===== src/Prelude/Bytes.antt =====
-- Byte strings (`Vec<u8>`, `&[u8]`, `[u8; N]`): lists of numbers below 256, big-endian integers.
use nemo_messenger.Prelude.Tests.{◌==◌}
use nemo_messenger.Prelude.Lists.{length, length-append, take, drop, replicate}
use Prim.Native.Nat.{ℕ, zero, suc, ◌+◌, ◌*◌, ◌/◌, ◌%◌, ◌^◌, ◌<◌}
use mathlib.Core.Path.{◌≡◌, refl, ◌∙◌}
use mathlib.Core.Logic.{◌↔◌}
use mathlib.Core.Bool.{Bool, true, false, ◌&&◌}
use mathlib.Core.List.{List, [], ◌∷◌, ◌++◌, foldl, foldl-append}
use native.Mathlib.Omega.{arith}
use native.Mathlib.Nat.{pow-suc, zero-add}

abbrev pub Bytes : Type 0
Bytes = List ℕ

abbrev pub IsByte : ℕ → Type 0
IsByte b = b < 256

abbrev pub IsBytes : Bytes → Type 0
IsBytes [] = Unit
IsBytes (b ∷ bs) = IsByte b × IsBytes bs

pub IsBytes-append : (xs ys : Bytes) → IsBytes xs → IsBytes ys → IsBytes (xs ++ ys)
IsBytes-append [] ys hx hy = hy
IsBytes-append (x ∷ xs) ys (h, hx) hy = (h, IsBytes-append xs ys hx hy)

-- Equality of byte strings, as `==` on slices and `ct_eq` on arrays decide it.
unfoldable pub beq : Bytes → Bytes → Bool
beq [] [] = true
beq [] (y ∷ ys) = false
beq (x ∷ xs) [] = false
beq (x ∷ xs) (y ∷ ys) = x == y && beq xs ys

pub beq→eq : (xs ys : Bytes) → beq xs ys ≡ true → xs ≡ ys
unfolding beq
beq→eq [] [] h = refl
beq→eq [] (y ∷ ys) h = ground arith
beq→eq (x ∷ xs) [] h = ground arith
beq→eq (x ∷ xs) (y ∷ ys) h = ground (arith, beq→eq xs ys)

pub beq_refl : (xs : Bytes) → beq xs xs ≡ true
unfolding beq
beq_refl [] = refl
beq_refl (x ∷ xs) = ground (arith, beq_refl xs)

pub beq_iff : (xs ys : Bytes) → (beq xs ys ≡ true) ↔ (xs ≡ ys)
beq_iff xs ys = (beq→eq xs ys, λ e. rw e (beq_refl ys))

-- `n.to_be_bytes()` of a `k`-byte integer: the low `k` bytes, the highest first.
unfoldable pub to_be_bytes : ℕ → ℕ → Bytes
to_be_bytes zero n = []
to_be_bytes (suc k) n = to_be_bytes k (n / 256) ++ (n % 256 ∷ [])

abbrev be_digit : ℕ → ℕ → ℕ
be_digit acc b = acc * 256 + b

-- `from_be_bytes`.
unfoldable pub from_be_bytes : Bytes → ℕ
from_be_bytes = foldl be_digit 0

pub length-to_be_bytes : (k n : ℕ) → length (to_be_bytes k n) ≡ k
unfolding to_be_bytes
length-to_be_bytes zero n = refl
length-to_be_bytes (suc k) n =
    length-append (to_be_bytes k (n / 256)) (n % 256 ∷ [])
    ∙ omega (arith, length-to_be_bytes k (n / 256))

pub to_be_bytes-IsBytes : (k n : ℕ) → IsBytes (to_be_bytes k n)
unfolding to_be_bytes
to_be_bytes-IsBytes zero n = tt
to_be_bytes-IsBytes (suc k) n =
    IsBytes-append (to_be_bytes k (n / 256)) _ (to_be_bytes-IsBytes k (n / 256)) (omega arith, tt)

-- A number that fits `k` bytes is read back from its big-endian bytes.
pub from_be_bytes-to_be_bytes : (k n : ℕ) → n < 256 ^ k → from_be_bytes (to_be_bytes k n) ≡ n
unfolding to_be_bytes from_be_bytes
from_be_bytes-to_be_bytes zero n h = omega arith
from_be_bytes-to_be_bytes (suc k) n h =
    rw foldl-append (omega (arith, from_be_bytes-to_be_bytes k (n / 256) (omega arith)))

pub take-IsBytes : (k : ℕ) (xs : Bytes) → IsBytes xs → IsBytes (take k xs)
take-IsBytes zero xs h = tt
take-IsBytes (suc k) [] h = tt
take-IsBytes (suc k) (x ∷ xs) h = (h.0, take-IsBytes k xs h.1)

pub drop-IsBytes : (k : ℕ) (xs : Bytes) → IsBytes xs → IsBytes (drop k xs)
drop-IsBytes zero xs h = h
drop-IsBytes (suc k) [] h = tt
drop-IsBytes (suc k) (x ∷ xs) h = drop-IsBytes k xs h.1

pub replicate-IsBytes : (k : ℕ) → IsBytes (replicate k 0)
replicate-IsBytes zero = tt
replicate-IsBytes (suc k) = (omega arith, replicate-IsBytes k)

fold_bound :
    (k acc : ℕ) (bs : Bytes)
    → IsBytes bs
    → acc < 256 ^ k
    → foldl be_digit acc bs < 256 ^ (length bs + k)
fold_bound k acc [] h a = simp zero-add a
fold_bound k acc (b ∷ bs) h a =
    let step : 256 ^ suc k ≡ 256 ^ k * 256 = pow-suc 256 k in
    let sum : length bs + suc k ≡ suc (length bs) + k = omega arith in
    rw sum at (fold_bound (suc k) (acc * 256 + b) bs h.1 (rw step (omega arith)))

-- A big-endian integer is below the power that its number of bytes gives.
pub from_be_bytes-lt : (bs : Bytes) → IsBytes bs → from_be_bytes bs < 256 ^ length bs
unfolding from_be_bytes
from_be_bytes-lt bs h =
    let sum : length bs + 0 ≡ length bs = omega arith in
    rw sum at (fold_bound 0 0 bs h (omega arith))

-- A byte array of the given length.
abbrev pub IsArray : ℕ → Bytes → Type 0
IsArray n b = IsBytes b × (length b ≡ n)
