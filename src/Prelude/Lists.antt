-- ===== src/Prelude/Lists.antt =====
-- Lists measured and indexed by native numbers, under the library's names.
use Prim.Native.Nat.{ℕ, zero, suc, ◌+◌, ◌-◌, ◌≤◌, min}
use mathlib.Core.Path.{◌≡◌, refl, ap, subst}
use mathlib.Core.Bool.{Bool, true, ◌&&◌}
use mathlib.Core.List.{List, [], ◌∷◌, ◌++◌}
use mathlib.Core.Option.{Option, none, some}
use native.Mathlib.Omega.{arith}
use nemo_messenger.Prelude.Tests.{if◌then◌else◌}

module _ {ℓ} {A : Type ℓ} where
  abbrev pub length : List A → ℕ
  length [] = 0
  length (x ∷ xs) = suc (length xs)

  abbrev pub get_elem? : List A → ℕ → Option A
  get_elem? [] i = none
  get_elem? (x ∷ xs) zero = some x
  get_elem? (x ∷ xs) (suc i) = get_elem? xs i

  abbrev pub take : ℕ → List A → List A
  take zero xs = []
  take (suc n) [] = []
  take (suc n) (x ∷ xs) = x ∷ take n xs

  abbrev pub drop : ℕ → List A → List A
  drop zero xs = xs
  drop (suc n) [] = []
  drop (suc n) (x ∷ xs) = drop n xs

  abbrev pub replicate : ℕ → A → List A
  replicate zero a = []
  replicate (suc n) a = a ∷ replicate n a

  -- Every element passes the test.
  abbrev pub all : (A → Bool) → List A → Bool
  all p [] = true
  all p (x ∷ xs) = p x && all p xs

  -- The elements that pass the test, in their order.
  abbrev pub keep : (A → Bool) → List A → List A
  keep p [] = []
  keep p (x ∷ xs) = let rest = keep p xs in if p x then x ∷ rest else rest

  -- The first element that passes the test.
  abbrev pub find : (A → Bool) → List A → Option A
  find p [] = none
  find p (x ∷ xs) = if p x then some x else find p xs

module _ {ℓ} {A : Type ℓ} where
  -- `Vec::remove`
  abbrev pub remove_at : ℕ → List A → List A
  remove_at i [] = []
  remove_at zero (x ∷ xs) = xs
  remove_at (suc i) (x ∷ xs) = x ∷ remove_at i xs

  -- Writing through an index.
  abbrev pub update_at : (A → A) → ℕ → List A → List A
  update_at f i [] = []
  update_at f zero (x ∷ xs) = f x ∷ xs
  update_at f (suc i) (x ∷ xs) = x ∷ update_at f i xs

  pub length-append : (xs ys : List A) → length (xs ++ ys) ≡ length xs + length ys
  length-append [] ys = omega arith
  length-append (x ∷ xs) ys = omega (arith, length-append xs ys)

  pub take-append : (xs ys : List A) → take (length xs) (xs ++ ys) ≡ xs
  take-append [] ys = refl
  take-append (x ∷ xs) ys = ap (λ t. x ∷ t) (take-append xs ys)

  pub drop-append : (xs ys : List A) → drop (length xs) (xs ++ ys) ≡ ys
  drop-append [] ys = refl
  drop-append (x ∷ xs) ys = drop-append xs ys

  -- The same where the length of the front is known.
  pub take-append_eq : (k : ℕ) (xs ys : List A) → length xs ≡ k → take k (xs ++ ys) ≡ xs
  take-append_eq k xs ys h = subst (λ j. take j (xs ++ ys) ≡ xs) h (take-append xs ys)

  pub drop-append_eq : (k : ℕ) (xs ys : List A) → length xs ≡ k → drop k (xs ++ ys) ≡ ys
  drop-append_eq k xs ys h = subst (λ j. drop j (xs ++ ys) ≡ ys) h (drop-append xs ys)

  pub take_all : (n : ℕ) (xs : List A) → length xs ≤ n → take n xs ≡ xs
  take_all zero [] h = refl
  take_all (suc n) [] h = refl
  take_all zero (x ∷ xs) h = absurd (omega arith)
  take_all (suc n) (x ∷ xs) h = ap (λ t. x ∷ t) (take_all n xs (omega arith))

  pub length-take : (n : ℕ) (xs : List A) → length (take n xs) ≡ min n (length xs)
  length-take zero xs = omega arith
  length-take (suc n) [] = omega arith
  length-take (suc n) (x ∷ xs) = omega (arith, length-take n xs)

  pub length-drop : (n : ℕ) (xs : List A) → length (drop n xs) ≡ length xs - n
  length-drop zero xs = omega arith
  length-drop (suc n) [] = omega arith
  length-drop (suc n) (x ∷ xs) = omega (arith, length-drop n xs)

  pub length-replicate : (n : ℕ) (a : A) → length (replicate n a) ≡ n
  length-replicate zero a = refl
  length-replicate (suc n) a = ap suc (length-replicate n a)

  pub length-keep-le : (p : A → Bool) (xs : List A) → length (keep p xs) ≤ length xs
  length-keep-le p [] = omega arith
  length-keep-le p (x ∷ xs) = ground (arith, length-keep-le p xs)

module _ {ℓ} {A : Type ℓ} where
  -- Positions in and behind the second part of an append.
  pub drop_past :
      (k n j : ℕ) (xs ys : List A) → length xs ≡ k → n ≡ k + j → drop n (xs ++ ys) ≡ drop j ys
  drop_past k n j [] ys h e = let e' : n ≡ j = omega arith in rw e'
  drop_past k zero j (x ∷ xs) ys h e = absurd (omega arith)
  drop_past k (suc n) j (x ∷ xs) ys h e = drop_past (k - 1) n j xs ys (omega arith) (omega arith)

  pub drop_within : (n : ℕ) (xs ys : List A) → n ≤ length xs → drop n (xs ++ ys) ≡ drop n xs ++ ys
  drop_within zero xs ys h = refl
  drop_within (suc n) [] ys h = absurd (omega arith)
  drop_within (suc n) (x ∷ xs) ys h = drop_within n xs ys (omega arith)

  pub take_within : (n : ℕ) (xs ys : List A) → n ≤ length xs → take n (xs ++ ys) ≡ take n xs
  take_within zero xs ys h = refl
  take_within (suc n) [] ys h = absurd (omega arith)
  take_within (suc n) (x ∷ xs) ys h = ap (λ t. x ∷ t) (take_within n xs ys (omega arith))

  pub get_elem?-append :
      (k : ℕ) (xs ys : List A) (y : A) → length xs ≡ k → get_elem? (xs ++ (y ∷ ys)) k ≡ some y
  get_elem?-append zero [] ys y h = refl
  get_elem?-append (suc k) [] ys y h = absurd (omega arith)
  get_elem?-append zero (x ∷ xs) ys y h = absurd (omega arith)
  get_elem?-append (suc k) (x ∷ xs) ys y h = get_elem?-append k xs ys y (omega arith)

  pub all-append : (p : A → Bool) (xs ys : List A) → all p (xs ++ ys) ≡ (all p xs && all p ys)
  all-append p [] ys = refl
  all-append p (x ∷ xs) ys = ground (arith, all-append p xs ys)

  pub all-replicate : (p : A → Bool) (n : ℕ) (a : A) → p a ≡ true → all p (replicate n a) ≡ true
  all-replicate p zero a h = refl
  all-replicate p (suc n) a h = ground (arith, all-replicate p n a h)

  pub remove_at-append :
      (xs ys : List A) (y : A) → remove_at (length xs) (xs ++ (y ∷ ys)) ≡ xs ++ ys
  remove_at-append [] ys y = refl
  remove_at-append (x ∷ xs) ys y = ap (λ l. x ∷ l) (remove_at-append xs ys y)

  pub update_at-append :
      (f : A → A) (xs ys : List A) (y : A)
      → update_at f (length xs) (xs ++ (y ∷ ys)) ≡ xs ++ (f y ∷ ys)
  update_at-append f [] ys y = refl
  update_at-append f (x ∷ xs) ys y = ap (λ l. x ∷ l) (update_at-append f xs ys y)

  pub get_elem?-past : (xs : List A) → get_elem? (xs ++ []) (length xs) ≡ none
  get_elem?-past [] = refl
  get_elem?-past (x ∷ xs) = get_elem?-past xs
