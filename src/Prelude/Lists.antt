-- ===== src/Prelude/Lists.antt =====
-- Lists measured by native numbers, predicates over lists, and counting by a test.
use Prim.Native.Nat.{ℕ, suc, ◌+◌, ◌≤◌}
use mathlib.Core.Path.{◌≡◌, refl}
use mathlib.Core.Bool.{Bool, true, false, not}
use mathlib.Core.List.{List, [], ◌∷◌, ◌++◌}
use native.Mathlib.Omega.{arith}
use chamicore.Prelude.Tests.{if◌then◌else◌}

module _ {ℓ} {A : Type ℓ} where
  abbrev pub length : List A → ℕ
  length [] = 0
  length (x ∷ xs) = suc (length xs)

  abbrev pub is_empty : List A → Bool
  is_empty [] = true
  is_empty (x ∷ xs) = false

  pub length-append : (xs ys : List A) → length (xs ++ ys) ≡ length xs + length ys
  length-append [] ys = omega arith
  length-append (x ∷ xs) ys = omega (arith, length-append xs ys)

  -- How many elements pass a test.
  abbrev pub count_if : (A → Bool) → List A → ℕ
  count_if p [] = 0
  count_if p (x ∷ xs) = let rest = count_if p xs in if p x then suc rest else rest

  -- The elements that pass a test, in order: a Go loop with `append` under an `if`.
  abbrev pub keep_if : (A → Bool) → List A → List A
  keep_if p [] = []
  keep_if p (x ∷ xs) = let rest = keep_if p xs in if p x then x ∷ rest else rest

  pub length-keep_if : (p : A → Bool) (xs : List A) → length (keep_if p xs) ≡ count_if p xs
  length-keep_if p [] = refl
  length-keep_if p (x ∷ xs) = ground (arith, length-keep_if p xs)

  pub count_if-append :
      (p : A → Bool) (xs ys : List A) → count_if p (xs ++ ys) ≡ count_if p xs + count_if p ys
  count_if-append p [] ys = omega arith
  count_if-append p (x ∷ xs) ys = ground (arith, count_if-append p xs ys)

  pub count_if-le : (p : A → Bool) (xs : List A) → count_if p xs ≤ length xs
  count_if-le p [] = omega arith
  count_if-le p (x ∷ xs) = ground (arith, count_if-le p xs)

module _ {ℓ κ} {A : Type ℓ} where
  abbrev pub All : (A → Type κ) → List A → Type κ
  All P [] = Unit
  All P (x ∷ xs) = P x × All P xs

module _ {ℓ} {A : Type ℓ} (p : A → Bool) where
  -- One element of a list, counted first.
  pub count_if-middle :
      (xs : List A) (x : A) (ys : List A)
      → count_if p (xs ++ x ∷ ys) ≡ (if p x then 1 else 0) + count_if p (xs ++ ys)
  count_if-middle [] x ys = ground arith
  count_if-middle (z ∷ xs) x ys = ground (arith, count_if-middle xs x ys)

  -- A test splits a list into what it keeps and what its negation keeps.
  pub count_if-split :
      (q : A → Bool) (xs : List A)
      → count_if p (keep_if q xs) + count_if p (keep_if (λ x. not (q x)) xs) ≡ count_if p xs
  count_if-split q [] = refl
  count_if-split q (x ∷ xs) = ground (arith, count_if-split q xs)

module _ {ℓ} {A : Type ℓ} where
  pub length-middle :
      (xs : List A) (x : A) (ys : List A) → length (xs ++ x ∷ ys) ≡ suc (length (xs ++ ys))
  length-middle [] x ys = refl
  length-middle (z ∷ xs) x ys = omega (arith, length-middle xs x ys)
