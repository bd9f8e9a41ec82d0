-- ===== src/Text/Order.antt =====
-- The order of Go strings, and `sort.Strings`.
use chamicore.Prelude.{
  ◌≡◌, refl, Bool, true, false, ◌&&◌, ◌||◌, List, [], ◌∷◌, arith, ltb, ◌==◌, All, if◌then◌else◌,
}
use chamicore.Text.{Text, ◌=ₛ◌}

-- `a < b` on strings.
infix 50 ◌<ₛ◌
unfoldable pub ◌<ₛ◌ : Text → Text → Bool
[] <ₛ [] = false
[] <ₛ (y ∷ ys) = true
(x ∷ xs) <ₛ [] = false
(x ∷ xs) <ₛ (y ∷ ys) = ltb x y || (x == y && xs <ₛ ys)

pub <ₛ_trans : (a b c : Text) → (a <ₛ b) ≡ true → (b <ₛ c) ≡ true → (a <ₛ c) ≡ true
unfolding ◌<ₛ◌
<ₛ_trans [] [] c h k = ground arith
<ₛ_trans [] (y ∷ ys) [] h k = ground arith
<ₛ_trans [] (y ∷ ys) (z ∷ zs) h k = refl
<ₛ_trans (x ∷ xs) [] c h k = ground arith
<ₛ_trans (x ∷ xs) (y ∷ ys) [] h k = ground arith
<ₛ_trans (x ∷ xs) (y ∷ ys) (z ∷ zs) h k = ground (arith, <ₛ_trans xs ys zs)

pub <ₛ_irrefl : (a : Text) → (a <ₛ a) ≡ false
unfolding ◌<ₛ◌
<ₛ_irrefl [] = refl
<ₛ_irrefl (x ∷ xs) = ground (arith, <ₛ_irrefl xs)

pub <ₛ_total : (a b : Text) → (a <ₛ b) ≡ false → (a =ₛ b) ≡ false → (b <ₛ a) ≡ true
unfolding ◌<ₛ◌ ◌=ₛ◌
<ₛ_total [] [] h k = ground arith
<ₛ_total [] (y ∷ ys) h k = ground arith
<ₛ_total (x ∷ xs) [] h k = refl
<ₛ_total (x ∷ xs) (y ∷ ys) h k = ground (arith, <ₛ_total xs ys)

-- Strictly ascending: sorted and free of duplicates.
abbrev pub IsAscending : List Text → Type 0
IsAscending [] = Unit
IsAscending (x ∷ xs) = All (λ y. (x <ₛ y) ≡ true) xs × IsAscending xs

unfoldable pub insert_sorted : Text → List Text → List Text
insert_sorted x [] = x ∷ []
insert_sorted x (y ∷ ys) = if y <ₛ x then y ∷ insert_sorted x ys else x ∷ y ∷ ys

-- `sort.Strings`, whose result is fixed by the order: equal strings cannot be told apart.
unfoldable pub sort_strings : List Text → List Text
unfolding insert_sorted ◌<ₛ◌
sort_strings [] = []
sort_strings (x ∷ xs) = insert_sorted x (sort_strings xs)
