-- ===== src/Text.antt =====
-- The parts of Go's `strings` and `sort` packages that the services call, over code points.
-- A Go string is the list of its code points; ordering them agrees with ordering UTF-8 bytes.
pub mod Trim
pub mod Order
pub mod Fold
pub mod Unique
pub mod Affix
pub mod Quote
pub mod Split
use Prim.Native.Char.{code}
use Prim.Native.String.{String}
use chamicore.Prelude.{ℕ, ◌≡◌, refl, ◌↔◌, Bool, true, false, ◌&&◌, List, [], ◌∷◌, arith, ◌==◌}

abbrev pub Text : Type 0
Text = List ℕ

-- A string literal.
abbrev pub codes : String → Text
codes String.[] = []
codes (String.◌∷◌ c s) = code c ∷ codes s

-- `a == b` on strings.
infix 50 ◌=ₛ◌
unfoldable pub ◌=ₛ◌ : Text → Text → Bool
[] =ₛ [] = true
[] =ₛ (y ∷ ys) = false
(x ∷ xs) =ₛ [] = false
(x ∷ xs) =ₛ (y ∷ ys) = x == y && xs =ₛ ys

pub =ₛ_iff : (s t : Text) → ((s =ₛ t) ≡ true) ↔ (s ≡ t)
unfolding ◌=ₛ◌
=ₛ_iff [] [] = ground arith
=ₛ_iff [] (y ∷ ys) = ground arith
=ₛ_iff (x ∷ xs) [] = ground arith
=ₛ_iff (x ∷ xs) (y ∷ ys) = ground (arith, =ₛ_iff xs ys)

pub =ₛ_refl : (s : Text) → (s =ₛ s) ≡ true
=ₛ_refl s = (=ₛ_iff s s).1 refl
