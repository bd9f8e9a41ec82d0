-- ===== src/Text/Trim.antt =====
-- `strings.TrimSpace`: the code points that `unicode.IsSpace` accepts are cut off at both ends.
use chamicore.Prelude.{
  ℕ, ◌≡◌, refl, Bool, ◌&&◌, ◌||◌, [], ◌∷◌, arith, leb, ◌==◌, is_empty, if◌then◌else◌,
}
use chamicore.Text.{Text}

-- Tab to carriage return, space, and the Unicode `White_Space` beyond ASCII.
unfoldable pub is_space : ℕ → Bool
is_space c =
    (leb 0x09 c && leb c 0x0d)
    || c == 0x20
    || c == 0x85
    || c == 0xa0
    || c == 0x1680
    || (leb 0x2000 c && leb c 0x200a)
    || c == 0x2028
    || c == 0x2029
    || c == 0x202f
    || c == 0x205f
    || c == 0x3000

unfoldable pub trim_left : Text → Text
trim_left [] = []
trim_left (c ∷ cs) = if is_space c then trim_left cs else c ∷ cs

unfoldable pub trim_right : Text → Text
trim_right [] = []
trim_right (c ∷ cs) =
    let rest = trim_right cs in if is_space c && is_empty rest then [] else c ∷ rest

unfoldable pub trim_space : Text → Text
trim_space s = trim_left (trim_right s)

trim_right_idem : (s : Text) → trim_right (trim_right s) ≡ trim_right s
unfolding trim_right
trim_right_idem [] = refl
trim_right_idem (c ∷ cs) = ground (arith, trim_right_idem cs)

trim_left_idem : (s : Text) → trim_left (trim_left s) ≡ trim_left s
unfolding trim_left
trim_left_idem [] = refl
trim_left_idem (c ∷ cs) = ground (arith, trim_left_idem cs)

-- Cutting off the front leaves a trimmed end trimmed.
trim_right-trim_left : (s : Text) → trim_right s ≡ s → trim_right (trim_left s) ≡ trim_left s
unfolding trim_right trim_left
trim_right-trim_left [] h = refl
trim_right-trim_left (c ∷ cs) h = ground (arith, trim_right-trim_left cs)

pub trim_space_idem : (s : Text) → trim_space (trim_space s) ≡ trim_space s
unfolding trim_space
trim_space_idem s =
    rw (trim_right-trim_left (trim_right s) (trim_right_idem s)) (trim_left_idem (trim_right s))
