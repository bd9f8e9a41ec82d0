-- ===== src/Text/Fold.antt =====
-- `strings.ToLower` and `strings.EqualFold`, as far as a comparison with an ASCII text can tell.
-- The only code points outside ASCII whose lower case is an ASCII letter are U+0130 and U+212A,
-- and the only ones that fold to an ASCII letter are U+017F and U+212A.
use chamicore.Prelude.{ℕ, ◌+◌, Bool, ◌&&◌, map, leb, ◌==◌, if◌then◌else◌}
use chamicore.Text.{Text, ◌=ₛ◌}

unfoldable pub lower_rune : ℕ → ℕ
lower_rune c =
    if leb b'A' c && leb c b'Z'
    then c + 32
    else if c == 0x130
    then b'i'
    else if c == 0x212a
    then b'k'
    else c

unfoldable pub to_lower : Text → Text
unfolding lower_rune
to_lower s = map lower_rune s

unfoldable pub fold_rune : ℕ → ℕ
fold_rune c =
    if leb b'A' c && leb c b'Z'
    then c + 32
    else if c == 0x17f
    then b's'
    else if c == 0x212a
    then b'k'
    else c

-- `strings.EqualFold(s, t)` of any two texts, given a representative of the case orbit of each code
-- point (`unicode.SimpleFold` goes round the orbit).
unfoldable pub equal_fold_by : (ℕ → ℕ) → Text → Text → Bool
unfolding ◌=ₛ◌
equal_fold_by orbit s t = map orbit s =ₛ map orbit t

-- `strings.EqualFold(s, t)`, where one of the two is ASCII.
unfoldable pub equal_fold : Text → Text → Bool
unfolding fold_rune ◌=ₛ◌
equal_fold s t = map fold_rune s =ₛ map fold_rune t
