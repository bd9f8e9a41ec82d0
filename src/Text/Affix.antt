-- ===== src/Text/Affix.antt =====
-- `strings.HasSuffix` and `strings.Contains`.
use chamicore.Prelude.{Bool, true, ◌||◌, ◌&&◌, ◌==◌, [], ◌∷◌, is_empty}
use chamicore.Text.{Text, ◌=ₛ◌}

unfoldable pub has_suffix : Text → Text → Bool
unfolding ◌=ₛ◌
has_suffix [] t = [] =ₛ t
has_suffix (c ∷ cs) t = (c ∷ cs) =ₛ t || has_suffix cs t

unfoldable has_prefix : Text → Text → Bool
has_prefix p [] = is_empty p
has_prefix [] (c ∷ cs) = true
has_prefix (d ∷ p) (c ∷ cs) = d == c && has_prefix p cs

-- `strings.Contains(s, t)`, with the pattern first.
unfoldable pub has_infix : Text → Text → Bool
unfolding has_prefix
has_infix p [] = is_empty p
has_infix p (c ∷ cs) = has_prefix p (c ∷ cs) || has_infix p cs
