-- ===== src/Text/Quote.antt =====
-- The verb `%q` of `fmt`: `strconv.Quote`, for texts whose code points outside ASCII are printable.
use chamicore.Prelude.{ℕ, ◌+◌, ◌/◌, ◌%◌, ◌||◌, [], ◌∷◌, ◌++◌, ltb, ◌==◌, if◌then◌else◌}
use chamicore.Text.{Text, codes}

abbrev pub hex_digit : ℕ → ℕ
hex_digit d = if ltb d 10 then b'0' + d else b'a' + d % 10

unfoldable pub quote_rune : ℕ → Text
quote_rune c =
    if c == 0x22 || c == 0x5c
    then 0x5c ∷ c ∷ []
    else if c == 7
    then codes "\\a"
    else if c == 8
    then codes "\\b"
    else if c == 9
    then codes "\\t"
    else if c == 10
    then codes "\\n"
    else if c == 11
    then codes "\\v"
    else if c == 12
    then codes "\\f"
    else if c == 13
    then codes "\\r"
    else if ltb c 0x20 || c == 0x7f
    then codes "\\x" ++ hex_digit (c / 16) ∷ hex_digit (c % 16) ∷ []
    else c ∷ []

unfoldable pub quote_runes : Text → Text
unfolding quote_rune
quote_runes [] = []
quote_runes (c ∷ cs) = quote_rune c ++ quote_runes cs

unfoldable pub quoted : Text → Text
unfolding quote_runes
quoted s = 0x22 ∷ (quote_runes s ++ 0x22 ∷ [])
