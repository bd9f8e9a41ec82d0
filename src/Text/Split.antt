-- ===== src/Text/Split.antt =====
-- `strings.Split` and `strings.SplitN` at one code point, and `strings.Fields`.
use chamicore.Prelude.{ℕ, List, [], ◌∷◌, Option, none, some, ◌==◌, if◌then◌else◌}
use chamicore.Text.{Text}
use chamicore.Text.Trim.{is_space}

abbrev pub in_first : ℕ → List Text → List Text
in_first c [] = (c ∷ []) ∷ []
in_first c (piece ∷ pieces) = (c ∷ piece) ∷ pieces

-- `strings.Split(s, sep)`: one piece more than there are separators.
unfoldable pub split_on : ℕ → Text → List Text
split_on sep [] = [] ∷ []
split_on sep (c ∷ cs) =
    let rest = split_on sep cs in if c == sep then [] ∷ rest else in_first c rest

abbrev before_first : ℕ → Option (Text × Text) → Option (Text × Text)
before_first c none = none
before_first c (some (before, after)) = some (c ∷ before, after)

-- The two pieces of `strings.SplitN(s, sep, 2)`, if there are two.
unfoldable pub cut : ℕ → Text → Option (Text × Text)
cut sep [] = none
cut sep (c ∷ cs) = let rest = cut sep cs in if c == sep then some ([], cs) else before_first c rest

abbrev push : Text → List Text → List Text
push [] words = words
push (c ∷ cs) words = (c ∷ cs) ∷ words

-- The word that a text begins with, and the words after it.
unfoldable pub words_of : Text → Text × List Text
words_of [] = ([], [])
words_of (c ∷ cs) =
    let rest = words_of cs in if is_space c then ([], push rest.0 rest.1) else (c ∷ rest.0, rest.1)

-- `strings.Fields`.
unfoldable pub fields : Text → List Text
unfolding words_of
fields s = push (words_of s).0 (words_of s).1
