-- ===== src/Engine/Redfish/Named.antt =====
-- The name of the system at a path, as `systemIDFromPath` reads it off.
use chamicore.Prelude.{
  ℕ, ◌≡◌, ◌≢◌, refl, sym, ap, subst, ◌⊎◌, inl, inr, Bool, true, false, List, [], ◌∷◌, ◌++◌, arith,
  ◌==◌, is_empty, All, if◌then◌else◌,
}
use chamicore.Text.{Text}
use chamicore.Text.Trim.{trim_space, trim_space_idem, trim_left, trim_right}
use chamicore.Text.Split.{split_on, in_first}
use chamicore.Engine.Redfish.{last_of, trim_slash, system_id_from_path}

-- A text that does not end in a slash.
abbrev pub IsOpen : Text → Type 0
IsOpen path = (path ≡ []) ⊎ ((before : Text) × (c : ℕ) × (path ≡ before ++ c ∷ []) × (c ≢ b'/'))

-- A path without one slash at its end, if it ends in a slash.
abbrev pub IsStem : Text → Text → Type 0
IsStem path stem = (path ≡ stem ++ b'/' ∷ []) ⊎ ((path ≡ stem) × IsOpen path)

-- What stands after the last slash, or the whole text where there is none.
abbrev pub IsAfterLast : Text → Text → Type 0
IsAfterLast stem segment =
    All (λ (c : ℕ). c ≢ b'/') segment
    × ((stem ≡ segment) ⊎ ((before : Text) × (stem ≡ before ++ b'/' ∷ segment)))

-- The name of the system at a path: its last segment, trimmed.
abbrev pub IsNamed : Text → Text → Type 0
IsNamed path name =
    (stem : Text) × (segment : Text) × IsStem path stem
    × IsAfterLast stem segment
    × (name ≡ trim_space segment)

one-IsStem : (c : ℕ) (b : Bool) → (c == b'/') ≡ b → IsStem (c ∷ []) (if b then [] else c ∷ [])
one-IsStem c true e = inl (ground (arith, e))
one-IsStem c false e = inr (refl, inr ([], c, refl, λ same. ground (arith, e, same)))

cons-IsStem : (c d : ℕ) (cs stem : Text) → IsStem (d ∷ cs) stem → IsStem (c ∷ d ∷ cs) (c ∷ stem)
cons-IsStem c d cs stem (inl e) = inl (ap (λ l. c ∷ l) e)
cons-IsStem c d cs stem (inr (e, inl nothing)) = absurd (ground (arith, nothing))
cons-IsStem c d cs stem (inr (e, inr (before, x, same, other))) =
    inr (ap (λ l. c ∷ l) e, inr (c ∷ before, x, ap (λ l. c ∷ l) same, other))

trim_slash-IsStem : (path : Text) → IsStem path (trim_slash path)
unfolding trim_slash
trim_slash-IsStem [] = inr (refl, inl refl)
trim_slash-IsStem (c ∷ []) = one-IsStem c (c == b'/') refl
trim_slash-IsStem (c ∷ d ∷ cs) =
    cons-IsStem c d cs (trim_slash (d ∷ cs)) (trim_slash-IsStem (d ∷ cs))

-- The pieces of a text that is split at its slashes, as far as the last one goes.
abbrev IsSplit : Text → List Text → Type 0
IsSplit s [] = ⊥
IsSplit s (p ∷ []) = All (λ (c : ℕ). c ≢ b'/') p × (s ≡ p)
IsSplit s (p ∷ q ∷ ps) =
    All (λ (c : ℕ). c ≢ b'/') (last_of (q ∷ ps))
    × (before : Text) × (s ≡ before ++ b'/' ∷ last_of (q ∷ ps))

slash-IsSplit :
    (c : ℕ) (cs : Text) (ps : List Text) → c ≡ b'/' → IsSplit cs ps → IsSplit (c ∷ cs) ([] ∷ ps)
slash-IsSplit c cs [] e h = absurd h
slash-IsSplit c cs (p ∷ []) e (clear, same) = (clear, [], ground (arith, e, same))
slash-IsSplit c cs (p ∷ q ∷ ps) e (clear, before, same) = (clear, c ∷ before, ap (λ l. c ∷ l) same)

other-IsSplit :
    (c : ℕ) (cs : Text) (ps : List Text)
    → c ≢ b'/'
    → IsSplit cs ps
    → IsSplit (c ∷ cs) (in_first c ps)
other-IsSplit c cs [] ne h = absurd h
other-IsSplit c cs (p ∷ []) ne (clear, same) = ((ne, clear), ap (λ l. c ∷ l) same)
other-IsSplit c cs (p ∷ q ∷ ps) ne (clear, before, same) = (clear, c ∷ before, ap (λ l. c ∷ l) same)

chosen-IsSplit :
    (c : ℕ) (cs : Text) (ps : List Text) (b : Bool)
    → (c == b'/') ≡ b
    → IsSplit cs ps
    → IsSplit (c ∷ cs) (if b then [] ∷ ps else in_first c ps)
chosen-IsSplit c cs ps true e h = slash-IsSplit c cs ps (ground (arith, e)) h
chosen-IsSplit c cs ps false e h = other-IsSplit c cs ps (λ same. ground (arith, e, same)) h

split_on-IsSplit : (s : Text) → IsSplit s (split_on b'/' s)
unfolding split_on
split_on-IsSplit [] = (tt, refl)
split_on-IsSplit (c ∷ cs) =
    chosen-IsSplit c cs (split_on b'/' cs) (c == b'/') refl (split_on-IsSplit cs)

last-IsAfterLast : (s : Text) (ps : List Text) → IsSplit s ps → IsAfterLast s (last_of ps)
last-IsAfterLast s [] h = absurd h
last-IsAfterLast s (p ∷ []) (clear, same) = (clear, inl same)
last-IsAfterLast s (p ∷ q ∷ ps) (clear, before, same) = (clear, inr (before, same))

stem-IsNamed :
    (path stem : Text)
    → IsStem path stem
    → IsNamed path (if is_empty stem then [] else trim_space (last_of (split_on b'/' stem)))
unfolding trim_space trim_left trim_right
stem-IsNamed path [] h = ([], [], h, (tt, inl refl), refl)
stem-IsNamed path (c ∷ cs) h = (
  c ∷ cs,
  last_of (split_on b'/' (c ∷ cs)),
  h,
  last-IsAfterLast (c ∷ cs) (split_on b'/' (c ∷ cs)) (split_on-IsSplit (c ∷ cs)),
  refl,
)

-- `systemIDFromPath` of a trimmed path is the name of its system.
pub system_id_from_path-IsNamed :
    (path : Text) → IsNamed (trim_space path) (system_id_from_path (trim_space path))
unfolding system_id_from_path
system_id_from_path-IsNamed path =
    subst
      (λ p. IsNamed (trim_space path) (
        if is_empty (trim_slash p)
        then []
        else trim_space (last_of (split_on b'/' (trim_slash p)))))
      (sym (trim_space_idem path))
      (stem-IsNamed (trim_space path) (trim_slash (trim_space path))
        (trim_slash-IsStem (trim_space path)))
