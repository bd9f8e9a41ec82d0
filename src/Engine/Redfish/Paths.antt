-- ===== src/Engine/Redfish/Paths.antt =====
-- Which path is chosen for a node.
use chamicore.Prelude.{
  ℕ, not, ◌&&◌, ◌≡◌, refl, ap, ◌⊎◌, inl, inr, Bool, true, false, List, [], ◌∷◌, ◌++◌, Option, none,
  some, arith, is_empty, All, if◌then◌else◌,
}
use chamicore.Text.{Text, =ₛ_iff}
use chamicore.Text.Trim.{trim_space}
use chamicore.Text.Order.{◌<ₛ◌, <ₛ_trans, <ₛ_irrefl, <ₛ_total, insert_sorted, sort_strings}
use chamicore.Text.Unique.{contains}
use chamicore.Text.Fold.{equal_fold_by}
use chamicore.Engine.Redfish.Named.{IsNamed, system_id_from_path-IsNamed}
use chamicore.Engine.Redfish.{
  system_id_from_path, is_match, first_match, filled_paths, first_of, or_smallest,
  select_system_path,
}

-- The first of a sorted list, beside the list that it was made of.
abbrev IsLeast : List Text → List Text → Type 0
IsLeast xs [] = xs ≡ []
IsLeast xs (y ∷ ys) = (contains xs y ≡ true) × All (λ p. (p <ₛ y) ≡ false) xs

<ₛ_cotrans : (a b c : Text) → (c <ₛ b) ≡ false → (b <ₛ a) ≡ false → (c <ₛ a) ≡ false
<ₛ_cotrans a b c h k = ground (
  arith,
  h,
  k,
  <ₛ_trans c a b,
  <ₛ_total a b,
  <ₛ_total b c,
  <ₛ_trans b c a,
  =ₛ_iff a b,
  =ₛ_iff b c,
)

All-cotrans :
    (x y : Text) (xs : List Text)
    → (y <ₛ x) ≡ false
    → All (λ p. (p <ₛ y) ≡ false) xs
    → All (λ p. (p <ₛ x) ≡ false) xs
All-cotrans x y [] h k = tt
All-cotrans x y (z ∷ xs) h (p, k) = (<ₛ_cotrans x y z p h, All-cotrans x y xs h k)

insert_sorted-IsLeast :
    (x : Text) (xs ys : List Text) → IsLeast xs ys → IsLeast (x ∷ xs) (insert_sorted x ys)
unfolding insert_sorted contains
insert_sorted-IsLeast x xs [] h = ground (arith, h, <ₛ_irrefl x, =ₛ_iff x x)
insert_sorted-IsLeast x xs (y ∷ ys) (h, k) =
    ground (arith, h, k, <ₛ_irrefl x, <ₛ_irrefl y, =ₛ_iff x x, <ₛ_trans y x y, All-cotrans x y xs)

sort_strings-IsLeast : (xs : List Text) → IsLeast xs (sort_strings xs)
unfolding sort_strings
sort_strings-IsLeast [] = refl
sort_strings-IsLeast (x ∷ xs) =
    insert_sorted-IsLeast x xs (sort_strings xs) (sort_strings-IsLeast xs)

-- Whether the system at a path, trimmed, has the name of the node, up to the case orbits.
abbrev pub IsTested : (ℕ → ℕ) → Text → Bool → Text → Type 0
IsTested orbit node result path =
    (name : Text) × IsNamed path name
    × ((not (is_empty path) && equal_fold_by orbit name node) ≡ result)

is_match-IsTested :
    (orbit : ℕ → ℕ) (node path : Text) (b : Bool)
    → is_match orbit node (trim_space path) ≡ b
    → IsTested orbit node b (trim_space path)
is_match-IsTested orbit node path b e =
    (system_id_from_path (trim_space path), system_id_from_path-IsNamed path, e)

abbrev pub Misses : (ℕ → ℕ) → Text → List Text → Type 0
Misses orbit node paths = All (λ path. IsTested orbit node false (trim_space path)) paths

-- The first path of a list whose system has the name of the node.
abbrev pub IsFirst : (ℕ → ℕ) → Text → List Text → Text → Type 0
IsFirst orbit node paths chosen =
    (before : List Text) × (path : Text) × (after : List Text) × (paths ≡ before ++ path ∷ after)
    × Misses orbit node before
    × IsTested orbit node true (trim_space path)
    × (chosen ≡ trim_space path)

abbrev Found : (ℕ → ℕ) → Text → List Text → Option Text → Type 0
Found orbit node paths none = Misses orbit node paths
Found orbit node paths (some chosen) = IsFirst orbit node paths chosen

cons-Found :
    (orbit : ℕ → ℕ) (node path : Text) (paths : List Text) (o : Option Text) (b : Bool)
    → IsTested orbit node b (trim_space path)
    → Found orbit node paths o
    → Found orbit node (path ∷ paths) (if b then some (trim_space path) else o)
cons-Found orbit node path paths o true e h = ([], path, paths, refl, tt, e, refl)
cons-Found orbit node path paths none false e h = (e, h)
cons-Found orbit node path paths (some chosen) false e
      (before, at, after, split, missed, hit, same) =
    (path ∷ before, at, after, ap (λ l. path ∷ l) split, (e, missed), hit, same)

first_match-Found :
    (orbit : ℕ → ℕ) (node : Text) (paths : List Text)
    → Found orbit node paths (first_match orbit node paths)
unfolding first_match
first_match-Found orbit node [] = tt
first_match-Found orbit node (path ∷ paths) =
    cons-Found orbit node path paths (first_match orbit node paths)
      (is_match orbit node (trim_space path)) (is_match-IsTested orbit node path _ refl)
      (first_match-Found orbit node paths)

-- The smallest path that is not blank, trimmed, or blank where there is none.
abbrev pub IsSmallest : List Text → Text → Type 0
IsSmallest paths chosen =
    ((filled_paths paths ≡ []) × (chosen ≡ []))
    ⊎ ((contains (filled_paths paths) chosen ≡ true)
        × All (λ path. (path <ₛ chosen) ≡ false) (filled_paths paths))

first_of-IsSmallest :
    (paths sorted : List Text)
    → IsLeast (filled_paths paths) sorted
    → IsSmallest paths (first_of sorted)
first_of-IsSmallest paths [] h = inl (h, refl)
first_of-IsSmallest paths (y ∷ ys) h = inr h

-- What is chosen for a node: a match, or the smallest path where there is no match or no node.
abbrev pub IsChosen : (ℕ → ℕ) → Text → List Text → Text → Type 0
IsChosen orbit node paths chosen =
    ((is_empty node ≡ false) × IsFirst orbit node paths chosen)
    ⊎ (((is_empty node ≡ true) ⊎ Misses orbit node paths) × IsSmallest paths chosen)

sorted-IsSmallest :
    (paths : List Text) → IsSmallest paths (first_of (sort_strings (filled_paths paths)))
sorted-IsSmallest paths =
    first_of-IsSmallest paths (sort_strings (filled_paths paths))
      (sort_strings-IsLeast (filled_paths paths))

or_smallest-IsChosen :
    (orbit : ℕ → ℕ) (node : Text) (paths : List Text) (o : Option Text) (blank : Bool)
    → is_empty node ≡ blank
    → Found orbit node paths o
    → IsChosen orbit node paths (or_smallest (if blank then none else o) paths)
or_smallest-IsChosen orbit node paths o true e h = inr (inl e, sorted-IsSmallest paths)
or_smallest-IsChosen orbit node paths none false e h = inr (inr h, sorted-IsSmallest paths)
or_smallest-IsChosen orbit node paths (some chosen) false e h = inl (e, h)

-- The path that is chosen for a node, trimmed, is the first whose name is that of the node up to case,
-- for any assignment of a representative to the case orbit of each code point. The name of a path is
-- what stands after its last slash, one slash at its end left aside, trimmed. Where no path has that
-- name or the name of the node is blank, it is the smallest of the paths that are not blank, trimmed,
-- and blank where there is none.
pub select_system_path-IsChosen :
    (orbit : ℕ → ℕ) (paths : List Text) (node_id : Text)
    → IsChosen orbit (trim_space node_id) paths (select_system_path orbit paths node_id)
unfolding select_system_path
select_system_path-IsChosen orbit paths node_id =
    or_smallest-IsChosen orbit (trim_space node_id) paths
      (first_match orbit (trim_space node_id) paths) (is_empty (trim_space node_id)) refl
      (first_match-Found orbit (trim_space node_id) paths)
