-- ===== src/Text/Unique.antt =====
-- Sets of strings: `slices.Contains`, and the loop that trims, drops blanks and duplicates, which
-- the services repeat for node ids and for scopes. The map `seen` of such a loop is a list.
use chamicore.Prelude.{
  ◌≡◌, refl, ◌∙◌, Bool, true, false, not, ◌&&◌, ◌||◌, List, [], ◌∷◌, map, arith, suc, length,
  is_empty, All, ◌++◌, if◌then◌else◌, Bool-cases, inl, inr,
}
use chamicore.Text.{Text, ◌=ₛ◌, =ₛ_iff, =ₛ_refl}
use chamicore.Text.Trim.{trim_space}
use chamicore.Text.Order.{
  ◌<ₛ◌, <ₛ_trans, <ₛ_total, <ₛ_irrefl, IsAscending, insert_sorted, sort_strings,
}

-- `slices.Contains`, and `_, ok := set[t]`.
unfoldable pub contains : List Text → Text → Bool
contains [] t = false
contains (x ∷ xs) t = x =ₛ t || contains xs t

unfoldable pub collect_unique : List Text → List Text → List Text
collect_unique seen [] = []
collect_unique seen (x ∷ xs) =
    let t = trim_space x in
    elim (is_empty t || contains seen t) [
      | true ↦ collect_unique seen xs
      | false ↦ t ∷ collect_unique (t ∷ seen) xs
    ]

-- No text stands twice.
abbrev pub IsDistinct : List Text → Type 0
IsDistinct [] = Unit
IsDistinct (x ∷ xs) = (contains xs x ≡ false) × IsDistinct xs

pub contains-collect_unique :
    (seen xs : List Text) (t : Text)
    → contains (collect_unique seen xs) t
      ≡ (not (is_empty t) && (not (contains seen t) && contains (map trim_space xs) t))
unfolding contains collect_unique
contains-collect_unique seen [] t = ground arith
contains-collect_unique seen (x ∷ xs) t = ground (
  arith,
  =ₛ_iff (trim_space x) t,
  contains-collect_unique seen xs t,
  contains-collect_unique (trim_space x ∷ seen) xs t,
)

collect_unique-IsDistinct : (seen xs : List Text) → IsDistinct (collect_unique seen xs)
unfolding collect_unique contains
collect_unique-IsDistinct seen [] = tt
collect_unique-IsDistinct seen (x ∷ xs) = ground (
  arith,
  =ₛ_refl (trim_space x),
  contains-collect_unique (trim_space x ∷ seen) xs (trim_space x),
  collect_unique-IsDistinct seen xs,
  collect_unique-IsDistinct (trim_space x ∷ seen) xs,
)

pub contains-insert_sorted :
    (x : Text) (xs : List Text) (t : Text)
    → contains (insert_sorted x xs) t ≡ (x =ₛ t || contains xs t)
unfolding insert_sorted contains
contains-insert_sorted x [] t = refl
contains-insert_sorted x (y ∷ ys) t = ground (arith, contains-insert_sorted x ys t)

pub contains-sort_strings :
    (xs : List Text) (t : Text) → contains (sort_strings xs) t ≡ contains xs t
unfolding sort_strings contains
contains-sort_strings [] t = refl
contains-sort_strings (x ∷ xs) t =
    ground (arith, contains-insert_sorted x (sort_strings xs) t, contains-sort_strings xs t)

All-lt_trans :
    (x y : Text) (ys : List Text)
    → (x <ₛ y) ≡ true
    → All (λ z. (y <ₛ z) ≡ true) ys
    → All (λ z. (x <ₛ z) ≡ true) ys
All-lt_trans x y [] h k = tt
All-lt_trans x y (z ∷ zs) h k = (<ₛ_trans x y z h k.0, All-lt_trans x y zs h k.1)

All-lt_insert_sorted :
    (z x : Text) (ys : List Text)
    → (z <ₛ x) ≡ true
    → All (λ y. (z <ₛ y) ≡ true) ys
    → All (λ y. (z <ₛ y) ≡ true) (insert_sorted x ys)
unfolding insert_sorted
All-lt_insert_sorted z x [] h k = (h, tt)
All-lt_insert_sorted z x (y ∷ ys) h k = ground (arith, All-lt_insert_sorted z x ys h k.1)

insert_sorted-IsAscending :
    (x : Text) (ys : List Text)
    → IsAscending ys
    → contains ys x ≡ false
    → IsAscending (insert_sorted x ys)
unfolding insert_sorted contains
insert_sorted-IsAscending x [] h k = (tt, tt)
insert_sorted-IsAscending x (y ∷ ys) h k = ground (
  arith,
  <ₛ_total y x,
  All-lt_insert_sorted y x ys,
  All-lt_trans x y ys,
  insert_sorted-IsAscending x ys h.1,
)

-- Sorting a list with no duplicates gives a strictly ascending one.
pub sort_strings-IsAscending : (xs : List Text) → IsDistinct xs → IsAscending (sort_strings xs)
unfolding sort_strings
sort_strings-IsAscending [] h = tt
sort_strings-IsAscending (x ∷ xs) h =
    insert_sorted-IsAscending x (sort_strings xs) (sort_strings-IsAscending xs h.1)
      (contains-sort_strings xs x ∙ h.0)

length-insert_sorted : (x : Text) (ys : List Text) → length (insert_sorted x ys) ≡ suc (length ys)
unfolding insert_sorted
length-insert_sorted x [] = refl
length-insert_sorted x (y ∷ ys) = ground (arith, length-insert_sorted x ys)

pub length-sort_strings : (xs : List Text) → length (sort_strings xs) ≡ length xs
unfolding sort_strings
length-sort_strings [] = refl
length-sort_strings (x ∷ xs) =
    omega (arith, length-insert_sorted x (sort_strings xs), length-sort_strings xs)

-- The loop over all items, from an empty set.
unfoldable pub normalized_unique : List Text → List Text
normalized_unique xs = collect_unique [] xs

-- It keeps exactly the texts that some item trims to, without the empty one.
pub contains-normalized_unique :
    (xs : List Text) (t : Text)
    → contains (normalized_unique xs) t ≡ (not (is_empty t) && contains (map trim_space xs) t)
unfolding normalized_unique contains
contains-normalized_unique xs t = contains-collect_unique [] xs t

pub normalized_unique-IsDistinct : (xs : List Text) → IsDistinct (normalized_unique xs)
unfolding normalized_unique
normalized_unique-IsDistinct xs = collect_unique-IsDistinct [] xs

contains-of_All :
    (x : Text) (ys : List Text) → All (λ y. (x <ₛ y) ≡ true) ys → contains ys x ≡ false
unfolding contains
contains-of_All x [] h = refl
contains-of_All x (y ∷ ys) h =
    ground (arith, <ₛ_irrefl x, =ₛ_iff y x, contains-of_All x ys h.1, h.0)

IsDistinct-of_IsAscending : (xs : List Text) → IsAscending xs → IsDistinct xs
IsDistinct-of_IsAscending [] h = tt
IsDistinct-of_IsAscending (x ∷ xs) h = (contains-of_All x xs h.0, IsDistinct-of_IsAscending xs h.1)

pub sort_strings-IsDistinct : (xs : List Text) → IsDistinct xs → IsDistinct (sort_strings xs)
sort_strings-IsDistinct xs h =
    IsDistinct-of_IsAscending (sort_strings xs) (sort_strings-IsAscending xs h)

pub contains-append :
    (xs ys : List Text) (t : Text) → contains (xs ++ ys) t ≡ (contains xs t || contains ys t)
unfolding contains
contains-append [] ys t = refl
contains-append (x ∷ xs) ys t = ground (arith, contains-append xs ys t)

append-IsDistinct :
    (xs : List Text) (t : Text) → IsDistinct xs → contains xs t ≡ false → IsDistinct (xs ++ t ∷ [])
unfolding contains
append-IsDistinct [] t h k = (refl, tt)
append-IsDistinct (x ∷ xs) t h k =
    ground (
      arith,
      contains-append xs (t ∷ []) x,
      =ₛ_iff x t,
      =ₛ_iff t x,
      append-IsDistinct xs t h.1,
      h.0,
    )

-- The loop that appends what a set has not seen yet, the set being what was appended.
unfoldable pub add_unique : List Text → List Text → List Text
add_unique acc [] = acc
add_unique acc (x ∷ xs) = add_unique (if contains acc x then acc else acc ++ x ∷ []) xs

pub contains-add_unique :
    (acc xs : List Text) (t : Text)
    → contains (add_unique acc xs) t ≡ (contains acc t || contains xs t)
unfolding add_unique contains
contains-add_unique acc [] t = ground arith
contains-add_unique acc (x ∷ xs) t = ground (
  arith,
  =ₛ_iff x t,
  contains-add_unique acc xs t,
  contains-add_unique (acc ++ x ∷ []) xs t,
  contains-append acc (x ∷ []) t,
)

pub add_unique-IsDistinct : (acc xs : List Text) → IsDistinct acc → IsDistinct (add_unique acc xs)
unfolding add_unique
add_unique-IsDistinct acc [] h = h
add_unique-IsDistinct acc (x ∷ xs) h = elim (Bool-cases (contains acc x)) [
  | inl e ↦ rw e (add_unique-IsDistinct acc xs h)
  | inr e ↦ rw e (add_unique-IsDistinct (acc ++ x ∷ []) xs (append-IsDistinct acc x h e))
]
