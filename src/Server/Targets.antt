-- ===== src/Server/Targets.antt =====
-- `parseTargetList`, `resolveTargets` and the status of its errors. The resolver of groups is an
-- argument.
use chamicore.Prelude.{
  ℕ, ◌≡◌, refl, ◌∙◌, sym, ap, Bool, false, ◌||◌, List, [], ◌∷◌, ◌++◌, Option, none, some, arith,
  Result, ok, err, and_then, and_then-ok, ok-injective, Result-cases, is_empty, if◌then◌else◌, inl,
  inr, Bool-cases, subst,
}
use chamicore.Text.{Text, codes}
use chamicore.Text.Trim.{trim_space}
use chamicore.Text.Quote.{quoted}
use chamicore.Text.Split.{split_on}
use chamicore.Text.Order.{IsAscending, sort_strings}
use chamicore.Text.Unique.{
  contains, IsDistinct, add_unique, contains-add_unique, add_unique-IsDistinct,
  contains-sort_strings, sort_strings-IsAscending,
}
use chamicore.GoError.{
  GoError, sentinel, wrapped, errors_is, no_target_nodes, group_not_found,
  group_resolver_unavailable,
}

unfoldable pub parse_pieces : List Text → List Text
parse_pieces [] = []
parse_pieces (p ∷ ps) =
    let rest = parse_pieces ps in if is_empty (trim_space p) then rest else trim_space p ∷ rest

unfoldable pub parse_target_list : List Text → List Text
unfolding parse_pieces
parse_target_list [] = []
parse_target_list (raw ∷ items) = parse_pieces (split_on b',' raw) ++ parse_target_list items

abbrev pub resolving : Text → GoError → GoError
resolving group e = wrapped (codes "resolving group " ++ (quoted group ++ codes ": ")) e []

-- The loop over the groups.
unfoldable pub add_groups :
    (Text → Result GoError (List Text)) → List Text → List Text → Result GoError (List Text)
unfolding parse_target_list
add_groups resolve acc [] = ok acc
add_groups resolve acc (g ∷ gs) = elim (resolve g) [
  | err e ↦ err (resolving g e)
  | ok members ↦ add_groups resolve (add_unique acc (parse_target_list members)) gs
]

unfoldable pub sorted_targets : List Text → Result GoError (List Text)
sorted_targets resolved =
    let sorted = sort_strings resolved in
    if is_empty sorted then err (sentinel no_target_nodes) else ok sorted

-- `resolveTargets`.
unfoldable pub resolve_targets :
    Option (Text → Result GoError (List Text)) → List Text → List Text → Result GoError (List Text)
unfolding add_groups sorted_targets
resolve_targets none nodes groups =
    if is_empty (parse_target_list groups)
    then sorted_targets (add_unique [] (parse_target_list nodes))
    else err (sentinel group_resolver_unavailable)
resolve_targets (some resolve) nodes groups =
    and_then
      (add_groups resolve (add_unique [] (parse_target_list nodes)) (parse_target_list groups))
      sorted_targets

-- The status that `respondTargetResolutionError` answers.
unfoldable pub target_error_status : GoError → ℕ
target_error_status e =
    if errors_is e no_target_nodes
    then 400
    else if errors_is e group_resolver_unavailable
    then 503
    else if errors_is e group_not_found
    then 404
    else 502

abbrev member : Result GoError (List Text) → Text → Bool
member (err e) t = false
member (ok members) t = contains (parse_target_list members) t

-- A member of one of the groups.
unfoldable pub in_groups : Option (Text → Result GoError (List Text)) → List Text → Text → Bool
in_groups none gs t = false
in_groups (some resolve) [] t = false
in_groups (some resolve) (g ∷ gs) t = member (resolve g) t || in_groups (some resolve) gs t

contains-nil : (t : Text) → contains [] t ≡ false
unfolding contains
contains-nil t = refl

contains-add_groups :
    (resolve : Text → Result GoError (List Text)) (acc gs : List Text) (r : List Text) (t : Text)
    → add_groups resolve acc gs ≡ ok r
    → contains r t ≡ (contains acc t || in_groups (some resolve) gs t)
unfolding add_groups in_groups
contains-add_groups resolve acc [] r t h = ground (arith, h)
contains-add_groups resolve acc (g ∷ gs) r t h = elim (Result-cases (resolve g)) [
  | inl (x, e) ↦ absurd (ground (arith, h, e))
  | inr (members, e) ↦ ground (
    arith,
    h,
    e,
    contains-add_groups resolve (add_unique acc (parse_target_list members)) gs r t,
    contains-add_unique acc (parse_target_list members) t,
  )
]

add_groups-IsDistinct :
    (resolve : Text → Result GoError (List Text)) (acc gs : List Text) (r : List Text)
    → IsDistinct acc
    → add_groups resolve acc gs ≡ ok r
    → IsDistinct r
unfolding add_groups
add_groups-IsDistinct resolve acc [] r d h = subst IsDistinct (ok-injective h) d
add_groups-IsDistinct resolve acc (g ∷ gs) r d h = elim (Result-cases (resolve g)) [
  | inl (x, e) ↦ absurd (ground (arith, h, e))
  | inr (members, e) ↦
      add_groups-IsDistinct resolve (add_unique acc (parse_target_list members)) gs r
        (add_unique-IsDistinct acc (parse_target_list members) d) (ground (arith, h, e))
]

-- Sorted targets of a list without duplicates.
sorted-targets :
    (resolved targets : List Text)
    → IsDistinct resolved
    → sorted_targets resolved ≡ ok targets
    → IsAscending targets
      × (is_empty targets ≡ false)
      × ((t : Text) → contains targets t ≡ contains resolved t)
unfolding sorted_targets
sorted-targets resolved targets d h = elim (Bool-cases (is_empty (sort_strings resolved))) [
  | inl e ↦ absurd (ground (arith, h, e))
  | inr e ↦
      let same : sort_strings resolved ≡ targets = ground (arith, h, e) in
      (
        subst IsAscending same (sort_strings-IsAscending resolved d),
        subst (λ ts. is_empty ts ≡ false) same e,
        λ t. ap (λ ts. contains ts t) (sym same) ∙ contains-sort_strings resolved t,
      )
]

-- The targets that a request resolves to are at least one, stand in ascending order and each once,
-- and are exactly the nodes that it lists and the members of the groups that it lists, where every
-- text of a list is split at its commas, trimmed, and dropped if it is blank.
pub resolve_targets-exact :
    (resolver : Option (Text → Result GoError (List Text))) (nodes groups : List Text)
    {targets : List Text}
    → resolve_targets resolver nodes groups ≡ ok targets
    → IsAscending targets
      × (is_empty targets ≡ false)
      × ((t : Text)
          → contains targets t ≡ (
              contains (parse_target_list nodes) t
              || in_groups resolver (parse_target_list groups) t))
unfolding resolve_targets in_groups
resolve_targets-exact none nodes groups {targets} h =
    let sorted =
      sorted-targets (add_unique [] (parse_target_list nodes)) targets
        (add_unique-IsDistinct [] (parse_target_list nodes) tt) (ground (arith, h)) in
    (
      sorted.0,
      sorted.1,
      λ t.
          ground
            (arith, sorted.2 t, contains-add_unique [] (parse_target_list nodes) t, contains-nil t),
    )
resolve_targets-exact (some resolve) nodes groups {targets} h =
    let (resolved, e, k) =
      and_then-ok
        (add_groups resolve (add_unique [] (parse_target_list nodes)) (parse_target_list groups))
        sorted_targets h in
    let sorted =
      sorted-targets resolved targets
        (add_groups-IsDistinct resolve (add_unique [] (parse_target_list nodes))
          (parse_target_list groups) resolved
          (add_unique-IsDistinct [] (parse_target_list nodes) tt) e)
        k in
    (
      sorted.0,
      sorted.1,
      λ t. ground (
        arith,
        sorted.2 t,
        contains-add_groups resolve (add_unique [] (parse_target_list nodes))
            (parse_target_list groups) resolved t e,
        contains-add_unique [] (parse_target_list nodes) t,
        contains-nil t,
      ),
    )
