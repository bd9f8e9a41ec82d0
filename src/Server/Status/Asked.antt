-- ===== src/Server/Status/Asked.antt =====
-- The nodes that a request for statuses is about: they are trimmed and not blank.
use chamicore.Prelude.{
  ◌≡◌, ◌∙◌, ap, subst, inl, inr, true, false, List, [], ◌∷◌, map, Option, none, some, arith, Result,
  ok, is_empty, Bool-cases, Result-cases,
}
use chamicore.Text.{Text, ◌=ₛ◌, =ₛ_iff}
use chamicore.Text.Trim.{trim_space, trim_space_idem}
use chamicore.Text.Split.{split_on}
use chamicore.Text.Unique.{contains, contains-append, contains-normalized_unique}
use chamicore.GoError.{GoError}
use chamicore.Store.Mappings.Query.{query_nodes}
use chamicore.Server.Targets.{
  parse_pieces, parse_target_list, resolve_targets, in_groups, resolve_targets-exact,
}

abbrev pub IsClean : Text → Type 0
IsClean t = (trim_space t ≡ t) × (is_empty t ≡ false)

parse_pieces-IsClean : (ps : List Text) (t : Text) → contains (parse_pieces ps) t ≡ true → IsClean t
unfolding parse_pieces contains
parse_pieces-IsClean [] t h = absurd (ground (arith, h))
parse_pieces-IsClean (p ∷ ps) t h = elim (Bool-cases (is_empty (trim_space p))) [
  | inl e ↦ parse_pieces-IsClean ps t (ground (arith, h, e))
  | inr e ↦ elim (Bool-cases (trim_space p =ₛ t)) [
    | inl same ↦ subst IsClean ((=ₛ_iff (trim_space p) t).0 same) (trim_space_idem p, e)
    | inr other ↦ parse_pieces-IsClean ps t (ground (arith, h, e, other))
  ]
]

parse_target_list-IsClean :
    (items : List Text) (t : Text) → contains (parse_target_list items) t ≡ true → IsClean t
unfolding parse_target_list contains
parse_target_list-IsClean [] t h = absurd (ground (arith, h))
parse_target_list-IsClean (raw ∷ items) t h =
    let split = contains-append (parse_pieces (split_on b',' raw)) (parse_target_list items) t in
    elim (Bool-cases (contains (parse_pieces (split_on b',' raw)) t)) [
      | inl e ↦ parse_pieces-IsClean (split_on b',' raw) t e
      | inr e ↦ parse_target_list-IsClean items t (ground (arith, h, split, e))
    ]

in_groups-IsClean :
    (resolver : Option (Text → Result GoError (List Text))) (gs : List Text) (t : Text)
    → in_groups resolver gs t ≡ true
    → IsClean t
unfolding in_groups
in_groups-IsClean none gs t h = absurd (ground (arith, h))
in_groups-IsClean (some resolve) [] t h = absurd (ground (arith, h))
in_groups-IsClean (some resolve) (g ∷ gs) t h = elim (Result-cases (resolve g)) [
  | inl (x, e) ↦ in_groups-IsClean (some resolve) gs t (ground (arith, h, e))
  | inr (members, e) ↦ elim (Bool-cases (contains (parse_target_list members) t)) [
    | inl there ↦ parse_target_list-IsClean members t there
    | inr gone ↦ in_groups-IsClean (some resolve) gs t (ground (arith, h, e, gone))
  ]
]

pub resolve_targets-IsClean :
    (resolver : Option (Text → Result GoError (List Text))) (nodes groups targets : List Text)
    (t : Text)
    → resolve_targets resolver nodes groups ≡ ok targets
    → contains targets t ≡ true
    → IsClean t
resolve_targets-IsClean resolver nodes groups targets t h there =
    let exact = (resolve_targets-exact resolver nodes groups h).2 t in
    elim (Bool-cases (contains (parse_target_list nodes) t)) [
      | inl e ↦ parse_target_list-IsClean nodes t e
      | inr e ↦
          in_groups-IsClean resolver (parse_target_list groups) t (ground (arith, exact, there, e))
    ]

contains-map_trim :
    (xs : List Text) (t : Text) → contains (map trim_space xs) t ≡ true → trim_space t ≡ t
unfolding contains
contains-map_trim [] t h = absurd (ground (arith, h))
contains-map_trim (x ∷ xs) t h = elim (Bool-cases (trim_space x =ₛ t)) [
  | inl e ↦ subst (λ u. trim_space u ≡ u) ((=ₛ_iff (trim_space x) t).0 e) (trim_space_idem x)
  | inr e ↦ contains-map_trim xs t (ground (arith, h, e))
]

trimmed-contains :
    (xs : List Text) (t : Text)
    → trim_space t ≡ t
    → contains xs t ≡ true
    → contains (map trim_space xs) t ≡ true
unfolding contains
trimmed-contains [] t clean h = h
trimmed-contains (x ∷ xs) t clean h = elim (Bool-cases (x =ₛ t)) [
  | inl e ↦ ground (arith, (=ₛ_iff (trim_space x) t).1 (ap trim_space ((=ₛ_iff x t).0 e) ∙ clean))
  | inr e ↦ ground (arith, trimmed-contains xs t clean (ground (arith, h, e)))
]

pub query_nodes-IsClean :
    (xs : List Text) (t : Text) → contains (query_nodes xs) t ≡ true → IsClean t
unfolding query_nodes
query_nodes-IsClean xs t h =
    let kept = contains-normalized_unique xs t in
    (contains-map_trim xs t (ground (arith, kept, h)), ground (arith, kept, h))

-- A query for clean nodes is one for each of them.
pub query_nodes-contains :
    (xs : List Text) (t : Text)
    → IsClean t
    → contains xs t ≡ true
    → contains (query_nodes xs) t ≡ true
unfolding query_nodes
query_nodes-contains xs t (clean, full) h =
    ground (arith, contains-normalized_unique xs t, trimmed-contains xs t clean h, full)
