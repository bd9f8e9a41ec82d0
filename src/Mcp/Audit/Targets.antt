-- ===== src/Mcp/Audit/Targets.antt =====
-- What the summary of the targets of a tool call says.
use chamicore.Prelude.{
  ◌≡◌, refl, ◌∙◌, true, false, not, ◌&&◌, ◌||◌, List, [], ◌∷◌, ◌++◌, map, Option, some, arith,
  is_empty, All,
}
use chamicore.Text.{Text, codes, =ₛ_iff}
use chamicore.Text.Trim.{trim_space, trim_space_idem}
use chamicore.Text.Order.{◌<ₛ◌, IsAscending}
use chamicore.Text.Unique.{
  contains, normalized_unique, contains-normalized_unique, normalized_unique-IsDistinct,
  contains-sort_strings, sort_strings-IsAscending, contains-append,
}
use chamicore.Mcp.Value.{Value, Values, Fields, get, string, strings, array, nil, cons}
use chamicore.Mcp.Server.Session.{trimmed_texts, trimmed_items}
use chamicore.Mcp.Audit.{
  TargetSummary, text_of, texts_of, read_string, read_string_slice, unique_strings, diff,
  named_nodes, named_groups, named_resources, summarize_targets,
}

abbrev IsFilled : Text → Type 0
IsFilled t = (trim_space t ≡ t) × (is_empty t ≡ false)

All-append : (xs ys : List Text) → All IsFilled xs → All IsFilled ys → All IsFilled (xs ++ ys)
All-append [] ys h k = k
All-append (x ∷ xs) ys (p, h) k = (p, All-append xs ys h k)

trimmed_texts-All : (ss : List Text) → All IsFilled (trimmed_texts ss)
unfolding trimmed_texts
trimmed_texts-All [] = tt
trimmed_texts-All (s ∷ ss) = ground (arith, trim_space_idem s, trimmed_texts-All ss)

trimmed_items-All : (vs : Values) → All IsFilled (trimmed_items vs)
unfolding trimmed_items
trimmed_items-All nil = tt
trimmed_items-All (cons (string s) vs) = ground (arith, trim_space_idem s, trimmed_items-All vs)
trimmed_items-All (cons _ vs) = trimmed_items-All vs

text_of-All : (o : Option Value) → All IsFilled (text_of o)
text_of-All (some (string s)) = trimmed_texts-All (s ∷ [])
text_of-All _ = tt

texts_of-All : (o : Option Value) → All IsFilled (texts_of o)
texts_of-All (some (strings ss)) = trimmed_texts-All ss
texts_of-All (some (array vs)) = trimmed_items-All vs
texts_of-All _ = tt

read_string-All : (args : Fields) (keys : List Text) → All IsFilled (read_string args keys)
unfolding read_string
read_string-All args [] = tt
read_string-All args (key ∷ keys) =
    All-append (text_of (get args key)) (read_string args keys) (text_of-All (get args key))
      (read_string-All args keys)

read_string_slice-All :
    (args : Fields) (keys : List Text) → All IsFilled (read_string_slice args keys)
unfolding read_string_slice
read_string_slice-All args [] = tt
read_string_slice-All args (key ∷ keys) =
    All-append (texts_of (get args key)) (read_string_slice args keys) (texts_of-All (get args key))
      (read_string_slice-All args keys)

-- Texts that are trimmed and not blank stay as they are.
contains-trimmed :
    (xs : List Text) (t : Text)
    → All IsFilled xs
    → (not (is_empty t) && contains (map trim_space xs) t) ≡ contains xs t
unfolding contains
contains-trimmed [] t h = ground arith
contains-trimmed (x ∷ xs) t h = ground (arith, h.0.0, h.0.1, =ₛ_iff x t, contains-trimmed xs t h.1)

contains-unique_strings :
    (xs : List Text) (t : Text) → All IsFilled xs → contains (unique_strings xs) t ≡ contains xs t
unfolding unique_strings
contains-unique_strings xs t h =
    contains-sort_strings (normalized_unique xs) t
    ∙ contains-normalized_unique xs t
    ∙ contains-trimmed xs t h

unique_strings-IsAscending : (xs : List Text) → IsAscending (unique_strings xs)
unfolding unique_strings
unique_strings-IsAscending xs =
    sort_strings-IsAscending (normalized_unique xs) (normalized_unique-IsDistinct xs)

contains-diff :
    (xs drops : List Text) (t : Text)
    → contains (diff xs drops) t ≡ (contains xs t && not (contains drops t))
unfolding diff contains
contains-diff [] drops t = refl
contains-diff (x ∷ xs) drops t = ground (arith, =ₛ_iff x t, contains-diff xs drops t)

diff-All : (P : Text → Type 0) (xs drops : List Text) → All P xs → All P (diff xs drops)
unfolding diff
diff-All P [] drops h = tt
diff-All P (x ∷ xs) drops h = ground (arith, h, diff-All P xs drops h.1)

diff-IsAscending : (xs drops : List Text) → IsAscending xs → IsAscending (diff xs drops)
unfolding diff
diff-IsAscending [] drops h = tt
diff-IsAscending (x ∷ xs) drops h =
    ground (arith, h, diff-All (λ y. (x <ₛ y) ≡ true) xs drops h.0, diff-IsAscending xs drops h.1)

-- Each list is in ascending order, with no text twice; nodes and groups are those that the arguments
-- name, resources those that they name and that are no node and no group.
abbrev pub IsSummary : Fields → TargetSummary → Type 0
IsSummary args s =
    IsAscending s.node_ids
    × IsAscending s.group_ids
    × IsAscending s.resource_ids
    × ((t : Text) → contains s.node_ids t ≡ contains (named_nodes args) t)
    × ((t : Text) → contains s.group_ids t ≡ contains (named_groups args) t)
    × ((t : Text)
        → contains s.resource_ids t ≡ (
            contains (named_resources args) t
            && not (contains (named_nodes args) t || contains (named_groups args) t)))

named_nodes-All : (args : Fields) → All IsFilled (named_nodes args)
named_nodes-All args = read_string_slice-All args (codes "nodes" ∷ codes "node_ids" ∷ [])

named_groups-All : (args : Fields) → All IsFilled (named_groups args)
named_groups-All args =
    All-append _ _ (read_string_slice-All args (codes "groups" ∷ codes "group_ids" ∷ []))
      (read_string-All args (codes "label" ∷ codes "group" ∷ []))

named_resources-All : (args : Fields) → All IsFilled (named_resources args)
named_resources-All args =
    All-append _ _ (All-append _ _ (read_string_slice-All args _) (read_string-All args _))
      (read_string_slice-All args _)

-- Whatever the arguments of a tool call are, the summary in its log entry lists the nodes and the
-- groups that they name, trimmed, and beside them the other resources that they name; every list is
-- strictly ascending, and no resource is listed as a node or a group too.
pub summarize_targets-IsSummary : (args : Fields) → IsSummary args (summarize_targets args)
unfolding summarize_targets
summarize_targets-IsSummary args =
    let nodes = λ (t : Text). contains-unique_strings (named_nodes args) t (named_nodes-All args) in
    let groups =
      λ (t : Text). contains-unique_strings (named_groups args) t (named_groups-All args) in
    (
      unique_strings-IsAscending (named_nodes args),
      unique_strings-IsAscending (named_groups args),
      diff-IsAscending (unique_strings (named_resources args)) _
          (unique_strings-IsAscending (named_resources args)),
      nodes,
      groups,
      λ t.
          contains-diff (unique_strings (named_resources args)) _ t
          ∙ ground (
            arith,
            contains-unique_strings (named_resources args) t (named_resources-All args),
            contains-append (unique_strings (named_nodes args)) (unique_strings (named_groups args))
                t,
            nodes t,
            groups t,
          ),
    )
