-- ===== src/Store/Mappings/Resolve.antt =====
-- The answers of `ResolveNodeMappings`, beside the nodes that were asked for.
use chamicore.Prelude.{
  ◌≡◌, refl, sym, subst, Bool, true, false, not, ◌&&◌, List, [], ◌∷◌, map, Option, none, some,
  arith, Result, ok, err, keep_if, inl, inr, Option-cases, Bool-cases, is_empty, All, if◌then◌else◌,
}
use chamicore.Text.{Text, =ₛ_iff, =ₛ_refl}
use chamicore.Text.Trim.{trim_space, trim_space_idem}
use chamicore.Text.Unique.{contains, IsDistinct, contains-normalized_unique}
use chamicore.Dict.{Dict, lookup, keys, lookup-insert, contains-keys}
use chamicore.GoError.{GoError}
use chamicore.Model.{
  BmcEndpoint, NodeBmcLink, NodePowerMapping, NodeMappingError, missing_node_mapping_error,
  missing_endpoint_error, missing_credential_error,
}
use chamicore.Store.Mappings.{Tables, Session}
use chamicore.Store.Mappings.Query.{
  requested_nodes, query_nodes, joined, joined_row, rows_by_node, resolve_node, resolve_all,
  add_answer, queried, resolve_node_mappings,
}

-- The row of a node in the join of its link with the endpoint.
unfoldable pub link_row : Text → Dict BmcEndpoint → Option NodeBmcLink → Option NodePowerMapping
link_row node endpoints none = none
link_row node endpoints (some l) = joined node l (lookup l.bmc_id endpoints)

lookup-rows_by_node :
    (query : List Text) (endpoints : Dict BmcEndpoint) (links : Dict NodeBmcLink) (k : Text)
    → IsDistinct (keys links)
    → lookup k (rows_by_node query endpoints links)
      ≡ (if contains query k then link_row k endpoints (lookup k links) else none)
unfolding rows_by_node lookup link_row keys
lookup-rows_by_node query endpoints [] k d = ground arith
lookup-rows_by_node query endpoints ((node, l) ∷ links) k d =
    elim (Option-cases (lookup l.bmc_id endpoints)) [
      | inl e ↦ ground (
        arith,
        e,
        =ₛ_iff node k,
        lookup-rows_by_node query endpoints links k d.1,
        contains-keys links k,
        d.0,
      )
      | inr (v, e) ↦ ground (
        arith,
        e,
        =ₛ_iff node k,
        lookup-insert node k (joined_row node l v) (rows_by_node query endpoints links),
        lookup-rows_by_node query endpoints links k d.1,
        contains-keys links k,
        d.0,
      )
    ]

abbrev is_blank : Text → Bool
is_blank t = is_empty (trim_space t)

abbrev usable_row : Option NodePowerMapping → Bool
usable_row none = false
usable_row (some row) = not (is_blank row.endpoint) && not (is_blank row.credential_id)

-- The row that a node has in the tables.
abbrev pub row_of : Tables → Text → Option NodePowerMapping
row_of t node = link_row node t.endpoints (lookup node t.links)

-- A node that has a link, to a BMC that has an endpoint and a credential.
abbrev pub is_usable : Tables → Text → Bool
is_usable t node = usable_row (row_of t node)

abbrev pub mapped_node : NodePowerMapping → Text
mapped_node row = row.node_id

abbrev pub failed_node : NodeMappingError → Text
failed_node e = e.node_id

-- A mapping of the node if it is usable, and an error of the node if it is not.
abbrev Answers : Text → Option NodePowerMapping → Result NodeMappingError NodePowerMapping → Type 0
Answers node joined (ok row) =
    (row.node_id ≡ node) × (usable_row joined ≡ true) × (joined ≡ some row)
Answers node joined (err e) = (e.node_id ≡ node) × (usable_row joined ≡ false)

abbrev IsTrimmed : Text → Type 0
IsTrimmed node = trim_space node ≡ node

requested_nodes-IsTrimmed : (xs : List Text) → All IsTrimmed (requested_nodes xs)
unfolding requested_nodes
requested_nodes-IsTrimmed [] = tt
requested_nodes-IsTrimmed (x ∷ xs) = ground (arith, trim_space_idem x, requested_nodes-IsTrimmed xs)

contains-requested_nodes :
    (xs : List Text) (k : Text) → contains (requested_nodes xs) k ≡ contains (query_nodes xs) k
unfolding requested_nodes query_nodes contains
contains-requested_nodes [] k = ground (arith, contains-normalized_unique [] k)
contains-requested_nodes (x ∷ xs) k = ground (
  arith,
  =ₛ_iff (trim_space x) k,
  contains-requested_nodes xs k,
  contains-normalized_unique xs k,
  contains-normalized_unique (x ∷ xs) k,
)

resolve_node-node :
    (node : Text) (row : Option NodePowerMapping)
    → trim_space node ≡ node
    → ((r : NodePowerMapping) → row ≡ some r → r.node_id ≡ node)
    → Answers node row (resolve_node node row)
unfolding resolve_node missing_node_mapping_error missing_endpoint_error missing_credential_error
resolve_node-node node none trimmed named = (trimmed, refl)
resolve_node-node node (some r) trimmed named =
    elim (Bool-cases (is_empty (trim_space r.endpoint))) [
      | inl e ↦ simp e (trimmed, refl)
      | inr e ↦ elim (Bool-cases (is_empty (trim_space r.credential_id))) [
        | inl f ↦ simp (e, f) (trimmed, refl)
        | inr f ↦ simp (e, f) (named r refl, refl, refl)
      ]
    ]

link_row-node :
    (node : Text) (endpoints : Dict BmcEndpoint) (l : Option NodeBmcLink) (r : NodePowerMapping)
    → link_row node endpoints l ≡ some r
    → r.node_id ≡ node
unfolding link_row
link_row-node node endpoints none r h = ground (arith, h)
link_row-node node endpoints (some l) r h = elim (Option-cases (lookup l.bmc_id endpoints)) [
  | inl e ↦ ground (arith, h, e)
  | inr (v, e) ↦ ground (arith, h, e)
]

abbrev IsAnswered : Dict NodePowerMapping → Tables → Text → Type 0
IsAnswered by_node t node = Answers node (row_of t node) (resolve_node node (lookup node by_node))

All-IsAnswered :
    (query : List Text) (t : Tables) (nodes : List Text)
    → IsDistinct (keys t.links)
    → All IsTrimmed nodes
    → ((node : Text) → contains nodes node ≡ true → contains query node ≡ true)
    → All (IsAnswered (rows_by_node query t.endpoints t.links) t) nodes
unfolding contains
All-IsAnswered query t [] d h within = tt
All-IsAnswered query t (n ∷ ns) d h within = (
  rw (lookup-rows_by_node query t.endpoints t.links n d, within n (ground (arith, =ₛ_refl n)))
      (resolve_node-node n (row_of t n) h.0 (link_row-node n t.endpoints (lookup n t.links))),
  All-IsAnswered query t ns d h.1 (λ k c. within k (ground (arith, c))),
)

-- The mappings are those of the usable nodes and the errors those of the others, in order.
pub record Splits (t : Tables) (nodes : List Text) (resolved : List NodePowerMapping)
    (missing : List NodeMappingError) : Type 0 where
  pub mapped : map mapped_node resolved ≡ keep_if (is_usable t) nodes
  pub unmapped : map failed_node missing ≡ keep_if (λ node. not (is_usable t node)) nodes
  pub rows_as : All (λ (row : NodePowerMapping). row_of t row.node_id ≡ some row) resolved

add_answer-Splits :
    (t : Tables) (node : Text) (nodes : List Text)
    (answer : Result NodeMappingError NodePowerMapping)
    (rest : List NodePowerMapping × List NodeMappingError)
    → Answers node (row_of t node) answer
    → Splits t nodes rest.0 rest.1
    → Splits t (node ∷ nodes) (add_answer answer rest).0 (add_answer answer rest).1
add_answer-Splits t node nodes (ok row) rest a h = record {
  mapped = ground (arith, a.0, a.1, h.mapped);
  unmapped = ground (arith, a.1, h.unmapped);
  rows_as = (subst (λ k. row_of t k ≡ some row) (sym a.0) a.2, h.rows_as);
}
add_answer-Splits t node nodes (err e) rest a h = record {
  mapped = ground (arith, a.1, h.mapped);
  unmapped = ground (arith, a.0, a.1, h.unmapped);
  rows_as = h.rows_as;
}

resolve_all-Splits :
    (by_node : Dict NodePowerMapping) (t : Tables) (nodes : List Text)
    → All (IsAnswered by_node t) nodes
    → Splits t nodes (resolve_all by_node nodes).0 (resolve_all by_node nodes).1
unfolding resolve_all
resolve_all-Splits by_node t [] h = record { mapped = refl; unmapped = refl; rows_as = tt }
resolve_all-Splits by_node t (n ∷ ns) h =
    add_answer-Splits t n ns (resolve_node n (lookup n by_node)) (resolve_all by_node ns) h.0
      (resolve_all-Splits by_node t ns h.1)

abbrev pub Resolved :
    Session
    → Tables
    → List Text
    → Result GoError (List NodePowerMapping × List NodeMappingError)
    → Type 0
Resolved session t nodes (err e) = session.query ≡ some e
Resolved session t nodes (ok (resolved, missing)) = Splits t nodes resolved missing

queried-Resolved :
    (session : Session) (t : Tables) (nodes : List Text) (q : Option GoError)
    (answer : List NodePowerMapping × List NodeMappingError)
    → session.query ≡ q
    → Splits t nodes answer.0 answer.1
    → Resolved session t nodes (if is_empty nodes then ok ([], []) else queried q answer)
queried-Resolved session t [] q answer e h = record { mapped = refl; unmapped = refl; rows_as = tt }
queried-Resolved session t (n ∷ ns) none answer e h = h
queried-Resolved session t (n ∷ ns) (some x) answer e h = e

-- `ResolveNodeMappings` answers an error only if its query does. Otherwise the nodes that were asked
-- for, trimmed and without blank ones, fall in two: those with a link to a BMC whose endpoint and
-- credential are not blank have a mapping, which is the row of their link, and all others have an
-- error; both in the order asked for, and as often. The links table must have one row for each node.
pub resolve_node_mappings-Resolved :
    (session : Session) (node_ids : List Text) (t : Tables)
    → IsDistinct (keys t.links)
    → Resolved session t (requested_nodes node_ids) (resolve_node_mappings session node_ids t)
unfolding resolve_node_mappings
resolve_node_mappings-Resolved session node_ids t d =
    queried-Resolved session t (requested_nodes node_ids) session.query _ refl (
      resolve_all-Splits (rows_by_node (query_nodes node_ids) t.endpoints t.links) t
        (requested_nodes node_ids)
        (All-IsAnswered (query_nodes node_ids) t (requested_nodes node_ids) d
          (requested_nodes-IsTrimmed node_ids)
          (λ k c. ground (arith, contains-requested_nodes node_ids k, c))))
