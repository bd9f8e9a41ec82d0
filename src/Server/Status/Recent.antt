-- ===== src/Server/Status/Recent.antt =====
-- `taskByNode`, filled with what the store of transitions answers.
use chamicore.Prelude.{
  ◌≡◌, refl, sym, ◌∙◌, ap, subst, inl, inr, true, List, [], ◌∷◌, map, Option, none, some, arith,
  All, Bool-cases,
}
use chamicore.Text.{Text, =ₛ_iff}
use chamicore.Text.Trim.{trim_space}
use chamicore.Text.Order.{◌<ₛ◌, <ₛ_irrefl, IsAscending}
use chamicore.Text.Unique.{contains}
use chamicore.Dict.{Dict, lookup, insert, lookup-insert}
use chamicore.Engine.Types.{Task}
use chamicore.Store.Table.{find}
use chamicore.Store.Mappings.Query.{query_nodes}
use chamicore.Store.Transitions.Latest.{node_id_of, IsRow, IsLatest, IsLatestByNode}
use chamicore.Server.Status.{task_by_node}
use chamicore.Server.Status.Asked.{IsClean, query_nodes-IsClean, query_nodes-contains}

abbrev or_else : Option Task → Option Task → Option Task
or_else none o = o
or_else (some t) o = some t

-- No row of a list whose nodes are all after a node is found under it.
find-below :
    (x : Text) (ts : List Task)
    → All (λ y. (x <ₛ y) ≡ true) (map node_id_of ts)
    → find node_id_of x ts ≡ none
unfolding find
find-below x [] h = refl
find-below x (t ∷ ts) (p, h) = ground (arith, p, <ₛ_irrefl x, =ₛ_iff t.node_id x, find-below x ts h)

IsRow-below :
    (x : Text) (ts : List Task) (t : Task)
    → All (λ y. (x <ₛ y) ≡ true) (map node_id_of ts)
    → IsRow t ts
    → (x <ₛ t.node_id) ≡ true
IsRow-below x (r ∷ ts) t (p, h) (inl same) = ap (λ u. x <ₛ node_id_of u) same ∙ p
IsRow-below x (r ∷ ts) t (p, h) (inr row) = IsRow-below x ts t h row
IsRow-below x [] t h row = absurd row

-- A row of a list that is ascending by its nodes is found under its node.
find-IsRow :
    (ts : List Task) (t : Task)
    → IsAscending (map node_id_of ts)
    → IsRow t ts
    → find node_id_of t.node_id ts ≡ some t
unfolding find
find-IsRow [] t asc row = absurd row
find-IsRow (r ∷ ts) t (below, asc) (inl same) =
    ground (arith, (=ₛ_iff r.node_id t.node_id).1 (sym (ap node_id_of same)), same)
find-IsRow (r ∷ ts) t (below, asc) (inr row) = ground (
  arith,
  IsRow-below r.node_id ts t below row,
  <ₛ_irrefl r.node_id,
  =ₛ_iff r.node_id t.node_id,
  find-IsRow ts t asc row,
)

-- The map that the loop fills from rows with distinct, clean nodes answers as a search for the node.
lookup-task_by_node :
    (m : Dict Task) (ts : List Task) (k : Text)
    → IsAscending (map node_id_of ts)
    → ((t : Task) → IsRow t ts → IsClean t.node_id)
    → lookup k (task_by_node m ts) ≡ or_else (find node_id_of k ts) (lookup k m)
unfolding task_by_node find
lookup-task_by_node m [] k asc clean = refl
lookup-task_by_node m (r ∷ ts) k (below, asc) clean =
    let (same, full) = clean r (inl refl) in
    ground (
      arith,
      lookup-task_by_node (insert (trim_space r.node_id) r m) ts k asc (λ t row. clean t (inr row)),
      same,
      full,
      lookup-insert (trim_space r.node_id) k r m,
      =ₛ_iff r.node_id k,
      find-below r.node_id ts below,
    )

latest-IsClean :
    (nodes : List Text) (rows ts : List Task) (t : Task)
    → IsLatestByNode nodes rows ts
    → IsRow t ts
    → IsClean t.node_id
latest-IsClean nodes rows ts t (asc, asked, other) row =
    elim (Bool-cases (contains (query_nodes nodes) t.node_id)) [
      | inl e ↦ query_nodes-IsClean nodes t.node_id e
      | inr e ↦ absurd (ground (arith, other t.node_id e, find-IsRow ts t asc row))
    ]

or_else-none : (o : Option Task) → or_else o none ≡ o
or_else-none none = refl
or_else-none (some t) = refl

-- What the map of tasks holds for a node of the query is the latest row of the node.
pub task_by_node-IsLatest :
    (nodes : List Text) (rows ts : List Task) (n : Text)
    → IsLatestByNode nodes rows ts
    → IsClean n
    → contains nodes n ≡ true
    → IsLatest n rows (lookup n (task_by_node [] ts))
unfolding lookup
task_by_node-IsLatest nodes rows ts n latest clean there =
    let found : lookup n (task_by_node [] ts) ≡ find node_id_of n ts =
      lookup-task_by_node [] ts n latest.0 (λ t row. latest-IsClean nodes rows ts t latest row)
      ∙ or_else-none (find node_id_of n ts) in
    subst (IsLatest n rows) (sym found) (latest.1 n (query_nodes-contains nodes n clean there))
