-- ===== src/Store/Transitions/Latest.antt =====
-- What `ListLatestTransitionTasksByNode` and `ListTransitionTasks` select.
use chamicore.Prelude.{
  ◌≡◌, ◌≢◌, refl, sym, ◌∙◌, ap, subst, ◌⊎◌, inl, inr, Bool, true, false, List, [], ◌∷◌, map, Option,
  none, some, arith, ok, is_empty, All, Option-cases, if◌then◌else◌, ok-injective,
}
use chamicore.Text.{Text, ◌=ₛ◌, =ₛ_iff}
use chamicore.Text.Order.{◌<ₛ◌, sort_strings, IsAscending}
use chamicore.Text.Unique.{
  contains, contains-sort_strings, sort_strings-IsAscending, normalized_unique-IsDistinct,
}
use chamicore.GoError.{GoError}
use chamicore.Engine.Types.{Task}
use chamicore.Store.Table.{find}
use chamicore.Store.Mappings.Query.{query_nodes, queried}
use chamicore.Store.Transitions.{TransitionTables, TransitionSession}
use chamicore.Store.Transitions.Query.{
  values, is_later, latest_of, latest_task, with_task, latest_tasks,
  list_latest_transition_tasks_by_node,
}

abbrev pub node_id_of : Task → Text
node_id_of t = t.node_id

-- Whether a row is among others.
abbrev pub IsRow : Task → List Task → Type 0
IsRow t [] = ⊥
IsRow t (r ∷ rows) = (t ≡ r) ⊎ IsRow t rows

-- The latest row of a node: it is one of its rows, and no other row of the node is later.
abbrev pub IsLatest : Text → List Task → Option Task → Type 0
IsLatest node rows none = All (λ r. r.node_id ≢ node) rows
IsLatest node rows (some t) =
    (t.node_id ≡ node) × IsRow t rows × All (λ r. r.node_id ≡ node → is_later r t ≡ false) rows

weaken-All :
    {P Q : Task → Type 0} (rows : List Task) → ((r : Task) → P r → Q r) → All P rows → All Q rows
weaken-All [] f h = tt
weaken-All (r ∷ rows) f (p, h) = (f r p, weaken-All rows f h)

is_later-asym : (a b : Task) → is_later a b ≡ true → is_later b a ≡ false
is_later-asym a b h = ground (arith, h)

is_later-cotrans :
    (a b c : Task) → is_later c b ≡ false → is_later b a ≡ false → is_later c a ≡ false
is_later-cotrans a b c h k = ground (arith, h, k)

is_later_irrefl : (a : Task) → is_later a a ≡ false
is_later_irrefl a = ground arith

pick-IsLatest :
    (node : Text) (t u : Task) (rows : List Task) (b : Bool)
    → is_later u t ≡ b
    → t.node_id ≡ node
    → IsLatest node rows (some u)
    → IsLatest node (t ∷ rows) (some (if b then u else t))
pick-IsLatest node t u rows true later e (same, there, last) =
    (same, inr there, ((λ x. is_later-asym u t later), last))
pick-IsLatest node t u rows false earlier e (same, there, last) = (
  e,
  inl refl,
  ((λ x. is_later_irrefl t), weaken-All rows (λ r h x. is_later-cotrans t u r (h x) earlier) last),
)

first-IsLatest :
    (node : Text) (t : Task) (rows : List Task) (o : Option Task)
    → t.node_id ≡ node
    → IsLatest node rows o
    → IsLatest node (t ∷ rows) (some (latest_of t o))
first-IsLatest node t rows none e h = (
  e,
  inl refl,
  ((λ x. is_later_irrefl t), weaken-All rows (λ r other same. absurd (other same)) h),
)
first-IsLatest node t rows (some u) e h = pick-IsLatest node t u rows (is_later u t) refl e h

other-IsLatest :
    (node : Text) (t : Task) (rows : List Task) (o : Option Task)
    → t.node_id ≢ node
    → IsLatest node rows o
    → IsLatest node (t ∷ rows) o
other-IsLatest node t rows none ne h = (ne, h)
other-IsLatest node t rows (some u) ne (same, there, last) =
    (same, inr there, ((λ e. absurd (ne e)), last))

chosen-IsLatest :
    (node : Text) (t : Task) (rows : List Task) (o : Option Task) (b : Bool)
    → (t.node_id =ₛ node) ≡ b
    → IsLatest node rows o
    → IsLatest node (t ∷ rows) (if b then some (latest_of t o) else o)
chosen-IsLatest node t rows o true e h =
    first-IsLatest node t rows o (ground (arith, e, =ₛ_iff t.node_id node)) h
chosen-IsLatest node t rows o false e h =
    other-IsLatest node t rows o (λ same. ground (arith, e, same, =ₛ_iff t.node_id node)) h

latest_task-IsLatest : (node : Text) (rows : List Task) → IsLatest node rows (latest_task node rows)
unfolding latest_task
latest_task-IsLatest node [] = tt
latest_task-IsLatest node (t ∷ rows) =
    chosen-IsLatest node t rows (latest_task node rows) (t.node_id =ₛ node) refl
      (latest_task-IsLatest node rows)

latest_task-node :
    (node : Text) (rows : List Task) (t : Task) → latest_task node rows ≡ some t → t.node_id ≡ node
latest_task-node node rows t h = (subst (IsLatest node rows) h (latest_task-IsLatest node rows)).0

-- The row of a node in the answer.
find-latest_tasks :
    (nodes : List Text) (rows : List Task) (x : Text)
    → find node_id_of x (latest_tasks nodes rows)
      ≡ (if contains nodes x then latest_task x rows else none)
unfolding latest_tasks find contains
find-latest_tasks [] rows x = refl
find-latest_tasks (n ∷ nodes) rows x = elim (Option-cases (latest_task n rows)) [
  | inl e ↦ ground (arith, find-latest_tasks nodes rows x, =ₛ_iff n x, e)
  | inr (t, e) ↦
      ground (arith, find-latest_tasks nodes rows x, =ₛ_iff n x, e, latest_task-node n rows t e)
]

with_task-All :
    (P : Text → Type 0) (node : Text) (o : Option Task) (ts : List Task)
    → ((t : Task) → o ≡ some t → t.node_id ≡ node)
    → P node
    → All P (map node_id_of ts)
    → All P (map node_id_of (with_task o ts))
with_task-All P node none ts same p h = h
with_task-All P node (some t) ts same p h = (subst P (sym (same t refl)) p, h)

-- What holds of all nodes holds of the nodes of the answer.
All-latest_tasks :
    (P : Text → Type 0) (nodes : List Text) (rows : List Task)
    → All P nodes
    → All P (map node_id_of (latest_tasks nodes rows))
unfolding latest_tasks
All-latest_tasks P [] rows h = tt
All-latest_tasks P (n ∷ nodes) rows (p, h) =
    with_task-All P n (latest_task n rows) (latest_tasks nodes rows) (latest_task-node n rows) p
      (All-latest_tasks P nodes rows h)

with_task-IsAscending :
    (node : Text) (o : Option Task) (ts : List Task)
    → ((t : Task) → o ≡ some t → t.node_id ≡ node)
    → All (λ x. (node <ₛ x) ≡ true) (map node_id_of ts)
    → IsAscending (map node_id_of ts)
    → IsAscending (map node_id_of (with_task o ts))
with_task-IsAscending node none ts same below h = h
with_task-IsAscending node (some t) ts same below h =
    (subst (λ n. All (λ x. (n <ₛ x) ≡ true) (map node_id_of ts)) (sym (same t refl)) below, h)

latest_tasks-IsAscending :
    (nodes : List Text) (rows : List Task)
    → IsAscending nodes
    → IsAscending (map node_id_of (latest_tasks nodes rows))
unfolding latest_tasks
latest_tasks-IsAscending [] rows h = tt
latest_tasks-IsAscending (n ∷ nodes) rows (below, h) =
    with_task-IsAscending n (latest_task n rows) (latest_tasks nodes rows) (latest_task-node n rows)
      (All-latest_tasks (λ x. (n <ₛ x) ≡ true) nodes rows below)
      (latest_tasks-IsAscending nodes rows h)

-- The answer for the nodes of a request: the latest row of each, and no other.
abbrev pub IsLatestByNode : List Text → List Task → List Task → Type 0
IsLatestByNode node_ids rows ts =
    IsAscending (map node_id_of ts)
    × ((n : Text)
        → contains (query_nodes node_ids) n ≡ true
        → IsLatest n rows (find node_id_of n ts))
    × ((n : Text) → contains (query_nodes node_ids) n ≡ false → find node_id_of n ts ≡ none)

latest_tasks-IsLatestByNode :
    (node_ids : List Text) (rows : List Task)
    → IsLatestByNode node_ids rows (latest_tasks (sort_strings (query_nodes node_ids)) rows)
unfolding query_nodes
latest_tasks-IsLatestByNode node_ids rows =
    let found = find-latest_tasks (sort_strings (query_nodes node_ids)) rows in
    let asked = contains-sort_strings (query_nodes node_ids) in
    (
      latest_tasks-IsAscending (sort_strings (query_nodes node_ids)) rows
          (sort_strings-IsAscending (query_nodes node_ids) (normalized_unique-IsDistinct node_ids)),
      λ n there.
          subst (IsLatest n rows)
            (sym (found n ∙ ap (λ b. if b then latest_task n rows else none) (asked n ∙ there)))
            (latest_task-IsLatest n rows),
      λ n gone. ground (arith, found n, asked n, gone),
    )

answered_by :
    (nodes : List Text) (query : Option GoError) (rows ts : List Task)
    → (if is_empty nodes then ok [] else queried query (latest_tasks (sort_strings nodes) rows))
      ≡ ok ts
    → latest_tasks (sort_strings nodes) rows ≡ ts
unfolding sort_strings latest_tasks
answered_by [] query rows ts h = ok-injective h
answered_by (n ∷ nodes) none rows ts h = ok-injective h
answered_by (n ∷ nodes) (some x) rows ts h = absurd (ground (arith, h))

-- Unless it answers an error, `ListLatestTransitionTasksByNode` answers at most one task for each node,
-- in ascending order of the nodes: for a node that was asked for, trimmed and not blank, one of its
-- rows than which no other row of the node was updated later, nor at the same time and created later,
-- or none where the node has no row; for any other node none.
pub list_latest-IsLatestByNode :
    (session : TransitionSession) (node_ids : List Text) (db : TransitionTables) (ts : List Task)
    → list_latest_transition_tasks_by_node session node_ids db ≡ ok ts
    → IsLatestByNode node_ids (values db.tasks) ts
unfolding list_latest_transition_tasks_by_node
list_latest-IsLatestByNode session node_ids db ts h =
    subst (IsLatestByNode node_ids (values db.tasks))
      (answered_by (query_nodes node_ids) session.query (values db.tasks) ts h)
      (latest_tasks-IsLatestByNode node_ids (values db.tasks))
