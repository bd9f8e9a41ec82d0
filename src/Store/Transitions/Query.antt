-- ===== src/Store/Transitions/Query.antt =====
-- `ListTransitions`, `ListTransitionTasks` and `ListLatestTransitionTasksByNode` of
-- postgres_transition.go. The database compares texts byte by byte; where the order of two rows is
-- left open, it is that of the table.
use chamicore.Prelude.{
  ℕ, Bool, ◌&&◌, ◌||◌, List, [], ◌∷◌, Option, none, some, Result, ok, err, and_then, length,
  is_empty, keep_if, ltb, ◌==◌, if◌then◌else◌,
}
use chamicore.Prelude.Int.{ℤ, pos, negsuc, pos_part}
use chamicore.Prelude.Sort.{take, drop, sort_by}
use chamicore.Text.{Text, codes, ◌=ₛ◌}
use chamicore.Text.Trim.{trim_space}
use chamicore.Text.Order.{◌<ₛ◌, sort_strings}
use chamicore.Dict.{Dict}
use chamicore.GoError.{GoError, wrapped}
use chamicore.Engine.Types.{Transition, Task}
use chamicore.Store.Mappings.Query.{query_nodes, queried}
use chamicore.Store.Transitions.{TransitionTables, TransitionSession}

abbrev default_transition_page_limit : ℕ
default_transition_page_limit = 100

abbrev max_transition_page_limit : ℕ
max_transition_page_limit = 1000

unfoldable pub normalize_transition_page_limit : ℤ → ℕ
normalize_transition_page_limit (negsuc n) = default_transition_page_limit
normalize_transition_page_limit (pos n) =
    if n == 0
    then default_transition_page_limit
    else if ltb max_transition_page_limit n
    then max_transition_page_limit
    else n

-- The rows of a table.
abbrev pub values : {V : Type 0} → Dict V → List V
values [] = []
values ((k, v) ∷ m) = v ∷ values m

-- `ORDER BY queued_at DESC, id DESC`.
abbrev pub is_newer : Transition → Transition → Bool
is_newer a b = ltb b.queued_at a.queued_at || (a.queued_at == b.queued_at && b.id <ₛ a.id)

unfoldable pub newest_first : Dict Transition → List Transition
newest_first m = sort_by is_newer (values m)

abbrev counted : Option GoError → ℕ → Result GoError ℕ
counted (some e) total = err (wrapped (codes "counting transitions: ") e [])
counted none total = ok total

-- A negative offset counts as 0, also in `safeUint64`.
unfoldable pub list_transitions :
    TransitionSession → ℤ → ℤ → TransitionTables → Result GoError (List Transition × ℕ)
unfolding normalize_transition_page_limit newest_first
list_transitions session limit offset db =
    and_then (counted session.count (length db.transitions)) (λ total.
      and_then
        (queried session.query (
          take (normalize_transition_page_limit limit)
            (drop (pos_part offset) (newest_first db.transitions))))
        (λ items. ok (items, total)))

-- `ORDER BY node_id ASC`.
abbrev pub is_node_before : Task → Task → Bool
is_node_before a b = a.node_id <ₛ b.node_id

abbrev pub is_task_of : Text → Task → Bool
is_task_of id t = t.transition_id =ₛ id

unfoldable pub list_transition_tasks :
    TransitionSession → Text → TransitionTables → Result GoError (List Task)
list_transition_tasks session id db =
    if is_empty (trim_space id)
    then ok []
    else queried session.query
        (sort_by is_node_before (keep_if (is_task_of (trim_space id)) (values db.tasks)))

-- `ORDER BY updated_at DESC, created_at DESC`, for the rows of one node.
abbrev pub is_later : Task → Task → Bool
is_later a b =
    ltb b.updated_at a.updated_at || (a.updated_at == b.updated_at && ltb b.created_at a.created_at)

abbrev pub latest_of : Task → Option Task → Task
latest_of t none = t
latest_of t (some u) = if is_later u t then u else t

-- What `DISTINCT ON (node_id)` keeps of the rows of a node; the answer is in the order of the nodes.
unfoldable pub latest_task : Text → List Task → Option Task
latest_task node [] = none
latest_task node (t ∷ ts) =
    let rest = latest_task node ts in if t.node_id =ₛ node then some (latest_of t rest) else rest

abbrev pub with_task : Option Task → List Task → List Task
with_task none ts = ts
with_task (some t) ts = t ∷ ts

unfoldable pub latest_tasks : List Text → List Task → List Task
unfolding latest_task
latest_tasks [] rows = []
latest_tasks (node ∷ nodes) rows = with_task (latest_task node rows) (latest_tasks nodes rows)

unfoldable pub list_latest_transition_tasks_by_node :
    TransitionSession → List Text → TransitionTables → Result GoError (List Task)
unfolding latest_tasks query_nodes
list_latest_transition_tasks_by_node session node_ids db =
    if is_empty (query_nodes node_ids)
    then ok []
    else queried session.query
        (latest_tasks (sort_strings (query_nodes node_ids)) (values db.tasks))
