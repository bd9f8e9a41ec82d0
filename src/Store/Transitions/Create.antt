-- ===== src/Store/Transitions/Create.antt =====
-- `CreateTransition`, `insertTransitionTx` and `insertTransitionTaskTx` of postgres_transition.go.
use chamicore.Prelude.{
  ℕ, suc, Bool, true, false, not, ◌&&◌, ◌||◌, List, [], ◌∷◌, ◌++◌, Option, none, some, Result, ok,
  err, and_then,
}
use chamicore.Text.{Text, codes, ◌=ₛ◌}
use chamicore.Text.Quote.{quoted}
use chamicore.Dict.{Dict, lookup, insert, is_some}
use chamicore.GoError.{GoError, wrapped, prefixed}
use chamicore.Engine.Types.{Transition, Task}
use chamicore.Store.Transitions.{
  Event, TransitionTables, TransitionSession, clean_transition, clean_task, or_new_id, task_row,
  is_terminal_task_state,
}
use chamicore.Store.Transitions.Events.{
  new_transition_lifecycle_event, new_transition_task_result_event,
}

-- How a statement ends that a key or a reference of its table may rule out.
abbrev pub admitted : Option GoError → Bool → GoError → Result GoError (Unit {0})
admitted (some e) violated refusal = err e
admitted none true refusal = err refusal
admitted none false refusal = ok tt

-- `SET LOCAL search_path TO power`.
abbrev pub set_local_power_search_path : TransitionSession → Result GoError (Unit {0})
set_local_power_search_path session =
    prefixed (codes "setting local search_path: ")
      (admitted session.search_path false (session.constraint []))

-- The row that `insertTransitionTx` writes and scans back.
abbrev pub created_transition : TransitionSession → Transition → Transition
created_transition session t = record (clean_transition (session.clock 0) t) {
  id = or_new_id (clean_transition (session.clock 0) t).id (session.new_id 0);
}

unfoldable pub insert_transition :
    TransitionSession
    → Transition
    → TransitionTables
    → Result GoError (Transition × TransitionTables)
insert_transition session t db =
    let row = created_transition session t in
    and_then
      (prefixed (codes "inserting transition: ") (
        admitted (session.statement 0) (is_some (lookup row.id db.transitions))
          (session.constraint (codes "transitions_pkey"))))
      (λ done. ok (row, record db { transitions = insert row.id row db.transitions }))

-- The task that the n-th insert makes, with the fields that have no column.
abbrev pub created_task : TransitionSession → ℕ → Text → Task → Task
created_task session n transition_id t =
    let row = clean_task (session.clock n) (record t { transition_id = transition_id }) in
    record row { id = or_new_id row.id (session.new_id n) }

-- `UNIQUE (transition_id, node_id)`: whether another row has the pair.
unfoldable pub has_pair : Text → Text → Text → Dict Task → Bool
has_pair id transition_id node_id [] = false
has_pair id transition_id node_id ((k, t) ∷ m) =
    (not (k =ₛ id) && ((t.transition_id =ₛ transition_id) && (t.node_id =ₛ node_id)))
    || has_pair id transition_id node_id m

-- What the reference to the transition and the pair of a task rule out.
unfoldable pub misplaced : Task → TransitionTables → Bool
unfolding has_pair
misplaced t db =
    not (is_some (lookup t.transition_id db.transitions))
    || has_pair t.id t.transition_id t.node_id db.tasks

unfoldable pub insert_transition_task :
    TransitionSession
    → ℕ
    → Text
    → Task
    → TransitionTables
    → Result GoError (Task × TransitionTables)
unfolding misplaced
insert_transition_task session n transition_id t db =
    let row = created_task session n transition_id t in
    and_then
      (prefixed (codes "inserting transition task for node " ++ (quoted row.node_id ++ codes ": "))
        (admitted (session.statement n) (is_some (lookup row.id db.tasks) || misplaced row db)
          (session.constraint (codes "transition_tasks"))))
      (λ done. ok (row, record db { tasks = insert row.id (task_row row) db.tasks }))

-- The loop over the tasks.
unfoldable pub insert_transition_tasks :
    TransitionSession
    → ℕ
    → Text
    → List Task
    → TransitionTables
    → Result GoError (List Task × TransitionTables)
unfolding insert_transition_task
insert_transition_tasks session n id [] db = ok ([], db)
insert_transition_tasks session n id (t ∷ ts) db =
    and_then (insert_transition_task session n id t db) (λ (u, with_task).
      and_then (insert_transition_tasks session (suc n) id ts with_task)
        (λ (us, with_tasks). ok (u ∷ us, with_tasks)))

-- `outbox.WriteContext` for the n-th event.
abbrev pub with_event : Event → TransitionTables → TransitionTables
with_event event db = record db { outbox = db.outbox ++ (event ∷ []) }

unfoldable pub write_event :
    TransitionSession
    → ℕ
    → Text
    → Text
    → Result GoError Event
    → TransitionTables
    → Result GoError TransitionTables
write_event session n building writing event db = and_then (prefixed building event) (λ e.
    and_then
      (prefixed writing
        (admitted (session.write n) false (session.constraint (codes "outbox_pkey"))))
      (λ done. ok (with_event e db)))

abbrev about_node : Text → Task → Text
about_node before t = before ++ (quoted t.node_id ++ codes ": ")

-- `if !isTerminalTaskState(task.State) { continue }`.
abbrev pub if_terminal :
    Bool → TransitionTables → Result GoError TransitionTables → Result GoError TransitionTables
if_terminal true db written = written
if_terminal false db written = ok db

-- One round of the loop over the created tasks.
unfoldable pub write_task_event :
    TransitionSession → ℕ → Task → TransitionTables → Result GoError TransitionTables
unfolding write_event
write_task_event session n t db = if_terminal (is_terminal_task_state t.state) db (
    write_event session n (about_node (codes "building transition task event for node ") t)
      (about_node (codes "writing transition task outbox event for node ") t)
      (new_transition_task_result_event session n t) db)

unfoldable pub write_task_events :
    TransitionSession → ℕ → List Task → TransitionTables → Result GoError TransitionTables
unfolding write_task_event
write_task_events session n [] db = ok db
write_task_events session n (t ∷ ts) db =
    and_then (write_task_event session n t db) (write_task_events session (suc n) ts)

unfoldable pub write_lifecycle_event :
    TransitionSession → Transition → TransitionTables → Result GoError TransitionTables
unfolding write_event
write_lifecycle_event session t =
    write_event session 0 (codes "building transition lifecycle event: ")
      (codes "writing transition lifecycle outbox event: ")
      (new_transition_lifecycle_event session 0 t)

-- The statements between the start of the transaction and its commit.
unfoldable pub creation :
    TransitionSession
    → Transition
    → List Task
    → TransitionTables
    → Result GoError ((Transition × List Task) × TransitionTables)
unfolding insert_transition insert_transition_tasks write_lifecycle_event write_task_events
creation session t ts db = and_then (set_local_power_search_path session) (λ path.
    and_then (insert_transition session t db) (λ (u, with_row).
      and_then (insert_transition_tasks session 1 u.id ts with_row) (λ (us, with_rows).
        and_then (write_lifecycle_event session u with_rows) (λ announced.
          and_then (write_task_events session 1 us announced) (λ new. ok ((u, us), new))))))

-- The end of a transaction: its commit, or the deferred rollback.
abbrev pub at_commit :
    {A : Type 0}
    → Text
    → Option GoError
    → TransitionTables
    → Result GoError (A × TransitionTables)
    → Result GoError A × TransitionTables
at_commit what commit db (err e) = (err e, db)
at_commit what (some e) db (ok r) = (err (wrapped (codes "committing " ++ what) e []), db)
at_commit what none db (ok (a, new)) = (ok a, new)

abbrev pub in_transaction :
    {A : Type 0}
    → Text
    → Option GoError
    → TransitionTables
    → Result GoError A × TransitionTables
    → Result GoError A × TransitionTables
in_transaction what (some e) db r = (err (wrapped (codes "starting " ++ what) e []), db)
in_transaction what none db r = r

-- `CreateTransition`: the answer, and the tables after the commit or the rollback.
unfoldable pub create_transition :
    TransitionSession
    → Transition
    → List Task
    → TransitionTables
    → Result GoError (Transition × List Task) × TransitionTables
unfolding creation
create_transition session t ts db =
    in_transaction (codes "transition transaction: ") session.begin db
      (at_commit (codes "transition transaction: ") session.commit db (creation session t ts db))
