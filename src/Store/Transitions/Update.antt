-- ===== src/Store/Transitions/Update.antt =====
-- `UpdateTransition`, `UpdateTransitionTask` and `GetTransition` of postgres_transition.go.
use chamicore.Prelude.{
  ℕ, Bool, true, false, ◌&&◌, ◌++◌, Option, none, some, Result, ok, err, and_then, is_empty,
  if◌then◌else◌, ◌==◌,
}
use chamicore.Text.{Text, codes}
use chamicore.Text.Trim.{trim_space}
use chamicore.Text.Quote.{quoted}
use chamicore.Dict.{lookup, insert, is_some}
use chamicore.GoError.{GoError, message, sentinel, not_found, prefixed}
use chamicore.Engine.Types.{Transition, Task}
use chamicore.Store.Mappings.Transaction.{rows_affected_as_int}
use chamicore.Store.Transitions.{
  TransitionTables, TransitionSession, or_time, trimmed_task, task_row, is_terminal_task_state,
}
use chamicore.Store.Transitions.Events.{new_transition_task_result_event}
use chamicore.Store.Transitions.Create.{
  admitted, set_local_power_search_path, misplaced, write_event, if_terminal, write_lifecycle_event,
  at_commit, in_transaction,
}

-- `GetTransition`. The error of the query is not `sql.ErrNoRows`, which stands for no row.
abbrev pub found_row : {A : Type 0} → Option GoError → Option A → Result GoError A
found_row (some e) row = err e
found_row none none = err (sentinel not_found)
found_row none (some row) = ok row

unfoldable pub get_transition :
    TransitionSession → Text → TransitionTables → Result GoError Transition
get_transition session id db =
    if is_empty (trim_space id)
    then err (sentinel not_found)
    else found_row session.query (lookup (trim_space id) db.transitions)

-- `if affected == 0 { return ErrNotFound }`.
abbrev pub some_affected : ℕ → Result GoError (Unit {0})
some_affected affected = if affected == 0 then err (sentinel not_found) else ok tt

-- How many rows an update by identifier is about.
abbrev pub rows_of : {A : Type 0} → Option A → ℕ
rows_of none = 0
rows_of (some row) = 1

-- The update statement: its error, or that of the count of rows, or no row.
unfoldable pub update_row :
    {A : Type 0} → TransitionSession → Text → Text → Bool → Option A → Result GoError (Unit {0})
update_row session updating label violated row =
    and_then
      (prefixed updating (admitted (session.statement 0) violated (session.constraint label)))
      (λ done.
        and_then (rows_affected_as_int (session.rows_affected (rows_of row)) label) some_affected)

-- The transition as `UpdateTransition` sets it before its statement, and the row it makes.
abbrev pub identified : ℕ → Transition → Transition
identified now t = record t { id = trim_space t.id; updated_at = or_time t.updated_at now }

abbrev pub updated_row : Transition → Transition → Transition
updated_row t old = record t {
  request_id = trim_space t.request_id;
  operation = trim_space t.operation;
  requested_by = trim_space t.requested_by;
  created_at = old.created_at;
}

abbrev pub with_updated_row : Transition → Option Transition → TransitionTables → TransitionTables
with_updated_row t none db = db
with_updated_row t (some old) db = record db {
  transitions = insert t.id (updated_row t old) db.transitions;
}

unfoldable pub transition_update :
    TransitionSession → Transition → TransitionTables → Result GoError TransitionTables
unfolding update_row write_lifecycle_event
transition_update session t db = and_then (set_local_power_search_path session) (λ path.
    and_then
      (update_row session (codes "updating transition " ++ (quoted t.id ++ codes ": "))
        (codes "transition update") false (lookup t.id db.transitions))
      (λ done.
        write_lifecycle_event session t (with_updated_row t (lookup t.id db.transitions) db)))

-- The read that follows the commit.
abbrev pub then_read :
    {A : Type 0}
    → (TransitionTables → Result GoError A)
    → Result GoError (Unit {0}) × TransitionTables
    → Result GoError A × TransitionTables
then_read read (err e, db) = (err e, db)
then_read read (ok done, db) = (read db, db)

abbrev pub without_answer :
    Result GoError TransitionTables → Result GoError (Unit {0} × TransitionTables)
without_answer (err e) = err e
without_answer (ok db) = ok (tt, db)

-- `if id == "" { return ..., fmt.Errorf(...) }`.
abbrev pub required :
    {A : Type 0}
    → Bool
    → Text
    → TransitionTables
    → Result GoError A × TransitionTables
    → Result GoError A × TransitionTables
required true reason db r = (err (message reason), db)
required false reason db r = r

unfoldable pub update_transition :
    TransitionSession → Transition → TransitionTables → Result GoError Transition × TransitionTables
unfolding transition_update get_transition
update_transition session given db =
    let t = identified (session.clock 0) given in
    required (is_empty t.id) (codes "transition id is required") db (
      then_read (get_transition session t.id) (
        in_transaction (codes "transition update transaction: ") session.begin db (
          at_commit (codes "transition update transaction: ") session.commit db
            (without_answer (transition_update session t db)))))

-- The task as `UpdateTransitionTask` sets it, and the row it makes.
abbrev pub identified_task : ℕ → Task → Task
identified_task now t = record (trimmed_task t) { updated_at = or_time t.updated_at now }

abbrev pub updated_task_row : Task → Task → Task
updated_task_row t old = record (task_row t) { created_at = old.created_at }

abbrev pub with_updated_task_row : Task → Option Task → TransitionTables → TransitionTables
with_updated_task_row t none db = db
with_updated_task_row t (some old) db = record db {
  tasks = insert t.id (updated_task_row t old) db.tasks;
}

-- The event of a task that has come to an end.
unfoldable pub write_updated_task_event :
    TransitionSession → Task → TransitionTables → Result GoError TransitionTables
unfolding write_event
write_updated_task_event session t db = if_terminal (is_terminal_task_state t.state) db (
    write_event session 0 (codes "building transition task event: ")
      (codes "writing transition task outbox event: ")
      (new_transition_task_result_event session 0 t) db)

unfoldable pub task_update :
    TransitionSession → Task → TransitionTables → Result GoError TransitionTables
unfolding update_row write_updated_task_event misplaced
task_update session t db = and_then (set_local_power_search_path session) (λ path.
    and_then
      (update_row session (codes "updating transition task " ++ (quoted t.id ++ codes ": "))
        (codes "transition task update") (is_some (lookup t.id db.tasks) && misplaced t db)
        (lookup t.id db.tasks))
      (λ done.
        write_updated_task_event session t (with_updated_task_row t (lookup t.id db.tasks) db)))

unfoldable pub update_transition_task :
    TransitionSession → Task → TransitionTables → Result GoError Task × TransitionTables
unfolding task_update
update_transition_task session given db =
    let t = identified_task (session.clock 0) given in
    required (is_empty t.id) (codes "task id is required") db (
      then_read (λ new. ok t)
        (in_transaction (codes "transition task update transaction: ") session.begin db (
          at_commit (codes "transition task update transaction: ") session.commit db
            (without_answer (task_update session t db)))))
