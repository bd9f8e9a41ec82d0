-- ===== src/Store/Transitions/TaskUpdated.antt =====
-- The tables after `UpdateTransitionTask`.
use chamicore.Prelude.{
  ◌≡◌, refl, ◌∙◌, ap, Bool, true, false, [], ◌∷◌, ◌++◌, Option, none, some, arith, Result, ok, err,
  and_then-ok, List, keep_if, ◌&&◌,
}
use chamicore.Text.{Text, codes}
use chamicore.Text.Quote.{quoted}
use chamicore.Dict.{lookup, insert, is_some}
use chamicore.GoError.{GoError}
use chamicore.Engine.Types.{Task}
use chamicore.Store.Transitions.{Event, TransitionTables, TransitionSession}
use chamicore.Store.Transitions.Create.{
  set_local_power_search_path, misplaced, at_commit, in_transaction,
}
use chamicore.Store.Transitions.Told.{TellsTasks, is_terminal, if_terminal-TaskWritten}
use chamicore.Store.Transitions.Update.{
  update_row, required, then_read, without_answer, identified_task, updated_task_row,
  with_updated_task_row, write_updated_task_event, task_update, update_transition_task,
}
use chamicore.Store.Transitions.Updated.{CountsRows, update_row-ok}

-- The row of a task updated, and its event at the end of the outbox where it is terminal.
abbrev pub IsTaskUpdated : TransitionSession → Task → TransitionTables → TransitionTables → Type 0
IsTaskUpdated session t db new =
    (old : Task) × (es : List Event) × (lookup t.id db.tasks ≡ some old)
    × (misplaced t db ≡ false)
    × (new.transitions ≡ db.transitions)
    × (new.tasks ≡ insert t.id (updated_task_row t old) db.tasks)
    × (new.outbox ≡ db.outbox ++ es)
    × TellsTasks session (keep_if is_terminal (t ∷ [])) es

task_update-IsTaskUpdated :
    (session : TransitionSession) (t : Task) (db new : TransitionTables)
    → CountsRows session
    → task_update session t db ≡ ok new
    → IsTaskUpdated session t db new
unfolding task_update write_updated_task_event
task_update-IsTaskUpdated session t db new counts h =
    let (path, e0, h0) = and_then-ok (set_local_power_search_path session) _ h in
    let (done, e1, h1) =
      and_then-ok
        (update_row session (codes "updating transition task " ++ (quoted t.id ++ codes ": "))
          (codes "transition task update") (is_some (lookup t.id db.tasks) && misplaced t db)
          (lookup t.id db.tasks))
        _ h0 in
    let (unbroken, (old, there)) = update_row-ok session _ _ _ (lookup t.id db.tasks) counts e1 in
    let (es, (outbox, transitions, tasks), told) =
      if_terminal-TaskWritten session 0 _ _ t _ new (is_terminal t) refl h1 in
    let mid = ap (λ row. with_updated_task_row t row db) there in
    (
      old,
      es,
      there,
      ground (arith, unbroken, there),
      transitions ∙ ap (λ m. m.transitions) mid,
      tasks ∙ ap (λ m. m.tasks) mid,
      outbox ∙ ap (λ m. m.outbox ++ es) mid,
      told,
    )

abbrev pub TaskUpdated :
    TransitionSession → Task → TransitionTables → Result GoError Task × TransitionTables → Type 0
TaskUpdated session t db (err x, new) = new ≡ db
TaskUpdated session t db (ok u, new) = (u ≡ t) × IsTaskUpdated session t db new

at_commit-TaskUpdated :
    (session : TransitionSession) (t : Task) (db : TransitionTables) (reason what : Text)
    (blank : Bool) (begin commit : Option GoError) (r : Result GoError TransitionTables)
    → ((new : TransitionTables) → r ≡ ok new → IsTaskUpdated session t db new)
    → TaskUpdated session t db (
        required blank reason db (
          then_read
            (λ new. ok t)
            (in_transaction what begin db (at_commit what commit db (without_answer r)))))
at_commit-TaskUpdated session t db reason what true begin commit r h = refl
at_commit-TaskUpdated session t db reason what false (some x) commit r h = refl
at_commit-TaskUpdated session t db reason what false none commit (err x) h = refl
at_commit-TaskUpdated session t db reason what false none (some x) (ok new) h = refl
at_commit-TaskUpdated session t db reason what false none none (ok new) h = (refl, h new refl)

-- Where an update of no row counts none: `UpdateTransitionTask` either answers an error and leaves
-- the tables and the outbox as they were; or it answers the task that was given, trimmed; there was a
-- row of its identifier, which now has its values under the creation time of the row, its transition
-- has a row and no other task has its transition and node; and the outbox has one new event where the
-- task is in a terminal state, which tells of it, and none otherwise.
pub update_transition_task-TaskUpdated :
    (session : TransitionSession) (t : Task) (db : TransitionTables)
    → CountsRows session
    → TaskUpdated session
        (identified_task (session.clock 0) t)
        db
        (update_transition_task session t db)
unfolding update_transition_task
update_transition_task-TaskUpdated session t db counts =
    at_commit-TaskUpdated session (identified_task (session.clock 0) t) db _ _ _ session.begin
      session.commit _ (λ new h. task_update-IsTaskUpdated session _ db new counts h)
