-- ===== src/Store/Transitions/Created.antt =====
-- The tables after `CreateTransition`.
use chamicore.Prelude.{
  ◌≡◌, refl, sym, ◌∙◌, ap, subst, true, false, List, ◌∷◌, ◌++◌, map, Option, none, some, Result, ok,
  err, and_then-ok, keep_if, is_empty, if◌then◌else◌, ok-injective,
}
use chamicore.Text.{Text, ◌=ₛ◌}
use chamicore.Text.Trim.{trim_space}
use chamicore.Dict.{lookup, insert, lookup-insert, is_some}
use chamicore.GoError.{GoError}
use chamicore.Engine.Types.{Transition, Task}
use chamicore.Store.Table.{find}
use chamicore.Store.Transitions.{Event, TransitionTables, TransitionSession, task_row}
use chamicore.Store.Transitions.Inserted.{
  created_tasks, id_of, else_row, insert_transition-ok, insert_transition_tasks-Inserted,
}
use chamicore.Store.Transitions.Told.{
  TellsTransition, TellsTasks, is_terminal, write_event-ok, lifecycle-Tells,
  write_task_events-Published, first-WithEvents,
}
use chamicore.Store.Transitions.Create.{
  created_transition, insert_transition, insert_transition_tasks, write_task_events,
  write_lifecycle_event, creation, at_commit, in_transaction, create_transition,
  set_local_power_search_path,
}

-- What a creation that went well leaves.
pub record IsCreated (session : TransitionSession) (db : TransitionTables) (t : Transition)
    (ts : List Task) (u : Transition) (us : List Task) (new : TransitionTables) : Type 0 where
  pub made_as : (u ≡ created_transition session t) × (us ≡ created_tasks session 1 u.id ts)
  pub fresh : lookup u.id db.transitions ≡ none
  pub transitions_as :
      (k : Text)
      → lookup k new.transitions ≡ (if u.id =ₛ k then some u else lookup k db.transitions)
  pub tasks_as :
      (k : Text)
      → lookup k new.tasks ≡ else_row (find id_of k (map task_row us)) (lookup k db.tasks)
  pub tasks_fresh :
      (k : Text) → is_some (lookup k db.tasks) ≡ true → find id_of k (map task_row us) ≡ none
  pub told :
      (e : Event) × (es : List Event) × (new.outbox ≡ db.outbox ++ e ∷ es)
      × TellsTransition session u e
      × TellsTasks session (keep_if is_terminal us) es
      × (is_empty (trim_space u.id) ≡ false)

-- The event of the transition comes first.
steps-IsCreated :
    (session : TransitionSession) (t v : Transition) (ts vs : List Task)
    (db with_row with_rows announced last : TransitionTables)
    → insert_transition session t db ≡ ok (v, with_row)
    → insert_transition_tasks session 1 v.id ts with_row ≡ ok (vs, with_rows)
    → write_lifecycle_event session v with_rows ≡ ok announced
    → write_task_events session 1 vs announced ≡ ok last
    → IsCreated session db t ts v vs last
unfolding write_lifecycle_event
steps-IsCreated session t v ts vs db with_row with_rows announced last e1 e2 e3 e4 =
    let row = created_transition session t in
    let (fresh, v_as, row_as) = insert_transition-ok session t db e1 in
    let inserted = insert_transition_tasks-Inserted session 1 v.id ts with_row vs with_rows e2 in
    let (e, built, announced_as) = write_event-ok session 0 _ _ _ with_rows e3 in
    let (es, written, told) = write_task_events-Published session 1 vs announced last e4 in
    let (outbox, transitions, tasks) =
      first-WithEvents e es with_rows announced last announced_as written in
    let (tells, named) = lifecycle-Tells session 0 v e built in
    let with_v =
      row_as
      ∙ ap (λ (x : Transition). record db { transitions = insert x.id x db.transitions })
          (sym v_as) in
    record {
      made_as = (v_as, inserted.made);
      fresh = ap (λ (x : Transition). lookup x.id db.transitions) v_as ∙ fresh;
      transitions_as = λ k.
          ap (lookup k) (transitions ∙ inserted.others.0 ∙ ap (λ m. m.transitions) with_v)
          ∙ lookup-insert v.id k v db.transitions;
      tasks_as = λ k.
          ap (lookup k) tasks
          ∙ inserted.held k
          ∙ ap (λ m. else_row (find id_of k (map task_row vs)) (lookup k m.tasks)) with_v;
      tasks_fresh =
          λ k there. inserted.distinct k (ap (λ m. is_some (lookup k m.tasks)) with_v ∙ there);
      told = (
        e,
        es,
        outbox ∙ ap (λ m. m ++ e ∷ es) (inserted.others.1 ∙ ap (λ m. m.outbox) with_v),
        tells,
        told,
        named,
      );
    }

creation-IsCreated :
    (session : TransitionSession) (t : Transition) (ts : List Task) (db : TransitionTables)
    (u : Transition) (us : List Task) (new : TransitionTables)
    → creation session t ts db ≡ ok ((u, us), new)
    → IsCreated session db t ts u us new
unfolding creation
creation-IsCreated session t ts db u us new h =
    let (path, e0, h0) = and_then-ok (set_local_power_search_path session) _ h in
    let ((v, with_row), e1, h1) = and_then-ok (insert_transition session t db) _ h0 in
    let ((vs, with_rows), e2, h2) =
      and_then-ok (insert_transition_tasks session 1 v.id ts with_row) _ h1 in
    let (announced, e3, h3) = and_then-ok (write_lifecycle_event session v with_rows) _ h2 in
    let (last, e4, h4) = and_then-ok (write_task_events session 1 vs announced) _ h3 in
    subst (λ x. IsCreated session db t ts x.0.0 x.0.1 x.1) (ok-injective h4)
      (steps-IsCreated session t v ts vs db with_row with_rows announced last e1 e2 e3 e4)

-- What a creation answers, and the tables it leaves.
abbrev pub Created :
    TransitionSession
    → TransitionTables
    → Transition
    → List Task
    → Result GoError (Transition × List Task) × TransitionTables
    → Type 0
Created session db t ts (err e, new) = new ≡ db
Created session db t ts (ok (u, us), new) = IsCreated session db t ts u us new

at_commit-Created :
    (session : TransitionSession) (db : TransitionTables) (t : Transition) (ts : List Task)
    (what : Text) (commit : Option GoError)
    (r : Result GoError ((Transition × List Task) × TransitionTables))
    → ((u : Transition) (us : List Task) (new : TransitionTables)
        → r ≡ ok ((u, us), new)
        → IsCreated session db t ts u us new)
    → Created session db t ts (at_commit what commit db r)
at_commit-Created session db t ts what commit (err e) h = refl
at_commit-Created session db t ts what (some e) (ok r) h = refl
at_commit-Created session db t ts what none (ok ((u, us), new)) h = h u us new refl

in_transaction-Created :
    (session : TransitionSession) (db : TransitionTables) (t : Transition) (ts : List Task)
    (what : Text) (begin : Option GoError)
    (r : Result GoError (Transition × List Task) × TransitionTables)
    → Created session db t ts r
    → Created session db t ts (in_transaction what begin db r)
in_transaction-Created session db t ts what (some e) r h = refl
in_transaction-Created session db t ts what none r h = h

-- Whatever the database, the clock, the random bytes and the encoder answer, `CreateTransition`
-- either answers an error and leaves the tables and the outbox as they were, or afterwards the tables
-- hold the transition and the tasks that it answers under identifiers that were not there, beside all
-- that they held, and the outbox has at its end one lifecycle event of the transition and then one
-- result event for each task in a terminal state, in order, each with the encoded payload of what it
-- is about. The answers are what was given, trimmed, with the times and identifiers that were missing.
pub create_transition-Created :
    (session : TransitionSession) (t : Transition) (ts : List Task) (db : TransitionTables)
    → Created session db t ts (create_transition session t ts db)
unfolding create_transition
create_transition-Created session t ts db =
    in_transaction-Created session db t ts _ session.begin _ (
      at_commit-Created session db t ts _ session.commit _
        (λ u us new h. creation-IsCreated session t ts db u us new h))
