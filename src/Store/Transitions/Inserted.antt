-- ===== src/Store/Transitions/Inserted.antt =====
-- The rows that `insertTransitionTx` and `insertTransitionTaskTx` leave.
use chamicore.Prelude.{
  ℕ, suc, ◌≡◌, refl, sym, ◌∙◌, ap, subst, Bool, true, false, ◌||◌, List, [], ◌∷◌, ◌++◌, map, Option,
  none, some, arith, Result, ok, and_then, and_then-ok, ok-injective,
}
use chamicore.Text.{Text, codes, =ₛ_iff}
use chamicore.Text.Quote.{quoted}
use chamicore.Dict.{lookup, insert, lookup-insert, is_some}
use chamicore.GoError.{GoError, prefixed}
use chamicore.Engine.Types.{Transition, Task}
use chamicore.Store.Table.{find}
use chamicore.Store.Transitions.{TransitionTables, TransitionSession, task_row}
use chamicore.Store.Transitions.Told.{admitted-ok}
use chamicore.Store.Transitions.Create.{
  admitted, created_transition, created_task, insert_transition, insert_transition_task,
  insert_transition_tasks, misplaced,
}

abbrev pub created_tasks : TransitionSession → ℕ → Text → List Task → List Task
created_tasks session n id [] = []
created_tasks session n id (t ∷ ts) =
    created_task session n id t ∷ created_tasks session (suc n) id ts

abbrev pub id_of : Task → Text
id_of t = t.id

abbrev pub else_row : {A : Type 0} → Option A → Option A → Option A
else_row none o = o
else_row (some a) o = some a

pub ok-pair :
    {A B : Type 0} {a c : A} {b d : B}
    → (let r : Result GoError (A × B) = ok (a, b) in r ≡ ok (c, d))
    → (c ≡ a) × (d ≡ b)
ok-pair h = let e = sym (ok-injective h) in (ap (λ p. p.0) e, ap (λ p. p.1) e)

pub is_some-none : {A : Type 0} (o : Option A) → is_some o ≡ false → o ≡ none
is_some-none none h = refl
is_some-none (some a) h = absurd (ground (arith, h))

pub insert_transition-ok :
    (session : TransitionSession) (t : Transition) (db : TransitionTables) {u : Transition}
    {new : TransitionTables}
    → insert_transition session t db ≡ ok (u, new)
    → let row = created_transition session t in
      (lookup row.id db.transitions ≡ none)
      × (u ≡ row)
      × (new ≡ record db { transitions = insert row.id row db.transitions })
unfolding insert_transition
insert_transition-ok session t db h =
    let row = created_transition session t in
    let (done, e, f) =
      and_then-ok
        (prefixed (codes "inserting transition: ") (
          admitted (session.statement 0) (is_some (lookup row.id db.transitions))
            (session.constraint (codes "transitions_pkey"))))
        (λ done. ok (row, record db { transitions = insert row.id row db.transitions })) h in
    let (u_as, new_as) = ok-pair f in
    (is_some-none (lookup row.id db.transitions) (admitted-ok _ _ _ _ e), u_as, new_as)

or-false : (a b : Bool) → a || b ≡ false → (a ≡ false) × (b ≡ false)
or-false false b h = (refl, h)
or-false true b h = absurd (ground (arith, h))

insert_transition_task-ok :
    (session : TransitionSession) (n : ℕ) (id : Text) (t : Task) (db : TransitionTables) {u : Task}
    {new : TransitionTables}
    → insert_transition_task session n id t db ≡ ok (u, new)
    → let row = created_task session n id t in
      (lookup row.id db.tasks ≡ none)
      × (misplaced row db ≡ false)
      × (u ≡ row)
      × (new ≡ record db { tasks = insert row.id (task_row row) db.tasks })
unfolding insert_transition_task
insert_transition_task-ok session n id t db h =
    let row = created_task session n id t in
    let (done, e, f) =
      and_then-ok
        (prefixed
          (codes "inserting transition task for node " ++ (quoted row.node_id ++ codes ": "))
          (admitted (session.statement n) (is_some (lookup row.id db.tasks) || misplaced row db)
            (session.constraint (codes "transition_tasks"))))
        (λ done. ok (row, record db { tasks = insert row.id (task_row row) db.tasks })) h in
    let (fresh, placed) = or-false (is_some (lookup row.id db.tasks)) _ (admitted-ok _ _ _ _ e) in
    let (u_as, new_as) = ok-pair f in
    (is_some-none (lookup row.id db.tasks) fresh, placed, u_as, new_as)

-- What the loop over the tasks leaves: rows that were not there, beside those that were.
pub record Inserted (session : TransitionSession) (n : ℕ) (id : Text) (ts us : List Task)
    (db new : TransitionTables) : Type 0 where
  pub made : us ≡ created_tasks session n id ts
  pub others : (new.transitions ≡ db.transitions) × (new.outbox ≡ db.outbox)
  pub held :
      (k : Text)
      → lookup k new.tasks ≡ else_row (find id_of k (map task_row us)) (lookup k db.tasks)
  pub distinct :
      (k : Text) → is_some (lookup k db.tasks) ≡ true → find id_of k (map task_row us) ≡ none

abbrev with_task_row : Task → TransitionTables → TransitionTables
with_task_row row db = record db { tasks = insert row.id (task_row row) db.tasks }

cons-Inserted :
    (session : TransitionSession) (n : ℕ) (id : Text) (t : Task) (ts us : List Task)
    (db last : TransitionTables)
    → let row = created_task session n id t in
      lookup row.id db.tasks ≡ none
      → Inserted session (suc n) id ts us (with_task_row row db) last
      → Inserted session n id (t ∷ ts) (row ∷ us) db last
unfolding find
cons-Inserted session n id t ts us db last fresh more =
    let row = created_task session n id t in
    record {
      made = ap (λ us. row ∷ us) more.made;
      others = more.others;
      held = λ k. ground (
        arith,
        more.held k,
        more.distinct k,
        lookup-insert row.id k (task_row row) db.tasks,
        =ₛ_iff row.id k,
      );
      distinct = λ k there. ground (
        arith,
        more.distinct k,
        there,
        fresh,
        lookup-insert row.id k (task_row row) db.tasks,
        =ₛ_iff row.id k,
      );
    }

pub insert_transition_tasks-Inserted :
    (session : TransitionSession) (n : ℕ) (id : Text) (ts : List Task) (db : TransitionTables)
    (us : List Task) (new : TransitionTables)
    → insert_transition_tasks session n id ts db ≡ ok (us, new)
    → Inserted session n id ts us db new
unfolding insert_transition_tasks find
insert_transition_tasks-Inserted session n id [] db us new h =
    let (e, f) = ok-pair h in
    subst (λ us. Inserted session n id [] us db new) (sym e)
      (subst (Inserted session n id [] [] db) (sym f)
        (record { made = refl; others = (refl, refl); held = λ k. refl; distinct = λ k o. refl }))
insert_transition_tasks-Inserted session n id (t ∷ ts) db us new h =
    let ((u, with_task), e, f) =
      and_then-ok (insert_transition_task session n id t db)
        (λ (u, with_task).
          and_then (insert_transition_tasks session (suc n) id ts with_task)
            (λ (us, with_tasks). ok (u ∷ us, with_tasks)))
        h in
    let ((rest, last), e2, f2) =
      and_then-ok (insert_transition_tasks session (suc n) id ts with_task)
        (λ (us, with_tasks). ok (u ∷ us, with_tasks)) f in
    let (fresh, placed, u_as, with_as) = insert_transition_task-ok session n id t db e in
    let (us_as, new_as) = ok-pair f2 in
    let more = insert_transition_tasks-Inserted session (suc n) id ts with_task rest last e2 in
    subst (λ us. Inserted session n id (t ∷ ts) us db new) (sym (us_as ∙ ap (λ u. u ∷ rest) u_as))
      (subst (Inserted session n id (t ∷ ts) (created_task session n id t ∷ rest) db) (sym new_as) (
        cons-Inserted session n id t ts rest db last fresh
          (subst (λ mid. Inserted session (suc n) id ts rest mid last) with_as more)))
