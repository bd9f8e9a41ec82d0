-- ===== src/Store/Transitions/Updated.antt =====
-- The tables after `UpdateTransition`, and what is read back.
use chamicore.Prelude.{
  ℕ, ◌≡◌, ◌≢◌, refl, sym, ◌∙◌, ap, subst, ◌⊎◌, inl, inr, Bool, true, false, [], ◌∷◌, ◌++◌, Option,
  none, some, arith, Result, ok, err, and_then-ok, ok-injective, is_empty,
}
use chamicore.Prelude.Int.{ℤ, pos_part}
use chamicore.Text.{Text, codes, =ₛ_iff}
use chamicore.Text.Trim.{trim_space, trim_space_idem}
use chamicore.Text.Quote.{quoted}
use chamicore.Dict.{Dict, lookup, insert, lookup-insert, is_some}
use chamicore.GoError.{GoError, prefixed}
use chamicore.Engine.Types.{Transition}
use chamicore.Store.Mappings.Transaction.{rows_affected_as_int}
use chamicore.Store.Transitions.{Event, TransitionTables, TransitionSession}
use chamicore.Store.Transitions.Create.{
  admitted, set_local_power_search_path, with_event, write_lifecycle_event, at_commit,
  in_transaction,
}
use chamicore.Store.Transitions.Told.{TellsTransition, admitted-ok, write_event-ok, lifecycle-Tells}
use chamicore.Store.Transitions.Update.{
  found_row, get_transition, some_affected, rows_of, update_row, identified, updated_row,
  with_updated_row, transition_update, required, then_read, without_answer, update_transition,
}

-- An update that is about no row counts none.
abbrev pub CountsRows : TransitionSession → Type 0
CountsRows session = (n : ℤ) → session.rows_affected 0 ≡ ok n → pos_part n ≡ 0

rows_affected_as_int-ok :
    (r : Result GoError ℤ) (label : Text) {n : ℕ}
    → rows_affected_as_int r label ≡ ok n
    → (z : ℤ) × (r ≡ ok z) × (pos_part z ≡ n)
unfolding rows_affected_as_int
rows_affected_as_int-ok (ok z) label h = (z, refl, ok-injective h)
rows_affected_as_int-ok (err e) label h = absurd (ground (arith, h))

some_affected-ok : (n : ℕ) {a : Unit {0}} → some_affected n ≡ ok a → n ≢ 0
some_affected-ok n h e = ground (arith, h, e)

some_row :
    {A : Type 0} (session : TransitionSession) (row : Option A) (z : ℤ)
    → CountsRows session
    → session.rows_affected (rows_of row) ≡ ok z
    → pos_part z ≢ 0
    → (old : A) × (row ≡ some old)
some_row session none z counts h positive = absurd (positive (counts z h))
some_row session (some old) z counts h positive = (old, refl)

-- An update that went well was about a row, and broke no constraint.
pub update_row-ok :
    {A : Type 0} (session : TransitionSession) (updating label : Text) (violated : Bool)
    (row : Option A) {a : Unit {0}}
    → CountsRows session
    → update_row session updating label violated row ≡ ok a
    → (violated ≡ false) × ((old : A) × (row ≡ some old))
unfolding update_row
update_row-ok session updating label violated row counts h =
    let (done, e, f) =
      and_then-ok
        (prefixed updating (admitted (session.statement 0) violated (session.constraint label))) _
        h in
    let (n, counted, g) =
      and_then-ok (rows_affected_as_int (session.rows_affected (rows_of row)) label) some_affected
        f in
    let (z, answer, same) =
      rows_affected_as_int-ok (session.rows_affected (rows_of row)) label counted in
    (
      admitted-ok updating (session.statement 0) violated (session.constraint label) e,
      some_row session row z counts answer
          (λ none_counted. some_affected-ok n g (sym same ∙ none_counted)),
    )

-- The row of a transition updated, and its event at the end of the outbox.
abbrev pub IsUpdated : TransitionSession → Transition → TransitionTables → TransitionTables → Type 0
IsUpdated session t db new =
    (old : Transition) × (e : Event) × (lookup t.id db.transitions ≡ some old)
    × (new.transitions ≡ insert t.id (updated_row t old) db.transitions)
    × (new.tasks ≡ db.tasks)
    × (new.outbox ≡ db.outbox ++ e ∷ [])
    × TellsTransition session t e

transition_update-IsUpdated :
    (session : TransitionSession) (t : Transition) (db new : TransitionTables)
    → CountsRows session
    → transition_update session t db ≡ ok new
    → IsUpdated session t db new
unfolding transition_update write_lifecycle_event
transition_update-IsUpdated session t db new counts h =
    let (path, e0, h0) = and_then-ok (set_local_power_search_path session) _ h in
    let (done, e1, h1) =
      and_then-ok
        (update_row session (codes "updating transition " ++ (quoted t.id ++ codes ": "))
          (codes "transition update") false (lookup t.id db.transitions))
        _ h0 in
    let (unbroken, (old, there)) =
      update_row-ok session _ _ false (lookup t.id db.transitions) counts e1 in
    let (e, built, new_as) = write_event-ok session 0 _ _ _ _ h1 in
    let at_row = new_as ∙ ap (λ row. with_event e (with_updated_row t row db)) there in
    (
      old,
      e,
      there,
      ap (λ m. m.transitions) at_row,
      ap (λ m. m.tasks) at_row,
      ap (λ m. m.outbox) at_row,
      (lifecycle-Tells session 0 t e built).0,
    )

-- What an update answers, and the tables it leaves: the error may be that of the read which follows
-- the commit.
abbrev pub Updated :
    TransitionSession
    → Transition
    → TransitionTables
    → Result GoError Transition × TransitionTables
    → Type 0
Updated session t db (err x, new) =
    (new ≡ db) ⊎ (IsUpdated session t db new × (session.query ≡ some x))
Updated session t db (ok u, new) =
    IsUpdated session t db new × (lookup t.id new.transitions ≡ some u)

found_row-Updated :
    (session : TransitionSession) (t : Transition) (db new : TransitionTables)
    (query : Option GoError) (row : Option Transition)
    → session.query ≡ query
    → lookup t.id new.transitions ≡ row
    → is_some row ≡ true
    → IsUpdated session t db new
    → Updated session t db (found_row query row, new)
found_row-Updated session t db new (some x) row q r there h = inr (h, q)
found_row-Updated session t db new none (some row) q r there h = (h, r)
found_row-Updated session t db new none none q r there h = absurd (ground (arith, there))

pub get_transition-found_row :
    (session : TransitionSession) (id : Text) (db : TransitionTables)
    → is_empty (trim_space id) ≡ false
    → get_transition session id db ≡ found_row session.query (lookup (trim_space id) db.transitions)
unfolding get_transition
get_transition-found_row session id db h = ground (arith, h)

insert-found_row : {V : Type 0} (k : Text) (v : V) (m : Dict V) → lookup k (insert k v m) ≡ some v
insert-found_row k v m = ground (arith, lookup-insert k k v m, =ₛ_iff k k)

read-Updated :
    (session : TransitionSession) (t : Transition) (db new : TransitionTables)
    → trim_space t.id ≡ t.id
    → is_empty t.id ≡ false
    → IsUpdated session t db new
    → Updated session t db (get_transition session t.id new, new)
read-Updated session t db new trimmed named h =
    let (old, e, there, transitions, tasks, outbox, tells) = h in
    subst (λ a. Updated session t db (a, new))
      (sym (
        get_transition-found_row session t.id new (ap is_empty trimmed ∙ named)
        ∙ ap (λ k. found_row session.query (lookup k new.transitions)) trimmed))
      (found_row-Updated session t db new session.query (lookup t.id new.transitions) refl refl
        (ap is_some
          (ap (lookup t.id) transitions ∙ insert-found_row t.id (updated_row t old) db.transitions))
        h)

at_commit-Updated :
    (session : TransitionSession) (t : Transition) (db : TransitionTables) (what : Text)
    (begin commit : Option GoError) (r : Result GoError TransitionTables)
    → trim_space t.id ≡ t.id
    → is_empty t.id ≡ false
    → ((new : TransitionTables) → r ≡ ok new → IsUpdated session t db new)
    → Updated session t db (
        then_read
          (get_transition session t.id)
          (in_transaction what begin db (at_commit what commit db (without_answer r))))
at_commit-Updated session t db what (some x) commit r trimmed named h = inl refl
at_commit-Updated session t db what none commit (err x) trimmed named h = inl refl
at_commit-Updated session t db what none (some x) (ok new) trimmed named h = inl refl
at_commit-Updated session t db what none none (ok new) trimmed named h =
    read-Updated session t db new trimmed named (h new refl)

required-Updated :
    (session : TransitionSession) (t : Transition) (db : TransitionTables) (reason : Text)
    (blank : Bool) (r : Result GoError Transition × TransitionTables)
    → (blank ≡ false → Updated session t db r)
    → Updated session t db (required blank reason db r)
required-Updated session t db reason true r h = inl refl
required-Updated session t db reason false r h = h refl

-- Where an update of no row counts none: `UpdateTransition` either answers an error and leaves the
-- tables and the outbox as they were; or there was a row of the identifier, which now has the values
-- that were given, trimmed, under its own creation time, the rows of tasks are as they were, and one
-- lifecycle event of the transition is new at the end of the outbox. Then it answers the new row, or
-- the error of the read that follows the commit.
pub update_transition-Updated :
    (session : TransitionSession) (t : Transition) (db : TransitionTables)
    → CountsRows session
    → Updated session (identified (session.clock 0) t) db (update_transition session t db)
unfolding update_transition
update_transition-Updated session t db counts =
    required-Updated session (identified (session.clock 0) t) db _ _ _ (λ named.
      at_commit-Updated session (identified (session.clock 0) t) db _ session.begin session.commit
        (transition_update session (identified (session.clock 0) t) db) (trim_space_idem t.id) named
        (λ new h. transition_update-IsUpdated session _ db new counts h))
