-- ===== src/Store/Transitions/Runner.antt =====
-- The store behind the runner of the engine: a transition is read back as it was created, and the
-- runner is told of the states that it gave.
use chamicore.Prelude.{
  ℕ, suc, ◌≡◌, refl, sym, ◌∙◌, ap, subst, List, [], ◌∷◌, map, none, arith, ok, ◌⊎◌,
}
use chamicore.Text.{Text, =ₛ_iff}
use chamicore.Text.Trim.{trim_space, trim_space_idem}
use chamicore.Dict.{Dict, lookup}
use chamicore.Engine.Types.{Transition, Task, Progress, StartRequest}
use chamicore.Engine.Start.{StartRun, start_transition}
use chamicore.Engine.Start.Registered.{
  state_of, KeepsCreated, IsQuiet, IsLaunched, start_transition-Outcome,
}
use chamicore.Store.Transitions.{TransitionTables, TransitionSession, or_new_id}
use chamicore.Store.Transitions.Create.{create_transition}
use chamicore.Store.Transitions.Inserted.{created_tasks}
use chamicore.Store.Transitions.Created.{IsCreated, Created, create_transition-Created}
use chamicore.Store.Transitions.Update.{found_row, get_transition}
use chamicore.Store.Transitions.Updated.{get_transition-found_row}

Created-ok :
    (session : TransitionSession) (t : Transition) (ts : List Task) (db new : TransitionTables)
    (u : Transition) (us : List Task)
    → create_transition session t ts db ≡ (ok (u, us), new)
    → IsCreated session db t ts u us new
Created-ok session t ts db new u us h =
    subst (Created session db t ts) h (create_transition-Created session t ts db)

or_new_id-trimmed :
    (given made : Text)
    → trim_space made ≡ made
    → trim_space (or_new_id (trim_space given) made) ≡ or_new_id (trim_space given) made
or_new_id-trimmed given made h = ground (arith, h, trim_space_idem given)

-- What `CreateTransition` answers is what `GetTransition` then reads under its identifier, where the
-- database answers; identifiers that the database makes have no spaces around them.
pub get_transition-create_transition :
    (session reader : TransitionSession) (t : Transition) (ts : List Task)
    (db new : TransitionTables) (u : Transition) (us : List Task)
    → trim_space (session.new_id 0) ≡ session.new_id 0
    → reader.query ≡ none
    → create_transition session t ts db ≡ (ok (u, us), new)
    → get_transition reader u.id new ≡ ok u
get_transition-create_transition session reader t ts db new u us made answers h =
    let created = Created-ok session t ts db new u us h in
    let (e, es, outbox, tells, told, named) = created.told in
    let same = ap (λ (x : Transition). x.id) created.made_as.0 in
    let trimmed : trim_space u.id ≡ u.id =
      ap trim_space same ∙ or_new_id-trimmed t.id (session.new_id 0) made ∙ sym same in
    get_transition-found_row reader u.id new named
    ∙ ap (λ k. found_row reader.query (lookup k new.transitions)) trimmed
    ∙ ap (found_row reader.query) (created.transitions_as u.id)
    ∙ ground (arith, answers, =ₛ_iff u.id u.id)

created_tasks-states :
    (session : TransitionSession) (n : ℕ) (id : Text) (ts : List Task)
    → map state_of (created_tasks session n id ts) ≡ map state_of ts
created_tasks-states session n id [] = refl
created_tasks-states session n id (t ∷ ts) =
    ap (λ l. t.state ∷ l) (created_tasks-states session (suc n) id ts)

-- `runnerStore.CreateTransition` of a runner that was given this store.
abbrev pub on_store : TransitionSession → TransitionTables → StartRun → StartRun
on_store session db run = record run { create = λ t ts. (create_transition session t ts db).0 }

IsCreated-keeps :
    (session : TransitionSession) (db new : TransitionTables) (t u : Transition) (ts us : List Task)
    → IsCreated session db t ts u us new
    → (u.success_count ≡ t.success_count)
      × (u.failure_count ≡ t.failure_count)
      × (u.target_count ≡ t.target_count)
      × (map state_of us ≡ map state_of ts)
IsCreated-keeps session db new t u ts us h =
    let (u_as, us_as) = h.made_as in
    (
      ap (λ (x : Transition). x.success_count) u_as,
      ap (λ (x : Transition). x.failure_count) u_as,
      ap (λ (x : Transition). x.target_count) u_as,
      ap (map state_of) us_as ∙ created_tasks-states session 1 u.id ts,
    )

on_store-KeepsCreated :
    (session : TransitionSession) (db : TransitionTables) (run : StartRun)
    → KeepsCreated (on_store session db run)
on_store-KeepsCreated session db run t u ts us h =
    let new = (create_transition session t ts db).1 in
    IsCreated-keeps session db new t u ts us
      (Created-ok session t ts db new u us (ap (λ r. (r, new)) h))

-- A runner on this store, whatever the database answers: a start that is answered with a transition
-- either leaves the entries as they were and enqueues nothing; or the transition has an entry for its
-- pending tasks, of which there is one at least, all in the queue under its identifier, and which are
-- with the failures counted so far its targets.
pub on_store-Outcome :
    (session : TransitionSession) (db : TransitionTables) (run : StartRun) (req : StartRequest)
    (m : Dict Progress) (t : Transition)
    → (start_transition (on_store session db run) req m).answer ≡ ok t
    → IsQuiet m (start_transition (on_store session db run) req m)
      ⊎ IsLaunched t (start_transition (on_store session db run) req m)
on_store-Outcome session db run req m t =
    start_transition-Outcome (on_store session db run) req m t
      (on_store-KeepsCreated session db run)
