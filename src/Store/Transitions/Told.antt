-- ===== src/Store/Transitions/Told.antt =====
-- What the events tell that the store writes to the outbox, and when they are written.
use chamicore.Prelude.{
  ℕ, suc, ◌≡◌, refl, sym, ◌∙◌, ap, subst, Bool, true, false, List, [], ◌∷◌, ◌++◌, Option, none,
  some, arith, Result, ok, inl, inr, and_then, and_then-ok, keep_if, is_empty, Bool-cases,
  ok-injective,
}
use mathlib.Core.List.{append_assoc, append-nil}
use chamicore.Text.{Text, codes}
use chamicore.Text.Trim.{trim_space}
use chamicore.GoError.{GoError, prefixed, prefixed-ok}
use chamicore.Engine.Types.{Transition, Task}
use chamicore.Store.Transitions.{
  Event, TransitionTables, TransitionSession, Payload, lifecycle, task_result,
  is_terminal_task_state,
}
use chamicore.Store.Transitions.Events.{
  transition_lifecycle_event_type, transition_task_result_event_type, lifecycle_data,
  task_result_data, build_event, event_of, new_transition_event_id, new_transition_lifecycle_event,
  new_transition_task_result_event,
}
use chamicore.Store.Transitions.Create.{
  admitted, with_event, write_event, write_task_event, if_terminal, write_task_events,
}

-- An event that tells of what it is about: its kind, its subject, and the payload encoded.
abbrev pub Tells : TransitionSession → Text → Text → Payload → Event → Type 0
Tells session kind subject body e =
    (e.event_type ≡ kind) × (e.subject ≡ subject) × (session.marshal body ≡ ok e.payload)

abbrev pub TellsTransition : TransitionSession → Transition → Event → Type 0
TellsTransition session t =
    Tells session transition_lifecycle_event_type (trim_space t.id) (lifecycle (lifecycle_data t))

abbrev pub TellsTask : TransitionSession → Task → Event → Type 0
TellsTask session t =
    Tells session transition_task_result_event_type (trim_space t.node_id)
      (task_result (task_result_data t))

abbrev pub is_terminal : Task → Bool
is_terminal t = is_terminal_task_state t.state

-- One event for each terminal task, in order.
abbrev pub TellsTasks : TransitionSession → List Task → List Event → Type 0
TellsTasks session [] [] = Unit
TellsTasks session [] (e ∷ es) = ⊥
TellsTasks session (t ∷ ts) [] = ⊥
TellsTasks session (t ∷ ts) (e ∷ es) = TellsTask session t e × TellsTasks session ts es

pub admitted-ok :
    (before : Text) (o : Option GoError) (violated : Bool) (refusal : GoError) {a : Unit {0}}
    → prefixed before (admitted o violated refusal) ≡ ok a
    → violated ≡ false
admitted-ok before none false refusal h = refl
admitted-ok before none true refusal h = absurd (ground (arith, h))
admitted-ok before (some e) violated refusal h = absurd (ground (arith, h))

-- An event that was written stands at the end of the outbox.
pub write_event-ok :
    (session : TransitionSession) (n : ℕ) (building writing : Text) (event : Result GoError Event)
    (db : TransitionTables) {new : TransitionTables}
    → write_event session n building writing event db ≡ ok new
    → (e : Event) × (event ≡ ok e) × (new ≡ with_event e db)
unfolding write_event
write_event-ok session n building writing event db h =
    let (e, built, f) =
      and_then-ok (prefixed building event)
        (λ e.
          and_then
            (prefixed writing
              (admitted (session.write n) false (session.constraint (codes "outbox_pkey"))))
            (λ done. ok (with_event e db)))
        h in
    let (done, written, g) =
      and_then-ok
        (prefixed writing
          (admitted (session.write n) false (session.constraint (codes "outbox_pkey"))))
        (λ done. ok (with_event e db)) f in
    (e, prefixed-ok building event built, sym (ok-injective g))

build_event-Tells :
    (session : TransitionSession) (n : ℕ) (kind subject what : Text) (body : Payload) (e : Event)
    → build_event session n kind subject what body ≡ ok e
    → Tells session kind subject body e
unfolding build_event
build_event-Tells session n kind subject what body e h =
    let encoded =
      prefixed (codes "marshaling transition " ++ (what ++ codes " payload: "))
        (session.marshal body) in
    let (id, made, f) =
      and_then-ok (new_transition_event_id (session.random n))
        (λ id. and_then encoded (λ payload. ok (event_of session id kind subject payload))) h in
    let (payload, done, g) =
      and_then-ok encoded (λ payload. ok (event_of session id kind subject payload)) f in
    subst (Tells session kind subject body) (ok-injective g)
      (refl, refl, prefixed-ok _ (session.marshal body) done)

-- An event about a transition is built only where it has an identifier.
pub lifecycle-Tells :
    (session : TransitionSession) (n : ℕ) (t : Transition) (e : Event)
    → new_transition_lifecycle_event session n t ≡ ok e
    → TellsTransition session t e × (is_empty (trim_space t.id) ≡ false)
unfolding new_transition_lifecycle_event
lifecycle-Tells session n t e h = elim (Bool-cases (is_empty (trim_space t.id))) [
  | inl blank ↦ absurd (ground (arith, h, blank))
  | inr named ↦
      (build_event-Tells session n _ _ (codes "lifecycle") _ e (ground (arith, h, named)), named)
]

pub task_result-Tells :
    (session : TransitionSession) (n : ℕ) (t : Task) (e : Event)
    → new_transition_task_result_event session n t ≡ ok e
    → TellsTask session t e
unfolding new_transition_task_result_event
task_result-Tells session n t e h =
    build_event-Tells session n _ _ (codes "task") _ e (ground (arith, h))

-- The events that were written, behind those that the outbox had; the rows are as they were.
abbrev pub WithEvents : TransitionTables → List Event → TransitionTables → Type 0
WithEvents db es new =
    (new.outbox ≡ db.outbox ++ es) × (new.transitions ≡ db.transitions) × (new.tasks ≡ db.tasks)

abbrev pub Published : TransitionSession → List Task → TransitionTables → TransitionTables → Type 0
Published session ts db new =
    (es : List Event) × WithEvents db es new × TellsTasks session (keep_if is_terminal ts) es

pub first-WithEvents :
    (e : Event) (es : List Event) (db mid new : TransitionTables)
    → mid ≡ with_event e db
    → WithEvents mid es new
    → WithEvents db (e ∷ es) new
first-WithEvents e es db mid new h (outbox, transitions, tasks) = (
  outbox ∙ ap (λ m. m.outbox ++ es) h ∙ append_assoc db.outbox (e ∷ []) es,
  transitions ∙ ap (λ m. m.transitions) h,
  tasks ∙ ap (λ m. m.tasks) h,
)

kept-other :
    (t : Task) (ts : List Task)
    → is_terminal t ≡ false
    → keep_if is_terminal (t ∷ ts) ≡ keep_if is_terminal ts
kept-other t ts h = ground (arith, h)

kept-terminal :
    (t : Task) (ts : List Task)
    → is_terminal t ≡ true
    → keep_if is_terminal (t ∷ ts) ≡ t ∷ keep_if is_terminal ts
kept-terminal t ts h = ground (arith, h)

-- A task is either terminal, and its event is written, or nothing is.
abbrev pub TaskWritten : TransitionSession → Task → TransitionTables → TransitionTables → Type 0
TaskWritten session t db mid =
    (es : List Event) × WithEvents db es mid × TellsTasks session (keep_if is_terminal (t ∷ [])) es

pub if_terminal-TaskWritten :
    (session : TransitionSession) (n : ℕ) (building writing : Text) (t : Task)
    (db mid : TransitionTables) (b : Bool)
    → is_terminal t ≡ b
    → if_terminal b db
        (write_event session n building writing (new_transition_task_result_event session n t) db)
      ≡ ok mid
    → TaskWritten session t db mid
if_terminal-TaskWritten session n building writing t db mid false other h = (
  [],
  subst (WithEvents db []) (ok-injective h) (sym (append-nil db.outbox), refl, refl),
  subst (λ ts. TellsTasks session ts []) (sym (kept-other t [] other)) tt,
)
if_terminal-TaskWritten session n building writing t db mid true terminal h =
    let (e, built, mid_as) = write_event-ok session n building writing _ db h in
    (
      e ∷ [],
      subst (WithEvents db (e ∷ [])) (sym mid_as) (refl, refl, refl),
      subst (λ ts. TellsTasks session ts (e ∷ [])) (sym (kept-terminal t [] terminal))
          (task_result-Tells session n t e built, tt),
    )

TellsTasks-append :
    (session : TransitionSession) (ts us : List Task) (es fs : List Event)
    → TellsTasks session ts es
    → TellsTasks session us fs
    → TellsTasks session (ts ++ us) (es ++ fs)
TellsTasks-append session [] us [] fs h k = k
TellsTasks-append session [] us (e ∷ es) fs h k = absurd h
TellsTasks-append session (t ∷ ts) us [] fs h k = absurd h
TellsTasks-append session (t ∷ ts) us (e ∷ es) fs (first, h) k =
    (first, TellsTasks-append session ts us es fs h k)

keep_if-cons :
    (t : Task) (ts : List Task)
    → keep_if is_terminal (t ∷ ts) ≡ keep_if is_terminal (t ∷ []) ++ keep_if is_terminal ts
keep_if-cons t ts = ground arith

WithEvents-append :
    (es fs : List Event) (db mid new : TransitionTables)
    → WithEvents db es mid
    → WithEvents mid fs new
    → WithEvents db (es ++ fs) new
WithEvents-append es fs db mid new (o, t, k) (o', t', k') =
    (o' ∙ ap (λ l. l ++ fs) o ∙ append_assoc db.outbox es fs, t' ∙ t, k' ∙ k)

pub write_task_events-Published :
    (session : TransitionSession) (n : ℕ) (ts : List Task) (db new : TransitionTables)
    → write_task_events session n ts db ≡ ok new
    → Published session ts db new
unfolding write_task_events write_task_event
write_task_events-Published session n [] db new h =
    ([], subst (WithEvents db []) (ok-injective h) (sym (append-nil db.outbox), refl, refl), tt)
write_task_events-Published session n (t ∷ ts) db new h =
    let (mid, e, f) =
      and_then-ok (write_task_event session n t db) (write_task_events session (suc n) ts) h in
    let (es, written, told) =
      if_terminal-TaskWritten session n _ _ t db mid (is_terminal t) refl e in
    let (fs, rest, more) = write_task_events-Published session (suc n) ts mid new f in
    (
      es ++ fs,
      WithEvents-append es fs db mid new written rest,
      subst (λ ts. TellsTasks session ts (es ++ fs)) (sym (keep_if-cons t ts))
          (TellsTasks-append session (keep_if is_terminal (t ∷ [])) (keep_if is_terminal ts) es fs
            told more),
    )
