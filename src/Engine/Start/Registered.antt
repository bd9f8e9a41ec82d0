-- ===== src/Engine/Start/Registered.antt =====
-- What a started transition leaves behind, on every path of `StartTransition`.
use chamicore.Prelude.{
  ℕ, suc, ◌+◌, ◌<◌, ◌≡◌, refl, sym, ◌∙◌, ap, subst, ◌⊎◌, inl, inr, Bool, true, false, ◌||◌, List,
  [], ◌∷◌, Option, none, some, map, arith, Result, ok, err, length, count_if, keep_if,
  length-keep_if, is_empty, ◌==◌, if◌then◌else◌, Bool-cases, Option-cases, All,
}
use chamicore.Text.{Text, =ₛ_refl}
use chamicore.Dict.{Dict, lookup, insert, lookup-insert}
use chamicore.GoError.{GoError}
use chamicore.Model.{NodePowerMapping, NodeMappingError}
use chamicore.Engine.Types.{Task, TaskState, Transition, Progress, StartRequest, ResetOperation}
use chamicore.Engine.System.{QueuedTask, new_progress}
use chamicore.Engine.Start.{
  Request, plan_for, is_pending, planned_transition, ends_at_once, StartRun, Started, enqueue_all,
  queued_tasks, launch, created, updated, resolved, parsed, start_transition, after_enqueue,
  normalize_node_ids,
}
use chamicore.Engine.Start.Counts.{plan_for-counts}

-- What the store documents of `CreateTransition`: the counters of the transition are stored as given,
-- and the tasks with their states, in order.
abbrev pub state_of : Task → TaskState
state_of t = t.state

abbrev pub KeepsCreated : StartRun → Type 0
KeepsCreated run =
    (t u : Transition) (ts us : List Task)
    → run.create t ts ≡ ok (u, us)
    → (u.success_count ≡ t.success_count)
      × (u.failure_count ≡ t.failure_count)
      × (u.target_count ≡ t.target_count)
      × (map state_of us ≡ map state_of ts)

-- Nothing was registered and nothing enqueued.
abbrev pub IsQuiet : Dict Progress → Started → Type 0
IsQuiet m s = (s.progress ≡ m) × (s.enqueued ≡ [])

-- The transition has an entry for at least one task, all of its pending tasks are in the queue, and
-- they make up, with the failures counted so far, its targets.
abbrev pub IsLaunched : Transition → Started → Type 0
IsLaunched t s =
    (0 < length s.enqueued)
    × (All (λ q. q.transition_id ≡ t.id) s.enqueued)
    × (lookup t.id s.progress ≡ some (new_progress t (length s.enqueued)))
    × (t.success_count ≡ 0)
    × (t.failure_count + length s.enqueued ≡ t.target_count)

enqueue_all-ok :
    (enqueue : ℕ → Option GoError) (n : ℕ) (qs : List QueuedTask)
    → (enqueue_all enqueue n qs).1 ≡ none
    → (enqueue_all enqueue n qs).0 ≡ qs
unfolding enqueue_all
enqueue_all-ok enqueue n [] h = refl
enqueue_all-ok enqueue n (q ∷ qs) h = elim (Option-cases (enqueue n)) [
  | inr (e, full) ↦ absurd (ground arith)
  | inl room ↦ ground (arith, enqueue_all-ok enqueue (suc n) qs)
]

queued_tasks-own :
    (operation : ResetOperation) (id : Text) (ts : List Task)
    → All (λ q. q.transition_id ≡ id) (queued_tasks operation id ts)
queued_tasks-own operation id [] = tt
queued_tasks-own operation id (t ∷ ts) = (refl, queued_tasks-own operation id ts)

length-queued_tasks :
    (operation : ResetOperation) (id : Text) (ts : List Task)
    → length (queued_tasks operation id ts) ≡ length ts
length-queued_tasks operation id [] = refl
length-queued_tasks operation id (t ∷ ts) = omega (arith, length-queued_tasks operation id ts)

count_pending : List TaskState → ℕ
count_pending [] = 0
count_pending (s ∷ ss) = let rest = count_pending ss in if is_pending s then suc rest else rest

count_pending-map :
    (ts : List Task)
    → count_pending (map state_of ts) ≡ count_if (λ (t : Task). is_pending t.state) ts
unfolding count_pending
count_pending-map [] = refl
count_pending-map (t ∷ ts) = ground (arith, count_pending-map ts)

after_enqueue-ok :
    (t u : Transition) (m : Dict Progress) (r : List QueuedTask × Option GoError)
    → (after_enqueue t m r).answer ≡ ok u
    → (u ≡ t)
      × (r.1 ≡ none)
      × ((after_enqueue t m r).progress ≡ m)
      × ((after_enqueue t m r).enqueued ≡ r.0)
after_enqueue-ok t u m (entered, none) h = (cc, refl, refl, refl)
after_enqueue-ok t u m (entered, some e) h = absurd (cc)

-- A launched state, given by its parts.
IsLaunched-of :
    (t : Transition) (s : Started) (m : Dict Progress) (qs : List QueuedTask) (n : ℕ)
    → s.enqueued ≡ qs
    → s.progress ≡ insert t.id (new_progress t n) m
    → length qs ≡ n
    → All (λ q. q.transition_id ≡ t.id) qs
    → 0 < n
    → t.success_count ≡ 0
    → t.failure_count + n ≡ t.target_count
    → IsLaunched t s
IsLaunched-of t s m qs n entered entry size own some_task zero sum =
    let size' : length s.enqueued ≡ n = ap length entered ∙ size in
    (
      omega (arith, size'),
      subst (All (λ q. q.transition_id ≡ t.id)) (sym entered) own,
      ap (lookup t.id) entry
          ∙ lookup-insert t.id t.id (new_progress t n) m
          ∙ rw (=ₛ_refl t.id, size'),
      zero,
      omega (arith, size', sum),
    )

launch-IsLaunched :
    (run : StartRun) (operation : ResetOperation) (m : Dict Progress) (t u : Transition)
    (ts : List Task)
    → t.success_count ≡ 0
    → t.failure_count + count_if (λ (x : Task). is_pending x.state) ts ≡ t.target_count
    → 0 < count_if (λ (x : Task). is_pending x.state) ts
    → (launch run operation m t ts).answer ≡ ok u
    → (u ≡ t) × IsLaunched t (launch run operation m t ts)
unfolding launch
launch-IsLaunched run operation m t u ts zero sum some_task h =
    let pending = keep_if (λ (x : Task). is_pending x.state) ts in
    let qs = queued_tasks operation t.id pending in
    let size = length-keep_if (λ (x : Task). is_pending x.state) ts in
    let (same, room, entry, entered) =
      after_enqueue-ok t u (insert t.id (new_progress t (length pending)) m)
        (enqueue_all run.enqueue 0 qs) h in
    (
      same,
      IsLaunched-of t (launch run operation m t ts) m qs (length pending)
          (entered ∙ enqueue_all-ok run.enqueue 0 qs room) entry
          (length-queued_tasks operation t.id pending) (queued_tasks-own operation t.id pending)
          (omega (arith, size, some_task)) zero (omega (arith, size, sum)),
    )

updated-IsQuiet : (m : Dict Progress) (r : Result GoError Transition) → IsQuiet m (updated m r)
updated-IsQuiet m (ok t) = (refl, refl)
updated-IsQuiet m (err e) = (refl, refl)

abbrev Outcome : Dict Progress → Transition → Started → Type 0
Outcome m t s = IsQuiet m s ⊎ IsLaunched t s

created-Outcome :
    (run : StartRun) (operation : ResetOperation) (at_once : Bool) (m : Dict Progress)
    (r : Result GoError (Transition × List Task)) (t : Transition)
    → ((u : Transition) (us : List Task)
        → r ≡ ok (u, us)
        → at_once ≡ false
        → (u.success_count ≡ 0)
          × (u.failure_count + count_if (λ (x : Task). is_pending x.state) us ≡ u.target_count)
          × (0 < count_if (λ (x : Task). is_pending x.state) us))
    → (created run operation at_once m r).answer ≡ ok t
    → Outcome m t (created run operation at_once m r)
created-Outcome run operation at_once m (err e) t keep h = inl (refl, refl)
created-Outcome run operation true m (ok (u, us)) t keep h = inl (updated-IsQuiet m _)
created-Outcome run operation false m (ok (u, us)) t keep h =
    let (zero, sum, some_task) = keep u us refl refl in
    let (same, launched) = launch-IsLaunched run operation m u t us zero sum some_task h in
    inr (subst (λ v. IsLaunched v (launch run operation m u us)) (sym same) launched)

positive : (dry : Bool) (n : ℕ) → (dry || n == 0) ≡ false → 0 < n
positive dry n h = ground arith

-- What is stored for a plan that waits for its tasks.
stored-counts :
    (run : StartRun) (req : StartRequest) (q : Request) (mappings : List NodePowerMapping)
    (missing : List NodeMappingError) (node_ids : List Text) (u : Transition) (us : List Task)
    → KeepsCreated run
    → q.dry_run ≡ req.dry_run
    → let plan = plan_for q mappings missing node_ids in
      run.create (planned_transition req q node_ids plan) plan.tasks ≡ ok (u, us)
      → ends_at_once req plan ≡ false
      → (u.success_count ≡ 0)
        × (u.failure_count + count_if (λ (x : Task). is_pending x.state) us ≡ u.target_count)
        × (0 < count_if (λ (x : Task). is_pending x.state) us)
unfolding planned_transition
stored-counts run req q mappings missing node_ids u us keep same e waits =
    let plan = plan_for q mappings missing node_ids in
    let (zero, failures, targets, states) =
      keep (planned_transition req q node_ids plan) u plan.tasks us e in
    let (nodes, failed, pending, all_counted, none_pending) =
      plan_for-counts q mappings missing node_ids in
    let carried : count_if (λ (x : Task). is_pending x.state) us ≡ plan.pending_count =
      sym (count_pending-map us)
      ∙ ap count_pending states
      ∙ count_pending-map plan.tasks
      ∙ sym pending in
    let wet : req.dry_run ≡ false = ground arith in
    let total = all_counted (same ∙ wet) in
    (
      zero,
      omega (arith, failures, targets, carried, total),
      omega (arith, carried, positive (req.dry_run) plan.pending_count waits),
    )

resolved-Outcome :
    (run : StartRun) (req : StartRequest) (operation : ResetOperation) (node_ids : List Text)
    (m : Dict Progress) (r : Result GoError (List NodePowerMapping × List NodeMappingError))
    (t : Transition)
    → KeepsCreated run
    → (resolved run req operation node_ids m r).answer ≡ ok t
    → Outcome m t (resolved run req operation node_ids m r)
resolved-Outcome run req operation node_ids m (err e) t keep h = inl (refl, refl)
resolved-Outcome run req operation node_ids m (ok (mappings, missing)) t keep h =
    let q : Request = record {
      operation = run.name operation;
      dry_run = req.dry_run;
      now = run.now;
    } in
    created-Outcome run operation (ends_at_once req (plan_for q mappings missing node_ids)) m _ t
      (λ u us e waits. stored-counts run req q mappings missing node_ids u us keep refl e waits) h

parsed-Outcome :
    (run : StartRun) (req : StartRequest) (m : Dict Progress) (r : Result GoError ResetOperation)
    (t : Transition)
    → KeepsCreated run
    → (parsed run req m r).answer ≡ ok t
    → Outcome m t (parsed run req m r)
parsed-Outcome run req m (err e) t keep h = inl (refl, refl)
parsed-Outcome run req m (ok operation) t keep h =
    elim (Bool-cases (is_empty (normalize_node_ids req.node_ids))) [
      | inl none_given ↦ rw none_given (inl (refl, refl))
      | inr some_given ↦ rw some_given (
          resolved-Outcome run req operation (normalize_node_ids req.node_ids) m
            (run.resolve (normalize_node_ids req.node_ids)) t keep (rw some_given at h))
    ]

created-dry_run :
    (run : StartRun) (operation : ResetOperation) (at_once : Bool) (m : Dict Progress)
    (r : Result GoError (Transition × List Task))
    → at_once ≡ true
    → IsQuiet m (created run operation at_once m r)
created-dry_run run operation at_once m (err e) h = (refl, refl)
created-dry_run run operation at_once m (ok (u, us)) h = rw h (updated-IsQuiet m _)

resolved-dry_run :
    (run : StartRun) (req : StartRequest) (operation : ResetOperation) (node_ids : List Text)
    (m : Dict Progress) (r : Result GoError (List NodePowerMapping × List NodeMappingError))
    → req.dry_run ≡ true
    → IsQuiet m (resolved run req operation node_ids m r)
resolved-dry_run run req operation node_ids m (err e) dry = (refl, refl)
resolved-dry_run run req operation node_ids m (ok (mappings, missing)) dry =
    created-dry_run run operation _ m _ (ground arith)

parsed-dry_run :
    (run : StartRun) (req : StartRequest) (m : Dict Progress) (r : Result GoError ResetOperation)
    → req.dry_run ≡ true
    → IsQuiet m (parsed run req m r)
parsed-dry_run run req m (err e) dry = (refl, refl)
parsed-dry_run run req m (ok operation) dry =
    elim (Bool-cases (is_empty (normalize_node_ids req.node_ids))) [
      | inl none_given ↦ rw none_given (refl, refl)
      | inr some_given ↦ rw some_given (
          resolved-dry_run run req operation (normalize_node_ids req.node_ids) m
            (run.resolve (normalize_node_ids req.node_ids)) dry)
    ]

-- A request that is answered with a transition either leaves the entries as they were and enqueues
-- nothing; or its transition has an entry for its pending tasks, of which there is one at least, all
-- in the queue under its identifier, and which are with the failures counted so far its targets. The
-- store must keep the counters and the states of the tasks that it is given to create.
pub start_transition-Outcome :
    (run : StartRun) (req : StartRequest) (m : Dict Progress) (t : Transition)
    → KeepsCreated run
    → (start_transition run req m).answer ≡ ok t
    → IsQuiet m (start_transition run req m) ⊎ IsLaunched t (start_transition run req m)
unfolding start_transition
start_transition-Outcome run req m t keep h = elim (Bool-cases run.running) [
  | inr stopped ↦ simp stopped (inl (refl, refl))
  | inl runs ↦
      simp runs (parsed-Outcome run req m (run.parse req.operation) t keep (simp runs at h))
]

-- A dry run never enqueues a task and never makes an entry, whatever it is answered.
pub start_transition-dry_run :
    (run : StartRun) (req : StartRequest) (m : Dict Progress)
    → req.dry_run ≡ true
    → IsQuiet m (start_transition run req m)
unfolding start_transition
start_transition-dry_run run req m dry = elim (Bool-cases run.running) [
  | inr stopped ↦ simp stopped (refl, refl)
  | inl runs ↦ simp runs (parsed-dry_run run req m (run.parse req.operation) dry)
]
