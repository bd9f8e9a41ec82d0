-- ===== src/Engine/Tasks/Outcome.antt =====
-- What the recorded outcome of a task says of its run.
use chamicore.Prelude.{
  ℕ, ◌≡◌, ◌≢◌, refl, sym, ◌∙◌, ap, ◌⊎◌, inl, inr, true, false, Option, none, some, arith, Result,
  ok, err, Option-cases, Bool-cases, [], subst,
}
use chamicore.Text.{Text}
use chamicore.Text.Trim.{trim_space}
use chamicore.GoError.{GoError}
use chamicore.Engine.Errors.{is_context_error}
use chamicore.Engine.Config.{RuntimeConfig}
use chamicore.Engine.Backoff.{Machine}
use chamicore.Engine.Retry.{execute_with_retry}
use chamicore.Engine.Verify.{verify}
use chamicore.Engine.Types.{Task, TaskState, ResetOperation, ExecutionRequest, succeeded, failed}
use chamicore.Engine.Tasks.{
  TaskRun, completed, Completion, result, or_unchanged, settle, complete_task, carry_out,
  begin_task, execute_task, update_error, completed_by, verified, after_execution, slot_error,
}

-- The store returns the state that it was given.
abbrev pub KeepsState : TaskRun → Type 0
KeepsState run = (t u : Task) → run.persist_completed t ≡ ok u → u.state ≡ t.state

or_unchanged-state :
    (task : Task) (r : Result GoError Task)
    → ((u : Task) → r ≡ ok u → u.state ≡ task.state)
    → (or_unchanged task r).state ≡ task.state
or_unchanged-state task (ok u) keep = keep u refl
or_unchanged-state task (err e) keep = refl

-- Why a task counts as it does: no error, and the update of SMD worked where one was due; or the
-- error of a context; or any other failure.
abbrev pub Explains : TaskRun → Task → Text → Option GoError → TaskState → Type 0
Explains run task final none s =
    ((s ≡ succeeded)
      × ((task.dry_run ≡ true) ⊎ (update_error run.updater task.node_id (trim_space final) ≡ none)))
    ⊎ ((s ≡ failed)
        × (task.dry_run ≡ false)
        × (update_error run.updater task.node_id (trim_space final) ≢ none))
Explains run task final (some e) s =
    ((s ≡ TaskState.canceled) × (is_context_error e ≡ true))
    ⊎ ((s ≡ failed) × (is_context_error e ≡ false))

settle-Explains :
    (run : TaskRun) (task : Task) (final : Text) (r : Option GoError)
    → task.final_power_state ≡ trim_space final
    → Explains run task final r (settle run task r).state
unfolding settle
settle-Explains run task final none e = elim (Bool-cases task.dry_run) [
  | inl dry ↦ inl (ground arith, inl dry)
  | inr wet ↦ elim (Option-cases (update_error run.updater task.node_id (trim_space final))) [
    | inl fine ↦ inl (ground arith, inr fine)
    | inr (bad, broken) ↦ inr (ground arith, wet, λ fine. cc)
  ]
]
settle-Explains run task final (some x) e = ground arith

abbrev stamped : TaskRun → Task → ℕ → Text → Task
stamped run task attempts final = record task {
  attempt_count = attempts;
  final_power_state = trim_space final;
  completed_at = some run.completed_at;
  updated_at = run.completed_at;
}

complete_task-state :
    (run : TaskRun) (task : Task) (attempts : ℕ) (final : Text) (r : Option GoError)
    → KeepsState run
    → (complete_task run task attempts final r).state
      ≡ (settle run (stamped run task attempts final) r).state
unfolding complete_task
complete_task-state run task attempts final r keep =
    or_unchanged-state (settle run (stamped run task attempts final) r) _
      (keep (settle run (stamped run task attempts final) r))

-- `completeTask` records success exactly for a nil error, where a real run has also updated SMD; a
-- cancellation exactly for an error that carries the end of a context; and a failure for all else. The
-- store must return the state of a task as it is given.
pub complete_task-Explains :
    (run : TaskRun) (task : Task) (attempts : ℕ) (final : Text) (r : Option GoError)
    → KeepsState run
    → Explains run task final r (complete_task run task attempts final r).state
complete_task-Explains run task attempts final none keep =
    subst (Explains run task final none)
      (sym (complete_task-state run task attempts final none keep))
      (settle-Explains run (stamped run task attempts final) final none refl)
complete_task-Explains run task attempts final (some e) keep =
    subst (Explains run task final (some e))
      (sym (complete_task-state run task attempts final (some e) keep))
      (settle-Explains run (stamped run task attempts final) final (some e) refl)

-- The request that a task is executed by.
abbrev pub request_for : TaskRun → ResetOperation → Task → ExecutionRequest
request_for run operation t = record {
  transition_id = run.transition_id;
  task_id = t.id;
  node_id = t.node_id;
  bmc_id = t.bmc_id;
  endpoint = t.bmc_endpoint;
  credential_id = t.credential_id;
  insecure_skip_verify = t.insecure_skip_verify;
  operation = operation;
}

-- What a run that succeeded has been through.
abbrev pub WentThrough :
    Machine → RuntimeConfig → (ResetOperation → Text) → TaskRun → ℕ → ResetOperation → Task → Type 0
WentThrough machine rc name run fuel operation task =
    (run.marked ≡ none)
    × (run.context_error ≡ none)
    × (slot_error run (begin_task run task) ≡ none)
    × ((execute_with_retry machine rc run.jitter
          (run.attempts (request_for run operation (begin_task run task)))).1
        ≡ none)
    × ((final : Text) × (verify name (run.reads (request_for run operation (begin_task run task)))
            fuel operation
          ≡ some (final, none))
        × (((begin_task run task).dry_run ≡ true)
            ⊎ (update_error run.updater (begin_task run task).node_id (trim_space final) ≡ none)))

succeeded-of_Explains :
    (run : TaskRun) (task : Task) (final : Text) (r : Option GoError)
    → Explains run task final r succeeded
    → (r ≡ none)
      × ((task.dry_run ≡ true) ⊎ (update_error run.updater task.node_id (trim_space final) ≡ none))
succeeded-of_Explains run task final none (inl (e, fine)) = (refl, fine)
succeeded-of_Explains run task final none (inr (e, wet, bad)) = absurd (cc)
succeeded-of_Explains run task final (some x) (inl (e, c)) = absurd (cc)
succeeded-of_Explains run task final (some x) (inr (e, c)) = absurd (cc)

completed_by-eq :
    (run : TaskRun) (task : Task) (o : Option Completion) {t : Task}
    → completed_by run task o ≡ completed t
    → (n : ℕ) × (final : Text) × (r : Option GoError) × (o ≡ some (result n final r))
      × (t ≡ complete_task run task n final r)
completed_by-eq run task none h = cc
completed_by-eq run task (some (result n final r)) h = (n, final, r, refl, cc)

verified-eq :
    (n k : ℕ) (o : Option (Text × Option GoError)) {final : Text}
    → verified n o ≡ some (result k final none)
    → o ≡ some (final, none)
verified-eq n k none h = cc
verified-eq n k (some (f, e)) h = ground arith

after_execution-eq :
    (name : ResetOperation → Text) (run : TaskRun) (fuel : ℕ) (request : ExecutionRequest)
    (x : ℕ × Option GoError) {n : ℕ} {final : Text}
    → after_execution name run fuel request x ≡ some (result n final none)
    → (x.1 ≡ none) × (verify name (run.reads request) fuel request.operation ≡ some (final, none))
after_execution-eq name run fuel request (k, some e) h = absurd (ground arith)
after_execution-eq name run fuel request (k, none) {n} h =
    (refl, verified-eq k n (verify name (run.reads request) fuel request.operation) h)

module _ (machine : Machine) (rc : RuntimeConfig) (name : ResetOperation → Text) (run : TaskRun)
    (fuel : ℕ) (operation : ResetOperation) where
  carry_out-eq :
      (task : Task) {n : ℕ} {final : Text}
      → carry_out machine rc name run fuel operation task ≡ some (result n final none)
      → (slot_error run task ≡ none)
        × ((execute_with_retry machine rc run.jitter
              (run.attempts (request_for run operation task))).1
            ≡ none)
        × (verify name (run.reads (request_for run operation task)) fuel operation
            ≡ some (final, none))
  unfolding carry_out
  carry_out-eq task h = elim (Option-cases (slot_error run task)) [
    | inr (e, refused) ↦ absurd (ground arith)
    | inl free ↦
        let (executed, seen) =
          after_execution-eq name run fuel (request_for run operation task)
            (execute_with_retry machine rc run.jitter
              (run.attempts (request_for run operation task)))
            (rw (free, carry_out) at h) in
        (free, executed, seen)
  ]

  succeeded-of_carry_out :
      (task t : Task)
      → KeepsState run
      → completed_by run task (carry_out machine rc name run fuel operation task) ≡ completed t
      → t.state ≡ succeeded
      → (slot_error run task ≡ none)
        × ((execute_with_retry machine rc run.jitter
              (run.attempts (request_for run operation task))).1
            ≡ none)
        × ((final : Text) × (verify name (run.reads (request_for run operation task)) fuel operation
              ≡ some (final, none))
            × ((task.dry_run ≡ true)
                ⊎ (update_error run.updater task.node_id (trim_space final) ≡ none)))
  succeeded-of_carry_out task t keep h good =
      let (n, final, r, at_end, same) =
        completed_by-eq run task (carry_out machine rc name run fuel operation task) h in
      let (no_error, updated) = succeeded-of_Explains run task final r (
        subst (Explains run task final r) (sym (ap (λ (u : Task). u.state) same) ∙ good)
          (complete_task-Explains run task n final r keep)) in
      let (free, executed, seen) =
        carry_out-eq task
          (at_end ∙ ap (λ (e : Option GoError). some (result n final e)) no_error) in
      (free, executed, (final, seen, updated))

-- A task is recorded as succeeded only if its transition was marked running, its context was alive,
-- its BMC had a slot, the executor, asked for the operation with the identifiers, the endpoint and the
-- credential of the task as it is stored at its begin, returned nil at some attempt, the verifier, asked
-- with the same request, saw the expected state,
-- and, for a task that is no dry run, an updater that is there took that state. The store must return
-- the state of a task as it is given.
pub execute_task-succeeded :
    (machine : Machine) (rc : RuntimeConfig) (name : ResetOperation → Text) (run : TaskRun)
    (fuel : ℕ) (operation : ResetOperation) (task : Task) {t : Task}
    → KeepsState run
    → execute_task machine rc name run fuel operation task ≡ completed t
    → t.state ≡ succeeded
    → WentThrough machine rc name run fuel operation task
unfolding execute_task
execute_task-succeeded machine rc name run fuel operation task {t} keep h good =
    elim (Option-cases run.marked) [
      | inr (e, unmarked) ↦ absurd (ground arith)
      | inl marked ↦ elim (Option-cases run.context_error) [
        | inr (e, ended) ↦
            let same : complete_task run task 0 [] (some e) ≡ t = ground arith in
            let why = succeeded-of_Explains run task [] (some e) (
              subst (Explains run task [] (some e)) (ap (λ (u : Task). u.state) same ∙ good)
                (complete_task-Explains run task 0 [] (some e) keep)) in
            absurd (ground (arith, why.0))
        | inl alive ↦
            let (free, executed, seen) =
              succeeded-of_carry_out machine rc name run fuel operation (begin_task run task) t keep
                (simp (marked, alive, execute_task) at h) good in
            (marked, alive, free, executed, seen)
      ]
    ]
