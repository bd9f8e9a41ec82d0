-- ===== src/Engine/Progress.antt =====
-- The bookkeeping of runner.go under `progressMu`: `AbortTransition`, `markTransitionRunning`,
-- `recordTaskOutcome` and `finalTransitionState`. Each returns the new map and the transition that
-- the caller persists after it has released the lock.
pub mod Accounts
pub mod Final
use chamicore.Prelude.{
  ℕ, ◌+◌, ◌-◌, Bool, true, false, ◌&&◌, Option, none, some, leb, ltb, ◌==◌, is_empty, if◌then◌else◌,
}
use chamicore.Text.{Text, codes}
use chamicore.Text.Trim.{trim_space}
use chamicore.Text.Quote.{quoted}
use chamicore.Dict.{Dict, lookup, insert, erase}
use chamicore.GoError.{GoError, sentinel, message, transition_not_found}
use chamicore.Engine.Types.{
  Transition, TransitionState, TaskState, Progress, completed, partial, succeeded,
}
use chamicore.Prelude.{◌++◌}

-- `finalTransitionState`.
unfoldable pub final_transition_state : Progress → TransitionState
final_transition_state p =
    if ltb 0 p.executable_total
      && (p.canceled_count == p.executable_total
          && (p.transition.success_count == 0 && p.transition.failure_count == p.canceled_count))
    then TransitionState.canceled
    else if p.transition.failure_count == 0
    then completed
    else if p.transition.success_count == 0
    then TransitionState.failed
    else partial

-- The counters after one task ended in a state.
unfoldable pub count_outcome : TaskState → Progress → Progress
count_outcome succeeded p = record p {
  transition = record (p.transition) { success_count = p.transition.success_count + 1 };
}
count_outcome TaskState.canceled p = record p {
  transition = record (p.transition) { failure_count = p.transition.failure_count + 1 };
  canceled_count = p.canceled_count + 1;
}
count_outcome _ p = record p {
  transition = record (p.transition) { failure_count = p.transition.failure_count + 1 };
}

-- The entry after the last task: times, final state, and the cancel function called.
unfoldable pub finish : ℕ → Progress → Progress
unfolding final_transition_state
finish now p = record p {
  transition = record (p.transition) {
    completed_at = some now;
    updated_at = now;
    state = final_transition_state p;
  };
  context_canceled = true;
}

-- One more outcome in an entry. `remaining` is an `int` that is at least one here; where it is not,
-- Go reaches a value below zero and the same branch.
unfoldable pub count_down : TaskState → Progress → Progress
unfolding count_outcome
count_down outcome p =
    let counted = count_outcome outcome p in record counted { remaining = counted.remaining - 1 }

-- `recordTaskOutcome` at an entry that is there.
unfoldable pub record_entry :
    ℕ → Text → TaskState → Dict Progress → Progress → Dict Progress × Option Transition
unfolding finish
record_entry now id outcome m p =
    let next = count_down outcome p in
    if leb next.remaining 0
    then (erase id m, some (finish now next).transition)
    else (insert id next m, none)

abbrev pub or_nothing :
    (Progress → Dict Progress × Option Transition)
    → Dict Progress
    → Option Progress
    → Dict Progress × Option Transition
or_nothing f m none = (m, none)
or_nothing f m (some p) = f p

-- `recordTaskOutcome`.
unfoldable pub record_task_outcome :
    ℕ → Text → TaskState → Dict Progress → Dict Progress × Option Transition
unfolding record_entry
record_task_outcome now id outcome m = or_nothing (record_entry now id outcome m) m (lookup id m)

unfoldable pub start_entry : ℕ → Progress → Progress
start_entry now p = record p {
  started = true;
  transition = record (p.transition) {
    state = TransitionState.running;
    started_at = some now;
    updated_at = now;
  };
}

-- `markTransitionRunning` under the lock: the error for a missing entry, the map, and what to write.
abbrev pub mark_entry :
    ℕ → Text → Dict Progress → Option Progress → Option GoError × Dict Progress × Option Transition
mark_entry now id m none = (
  some (message (codes "transition " ++ (quoted id ++ codes " has no active progress"))),
  m,
  none,
)
mark_entry now id m (some p) =
    if p.aborted
    then (none, m, none)
    else if p.started
    then (none, m, none)
    else (none, insert id (start_entry now p) m, some (start_entry now p).transition)

unfoldable pub mark_transition_running :
    ℕ → Text → Dict Progress → Option GoError × Dict Progress × Option Transition
unfolding start_entry
mark_transition_running now id m = mark_entry now id m (lookup id m)

unfoldable pub abort_entry : ℕ → Progress → Progress
abort_entry now p = record p {
  aborted = true;
  context_canceled = true;
  transition = record (p.transition) { state = TransitionState.canceled; updated_at = now };
}

abbrev pub abort_found :
    ℕ → Text → Dict Progress → Option Progress → Option GoError × Dict Progress × Option Transition
abort_found now id m none = (some (sentinel transition_not_found), m, none)
abort_found now id m (some p) =
    if p.aborted
    then (none, m, none)
    else (none, insert id (abort_entry now p) m, some (abort_entry now p).transition)

-- `AbortTransition` up to the write.
unfoldable pub abort_transition :
    ℕ → Text → Dict Progress → Option GoError × Dict Progress × Option Transition
unfolding abort_entry
abort_transition now transition_id m =
    let id = trim_space transition_id in
    if is_empty id
    then (some (sentinel transition_not_found), m, none)
    else abort_found now id m (lookup id m)
