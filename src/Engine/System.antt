-- ===== src/Engine/System.antt =====
-- The running engine as a transition system: the requests that enqueue their tasks, the bounded
-- queue of queue.go, the workers of `Start`, and aborts, in any order. Every step is what one goroutine
-- does between two points where it can be overtaken. The writes of the store are no part of it.
pub mod Outstanding
pub mod Sound
pub mod Invariant
pub mod Traces
use chamicore.Prelude.{
  ℕ, suc, ◌+◌, ◌≤◌, ◌<◌, ◌≡◌, ◌⊎◌, Bool, true, false, not, ◌&&◌, List, [], ◌∷◌, ◌++◌, Option, none,
  some, length, count_if, keep_if, All, is_empty,
}
use chamicore.Prelude.Int.{pos_part}
use chamicore.Text.{Text, ◌=ₛ◌}
use chamicore.Text.Trim.{trim_space}
use chamicore.GoError.{GoError}
use chamicore.Dict.{Dict, lookup, insert}
use chamicore.Engine.Config.{RuntimeConfig}
use chamicore.Engine.Types.{Task, TaskState, ResetOperation, Transition, Progress}
use chamicore.Engine.Progress.{record_task_outcome, mark_transition_running, abort_transition}

-- `queuedTask`; its context is that of its transition.
pub record QueuedTask : Type 0 where
  pub operation : ResetOperation
  pub transition_id : Text
  pub task : Task

-- Where a worker is in `executeTask`: before and after `markTransitionRunning`, and past the
-- limiter of its BMC.
pub data Stage : Type 0 where
  fresh marked holding : Stage

pub record Worker : Type 0 where
  pub stage : Stage
  pub item : QueuedTask

-- `waiting` are the tasks that some `StartTransition` has yet to enqueue. `lost` are tasks that no
-- goroutine has any more although no outcome was recorded for them; the program has no such list.
pub record System : Type 0 where
  pub progress : Dict Progress
  pub waiting : List QueuedTask
  pub queue : List QueuedTask
  pub busy : List Worker
  pub lost : List QueuedTask
  pub closed : Bool

unfoldable pub belongs_to : Text → QueuedTask → Bool
belongs_to id q = q.transition_id =ₛ id

unfoldable pub works_on : Text → Worker → Bool
works_on id w = belongs_to id w.item

abbrev pub is_fresh : Stage → Bool
is_fresh fresh = true
is_fresh _ = false

-- The entry that `StartTransition` makes for a created transition with pending tasks.
unfoldable pub new_progress : Transition → ℕ → Progress
new_progress t pending = record {
  transition = t;
  remaining = pending;
  executable_total = pending;
  canceled_count = 0;
  started = false;
  aborted = false;
  context_canceled = false;
}

unfoldable pub cancel_context : Text → Dict Progress → Dict Progress
cancel_context id m = elim (lookup id m) [
  | none ↦ m
  | some p ↦ insert id (record p { context_canceled = true }) m
]

abbrev pub NoTasks : Text → System → Type 0
NoTasks id s =
    (count_if (belongs_to id) s.waiting ≡ 0)
    × (count_if (belongs_to id) s.queue ≡ 0)
    × (count_if (works_on id) s.busy ≡ 0)
    × (count_if (belongs_to id) s.lost ≡ 0)

pub data Step (rc : RuntimeConfig) (s : System) : System → Type 0 where
  -- `StartTransition` registers a transition under an identifier that the store has just made.
  start :
      (t : Transition) (items : List QueuedTask)
      → lookup t.id s.progress ≡ none
      → NoTasks t.id s
      → All (λ q. q.transition_id ≡ t.id) items
      → 0 < length items
      → t.success_count ≡ 0
      → t.failure_count + length items ≡ t.target_count
      → Step rc s (record s {
        progress = insert t.id (new_progress t (length items)) s.progress;
        waiting = items ++ s.waiting;
      })
  -- `enqueue` finds room.
  enqueue :
      (xs ys : List QueuedTask) (q : QueuedTask)
      → s.waiting ≡ xs ++ q ∷ ys
      → s.closed ≡ false
      → length s.queue < pos_part rc.queue_size
      → Step rc s (record s { waiting = xs ++ ys; queue = s.queue ++ q ∷ [] })
  -- `enqueue` fails: the request cancels the context and returns, with its later tasks.
  give_up :
      (id : Text)
      → Step rc s (record s {
        progress = cancel_context id s.progress;
        waiting = keep_if (λ q. not (belongs_to id q)) s.waiting;
        lost = keep_if (belongs_to id) s.waiting ++ s.lost;
      })
  -- An idle worker takes the oldest task.
  dequeue :
      (q : QueuedTask) (rest : List QueuedTask)
      → s.queue ≡ q ∷ rest
      → length s.busy < pos_part rc.global_concurrency
      → Step rc s (record s { queue = rest; busy = (record { stage = fresh; item = q }) ∷ s.busy })
  -- `markTransitionRunning` returns nil.
  mark :
      (now : ℕ) (xs ys : List Worker) (q : QueuedTask)
      → s.busy ≡ xs ++ (record { stage = fresh; item = q }) ∷ ys
      → (mark_transition_running now q.transition_id s.progress).0 ≡ none
      → Step rc s (record s {
        progress = (mark_transition_running now q.transition_id s.progress).1;
        busy = xs ++ (record { stage = marked; item = q }) ∷ ys;
      })
  -- `markTransitionRunning` returns an error, because the write of the running state failed:
  -- `executeTask` returns at once.
  mark_failed :
      (now : ℕ) (xs ys : List Worker) (q : QueuedTask) (t : Transition)
      → s.busy ≡ xs ++ (record { stage = fresh; item = q }) ∷ ys
      → (mark_transition_running now q.transition_id s.progress).2 ≡ some t
      → Step rc s (record s {
        progress = (mark_transition_running now q.transition_id s.progress).1;
        busy = xs ++ ys;
        lost = q ∷ s.lost;
      })
  -- `markTransitionRunning` finds no entry.
  mark_missing :
      (now : ℕ) (xs ys : List Worker) (q : QueuedTask) (e : GoError)
      → s.busy ≡ xs ++ (record { stage = fresh; item = q }) ∷ ys
      → (mark_transition_running now q.transition_id s.progress).0 ≡ some e
      → Step rc s (record s { busy = xs ++ ys; lost = q ∷ s.lost })
  -- `acquireBMCLimiter` returns a slot; when it can is left open here, see Engine.Limiter.
  acquire :
      (xs ys : List Worker) (q : QueuedTask)
      → s.busy ≡ xs ++ (record { stage = marked; item = q }) ∷ ys
      → Step rc s (record s { busy = xs ++ (record { stage = holding; item = q }) ∷ ys })
  -- `completeTask` records an outcome, and `executeTask` returns.
  complete :
      (now : ℕ) (xs ys : List Worker) (w : Worker) (outcome : TaskState)
      → s.busy ≡ xs ++ w ∷ ys
      → is_fresh w.stage ≡ false
      → Step rc s (record s {
        progress = (record_task_outcome now w.item.transition_id outcome s.progress).0;
        busy = xs ++ ys;
      })
  -- `AbortTransition`.
  abort :
      (now : ℕ) (id : Text)
      → Step rc s (record s { progress = (abort_transition now id s.progress).1 })
  -- The context of `Start` ends, and the queue is closed.
  close : Step rc s (record s { closed = true })

pub data Reach (rc : RuntimeConfig) (s : System) : System → Type 0 where
  here : Reach rc s s
  next : {t u : System} → Reach rc s t → Step rc t u → Reach rc s u

-- `New` and `Start`.
unfoldable pub initial : System
initial = record { progress = []; waiting = []; queue = []; busy = []; lost = []; closed = false }
