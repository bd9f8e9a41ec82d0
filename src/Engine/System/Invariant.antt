-- ===== src/Engine/System/Invariant.antt =====
-- The accounts of the transitions from step to step.
use chamicore.Prelude.{
  ℕ, ◌+◌, ◌<◌, ◌≡◌, sym, ◌∙◌, subst, ap, inl, inr, true, List, [], ◌∷◌, ◌++◌, arith, length,
  count_if, keep_if, count_if-append, count_if-middle, count_if-split, if◌then◌else◌, Bool-cases,
}
use chamicore.Text.{Text, ◌=ₛ◌, =ₛ_iff}
use chamicore.Dict.{Dict, lookup, insert, lookup-insert}
use chamicore.Engine.Config.{RuntimeConfig}
use chamicore.Engine.Types.{Progress, Transition}
use chamicore.Engine.Progress.Accounts.{IsAccounted}
use chamicore.Engine.System.{
  System, QueuedTask, Worker, Stage, belongs_to, works_on, new_progress, Step, start, enqueue,
  fresh, marked, holding, give_up, dequeue, mark, mark_failed, mark_missing, acquire, complete,
  abort, close, NoTasks,
}
use chamicore.Engine.System.Outstanding.{outstanding, count_if-own}
use chamicore.Engine.System.Sound.{
  Account, mark-Account, abort-Account, cancel_context-Account, record-Account,
}

-- The entry of every transition that is being carried out is accounted and counts the tasks that are
-- outstanding; no task is outstanding for any other transition.
abbrev pub IsSound : System → Type 0
IsSound s = (id : Text) → Account (lookup id s.progress) (outstanding id s)

new_progress-IsAccounted :
    (t : Transition) (pending : ℕ)
    → t.success_count ≡ 0
    → t.failure_count + pending ≡ t.target_count
    → IsAccounted (new_progress t pending)
unfolding new_progress
new_progress-IsAccounted t pending h k = ground arith

start-Account :
    (t : Transition) (pending before : ℕ) (j : Text) (m : Dict Progress)
    → 0 < pending
    → t.success_count ≡ 0
    → t.failure_count + pending ≡ t.target_count
    → ((t.id =ₛ j) ≡ true → before ≡ 0)
    → Account (lookup j m) before
    → Account
        (lookup j (insert t.id (new_progress t pending) m))
        ((if t.id =ₛ j then pending else 0) + before)
start-Account t pending before j m some_task h k unused a =
    subst (λ o. Account o ((if t.id =ₛ j then pending else 0) + before))
      (sym (lookup-insert t.id j (new_progress t pending) m))
      (elim (Bool-cases (t.id =ₛ j)) [
        | inl mine ↦ rw mine (
          new_progress-IsAccounted t pending h k,
          unfold new_progress in omega (arith, unused mine),
          omega arith,
        )
        | inr other ↦ rw other (subst (Account (lookup j m)) (omega arith) a)
      ])

-- A worker that changes its stage is counted as before.
works_on-middle :
    (j : Text) (xs ys : List Worker) (a b : Stage) (q : QueuedTask)
    → count_if (works_on j) (xs ++ record { stage = a; item = q } ∷ ys)
      ≡ count_if (works_on j) (xs ++ record { stage = b; item = q } ∷ ys)
unfolding works_on
works_on-middle j xs ys a b q =
    count_if-middle (works_on j) xs (record { stage = a; item = q }) ys
    ∙ sym (count_if-middle (works_on j) xs (record { stage = b; item = q }) ys)

-- A task that a worker drops is counted as before.
dropped :
    (s : System) (xs ys : List Worker) (q : QueuedTask) (j : Text)
    → s.busy ≡ xs ++ record { stage = fresh; item = q } ∷ ys
    → outstanding j s ≡ outstanding j (record s { busy = xs ++ ys; lost = q ∷ s.lost })
unfolding outstanding works_on
dropped s xs ys q j e = ground (
  arith,
  ap (count_if (works_on j)) e,
  count_if-middle (works_on j) xs (record { stage = fresh; item = q }) ys,
)

-- A completed task was counted once, at its own transition.
completed_one :
    (s : System) (xs ys : List Worker) (w : Worker) (j : Text)
    → s.busy ≡ xs ++ w ∷ ys
    → outstanding j s
      ≡ (if w.item.transition_id =ₛ j then 1 else 0) + outstanding j (record s { busy = xs ++ ys })
unfolding outstanding works_on belongs_to
completed_one s xs ys w j e =
    ground (arith, ap (count_if (works_on j)) e, count_if-middle (works_on j) xs w ys)

dequeued :
    (s : System) (q : QueuedTask) (rest : List QueuedTask) (j : Text)
    → s.queue ≡ q ∷ rest
    → outstanding j s
      ≡ outstanding j
          (record s { queue = rest; busy = record { stage = fresh; item = q } ∷ s.busy })
unfolding outstanding works_on
dequeued s q rest j e = ground (arith, ap (count_if (belongs_to j)) e)

NoTasks-outstanding :
    (id j : Text) (s : System) → NoTasks id s → (id =ₛ j) ≡ true → outstanding j s ≡ 0
unfolding outstanding
NoTasks-outstanding id j s (a, b, c, d) same =
    let e = (=ₛ_iff id j).0 same in
    subst
      (λ t.
        count_if (belongs_to t) s.waiting
          + count_if (belongs_to t) s.queue
          + count_if (works_on t) s.busy
          + count_if (belongs_to t) s.lost
        ≡ 0)
      e (omega arith)

-- Every step keeps the accounts.
pub Step-IsSound : {rc : RuntimeConfig} {s t : System} → Step rc s t → IsSound s → IsSound t
unfolding outstanding
Step-IsSound {s = s} (start t items unknown none_yet own some_task h k) sound j =
    subst (Account (lookup j (insert t.id (new_progress t (length items)) s.progress)))
      (ground
        (arith, count_if-append (belongs_to j) items s.waiting, count_if-own t.id j items own))
      (start-Account t (length items) (outstanding j s) j s.progress some_task h k
        (NoTasks-outstanding t.id j s none_yet) (sound j))
Step-IsSound {s = s} (enqueue xs ys q e on room) sound j =
    subst (Account (lookup j s.progress))
      (ground (
        arith,
        ap (count_if (belongs_to j)) e,
        count_if-middle (belongs_to j) xs q ys,
        count_if-append (belongs_to j) s.queue (q ∷ []),
      ))
      (sound j)
Step-IsSound {s = s} (give_up id) sound j = cancel_context-Account id j s.progress _ (
    subst (Account (lookup j s.progress))
      (ground (
        arith,
        count_if-split (belongs_to j) (belongs_to id) s.waiting,
        count_if-append (belongs_to j) (keep_if (belongs_to id) s.waiting) s.lost,
      ))
      (sound j))
Step-IsSound {s = s} (dequeue q rest e idle) sound j =
    subst (Account (lookup j s.progress)) (dequeued s q rest j e) (sound j)
Step-IsSound {s = s} (mark now xs ys q e fine) sound j =
    mark-Account now q.transition_id j s.progress _ (
      subst (Account (lookup j s.progress))
        (ground (arith, ap (count_if (works_on j)) e, works_on-middle j xs ys fresh marked q))
        (sound j))
Step-IsSound {s = s} (mark_failed now xs ys q t e unwritten) sound j =
    mark-Account now q.transition_id j s.progress _
      (subst (Account (lookup j s.progress)) (dropped s xs ys q j e) (sound j))
Step-IsSound {s = s} (mark_missing now xs ys q err e missing) sound j =
    subst (Account (lookup j s.progress)) (dropped s xs ys q j e) (sound j)
Step-IsSound {s = s} (acquire xs ys q e) sound j =
    subst (Account (lookup j s.progress))
      (ground (arith, ap (count_if (works_on j)) e, works_on-middle j xs ys marked holding q))
      (sound j)
Step-IsSound {s = s} (complete now xs ys w outcome e started) sound j =
    record-Account now w.item.transition_id j outcome s.progress _
      (subst (Account (lookup j s.progress)) (completed_one s xs ys w j e) (sound j))
Step-IsSound {s = s} (abort now id) sound j = abort-Account now id j s.progress _ (sound j)
Step-IsSound close sound j = sound j
