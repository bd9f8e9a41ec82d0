-- ===== src/Engine/Progress/Accounts.antt =====
-- What the counters of an active transition add up to.
use chamicore.Prelude.{ℕ, ◌+◌, ◌-◌, ◌≤◌, ◌<◌, ◌≡◌, refl, arith}
use chamicore.Engine.Types.{Progress, TaskState, succeeded}
use chamicore.Engine.Progress.{count_down, start_entry, abort_entry}

-- Each target is a success, a failure or still open; the targets that had no mapping failed at the
-- start; and only tasks that were started can be canceled.
pub record IsAccounted (p : Progress) : Type 0 where
  pub balanced :
      p.transition.success_count + p.transition.failure_count + p.remaining
      ≡ p.transition.target_count
  pub executable : p.executable_total ≤ p.transition.target_count
  pub missing_failed :
      p.canceled_count + p.transition.target_count ≤ p.executable_total + p.transition.failure_count

pub count_down-IsAccounted :
    (outcome : TaskState) (p : Progress)
    → IsAccounted p
    → 0 < p.remaining
    → IsAccounted (count_down outcome p)
unfolding count_down
count_down-IsAccounted succeeded p h k = ground arith
count_down-IsAccounted _ p h k = ground arith

pub start_entry-IsAccounted :
    (now : ℕ) (p : Progress) → IsAccounted p → IsAccounted (start_entry now p)
unfolding start_entry
start_entry-IsAccounted now p h = ground arith

pub abort_entry-IsAccounted :
    (now : ℕ) (p : Progress) → IsAccounted p → IsAccounted (abort_entry now p)
unfolding abort_entry
abort_entry-IsAccounted now p h = ground arith

pub remaining-count_down :
    (outcome : TaskState) (p : Progress) → (count_down outcome p).remaining ≡ p.remaining - 1
unfolding count_down
remaining-count_down succeeded p = refl
remaining-count_down _ p = refl
