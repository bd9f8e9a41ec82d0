-- ===== src/Engine/System/Traces.antt =====
-- What holds after any interleaving of requests, workers and aborts.
use chamicore.Prelude.{
  ℕ, ◌+◌, ◌≤◌, ◌<◌, ◌≡◌, refl, ◌⊎◌, inl, inr, Option, none, some, arith, count_if, keep_if,
  count_if-append, zero-or-pos,
}
use chamicore.Text.{Text}
use chamicore.Dict.{lookup}
use chamicore.Engine.Config.{RuntimeConfig}
use chamicore.Engine.Types.{Progress}
use chamicore.Engine.Progress.Accounts.{IsAccounted}
use chamicore.Engine.System.{
  System, belongs_to, works_on, Step, Reach, initial, start, enqueue, give_up, dequeue, mark,
  mark_failed, mark_missing, acquire, complete, abort, close, here, next,
}
use chamicore.Engine.System.Outstanding.{outstanding}
use chamicore.Engine.System.Sound.{Account}
use chamicore.Engine.System.Invariant.{IsSound, Step-IsSound}

initial-IsSound : IsSound initial
unfolding initial outstanding lookup
initial-IsSound id = refl

pub Reach-IsSound : {rc : RuntimeConfig} {s t : System} → IsSound s → Reach rc s t → IsSound t
Reach-IsSound h here = h
Reach-IsSound h (next r st) = Step-IsSound st (Reach-IsSound h r)

some-of_Account :
    (o : Option Progress) (n : ℕ)
    → Account o n
    → 0 < n
    → (p : Progress) × (o ≡ some p) × IsAccounted p × (p.remaining ≡ n)
some-of_Account none n a h = absurd (omega (arith, a))
some-of_Account (some p) n a h = (p, refl, a.0, a.1)

none-of_Account : (o : Option Progress) (n : ℕ) → Account o n → n ≡ 0 → o ≡ none
none-of_Account none n a h = refl
none-of_Account (some p) n a h = absurd (omega (arith, a.2))

-- After any interleaving of starts, enqueues, failed enqueues, workers, outcomes, aborts and the end
-- of the runner, a transition has an entry exactly while some of its tasks has no recorded outcome.
-- The entry then counts just those tasks as remaining, and its successes, its failures and they add
-- up to its targets.
pub Reach-accounts :
    {rc : RuntimeConfig} {s : System}
    → Reach rc initial s
    → (id : Text)
    → ((outstanding id s ≡ 0) × (lookup id s.progress ≡ none))
      ⊎ ((0 < outstanding id s)
          × ((p : Progress) × (lookup id s.progress ≡ some p)
              × IsAccounted p
              × (p.remaining ≡ outstanding id s)))
Reach-accounts {s = s} r id =
    let a = Reach-IsSound initial-IsSound r id in
    elim (zero-or-pos (outstanding id s)) [
      | inl none_left ↦
          inl (none_left, none-of_Account (lookup id s.progress) (outstanding id s) a none_left)
      | inr left ↦ inr (left, some-of_Account (lookup id s.progress) (outstanding id s) a left)
    ]

Step-lost :
    {rc : RuntimeConfig} {s t : System} (id : Text)
    → Step rc s t
    → count_if (belongs_to id) s.lost ≤ count_if (belongs_to id) t.lost
Step-lost id (start t items a b c d e f) = omega arith
Step-lost id (enqueue xs ys q a b c) = omega arith
Step-lost {s = s} id (give_up other) =
    omega (arith, count_if-append (belongs_to id) (keep_if (belongs_to other) s.waiting) s.lost)
Step-lost id (dequeue q rest a b) = omega arith
Step-lost id (mark now xs ys q a b) = omega arith
Step-lost id (mark_failed now xs ys q t a b) = ground arith
Step-lost id (mark_missing now xs ys q e a b) = ground arith
Step-lost id (acquire xs ys q a) = omega arith
Step-lost id (complete now xs ys w outcome a b) = omega arith
Step-lost id (abort now other) = omega arith
Step-lost id close = omega arith

Reach-lost :
    {rc : RuntimeConfig} {s t : System} (id : Text)
    → Reach rc s t
    → count_if (belongs_to id) s.lost ≤ count_if (belongs_to id) t.lost
Reach-lost id here = omega arith
Reach-lost id (next r st) = omega (arith, Reach-lost id r, Step-lost id st)

-- Once a task of a transition is lost, by a failed write of the running state or a failed enqueue,
-- no outcome ends the transition: whatever happens afterwards, its entry is still there, and the tasks
-- that it counts as remaining are more than those that still wait for the queue, are in it or are with
-- a worker, which are the only ones that can have an outcome.
pub lost_never_ends :
    {rc : RuntimeConfig} {s t : System} (id : Text)
    → Reach rc initial s
    → 0 < count_if (belongs_to id) s.lost
    → Reach rc s t
    → (p : Progress) × (lookup id t.progress ≡ some p)
      × (count_if (belongs_to id) t.waiting
            + count_if (belongs_to id) t.queue
            + count_if (works_on id) t.busy
          < p.remaining)
unfolding outstanding
lost_never_ends {t = t} id before lost after =
    let sound = Reach-IsSound (Reach-IsSound initial-IsSound before) after id in
    let (p, found, accounted, same) =
      some-of_Account (lookup id t.progress) (outstanding id t) sound
        (omega (arith, lost, Reach-lost id after)) in
    (p, found, omega (arith, same, lost, Reach-lost id after))
