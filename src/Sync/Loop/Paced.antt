-- ===== src/Sync/Loop/Paced.antt =====
-- How often the loop runs a cycle, and what its status counts.
use chamicore.Prelude.{
  ℕ, ◌+◌, ◌≡◌, refl, sym, ◌∙◌, subst, Bool, true, false, List, [], ◌∷◌, Option, none, some, arith,
  length, ltb, if◌then◌else◌,
}
use chamicore.Prelude.Int.{pos, ◌≤ℤ◌, eq_of_parts}
use chamicore.GoError.{GoError}
use chamicore.Sync.Cycle.{Syncer, CycleRun, sync_once}
use chamicore.Sync.Cycle.Ready.{IsTracked, Ends, sync_once-Ends}
use chamicore.Sync.Loop.{
  SyncConfig, SyncLoop, Wake, tick, forced, new_syncer, new_loop, desired_interval, begin_run,
  is_same, adjust_ticker_interval, round, run_loop,
}

-- The status counts every cycle, and the syncer is ready once one of them was successful.
record IsCounted (cycles : ℕ) (s : Syncer) : Type 0 where
  tracked : IsTracked s
  all_counted : s.status.successful_runs + s.status.failed_runs ≡ cycles
  ready_once : s.ready ≡ ltb 0 s.status.successful_runs

Ends-IsCounted :
    (n : ℕ) (s : Syncer) (r : Option GoError × Syncer)
    → IsCounted n s
    → Ends s r
    → IsTracked r.1
    → IsCounted (n + 1) r.1
Ends-IsCounted n s (none, new) c (more, same, cleared, ready) tracked = record {
  tracked = tracked;
  all_counted = omega (arith, more, same, c.all_counted);
  ready_once = ground (arith, more, ready);
}
Ends-IsCounted n s (some e, new) c (more, same, time, tag, tag', ready) tracked = record {
  tracked = tracked;
  all_counted = omega (arith, more, same, c.all_counted);
  ready_once = ground (arith, same, ready, c.ready_once);
}

sync_once-IsCounted :
    (run : CycleRun) (n : ℕ) (s : Syncer) → IsCounted n s → IsCounted (n + 1) (sync_once run s).1
sync_once-IsCounted run n s c =
    let (ends, idle, tracked) = sync_once-Ends run s c.tracked in
    Ends-IsCounted n s (sync_once run s) c ends tracked

-- The settings that `New` leaves.
record IsPositive (l : SyncLoop) : Type 0 where
  some_interval : pos 1 ≤ℤ l.interval
  some_retry : pos 1 ≤ℤ l.startup_retry

-- The ticker runs at the interval that the readiness asks for, and the variable is its period.
record IsTicking (l : SyncLoop) : Type 0 where
  desired : l.period ≡ desired_interval l
  known : l.ticker_interval ≡ l.period

record IsInvariant (cycles : ℕ) (l : SyncLoop) : Type 0 where
  settings : IsPositive l
  ticking : IsTicking l
  counted : IsCounted cycles l.syncer

new_loop-IsPositive : (cfg : SyncConfig) → IsPositive (new_loop cfg)
new_loop-IsPositive cfg = record { some_interval = ground arith; some_retry = ground arith }

new_syncer-IsCounted : (id : List ℕ) → IsCounted 0 (new_syncer id)
new_syncer-IsCounted id = record { tracked = λ e. refl; all_counted = refl; ready_once = refl }

adjusted-IsTicking :
    (l : SyncLoop) (b : Bool)
    → (b ≡ true → desired_interval l ≡ l.ticker_interval)
    → l.ticker_interval ≡ l.period
    → IsTicking (
        if b
        then l
        else record l { period = desired_interval l; ticker_interval = desired_interval l })
adjusted-IsTicking l true same known = record {
  desired = sym known ∙ sym (same refl);
  known = known;
}
adjusted-IsTicking l false same known = record { desired = refl; known = refl }

adjust_ticker_interval-IsTicking :
    (l : SyncLoop) → l.ticker_interval ≡ l.period → IsTicking (adjust_ticker_interval l)
unfolding adjust_ticker_interval
adjust_ticker_interval-IsTicking l known =
    adjusted-IsTicking l (is_same (desired_interval l) l.ticker_interval)
      (λ e. eq_of_parts (desired_interval l) l.ticker_interval (ground (arith, e))) known

-- What adjusting leaves alone.
adjust_ticker_interval-keeps :
    (l : SyncLoop)
    → ((adjust_ticker_interval l).syncer ≡ l.syncer)
      × ((adjust_ticker_interval l).interval ≡ l.interval)
      × ((adjust_ticker_interval l).startup_retry ≡ l.startup_retry)
unfolding adjust_ticker_interval
adjust_ticker_interval-keeps l =
    elim (is_same (desired_interval l) l.ticker_interval)
      as (λ b.
        let a : SyncLoop =
          if b
          then l
          else record l { period = desired_interval l; ticker_interval = desired_interval l } in
        (a.syncer ≡ l.syncer) × (a.interval ≡ l.interval) × (a.startup_retry ≡ l.startup_retry)) [
          | true ↦ (refl, refl, refl)
          | false ↦ (refl, refl, refl)
        ]

round-IsInvariant :
    (run : CycleRun) (n : ℕ) (l : SyncLoop) → IsInvariant n l → IsInvariant (n + 1) (round run l).1
unfolding round
round-IsInvariant run n l i =
    let moved : SyncLoop = record l { syncer = (sync_once run l.syncer).1 } in
    let (same, every, retry) = adjust_ticker_interval-keeps moved in
    record {
      settings = record {
        some_interval = subst (λ z. pos 1 ≤ℤ z) (sym every) i.settings.some_interval;
        some_retry = subst (λ z. pos 1 ≤ℤ z) (sym retry) i.settings.some_retry;
      };
      ticking = adjust_ticker_interval-IsTicking moved i.ticking.known;
      counted = subst (IsCounted (n + 1)) (sym same) (sync_once-IsCounted run n l.syncer i.counted);
    }

begun-IsInvariant :
    (first : CycleRun) (cfg : SyncConfig) (on_startup : Bool)
    → let l : SyncLoop = record (new_loop cfg) { sync_on_startup = on_startup } in
      IsInvariant (if on_startup then 1 else 0) (begin_run first l)
unfolding begin_run
begun-IsInvariant first cfg true = record {
  settings = record {
    some_interval = (new_loop-IsPositive cfg).some_interval;
    some_retry = (new_loop-IsPositive cfg).some_retry;
  };
  ticking = record { desired = refl; known = refl };
  counted =
      sync_once-IsCounted first 0 (new_syncer cfg.default_credential_id) (new_syncer-IsCounted _);
}
begun-IsInvariant first cfg false = record {
  settings = record {
    some_interval = (new_loop-IsPositive cfg).some_interval;
    some_retry = (new_loop-IsPositive cfg).some_retry;
  };
  ticking = record { desired = refl; known = refl };
  counted = new_syncer-IsCounted _;
}

run_loop-IsInvariant :
    (wakes : List Wake) (n : ℕ) (l : SyncLoop)
    → IsInvariant n l
    → IsInvariant (length wakes + n) (run_loop wakes l).1
unfolding run_loop
run_loop-IsInvariant [] n l i = subst (λ k. IsInvariant k l) (omega arith) i
run_loop-IsInvariant (tick run ∷ wakes) n l i =
    subst (λ k. IsInvariant k (run_loop wakes (round run l).1).1) (omega arith)
      (run_loop-IsInvariant wakes (n + 1) (round run l).1 (round-IsInvariant run n l i))
run_loop-IsInvariant (forced run ∷ wakes) n l i =
    subst (λ k. IsInvariant k (run_loop wakes (round run l).1).1) (omega arith)
      (run_loop-IsInvariant wakes (n + 1) (round run l).1 (round-IsInvariant run n l i))

positive-IsInvariant : (n : ℕ) (l : SyncLoop) → IsInvariant n l → pos 1 ≤ℤ l.period
positive-IsInvariant n l i =
    ground (arith, i.settings.some_interval, i.settings.some_retry, i.ticking.desired)

-- What holds of the loop between two rounds, after a number of cycles.
abbrev pub IsPaced : ℕ → SyncLoop → Type 0
IsPaced cycles l =
    (l.period ≡ desired_interval l)
    × (pos 1 ≤ℤ l.period)
    × (l.syncer.status.successful_runs + l.syncer.status.failed_runs ≡ cycles)
    × (l.syncer.ready ≡ ltb 0 l.syncer.status.successful_runs)

-- Whatever the configuration is, and however SMD and the store answer in each cycle: before the loop
-- is woken first and after each time, the period of its ticker is positive, and it is the interval
-- between retries while a sync on startup is set and the syncer is not ready, and the regular one
-- otherwise; the successful and the failed runs of the status add up to the number of times the loop
-- was woken, and one more for a sync on startup; and the syncer is ready exactly if one of them was
-- successful.
pub run_loop-IsPaced :
    (cfg : SyncConfig) (first : CycleRun) (wakes : List Wake)
    → IsPaced
        (length wakes + (if cfg.sync_on_startup then 1 else 0))
        (run_loop wakes (begin_run first (new_loop cfg))).1
run_loop-IsPaced cfg first wakes =
    let i =
      run_loop-IsInvariant wakes (if cfg.sync_on_startup then 1 else 0)
        (begin_run first (new_loop cfg)) (begun-IsInvariant first cfg cfg.sync_on_startup) in
    (i.ticking.desired, positive-IsInvariant _ _ i, i.counted.all_counted, i.counted.ready_once)
