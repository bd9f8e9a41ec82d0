-- ===== src/Sync/Loop.antt =====
-- `New`, `Run` and `adjustTickerInterval` of smd_sync.go: the loop around the cycles. What wakes the
-- loop until its context is canceled is a list; a duration is a number of nanoseconds.
pub mod Paced
use chamicore.Prelude.{
  ℕ, ◌*◌, ◌==◌, ◌+◌, ◌&&◌, Bool, false, not, List, [], ◌∷◌, Option, none, if◌then◌else◌,
}
use chamicore.Prelude.Int.{ℤ, pos, pos_part, neg_part}
use chamicore.Text.{Text}
use chamicore.Text.Trim.{trim_space}
use chamicore.GoError.{GoError}
use chamicore.Engine.Config.{or_default, second}
use chamicore.Sync.Cycle.{Syncer, CycleRun, no_counts, sync_once}

pub record SyncConfig : Type 0 where
  pub interval : ℤ
  pub startup_retry_interval : ℤ
  pub sync_on_startup : Bool
  pub default_credential_id : Text

-- The syncer with the settings of its loop, the period of the ticker, and the variable
-- `tickerInterval`.
pub record SyncLoop : Type 0 where
  pub syncer : Syncer
  pub interval : ℤ
  pub startup_retry : ℤ
  pub sync_on_startup : Bool
  pub period : ℤ
  pub ticker_interval : ℤ

abbrev default_sync_interval : ℤ
default_sync_interval = pos (300 * second)

abbrev default_startup_retry_interval : ℤ
default_startup_retry_interval = pos second

abbrev pub new_syncer : Text → Syncer
new_syncer default_credential_id = record {
  status = record {
    in_progress = false;
    last_attempt_at = none;
    last_sync_at = none;
    last_component_etag = [];
    last_interface_etag = [];
    last_error = [];
    not_modified = false;
    last_counts = no_counts;
    successful_runs = 0;
    failed_runs = 0;
  };
  last_component_etag = [];
  last_interface_etag = [];
  ready = false;
  default_credential_id = trim_space default_credential_id;
}

-- `New`; there is no ticker yet.
abbrev pub new_loop : SyncConfig → SyncLoop
new_loop cfg = record {
  syncer = new_syncer cfg.default_credential_id;
  interval = or_default cfg.interval default_sync_interval;
  startup_retry = or_default cfg.startup_retry_interval default_startup_retry_interval;
  sync_on_startup = cfg.sync_on_startup;
  period = pos 0;
  ticker_interval = pos 0;
}

abbrev pub startup_sync : CycleRun → SyncLoop → SyncLoop
startup_sync first l =
    if l.sync_on_startup then record l { syncer = (sync_once first l.syncer).1 } else l

abbrev pub desired_interval : SyncLoop → ℤ
desired_interval l = if l.sync_on_startup && not l.syncer.ready then l.startup_retry else l.interval

-- `Run`, in front of its loop: `first` is the cycle at the start, if there is one.
unfoldable pub begin_run : CycleRun → SyncLoop → SyncLoop
unfolding sync_once
begin_run first l =
    let started = startup_sync first l in
    record started { period = desired_interval started; ticker_interval = desired_interval started }

abbrev pub is_same : ℤ → ℤ → Bool
is_same a b = pos_part a + neg_part b == pos_part b + neg_part a

-- `adjustTickerInterval`, and the variable that takes its result.
unfoldable pub adjust_ticker_interval : SyncLoop → SyncLoop
adjust_ticker_interval l =
    if is_same (desired_interval l) l.ticker_interval
    then l
    else record l { period = desired_interval l; ticker_interval = desired_interval l }

-- One round of the loop: the result of the cycle, and the state.
unfoldable pub round : CycleRun → SyncLoop → Option GoError × SyncLoop
unfolding sync_once adjust_ticker_interval
round run l =
    let r = sync_once run l.syncer in (r.0, adjust_ticker_interval (record l { syncer = r.1 }))

-- What a select takes: a tick, or a request of `Trigger`, which is sent the result.
pub data Wake : Type 0 where
  tick forced : CycleRun → Wake

-- The loop: the results that were sent to `Trigger`, and the state.
unfoldable pub run_loop : List Wake → SyncLoop → List (Option GoError) × SyncLoop
unfolding round
run_loop [] l = ([], l)
run_loop (tick run ∷ wakes) l = run_loop wakes (round run l).1
run_loop (forced run ∷ wakes) l =
    let (result, woken) = round run l in
    let (results, last) = run_loop wakes woken in (result ∷ results, last)
