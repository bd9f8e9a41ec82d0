-- ===== src/Sync/Tests.antt =====
-- One sync on a concrete inventory.
use chamicore.Prelude.{
  ◌≡◌, ◌+◌, refl, true, false, List, [], ◌∷◌, none, some, ok, err, length, if◌then◌else◌,
}
use chamicore.Text.{codes, ◌=ₛ◌}
use chamicore.Text.Trim.{trim_space, trim_left, trim_right, is_space}
use chamicore.Text.Order.{sort_strings, insert_sorted}
use chamicore.Text.Fold.{equal_fold}
use chamicore.Text.Affix.{has_infix}
use chamicore.Text.Unique.{contains}
use chamicore.Dict.{keys, lookup, insert}
use chamicore.GoError.{message}
use chamicore.Prelude.Int.{pos, negsuc}
use chamicore.Model.{MappingApplyCounts}
use chamicore.Mcp.Value.{string, array, nil, cons}
use chamicore.Store.Table.{sorted_rows, upsert_all, keep_keys, keep_rows, count_stale}
use chamicore.Store.Mappings.{Tables, Session}
use chamicore.Store.Mappings.Transaction.{
  stamp_link, replace_topology_mappings, refuse_endpoint, refuse_link, rows_affected_as_int,
}
use chamicore.Store.Mappings.Desired.{synced}
use chamicore.Sync.{
  ParseUrl, Component, EthernetInterface, add_component, add_interface, texts_of, only_texts,
  first_endpoint, build_desired_mappings,
}
use chamicore.Sync.Links.{IsDesired, build_desired_mappings-IsDesired}
use chamicore.Sync.Cycle.{Syncer, CycleRun, no_counts, sync_once}
use chamicore.Sync.Loop.{
  SyncConfig, Wake, tick, forced, new_loop, begin_run, adjust_ticker_interval, round, run_loop,
}
use chamicore.Sync.Loop.Paced.{IsPaced, run_loop-IsPaced}
use chamicore.Sync.Cycle.Ready.{IsTracked, Ends, sync_once-Ends}
use chamicore.Sync.Assigned.{bmc_given, linked}
use chamicore.Sync.Stored.{build_desired_mappings-stored}

-- Knows one URL.
abbrev parse_one : ParseUrl
parse_one url =
    if url =ₛ codes "https://10.0.0.1" then some (codes "https", codes "10.0.0.1") else none

abbrev node : Component
node = record { id = codes "n1"; kind = codes " node "; parent_id = some (codes "b1 ") }

abbrev interface : EthernetInterface
interface = record {
  component_id = codes "b1";
  ip_addrs = some (array (cons (string (codes "10.0.0.1")) nil));
}

build_desired_mappings-IsDesired_example :
    IsDesired
      (build_desired_mappings parse_one (node ∷ []) (interface ∷ []) [] (codes "c1")).0
      (build_desired_mappings parse_one (node ∷ []) (interface ∷ []) [] (codes "c1")).1
build_desired_mappings-IsDesired_example =
    build_desired_mappings-IsDesired parse_one (node ∷ []) (interface ∷ []) [] (codes "c1")

abbrev healthy : Session
healthy = record {
  begin = none;
  exec = λ n. none;
  foreign_key = λ b. message (codes "violates foreign key constraint");
  rows_affected = λ n deleted. ok (pos deleted);
  commit = none;
  query = none;
}

abbrev nothing : Tables
nothing = record { endpoints = []; links = [] }

abbrev one_each : MappingApplyCounts
one_each = record {
  endpoints_upserted = 1;
  endpoints_deleted = 0;
  links_upserted = 1;
  links_deleted = 0;
}

abbrev stored : Tables
stored = record {
  endpoints =
      (
        codes "b1",
        record {
          bmc_id = codes "b1";
          endpoint = codes "https://10.0.0.1";
          credential_id = codes "c1";
          source = codes "smd";
          insecure_skip_verify = false;
          last_synced_at = 7;
          created_at = 7;
          updated_at = 7;
        },
      )
      ∷ [];
  links =
      (
        codes "n1",
        record {
          node_id = codes "n1";
          bmc_id = codes "b1";
          source = codes "smd";
          last_synced_at = 7;
          created_at = 7;
          updated_at = 7;
        },
      )
      ∷ [];
}

stored_run :
    (let desired = build_desired_mappings parse_one (node ∷ []) (interface ∷ []) [] (codes "c1") in
      replace_topology_mappings healthy desired.0 desired.1 7 nothing)
    ≡ (ok one_each, stored)
unfolding build_desired_mappings add_component add_interface texts_of only_texts first_endpoint
    equal_fold has_infix replace_topology_mappings refuse_endpoint refuse_link rows_affected_as_int
    sort_strings insert_sorted lookup insert keys contains trim_space trim_left trim_right is_space
    ◌=ₛ◌ count_stale upsert_all sorted_rows keep_keys keep_rows
stored_run = refl

build_desired_mappings-stored_example :
    lookup (codes "n1") stored.links
    ≡ synced
        (stamp_link 7)
        (lookup (codes "n1") nothing.links)
        (linked (codes "n1") (bmc_given (codes "n1") (node ∷ [])))
unfolding keys
build_desired_mappings-stored_example =
    build_desired_mappings-stored healthy parse_one (node ∷ []) (interface ∷ []) [] (codes "c1") 7
      nothing {counts = one_each} {new = stored} tt stored_run (codes "n1")

-- A syncer before its first cycle.
abbrev fresh : Syncer
fresh = record {
  status = record {
    in_progress = false;
    last_attempt_at = none;
    last_sync_at = none;
    last_component_etag = [];
    last_interface_etag = [];
    last_error = [];
    not_modified = false;
    last_counts = no_counts;
    successful_runs = 0;
    failed_runs = 0;
  };
  last_component_etag = [];
  last_interface_etag = [];
  ready = false;
  default_credential_id = codes "c1";
}

-- SMD lists one node and one interface, and the store takes them.
abbrev first_cycle : CycleRun
first_cycle = record {
  started_at = 6;
  list_components = λ tag. ok (some (node ∷ []));
  list_interfaces = ok (some (interface ∷ []));
  refresh_components = ok none;
  hash_components = λ items. ok (codes "aa");
  hash_interfaces = λ items. ok (codes "bb");
  parse = parse_one;
  existing = ok [];
  synced_at = 7;
  replace = λ es ls now. ok one_each;
  completed_at = 8;
}

sync_once-Ends_example :
    Ends fresh (sync_once first_cycle fresh)
    × ((sync_once first_cycle fresh).1.status.in_progress ≡ false)
    × IsTracked (sync_once first_cycle fresh).1
sync_once-Ends_example = sync_once-Ends first_cycle fresh (λ e. refl)

first_cycle-ready : (sync_once first_cycle fresh).1.ready ≡ true
unfolding sync_once
first_cycle-ready = refl

-- SMD does not answer.
abbrev failed_cycle : CycleRun
failed_cycle = record first_cycle { list_components = λ tag. err (message (codes "refused")) }

abbrev config : SyncConfig
config = record {
  interval = pos 0;
  startup_retry_interval = negsuc 4;
  sync_on_startup = true;
  default_credential_id = codes "c1";
}

-- The cycle at the start and one at a tick fail, and a forced one succeeds.
abbrev wakes : List Wake
wakes = tick failed_cycle ∷ forced first_cycle ∷ []

run_loop-IsPaced_example :
    IsPaced (length wakes + 1) (run_loop wakes (begin_run failed_cycle (new_loop config))).1
run_loop-IsPaced_example = run_loop-IsPaced config failed_cycle wakes

-- At first the ticker runs at the interval between retries, at last at the regular one.
retry_run : (begin_run failed_cycle (new_loop config)).period ≡ pos 1_000_000_000
unfolding begin_run sync_once
retry_run = refl

regular_run :
    (run_loop wakes (begin_run failed_cycle (new_loop config))).1.period ≡ pos 300_000_000_000
unfolding run_loop round adjust_ticker_interval begin_run sync_once
regular_run = refl
