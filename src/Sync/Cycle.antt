-- ===== src/Sync/Cycle.antt =====
-- `SyncOnce` of services/chamicore-power/internal/sync/smd_sync.go and the state it keeps. What SMD
-- and the store answer, and the clock, are the argument `CycleRun`.
pub mod Ready
use chamicore.Prelude.{
  ℕ, ◌+◌, Bool, true, false, List, [], ◌∷◌, ◌++◌, Option, none, some, Result, ok, err,
  if◌then◌else◌,
}
use chamicore.Text.{Text, codes, ◌=ₛ◌}
use chamicore.GoError.{GoError, message, wrapped, error_text}
use chamicore.Model.{BmcEndpoint, NodeBmcLink, MappingApplyCounts}
use chamicore.Sync.{ParseUrl, Component, EthernetInterface, build_desired_mappings}

pub record Status : Type 0 where
  pub in_progress : Bool
  pub last_attempt_at : Option ℕ
  pub last_sync_at : Option ℕ
  pub last_component_etag : Text
  pub last_interface_etag : Text
  pub last_error : Text
  pub not_modified : Bool
  pub last_counts : MappingApplyCounts
  pub successful_runs : ℕ
  pub failed_runs : ℕ

pub record Syncer : Type 0 where
  pub status : Status
  pub last_component_etag : Text
  pub last_interface_etag : Text
  pub ready : Bool
  pub default_credential_id : Text

-- A nil list is `none`; `hash_*` is the hexadecimal digest of the list's JSON, or the error of
-- encoding it.
pub record CycleRun : Type 0 where
  pub started_at : ℕ
  pub list_components : (if_none_match : Text) → Result GoError (Option (List Component))
  pub list_interfaces : Result GoError (Option (List EthernetInterface))
  pub refresh_components : Result GoError (Option (List Component))
  pub hash_components : List Component → Result GoError Text
  pub hash_interfaces : List EthernetInterface → Result GoError Text
  pub parse : ParseUrl
  pub existing : Result GoError (List BmcEndpoint)
  pub synced_at : ℕ
  pub replace : List BmcEndpoint → List NodeBmcLink → ℕ → Result GoError MappingApplyCounts
  pub completed_at : ℕ

abbrev pub no_counts : MappingApplyCounts
no_counts = record {
  endpoints_upserted = 0;
  endpoints_deleted = 0;
  links_upserted = 0;
  links_deleted = 0;
}

abbrev etag_of : Result GoError Text → Result GoError Text
etag_of (err e) = err (wrapped (codes "marshaling resource list: ") e [])
etag_of (ok digest) = ok (codes "W/\"" ++ (digest ++ codes "\""))

-- `computeResourceListETag`.
unfoldable pub compute_etag :
    {A : Type 0} → (List A → Result GoError Text) → Option (List A) → Result GoError Text
compute_etag hash none = err (message (codes "resource list is nil"))
compute_etag hash (some items) = etag_of (hash items)

-- The first `updateStatus` of a cycle.
abbrev pub begin_cycle : CycleRun → Syncer → Syncer
begin_cycle run s = record s {
  status = record (s.status) {
    in_progress = true;
    last_attempt_at = some run.started_at;
    last_error = [];
    not_modified = false;
  };
}

-- `markFailure`.
abbrev pub mark_failure : GoError → Syncer → Syncer
mark_failure e s = record s {
  status = record (s.status) {
    failed_runs = s.status.failed_runs + 1;
    last_error = error_text e;
    not_modified = false;
    last_counts = no_counts;
  };
}

-- The deferred `updateStatus`.
abbrev pub end_cycle : Syncer → Syncer
end_cycle s = record s { status = record (s.status) { in_progress = false } }

abbrev pub fail : Text → GoError → Syncer → Option GoError × Syncer
fail prefix e s = (some (wrapped prefix e []), mark_failure e s)

-- The end of a cycle that found nothing new.
abbrev pub unchanged : CycleRun → Syncer → Syncer
unchanged run s = record s {
  status = record (s.status) {
    last_sync_at = some run.completed_at;
    not_modified = true;
    last_counts = no_counts;
    successful_runs = s.status.successful_runs + 1;
  };
}

-- The end of a cycle that wrote the mappings.
abbrev pub applied : CycleRun → Text → Text → MappingApplyCounts → Syncer → Syncer
applied run component_etag interface_etag counts s = record s {
  last_component_etag = component_etag;
  last_interface_etag = interface_etag;
  ready = true;
  status = record (s.status) {
    last_sync_at = some run.completed_at;
    last_component_etag = component_etag;
    last_interface_etag = interface_etag;
    last_counts = counts;
    not_modified = false;
    successful_runs = s.status.successful_runs + 1;
    last_error = [];
  };
}

abbrev pub after_replace :
    CycleRun → Text → Text → Syncer → Result GoError MappingApplyCounts → Option GoError × Syncer
after_replace run component_etag interface_etag s (err e) =
    fail (codes "reconciling topology mappings: ") e s
after_replace run component_etag interface_etag s (ok counts) =
    (none, applied run component_etag interface_etag counts s)

abbrev pub after_existing :
    CycleRun
    → List Component
    → List EthernetInterface
    → Text
    → Text
    → Syncer
    → Result GoError (List BmcEndpoint)
    → Option GoError × Syncer
after_existing run components interfaces component_etag interface_etag s (err e) =
    fail (codes "listing existing BMC endpoint mappings: ") e s
after_existing run components interfaces component_etag interface_etag s (ok existing) =
    let desired =
      build_desired_mappings run.parse components interfaces existing s.default_credential_id in
    after_replace run component_etag interface_etag s
      (run.replace desired.0 desired.1 run.synced_at)

-- From the components on.
abbrev pub after_component_etag :
    CycleRun
    → List Component
    → List EthernetInterface
    → Text
    → Syncer
    → Result GoError Text
    → Option GoError × Syncer
after_component_etag run components interfaces interface_etag s (err e) =
    fail (codes "computing component etag: ") e s
after_component_etag run components interfaces interface_etag s (ok component_etag) =
    after_existing run components interfaces component_etag interface_etag s run.existing

abbrev pub reconcile :
    CycleRun → List EthernetInterface → Text → Syncer → List Component → Option GoError × Syncer
reconcile run interfaces interface_etag s components =
    after_component_etag run components interfaces interface_etag s
      (compute_etag run.hash_components (some components))

abbrev pub after_refresh :
    CycleRun
    → List EthernetInterface
    → Text
    → Syncer
    → Result GoError (Option (List Component))
    → Option GoError × Syncer
after_refresh run interfaces interface_etag s (err e) =
    fail (codes "refreshing components from SMD: ") e s
after_refresh run interfaces interface_etag s (ok none) = (
  some (message (codes "refreshing components from SMD: empty response")),
  mark_failure (message (codes "component refresh unexpectedly returned nil")) s,
)
after_refresh run interfaces interface_etag s (ok (some components)) =
    reconcile run interfaces interface_etag s components

-- From the entity tag of the interfaces on: nothing new, or a refresh where it is needed.
abbrev pub after_interface_etag :
    CycleRun
    → Option (List Component)
    → List EthernetInterface
    → Syncer
    → Result GoError Text
    → Option GoError × Syncer
after_interface_etag run components interfaces s (err e) =
    fail (codes "computing interface etag: ") e s
after_interface_etag run none interfaces s (ok interface_etag) =
    if interface_etag =ₛ s.last_interface_etag
    then (none, unchanged run s)
    else after_refresh run interfaces interface_etag s run.refresh_components
after_interface_etag run (some components) interfaces s (ok interface_etag) =
    reconcile run interfaces interface_etag s components

abbrev listed : Option (List EthernetInterface) → List EthernetInterface
listed none = []
listed (some interfaces) = interfaces

abbrev pub after_interfaces :
    CycleRun
    → Option (List Component)
    → Syncer
    → Result GoError (Option (List EthernetInterface))
    → Option GoError × Syncer
after_interfaces run components s (err e) =
    fail (codes "listing ethernet interfaces from SMD: ") e s
after_interfaces run components s (ok interfaces) =
    after_interface_etag run components (listed interfaces) s
      (compute_etag run.hash_interfaces interfaces)

abbrev pub after_components :
    CycleRun → Syncer → Result GoError (Option (List Component)) → Option GoError × Syncer
after_components run s (err e) = fail (codes "listing components from SMD: ") e s
after_components run s (ok components) = after_interfaces run components s run.list_interfaces

-- `SyncOnce`: the error, and the state afterwards.
unfoldable pub sync_once : CycleRun → Syncer → Option GoError × Syncer
unfolding compute_etag build_desired_mappings
sync_once run s =
    let begun = begin_cycle run s in
    let r = after_components run begun (run.list_components s.last_component_etag) in
    (r.0, end_cycle r.1)
