-- ===== src/Sync/Cycle/Ready.antt =====
-- How a cycle ends: the counters, the error, the entity tags and the readiness.
use chamicore.Prelude.{
  ◌+◌, ◌≡◌, ◌≢◌, refl, ap, sym, ◌∙◌, Bool, true, false, List, [], Option, none, some, arith, Result,
  ok, err, inl, inr, Bool-cases, Result-cases, if◌then◌else◌,
}
use chamicore.Text.{Text, ◌=ₛ◌, =ₛ_iff}
use chamicore.GoError.{GoError}
use chamicore.Model.{BmcEndpoint, MappingApplyCounts}
use chamicore.Sync.{Component, EthernetInterface, build_desired_mappings}
use chamicore.Sync.Cycle.{
  Syncer, CycleRun, compute_etag, begin_cycle, end_cycle, after_replace, after_existing,
  after_component_etag, reconcile, after_refresh, after_interface_etag, after_interfaces,
  after_components, sync_once,
}

-- A syncer that has not applied any mappings has no entity tag of the interfaces.
abbrev pub IsTracked : Syncer → Type 0
IsTracked s = s.ready ≡ false → s.last_interface_etag ≡ []

-- A failure counts as one and changes neither the tags nor the readiness; a success counts as one,
-- clears the error and leaves the syncer ready.
abbrev pub Ends : Syncer → Option GoError × Syncer → Type 0
Ends s (some e, new) =
    (new.status.failed_runs ≡ s.status.failed_runs + 1)
    × (new.status.successful_runs ≡ s.status.successful_runs)
    × (new.status.last_sync_at ≡ s.status.last_sync_at)
    × (new.last_component_etag ≡ s.last_component_etag)
    × (new.last_interface_etag ≡ s.last_interface_etag)
    × (new.ready ≡ s.ready)
Ends s (none, new) =
    (new.status.successful_runs ≡ s.status.successful_runs + 1)
    × (new.status.failed_runs ≡ s.status.failed_runs)
    × (new.status.last_error ≡ [])
    × (new.ready ≡ true)

-- What holds when a cycle has begun.
record IsBegun (s : Syncer) : Type 0 where
  no_error : s.status.last_error ≡ []
  tracked : IsTracked s

after_replace-Ends :
    (run : CycleRun) (c i : Text) (s : Syncer) (r : Result GoError MappingApplyCounts)
    → Ends s (after_replace run c i s r)
after_replace-Ends run c i s (err e) = (refl, refl, refl, refl, refl, refl)
after_replace-Ends run c i s (ok counts) = (refl, refl, refl, refl)

after_existing-Ends :
    (run : CycleRun) (components : List Component) (interfaces : List EthernetInterface)
    (c i : Text) (s : Syncer) (r : Result GoError (List BmcEndpoint))
    → Ends s (after_existing run components interfaces c i s r)
after_existing-Ends run components interfaces c i s (err e) = (refl, refl, refl, refl, refl, refl)
after_existing-Ends run components interfaces c i s (ok existing) = after_replace-Ends run c i s (
    run.replace
      (build_desired_mappings run.parse components interfaces existing s.default_credential_id).0
      (build_desired_mappings run.parse components interfaces existing s.default_credential_id).1
      run.synced_at)

after_component_etag-Ends :
    (run : CycleRun) (components : List Component) (interfaces : List EthernetInterface) (i : Text)
    (s : Syncer) (r : Result GoError Text)
    → Ends s (after_component_etag run components interfaces i s r)
after_component_etag-Ends run components interfaces i s (err e) =
    (refl, refl, refl, refl, refl, refl)
after_component_etag-Ends run components interfaces i s (ok c) =
    after_existing-Ends run components interfaces c i s run.existing

reconcile-Ends :
    (run : CycleRun) (interfaces : List EthernetInterface) (i : Text) (s : Syncer)
    (components : List Component)
    → Ends s (reconcile run interfaces i s components)
reconcile-Ends run interfaces i s components =
    after_component_etag-Ends run components interfaces i s
      (compute_etag run.hash_components (some components))

after_refresh-Ends :
    (run : CycleRun) (interfaces : List EthernetInterface) (i : Text) (s : Syncer)
    (r : Result GoError (Option (List Component)))
    → Ends s (after_refresh run interfaces i s r)
after_refresh-Ends run interfaces i s (err e) = (refl, refl, refl, refl, refl, refl)
after_refresh-Ends run interfaces i s (ok none) = (refl, refl, refl, refl, refl, refl)
after_refresh-Ends run interfaces i s (ok (some components)) =
    reconcile-Ends run interfaces i s components

-- A tag is never the empty text, so equal tags mean that mappings were applied before.
ready-of_tag :
    (s : Syncer) (i : Text) → IsTracked s → i ≡ s.last_interface_etag → i ≢ [] → s.ready ≡ true
ready-of_tag s i tracked same filled = elim (Bool-cases s.ready) [
  | inl e ↦ e
  | inr e ↦ absurd (filled (same ∙ tracked e))
]

unless_same-Ends :
    (b : Bool) (x y : Option GoError × Syncer) (s : Syncer)
    → (b ≡ true → Ends s x)
    → Ends s y
    → Ends s (if b then x else y)
unless_same-Ends true x y s h k = h refl
unless_same-Ends false x y s h k = k

after_interface_etag-Ends :
    (run : CycleRun) (components : Option (List Component)) (interfaces : List EthernetInterface)
    (s : Syncer) (r : Result GoError Text)
    → IsBegun s
    → r ≢ ok []
    → Ends s (after_interface_etag run components interfaces s r)
after_interface_etag-Ends run components interfaces s (err e) b filled =
    (refl, refl, refl, refl, refl, refl)
after_interface_etag-Ends run (some components) interfaces s (ok i) b filled =
    reconcile-Ends run interfaces i s components
after_interface_etag-Ends run none interfaces s (ok i) b filled =
    unless_same-Ends (i =ₛ s.last_interface_etag) _ _ s
      (λ same. (
        refl,
        refl,
        b.no_error,
        ready-of_tag s i b.tracked ((=ₛ_iff i s.last_interface_etag).0 same)
            (λ blank. filled (ap ok blank)),
      ))
      (after_refresh-Ends run interfaces i s run.refresh_components)

compute_etag-filled :
    {A : Type 0} (hash : List A → Result GoError Text) (items : Option (List A))
    → compute_etag hash items ≢ ok []
unfolding compute_etag
compute_etag-filled hash none h = ground (arith, h)
compute_etag-filled hash (some items) h = elim (Result-cases (hash items)) [
  | inl (x, e) ↦ ground (arith, h, e)
  | inr (x, e) ↦ ground (arith, h, e)
]

after_interfaces-Ends :
    (run : CycleRun) (components : Option (List Component)) (s : Syncer)
    (r : Result GoError (Option (List EthernetInterface)))
    → IsBegun s
    → Ends s (after_interfaces run components s r)
after_interfaces-Ends run components s (err e) b = (refl, refl, refl, refl, refl, refl)
after_interfaces-Ends run components s (ok interfaces) b =
    after_interface_etag-Ends run components _ s (compute_etag run.hash_interfaces interfaces) b
      (compute_etag-filled run.hash_interfaces interfaces)

after_components-Ends :
    (run : CycleRun) (s : Syncer) (r : Result GoError (Option (List Component)))
    → IsBegun s
    → Ends s (after_components run s r)
after_components-Ends run s (err e) b = (refl, refl, refl, refl, refl, refl)
after_components-Ends run s (ok components) b =
    after_interfaces-Ends run components s run.list_interfaces b

end_cycle-Ends :
    (run : CycleRun) (s : Syncer) (r : Option GoError × Syncer)
    → Ends (begin_cycle run s) r
    → Ends s (r.0, end_cycle r.1)
end_cycle-Ends run s (none, new) h = h
end_cycle-Ends run s (some e, new) h = h

IsTracked-of_Ends :
    (s : Syncer) (r : Option GoError × Syncer) → IsTracked s → Ends s r → IsTracked r.1
IsTracked-of_Ends s (none, new) t h e = ground (arith, h.3, e)
IsTracked-of_Ends s (some x, new) t h e = h.4 ∙ t (sym h.5 ∙ e)

-- However SMD and the store answer, a cycle that fails adds one to the failed runs and keeps the
-- number of successful runs, the entity tags, the time of the last sync and the readiness; a cycle
-- that succeeds adds one to the successful runs, keeps the number of failed runs, leaves no error,
-- and leaves the syncer ready, also where it found nothing modified. Afterwards no cycle is in
-- progress. The syncer must have no tag of the interfaces before it is ready, and this still holds
-- afterwards.
pub sync_once-Ends :
    (run : CycleRun) (s : Syncer)
    → IsTracked s
    → Ends s (sync_once run s)
      × ((sync_once run s).1.status.in_progress ≡ false)
      × IsTracked (sync_once run s).1
unfolding sync_once
sync_once-Ends run s tracked =
    let ends =
      end_cycle-Ends run s
        (after_components run (begin_cycle run s) (run.list_components s.last_component_etag))
        (after_components-Ends run (begin_cycle run s) (run.list_components s.last_component_etag)
          (record { no_error = refl; tracked = tracked })) in
    (ends, refl, IsTracked-of_Ends s _ tracked ends)
