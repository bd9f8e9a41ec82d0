-- ===== src/Store/Mappings/Transaction.antt =====
-- `ReplaceTopologyMappings` of postgres_mapping.go: the statements of its transaction.
use chamicore.Prelude.{
  ℕ, ◌+◌, Bool, List, [], ◌++◌, map, Option, none, some, length, Result, ok, err, and_then,
  if◌then◌else◌,
}
use chamicore.Prelude.Int.{ℤ, pos_part}
use chamicore.Text.{Text, codes}
use chamicore.Text.Quote.{quoted}
use chamicore.Dict.{Dict, lookup, is_some}
use chamicore.GoError.{GoError, wrapped}
use chamicore.Model.{BmcEndpoint, NodeBmcLink, MappingApplyCounts}
use chamicore.Store.Table.{keep_keys, count_stale, keep_rows, upsert_all}
use chamicore.Store.Mappings.{
  Tables, Session, normalize_endpoints, normalize_links, bmc_of, node_of,
}

-- The row after the upsert: the creation time is that of the row that was there.
abbrev pub stamp_endpoint : ℕ → Option BmcEndpoint → BmcEndpoint → BmcEndpoint
stamp_endpoint now none e = record e { last_synced_at = now; created_at = now; updated_at = now }
stamp_endpoint now (some old) e = record e {
  last_synced_at = now;
  created_at = old.created_at;
  updated_at = now;
}

abbrev pub stamp_link : ℕ → Option NodeBmcLink → NodeBmcLink → NodeBmcLink
stamp_link now none l = record l { last_synced_at = now; created_at = now; updated_at = now }
stamp_link now (some old) l = record l {
  last_synced_at = now;
  created_at = old.created_at;
  updated_at = now;
}

unfoldable pub refuse_endpoint : Session → ℕ → BmcEndpoint → Option GoError
refuse_endpoint session n e = elim (session.exec n) [
  | none ↦ none
  | some x ↦ some (wrapped (codes "upserting endpoint " ++ (quoted e.bmc_id ++ codes ": ")) x [])
]

abbrev link_error : NodeBmcLink → GoError → GoError
link_error l x = wrapped (codes "upserting link for node " ++ (quoted l.node_id ++ codes ": ")) x []

-- The foreign key of a link is its BMC.
unfoldable pub refuse_link : Session → Dict BmcEndpoint → ℕ → NodeBmcLink → Option GoError
refuse_link session endpoints n l = elim (session.exec n) [
  | some x ↦ some (link_error l x)
  | none ↦
      if is_some (lookup l.bmc_id endpoints)
      then none
      else some (link_error l (session.foreign_key l.bmc_id))
]

-- `rowsAffectedAsInt`: a negative number counts as 0.
unfoldable pub rows_affected_as_int : Result GoError ℤ → Text → Result GoError ℕ
rows_affected_as_int (err e) label =
    err (wrapped (codes "reading rows affected for " ++ (label ++ codes ": ")) e [])
rows_affected_as_int (ok n) label = ok (pos_part n)

-- The part that `deleteStaleLinks` and `deleteStaleEndpoints` share: the answer to their statement.
unfoldable pub delete_stale : Session → ℕ → ℕ → Text → Result GoError ℕ
unfolding rows_affected_as_int
delete_stale session n stale label = elim (session.exec n) [
  | some e ↦ err (wrapped (codes "deleting " ++ (label ++ codes ": ")) e [])
  | none ↦ rows_affected_as_int (session.rows_affected n stale) label
]

-- A link whose BMC still has a row.
abbrev pub refers_to : Dict BmcEndpoint → NodeBmcLink → Bool
refers_to endpoints l = is_some (lookup l.bmc_id endpoints)

-- What the two deletions leave.
abbrev pub without_stale :
    List BmcEndpoint → List NodeBmcLink → Dict BmcEndpoint → Dict NodeBmcLink → Tables
without_stale es ls endpoints links =
    let kept = keep_keys (map bmc_of es) endpoints in
    record {
      endpoints = kept;
      links = keep_rows (refers_to kept) (keep_keys (map node_of ls) links);
    }

-- The two deletions and the counts.
unfoldable pub delete_all_stale :
    Session
    → List BmcEndpoint
    → List NodeBmcLink
    → Dict BmcEndpoint
    → Dict NodeBmcLink
    → Result GoError (MappingApplyCounts × Tables)
unfolding delete_stale
delete_all_stale session es ls endpoints links =
    and_then
      (delete_stale session (length es + length ls) (count_stale (map node_of ls) links)
        (codes "stale node links"))
      (λ links_deleted.
        and_then
          (delete_stale session (length es + length ls + 1) (count_stale (map bmc_of es) endpoints)
            (codes "stale BMC endpoints"))
          (λ endpoints_deleted. ok (
            record {
              endpoints_upserted = length es;
              endpoints_deleted = endpoints_deleted;
              links_upserted = length ls;
              links_deleted = links_deleted;
            },
            without_stale es ls endpoints links,
          )))

-- The loop over the links, and what follows.
unfoldable pub write_links :
    Session
    → ℕ
    → List BmcEndpoint
    → List NodeBmcLink
    → Dict NodeBmcLink
    → Dict BmcEndpoint
    → Result GoError (MappingApplyCounts × Tables)
unfolding delete_all_stale
write_links session now es ls old endpoints =
    and_then
      (upsert_all node_of (stamp_link now) (refuse_link session endpoints) (length es) ls old)
      (delete_all_stale session es ls endpoints)

-- The statements between the start of the transaction and its commit.
unfoldable pub transaction :
    Session
    → ℕ
    → List BmcEndpoint
    → List NodeBmcLink
    → Tables
    → Result GoError (MappingApplyCounts × Tables)
unfolding write_links
transaction session now es ls t =
    and_then (upsert_all bmc_of (stamp_endpoint now) (refuse_endpoint session) 0 es t.endpoints)
      (write_links session now es ls t.links)

abbrev pub committed :
    Option GoError
    → Tables
    → Result GoError (MappingApplyCounts × Tables)
    → Result GoError MappingApplyCounts × Tables
committed commit t (err e) = (err e, t)
committed (some e) t (ok r) = (err (wrapped (codes "committing mapping transaction: ") e []), t)
committed none t (ok (counts, new)) = (ok counts, new)

abbrev pub begun :
    Option GoError
    → Tables
    → Result GoError MappingApplyCounts × Tables
    → Result GoError MappingApplyCounts × Tables
begun (some e) t r = (err (wrapped (codes "starting mapping transaction: ") e []), t)
begun none t r = r

-- `ReplaceTopologyMappings`: the answer, and the tables after the commit or the rollback.
unfoldable pub replace_topology_mappings :
    Session
    → List BmcEndpoint
    → List NodeBmcLink
    → ℕ
    → Tables
    → Result GoError MappingApplyCounts × Tables
unfolding transaction normalize_endpoints normalize_links
replace_topology_mappings session endpoints links synced_at t = begun session.begin t (
    committed session.commit t
      (transaction session synced_at (normalize_endpoints endpoints) (normalize_links links) t))
