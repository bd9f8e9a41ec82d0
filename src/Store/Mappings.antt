-- ===== src/Store/Mappings.antt =====
-- services/chamicore-power/internal/store/postgres_mapping.go: the cached topology. What the
-- database answers to a statement is the argument `Session`; the statements are numbered from 0.
pub mod Transaction
pub mod Query
pub mod Desired
pub mod Replace
pub mod Resolve
use chamicore.Prelude.{
  ℕ, suc, ◌+◌, Bool, true, false, ◌||◌, List, [], ◌∷◌, ◌++◌, map, Option, none, some, length,
  Result, ok, err, and_then, is_empty, if◌then◌else◌,
}
use chamicore.Prelude.Int.{ℤ, pos, pos_part}
use chamicore.Text.{Text, codes}
use chamicore.Text.Trim.{trim_space}
use chamicore.Text.Quote.{quoted}
use chamicore.Text.Unique.{contains, normalized_unique}
use chamicore.Dict.{Dict, lookup, insert, is_some}
use chamicore.GoError.{GoError, wrapped}
use chamicore.Model.{
  BmcEndpoint, NodeBmcLink, MappingApplyCounts, NodePowerMapping, NodeMappingError,
  missing_node_mapping_error, missing_endpoint_error, missing_credential_error,
}
use chamicore.Store.Table.{sorted_rows, keep_keys, count_stale, keep_rows, upsert_all}

-- The tables power.bmc_endpoints and power.node_bmc_links.
pub record Tables : Type 0 where
  pub endpoints : Dict BmcEndpoint
  pub links : Dict NodeBmcLink

pub record Session : Type 0 where
  pub begin : Option GoError
  pub exec : ℕ → Option GoError
  -- The error for a link to a BMC that has no row.
  pub foreign_key : Text → GoError
  -- `RowsAffected` of a statement that deleted so many rows.
  pub rows_affected : ℕ → ℕ → Result GoError ℤ
  pub commit : Option GoError
  -- The error of a query, of a scan or of the iteration, with its prefix.
  pub query : Option GoError

abbrev or_smd : Text → Text
or_smd source = let t = trim_space source in if is_empty t then codes "smd" else t

abbrev pub clean_endpoint : BmcEndpoint → BmcEndpoint
clean_endpoint e = record e {
  bmc_id = trim_space e.bmc_id;
  endpoint = trim_space e.endpoint;
  credential_id = trim_space e.credential_id;
  source = or_smd e.source;
}

-- The map that `normalizeEndpoints` fills.
unfoldable pub endpoints_by_bmc : Dict BmcEndpoint → List BmcEndpoint → Dict BmcEndpoint
endpoints_by_bmc m [] = m
endpoints_by_bmc m (e ∷ es) =
    if is_empty (trim_space e.bmc_id)
    then endpoints_by_bmc m es
    else endpoints_by_bmc (insert (trim_space e.bmc_id) (clean_endpoint e) m) es

unfoldable pub normalize_endpoints : List BmcEndpoint → List BmcEndpoint
unfolding endpoints_by_bmc
normalize_endpoints items = sorted_rows (endpoints_by_bmc [] items)

abbrev pub clean_link : NodeBmcLink → NodeBmcLink
clean_link l = record l {
  node_id = trim_space l.node_id;
  bmc_id = trim_space l.bmc_id;
  source = or_smd l.source;
}

-- The map that `normalizeLinks` fills.
unfoldable pub links_by_node : Dict NodeBmcLink → List NodeBmcLink → Dict NodeBmcLink
links_by_node m [] = m
links_by_node m (l ∷ ls) =
    if is_empty (trim_space l.node_id) || is_empty (trim_space l.bmc_id)
    then links_by_node m ls
    else links_by_node (insert (trim_space l.node_id) (clean_link l) m) ls

unfoldable pub normalize_links : List NodeBmcLink → List NodeBmcLink
unfolding links_by_node
normalize_links items = sorted_rows (links_by_node [] items)

abbrev pub bmc_of : BmcEndpoint → Text
bmc_of e = e.bmc_id

abbrev pub node_of : NodeBmcLink → Text
node_of l = l.node_id
