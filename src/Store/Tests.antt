-- ===== src/Store/Tests.antt =====
-- The mapping tables on concrete inputs.
use chamicore.Prelude.{◌≡◌, refl, false, [], ◌∷◌, none, ok}
use chamicore.Prelude.Int.{pos}
use chamicore.Text.{codes, ◌=ₛ◌}
use chamicore.Text.Trim.{trim_space, trim_left, trim_right, is_space}
use chamicore.Text.Order.{sort_strings, insert_sorted}
use chamicore.Text.Unique.{contains}
use chamicore.Dict.{keys, lookup, insert}
use chamicore.GoError.{message}
use chamicore.Model.{BmcEndpoint, NodeBmcLink}
use chamicore.Store.Table.{sorted_rows, upsert_all, keep_keys, keep_rows, count_stale}
use chamicore.Store.Mappings.{Tables, Session}
use chamicore.Store.Mappings.Transaction.{
  replace_topology_mappings, refuse_endpoint, refuse_link, rows_affected_as_int,
}
use chamicore.Store.Mappings.Query.{resolve_node_mappings, requested_nodes}
use chamicore.Store.Mappings.Replace.{Replaced, replace_topology_mappings-Replaced}
use chamicore.Store.Mappings.Resolve.{Resolved, resolve_node_mappings-Resolved}

abbrev healthy : Session
healthy = record {
  begin = none;
  exec = λ n. none;
  foreign_key = λ b. message (codes "violates foreign key constraint");
  rows_affected = λ n deleted. ok (pos deleted);
  commit = none;
  query = none;
}

abbrev bmc : BmcEndpoint
bmc = record {
  bmc_id = codes " b1 ";
  endpoint = codes "https://b1";
  credential_id = codes "c1";
  source = [];
  insecure_skip_verify = false;
  last_synced_at = 0;
  created_at = 0;
  updated_at = 0;
}

abbrev link : NodeBmcLink
link = record {
  node_id = codes "n1";
  bmc_id = codes "b1";
  source = [];
  last_synced_at = 0;
  created_at = 0;
  updated_at = 0;
}

-- A table with a BMC that is gone and the link to it.
abbrev before : Tables
before = record {
  endpoints = (codes "b0", record bmc { bmc_id = codes "b0" }) ∷ [];
  links = (codes "n0", record link { node_id = codes "n0"; bmc_id = codes "b0" }) ∷ [];
}

replace_topology_mappings-Replaced_example :
    Replaced 7
      (bmc ∷ [])
      (link ∷ [])
      before
      (replace_topology_mappings healthy (bmc ∷ []) (link ∷ []) 7 before)
unfolding keys contains
replace_topology_mappings-Replaced_example =
    replace_topology_mappings-Replaced healthy (bmc ∷ []) (link ∷ []) 7 before (refl, tt)

abbrev after : Tables
after = record {
  endpoints =
      (
        codes "b1",
        record bmc {
          bmc_id = codes "b1";
          source = codes "smd";
          last_synced_at = 7;
          created_at = 7;
          updated_at = 7;
        },
      )
      ∷ [];
  links =
      (
        codes "n1",
        record link { source = codes "smd"; last_synced_at = 7; created_at = 7; updated_at = 7 },
      )
      ∷ [];
}

replaced_run : replace_topology_mappings healthy (bmc ∷ []) (link ∷ []) 7 before ≡ (
  ok (record {
    endpoints_upserted = 1;
    endpoints_deleted = 1;
    links_upserted = 1;
    links_deleted = 1;
  }),
  after,
)
unfolding replace_topology_mappings refuse_endpoint refuse_link rows_affected_as_int sort_strings
    insert_sorted lookup insert keys contains trim_space trim_left trim_right is_space ◌=ₛ◌
    count_stale upsert_all sorted_rows keep_keys keep_rows
replaced_run = refl

resolve_node_mappings-Resolved_example :
    Resolved healthy after
      (requested_nodes (codes "n1" ∷ codes "n2" ∷ []))
      (resolve_node_mappings healthy (codes "n1" ∷ codes "n2" ∷ []) after)
unfolding keys contains
resolve_node_mappings-Resolved_example =
    resolve_node_mappings-Resolved healthy (codes "n1" ∷ codes "n2" ∷ []) after (refl, tt)
