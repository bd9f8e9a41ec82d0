-- ===== src/Store/Mappings/Query.antt =====
-- `ResolveNodeMappings`, `ListBMCEndpoints` and `ListNodeBMCLinks` of postgres_mapping.go.
use chamicore.Prelude.{List, [], ◌∷◌, Option, none, some, Result, ok, err, is_empty, if◌then◌else◌}
use chamicore.Text.{Text}
use chamicore.Text.Trim.{trim_space}
use chamicore.Text.Unique.{contains, normalized_unique}
use chamicore.Dict.{Dict, lookup, insert}
use chamicore.GoError.{GoError}
use chamicore.Model.{
  BmcEndpoint, NodeBmcLink, NodePowerMapping, NodeMappingError, missing_node_mapping_error,
  missing_endpoint_error, missing_credential_error,
}
use chamicore.Store.Table.{sorted_rows}
use chamicore.Store.Mappings.{Tables, Session}

-- `normalizeNodeIDs`: what was asked for, in order, and each of it once.
unfoldable pub requested_nodes : List Text → List Text
requested_nodes [] = []
requested_nodes (x ∷ xs) =
    let rest = requested_nodes xs in if is_empty (trim_space x) then rest else trim_space x ∷ rest

unfoldable pub query_nodes : List Text → List Text
query_nodes node_ids = normalized_unique node_ids

abbrev pub joined_row : Text → NodeBmcLink → BmcEndpoint → NodePowerMapping
joined_row node l e = record {
  node_id = node;
  bmc_id = l.bmc_id;
  endpoint = e.endpoint;
  credential_id = e.credential_id;
  insecure_skip_verify = e.insecure_skip_verify;
}

abbrev pub joined : Text → NodeBmcLink → Option BmcEndpoint → Option NodePowerMapping
joined node l none = none
joined node l (some e) = some (joined_row node l e)

abbrev add_row : Option NodePowerMapping → Dict NodePowerMapping → Dict NodePowerMapping
add_row none m = m
add_row (some row) m = insert row.node_id row m

-- The join of the links of the queried nodes with the endpoints, put into the map `byNode`.
unfoldable pub rows_by_node :
    List Text → Dict BmcEndpoint → Dict NodeBmcLink → Dict NodePowerMapping
rows_by_node query endpoints [] = []
rows_by_node query endpoints ((node, l) ∷ links) =
    let rest = rows_by_node query endpoints links in
    if contains query node then add_row (joined node l (lookup l.bmc_id endpoints)) rest else rest

-- One round of the last loop: a mapping, or why there is none.
unfoldable pub resolve_node :
    Text → Option NodePowerMapping → Result NodeMappingError NodePowerMapping
resolve_node node none = err (missing_node_mapping_error node)
resolve_node node (some row) =
    if is_empty (trim_space row.endpoint)
    then err (missing_endpoint_error node row.bmc_id)
    else if is_empty (trim_space row.credential_id)
    then err (missing_credential_error node row.bmc_id)
    else ok row

abbrev pub add_answer :
    Result NodeMappingError NodePowerMapping
    → List NodePowerMapping × List NodeMappingError
    → List NodePowerMapping × List NodeMappingError
add_answer (ok row) (resolved, missing) = (row ∷ resolved, missing)
add_answer (err e) (resolved, missing) = (resolved, e ∷ missing)

unfoldable pub resolve_all :
    Dict NodePowerMapping → List Text → List NodePowerMapping × List NodeMappingError
unfolding resolve_node
resolve_all by_node [] = ([], [])
resolve_all by_node (node ∷ nodes) =
    let rest = resolve_all by_node nodes in
    add_answer (resolve_node node (lookup node by_node)) rest

-- What a query selects, or its error.
abbrev pub queried : {A : Type 0} → Option GoError → A → Result GoError A
queried (some e) rows = err e
queried none rows = ok rows

-- `ResolveNodeMappings`.
unfoldable pub resolve_node_mappings :
    Session → List Text → Tables → Result GoError (List NodePowerMapping × List NodeMappingError)
unfolding resolve_all rows_by_node requested_nodes query_nodes
resolve_node_mappings session node_ids t =
    if is_empty (requested_nodes node_ids)
    then ok ([], [])
    else queried session.query (
        resolve_all (rows_by_node (query_nodes node_ids) t.endpoints t.links)
          (requested_nodes node_ids))

-- `ListBMCEndpoints` and `ListNodeBMCLinks`, where the database compares texts byte by byte.
unfoldable pub list_bmc_endpoints : Session → Tables → Result GoError (List BmcEndpoint)
list_bmc_endpoints session t = queried session.query (sorted_rows t.endpoints)

unfoldable pub list_node_bmc_links : Session → Tables → Result GoError (List NodeBmcLink)
list_node_bmc_links session t = queried session.query (sorted_rows t.links)
