-- ===== src/Model.antt =====
-- services/chamicore-power/internal/model/mapping.go: what the mapping cache, the syncer and the
-- runner exchange. Times are nanoseconds since the epoch.
use chamicore.Prelude.{ℕ, Bool, ◌++◌}
use chamicore.Text.{Text, codes}
use chamicore.Text.Trim.{trim_space}
use chamicore.Text.Quote.{quoted}

pub record BmcEndpoint : Type 0 where
  pub bmc_id : Text
  pub endpoint : Text
  pub credential_id : Text
  pub source : Text
  pub insecure_skip_verify : Bool
  pub last_synced_at : ℕ
  pub created_at : ℕ
  pub updated_at : ℕ

pub record NodeBmcLink : Type 0 where
  pub node_id : Text
  pub bmc_id : Text
  pub source : Text
  pub last_synced_at : ℕ
  pub created_at : ℕ
  pub updated_at : ℕ

pub record MappingApplyCounts : Type 0 where
  pub endpoints_upserted : ℕ
  pub endpoints_deleted : ℕ
  pub links_upserted : ℕ
  pub links_deleted : ℕ

pub record NodePowerMapping : Type 0 where
  pub node_id : Text
  pub bmc_id : Text
  pub endpoint : Text
  pub credential_id : Text
  pub insecure_skip_verify : Bool

pub data MappingErrorCode : Type 0 where
  mapping_not_found endpoint_missing credential_missing : MappingErrorCode

pub record NodeMappingError : Type 0 where
  pub detail : Text
  pub node_id : Text
  pub code : MappingErrorCode

unfoldable pub missing_node_mapping_error : Text → NodeMappingError
missing_node_mapping_error node_id =
    let node = trim_space node_id in
    record {
      detail =
          codes "node "
          ++ (quoted node
              ++ codes
                  " has no BMC mapping in local cache; run POST /power/v1/admin/mappings/sync (discovery is not auto-triggered)");
      node_id = node;
      code = mapping_not_found;
    }

unfoldable pub missing_endpoint_error : Text → Text → NodeMappingError
missing_endpoint_error node_id bmc_id =
    let node = trim_space node_id in
    record {
      detail =
          codes "node "
          ++ (quoted node
              ++ (codes " maps to BMC "
                  ++ (quoted (trim_space bmc_id)
                      ++ codes
                          " without a Redfish endpoint; run POST /power/v1/admin/mappings/sync or fix SMD interface data")));
      node_id = node;
      code = endpoint_missing;
    }

unfoldable pub missing_credential_error : Text → Text → NodeMappingError
missing_credential_error node_id bmc_id =
    let node = trim_space node_id in
    record {
      detail =
          codes "node "
          ++ (quoted node
              ++ (codes " maps to BMC "
                  ++ (quoted (trim_space bmc_id)
                      ++ codes
                          " without credential_id binding; configure a per-BMC credential then resync")));
      node_id = node;
      code = credential_missing;
    }
