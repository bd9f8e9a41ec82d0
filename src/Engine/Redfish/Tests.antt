-- ===== src/Engine/Redfish/Tests.antt =====
-- Power actions over Redfish on concrete inputs.
use chamicore.Prelude.{◌≡◌, refl, false, [], ◌∷◌, some, ok}
use chamicore.Text.{Text, codes, ◌=ₛ◌}
use chamicore.Text.Trim.{trim_space, trim_left, trim_right, is_space}
use chamicore.Text.Fold.{equal_fold_by, fold_rune}
use chamicore.Text.Split.{split_on}
use chamicore.Dict.{lookup, insert}
use chamicore.GoError.{message}
use chamicore.Engine.Errors.{is_retryable}
use chamicore.Engine.Types.{ExecutionRequest, on}
use chamicore.Engine.Redfish.{
  RedfishApi, RedfishExecutor, cache_key, resolve_path, select_system_path, first_match,
  system_id_from_path, trim_slash, execute_power_action,
}
use chamicore.Engine.Redfish.Paths.{IsChosen, select_system_path-IsChosen}
use chamicore.Engine.Redfish.Cached.{resolve_path-again}
use chamicore.Engine.Redfish.Classified.{retries, execute_power_action-retries}

abbrev two_systems : RedfishApi Text
two_systems = record {
  orbit = fold_rune;
  normalized = λ e. ok e;
  list_system_paths = λ e c. ok (codes "/systems/a" ∷ codes "/systems/N1/" ∷ []);
  reset_system = λ e p c o. some (message (codes "unexpected status 503"));
  get_system_power_state = λ e p c. ok (codes "On");
}

select_system_path-IsChosen_example :
    IsChosen fold_rune
      (trim_space (codes "n1"))
      (codes "/systems/a" ∷ codes "/systems/N1/" ∷ [])
      (select_system_path fold_rune (codes "/systems/a" ∷ codes "/systems/N1/" ∷ []) (codes "n1"))
select_system_path-IsChosen_example =
    select_system_path-IsChosen fold_rune (codes "/systems/a" ∷ codes "/systems/N1/" ∷ [])
      (codes "n1")

resolved_run :
    resolve_path two_systems (codes "https://b") (codes "n1") [] []
    ≡ (ok (codes "/systems/N1/"), (codes "https://b|n1", codes "/systems/N1/") ∷ [])
unfolding resolve_path select_system_path first_match system_id_from_path trim_slash split_on
    equal_fold_by fold_rune cache_key lookup insert trim_space trim_left trim_right is_space ◌=ₛ◌
resolved_run = refl

resolve_path-again_example :
    resolve_path two_systems
      (codes "https://b")
      (codes "n1")
      (codes "c")
      ((codes "https://b|n1", codes "/systems/N1/") ∷ [])
    ≡ (ok (codes "/systems/N1/"), (codes "https://b|n1", codes "/systems/N1/") ∷ [])
unfolding trim_space trim_left trim_right is_space
resolve_path-again_example =
    resolve_path-again two_systems two_systems (codes "https://b") (codes "n1") [] (codes "c") []
      ((codes "https://b|n1", codes "/systems/N1/") ∷ []) (codes "/systems/N1/") refl refl
      resolved_run

abbrev executor : RedfishExecutor Text
executor = record { client = λ insecure. two_systems; resolve_credential = λ id. ok id }

abbrev switch_on : ExecutionRequest
switch_on = record {
  transition_id = codes "t-1";
  task_id = codes "k-1";
  bmc_id = codes "b1";
  endpoint = codes "https://b";
  node_id = codes "n1";
  credential_id = codes "c";
  operation = on;
  insecure_skip_verify = false;
}

execute_power_action-retries_example :
    is_retryable (execute_power_action executor switch_on []).0
    ≡ retries two_systems switch_on [] (ok (codes "c"))
execute_power_action-retries_example = execute_power_action-retries executor switch_on []
