-- ===== src/Sync.antt =====
-- services/chamicore-power/internal/sync/smd_sync.go: the topology that the syncer derives from the
-- inventory service (SMD), for the mapping tables. Parsing a URL is an argument.
pub mod Links
pub mod Assigned
pub mod Stored
pub mod Cycle
pub mod Loop
pub mod Tests
use chamicore.Prelude.{
  ℕ, Bool, true, false, not, ◌&&◌, ◌||◌, List, [], ◌∷◌, ◌++◌, map, Option, none, some, is_empty,
  if◌then◌else◌,
}
use chamicore.Text.{Text, codes, ◌=ₛ◌}
use chamicore.Text.Trim.{trim_space}
use chamicore.Text.Order.{sort_strings}
use chamicore.Text.Fold.{equal_fold}
use chamicore.Text.Affix.{has_infix}
use chamicore.Text.Unique.{contains}
use chamicore.Dict.{Dict, lookup, insert, keys, is_some}
use chamicore.Model.{BmcEndpoint, NodeBmcLink}
use chamicore.Mcp.Value.{Value, null, string, array, Values, nil, cons}

pub record Component : Type 0 where
  pub id : Text
  pub kind : Text
  pub parent_id : Option Text

-- `ip_addrs` is the decoded JSON, if there is any.
pub record EthernetInterface : Type 0 where
  pub component_id : Text
  pub ip_addrs : Option Value

-- `url.Parse`: the scheme and the host.
abbrev pub ParseUrl : Type 0
ParseUrl = Text → Option (Text × Text)

abbrev pub is_node_type : Text → Bool
is_node_type kind = equal_fold (trim_space kind) (codes "Node")

abbrev pub is_bmc_type : Text → Bool
is_bmc_type kind = equal_fold (trim_space kind) (codes "BMC")

-- The identifiers of the BMCs, and the BMC of each node.
pub record Topology : Type 0 where
  pub bmc_ids : Dict {0} Unit
  pub node_to_bmc : Dict Text

abbrev pub trimmed_parent : Option Text → Text
trimmed_parent none = []
trimmed_parent (some parent) = trim_space parent

abbrev pub add_bmc : Text → Topology → Topology
add_bmc id t = record t { bmc_ids = insert id tt t.bmc_ids }

abbrev pub add_node : Text → Text → Topology → Topology
add_node id parent t = record {
  bmc_ids = insert parent tt t.bmc_ids;
  node_to_bmc = insert id parent t.node_to_bmc;
}

-- One round of the loop over the components.
unfoldable pub add_component : Topology → Component → Topology
add_component t c =
    let id = trim_space c.id in
    let parent = trimmed_parent c.parent_id in
    let with_bmc = if is_bmc_type (trim_space c.kind) then add_bmc id t else t in
    if is_empty id
    then t
    else if is_node_type (trim_space c.kind) && not (is_empty parent)
    then add_node id parent with_bmc
    else with_bmc

unfoldable pub topology_of : Topology → List Component → Topology
topology_of t [] = t
topology_of t (c ∷ cs) = topology_of (add_component t c) cs

abbrev pub no_topology : Topology
no_topology = record { bmc_ids = []; node_to_bmc = [] }

abbrev with_scheme : Text → Text
with_scheme t = if has_infix (codes "://") t then t else codes "https://" ++ t

abbrev http_endpoint : Option (Text × Text) → Text
http_endpoint none = []
http_endpoint (some (scheme, host)) =
    if is_empty host
    then []
    else if not (scheme =ₛ codes "http") && not (scheme =ₛ codes "https")
    then []
    else scheme ++ (codes "://" ++ host)

unfoldable pub normalize_endpoint : ParseUrl → Text → Text
normalize_endpoint parse raw =
    if is_empty (trim_space raw) then [] else http_endpoint (parse (with_scheme (trim_space raw)))

-- Unmarshalling into a `[]string`: a null is the empty text, anything else is an error.
unfoldable pub texts_of : Values → Option (List Text)
texts_of nil = some []
texts_of (cons v vs) = text_with v (texts_of vs)
  where
    text_with : Value → Option (List Text) → Option (List Text)
    text_with v none = none
    text_with (string s) (some rest) = some (s ∷ rest)
    text_with null (some rest) = some ([] ∷ rest)
    text_with v (some rest) = none

-- The items that are texts.
unfoldable pub only_texts : Values → List Text
only_texts nil = []
only_texts (cons (string s) vs) = s ∷ only_texts vs
only_texts (cons v vs) = only_texts vs

abbrev texts_or : Option (List Text) → List Text → List Text
texts_or none otherwise = otherwise
texts_or (some texts) otherwise = texts

unfoldable pub parse_ip_addrs : Option Value → List Text
unfolding texts_of only_texts
parse_ip_addrs (some (array vs)) = texts_or (texts_of vs) (only_texts vs)
parse_ip_addrs _ = []

unfoldable pub first_endpoint : ParseUrl → List Text → Text
unfolding normalize_endpoint
first_endpoint parse [] = []
first_endpoint parse (a ∷ rest_of) =
    let rest = first_endpoint parse rest_of in
    let endpoint = normalize_endpoint parse a in if is_empty endpoint then rest else endpoint

unfoldable pub endpoint_from_ip_addrs : ParseUrl → Option Value → Text
unfolding parse_ip_addrs first_endpoint
endpoint_from_ip_addrs parse addrs = first_endpoint parse (parse_ip_addrs addrs)

-- One round of the loop over the interfaces.
unfoldable pub add_interface : ParseUrl → Dict {0} Unit → Dict Text → EthernetInterface → Dict Text
unfolding endpoint_from_ip_addrs
add_interface parse bmc_ids m i =
    let id = trim_space i.component_id in
    let endpoint = endpoint_from_ip_addrs parse i.ip_addrs in
    if is_empty id
      || not (is_some (lookup id bmc_ids))
      || is_some (lookup id m)
      || is_empty endpoint
    then m
    else insert id endpoint m

unfoldable pub smd_endpoints :
    ParseUrl → Dict {0} Unit → Dict Text → List EthernetInterface → Dict Text
unfolding add_interface
smd_endpoints parse bmc_ids m [] = m
smd_endpoints parse bmc_ids m (i ∷ more) =
    smd_endpoints parse bmc_ids (add_interface parse bmc_ids m i) more

unfoldable pub existing_by_bmc : Dict BmcEndpoint → List BmcEndpoint → Dict BmcEndpoint
existing_by_bmc m [] = m
existing_by_bmc m (e ∷ es) = existing_by_bmc (insert (trim_space e.bmc_id) e m) es

-- What the map of stored endpoints holds for a BMC: the zero value where it has none.
abbrev pub stored_or_zero : Option BmcEndpoint → BmcEndpoint
stored_or_zero (some e) = e
stored_or_zero none = record {
  bmc_id = [];
  endpoint = [];
  credential_id = [];
  source = [];
  insecure_skip_verify = false;
  last_synced_at = 0;
  created_at = 0;
  updated_at = 0;
}

abbrev pub text_or_blank : Option Text → Text
text_or_blank none = []
text_or_blank (some t) = t

abbrev pub or_text : Text → Text → Text
or_text t otherwise = if is_empty t then otherwise else t

-- The desired row of a BMC.
unfoldable pub desired_endpoint : Dict Text → Dict BmcEndpoint → Text → Text → BmcEndpoint
desired_endpoint smd stored default_credential bmc_id =
    let existing = stored_or_zero (lookup bmc_id stored) in
    record {
      bmc_id = bmc_id;
      endpoint =
          or_text (trim_space (text_or_blank (lookup bmc_id smd))) (trim_space existing.endpoint);
      credential_id = or_text (trim_space existing.credential_id) (trim_space default_credential);
      source = codes "smd";
      insecure_skip_verify = existing.insecure_skip_verify;
      last_synced_at = 0;
      created_at = 0;
      updated_at = 0;
    }

unfoldable pub desired_link : Dict Text → Text → NodeBmcLink
desired_link node_to_bmc node_id = record {
  node_id = node_id;
  bmc_id = text_or_blank (lookup node_id node_to_bmc);
  source = codes "smd";
  last_synced_at = 0;
  created_at = 0;
  updated_at = 0;
}

-- `buildDesiredMappings`.
unfoldable pub build_desired_mappings :
    ParseUrl
    → List Component
    → List EthernetInterface
    → List BmcEndpoint
    → Text
    → List BmcEndpoint × List NodeBmcLink
unfolding topology_of smd_endpoints existing_by_bmc desired_endpoint desired_link
build_desired_mappings parse components interfaces existing default_credential =
    let t = topology_of no_topology components in
    let smd = smd_endpoints parse t.bmc_ids [] interfaces in
    (
      map (desired_endpoint smd (existing_by_bmc [] existing) default_credential)
          (sort_strings (keys t.bmc_ids)),
      map (desired_link t.node_to_bmc) (sort_strings (keys t.node_to_bmc)),
    )
