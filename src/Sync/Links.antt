-- ===== src/Sync/Links.antt =====
-- The identifiers and the links of the topology that `buildDesiredMappings` returns.
use chamicore.Prelude.{
  ◌≡◌, refl, ap, subst, ◌∙◌, sym, Bool, true, false, not, ◌&&◌, List, [], ◌∷◌, map, Option, none,
  some, arith, is_empty, All, inl, inr, Option-cases, if◌then◌else◌,
}
use chamicore.Text.{Text, =ₛ_iff, =ₛ_refl}
use chamicore.Text.Trim.{trim_space, trim_space_idem}
use chamicore.Text.Order.{sort_strings, IsAscending}
use chamicore.Text.Unique.{contains, IsDistinct, contains-sort_strings, sort_strings-IsAscending}
use chamicore.Dict.{
  Dict, lookup, insert, keys, is_some, lookup-insert, contains-keys, keys-insert-IsDistinct,
}
use chamicore.Model.{BmcEndpoint, NodeBmcLink}
use chamicore.Store.Mappings.{bmc_of, node_of}
use chamicore.Sync.{
  ParseUrl, Component, EthernetInterface, Topology, is_bmc_type, is_node_type, trimmed_parent,
  add_bmc, add_node, add_component, topology_of, no_topology, smd_endpoints, existing_by_bmc,
  desired_endpoint, desired_link, text_or_blank, build_desired_mappings,
}

-- Every identifier of the map is trimmed and not blank.
abbrev IsClean : {V : Type 0} → Dict V → Type 0
IsClean m = (k : Text) → is_some (lookup k m) ≡ true → (trim_space k ≡ k) × (is_empty k ≡ false)

-- Every node has a BMC of the topology.
pub record IsClosed (t : Topology) : Type 0 where
  pub closed :
      (node bmc : Text)
      → lookup node t.node_to_bmc ≡ some bmc
      → is_some (lookup bmc t.bmc_ids) ≡ true
  pub bmcs_clean : IsClean t.bmc_ids
  pub nodes_clean : IsClean t.node_to_bmc
  pub bmcs_distinct : IsDistinct (keys t.bmc_ids)
  pub nodes_distinct : IsDistinct (keys t.node_to_bmc)

insert-IsClean :
    {V : Type 0} (k : Text) (v : V) (m : Dict V)
    → trim_space k ≡ k
    → is_empty k ≡ false
    → IsClean m
    → IsClean (insert k v m)
insert-IsClean k v m h filled clean j found =
    ground (arith, lookup-insert k j v m, =ₛ_iff k j, h, filled, clean j, found)

add_bmc-IsClosed :
    (id : Text) (t : Topology)
    → trim_space id ≡ id
    → is_empty id ≡ false
    → IsClosed t
    → IsClosed (add_bmc id t)
add_bmc-IsClosed id t h filled c = record {
  closed = λ node bmc e. ground (arith, lookup-insert id bmc tt t.bmc_ids, c.closed node bmc e);
  bmcs_clean = insert-IsClean id tt t.bmc_ids h filled c.bmcs_clean;
  nodes_clean = c.nodes_clean;
  bmcs_distinct = keys-insert-IsDistinct id tt t.bmc_ids c.bmcs_distinct;
  nodes_distinct = c.nodes_distinct;
}

add_node-IsClosed :
    (id parent : Text) (t : Topology)
    → trim_space id ≡ id
    → is_empty id ≡ false
    → trim_space parent ≡ parent
    → is_empty parent ≡ false
    → IsClosed t
    → IsClosed (add_node id parent t)
add_node-IsClosed id parent t h filled hp filledp c = record {
  closed = λ node bmc e. ground (
    arith,
    lookup-insert parent bmc tt t.bmc_ids,
    lookup-insert id node parent t.node_to_bmc,
    =ₛ_iff parent bmc,
    c.closed node bmc,
    e,
  );
  bmcs_clean = insert-IsClean parent tt t.bmc_ids hp filledp c.bmcs_clean;
  nodes_clean = insert-IsClean id parent t.node_to_bmc h filled c.nodes_clean;
  bmcs_distinct = keys-insert-IsDistinct parent tt t.bmc_ids c.bmcs_distinct;
  nodes_distinct = keys-insert-IsDistinct id parent t.node_to_bmc c.nodes_distinct;
}

if-IsClosed :
    (b : Bool) (x y : Topology)
    → (b ≡ true → IsClosed x)
    → (b ≡ false → IsClosed y)
    → IsClosed (if b then x else y)
if-IsClosed true x y h k = h refl
if-IsClosed false x y h k = k refl

trim-trimmed_parent :
    (p : Option Text)
    → is_empty (trimmed_parent p) ≡ false
    → trim_space (trimmed_parent p) ≡ trimmed_parent p
trim-trimmed_parent none h = absurd (ground (arith, h))
trim-trimmed_parent (some p) h = trim_space_idem p

add_component-IsClosed : (t : Topology) (c : Component) → IsClosed t → IsClosed (add_component t c)
unfolding add_component
add_component-IsClosed t c h =
    if-IsClosed (is_empty (trim_space c.id)) _ _ (λ blank. h)
      (λ filled.
        let with_bmc =
          if-IsClosed (is_bmc_type (trim_space c.kind)) (add_bmc (trim_space c.id) t) t
            (λ b. add_bmc-IsClosed (trim_space c.id) t (trim_space_idem c.id) filled h) (λ b. h) in
        if-IsClosed
          (is_node_type (trim_space c.kind) && not (is_empty (trimmed_parent c.parent_id))) _ _
          (λ n.
            let has_parent = filled_parent (is_node_type (trim_space c.kind)) _ n in
            add_node-IsClosed (trim_space c.id) (trimmed_parent c.parent_id) _
              (trim_space_idem c.id) filled (trim-trimmed_parent c.parent_id has_parent) has_parent
              with_bmc)
          (λ n. with_bmc))
  where
    filled_parent : (b d : Bool) → (b && not d) ≡ true → d ≡ false
    filled_parent b d h = ground (arith, h)

pub topology_of-IsClosed :
    (t : Topology) (cs : List Component) → IsClosed t → IsClosed (topology_of t cs)
unfolding topology_of
topology_of-IsClosed t [] h = h
topology_of-IsClosed t (c ∷ cs) h =
    topology_of-IsClosed (add_component t c) cs (add_component-IsClosed t c h)

pub no_topology-IsClosed : IsClosed no_topology
unfolding lookup keys
no_topology-IsClosed = record {
  closed = λ node bmc e. ground (arith, e);
  bmcs_clean = λ k e. ground (arith, e);
  nodes_clean = λ k e. ground (arith, e);
  bmcs_distinct = tt;
  nodes_distinct = tt;
}

All-map :
    {A : Type 0} (P : A → Type 0) (f : Text → A) (xs : List Text)
    → ((k : Text) → contains xs k ≡ true → P (f k))
    → All P (map f xs)
unfolding contains
All-map P f [] h = tt
All-map P f (x ∷ xs) h =
    (h x (ground (arith, =ₛ_refl x)), All-map P f xs (λ k e. h k (ground (arith, e))))

map-map_id :
    {A : Type 0} (g : A → Text) (f : Text → A) (xs : List Text)
    → ((k : Text) → g (f k) ≡ k)
    → map g (map f xs) ≡ xs
map-map_id g f [] h = refl
map-map_id g f (x ∷ xs) h = ground (arith, h x, map-map_id g f xs h)

-- The rows that a sync asks the store for.
pub record IsDesired (endpoints : List BmcEndpoint) (links : List NodeBmcLink) : Type 0 where
  pub bmcs_ascending : IsAscending (map bmc_of endpoints)
  pub nodes_ascending : IsAscending (map node_of links)
  pub bmcs_clean :
      All
        (λ (e : BmcEndpoint). (trim_space e.bmc_id ≡ e.bmc_id) × (is_empty e.bmc_id ≡ false))
        endpoints
  pub nodes_clean :
      All
        (λ (l : NodeBmcLink). (trim_space l.node_id ≡ l.node_id) × (is_empty l.node_id ≡ false))
        links
  pub linked : All (λ (l : NodeBmcLink). contains (map bmc_of endpoints) l.bmc_id ≡ true) links

bmc_of-desired_endpoint :
    (smd : Dict Text) (stored : Dict BmcEndpoint) (default_credential k : Text)
    → (desired_endpoint smd stored default_credential k).bmc_id ≡ k
unfolding desired_endpoint
bmc_of-desired_endpoint smd stored default_credential k = refl

node_of-desired_link : (m : Dict Text) (k : Text) → (desired_link m k).node_id ≡ k
unfolding desired_link
node_of-desired_link m k = refl

known-of_contains :
    {V : Type 0} (m : Dict V) (k : Text)
    → contains (sort_strings (keys m)) k ≡ true
    → is_some (lookup k m) ≡ true
known-of_contains m k h = sym (contains-keys m k) ∙ sym (contains-sort_strings (keys m) k) ∙ h

linked-of_closed :
    (t : Topology) (k : Text)
    → IsClosed t
    → is_some (lookup k t.node_to_bmc) ≡ true
    → contains (sort_strings (keys t.bmc_ids)) (desired_link t.node_to_bmc k).bmc_id ≡ true
unfolding desired_link
linked-of_closed t k c h = elim (Option-cases (lookup k t.node_to_bmc)) [
  | inl e ↦ absurd (ground (arith, h, e))
  | inr (bmc, e) ↦
      ap (contains (sort_strings (keys t.bmc_ids))) (ap text_or_blank e)
      ∙ contains-sort_strings (keys t.bmc_ids) bmc
      ∙ contains-keys t.bmc_ids bmc
      ∙ c.closed k bmc e
]

clean-endpoint :
    (t : Topology) (smd : Dict Text) (stored : Dict BmcEndpoint) (default_credential k : Text)
    → IsClosed t
    → contains (sort_strings (keys t.bmc_ids)) k ≡ true
    → (trim_space (desired_endpoint smd stored default_credential k).bmc_id
        ≡ (desired_endpoint smd stored default_credential k).bmc_id)
      × (is_empty (desired_endpoint smd stored default_credential k).bmc_id ≡ false)
unfolding desired_endpoint
clean-endpoint t smd stored default_credential k c h =
    c.bmcs_clean k (known-of_contains t.bmc_ids k h)

clean-link :
    (t : Topology) (k : Text)
    → IsClosed t
    → contains (sort_strings (keys t.node_to_bmc)) k ≡ true
    → (trim_space (desired_link t.node_to_bmc k).node_id ≡ (desired_link t.node_to_bmc k).node_id)
      × (is_empty (desired_link t.node_to_bmc k).node_id ≡ false)
unfolding desired_link
clean-link t k c h = c.nodes_clean k (known-of_contains t.node_to_bmc k h)

rows-IsDesired :
    (t : Topology)
    → IsClosed t
    → (smd : Dict Text) (stored : Dict BmcEndpoint) (default_credential : Text)
    → IsDesired
        (map (desired_endpoint smd stored default_credential) (sort_strings (keys t.bmc_ids)))
        (map (desired_link t.node_to_bmc) (sort_strings (keys t.node_to_bmc)))
rows-IsDesired t c smd stored default_credential =
    let bmcs =
      map-map_id bmc_of (desired_endpoint smd stored default_credential)
        (sort_strings (keys t.bmc_ids)) (bmc_of-desired_endpoint smd stored default_credential) in
    let nodes =
      map-map_id node_of (desired_link t.node_to_bmc) (sort_strings (keys t.node_to_bmc))
        (node_of-desired_link t.node_to_bmc) in
    record {
      bmcs_ascending =
          subst IsAscending (sym bmcs) (sort_strings-IsAscending (keys t.bmc_ids) c.bmcs_distinct);
      nodes_ascending =
          subst IsAscending (sym nodes)
            (sort_strings-IsAscending (keys t.node_to_bmc) c.nodes_distinct);
      bmcs_clean = All-map _ _ _ (λ k h. clean-endpoint t smd stored default_credential k c h);
      nodes_clean = All-map _ _ _ (λ k h. clean-link t k c h);
      linked = All-map _ _ _ (λ k h.
          subst (λ ids. contains ids (desired_link t.node_to_bmc k).bmc_id ≡ true) (sym bmcs)
            (linked-of_closed t k c (known-of_contains t.node_to_bmc k h)));
    }

-- Whatever the inventory lists and whatever is stored, the desired topology has each BMC once and each
-- node once, in ascending order and under trimmed identifiers that are not blank, and every link goes
-- to a desired BMC. So no link of a sync violates the foreign key of the links table, and none is
-- deleted with a stale endpoint.
pub build_desired_mappings-IsDesired :
    (parse : ParseUrl) (components : List Component) (interfaces : List EthernetInterface)
    (existing : List BmcEndpoint) (default_credential : Text)
    → IsDesired
        (build_desired_mappings parse components interfaces existing default_credential).0
        (build_desired_mappings parse components interfaces existing default_credential).1
unfolding build_desired_mappings
build_desired_mappings-IsDesired parse components interfaces existing default_credential =
    let t = topology_of no_topology components in
    let closed = topology_of-IsClosed no_topology components no_topology-IsClosed in
    rows-IsDesired t closed (smd_endpoints parse t.bmc_ids [] interfaces)
      (existing_by_bmc [] existing) default_credential
