-- ===== src/Sync/Assigned.antt =====
-- The BMC that the inventory gives a node, and the link that the store makes of it.
use chamicore.Prelude.{
  ◌≡◌, refl, ap, ◌∙◌, sym, Bool, true, false, not, ◌&&◌, List, [], ◌∷◌, map, Option, none, some,
  arith, is_empty, inl, inr, Option-cases, if◌then◌else◌,
}
use chamicore.Text.{Text, codes, ◌=ₛ◌, =ₛ_iff, =ₛ_refl}
use chamicore.Text.Trim.{trim_space, trim_space_idem, trim_left, trim_right, is_space}
use chamicore.Text.Fold.{equal_fold, fold_rune}
use chamicore.Text.Order.{sort_strings}
use chamicore.Text.Unique.{contains, contains-sort_strings}
use chamicore.Dict.{Dict, lookup, insert, keys, is_some, lookup-insert, contains-keys}
use chamicore.Model.{NodeBmcLink}
use chamicore.Store.Mappings.{links_by_node, clean_link}
use chamicore.Sync.{
  Component, Topology, is_bmc_type, is_node_type, trimmed_parent, add_bmc, add_node, add_component,
  topology_of, no_topology, desired_link, text_or_blank,
}
use chamicore.Sync.Links.{IsClosed}

abbrev or_else : Option Text → Option Text → Option Text
or_else none o = o
or_else (some b) o = some b

abbrev filled_parent : Option Text → Option Text
filled_parent none = none
filled_parent (some parent) =
    if is_empty (trim_space parent) then none else some (trim_space parent)

-- The BMC that one component gives a node: its parent, if it is a node of that name with a parent.
abbrev given_by : Text → Component → Option Text
given_by node c =
    if not (is_empty node)
      && (trim_space c.id =ₛ node)
      && equal_fold (trim_space c.kind) (codes "node")
    then filled_parent c.parent_id
    else none

-- The BMC of a node: what the last component that gives it one says.
unfoldable pub bmc_given : Text → List Component → Option Text
bmc_given node [] = none
bmc_given node (c ∷ cs) = let later = bmc_given node cs in or_else later (given_by node c)

is_node_type_lem :
    (kind : Text) → is_node_type (trim_space kind) ≡ equal_fold (trim_space kind) (codes "node")
unfolding equal_fold fold_rune
is_node_type_lem kind = ap (λ k. equal_fold k (codes "node")) (trim_space_idem kind)

module _ (t : Topology) (id node : Text) where
  added :
      (parent : Option Text) (is_bmc is_node : Bool)
      → (let with_bmc = if is_bmc then add_bmc id t else t in
          let after =
            if is_empty id
            then t
            else if is_node && not (is_empty (trimmed_parent parent))
            then add_node id (trimmed_parent parent) with_bmc
            else with_bmc in
          lookup node after.node_to_bmc)
        ≡ or_else
            (if not (is_empty node) && (id =ₛ node) && is_node then filled_parent parent else none)
            (lookup node t.node_to_bmc)
  added none true b = ground arith
  added none false b = ground arith
  added (some p) true b =
      ground (arith, lookup-insert id node (trim_space p) t.node_to_bmc, =ₛ_iff id node)
  added (some p) false b =
      ground (arith, lookup-insert id node (trim_space p) t.node_to_bmc, =ₛ_iff id node)

lookup-add_component :
    (t : Topology) (c : Component) (node : Text)
    → lookup node (add_component t c).node_to_bmc
      ≡ or_else (given_by node c) (lookup node t.node_to_bmc)
unfolding add_component
lookup-add_component t c node =
    added t (trim_space c.id) node c.parent_id (is_bmc_type (trim_space c.kind))
      (is_node_type (trim_space c.kind))
    ∙ ap
        (λ b.
          or_else
            (if not (is_empty node) && (trim_space c.id =ₛ node) && b
              then filled_parent c.parent_id
              else none)
            (lookup node t.node_to_bmc))
        (is_node_type_lem c.kind)

or_else_assoc : (a b c : Option Text) → or_else a (or_else b c) ≡ or_else (or_else a b) c
or_else_assoc none b c = refl
or_else_assoc (some a) b c = refl

or_else-none : (a : Option Text) → or_else a none ≡ a
or_else-none none = refl
or_else-none (some a) = refl

lookup-topology_of :
    (t : Topology) (cs : List Component) (node : Text)
    → lookup node (topology_of t cs).node_to_bmc
      ≡ or_else (bmc_given node cs) (lookup node t.node_to_bmc)
unfolding topology_of bmc_given
lookup-topology_of t [] node = refl
lookup-topology_of t (c ∷ cs) node =
    lookup-topology_of (add_component t c) cs node
    ∙ ap (or_else (bmc_given node cs)) (lookup-add_component t c node)
    ∙ or_else_assoc (bmc_given node cs) (given_by node c) (lookup node t.node_to_bmc)

-- The loop over the components finds for each node the BMC that it is given.
pub lookup-bmc_given :
    (cs : List Component) (node : Text)
    → lookup node (topology_of no_topology cs).node_to_bmc ≡ bmc_given node cs
unfolding lookup
lookup-bmc_given cs node = lookup-topology_of no_topology cs node ∙ or_else-none (bmc_given node cs)

-- The link of a node to a BMC, from a sync.
abbrev pub smd_link : Text → Text → NodeBmcLink
smd_link node bmc = record {
  node_id = node;
  bmc_id = bmc;
  source = codes "smd";
  last_synced_at = 0;
  created_at = 0;
  updated_at = 0;
}

abbrev pub linked : Text → Option Text → Option NodeBmcLink
linked node none = none
linked node (some bmc) = some (smd_link node bmc)

-- A node that a map gives a BMC, both clean.
abbrev IsGiven : Dict Text → Text → Type 0
IsGiven m node =
    (bmc : Text) × (lookup node m ≡ some bmc)
    × (trim_space node ≡ node)
    × (is_empty node ≡ false)
    × (trim_space bmc ≡ bmc)
    × (is_empty bmc ≡ false)

lookup-IsGiven :
    (t : Topology) (node : Text)
    → IsClosed t
    → is_some (lookup node t.node_to_bmc) ≡ true
    → IsGiven t.node_to_bmc node
lookup-IsGiven t node c h = elim (Option-cases (lookup node t.node_to_bmc)) [
  | inl e ↦ absurd (ground (arith, h, e))
  | inr (bmc, e) ↦
      let (trimmed, filled) = c.nodes_clean node h in
      let (trimmed_bmc, filled_bmc) = c.bmcs_clean bmc (c.closed node bmc e) in
      (bmc, e, trimmed, filled, trimmed_bmc, filled_bmc)
]

desired_link-linked :
    (m : Dict Text) (node bmc : Text)
    → lookup node m ≡ some bmc
    → desired_link m node ≡ smd_link node bmc
unfolding desired_link
desired_link-linked m node bmc e = ap (λ o. smd_link node (text_or_blank o)) e

trim-smd : trim_space (codes "smd") ≡ codes "smd"
unfolding trim_space trim_left trim_right is_space
trim-smd = refl

clean_link-smd_link :
    (node bmc : Text)
    → trim_space node ≡ node
    → trim_space bmc ≡ bmc
    → clean_link (smd_link node bmc) ≡ smd_link node bmc
clean_link-smd_link node bmc trimmed trimmed_bmc = rw (trimmed, trimmed_bmc, trim-smd) refl

lookup-links_by_node :
    (m : Dict Text) (links : Dict NodeBmcLink) (ks : List Text) (node : Text)
    → ((k : Text) → contains ks k ≡ true → IsGiven m k)
    → lookup node (links_by_node links (map (desired_link m) ks))
      ≡ (if contains ks node then linked node (lookup node m) else lookup node links)
unfolding links_by_node contains
lookup-links_by_node m links [] node given = refl
lookup-links_by_node m links (k ∷ ks) node given =
    let (bmc, e, trimmed, filled, trimmed_bmc, filled_bmc) = given k (ground (arith, =ₛ_refl k)) in
    let same : clean_link (desired_link m k) ≡ smd_link k bmc =
      ap clean_link (desired_link-linked m k bmc e)
      ∙ clean_link-smd_link k bmc trimmed trimmed_bmc in
    rw
      (
        desired_link-linked m k bmc e,
        clean_link-smd_link k bmc trimmed trimmed_bmc,
        trimmed,
        trimmed_bmc,
      )
      (ground (
        arith,
        lookup-links_by_node m (insert k (smd_link k bmc) links) ks node
            (λ j there. given j (ground (arith, there))),
        lookup-insert k node (smd_link k bmc) links,
        =ₛ_iff k node,
        e,
        filled,
        filled_bmc,
      ))

linked-known :
    (node : Text) (o : Option Text) → (if is_some o then linked node o else none) ≡ linked node o
linked-known node none = refl
linked-known node (some bmc) = refl

-- What the store makes of the links of the topology.
pub links_by_node-bmc_given :
    (cs : List Component) (node : Text)
    → IsClosed (topology_of no_topology cs)
    → (let m = (topology_of no_topology cs).node_to_bmc in
        lookup node (links_by_node [] (map (desired_link m) (sort_strings (keys m)))))
      ≡ linked node (bmc_given node cs)
unfolding lookup
links_by_node-bmc_given cs node closed =
    let t = topology_of no_topology cs in
    let m = t.node_to_bmc in
    let known : (k : Text) → contains (sort_strings (keys m)) k ≡ is_some (lookup k m) =
      λ k. contains-sort_strings (keys m) k ∙ contains-keys m k in
    lookup-links_by_node m [] (sort_strings (keys m)) node
      (λ k there. lookup-IsGiven t k closed (sym (known k) ∙ there))
    ∙ ap (λ b. if b then linked node (lookup node m) else none) (known node)
    ∙ linked-known node (lookup node m)
    ∙ ap (linked node) (lookup-bmc_given cs node)
