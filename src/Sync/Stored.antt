-- ===== src/Sync/Stored.antt =====
-- The desired topology of a sync, once it is stored.
use chamicore.Prelude.{
  ℕ, ◌≡◌, refl, ap, subst, ◌∙◌, true, false, ◌||◌, List, [], ◌∷◌, map, Option, none, some, arith,
  is_empty, All, inl, inr, Bool-cases, ok,
}
use chamicore.Text.{Text, =ₛ_iff}
use chamicore.Text.Trim.{trim_space}
use chamicore.Text.Unique.{contains, IsDistinct}
use chamicore.Dict.{Dict, lookup, insert, keys, is_some, lookup-insert}
use chamicore.Model.{BmcEndpoint, NodeBmcLink, MappingApplyCounts}
use chamicore.Store.Table.{when_kept}
use chamicore.Store.Mappings.{
  Tables, Session, endpoints_by_bmc, links_by_node, clean_endpoint, clean_link, bmc_of,
}
use chamicore.Store.Mappings.Transaction.{stamp_link, refers_to, replace_topology_mappings}
use chamicore.Store.Mappings.Desired.{synced}
use chamicore.Store.Mappings.Replace.{Replaced, replace_topology_mappings-Replaced}
use chamicore.Sync.{ParseUrl, Component, EthernetInterface, no_topology, build_desired_mappings}
use chamicore.Sync.Links.{
  topology_of-IsClosed, no_topology-IsClosed, build_desired_mappings-IsDesired,
}
use chamicore.Sync.Assigned.{bmc_given, linked, links_by_node-bmc_given}

abbrev IsClean : BmcEndpoint → Type 0
IsClean e = (trim_space e.bmc_id ≡ e.bmc_id) × (is_empty e.bmc_id ≡ false)

-- A BMC that is listed has a row in the map of the store.
lookup-endpoints_by_bmc :
    (m : Dict BmcEndpoint) (es : List BmcEndpoint) (b : Text)
    → All IsClean es
    → (contains (map bmc_of es) b || is_some (lookup b m)) ≡ true
    → is_some (lookup b (endpoints_by_bmc m es)) ≡ true
unfolding endpoints_by_bmc contains
lookup-endpoints_by_bmc m [] b c h = h
lookup-endpoints_by_bmc m (e ∷ es) b c h = ground (
  arith,
  c.0,
  lookup-endpoints_by_bmc (insert (trim_space e.bmc_id) (clean_endpoint e) m) es b c.1,
  lookup-insert (trim_space e.bmc_id) b (clean_endpoint e) m,
  =ₛ_iff e.bmc_id b,
  h,
)

trimmed-of_contains :
    (es : List BmcEndpoint) (b : Text)
    → All IsClean es
    → contains (map bmc_of es) b ≡ true
    → trim_space b ≡ b
unfolding contains
trimmed-of_contains [] b c h = absurd (ground (arith, h))
trimmed-of_contains (e ∷ es) b c h =
    ground (arith, c.0, =ₛ_iff e.bmc_id b, trimmed-of_contains es b c.1, h)

-- The links that the store makes of links to listed BMCs go to those.
links_by_node-linked :
    (m : Dict NodeBmcLink) (ls : List NodeBmcLink) (es : List BmcEndpoint)
    → All IsClean es
    → All (λ (l : NodeBmcLink). contains (map bmc_of es) l.bmc_id ≡ true) ls
    → ((k : Text) (l : NodeBmcLink)
        → lookup k m ≡ some l
        → contains (map bmc_of es) l.bmc_id ≡ true)
    → (k : Text) (l : NodeBmcLink) → lookup k (links_by_node m ls) ≡ some l
    → contains (map bmc_of es) l.bmc_id ≡ true
unfolding links_by_node
links_by_node-linked m [] es c h g k l e = g k l e
links_by_node-linked m (x ∷ xs) es c h g k l e =
    elim (Bool-cases (is_empty (trim_space x.node_id) || is_empty (trim_space x.bmc_id))) [
      | inl b ↦ links_by_node-linked m xs es c h.1 g k l (rw b at e)
      | inr b ↦
          links_by_node-linked (insert (trim_space x.node_id) (clean_link x) m) xs es c h.1
            (λ j u f. ground (
              arith,
              lookup-insert (trim_space x.node_id) j (clean_link x) m,
              trimmed-of_contains es x.bmc_id c h.0,
              h.0,
              g j u,
              f,
            ))
            k l (rw b at e)
    ]

when_kept-linked :
    (now : ℕ) (endpoints : Dict BmcEndpoint) (old new : Option NodeBmcLink)
    → ((l : NodeBmcLink) → new ≡ some l → is_some (lookup l.bmc_id endpoints) ≡ true)
    → when_kept (refers_to endpoints) (synced (stamp_link now) old new)
      ≡ synced (stamp_link now) old new
when_kept-linked now endpoints old none h = refl
when_kept-linked now endpoints none (some l) h = ground (arith, h l refl)
when_kept-linked now endpoints (some o) (some l) h = ground (arith, h l refl)

no_link :
    (es : List BmcEndpoint) (k : Text) (l : NodeBmcLink)
    → lookup k [] ≡ some l
    → contains (map bmc_of es) l.bmc_id ≡ true
unfolding lookup
no_link es k l e = absurd (ground (arith, e))

build_desired_mappings-bmc_given :
    (parse : ParseUrl) (components : List Component) (interfaces : List EthernetInterface)
    (existing : List BmcEndpoint) (default_credential node : Text)
    → lookup node (
        links_by_node []
          (build_desired_mappings parse components interfaces existing default_credential).1)
      ≡ linked node (bmc_given node components)
unfolding build_desired_mappings
build_desired_mappings-bmc_given parse components interfaces existing default_credential node =
    links_by_node-bmc_given components node
      (topology_of-IsClosed no_topology components no_topology-IsClosed)

-- After a sync whose write succeeds, the links table has a row for every node that the inventory gives
-- a BMC, and for no other: the row links it to the parent that the last component names which has its
-- identifier, the type "node" in any case, and a parent, all trimmed and not blank; its source is
-- "smd", its times are that of the sync, and of a row that was there the time of creation is kept.
-- Neither the foreign key nor the cascade of the stale BMCs takes a link away. The links table must
-- have one row for each node before.
pub build_desired_mappings-stored :
    (session : Session) (parse : ParseUrl) (components : List Component)
    (interfaces : List EthernetInterface) (existing : List BmcEndpoint) (default_credential : Text)
    (now : ℕ) (t : Tables) {counts : MappingApplyCounts} {new : Tables}
    → IsDistinct (keys t.links)
    → (let desired =
          build_desired_mappings parse components interfaces existing default_credential in
        replace_topology_mappings session desired.0 desired.1 now t)
      ≡ (ok counts, new)
    → (node : Text)
    → lookup node new.links
      ≡ synced (stamp_link now) (lookup node t.links) (linked node (bmc_given node components))
build_desired_mappings-stored session parse components interfaces existing default_credential now t
      d e node =
    let es = (build_desired_mappings parse components interfaces existing default_credential).0 in
    let ls = (build_desired_mappings parse components interfaces existing default_credential).1 in
    let desired =
      build_desired_mappings-IsDesired parse components interfaces existing default_credential in
    let holds =
      subst (Replaced now es ls t) e (replace_topology_mappings-Replaced session es ls now t d) in
    holds.links_as node
    ∙ when_kept-linked now (endpoints_by_bmc [] es) (lookup node t.links)
        (lookup node (links_by_node [] ls))
        (λ l f. lookup-endpoints_by_bmc [] es l.bmc_id desired.bmcs_clean (
          ground (
            arith,
            links_by_node-linked [] ls es desired.bmcs_clean desired.linked (no_link es) node l f,
          )))
    ∙ ap (synced (stamp_link now) (lookup node t.links)) (
        build_desired_mappings-bmc_given parse components interfaces existing default_credential
          node)
