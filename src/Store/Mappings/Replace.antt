-- ===== src/Store/Mappings/Replace.antt =====
-- The tables after `ReplaceTopologyMappings`, beside the desired topology.
use chamicore.Prelude.{
  ℕ, ◌+◌, ◌≡◌, refl, ◌∙◌, ap, subst, List, [], map, Option, none, some, arith, length, Result, ok,
  err, inl, inr, and_then-ok, Result-cases,
}
use chamicore.Text.{Text, codes}
use chamicore.Text.Unique.{IsDistinct}
use chamicore.Dict.{Dict, lookup, keys, is_some}
use chamicore.GoError.{GoError}
use chamicore.Model.{BmcEndpoint, NodeBmcLink, MappingApplyCounts}
use chamicore.Store.Table.{
  keep_keys, count_stale, keep_rows, upsert_all, when_kept, lookup-keep_rows, keep_keys-IsDistinct,
  upsert_all-IsDistinct,
}
use chamicore.Store.Mappings.{
  Tables, Session, endpoints_by_bmc, links_by_node, normalize_endpoints, normalize_links, bmc_of,
  node_of,
}
use chamicore.Store.Mappings.Transaction.{
  stamp_endpoint, stamp_link, refuse_endpoint, refuse_link, delete_stale, refers_to, without_stale,
  delete_all_stale, write_links, transaction, committed, begun, replace_topology_mappings,
}
use chamicore.Store.Mappings.Desired.{synced, lookup-endpoints, lookup-links}

-- The tables after a sync: the desired endpoints and no others, and the desired links to them.
pub record Holds (now : ℕ) (es : List BmcEndpoint) (ls : List NodeBmcLink) (old new : Tables)
    : Type 0 where
  pub endpoints_as :
      (k : Text)
      → lookup k new.endpoints
        ≡ synced (stamp_endpoint now) (lookup k old.endpoints) (lookup k (endpoints_by_bmc [] es))
  pub links_as :
      (k : Text)
      → lookup k new.links
        ≡ when_kept
            (refers_to (endpoints_by_bmc [] es))
            (synced (stamp_link now) (lookup k old.links) (lookup k (links_by_node [] ls)))

is_some-synced :
    (now : ℕ) (old new : Option BmcEndpoint)
    → is_some (synced (stamp_endpoint now) old new) ≡ is_some new
is_some-synced now old none = refl
is_some-synced now old (some e) = refl

same_kept :
    (a b : Dict BmcEndpoint)
    → ((k : Text) → is_some (lookup k a) ≡ is_some (lookup k b))
    → (o : Option NodeBmcLink) → when_kept (refers_to a) o ≡ when_kept (refers_to b) o
same_kept a b h none = refl
same_kept a b h (some l) = ground (arith, h l.bmc_id)

-- Links are kept by the rows of their BMCs, which are the desired ones.
kept-links :
    (session : Session) (now n : ℕ) (es : List BmcEndpoint) (ls : List NodeBmcLink) (t : Tables)
    (endpoints : Dict BmcEndpoint) (links : Dict NodeBmcLink) (k : Text)
    → IsDistinct (keys t.links)
    → upsert_all bmc_of
        (stamp_endpoint now)
        (refuse_endpoint session)
        0
        (normalize_endpoints es)
        t.endpoints
      ≡ ok endpoints
    → upsert_all node_of
        (stamp_link now)
        (refuse_link session endpoints)
        n
        (normalize_links ls)
        t.links
      ≡ ok links
    → lookup k (
        keep_rows
          (refers_to (keep_keys (map bmc_of (normalize_endpoints es)) endpoints))
          (keep_keys (map node_of (normalize_links ls)) links))
      ≡ when_kept
          (refers_to (endpoints_by_bmc [] es))
          (synced (stamp_link now) (lookup k t.links) (lookup k (links_by_node [] ls)))
kept-links session now n es ls t endpoints links k d e f =
    lookup-keep_rows (refers_to (keep_keys (map bmc_of (normalize_endpoints es)) endpoints))
      (keep_keys (map node_of (normalize_links ls)) links) k
      (keep_keys-IsDistinct (map node_of (normalize_links ls)) links (
        upsert_all-IsDistinct node_of (stamp_link now) (refuse_link session endpoints) n
          (normalize_links ls) t.links links d f))
    ∙ ap (when_kept (refers_to (keep_keys (map bmc_of (normalize_endpoints es)) endpoints)))
        (lookup-links session now n endpoints ls t.links links k f)
    ∙ same_kept _ _
        (λ b.
          ap is_some (lookup-endpoints session now es t.endpoints endpoints b e)
          ∙ is_some-synced now _ _)
        (synced (stamp_link now) (lookup k t.links) (lookup k (links_by_node [] ls)))

delete_all_stale-tables :
    (session : Session) (es : List BmcEndpoint) (ls : List NodeBmcLink)
    (endpoints : Dict BmcEndpoint) (links : Dict NodeBmcLink) {counts : MappingApplyCounts}
    {new : Tables}
    → delete_all_stale session es ls endpoints links ≡ ok (counts, new)
    → without_stale es ls endpoints links ≡ new
unfolding delete_all_stale
delete_all_stale-tables session es ls endpoints links h =
    elim (Result-cases (
      delete_stale session (length es + length ls) (count_stale (map node_of ls) links)
        (codes "stale node links"))) [
          | inl (x, e) ↦ ground (arith, h, e)
          | inr (n, e) ↦
              elim (Result-cases (
                delete_stale session (length es + length ls + 1)
                  (count_stale (map bmc_of es) endpoints) (codes "stale BMC endpoints"))) [
                    | inl (x, f) ↦ ground (arith, h, e, f)
                    | inr (m, f) ↦ ground (arith, h, e, f)
                  ]
        ]

write_links-Holds :
    (session : Session) (now : ℕ) (es : List BmcEndpoint) (ls : List NodeBmcLink) (t : Tables)
    (endpoints : Dict BmcEndpoint) {counts : MappingApplyCounts} {new : Tables}
    → IsDistinct (keys t.links)
    → upsert_all bmc_of
        (stamp_endpoint now)
        (refuse_endpoint session)
        0
        (normalize_endpoints es)
        t.endpoints
      ≡ ok endpoints
    → write_links session now (normalize_endpoints es) (normalize_links ls) t.links endpoints
      ≡ ok (counts, new)
    → Holds now es ls t new
unfolding write_links
write_links-Holds session now es ls t endpoints d e h =
    let (links, f, h2) =
      and_then-ok
        (upsert_all node_of (stamp_link now) (refuse_link session endpoints)
          (length (normalize_endpoints es)) (normalize_links ls) t.links)
        (delete_all_stale session (normalize_endpoints es) (normalize_links ls) endpoints) h in
    subst (Holds now es ls t)
      (delete_all_stale-tables session (normalize_endpoints es) (normalize_links ls) endpoints links
        h2)
      (record {
        endpoints_as = λ k. lookup-endpoints session now es t.endpoints endpoints k e;
        links_as = λ k. kept-links session now _ es ls t endpoints links k d e f;
      })

transaction-Holds :
    (session : Session) (now : ℕ) (es : List BmcEndpoint) (ls : List NodeBmcLink) (t : Tables)
    {counts : MappingApplyCounts} {new : Tables}
    → IsDistinct (keys t.links)
    → transaction session now (normalize_endpoints es) (normalize_links ls) t ≡ ok (counts, new)
    → Holds now es ls t new
unfolding transaction
transaction-Holds session now es ls t d h =
    let (endpoints, e, h1) =
      and_then-ok
        (upsert_all bmc_of (stamp_endpoint now) (refuse_endpoint session) 0 (normalize_endpoints es)
          t.endpoints)
        (write_links session now (normalize_endpoints es) (normalize_links ls) t.links) h in
    write_links-Holds session now es ls t endpoints d e h1

-- The answer of a sync and the tables it leaves.
abbrev pub Replaced :
    ℕ
    → List BmcEndpoint
    → List NodeBmcLink
    → Tables
    → Result GoError MappingApplyCounts × Tables
    → Type 0
Replaced now es ls old (err e, new) = new ≡ old
Replaced now es ls old (ok counts, new) = Holds now es ls old new

committed-Replaced :
    (commit : Option GoError) (now : ℕ) (es : List BmcEndpoint) (ls : List NodeBmcLink) (t : Tables)
    (r : Result GoError (MappingApplyCounts × Tables))
    → ((counts : MappingApplyCounts) (new : Tables) → r ≡ ok (counts, new) → Holds now es ls t new)
    → Replaced now es ls t (committed commit t r)
committed-Replaced commit now es ls t (err e) h = refl
committed-Replaced (some e) now es ls t (ok r) h = refl
committed-Replaced none now es ls t (ok (counts, new)) h = h counts new refl

begun-Replaced :
    (begin : Option GoError) (now : ℕ) (es : List BmcEndpoint) (ls : List NodeBmcLink) (t : Tables)
    (r : Result GoError MappingApplyCounts × Tables)
    → Replaced now es ls t r
    → Replaced now es ls t (begun begin t r)
begun-Replaced (some e) now es ls t r h = refl
begun-Replaced none now es ls t r h = h

-- Whatever the database answers, `ReplaceTopologyMappings` either answers an error and leaves the
-- tables as they were, or afterwards there is a row for every desired BMC and for no other, and a
-- link for every desired node whose BMC is desired and for no other: with the desired values, the
-- time of the sync, and the creation time of the row that was there. Desired is, for each trimmed
-- identifier that is not blank, the last item that has it, where a link with a blank BMC is no item.
-- The links table must have one row for each node, which its primary key says.
pub replace_topology_mappings-Replaced :
    (session : Session) (es : List BmcEndpoint) (ls : List NodeBmcLink) (now : ℕ) (t : Tables)
    → IsDistinct (keys t.links)
    → Replaced now es ls t (replace_topology_mappings session es ls now t)
unfolding replace_topology_mappings
replace_topology_mappings-Replaced session es ls now t d =
    begun-Replaced session.begin now es ls t _ (
      committed-Replaced session.commit now es ls t _
        (λ counts new h. transaction-Holds session now es ls t d h))
