-- ===== src/Store/Mappings/Desired.antt =====
-- The rows of a table after the desired ones are written and all others deleted.
use chamicore.Prelude.{
  ℕ, ◌≡◌, ◌||◌, List, [], ◌∷◌, map, Option, none, some, arith, ok, inl, inr, Bool-cases, is_empty,
}
use chamicore.Text.{Text}
use chamicore.Text.Trim.{trim_space}
use chamicore.Text.Unique.{IsDistinct}
use chamicore.Dict.{Dict, lookup, keys, keys-insert-IsDistinct}
use chamicore.GoError.{GoError}
use chamicore.Model.{BmcEndpoint, NodeBmcLink}
use chamicore.Store.Table.{
  sorted_rows, keep_keys, upsert_all, IsKeyed, nil-IsKeyed, insert-IsKeyed, lookup-keep_keys,
  lookup-upsert_all, sorted_rows-IsDistinct, find-sorted_rows, contains-sorted_rows,
}
use chamicore.Store.Mappings.{
  Session, endpoints_by_bmc, links_by_node, normalize_endpoints, normalize_links, bmc_of, node_of,
  clean_endpoint, clean_link,
}
use chamicore.Store.Mappings.Transaction.{stamp_endpoint, stamp_link, refuse_endpoint, refuse_link}

nil-IsDistinct : (V : Type 0) → IsDistinct (keys {V = V} [])
unfolding keys
nil-IsDistinct V = tt

endpoints_by_bmc-IsKeyed :
    (items : List BmcEndpoint) (m : Dict BmcEndpoint)
    → IsKeyed bmc_of m
    → IsKeyed bmc_of (endpoints_by_bmc m items)
unfolding endpoints_by_bmc
endpoints_by_bmc-IsKeyed [] m h = h
endpoints_by_bmc-IsKeyed (e ∷ es) m h = elim (Bool-cases (is_empty (trim_space e.bmc_id))) [
  | inl c ↦ rw c (endpoints_by_bmc-IsKeyed es m h)
  | inr c ↦ rw c (endpoints_by_bmc-IsKeyed es _ (insert-IsKeyed bmc_of (clean_endpoint e) m h))
]

endpoints_by_bmc-IsDistinct :
    (items : List BmcEndpoint) (m : Dict BmcEndpoint)
    → IsDistinct (keys m)
    → IsDistinct (keys (endpoints_by_bmc m items))
unfolding endpoints_by_bmc
endpoints_by_bmc-IsDistinct [] m h = h
endpoints_by_bmc-IsDistinct (e ∷ es) m h = elim (Bool-cases (is_empty (trim_space e.bmc_id))) [
  | inl c ↦ rw c (endpoints_by_bmc-IsDistinct es m h)
  | inr c ↦ rw c (
      endpoints_by_bmc-IsDistinct es _
        (keys-insert-IsDistinct (trim_space e.bmc_id) (clean_endpoint e) m h))
]

links_by_node-IsKeyed :
    (items : List NodeBmcLink) (m : Dict NodeBmcLink)
    → IsKeyed node_of m
    → IsKeyed node_of (links_by_node m items)
unfolding links_by_node
links_by_node-IsKeyed [] m h = h
links_by_node-IsKeyed (l ∷ ls) m h =
    elim (Bool-cases (is_empty (trim_space l.node_id) || is_empty (trim_space l.bmc_id))) [
      | inl c ↦ rw c (links_by_node-IsKeyed ls m h)
      | inr c ↦ rw c (links_by_node-IsKeyed ls _ (insert-IsKeyed node_of (clean_link l) m h))
    ]

links_by_node-IsDistinct :
    (items : List NodeBmcLink) (m : Dict NodeBmcLink)
    → IsDistinct (keys m)
    → IsDistinct (keys (links_by_node m items))
unfolding links_by_node
links_by_node-IsDistinct [] m h = h
links_by_node-IsDistinct (l ∷ ls) m h =
    elim (Bool-cases (is_empty (trim_space l.node_id) || is_empty (trim_space l.bmc_id))) [
      | inl c ↦ rw c (links_by_node-IsDistinct ls m h)
      | inr c ↦ rw c (
          links_by_node-IsDistinct ls _
            (keys-insert-IsDistinct (trim_space l.node_id) (clean_link l) m h))
    ]

-- The row that a sync leaves, given the row before it and the desired one.
abbrev pub synced : {V : Type 0} → (Option V → V → V) → Option V → Option V → Option V
synced stamp old none = none
synced stamp old (some v) = some (stamp old v)

-- Writing the rows of a map and dropping all others leaves exactly the rows of the map.
lookup-replaced :
    {V : Type 0} (key : V → Text) (stamp : Option V → V → V) (refuse : ℕ → V → Option GoError)
    (n : ℕ) (desired t r : Dict V) (k : Text)
    → IsKeyed key desired
    → IsDistinct (keys desired)
    → upsert_all key stamp refuse n (sorted_rows desired) t ≡ ok r
    → lookup k (keep_keys (map key (sorted_rows desired)) r)
      ≡ synced stamp (lookup k t) (lookup k desired)
lookup-replaced key stamp refuse n desired t r k h d e = ground (
  arith,
  lookup-keep_keys (map key (sorted_rows desired)) r k,
  contains-sorted_rows key desired k h,
  lookup-upsert_all key stamp refuse n (sorted_rows desired) t k r
      (sorted_rows-IsDistinct key desired h d) e,
  find-sorted_rows key desired k h,
)

pub lookup-endpoints :
    (session : Session) (now : ℕ) (es : List BmcEndpoint) (t r : Dict BmcEndpoint) (k : Text)
    → upsert_all bmc_of (stamp_endpoint now) (refuse_endpoint session) 0 (normalize_endpoints es) t
      ≡ ok r
    → lookup k (keep_keys (map bmc_of (normalize_endpoints es)) r)
      ≡ synced (stamp_endpoint now) (lookup k t) (lookup k (endpoints_by_bmc [] es))
unfolding normalize_endpoints
lookup-endpoints session now es t r k e =
    lookup-replaced bmc_of (stamp_endpoint now) (refuse_endpoint session) 0 (endpoints_by_bmc [] es)
      t r k (endpoints_by_bmc-IsKeyed es [] (nil-IsKeyed bmc_of))
      (endpoints_by_bmc-IsDistinct es [] (nil-IsDistinct _)) e

pub lookup-links :
    (session : Session) (now n : ℕ) (endpoints : Dict BmcEndpoint) (ls : List NodeBmcLink)
    (t r : Dict NodeBmcLink) (k : Text)
    → upsert_all node_of (stamp_link now) (refuse_link session endpoints) n (normalize_links ls) t
      ≡ ok r
    → lookup k (keep_keys (map node_of (normalize_links ls)) r)
      ≡ synced (stamp_link now) (lookup k t) (lookup k (links_by_node [] ls))
unfolding normalize_links
lookup-links session now n endpoints ls t r k e =
    lookup-replaced node_of (stamp_link now) (refuse_link session endpoints) n (links_by_node [] ls)
      t r k (links_by_node-IsKeyed ls [] (nil-IsKeyed node_of))
      (links_by_node-IsDistinct ls [] (nil-IsDistinct _)) e
