-- ===== src/Store/Table.antt =====
-- A table with a text as its primary key, and the loops over a Go map that the store fills from a
-- list: the keys sorted, and the rows in that order.
use chamicore.Prelude.{
  ℕ, suc, ◌≡◌, refl, Bool, false, not, ◌&&◌, List, [], ◌∷◌, map, Option, none, some, arith, Result,
  ok, err, count_if, if◌then◌else◌, Option-cases, inl, inr,
}
use chamicore.Text.{Text, ◌=ₛ◌, =ₛ_iff}
use chamicore.Text.Order.{sort_strings}
use chamicore.Text.Unique.{contains, IsDistinct, contains-sort_strings, sort_strings-IsDistinct}
use chamicore.Dict.{
  Dict, lookup, insert, keys, is_some, lookup-insert, contains-keys, keys-insert-IsDistinct,
}
use chamicore.GoError.{GoError}

module _ {V : Type 0} where
  abbrev with_row : Option V → List V → List V
  with_row none rows = rows
  with_row (some v) rows = v ∷ rows

  -- `for _, key := range keys { result = append(result, m[key]) }`, for keys that are bound.
  unfoldable pub rows_at : Dict V → List Text → List V
  rows_at m [] = []
  rows_at m (k ∷ ks) = with_row (lookup k m) (rows_at m ks)

  -- The values of a map in the order of the keys; also what `ORDER BY` the primary key selects.
  unfoldable pub sorted_rows : Dict V → List V
  unfolding rows_at
  sorted_rows m = rows_at m (sort_strings (keys m))

  -- `DELETE ... WHERE key NOT IN ids`, and without a condition where there are no ids.
  unfoldable pub keep_keys : List Text → Dict V → Dict V
  keep_keys ids [] = []
  keep_keys ids ((k, v) ∷ m) =
      let rest = keep_keys ids m in if contains ids k then (k, v) ∷ rest else rest

  unfoldable pub count_stale : List Text → Dict V → ℕ
  count_stale ids m = count_if (λ (k : Text). not (contains ids k)) (keys m)

  -- What `ON DELETE CASCADE` leaves of the rows that refer to another table.
  unfoldable pub keep_rows : (V → Bool) → Dict V → Dict V
  keep_rows p [] = []
  keep_rows p ((k, v) ∷ m) = let rest = keep_rows p m in if p v then (k, v) ∷ rest else rest

  pub lookup-keep_keys :
      (ids : List Text) (m : Dict V) (k : Text)
      → lookup k (keep_keys ids m) ≡ (if contains ids k then lookup k m else none)
  unfolding keep_keys lookup
  lookup-keep_keys ids [] k = ground arith
  lookup-keep_keys ids ((j, v) ∷ m) k = ground (arith, =ₛ_iff j k, lookup-keep_keys ids m k)

  abbrev pub when_kept : (V → Bool) → Option V → Option V
  when_kept p none = none
  when_kept p (some v) = if p v then some v else none

  lookup-none : (m : Dict V) (k : Text) → contains (keys m) k ≡ false → lookup k m ≡ none
  lookup-none m k h = ground (arith, contains-keys m k)

  pub lookup-keep_rows :
      (p : V → Bool) (m : Dict V) (k : Text)
      → IsDistinct (keys m)
      → lookup k (keep_rows p m) ≡ when_kept p (lookup k m)
  unfolding keep_rows lookup keys
  lookup-keep_rows p [] k h = refl
  lookup-keep_rows p ((j, v) ∷ m) k h =
      ground (arith, =ₛ_iff j k, lookup-keep_rows p m k h.1, lookup-none m k)

  pub keys-keep_keys :
      (ids : List Text) (m : Dict V) (k : Text)
      → contains (keys (keep_keys ids m)) k ≡ (contains ids k && contains (keys m) k)
  unfolding keep_keys keys contains
  keys-keep_keys ids [] k = ground arith
  keys-keep_keys ids ((j, v) ∷ m) k = ground (arith, =ₛ_iff j k, keys-keep_keys ids m k)

  pub keep_keys-IsDistinct :
      (ids : List Text) (m : Dict V) → IsDistinct (keys m) → IsDistinct (keys (keep_keys ids m))
  unfolding keep_keys keys
  keep_keys-IsDistinct ids [] h = tt
  keep_keys-IsDistinct ids ((j, v) ∷ m) h =
      ground (arith, keys-keep_keys ids m j, keep_keys-IsDistinct ids m h.1)

module _ {V : Type 0} (key : V → Text) where
  -- Every row stands under its key.
  abbrev pub IsKeyed : Dict V → Type 0
  IsKeyed m = (k : Text) (v : V) → lookup k m ≡ some v → key v ≡ k

  pub nil-IsKeyed : IsKeyed []
  unfolding lookup
  nil-IsKeyed k v h = ground (arith, h)

  pub insert-IsKeyed : (v : V) (m : Dict V) → IsKeyed m → IsKeyed (insert (key v) v m)
  insert-IsKeyed v m h k w e = ground (arith, lookup-insert (key v) k v m, =ₛ_iff (key v) k, h k w)

  unfoldable pub find : Text → List V → Option V
  find k [] = none
  find k (v ∷ vs) = if key v =ₛ k then some v else find k vs

  contains-rows_at :
      (m : Dict V) (ks : List Text) (x : Text)
      → IsKeyed m
      → contains (map key (rows_at m ks)) x ≡ (contains ks x && is_some (lookup x m))
  unfolding rows_at contains
  contains-rows_at m [] x h = refl
  contains-rows_at m (k ∷ ks) x h = elim (Option-cases (lookup k m)) [
    | inl e ↦ ground (arith, contains-rows_at m ks x h, =ₛ_iff k x, e)
    | inr (v, e) ↦ ground (arith, contains-rows_at m ks x h, =ₛ_iff k x, e, h k v e)
  ]

  rows_at-IsDistinct :
      (m : Dict V) (ks : List Text)
      → IsKeyed m
      → IsDistinct ks
      → IsDistinct (map key (rows_at m ks))
  unfolding rows_at
  rows_at-IsDistinct m [] h d = tt
  rows_at-IsDistinct m (k ∷ ks) h d = elim (Option-cases (lookup k m)) [
    | inl e ↦ ground (arith, e, rows_at-IsDistinct m ks h d.1)
    | inr (v, e) ↦
        ground
          (arith, e, contains-rows_at m ks (key v) h, h k v e, d.0, rows_at-IsDistinct m ks h d.1)
  ]

  find-rows_at :
      (m : Dict V) (ks : List Text) (x : Text)
      → IsKeyed m
      → find x (rows_at m ks) ≡ (if contains ks x then lookup x m else none)
  unfolding rows_at contains find
  find-rows_at m [] x h = refl
  find-rows_at m (k ∷ ks) x h = elim (Option-cases (lookup k m)) [
    | inl e ↦ ground (arith, find-rows_at m ks x h, =ₛ_iff k x, e)
    | inr (v, e) ↦ ground (arith, find-rows_at m ks x h, =ₛ_iff k x, e, h k v e)
  ]

  -- The rows of a map in the order of its keys, by key.
  pub sorted_rows-IsDistinct :
      (m : Dict V) → IsKeyed m → IsDistinct (keys m) → IsDistinct (map key (sorted_rows m))
  unfolding sorted_rows
  sorted_rows-IsDistinct m h d =
      rows_at-IsDistinct m (sort_strings (keys m)) h (sort_strings-IsDistinct (keys m) d)

  pub find-sorted_rows : (m : Dict V) (k : Text) → IsKeyed m → find k (sorted_rows m) ≡ lookup k m
  unfolding sorted_rows
  find-sorted_rows m k h = ground (
    arith,
    find-rows_at m (sort_strings (keys m)) k h,
    contains-sort_strings (keys m) k,
    contains-keys m k,
  )

  pub contains-sorted_rows :
      (m : Dict V) (k : Text)
      → IsKeyed m
      → contains (map key (sorted_rows m)) k ≡ is_some (lookup k m)
  unfolding sorted_rows
  contains-sorted_rows m k h = ground (
    arith,
    contains-rows_at m (sort_strings (keys m)) k h,
    contains-sort_strings (keys m) k,
    contains-keys m k,
  )

  find-none : (vs : List V) (k : Text) → contains (map key vs) k ≡ false → find k vs ≡ none
  unfolding find contains
  find-none [] k h = refl
  find-none (v ∷ vs) k h = ground (arith, find-none vs k)

module _ {V : Type 0} (key : V → Text) (stamp : Option V → V → V)
    (refuse : ℕ → V → Option GoError) where
  -- `INSERT ... ON CONFLICT (key) DO UPDATE` for one row after the other: `stamp` makes the new row
  -- from the one that is there, and `refuse` is the error that a statement ends with.
  unfoldable pub upsert_all : ℕ → List V → Dict V → Result GoError (Dict V)
  upsert_all n [] t = ok t
  upsert_all n (v ∷ vs) t = elim (refuse n v) [
    | some e ↦ err e
    | none ↦ upsert_all (suc n) vs (insert (key v) (stamp (lookup (key v) t) v) t)
  ]

  abbrev pub stamped : Option V → Option V → Option V
  stamped old none = old
  stamped old (some v) = some (stamp old v)

  pub lookup-upsert_all :
      (n : ℕ) (vs : List V) (t : Dict V) (k : Text) (r : Dict V)
      → IsDistinct (map key vs)
      → upsert_all n vs t ≡ ok r
      → lookup k r ≡ stamped (lookup k t) (find key k vs)
  unfolding upsert_all find
  lookup-upsert_all n [] t k r d h = ground arith
  lookup-upsert_all n (v ∷ vs) t k r d h = elim (Option-cases (refuse n v)) [
    | inl e ↦ ground (
      arith,
      e,
      lookup-upsert_all (suc n) vs (insert (key v) (stamp (lookup (key v) t) v) t) k r d.1,
      lookup-insert (key v) k (stamp (lookup (key v) t) v) t,
      =ₛ_iff (key v) k,
      find-none key vs k,
      d.0,
    )
    | inr (x, e) ↦ ground (arith, e)
  ]

  pub upsert_all-IsDistinct :
      (n : ℕ) (vs : List V) (t : Dict V) (r : Dict V)
      → IsDistinct (keys t)
      → upsert_all n vs t ≡ ok r
      → IsDistinct (keys r)
  unfolding upsert_all
  upsert_all-IsDistinct n [] t r d h = ground arith
  upsert_all-IsDistinct n (v ∷ vs) t r d h = elim (Option-cases (refuse n v)) [
    | inl e ↦ ground (
      arith,
      e,
      upsert_all-IsDistinct (suc n) vs (insert (key v) (stamp (lookup (key v) t) v) t) r
          (keys-insert-IsDistinct (key v) (stamp (lookup (key v) t) v) t d),
    )
    | inr (x, e) ↦ ground (arith, e)
  ]
