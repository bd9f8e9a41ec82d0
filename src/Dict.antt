-- ===== src/Dict.antt =====
-- A Go map from strings, as an association list: a write replaces the binding of the key.
use chamicore.Prelude.{
  ◌≡◌, refl, Bool, true, false, List, [], ◌∷◌, Option, none, some, arith, if◌then◌else◌,
}
use chamicore.Text.{Text, ◌=ₛ◌, =ₛ_iff}
use chamicore.Text.Unique.{contains, IsDistinct}

abbrev pub Dict {ℓ} : Type ℓ → Type ℓ
Dict V = List (Text × V)

module _ {ℓ} {V : Type ℓ} where
  -- `v, ok := m[k]`.
  unfoldable pub lookup : Text → List (Text × V) → Option V
  lookup k [] = none
  lookup k ((j, v) ∷ m) = if j =ₛ k then some v else lookup k m

  -- `m[k] = v`.
  unfoldable pub insert : Text → V → List (Text × V) → List (Text × V)
  insert k v [] = (k, v) ∷ []
  insert k v ((j, w) ∷ m) = if j =ₛ k then (k, v) ∷ m else (j, w) ∷ insert k v m

  -- `delete(m, k)`.
  unfoldable pub erase : Text → List (Text × V) → List (Text × V)
  erase k [] = []
  erase k ((j, w) ∷ m) = let rest = erase k m in if j =ₛ k then rest else (j, w) ∷ rest

  -- `for k := range m`.
  unfoldable pub keys : List (Text × V) → List Text
  keys [] = []
  keys ((j, w) ∷ m) = j ∷ keys m

  pub lookup-insert :
      (k j : Text) (v : V) (m : List (Text × V))
      → lookup j (insert k v m) ≡ (if k =ₛ j then some v else lookup j m)
  unfolding lookup insert
  lookup-insert k j v [] = refl
  lookup-insert k j v ((i, w) ∷ m) =
      ground (arith, =ₛ_iff k j, =ₛ_iff i k, =ₛ_iff i j, lookup-insert k j v m)

  pub lookup-erase :
      (k j : Text) (m : List (Text × V))
      → lookup j (erase k m) ≡ (if k =ₛ j then none else lookup j m)
  unfolding lookup erase
  lookup-erase k j [] = ground arith
  lookup-erase k j ((i, w) ∷ m) =
      ground (arith, =ₛ_iff k j, =ₛ_iff i k, =ₛ_iff i j, lookup-erase k j m)

  abbrev pub is_some : Option V → Bool
  is_some none = false
  is_some (some v) = true

  pub contains-keys : (m : List (Text × V)) (k : Text) → contains (keys m) k ≡ is_some (lookup k m)
  unfolding contains keys lookup
  contains-keys [] k = refl
  contains-keys ((j, w) ∷ m) k = ground (arith, contains-keys m k)

  pub keys-insert-IsDistinct :
      (k : Text) (v : V) (m : List (Text × V))
      → IsDistinct (keys m)
      → IsDistinct (keys (insert k v m))
  unfolding keys insert contains
  keys-insert-IsDistinct k v [] h = (refl, tt)
  keys-insert-IsDistinct k v ((j, w) ∷ m) h = ground (
    arith,
    =ₛ_iff j k,
    keys-insert-IsDistinct k v m h.1,
    contains-keys m j,
    contains-keys (insert k v m) j,
    lookup-insert k j v m,
    =ₛ_iff k j,
  )
