-- ===== src/Engine/Redfish/Cached.antt =====
-- The cache of system paths.
use chamicore.Prelude.{
  ℕ, ◌≡◌, refl, ◌∙◌, ap, subst, false, List, [], ◌∷◌, Option, none, some, arith, Result, ok, err,
  is_empty,
}
use chamicore.Text.{Text, =ₛ_iff}
use chamicore.Text.Trim.{trim_space}
use chamicore.Dict.{Dict, lookup, insert, lookup-insert}
use chamicore.GoError.{GoError}
use chamicore.Engine.Redfish.{
  RedfishApi, cache_key, cached_path, choose, or_list, at_endpoint, resolve_path,
  select_system_path,
}

-- The cache answers for a node with a path.
abbrev Remembers : Text → Text → Result GoError Text × Dict Text → Type 0
Remembers endpoint node_id (err e, cache) = Unit
Remembers endpoint node_id (ok path, cache) =
    is_empty (trim_space path) ≡ false
    → cached_path (lookup (cache_key endpoint node_id) cache) ≡ some path

cached_path-filled :
    (path : Text) → is_empty (trim_space path) ≡ false → cached_path (some path) ≡ some path
cached_path-filled path h = ground (arith, h)

insert-found : (k v : Text) (m : Dict Text) → lookup k (insert k v m) ≡ some v
insert-found k v m = ground (arith, lookup-insert k k v m, =ₛ_iff k k)

choose-Remembers :
    (orbit : ℕ → ℕ) (endpoint node_id : Text) (cache : Dict Text) (r : Result GoError (List Text))
    → Remembers endpoint node_id
        (choose orbit endpoint (cache_key endpoint node_id) node_id cache r)
choose-Remembers orbit endpoint node_id cache (err e) = tt
choose-Remembers orbit endpoint node_id cache (ok []) = tt
choose-Remembers orbit endpoint node_id cache (ok (p ∷ ps)) = λ filled.
    ap cached_path
      (insert-found (cache_key endpoint node_id) (select_system_path orbit (p ∷ ps) node_id) cache)
    ∙ cached_path-filled (select_system_path orbit (p ∷ ps) node_id) filled

or_list-Remembers :
    {C : Type 0} (api : RedfishApi C) (endpoint node_id : Text) (cred : C) (cache : Dict Text)
    (o : Option Text)
    → cached_path (lookup (cache_key endpoint node_id) cache) ≡ o
    → Remembers endpoint node_id (or_list api endpoint node_id cred cache o)
or_list-Remembers api endpoint node_id cred cache (some path) h = λ filled. h
or_list-Remembers api endpoint node_id cred cache none h =
    choose-Remembers api.orbit endpoint node_id cache (api.list_system_paths endpoint cred)

again :
    {C : Type 0} (api other : RedfishApi C) (node_id : Text) (cred fresh : C)
    (cache after : Dict Text) (path : Text) (r : Result GoError Text)
    → is_empty (trim_space path) ≡ false
    → at_endpoint api node_id cred cache r ≡ (ok path, after)
    → at_endpoint other node_id fresh after r ≡ (ok path, after)
again api other node_id cred fresh cache after path (err e) filled h = absurd (ground (arith, h))
again api other node_id cred fresh cache after path (ok endpoint) filled h =
    ap (or_list other endpoint node_id fresh after) (
      subst (Remembers endpoint node_id) h
        (or_list-Remembers api endpoint node_id cred cache _ refl) filled)

-- A path that was found for a node, and that is not blank, is found again with the same cache, for
-- whatever credentials and whatever the client would now list, and the cache stays as it is: one
-- listing for each endpoint and node is enough. Both clients must normalise the endpoint alike.
pub resolve_path-again :
    {C : Type 0} (api other : RedfishApi C) (endpoint node_id : Text) (cred fresh : C)
    (cache after : Dict Text) (path : Text)
    → other.normalized endpoint ≡ api.normalized endpoint
    → is_empty (trim_space path) ≡ false
    → resolve_path api endpoint node_id cred cache ≡ (ok path, after)
    → resolve_path other endpoint node_id fresh after ≡ (ok path, after)
unfolding resolve_path
resolve_path-again api other endpoint node_id cred fresh cache after path alike filled h =
    ap (at_endpoint other node_id fresh after) alike
    ∙ again api other node_id cred fresh cache after path (api.normalized endpoint) filled h
