-- ===== src/Mcp/Policy/Scopes.antt =====
-- services/chamicore-mcp/internal/policy/scopes.go.
use chamicore.Prelude.{
  ◌≡◌, refl, ◌↔◌, ◌⊎◌, inl, inr, true, false, not, ◌&&◌, List, [], ◌∷◌, map, Option, none, some,
  arith, is_empty, keep_if, if◌then◌else◌, Bool-cases,
}
use chamicore.Text.{Text, codes, =ₛ_iff}
use chamicore.Text.Trim.{trim_space}
use chamicore.Text.Unique.{contains, normalized_unique, contains-normalized_unique}
use chamicore.Mcp.Policy.{PolicyError, missing_scopes}

abbrev pub admin : Text
admin = codes "admin"

unfoldable pub normalize_scope_list : List Text → List Text
normalize_scope_list scopes = normalized_unique scopes

-- The scopes of a list that are not granted: the loop that fills `missing`.
unfoldable pub missing_from : List Text → List Text → List Text
missing_from granted required = keep_if (λ scope. not (contains granted scope)) required

abbrev tool_or_unknown : Text → Text
tool_or_unknown name = let tool = trim_space name in if is_empty tool then codes "unknown" else tool

-- `RequireScopes`; the summary "none" for no granted scope is the empty list here.
unfoldable pub require_scopes : Text → List Text → List Text → Option PolicyError
require_scopes tool_name required granted =
    let required_scopes = normalize_scope_list required in
    let granted_scopes = normalize_scope_list granted in
    let missing = missing_from granted_scopes required_scopes in
    if is_empty required_scopes
    then none
    else if contains granted_scopes admin
    then none
    else if is_empty missing
    then none
    else some (missing_scopes (tool_or_unknown tool_name) missing granted_scopes)

contains-normalize :
    (scopes : List Text) (t : Text)
    → contains (normalize_scope_list scopes) t
      ≡ (not (is_empty t) && contains (map trim_space scopes) t)
unfolding normalize_scope_list
contains-normalize scopes t = contains-normalized_unique scopes t

contains-missing_from :
    (granted required : List Text) (t : Text)
    → contains (missing_from granted required) t ≡ (contains required t && not (contains granted t))
unfolding missing_from contains
contains-missing_from granted [] t = refl
contains-missing_from granted (x ∷ xs) t =
    ground (arith, =ₛ_iff x t, contains-missing_from granted xs t)

eq-nil-of_contains : (xs : List Text) → ((t : Text) → contains xs t ≡ false) → is_empty xs ≡ true
unfolding contains
eq-nil-of_contains [] h = refl
eq-nil-of_contains (x ∷ xs) h = ground (arith, h x, =ₛ_iff x x)

contains-of_is_empty : (xs : List Text) (t : Text) → is_empty xs ≡ true → contains xs t ≡ false
unfolding contains
contains-of_is_empty [] t h = refl
contains-of_is_empty (x ∷ xs) t h = cc

-- What the granted scopes must hold: `admin`, or every required scope, after trimming.
abbrev pub Suffices : List Text → List Text → Type 0
Suffices required granted =
    (contains (map trim_space granted) admin ≡ true)
    ⊎ ((scope : Text)
        → is_empty scope ≡ false
        → contains (map trim_space required) scope ≡ true
        → contains (map trim_space granted) scope ≡ true)

Suffices-of_none :
    (tool : Text) (required granted : List Text)
    → require_scopes tool required granted ≡ none
    → Suffices required granted
unfolding require_scopes
Suffices-of_none tool required granted h =
    elim (Bool-cases (contains (map trim_space granted) admin)) [
      | inl all ↦ inl all
      | inr few ↦ inr (λ scope filled wanted. ground (
        arith,
        contains-normalize granted admin,
        contains-normalize granted scope,
        contains-normalize required scope,
        contains-missing_from (normalize_scope_list granted) (normalize_scope_list required) scope,
        contains-of_is_empty (normalize_scope_list required) scope,
        contains-of_is_empty
            (missing_from (normalize_scope_list granted) (normalize_scope_list required)) scope,
      ))
    ]

none-of_Suffices :
    (tool : Text) (required granted : List Text)
    → Suffices required granted
    → require_scopes tool required granted ≡ none
unfolding require_scopes
none-of_Suffices tool required granted (inl all) = ground (arith, contains-normalize granted admin)
none-of_Suffices tool required granted (inr each) = ground (
  arith,
  eq-nil-of_contains (missing_from (normalize_scope_list granted) (normalize_scope_list required))
      (λ t. none_missing t),
)
  where
    none_missing :
        (t : Text)
        → contains (missing_from (normalize_scope_list granted) (normalize_scope_list required)) t
          ≡ false
    none_missing t = ground (
      arith,
      each t,
      contains-missing_from (normalize_scope_list granted) (normalize_scope_list required) t,
      contains-normalize granted t,
      contains-normalize required t,
    )

-- The scope gate opens exactly when the granted scopes, trimmed, hold `admin` or hold every
-- required scope that is not blank.
pub require_scopes-eq-none_iff :
    (tool : Text) (required granted : List Text)
    → (require_scopes tool required granted ≡ none) ↔ Suffices required granted
require_scopes-eq-none_iff tool required granted =
    (Suffices-of_none tool required granted, none-of_Suffices tool required granted)

-- When the gate refuses, its message lists a scope as missing exactly when it is required, not
-- blank and not granted, all after trimming; and at least one is listed.
pub require_scopes-missing :
    (tool : Text) (required granted : List Text) {name : Text} {missing held : List Text}
    → require_scopes tool required granted ≡ some (missing_scopes name missing held)
    → ((scope : Text)
        → contains missing scope ≡ (
            not (is_empty scope)
            && (contains (map trim_space required) scope
                && not (contains (map trim_space granted) scope))))
      × (is_empty missing ≡ false)
unfolding require_scopes
require_scopes-missing tool required granted h = (
  λ scope. ground (
    arith,
    contains-missing_from (normalize_scope_list granted) (normalize_scope_list required) scope,
    contains-normalize granted scope,
    contains-normalize required scope,
  ),
  ground arith,
)
