-- ===== src/Mcp/Server/Session.antt =====
-- services/chamicore-mcp/internal/server/http_auth.go. Decoding base64 and JSON is the argument
-- `decode`: the claims in a payload, which is an object, or a null for no claims.
use chamicore.Prelude.{
  ◌≡◌, refl, ◌↔◌, Bool, true, false, not, ◌||◌, List, [], ◌∷◌, ◌++◌, map, Option, none, some, arith,
  inl, inr, Bool-cases, Result, ok, err, is_empty, if◌then◌else◌,
}
use chamicore.Text.{Text, codes, ◌=ₛ◌, =ₛ_iff}
use mathlib.Core.List.{map-append}
use chamicore.Text.Trim.{trim_space, trim_left, trim_right, is_space}
use chamicore.Text.Fold.{equal_fold}
use chamicore.Text.Split.{split_on, cut, fields}
use chamicore.Text.Unique.{
  contains, normalized_unique, collect_unique, contains-append, contains-normalized_unique,
}
use chamicore.Mcp.Value.{Value, string, strings, array, Values, nil, cons, Fields, get}
use chamicore.Mcp.Policy.Confirm.{as_string}

pub data SessionError : Type 0 where
  session_token_missing bearer_token_missing bearer_token_invalid : SessionError

pub record SessionPrincipal : Type 0 where
  pub subject : Text
  pub scopes : List Text

pub record Authenticator : Type 0 where
  pub token : Text
  pub principal : SessionPrincipal

abbrev add_filled : Text → List Text → List Text
add_filled t rest = if is_empty t then rest else t ∷ rest

unfoldable pub trimmed_texts : List Text → List Text
trimmed_texts [] = []
trimmed_texts (s ∷ ss) = let rest = trimmed_texts ss in add_filled (trim_space s) rest

-- The items of an array that are texts.
unfoldable pub trimmed_items : Values → List Text
trimmed_items nil = []
trimmed_items (cons (string s) vs) = let rest = trimmed_items vs in add_filled (trim_space s) rest
trimmed_items (cons v vs) = trimmed_items vs

-- `parseScopeClaims`; a missing claim is nil.
unfoldable pub parse_scope_claims : Option Value → List Text
unfolding trimmed_texts trimmed_items fields
parse_scope_claims none = []
parse_scope_claims (some (string s)) = fields s
parse_scope_claims (some (strings ss)) = trimmed_texts ss
parse_scope_claims (some (array vs)) = trimmed_items vs
parse_scope_claims (some _) = []

abbrev or_else : List Text → List Text → List Text
or_else [] ys = ys
or_else (x ∷ xs) ys = x ∷ xs

-- The first of the three claims that lists a scope.
unfoldable pub claimed_scopes : Fields → List Text
unfolding parse_scope_claims
claimed_scopes payload = or_else (parse_scope_claims (get payload (codes "scope"))) (
    or_else (parse_scope_claims (get payload (codes "scopes")))
      (parse_scope_claims (get payload (codes "scp"))))

-- An `admin` role counts as an `admin` scope.
unfoldable pub scopes_of : Fields → List Text
unfolding claimed_scopes
scopes_of payload =
    let scopes = claimed_scopes payload in
    normalized_unique (
      if contains (parse_scope_claims (get payload (codes "roles"))) (codes "admin")
      then scopes ++ codes "admin" ∷ []
      else scopes)

abbrev text_or_empty : Option Text → Text
text_or_empty none = []
text_or_empty (some t) = t

abbrev principal_of : Option Fields → Option (Text × List Text)
principal_of none = none
principal_of (some payload) =
    some (trim_space (text_or_empty (as_string (get payload (codes "sub")))), scopes_of payload)

-- The second of three parts.
abbrev payload_part : List Text → Option Text
payload_part (header ∷ payload ∷ signature ∷ []) = some payload
payload_part _ = none

abbrev decoded : (Text → Option Fields) → Option Text → Option Fields
decoded decode none = none
decoded decode (some payload) = decode payload

-- `parseJWTPrincipal`.
unfoldable pub parse_jwt_principal : (Text → Option Fields) → Text → Option (Text × List Text)
unfolding scopes_of
parse_jwt_principal decode token =
    principal_of (decoded decode (payload_part (split_on b'.' (trim_space token))))

abbrev pub default_subject : Text
default_subject = codes "mcp-session"

abbrev principal_or_admin : Option (Text × List Text) → SessionPrincipal
principal_or_admin none = record { subject = default_subject; scopes = codes "admin" ∷ [] }
principal_or_admin (some (subject, scopes)) = record {
  subject = if is_empty subject then default_subject else subject;
  scopes = scopes;
}

-- `deriveSessionPrincipal`.
unfoldable pub derive_session_principal : (Text → Option Fields) → Text → SessionPrincipal
unfolding parse_jwt_principal
derive_session_principal decode token = principal_or_admin (parse_jwt_principal decode token)

-- `NewTokenSessionAuthenticator`.
unfoldable pub new_authenticator : (Text → Option Fields) → Text → Authenticator
unfolding derive_session_principal
new_authenticator decode token = record {
  token = trim_space token;
  principal = derive_session_principal decode (trim_space token);
}

abbrev bearer_of : Option (Text × Text) → Text
bearer_of none = []
bearer_of (some (scheme, rest)) = if equal_fold scheme (codes "Bearer") then trim_space rest else []

-- `parseBearerToken`.
unfoldable pub parse_bearer_token : Text → Text
parse_bearer_token header = bearer_of (cut b' ' (trim_space header))

-- `AuthenticateHTTP`, given the Authorization header.
unfoldable pub authenticate_http : Authenticator → Text → Result SessionError SessionPrincipal
unfolding parse_bearer_token
authenticate_http a header =
    let presented = parse_bearer_token header in
    if is_empty (trim_space a.token)
    then err session_token_missing
    else if is_empty presented
    then err bearer_token_missing
    else if not (presented =ₛ a.token)
    then err bearer_token_invalid
    else ok a.principal

-- `AuthenticateStdio`.
unfoldable pub authenticate_stdio : Authenticator → Result SessionError SessionPrincipal
authenticate_stdio a =
    if is_empty (trim_space a.token) then err session_token_missing else ok a.principal

filled-of_trim : (t : Text) → is_empty (trim_space t) ≡ false → is_empty t ≡ false
unfolding trim_space trim_left trim_right
filled-of_trim [] h = h
filled-of_trim (c ∷ cs) h = refl

-- A request is let in exactly when the authenticator has a token that is not blank and the header
-- presents that token under the bearer scheme; it then acts as the principal of the token.
pub authenticate_http-eq-ok :
    (a : Authenticator) (header : Text)
    → (authenticate_http a header ≡ ok a.principal)
      ↔ ((is_empty (trim_space a.token) ≡ false) × (parse_bearer_token header ≡ a.token))
unfolding authenticate_http
authenticate_http-eq-ok a header =
    ground (arith, =ₛ_iff (parse_bearer_token header) a.token, filled-of_trim a.token)

pub authenticate_http-principal :
    (a : Authenticator) (header : Text) (p : SessionPrincipal)
    → authenticate_http a header ≡ ok p
    → a.principal ≡ p
unfolding authenticate_http
authenticate_http-principal a header p h = ground (arith, h)

-- The payload of a token that has three parts, where it can be decoded.
abbrev pub payload_of : (Text → Option Fields) → Text → Option Fields
payload_of decode token = decoded decode (payload_part (split_on b'.' (trim_space token)))

-- A token that is not one of those, or claims `admin` among its scopes or its roles.
abbrev pub claims_admin : Option Fields → Bool
claims_admin none = true
claims_admin (some payload) =
    contains (map trim_space (claimed_scopes payload)) (codes "admin")
    || contains (parse_scope_claims (get payload (codes "roles"))) (codes "admin")

admin-itself : contains (map trim_space (codes "admin" ∷ [])) (codes "admin") ≡ true
unfolding contains trim_space trim_left trim_right is_space ◌=ₛ◌
admin-itself = refl

scopes_of-admin :
    (payload : Fields) → contains (scopes_of payload) (codes "admin") ≡ claims_admin (some payload)
unfolding scopes_of
scopes_of-admin payload =
    elim (Bool-cases
      (contains (parse_scope_claims (get payload (codes "roles"))) (codes "admin"))) [
        | inl e ↦
            rw (e, contains-normalized_unique, map-append, contains-append, admin-itself)
              (ground arith)
        | inr e ↦ rw (e, contains-normalized_unique) (ground arith)
      ]

scopes_of-nil :
    (payload : Fields)
    → claimed_scopes payload ≡ []
    → claims_admin (some payload) ≡ false
    → scopes_of payload ≡ []
unfolding scopes_of normalized_unique collect_unique
scopes_of-nil payload h k =
    elim (Bool-cases
      (contains (parse_scope_claims (get payload (codes "roles"))) (codes "admin"))) [
        | inl e ↦ ground (arith, e, k)
        | inr e ↦ rw (e, h) refl
      ]

admin-of_principal :
    (payload : Option Fields)
    → contains (principal_or_admin (principal_of payload)).scopes (codes "admin")
      ≡ claims_admin payload
unfolding contains ◌=ₛ◌
admin-of_principal none = refl
admin-of_principal (some payload) = scopes_of-admin payload

-- The principal of a token holds the `admin` scope exactly when the token claims it among its scopes
-- or its roles, or is not a token of three parts with a payload that can be decoded. A decodable
-- token that claims nothing has no scope.
pub derive_session_principal-admin :
    (decode : Text → Option Fields) (token : Text)
    → (contains (derive_session_principal decode token).scopes (codes "admin")
        ≡ claims_admin (payload_of decode token))
      × ((payload : Fields)
          → payload_of decode token ≡ some payload
          → claimed_scopes payload ≡ []
          → claims_admin (some payload) ≡ false
          → (derive_session_principal decode token).scopes ≡ [])
unfolding derive_session_principal parse_jwt_principal
derive_session_principal-admin decode token = (
  admin-of_principal (payload_of decode token),
  λ payload e none_claimed no_admin. rw e (scopes_of-nil payload none_claimed no_admin),
)
