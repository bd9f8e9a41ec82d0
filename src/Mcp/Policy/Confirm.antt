-- ===== src/Mcp/Policy/Confirm.antt =====
-- services/chamicore-mcp/internal/policy/confirm.go.
use chamicore.Prelude.{
  ◌≡◌, refl, ◌↔◌, ◌⊎◌, inl, inr, Bool, true, false, ◌||◌, List, [], ◌∷◌, Option, none, some, arith,
  is_empty, if◌then◌else◌, not, Bool-cases, ◌≢◌, subst, ap,
}
use chamicore.Text.{Text, codes, ◌=ₛ◌, =ₛ_iff}
use chamicore.Text.Trim.{trim_space}
use chamicore.Text.Fold.{to_lower}
use chamicore.Text.Affix.{has_suffix}
use chamicore.Text.Unique.{contains}
use chamicore.Mcp.Value.{Value, null, bool, number, string, strings, array, object, Fields, get}
use chamicore.Mcp.Policy.{
  Reason, for_delete, for_abort, when_operation, PolicyError, requires_confirm,
}

abbrev pub abort_tool : Text
abort_tool = codes "power.transitions.abort"

abbrev pub create_tool : Text
create_tool = codes "power.transitions.create"

abbrev pub destructive_power_operations : List Text
destructive_power_operations =
    codes "forceoff"
    ∷ codes "gracefulshutdown"
    ∷ codes "gracefulrestart"
    ∷ codes "forcerestart"
    ∷ codes "nmi"
    ∷ []

-- `value.(string)`.
unfoldable pub as_string : Option Value → Option Text
as_string none = none
as_string (some (string s)) = some s
as_string (some _) = none

-- What `power.transitions.create` is asked to do, if that is destructive.
unfoldable pub destructive_operation : Option Text → Option Reason
destructive_operation none = none
destructive_operation (some operation) =
    if contains destructive_power_operations (to_lower (trim_space operation))
    then some (when_operation (trim_space operation))
    else none

-- `confirmationRequirement`: `none` for `false, ""`.
unfoldable pub confirmation_requirement : Text → Bool → Fields → Option Reason
confirmation_requirement tool_name required args =
    if required || has_suffix tool_name (codes ".delete")
    then some for_delete
    else if tool_name =ₛ abort_tool
    then some for_abort
    else if not (tool_name =ₛ create_tool)
    then none
    else destructive_operation (as_string (get args (codes "operation")))

-- `confirm, ok := value.(bool)`, and `ok && confirm`.
unfoldable pub is_true : Option Value → Bool
is_true none = false
is_true (some (bool b)) = b
is_true (some _) = false

unfoldable pub has_confirm_true : Fields → Bool
unfolding is_true
has_confirm_true args = is_true (get args (codes "confirm"))

abbrev refuse_unless : Bool → Text → Option Reason → Option PolicyError
refuse_unless confirmed name none = none
refuse_unless confirmed name (some reason) =
    if confirmed then none else some (requires_confirm name reason)

-- `RequireConfirmation`.
unfoldable pub require_confirmation : Text → Bool → Fields → Option PolicyError
require_confirmation tool_name required args =
    let name = trim_space tool_name in
    if is_empty name
    then none
    else refuse_unless (has_confirm_true args) name (confirmation_requirement name required args)

-- The calls that destroy something.
abbrev pub IsDestructive : Text → Bool → Fields → Type 0
IsDestructive name required args =
    (required ≡ true)
    ⊎ (has_suffix name (codes ".delete") ≡ true)
    ⊎ (name ≡ abort_tool)
    ⊎ ((name ≡ create_tool)
        × ((op : Text) × (get args (codes "operation") ≡ some (string op))
            × (contains destructive_power_operations (to_lower (trim_space op)) ≡ true)))

is_true→eq : (v : Option Value) → is_true v ≡ true → v ≡ some (bool true)
unfolding is_true
is_true→eq none h = cc
is_true→eq (some null) h = cc
is_true→eq (some (bool b)) h = cc
is_true→eq (some (number n)) h = cc
is_true→eq (some (string s)) h = cc
is_true→eq (some (strings s)) h = cc
is_true→eq (some (array s)) h = cc
is_true→eq (some (object s)) h = cc

operation-ne-none :
    (v : Option Value) (op : Text)
    → v ≡ some (string op)
    → contains destructive_power_operations (to_lower (trim_space op)) ≡ true
    → destructive_operation (as_string v) ≢ none
unfolding destructive_operation as_string
operation-ne-none v op e bad h = cc (subst Quiet e h, bad)
  where
    Quiet : Option Value → Type 0
    Quiet w = destructive_operation (as_string w) ≡ none

requirement-ne-none :
    (name : Text) (required : Bool) (args : Fields)
    → IsDestructive name required args
    → confirmation_requirement name required args ≢ none
unfolding confirmation_requirement
requirement-ne-none name required args (inl e) h = ground arith
requirement-ne-none name required args (inr (inl e)) h = ground arith
requirement-ne-none name required args (inr (inr (inl e))) h =
    ground (arith, =ₛ_iff name abort_tool)
requirement-ne-none name required args (inr (inr (inr (e, o)))) h =
    ground
      (arith, =ₛ_iff name create_tool, operation-ne-none (get args (codes "operation")) o.0 o.1 o.2)

IsDestructive-of_operation :
    (v : Option Value) {r : Reason}
    → destructive_operation (as_string v) ≡ some r
    → (op : Text) × (v ≡ some (string op))
      × (contains destructive_power_operations (to_lower (trim_space op)) ≡ true)
unfolding destructive_operation as_string
IsDestructive-of_operation none h = cc
IsDestructive-of_operation (some null) h = cc
IsDestructive-of_operation (some (bool b)) h = cc
IsDestructive-of_operation (some (number n)) h = cc
IsDestructive-of_operation (some (string s)) h = (s, refl, ground arith)
IsDestructive-of_operation (some (strings s)) h = cc
IsDestructive-of_operation (some (array s)) h = cc
IsDestructive-of_operation (some (object s)) h = cc

IsDestructive-of_requirement :
    (name : Text) (required : Bool) (args : Fields) {r : Reason}
    → confirmation_requirement name required args ≡ some r
    → IsDestructive name required args
unfolding confirmation_requirement
IsDestructive-of_requirement name required args {r} h = elim (Bool-cases required) [
  | inl e ↦ inl e
  | inr e ↦ elim (Bool-cases (has_suffix name (codes ".delete"))) [
    | inl f ↦ inr (inl f)
    | inr f ↦ elim (Bool-cases (name =ₛ abort_tool)) [
      | inl g ↦ inr (inr (inl ((=ₛ_iff name abort_tool).0 g)))
      | inr g ↦ inr (
          inr (
            inr (
              ground (arith, =ₛ_iff name create_tool),
              IsDestructive-of_operation (get args (codes "operation")) {r = r} (ground arith),
            )))
    ]
  ]
]

confirmed-of_none :
    (confirmed : Bool) (name : Text) (q : Option Reason)
    → refuse_unless confirmed name q ≡ none
    → q ≢ none
    → confirmed ≡ true
confirmed-of_none confirmed name none h k = absurd (k refl)
confirmed-of_none confirmed name (some reason) h k = ground arith

none-of_confirmed :
    (confirmed : Bool) (name : Text) (q : Option Reason)
    → confirmed ≡ true
    → refuse_unless confirmed name q ≡ none
none-of_confirmed confirmed name none h = refl
none-of_confirmed confirmed name (some reason) h = rw h

some-of_refusal :
    (confirmed : Bool) (name : Text) (q : Option Reason) {e : PolicyError}
    → refuse_unless confirmed name q ≡ some e
    → (confirmed ≡ false) × ((r : Reason) × (q ≡ some r))
some-of_refusal confirmed name none h = cc
some-of_refusal confirmed name (some reason) h = (ground arith, (reason, refl))

-- A destructive call under a name that is not blank passes the gate exactly when its arguments
-- hold `confirm` as the Boolean true: a text or a number there does not confirm.
pub require_confirmation-IsDestructive :
    (tool_name : Text) (required : Bool) (args : Fields)
    → is_empty (trim_space tool_name) ≡ false
    → IsDestructive (trim_space tool_name) required args
    → (require_confirmation tool_name required args ≡ none)
      ↔ (get args (codes "confirm") ≡ some (bool true))
unfolding require_confirmation has_confirm_true
require_confirmation-IsDestructive tool_name required args named d = (
  λ h. is_true→eq _ (
      confirmed-of_none _ _ _ (rw named at h)
        (requirement-ne-none (trim_space tool_name) required args d)),
  λ h. rw named (none-of_confirmed _ _ _ (ap is_true h)),
)

-- What the gate refuses is destructive and was not confirmed.
pub require_confirmation-eq-some :
    (tool_name : Text) (required : Bool) (args : Fields) {e : PolicyError}
    → require_confirmation tool_name required args ≡ some e
    → IsDestructive (trim_space tool_name) required args
      × (get args (codes "confirm") ≢ some (bool true))
unfolding require_confirmation has_confirm_true
require_confirmation-eq-some tool_name required args {e} h =
    elim (Bool-cases (is_empty (trim_space tool_name))) [
      | inl blank ↦ absurd (ground arith)
      | inr named ↦
          let refused =
            some-of_refusal (has_confirm_true args) (trim_space tool_name)
              (confirmation_requirement (trim_space tool_name) required args) (rw named at h) in
          (
            IsDestructive-of_requirement (trim_space tool_name) required args refused.1.1,
            λ said. cc (refused.0, ap is_true said),
          )
    ]
