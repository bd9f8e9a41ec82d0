-- ===== src/Mcp/Policy/Tests.antt =====
-- The three gates on concrete calls.
use chamicore.Prelude.{◌≡◌, refl, ◌↔◌, true, false, List, [], ◌∷◌, none, some, inr, ok, ◌⊎◌}
use chamicore.Text.{Text, codes, ◌=ₛ◌}
use chamicore.Text.Trim.{is_space, trim_left, trim_right, trim_space}
use chamicore.Text.Fold.{to_lower}
use chamicore.Text.Affix.{has_suffix}
use chamicore.Text.Unique.{contains, collect_unique, normalized_unique}
use chamicore.Mcp.Value.{bool, string, Fields, end, field, get}
use chamicore.Mcp.Policy.{missing_scopes, requires_confirm, when_operation}
use chamicore.Mcp.Policy.Scopes.{
  normalize_scope_list, missing_from, require_scopes, Suffices, require_scopes-eq-none_iff,
}
use chamicore.Mcp.Policy.Mode.{
  Guard, mode_read_write, new_guard, authorize_tool, authorize_tool-dual_control,
}
use chamicore.Mcp.Policy.Confirm.{
  IsDestructive, create_tool, destructive_operation, confirmation_requirement, has_confirm_true,
  require_confirmation, require_confirmation-IsDestructive, as_string,
}

abbrev wanted : List Text
wanted = codes " read:power " ∷ codes "" ∷ codes "write:power" ∷ []

abbrev held : List Text
held = codes "write:power" ∷ []

require_scopes-eq-none_iff_example :
    (require_scopes (codes "power.status") wanted held ≡ none) ↔ Suffices wanted held
require_scopes-eq-none_iff_example = require_scopes-eq-none_iff (codes "power.status") wanted held

refusal :
    require_scopes (codes "power.status") wanted held
    ≡ some (missing_scopes (codes "power.status") (codes "read:power" ∷ []) held)
unfolding require_scopes normalize_scope_list missing_from normalized_unique collect_unique contains
    trim_space trim_left trim_right is_space ◌=ₛ◌
refusal = refl

abbrev open_guard : Guard
open_guard = record { mode = mode_read_write }

opened : new_guard (codes " Read-Write") true ≡ ok open_guard
unfolding new_guard ◌=ₛ◌ to_lower trim_space trim_left trim_right is_space
opened = refl

allowed : authorize_tool (some open_guard) (codes "power.on") (codes "WRITE") ≡ none
unfolding authorize_tool ◌=ₛ◌ to_lower trim_space trim_left trim_right is_space
allowed = refl

authorize_tool-dual_control_example :
    (to_lower (trim_space (codes "WRITE")) ≡ codes "read")
    ⊎ ((to_lower (trim_space (codes "WRITE")) ≡ codes "write")
        × (to_lower (trim_space (codes " Read-Write")) ≡ mode_read_write)
        × (true ≡ true))
authorize_tool-dual_control_example =
    authorize_tool-dual_control (codes " Read-Write") (codes "power.on") (codes "WRITE") true opened
      allowed

-- "true" as a text does not confirm.
abbrev shutdown : Fields
shutdown =
    field (codes "operation") (string (codes " ForceOff"))
      (field (codes "confirm") (string (codes "true")) end)

create_named : trim_space create_tool ≡ create_tool
unfolding trim_space trim_left trim_right is_space
create_named = refl

shutdown-IsDestructive : IsDestructive (trim_space create_tool) false shutdown
unfolding get ◌=ₛ◌ to_lower trim_space trim_left trim_right is_space contains
shutdown-IsDestructive = inr (inr (inr (refl, (codes " ForceOff", refl, refl))))

require_confirmation-IsDestructive_example :
    (require_confirmation create_tool false shutdown ≡ none)
    ↔ (get shutdown (codes "confirm") ≡ some (bool true))
unfolding trim_space trim_left trim_right is_space
require_confirmation-IsDestructive_example =
    require_confirmation-IsDestructive create_tool false shutdown refl shutdown-IsDestructive

shutdown_refused :
    require_confirmation create_tool false shutdown
    ≡ some (requires_confirm create_tool (when_operation (codes "ForceOff")))
unfolding require_confirmation confirmation_requirement destructive_operation as_string
    has_confirm_true has_suffix get ◌=ₛ◌ to_lower trim_space trim_left trim_right is_space contains
shutdown_refused = refl
