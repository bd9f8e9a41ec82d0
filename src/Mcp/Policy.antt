-- ===== src/Mcp/Policy.antt =====
-- services/chamicore-mcp/internal/policy: the errors of the three gates.
pub mod Scopes
pub mod Mode
pub mod Confirm
pub mod Tests
use chamicore.Prelude.{List}
use chamicore.Text.{Text}

pub data Reason : Type 0 where
  for_delete : Reason
  for_abort : Reason
  when_operation : Text → Reason

-- A constructor for each message that the package formats, with what is put into it.
pub data PolicyError : Type 0 where
  missing_scopes : (tool : Text) (missing granted : List Text) → PolicyError
  write_not_enabled : PolicyError
  invalid_mode : (mode : Text) → PolicyError
  requires_read_write : (tool : Text) → PolicyError
  unknown_capability : (tool capability : Text) → PolicyError
  requires_confirm : (tool : Text) → Reason → PolicyError
