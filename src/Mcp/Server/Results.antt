-- ===== src/Mcp/Server/Results.antt =====
-- services/chamicore-mcp/internal/server/caller.go: what an executed tool is answered with. Whether an
-- error has a `StatusCode()` in its chain, and which, is an argument.
use chamicore.Prelude.{
  ℕ, ◌≤◌, Bool, true, false, ◌&&◌, ◌++◌, Option, none, some, arith, is_empty, leb, if◌then◌else◌,
}
use chamicore.Prelude.Int.{ℤ, pos, negsuc}
use chamicore.Text.{Text, codes}
use chamicore.Text.Trim.{trim_space}
use chamicore.GoError.{GoError, error_text}
use chamicore.Mcp.Value.{Fields}

-- `toolErrorStatus`.
unfoldable pub tool_error_status : Option ℤ → ℕ
tool_error_status none = 500
tool_error_status (some (negsuc n)) = 500
tool_error_status (some (pos n)) = if leb 400 n && leb n 599 then n else 500

-- `toolErrorMessage` of an error that is not nil.
unfoldable pub tool_error_message : GoError → Text
tool_error_message e =
    let message = trim_space (error_text e) in
    if is_empty message then codes "unknown tool execution error" else message

-- What stands under `result` or `error` in the structured content.
pub data ResultBody : Type 0 where
  payload : Fields → ResultBody
  failure : (status : ℕ) (message : Text) → ResultBody

-- `callToolResult` with one text block.
pub record CallToolResult : Type 0 where
  pub text : Text
  pub is_error : Bool
  pub tool : Text
  pub mode : Text
  pub status : Text
  pub body : ResultBody

unfoldable pub tool_call_result_from_execution : Text → Text → Fields → CallToolResult
tool_call_result_from_execution name mode result = record {
  text = codes "tool " ++ (trim_space name ++ codes " executed");
  is_error = false;
  tool = trim_space name;
  mode = trim_space mode;
  status = codes "ok";
  body = payload result;
}

unfoldable pub tool_call_result_from_error : Text → Text → GoError → Option ℤ → CallToolResult
unfolding tool_error_status tool_error_message
tool_call_result_from_error name mode e code = record {
  text = tool_error_message e;
  is_error = true;
  tool = trim_space name;
  mode = trim_space mode;
  status = codes "error";
  body = failure (tool_error_status code) (tool_error_message e);
}

pub tool_error_status-bounds :
    (code : Option ℤ) → (400 ≤ tool_error_status code) × (tool_error_status code ≤ 599)
unfolding tool_error_status
tool_error_status-bounds none = ground arith
tool_error_status-bounds (some (negsuc n)) = ground arith
tool_error_status-bounds (some (pos n)) = ground arith
