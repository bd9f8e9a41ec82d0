-- ===== src/Mcp/Server/Calls.antt =====
-- services/chamicore-mcp/internal/server/stdio.go: `handleRPCRequest`, with policy.go beside it. The
-- caller, which carries a tool out, is an argument; `called` says what it was called with. The audit
-- record is kept without its identifiers and its duration.
pub mod Gates
pub mod Audit
use chamicore.Prelude.{
  ℕ, Bool, true, false, not, List, [], ◌∷◌, Option, none, some, Result, ok, err, if◌then◌else◌,
}
use chamicore.Text.{Text, codes, ◌=ₛ◌}
use chamicore.Text.Trim.{trim_space}
use chamicore.GoError.{GoError}
use chamicore.Mcp.Value.{Fields, end}
use chamicore.Mcp.Policy.{PolicyError}
use chamicore.Mcp.Policy.Mode.{Guard, mode_of, authorize_tool}
use chamicore.Mcp.Policy.Confirm.{require_confirmation}
use chamicore.Mcp.Policy.Scopes.{require_scopes}
use chamicore.Mcp.Server.Session.{SessionError, SessionPrincipal, Authenticator, authenticate_stdio}
use chamicore.Mcp.Server.Contract.{ToolSpec, ToolRegistry, lookup_tool}

pub record Server : Type 0 where
  pub registry : ToolRegistry
  pub authorizer : Option Guard
  pub session_auth : Option Authenticator
  pub caller : Option (Text → Option Fields → Result GoError Fields)
  pub version : Text

-- `params.Arguments` is a map that may be nil.
pub record CallToolParams : Type 0 where
  pub name : Text
  pub arguments : Option Fields

-- The errors of a call, each with what its message is made of.
pub data CallError : Type 0 where
  missing_params : CallError
  invalid_params : GoError → CallError
  unknown_tool : Text → CallError
  denied : PolicyError → CallError
  no_session_auth : CallError
  unauthenticated : SessionError → CallError
  unconfirmed : PolicyError → CallError
  unscoped : PolicyError → CallError

pub data Outcome : Type 0 where
  -- A JSON-RPC error with the code for invalid parameters.
  refused : CallError → Outcome
  accepted : (tool mode : Text) → Outcome
  executed : (tool mode : Text) (payload : Fields) → Outcome
  failed : (tool mode : Text) → GoError → Outcome

-- What the deferred audit record says.
pub record Completion : Type 0 where
  pub tool_name : Text
  pub arguments : Fields
  pub caller_sub : Text
  pub succeeded : Bool

pub record Call : Type 0 where
  pub outcome : Outcome
  pub audit : Completion
  pub called : Option (Text × Option Fields)

abbrev pub or_empty : Option Fields → Fields
or_empty none = end
or_empty (some args) = args

-- `authorizeToolCall`.
unfoldable pub authorize_tool_call : Option Guard → ToolSpec → Option PolicyError
authorize_tool_call none tool = none
authorize_tool_call (some g) tool = authorize_tool (some g) tool.name tool.capability

-- `resolvedMode`.
unfoldable pub resolved_mode : Option Guard → Text
resolved_mode none = codes "read-only"
resolved_mode (some g) = mode_of (some g)

abbrev session_result : Result SessionError SessionPrincipal → Result CallError SessionPrincipal
session_result (err e) = err (unauthenticated e)
session_result (ok p) = ok p

-- `authenticateStdioToolCall`.
unfoldable pub authenticate_stdio_tool_call :
    Option Authenticator → Result CallError SessionPrincipal
unfolding authenticate_stdio
authenticate_stdio_tool_call none = err no_session_auth
authenticate_stdio_tool_call (some a) = session_result (authenticate_stdio a)

-- `requireToolScopes`.
unfoldable pub require_tool_scopes : ToolSpec → SessionPrincipal → Option PolicyError
require_tool_scopes tool principal = require_scopes tool.name tool.required_scopes principal.scopes

abbrev pub refuse : Text → Text → Option Fields → CallError → Call
refuse tool_name caller_sub args e = record {
  outcome = refused e;
  audit = record {
    tool_name = tool_name;
    arguments = or_empty args;
    caller_sub = caller_sub;
    succeeded = false;
  };
  called = none;
}

abbrev pub answered : Text → Text → Result GoError Fields → Outcome
answered tool mode (ok payload) = executed tool mode payload
answered tool mode (err e) = failed tool mode e

abbrev pub is_ok : Result GoError Fields → Bool
is_ok (ok payload) = true
is_ok (err e) = false

-- A call that passed all gates.
unfoldable pub carry_out :
    Option (Text → Option Fields → Result GoError Fields)
    → Text
    → ToolSpec
    → Text
    → Option Fields
    → Call
carry_out none mode tool caller_sub args = record {
  outcome = accepted tool.name mode;
  audit = record {
    tool_name = tool.name;
    arguments = or_empty args;
    caller_sub = caller_sub;
    succeeded = true;
  };
  called = none;
}
carry_out (some call) mode tool caller_sub args = record {
  outcome = answered tool.name mode (call tool.name args);
  audit = record {
    tool_name = tool.name;
    arguments = or_empty args;
    caller_sub = caller_sub;
    succeeded = is_ok (call tool.name args);
  };
  called = some (tool.name, args);
}

-- `if err != nil { ...; return response }` around what follows.
abbrev pub or_refuse : Option PolicyError → (PolicyError → Call) → Call → Call
or_refuse none refusal goes_on = goes_on
or_refuse (some e) refusal goes_on = refusal e

-- From the principal on: the confirmation, the scopes, and the call.
unfoldable pub as_principal : Server → ToolSpec → Option Fields → SessionPrincipal → Call
unfolding require_tool_scopes carry_out
as_principal s tool args principal =
    or_refuse (require_confirmation tool.name tool.confirmation_required (or_empty args))
      (λ e. refuse tool.name principal.subject args (unconfirmed e))
      (or_refuse (require_tool_scopes tool principal)
        (λ e. refuse tool.name principal.subject args (unscoped e))
        (carry_out s.caller (resolved_mode s.authorizer) tool principal.subject args))

abbrev pub in_session : Server → ToolSpec → Option Fields → Result CallError SessionPrincipal → Call
in_session s tool args (err e) = refuse tool.name [] args e
in_session s tool args (ok principal) = as_principal s tool args principal

-- From the tool on: the mode, and the session.
unfoldable pub with_tool : Server → ToolSpec → Option Fields → Call
unfolding authorize_tool_call authenticate_stdio_tool_call as_principal
with_tool s tool args =
    or_refuse (authorize_tool_call s.authorizer tool) (λ e. refuse tool.name [] args (denied e))
      (in_session s tool args (authenticate_stdio_tool_call s.session_auth))

abbrev pub if_known : Server → CallToolParams → Option ToolSpec → Call
if_known s params none =
    refuse (trim_space params.name) [] params.arguments (unknown_tool (trim_space params.name))
if_known s params (some tool) = with_tool s tool params.arguments

-- The method `tools/call`, given its parameters: missing, or decoded.
unfoldable pub handle_tools_call : Server → Option (Result GoError CallToolParams) → Call
unfolding with_tool
handle_tools_call s none = refuse [] [] none missing_params
handle_tools_call s (some (err e)) = refuse [] [] none (invalid_params e)
handle_tools_call s (some (ok params)) =
    if_known s params (lookup_tool s.registry (trim_space params.name))

pub record RpcRequest : Type 0 where
  pub json_rpc : Text
  pub method : Text
  pub params : Option (Result GoError CallToolParams)

pub data RpcAnswer : Type 0 where
  not_json_rpc : RpcAnswer
  initialized : (version : Text) → RpcAnswer
  listed : List ToolSpec → RpcAnswer
  call : Call → RpcAnswer
  unknown_method : Text → RpcAnswer

-- `handleRPCRequest`.
unfoldable pub handle_rpc_request : Server → RpcRequest → RpcAnswer
unfolding handle_tools_call
handle_rpc_request s req =
    if not (trim_space req.json_rpc =ₛ codes "2.0")
    then not_json_rpc
    else if trim_space req.method =ₛ codes "initialize"
    then initialized (trim_space s.version)
    else if trim_space req.method =ₛ codes "tools/list"
    then listed s.registry.tools
    else if trim_space req.method =ₛ codes "tools/call"
    then call (handle_tools_call s req.params)
    else unknown_method (trim_space req.method)
