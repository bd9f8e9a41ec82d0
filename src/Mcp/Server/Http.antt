-- ===== src/Mcp/Server/Http.antt =====
-- services/chamicore-mcp/internal/server/http_sse.go: a tool call over HTTP. The headers and what
-- the decoder made of the body are arguments, as are the answers to the writes of a stream.
pub mod Gates
pub mod Stream
pub mod Audit
use chamicore.Prelude.{
  ℕ, Bool, true, false, List, [], Option, none, some, Result, ok, err, map, is_empty, if◌then◌else◌,
}
use chamicore.Prelude.Int.{ℤ}
use chamicore.Text.{Text, codes}
use chamicore.Text.Trim.{trim_space}
use chamicore.GoError.{GoError, message}
use chamicore.Mcp.Value.{Fields, end}
use chamicore.Mcp.Policy.{PolicyError}
use chamicore.Mcp.Policy.Confirm.{require_confirmation}
use chamicore.Mcp.Server.Session.{
  SessionError, session_token_missing, bearer_token_missing, bearer_token_invalid, SessionPrincipal,
  Authenticator, authenticate_http,
}
use chamicore.Mcp.Server.Contract.{ToolSpec, ToolRegistry, lookup_tool}
use chamicore.Mcp.Server.Calls.{
  Server, CallToolParams, or_empty, authorize_tool_call, require_tool_scopes, resolved_mode,
}
use chamicore.Mcp.Server.Results.{
  tool_error_status, tool_error_message, CallToolResult, tool_call_result_from_execution,
}

-- What the handlers read of a request. `body` is the first JSON value, and what
-- `More` of the decoder says then, which is false at the end and also before a closing bracket.
pub record HttpRequest : Type 0 where
  pub authorization : Text
  pub mcp_session_id : Text
  pub x_session_id : Text
  pub request_id : Text
  pub body : Result GoError CallToolParams × Bool
  -- `errors.As` to the status code of an error of the caller.
  pub status_code : GoError → Option ℤ

-- `decodeJSONStrict`.
abbrev pub decode_json_strict : Result GoError CallToolParams × Bool → Result GoError CallToolParams
decode_json_strict (err e, more) = err e
decode_json_strict (ok params, true) =
    err (message (codes "request must contain exactly one JSON object"))
decode_json_strict (ok params, false) = ok params

-- The details of a rejected request, each with what its text is made of.
pub data RequestError : Type 0 where
  unauthorized : Text → RequestError
  invalid_body : GoError → RequestError
  nameless : RequestError
  unknown : Text → RequestError
  forbidden : PolicyError → RequestError
  unconfirmed : PolicyError → RequestError
  unscoped : PolicyError → RequestError

-- The status and the detail of the response, and what the handler is given beside them.
pub record Rejection : Type 0 where
  pub status : ℕ
  pub detail : RequestError
  pub params : CallToolParams
  pub principal : SessionPrincipal

abbrev pub no_params : CallToolParams
no_params = record { name = []; arguments = none }

abbrev pub no_principal : SessionPrincipal
no_principal = record { subject = []; scopes = [] }

-- `authenticateHTTPToolCall`; without an authenticator the error wraps the one for a missing token.
unfoldable pub authenticate_http_tool_call :
    Option Authenticator → Text → Result SessionError SessionPrincipal
unfolding authenticate_http
authenticate_http_tool_call none header = err session_token_missing
authenticate_http_tool_call (some a) header = authenticate_http a header

-- `authFailureResponse` of the errors that the authenticator has.
unfoldable pub auth_failure_response : SessionError → ℕ × Text
auth_failure_response session_token_missing =
    (401, codes "MCP session token is not configured; set CHAMICORE_MCP_TOKEN or CHAMICORE_TOKEN")
auth_failure_response bearer_token_missing =
    (401, codes "missing or malformed Authorization header; expected Bearer <token>")
auth_failure_response bearer_token_invalid = (401, codes "invalid bearer token for MCP session")

-- A call that may go on: its parameters, its tool and who calls.
pub record Admitted : Type 0 where
  pub params : CallToolParams
  pub tool : ToolSpec
  pub principal : SessionPrincipal

abbrev pub reject_if :
    {A : Type 0}
    → Option PolicyError
    → (PolicyError → Rejection)
    → Result Rejection A
    → Result Rejection A
reject_if none reject goes_on = goes_on
reject_if (some e) reject goes_on = err (reject e)

abbrev pub rejection : ℕ → RequestError → CallToolParams → SessionPrincipal → Rejection
rejection status detail params principal = record {
  status = status;
  detail = detail;
  params = params;
  principal = principal;
}

-- From the tool on: the mode, the confirmation and the scopes.
unfoldable pub parse_with_tool :
    Server → CallToolParams → SessionPrincipal → ToolSpec → Result Rejection Admitted
unfolding authorize_tool_call require_confirmation require_tool_scopes
parse_with_tool s params principal tool =
    reject_if (authorize_tool_call s.authorizer tool)
      (λ e. rejection 403 (forbidden e) params principal)
      (reject_if
        (require_confirmation tool.name tool.confirmation_required (or_empty params.arguments))
        (λ e. rejection 400 (unconfirmed e) params principal)
        (reject_if (require_tool_scopes tool principal)
          (λ e. rejection 403 (unscoped e) params principal)
          (ok (record { params = params; tool = tool; principal = principal }))))

abbrev pub parse_if_known :
    Server → CallToolParams → SessionPrincipal → Option ToolSpec → Result Rejection Admitted
parse_if_known s params principal none =
    err (rejection 404 (unknown (trim_space params.name)) params principal)
parse_if_known s params principal (some tool) = parse_with_tool s params principal tool

abbrev pub parse_params :
    Server → SessionPrincipal → Result GoError CallToolParams → Result Rejection Admitted
parse_params s principal (err e) = err (rejection 400 (invalid_body e) no_params principal)
parse_params s principal (ok params) =
    if is_empty (trim_space params.name)
    then err (rejection 400 nameless params principal)
    else parse_if_known s params principal (lookup_tool s.registry (trim_space params.name))

abbrev pub parse_session :
    Server → HttpRequest → Result SessionError SessionPrincipal → Result Rejection Admitted
parse_session s req (err e) =
    let (status, detail) = auth_failure_response e in
    err (rejection status (unauthorized detail) no_params no_principal)
parse_session s req (ok principal) = parse_params s principal (decode_json_strict req.body)

-- `parseCallToolRequest`.
unfoldable pub parse_call_tool_request : Server → HttpRequest → Result Rejection Admitted
unfolding authenticate_http_tool_call auth_failure_response parse_with_tool lookup_tool
parse_call_tool_request s req =
    parse_session s req (authenticate_http_tool_call s.session_auth req.authorization)

-- `sessionIDFromHTTPRequest`.
unfoldable pub session_id_from_http_request : HttpRequest → Text
session_id_from_http_request req =
    if is_empty (trim_space req.mcp_session_id)
    then (if is_empty (trim_space req.x_session_id)
        then trim_space req.request_id
        else trim_space req.x_session_id)
    else trim_space req.mcp_session_id

-- The detail of an audit record.
pub data AuditDetail : Type 0 where
  no_detail : AuditDetail
  rejected : RequestError → AuditDetail
  failed : Text → AuditDetail
  unwritten : GoError → AuditDetail

-- `audit.ToolCallCompletion` without its duration; 0 is no response code.
pub record ToolCallCompletion : Type 0 where
  pub request_id : Text
  pub session_id : Text
  pub transport : Text
  pub tool_name : Text
  pub mode : Text
  pub caller_sub : Text
  pub arguments : Option Fields
  pub result : Text
  pub error_detail : AuditDetail
  pub response_code : ℕ

-- The record before the call is carried out.
unfoldable pub completion :
    Server → HttpRequest → Text → CallToolParams → SessionPrincipal → ToolCallCompletion
unfolding session_id_from_http_request resolved_mode
completion s req transport params principal = record {
  request_id = req.request_id;
  session_id = session_id_from_http_request req;
  transport = transport;
  tool_name = trim_space params.name;
  mode = resolved_mode s.authorizer;
  caller_sub = principal.subject;
  arguments = params.arguments;
  result = codes "error";
  error_detail = no_detail;
  response_code = 0;
}

-- The audit record of a call that was admitted, which has the name of the tool.
abbrev pub admitted_completion : Server → HttpRequest → Text → Admitted → ToolCallCompletion
admitted_completion s req transport call =
    record (completion s req transport call.params call.principal) { tool_name = call.tool.name }

pub data HttpResponse : Type 0 where
  problem : (status : ℕ) → RequestError → HttpResponse
  call_problem : (status : ℕ) → Text → HttpResponse
  responded : (status : ℕ) → CallToolResult → HttpResponse

-- The response, the audit record, and what the caller was called with.
pub record HttpCall : Type 0 where
  pub response : HttpResponse
  pub audit : ToolCallCompletion
  pub called : Option (Text × Option Fields)

abbrev pub with_success : ToolCallCompletion → ToolCallCompletion
with_success audit = record audit { result = codes "success"; response_code = 200 }

abbrev pub with_failure : ToolCallCompletion → ℕ → AuditDetail → ToolCallCompletion
with_failure audit status detail = record audit { response_code = status; error_detail = detail }

-- The answer to what the caller returned.
abbrev pub respond_result :
    Server
    → HttpRequest
    → ToolSpec
    → ToolCallCompletion
    → Result GoError Fields
    → HttpResponse × ToolCallCompletion
respond_result s req tool audit (ok payload) = (
  responded 200 (tool_call_result_from_execution tool.name (resolved_mode s.authorizer) payload),
  with_success audit,
)
respond_result s req tool audit (err e) =
    let status = tool_error_status (req.status_code e) in
    (
      call_problem status (tool_error_message e),
      with_failure audit status (failed (tool_error_message e)),
    )

abbrev pub respond_call :
    Server
    → HttpRequest
    → Option (Text → Option Fields → Result GoError Fields)
    → Admitted
    → HttpCall
respond_call s req none call =
    let (response, audit) =
      respond_result s req call.tool (admitted_completion s req (codes "http") call) (ok end) in
    record { response = response; audit = audit; called = none }
respond_call s req (some caller) call =
    let (response, audit) =
      respond_result s req call.tool (admitted_completion s req (codes "http") call)
        (caller call.tool.name call.params.arguments) in
    record {
      response = response;
      audit = audit;
      called = some (call.tool.name, call.params.arguments);
    }

abbrev pub respond : Server → HttpRequest → Result Rejection Admitted → HttpCall
respond s req (err r) = record {
  response = problem r.status r.detail;
  audit = record (completion s req (codes "http") r.params r.principal) {
    error_detail = rejected r.detail;
  };
  called = none;
}
respond s req (ok call) = respond_call s req s.caller call

-- The handler that `handleCallToolHTTP` makes.
unfoldable pub handle_call_tool_http : Server → HttpRequest → HttpCall
unfolding parse_call_tool_request completion tool_error_status tool_error_message
    tool_call_result_from_execution
handle_call_tool_http s req = respond s req (parse_call_tool_request s req)

-- `handleInitializeHTTP` and `handleListToolsHTTP`, each with its status.
pub record InitializeResult : Type 0 where
  pub protocol_version : Text
  pub server_name : Text
  pub server_version : Text
  pub tools_list_changed : Bool

unfoldable pub handle_initialize_http : Text → ℕ × InitializeResult
handle_initialize_http version = (
  200,
  record {
    protocol_version = codes "2024-11-05";
    server_name = codes "chamicore-mcp";
    server_version = trim_space version;
    tools_list_changed = false;
  },
)

pub record ToolDescriptor : Type 0 where
  pub name : Text
  pub description : Text
  pub input_schema : Fields

unfoldable pub tool_descriptor : ToolSpec → ToolDescriptor
tool_descriptor tool = record {
  name = tool.name;
  description = tool.description;
  input_schema = tool.input_schema;
}

unfoldable pub handle_list_tools_http : ToolRegistry → ℕ × List ToolDescriptor
unfolding tool_descriptor
handle_list_tools_http registry = (200, map tool_descriptor registry.tools)
