-- ===== src/Mcp/Server/Tests.antt =====
-- The tool server on concrete inputs.
use chamicore.Prelude.{◌≡◌, refl, inl, true, false, [], ◌∷◌, Option, none, some, ok, if◌then◌else◌}
use chamicore.Text.{Text, codes, ◌=ₛ◌}
use chamicore.Text.Trim.{is_space, trim_left, trim_right, trim_space}
use chamicore.Text.Fold.{equal_fold, to_lower}
use chamicore.Text.Affix.{has_suffix}
use chamicore.Text.Split.{cut}
use chamicore.Text.Unique.{contains, normalized_unique, collect_unique}
use chamicore.Dict.{lookup, insert}
use chamicore.Mcp.Value.{string, bool, Fields, end, field, get}
use chamicore.Mcp.Policy.Mode.{mode_read_write, authorize_tool}
use chamicore.Mcp.Policy.Confirm.{require_confirmation, confirmation_requirement, has_confirm_true}
use chamicore.Mcp.Policy.Scopes.{require_scopes, normalize_scope_list, missing_from}
use chamicore.Mcp.Server.Session.{
  Authenticator, authenticate_http, parse_bearer_token, derive_session_principal, payload_of,
  claims_admin, claimed_scopes, derive_session_principal-admin, authenticate_stdio,
}
use chamicore.Mcp.Server.Contract.{
  ToolSpec, ToolRegistry, new_tool_registry, lookup_tool, IsNamed, IsFaithful,
  new_tool_registry-IsFaithful, tool_error,
}
use chamicore.Mcp.Server.Calls.{Server, CallToolParams, handle_tools_call}
use chamicore.Mcp.Server.Results.{tool_call_result_from_execution}
use chamicore.Mcp.Server.Http.{
  HttpRequest, handle_call_tool_http, parse_call_tool_request, parse_with_tool,
  authenticate_http_tool_call, completion, session_id_from_http_request,
}
use chamicore.Mcp.Server.Http.Stream.{Writes, handle_call_tool_sse}
use chamicore.Mcp.Server.Http.Gates.{CalledFor, call_tool_http-HttpPassed}
use chamicore.Mcp.Server.Http.Audit.{IsRecorded, IsStreamed, call_tool_http-audit}
use chamicore.Mcp.Server.Calls.Gates.{Passed, handle_tools_call-Passed}
use chamicore.Mcp.Server.Calls.Audit.{is_success, handle_tools_call-audit}

-- Decodes one payload only.
abbrev decode_one : Text → Option Fields
decode_one payload =
    if payload =ₛ codes "e30"
    then some (field (codes "scope") (string (codes "read:power write:power")) end)
    else none

abbrev opaque_session : Authenticator
opaque_session = record {
  token = codes "secret";
  principal = record { subject = codes "mcp-session"; scopes = codes "admin" ∷ [] };
}

bearer_run : parse_bearer_token (codes " bearer  secret") ≡ codes "secret"
unfolding parse_bearer_token cut equal_fold trim_space trim_left trim_right is_space
bearer_run = refl

derive_session_principal-admin_example :
    (contains (derive_session_principal decode_one (codes "a.e30.c")).scopes (codes "admin")
      ≡ claims_admin (payload_of decode_one (codes "a.e30.c")))
    × ((payload : Fields)
        → payload_of decode_one (codes "a.e30.c") ≡ some payload
        → claimed_scopes payload ≡ []
        → claims_admin (some payload) ≡ false
        → (derive_session_principal decode_one (codes "a.e30.c")).scopes ≡ [])
derive_session_principal-admin_example = derive_session_principal-admin decode_one (codes "a.e30.c")

abbrev delete_tool : ToolSpec
delete_tool = record {
  name = codes "bss.params.delete";
  capability = codes "write";
  description = [];
  required_scopes = codes "write:bss" ∷ [];
  confirmation_required = true;
  input_schema = end;
  output_schema = end;
}

abbrev one_tool : ToolRegistry
one_tool = record {
  tools = delete_tool ∷ [];
  by_name = (codes "bss.params.delete", delete_tool) ∷ [];
}

one_tool-built : new_tool_registry (ok (delete_tool ∷ [])) ≡ ok one_tool
unfolding new_tool_registry trim_space trim_left trim_right is_space lookup insert tool_error
one_tool-built = refl

new_tool_registry-IsFaithful_example : IsFaithful (delete_tool ∷ []) one_tool
new_tool_registry-IsFaithful_example =
    new_tool_registry-IsFaithful (delete_tool ∷ []) one_tool-built

one_tool-IsNamed : IsNamed one_tool.by_name
one_tool-IsNamed = new_tool_registry-IsFaithful_example.named

abbrev server : Server
server = record {
  registry = one_tool;
  authorizer = some (record { mode = mode_read_write });
  session_auth = some opaque_session;
  caller = some (λ name args. ok end);
  version = codes "1";
}

abbrev confirmed_params : CallToolParams
confirmed_params = record {
  name = codes "bss.params.delete";
  arguments = some (field (codes "confirm") (bool true) end);
}

server-called :
    (handle_tools_call server (some (ok confirmed_params))).called
    ≡ some (codes "bss.params.delete", confirmed_params.arguments)
unfolding handle_tools_call lookup_tool authenticate_stdio require_confirmation has_confirm_true
    authorize_tool require_scopes trim_space trim_left trim_right is_space lookup get to_lower
    has_suffix normalize_scope_list missing_from normalized_unique collect_unique contains ◌=ₛ◌
    confirmation_requirement
server-called = refl

handle_tools_call-Passed_example :
    (tool : ToolSpec) × (lookup_tool one_tool (codes "bss.params.delete") ≡ some tool)
    × (tool.name ≡ codes "bss.params.delete")
    × (confirmed_params.arguments ≡ confirmed_params.arguments)
    × Passed server tool confirmed_params.arguments
handle_tools_call-Passed_example =
    handle_tools_call-Passed server confirmed_params one_tool-IsNamed server-called

handle_tools_call-audit_example :
    (handle_tools_call server (some (ok confirmed_params))).audit.succeeded
    ≡ is_success (handle_tools_call server (some (ok confirmed_params))).outcome
handle_tools_call-audit_example = handle_tools_call-audit server (some (ok confirmed_params))

abbrev http_request : HttpRequest
http_request = record {
  authorization = codes "Bearer secret";
  mcp_session_id = [];
  x_session_id = codes "s-1";
  request_id = codes "r-1";
  body = (ok confirmed_params, false);
  status_code = λ e. none;
}

abbrev written : Writes
written = record { accepted = none; result = none; done = none }

http-called :
    (handle_call_tool_http server http_request).called
    ≡ some (codes "bss.params.delete", confirmed_params.arguments)
unfolding handle_call_tool_http parse_call_tool_request parse_with_tool authenticate_http_tool_call
    authenticate_http parse_bearer_token cut equal_fold completion session_id_from_http_request
    tool_call_result_from_execution lookup_tool require_confirmation has_confirm_true authorize_tool
    require_scopes trim_space trim_left trim_right is_space lookup get to_lower has_suffix
    normalize_scope_list missing_from normalized_unique collect_unique contains ◌=ₛ◌
    confirmation_requirement
http-called = refl

call_tool_http-HttpPassed_example :
    CalledFor server http_request (codes "bss.params.delete") confirmed_params.arguments
call_tool_http-HttpPassed_example =
    call_tool_http-HttpPassed server http_request written one_tool-IsNamed (inl http-called)

call_tool_http-audit_example :
    (let plain = handle_call_tool_http server http_request in
      IsRecorded plain.response plain.audit plain.called)
    × (let sse = handle_call_tool_sse server http_request written in
        IsStreamed sse.response sse.audit sse.called)
call_tool_http-audit_example = call_tool_http-audit server http_request written
