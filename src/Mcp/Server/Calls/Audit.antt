-- ===== src/Mcp/Server/Calls/Audit.antt =====
-- The audit record of a tool call beside its response.
use chamicore.Prelude.{◌≡◌, refl, Bool, true, false, Option, none, some, Result, ok, err}
use chamicore.Text.{Text}
use chamicore.Text.Trim.{trim_space}
use chamicore.GoError.{GoError}
use chamicore.Mcp.Value.{Fields}
use chamicore.Mcp.Policy.{PolicyError}
use chamicore.Mcp.Policy.Confirm.{require_confirmation}
use chamicore.Mcp.Server.Session.{SessionPrincipal}
use chamicore.Mcp.Server.Contract.{ToolSpec, lookup_tool}
use chamicore.Mcp.Server.Calls.{
  Server, CallToolParams, CallError, Outcome, refused, accepted, executed, failed, Call, or_empty,
  authorize_tool_call, authenticate_stdio_tool_call, require_tool_scopes, resolved_mode, carry_out,
  or_refuse, answered, is_ok, as_principal, in_session, with_tool, if_known, handle_tools_call,
}

abbrev pub is_success : Outcome → Bool
is_success (refused e) = false
is_success (accepted tool mode) = true
is_success (executed tool mode payload) = true
is_success (failed tool mode e) = false

abbrev IsAudited : Call → Type 0
IsAudited c = c.audit.succeeded ≡ is_success c.outcome

or_refuse-IsAudited :
    (o : Option PolicyError) (refusal : PolicyError → Call) (goes_on : Call)
    → ((e : PolicyError) → IsAudited (refusal e))
    → IsAudited goes_on
    → IsAudited (or_refuse o refusal goes_on)
or_refuse-IsAudited none refusal goes_on h k = k
or_refuse-IsAudited (some e) refusal goes_on h k = h e

carry_out-IsAudited :
    (caller : Option (Text → Option Fields → Result GoError Fields)) (mode : Text) (tool : ToolSpec)
    (sub : Text) (args : Option Fields)
    → IsAudited (carry_out caller mode tool sub args)
unfolding carry_out
carry_out-IsAudited none mode tool sub args = refl
carry_out-IsAudited (some call) mode tool sub args = answered-succeeded (call tool.name args)
  where
    answered-succeeded :
        (r : Result GoError Fields) → is_ok r ≡ is_success (answered tool.name mode r)
    answered-succeeded (ok payload) = refl
    answered-succeeded (err e) = refl

as_principal-IsAudited :
    (s : Server) (tool : ToolSpec) (args : Option Fields) (p : SessionPrincipal)
    → IsAudited (as_principal s tool args p)
unfolding as_principal
as_principal-IsAudited s tool args p =
    or_refuse-IsAudited (require_confirmation tool.name tool.confirmation_required (or_empty args))
      _ _ (λ e. refl)
      (or_refuse-IsAudited (require_tool_scopes tool p) _ _ (λ e. refl)
        (carry_out-IsAudited s.caller (resolved_mode s.authorizer) tool p.subject args))

in_session-IsAudited :
    (s : Server) (tool : ToolSpec) (args : Option Fields) (r : Result CallError SessionPrincipal)
    → IsAudited (in_session s tool args r)
in_session-IsAudited s tool args (err e) = refl
in_session-IsAudited s tool args (ok p) = as_principal-IsAudited s tool args p

if_known-IsAudited :
    (s : Server) (params : CallToolParams) (o : Option ToolSpec) → IsAudited (if_known s params o)
unfolding with_tool
if_known-IsAudited s params none = refl
if_known-IsAudited s params (some tool) =
    or_refuse-IsAudited (authorize_tool_call s.authorizer tool) _ _ (λ e. refl)
      (in_session-IsAudited s tool params.arguments (authenticate_stdio_tool_call s.session_auth))

-- In every branch of a tool call the audit record reports success exactly when the response is a
-- result that is no error: a refusal at any gate and an error of the caller are recorded as errors.
pub handle_tools_call-audit :
    (s : Server) (params : Option (Result GoError CallToolParams))
    → (handle_tools_call s params).audit.succeeded ≡ is_success (handle_tools_call s params).outcome
unfolding handle_tools_call
handle_tools_call-audit s none = refl
handle_tools_call-audit s (some (err e)) = refl
handle_tools_call-audit s (some (ok params)) =
    if_known-IsAudited s params (lookup_tool s.registry (trim_space params.name))
