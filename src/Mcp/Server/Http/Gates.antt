-- ===== src/Mcp/Server/Http/Gates.antt =====
-- What a tool call over HTTP has passed when the caller carries it out.
use chamicore.Prelude.{
  ◌≡◌, refl, ap, sym, ◌∙◌, subst, ◌⊎◌, inl, inr, true, false, Option, none, some, arith, Result, ok,
  err, is_empty, Bool-cases, ok-injective,
}
use chamicore.Text.{Text, codes}
use chamicore.Text.Trim.{trim_space, trim_space_idem}
use chamicore.Dict.{lookup}
use chamicore.GoError.{GoError}
use chamicore.Mcp.Value.{Fields, bool, get}
use chamicore.Mcp.Policy.{PolicyError}
use chamicore.Mcp.Policy.Mode.{Guard, authorize_tool}
use chamicore.Mcp.Policy.Confirm.{
  IsDestructive, require_confirmation, require_confirmation-IsDestructive,
}
use chamicore.Mcp.Policy.Scopes.{Suffices, require_scopes-eq-none_iff}
use chamicore.Mcp.Server.Session.{
  SessionError, SessionPrincipal, Authenticator, parse_bearer_token, authenticate_http-eq-ok,
  authenticate_http-principal,
}
use chamicore.Mcp.Server.Contract.{ToolSpec, lookup_tool, IsNamed}
use chamicore.Mcp.Server.Calls.{
  Server, CallToolParams, or_empty, authorize_tool_call, require_tool_scopes,
}
use chamicore.Mcp.Server.Calls.Gates.{authorized-of_none}
use chamicore.Mcp.Server.Http.{
  HttpRequest, decode_json_strict, Rejection, Admitted, reject_if, parse_with_tool, parse_if_known,
  parse_params, parse_session, parse_call_tool_request, authenticate_http_tool_call, respond_call,
  respond, handle_call_tool_http, ToolCallCompletion, admitted_completion,
}
use chamicore.Mcp.Server.Http.Stream.{Writes, accept, stream, handle_call_tool_sse}

-- The gates in front of a call of a tool with arguments, for a request.
pub record HttpPassed (s : Server) (req : HttpRequest) (call : Admitted) : Type 0 where
  pub body_decoded : decode_json_strict req.body ≡ ok call.params
  pub known : lookup_tool s.registry call.params.name ≡ some call.tool
  pub authorized :
      (g : Guard)
      → s.authorizer ≡ some g
      → authorize_tool (some g) call.tool.name call.tool.capability ≡ none
  pub session :
      (a : Authenticator) × (s.session_auth ≡ some a)
      × (is_empty (trim_space a.token) ≡ false)
      × (parse_bearer_token req.authorization ≡ a.token)
      × (call.principal ≡ a.principal)
      × Suffices call.tool.required_scopes a.principal.scopes
  pub confirmed :
      IsDestructive
        (trim_space call.tool.name)
        call.tool.confirmation_required
        (or_empty call.params.arguments)
      → get (or_empty call.params.arguments) (codes "confirm") ≡ some (bool true)

reject_if-ok :
    {A : Type 0} (o : Option PolicyError) (reject : PolicyError → Rejection)
    (r : Result Rejection A) {a : A}
    → reject_if o reject r ≡ ok a
    → (o ≡ none) × (r ≡ ok a)
reject_if-ok none reject r h = (refl, h)
reject_if-ok (some e) reject r h = absurd (ground (arith, h))

parse_with_tool-ok :
    (s : Server) (params : CallToolParams) (p : SessionPrincipal) (tool : ToolSpec)
    (call : Admitted)
    → parse_with_tool s params p tool ≡ ok call
    → (authorize_tool_call s.authorizer tool ≡ none)
      × (require_confirmation tool.name tool.confirmation_required (or_empty params.arguments)
          ≡ none)
      × (require_tool_scopes tool p ≡ none)
      × (record { params = params; tool = tool; principal = p } ≡ call)
unfolding parse_with_tool
parse_with_tool-ok s params p tool call h =
    let (e, h1) = reject_if-ok (authorize_tool_call s.authorizer tool) _ _ h in
    let (f, h2) =
      reject_if-ok
        (require_confirmation tool.name tool.confirmation_required (or_empty params.arguments)) _ _
        h1 in
    let (g, h3) = reject_if-ok (require_tool_scopes tool p) _ _ h2 in (e, f, g, ok-injective h3)

parse_if_known-ok :
    (s : Server) (params : CallToolParams) (p : SessionPrincipal) (o : Option ToolSpec)
    (call : Admitted)
    → parse_if_known s params p o ≡ ok call
    → (tool : ToolSpec) × (o ≡ some tool) × (parse_with_tool s params p tool ≡ ok call)
parse_if_known-ok s params p none call h = absurd (ground (arith, h))
parse_if_known-ok s params p (some tool) call h = (tool, refl, h)

parse_params-ok :
    (s : Server) (p : SessionPrincipal) (r : Result GoError CallToolParams) (call : Admitted)
    → parse_params s p r ≡ ok call
    → (params : CallToolParams) × (r ≡ ok params)
      × (parse_if_known s params p (lookup_tool s.registry (trim_space params.name)) ≡ ok call)
parse_params-ok s p (err e) call h = absurd (ground (arith, h))
parse_params-ok s p (ok params) call h = elim (Bool-cases (is_empty (trim_space params.name))) [
  | inl blank ↦ absurd (ground (arith, h, blank))
  | inr named ↦ (params, refl, ground (arith, h, named))
]

parse_session-ok :
    (s : Server) (req : HttpRequest) (r : Result SessionError SessionPrincipal) (call : Admitted)
    → parse_session s req r ≡ ok call
    → (p : SessionPrincipal) × (r ≡ ok p)
      × (parse_params s p (decode_json_strict req.body) ≡ ok call)
parse_session-ok s req (err e) call h = absurd (ground (arith, h))
parse_session-ok s req (ok p) call h = (p, refl, h)

session-of_ok :
    (o : Option Authenticator) (header : Text) (p : SessionPrincipal)
    → authenticate_http_tool_call o header ≡ ok p
    → (a : Authenticator) × (o ≡ some a)
      × (is_empty (trim_space a.token) ≡ false)
      × (parse_bearer_token header ≡ a.token)
      × (p ≡ a.principal)
unfolding authenticate_http_tool_call
session-of_ok none header p h = absurd (ground (arith, h))
session-of_ok (some a) header p h =
    let same = authenticate_http-principal a header p h in
    let (filled, presented) = (authenticate_http-eq-ok a header).0 (h ∙ ap ok (sym same)) in
    (a, refl, filled, presented, sym same)

-- A request that is not rejected has passed every gate.
pub parse_call_tool_request-HttpPassed :
    (s : Server) (req : HttpRequest) (call : Admitted)
    → IsNamed s.registry.by_name
    → parse_call_tool_request s req ≡ ok call
    → HttpPassed s req call
unfolding parse_call_tool_request lookup_tool require_tool_scopes
parse_call_tool_request-HttpPassed s req call named h =
    let (p, e0, h0) =
      parse_session-ok s req (authenticate_http_tool_call s.session_auth req.authorization) call
        h in
    let (params, e1, h1) = parse_params-ok s p (decode_json_strict req.body) call h0 in
    let (tool, e2, h2) =
      parse_if_known-ok s params p (lookup_tool s.registry (trim_space params.name)) call h1 in
    let (authorized, confirmed, scoped, same) = parse_with_tool-ok s params p tool call h2 in
    let (a, has, filled, presented, principal) =
      session-of_ok s.session_auth req.authorization p e0 in
    let found = named (trim_space (trim_space params.name)) tool e2 in
    subst (HttpPassed s req) same (record {
      body_decoded = e1;
      known = ap (λ k. lookup k s.registry.by_name) (sym (trim_space_idem params.name)) ∙ e2;
      authorized = λ g eq. authorized-of_none s.authorizer tool g eq authorized;
      session = (
        a,
        has,
        filled,
        presented,
        principal,
        (require_scopes-eq-none_iff tool.name tool.required_scopes a.principal.scopes).0
            (ap (λ (x : SessionPrincipal). require_tool_scopes tool x) (sym principal) ∙ scoped),
      );
      confirmed = λ d.
          (require_confirmation-IsDestructive tool.name tool.confirmation_required
              (or_empty params.arguments) (ground (arith, found.0, found.1, found.2)) d).0
            confirmed;
    })

-- The caller is called only for a request that has passed, for its tool and its arguments.
abbrev pub CalledFor : Server → HttpRequest → Text → Option Fields → Type 0
CalledFor s req name given =
    (call : Admitted) × (parse_call_tool_request s req ≡ ok call)
    × (call.tool.name ≡ name)
    × (call.params.arguments ≡ given)
    × HttpPassed s req call

respond_call-called :
    (s : Server) (req : HttpRequest)
    (caller : Option (Text → Option Fields → Result GoError Fields)) (call : Admitted) {name : Text}
    {given : Option Fields}
    → (respond_call s req caller call).called ≡ some (name, given)
    → (call.tool.name ≡ name) × (call.params.arguments ≡ given)
respond_call-called s req none call h = absurd (ground (arith, h))
respond_call-called s req (some caller) call h = ground (arith, h)

respond-called :
    (s : Server) (req : HttpRequest) (r : Result Rejection Admitted) {name : Text}
    {given : Option Fields}
    → (respond s req r).called ≡ some (name, given)
    → (call : Admitted) × (r ≡ ok call) × (call.tool.name ≡ name) × (call.params.arguments ≡ given)
respond-called s req (err x) h = absurd (ground (arith, h))
respond-called s req (ok call) h =
    let (name, given) = respond_call-called s req s.caller call h in (call, refl, name, given)

accept-called :
    (s : Server) (req : HttpRequest) (writes : Writes) (call : Admitted)
    (audit : ToolCallCompletion) (first : Option GoError)
    (caller : Option (Text → Option Fields → Result GoError Fields)) {name : Text}
    {given : Option Fields}
    → (accept s req writes call audit caller first).called ≡ some (name, given)
    → (call.tool.name ≡ name) × (call.params.arguments ≡ given)
accept-called s req writes call audit (some e) caller h = absurd (ground (arith, h))
accept-called s req writes call audit none none h = absurd (ground (arith, h))
accept-called s req writes call audit none (some caller) h = ground (arith, h)

stream-called :
    (s : Server) (req : HttpRequest) (writes : Writes) (r : Result Rejection Admitted) {name : Text}
    {given : Option Fields}
    → (stream s req writes r).called ≡ some (name, given)
    → (call : Admitted) × (r ≡ ok call) × (call.tool.name ≡ name) × (call.params.arguments ≡ given)
stream-called s req writes (err x) h = absurd (ground (arith, h))
stream-called s req writes (ok call) h =
    let (name, given) =
      accept-called s req writes call (admitted_completion s req (codes "http-sse") call)
        writes.accepted s.caller h in
    (call, refl, name, given)

-- A tool call over HTTP, with one response or as a stream of events, is carried out only where the
-- body begins with JSON parameters, after which the decoder reports no more, that name a tool of the
-- registry, under the name of that tool and with its arguments; the authorizer, where there is one, authorises the tool; the Authorization header
-- presents the token of the session under the bearer scheme, which is not blank, and the scopes of
-- its principal suffice for the tool; and if the call is destructive, its arguments confirm it. The
-- names of the registry must be those of its tools, which holds for every registry that is built.
pub call_tool_http-HttpPassed :
    (s : Server) (req : HttpRequest) (writes : Writes) {name : Text} {given : Option Fields}
    → IsNamed s.registry.by_name
    → ((handle_call_tool_http s req).called ≡ some (name, given))
      ⊎ ((handle_call_tool_sse s req writes).called ≡ some (name, given))
    → CalledFor s req name given
unfolding handle_call_tool_http handle_call_tool_sse
call_tool_http-HttpPassed s req writes named (inl h) =
    let (call, e, name, given) = respond-called s req (parse_call_tool_request s req) h in
    (call, e, name, given, parse_call_tool_request-HttpPassed s req call named e)
call_tool_http-HttpPassed s req writes named (inr h) =
    let (call, e, name, given) = stream-called s req writes (parse_call_tool_request s req) h in
    (call, e, name, given, parse_call_tool_request-HttpPassed s req call named e)
