-- ===== src/Mcp/Server/Calls/Gates.antt =====
-- What a tool call has passed when the caller carries it out.
use chamicore.Prelude.{
  ◌≡◌, refl, ap, sym, ◌∙◌, subst, inl, inr, true, false, Option, none, some, arith, Result, ok, err,
  is_empty, Bool-cases,
}
use chamicore.Text.{Text, codes}
use chamicore.Text.Trim.{trim_space, trim_space_idem}
use chamicore.Dict.{lookup}
use chamicore.GoError.{GoError}
use chamicore.Mcp.Value.{Fields, bool, get}
use chamicore.Mcp.Policy.{PolicyError}
use chamicore.Mcp.Policy.Mode.{Guard, authorize_tool}
use chamicore.Mcp.Policy.Confirm.{
  IsDestructive, require_confirmation, require_confirmation-IsDestructive,
}
use chamicore.Mcp.Policy.Scopes.{Suffices, require_scopes-eq-none_iff}
use chamicore.Mcp.Server.Session.{SessionPrincipal, Authenticator, authenticate_stdio}
use chamicore.Mcp.Server.Contract.{ToolSpec, lookup_tool, IsNamed}
use chamicore.Mcp.Server.Calls.{
  Server, CallToolParams, Call, or_empty, authorize_tool_call, authenticate_stdio_tool_call,
  CallError, require_tool_scopes, resolved_mode, carry_out, or_refuse, in_session, if_known,
  as_principal, with_tool, handle_tools_call,
}

-- The gates in front of a call of a tool with arguments.
pub record Passed (s : Server) (tool : ToolSpec) (args : Option Fields) : Type 0 where
  pub authorized :
      (g : Guard) → s.authorizer ≡ some g → authorize_tool (some g) tool.name tool.capability ≡ none
  pub session :
      (a : Authenticator) × (s.session_auth ≡ some a)
      × (is_empty (trim_space a.token) ≡ false)
      × Suffices tool.required_scopes a.principal.scopes
  pub confirmed :
      IsDestructive (trim_space tool.name) tool.confirmation_required (or_empty args)
      → get (or_empty args) (codes "confirm") ≡ some (bool true)

carry_out-called :
    (caller : Option (Text → Option Fields → Result GoError Fields)) (mode : Text) (tool : ToolSpec)
    (sub : Text) (args : Option Fields) {name : Text} {given : Option Fields}
    → (carry_out caller mode tool sub args).called ≡ some (name, given)
    → (tool.name ≡ name) × (args ≡ given)
unfolding carry_out
carry_out-called none mode tool sub args h = absurd (ground (arith, h))
carry_out-called (some call) mode tool sub args h = ground (arith, h)

or_refuse-called :
    (o : Option PolicyError) (refusal : PolicyError → Call) (goes_on : Call)
    {c : Text × Option Fields}
    → ((e : PolicyError) → (refusal e).called ≡ none)
    → (or_refuse o refusal goes_on).called ≡ some c
    → (o ≡ none) × (goes_on.called ≡ some c)
or_refuse-called none refusal goes_on r h = (refl, h)
or_refuse-called (some e) refusal goes_on r h = absurd (ground (arith, h, r e))

-- A call by a principal reaches the caller only past the confirmation and the scopes.
as_principal-called :
    (s : Server) (tool : ToolSpec) (args : Option Fields) (p : SessionPrincipal) {name : Text}
    {given : Option Fields}
    → (as_principal s tool args p).called ≡ some (name, given)
    → (tool.name ≡ name)
      × (args ≡ given)
      × (require_confirmation tool.name tool.confirmation_required (or_empty args) ≡ none)
      × (require_tool_scopes tool p ≡ none)
unfolding as_principal
as_principal-called s tool args p h =
    let (e, h1) =
      or_refuse-called (require_confirmation tool.name tool.confirmation_required (or_empty args)) _
        _ (λ x. refl) h in
    let (f, h2) = or_refuse-called (require_tool_scopes tool p) _ _ (λ x. refl) h1 in
    let done = carry_out-called s.caller (resolved_mode s.authorizer) tool p.subject args h2 in
    (done.0, done.1, e, f)

pub authorized-of_none :
    (o : Option Guard) (tool : ToolSpec) (g : Guard)
    → o ≡ some g
    → authorize_tool_call o tool ≡ none
    → authorize_tool (some g) tool.name tool.capability ≡ none
unfolding authorize_tool_call
authorized-of_none none tool g e h = absurd (ground (arith, e))
authorized-of_none (some x) tool g e h =
    subst (λ (y : Option Guard). authorize_tool y tool.name tool.capability ≡ none) e h

session-of_ok :
    (o : Option Authenticator) (tool : ToolSpec) (p : SessionPrincipal)
    → authenticate_stdio_tool_call o ≡ ok p
    → require_tool_scopes tool p ≡ none
    → (a : Authenticator) × (o ≡ some a)
      × (is_empty (trim_space a.token) ≡ false)
      × Suffices tool.required_scopes a.principal.scopes
unfolding authenticate_stdio_tool_call authenticate_stdio require_tool_scopes
session-of_ok none tool p h k = absurd (ground (arith, h))
session-of_ok (some a) tool p h k = elim (Bool-cases (is_empty (trim_space a.token))) [
  | inl e ↦ absurd (ground (arith, h, e))
  | inr e ↦ (
    a,
    refl,
    e,
    (require_scopes-eq-none_iff tool.name tool.required_scopes a.principal.scopes).0
        (ground (arith, h, e, k)),
  )
]

in_session-called :
    (s : Server) (tool : ToolSpec) (args : Option Fields) (r : Result CallError SessionPrincipal)
    {name : Text} {given : Option Fields}
    → (in_session s tool args r).called ≡ some (name, given)
    → (p : SessionPrincipal) × (r ≡ ok p)
      × ((as_principal s tool args p).called ≡ some (name, given))
in_session-called s tool args (err e) h = absurd (ground (arith, h))
in_session-called s tool args (ok p) h = (p, refl, h)

with_tool-called :
    (s : Server) (tool : ToolSpec) (args : Option Fields) {name : Text} {given : Option Fields}
    → is_empty (trim_space tool.name) ≡ false
    → (with_tool s tool args).called ≡ some (name, given)
    → (tool.name ≡ name) × (args ≡ given) × Passed s tool args
unfolding with_tool
with_tool-called s tool args named h =
    let (e, h1) = or_refuse-called (authorize_tool_call s.authorizer tool) _ _ (λ x. refl) h in
    let (p, f, h2) =
      in_session-called s tool args (authenticate_stdio_tool_call s.session_auth) h1 in
    let done = as_principal-called s tool args p h2 in
    (
      done.0,
      done.1,
      record {
        authorized = λ g eq. authorized-of_none s.authorizer tool g eq e;
        session = session-of_ok s.session_auth tool p f done.3;
        confirmed = λ d.
            (require_confirmation-IsDestructive tool.name tool.confirmation_required (or_empty args)
                named d).0
              done.2;
      },
    )

if_known-called :
    (s : Server) (params : CallToolParams) (o : Option ToolSpec) {name : Text}
    {given : Option Fields}
    → (if_known s params o).called ≡ some (name, given)
    → (tool : ToolSpec) × (o ≡ some tool)
      × ((with_tool s tool params.arguments).called ≡ some (name, given))
if_known-called s params none h = absurd (ground (arith, h))
if_known-called s params (some tool) h = (tool, refl, h)

-- A tool call of the server is carried out only under the name of a tool of the registry, which its
-- parameters name, and with their arguments; where there is an authorizer, it authorises the tool;
-- there is a session with a token that is not blank, whose scopes suffice for the tool; and if the
-- call is destructive, its arguments confirm it. The names of the registry must be those of its
-- tools, which holds for every registry that is built.
pub handle_tools_call-Passed :
    (s : Server) (params : CallToolParams) {name : Text} {given : Option Fields}
    → IsNamed s.registry.by_name
    → (handle_tools_call s (some (ok params))).called ≡ some (name, given)
    → (tool : ToolSpec) × (lookup_tool s.registry params.name ≡ some tool)
      × (tool.name ≡ name)
      × (params.arguments ≡ given)
      × Passed s tool params.arguments
unfolding handle_tools_call lookup_tool
handle_tools_call-Passed s params named h =
    let (tool, e, h1) =
      if_known-called s params (lookup_tool s.registry (trim_space params.name)) h in
    let found = named (trim_space (trim_space params.name)) tool e in
    let done =
      with_tool-called s tool params.arguments (ground (arith, found.0, found.1, found.2)) h1 in
    (
      tool,
      ap (λ k. lookup k s.registry.by_name) (sym (trim_space_idem params.name)) ∙ e,
      done.0,
      done.1,
      done.2,
    )
