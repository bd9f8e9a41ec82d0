-- ===== src/Mcp/Server/Contract.antt =====
-- services/chamicore-mcp/internal/server/contract.go. Decoding the YAML file is an argument: the
-- tools it lists.
use chamicore.Prelude.{
  ◌≡◌, refl, subst, ap, ◌∙◌, sym, Bool, false, List, [], ◌∷◌, ◌++◌, Option, none, some, arith,
  Result, ok, err, is_empty, if◌then◌else◌, inl, inr, Option-cases, ok-injective, All, Result-cases,
}
use chamicore.Text.{Text, codes, =ₛ_iff, =ₛ_refl}
use chamicore.Text.Trim.{trim_space, trim_space_idem}
use chamicore.Text.Quote.{quoted}
use chamicore.Dict.{Dict, lookup, insert, is_some, lookup-insert}
use chamicore.GoError.{GoError, message, wrapped}
use chamicore.Mcp.Value.{Fields}

pub record ToolSpec : Type 0 where
  pub name : Text
  pub capability : Text
  pub description : Text
  pub required_scopes : List Text
  pub confirmation_required : Bool
  pub input_schema : Fields
  pub output_schema : Fields

pub record ToolRegistry : Type 0 where
  pub tools : List ToolSpec
  pub by_name : Dict ToolSpec

abbrev clean_tool : ToolSpec → ToolSpec
clean_tool tool = record tool {
  name = trim_space tool.name;
  capability = trim_space tool.capability;
}

-- What a tool may not be, given the tools before it.
unfoldable pub tool_error : Dict ToolSpec → ToolSpec → Option GoError
tool_error m tool =
    let name = trim_space tool.name in
    if is_empty name
    then some (message (codes "tool contract contains empty tool name"))
    else if is_some (lookup name m)
    then some (message (codes "tool contract contains duplicate tool " ++ quoted name))
    else if is_empty (trim_space tool.capability)
    then some (message (codes "tool " ++ (quoted name ++ codes " has empty capability")))
    else none

-- The loop over the tools.
unfoldable pub register_tools : Dict ToolSpec → List ToolSpec → Result GoError (Dict ToolSpec)
register_tools m [] = ok m
register_tools m (tool ∷ tools) = elim (tool_error m tool) [
  | some e ↦ err e
  | none ↦ register_tools (insert (trim_space tool.name) (clean_tool tool) m) tools
]

abbrev registry_of : List ToolSpec → Result GoError (Dict ToolSpec) → Result GoError ToolRegistry
registry_of tools (err e) = err e
registry_of tools (ok m) = ok (record { tools = tools; by_name = m })

-- `NewToolRegistry`.
unfoldable pub new_tool_registry : Result GoError (List ToolSpec) → Result GoError ToolRegistry
unfolding register_tools
new_tool_registry (err e) = err (wrapped (codes "decoding tool contract: ") e [])
new_tool_registry (ok tools) =
    if is_empty tools
    then err (message (codes "tool contract has no tools"))
    else registry_of tools (register_tools [] tools)

-- `ToolRegistry.Lookup`.
unfoldable pub lookup_tool : ToolRegistry → Text → Option ToolSpec
lookup_tool r name = lookup (trim_space name) r.by_name

-- Every tool stands under its own name, which is trimmed and not blank, and has a capability.
abbrev pub IsNamed : Dict ToolSpec → Type 0
IsNamed m =
    (k : Text) (tool : ToolSpec)
    → lookup k m ≡ some tool
    → (tool.name ≡ k)
      × (trim_space k ≡ k)
      × (is_empty k ≡ false)
      × (is_empty tool.capability ≡ false)

tool_error-none :
    (m : Dict ToolSpec) (tool : ToolSpec)
    → tool_error m tool ≡ none
    → (is_empty (trim_space tool.name) ≡ false) × (is_empty (trim_space tool.capability) ≡ false)
unfolding tool_error
tool_error-none m tool h = ground (arith, h)

insert-IsNamed :
    (m : Dict ToolSpec) (tool : ToolSpec)
    → tool_error m tool ≡ none
    → IsNamed m
    → IsNamed (insert (trim_space tool.name) (clean_tool tool) m)
insert-IsNamed m tool h named k u e = ground (
  arith,
  tool_error-none m tool h,
  lookup-insert (trim_space tool.name) k (clean_tool tool) m,
  =ₛ_iff (trim_space tool.name) k,
  named k u,
  trim_space_idem tool.name,
  e,
)

register_tools-IsNamed :
    (m : Dict ToolSpec) (tools : List ToolSpec) (r : Dict ToolSpec)
    → IsNamed m
    → register_tools m tools ≡ ok r
    → IsNamed r
unfolding register_tools
register_tools-IsNamed m [] r h e = subst IsNamed (ok-injective e) h
register_tools-IsNamed m (tool ∷ tools) r h e = elim (Option-cases (tool_error m tool)) [
  | inl f ↦
      register_tools-IsNamed (insert (trim_space tool.name) (clean_tool tool) m) tools r
        (insert-IsNamed m tool f h) (ground (arith, e, f))
  | inr (x, f) ↦ absurd (ground (arith, e, f))
]

tool_error-new :
    (m : Dict ToolSpec) (tool : ToolSpec)
    → tool_error m tool ≡ none
    → is_some (lookup (trim_space tool.name) m) ≡ false
unfolding tool_error
tool_error-new m tool h = ground (arith, h)

-- A tool that is registered stays, since no later one may have its name.
register_tools-keeps :
    (m : Dict ToolSpec) (tools : List ToolSpec) (r : Dict ToolSpec) (k : Text) (u : ToolSpec)
    → lookup k m ≡ some u
    → register_tools m tools ≡ ok r
    → lookup k r ≡ some u
unfolding register_tools
register_tools-keeps m [] r k u h e = ap (lookup k) (sym (ok-injective e)) ∙ h
register_tools-keeps m (tool ∷ tools) r k u h e = elim (Option-cases (tool_error m tool)) [
  | inl f ↦
      register_tools-keeps (insert (trim_space tool.name) (clean_tool tool) m) tools r k u
        (ground (
          arith,
          h,
          tool_error-new m tool f,
          lookup-insert (trim_space tool.name) k (clean_tool tool) m,
          =ₛ_iff (trim_space tool.name) k,
        ))
        (ground (arith, e, f))
  | inr (x, f) ↦ absurd (ground (arith, e, f))
]

-- The tool is found under its name.
abbrev IsFound : Dict ToolSpec → ToolSpec → Type 0
IsFound r tool = lookup (trim_space tool.name) r ≡ some (clean_tool tool)

register_tools-IsFound :
    (m : Dict ToolSpec) (tools : List ToolSpec) (r : Dict ToolSpec)
    → register_tools m tools ≡ ok r
    → All (IsFound r) tools
unfolding register_tools
register_tools-IsFound m [] r e = tt
register_tools-IsFound m (tool ∷ tools) r e = elim (Option-cases (tool_error m tool)) [
  | inl f ↦ (
    register_tools-keeps (insert (trim_space tool.name) (clean_tool tool) m) tools r
        (trim_space tool.name) (clean_tool tool)
        (ground (
          arith,
          lookup-insert (trim_space tool.name) (trim_space tool.name) (clean_tool tool) m,
          =ₛ_refl (trim_space tool.name),
        ))
        (ground (arith, e, f)),
    register_tools-IsFound (insert (trim_space tool.name) (clean_tool tool) m) tools r
        (ground (arith, e, f)),
  )
  | inr (x, f) ↦ absurd (ground (arith, e, f))
]

pub record IsFaithful (tools : List ToolSpec) (r : ToolRegistry) : Type 0 where
  pub listed : r.tools ≡ tools
  pub named : IsNamed r.by_name
  pub found : All (λ (tool : ToolSpec). lookup_tool r tool.name ≡ some (clean_tool tool)) tools

no_tool-IsNamed : IsNamed []
unfolding lookup
no_tool-IsNamed k tool h = ground (arith, h)

-- A registry that was built lists the tools of the contract in order, finds every one of them by its
-- name, with name and capability trimmed, and holds no tool under another name than its own or
-- without a capability.
pub new_tool_registry-IsFaithful :
    (tools : List ToolSpec) {r : ToolRegistry}
    → new_tool_registry (ok tools) ≡ ok r
    → IsFaithful tools r
unfolding new_tool_registry lookup_tool
new_tool_registry-IsFaithful tools {r} h = elim (Result-cases (register_tools [] tools)) [
  | inl (x, e) ↦ absurd (ground (arith, h, e))
  | inr (m, e) ↦ subst (IsFaithful tools) (built tools m r e h) (record {
    listed = refl;
    named = register_tools-IsNamed [] tools m no_tool-IsNamed e;
    found = register_tools-IsFound [] tools m e;
  })
]
  where
    built :
        (tools : List ToolSpec) (m : Dict ToolSpec) (r : ToolRegistry)
        → register_tools [] tools ≡ ok m
        → new_tool_registry (ok tools) ≡ ok r
        → (let q : ToolRegistry = record { tools = tools; by_name = m } in q) ≡ r
    built tools m r e h = ground (arith, e, h)
