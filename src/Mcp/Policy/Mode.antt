-- ===== src/Mcp/Policy/Mode.antt =====
-- services/chamicore-mcp/internal/policy/mode.go.
use chamicore.Prelude.{
  ◌≡◌, ◌⊎◌, Bool, true, Option, none, some, arith, is_empty, if◌then◌else◌, Result, ok, err, not,
  sym, ◌∙◌, inl, inr, ◌≢◌, [], ◌∷◌,
}
use chamicore.Text.{Text, codes, ◌=ₛ◌, =ₛ_iff}
use chamicore.Text.Trim.{trim_space}
use chamicore.Text.Fold.{to_lower}
use chamicore.Mcp.Policy.{
  PolicyError, write_not_enabled, invalid_mode, requires_read_write, unknown_capability,
}

abbrev pub mode_read_only : Text
mode_read_only = codes "read-only"

abbrev pub mode_read_write : Text
mode_read_write = codes "read-write"

pub record Guard : Type 0 where
  pub mode : Text

-- The blank mode is the read-only one.
abbrev pub normalized_mode : Text → Text
normalized_mode mode =
    let normalized = to_lower (trim_space mode) in
    if is_empty normalized then mode_read_only else normalized

-- The switch of `NewGuard`.
unfoldable pub guard_for : Text → Bool → Result PolicyError Guard
guard_for normalized enable_write =
    if normalized =ₛ mode_read_only
    then ok (record { mode = normalized })
    else if normalized =ₛ mode_read_write
    then (if not enable_write then err write_not_enabled else ok (record { mode = normalized }))
    else err (invalid_mode normalized)

-- `NewGuard`.
unfoldable pub new_guard : Text → Bool → Result PolicyError Guard
unfolding guard_for
new_guard mode enable_write = guard_for (normalized_mode mode) enable_write

-- `Guard.Mode` of a pointer that may be nil.
unfoldable pub mode_of : Option Guard → Text
mode_of none = mode_read_only
mode_of (some g) = g.mode

abbrev tool_or_unknown : Text → Text
tool_or_unknown name = let tool = trim_space name in if is_empty tool then codes "unknown" else tool

-- The switch of `Guard.AuthorizeTool` over the capability in lower case.
unfoldable pub authorize_kind : Text → Text → Text → Text → Option PolicyError
authorize_kind mode tool_name kind capability =
    if kind =ₛ codes "read"
    then none
    else if kind =ₛ codes "write"
    then (if mode =ₛ mode_read_write then none else some (requires_read_write tool_name))
    else some (unknown_capability tool_name capability)

-- `Guard.AuthorizeTool`.
unfoldable pub authorize_tool : Option Guard → Text → Text → Option PolicyError
unfolding mode_of authorize_kind
authorize_tool g name capability =
    authorize_kind (mode_of g) (tool_or_unknown name) (to_lower (trim_space capability))
      (trim_space capability)

guard_for-eq-ok :
    (m : Text) (enable_write : Bool) {g : Guard}
    → guard_for m enable_write ≡ ok g
    → (g.mode ≡ m) × ((m ≡ mode_read_only) ⊎ ((m ≡ mode_read_write) × (enable_write ≡ true)))
unfolding guard_for
guard_for-eq-ok m enable_write h = ground (arith, =ₛ_iff m mode_read_only, =ₛ_iff m mode_read_write)

authorize_kind-eq-none :
    (mode tool kind capability : Text)
    → authorize_kind mode tool kind capability ≡ none
    → (kind ≡ codes "read") ⊎ ((kind ≡ codes "write") × (mode ≡ mode_read_write))
unfolding authorize_kind
authorize_kind-eq-none mode tool kind capability h =
    ground
      (arith, =ₛ_iff kind (codes "read"), =ₛ_iff kind (codes "write"), =ₛ_iff mode mode_read_write)

read_only≢read_write : mode_read_only ≢ mode_read_write
read_only≢read_write h = cc

-- Only the configured text itself makes the mode read-write: the default for a blank one does not.
read_write-of_normalized :
    (m : Text) → (if is_empty m then mode_read_only else m) ≡ mode_read_write → m ≡ mode_read_write
read_write-of_normalized [] h = cc
read_write-of_normalized (c ∷ cs) h = h

-- A guard that was built authorises a tool only if its capability reads "read", or if it reads
-- "write", the configured mode reads "read-write" and writing was enabled; in every spelling that
-- differs by case and by surrounding space.
pub authorize_tool-dual_control :
    (mode name capability : Text) (enable_write : Bool) {g : Guard}
    → new_guard mode enable_write ≡ ok g
    → authorize_tool (some g) name capability ≡ none
    → (to_lower (trim_space capability) ≡ codes "read")
      ⊎ ((to_lower (trim_space capability) ≡ codes "write")
          × (to_lower (trim_space mode) ≡ mode_read_write)
          × (enable_write ≡ true))
authorize_tool-dual_control mode name capability enable_write {g} h k =
    decide (unfold new_guard in guard_for-eq-ok (normalized_mode mode) enable_write h)
      (unfold authorize_tool mode_of in authorize_kind-eq-none g.mode _ _ _ k)
  where
    decide :
        (g.mode ≡ normalized_mode mode)
          × ((normalized_mode mode ≡ mode_read_only)
              ⊎ ((normalized_mode mode ≡ mode_read_write) × (enable_write ≡ true)))
        → (to_lower (trim_space capability) ≡ codes "read")
          ⊎ ((to_lower (trim_space capability) ≡ codes "write") × (g.mode ≡ mode_read_write))
        → (to_lower (trim_space capability) ≡ codes "read")
          ⊎ ((to_lower (trim_space capability) ≡ codes "write")
              × (to_lower (trim_space mode) ≡ mode_read_write)
              × (enable_write ≡ true))
    decide (e, c) (inl reads) = inl reads
    decide (e, inl only) (inr (w, rw_mode)) =
        absurd (read_only≢read_write (sym only ∙ sym e ∙ rw_mode))
    decide (e, inr (full, enabled)) (inr (w, rw_mode)) =
        inr (w, read_write-of_normalized (to_lower (trim_space mode)) full, enabled)
