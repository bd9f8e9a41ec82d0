-- ===== src/Mcp/Audit.antt =====
-- services/chamicore-mcp/internal/audit/logger.go: the log entry of a tool call. The two regular
-- expressions are arguments: what they replace in a text, given the replacement of a match.
pub mod Targets
pub mod Redaction
mod Tests
use chamicore.Prelude.{
  ℕ, Bool, true, false, not, ◌/◌, List, [], ◌∷◌, ◌++◌, Option, none, some, is_empty, keep_if, ltb,
  if◌then◌else◌,
}
use chamicore.Prelude.Int.{ℤ, pos_part}
use chamicore.Text.{Text, codes}
use chamicore.Text.Trim.{trim_space}
use chamicore.Text.Order.{sort_strings}
use chamicore.Text.Split.{cut}
use chamicore.Text.Unique.{contains, normalized_unique}
use chamicore.Mcp.Value.{Value, Values, Fields, string, strings, array, get}
use chamicore.Mcp.Server.Session.{trimmed_texts, trimmed_items}

pub record TargetSummary : Type 0 where
  pub node_ids : List Text
  pub group_ids : List Text
  pub resource_ids : List Text

abbrev pub text_of : Option Value → List Text
text_of (some (string s)) = trimmed_texts (s ∷ [])
text_of _ = []

-- `readString`: the values of some keys that are texts, trimmed and not blank.
unfoldable pub read_string : Fields → List Text → List Text
unfolding trimmed_texts
read_string args [] = []
read_string args (key ∷ keys) = text_of (get args key) ++ read_string args keys

abbrev pub texts_of : Option Value → List Text
texts_of (some (strings ss)) = trimmed_texts ss
texts_of (some (array vs)) = trimmed_items vs
texts_of _ = []

-- `readStringSlice`: the texts in the lists of some keys, trimmed and not blank.
unfoldable pub read_string_slice : Fields → List Text → List Text
unfolding trimmed_texts trimmed_items
read_string_slice args [] = []
read_string_slice args (key ∷ keys) = texts_of (get args key) ++ read_string_slice args keys

-- `uniqueStrings`; nil and the empty list are the same here.
unfoldable pub unique_strings : List Text → List Text
unique_strings values = sort_strings (normalized_unique values)

-- `diff`.
unfoldable pub diff : List Text → List Text → List Text
diff values drops = keep_if (λ value. not (contains drops value)) values

-- The texts that stand under the keys of nodes, of groups and of anything else.
abbrev pub named_nodes : Fields → List Text
named_nodes args = read_string_slice args (codes "nodes" ∷ codes "node_ids" ∷ [])

abbrev pub named_groups : Fields → List Text
named_groups args =
    read_string_slice args (codes "groups" ∷ codes "group_ids" ∷ [])
    ++ read_string args (codes "label" ∷ codes "group" ∷ [])

abbrev pub named_resources : Fields → List Text
named_resources args =
    (read_string_slice args (codes "ids" ∷ codes "component_ids" ∷ codes "members" ∷ [])
      ++ read_string args (
          codes "id"
          ∷ codes "component_id"
          ∷ codes "request_id"
          ∷ codes "scan_id"
          ∷ codes "target_id"
          ∷ codes "name"
          ∷ []))
    ++ read_string_slice args (codes "resources" ∷ codes "resource_ids" ∷ [])

-- `SummarizeTargets`; a nil map has no keys.
unfoldable pub summarize_targets : Fields → TargetSummary
unfolding read_string read_string_slice unique_strings diff
summarize_targets args =
    let node_ids = unique_strings (named_nodes args) in
    let group_ids = unique_strings (named_groups args) in
    record {
      node_ids = node_ids;
      group_ids = group_ids;
      resource_ids = diff (unique_strings (named_resources args)) (node_ids ++ group_ids);
    }

abbrev pub or_equals : Option (Text × Text) → Text
or_equals none = codes "[REDACTED]"
or_equals (some (key, secret)) = trim_space key ++ codes "=[REDACTED]"

abbrev pub or_colon : Option (Text × Text) → Text → Text
or_colon none replacement = replacement
or_colon (some (key, secret)) replacement = trim_space key ++ codes ": [REDACTED]"

-- The function that `RedactSensitiveText` replaces a match of `keyValuePattern` by.
unfoldable pub redact_match : Text → Text
redact_match found = or_colon (cut b':' found) (or_equals (cut b'=' found))

-- `bearerTokenPattern.ReplaceAllString` and `keyValuePattern.ReplaceAllStringFunc`.
pub record Patterns : Type 0 where
  pub replace_bearer : Text → Text → Text
  pub replace_pairs : (Text → Text) → Text → Text

unfoldable pub redact_sensitive_text : Patterns → Text → Text
unfolding redact_match
redact_sensitive_text patterns raw =
    if is_empty (trim_space raw)
    then []
    else patterns.replace_pairs redact_match
        (patterns.replace_bearer (codes "Bearer [REDACTED]") (trim_space raw))

-- `audit.ToolCallCompletion` as texts; a duration counts nanoseconds.
pub record Completed : Type 0 where
  pub request_id : Text
  pub session_id : Text
  pub transport : Text
  pub tool_name : Text
  pub mode : Text
  pub caller_sub : Text
  pub arguments : Fields
  pub result : Text
  pub error_detail : Text
  pub duration : ℤ
  pub response_code : ℕ

-- The fields of the entry; the last two are left out where there is nothing to say.
pub record LogEntry : Type 0 where
  pub request_id : Text
  pub session_id : Text
  pub transport : Text
  pub tool : Text
  pub mode : Text
  pub caller_subject : Text
  pub result : Text
  pub duration_ms : ℕ
  pub target : TargetSummary
  pub response_code : Option ℕ
  pub error_detail : Option Text

abbrev pub or_default_text : Text → Text → Text
or_default_text text default = if is_empty (trim_space text) then default else trim_space text

abbrev pub unless_blank : Text → Option Text
unless_blank text = if is_empty text then none else some text

-- `Complete`.
unfoldable pub complete : Patterns → Completed → LogEntry
unfolding summarize_targets redact_sensitive_text
complete patterns event = record {
  request_id = trim_space event.request_id;
  session_id = trim_space event.session_id;
  transport = trim_space event.transport;
  tool = or_default_text event.tool_name (codes "unknown");
  mode = or_default_text event.mode (codes "read-only");
  caller_subject = trim_space event.caller_sub;
  result = or_default_text event.result (codes "error");
  duration_ms = pos_part event.duration / 1000000;
  target = summarize_targets event.arguments;
  response_code = if ltb 0 event.response_code then some event.response_code else none;
  error_detail = unless_blank (redact_sensitive_text patterns event.error_detail);
}
