-- ===== src/Mcp/Audit/Tests.antt =====
-- The log entry of a tool call on concrete inputs.
use chamicore.Prelude.{◌≡◌, refl, [], ◌∷◌}
use chamicore.Text.{codes, ◌=ₛ◌}
use chamicore.Text.Trim.{trim_space, trim_left, trim_right, is_space}
use chamicore.Text.Order.{sort_strings, insert_sorted, ◌<ₛ◌}
use chamicore.Text.Split.{cut}
use chamicore.Text.Unique.{contains, normalized_unique, collect_unique}
use chamicore.Mcp.Value.{Fields, string, array, nil, cons, end, field, get}
use chamicore.Mcp.Server.Session.{trimmed_items, trimmed_texts}
use chamicore.Mcp.Audit.{
  read_string, read_string_slice, unique_strings, diff, summarize_targets, redact_match,
}
use chamicore.Mcp.Audit.Redaction.{Replaces, redact_match-Replaces}

abbrev two_nodes : Fields
two_nodes =
    field (codes "nodes") (array (cons (string (codes "n2")) (cons (string (codes " n1")) nil)))
      (field (codes "id") (string (codes "n1")) (field (codes "name") (string (codes "x")) end))

summary_run : summarize_targets two_nodes ≡ record {
  node_ids = codes "n1" ∷ codes "n2" ∷ [];
  group_ids = [];
  resource_ids = codes "x" ∷ [];
}
unfolding summarize_targets read_string read_string_slice unique_strings diff trimmed_items
    trimmed_texts get sort_strings insert_sorted normalized_unique collect_unique contains ◌<ₛ◌ ◌=ₛ◌
    trim_space trim_left trim_right is_space
summary_run = refl

redact_match-Replaces_example : Replaces (codes "token") (codes "abc") (codes "def")
redact_match-Replaces_example =
    redact_match-Replaces (codes "token") (codes "abc") (codes "def")
      (refl, (refl, (refl, (refl, (refl, tt))))) (refl, (refl, (refl, (refl, (refl, tt)))))

leak_run : redact_match (codes "token=abc:def") ≡ codes "token=abc: [REDACTED]"
unfolding redact_match cut trim_space trim_left trim_right is_space
leak_run = refl
