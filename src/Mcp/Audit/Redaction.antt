-- ===== src/Mcp/Audit/Redaction.antt =====
-- What the redaction of a key and its value keeps.
use chamicore.Prelude.{
  ℕ, ◌≡◌, refl, sym, ◌∙◌, ap, false, [], ◌∷◌, ◌++◌, none, some, arith, All, ◌==◌, ==_iff,
}
use mathlib.Core.List.{append_assoc}
use chamicore.Text.{Text, codes}
use chamicore.Text.Trim.{trim_space}
use chamicore.Text.Split.{cut}
use chamicore.Mcp.Audit.{or_equals, or_colon, redact_match}

-- A text without a separator.
abbrev pub Lacks : ℕ → Text → Type 0
Lacks sep t = All (λ c. (c == sep) ≡ false) t

cut-append :
    (sep : ℕ) (key rest : Text) → Lacks sep key → cut sep (key ++ sep ∷ rest) ≡ some (key, rest)
unfolding cut
cut-append sep [] rest h = ground (arith, ==_iff sep sep)
cut-append sep (c ∷ key) rest h = ground (arith, h.0, cut-append sep key rest h.1)

cut-none : (sep : ℕ) (t : Text) → Lacks sep t → cut sep t ≡ none
unfolding cut
cut-none sep [] h = refl
cut-none sep (c ∷ t) h = ground (arith, h.0, cut-none sep t h.1)

-- The replacement of a key and its value. Where they are separated by a colon, or by an equals sign
-- and there is no colon, only the key is kept; but where an equals sign separates them and the value
-- has a colon, all of the value up to that colon is kept too.
abbrev pub Replaces : Text → Text → Text → Type 0
Replaces key value rest =
    (redact_match (key ++ b':' ∷ value) ≡ trim_space key ++ codes ": [REDACTED]")
    × (Lacks b':' value
        → redact_match (key ++ b'=' ∷ value) ≡ trim_space key ++ codes "=[REDACTED]")
    × (Lacks b':' value
        → redact_match (key ++ b'=' ∷ (value ++ b':' ∷ rest))
          ≡ trim_space (key ++ b'=' ∷ value) ++ codes ": [REDACTED]")

Lacks-append :
    (sep c : ℕ) (key value : Text)
    → (c == sep) ≡ false
    → Lacks sep key
    → Lacks sep value
    → Lacks sep (key ++ c ∷ value)
Lacks-append sep c [] value e h k = (e, k)
Lacks-append sep c (x ∷ key) value e (p, h) k = (p, Lacks-append sep c key value e h k)

cut_again :
    (sep c : ℕ) (key value rest : Text)
    → (c == sep) ≡ false
    → Lacks sep key
    → Lacks sep value
    → cut sep (key ++ c ∷ (value ++ sep ∷ rest)) ≡ some (key ++ c ∷ value, rest)
cut_again sep c key value rest e h k =
    ap (cut sep) (sym (append_assoc key (c ∷ value) (sep ∷ rest)))
    ∙ cut-append sep (key ++ c ∷ value) rest (Lacks-append sep c key value e h k)

-- A key and its value, the key without a colon and an equals sign, are redacted as follows. Where a
-- colon separates them, or an equals sign and the value has no colon, the replacement is the same for
-- every value: the key and a mark. But where an equals sign separates them and the value has a colon,
-- the replacement keeps, of the value, all that stands before its first colon.
pub redact_match-Replaces :
    (key value rest : Text) → Lacks b':' key → Lacks b'=' key → Replaces key value rest
unfolding redact_match
redact_match-Replaces key value rest colon equals = (
  ap (λ o. or_colon o (or_equals (cut b'=' (key ++ b':' ∷ value))))
      (cut-append b':' key value colon),
  λ plain.
      ap (λ o. or_colon o (or_equals (cut b'=' (key ++ b'=' ∷ value))))
        (cut-none b':' (key ++ b'=' ∷ value) (Lacks-append b':' b'=' key value refl colon plain))
      ∙ ap or_equals (cut-append b'=' key value equals),
  λ plain.
      ap (λ o. or_colon o (or_equals (cut b'=' (key ++ b'=' ∷ (value ++ b':' ∷ rest)))))
        (cut_again b':' b'=' key value rest refl colon plain),
)
