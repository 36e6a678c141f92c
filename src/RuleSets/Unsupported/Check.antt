-- ===== src/RuleSets/Unsupported/Check.antt =====
-- CheckUnsupportedRules and FormatUnsupportedMessage.
use coraza_kubernetes_operat.Prelude.{
  ℕ, Bool, List, [], ◌∷◌, ◌++◌, any, Option, none, some, ◌==◌, length, if◌then◌else◌,
}
use coraza_kubernetes_operat.Prelude.Bytes.{Bytes, bytes}
use coraza_kubernetes_operat.Prelude.Sort.{sort_by}
use coraza_kubernetes_operat.RuleSets.Unsupported.Registry.{UnsupportedRule, unsupported_rule}
use coraza_kubernetes_operat.RuleSets.Unsupported.RuleIds.{mentioned_ids}
use coraza_kubernetes_operat.RuleSets.Unsupported.Decimal.{decimal}

abbrev pub has_id : ℕ → List UnsupportedRule → Bool
has_id id = any (λ r. r.id == id)

abbrev pub add_found : List UnsupportedRule → Option UnsupportedRule → List UnsupportedRule
add_found found none = found
add_found found (some r) = found ++ r ∷ []

-- The loop over the matches. `seen` holds the IDs of the rules that are found.
unfoldable pub find_unsupported : List UnsupportedRule → List ℕ → List UnsupportedRule
find_unsupported found [] = found
find_unsupported found (id ∷ ids) =
    find_unsupported (if has_id id found then found else add_found found (unsupported_rule id)) ids

unfoldable pub check_unsupported_rules : Bytes → List UnsupportedRule
check_unsupported_rules rules = sort_by (λ r. r.id) (find_unsupported [] (mentioned_ids rules))

abbrev rule_lines : List UnsupportedRule → Bytes
rule_lines [] = []
rule_lines (r ∷ rs) =
    bytes "\n  - rule "
    ++ (decimal r.id
        ++ (bytes " (" ++ (r.category ++ (bytes "): " ++ (r.description ++ rule_lines rs)))))

unfoldable pub format_unsupported_message : List UnsupportedRule → Bytes
format_unsupported_message [] = []
format_unsupported_message (r ∷ rs) =
    bytes "RuleSet contains "
    ++ (decimal (length (r ∷ rs))
        ++ (bytes " unsupported rule(s) for the current WASM engine mode:"
            ++ (rule_lines (r ∷ rs)
                ++ bytes "\nSee LIMITATIONS.md for details and mitigation options.")))
