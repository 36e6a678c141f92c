-- ===== src/RuleSets/Unsupported/Examples.antt =====
-- Tests of the check for unsupported rules, and its theorem at a concrete input.
use coraza_kubernetes_operat.Prelude.{ℕ, ◌&&◌, ◌≡◌, refl, [], ◌∷◌, map, All, length}
use coraza_kubernetes_operat.Prelude.Bytes.{Bytes, bytes}
use coraza_kubernetes_operat.Prelude.Sort.{IsIncreasing, sort_by}
use coraza_kubernetes_operat.RuleSets.Unsupported.Registry.{
  build_registry, unsupported_rule, incompatible_rule_ids, redundant_rule_ids,
  all_unsupported_rule_ids,
}
use coraza_kubernetes_operat.RuleSets.Unsupported.RuleIds.{mentioned_ids}
use coraza_kubernetes_operat.RuleSets.Unsupported.Decimal.{decimal}
use coraza_kubernetes_operat.RuleSets.Unsupported.Check.{
  has_id, check_unsupported_rules, find_unsupported, format_unsupported_message,
}
use coraza_kubernetes_operat.RuleSets.Unsupported.Collected.{mentions, IsRegistered, check_exact}

abbrev sample : Bytes
sample =
    bytes
      "SecRule A \"@rx b\" \"id:'934120',pass\"\n # id:920171\nSecAction \"id:5,xid:920430,id:920274\"\nSecRule \"id:934120\""

mentioned : mentioned_ids sample ≡ 934120 ∷ 5 ∷ 920274 ∷ 934120 ∷ []
unfolding mentioned_ids
mentioned = refl

reported : map (λ r. r.id) (check_unsupported_rules sample) ≡ 920274 ∷ 934120 ∷ []
unfolding check_unsupported_rules mentioned_ids find_unsupported unsupported_rule build_registry
    sort_by
reported = refl

redundant_ids :
    redundant_rule_ids
    ≡ 911100 ∷ 920100 ∷ 920181 ∷ 920210 ∷ 920280 ∷ 920290 ∷ 920300 ∷ 920310 ∷ 920311 ∷ 920320
      ∷ 920330 ∷ 920610 ∷ 932161 ∷ 932207 ∷ 932237 ∷ 932239 ∷ 941101 ∷ 941110 ∷ 941120 ∷ 942280
      ∷ 949110 ∷ []
unfolding redundant_rule_ids
redundant_ids = refl

counts_of_tiers : length incompatible_rule_ids ≡ 16
unfolding incompatible_rule_ids
counts_of_tiers = refl

all_ids : length all_unsupported_rule_ids ≡ 37
unfolding all_unsupported_rule_ids
all_ids = refl

written : decimal 934120 ≡ bytes "934120"
unfolding decimal
written = refl

message :
    format_unsupported_message (check_unsupported_rules (bytes "id:920171"))
    ≡ bytes
        "RuleSet contains 1 unsupported rule(s) for the current WASM engine mode:\n  - rule 920171 (GET/HEAD body detection): GET/HEAD with body not detected (coraza-proxy-wasm bug)\nSee LIMITATIONS.md for details and mitigation options."
unfolding check_unsupported_rules mentioned_ids find_unsupported unsupported_rule build_registry
    sort_by format_unsupported_message decimal
message = refl

check_exact_example :
    ((id : ℕ)
      → has_id id (check_unsupported_rules sample)
        ≡ (mentions id (mentioned_ids sample) && has_id id build_registry))
    × All IsRegistered (check_unsupported_rules sample)
    × IsIncreasing (λ r. r.id) (check_unsupported_rules sample)
check_exact_example = check_exact sample
