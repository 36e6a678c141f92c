-- ===== src/RuleSets/Unsupported/Registry.antt =====
-- The registry of unsupported rules, in the order in which buildRegistry writes it. Every key is the
-- ID of its rule, and no key is written twice, so the map is the list of its rules.
use coraza_kubernetes_operat.Prelude.{
  String, ℕ, Bool, true, false, refl, List, [], ◌∷◌, ◌++◌, map, Option, find, select, ◌==◌,
}
use coraza_kubernetes_operat.Prelude.Bytes.{Bytes, bytes}
use coraza_kubernetes_operat.Prelude.Sort.{sort_by, HasDistinctKeys, distinct-HasDistinctKeys}

pub data Tier : Type 0 where
  incompatible redundant : Tier

pub record UnsupportedRule : Type 0 where
  pub id : ℕ
  pub category : Bytes
  pub tier : Tier
  pub description : Bytes

abbrev rule : ℕ → String → Tier → String → UnsupportedRule
rule id category tier description = record {
  id = id;
  category = bytes category;
  tier = tier;
  description = bytes description;
}

abbrev rules_of : List ℕ → String → Tier → String → List UnsupportedRule
rules_of ids category tier description = map (λ id. rule id category tier description) ids

-- It is shut, so that only tests compute with its texts.
unfoldable pub build_registry : List UnsupportedRule
build_registry =
    rule 922110 "multipart charset detection" incompatible
      "multipart charset detection does not function in Envoy/Kubernetes"
    ∷ rule 920274 "PL4 false positives" incompatible
        "PL4 false positives from Envoy :path pseudo-header population"
    ∷ rule 920171 "GET/HEAD body detection" incompatible
        "GET/HEAD with body not detected (coraza-proxy-wasm bug)"
    ∷ rule 920430 "protocol version detection" incompatible
        "invalid HTTP protocol version not detected (coraza-proxy-wasm bug)"
    ∷ rule 934120 "enclosed alphanumerics HTTP/2" incompatible
        "enclosed alphanumerics not detected in HTTP/2 (coraza-proxy-wasm bug)"
    ∷ rule 932300 "multiphase evaluation" incompatible
        "fails with multiphase evaluation enabled (Coraza bug)"
    ∷ rule 933120 "multiphase evaluation" incompatible
        "fails with multiphase evaluation enabled (Coraza bug)"
    ∷ (investigated
        ++ (rules_of (911100 ∷ 920100 ∷ 949110 ∷ []) "HTTP method handling" redundant
              "some request patterns handled by Envoy before reaching WAF"
            ++ (rules_of (920181 ∷ 920210 ∷ []) "protocol enforcement" redundant
                  "protocol enforcement handled by Envoy proxy layer"
                ++ (rules_of
                      (920280 ∷ 920290 ∷ 920300 ∷ 920310 ∷ 920311 ∷ 920320 ∷ 920330 ∷ 920610 ∷ [])
                      "HTTP/2 normalization" redundant
                      "header normalization handled by Envoy in HTTP/2"
                    ++ rules_of
                        (932161 ∷ 932207 ∷ 932237 ∷ 932239 ∷ 941101 ∷ 941110 ∷ 941120 ∷ 942280 ∷ [])
                        "header sanitization" redundant
                        "malicious header payloads sanitized by Envoy before reaching WAF"))))
  where
    investigated : List UnsupportedRule
    investigated =
        map (λ (entry : ℕ × String). rule entry.0 "under investigation" incompatible entry.1)
          ((920270, "behavioral difference — blocked at different layer")
            ∷ (921140, "behavioral difference — blocked at different layer")
            ∷ (921250, "cookie $Version detection not matching")
            ∷ (922130, "match_regex behavior difference")
            ∷ (932200, "detected by earlier rule instead of expected rule")
            ∷ (941210, "HTML entity decoding — transformation chain issue")
            ∷ (944200, "Java deserialization pattern not detected")
            ∷ (959100, "retry_once mechanism not working in environment")
            ∷ (980170, "retry_once mechanism not working in environment")
            ∷ [])

-- unsupportedRules[id]
unfoldable pub unsupported_rule : ℕ → Option UnsupportedRule
unsupported_rule id = find (λ r. r.id == id) build_registry

abbrev ids : List UnsupportedRule → List ℕ
ids = map (λ r. r.id)

abbrev in_tier : Tier → Tier → Bool
in_tier incompatible incompatible = true
in_tier redundant redundant = true
in_tier _ _ = false

abbrev by_value : ℕ → ℕ
by_value n = n

unfoldable pub rule_ids_by_tier : Tier → List ℕ
unfolding sort_by build_registry
rule_ids_by_tier tier = sort_by by_value (ids (select (λ r. in_tier r.tier tier) build_registry))

unfoldable pub incompatible_rule_ids : List ℕ
unfolding rule_ids_by_tier
incompatible_rule_ids = rule_ids_by_tier incompatible

unfoldable pub redundant_rule_ids : List ℕ
unfolding rule_ids_by_tier
redundant_rule_ids = rule_ids_by_tier redundant

unfoldable pub all_unsupported_rule_ids : List ℕ
unfolding sort_by build_registry
all_unsupported_rule_ids = sort_by by_value (ids build_registry)

-- No write of buildRegistry replaces another.
pub build_registry-HasDistinctKeys : HasDistinctKeys (λ r. r.id) build_registry
unfolding build_registry
build_registry-HasDistinctKeys = distinct-HasDistinctKeys (λ r. r.id) build_registry refl
