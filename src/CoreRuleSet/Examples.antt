-- ===== src/CoreRuleSet/Examples.antt =====
-- Tests of the generator of the core rule set.
use coraza_kubernetes_operat.Prelude.{
  Bool, true, false, List, [], ◌∷◌, ◌++◌, ◌≡◌, refl, none, some, All, all,
}
use coraza_kubernetes_operat.Prelude.Bytes.{Bytes, bytes}
use coraza_kubernetes_operat.Controller.Errors.{plain_error, base}
use coraza_kubernetes_operat.CoreRuleSet.Strings.{to_valid_utf8, to_valid_utf8, join}
use coraza_kubernetes_operat.CoreRuleSet.Blocks.{
  sec_directive_line, trim_line_end, split_step, split_into_rules, newline,
}
use coraza_kubernetes_operat.CoreRuleSet.Blocks.Spelled.{join-split_into_rules}
use coraza_kubernetes_operat.CoreRuleSet.Chains.{
  sec_rule_has_chain_action, is_sec_rule, is_skipped, chain_sec_rule_groups, extract_rule_id,
}
use coraza_kubernetes_operat.CoreRuleSet.Chains.Groups.{flatten, rule_indices}
use coraza_kubernetes_operat.CoreRuleSet.Chains.Links.{links, chains_at}
use coraza_kubernetes_operat.CoreRuleSet.Chains.Longest.{longest_chains}
use coraza_kubernetes_operat.CoreRuleSet.Chains.Exact.{chain_sec_rule_groups_exact}
use coraza_kubernetes_operat.RuleSets.Unsupported.RuleIds.{digits}
use coraza_kubernetes_operat.CoreRuleSet.Options.{Outcome, ok, err, Options, Host}
use coraza_kubernetes_operat.CoreRuleSet.Process.{
  wishes_drop, process_file_content, rules_text, has_rules,
}
use coraza_kubernetes_operat.CoreRuleSet.Process.Whole.{IsWhole, wishes, dropped, dropped-IsWhole}
use coraza_kubernetes_operat.CoreRuleSet.Process.Exact.{
  kept, file_warnings, process_file_content_exact,
}
use coraza_kubernetes_operat.CoreRuleSet.Validate.{
  validate_rule_source_object_name, check_payload_size, sanitized_name, CrsVersion,
  generate_rule_source_name,
}
use coraza_kubernetes_operat.CoreRuleSet.Validate.Names.{
  IsSourceName, generate_rule_source_name-IsSourceName,
}
use coraza_kubernetes_operat.CoreRuleSet.Render.{indent_multiline}
use coraza_kubernetes_operat.CoreRuleSet.Render.Scalar.{read_block_scalar}
use coraza_kubernetes_operat.CoreRuleSet.Build.{
  ManifestBundle, ScanResult, merge_unsupported_ids, build,
}
use coraza_kubernetes_operat.CoreRuleSet.Build.Built.{IsBuilt, build-IsBuilt}
use coraza_kubernetes_operat.CoreRuleSet.Generate.{Writer}

-- A comment, a chain of two rules, and a rule over two lines.
abbrev sample_rules : Bytes
sample_rules =
    bytes
      "# c\nSecRule A \"@rx x\" \"id:1,chain\"\nSecRule B \"y\" \"t:none\"\nSecRule C \"z\" \\\n \"id:2\"\n"

abbrev sample_text : Bytes
sample_text = rules_text sample_rules

abbrev sample_host : Host
sample_host = record {
  read_file = λ path. ok sample_rules;
  glob = λ pattern. ok (bytes "rules/REQUEST_A.conf" ∷ []);
  stat_is_dir = λ path. ok true;
  quote = λ s. bytes "\"" ++ (s ++ bytes "\"");
  is_dns1123_subdomain = λ s. [];
  is_dns1123_label = λ s. [];
  is_config_map_key = λ s. [];
}

abbrev sample_options : Options
sample_options = record {
  rules_dir = bytes "./rules/";
  version = bytes "v4.24.1";
  ignore_rule_ids = some (bytes "1" ∷ []);
  ignore_pm_from_file = false;
  include_test_rule = false;
  rule_set_name = [];
  namespace = bytes "waf";
  data_source_name = [];
  name_prefix = [];
  name_suffix = [];
  dry_run = false;
  skip_size_check = false;
  ignore_unsupported_rules = bytes "none";
  auto_ignored_ids = none;
}

blocks_of_sample :
    split_into_rules sample_text
    ≡ bytes "# c"
      ∷ bytes "SecRule A \"@rx x\" \"id:1,chain\""
      ∷ bytes "SecRule B \"y\" \"t:none\""
      ∷ bytes "SecRule C \"z\" \\\n \"id:2\""
      ∷ []
unfolding split_into_rules to_valid_utf8 split_step trim_line_end sec_directive_line
blocks_of_sample = refl

abbrev sample_blocks : List Bytes
sample_blocks =
    bytes "# c"
    ∷ bytes "SecRule A \"@rx x\" \"id:1,chain\""
    ∷ bytes "SecRule B \"y\" \"t:none\""
    ∷ bytes "SecRule C \"id:2\""
    ∷ []

groups_of_sample :
    chain_sec_rule_groups (split_into_rules sample_text) ≡ (1 ∷ 2 ∷ []) ∷ (3 ∷ []) ∷ []
unfolding chain_sec_rule_groups is_skipped is_sec_rule sec_rule_has_chain_action
groups_of_sample = rw blocks_of_sample

-- The ignored rule 1 takes its whole chain with it.
kept_of_sample :
    kept (some (bytes "1" ∷ [])) false sample_blocks ≡ bytes "# c" ∷ bytes "SecRule C \"id:2\"" ∷ []
unfolding wishes_drop is_skipped is_sec_rule extract_rule_id chain_sec_rule_groups
    sec_rule_has_chain_action digits
kept_of_sample = refl

join-split_into_rules_example : join newline (split_into_rules sample_text) ≡ sample_text
join-split_into_rules_example = join-split_into_rules sample_text

chain_sec_rule_groups_exact_example :
    (flatten (chain_sec_rule_groups sample_blocks) ≡ rule_indices 0 sample_blocks)
    × (all (links (chains_at sample_blocks)) (chain_sec_rule_groups sample_blocks) ≡ true)
    × (chain_sec_rule_groups sample_blocks ≡ longest_chains sample_blocks)
chain_sec_rule_groups_exact_example = chain_sec_rule_groups_exact sample_blocks

dropped-IsWhole_example :
    let ids = some (bytes "1" ∷ []) in
    All
      (IsWhole (wishes ids false sample_blocks) (dropped ids false sample_blocks))
      (chain_sec_rule_groups sample_blocks)
dropped-IsWhole_example = dropped-IsWhole (some (bytes "1" ∷ [])) false sample_blocks

has_rules_of_sample : has_rules sample_text ≡ true
unfolding to_valid_utf8
has_rules_of_sample = refl

process_file_content_exact_example :
    let ids = some (bytes "1" ∷ []) in
    let path = bytes "rules/REQUEST_A.conf" in
    (process_file_content sample_host path ids none false
      ≡ ok (
        join newline (kept ids false (split_into_rules sample_text)),
        file_warnings ids false (split_into_rules sample_text) (base path) none,
      ))
    × All (λ b. wishes_drop ids false b ≡ false) (kept ids false (split_into_rules sample_text))
process_file_content_exact_example =
    process_file_content_exact sample_host (bytes "rules/REQUEST_A.conf") sample_rules
      (some (bytes "1" ∷ [])) none false refl has_rules_of_sample

sample_name :
    generate_rule_source_name (bytes "_REQUEST-901 A_b.conf") ≡ ok (bytes "request-901a-b")
unfolding generate_rule_source_name sanitized_name
sample_name = refl

generate_rule_source_name-IsSourceName_example : IsSourceName (bytes "request-901a-b")
generate_rule_source_name-IsSourceName_example =
    generate_rule_source_name-IsSourceName (bytes "_REQUEST-901 A_b.conf") sample_name

-- Where the first line begins with a space, the reader takes the space for indentation.
space_is_lost : read_block_scalar (indent_multiline (bytes " a\n  b") 4) ≡ bytes "a\n b\n"
unfolding indent_multiline
space_is_lost = refl

abbrev refuse_write : Writer
refuse_write out chunk = some (record { accepted = 1; cause = plain_error (bytes "broken pipe") })

abbrev is_ok : {A : Type 0} → Outcome A → Bool
is_ok (ok a) = true
is_ok (err e) = false

of_ok : {A : Type 0} (o : Outcome A) → is_ok o ≡ true → (a : A) × (o ≡ ok a)
of_ok (ok a) h = (a, refl)
of_ok (err e) h = absurd (cc h)

abbrev sample_version : CrsVersion
sample_version = record { normalized = bytes "4.24.1"; setup = bytes "4241" }

abbrev sample_scan : ScanResult
sample_scan = record {
  conf_paths = bytes "rules/REQUEST_A.conf" ∷ [];
  data_paths = [];
  pm_from_file_refs = false;
}

abbrev build_host : Host
build_host = record sample_host { read_file = λ path. ok (bytes "SecRule A \"id:7\"") }

abbrev build_options : Options
build_options = record sample_options { skip_size_check = true }

builds : is_ok (build build_host build_options sample_scan sample_version) ≡ true
unfolding build merge_unsupported_ids check_payload_size generate_rule_source_name base
    validate_rule_source_object_name process_file_content to_valid_utf8 chain_sec_rule_groups
    split_into_rules split_step trim_line_end sec_directive_line is_skipped is_sec_rule
    sec_rule_has_chain_action extract_rule_id wishes_drop digits
builds = refl

built : (b : ManifestBundle) × (build build_host build_options sample_scan sample_version ≡ ok b)
built = of_ok (build build_host build_options sample_scan sample_version) builds

build-IsBuilt_example : IsBuilt build_host build_options sample_scan built.0
build-IsBuilt_example = build-IsBuilt build_host build_options sample_scan sample_version built.1
