-- ===== src/CoreRuleSet/Build.antt =====
-- tools/corerulesetgen/build.go, and buildRuleSourceYAML of rules.go.
pub mod Built
pub mod Ignored
use coraza_kubernetes_operat.Prelude.{
  ℕ, ◌+◌, Bool, not, List, [], ◌∷◌, ◌++◌, none, some, map, select, if◌then◌else◌,
}
use coraza_kubernetes_operat.Prelude.Bytes.{Bytes, bytes, bytes_eq}
use coraza_kubernetes_operat.Controller.Errors.{base}
use coraza_kubernetes_operat.RuleSets.Unsupported.Registry.{all_unsupported_rule_ids}
use coraza_kubernetes_operat.RuleSets.Unsupported.Decimal.{decimal}
use coraza_kubernetes_operat.CoreRuleSet.Strings.{trim_space, to_lower, is_empty}
use coraza_kubernetes_operat.CoreRuleSet.Options.{
  Outcome, ok, ◌>>=◌, errorf, StringSet, in_set, Options, Host,
}
use coraza_kubernetes_operat.CoreRuleSet.Process.{process_file_content}
use coraza_kubernetes_operat.CoreRuleSet.Validate.{
  CrsVersion, generate_rule_source_name, validate_rule_source_object_name, check_payload_size,
}
use coraza_kubernetes_operat.CoreRuleSet.BaseRules.{base_rules_yaml}
use coraza_kubernetes_operat.CoreRuleSet.Render.{
  inject_namespace_in_base_rule_source_yaml, indent_multiline, format_rule_source_yaml,
  rule_set_yaml, build_rule_data_yaml,
}

pub record NamedYaml : Type 0 where
  pub name : Bytes
  pub doc : Bytes

pub record BuildStats : Type 0 where
  pub processed : ℕ
  pub skipped : ℕ

pub record ConfFileResult : Type 0 where
  pub base_name : Bytes
  pub warns : List Bytes
  pub source_name : Bytes
  pub yaml : Bytes
  pub skip_reason : Bytes

pub record ManifestBundle : Type 0 where
  pub base_rule_source_yaml : Bytes
  pub extra_rule_sources : List NamedYaml
  pub data_rule_data_doc : Bytes
  pub rule_set_doc : Bytes
  pub stats : BuildStats
  pub conf_file_results : List ConfFileResult

pub record ScanResult : Type 0 where
  pub conf_paths : List Bytes
  pub data_paths : List Bytes
  pub pm_from_file_refs : Bool

abbrev pub unsupported_rule_profile_wasm : Bytes
unsupported_rule_profile_wasm = bytes "wasm"

unfoldable pub unsupported_ids_for_profile : Bytes → List ℕ
unsupported_ids_for_profile profile =
    if bytes_eq (to_lower (trim_space profile)) unsupported_rule_profile_wasm
    then all_unsupported_rule_ids
    else []

abbrev pub keys_of : StringSet → List Bytes
keys_of none = []
keys_of (some keys) = keys

-- The branch on len(ids) == 0.
unfoldable pub merge_ids : Options → List ℕ → Options
merge_ids opts [] = record opts { auto_ignored_ids = none }
merge_ids opts (id ∷ ids) =
    let sids = map decimal (id ∷ ids) in
    record opts {
      ignore_rule_ids = some (keys_of opts.ignore_rule_ids ++ sids);
      auto_ignored_ids = some (select (λ sid. not (in_set opts.ignore_rule_ids sid)) sids);
    }

unfoldable pub merge_unsupported_ids : Options → Options
unfolding unsupported_ids_for_profile merge_ids
merge_unsupported_ids opts =
    merge_ids opts (unsupported_ids_for_profile opts.ignore_unsupported_rules)

-- The variables of the loop over the .conf files.
pub record Progress : Type 0 where
  pub conf_results : List ConfFileResult
  pub extra : List NamedYaml
  pub names : List Bytes
  pub done : ℕ
  pub left_out : ℕ

unfoldable pub add_result : Progress → Bytes → ConfFileResult → Progress
add_result p path r =
    let results = p.conf_results ++ record r { base_name = base path } ∷ [] in
    if not (is_empty r.yaml)
    then record {
      conf_results = results;
      extra = p.extra ++ record { name = r.source_name; doc = r.yaml } ∷ [];
      names = p.names ++ r.source_name ∷ [];
      done = p.done + 1;
      left_out = p.left_out;
    }
    else record p { conf_results = results; left_out = p.left_out + 1 }

abbrev pub no_progress : Progress
no_progress = record { conf_results = []; extra = []; names = []; done = 0; left_out = 0 }

-- What buildRuleSourceYAML returns without an error.
abbrev pub skipped_file : List Bytes → ConfFileResult
skipped_file warns = record {
  base_name = [];
  warns = warns;
  source_name = [];
  yaml = [];
  skip_reason = bytes "No SecRule or SecAction directives found";
}

abbrev pub non_empty_name : Bytes → Outcome (Unit {0})
non_empty_name name =
    if is_empty name then errorf (bytes "empty RuleSource name after prefix/suffix" ∷ []) else ok tt

abbrev pub rule_source_result : Options → Bytes → Bytes → List Bytes → ConfFileResult
rule_source_result opts name indented warns = record {
  base_name = [];
  warns = warns;
  source_name = name;
  yaml = format_rule_source_yaml name opts.namespace indented;
  skip_reason = [];
}

module _ (host : Host) where
  abbrev pub rule_source_of : Options → Bytes → Bytes × List Bytes → Outcome ConfFileResult
  rule_source_of opts name (processed, warns) =
      if is_empty (trim_space processed)
      then ok (skipped_file warns)
      else let indented = indent_multiline processed 4 in
        (check_payload_size host (indented ++ bytes "\n") name opts >>= λ _.
        ok (rule_source_result opts name indented warns))

  unfoldable pub build_rule_source_yaml : Bytes → Options → Outcome ConfFileResult
  build_rule_source_yaml path opts = generate_rule_source_name (base path) >>= λ raw_name.
      let name = opts.name_prefix ++ (raw_name ++ opts.name_suffix) in
      (non_empty_name name >>= λ _. validate_rule_source_object_name host name >>= λ _.
      process_file_content host path opts.ignore_rule_ids opts.auto_ignored_ids
        opts.ignore_pm_from_file
      >>= rule_source_of opts name)

  unfoldable pub build_conf_files : Options → List Bytes → Progress → Outcome Progress
  unfolding add_result build_rule_source_yaml
  build_conf_files opts [] p = ok p
  build_conf_files opts (path ∷ paths) p =
      build_rule_source_yaml path opts >>= λ r. build_conf_files opts paths (add_result p path r)

  abbrev pub data_doc : List Bytes → Options → Outcome Bytes
  data_doc [] opts = ok []
  data_doc (p ∷ paths) opts = build_rule_data_yaml host (p ∷ paths) opts

  abbrev pub bundle_of : Options → ScanResult → Bytes → Progress → Bytes → ManifestBundle
  bundle_of opts scan base_yaml p doc = record {
    base_rule_source_yaml = base_yaml;
    extra_rule_sources = p.extra;
    data_rule_data_doc = doc;
    rule_set_doc = rule_set_yaml p.names opts (not (is_empty scan.data_paths));
    stats = record { processed = p.done; skipped = p.left_out };
    conf_file_results = p.conf_results;
  }

  unfoldable pub build : Options → ScanResult → CrsVersion → Outcome ManifestBundle
  unfolding build_conf_files
  build given scan ver =
      let opts = merge_unsupported_ids given in
      let (base_yaml, scalar) = base_rules_yaml ver.normalized ver.setup opts.include_test_rule in
      (check_payload_size host scalar (bytes "base-rules") opts >>= λ _.
      build_conf_files opts scan.conf_paths no_progress >>= λ p.
      data_doc scan.data_paths opts >>= λ doc. ok (
        bundle_of opts scan (inject_namespace_in_base_rule_source_yaml base_yaml opts.namespace) p
          doc))
