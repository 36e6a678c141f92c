-- ===== src/CoreRuleSet/Generate/Report.antt =====
-- tools/corerulesetgen/generate.go: Generate with its text on stderr, and writeGenerateSummary.
use coraza_kubernetes_operat.Prelude.{
  ℕ, zero, suc, ◌+◌, Bool, true, false, not, ◌&&◌, [], ◌∷◌, ◌++◌, Option, none, some, map, length,
  if◌then◌else◌,
}
use coraza_kubernetes_operat.Prelude.Bytes.{Bytes, bytes}
use coraza_kubernetes_operat.Controller.Errors.{GoError, base}
use coraza_kubernetes_operat.RuleSets.Unsupported.Decimal.{decimal}
use coraza_kubernetes_operat.CoreRuleSet.Strings.{is_empty}
use coraza_kubernetes_operat.CoreRuleSet.Options.{Outcome, ok, err, concat, Options, Host}
use coraza_kubernetes_operat.CoreRuleSet.Build.{BuildStats, ConfFileResult}
use coraza_kubernetes_operat.CoreRuleSet.Generate.{
  apply_defaults, validate_resource_names, Writer, write_manifests, Result, Plan, plan,
}

abbrev rule_line : ℕ → Bytes
rule_line zero = []
rule_line (suc n) = b'=' ∷ rule_line n

unfoldable pub write_generate_summary : Bool → Bool → BuildStats → ℕ → ℕ → Bytes → Bytes
write_generate_summary pm_from_file_refs no_data_files stats rule_source_count data_file_count
      data_source_name =
    concat (
      (if pm_from_file_refs && no_data_files
        then bytes
            "warning: @pmFromFile references found under the rules directory but no .data files were emitted into a RuleData; add matching .data files or use --ignore-pmFromFile if the operator should not load pmFromFile data.\n"
        else [])
      ∷ bytes "\n"
      ∷ rule_line 60
      ∷ bytes "\nSummary:\n  Base rules: 1 (bundled)\n  Processed: "
      ∷ decimal stats.processed
      ∷ bytes " rule files\n  Skipped: "
      ∷ decimal stats.skipped
      ∷ bytes " rule files\n  Total RuleSources: "
      ∷ decimal (rule_source_count + 1)
      ∷ bytes "\n  Data files: "
      ∷ decimal data_file_count
      ∷ bytes "\n"
      ∷ (elim data_file_count [
        | zero ↦ []
        | suc n ↦ concat (bytes "  RuleData: " ∷ data_source_name ∷ bytes "\n" ∷ [])
      ])
      ∷ rule_line 60
      ∷ bytes "\n\n"
      ∷ [])

abbrev report_file : ConfFileResult → Bytes
report_file r = concat (
    bytes "Processing: "
    ∷ r.base_name
    ∷ bytes "\n"
    ∷ concat r.warns
    ∷ (if not (is_empty r.yaml)
        then concat (bytes "  [ok] Generated RuleSource: " ∷ r.source_name ∷ bytes "\n" ∷ [])
        else concat (bytes "  [skip] Skipped: " ∷ r.skip_reason ∷ bytes "\n" ∷ []))
    ∷ [])

abbrev report_data_file : Options → Bytes → Bytes
report_data_file opts p = concat (
    bytes "Processing: "
    ∷ base p
    ∷ bytes "\n  [ok] Added to RuleData: "
    ∷ opts.data_source_name
    ∷ bytes "\n"
    ∷ [])

abbrev count_line : Bytes → ℕ → Bytes → Bytes
count_line kind n path =
    concat
      (bytes "Found " ∷ decimal n ∷ bytes " " ∷ kind ∷ bytes " files in " ∷ path ∷ bytes "\n" ∷ [])

-- What Generate prints before it writes the manifests.
unfoldable pub report : Options → Plan → Bytes
unfolding write_generate_summary
report opts p =
    let data_paths = p.files.data_paths in
    let confs = length p.files.conf_paths in
    concat (
      count_line (bytes ".conf") confs p.rules_path
      ∷ (if is_empty data_paths
          then []
          else count_line (bytes ".data") (length data_paths) p.rules_path)
      ∷ bytes "\nProcessing "
      ∷ decimal confs
      ∷ bytes " rule files...\n\n"
      ∷ concat (map report_file p.bundle.conf_file_results)
      ∷ (if is_empty data_paths
          then []
          else concat (
              bytes "\nProcessing "
              ∷ decimal (length data_paths)
              ∷ bytes " data files...\n\n"
              ∷ map (report_data_file opts) data_paths))
      ∷ write_generate_summary (p.files.pm_from_file_refs && not opts.ignore_pm_from_file)
          (is_empty data_paths) p.bundle.stats (length p.bundle.extra_rule_sources)
          (length data_paths) opts.data_source_name
      ∷ [])

abbrev show_bool : Bool → Bytes
show_bool true = bytes "true"
show_bool false = bytes "false"

abbrev last_line : Host → Options → Plan → Bytes
last_line host opts p = concat (
    bytes "generated RuleSet "
    ∷ host.quote opts.rule_set_name
    ∷ (if is_empty opts.namespace then [] else bytes " in namespace " ++ host.quote opts.namespace)
    ∷ bytes ": "
    ∷ decimal (length p.bundle.extra_rule_sources + 1)
    ∷ bytes " RuleSource(s), dataSource="
    ∷ show_bool (not (is_empty p.files.data_paths))
    ∷ bytes "\n"
    ∷ [])

-- A run: what stands on stdout, what is written to stderr, where the code drops errors, and what
-- Generate returns.
pub record Run : Type 0 where
  pub stdout : Bytes
  pub stderr : Bytes
  pub result : Outcome Result

abbrev pub result_of : Options → Plan → Result
result_of opts p = record {
  rule_source_count = length p.bundle.extra_rule_sources + 1;
  has_data_source = not (is_empty p.files.data_paths);
  rule_set_name = opts.rule_set_name;
  namespace = opts.namespace;
}

unfoldable pub after_write : Host → Options → Plan → Bytes → Bytes × Option GoError → Run
after_write host opts p log (out, some e) = record { stdout = out; stderr = log; result = err e }
after_write host opts p log (out, none) = record {
  stdout = out;
  stderr = log ++ last_line host opts p;
  result = ok (result_of opts p);
}

unfoldable pub after_plan : Host → Writer → Options → Bytes → Outcome Plan → Run
unfolding after_write report
after_plan host w opts log (err e) = record { stdout = []; stderr = log; result = err e }
after_plan host w opts log (ok p) =
    after_write host opts p (log ++ report opts p) (write_manifests w p.bundle)

abbrev dry_run_note : Options → Bytes
dry_run_note opts = if opts.dry_run then bytes "dry-run: no objects sent to cluster\n" else []

unfoldable pub after_names : Host → Writer → Options → Outcome (Unit {0}) → Run
unfolding after_plan
after_names host w opts (err e) = record { stdout = []; stderr = []; result = err e }
after_names host w opts (ok _) = after_plan host w opts (dry_run_note opts) (plan host opts)

unfoldable pub generate : Host → Writer → Options → Run
unfolding after_names
generate host w given =
    let opts = apply_defaults given in after_names host w opts (validate_resource_names host opts)
