-- ===== src/CoreRuleSet/Generate.antt =====
-- tools/corerulesetgen/generate.go, scan.go and write.go. A run is the text on the two streams and the
-- result; an io.Writer is asked for each write with what stands in it.
pub mod Report
pub mod Written
use coraza_kubernetes_operat.Prelude.{
  ◌==◌, ◌||◌, ℕ, zero, suc, ◌+◌, Bool, true, false, not, ◌&&◌, List, [], ◌∷◌, ◌++◌, Option, none,
  some, any, map, length, take, if◌then◌else◌,
}
use coraza_kubernetes_operat.Prelude.Bytes.{Bytes, bytes, bytes_eq, contains, split_byte}
use coraza_kubernetes_operat.Controller.Errors.{GoError, base, wrap, slash}
use coraza_kubernetes_operat.RuleSets.Unsupported.Decimal.{decimal}
use coraza_kubernetes_operat.CoreRuleSet.Strings.{is_empty, join, sort_strings}
use coraza_kubernetes_operat.CoreRuleSet.Paths.{clean, join_path}
use coraza_kubernetes_operat.CoreRuleSet.Options.{
  Outcome, ok, err, ◌>>=◌, errorf, concat, Options, Host,
}
use coraza_kubernetes_operat.CoreRuleSet.Process.{names_data_file, read_error}
use coraza_kubernetes_operat.CoreRuleSet.Validate.{CrsVersion, refuse, parse_crs_version}
use coraza_kubernetes_operat.CoreRuleSet.Build.{
  NamedYaml, BuildStats, ConfFileResult, ManifestBundle, ScanResult, build,
}

-- The loop of Scan over the .conf files, up to the first with @pmFromFile.
unfoldable pub find_pm_from_file : Host → List Bytes → Outcome Bool
find_pm_from_file host [] = ok false
find_pm_from_file host (p ∷ paths) = read_error p (host.read_file p) >>= λ raw.
    if names_data_file raw then ok true else find_pm_from_file host paths

unfoldable pub scan : Host → Bytes → Outcome ScanResult
unfolding find_pm_from_file clean
scan host rules_path = host.glob (join_path rules_path (bytes "*.conf")) >>= λ conf.
    host.glob (join_path rules_path (bytes "*.data")) >>= λ data_files.
    find_pm_from_file host (sort_strings conf) >>= λ refs. ok (record {
      conf_paths = sort_strings conf;
      data_paths = sort_strings data_files;
      pm_from_file_refs = refs;
    })

abbrev or_default : Bytes → Bytes → Bytes
or_default [] d = d
or_default (c ∷ s) d = c ∷ s

unfoldable pub apply_defaults : Options → Options
apply_defaults opts = record opts {
  rule_set_name = or_default opts.rule_set_name (bytes "default-ruleset");
  data_source_name = or_default opts.data_source_name (bytes "coreruleset-data");
}

abbrev check_subdomain : Host → Bytes → Bytes → Outcome (Unit {0})
check_subdomain host label value =
    refuse (host.is_dns1123_subdomain value)
      (bytes "invalid " ∷ label ∷ bytes " " ∷ host.quote value ∷ [])

unfoldable pub validate_resource_names : Host → Options → Outcome (Unit {0})
validate_resource_names host opts =
    check_subdomain host (bytes "ruleset-name") opts.rule_set_name >>= λ _.
    check_subdomain host (bytes "data-source-name") opts.data_source_name >>= λ _.
    if is_empty opts.namespace
    then ok tt
    else refuse (host.is_dns1123_label opts.namespace)
        (bytes "invalid namespace " ∷ host.quote opts.namespace ∷ [])

-- A Write that fails: how many bytes of the text it has written before, and its error.
pub record WriteFailure : Type 0 where
  pub accepted : ℕ
  pub cause : GoError

-- How a write to a stream that already holds a text fails, if it does.
abbrev pub Writer : Type 0
Writer = Bytes → Bytes → Option WriteFailure

-- Writes one after the other, up to the first that fails.
unfoldable pub write_all : Writer → Bytes → List Bytes → Bytes × Option GoError
write_all w out [] = (out, none)
write_all w out (chunk ∷ chunks) = elim (w out chunk) [
  | none ↦ write_all w (out ++ chunk) chunks
  | some f ↦ (out ++ take f.accepted chunk, some f.cause)
]

abbrev document : Bytes → Bytes
document doc = bytes "---\n" ++ doc

-- The writes of WriteManifests.
abbrev pub manifest_chunks : ManifestBundle → List Bytes
manifest_chunks b =
    (b.base_rule_source_yaml ++ bytes "\n")
    ∷ (map (λ (s : NamedYaml). document s.doc) b.extra_rule_sources
        ++ ((if is_empty b.data_rule_data_doc then [] else document b.data_rule_data_doc ∷ [])
            ++ document (b.rule_set_doc ++ bytes "\n") ∷ []))

unfoldable pub write_manifests : Writer → ManifestBundle → Bytes × Option GoError
unfolding write_all
write_manifests w b = write_all w [] (manifest_chunks b)

pub record Result : Type 0 where
  pub rule_source_count : ℕ
  pub has_data_source : Bool
  pub rule_set_name : Bytes
  pub namespace : Bytes

-- What Generate plans before it writes to stdout.
pub record Plan : Type 0 where
  pub rules_path : Bytes
  pub version : CrsVersion
  pub files : ScanResult
  pub bundle : ManifestBundle

abbrev directory_error : Outcome Bool → Outcome Bool
directory_error (ok b) = ok b
directory_error (err e) = err (wrap (bytes "rules directory: ") e)

abbrev must_be_directory : Bytes → Bool → Outcome (Unit {0})
must_be_directory path is_dir =
    if is_dir then ok tt else errorf (bytes "path is not a directory: " ∷ path ∷ [])

unfoldable pub plan : Host → Options → Outcome Plan
unfolding clean
plan host opts = parse_crs_version host opts.version >>= λ ver.
    let path = clean opts.rules_dir in
    (directory_error (host.stat_is_dir path) >>= must_be_directory path >>= λ _.
    scan host path >>= λ files. build host opts files ver >>= λ bundle.
    ok (record { rules_path = path; version = ver; files = files; bundle = bundle }))
