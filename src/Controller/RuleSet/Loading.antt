-- ===== src/Controller/RuleSet/Loading.antt =====
-- internal/controller/ruleset_controller_rule_aggregation.go: loadData, loadSources and
-- validateRuleSourceRules.
use coraza_kubernetes_operat.Prelude.{Bool, Option, none, some, List, [], ◌∷◌, ◌++◌, if◌then◌else◌}
use coraza_kubernetes_operat.Prelude.Bytes.{Bytes, bytes, bytes_eq}
use coraza_kubernetes_operat.Prelude.Assoc.{Assoc, insert}
use coraza_kubernetes_operat.Controller.Conditions.{ConditionList, Cause}
use coraza_kubernetes_operat.Controller.Errors.{
  GoError, wrap, sanitize_error_message, should_skip_missing_file_error,
}
use coraza_kubernetes_operat.Controller.RuleSet.{
  RuleSet, RuleSource, Fetched, found, missing, failed, Cluster, World, Chance, get_annotation,
  patch_degraded,
}

-- The loops of loadData and loadSources stop at the first object that they do not get.
pub data Fetching {ℓ} (A : Type ℓ) : Type ℓ where
  fetched : List (Bytes × A) → Fetching A
  not_found : Bytes → Fetching A
  no_access : Bytes → GoError → Fetching A

abbrev add_fetched {ℓ} : {A : Type ℓ} → Bytes → Fetched A → Fetching A → Fetching A
add_fetched name (found a) (fetched objs) = fetched ((name, a) ∷ objs)
add_fetched name (found a) rest = rest
add_fetched name missing rest = not_found name
add_fetched name (failed e) rest = no_access name e

abbrev pub fetch_all {ℓ} : {A : Type ℓ} → (Bytes → Fetched A) → List Bytes → Fetching A
fetch_all get [] = fetched []
fetch_all get (name ∷ names) = add_fetched name (get name) (fetch_all get names)

-- `stopped` is the end of the reconciliation with an error, or with none.
pub data Step {ℓ} (A : Type ℓ) : Type ℓ where
  loaded : A → Step A
  stopped : Option GoError → Step A

-- for k, v := range rd.Spec.Files
abbrev add_files : Assoc Bytes → Assoc Bytes → Assoc Bytes
add_files [] files = files
add_files ((k, v) ∷ rest) files = add_files rest (insert k v files)

abbrev pub merge_files : List (Bytes × Assoc Bytes) → Assoc Bytes → Assoc Bytes
merge_files [] files = files
merge_files ((_, more) ∷ rest) files = merge_files rest (add_files more files)

abbrev pub join_rules : List (Bytes × RuleSource) → Bytes
join_rules [] = []
join_rules ((_, s) ∷ []) = s.rules
join_rules ((_, s) ∷ t ∷ rest) = s.rules ++ (bytes "\n" ++ join_rules (t ∷ rest))

-- The files that individual sources are checked with: none where there are no files.
abbrev pub data_map : Option (Assoc Bytes) → Option (Assoc Bytes)
data_map (some (f ∷ files)) = some (f ∷ files)
data_map _ = none

abbrev add_error : Option GoError → List GoError → List GoError
add_error none errors = errors
add_error (some e) errors = e ∷ errors

abbrev skip_validation : RuleSource → Bool
skip_validation s =
    bytes_eq (get_annotation (bytes "coraza.io/validation") s.source_annotations) (bytes "false")

-- The cause of a status for a RuleSet, and the instants at which it is set.
abbrev pub cause_of : RuleSet → Chance → Bytes → Bytes → Cause
cause_of rs at reason message = record {
  generation = rs.generation;
  reason = reason;
  message = message;
  first = at.first;
  second = at.second;
}

-- An error of the patch takes the place of the error that is reported.
abbrev pub stop_after {ℓ} : {A : Type ℓ} → Option GoError × World → Option GoError → Step A × World
stop_after (some patch_err, w) e = (stopped (some patch_err), w)
stop_after (none, w) e = (stopped e, w)

module _ (api : ConditionList) (cluster : Cluster) (at : Chance) (rs : RuleSet) where
  abbrev missing_message : Bytes → Bytes → Bytes
  missing_message kind name =
      bytes "Referenced " ++ (kind ++ (bytes " " ++ (name ++ bytes " does not exist")))

  abbrev access_message : Bytes → Bytes → GoError → Bytes
  access_message kind name e =
      bytes "Failed to access " ++ (kind ++ (bytes " " ++ (name ++ (bytes ": " ++ e.text))))

  abbrev pub report {ℓ κ} :
      {A : Type ℓ}
      → {B : Type κ} → Bytes
      → (List (Bytes × A) → B)
      → Fetching A
      → World
      → Step B × World
  report kind use_all (fetched objs) w = (loaded (use_all objs), w)
  report kind use_all (not_found name) w =
      stop_after
        (patch_degraded api cluster.patch_status
          (cause_of rs at (kind ++ bytes "NotFound") (missing_message kind name)) w)
        none
  report kind use_all (no_access name e) w =
      stop_after
        (patch_degraded api cluster.patch_status
          (cause_of rs at (kind ++ bytes "AccessError") (access_message kind name e)) w)
        (some e)

  abbrev pub load_named_data : List Bytes → World → Step (Option (Assoc Bytes)) × World
  load_named_data [] w = (loaded none, w)
  load_named_data (name ∷ names) w =
      report (bytes "RuleData") (λ objs. some (merge_files objs []))
        (fetch_all cluster.get_rule_data (name ∷ names)) w

  -- The files, or `none` for a nil map.
  unfoldable pub load_data : World → Step (Option (Assoc Bytes)) × World
  load_data w = load_named_data rs.data_sources w

  abbrev checked : Bytes → Option (Assoc Bytes) → Option GoError → Option GoError
  checked name data_files none = none
  checked name data_files (some e) =
      if should_skip_missing_file_error e data_files
      then none
      else some (
          wrap (bytes "RuleSource " ++ (name ++ bytes " doesn't contain valid rules: "))
            (sanitize_error_message e))

  -- Without a root file system, even where there are files.
  unfoldable pub validate_rule_source_rules : Bytes → Bytes → Option (Assoc Bytes) → Option GoError
  validate_rule_source_rules rules name data_files =
      checked name data_files (cluster.new_waf rules none)

  abbrev pub source_errors : Option (Assoc Bytes) → List (Bytes × RuleSource) → List GoError
  source_errors data_files [] = []
  source_errors data_files ((name, s) ∷ rest) =
      let errors = source_errors data_files rest in
      if skip_validation s
      then errors
      else add_error (validate_rule_source_rules s.rules name data_files) errors

  -- The rules, joined by line feeds, and the errors of the sources.
  unfoldable pub load_sources : Option (Assoc Bytes) → World → Step (Bytes × List GoError) × World
  load_sources data_files w =
      report (bytes "RuleSource")
        (λ objs. (join_rules objs, source_errors (data_map data_files) objs))
        (fetch_all cluster.get_rule_source rs.sources) w
