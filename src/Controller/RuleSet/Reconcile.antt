-- ===== src/Controller/RuleSet/Reconcile.antt =====
-- internal/controller/ruleset_controller.go, ruleset_controller_validation.go and
-- ruleset_controller_cache.go: Reconcile and its steps after the loading.
use coraza_kubernetes_operat.Prelude.{Bool, Option, none, some, List, [], ◌∷◌, ◌++◌, if◌then◌else◌}
use coraza_kubernetes_operat.Prelude.Bytes.{Bytes, bytes, bytes_eq}
use coraza_kubernetes_operat.Prelude.Assoc.{Assoc}
use coraza_kubernetes_operat.Cache.Store.{put}
use coraza_kubernetes_operat.RuleSets.Unsupported.Registry.{UnsupportedRule}
use coraza_kubernetes_operat.RuleSets.Unsupported.Check.{
  check_unsupported_rules, format_unsupported_message,
}
use coraza_kubernetes_operat.Controller.Conditions.{
  Condition, ConditionList, condition_ready, apply_status_progressing,
}
use coraza_kubernetes_operat.Controller.Errors.{
  GoError, sanitize_error_message, build_cache_ready_message, slash,
}
use coraza_kubernetes_operat.Controller.RuleSet.{
  RuleSet, Fetched, found, missing, failed, Cluster, World, Chance, get_annotation, patch_degraded,
  patch_ready, patched, emit, warning,
}
use coraza_kubernetes_operat.Controller.RuleSet.Loading.{
  Step, loaded, stopped, stop_after, cause_of, load_data, load_sources,
}

abbrev pub next {ℓ κ} :
    {A : Type ℓ} → {B : Type κ} → Step A × World → (A → World → Step B × World) → Step B × World
next (loaded a, w) f = f a w
next (stopped e, w) f = (stopped e, w)

-- One event per source with an error.
abbrev pub emit_invalid : List GoError → World → World
emit_invalid [] w = w
emit_invalid (e ∷ es) w = emit_invalid es (emit w warning (bytes "InvalidRuleSource") e.text)

abbrev pub add_texts : Bytes → List GoError → Bytes
add_texts msg [] = msg
add_texts msg (e ∷ es) = add_texts (msg ++ (bytes "\n" ++ e.text)) es

abbrev pub skips_unsupported_check : RuleSet → Bool
skips_unsupported_check rs =
    bytes_eq
      (get_annotation (bytes "waf.k8s.coraza.io/skip-unsupported-rules-check") rs.annotations)
      (bytes "true")

abbrev pub cache_key : RuleSet → Bytes
cache_key rs = rs.namespace ++ slash ∷ rs.name

module _ (api : ConditionList) (cluster : Cluster) (at : Chance) (rs : RuleSet) where
  abbrev pub of_patch : Option GoError × World → Step {0} Unit × World
  of_patch (none, w) = (loaded tt, w)
  of_patch (some e, w) = (stopped (some e), w)

  abbrev pub initialize_unless : Option Condition → World → Step {0} Unit × World
  initialize_unless (some ready) w = (loaded tt, w)
  initialize_unless none w =
      let after = apply_status_progressing api w.conditions (record {
        generation = rs.generation;
        reason = bytes "Reconciling";
        message = bytes "Starting reconciliation";
        first = at.init_first;
        second = at.init_second;
      }) in
      of_patch (patched api cluster.patch_status after (cluster.patch_status after) w)

  unfoldable pub initialize_status : World → Step {0} Unit × World
  initialize_status w = initialize_unless (api.find w.conditions condition_ready) w

  abbrev pub judge : List GoError → Option GoError → World → Step {0} Unit × World
  judge errors none w = (loaded tt, w)
  judge errors (some e) w =
      let message =
        add_texts (bytes "Ruleset is invalid\n" ++ (sanitize_error_message e).text) errors in
      stop_after
        (patch_degraded api cluster.patch_status (cause_of rs at (bytes "InvalidRuleSet") message)
          (emit_invalid errors w))
        (some (sanitize_error_message e))

  unfoldable pub validate_aggregated_rules :
      Bytes → Option (Assoc Bytes) → List GoError → World → Step {0} Unit × World
  validate_aggregated_rules rules data_files errors w =
      judge errors (cluster.new_waf rules data_files) w

  abbrev pub reject : List UnsupportedRule → World → Step Bytes × World
  reject [] w = (loaded [], w)
  reject (r ∷ unsupported) w =
      let message = format_unsupported_message (r ∷ unsupported) in
      if skips_unsupported_check rs
      then (loaded message, emit w warning (bytes "UnsupportedRules") message)
      else stop_after
          (patch_degraded api cluster.patch_status
            (cause_of rs at (bytes "UnsupportedRules") message) w)
          none

  -- The message is empty unless the annotation overrides the check.
  unfoldable pub reject_unsupported_rules : Bytes → World → Step Bytes × World
  reject_unsupported_rules rules w = reject (check_unsupported_rules rules) w

  unfoldable pub cache_rules : Bytes → Option (Assoc Bytes) → Bytes → World → Option GoError × World
  cache_rules rules data_files unsupported_msg w =
      patch_ready api cluster.patch_status
        (cause_of rs at (bytes "RulesCached")
          (build_cache_ready_message rs.namespace rs.name unsupported_msg))
        (record w { cache = put w.cache (cache_key rs) rules data_files at.uuid at.put_at })

  abbrev pub as_step : Option GoError × World → Step {0} Unit × World
  as_step (e, w) = (stopped e, w)

  abbrev pub with_rules :
      Option (Assoc Bytes) → Bytes × List GoError → World → Step {0} Unit × World
  with_rules data_files (rules, errors) w =
      next (validate_aggregated_rules rules data_files errors w) λ _ w.
        next (reject_unsupported_rules rules w)
          λ unsupported_msg w. as_step (cache_rules rules data_files unsupported_msg w)

  -- Reconcile from the point where it has the RuleSet.
  unfoldable pub reconcile_found : World → Step {0} Unit × World
  unfolding initialize_status validate_aggregated_rules reject_unsupported_rules cache_rules
  reconcile_found w = next (initialize_status w) λ _ w.
      next (load_data api cluster at rs w) λ data_files w.
        next (load_sources api cluster at rs data_files w) λ rules w. with_rules data_files rules w

abbrev pub ended : Step {0} Unit × World → Option GoError × World
ended (loaded _, w) = (none, w)
ended (stopped e, w) = (e, w)

module _ (api : ConditionList) (cluster : Cluster) (at : Chance) where
  abbrev pub reconcile_fetched : Fetched RuleSet → World → Option GoError × World
  reconcile_fetched missing w = (none, w)
  reconcile_fetched (failed e) w = (some e, w)
  reconcile_fetched (found rs) w = ended (reconcile_found api cluster at rs w)

  unfoldable pub reconcile : World → Option GoError × World
  unfolding reconcile_found
  reconcile w = reconcile_fetched cluster.get_rule_set w
