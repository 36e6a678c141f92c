-- ===== src/Controller/RuleSet/Keeping.antt =====
-- The steps before the caching leave the cache as it was.
use coraza_kubernetes_operat.Prelude.{
  Bool, true, false, Option, none, some, List, [], ◌∷◌, ◌≡◌, ◌⊎◌, inl, inr, refl, ◌∙◌, ap,
  if◌then◌else◌,
}
use coraza_kubernetes_operat.Prelude.Bytes.{Bytes, bytes}
use coraza_kubernetes_operat.Prelude.Assoc.{Assoc}
use coraza_kubernetes_operat.RuleSets.Unsupported.Registry.{UnsupportedRule}
use coraza_kubernetes_operat.RuleSets.Unsupported.Check.{
  check_unsupported_rules, format_unsupported_message,
}
use coraza_kubernetes_operat.Controller.Conditions.{
  Condition, ConditionList, condition_ready, apply_status_condition_degraded,
}
use coraza_kubernetes_operat.Controller.Conditions.Phases.{
  apply_status_condition_degraded-IsDegraded,
}
use coraza_kubernetes_operat.Controller.Errors.{GoError}
use coraza_kubernetes_operat.Controller.RuleSet.{
  RuleSet, RuleSource, Cluster, World, Chance, patch_degraded, patched, emit, warning,
}
use coraza_kubernetes_operat.Controller.RuleSet.Loading.{
  loaded, stop_after, cause_of, load_data, load_sources, load_named_data, Fetching, fetched,
  not_found, no_access, fetch_all, merge_files, join_rules, report,
}
use coraza_kubernetes_operat.Controller.RuleSet.Reconcile.{
  skips_unsupported_check, initialize_status, validate_aggregated_rules, reject_unsupported_rules,
  of_patch, initialize_unless, emit_invalid, judge, reject,
}
use coraza_kubernetes_operat.Controller.RuleSet.Outcome.{Keeps, DegradedSince}

module _ (api : ConditionList) (cluster : Cluster) (at : Chance) (rs : RuleSet) where
  patch_degraded-Keeps :
      {A : Type 0} (P : A → Type 0) (reason message : Bytes) (v w : World) (e : Option GoError)
      → w.cache ≡ v.cache
      → Keeps api at rs P v
          (stop_after (patch_degraded api cluster.patch_status (cause_of rs at reason message) w) e)
  unfolding patch_degraded Keeps DegradedSince
  patch_degraded-Keeps {A} P reason message v w e h =
      go
        (cluster.patch_status
          (apply_status_condition_degraded api w.conditions (cause_of rs at reason message)))
        e
    where
      go :
          (o : Option GoError) (e : Option GoError)
          → Keeps api at rs P v (
              stop_after
                (patched api cluster.patch_status
                  (apply_status_condition_degraded api w.conditions (cause_of rs at reason message))
                  o
                  (emit w warning reason message))
                e)
      go (some _) e = h
      go none (some _) = h
      go none none =
          (h, (reason, message, apply_status_condition_degraded-IsDegraded api w.conditions _))

  report-Keeps :
      {A B : Type 0} (P : B → Type 0) (kind : Bytes) (use_all : List (Bytes × A) → B)
      (all : Fetching A) (v w : World)
      → w.cache ≡ v.cache
      → ((objs : List (Bytes × A)) → all ≡ fetched objs → P (use_all objs))
      → Keeps api at rs P v (report api cluster at rs kind use_all all w)
  unfolding Keeps
  report-Keeps P kind use_all (fetched objs) v w h hp = (h, hp objs refl)
  report-Keeps P kind use_all (not_found name) v w h hp = patch_degraded-Keeps P _ _ v w none h
  report-Keeps P kind use_all (no_access name e) v w h hp =
      patch_degraded-Keeps P _ _ v w (some e) h

  unfoldable pub HasFiles : Option (Assoc Bytes) → Type 0
  HasFiles files =
      ((rs.data_sources ≡ []) × (files ≡ none))
      ⊎ ((objs : List (Bytes × Assoc Bytes)) × (fetch_all cluster.get_rule_data rs.data_sources
            ≡ fetched objs)
          × (files ≡ some (merge_files objs [])))

  pub load_data-Keeps :
      (v w : World) → w.cache ≡ v.cache → Keeps api at rs HasFiles v (load_data api cluster at rs w)
  unfolding load_data Keeps HasFiles
  load_data-Keeps v w h = go rs.data_sources refl
    where
      go :
          (names : List Bytes)
          → rs.data_sources ≡ names
          → Keeps api at rs HasFiles v (load_named_data api cluster at rs names w)
      go [] e = (h, inl (e, refl))
      go (name ∷ names) e =
          report-Keeps HasFiles (bytes "RuleData") _
            (fetch_all cluster.get_rule_data (name ∷ names)) v w h
            λ objs f. inr (objs, ap (fetch_all cluster.get_rule_data) e ∙ f, refl)

  unfoldable pub HasRules : Bytes × List GoError → Type 0
  HasRules (rules, errors) =
      (objs : List (Bytes × RuleSource)) × (fetch_all cluster.get_rule_source rs.sources
        ≡ fetched objs)
      × (rules ≡ join_rules objs)

  pub load_sources-Keeps :
      (files : Option (Assoc Bytes)) (v w : World)
      → w.cache ≡ v.cache
      → Keeps api at rs HasRules v (load_sources api cluster at rs files w)
  unfolding load_sources HasRules
  load_sources-Keeps files v w h =
      report-Keeps HasRules (bytes "RuleSource") _ (fetch_all cluster.get_rule_source rs.sources) v
        w h λ objs f. (objs, f, refl)

  pub initialize_status-Keeps :
      (w : World) → Keeps api at rs (λ _. Unit) w (initialize_status api cluster at rs w)
  unfolding initialize_status Keeps
  initialize_status-Keeps w = go (api.find w.conditions condition_ready)
    where
      patch :
          (after : List Condition) (o : Option GoError)
          → Keeps api at rs
              (λ _. Unit)
              w
              (of_patch api cluster at rs (patched api cluster.patch_status after o w))
      patch after (some e) = refl
      patch after none = (refl, tt)

      go :
          (o : Option Condition)
          → Keeps api at rs (λ _. Unit) w (initialize_unless api cluster at rs o w)
      go (some c) = (refl, tt)
      go none = patch _ (cluster.patch_status _)

  emit_invalid-cache : (errors : List GoError) (w : World) → (emit_invalid errors w).cache ≡ w.cache
  emit_invalid-cache [] w = refl
  emit_invalid-cache (e ∷ es) w =
      emit_invalid-cache es (emit w warning (bytes "InvalidRuleSource") e.text)

  pub validate_aggregated_rules-Keeps :
      (rules : Bytes) (files : Option (Assoc Bytes)) (errors : List GoError) (v w : World)
      → w.cache ≡ v.cache
      → Keeps api at rs
          (λ _. cluster.new_waf rules files ≡ none)
          v
          (validate_aggregated_rules api cluster at rs rules files errors w)
  unfolding validate_aggregated_rules Keeps
  validate_aggregated_rules-Keeps rules files errors v w h = go (cluster.new_waf rules files) refl
    where
      go :
          (o : Option GoError)
          → cluster.new_waf rules files ≡ o
          → Keeps api at rs
              (λ _. cluster.new_waf rules files ≡ none)
              v
              (judge api cluster at rs errors o w)
      go none e = (h, e)
      go (some err) e =
          patch_degraded-Keeps (λ _. cluster.new_waf rules files ≡ none) _ _ v _ _
            (emit_invalid-cache errors w ∙ h)

  unfoldable pub IsSupported : Bytes → Type 0
  IsSupported rules = (check_unsupported_rules rules ≡ []) ⊎ (skips_unsupported_check rs ≡ true)

  pub reject_unsupported_rules-Keeps :
      (rules : Bytes) (v w : World)
      → w.cache ≡ v.cache
      → Keeps api at rs
          (λ _. IsSupported rules)
          v
          (reject_unsupported_rules api cluster at rs rules w)
  unfolding reject_unsupported_rules Keeps IsSupported
  reject_unsupported_rules-Keeps rules v w h = go (check_unsupported_rules rules) refl
    where
      go :
          (rules' : List UnsupportedRule)
          → check_unsupported_rules rules ≡ rules'
          → Keeps api at rs (λ _. IsSupported rules) v (reject api cluster at rs rules' w)
      go [] e = (h, inl e)
      go (r ∷ rules') e = choose (skips_unsupported_check rs) refl
        where
          message : Bytes
          message = format_unsupported_message (r ∷ rules')

          choose :
              (skips : Bool)
              → skips_unsupported_check rs ≡ skips
              → Keeps api at rs
                  (λ _. IsSupported rules)
                  v
                  (if skips
                    then (loaded message, emit w warning (bytes "UnsupportedRules") message)
                    else stop_after
                        (patch_degraded api cluster.patch_status
                          (cause_of rs at (bytes "UnsupportedRules") message)
                          w)
                        none)
          choose true skips = (h, inr skips)
          choose false skips = patch_degraded-Keeps (λ _. IsSupported rules) _ _ v w none h
