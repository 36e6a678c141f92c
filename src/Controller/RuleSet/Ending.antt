-- ===== src/Controller/RuleSet/Ending.antt =====
-- The end of a reconciliation.
use coraza_kubernetes_operat.Prelude.{Option, none, some, List, ◌≡◌, inl, inr, refl, subst, sym, ap}
use coraza_kubernetes_operat.Prelude.Bytes.{Bytes, bytes}
use coraza_kubernetes_operat.Prelude.Assoc.{Assoc}
use coraza_kubernetes_operat.Cache.Store.{put}
use coraza_kubernetes_operat.Controller.Conditions.{
  Condition, ConditionList, Cause, apply_status_ready,
}
use coraza_kubernetes_operat.Controller.Conditions.Phases.{apply_status_ready-IsReady}
use coraza_kubernetes_operat.Controller.Errors.{build_cache_ready_message, GoError}
use coraza_kubernetes_operat.Controller.RuleSet.{
  normal, RuleSet, found, Cluster, World, Chance, patch_ready, patched, emit,
}
use coraza_kubernetes_operat.Controller.RuleSet.Loading.{Step, loaded, stopped, cause_of}
use coraza_kubernetes_operat.Controller.RuleSet.Reconcile.{
  next, cache_key, reconcile, reconcile_found, ended, reconcile_fetched, cache_rules, as_step,
}
use coraza_kubernetes_operat.Controller.RuleSet.Outcome.{
  Fails, Accepted, Keeps, Ends, ends_kept, ends_cached, EndsStep, ReadySince,
}
use coraza_kubernetes_operat.Controller.RuleSet.Keeping.{
  HasFiles, HasRules, IsSupported, initialize_status-Keeps, load_data-Keeps, load_sources-Keeps,
  validate_aggregated_rules-Keeps, reject_unsupported_rules-Keeps,
}

module _ (api : ConditionList) (cluster : Cluster) (at : Chance) (rs : RuleSet) where
  cache_rules-Ends :
      (files : Option (Assoc Bytes)) (rules msg : Bytes) (v w : World)
      → w.cache ≡ v.cache
      → Accepted cluster rs files rules
      → EndsStep api cluster at rs v
          (as_step api cluster at rs (cache_rules api cluster at rs rules files msg w))
  unfolding Fails cache_rules patch_ready EndsStep ReadySince
  cache_rules-Ends files rules msg v w h accepted = go (cluster.patch_status after)
    where
      w' : World
      w' = record w { cache = put w.cache (cache_key rs) rules files at.uuid at.put_at }

      cause : Cause
      cause =
          cause_of rs at (bytes "RulesCached") (build_cache_ready_message rs.namespace rs.name msg)

      after : List Condition
      after = apply_status_ready api w.conditions cause

      same :
          put w.cache (cache_key rs) rules files at.uuid at.put_at
          ≡ put v.cache (cache_key rs) rules files at.uuid at.put_at
      same = ap (λ c. put c (cache_key rs) rules files at.uuid at.put_at) h

      go :
          (o : Option GoError)
          → EndsStep api cluster at rs v (
              as_step api cluster at rs (
                patched api cluster.patch_status after o
                  (emit w' normal cause.reason cause.message)))
      go (some e) = ends_cached files rules accepted same (inl (e, refl))
      go none =
          ends_cached files rules accepted same
            (inr (cause.message, apply_status_ready-IsReady api w.conditions cause))

  next-EndsStep :
      {A : Type 0} (P : A → Type 0) (v : World) (s : Step A × World)
      (f : A → World → Step {0} Unit × World)
      → Keeps api at rs P v s
      → ((a : A) (w : World) → w.cache ≡ v.cache → P a → EndsStep api cluster at rs v (f a w))
      → EndsStep api cluster at rs v (next s f)
  unfolding Fails Keeps EndsStep
  next-EndsStep P v (loaded a, w) f k h = h a w k.0 k.1
  next-EndsStep P v (stopped none, w) f k h = ends_kept k.0 (inr k.1)
  next-EndsStep P v (stopped (some e), w) f k h = ends_kept k (inl (e, refl))

  reconcile_found-EndsStep :
      (v : World) → EndsStep api cluster at rs v (reconcile_found api cluster at rs v)
  unfolding reconcile_found HasRules HasFiles IsSupported
  reconcile_found-EndsStep v =
      next-EndsStep (λ _. Unit) v _ _ (initialize_status-Keeps api cluster at rs v)
        λ _ w h _.
          next-EndsStep (HasFiles api cluster at rs) v _ _ (load_data-Keeps api cluster at rs v w h)
            λ files w h has_files.
              next-EndsStep (HasRules api cluster at rs) v _ _
                (load_sources-Keeps api cluster at rs files v w h)
                λ (rules, errors) w h has_rules.
                  next-EndsStep (λ _. cluster.new_waf rules files ≡ none) v _ _
                    (validate_aggregated_rules-Keeps api cluster at rs rules files errors v w h)
                    λ _ w h is_valid.
                      next-EndsStep (λ _. IsSupported api cluster at rs rules) v _ _
                        (reject_unsupported_rules-Keeps api cluster at rs rules v w h)
                        λ msg w h is_supported. cache_rules-Ends files rules msg v w h (record {
                          has_files = has_files;
                          has_rules = has_rules;
                          is_valid = is_valid;
                          is_supported = is_supported;
                        })

-- A reconciliation that finds the RuleSet ends in one of two ways. Either the cache is as it was,
-- and without an error the RuleSet is degraded for this generation. Or the cache has taken, by one Put
-- under namespace/name, the rules of all the sources joined in order and the merged files of all the
-- data, which Coraza accepts and which have no unsupported rule unless the annotation skips that
-- check, and without an error the RuleSet is ready for this generation.
pub reconcile-Ends :
    (api : ConditionList) (cluster : Cluster) (at : Chance) (rs : RuleSet) (w : World)
    → cluster.get_rule_set ≡ found rs
    → Ends api cluster at rs w (reconcile api cluster at w).1 (reconcile api cluster at w).0
unfolding reconcile EndsStep
reconcile-Ends api cluster at rs w h =
    subst
      (λ f.
        Ends api cluster at rs w (reconcile_fetched api cluster at f w).1
          (reconcile_fetched api cluster at f w).0)
      (sym h)
      (go (reconcile_found api cluster at rs w) (reconcile_found-EndsStep api cluster at rs w))
  where
    go :
        (s : Step {0} Unit × World)
        → EndsStep api cluster at rs w s
        → Ends api cluster at rs w (ended s).1 (ended s).0
    go (stopped e, w') k = k
    go (loaded _, w') k = absurd k
