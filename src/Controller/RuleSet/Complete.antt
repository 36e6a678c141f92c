-- ===== src/Controller/RuleSet/Complete.antt =====
-- When a reconciliation succeeds.
use coraza_kubernetes_operat.Prelude.{
  ◌⊎◌, ◌∙◌, refl, Option, none, some, List, ◌≡◌, refl, subst, sym, ap,
}
use coraza_kubernetes_operat.Prelude.Bytes.{Bytes, bytes}
use coraza_kubernetes_operat.Prelude.Assoc.{Assoc}
use coraza_kubernetes_operat.Cache.Store.{put}
use coraza_kubernetes_operat.Controller.Conditions.{
  Condition, ConditionList, Cause, apply_status_ready,
}
use coraza_kubernetes_operat.Controller.Conditions.Phases.{apply_status_ready-IsReady}
use coraza_kubernetes_operat.Controller.Errors.{build_cache_ready_message, GoError}
use coraza_kubernetes_operat.Controller.RuleSet.{
  RuleSource, normal, RuleSet, found, Cluster, World, Chance, patch_ready, patched, emit,
}
use coraza_kubernetes_operat.Controller.RuleSet.Loading.{
  join_rules, Step, loaded, stopped, cause_of,
}
use coraza_kubernetes_operat.Controller.RuleSet.Reconcile.{
  skips_unsupported_check, cache_key, reconcile, reconcile_found, ended, reconcile_fetched,
  cache_rules, as_step,
}
use coraza_kubernetes_operat.Controller.RuleSet.Outcome.{ReadySince}
use coraza_kubernetes_operat.RuleSets.Unsupported.Check.{check_unsupported_rules}
use coraza_kubernetes_operat.Prelude.{List, [], true}
use coraza_kubernetes_operat.Controller.RuleSet.{patched, emit, normal}
use coraza_kubernetes_operat.Controller.RuleSet.Loading.{
  loaded, stopped, source_errors, data_map, fetched, fetch_all,
}
use coraza_kubernetes_operat.Controller.RuleSet.Reconcile.{judge, validate_aggregated_rules}
use coraza_kubernetes_operat.Controller.RuleSet.Loaded.{
  files_of, next-loaded, load_data-fetched, load_sources-fetched, initialize_status-loaded,
  reject_unsupported_rules-loaded,
}

module _ (api : ConditionList) (cluster : Cluster) (at : Chance) (rs : RuleSet) where
  -- The reconciliation ended without an error, with these rules cached and the RuleSet ready.
  Succeeds : Option (Assoc Bytes) → Bytes → World → Step {0} Unit × World → Type 0
  Succeeds files rules v (stopped none, w) =
      (w.cache ≡ put v.cache (cache_key rs) rules files at.uuid at.put_at) × ReadySince api at rs w
  Succeeds files rules v _ = ⊥

  cache_rules-Succeeds :
      (files : Option (Assoc Bytes)) (rules msg : Bytes) (v w : World)
      → w.cache ≡ v.cache
      → ((cs : List Condition) → cluster.patch_status cs ≡ none)
      → Succeeds files rules v
          (as_step api cluster at rs (cache_rules api cluster at rs rules files msg w))
  unfolding cache_rules patch_ready Succeeds ReadySince
  cache_rules-Succeeds files rules msg v w h ok =
      subst
        (λ o. Succeeds files rules v (
          as_step api cluster at rs
            (patched api cluster.patch_status after o (emit w' normal cause.reason cause.message))))
        (sym (ok after))
        (
          ap (λ c. put c (cache_key rs) rules files at.uuid at.put_at) h,
          (cause.message, apply_status_ready-IsReady api w.conditions cause),
        )
    where
      w' : World
      w' = record w { cache = put w.cache (cache_key rs) rules files at.uuid at.put_at }

      cause : Cause
      cause =
          cause_of rs at (bytes "RulesCached") (build_cache_ready_message rs.namespace rs.name msg)

      after : List Condition
      after = apply_status_ready api w.conditions cause

  reconcile_found-Succeeds :
      (w : World) (data_objs : List (Bytes × Assoc Bytes)) (source_objs : List (Bytes × RuleSource))
      → fetch_all cluster.get_rule_data rs.data_sources ≡ fetched data_objs
      → fetch_all cluster.get_rule_source rs.sources ≡ fetched source_objs
      → cluster.new_waf (join_rules source_objs) (files_of rs.data_sources data_objs) ≡ none
      → (check_unsupported_rules (join_rules source_objs) ≡ [])
        ⊎ (skips_unsupported_check rs ≡ true)
      → ((cs : List Condition) → cluster.patch_status cs ≡ none)
      → Succeeds
          (files_of rs.data_sources data_objs)
          (join_rules source_objs)
          w
          (reconcile_found api cluster at rs w)
  unfolding reconcile_found validate_aggregated_rules
  reconcile_found-Succeeds w dobjs sobjs hd hs valid supported ok =
      let (w1, init, same1) = initialize_status-loaded api cluster at rs w ok in
      let files = files_of rs.data_sources dobjs in
      let rules = join_rules sobjs in
      let errors = source_errors api cluster at rs (data_map files) sobjs in
      let (msg, w2, rejected, same2) =
        reject_unsupported_rules-loaded api cluster at rs rules w1 supported in
      subst (Succeeds files rules w)
        (sym (
          next-loaded api cluster at rs _ tt w1 _ init
          ∙ (next-loaded api cluster at rs _ files w1 _
                (load_data-fetched api cluster at rs w1 dobjs hd)
              ∙ (next-loaded api cluster at rs _ (rules, errors) w1 _
                    (load_sources-fetched api cluster at rs w1 files sobjs hs)
                  ∙ (next-loaded api cluster at rs _ tt w1 _
                        (ap (λ o. judge api cluster at rs errors o w1) valid)
                      ∙ next-loaded api cluster at rs _ msg w2 _ rejected)))))
        (cache_rules-Succeeds files rules msg w w2 (same2 ∙ same1) ok)

-- Where the RuleSet, its data and its sources are there, Coraza accepts the joined rules with the merged
-- files, no rule is unsupported or the annotation skips that check, and the API server takes every
-- status, the reconciliation returns no error, the cache has taken exactly these rules and files under
-- namespace/name, and the RuleSet is ready for this generation, whatever the separate check of each
-- source said.
pub reconcile_succeeds :
    (api : ConditionList) (cluster : Cluster) (at : Chance) (rs : RuleSet) (w : World)
    (data_objs : List (Bytes × Assoc Bytes)) (source_objs : List (Bytes × RuleSource))
    → cluster.get_rule_set ≡ found rs
    → fetch_all cluster.get_rule_data rs.data_sources ≡ fetched data_objs
    → fetch_all cluster.get_rule_source rs.sources ≡ fetched source_objs
    → cluster.new_waf (join_rules source_objs) (files_of rs.data_sources data_objs) ≡ none
    → (check_unsupported_rules (join_rules source_objs) ≡ []) ⊎ (skips_unsupported_check rs ≡ true)
    → ((cs : List Condition) → cluster.patch_status cs ≡ none)
    → ((reconcile api cluster at w).0 ≡ none)
      × ((reconcile api cluster at w).1.cache
          ≡ put w.cache
              (cache_key rs)
              (join_rules source_objs)
              (files_of rs.data_sources data_objs)
              at.uuid
              at.put_at)
      × ReadySince api at rs (reconcile api cluster at w).1
unfolding reconcile Succeeds
reconcile_succeeds api cluster at rs w dobjs sobjs h hd hs valid supported ok =
    subst Good (sym (ap (λ f. reconcile_fetched api cluster at f w) h)) (
      go (reconcile_found api cluster at rs w)
        (reconcile_found-Succeeds api cluster at rs w dobjs sobjs hd hs valid supported ok))
  where
    files : Option (Assoc Bytes)
    files = files_of rs.data_sources dobjs

    Good : Option GoError × World → Type 0
    Good (e, w') =
        (e ≡ none)
        × (w'.cache ≡ put w.cache (cache_key rs) (join_rules sobjs) files at.uuid at.put_at)
        × ReadySince api at rs w'

    go :
        (s : Step {0} Unit × World)
        → Succeeds api cluster at rs files (join_rules sobjs) w s
        → Good (ended s)
    go (stopped none, w') k = (refl, k.0, k.1)
    go (stopped (some e), w') k = absurd k
    go (loaded _, w') k = absurd k
