-- ===== src/Controller/RuleSet/Outcome.antt =====
-- How a reconciliation ends.
use coraza_kubernetes_operat.Prelude.{true, Option, none, some, List, [], ◌≡◌, ◌⊎◌}
use coraza_kubernetes_operat.Prelude.Bytes.{Bytes, bytes}
use coraza_kubernetes_operat.Prelude.Assoc.{Assoc}
use coraza_kubernetes_operat.Cache.Store.{put}
use coraza_kubernetes_operat.RuleSets.Unsupported.Check.{check_unsupported_rules}
use coraza_kubernetes_operat.Controller.Conditions.{ConditionList}
use coraza_kubernetes_operat.Controller.Conditions.Phases.{IsReady, IsDegraded}
use coraza_kubernetes_operat.Controller.Errors.{GoError}
use coraza_kubernetes_operat.Controller.RuleSet.{RuleSet, RuleSource, Cluster, World, Chance}
use coraza_kubernetes_operat.Controller.RuleSet.Loading.{
  Step, loaded, stopped, cause_of, fetched, fetch_all, merge_files, join_rules,
}
use coraza_kubernetes_operat.Controller.RuleSet.Reconcile.{skips_unsupported_check, cache_key}

unfoldable pub Fails : Option GoError → Type 0
Fails e = (err : GoError) × (e ≡ some err)

-- What the cache may hold of a RuleSet: the rules of its sources, joined in order, that Coraza
-- accepts with the files of its data, and that are supported unless the annotation skips the check.
pub record Accepted (cluster : Cluster) (rs : RuleSet) (files : Option (Assoc Bytes))
    (rules : Bytes) : Type 0 where
  pub has_files :
      ((rs.data_sources ≡ []) × (files ≡ none))
      ⊎ ((objs : List (Bytes × Assoc Bytes)) × (fetch_all cluster.get_rule_data rs.data_sources
            ≡ fetched objs)
          × (files ≡ some (merge_files objs [])))
  pub has_rules :
      (objs : List (Bytes × RuleSource)) × (fetch_all cluster.get_rule_source rs.sources
        ≡ fetched objs)
      × (rules ≡ join_rules objs)
  pub is_valid : cluster.new_waf rules files ≡ none
  pub is_supported : (check_unsupported_rules rules ≡ []) ⊎ (skips_unsupported_check rs ≡ true)

module _ (api : ConditionList) (at : Chance) (rs : RuleSet) where
  -- Degraded, for this generation of the RuleSet and since this reconciliation.
  unfoldable pub DegradedSince : World → Type 0
  DegradedSince w =
      (reason message : Bytes) × IsDegraded api w.conditions (cause_of rs at reason message)

  unfoldable pub ReadySince : World → Type 0
  ReadySince w =
      (message : Bytes) × IsReady api w.conditions (cause_of rs at (bytes "RulesCached") message)

  -- The cache is that of `w`. What is loaded has the property, and an end without an error leaves
  -- the RuleSet degraded.
  unfoldable pub Keeps : {A : Type 0} → (A → Type 0) → World → Step A × World → Type 0
  Keeps P w (loaded a, w') = (w'.cache ≡ w.cache) × P a
  Keeps P w (stopped (some e), w') = w'.cache ≡ w.cache
  Keeps P w (stopped none, w') = (w'.cache ≡ w.cache) × DegradedSince w'

module _ (api : ConditionList) (cluster : Cluster) (at : Chance) (rs : RuleSet) where
  pub data Ends (w w' : World) (e : Option GoError) : Type 0 where
    ends_kept : w'.cache ≡ w.cache → Fails e ⊎ DegradedSince api at rs w' → Ends w w' e
    ends_cached :
        (files : Option (Assoc Bytes)) (rules : Bytes)
        → Accepted cluster rs files rules
        → w'.cache ≡ put w.cache (cache_key rs) rules files at.uuid at.put_at
        → Fails e ⊎ ReadySince api at rs w'
        → Ends w w' e

  unfoldable pub EndsStep : World → Step {0} Unit × World → Type 0
  EndsStep w (loaded a, w') = ⊥
  EndsStep w (stopped e, w') = Ends w w' e
