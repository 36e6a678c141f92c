-- ===== src/Controller/RuleSet/Loaded.antt =====
-- The steps that go on.
use coraza_kubernetes_operat.Prelude.{
  ◌⊎◌, inl, inr, refl, Option, none, some, List, ◌≡◌, inl, inr, refl, ap,
}
use coraza_kubernetes_operat.Prelude.Bytes.{Bytes, bytes}
use coraza_kubernetes_operat.Prelude.Assoc.{Assoc}
use coraza_kubernetes_operat.Controller.Conditions.{condition_ready, Condition, ConditionList}
use coraza_kubernetes_operat.Controller.RuleSet.{
  RuleSource, RuleSet, Cluster, World, Chance, patched, emit,
}
use coraza_kubernetes_operat.Controller.RuleSet.Loading.{join_rules, merge_files, Step, loaded}
use coraza_kubernetes_operat.Controller.RuleSet.Reconcile.{skips_unsupported_check, next}
use coraza_kubernetes_operat.RuleSets.Unsupported.Check.{
  check_unsupported_rules, format_unsupported_message,
}
use coraza_kubernetes_operat.RuleSets.Unsupported.Registry.{UnsupportedRule}
use coraza_kubernetes_operat.Prelude.{List, [], ◌∷◌, true}
use coraza_kubernetes_operat.Controller.RuleSet.{patched, emit, warning}
use coraza_kubernetes_operat.Controller.RuleSet.Loading.{
  loaded, load_data, load_named_data, load_sources, source_errors, data_map, fetched, fetch_all,
  report,
}
use coraza_kubernetes_operat.Controller.RuleSet.Reconcile.{
  of_patch, initialize_unless, reject, initialize_status, reject_unsupported_rules,
}

abbrev pub files_of : List Bytes → List (Bytes × Assoc Bytes) → Option (Assoc Bytes)
files_of [] objs = none
files_of (name ∷ names) objs = some (merge_files objs [])

module _ (api : ConditionList) (cluster : Cluster) (at : Chance) (rs : RuleSet) where
  pub next-loaded :
      {A : Type 0} (s : Step A × World) (a : A) (w : World) (f : A → World → Step {0} Unit × World)
      → s ≡ (loaded a, w)
      → next s f ≡ f a w
  next-loaded s a w f h = ap (λ s. next s f) h

  pub load_data-fetched :
      (w : World) (objs : List (Bytes × Assoc Bytes))
      → fetch_all cluster.get_rule_data rs.data_sources ≡ fetched objs
      → load_data api cluster at rs w ≡ (loaded (files_of rs.data_sources objs), w)
  unfolding load_data
  load_data-fetched w objs h = go rs.data_sources h
    where
      go :
          (names : List Bytes)
          → fetch_all cluster.get_rule_data names ≡ fetched objs
          → load_named_data api cluster at rs names w ≡ (loaded (files_of names objs), w)
      go [] h = refl
      go (name ∷ names) h =
          ap
            (λ all.
              report api cluster at rs (bytes "RuleData") (λ objs. some (merge_files objs [])) all
                w)
            h

  pub load_sources-fetched :
      (w : World) (files : Option (Assoc Bytes)) (objs : List (Bytes × RuleSource))
      → fetch_all cluster.get_rule_source rs.sources ≡ fetched objs
      → load_sources api cluster at rs files w
        ≡ (loaded (join_rules objs, source_errors api cluster at rs (data_map files) objs), w)
  unfolding load_sources
  load_sources-fetched w files objs h =
      ap
        (λ all.
          report api cluster at rs (bytes "RuleSource")
            (λ objs. (join_rules objs, source_errors api cluster at rs (data_map files) objs)) all
            w)
        h

  pub initialize_status-loaded :
      (w : World)
      → ((cs : List Condition) → cluster.patch_status cs ≡ none)
      → (w' : World) × (initialize_status api cluster at rs w ≡ (loaded tt, w'))
        × (w'.cache ≡ w.cache)
  unfolding initialize_status
  initialize_status-loaded w h = go (api.find w.conditions condition_ready)
    where
      patch :
          (after : List Condition)
          → cluster.patch_status after ≡ none
          → (w' : World) × (of_patch api cluster at rs
                (patched api cluster.patch_status after (cluster.patch_status after) w)
              ≡ (loaded tt, w'))
            × (w'.cache ≡ w.cache)
      patch after h = (
        _,
        ap (λ o. of_patch api cluster at rs (patched api cluster.patch_status after o w)) h,
        refl,
      )

      go :
          (o : Option Condition)
          → (w' : World) × (initialize_unless api cluster at rs o w ≡ (loaded tt, w'))
            × (w'.cache ≡ w.cache)
      go (some c) = (w, refl, refl)
      go none = patch _ (h _)

  pub reject_unsupported_rules-loaded :
      (rules : Bytes) (w : World)
      → (check_unsupported_rules rules ≡ []) ⊎ (skips_unsupported_check rs ≡ true)
      → (msg : Bytes) × (w' : World) × (reject_unsupported_rules api cluster at rs rules w
          ≡ (loaded msg, w'))
        × (w'.cache ≡ w.cache)
  unfolding reject_unsupported_rules
  reject_unsupported_rules-loaded rules w (inl h) =
      ([], w, ap (λ l. reject api cluster at rs l w) h, refl)
  reject_unsupported_rules-loaded rules w (inr h) = go (check_unsupported_rules rules)
    where
      go :
          (rules' : List UnsupportedRule)
          → (msg : Bytes) × (w' : World) × (reject api cluster at rs rules' w ≡ (loaded msg, w'))
            × (w'.cache ≡ w.cache)
      go [] = ([], w, refl, refl)
      go (r ∷ rules') =
          let message = format_unsupported_message (r ∷ rules') in
          (message, emit w warning (bytes "UnsupportedRules") message, rw h refl, refl)
