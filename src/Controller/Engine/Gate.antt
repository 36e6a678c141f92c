-- ===== src/Controller/Engine/Gate.antt =====
-- When a reconciliation applies a plugin.
use coraza_kubernetes_operat.Prelude.{
  Bool, true, false, ◌≡◌, ◌⊎◌, inl, inr, refl, sym, ◌∙◌, subst, Option, none, some, List, ◌++◌,
  if◌then◌else◌,
}
use coraza_kubernetes_operat.Prelude.Bytes.{bytes}
use coraza_kubernetes_operat.Prelude.Assoc.{IsMap}
use coraza_kubernetes_operat.Controller.Conditions.{
  Condition, ConditionList, is_true, same_status, condition_degraded, condition_ready,
}
use coraza_kubernetes_operat.Controller.Errors.{GoError}
use coraza_kubernetes_operat.Controller.RuleSet.{Fetched, found, missing, failed, World}
use coraza_kubernetes_operat.Controller.Policies.{FinalizerList, network_policy_finalizer}
use coraza_kubernetes_operat.Controller.Policies.Apply.{Applied}
use coraza_kubernetes_operat.Controller.Tokens.{has_token, ensure_cache_token}
use coraza_kubernetes_operat.Controller.Engine.{
  EngineObject, EngineConfig, EngineCluster, EngineClock, EngineWorld, Outcome,
}
use coraza_kubernetes_operat.Controller.Engine.Provision.{select_driver, token_call}
use coraza_kubernetes_operat.Controller.Engine.Order.{Guarded, IsSafe, select_driver-IsSafe}
use coraza_kubernetes_operat.Controller.Engine.Reconcile.{
  stop_degraded, with_degraded, check_rule_set, after_init, with_ready,
}

module _ (api : ConditionList) (fin : FinalizerList) (config : EngineConfig)
    (cluster : EngineCluster) (clock : EngineClock) where
  -- What a plugin that is applied rests on: the Engine is there and not being deleted, it has the
  -- finalizer, its RuleSet is there and not degraded, and the policy and the token are there.
  pub record Allowed (w w' : EngineWorld) : Type 0 where
    pub engine : EngineObject
    pub is_found : cluster.get_engine ≡ found engine
    pub not_deleting : engine.engine.deleting ≡ false
    pub has_finalizer :
        fin.contains_finalizer engine.engine.finalizers network_policy_finalizer ≡ true
    pub conditions : List Condition
    pub rule_set_found : cluster.get_rule_set ≡ found conditions
    pub not_degraded :
        (api.find conditions condition_degraded ≡ none)
        ⊎ ((d : Condition) × (api.find conditions condition_degraded ≡ some d)
            × (same_status d.status is_true ≡ false))
    pub guarded : Guarded api config cluster clock engine w w'

module _ (api : ConditionList) (fin : FinalizerList) (config : EngineConfig)
    (cluster : EngineCluster) (clock : EngineClock) (w : EngineWorld) (m : IsMap w.policies) where
  unfoldable pub IsGated : Outcome × EngineWorld → Type 0
  IsGated (o, w') = (w'.plugin ≡ w.plugin) ⊎ Allowed api fin config cluster clock w w'

  module _ (e : EngineObject) (h : cluster.get_engine ≡ found e) (d : e.engine.deleting ≡ false)
      (f : fin.contains_finalizer e.engine.finalizers network_policy_finalizer ≡ true) where
    driver-IsGated :
        (v : EngineWorld) (cs : List Condition)
        → v.plugin ≡ w.plugin
        → v.policies ≡ w.policies
        → v.tokens ≡ w.tokens
        → cluster.get_rule_set ≡ found cs
        → (api.find cs condition_degraded ≡ none)
          ⊎ ((c : Condition) × (api.find cs condition_degraded ≡ some c)
              × (same_status c.status is_true ≡ false))
        → IsGated (select_driver api config cluster clock e v)
    unfolding IsGated IsSafe
    driver-IsGated v cs plugin policies tokens rs healthy =
        elim (select_driver-IsSafe api config cluster clock e v
          (subst (λ ps. IsMap ps) (sym policies) m)) [
            | inl same ↦ inl (same ∙ plugin)
            | inr g ↦ inr (record {
              engine = e;
              is_found = h;
              not_deleting = d;
              has_finalizer = f;
              conditions = cs;
              rule_set_found = rs;
              not_degraded = healthy;
              guarded = record {
                sa = g.sa;
                token = g.token;
                renew_at = g.renew_at;
                token_given = g.token_given;
                issued =
                    subst
                      (λ ts.
                        (ensure_cache_token cluster.create_token
                          (token_call api config cluster clock e g.sa) ts).0
                        ≡ has_token g.token g.renew_at)
                      tokens g.issued;
                is_plugin = g.is_plugin;
                policy =
                    subst
                      (λ ps.
                        Applied cluster.policy_api e.engine ps
                          (select_driver api config cluster clock e v).1.policies)
                      policies g.policy;
              };
            })
          ]

    check_rule_set-IsGated :
        (v : EngineWorld)
        → v.plugin ≡ w.plugin
        → v.policies ≡ w.policies
        → v.tokens ≡ w.tokens
        → IsGated (check_rule_set api config cluster clock e cluster.get_rule_set v)
    unfolding check_rule_set IsGated
    check_rule_set-IsGated v plugin policies tokens = go cluster.get_rule_set refl
      where
        degraded :
            (cs : List Condition) (o : Option Condition)
            → cluster.get_rule_set ≡ found cs
            → api.find cs condition_degraded ≡ o
            → IsGated (with_degraded api config cluster clock e o v)
        degraded cs none rs q = driver-IsGated v cs plugin policies tokens rs (inl q)
        degraded cs (some c) rs q = choose (same_status c.status is_true) refl
          where
            choose :
                (b : Bool)
                → same_status c.status is_true ≡ b
                → IsGated (
                    if b
                    then stop_degraded api config cluster clock e
                        (bytes "RuleSetDegraded")
                        (bytes "RuleSet " ++ (e.rule_set ++ (bytes " is degraded: " ++ c.message)))
                        v
                    else select_driver api config cluster clock e v)
            choose true s = inl plugin
            choose false s = driver-IsGated v cs plugin policies tokens rs (inr (c, q, s))

        go :
            (r : Fetched (List Condition))
            → cluster.get_rule_set ≡ r
            → IsGated (check_rule_set api config cluster clock e r v)
        go missing q = inl plugin
        go (failed err) q = inl plugin
        go (found cs) q = degraded cs (api.find cs condition_degraded) q refl

    pub with_ready-IsGated :
        (v : EngineWorld)
        → v.plugin ≡ w.plugin
        → v.policies ≡ w.policies
        → v.tokens ≡ w.tokens
        → IsGated
            (with_ready api config cluster clock e (api.find v.status.conditions condition_ready) v)
    unfolding IsGated
    with_ready-IsGated v plugin policies tokens = go (api.find v.status.conditions condition_ready)
      where
        init : (r : Option GoError × World) → IsGated (after_init api config cluster clock e r v)
        init (some err, status) = inl plugin
        init (none, status) =
            check_rule_set-IsGated (record v { status = status }) plugin policies tokens

        go : (o : Option Condition) → IsGated (with_ready api config cluster clock e o v)
        go (some ready) = check_rule_set-IsGated v plugin policies tokens
        go none = init _
