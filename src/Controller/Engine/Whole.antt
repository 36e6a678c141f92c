-- ===== src/Controller/Engine/Whole.antt =====
-- The whole reconciliation of an Engine.
use coraza_kubernetes_operat.Prelude.{
  Bool, true, false, not, ◌≡◌, ◌⊎◌, inl, refl, Option, none, some, List, arith, if◌then◌else◌,
}
use coraza_kubernetes_operat.Prelude.Bytes.{Bytes}
use coraza_kubernetes_operat.Prelude.Assoc.{IsMap}
use coraza_kubernetes_operat.Controller.Conditions.{ConditionList}
use coraza_kubernetes_operat.Controller.Errors.{GoError}
use coraza_kubernetes_operat.Controller.RuleSet.{Fetched, found, missing, failed}
use coraza_kubernetes_operat.Controller.Policies.{
  FinalizerList, Policies, Finalized, cleanup_network_policy, network_policy_finalizer,
  handle_network_policy_deletion, ensure_network_policy_finalizer, patched_finalizers,
  after_cleanup,
}
use coraza_kubernetes_operat.Controller.Engine.{
  EngineObject, EngineConfig, EngineCluster, EngineClock, EngineWorld, Outcome,
}
use coraza_kubernetes_operat.Controller.Engine.Reconcile.{
  finalized, after_finalizer, after_deletion, reconcile_found_engine, reconcile_fetched_engine,
  reconcile_engine,
}
use coraza_kubernetes_operat.Controller.Engine.Gate.{Allowed, IsGated, with_ready-IsGated}

module _ (api : ConditionList) (fin : FinalizerList) (config : EngineConfig)
    (cluster : EngineCluster) (clock : EngineClock) (w : EngineWorld) where
  Gated : Outcome × EngineWorld → Type 0
  Gated (o, w') = (w'.plugin ≡ w.plugin) ⊎ Allowed api fin config cluster clock w w'

  module _ (e : EngineObject) where
    stays :
        (answer : Bool) (err : Option GoError) (v : EngineWorld)
        → answer ≡ true
        → v.plugin ≡ w.plugin
        → Gated (after_deletion api fin config cluster clock e answer err v)
    unfolding Gated
    stays true (some err) v a h = inl h
    stays true none v a h = inl h
    stays false err v a h = absurd (ground (arith, a))

    answer-patched :
        (before after : List Bytes) (o : Option GoError) (ps : Policies)
        → (patched_finalizers fin cluster.policy_api true before o after ps).answer ≡ true
    answer-patched before after (some err) ps = refl
    answer-patched before after none ps = refl

    answer-after_cleanup :
        (r : Option GoError × Policies)
        → (after_cleanup fin cluster.policy_api e.engine r).answer ≡ true
    answer-after_cleanup (some err, ps) = refl
    answer-after_cleanup (none, ps) = answer-patched _ _ (cluster.policy_api.patch_engine _) ps

    reconcile_found_engine-Gated :
        IsMap w.policies
        → cluster.get_engine ≡ found e
        → Gated (reconcile_found_engine api fin config cluster clock e w)
    unfolding reconcile_found_engine handle_network_policy_deletion ensure_network_policy_finalizer
        Gated IsGated
    reconcile_found_engine-Gated m h =
        go e.engine.deleting (fin.contains_finalizer e.engine.finalizers network_policy_finalizer)
          refl refl
      where
        has : Bool
        has = fin.contains_finalizer e.engine.finalizers network_policy_finalizer

        deletion : Bool → Bool → Finalized
        deletion d b =
            if not d
            then record {
              answer = false;
              error = none;
              finalizers = e.engine.finalizers;
              policies = w.policies;
            }
            else if not b
            then record {
              answer = true;
              error = none;
              finalizers = e.engine.finalizers;
              policies = w.policies;
            }
            else after_cleanup fin cluster.policy_api e.engine (
                cleanup_network_policy cluster.policy_api e.engine.namespace e.engine.name
                  w.policies)

        adding : Bool → Finalized
        adding b =
            if b
            then record {
              answer = false;
              error = none;
              finalizers = e.engine.finalizers;
              policies = w.policies;
            }
            else patched_finalizers fin cluster.policy_api false e.engine.finalizers
                (cluster.policy_api.patch_engine
                  (fin.add_finalizer e.engine.finalizers network_policy_finalizer))
                (fin.add_finalizer e.engine.finalizers network_policy_finalizer) w.policies

        v : EngineWorld
        v = finalized (deletion false true) w

        failing :
            (o : Option GoError) (after : List Bytes)
            → Gated (
                after_finalizer api fin config cluster clock e
                  (patched_finalizers fin cluster.policy_api false e.engine.finalizers o after
                    w.policies).answer
                  (patched_finalizers fin cluster.policy_api false e.engine.finalizers o after
                    w.policies).error
                  (finalized
                    (patched_finalizers fin cluster.policy_api false e.engine.finalizers o after
                      w.policies)
                    v))
        failing (some err) after = inl refl
        failing none after = inl refl

        ready :
            (b : Bool)
            → e.engine.deleting ≡ false
            → has ≡ b
            → Gated (
                after_finalizer api fin config cluster clock e
                  (adding b).answer
                  (adding b).error
                  (finalized (adding b) v))
        ready true d f =
            with_ready-IsGated api fin config cluster clock w m e h d f (finalized (adding true) v)
              refl refl refl
        ready false d f = failing _ _

        go :
            (d b : Bool)
            → e.engine.deleting ≡ d
            → has ≡ b
            → Gated (
                after_deletion api fin config cluster clock e
                  (deletion d b).answer
                  (deletion d b).error
                  (finalized (deletion d b) w))
        go false b d f = ready has d refl
        go true false d f = stays true none (finalized (deletion true false) w) refl refl
        go true true d f =
            stays (deletion true true).answer (deletion true true).error
              (finalized (deletion true true) w)
              (answer-after_cleanup (
                cleanup_network_policy cluster.policy_api e.engine.namespace e.engine.name
                  w.policies))
              refl

  -- A reconciliation applies a plugin only for an Engine that is there, is not being deleted and has
  -- the finalizer, whose RuleSet is there and not degraded, with the network policy in place and with a
  -- token for this Engine and RuleSet. Otherwise the plugin stays as it was.
  pub reconcile_engine_gated :
      (namespace name : Bytes)
      → IsMap w.policies
      → ((reconcile_engine api fin config cluster clock namespace name w).1.plugin ≡ w.plugin)
        ⊎ Allowed api fin config cluster clock w
            (reconcile_engine api fin config cluster clock namespace name w).1
  unfolding reconcile_engine Gated
  reconcile_engine_gated namespace name m = go cluster.get_engine refl
    where
      go :
          (r : Fetched EngineObject)
          → cluster.get_engine ≡ r
          → Gated (reconcile_fetched_engine api fin config cluster clock namespace name r w)
      go missing h = inl refl
      go (failed err) h = inl refl
      go (found e) h = reconcile_found_engine-Gated e m h
