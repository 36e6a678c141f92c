-- ===== src/Controller/Engine/Reconcile.antt =====
-- internal/controller/engine_controller.go: Reconcile and isRuleSetDegraded.
use coraza_kubernetes_operat.Prelude.{
  Bool, true, false, Option, none, some, List, ◌++◌, if◌then◌else◌,
}
use coraza_kubernetes_operat.Prelude.Bytes.{Bytes, bytes}
use coraza_kubernetes_operat.Controller.Conditions.{
  Condition, ConditionList, is_true, same_status, condition_ready, condition_degraded,
  apply_status_progressing,
}
use coraza_kubernetes_operat.Controller.Errors.{GoError, wrap}
use coraza_kubernetes_operat.Controller.RuleSet.{
  Fetched, found, missing, failed, World, patch_degraded, patched,
}
use coraza_kubernetes_operat.Controller.Policies.{
  FinalizerList, Policies, Finalized, cleanup_network_policy, handle_network_policy_deletion,
  ensure_network_policy_finalizer,
}
use coraza_kubernetes_operat.Controller.Engine.{
  EngineObject, EngineConfig, EngineCluster, EngineClock, EngineWorld, Outcome, finished, fails,
  engine_cause,
}
use coraza_kubernetes_operat.Controller.Engine.Provision.{select_driver}

abbrev pub outcome_of : Option GoError → Outcome
outcome_of none = finished
outcome_of (some e) = fails e

module _ (api : ConditionList) (config : EngineConfig) (cluster : EngineCluster)
    (clock : EngineClock) where
  -- patchDegraded, after which the reconciliation ends.
  abbrev pub stop_degraded : EngineObject → Bytes → Bytes → EngineWorld → Outcome × EngineWorld
  stop_degraded e reason message w =
      let (patch_err, status) =
        patch_degraded api cluster.patch_status (engine_cause e clock reason message) w.status in
      (outcome_of patch_err, record w { status = status })

  abbrev pub with_degraded : EngineObject → Option Condition → EngineWorld → Outcome × EngineWorld
  with_degraded e none w = select_driver api config cluster clock e w
  with_degraded e (some d) w =
      if same_status d.status is_true
      then stop_degraded e (bytes "RuleSetDegraded")
          (bytes "RuleSet " ++ (e.rule_set ++ (bytes " is degraded: " ++ d.message))) w
      else select_driver api config cluster clock e w

  -- isRuleSetDegraded, and what follows it.
  unfoldable pub check_rule_set :
      EngineObject → Fetched (List Condition) → EngineWorld → Outcome × EngineWorld
  check_rule_set e missing w =
      stop_degraded e (bytes "RuleSetNotFound")
        (bytes "RuleSet " ++ (e.rule_set ++ bytes " not found")) w
  check_rule_set e (failed err) w =
      (fails (wrap (bytes "failed to get RuleSet " ++ (e.rule_set ++ bytes ": ")) err), w)
  check_rule_set e (found conditions) w = with_degraded e (api.find conditions condition_degraded) w

  abbrev pub after_init :
      EngineObject → Option GoError × World → EngineWorld → Outcome × EngineWorld
  after_init e (some err, status) w = (fails err, record w { status = status })
  after_init e (none, status) w =
      check_rule_set e cluster.get_rule_set (record w { status = status })

  abbrev pub with_ready : EngineObject → Option Condition → EngineWorld → Outcome × EngineWorld
  with_ready e (some ready) w = check_rule_set e cluster.get_rule_set w
  with_ready e none w =
      let after = apply_status_progressing api w.status.conditions (record {
        generation = e.generation;
        reason = bytes "Reconciling";
        message = bytes "Starting reconciliation";
        first = clock.init_first;
        second = clock.init_second;
      }) in
      after_init e (patched api cluster.patch_status after (cluster.patch_status after) w.status) w

abbrev pub finalized : Finalized → EngineWorld → EngineWorld
finalized f w = record w { engine_finalizers = f.finalizers; policies = f.policies }

module _ (api : ConditionList) (fin : FinalizerList) (config : EngineConfig)
    (cluster : EngineCluster) (clock : EngineClock) where
  abbrev pub after_finalizer :
      EngineObject → Bool → Option GoError → EngineWorld → Outcome × EngineWorld
  after_finalizer e added (some err) w = (fails err, w)
  after_finalizer e true none w = (record { requeue_after = 100_000_000; error = none }, w)
  after_finalizer e false none w =
      with_ready api config cluster clock e (api.find w.status.conditions condition_ready) w

  abbrev pub after_deletion :
      EngineObject → Bool → Option GoError → EngineWorld → Outcome × EngineWorld
  after_deletion e deleting (some err) w = (fails err, w)
  after_deletion e true none w = (finished, w)
  after_deletion e false none w =
      let f = ensure_network_policy_finalizer fin cluster.policy_api e.engine w.policies in
      after_finalizer e f.answer f.error (finalized f w)

  unfoldable pub reconcile_found_engine : EngineObject → EngineWorld → Outcome × EngineWorld
  reconcile_found_engine e w =
      let f = handle_network_policy_deletion fin cluster.policy_api e.engine w.policies in
      after_deletion e f.answer f.error (finalized f w)

  abbrev pub cleaned : Option GoError × Policies → EngineWorld → Outcome × EngineWorld
  cleaned (err, policies) w = (outcome_of err, record w { policies = policies })

  abbrev pub reconcile_fetched_engine :
      Bytes → Bytes → Fetched EngineObject → EngineWorld → Outcome × EngineWorld
  reconcile_fetched_engine namespace name missing w =
      cleaned (cleanup_network_policy cluster.policy_api namespace name w.policies) w
  reconcile_fetched_engine namespace name (failed err) w = (fails err, w)
  reconcile_fetched_engine namespace name (found e) w = reconcile_found_engine e w

  -- Reconcile for the request of this namespace and name.
  unfoldable pub reconcile_engine : Bytes → Bytes → EngineWorld → Outcome × EngineWorld
  unfolding reconcile_found_engine
  reconcile_engine namespace name w = reconcile_fetched_engine namespace name cluster.get_engine w
