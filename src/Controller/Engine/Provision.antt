-- ===== src/Controller/Engine/Provision.antt =====
-- internal/controller/engine_controller_wasm_driver.go: provisionWasmDriver, and selectDriver with
-- handleInvalidDriverConfiguration of engine_controller.go.
use coraza_kubernetes_operat.Prelude.{
  ℕ, ◌-◌, ◌||◌, ltb, Option, none, some, [], ◌∷◌, ◌++◌, if◌then◌else◌,
}
use coraza_kubernetes_operat.Prelude.Bytes.{Bytes, bytes, bytes_eq}
use coraza_kubernetes_operat.Prelude.Assoc.{Assoc}
use coraza_kubernetes_operat.Controller.Conditions.{ConditionList}
use coraza_kubernetes_operat.Controller.Errors.{GoError, plain_error, wrap, slash}
use coraza_kubernetes_operat.Controller.RuleSet.{World, patch_degraded, patch_ready, emit, normal}
use coraza_kubernetes_operat.Controller.Policies.{
  Creation, created_as, not_created, target_label_selector, apply_network_policy,
}
use coraza_kubernetes_operat.Controller.Tokens.{
  TokenCall, TokenResult, has_token, no_token, ensure_cache_token,
}
use coraza_kubernetes_operat.Controller.Engine.{
  EngineObject, EngineConfig, WasmPlugin, Names, names, no_names, EngineCluster, EngineClock,
  EngineWorld, Outcome, fails, engine_cause,
}
use coraza_kubernetes_operat.Controller.Engine.Wasm.{wasm_plugin_oci_url_source, build_wasm_plugin}

abbrev pub second_of_time : ℕ
second_of_time = 1_000_000_000

abbrev pub or_error : Option GoError → GoError → GoError
or_error none e = e
or_error (some patch_err) e = patch_err

-- The first account is taken.
abbrev account_of : Bytes → Names → Creation → Creation
account_of engine (no_names e) new =
    not_created
      (wrap (bytes "failed to list ServiceAccounts for engine " ++ (engine ++ bytes ": ")) e)
account_of engine (names (sa ∷ _)) new = created_as sa
account_of engine (names []) (created_as sa) = created_as sa
account_of engine (names []) (not_created e) =
    not_created
      (wrap (bytes "failed to create ServiceAccount for engine " ++ (engine ++ bytes ": ")) e)

module _ (api : ConditionList) (config : EngineConfig) (cluster : EngineCluster)
    (clock : EngineClock) where
  unfoldable pub ensure_cache_client_service_account : EngineObject → Creation
  ensure_cache_client_service_account e =
      account_of e.engine.name cluster.list_service_accounts cluster.create_service_account

  -- The Engine becomes degraded, and the reconciliation ends with the error or that of the patch.
  abbrev pub degrade : EngineObject → Bytes → Bytes → GoError → EngineWorld → Outcome × EngineWorld
  degrade e reason message err w =
      let (patch_err, status) =
        patch_degraded api cluster.patch_status (engine_cause e clock reason message) w.status in
      (fails (or_error patch_err err), record w { status = status })

  abbrev pub after_ready :
      EngineObject → WasmPlugin → ℕ → Option GoError × World → EngineWorld → Outcome × EngineWorld
  after_ready e p renew_at (some err, status) w = (fails err, record w { status = status })
  after_ready e p renew_at (none, status) w =
      let wait = renew_at - clock.scheduled in
      (
        record {
          requeue_after = (if ltb wait second_of_time then second_of_time else wait);
          error = none;
        },
        record w {
          status =
              emit status normal (bytes "WasmPluginCreated")
                (bytes "Created WasmPlugin " ++ (p.namespace ++ slash ∷ p.name));
        },
      )

  abbrev pub after_apply :
      EngineObject → WasmPlugin → ℕ → Option GoError → EngineWorld → Outcome × EngineWorld
  after_apply e p renew_at (some err) w =
      degrade e (bytes "ProvisioningFailed")
        (bytes "Failed to create or update WasmPlugin: " ++ err.text) err w
  after_apply e p renew_at none w =
      after_ready e p renew_at
        (patch_ready api cluster.patch_status
          (engine_cause e clock (bytes "Configured")
            (bytes "WasmPlugin successfully created/updated"))
          w.status)
        (record w { plugin = some p })

  -- The plugin that is applied, and the error of applying it.
  abbrev pub apply_wasm_plugin : EngineObject → Bytes → WasmPlugin × Option GoError
  apply_wasm_plugin e cache_token =
      let p =
        build_wasm_plugin cluster.policy_api config e (wasm_plugin_oci_url_source config e).0
          cache_token in
      (p, cluster.apply_plugin p)

  abbrev pub after_token : EngineObject → TokenResult → EngineWorld → Outcome × EngineWorld
  after_token e (no_token err) w =
      degrade e (bytes "TokenFailed") (bytes "Failed to ensure cache client token: " ++ err.text)
        err w
  after_token e (has_token [] renew_at) w =
      let message = bytes "cache client token is empty for RuleSet " ++ e.rule_set in
      degrade e (bytes "TokenFailed") message (plain_error message) w
  after_token e (has_token (c ∷ token) renew_at) w =
      let (p, err) = apply_wasm_plugin e (c ∷ token) in after_apply e p renew_at err w

  abbrev pub token_call : EngineObject → Bytes → TokenCall
  token_call e sa = record {
    namespace = e.engine.namespace;
    engine = e.engine.name;
    rule_set = e.rule_set;
    sa_name = sa;
    checked = clock.checked;
    issued = clock.issued;
    pruned = clock.pruned;
  }

  abbrev pub after_account : EngineObject → Creation → EngineWorld → Outcome × EngineWorld
  after_account e (not_created err) w =
      degrade e (bytes "ServiceAccountFailed")
        (bytes "Failed to ensure cache client ServiceAccount: " ++ err.text) err w
  after_account e (created_as sa) w =
      let (result, tokens) = ensure_cache_token cluster.create_token (token_call e sa) w.tokens in
      after_token e result (record w { tokens = tokens })

  abbrev pub after_policy : EngineObject → Option GoError → EngineWorld → Outcome × EngineWorld
  after_policy e (some err) w =
      degrade e (bytes "NetworkPolicyFailed") (bytes "Failed to apply NetworkPolicy: " ++ err.text)
        err w
  after_policy e none w = after_account e (ensure_cache_client_service_account e) w

  abbrev pub with_selector :
      EngineObject → Option (Assoc Bytes) → EngineWorld → Outcome × EngineWorld
  with_selector e none w =
      let message = bytes "target is required: cannot derive workload selector" in
      degrade e (bytes "InvalidConfiguration") message (plain_error message) w
  with_selector e (some labels) w =
      let (err, policies) = apply_network_policy cluster.policy_api e.engine w.policies in
      after_policy e err (record w { policies = policies })

  unfoldable pub provision_wasm_driver : EngineObject → EngineWorld → Outcome × EngineWorld
  provision_wasm_driver e w = with_selector e (target_label_selector cluster.policy_api e.engine) w

  abbrev pub invalid : GoError → Option GoError × World → EngineWorld → Outcome × EngineWorld
  invalid err (none, status) w = (fails err, record w { status = status })
  invalid err (some patch_err, status) w = (
    fails (record err {
      text =
          bytes "validation failed: "
          ++ (err.text ++ (bytes " (status patch also failed: " ++ (patch_err.text ++ bytes ")")));
    }),
    record w { status = status },
  )

  unfoldable pub handle_invalid_driver_configuration :
      EngineObject → EngineWorld → Outcome × EngineWorld
  handle_invalid_driver_configuration e w =
      let message =
        bytes "unsupported driver type "
        ++ (cluster.quote e.driver_type ++ bytes ": only \"wasm\" is currently supported") in
      invalid (plain_error message)
        (patch_degraded api cluster.patch_status
          (engine_cause e clock (bytes "InvalidConfiguration") message) w.status)
        w

  unfoldable pub select_driver : EngineObject → EngineWorld → Outcome × EngineWorld
  unfolding provision_wasm_driver handle_invalid_driver_configuration
  select_driver e w =
      if bytes_eq e.driver_type [] || bytes_eq e.driver_type (bytes "wasm")
      then provision_wasm_driver e w
      else handle_invalid_driver_configuration e w
