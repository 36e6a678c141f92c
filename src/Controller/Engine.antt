-- ===== src/Controller/Engine.antt =====
-- internal/controller/engine_controller.go, engine_controller_wasm_driver.go and
-- ensureCacheClientServiceAccount of engine_controller_token.go: the reconciler of Engines.
-- The API server's answers are parameters. The state is that of a RuleSet's reconciliation (the
-- conditions, events and log, here the Engine's), with the finalizers, policies, tokens and plugin.
pub mod Wasm
pub mod Provision
pub mod Reconcile
pub mod Order
pub mod Phase
pub mod Gate
pub mod Whole
mod Examples
use coraza_kubernetes_operat.Prelude.{
  ℕ, Bool, true, false, Option, none, some, List, [], ◌∷◌, ◌++◌, if◌then◌else◌,
}
use coraza_kubernetes_operat.Prelude.Bytes.{Bytes, bytes, bytes_eq}
use coraza_kubernetes_operat.Prelude.Assoc.{Assoc}
use coraza_kubernetes_operat.Controller.Conditions.{Condition, Cause}
use coraza_kubernetes_operat.Controller.Errors.{GoError}
use coraza_kubernetes_operat.Controller.RuleSet.{Fetched, World}
use coraza_kubernetes_operat.Controller.Policies.{Engine, PolicyApi, Policies, Creation}
use coraza_kubernetes_operat.Controller.Tokens.{TokenEntry, Created}

-- An empty text is a field that is left out; `poll_interval` is spec.ruleSetCacheServer's.
pub record EngineObject : Type 0 where
  pub engine : Engine
  pub generation : ℕ
  pub rule_set : Bytes
  pub driver_type : Bytes
  pub image : Bytes
  pub image_pull_secret : Bytes
  pub failure_policy : Bytes
  pub poll_interval : Option ℕ

-- The fields of EngineReconciler that configure it.
pub record EngineConfig : Type 0 where
  pub rule_set_cache_server_cluster : Bytes
  pub istio_revision : Bytes
  pub default_wasm_image : Bytes

-- What buildWasmPlugin writes; `none` is a key that is left out.
pub record WasmPlugin : Type 0 where
  pub name : Bytes
  pub namespace : Bytes
  pub url : Bytes
  pub cache_server_instance : Bytes
  pub cache_server_cluster : Bytes
  pub failure_policy : Bytes
  pub cache_token : Bytes
  pub rule_reload_interval_seconds : Option ℕ
  pub match_labels : Assoc Bytes
  pub image_pull_secret : Option Bytes
  pub istio_rev : Option Bytes

pub data Names : Type 0 where
  names : List Bytes → Names
  no_names : GoError → Names

-- A RuleSet is fetched for its conditions. `apply_plugin` stands for SetControllerReference and
-- the server-side apply, and `quote` is the verb %q of fmt.
pub record EngineCluster : Type 0 where
  pub get_engine : Fetched EngineObject
  pub get_rule_set : Fetched (List Condition)
  pub patch_status : List Condition → Option GoError
  pub policy_api : PolicyApi
  pub list_service_accounts : Names
  pub create_service_account : Creation
  pub create_token : Bytes → Bytes → Created
  pub apply_plugin : WasmPlugin → Option GoError
  pub quote : Bytes → Bytes

-- What a reconciliation reads from the clock.
pub record EngineClock : Type 0 where
  pub init_first : ℕ
  pub init_second : ℕ
  pub first : ℕ
  pub second : ℕ
  pub checked : ℕ
  pub issued : ℕ
  pub pruned : ℕ
  pub scheduled : ℕ

pub record EngineWorld : Type 0 where
  pub status : World
  pub engine_finalizers : List Bytes
  pub policies : Policies
  pub tokens : Assoc TokenEntry
  pub plugin : Option WasmPlugin

-- ctrl.Result with the error: RequeueAfter in nanoseconds, where 0 is none.
pub record Outcome : Type 0 where
  pub requeue_after : ℕ
  pub error : Option GoError

abbrev pub finished : Outcome
finished = record { requeue_after = 0; error = none }

abbrev pub fails : GoError → Outcome
fails e = record { requeue_after = 0; error = some e }

abbrev pub engine_cause : EngineObject → EngineClock → Bytes → Bytes → Cause
engine_cause e clock reason message = record {
  generation = e.generation;
  reason = reason;
  message = message;
  first = clock.first;
  second = clock.second;
}
