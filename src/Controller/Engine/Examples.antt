-- ===== src/Controller/Engine/Examples.antt =====
-- Tests of the reconciler of Engines, and its theorems at a concrete input.
use coraza_kubernetes_operat.Prelude.{
  Bool, true, false, not, ◌≡◌, ◌⊎◌, refl, Option, none, some, List, [], ◌∷◌, ◌++◌, any, select,
  arith,
}
use coraza_kubernetes_operat.Prelude.Bytes.{Bytes, bytes, bytes_eq, bytes_eq_refl}
use coraza_kubernetes_operat.Cache.Store.{new_rule_set_cache}
use coraza_kubernetes_operat.Cache.Auth.{audience_of}
use coraza_kubernetes_operat.Controller.Conditions.Sample.{sample_conditions}
use coraza_kubernetes_operat.Controller.RuleSet.{found, patch_ready}
use coraza_kubernetes_operat.Controller.Policies.{
  gateway, FinalizerList, deleted, created_as, network_policy_finalizer,
  handle_network_policy_deletion, ensure_network_policy_finalizer, apply_network_policy,
  target_label_selector, is_of_engine,
}
use coraza_kubernetes_operat.Controller.Tokens.{
  created, ensure_cache_token, needs_renewal, renewal_deadline,
}
use coraza_kubernetes_operat.Controller.Engine.{
  EngineObject, EngineConfig, WasmPlugin, names, EngineCluster, EngineClock, EngineWorld,
}
use coraza_kubernetes_operat.Controller.Engine.Wasm.{build_wasm_plugin}
use coraza_kubernetes_operat.Controller.Engine.Provision.{
  select_driver, ensure_cache_client_service_account,
}
use coraza_kubernetes_operat.Controller.Engine.Reconcile.{reconcile_engine, check_rule_set}
use coraza_kubernetes_operat.Controller.Engine.Phase.{IsSettled, select_driver-IsSettled}
use coraza_kubernetes_operat.Controller.Engine.Gate.{Allowed}
use coraza_kubernetes_operat.Controller.Engine.Whole.{reconcile_engine_gated}

abbrev has : List Bytes → Bytes → Bool
has fs f = any (λ g. bytes_eq g f) fs

abbrev without : List Bytes → Bytes → List Bytes
without fs f = select (λ g. not (bytes_eq g f)) fs

without_gone : (fs : List Bytes) (f : Bytes) → has (without fs f) f ≡ false
without_gone [] f = refl
without_gone (g ∷ fs) f = ground (arith, without_gone fs f)

abbrev finalizer_list : FinalizerList
finalizer_list = record {
  contains_finalizer = has;
  add_finalizer = λ fs f. f ∷ fs;
  remove_finalizer = without;
  contains-add = λ fs f. rw (bytes_eq_refl f) refl;
  contains-remove = without_gone;
}

abbrev engine : EngineObject
engine = record {
  engine = record {
    namespace = bytes "ns";
    name = bytes "waf";
    target_type = gateway;
    target_name = bytes "gw";
    deleting = false;
    finalizers = network_policy_finalizer ∷ [];
  };
  generation = 1;
  rule_set = bytes "crs";
  driver_type = [];
  image = [];
  image_pull_secret = [];
  failure_policy = [];
  poll_interval = none;
}

abbrev config : EngineConfig
config = record {
  rule_set_cache_server_cluster = bytes "outbound|80";
  istio_revision = [];
  default_wasm_image = bytes "oci://plugin";
}

abbrev cluster : EngineCluster
cluster = record {
  get_engine = found engine;
  get_rule_set = found [];
  patch_status = λ _. none;
  policy_api = record {
    list_error = none;
    delete_policy = λ _. deleted;
    create_policy = λ _. created_as (bytes "coraza-cache-x1");
    update_policy = λ _ _. none;
    patch_engine = λ _. none;
    is_dns_label = λ _. true;
  };
  list_service_accounts = names [];
  create_service_account = created_as (bytes "sa-1");
  create_token = λ sa audience. created (sa ++ audience) 5_000_000_000_000;
  apply_plugin = λ _. none;
  quote = λ s. bytes "\"" ++ (s ++ bytes "\"");
}

abbrev clock : EngineClock
clock = record {
  init_first = 1;
  init_second = 2;
  first = 3;
  second = 4;
  checked = 5;
  issued = 0;
  pruned = 7;
  scheduled = 0;
}

abbrev world : EngineWorld
world = record {
  status = record { conditions = []; events = []; log = []; cache = new_rule_set_cache };
  engine_finalizers = network_policy_finalizer ∷ [];
  policies = [];
  tokens = [];
  plugin = none;
}

abbrev token_in : Option WasmPlugin → Bytes
token_in none = []
token_in (some p) = p.cache_token

-- The plugin carries the token, and the next run is at the token's renewal deadline.
provisioned :
    (token_in
        (reconcile_engine sample_conditions finalizer_list config cluster clock
          (bytes "ns")
          (bytes "waf")
          world).1.plugin
      ≡ bytes "sa-1coraza-cache:ns/crs")
    × ((reconcile_engine sample_conditions finalizer_list config cluster clock
          (bytes "ns")
          (bytes "waf")
          world).0.requeue_after
        ≡ 4_000_000_000_000)
unfolding reconcile_engine handle_network_policy_deletion ensure_network_policy_finalizer
    check_rule_set select_driver apply_network_policy target_label_selector is_of_engine
    ensure_cache_client_service_account ensure_cache_token needs_renewal renewal_deadline
    audience_of build_wasm_plugin patch_ready sample_conditions
provisioned = (refl, refl)

reconcile_engine_gated_example :
    ((reconcile_engine sample_conditions finalizer_list config cluster clock
        (bytes "ns")
        (bytes "waf")
        world).1.plugin
      ≡ none)
    ⊎ Allowed sample_conditions finalizer_list config cluster clock world
        (reconcile_engine sample_conditions finalizer_list config cluster clock
          (bytes "ns")
          (bytes "waf")
          world).1
reconcile_engine_gated_example =
    reconcile_engine_gated sample_conditions finalizer_list config cluster clock world (bytes "ns")
      (bytes "waf") tt

select_driver-IsSettled_example :
    IsSettled sample_conditions config cluster clock engine world
      (select_driver sample_conditions config cluster clock engine world)
select_driver-IsSettled_example =
    select_driver-IsSettled sample_conditions config cluster clock engine world
