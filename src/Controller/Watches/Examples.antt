-- ===== src/Controller/Watches/Examples.antt =====
-- Tests of the watches, and their theorems at a concrete input.
use coraza_kubernetes_operat.Prelude.{
  Bool, true, false, not, ◌&&◌, ◌≡◌, ◌↔◌, refl, ap, none, some, List, [], ◌∷◌, In, select, ◌==◌,
}
use coraza_kubernetes_operat.Prelude.Bytes.{Bytes, bytes, bytes_eq}
use coraza_kubernetes_operat.Prelude.Assoc.{Assoc}
use coraza_kubernetes_operat.Controller.RuleSet.{RuleSet}
use coraza_kubernetes_operat.Controller.Policies.{
  gateway, NetworkPolicy, PolicyApi, deleted, created_as, is_of_engine, build_network_policy,
}
use coraza_kubernetes_operat.Controller.Engine.{EngineObject}
use coraza_kubernetes_operat.Controller.Watches.{
  NamespacedName, items, Reader, index_values, rule_set_name, find_rule_sets_for_rule_source,
  find_rule_sets_for_rule_data, find_engines_for_gateway, find_engines_for_pod, collect_requests,
  find_engines_for_network_policy, labels_of_policy, Meta, WatchEvent, object_created,
  object_deleted, object_generic, object_updated, Library, rule_set_predicate,
  annotation_changed_predicate, find_rule_sets_by,
}
use coraza_kubernetes_operat.Controller.Watches.RuleSets.{indexed, References, find_rule_sets_exact}
use coraza_kubernetes_operat.Controller.Watches.Pods.{
  gateway_name_label, carries, find_engines_for_pod-find_engines_for_gateway,
}
use coraza_kubernetes_operat.Controller.Watches.Policy.{
  find_engines_for_network_policy-is_of_engine,
}

abbrev rule_set : Bytes → Bytes → List Bytes → RuleSet
rule_set namespace name sources = record {
  namespace = namespace;
  name = name;
  generation = 1;
  annotations = [];
  sources = sources;
  data_sources = [];
}

abbrev rule_sets : List RuleSet
rule_sets =
    rule_set (bytes "ns") (bytes "crs") (bytes "base" ∷ bytes "xss" ∷ [])
    ∷ rule_set (bytes "ns") (bytes "own") (bytes "mine" ∷ [])
    ∷ rule_set (bytes "other") (bytes "crs") (bytes "xss" ∷ [])
    ∷ []

abbrev engine : Bytes → Bytes → EngineObject
engine name target = record {
  engine = record {
    namespace = bytes "ns";
    name = name;
    target_type = gateway;
    target_name = target;
    deleting = false;
    finalizers = [];
  };
  generation = 1;
  rule_set = bytes "crs";
  driver_type = [];
  image = [];
  image_pull_secret = [];
  failure_policy = [];
  poll_interval = none;
}

abbrev engines : List EngineObject
engines = engine (bytes "waf") (bytes "gw") ∷ engine (bytes "spare") (bytes "gw2") ∷ []

abbrev carries_all : Assoc Bytes → Assoc Bytes → Bool
carries_all [] labels = true
carries_all ((k, v) ∷ selector) labels = carries k v labels && carries_all selector labels

true_at_end : (b : Bool) → (b && true) ≡ b
true_at_end true = refl
true_at_end false = refl

abbrev reader : Reader
reader = record {
  list_rule_sets = λ namespace key value. items (select (indexed namespace key value) rule_sets);
  list_engines = λ namespace. items (select (λ e. bytes_eq e.engine.namespace namespace) engines);
  selects = λ selector labels. some (carries_all selector labels);
}

abbrev api : PolicyApi
api = record {
  list_error = none;
  delete_policy = λ _. deleted;
  create_policy = λ _. created_as (bytes "coraza-cache-x1");
  update_policy = λ _ _. none;
  patch_engine = λ _. none;
  is_dns_label = λ _. true;
}

abbrev object : Bytes → NamespacedName
object name = record { object_namespace = bytes "ns"; object_name = name }

abbrev policy : NetworkPolicy
policy = build_network_policy api (engine (bytes "waf") (bytes "gw")).engine

source_requests :
    find_rule_sets_for_rule_source reader (object (bytes "xss")) ≡ object (bytes "crs") ∷ []
unfolding find_rule_sets_for_rule_source find_rule_sets_by collect_requests index_values
    rule_set_name
source_requests = refl

policy_requests :
    find_engines_for_network_policy (labels_of_policy policy) ≡ object (bytes "waf") ∷ []
unfolding find_engines_for_network_policy labels_of_policy build_network_policy
policy_requests = refl

no_policy_requests : find_engines_for_network_policy [] ≡ []
unfolding find_engines_for_network_policy
no_policy_requests = refl

find_rule_sets_exact_example :
    (In (object (bytes "crs")) (find_rule_sets_for_rule_source reader (object (bytes "xss"))) ↔ (
      (rs : RuleSet) × References (λ r. r.sources) rule_sets (object (bytes "xss")) rs
      × (rule_set_name rs ≡ object (bytes "crs"))))
    × (In (object (bytes "crs")) (find_rule_sets_for_rule_data reader (object (bytes "xss"))) ↔ (
        (rs : RuleSet) × References (λ r. r.data_sources) rule_sets (object (bytes "xss")) rs
        × (rule_set_name rs ≡ object (bytes "crs"))))
find_rule_sets_exact_example =
    find_rule_sets_exact reader rule_sets (record { lists_rule_sets = λ _ _ _. refl })
      (object (bytes "xss")) (object (bytes "crs"))

find_engines_for_pod-find_engines_for_gateway_example :
    find_engines_for_pod reader api (bytes "ns") ((gateway_name_label, bytes "gw") ∷ [])
    ≡ find_engines_for_gateway reader (object (bytes "gw"))
find_engines_for_pod-find_engines_for_gateway_example =
    find_engines_for_pod-find_engines_for_gateway reader api
      (record {
        selects_label = λ v labels _. ap some (true_at_end (carries gateway_name_label v labels));
      })
      (bytes "ns") ((gateway_name_label, bytes "gw") ∷ []) (bytes "gw") refl refl

find_engines_for_network_policy-is_of_engine_example :
    In (object (bytes "waf")) (find_engines_for_network_policy (labels_of_policy policy))
    ↔ (is_of_engine (bytes "ns") (bytes "waf") policy ≡ true)
unfolding build_network_policy
find_engines_for_network_policy-is_of_engine_example =
    find_engines_for_network_policy-is_of_engine policy (object (bytes "waf")) refl refl

abbrev meta : Bytes → Meta
meta check = record {
  meta_generation = 1;
  labels = [];
  annotations = (bytes "waf.k8s.coraza.io/skip-unsupported-rules-check", check) ∷ [];
}

abbrev object_of : WatchEvent → Meta
object_of (object_created m) = m
object_of (object_deleted m) = m
object_of (object_generic m) = m
object_of (object_updated old none) = meta []
object_of (object_updated old (some m)) = m

abbrev changed : WatchEvent → Bool
changed (object_updated (some old) (some new)) = not (old.meta_generation == new.meta_generation)
changed (object_updated _ _) = false
changed _ = true

abbrev library : Library
library = record {
  generation_changed = changed;
  new_predicate_funcs = λ f e. f (object_of e);
  generation_changed_update = λ _ _. refl;
  generation_changed_created = λ _. refl;
  new_predicate_funcs_created = λ _ _. refl;
  new_predicate_funcs_deleted = λ _ _. refl;
  new_predicate_funcs_updated = λ _ _ _. refl;
}

-- A changed annotation passes, although it leaves the generation.
annotation_passes :
    rule_set_predicate library (object_updated (some (meta [])) (some (meta (bytes "true")))) ≡ true
unfolding rule_set_predicate annotation_changed_predicate
annotation_passes = refl

no_change_is_held :
    rule_set_predicate library (object_updated (some (meta [])) (some (meta []))) ≡ false
unfolding rule_set_predicate annotation_changed_predicate
no_change_is_held = refl
