-- ===== src/Controller/Policies/Examples.antt =====
-- Tests of the network policies, and their theorems at a concrete input.
use coraza_kubernetes_operat.Prelude.{
  Bool, true, false, not, ◌≡◌, refl, none, List, [], ◌∷◌, any, select, arith,
}
use coraza_kubernetes_operat.Prelude.Bytes.{Bytes, bytes, bytes_eq, bytes_eq_refl}
use coraza_kubernetes_operat.Prelude.Assoc.{lookup}
use coraza_kubernetes_operat.Controller.Policies.{
  Engine, gateway, NetworkPolicy, FinalizerList, PolicyApi, Policies, deleted, created_as,
  is_of_engine, cleanup_network_policy, network_policy_finalizer, handle_network_policy_deletion,
  apply_network_policy, target_label_selector, ensure_network_policy_finalizer,
}
use coraza_kubernetes_operat.Controller.Policies.Cleanup.{
  others, handle_network_policy_deletion_guards,
}
use coraza_kubernetes_operat.Controller.Policies.Apply.{Applied, apply_network_policy-Applied}

abbrev has : List Bytes → Bytes → Bool
has fs f = any (λ g. bytes_eq g f) fs

abbrev without : List Bytes → Bytes → List Bytes
without fs f = select (λ g. not (bytes_eq g f)) fs

without_gone : (fs : List Bytes) (f : Bytes) → has (without fs f) f ≡ false
without_gone [] f = refl
without_gone (g ∷ fs) f = ground (arith, without_gone fs f)

abbrev finalizer_list : FinalizerList
finalizer_list = record {
  contains_finalizer = has;
  add_finalizer = λ fs f. f ∷ fs;
  remove_finalizer = without;
  contains-add = λ fs f. rw (bytes_eq_refl f) refl;
  contains-remove = without_gone;
}

abbrev api : PolicyApi
api = record {
  list_error = none;
  delete_policy = λ _. deleted;
  create_policy = λ _. created_as (bytes "coraza-cache-x1");
  update_policy = λ _ _. none;
  patch_engine = λ _. none;
  is_dns_label = λ _. true;
}

abbrev engine : Engine
engine = record {
  namespace = bytes "ns";
  name = bytes "waf";
  target_type = gateway;
  target_name = bytes "gw";
  deleting = true;
  finalizers = network_policy_finalizer ∷ [];
}

abbrev policy : Bytes → NetworkPolicy
policy name = record {
  engine_name = name;
  engine_namespace = bytes "ns";
  pod_selector = [];
  from_namespace = bytes "ns";
  from_pods = [];
  port = 18080;
}

abbrev policies : Policies
policies = (bytes "p1", policy (bytes "waf")) ∷ (bytes "p2", policy (bytes "other")) ∷ []

added :
    (ensure_network_policy_finalizer finalizer_list api
      (record engine { finalizers = [] })
      []).finalizers
    ≡ network_policy_finalizer ∷ []
unfolding ensure_network_policy_finalizer
added = refl

handle_network_policy_deletion_guards_example :
    lookup (bytes "p2") (handle_network_policy_deletion finalizer_list api engine policies).policies
    ≡ others (bytes "ns") (bytes "waf") (lookup (bytes "p2") policies)
unfolding handle_network_policy_deletion cleanup_network_policy is_of_engine
handle_network_policy_deletion_guards_example =
    handle_network_policy_deletion_guards finalizer_list api engine policies (bytes "p2")
      (refl, (refl, tt)) refl refl

apply_network_policy-Applied_example :
    Applied api engine policies (apply_network_policy api engine policies).1
unfolding apply_network_policy target_label_selector is_of_engine
apply_network_policy-Applied_example =
    apply_network_policy-Applied api engine policies (refl, (refl, tt)) refl
