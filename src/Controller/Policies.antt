-- ===== src/Controller/Policies.antt =====
-- internal/controller/engine_controller_network_policy.go and targetLabelSelector: the network policies
-- of Engines in the operator's namespace, and the finalizer that guards their removal.
-- A selector is its match labels. The API's answers, IsDNS1035Label and the functions of controllerutil
-- on finalizers are parameters.
pub mod Cleanup
pub mod Apply
mod Examples
use coraza_kubernetes_operat.Prelude.{
  ℕ, Bool, true, false, not, ◌&&◌, ◌||◌, ◌≡◌, Option, none, some, List, [], ◌∷◌, ◌++◌,
  if◌then◌else◌,
}
use coraza_kubernetes_operat.Prelude.Bytes.{Bytes, bytes, bytes_eq}
use coraza_kubernetes_operat.Prelude.Assoc.{Assoc, lookup, insert, delete}
use coraza_kubernetes_operat.Controller.Errors.{GoError, plain_error, wrap}

pub data TargetType : Type 0 where
  gateway other_target : TargetType

pub record Engine : Type 0 where
  pub namespace : Bytes
  pub name : Bytes
  pub target_type : TargetType
  pub target_name : Bytes
  pub deleting : Bool
  pub finalizers : List Bytes

-- The labels that name the owner, the pods that the policy protects, and the peers that it lets in.
pub record NetworkPolicy : Type 0 where
  pub engine_name : Bytes
  pub engine_namespace : Bytes
  pub pod_selector : Assoc Bytes
  pub from_namespace : Bytes
  pub from_pods : Assoc Bytes
  pub port : ℕ

-- ContainsFinalizer, AddFinalizer and RemoveFinalizer.
pub record FinalizerList : Type 0 where
  pub contains_finalizer : List Bytes → Bytes → Bool
  pub add_finalizer : List Bytes → Bytes → List Bytes
  pub remove_finalizer : List Bytes → Bytes → List Bytes
  pub contains-add :
      (fs : List Bytes) (f : Bytes) → contains_finalizer (add_finalizer fs f) f ≡ true
  pub contains-remove :
      (fs : List Bytes) (f : Bytes) → contains_finalizer (remove_finalizer fs f) f ≡ false

pub data Deletion : Type 0 where
  deleted gone : Deletion
  not_deleted : GoError → Deletion

pub data Creation : Type 0 where
  created_as : Bytes → Creation
  not_created : GoError → Creation

-- How the API answers a list, and a call about the policy of a name. The API draws the name of a new
-- policy.
pub record PolicyApi : Type 0 where
  pub list_error : Option GoError
  pub delete_policy : Bytes → Deletion
  pub create_policy : NetworkPolicy → Creation
  pub update_policy : Bytes → NetworkPolicy → Option GoError
  pub patch_engine : List Bytes → Option GoError
  pub is_dns_label : Bytes → Bool

-- The policies of the operator's namespace, by name.
abbrev pub Policies : Type 0
Policies = Assoc NetworkPolicy

abbrev pub network_policy_finalizer : Bytes
network_policy_finalizer = bytes "waf.k8s.coraza.io/network-policy-cleanup"

-- engineNetworkPolicyLabels
unfoldable pub is_of_engine : Bytes → Bytes → NetworkPolicy → Bool
is_of_engine namespace name p = bytes_eq p.engine_name name && bytes_eq p.engine_namespace namespace

abbrev pub listed : Bytes → Bytes → Policies → Policies
listed namespace name [] = []
listed namespace name ((k, p) ∷ ps) =
    let rest = listed namespace name ps in
    if is_of_engine namespace name p then (k, p) ∷ rest else rest

module _ (api : PolicyApi) where
  abbrev pub labels_of_target : TargetType → Bytes → Option (Assoc Bytes)
  labels_of_target other_target name = none
  labels_of_target gateway name =
      if bytes_eq name [] || not (api.is_dns_label name)
      then none
      else some ((bytes "gateway.networking.k8s.io/gateway-name", name) ∷ [])

  unfoldable pub target_label_selector : Engine → Option (Assoc Bytes)
  target_label_selector e = labels_of_target e.target_type e.target_name

  abbrev pub or_empty : Option (Assoc Bytes) → Assoc Bytes
  or_empty none = []
  or_empty (some ls) = ls

  unfoldable pub build_network_policy : Engine → NetworkPolicy
  build_network_policy e = record {
    engine_name = e.name;
    engine_namespace = e.namespace;
    pod_selector = (bytes "control-plane", bytes "coraza-controller-manager") ∷ [];
    from_namespace = e.namespace;
    from_pods = or_empty (target_label_selector e);
    port = 18080;
  }

  abbrev pub add_created : NetworkPolicy → Creation → Policies → Option GoError × Policies
  add_created p (not_created err) ps = (some err, ps)
  add_created p (created_as name) ps = (none, insert name p ps)

  abbrev pub put_updated :
      Bytes → NetworkPolicy → Option GoError → Policies → Option GoError × Policies
  put_updated name p (some err) ps = (some err, ps)
  put_updated name p none ps = (none, insert name p ps)

  -- The first policy of the list is updated in place.
  abbrev pub apply_first : NetworkPolicy → Policies → Policies → Option GoError × Policies
  apply_first p [] ps = add_created p (api.create_policy p) ps
  apply_first p ((name, _) ∷ _) ps = put_updated name p (api.update_policy name p) ps

  abbrev pub apply_listed : Engine → Option GoError → Policies → Option GoError × Policies
  apply_listed e (some err) ps = (some (wrap (bytes "list NetworkPolicies: ") err), ps)
  apply_listed e none ps = apply_first (build_network_policy e) (listed e.namespace e.name ps) ps

  abbrev pub apply_to : Engine → Option (Assoc Bytes) → Policies → Option GoError × Policies
  apply_to e (some (l ∷ ls)) ps = apply_listed e api.list_error ps
  apply_to e _ ps = (
    some (
        plain_error (
          bytes
            "cannot derive a valid workload selector from spec.target: ensure target type and name are set")),
    ps,
  )

  unfoldable pub apply_network_policy : Engine → Policies → Option GoError × Policies
  apply_network_policy e ps = apply_to e (target_label_selector e) ps

  abbrev pub after_deletion :
      Deletion
      → Bytes
      → (Policies → Option GoError × Policies)
      → Policies
      → Option GoError × Policies
  after_deletion deleted name next ps = next (delete name ps)
  after_deletion gone name next ps = next (delete name ps)
  after_deletion (not_deleted err) name next ps = (some err, ps)

  -- The loop over the list. A policy that is gone is not in the namespace any more either.
  abbrev pub delete_each : Policies → Policies → Option GoError × Policies
  delete_each [] ps = (none, ps)
  delete_each ((name, _) ∷ rest) ps =
      after_deletion (api.delete_policy name) name (delete_each rest) ps

  abbrev pub cleanup_listed : Bytes → Bytes → Option GoError → Policies → Option GoError × Policies
  cleanup_listed namespace name (some err) ps = (some err, ps)
  cleanup_listed namespace name none ps = delete_each (listed namespace name ps) ps

  unfoldable pub cleanup_network_policy : Bytes → Bytes → Policies → Option GoError × Policies
  cleanup_network_policy namespace name ps = cleanup_listed namespace name api.list_error ps

-- What handleNetworkPolicyDeletion and ensureNetworkPolicyFinalizer return, with the finalizers of the
-- Engine in the cluster and the policies.
pub record Finalized : Type 0 where
  pub answer : Bool
  pub error : Option GoError
  pub finalizers : List Bytes
  pub policies : Policies

module _ (fin : FinalizerList) (api : PolicyApi) where
  abbrev pub patched_finalizers :
      Bool → List Bytes → Option GoError → List Bytes → Policies → Finalized
  patched_finalizers fails before (some err) after ps = record {
    answer = fails;
    error = some err;
    finalizers = before;
    policies = ps;
  }
  patched_finalizers fails before none after ps = record {
    answer = true;
    error = none;
    finalizers = after;
    policies = ps;
  }

  unfoldable pub ensure_network_policy_finalizer : Engine → Policies → Finalized
  ensure_network_policy_finalizer e ps =
      let after = fin.add_finalizer e.finalizers network_policy_finalizer in
      if fin.contains_finalizer e.finalizers network_policy_finalizer
      then record { answer = false; error = none; finalizers = e.finalizers; policies = ps }
      else patched_finalizers false e.finalizers (api.patch_engine after) after ps

  abbrev pub after_cleanup : Engine → Option GoError × Policies → Finalized
  after_cleanup e (some err, ps) = record {
    answer = true;
    error = some err;
    finalizers = e.finalizers;
    policies = ps;
  }
  after_cleanup e (none, ps) =
      let after = fin.remove_finalizer e.finalizers network_policy_finalizer in
      patched_finalizers true e.finalizers (api.patch_engine after) after ps

  unfoldable pub handle_network_policy_deletion : Engine → Policies → Finalized
  handle_network_policy_deletion e ps =
      if not e.deleting
      then record { answer = false; error = none; finalizers = e.finalizers; policies = ps }
      else if not (fin.contains_finalizer e.finalizers network_policy_finalizer)
      then record { answer = true; error = none; finalizers = e.finalizers; policies = ps }
      else after_cleanup e (cleanup_network_policy api e.namespace e.name ps)
