-- ===== src/Controller/Watches/Policy.antt =====
-- findEnginesForNetworkPolicy and networkPolicyPredicate of
-- internal/controller/engine_controller_network_policy.go, with the policies that the Engine owns.
use coraza_kubernetes_operat.Prelude.{
  true, false, not, ◌&&◌, ◌≡◌, ◌↔◌, inl, inr, some, [], ◌∷◌, In, subst, arith, refl, sym, ap, ◌==◌,
}
use coraza_kubernetes_operat.Prelude.Bytes.{bytes_eq, bytes_eq_iff}
use coraza_kubernetes_operat.Controller.Policies.{
  NetworkPolicy, is_of_engine, Engine, PolicyApi, build_network_policy,
}
use coraza_kubernetes_operat.Controller.Watches.{
  NamespacedName, labels_of_policy, find_engines_for_network_policy, Meta, object_created,
  object_deleted, object_updated, Library, network_policy_predicate, has_engine_label,
  created_or_deleted,
}

requested_owner :
    (p : NetworkPolicy)
    → bytes_eq p.engine_name [] ≡ false
    → bytes_eq p.engine_namespace [] ≡ false
    → find_engines_for_network_policy (labels_of_policy p)
      ≡ record { object_namespace = p.engine_namespace; object_name = p.engine_name } ∷ []
unfolding find_engines_for_network_policy labels_of_policy
requested_owner p h k = rw (h, k)

-- A request that the watch makes for a policy with the name and the namespace of its owner in its
-- labels is for the Engine whose lookup finds the policy, and for no other.
pub find_engines_for_network_policy-is_of_engine :
    (p : NetworkPolicy) (n : NamespacedName)
    → bytes_eq p.engine_name [] ≡ false
    → bytes_eq p.engine_namespace [] ≡ false
    → In n (find_engines_for_network_policy (labels_of_policy p))
      ↔ (is_of_engine n.object_namespace n.object_name p ≡ true)
unfolding is_of_engine
find_engines_for_network_policy-is_of_engine p n h k = (forth, back)
  where
    forth :
        In n (find_engines_for_network_policy (labels_of_policy p))
        → (bytes_eq p.engine_name n.object_name && bytes_eq p.engine_namespace n.object_namespace)
          ≡ true
    forth i = elim (subst (In n) (requested_owner p h k) i) [
      | inl e ↦ ground (
        arith,
        (bytes_eq_iff p.engine_name n.object_name).1 (sym (ap (λ m. m.object_name) e)),
        (bytes_eq_iff p.engine_namespace n.object_namespace).1
            (sym (ap (λ m. m.object_namespace) e)),
      )
      | inr j ↦ absurd j
    ]

    back :
        (bytes_eq p.engine_name n.object_name && bytes_eq p.engine_namespace n.object_namespace)
          ≡ true
        → In n (find_engines_for_network_policy (labels_of_policy p))
    back t = subst (In n) (sym (requested_owner p h k)) (
        inl (
          cc (
            (bytes_eq_iff p.engine_name n.object_name).0 (ground (arith, t)),
            (bytes_eq_iff p.engine_namespace n.object_namespace).0 (ground (arith, t)),
          )))

labelled :
    (m : Meta) (p : NetworkPolicy) → m.labels ≡ labels_of_policy p → has_engine_label m ≡ true
unfolding has_engine_label labels_of_policy
labelled m p h = rw h

-- An event about a policy with the labels of an Engine's passes the predicate when the policy is
-- created, when it is deleted, and when an update changes the generation, and no other update does.
pub network_policy_predicate_owned :
    (lib : Library) (api : PolicyApi) (e : Engine) (m old : Meta)
    → m.labels ≡ labels_of_policy (build_network_policy api e)
    → (network_policy_predicate lib (object_created m) ≡ true)
      × (network_policy_predicate lib (object_deleted m) ≡ true)
      × (network_policy_predicate lib (object_updated (some old) (some m))
          ≡ not (old.meta_generation == m.meta_generation))
unfolding network_policy_predicate created_or_deleted
network_policy_predicate_owned lib api e m old h = (
  rw (lib.new_predicate_funcs_created has_engine_label m, labelled m _ h) refl,
  rw (lib.new_predicate_funcs_deleted has_engine_label m, labelled m _ h) refl,
  rw
      (
        lib.new_predicate_funcs_updated has_engine_label old m,
        labelled m _ h,
        lib.generation_changed_update old m,
      )
      refl,
)
