-- ===== src/Controller/Istio/Applied.antt =====
-- internal/controller/engine_controller_istio_prerequisites.go: how the start of the prerequisites ends.
use coraza_kubernetes_operat.Prelude.{
  sym, sym, subst, subst, false, ◌≡◌, ◌∙◌, refl, ap, Option, none, some, List, [], ◌∷◌, ◌++◌,
}
use coraza_kubernetes_operat.Prelude.Bytes.{Bytes, bytes, bytes_eq}
use coraza_kubernetes_operat.Controller.Errors.{GoError}
use coraza_kubernetes_operat.Controller.Istio.{
  apply, Deployment, apply_owned, start, wrapped_error, IstioObject, IstioPrerequisites, deployment,
  no_deployment, Api, Applying, default_namespace, patched, server_side_apply, new_istio_object,
  build_service_entry, build_destination_rule, service_fqdn, resource_name, prerequisite_labels,
  owner_reference, apply_second,
}

server_side_apply-patched :
    (patch : IstioObject → Option GoError) (o : IstioObject) (applied : List IstioObject)
    → bytes_eq o.group [] ≡ false
    → bytes_eq o.name [] ≡ false
    → server_side_apply patch o applied
      ≡ patched (default_namespace o) (patch (default_namespace o)) applied
unfolding server_side_apply
server_side_apply-patched patch o applied g n = rw (g, n) refl

resource_name_given : (p : IstioPrerequisites) → bytes_eq (resource_name p) [] ≡ false
unfolding resource_name
resource_name_given p = given p.operator_name
  where
    given : (s : Bytes) → bytes_eq (s ++ bytes "-ruleset-cache") [] ≡ false
    given [] = refl
    given (c ∷ s) = refl

-- The objects that the API server sees.
module _ (p : IstioPrerequisites) (name uid : Bytes) where
  abbrev pub service_entry : IstioObject
  service_entry = default_namespace (
      build_service_entry p (resource_name p) (service_fqdn p) (prerequisite_labels p)
        (owner_reference p name uid))

  abbrev pub destination_rule : IstioObject
  destination_rule = default_namespace (
      build_destination_rule p (resource_name p) (service_fqdn p) (prerequisite_labels p)
        (owner_reference p name uid))

-- Each case has its reason, its error if there is one, and the objects that are applied.
pub data Ends (p : IstioPrerequisites) (api : Api) (r : Applying) : Type 0 where
  without_deployment :
      (e reported : GoError)
      → api.get_deployment p.namespace p.operator_name ≡ no_deployment e
      → r ≡ (some reported, [])
      → Ends p api r
  service_entry_refused :
      (name uid : Bytes) (e reported : GoError)
      → api.get_deployment p.namespace p.operator_name ≡ deployment name uid
      → api.patch (service_entry p name uid) ≡ some e
      → r ≡ (some reported, [])
      → Ends p api r
  destination_rule_refused :
      (name uid : Bytes) (e reported : GoError)
      → api.get_deployment p.namespace p.operator_name ≡ deployment name uid
      → api.patch (service_entry p name uid) ≡ none
      → api.patch (destination_rule p name uid) ≡ some e
      → r ≡ (some reported, service_entry p name uid ∷ [])
      → Ends p api r
  both_applied :
      (name uid : Bytes)
      → api.get_deployment p.namespace p.operator_name ≡ deployment name uid
      → api.patch (service_entry p name uid) ≡ none
      → api.patch (destination_rule p name uid) ≡ none
      → r ≡ (none, service_entry p name uid ∷ destination_rule p name uid ∷ [])
      → Ends p api r

module _ (p : IstioPrerequisites) (api : Api) (name uid : Bytes) where
  service_entry-patched :
      (a : Option GoError)
      → api.patch (service_entry p name uid) ≡ a
      → server_side_apply api.patch
          (build_service_entry p
            (resource_name p)
            (service_fqdn p)
            (prerequisite_labels p)
            (owner_reference p name uid))
          []
        ≡ patched (service_entry p name uid) a []
  unfolding build_service_entry new_istio_object
  service_entry-patched a h =
      server_side_apply-patched api.patch _ [] refl (resource_name_given p)
      ∙ ap (λ o. patched (service_entry p name uid) o []) h

  destination_rule-patched :
      (a : Option GoError) (applied : List IstioObject)
      → api.patch (destination_rule p name uid) ≡ a
      → server_side_apply api.patch
          (build_destination_rule p
            (resource_name p)
            (service_fqdn p)
            (prerequisite_labels p)
            (owner_reference p name uid))
          applied
        ≡ patched (destination_rule p name uid) a applied
  unfolding build_destination_rule new_istio_object
  destination_rule-patched a applied h =
      server_side_apply-patched api.patch _ applied refl (resource_name_given p)
      ∙ ap (λ o. patched (destination_rule p name uid) o applied) h

  ends_second :
      api.get_deployment p.namespace p.operator_name ≡ deployment name uid
      → api.patch (service_entry p name uid) ≡ none
      → (b : Option GoError) → api.patch (destination_rule p name uid) ≡ b
      → Ends p api (
          wrapped_error p api
            (bytes "applying Istio DestinationRule: ")
            (patched (destination_rule p name uid) b (service_entry p name uid ∷ [])))
  ends_second d s none h = both_applied name uid d s h refl
  ends_second d s (some e) h = destination_rule_refused name uid e _ d s h refl

  ends_first :
      api.get_deployment p.namespace p.operator_name ≡ deployment name uid
      → (a : Option GoError) → api.patch (service_entry p name uid) ≡ a
      → Ends p api (
          apply_second p api
            (build_destination_rule p
              (resource_name p)
              (service_fqdn p)
              (prerequisite_labels p)
              (owner_reference p name uid))
            (wrapped_error p api
              (bytes "applying Istio ServiceEntry: ")
              (patched (service_entry p name uid) a [])))
  ends_first d (some e) h = service_entry_refused name uid e _ d h refl
  ends_first d none h =
      subst (λ r. Ends p api (wrapped_error p api (bytes "applying Istio DestinationRule: ") r))
        (sym (destination_rule-patched _ (service_entry p name uid ∷ []) refl))
        (ends_second d h _ refl)

  ends_both :
      api.get_deployment p.namespace p.operator_name ≡ deployment name uid
      → Ends p api (apply_owned p api (deployment name uid) [])
  ends_both d =
      subst
        (λ r. Ends p api (
          apply_second p api
            (build_destination_rule p (resource_name p) (service_fqdn p) (prerequisite_labels p)
              (owner_reference p name uid))
            (wrapped_error p api (bytes "applying Istio ServiceEntry: ") r)))
        (sym (service_entry-patched _ refl)) (ends_first d _ refl)

ends_owned :
    (p : IstioPrerequisites) (api : Api) (d : Deployment)
    → api.get_deployment p.namespace p.operator_name ≡ d
    → Ends p api (apply_owned p api d [])
ends_owned p api (no_deployment e) h = without_deployment e _ h refl
ends_owned p api (deployment name uid) h = ends_both p api name uid h

-- The start of the prerequisites reports no error to the manager. It applies nothing without the
-- Deployment or when the ServiceEntry is refused, the ServiceEntry alone when the DestinationRule is
-- refused, and otherwise the ServiceEntry and then the DestinationRule, without an error; both are
-- built for the owner that the Deployment is.
pub start-Ends :
    (p : IstioPrerequisites) (api : Api)
    → ((start p api []).0 ≡ none) × Ends p api (start p api []).1
unfolding start apply
start-Ends p api = (refl, ends_owned p api _ refl)
