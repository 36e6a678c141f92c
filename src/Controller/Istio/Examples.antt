-- ===== src/Controller/Istio/Examples.antt =====
-- Tests of the Istio prerequisites, and their theorem at a concrete input.
use coraza_kubernetes_operat.Prelude.{true, false, ◌≡◌, refl, none, some, [], ◌∷◌, map}
use coraza_kubernetes_operat.Prelude.Bytes.{Bytes, bytes, bytes_eq}
use coraza_kubernetes_operat.Controller.Errors.{plain_error}
use coraza_kubernetes_operat.Controller.Istio.{
  IstioPrerequisites, deployment, Api, server_side_apply, new_istio_object, build_service_entry,
  build_destination_rule, service_fqdn, resource_name, prerequisite_labels, owner_reference, apply,
  start,
}
use coraza_kubernetes_operat.Controller.Istio.Applied.{Ends, start-Ends}

abbrev prerequisites : IstioPrerequisites
prerequisites = record {
  operator_name = bytes "coraza";
  namespace = [];
  istio_revision = bytes "canary";
}

-- The server refuses what is of the kind.
abbrev api_without : Bytes → Api
api_without kind = record {
  get_deployment = λ _ name. deployment name (bytes "uid-1");
  patch = λ o. elim (bytes_eq o.kind kind) [
    | true ↦ some (plain_error (bytes "no matches for kind"))
    | false ↦ none
  ];
}

-- Both objects are applied, in the namespace that stands for none.
applied_in_order :
    map (λ o. o.kind) (start prerequisites (api_without []) []).1.1
    ≡ bytes "ServiceEntry" ∷ bytes "DestinationRule" ∷ []
unfolding start apply server_side_apply new_istio_object build_service_entry build_destination_rule
    service_fqdn resource_name prerequisite_labels owner_reference
applied_in_order = refl

refused_at_first : start prerequisites (api_without (bytes "ServiceEntry")) [] ≡ (
  none,
  (
    some (
        plain_error (
          bytes
            "applying Istio ServiceEntry: server-side apply ServiceEntry default/coraza-ruleset-cache: no matches for kind")),
    [],
  ),
)
unfolding start apply server_side_apply new_istio_object build_service_entry build_destination_rule
    service_fqdn resource_name prerequisite_labels owner_reference
refused_at_first = refl

start-Ends_example :
    ((start prerequisites (api_without (bytes "DestinationRule")) []).0 ≡ none)
    × Ends prerequisites
        (api_without (bytes "DestinationRule"))
        (start prerequisites (api_without (bytes "DestinationRule")) []).1
start-Ends_example = start-Ends prerequisites (api_without (bytes "DestinationRule"))
