-- ===== src/Controller/Istio.antt =====
-- internal/controller/engine_controller_istio_prerequisites.go and serverSideApply of utils.go: the
-- ServiceEntry and the DestinationRule that the operator applies once when it starts.
-- The Deployment that is read and the answers to the patches are parameters.
pub mod Applied
mod Examples
use coraza_kubernetes_operat.Prelude.{
  ℕ, Bool, ◌&&◌, Option, none, some, List, [], ◌∷◌, ◌++◌, if◌then◌else◌,
}
use coraza_kubernetes_operat.Prelude.Bytes.{Bytes, bytes, bytes_eq}
use coraza_kubernetes_operat.Prelude.Assoc.{Assoc}
use coraza_kubernetes_operat.Controller.Errors.{GoError, plain_error, wrap}

pub record OwnerReference : Type 0 where
  pub api_version : Bytes
  pub owner_kind : Bytes
  pub owner_name : Bytes
  pub owner_uid : Bytes

pub data IstioSpec : Type 0 where
  -- hosts, the port with its name and protocol, location, resolution and the addresses of endpoints
  service_entry_spec : List Bytes → ℕ → Bytes → Bytes → Bytes → Bytes → List Bytes → IstioSpec
  -- host and the mode of trafficPolicy.tls
  destination_rule_spec : Bytes → Bytes → IstioSpec

pub record IstioObject : Type 0 where
  pub group : Bytes
  pub version : Bytes
  pub kind : Bytes
  pub name : Bytes
  pub namespace : Bytes
  pub labels : Assoc Bytes
  pub owner : OwnerReference
  pub spec : IstioSpec

-- The client and the reader of the code stand in `Api`.
pub record IstioPrerequisites : Type 0 where
  pub operator_name : Bytes
  pub namespace : Bytes
  pub istio_revision : Bytes

-- The name and the UID of the Deployment that is found.
pub data Deployment : Type 0 where
  deployment : Bytes → Bytes → Deployment
  no_deployment : GoError → Deployment

pub record Api : Type 0 where
  pub get_deployment : Bytes → Bytes → Deployment
  pub patch : IstioObject → Option GoError

-- An error with the objects that the server has accepted, in their order.
abbrev pub Applying : Type 0
Applying = Option GoError × List IstioObject

abbrev pub default_namespace : IstioObject → IstioObject
default_namespace o =
    if bytes_eq o.namespace [] then record o { namespace = bytes "default" } else o

abbrev pub patched : IstioObject → Option GoError → List IstioObject → Applying
patched o none applied = (none, applied ++ o ∷ [])
patched o (some e) applied = (
  some (
      wrap
        (bytes "server-side apply "
          ++ (o.kind ++ (bytes " " ++ (o.namespace ++ (bytes "/" ++ (o.name ++ bytes ": "))))))
        e),
  applied,
)

unfoldable pub server_side_apply :
    (IstioObject → Option GoError) → IstioObject → List IstioObject → Applying
server_side_apply patch desired applied =
    let o = default_namespace desired in
    if bytes_eq desired.group [] && (bytes_eq desired.version [] && bytes_eq desired.kind [])
    then (some (plain_error (bytes "desired object must have GroupVersionKind set")), applied)
    else if bytes_eq desired.name []
    then (some (plain_error (bytes "desired object must have a name set")), applied)
    else patched o (patch o) applied

module _ (p : IstioPrerequisites) where
  unfoldable pub new_istio_object :
      Bytes → Bytes → Assoc Bytes → OwnerReference → IstioSpec → IstioObject
  new_istio_object kind name labels owner spec = record {
    group = bytes "networking.istio.io";
    version = bytes "v1";
    kind = kind;
    name = name;
    namespace = p.namespace;
    labels = labels;
    owner = owner;
    spec = spec;
  }

  unfoldable pub build_service_entry : Bytes → Bytes → Assoc Bytes → OwnerReference → IstioObject
  build_service_entry name service_fqdn labels owner =
      new_istio_object (bytes "ServiceEntry") name labels owner (
        service_entry_spec (service_fqdn ∷ []) 80 (bytes "http-ruleset-cache-server") (bytes "HTTP")
          (bytes "MESH_INTERNAL") (bytes "DNS") (service_fqdn ∷ []))

  unfoldable pub build_destination_rule : Bytes → Bytes → Assoc Bytes → OwnerReference → IstioObject
  build_destination_rule name service_fqdn labels owner =
      new_istio_object (bytes "DestinationRule") name labels owner
        (destination_rule_spec service_fqdn (bytes "DISABLE"))

  unfoldable pub service_fqdn : Bytes
  service_fqdn = p.operator_name ++ (bytes "." ++ (p.namespace ++ bytes ".svc.cluster.local"))

  unfoldable pub resource_name : Bytes
  resource_name = p.operator_name ++ bytes "-ruleset-cache"

  unfoldable pub prerequisite_labels : Assoc Bytes
  prerequisite_labels =
      let common =
        (bytes "app.kubernetes.io/name", p.operator_name)
        ∷ (bytes "app.kubernetes.io/instance", p.operator_name)
        ∷ [] in
      if bytes_eq p.istio_revision []
      then common
      else common ++ (bytes "istio.io/rev", p.istio_revision) ∷ []

  unfoldable pub owner_reference : Bytes → Bytes → OwnerReference
  owner_reference name uid = record {
    api_version = bytes "apps/v1";
    owner_kind = bytes "Deployment";
    owner_name = name;
    owner_uid = uid;
  }

  module _ (api : Api) where
    abbrev pub wrapped_error : Bytes → Applying → Applying
    wrapped_error prefix (none, applied) = (none, applied)
    wrapped_error prefix (some e, applied) = (some (wrap prefix e), applied)

    abbrev pub apply_second : IstioObject → Applying → Applying
    apply_second dr (some e, applied) = (some e, applied)
    apply_second dr (none, applied) =
        wrapped_error (bytes "applying Istio DestinationRule: ")
          (server_side_apply api.patch dr applied)

    abbrev pub apply_both : IstioObject → IstioObject → List IstioObject → Applying
    apply_both se dr applied = apply_second dr (
        wrapped_error (bytes "applying Istio ServiceEntry: ")
          (server_side_apply api.patch se applied))

    abbrev pub apply_owned : Deployment → List IstioObject → Applying
    apply_owned (no_deployment e) applied = (
      some (
          wrap
            (bytes "looking up owner Deployment "
              ++ (p.namespace ++ (bytes "/" ++ (p.operator_name ++ bytes ": "))))
            e),
      applied,
    )
    apply_owned (deployment name uid) applied =
        apply_both
          (build_service_entry resource_name service_fqdn prerequisite_labels
            (owner_reference name uid))
          (build_destination_rule resource_name service_fqdn prerequisite_labels
            (owner_reference name uid))
          applied

    unfoldable pub apply : List IstioObject → Applying
    apply applied = apply_owned (api.get_deployment p.namespace p.operator_name) applied

    -- The error is logged, and `start` returns nil.
    unfoldable pub start : List IstioObject → Option GoError × Applying
    start applied = (none, apply applied)
