-- ===== src/Controller/Watches/Pods.antt =====
-- findEnginesForPod of internal/controller/engine_controller_map_funcs.go and engineMatchesLabels of
-- engine_controller_utils.go, against the watch of Gateways.
use coraza_kubernetes_operat.Prelude.{
  Bool-cases, Bool, true, false, not, ◌&&◌, ◌≡◌, Option, some, none, subst, inl, inr, List, [], ◌∷◌,
  arith, refl, ◌∙◌, sym, ap,
}
use coraza_kubernetes_operat.Prelude.Bytes.{Bytes, bytes, bytes_eq, bytes_eq_iff, bytes_eq-false}
use coraza_kubernetes_operat.Prelude.Assoc.{Assoc, lookup}
use coraza_kubernetes_operat.Controller.Policies.{
  PolicyApi, target_label_selector, labels_of_target, gateway, other_target, TargetType,
}
use coraza_kubernetes_operat.Controller.Engine.{EngineObject}
use coraza_kubernetes_operat.Controller.Watches.{
  NamespacedName, Listing, items, not_listed, Reader, collect_requests, collect_listed, engine_name,
  has_gateway_target, engine_matches_labels, selected_by, is_selected, find_engines_for_pod,
  find_engines_for_gateway,
}

abbrev pub gateway_name_label : Bytes
gateway_name_label = bytes "gateway.networking.k8s.io/gateway-name"

abbrev pub is_value : Bytes → Option Bytes → Bool
is_value v none = false
is_value v (some w) = bytes_eq w v

abbrev pub carries : Bytes → Bytes → Assoc Bytes → Bool
carries k v labels = is_value v (lookup k labels)

-- A selector of one label, with a value that is a DNS label, selects what carries it.
pub record SelectsLabels (reader : Reader) (api : PolicyApi) : Type 0 where
  pub selects_label :
      (v : Bytes) (labels : Assoc Bytes)
      → api.is_dns_label v ≡ true
      → reader.selects ((gateway_name_label, v) ∷ []) labels
        ≡ some (carries gateway_name_label v labels)

collect_requests-cong :
    {A : Type 0} (name : A → NamespacedName) (p q : A → Bool) (xs : List A)
    → ((x : A) → p x ≡ q x)
    → collect_requests name p xs ≡ collect_requests name q xs
unfolding collect_requests
collect_requests-cong name p q [] h = refl
collect_requests-cong name p q (x ∷ xs) h = rw (h x, collect_requests-cong name p q xs h)

collect_listed-cong :
    {A : Type 0} (name : A → NamespacedName) (p q : A → Bool) (l : Listing A)
    → ((x : A) → p x ≡ q x)
    → collect_listed name p l ≡ collect_listed name q l
collect_listed-cong name p q (items xs) h = collect_requests-cong name p q xs h
collect_listed-cong name p q (not_listed e) h = refl

module _ (reader : Reader) (api : PolicyApi) (selects : SelectsLabels reader api)
    (labels : Assoc Bytes) (g : Bytes) (labelled : lookup gateway_name_label labels ≡ some g)
    (is_label : api.is_dns_label g ≡ true) where
  carried : (name : Bytes) → carries gateway_name_label name labels ≡ bytes_eq g name
  carried name = ap (is_value name) labelled

  selected_label :
      (name : Bytes)
      → api.is_dns_label name ≡ true
      → selected_by reader (some ((gateway_name_label, name) ∷ [])) labels ≡ bytes_eq name g
  selected_label name d =
      ap is_selected (selects.selects_label name labels d)
      ∙ carried name
      ∙ ground (arith, bytes_eq_iff g name, bytes_eq_iff name g)

  not_label : (name : Bytes) → api.is_dns_label name ≡ false → bytes_eq name g ≡ false
  not_label name d =
      bytes_eq-false name g
        (λ e. absurd (cc (d, subst (λ n. api.is_dns_label n ≡ true) (sym e) is_label)))

  selected_target :
      (t : TargetType) (name : Bytes)
      → selected_by reader (labels_of_target api t name) labels
        ≡ (elim t [ gateway ↦ not (bytes_eq name []) | other_target ↦ false ] && bytes_eq name g)
  selected_target other_target name = refl
  selected_target gateway name = elim (Bool-cases (bytes_eq name [])) [
    | inl e ↦ rw e refl
    | inr e ↦ elim (Bool-cases (api.is_dns_label name)) [
      | inl d ↦ rw (e, d) (selected_label name d)
      | inr d ↦ rw (e, d, not_label name d) refl
    ]
  ]

  engine_matches_labels_lem :
      (e : EngineObject)
      → engine_matches_labels reader api e.engine labels
        ≡ (has_gateway_target e.engine && bytes_eq e.engine.target_name g)
  unfolding engine_matches_labels has_gateway_target target_label_selector
  engine_matches_labels_lem e = selected_target e.engine.target_type e.engine.target_name

-- A Pod with the label of a Gateway, whose name is a DNS label, requests the same Engines in the same
-- order as the Gateway of that name in the namespace of the Pod.
pub find_engines_for_pod-find_engines_for_gateway :
    (reader : Reader) (api : PolicyApi)
    → SelectsLabels reader api
    → (namespace : Bytes) (labels : Assoc Bytes) (g : Bytes)
    → lookup gateway_name_label labels ≡ some g
    → api.is_dns_label g ≡ true
    → find_engines_for_pod reader api namespace labels
      ≡ find_engines_for_gateway reader (record { object_namespace = namespace; object_name = g })
unfolding find_engines_for_pod find_engines_for_gateway
find_engines_for_pod-find_engines_for_gateway reader api s namespace labels g l d =
    collect_listed-cong engine_name (λ e. engine_matches_labels reader api e.engine labels)
      (λ e. has_gateway_target e.engine && bytes_eq e.engine.target_name g)
      (reader.list_engines namespace) (engine_matches_labels_lem reader api s labels g l d)
