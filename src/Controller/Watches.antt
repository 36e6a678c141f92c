-- ===== src/Controller/Watches.antt =====
-- internal/controller/ruleset_controller_watch_predicates.go, engine_controller_map_funcs.go,
-- engine_controller_utils.go, hasGatewayTarget, the watch functions of
-- engine_controller_network_policy.go and utils.go, and the indexes of SetupWithManager.
-- The lists of the API, its selectors and the predicates of controller-runtime are parameters.
pub mod Requests
pub mod RuleSets
pub mod Engines
pub mod Pods
pub mod Policy
mod Examples
use coraza_kubernetes_operat.Prelude.{
  ℕ, Bool, true, false, not, ◌&&◌, ◌||◌, ◌≡◌, Option, none, some, List, [], ◌∷◌, if◌then◌else◌,
  ◌==◌,
}
use coraza_kubernetes_operat.Prelude.Bytes.{Bytes, bytes, bytes_eq}
use coraza_kubernetes_operat.Prelude.Assoc.{Assoc, lookup}
use coraza_kubernetes_operat.Controller.Errors.{GoError}
use coraza_kubernetes_operat.Controller.RuleSet.{RuleSet}
use coraza_kubernetes_operat.Controller.Policies.{
  gateway, other_target, Engine, NetworkPolicy, PolicyApi, target_label_selector,
}
use coraza_kubernetes_operat.Controller.Engine.{EngineObject}

-- The name of an object, which is all that a request for a reconciliation holds.
pub record NamespacedName : Type 0 where
  pub object_namespace : Bytes
  pub object_name : Bytes

pub data Listing (A : Type 0) : Type 0 where
  items : List A → Listing A
  not_listed : GoError → Listing A

pub data IndexKey : Type 0 where
  spec_sources_name spec_data_name : IndexKey

-- The names under which a RuleSet stands in an index.
unfoldable pub index_values : IndexKey → RuleSet → List Bytes
index_values spec_sources_name rs = rs.sources
index_values spec_data_name rs = rs.data_sources

-- What the manager's client lists, and LabelSelectorAsSelector with Matches: `none` for an error.
pub record Reader : Type 0 where
  pub list_rule_sets : Bytes → IndexKey → Bytes → Listing RuleSet
  pub list_engines : Bytes → Listing EngineObject
  pub selects : Assoc Bytes → Assoc Bytes → Option Bool

unfoldable pub collect_requests :
    {A : Type 0} → (A → NamespacedName) → (A → Bool) → List A → List NamespacedName
collect_requests name matches [] = []
collect_requests name matches (x ∷ xs) =
    let rest = collect_requests name matches xs in if matches x then name x ∷ rest else rest

unfoldable pub rule_set_name : RuleSet → NamespacedName
rule_set_name rs = record { object_namespace = rs.namespace; object_name = rs.name }

unfoldable pub engine_name : EngineObject → NamespacedName
engine_name e = record { object_namespace = e.engine.namespace; object_name = e.engine.name }

-- An error is logged, and nothing is requested.
abbrev pub collect_listed :
    {A : Type 0} → (A → NamespacedName) → (A → Bool) → Listing A → List NamespacedName
collect_listed name matches (items xs) = collect_requests name matches xs
collect_listed name matches (not_listed e) = []

unfoldable pub has_gateway_target : Engine → Bool
has_gateway_target e = elim e.target_type [
  | gateway ↦ not (bytes_eq e.target_name [])
  | other_target ↦ false
]

abbrev pub is_selected : Option Bool → Bool
is_selected none = false
is_selected (some matches) = matches

module _ (reader : Reader) where
  unfoldable pub find_rule_sets_by : Bytes → IndexKey → Bytes → List NamespacedName
  find_rule_sets_by namespace key value =
      collect_listed rule_set_name (λ _. true) (reader.list_rule_sets namespace key value)

  -- The RuleSource and the RuleData that changed are given by their names.
  unfoldable pub find_rule_sets_for_rule_source : NamespacedName → List NamespacedName
  find_rule_sets_for_rule_source o =
      find_rule_sets_by o.object_namespace spec_sources_name o.object_name

  unfoldable pub find_rule_sets_for_rule_data : NamespacedName → List NamespacedName
  find_rule_sets_for_rule_data o = find_rule_sets_by o.object_namespace spec_data_name o.object_name

  unfoldable pub find_engines_for_rule_set : NamespacedName → List NamespacedName
  find_engines_for_rule_set o =
      collect_listed engine_name (λ e. bytes_eq e.rule_set o.object_name)
        (reader.list_engines o.object_namespace)

  unfoldable pub find_engines_for_gateway : NamespacedName → List NamespacedName
  find_engines_for_gateway o =
      collect_listed engine_name
        (λ e. has_gateway_target e.engine && bytes_eq e.engine.target_name o.object_name)
        (reader.list_engines o.object_namespace)

  abbrev pub selected_by : Option (Assoc Bytes) → Assoc Bytes → Bool
  selected_by none labels = false
  selected_by (some selector) labels = is_selected (reader.selects selector labels)

  unfoldable pub engine_matches_labels : PolicyApi → Engine → Assoc Bytes → Bool
  engine_matches_labels api e labels = selected_by (target_label_selector api e) labels

  -- A Pod is its namespace and its labels.
  unfoldable pub find_engines_for_pod : PolicyApi → Bytes → Assoc Bytes → List NamespacedName
  find_engines_for_pod api namespace labels =
      collect_listed engine_name (λ e. engine_matches_labels api e.engine labels)
        (reader.list_engines namespace)

abbrev pub network_policy_engine_label_name : Bytes
network_policy_engine_label_name = bytes "waf.k8s.coraza.io/engine-name"

abbrev pub network_policy_engine_label_namespace : Bytes
network_policy_engine_label_namespace = bytes "waf.k8s.coraza.io/engine-namespace"

-- The labels that buildNetworkPolicy gives to a policy.
unfoldable pub labels_of_policy : NetworkPolicy → Assoc Bytes
labels_of_policy p =
    (bytes "app.kubernetes.io/managed-by", bytes "coraza-kubernetes-operator")
    ∷ (network_policy_engine_label_name, p.engine_name)
    ∷ (network_policy_engine_label_namespace, p.engine_namespace)
    ∷ []

-- m[k] of a map of strings, with the empty string where the key is missing.
abbrev pub label : Bytes → Assoc Bytes → Bytes
label k labels = elim (lookup k labels) [ none ↦ [] | some v ↦ v ]

unfoldable pub find_engines_for_network_policy : Assoc Bytes → List NamespacedName
find_engines_for_network_policy labels =
    let name = label network_policy_engine_label_name labels in
    let namespace = label network_policy_engine_label_namespace labels in
    if bytes_eq name [] || bytes_eq namespace []
    then []
    else record { object_namespace = namespace; object_name = name } ∷ []

-- The metadata of an object in an event.
pub record Meta : Type 0 where
  pub meta_generation : ℕ
  pub labels : Assoc Bytes
  pub annotations : Assoc Bytes

pub data WatchEvent : Type 0 where
  object_created object_deleted object_generic : Meta → WatchEvent
  object_updated : Option Meta → Option Meta → WatchEvent

abbrev pub Predicate : Type 0
Predicate = WatchEvent → Bool

unfoldable pub annotation_changed_predicate : Bytes → Predicate
annotation_changed_predicate key (object_created m) = false
annotation_changed_predicate key (object_deleted m) = false
annotation_changed_predicate key (object_generic m) = false
annotation_changed_predicate key (object_updated none new) = false
annotation_changed_predicate key (object_updated old none) = false
annotation_changed_predicate key (object_updated (some old) (some new)) =
    not (bytes_eq (label key old.annotations) (label key new.annotations))

-- The first operand of predicate.Or in networkPolicyPredicate.
unfoldable pub created_or_deleted : Predicate
created_or_deleted (object_created m) = true
created_or_deleted (object_deleted m) = true
created_or_deleted (object_generic m) = false
created_or_deleted (object_updated old new) = false

unfoldable pub has_engine_label : Meta → Bool
has_engine_label m = elim (lookup network_policy_engine_label_name m.labels) [
  | none ↦ false
  | some v ↦ true
]

-- GenerationChangedPredicate and NewPredicateFuncs of controller-runtime, on events whose objects are
-- there, as they are documented: an update passes if the generation differs, and a filter judges the
-- object, the new one of an update. And and Or are the operations on Booleans.
pub record Library : Type 0 where
  pub generation_changed : Predicate
  pub new_predicate_funcs : (Meta → Bool) → Predicate
  pub generation_changed_update :
      (old new : Meta)
      → generation_changed (object_updated (some old) (some new))
        ≡ not (old.meta_generation == new.meta_generation)
  pub generation_changed_created : (m : Meta) → generation_changed (object_created m) ≡ true
  pub new_predicate_funcs_created :
      (f : Meta → Bool) (m : Meta) → new_predicate_funcs f (object_created m) ≡ f m
  pub new_predicate_funcs_deleted :
      (f : Meta → Bool) (m : Meta) → new_predicate_funcs f (object_deleted m) ≡ f m
  pub new_predicate_funcs_updated :
      (f : Meta → Bool) (old new : Meta)
      → new_predicate_funcs f (object_updated (some old) (some new)) ≡ f new

module _ (lib : Library) where
  unfoldable pub network_policy_predicate : Predicate
  network_policy_predicate e =
      lib.new_predicate_funcs has_engine_label e
      && (created_or_deleted e || lib.generation_changed e)

  -- The predicate of the RuleSets' watch in SetupWithManager.
  unfoldable pub rule_set_predicate : Predicate
  rule_set_predicate e =
      lib.generation_changed e
      || annotation_changed_predicate (bytes "waf.k8s.coraza.io/skip-unsupported-rules-check") e
