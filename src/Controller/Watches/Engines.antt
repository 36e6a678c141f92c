-- ===== src/Controller/Watches/Engines.antt =====
-- internal/controller/engine_controller_map_funcs.go: which Engines are reconciled when a RuleSet or a
-- Gateway changes.
use coraza_kubernetes_operat.Prelude.{
  Bool, true, ◌&&◌, ◌≡◌, ◌↔◌, List, In, select, arith, sym, subst,
}
use coraza_kubernetes_operat.Prelude.Bytes.{Bytes, bytes_eq, bytes_eq_iff}
use coraza_kubernetes_operat.Controller.Engine.{EngineObject}
use coraza_kubernetes_operat.Controller.Watches.{
  find_engines_for_gateway, engine_name, find_engines_for_rule_set, has_gateway_target,
  NamespacedName, items, Reader, collect_requests, collect_listed,
}
use coraza_kubernetes_operat.Controller.Watches.Requests.{collect_requests-select_iff}

-- What the client's documentation says of a list with InNamespace.
pub record ListsEngines (reader : Reader) (engines : List EngineObject) : Type 0 where
  pub lists_engines :
      (namespace : Bytes)
      → reader.list_engines namespace
        ≡ items (select (λ e. bytes_eq e.engine.namespace namespace) engines)

-- An Engine of the namespace that meets a condition.
abbrev pub Meets :
    (EngineObject → Type 0) → List EngineObject → NamespacedName → EngineObject → Type 0
Meets Q engines o e = In e engines × (e.engine.namespace ≡ o.object_namespace) × Q e

find_engines_iff :
    (reader : Reader) (engines : List EngineObject)
    → ListsEngines reader engines
    → (o n : NamespacedName) (matches : EngineObject → Bool) (Q : EngineObject → Type 0)
    → ((e : EngineObject) → (matches e ≡ true) ↔ Q e)
    → In n (collect_listed engine_name matches (reader.list_engines o.object_namespace))
      ↔ ((e : EngineObject) × Meets Q engines o e × (engine_name e ≡ n))
find_engines_iff reader engines h o n matches Q q = (forth, back)
  where
    test : EngineObject → Bool
    test e = bytes_eq e.engine.namespace o.object_namespace

    unfold_list :
        collect_listed engine_name matches (reader.list_engines o.object_namespace)
        ≡ collect_requests engine_name matches (select test engines)
    unfold_list = rw (h.lists_engines o.object_namespace)

    forth :
        In n (collect_listed engine_name matches (reader.list_engines o.object_namespace))
        → (e : EngineObject) × Meets Q engines o e × (engine_name e ≡ n)
    forth i =
        let (e, j, t, p) =
          (collect_requests-select_iff engine_name matches test engines n).0
            (subst (In n) unfold_list i) in
        (
          e,
          (
            j,
            (bytes_eq_iff e.engine.namespace o.object_namespace).0 (ground (arith, t)),
            (q e).0 (ground (arith, t)),
          ),
          p,
        )

    back :
        (e : EngineObject) × Meets Q engines o e × (engine_name e ≡ n)
        → In n (collect_listed engine_name matches (reader.list_engines o.object_namespace))
    back (e, (i, s, m), p) = subst (In n) (sym unfold_list) (
        (collect_requests-select_iff engine_name matches test engines n).1 (
          e,
          i,
          ground (arith, (bytes_eq_iff e.engine.namespace o.object_namespace).1 s, (q e).1 m),
          p,
        ))

targets_iff :
    (name : Bytes) (e : EngineObject)
    → ((has_gateway_target e.engine && bytes_eq e.engine.target_name name) ≡ true)
      ↔ ((has_gateway_target e.engine ≡ true) × (e.engine.target_name ≡ name))
targets_iff name e = (
  λ t. (ground (arith, t), (bytes_eq_iff e.engine.target_name name).0 (ground (arith, t))),
  λ (t, p). ground (arith, t, (bytes_eq_iff e.engine.target_name name).1 p),
)

-- A change of a RuleSet requests exactly the Engines of its namespace that name it, and a change of a
-- Gateway those that target the Gateway of that name, where the client's lists are those of the
-- cluster.
pub find_engines_exact :
    (reader : Reader) (engines : List EngineObject)
    → ListsEngines reader engines
    → (o n : NamespacedName)
    → (In n (find_engines_for_rule_set reader o) ↔ (
        (e : EngineObject) × Meets (λ x. x.rule_set ≡ o.object_name) engines o e
        × (engine_name e ≡ n)))
      × (In n (find_engines_for_gateway reader o) ↔ (
          (e : EngineObject) × Meets
            (λ x. (has_gateway_target x.engine ≡ true) × (x.engine.target_name ≡ o.object_name))
            engines
            o
            e
          × (engine_name e ≡ n)))
unfolding find_engines_for_rule_set find_engines_for_gateway
find_engines_exact reader engines h o n = (
  find_engines_iff reader engines h o n (λ e. bytes_eq e.rule_set o.object_name)
      (λ e. e.rule_set ≡ o.object_name) (λ e. bytes_eq_iff e.rule_set o.object_name),
  find_engines_iff reader engines h o n
      (λ e. has_gateway_target e.engine && bytes_eq e.engine.target_name o.object_name)
      (λ e. (has_gateway_target e.engine ≡ true) × (e.engine.target_name ≡ o.object_name))
      (targets_iff o.object_name),
)
