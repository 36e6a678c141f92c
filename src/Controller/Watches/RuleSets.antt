-- ===== src/Controller/Watches/RuleSets.antt =====
-- internal/controller/ruleset_controller_watch_predicates.go: which RuleSets are reconciled when a
-- RuleSource or a RuleData changes.
use coraza_kubernetes_operat.Prelude.{
  Bool-cases, Bool, true, ◌&&◌, ◌≡◌, ◌↔◌, inl, inr, List, [], ◌∷◌, In, any, select, arith, sym,
  subst,
}
use coraza_kubernetes_operat.Prelude.Bytes.{Bytes, bytes_eq, bytes_eq_iff}
use coraza_kubernetes_operat.Controller.RuleSet.{RuleSet}
use coraza_kubernetes_operat.Controller.Watches.{
  NamespacedName, items, IndexKey, spec_sources_name, spec_data_name, Reader, index_values,
  collect_requests, collect_listed, rule_set_name, find_rule_sets_by,
  find_rule_sets_for_rule_source, find_rule_sets_for_rule_data,
}
use coraza_kubernetes_operat.Controller.Watches.Requests.{collect_requests-select_iff}

-- What the client's documentation says of a list with InNamespace, and MatchingFields of an index.
abbrev pub indexed : Bytes → IndexKey → Bytes → RuleSet → Bool
indexed namespace key value rs =
    bytes_eq rs.namespace namespace && any (bytes_eq value) (index_values key rs)

pub record ListsRuleSets (reader : Reader) (rule_sets : List RuleSet) : Type 0 where
  pub lists_rule_sets :
      (namespace : Bytes) (key : IndexKey) (value : Bytes)
      → reader.list_rule_sets namespace key value
        ≡ items (select (indexed namespace key value) rule_sets)

any-In_cons :
    (v w : Bytes) (l : List Bytes)
    → (any (bytes_eq v) l ≡ true) ↔ In v l
    → (any (bytes_eq v) (w ∷ l) ≡ true) ↔ In v (w ∷ l)
any-In_cons v w l h = (forth, back)
  where
    forth : any (bytes_eq v) (w ∷ l) ≡ true → In v (w ∷ l)
    forth t = elim (Bool-cases (bytes_eq v w)) [
      | inl e ↦ inl ((bytes_eq_iff v w).0 e)
      | inr f ↦ inr (h.0 (ground (arith, t, f)))
    ]

    back : In v (w ∷ l) → any (bytes_eq v) (w ∷ l) ≡ true
    back (inl e) = ground (arith, (bytes_eq_iff v w).1 e)
    back (inr i) = ground (arith, h.1 i)

any-In : (v : Bytes) (l : List Bytes) → (any (bytes_eq v) l ≡ true) ↔ In v l
any-In v [] = (λ h. absurd (cc h), λ i. absurd i)
any-In v (w ∷ l) = any-In_cons v w l (any-In v l)

-- A RuleSet of the namespace has a list that names the object.
abbrev pub References : (RuleSet → List Bytes) → List RuleSet → NamespacedName → RuleSet → Type 0
References listed rule_sets o rs =
    In rs rule_sets × (rs.namespace ≡ o.object_namespace) × In o.object_name (listed rs)

find_rule_sets_by_iff :
    (reader : Reader) (rule_sets : List RuleSet)
    → ListsRuleSets reader rule_sets
    → (key : IndexKey) (o n : NamespacedName)
    → In n (find_rule_sets_by reader o.object_namespace key o.object_name)
      ↔ ((rs : RuleSet) × References (index_values key) rule_sets o rs × (rule_set_name rs ≡ n))
unfolding find_rule_sets_by
find_rule_sets_by_iff reader rule_sets h key o n = (forth, back)
  where
    test : RuleSet → Bool
    test = indexed o.object_namespace key o.object_name

    found : List NamespacedName → Type 0
    found = In n

    unfold_list :
        collect_listed rule_set_name
          (λ _. true)
          (reader.list_rule_sets o.object_namespace key o.object_name)
        ≡ collect_requests rule_set_name (λ _. true) (select test rule_sets)
    unfold_list = rw (h.lists_rule_sets o.object_namespace key o.object_name)

    forth :
        In n (
          collect_listed rule_set_name
            (λ _. true)
            (reader.list_rule_sets o.object_namespace key o.object_name))
        → (rs : RuleSet) × References (index_values key) rule_sets o rs × (rule_set_name rs ≡ n)
    forth i =
        let (rs, j, t, e) =
          (collect_requests-select_iff rule_set_name (λ _. true) test rule_sets n).0
            (subst found unfold_list i) in
        (
          rs,
          (
            j,
            (bytes_eq_iff rs.namespace o.object_namespace).0 (ground (arith, t)),
            (any-In o.object_name (index_values key rs)).0 (ground (arith, t)),
          ),
          e,
        )

    back :
        (rs : RuleSet) × References (index_values key) rule_sets o rs × (rule_set_name rs ≡ n)
        → In n (
            collect_listed rule_set_name
              (λ _. true)
              (reader.list_rule_sets o.object_namespace key o.object_name))
    back (rs, (i, s, m), e) = subst found (sym unfold_list) (
        (collect_requests-select_iff rule_set_name (λ _. true) test rule_sets n).1 (
          rs,
          i,
          ground (
            arith,
            (bytes_eq_iff rs.namespace o.object_namespace).1 s,
            (any-In o.object_name (index_values key rs)).1 m,
          ),
          e,
        ))

-- A change of a RuleSource requests exactly the RuleSets of its namespace that name it among their
-- sources, and a change of a RuleData those that name it among their data, where the client's lists
-- are those of the cluster.
pub find_rule_sets_exact :
    (reader : Reader) (rule_sets : List RuleSet)
    → ListsRuleSets reader rule_sets
    → (o n : NamespacedName)
    → (In n (find_rule_sets_for_rule_source reader o)
        ↔ ((rs : RuleSet) × References (λ r. r.sources) rule_sets o rs × (rule_set_name rs ≡ n)))
      × (In n (find_rule_sets_for_rule_data reader o) ↔ (
          (rs : RuleSet) × References (λ r. r.data_sources) rule_sets o rs
          × (rule_set_name rs ≡ n)))
unfolding find_rule_sets_for_rule_source find_rule_sets_for_rule_data index_values
find_rule_sets_exact reader rule_sets h o n = (
  find_rule_sets_by_iff reader rule_sets h spec_sources_name o n,
  find_rule_sets_by_iff reader rule_sets h spec_data_name o n,
)
