-- ===== src/Controller/Policies/Apply.antt =====
-- The policy that is applied for an Engine.
use coraza_kubernetes_operat.Prelude.{
  Bool, true, false, not, ◌||◌, ◌≡◌, ◌⊎◌, inl, inr, refl, sym, ap, ◌∙◌, subst, Option, none, some,
  List, [], ◌∷◌, Bool-cases, if◌then◌else◌,
}
use coraza_kubernetes_operat.Prelude.Bytes.{Bytes, bytes, bytes_eq, bytes_eq_refl, bytes_eq_iff}
use coraza_kubernetes_operat.Prelude.Assoc.{Assoc, IsMap, lookup, lookup-insert}
use coraza_kubernetes_operat.Controller.Errors.{GoError}
use coraza_kubernetes_operat.Controller.Policies.{
  Engine, TargetType, gateway, other_target, NetworkPolicy, PolicyApi, Policies, Creation,
  created_as, not_created, is_of_engine, listed, apply_first, apply_listed, apply_to,
  apply_network_policy, build_network_policy, target_label_selector, add_created, put_updated,
  labels_of_target, or_empty,
}

-- The policy belongs to the Engine, and lets in only the pods of its gateway in its namespace.
pub record IsFor (e : Engine) (p : NetworkPolicy) : Type 0 where
  pub owned : is_of_engine e.namespace e.name p ≡ true
  pub namespace : p.from_namespace ≡ e.namespace
  pub pods : p.from_pods ≡ (bytes "gateway.networking.k8s.io/gateway-name", e.target_name) ∷ []

nil-cons {ℓ} : {A : Type ℓ} {a : A} {l : List A} → ◌≡◌ {A = List A} [] (a ∷ l) → ⊥
nil-cons h = cc

none-some {ℓ} : {A : Type ℓ} {a : A} → ◌≡◌ {A = Option A} none (some a) → ⊥
none-some h = cc

abbrev key_of : Bytes → Policies → Bytes
key_of k [] = k
key_of k ((j, _) ∷ ps) = j

abbrev value_of : NetworkPolicy → Policies → NetworkPolicy
value_of p [] = p
value_of p ((_, q) ∷ ps) = q

module _ (api : PolicyApi) (e : Engine) (ps : Policies) where
  -- The policies after a call: one name has the Engine's policy, which the call has created or which
  -- is the first that was listed for the Engine before, and all others are as they were.
  pub record Applied (ps' : Policies) : Type 0 where
    pub name : Bytes
    pub policy : NetworkPolicy
    pub fits : IsFor e policy
    pub elsewhere :
        (k : Bytes) → lookup k ps' ≡ (if bytes_eq name k then some policy else lookup k ps)
    pub origin :
        ((listed e.namespace e.name ps ≡ []) × (api.create_policy policy ≡ created_as name))
        ⊎ ((old : NetworkPolicy) × (rest : Policies) × (listed e.namespace e.name ps
              ≡ (name, old) ∷ rest)
            × (lookup name ps ≡ some old)
            × (is_of_engine e.namespace e.name old ≡ true))

  selector_cases :
      (target_label_selector api e ≡ none)
      ⊎ (target_label_selector api e
          ≡ some ((bytes "gateway.networking.k8s.io/gateway-name", e.target_name) ∷ []))
  unfolding target_label_selector
  selector_cases = go e.target_type
    where
      go :
          (t : TargetType)
          → (labels_of_target api t e.target_name ≡ none)
            ⊎ (labels_of_target api t e.target_name
                ≡ some ((bytes "gateway.networking.k8s.io/gateway-name", e.target_name) ∷ []))
      go other_target = inl refl
      go gateway =
          elim (Bool-cases (bytes_eq e.target_name [] || not (api.is_dns_label e.target_name))) [
            | inl h ↦ inl (rw h refl)
            | inr h ↦ inr (rw h refl)
          ]

  first_listed :
      (qs : Policies) (name : Bytes) (p : NetworkPolicy) (rest : Policies)
      → IsMap qs
      → listed e.namespace e.name qs ≡ (name, p) ∷ rest
      → (lookup name qs ≡ some p) × (is_of_engine e.namespace e.name p ≡ true)
  first_listed [] name p rest m h = absurd (nil-cons h)
  first_listed ((j, q) ∷ qs) name p rest m h =
      let ih = first_listed qs name p rest m.1 in
      choose (is_of_engine e.namespace e.name q) refl ih h
    where
      choose :
          (b : Bool)
          → is_of_engine e.namespace e.name q ≡ b
          → (listed e.namespace e.name qs ≡ (name, p) ∷ rest
              → (lookup name qs ≡ some p) × (is_of_engine e.namespace e.name p ≡ true))
          → (if b then (j, q) ∷ listed e.namespace e.name qs else listed e.namespace e.name qs)
            ≡ (name, p) ∷ rest
          → ((if bytes_eq j name then some q else lookup name qs) ≡ some p)
            × (is_of_engine e.namespace e.name p ≡ true)
      choose true o ih h =
          let key : j ≡ name = ap (λ l. key_of j l) h in
          let value : q ≡ p = ap (λ l. value_of q l) h in
          (
            ap (λ b. if b then some q else lookup name qs) ((bytes_eq_iff j name).1 key)
                ∙ ap some value,
            subst (λ r. is_of_engine e.namespace e.name r ≡ true) value o,
          )
      choose false o ih h = (
        (elim (Bool-cases (bytes_eq j name)) [
          | inl same ↦ absurd (
              none-some (sym m.0 ∙ ap (λ k. lookup k qs) ((bytes_eq_iff j name).0 same) ∙ (ih h).0))
          | inr other ↦ rw other (ih h).0
        ]),
        (ih h).1,
      )

  apply_first-Applied :
      (qs : Policies) (p : NetworkPolicy)
      → IsMap ps
      → listed e.namespace e.name ps ≡ qs
      → IsFor e p
      → (apply_first api p qs ps).0 ≡ none
      → Applied (apply_first api p qs ps).1
  apply_first-Applied [] p m h fits = go (api.create_policy p) refl
    where
      go :
          (a : Creation)
          → api.create_policy p ≡ a
          → (add_created api p a ps).0 ≡ none
          → Applied (add_created api p a ps).1
      go (not_created err) q n = absurd (none-some (sym n))
      go (created_as name) q n = record {
        name = name;
        policy = p;
        fits = fits;
        elsewhere = λ k. lookup-insert name k p ps;
        origin = inl (h, q);
      }
  apply_first-Applied ((name, old) ∷ rest) p m h fits = go (api.update_policy name p)
    where
      go :
          (o : Option GoError)
          → (put_updated api name p o ps).0 ≡ none
          → Applied (put_updated api name p o ps).1
      go (some err) n = absurd (none-some (sym n))
      go none n = record {
        name = name;
        policy = p;
        fits = fits;
        elsewhere = λ k. lookup-insert name k p ps;
        origin =
            let (here, owned) = first_listed ps name old rest m h in
            inr (old, rest, h, here, owned);
      }

  -- Where applyNetworkPolicy returns no error, one name has a policy that belongs to the Engine and
  -- lets in only the pods of its gateway in its namespace; it stands in the place of the first policy
  -- that is listed for the Engine, or is new where none is listed; and every other policy is as it was.
  pub apply_network_policy-Applied :
      IsMap ps
      → (apply_network_policy api e ps).0 ≡ none
      → Applied (apply_network_policy api e ps).1
  unfolding apply_network_policy build_network_policy is_of_engine
  apply_network_policy-Applied m = elim selector_cases [
    | inl h ↦ subst Sound (sym h) (λ n. absurd (none-some (sym n)))
    | inr h ↦ subst Sound (sym h) (go h api.list_error)
  ]
    where
      Sound : Option (Assoc Bytes) → Type 0
      Sound s = (apply_to api e s ps).0 ≡ none → Applied (apply_to api e s ps).1

      go :
          (target_label_selector api e
            ≡ some ((bytes "gateway.networking.k8s.io/gateway-name", e.target_name) ∷ []))
          → (o : Option GoError) → (apply_listed api e o ps).0 ≡ none
          → Applied (apply_listed api e o ps).1
      go h (some err) n = absurd (none-some (sym n))
      go h none n =
          apply_first-Applied (listed e.namespace e.name ps) (build_network_policy api e) m refl
            (record {
              owned = rw (bytes_eq_refl e.name, bytes_eq_refl e.namespace) refl;
              namespace = refl;
              pods = ap (λ o. or_empty api o) h;
            })
            n
