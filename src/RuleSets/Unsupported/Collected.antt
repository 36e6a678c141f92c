-- ===== src/RuleSets/Unsupported/Collected.antt =====
-- What the check for unsupported rules reports.
use coraza_kubernetes_operat.Prelude.{
  ℕ, Bool, true, false, ◌||◌, ◌&&◌, ◌≡◌, refl, sym, subst, ap, ◌∙◌, inl, inr, List, [], ◌∷◌, any,
  any-append, All, All-append, none, some, find, ◌==◌, arith, Bool-cases, Option-cases,
  if◌then◌else◌,
}
use coraza_kubernetes_operat.Prelude.Bytes.{Bytes}
use coraza_kubernetes_operat.Prelude.Sort.{
  any-sort_by, HasDistinctKeys, IsIncreasing, sort_by-IsIncreasing, All-sort_by,
  HasDistinctKeys-append,
}
use coraza_kubernetes_operat.RuleSets.Unsupported.Registry.{
  UnsupportedRule, build_registry, unsupported_rule,
}
use coraza_kubernetes_operat.RuleSets.Unsupported.RuleIds.{mentioned_ids}
use coraza_kubernetes_operat.RuleSets.Unsupported.Check.{
  has_id, add_found, find_unsupported, check_unsupported_rules,
}

abbrev pub mentions : ℕ → List ℕ → Bool
mentions id = any (λ i. i == id)

find-id :
    (id : ℕ) (l : List UnsupportedRule) (r : UnsupportedRule)
    → find (λ x. x.id == id) l ≡ some r
    → r.id ≡ id
find-id id [] r h = cc
find-id id (x ∷ l) r h = ground (arith, find-id id l r)

unsupported_rule-id : (id : ℕ) (r : UnsupportedRule) → unsupported_rule id ≡ some r → r.id ≡ id
unfolding unsupported_rule
unsupported_rule-id id r h = find-id id build_registry r h

unsupported_rule_absent : (id : ℕ) → unsupported_rule id ≡ none → has_id id build_registry ≡ false
unfolding unsupported_rule
unsupported_rule_absent id h = go build_registry h
  where
    go : (l : List UnsupportedRule) → find (λ x. x.id == id) l ≡ none → has_id id l ≡ false
    go [] e = refl
    go (x ∷ l) e = ground (arith, go l)

unsupported_rule_present :
    (id : ℕ) (r : UnsupportedRule) → unsupported_rule id ≡ some r → has_id id build_registry ≡ true
unfolding unsupported_rule
unsupported_rule_present id r h = go build_registry h
  where
    go : (l : List UnsupportedRule) → find (λ x. x.id == id) l ≡ some r → has_id id l ≡ true
    go [] e = cc
    go (x ∷ l) e = ground (arith, go l)

same_id : (i id : ℕ) → (i == id) ≡ true → i ≡ id
same_id i id h = ground arith

module _ (id : ℕ) where
  -- A rule that is found already is in the registry, so its ID adds nothing.
  step_old :
      (found : List UnsupportedRule) (i : ℕ)
      → has_id i found ≡ true
      → has_id id found ≡ (has_id id found || (i == id && has_id id build_registry))
  step_old found i h = elim (Bool-cases (i == id)) [
    | inl e ↦
        let h' : has_id id found ≡ true = subst (λ k. has_id k found ≡ true) (same_id i id e) h in
        rw (e, h') refl
    | inr e ↦ rw e (ground arith)
  ]

  step_unknown :
      (found : List UnsupportedRule) (i : ℕ)
      → has_id i build_registry ≡ false
      → has_id id found ≡ (has_id id found || (i == id && has_id id build_registry))
  step_unknown found i h = elim (Bool-cases (i == id)) [
    | inl e ↦
        let h' : has_id id build_registry ≡ false =
          subst (λ k. has_id k build_registry ≡ false) (same_id i id e) h in
        rw (e, h') (ground arith)
    | inr e ↦ rw e (ground arith)
  ]

  step_added :
      (i : ℕ) (r : UnsupportedRule)
      → r.id ≡ i
      → has_id i build_registry ≡ true
      → (r.id == id || false) ≡ (i == id && has_id id build_registry)
  step_added i r e h = elim (Bool-cases (i == id)) [
    | inl f ↦
        let h' : has_id id build_registry ≡ true =
          subst (λ k. has_id k build_registry ≡ true) (same_id i id f) h in
        rw (e, f, h') refl
    | inr f ↦ rw (e, f) refl
  ]

  step-has_id :
      (found : List UnsupportedRule) (i : ℕ)
      → has_id id (if has_id i found then found else add_found found (unsupported_rule i))
        ≡ (has_id id found || (i == id && has_id id build_registry))
  step-has_id found i = elim (Bool-cases (has_id i found)) [
    | inl old ↦ rw old (step_old found i old)
    | inr new ↦ elim (Option-cases (unsupported_rule i)) [
      | inl e ↦ rw (new, e) (step_unknown found i (unsupported_rule_absent i e))
      | inr (r, e) ↦
          rw (new, e)
            (any-append (λ x. x.id == id) found (r ∷ [])
              ∙ ap (λ b. has_id id found || b)
                  (step_added i r (unsupported_rule-id i r e) (unsupported_rule_present i r e)))
    ]
  ]

  has_id-find_unsupported :
      (found : List UnsupportedRule) (ids : List ℕ)
      → has_id id (find_unsupported found ids)
        ≡ (has_id id found || (mentions id ids && has_id id build_registry))
  unfolding find_unsupported
  has_id-find_unsupported found [] = ground arith
  has_id-find_unsupported found (i ∷ ids) = ground (
    arith,
    has_id-find_unsupported (if has_id i found then found else add_found found (unsupported_rule i))
        ids,
    step-has_id found i,
  )

step-HasDistinctKeys :
    (found : List UnsupportedRule) (i : ℕ)
    → HasDistinctKeys (λ r. r.id) found
    → HasDistinctKeys
        (λ r. r.id)
        (if has_id i found then found else add_found found (unsupported_rule i))
step-HasDistinctKeys found i d = elim (Bool-cases (has_id i found)) [
  | inl old ↦ rw old d
  | inr new ↦ elim (Option-cases (unsupported_rule i)) [
    | inl e ↦ rw (new, e) d
    | inr (r, e) ↦
        rw (new, e)
          (HasDistinctKeys-append (λ x. x.id) found r
            (subst (λ k. has_id k found ≡ false) (sym (unsupported_rule-id i r e)) new) d)
  ]
]

abbrev pub IsRegistered : UnsupportedRule → Type 0
IsRegistered r = unsupported_rule r.id ≡ some r

step-IsRegistered :
    (found : List UnsupportedRule) (i : ℕ)
    → All IsRegistered found
    → All IsRegistered (if has_id i found then found else add_found found (unsupported_rule i))
step-IsRegistered found i h = elim (Bool-cases (has_id i found)) [
  | inl old ↦ rw old h
  | inr new ↦ elim (Option-cases (unsupported_rule i)) [
    | inl e ↦ rw (new, e) h
    | inr (r, e) ↦
        rw (new, e)
          (All-append IsRegistered found (r ∷ []) h
            (ap unsupported_rule (unsupported_rule-id i r e) ∙ e, tt))
  ]
]

find_unsupported-HasDistinctKeys :
    (found : List UnsupportedRule) (ids : List ℕ)
    → HasDistinctKeys (λ r. r.id) found
    → HasDistinctKeys (λ r. r.id) (find_unsupported found ids)
unfolding find_unsupported
find_unsupported-HasDistinctKeys found [] d = d
find_unsupported-HasDistinctKeys found (i ∷ ids) d =
    find_unsupported-HasDistinctKeys
      (if has_id i found then found else add_found found (unsupported_rule i)) ids
      (step-HasDistinctKeys found i d)

find_unsupported-IsRegistered :
    (found : List UnsupportedRule) (ids : List ℕ)
    → All IsRegistered found
    → All IsRegistered (find_unsupported found ids)
unfolding find_unsupported
find_unsupported-IsRegistered found [] h = h
find_unsupported-IsRegistered found (i ∷ ids) h =
    find_unsupported-IsRegistered
      (if has_id i found then found else add_found found (unsupported_rule i)) ids
      (step-IsRegistered found i h)

-- The check reports exactly the rules of the registry whose ID an active line mentions, each as it
-- is registered, once, and in the order of their IDs.
pub check_exact :
    (rules : Bytes)
    → ((id : ℕ)
        → has_id id (check_unsupported_rules rules)
          ≡ (mentions id (mentioned_ids rules) && has_id id build_registry))
      × All IsRegistered (check_unsupported_rules rules)
      × IsIncreasing (λ r. r.id) (check_unsupported_rules rules)
unfolding check_unsupported_rules
check_exact rules = (
  λ id.
      any-sort_by (λ r. r.id) (λ r. r.id == id) (find_unsupported [] (mentioned_ids rules))
      ∙ has_id-find_unsupported id [] (mentioned_ids rules),
  All-sort_by (λ r. r.id) IsRegistered (find_unsupported [] (mentioned_ids rules))
      (find_unsupported-IsRegistered [] (mentioned_ids rules) tt),
  sort_by-IsIncreasing (λ r. r.id) (find_unsupported [] (mentioned_ids rules))
      (find_unsupported-HasDistinctKeys [] (mentioned_ids rules) tt),
)
