-- ===== src/ProjectManager/Commands/Plan.antt =====
-- The changes of update-labels settle.
use coraza_kubernetes_operat.Prelude.{
  subst, ◌&&◌, ◌≤◌, Bool, true, false, not, ◌||◌, List, [], ◌∷◌, ◌++◌, ◌≡◌, refl, sym, ap, ◌∙◌, any,
  any-append, all, select, count_if, Bool-cases, inl, inr, ◌⊎◌, if◌then◌else◌,
}
use mathlib.Core.List.{append_assoc, append-nil}
use coraza_kubernetes_operat.Prelude.Bytes.{Bytes, bytes, bytes_eq, has_prefix}
use coraza_kubernetes_operat.ProjectManager.Triage.{
  effective_labels, has_label_prefix, area_rules, compute_area_labels, compute_size_labels, holds,
  accepted, needs_triage, compute_label_updates, AreaRule, matching_areas,
}
use coraza_kubernetes_operat.CoreRuleSet.Strings.{to_lower}
use coraza_kubernetes_operat.ProjectManager.Commands.{label_plan}
use coraza_kubernetes_operat.ProjectManager.Triage.WithMilestone.{no_update}
use coraza_kubernetes_operat.ProjectManager.Triage.Settled.{compute_label_updates_settle}
use coraza_kubernetes_operat.ProjectManager.Triage.Labels.{or_right_true, and_false}
use coraza_kubernetes_operat.ProjectManager.Commands.Neutral.{
  is_triage, select_all, holds-neutral, updates-neutral, any_matching, matching_area,
}

any-left : (p : Bytes → Bool) (xs ys : List Bytes) → any p xs ≡ true → any p (xs ++ ys) ≡ true
any-left p xs ys h = any-append p xs ys ∙ rw h

any-right : (p : Bytes → Bool) (xs ys : List Bytes) → any p ys ≡ true → any p (xs ++ ys) ≡ true
any-right p xs ys h = any-append p xs ys ∙ ap (λ t. any p xs || t) h ∙ or_right_true (any p xs)

abbrev is_size : Bytes → Bool
is_size l = has_prefix l (bytes "size/")

abbrev is_area : Bytes → Bool
is_area l = has_prefix l (bytes "area/")

size_quiet :
    (l : List Bytes)
    → (holds l accepted ≡ false) ⊎ (any is_size l ≡ true)
    → compute_size_labels l ≡ []
unfolding compute_size_labels has_label_prefix
size_quiet l (inl a) = rw a
size_quiet l (inr z) = rw (z, and_false (holds l accepted))

size_due :
    (l : List Bytes)
    → holds l accepted ≡ true
    → any is_size l ≡ false
    → any is_size (compute_size_labels l) ≡ true
unfolding compute_size_labels has_label_prefix
size_due l a z = rw (a, z)

area_quiet :
    (l : List Bytes) (body : Bytes)
    → (holds l accepted ≡ false) ⊎ (any is_area l ≡ true)
    → compute_area_labels l body ≡ []
unfolding compute_area_labels has_label_prefix
area_quiet l body (inl a) = rw a
area_quiet l body (inr z) = rw (z, or_right_true (not (holds l accepted)))

area_due :
    (l : List Bytes) (body : Bytes)
    → holds l accepted ≡ true
    → any is_area l ≡ false
    → compute_area_labels l body ≡ matching_areas area_rules (to_lower body)
unfolding compute_area_labels has_label_prefix
area_due l body a z = rw (a, z)

size_neutral : (l : List Bytes) → any is_triage (compute_size_labels l) ≡ false
unfolding compute_size_labels
size_neutral l = by_flag (holds l accepted && not (has_label_prefix l (bytes "size/")))
  where
    by_flag : (b : Bool) → any is_triage (if b then bytes "size/needs-sizing" ∷ [] else []) ≡ false
    by_flag true = refl
    by_flag false = refl

matching_neutral : (lower : Bytes) → any is_triage (matching_areas area_rules lower) ≡ false
unfolding area_rules
matching_neutral lower = any_matching is_triage area_rules lower refl

area_neutral : (l : List Bytes) (body : Bytes) → any is_triage (compute_area_labels l body) ≡ false
unfolding compute_area_labels
area_neutral l body = by_flag (not (holds l accepted) || has_label_prefix l (bytes "area/"))
  where
    by_flag :
        (b : Bool)
        → any is_triage (if b then [] else matching_areas area_rules (to_lower body)) ≡ false
    by_flag true = refl
    by_flag false = matching_neutral (to_lower body)

rules_area : all (λ (r : AreaRule). is_area r.label) area_rules ≡ true
unfolding area_rules
rules_area = refl

module _ (eff : List Bytes) (body : Bytes) where
  extra : List Bytes
  extra = compute_size_labels eff ++ compute_area_labels eff body

  extra_neutral : any is_triage extra ≡ false
  unfolding extra
  extra_neutral =
      any-append is_triage (compute_size_labels eff) (compute_area_labels eff body)
      ∙ rw (size_neutral eff, area_neutral eff body)

  same_accepted : holds (eff ++ extra) accepted ≡ holds eff accepted
  same_accepted = holds-neutral eff extra extra_neutral accepted refl

  size_settled : compute_size_labels (eff ++ extra) ≡ []
  unfolding extra
  size_settled = size_quiet (eff ++ extra) (elim (Bool-cases (holds eff accepted)) [
    | inr a ↦ inl (same_accepted ∙ a)
    | inl a ↦ elim (Bool-cases (any is_size eff)) [
      | inl z ↦ inr (any-left is_size eff extra z)
      | inr z ↦ inr (
          any-right is_size eff extra (
            any-left is_size (compute_size_labels eff) (compute_area_labels eff body)
              (size_due eff a z)))
    ]
  ])

  unmatched :
      holds (eff ++ extra) accepted ≡ true
      → matching_areas area_rules (to_lower body) ≡ []
      → compute_area_labels (eff ++ extra) body ≡ []
  unmatched a m = elim (Bool-cases (any is_area (eff ++ extra))) [
    | inl z ↦ area_quiet (eff ++ extra) body (inr z)
    | inr z ↦ area_due (eff ++ extra) body a z ∙ m
  ]

  area_settled : compute_area_labels (eff ++ extra) body ≡ []
  unfolding extra
  area_settled = elim (Bool-cases (holds eff accepted)) [
    | inr a ↦ area_quiet (eff ++ extra) body (inl (same_accepted ∙ a))
    | inl a ↦ elim (Bool-cases (any is_area eff)) [
      | inl z ↦ area_quiet (eff ++ extra) body (inr (any-left is_area eff extra z))
      | inr z ↦ elim (matching_area is_area area_rules (to_lower body) rules_area) [
        | inl m ↦ unmatched (same_accepted ∙ a) m
        | inr m ↦ area_quiet (eff ++ extra) body (
            inr (
              any-right is_area eff extra (
                any-right is_area (compute_size_labels eff) _
                  (ap (any is_area) (area_due eff body a z) ∙ m))))
      ]
    ]
  ]

  -- Labels whose triage labels are settled, with their size and area labels, are settled.
  plan_settled :
      (m : Bool)
      → compute_label_updates eff m ≡ no_update
      → label_plan (eff ++ extra) m body ≡ no_update
  unfolding label_plan effective_labels
  plan_settled m u = rw (
    updates-neutral eff extra extra_neutral m,
    u,
    select_all (eff ++ extra),
    append-nil (eff ++ extra),
    size_settled,
    area_settled,
  )

planned_labels :
    (labels : List Bytes) (milestone : Bool) (body : Bytes)
    → let eff = effective_labels labels (compute_label_updates labels milestone) in
      effective_labels labels (label_plan labels milestone body) ≡ eff ++ extra eff body
unfolding label_plan effective_labels extra
planned_labels labels milestone body =
    let r = compute_label_updates labels milestone in
    let eff = effective_labels labels r in
    let kept = select (λ l. not (holds r.labels_to_remove l)) labels in
    ap (λ t. kept ++ t)
      (append_assoc r.labels_to_add (compute_size_labels eff) (compute_area_labels eff body))
    ∙ sym (append_assoc kept r.labels_to_add (extra eff body))

-- Once update-labels has made its changes, a further run of it finds nothing to change, for a label set
-- that does not have needs-triage twice.
pub label_plan_settles :
    (labels : List Bytes) (milestone : Bool) (body : Bytes)
    → count_if (bytes_eq needs_triage) labels ≤ 1
    → label_plan (effective_labels labels (label_plan labels milestone body)) milestone body
      ≡ no_update
label_plan_settles labels milestone body u =
    let r = compute_label_updates labels milestone in
    let eff = effective_labels labels r in
    subst (λ l. label_plan l milestone body ≡ no_update)
      (sym (planned_labels labels milestone body))
      (plan_settled eff body milestone (compute_label_updates_settle labels milestone u))
