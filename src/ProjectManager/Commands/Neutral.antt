-- ===== src/ProjectManager/Commands/Neutral.antt =====
-- Labels that are no triage labels, and the labels of the area rules.
use coraza_kubernetes_operat.Prelude.{
  Bool, true, false, not, ◌||◌, List, [], ◌∷◌, ◌++◌, ◌≡◌, refl, sym, ap, ◌∙◌, arith, any,
  any-append, all, select, count_if, Bool-cases, inl, inr, ◌⊎◌,
}
use mathlib.Core.List.{append-nil}
use coraza_kubernetes_operat.Prelude.Bytes.{Bytes, bytes, bytes_eq, has_prefix, contains}
use coraza_kubernetes_operat.ProjectManager.Triage.{
  holds, accepted, needs_triage, is_other_triage, compute_label_updates, AreaRule, matching_areas,
}
use coraza_kubernetes_operat.ProjectManager.Triage.Labels.{eq_of, count-append}

abbrev pub is_triage : Bytes → Bool
is_triage l = has_prefix l (bytes "triage/")

any-weaken :
    (p q : Bytes → Bool) (l : List Bytes)
    → ((x : Bytes) → p x ≡ true → q x ≡ true)
    → any q l ≡ false
    → any p l ≡ false
any-weaken p q [] h e = refl
any-weaken p q (x ∷ l) h e = ground (arith, h x, e, any-weaken p q l h)

select-append :
    (p : Bytes → Bool) (xs ys : List Bytes) → select p (xs ++ ys) ≡ select p xs ++ select p ys
select-append p [] ys = refl
select-append p (x ∷ xs) ys = ground (arith, select-append p xs ys)

count-any :
    (p : Bytes → Bool) (l : List Bytes) → any p l ≡ false → (count_if p l ≡ 0) × (select p l ≡ [])
count-any p [] e = (refl, refl)
count-any p (x ∷ l) e = ground (arith, e, count-any p l)

pub select_all : (l : List Bytes) → select (λ x. not (holds [] x)) l ≡ l
select_all [] = refl
select_all (x ∷ l) = ap (◌∷◌ x) (select_all l)

label_triage :
    (label : Bytes)
    → is_triage label ≡ true
    → (x : Bytes) → bytes_eq label x ≡ true
    → is_triage x ≡ true
label_triage label t x e = ap is_triage (sym (eq_of label x e)) ∙ t

other_triage : (x : Bytes) → is_other_triage accepted x ≡ true → is_triage x ≡ true
unfolding is_other_triage
other_triage x h = ground (arith, h)

or_false : (a b : Bool) → b ≡ false → (a || b) ≡ a
or_false a b h = ground (arith, h)

-- Labels that are no triage labels do not count.
module _ (l extra : List Bytes) (neutral : any is_triage extra ≡ false) where
  pub holds-neutral :
      (label : Bytes) → is_triage label ≡ true → holds (l ++ extra) label ≡ holds l label
  holds-neutral label t =
      any-append (bytes_eq label) l extra
      ∙ or_false _ _ (any-weaken (bytes_eq label) is_triage extra (label_triage label t) neutral)

  no_other : any (is_other_triage accepted) extra ≡ false
  no_other = any-weaken (is_other_triage accepted) is_triage extra other_triage neutral

  select-neutral :
      select (is_other_triage accepted) (l ++ extra) ≡ select (is_other_triage accepted) l
  select-neutral =
      select-append (is_other_triage accepted) l extra
      ∙ ap (λ t. select (is_other_triage accepted) l ++ t)
          (count-any (is_other_triage accepted) extra no_other).1
      ∙ append-nil _

  count-neutral :
      count_if (is_other_triage accepted) (l ++ extra) ≡ count_if (is_other_triage accepted) l
  count-neutral = omega (
    arith,
    count-append (is_other_triage accepted) l extra,
    (count-any (is_other_triage accepted) extra no_other).0,
  )

  pub updates-neutral :
      (m : Bool) → compute_label_updates (l ++ extra) m ≡ compute_label_updates l m
  unfolding compute_label_updates
  updates-neutral true = rw (holds-neutral accepted refl, select-neutral)
  updates-neutral false =
      rw (holds-neutral accepted refl, holds-neutral needs_triage refl, count-neutral)

pub any_matching :
    (p : Bytes → Bool) (rules : List AreaRule) (lower : Bytes)
    → any (λ (r : AreaRule). p r.label) rules ≡ false
    → any p (matching_areas rules lower) ≡ false
unfolding matching_areas
any_matching p [] lower h = refl
any_matching p (r ∷ rules) lower h = ground (arith, h, any_matching p rules lower)

-- If any rule matches, its label is an area label.
pub matching_area :
    (p : Bytes → Bool) (rules : List AreaRule) (lower : Bytes)
    → all (λ (r : AreaRule). p r.label) rules ≡ true
    → (matching_areas rules lower ≡ []) ⊎ (any p (matching_areas rules lower) ≡ true)
unfolding matching_areas
matching_area p [] lower h = inl refl
matching_area p (r ∷ rules) lower h = elim (Bool-cases (any (contains lower) r.keywords)) [
  | inl e ↦ inr (rw e (ground (arith, h)))
  | inr e ↦ rw e (matching_area p rules lower (ground (arith, h)))
]
