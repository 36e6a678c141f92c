-- ===== src/Controller/Conditions/Sample.antt =====
-- Lists of conditions as FindStatusCondition, SetStatusCondition and RemoveStatusCondition document
-- them, to instantiate the parameter.
use coraza_kubernetes_operat.Prelude.{
  true, ◌≡◌, refl, ap, Option, none, some, List, [], ◌∷◌, if◌then◌else◌, Bool-cases, inl, inr,
  arith,
}
use coraza_kubernetes_operat.Prelude.Bytes.{Bytes, bytes_eq, bytes_eq_iff}
use coraza_kubernetes_operat.Controller.Conditions.{Condition, ConditionList, stamped}

abbrev pub find_condition : List Condition → Bytes → Option Condition
find_condition [] t = none
find_condition (d ∷ ds) t = if bytes_eq d.type t then some d else find_condition ds t

abbrev pub set_condition : List Condition → Condition → List Condition
set_condition [] c = c ∷ []
set_condition (d ∷ ds) c =
    let rest = set_condition ds c in
    if bytes_eq d.type c.type then stamped (some d) c ∷ ds else d ∷ rest

abbrev pub remove_condition : List Condition → Bytes → List Condition
remove_condition [] t = []
remove_condition (d ∷ ds) t =
    let rest = remove_condition ds t in if bytes_eq d.type t then rest else d ∷ rest

type-stamped : (d c : Condition) → (stamped (some d) c).type ≡ c.type
type-stamped d c = ground arith

same_left : (a b t : Bytes) → bytes_eq a b ≡ true → bytes_eq a t ≡ bytes_eq b t
same_left a b t e = ap (λ s. bytes_eq s t) ((bytes_eq_iff a b).0 e)

same_right : (a b t : Bytes) → bytes_eq b t ≡ true → bytes_eq a b ≡ bytes_eq a t
same_right a b t e = ap (λ s. bytes_eq a s) ((bytes_eq_iff b t).0 e)

pub find-set_condition :
    (cs : List Condition) (c : Condition) (t : Bytes)
    → find_condition (set_condition cs c) t ≡ (
        if bytes_eq c.type t
        then some (stamped (find_condition cs c.type) c)
        else find_condition cs t)
find-set_condition [] c t = refl
find-set_condition (d ∷ ds) c t =
    let ih = find-set_condition ds c t in
    elim (Bool-cases (bytes_eq d.type c.type)) [
      | inl e ↦ ground (arith, e, same_left d.type c.type t e)
      | inr e ↦ elim (Bool-cases (bytes_eq c.type t)) [
        | inl f ↦ ground (arith, e, f, ih, same_right d.type c.type t f)
        | inr f ↦ ground (arith, e, f, ih)
      ]
    ]

pub find-remove_condition :
    (cs : List Condition) (s t : Bytes)
    → find_condition (remove_condition cs s) t
      ≡ (if bytes_eq s t then none else find_condition cs t)
find-remove_condition [] s t = ground arith
find-remove_condition (d ∷ ds) s t =
    let ih = find-remove_condition ds s t in
    elim (Bool-cases (bytes_eq d.type s)) [
      | inl e ↦ ground (arith, e, ih, same_left d.type s t e)
      | inr e ↦ elim (Bool-cases (bytes_eq s t)) [
        | inl f ↦ ground (arith, e, f, ih, same_right d.type s t f)
        | inr f ↦ ground (arith, e, f, ih)
      ]
    ]

unfoldable pub sample_conditions : ConditionList
sample_conditions = record {
  find = find_condition;
  set = set_condition;
  remove = remove_condition;
  find-set = find-set_condition;
  find-remove = find-remove_condition;
}
