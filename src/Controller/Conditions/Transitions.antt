-- ===== src/Controller/Conditions/Transitions.antt =====
-- The transitions that are logged.
use coraza_kubernetes_operat.Prelude.{
  ◌≡◌, ◌∷◌, [], refl, Option, none, some, List, ◌++◌, Bool, true, false, Bool-cases, if◌then◌else◌,
  ◌&&◌, arith, inl, ap, ◌∙◌, inr, select,
}
use coraza_kubernetes_operat.Prelude.Bytes.{Bytes, bytes, bytes_eq}
use coraza_kubernetes_operat.Controller.Conditions.{
  same_status, Condition, ConditionList, Transition, condition_set, condition_removed,
  condition_changed, log_condition_transitions, transition, transitions_of, tracked_condition_types,
}

abbrev type_of : Transition → Bytes
type_of (condition_set t _ _) = t
type_of (condition_removed t _) = t
type_of (condition_changed t _ _ _) = t

-- Whether the status and the reason are the same, or the condition is absent before and after.
abbrev pub unchanged : Option Condition → Option Condition → Bool
unchanged none none = true
unchanged (some prev) (some cur) =
    same_status prev.status cur.status && bytes_eq prev.reason cur.reason
unchanged _ _ = false

-- The types of the lines of the log.
abbrev pub types_of : List Transition → List Bytes
types_of [] = []
types_of (x ∷ xs) = type_of x ∷ types_of xs

types_of-append : (xs ys : List Transition) → types_of (xs ++ ys) ≡ types_of xs ++ types_of ys
types_of-append [] ys = refl
types_of-append (x ∷ xs) ys = ground (arith, types_of-append xs ys)

types_of-transition :
    (t : Bytes) (prev cur : Option Condition)
    → types_of (transition t prev cur) ≡ (if unchanged prev cur then [] else t ∷ [])
types_of-transition t none none = refl
types_of-transition t none (some c) = refl
types_of-transition t (some p) none = refl
types_of-transition t (some p) (some c) = elim (Bool-cases (unchanged (some p) (some c))) [
  | inl e ↦ rw e refl
  | inr e ↦ rw e refl
]

module _ (before after : Bytes → Option Condition) where
  abbrev pub kept : Bytes → Bool
  kept t = if unchanged (before t) (after t) then false else true

  types_of-transitions :
      (ts : List Bytes) → types_of (transitions_of before after ts) ≡ select kept ts
  types_of-transitions [] = refl
  types_of-transitions (t ∷ ts) =
      types_of-append (transition t (before t) (after t)) (transitions_of before after ts)
      ∙ (ap (λ us. types_of (transition t (before t) (after t)) ++ us) (types_of-transitions ts)
          ∙ first (select kept ts))
    where
      first :
          (us : List Bytes)
          → types_of (transition t (before t) (after t)) ++ us ≡ (if kept t then t ∷ us else us)
      first us = elim (Bool-cases (unchanged (before t) (after t))) [
        | inl e ↦ rw (types_of-transition t (before t) (after t), e) refl
        | inr e ↦ rw (types_of-transition t (before t) (after t), e) refl
      ]

-- The log has one line, in their order, for each of Ready, Degraded and Progressing that has
-- appeared, disappeared, or changed its status or reason, and no other line.
pub log_condition_transitions_exact :
    (api : ConditionList) (before after : List Condition)
    → types_of (log_condition_transitions api before after)
      ≡ select
          (kept (api.find before) (api.find after))
          (bytes "Ready" ∷ bytes "Degraded" ∷ bytes "Progressing" ∷ [])
unfolding log_condition_transitions
log_condition_transitions_exact api before after =
    types_of-transitions (api.find before) (api.find after) tracked_condition_types
