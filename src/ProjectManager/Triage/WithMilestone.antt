-- ===== src/ProjectManager/Triage/WithMilestone.antt =====
-- The label updates of an issue with a milestone settle.
use coraza_kubernetes_operat.Prelude.{
  any-append, Bool, true, false, not, List, [], ◌∷◌, ◌++◌, ◌≡◌, refl, ap, ◌∙◌, arith, any, select,
  count_if,
}
use coraza_kubernetes_operat.Prelude.Bytes.{Bytes, bytes_eq}
use coraza_kubernetes_operat.ProjectManager.Triage.{
  label_if, effective_labels, needs_triage, TriageResult, accepted, compute_label_updates,
  is_other_triage, holds,
}
use coraza_kubernetes_operat.ProjectManager.Triage.Labels.{
  not-false, holds-select-false, holds-select, select-none, any-select_none,
}

pub accepted_other : is_other_triage accepted accepted ≡ false
unfolding is_other_triage
accepted_other = refl

pub needs_other : is_other_triage accepted needs_triage ≡ true
unfolding is_other_triage
needs_other = refl

pub other_accepted : (x : Bytes) → is_other_triage accepted x ≡ true → bytes_eq x accepted ≡ false
unfolding is_other_triage
other_accepted x h = ground (arith, h)

abbrev pub no_update : TriageResult
no_update = record { labels_to_add = []; labels_to_remove = [] }

pub one_needs : count_if (is_other_triage accepted) (needs_triage ∷ []) ≡ 1
one_needs = rw needs_other

-- With a milestone.
module _ (labels : List Bytes) where
  others : List Bytes
  others = select (is_other_triage accepted) labels

  stays : Bytes → Bool
  unfolding others
  stays l = not (holds others l)

  accepted_stays : holds (select stays labels) accepted ≡ holds labels accepted
  unfolding stays others
  accepted_stays = holds-select stays labels accepted (
      not-false (holds others accepted)
        (holds-select-false (is_other_triage accepted) labels accepted accepted_other))

  others_go : any (is_other_triage accepted) (select stays labels) ≡ false
  unfolding stays others
  others_go =
      any-select_none (is_other_triage accepted) stays labels
        (λ x m o. ap not (holds-select (is_other_triage accepted) labels x o ∙ m))

  added : List Bytes
  added = label_if (not (holds labels accepted)) accepted

  accepted_held :
      (b : Bool) → holds labels accepted ≡ b → holds (select stays labels ++ added) accepted ≡ true
  unfolding added
  accepted_held true e =
      any-append (bytes_eq accepted) (select stays labels) added ∙ rw (accepted_stays, e)
  accepted_held false e =
      any-append (bytes_eq accepted) (select stays labels) added ∙ rw (accepted_stays, e)

  none_added : (b : Bool) → any (is_other_triage accepted) (label_if b accepted) ≡ false
  none_added true = rw accepted_other
  none_added false = refl

  no_others : any (is_other_triage accepted) (select stays labels ++ added) ≡ false
  unfolding added
  no_others =
      any-append (is_other_triage accepted) (select stays labels) added
      ∙ rw (others_go, none_added (not (holds labels accepted)))

no_update_with :
    (l : List Bytes)
    → holds l accepted ≡ true
    → any (is_other_triage accepted) l ≡ false
    → compute_label_updates l true ≡ no_update
unfolding compute_label_updates
no_update_with l h o = rw (h, select-none (is_other_triage accepted) l o)

pub settled_with :
    (labels : List Bytes)
    → compute_label_updates (effective_labels labels (compute_label_updates labels true)) true
      ≡ no_update
unfolding effective_labels compute_label_updates stays others added
settled_with labels =
    no_update_with (select (stays labels) labels ++ added labels)
      (accepted_held labels (holds labels accepted) refl) (no_others labels)
