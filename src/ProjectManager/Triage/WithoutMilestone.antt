-- ===== src/ProjectManager/Triage/WithoutMilestone.antt =====
-- The label updates of an issue without a milestone settle.
use mathlib.Core.List.{append-nil}
use coraza_kubernetes_operat.Prelude.{
  ==_iff, ltb→lt, subst, subst, ltb, ◌&&◌, any-append, ℕ, ◌==◌, ◌≤◌, Bool, true, false, not, ◌||◌,
  List, [], ◌∷◌, ◌++◌, ◌≡◌, refl, sym, ap, ◌∙◌, arith, select, count_if, Bool-cases, inl, inr, ◌⊎◌,
}
use coraza_kubernetes_operat.Prelude.Bytes.{bytes_eq_refl, Bytes, bytes_eq}
use coraza_kubernetes_operat.ProjectManager.Triage.{
  label_if, effective_labels, needs_triage, accepted, compute_label_updates, is_other_triage, holds,
}
use coraza_kubernetes_operat.ProjectManager.Triage.Labels.{
  eq_of, holds-select-false, holds-select, count-append, count-select, count_lost, any-select_none,
  or_right_true, not_or, and_false, second, positive,
}
use coraza_kubernetes_operat.ProjectManager.Triage.WithMilestone.{
  needs_other, other_accepted, one_needs, no_update,
}

-- Without a milestone, what is left of a list is settled when it has no accepted label, and has triage
-- labels of which needs-triage is the only one or none.
no_update_without :
    (l : List Bytes)
    → holds l accepted ≡ false
    → (count_if (is_other_triage accepted) l == 0) ≡ false
    → (holds l needs_triage && ltb 1 (count_if (is_other_triage accepted) l)) ≡ false
    → compute_label_updates l false ≡ no_update
unfolding compute_label_updates
no_update_without l a c n = rw (c, n, a)

module _ (labels : List Bytes) where
  count : ℕ
  count = count_if (is_other_triage accepted) labels

  -- What is left when accepted is removed, and needs-triage too where the flag says so.
  left : List Bytes → Bytes → Bool
  left removed l = not (holds removed l)

  dropped : Bool → List Bytes
  dropped false = label_if (holds labels accepted) accepted
  dropped true = label_if (holds labels accepted) accepted ++ needs_triage ∷ []

  accepted_goes : (b : Bool) → holds labels accepted ≡ true → left (dropped b) accepted ≡ false
  unfolding left dropped
  accepted_goes false e = rw e
  accepted_goes true e = rw e

  no_accepted : (b : Bool) → holds (select (left (dropped b)) labels) accepted ≡ false
  unfolding left dropped
  no_accepted b = by_accepted (Bool-cases (holds labels accepted))
    where
      by_accepted :
          (holds labels accepted ≡ true) ⊎ (holds labels accepted ≡ false)
          → holds (select (left (dropped b)) labels) accepted ≡ false
      by_accepted (inl e) =
          holds-select-false (left (dropped b)) labels accepted (accepted_goes b e)
      by_accepted (inr e) =
          any-select_none (bytes_eq accepted) (left (dropped b)) labels
            (λ x m o. absurd (ground (arith, sym e ∙ ap (holds labels) (eq_of accepted x o) ∙ m)))

  -- Other triage labels stay, but needs-triage where the flag is set.
  label_if_other :
      (b : Bool) (x : Bytes)
      → is_other_triage accepted x ≡ true
      → holds (label_if b accepted) x ≡ false
  label_if_other true x o = rw (other_accepted x o)
  label_if_other false x o = refl

  others_stay : (x : Bytes) → is_other_triage accepted x ≡ true → left (dropped false) x ≡ true
  unfolding left dropped
  others_stay x o = rw (label_if_other (holds labels accepted) x o)

  only_needs_goes :
      (x : Bytes)
      → is_other_triage accepted x ≡ true
      → left (dropped true) x ≡ false
      → bytes_eq needs_triage x ≡ true
  unfolding left dropped
  only_needs_goes x o f =
      let kept = label_if (holds labels accepted) accepted in
      let a =
        any-append (bytes_eq x) kept (needs_triage ∷ [])
        ∙ ap (λ t. t || (bytes_eq x needs_triage || false))
            (label_if_other (holds labels accepted) x o) in
      subst (λ t. bytes_eq needs_triage t ≡ true)
        (sym (eq_of x needs_triage (not_or (bytes_eq x needs_triage) (sym (ap not a) ∙ f))))
        (bytes_eq_refl needs_triage)

  needs_stays : left (dropped false) needs_triage ≡ true
  needs_stays = others_stay needs_triage needs_other

  needs_goes : left (dropped true) needs_triage ≡ false
  unfolding left dropped
  needs_goes = ap not (
      any-append (bytes_eq needs_triage) (label_if (holds labels accepted) accepted)
        (needs_triage ∷ [])
      ∙ or_right_true _)

  rest : Bool → List Bytes
  rest b = select (left (dropped b)) labels

  count-rest : count_if (is_other_triage accepted) (rest false) ≡ count
  unfolding rest count
  count-rest = count-select (is_other_triage accepted) (left (dropped false)) labels others_stay

  count-with_needs :
      (count == 0) ≡ true
      → count_if (is_other_triage accepted) (rest false ++ needs_triage ∷ []) ≡ 1
  count-with_needs z = omega (
    arith,
    count-append (is_other_triage accepted) (rest false) (needs_triage ∷ []),
    count-rest,
    (==_iff count 0).0 z,
    one_needs,
  )

  -- The first branch: needs-triage is added.
  settled_added :
      (count == 0) ≡ true
      → compute_label_updates (rest false ++ needs_triage ∷ []) false ≡ no_update
  unfolding rest
  settled_added z =
      no_update_without (rest false ++ needs_triage ∷ [])
        (any-append (bytes_eq accepted) (rest false) (needs_triage ∷ []) ∙ rw (no_accepted false))
        (rw (count-with_needs z))
        (rw (count-with_needs z) (and_false (holds (rest false ++ needs_triage ∷ []) needs_triage)))

  -- The second branch: needs-triage is removed.
  settled_removed :
      count_if (bytes_eq needs_triage) labels ≤ 1
      → ltb 1 count ≡ true
      → compute_label_updates (rest true) false ≡ no_update
  unfolding rest count
  settled_removed u n =
      no_update_without (rest true) (no_accepted true)
        (positive (count_if (is_other_triage accepted) (rest true)) (
          omega (
            arith,
            u,
            ltb→lt 1 count n,
            count_lost (is_other_triage accepted) (left (dropped true)) (bytes_eq needs_triage)
                labels only_needs_goes,
          )))
        (rw (holds-select-false (left (dropped true)) labels needs_triage needs_goes))

  -- The third branch.
  settled_kept :
      (count == 0) ≡ false
      → (holds labels needs_triage && ltb 1 count) ≡ false
      → compute_label_updates (rest false) false ≡ no_update
  unfolding rest
  settled_kept z n =
      no_update_without (rest false) (no_accepted false) (rw count-rest z)
        (rw (holds-select (left (dropped false)) labels needs_triage needs_stays, count-rest) n)

  pub settled_without :
      count_if (bytes_eq needs_triage) labels ≤ 1
      → compute_label_updates (effective_labels labels (compute_label_updates labels false)) false
        ≡ no_update
  unfolding effective_labels compute_label_updates rest left dropped count
  settled_without u =
      by_count (Bool-cases (count == 0)) (Bool-cases (holds labels needs_triage && ltb 1 count))
    where
      by_count :
          ((count == 0) ≡ true) ⊎ ((count == 0) ≡ false)
          → ((holds labels needs_triage && ltb 1 count) ≡ true)
            ⊎ ((holds labels needs_triage && ltb 1 count) ≡ false)
          → compute_label_updates
              (effective_labels labels (compute_label_updates labels false))
              false
            ≡ no_update
      by_count (inl z) _ = rw z (settled_added z)
      by_count (inr z) (inl n) =
          rw (z, n, append-nil (rest true))
            (settled_removed u (second (holds labels needs_triage) (ltb 1 count) n))
      by_count (inr z) (inr n) = rw (z, n, append-nil (rest false)) (settled_kept z n)
