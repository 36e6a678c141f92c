-- ===== src/ProjectManager/Lowest.antt =====
-- The milestone that findLowestMilestone picks.
use coraza_kubernetes_operat.Prelude.{
  Bool, true, false, ◌&&◌, List, [], ◌∷◌, ◌++◌, ◌≡◌, refl, sym, ◌∙◌, subst, All, All-append, In,
  In-append, In-snoc, Option, none, some, if◌then◌else◌, Bool-cases, inl, inr, ◌⊎◌,
}
use mathlib.Core.List.{append_assoc, append-nil}
use coraza_kubernetes_operat.Prelude.Bytes.{Bytes}
use coraza_kubernetes_operat.CoreRuleSet.Strings.{is_found}
use coraza_kubernetes_operat.ProjectManager.PullRequests.{
  Milestone, Semver, parse_semver, semver_less, better, lowest_from, find_lowest_milestone,
}

-- The order of versions is a strict order.
pub record IsOrdered (semver : Semver) : Type 0 where
  pub irreflexive : (v : semver.Version) → semver.less_than v v ≡ false
  pub transitive :
      (u v w : semver.Version)
      → semver.less_than u v ≡ true
      → semver.less_than v w ≡ true
      → semver.less_than u w ≡ true

module _ (semver : Semver) where
  abbrev pub has_version : Milestone → Bool
  has_version m = is_found (parse_semver semver m.title)

  -- The milestone has no version, or none below that of `b`.
  abbrev pub NotBelow : Milestone → Milestone → Type 0
  NotBelow b m = (has_version m ≡ false) ⊎ (semver_less semver m.title b.title ≡ false)

  -- Of the milestones, none has a version, or this is one of them with a lowest version.
  abbrev pub IsLowest : List Milestone → Option Milestone → Type 0
  IsLowest seen none = All (λ (m : Milestone). has_version m ≡ false) seen
  IsLowest seen (some b) = In b seen × (has_version b ≡ true) × All (NotBelow b) seen

  parsed : (o : Option semver.Version) → is_found o ≡ true → (v : semver.Version) × (o ≡ some v)
  parsed none h = absurd (cc h)
  parsed (some v) h = (v, refl)

  semver_less-parsed :
      (a b : Bytes) {u v : semver.Version}
      → parse_semver semver a ≡ some u
      → parse_semver semver b ≡ some v
      → semver_less semver a b ≡ semver.less_than u v
  unfolding semver_less
  semver_less-parsed a b hu hv = rw (hu, hv)

  module _ (ordered : IsOrdered semver) where
    below_itself :
        (m : Milestone) → has_version m ≡ true → semver_less semver m.title m.title ≡ false
    below_itself m h =
        let (v, e) = parsed (parse_semver semver m.title) h in
        semver_less-parsed m.title m.title e e ∙ ordered.irreflexive v

    less_trans :
        (x m b : Milestone)
        → has_version x ≡ true
        → has_version m ≡ true
        → has_version b ≡ true
        → semver_less semver x.title m.title ≡ true
        → semver_less semver m.title b.title ≡ true
        → semver_less semver x.title b.title ≡ true
    less_trans x m b hx hm hb t l =
        let (u, eu) = parsed (parse_semver semver x.title) hx in
        let (v, ev) = parsed (parse_semver semver m.title) hm in
        let (w, ew) = parsed (parse_semver semver b.title) hb in
        semver_less-parsed x.title b.title eu ew
        ∙ ordered.transitive u v w (sym (semver_less-parsed x.title m.title eu ev) ∙ t)
            (sym (semver_less-parsed m.title b.title ev ew) ∙ l)

    still-NotBelow :
        (b m x : Milestone)
        → has_version b ≡ true
        → has_version m ≡ true
        → semver_less semver m.title b.title ≡ true
        → NotBelow b x
        → NotBelow m x
    still-NotBelow b m x hb hm l (inl n) = inl n
    still-NotBelow b m x hb hm l (inr n) = elim (Bool-cases (has_version x)) [
      | inr f ↦ inl f
      | inl hx ↦ elim (Bool-cases (semver_less semver x.title m.title)) [
        | inr f ↦ inr f
        | inl t ↦ absurd (cc (sym n ∙ less_trans x m b hx hm hb t l))
      ]
    ]

    All-weaken :
        (P Q : Milestone → Type 0) (l : List Milestone)
        → ((m : Milestone) → P m → Q m)
        → All P l
        → All Q l
    All-weaken P Q [] h a = tt
    All-weaken P Q (m ∷ l) h a = (h m a.0, All-weaken P Q l h a.1)

    -- A milestone without a version changes nothing.
    skip-IsLowest :
        (seen : List Milestone) (best : Option Milestone) (m : Milestone)
        → has_version m ≡ false
        → IsLowest seen best
        → IsLowest (seen ++ m ∷ []) best
    skip-IsLowest seen none m f h = All-append _ seen (m ∷ []) h (f, tt)
    skip-IsLowest seen (some b) m f (i, v, a) =
        (In-append b seen (m ∷ []) i, v, All-append (NotBelow b) seen (m ∷ []) a (inl f, tt))

    take-IsLowest :
        (seen : List Milestone) (best : Option Milestone) (m : Milestone)
        → has_version m ≡ true
        → better semver best m ≡ true
        → IsLowest seen best
        → IsLowest (seen ++ m ∷ []) (some m)
    take-IsLowest seen none m t l h = (
      In-snoc m seen,
      t,
      All-append (NotBelow m) seen (m ∷ []) (All-weaken _ (NotBelow m) seen (λ x n. inl n) h)
          (inr (below_itself m t), tt),
    )
    take-IsLowest seen (some b) m t l (i, v, a) = (
      In-snoc m seen,
      t,
      All-append (NotBelow m) seen (m ∷ [])
          (All-weaken (NotBelow b) (NotBelow m) seen (λ x. still-NotBelow b m x v t l) a)
          (inr (below_itself m t), tt),
    )

    keep-IsLowest :
        (seen : List Milestone) (best : Option Milestone) (m : Milestone)
        → better semver best m ≡ false
        → IsLowest seen best
        → IsLowest (seen ++ m ∷ []) best
    keep-IsLowest seen none m f h = absurd (cc f)
    keep-IsLowest seen (some b) m f (i, v, a) =
        (In-append b seen (m ∷ []) i, v, All-append (NotBelow b) seen (m ∷ []) a (inr f, tt))

    step-IsLowest :
        (seen : List Milestone) (best : Option Milestone) (m : Milestone)
        → IsLowest seen best
        → IsLowest (seen ++ m ∷ []) (if has_version m && better semver best m then some m else best)
    step-IsLowest seen best m h = elim (Bool-cases (has_version m)) [
      | inr f ↦ rw f (skip-IsLowest seen best m f h)
      | inl t ↦ elim (Bool-cases (better semver best m)) [
        | inl l ↦ rw (t, l) (take-IsLowest seen best m t l h)
        | inr f ↦ rw (t, f) (keep-IsLowest seen best m f h)
      ]
    ]

    lowest_from-IsLowest :
        (ms seen : List Milestone) (best : Option Milestone)
        → IsLowest seen best
        → IsLowest (seen ++ ms) (lowest_from semver best ms)
    unfolding lowest_from
    lowest_from-IsLowest [] seen best h = rw (append-nil seen) h
    lowest_from-IsLowest (m ∷ ms) seen best h =
        subst (λ l. IsLowest l (lowest_from semver best (m ∷ ms))) (append_assoc seen (m ∷ []) ms)
          (lowest_from-IsLowest ms (seen ++ m ∷ []) _ (step-IsLowest seen best m h))

-- Where versions are strictly ordered, findLowestMilestone picks one of the milestones with a version,
-- such that no milestone has a lower one; it fails only if no title is a version.
pub find_lowest_milestone-IsLowest :
    (semver : Semver) (milestones : List Milestone)
    → IsOrdered semver
    → IsLowest semver milestones (find_lowest_milestone semver milestones)
unfolding find_lowest_milestone
find_lowest_milestone-IsLowest semver milestones ordered =
    lowest_from-IsLowest semver ordered milestones [] none tt
