-- ===== src/ProjectManager/Triage/Labels.antt =====
-- Lists of labels that are selected by tests.
use coraza_kubernetes_operat.Prelude.{
  ◌&&◌, ℕ, ◌==◌, ◌+◌, ◌≤◌, Bool, true, false, not, ◌||◌, List, [], ◌∷◌, ◌++◌, ◌≡◌, refl, sym, ap,
  ◌∙◌, arith, any, any-select, select, count_if, Bool-cases, inl, inr, ◌⊎◌,
}
use coraza_kubernetes_operat.Prelude.Bytes.{bytes_eq_refl, Bytes, bytes_eq, bytes_eq_iff}
use coraza_kubernetes_operat.ProjectManager.Triage.{holds}

pub eq_of : (s t : Bytes) → bytes_eq s t ≡ true → s ≡ t
eq_of s t = (bytes_eq_iff s t).0

pub not-false : (b : Bool) → b ≡ false → not b ≡ true
not-false b h = ground (arith, h)

-- A label that is not selected is not there; one that is, is there if it was.
pub holds-select-false :
    (q : Bytes → Bool) (l : List Bytes) (x : Bytes) → q x ≡ false → holds (select q l) x ≡ false
holds-select-false q [] x h = refl
holds-select-false q (y ∷ l) x h = by_test (Bool-cases (q y)) (holds-select-false q l x h)
  where
    by_test :
        (q y ≡ true) ⊎ (q y ≡ false)
        → holds (select q l) x ≡ false
        → holds (select q (y ∷ l)) x ≡ false
    by_test (inl t) ih = rw (t, ih) (other_label (Bool-cases (bytes_eq x y)) t)
      where
        other_label :
            (bytes_eq x y ≡ true) ⊎ (bytes_eq x y ≡ false)
            → q y ≡ true
            → (bytes_eq x y || false) ≡ false
        other_label (inl e) t = absurd (ground (arith, sym h ∙ ap q (eq_of x y e) ∙ t))
        other_label (inr e) t = rw e
    by_test (inr f) ih = rw f ih

pub holds-select :
    (q : Bytes → Bool) (l : List Bytes) (x : Bytes) → q x ≡ true → holds (select q l) x ≡ holds l x
holds-select q l x h = any-select (bytes_eq x) q l (λ y e. ap q (sym (eq_of x y e)) ∙ h)

pub count-append :
    (p : Bytes → Bool) (xs ys : List Bytes) → count_if p (xs ++ ys) ≡ count_if p xs + count_if p ys
count-append p [] ys = omega arith
count-append p (x ∷ xs) ys = omega (arith, count-append p xs ys)

pub count-select :
    (p q : Bytes → Bool) (l : List Bytes)
    → ((x : Bytes) → p x ≡ true → q x ≡ true)
    → count_if p (select q l) ≡ count_if p l
count-select p q [] h = refl
count-select p q (x ∷ l) h = ground (arith, h x, count-select p q l h)

pub count_lost :
    (p q r : Bytes → Bool) (l : List Bytes)
    → ((x : Bytes) → p x ≡ true → q x ≡ false → r x ≡ true)
    → count_if p l ≤ count_if p (select q l) + count_if r l
count_lost p q r [] h = omega arith
count_lost p q r (x ∷ l) h = ground (arith, h x, count_lost p q r l h)

pub select-none : (p : Bytes → Bool) (l : List Bytes) → any p l ≡ false → select p l ≡ []
select-none p [] h = refl
select-none p (x ∷ l) h = ground (arith, h, select-none p l)

pub any-select_none :
    (p q : Bytes → Bool) (l : List Bytes)
    → ((x : Bytes) → holds l x ≡ true → p x ≡ true → q x ≡ false)
    → any p (select q l) ≡ false
any-select_none p q [] h = refl
any-select_none p q (x ∷ l) h =
    by_test (Bool-cases (q x)) (any-select_none p q l (λ y m. h y (or_later (bytes_eq y x) _ m)))
      (h x (or_here (bytes_eq x x) _ (bytes_eq_refl x)))
  where
    or_later : (a b : Bool) → b ≡ true → (a || b) ≡ true
    or_later a b h = ground (arith, h)

    or_here : (a b : Bool) → a ≡ true → (a || b) ≡ true
    or_here a b h = ground (arith, h)

    by_test :
        (q x ≡ true) ⊎ (q x ≡ false)
        → any p (select q l) ≡ false
        → (p x ≡ true → q x ≡ false)
        → any p (select q (x ∷ l)) ≡ false
    by_test (inl t) ih hx = rw (t, ih) (lost (Bool-cases (p x)) hx t)
      where
        lost :
            (p x ≡ true) ⊎ (p x ≡ false)
            → (p x ≡ true → q x ≡ false)
            → q x ≡ true
            → (p x || false) ≡ false
        lost (inl e) hx t = absurd (cc (sym t ∙ hx e))
        lost (inr e) hx t = rw e
    by_test (inr f) ih hx = rw f ih

pub or_right_true : (a : Bool) → (a || true) ≡ true
or_right_true true = refl
or_right_true false = refl

pub not_or : (b : Bool) → not (b || false) ≡ false → b ≡ true
not_or true h = refl
not_or false h = absurd (cc h)

pub and_false : (a : Bool) → (a && false) ≡ false
and_false true = refl
and_false false = refl

pub second : (a b : Bool) → (a && b) ≡ true → b ≡ true
second a b h = ground (arith, h)

pub positive : (n : ℕ) → 1 ≤ n → (n == 0) ≡ false
positive n h = ground (arith, h)
