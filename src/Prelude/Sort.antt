-- ===== src/Prelude/Sort.antt =====
-- Sorting by a numeric key, as sort.Slice and sort.Ints do: by insertion, since with distinct keys
-- the result does not depend on the algorithm.
use Prim.Native.Nat.{ℕ, ◌≤◌}
use mathlib.Core.Path.{◌≡◌, refl}
use mathlib.Core.Bool.{not, Bool, true, false, ◌||◌, ◌&&◌}
use mathlib.Core.List.{List, [], ◌∷◌, ◌++◌}
use native.Mathlib.Omega.{arith}
use coraza_kubernetes_operat.Prelude.Tests.{ltb, leb, ◌==◌, if◌then◌else◌}
use coraza_kubernetes_operat.Prelude.Lists.{any-append, All, any, all}

module _ {ℓ} {A : Type ℓ} (key : A → ℕ) where
  unfoldable pub insert_by : A → List A → List A
  insert_by a [] = a ∷ []
  insert_by a (b ∷ l) = if leb (key a) (key b) then a ∷ b ∷ l else b ∷ insert_by a l

  unfoldable pub sort_by : List A → List A
  unfolding insert_by
  sort_by [] = []
  sort_by (a ∷ l) = insert_by a (sort_by l)

  -- Each key is below all that follow it.
  abbrev pub IsIncreasing : List A → Type 0
  IsIncreasing [] = Unit
  IsIncreasing (a ∷ l) = (all (λ b. ltb (key a) (key b)) l ≡ true) × IsIncreasing l

  -- No two keys are equal.
  abbrev pub HasDistinctKeys : List A → Type 0
  HasDistinctKeys [] = Unit
  HasDistinctKeys (a ∷ l) = (any (λ b. key b == key a) l ≡ false) × HasDistinctKeys l

  any-insert_by : (p : A → Bool) (a : A) (l : List A) → any p (insert_by a l) ≡ (p a || any p l)
  unfolding insert_by
  any-insert_by p a [] = refl
  any-insert_by p a (b ∷ l) = ground (arith, any-insert_by p a l)

  pub any-sort_by : (p : A → Bool) (l : List A) → any p (sort_by l) ≡ any p l
  unfolding sort_by
  any-sort_by p [] = refl
  any-sort_by p (a ∷ l) = ground (arith, any-insert_by p a (sort_by l), any-sort_by p l)

  all-insert_by : (p : A → Bool) (a : A) (l : List A) → all p (insert_by a l) ≡ (p a && all p l)
  unfolding insert_by
  all-insert_by p a [] = refl
  all-insert_by p a (b ∷ l) = ground (arith, all-insert_by p a l)

  pub all-sort_by : (p : A → Bool) (l : List A) → all p (sort_by l) ≡ all p l
  unfolding sort_by
  all-sort_by p [] = refl
  all-sort_by p (a ∷ l) = ground (arith, all-insert_by p a (sort_by l), all-sort_by p l)

  all_above :
      (k j : ℕ) (l : List A)
      → k ≤ j
      → all (λ b. ltb j (key b)) l ≡ true
      → all (λ b. ltb k (key b)) l ≡ true
  all_above k j [] h e = refl
  all_above k j (b ∷ l) h e = ground (arith, all_above k j l)

  insert_by-IsIncreasing :
      (a : A) (l : List A)
      → any (λ b. key b == key a) l ≡ false
      → IsIncreasing l
      → IsIncreasing (insert_by a l)
  unfolding insert_by
  insert_by-IsIncreasing a [] n h = (refl, tt)
  insert_by-IsIncreasing a (b ∷ l) n h = ground (
    arith,
    insert_by-IsIncreasing a l,
    all_above (key a) (key b) l,
    all-insert_by (λ c. ltb (key b) (key c)) a l,
  )

  pub sort_by-IsIncreasing : (l : List A) → HasDistinctKeys l → IsIncreasing (sort_by l)
  unfolding sort_by
  sort_by-IsIncreasing [] h = tt
  sort_by-IsIncreasing (a ∷ l) h = ground (
    arith,
    sort_by-IsIncreasing l,
    insert_by-IsIncreasing a (sort_by l),
    any-sort_by (λ b. key b == key a) l,
  )

  abbrev pub distinct : List A → Bool
  distinct [] = true
  distinct (a ∷ l) = not (any (λ b. key b == key a) l) && distinct l

  pub distinct-HasDistinctKeys : (l : List A) → distinct l ≡ true → HasDistinctKeys l
  distinct-HasDistinctKeys [] h = tt
  distinct-HasDistinctKeys (a ∷ l) h = ground (arith, distinct-HasDistinctKeys l)

  All-insert_by {κ} : (P : A → Type κ) (a : A) (l : List A) → P a → All P l → All P (insert_by a l)
  unfolding insert_by
  All-insert_by P a [] p h = (p, tt)
  All-insert_by P a (b ∷ l) p h = ground (arith, All-insert_by P a l)

  pub All-sort_by {κ} : (P : A → Type κ) (l : List A) → All P l → All P (sort_by l)
  unfolding sort_by
  All-sort_by P [] h = tt
  All-sort_by P (a ∷ l) h = All-insert_by P a (sort_by l) h.0 (All-sort_by P l h.1)

  pub HasDistinctKeys-append :
      (l : List A) (a : A)
      → any (λ b. key b == key a) l ≡ false
      → HasDistinctKeys l
      → HasDistinctKeys (l ++ a ∷ [])
  HasDistinctKeys-append [] a n h = (refl, tt)
  HasDistinctKeys-append (b ∷ l) a n h =
      ground (arith, HasDistinctKeys-append l a, any-append (λ c. key c == key b) l (a ∷ []))
