-- ===== src/CoreRuleSet/Process/Members.antt =====
-- Members of groups, by their index: no index stands in two groups.
use coraza_kubernetes_operat.Prelude.{
  In, length, ltb, ltb→lt, ◌<◌, ℕ, ◌+◌, ◌<◌, ◌≤◌, Bool, true, false, not, ◌&&◌, ◌||◌, List, [], ◌∷◌,
  ◌++◌, ◌≡◌, refl, sym, ap, ◌∙◌, arith, any, all, ◌==◌, Bool-cases, inl, inr, ◌⊎◌, count_if, ==_iff,
  subst,
}
use coraza_kubernetes_operat.Prelude.Bytes.{Bytes}
use coraza_kubernetes_operat.CoreRuleSet.Chains.Groups.{
  flatten-chain_sec_rule_groups, flatten, rule_indices,
}
use coraza_kubernetes_operat.CoreRuleSet.Chains.{chain_sec_rule_groups, is_skipped, is_sec_rule}
use coraza_kubernetes_operat.CoreRuleSet.Process.Flags.{has_index}

abbrev pub count : ℕ → List ℕ → ℕ
count k = count_if (λ i. i == k)

count-append : (k : ℕ) (xs ys : List ℕ) → count k (xs ++ ys) ≡ count k xs + count k ys
count-append k [] ys = omega arith
count-append k (x ∷ xs) ys = omega (arith, count-append k xs ys)

count_has : (k : ℕ) (g : List ℕ) → has_index k g ≡ true → 1 ≤ count k g
count_has k [] h = cc
count_has k (i ∷ g) h = ground (arith, h, count_has k g)

count_none : (k : ℕ) (g : List ℕ) → count k g ≡ 0 → has_index k g ≡ false
count_none k [] h = refl
count_none k (i ∷ g) h = ground (arith, h, count_none k g)

count-In :
    (k : ℕ) (g : List ℕ) (gs : List (List ℕ))
    → In g gs
    → has_index k g ≡ true
    → 1 ≤ count k (flatten gs)
count-In k g [] i h = absurd i
count-In k g (f ∷ gs) (inl e) h =
    omega (arith, count-append k f (flatten gs), rw e at (count_has k g h))
count-In k g (f ∷ gs) (inr i) h = omega (arith, count-append k f (flatten gs), count-In k g gs i h)

one_passes : (a b c : Bool) → b ≡ true → c ≡ false → (a && b || c) ≡ a
one_passes a b c hb hc = ground (arith, hb, hc)

none_passes : (a b c : Bool) → b ≡ false → (a && b || c) ≡ c
none_passes a b c hb = ground (arith, hb)

module _ (test : List ℕ → Bool) where
  abbrev passes : ℕ → List (List ℕ) → Bool
  passes k = any (λ g. test g && has_index k g)

  passes-none : (k : ℕ) (gs : List (List ℕ)) → count k (flatten gs) ≡ 0 → passes k gs ≡ false
  passes-none k [] h = refl
  passes-none k (g ∷ gs) h =
      let c = count-append k g (flatten gs) in
      let a = count_none k g (omega (arith, h, c)) in
      let b = passes-none k gs (omega (arith, h, c)) in ground (arith, a, b)

  -- An index that stands in no two groups passes where its group does.
  pub passes-once :
      (k : ℕ) (g : List ℕ) (gs : List (List ℕ))
      → In g gs
      → has_index k g ≡ true
      → count k (flatten gs) ≤ 1
      → passes k gs ≡ test g
  passes-once k g [] i h l = absurd i
  passes-once k g (f ∷ gs) (inl e) h l =
      let h' = rw e at h in
      let c = count-append k f (flatten gs) in
      let b = passes-none k gs (omega (arith, l, c, count_has k f h')) in
      one_passes (test f) _ _ h' b ∙ ap test (sym e)
  passes-once k g (f ∷ gs) (inr i) h l =
      let c = count-append k f (flatten gs) in
      let a = count_none k f (omega (arith, l, c, count-In k g gs i h)) in
      let b = passes-once k g gs i h (omega (arith, l, c)) in none_passes (test f) _ _ a ∙ b

count-rule_indices-none :
    (k i : ℕ) (blocks : List Bytes) → k < i → count k (rule_indices i blocks) ≡ 0
count-rule_indices-none k i [] h = refl
count-rule_indices-none k i (b ∷ blocks) h =
    let ih = count-rule_indices-none k (i + 1) blocks (omega (arith, h)) in
    elim (Bool-cases (not (is_skipped b) && is_sec_rule b)) [
      | inl e ↦ rw e (ground (arith, h, ih))
      | inr e ↦ rw e ih
    ]

pub count-rule_indices : (k i : ℕ) (blocks : List Bytes) → count k (rule_indices i blocks) ≤ 1
count-rule_indices k i [] = omega arith
count-rule_indices k i (b ∷ blocks) =
    let ih = count-rule_indices k (i + 1) blocks in
    let none = count-rule_indices-none k (i + 1) blocks in
    elim (Bool-cases (not (is_skipped b) && is_sec_rule b)) [
      | inl e ↦ rw e (ground (arith, ih, none))
      | inr e ↦ rw e ih
    ]

here : (i : ℕ) (g : List ℕ) → has_index i (i ∷ g) ≡ true
here i g = ground arith

later : (k i : ℕ) (g : List ℕ) → has_index k g ≡ true → has_index k (i ∷ g) ≡ true
later k i g h = ground (arith, h)

pub or_left : (a b : Bool) → (a || b) ≡ false → a ≡ false
or_left a b h = ground (arith, h)

or_right : (a b : Bool) → (a || b) ≡ false → b ≡ false
or_right a b h = ground (arith, h)

pub all-by :
    (p : ℕ → Bool) (g : List ℕ) → ((k : ℕ) → has_index k g ≡ true → p k ≡ true) → all p g ≡ true
all-by p [] h = refl
all-by p (i ∷ g) h = rw (h i (here i g)) (all-by p g (λ k t. h k (later k i g t)))

pub any-by :
    (p : ℕ → Bool) (g : List ℕ) → ((k : ℕ) → has_index k g ≡ true → p k ≡ false) → any p g ≡ false
any-by p [] h = refl
any-by p (i ∷ g) h = rw (h i (here i g)) (any-by p g (λ k t. h k (later k i g t)))

pub any-false :
    (p : ℕ → Bool) (g : List ℕ) (k : ℕ) → any p g ≡ false → has_index k g ≡ true → p k ≡ false
any-false p [] k h e = cc
any-false p (i ∷ g) k h e = elim (Bool-cases (i == k)) [
  | inl t ↦ subst (λ j. p j ≡ false) ((==_iff i k).0 t) (or_left (p i) _ h)
  | inr f ↦ any-false p g k (or_right (p i) _ h) (rw f at e)
]

count-rule_indices-high :
    (k i : ℕ) (blocks : List Bytes) → i + length blocks ≤ k → count k (rule_indices i blocks) ≡ 0
count-rule_indices-high k i [] h = refl
count-rule_indices-high k i (b ∷ blocks) h =
    let ih = count-rule_indices-high k (i + 1) blocks (omega (arith, h)) in
    elim (Bool-cases (not (is_skipped b) && is_sec_rule b)) [
      | inl e ↦ rw e (ground (arith, h, ih))
      | inr e ↦ rw e ih
    ]

-- The members of the groups are indices of blocks.
pub member_below :
    (k : ℕ) (g : List ℕ) (blocks : List Bytes)
    → In g (chain_sec_rule_groups blocks)
    → has_index k g ≡ true
    → k < length blocks
member_below k g blocks i h =
    let one =
      rw (flatten-chain_sec_rule_groups blocks) at
        (count-In k g (chain_sec_rule_groups blocks) i h) in
    elim (leb_total (length blocks) k) [
      | inl le ↦ absurd (omega (arith, one, count-rule_indices-high k 0 blocks (omega (arith, le))))
      | inr lt ↦ lt
    ]
  where
    leb_total : (n m : ℕ) → (n ≤ m) ⊎ (m < n)
    leb_total n m = elim (Bool-cases (ltb m n)) [
      | inl e ↦ inr (ltb→lt m n e)
      | inr e ↦ inl (ground (arith, e))
    ]

pub all-ext :
    (p q : ℕ → Bool) (g : List ℕ) → ((k : ℕ) → has_index k g ≡ true → p k ≡ q k) → all p g ≡ all q g
all-ext p q [] h = refl
all-ext p q (i ∷ g) h = rw (h i (here i g), all-ext p q g (λ k t. h k (later k i g t)))

pub any-ext :
    (p q : ℕ → Bool) (g : List ℕ) → ((k : ℕ) → has_index k g ≡ true → p k ≡ q k) → any p g ≡ any q g
any-ext p q [] h = refl
any-ext p q (i ∷ g) h = rw (h i (here i g), any-ext p q g (λ k t. h k (later k i g t)))
