-- ===== src/CoreRuleSet/Process/Flags.antt =====
-- The loops over flags of processFileContent: what they leave at an index.
use coraza_kubernetes_operat.Prelude.{
  ℕ, zero, suc, ◌<◌, Bool, true, false, ◌&&◌, ◌||◌, List, [], ◌∷◌, ◌≡◌, refl, sym, ap, ◌∙◌, arith,
  any, map, length, ltb, ◌==◌, if◌then◌else◌, Bool-cases, inl, inr,
}
use coraza_kubernetes_operat.Prelude.Bytes.{Bytes}
use coraza_kubernetes_operat.CoreRuleSet.Chains.{block_at}
use coraza_kubernetes_operat.CoreRuleSet.Process.{
  flag_at, set_flag, set_flags, any_wish, drop_chains, keep_blocks,
}

abbrev pub has_index : ℕ → List ℕ → Bool
has_index k = any (λ i. i == k)

-- A group of several rules, of which one is to be dropped.
abbrev pub is_doomed : List Bool → List ℕ → Bool
is_doomed wish_drop g = ltb 1 (length g) && any_wish wish_drop g

abbrev pub in_doomed : List Bool → List (List ℕ) → ℕ → Bool
in_doomed wish_drop groups k = any (λ g. is_doomed wish_drop g && has_index k g) groups

length-set_flag : (i : ℕ) (flags : List Bool) → length (set_flag i flags) ≡ length flags
length-set_flag i [] = refl
length-set_flag zero (b ∷ flags) = refl
length-set_flag (suc i) (b ∷ flags) = ground (arith, length-set_flag i flags)

flag_at-set_flag :
    (i k : ℕ) (flags : List Bool)
    → k < length flags
    → flag_at (set_flag i flags) k ≡ (flag_at flags k || i == k)
flag_at-set_flag i k [] h = absurd (omega arith)
flag_at-set_flag zero zero (b ∷ flags) h = ground arith
flag_at-set_flag zero (suc k) (b ∷ flags) h = ground arith
flag_at-set_flag (suc i) zero (b ∷ flags) h = ground arith
flag_at-set_flag (suc i) (suc k) (b ∷ flags) h = ground (arith, flag_at-set_flag i k flags)

length-set_flags : (g : List ℕ) (flags : List Bool) → length (set_flags g flags) ≡ length flags
length-set_flags [] flags = refl
length-set_flags (i ∷ g) flags = length-set_flags g (set_flag i flags) ∙ length-set_flag i flags

flag_at-set_flags :
    (g : List ℕ) (k : ℕ) (flags : List Bool)
    → k < length flags
    → flag_at (set_flags g flags) k ≡ (flag_at flags k || has_index k g)
flag_at-set_flags [] k flags h = ground arith
flag_at-set_flags (i ∷ g) k flags h =
    let l = length-set_flag i flags in
    ground (
      arith,
      flag_at-set_flags g k (set_flag i flags) (omega (arith, h, l)),
      flag_at-set_flag i k flags h,
    )

or_assoc : (a b c : Bool) → (a || b || c) ≡ (a || (b || c))
or_assoc true b c = refl
or_assoc false b c = refl

module _ (wish_drop : List Bool) where
  pub length-drop_chains :
      (groups : List (List ℕ)) (drop : List Bool)
      → length (drop_chains wish_drop groups drop) ≡ length drop
  unfolding drop_chains
  length-drop_chains [] drop = refl
  length-drop_chains (g ∷ groups) drop = ground (
    arith,
    length-set_flags g drop,
    length-drop_chains groups drop,
    length-drop_chains groups (set_flags g drop),
  )

  pub flag_at-drop_chains :
      (groups : List (List ℕ)) (k : ℕ) (drop : List Bool)
      → k < length drop
      → flag_at (drop_chains wish_drop groups drop) k
        ≡ (flag_at drop k || in_doomed wish_drop groups k)
  unfolding drop_chains
  flag_at-drop_chains [] k drop h = ground arith
  flag_at-drop_chains (g ∷ groups) k drop h =
      let n = length-set_flags g drop in
      elim (Bool-cases (is_doomed wish_drop g)) [
        | inl e ↦ rw e (
            flag_at-drop_chains groups k (set_flags g drop) (omega (arith, h, n))
            ∙ ap (λ t. t || in_doomed wish_drop groups k) (flag_at-set_flags g k drop h)
            ∙ or_assoc (flag_at drop k) (has_index k g) (in_doomed wish_drop groups k))
        | inr e ↦ rw e (flag_at-drop_chains groups k drop h)
      ]

-- The blocks whose index does not pass the test.
abbrev pub kept_by : (ℕ → Bool) → List Bytes → List Bytes
kept_by removed [] = []
kept_by removed (b ∷ blocks) =
    let rest = kept_by (λ k. removed (suc k)) blocks in if removed 0 then rest else b ∷ rest

pub keep_blocks-kept_by :
    (removed : ℕ → Bool) (drop : List Bool) (blocks : List Bytes)
    → length drop ≡ length blocks
    → ((k : ℕ) → k < length blocks → flag_at drop k ≡ removed k)
    → keep_blocks drop blocks ≡ kept_by removed blocks
unfolding keep_blocks
keep_blocks-kept_by removed [] [] e h = refl
keep_blocks-kept_by removed [] (b ∷ blocks) e h = absurd (omega arith)
keep_blocks-kept_by removed (d ∷ drop) [] e h = absurd (omega arith)
keep_blocks-kept_by removed (d ∷ drop) (b ∷ blocks) e h =
    let ih =
      keep_blocks-kept_by (λ k. removed (suc k)) drop blocks (omega arith)
        (λ k l. h (suc k) (omega arith)) in
    rw (ih, h 0 (omega arith))

-- The flags of the blocks, at an index: outside of the list both sides are about the empty block.
pub flag_at-map :
    (f : Bytes → Bool) (blocks : List Bytes) (k : ℕ)
    → f [] ≡ false
    → flag_at (map f blocks) k ≡ f (block_at blocks k)
flag_at-map f [] k e = sym e
flag_at-map f (b ∷ blocks) zero e = refl
flag_at-map f (b ∷ blocks) (suc k) e = flag_at-map f blocks k e

pub length-map : (f : Bytes → Bool) (blocks : List Bytes) → length (map f blocks) ≡ length blocks
length-map f [] = refl
length-map f (b ∷ blocks) = ground (arith, length-map f blocks)
