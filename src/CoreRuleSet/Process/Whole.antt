-- ===== src/CoreRuleSet/Process/Whole.antt =====
-- Chains are dropped whole.
use coraza_kubernetes_operat.Prelude.{
  In, All-In, ◌<◌, arith, ℕ, Bool, true, false, ◌&&◌, ◌||◌, List, [], ◌∷◌, ◌≡◌, refl, ap, ◌∙◌,
  arith, any, all, All, length, ltb, ◌==◌, Bool-cases, inl, inr, ◌⊎◌, ==_iff, subst,
}
use coraza_kubernetes_operat.Prelude.Bytes.{Bytes}
use coraza_kubernetes_operat.CoreRuleSet.Chains.Groups.{flatten-chain_sec_rule_groups}
use coraza_kubernetes_operat.CoreRuleSet.Chains.{chain_sec_rule_groups, block_at, is_skipped}
use coraza_kubernetes_operat.CoreRuleSet.Options.{StringSet}
use coraza_kubernetes_operat.CoreRuleSet.Process.{
  flag_at, drop_chains, wishes_drop, wish_drops, any_wish,
}
use coraza_kubernetes_operat.CoreRuleSet.Process.Flags.{
  length-map, flag_at-drop_chains, has_index, is_doomed, in_doomed, flag_at-map,
}
use coraza_kubernetes_operat.CoreRuleSet.Process.Members.{
  any-ext, all-ext, member_below, passes-once, count-rule_indices, all-by, any-by, any-false,
}

-- A block that is to be dropped, by its index.
abbrev pub wishes : StringSet → Bool → List Bytes → ℕ → Bool
wishes ignore_ids ignore_pm blocks k = wishes_drop ignore_ids ignore_pm (block_at blocks k)

-- The blocks that go: those that are to be dropped, and the members of a chain with one of them.
abbrev pub removed : StringSet → Bool → List Bytes → ℕ → Bool
removed ignore_ids ignore_pm blocks k =
    wishes ignore_ids ignore_pm blocks k
    || in_doomed (wish_drops ignore_ids ignore_pm blocks) (chain_sec_rule_groups blocks) k

-- The flags that processFileContent ends with.
abbrev pub dropped : StringSet → Bool → List Bytes → ℕ → Bool
dropped ignore_ids ignore_pm blocks =
    let wish_drop = wish_drops ignore_ids ignore_pm blocks in
    flag_at (drop_chains wish_drop (chain_sec_rule_groups blocks) wish_drop)

-- A chain goes whole, which is when one of its rules is to be dropped, or it stays whole.
abbrev pub IsWhole : (ℕ → Bool) → (ℕ → Bool) → List ℕ → Type 0
IsWhole wish drop g =
    ((any wish g ≡ true) × (all drop g ≡ true)) ⊎ ((any wish g ≡ false) × (any drop g ≡ false))

or_true_right : (a b : Bool) → b ≡ true → (a || b) ≡ true
or_true_right a b h = ground (arith, h)

or_false_left : (a : Bool) → (a || false) ≡ true → a ≡ true
or_false_left a h = ground (arith, h)

or_both : (a b c : Bool) → a ≡ false → b ≡ false → (a || (c && b)) ≡ false
or_both a b c ha hb = ground (arith, ha, hb)

module _ (ignore_ids : StringSet) (ignore_pm : Bool) (blocks : List Bytes) where
  abbrev flags : List Bool
  flags = wish_drops ignore_ids ignore_pm blocks

  pub wishes_drop-nil : wishes_drop ignore_ids ignore_pm [] ≡ false
  unfolding wishes_drop is_skipped
  wishes_drop-nil = refl

  any_wish-any : (g : List ℕ) → any_wish flags g ≡ any (wishes ignore_ids ignore_pm blocks) g
  any_wish-any [] = refl
  any_wish-any (i ∷ g) =
      rw (flag_at-map (wishes_drop ignore_ids ignore_pm) blocks i wishes_drop-nil, any_wish-any g)

  in_doomed-once :
      (g : List ℕ) (k : ℕ)
      → In g (chain_sec_rule_groups blocks)
      → has_index k g ≡ true
      → in_doomed flags (chain_sec_rule_groups blocks) k
        ≡ (ltb 1 (length g) && any (wishes ignore_ids ignore_pm blocks) g)
  in_doomed-once g k i h =
      passes-once (is_doomed flags) k g (chain_sec_rule_groups blocks) i h
        (rw (flatten-chain_sec_rule_groups blocks) (count-rule_indices k 0 blocks))
      ∙ ap (λ t. ltb 1 (length g) && t) (any_wish-any g)

  doomed-removed :
      (g : List ℕ)
      → In g (chain_sec_rule_groups blocks)
      → any (wishes ignore_ids ignore_pm blocks) g ≡ true
      → (k : ℕ) → has_index k g ≡ true
      → removed ignore_ids ignore_pm blocks k ≡ true
  doomed-removed [] i w k h = absurd (ground (arith, h))
  doomed-removed (j ∷ []) i w k h = rw (
      subst (λ n. wishes ignore_ids ignore_pm blocks n ≡ true)
        ((==_iff j k).0 (or_false_left (j == k) h))
        (or_false_left (wishes ignore_ids ignore_pm blocks j) w))
  doomed-removed (j ∷ l ∷ g) i w k h = or_true_right (wishes ignore_ids ignore_pm blocks k) _ (
      in_doomed-once (j ∷ l ∷ g) k i h ∙ ap (λ t. ltb 1 (length (j ∷ l ∷ g)) && t) w ∙ ground arith)

  kept_whole :
      (g : List ℕ)
      → In g (chain_sec_rule_groups blocks)
      → any (wishes ignore_ids ignore_pm blocks) g ≡ false
      → (k : ℕ) → has_index k g ≡ true
      → removed ignore_ids ignore_pm blocks k ≡ false
  kept_whole g i w k h = rw (in_doomed-once g k i h) (
      or_both (wishes ignore_ids ignore_pm blocks k) _ (ltb 1 (length g))
        (any-false (wishes ignore_ids ignore_pm blocks) g k w h) w)

  pub dropped-removed :
      (k : ℕ)
      → k < length blocks
      → dropped ignore_ids ignore_pm blocks k ≡ removed ignore_ids ignore_pm blocks k
  dropped-removed k l =
      flag_at-drop_chains flags (chain_sec_rule_groups blocks) k flags
        (omega (arith, l, length-map (wishes_drop ignore_ids ignore_pm) blocks))
      ∙ ap (λ t. t || in_doomed flags (chain_sec_rule_groups blocks) k)
          (flag_at-map (wishes_drop ignore_ids ignore_pm) blocks k wishes_drop-nil)

  whole :
      (g : List ℕ)
      → In g (chain_sec_rule_groups blocks)
      → IsWhole (wishes ignore_ids ignore_pm blocks) (dropped ignore_ids ignore_pm blocks) g
  whole g i =
      let same =
        λ (k : ℕ) (h : has_index k g ≡ true). dropped-removed k (member_below k g blocks i h) in
      elim (Bool-cases (any (wishes ignore_ids ignore_pm blocks) g)) [
        | inl w ↦ inl (w, all-ext _ _ g same ∙ all-by _ g (doomed-removed g i w))
        | inr w ↦ inr (w, any-ext _ _ g same ∙ any-by _ g (kept_whole g i w))
      ]

-- The chains of a file go whole or stay whole: the flags of all the members of a group end set where one
-- of them is a SecRule with an ignored ID, or with @pmFromFile where that is to be dropped, and none
-- ends set otherwise.
pub dropped-IsWhole :
    (ignore_ids : StringSet) (ignore_pm : Bool) (blocks : List Bytes)
    → All
        (IsWhole (wishes ignore_ids ignore_pm blocks) (dropped ignore_ids ignore_pm blocks))
        (chain_sec_rule_groups blocks)
dropped-IsWhole ignore_ids ignore_pm blocks = All-In _ _ (whole ignore_ids ignore_pm blocks)
