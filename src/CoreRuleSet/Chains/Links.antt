-- ===== src/CoreRuleSet/Chains/Links.antt =====
-- The groups of chainSecRuleGroups are chains: every rule of a group but the last has the chain action.
use coraza_kubernetes_operat.Prelude.{
  ℕ, suc, ◌+◌, Bool, true, false, not, ◌&&◌, List, [], ◌∷◌, ◌++◌, ◌≡◌, refl, sym, ap, ◌∙◌, subst,
  arith, all,
}
use coraza_kubernetes_operat.Prelude.Bytes.{Bytes}
use coraza_kubernetes_operat.CoreRuleSet.Strings.{is_empty}
use coraza_kubernetes_operat.CoreRuleSet.Chains.Groups.{is_empty-snoc}
use coraza_kubernetes_operat.CoreRuleSet.Chains.{
  Grouper, group_on, group_block, is_skipped, is_sec_rule, group_blocks, no_groups, open_chain,
  chain_sec_rule_groups, sec_rule_has_chain_action, block_at,
}

-- A chain has a rule, and all its rules but the last pass the test.
abbrev pub links : (ℕ → Bool) → List ℕ → Bool
links chains [] = false
links chains (i ∷ []) = true
links chains (i ∷ j ∷ g) = chains i && links chains (j ∷ g)

module _ (chains : ℕ → Bool) where
  links-snoc : (c : List ℕ) (i : ℕ) → all chains c ≡ true → links chains (c ++ i ∷ []) ≡ true
  links-snoc [] i h = refl
  links-snoc (j ∷ []) i h = ground (arith, h)
  links-snoc (j ∷ k ∷ c) i h = ground (arith, h, links-snoc (k ∷ c) i)

  links-all : (c : List ℕ) → all chains c ≡ true → not (is_empty c) ≡ true → links chains c ≡ true
  links-all [] h e = e
  links-all (j ∷ []) h e = refl
  links-all (j ∷ k ∷ c) h e = ground (arith, h, links-all (k ∷ c))

  all-snoc :
      {A : Type 0} (p : A → Bool) (l : List A) (x : A)
      → all p l ≡ true
      → p x ≡ true
      → all p (l ++ x ∷ []) ≡ true
  all-snoc p [] x h e = ground (arith, e)
  all-snoc p (y ∷ l) x h e = ground (arith, h, e, all-snoc p l x)

  -- What holds between the rounds.
  abbrev pub IsLinked : Grouper → Type 0
  IsLinked g =
      (all (links chains) g.groups ≡ true)
      × (all chains g.cur ≡ true)
      × (g.in_chain ≡ not (is_empty g.cur))

  group_on-IsLinked :
      (skipped rule chained inside : Bool) (g : Grouper) (i : ℕ)
      → g.in_chain ≡ inside
      → chains i ≡ chained
      → IsLinked g
      → IsLinked (group_on skipped rule chained inside g i)
  unfolding group_on
  group_on-IsLinked true rule chained inside g i e t h = h
  group_on-IsLinked false false chained true g i e t (hg, hc, hs) =
      (all-snoc (links chains) g.groups g.cur hg (links-all g.cur hc (sym hs ∙ e)), refl, refl)
  group_on-IsLinked false false chained false g i e t h = h
  group_on-IsLinked false true true inside g i e t (hg, hc, hs) =
      (hg, all-snoc chains g.cur i hc t, sym (is_empty-snoc g.cur i))
  group_on-IsLinked false true false true g i e t (hg, hc, hs) =
      (all-snoc (links chains) g.groups (g.cur ++ i ∷ []) hg (links-snoc g.cur i hc), refl, refl)
  group_on-IsLinked false true false false g i e t (hg, hc, hs) =
      (all-snoc (links chains) g.groups (i ∷ []) hg refl, hc, hs)

  group_blocks-IsLinked :
      (blocks : List Bytes) (g : Grouper) (i : ℕ)
      → ((k : ℕ) → chains (i + k) ≡ sec_rule_has_chain_action (block_at blocks k))
      → IsLinked g
      → IsLinked (group_blocks g i blocks)
  unfolding group_blocks group_block
  group_blocks-IsLinked [] g i t h = h
  group_blocks-IsLinked (b ∷ blocks) g i t h =
      group_blocks-IsLinked blocks (group_block g i b) (i + 1)
        (λ k.
          subst (λ j. chains j ≡ sec_rule_has_chain_action (block_at blocks k)) (omega arith)
            (t (suc k)))
        (group_on-IsLinked (is_skipped b) (is_sec_rule b) (sec_rule_has_chain_action b) g.in_chain g
          i refl (subst (λ j. chains j ≡ sec_rule_has_chain_action b) (omega arith) (t 0)) h)

  links-open_chain :
      (g : Grouper) (b : Bool)
      → g.in_chain ≡ b
      → IsLinked g
      → all (links chains) (open_chain g) ≡ true
  links-open_chain g true e (hg, hc, hs) =
      rw (← hs, e) (all-snoc (links chains) g.groups g.cur hg (links-all g.cur hc (sym hs ∙ e)))
  links-open_chain g false e (hg, hc, hs) = rw e hg

abbrev pub chains_at : List Bytes → ℕ → Bool
chains_at blocks i = sec_rule_has_chain_action (block_at blocks i)

-- Every group of chainSecRuleGroups has a rule, and all its rules but the last have the chain action.
pub chain_sec_rule_groups-links :
    (blocks : List Bytes) → all (links (chains_at blocks)) (chain_sec_rule_groups blocks) ≡ true
unfolding chain_sec_rule_groups
chain_sec_rule_groups-links blocks =
    let g = group_blocks no_groups 0 blocks in
    links-open_chain (chains_at blocks) g g.in_chain refl (
      group_blocks-IsLinked (chains_at blocks) blocks no_groups 0
        (λ k. ap (chains_at blocks) (omega arith)) (refl, refl, refl))
