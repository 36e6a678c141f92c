-- ===== src/CoreRuleSet/Chains/Groups.antt =====
-- What chainSecRuleGroups groups: every SecRule once, in order, and whole chains.
use coraza_kubernetes_operat.Prelude.{
  ℕ, ◌+◌, Bool, true, false, not, ◌&&◌, List, [], ◌∷◌, ◌++◌, ◌≡◌, refl, sym, ap, ◌∙◌, arith,
}
use mathlib.Core.List.{append_assoc, append-nil}
use coraza_kubernetes_operat.Prelude.Bytes.{Bytes}
use coraza_kubernetes_operat.CoreRuleSet.Strings.{is_empty}
use coraza_kubernetes_operat.CoreRuleSet.Chains.{
  Grouper, group_on, is_skipped, is_sec_rule, group_blocks, group_block, no_groups, open_chain,
  chain_sec_rule_groups, sec_rule_has_chain_action,
}

abbrev pub flatten : List (List ℕ) → List ℕ
flatten [] = []
flatten (g ∷ gs) = g ++ flatten gs

abbrev index_if : Bool → ℕ → List ℕ
index_if true i = i ∷ []
index_if false i = []

-- The indices of the SecRule blocks, of which the first has the index `i`.
abbrev pub rule_indices : ℕ → List Bytes → List ℕ
rule_indices i [] = []
rule_indices i (block ∷ blocks) =
    index_if (not (is_skipped block) && is_sec_rule block) i ++ rule_indices (i + 1) blocks

-- A chain is open exactly when rules of it are pending.
abbrev IsSteady : Grouper → Type 0
IsSteady g = g.in_chain ≡ not (is_empty g.cur)

abbrev members : Grouper → List ℕ
members g = flatten g.groups ++ g.cur

flatten-append : (gs hs : List (List ℕ)) → flatten (gs ++ hs) ≡ flatten gs ++ flatten hs
flatten-append [] hs = refl
flatten-append (g ∷ gs) hs = simp (flatten-append gs, append_assoc)

-- What a round does to the members.
abbrev Adds : Grouper → List ℕ → Grouper → Type 0
Adds g is h = IsSteady h × (members h ≡ members g ++ is)

closed_members : (gs : List (List ℕ)) (c : List ℕ) → flatten (gs ++ c ∷ []) ++ [] ≡ flatten gs ++ c
closed_members gs c = simp (flatten-append, append-nil)

steady_cur : (g : Grouper) (c : List ℕ) → g.cur ≡ c → IsSteady g → g.in_chain ≡ false → g.cur ≡ []
steady_cur g [] e h f = e
steady_cur g (i ∷ c) e h f =
    absurd (ground (arith, sym f ∙ h ∙ ap (λ (l : List ℕ). not (is_empty l)) e))

pub is_empty-snoc : {A : Type 0} (l : List A) (x : A) → not (is_empty (l ++ x ∷ [])) ≡ true
is_empty-snoc [] x = refl
is_empty-snoc (y ∷ l) x = refl

group_on-Adds :
    (skipped rule chains inside : Bool) (g : Grouper) (i : ℕ)
    → g.in_chain ≡ inside
    → IsSteady g
    → Adds g (index_if (not skipped && rule) i) (group_on skipped rule chains inside g i)
unfolding group_on
group_on-Adds true rule chains inside g i e h = (h, sym (append-nil (members g)))
group_on-Adds false false chains true g i e h =
    (refl, closed_members g.groups g.cur ∙ sym (append-nil (members g)))
group_on-Adds false false chains false g i e h = (h, sym (append-nil (members g)))
group_on-Adds false true true inside g i e h =
    (sym (is_empty-snoc g.cur i), sym (append_assoc (flatten g.groups) g.cur (i ∷ [])))
group_on-Adds false true false true g i e h = (
  refl,
  closed_members g.groups (g.cur ++ i ∷ []) ∙ sym (append_assoc (flatten g.groups) g.cur (i ∷ [])),
)
group_on-Adds false true false false g i e h =
    let c = steady_cur g g.cur refl h e in
    (
      h,
      rw c (
          closed_members g.groups (i ∷ [])
          ∙ ap (λ t. t ++ i ∷ []) (sym (append-nil (flatten g.groups)))),
    )

group_blocks-Adds :
    (blocks : List Bytes) (g : Grouper) (i : ℕ)
    → IsSteady g
    → Adds g (rule_indices i blocks) (group_blocks g i blocks)
unfolding group_blocks group_block
group_blocks-Adds [] g i h = (h, sym (append-nil (members g)))
group_blocks-Adds (b ∷ blocks) g i h =
    let (h', e) =
      group_on-Adds (is_skipped b) (is_sec_rule b) (sec_rule_has_chain_action b) g.in_chain g i refl
        h in
    let (h'', e') = group_blocks-Adds blocks (group_block g i b) (i + 1) h' in
    (h'', e' ∙ ap (λ t. t ++ rule_indices (i + 1) blocks) e ∙ append_assoc (members g) _ _)

flatten-open_chain :
    (g : Grouper) (c : List ℕ) → g.cur ≡ c → IsSteady g → flatten (open_chain g) ≡ members g
flatten-open_chain g [] e h = rw (h, e) (sym (append-nil (flatten g.groups)))
flatten-open_chain g (i ∷ c) e h =
    rw (h, e)
      (flatten-append g.groups ((i ∷ c) ∷ [])
        ∙ ap (λ t. flatten g.groups ++ t) (append-nil (i ∷ c)))

-- The groups of chainSecRuleGroups, one behind the other, are the SecRule blocks in their order: none
-- is left out and none stands in two groups.
pub flatten-chain_sec_rule_groups :
    (blocks : List Bytes) → flatten (chain_sec_rule_groups blocks) ≡ rule_indices 0 blocks
unfolding chain_sec_rule_groups
flatten-chain_sec_rule_groups blocks =
    let (h, e) = group_blocks-Adds blocks no_groups 0 refl in
    flatten-open_chain (group_blocks no_groups 0 blocks) _ refl h ∙ e
