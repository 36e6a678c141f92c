-- ===== src/CoreRuleSet/Chains/Longest.antt =====
-- chainSecRuleGroups against a reading of the blocks from the last to the first: each chain is as long as
-- the blocks allow.
use coraza_kubernetes_operat.Prelude.{
  ℕ, ◌+◌, Bool, true, false, not, List, [], ◌∷◌, ◌++◌, ◌≡◌, refl, sym, ap, ◌∙◌,
}
use mathlib.Core.List.{append_assoc, append-nil}
use coraza_kubernetes_operat.Prelude.Bytes.{Bytes}
use coraza_kubernetes_operat.CoreRuleSet.Strings.{is_empty}
use coraza_kubernetes_operat.CoreRuleSet.Chains.{
  Grouper, group_on, is_skipped, is_sec_rule, group_blocks, group_block, no_groups, open_chain,
  chain_sec_rule_groups, sec_rule_has_chain_action,
}

-- The chain that starts with the next rule, if a rule before may join it, and the chains behind it.
abbrev Reading : Type 0
Reading = List ℕ × List (List ℕ)

abbrev closed : List ℕ → List (List ℕ) → List (List ℕ)
closed [] gs = gs
closed (i ∷ c) gs = (i ∷ c) ∷ gs

-- A block that is skipped changes nothing, one that is no SecRule separates, a SecRule with the chain
-- action joins the rule that follows it, and a SecRule without it ends its chain.
abbrev read_block : Bool → Bool → Bool → ℕ → Reading → Reading
read_block true is_rule chains i (c, gs) = (c, gs)
read_block false false chains i (c, gs) = ([], closed c gs)
read_block false true true i (c, gs) = (i ∷ c, gs)
read_block false true false i (c, gs) = (i ∷ [], closed c gs)

abbrev read_blocks : ℕ → List Bytes → Reading
read_blocks i [] = ([], [])
read_blocks i (block ∷ blocks) =
    read_block (is_skipped block) (is_sec_rule block) (sec_rule_has_chain_action block) i
      (read_blocks (i + 1) blocks)

abbrev all_closed : Reading → List (List ℕ)
all_closed (c, gs) = closed c gs

abbrev pub longest_chains : List Bytes → List (List ℕ)
longest_chains blocks = all_closed (read_blocks 0 blocks)

-- The groups so far, with the pending rules in front of what is read next.
abbrev followed : Grouper → Reading → List (List ℕ)
followed g (c, gs) = g.groups ++ closed (g.cur ++ c) gs

abbrev IsSteady : Grouper → Type 0
IsSteady g = g.in_chain ≡ not (is_empty g.cur)

closed-snoc :
    (c d : List ℕ) (i : ℕ) (gs : List (List ℕ)) → closed (c ++ i ∷ d) gs ≡ (c ++ i ∷ d) ∷ gs
closed-snoc [] d i gs = refl
closed-snoc (j ∷ c) d i gs = refl

closed_given :
    (c : List ℕ) (gs : List (List ℕ)) → not (is_empty c) ≡ true → closed (c ++ []) gs ≡ c ∷ gs
closed_given [] gs h = absurd (cc h)
closed_given (i ∷ c) gs h = ap (λ d. (i ∷ d) ∷ gs) (append-nil c)

empty_cur : (c : List ℕ) → not (is_empty c) ≡ false → c ≡ []
empty_cur [] h = refl
empty_cur (i ∷ c) h = absurd (cc h)

not_empty-snoc : (c : List ℕ) (i : ℕ) → not (is_empty (c ++ i ∷ [])) ≡ true
not_empty-snoc [] i = refl
not_empty-snoc (j ∷ c) i = refl

-- One more group in front of what follows.
group-snoc :
    (gs : List (List ℕ)) (c : List ℕ) (hs : List (List ℕ)) → (gs ++ c ∷ []) ++ hs ≡ gs ++ c ∷ hs
group-snoc gs c hs = append_assoc gs (c ∷ []) hs

group_on-followed :
    (skipped rule chains inside : Bool) (g : Grouper) (i : ℕ) (c : List ℕ) (gs : List (List ℕ))
    → g.in_chain ≡ inside
    → IsSteady g
    → IsSteady (group_on skipped rule chains inside g i)
      × (followed (group_on skipped rule chains inside g i) (c, gs)
          ≡ followed g (read_block skipped rule chains i (c, gs)))
unfolding group_on
group_on-followed true rule chains inside g i c gs e h = (h, refl)
group_on-followed false false chains true g i c gs e h = (
  refl,
  group-snoc g.groups g.cur (closed c gs)
      ∙ ap (λ l. g.groups ++ l) (sym (closed_given g.cur (closed c gs) (sym h ∙ e))),
)
group_on-followed false false chains false g i c gs e h =
    let none_pending = empty_cur g.cur (sym h ∙ e) in
    (
      h,
      ap (λ d. g.groups ++ closed (d ++ c) gs) none_pending
          ∙ ap (λ d. g.groups ++ closed (d ++ []) (closed c gs)) (sym none_pending),
    )
group_on-followed false true true inside g i c gs e h = (
  sym (not_empty-snoc g.cur i),
  ap (λ l. g.groups ++ closed l gs) (append_assoc g.cur (i ∷ []) c),
)
group_on-followed false true false true g i c gs e h = (
  refl,
  group-snoc g.groups (g.cur ++ i ∷ []) (closed c gs)
      ∙ ap (λ l. g.groups ++ l) (sym (closed-snoc g.cur [] i (closed c gs))),
)
group_on-followed false true false false g i c gs e h =
    let none_pending = empty_cur g.cur (sym h ∙ e) in
    (
      h,
      ap (λ d. (g.groups ++ (i ∷ []) ∷ []) ++ closed (d ++ c) gs) none_pending
          ∙ group-snoc g.groups (i ∷ []) (closed c gs)
          ∙ ap (λ d. g.groups ++ closed (d ++ i ∷ []) (closed c gs)) (sym none_pending),
    )

open_chain-followed :
    (g : Grouper) (b : Bool) → g.in_chain ≡ b → IsSteady g → open_chain g ≡ followed g ([], [])
open_chain-followed g true e h =
    rw (e, sym h ∙ e) (ap (λ l. g.groups ++ l) (sym (closed_given g.cur [] (sym h ∙ e))))
open_chain-followed g false e h = rw (e, empty_cur g.cur (sym h ∙ e)) (sym (append-nil g.groups))

group_blocks-followed :
    (blocks : List Bytes) (g : Grouper) (i : ℕ)
    → IsSteady g
    → open_chain (group_blocks g i blocks) ≡ followed g (read_blocks i blocks)
unfolding group_blocks group_block
group_blocks-followed [] g i h = open_chain-followed g g.in_chain refl h
group_blocks-followed (b ∷ blocks) g i h =
    let (c, gs) = read_blocks (i + 1) blocks in
    let (steady, same) =
      group_on-followed (is_skipped b) (is_sec_rule b) (sec_rule_has_chain_action b) g.in_chain g i
        c gs refl h in
    group_blocks-followed blocks (group_block g i b) (i + 1) steady ∙ same

-- The groups are the chains of the reading from the end.
pub chain_sec_rule_groups-longest_chains :
    (blocks : List Bytes) → chain_sec_rule_groups blocks ≡ longest_chains blocks
unfolding chain_sec_rule_groups
chain_sec_rule_groups-longest_chains blocks = group_blocks-followed blocks no_groups 0 refl
