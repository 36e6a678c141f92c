-- ===== src/CoreRuleSet/Chains.antt =====
-- tools/corerulesetgen/rules.go: extractRuleID, secRuleHasChainAction and chainSecRuleGroups, with
-- the two regular expressions as functions over the text.
pub mod Groups
pub mod Links
pub mod Longest
pub mod Exact
use coraza_kubernetes_operat.Prelude.{
  ℕ, zero, suc, ◌+◌, Bool, true, false, not, ◌&&◌, ◌||◌, List, [], ◌∷◌, ◌++◌, Option, none, some,
  ◌==◌, if◌then◌else◌,
}
use coraza_kubernetes_operat.Prelude.Bytes.{Bytes, bytes, bytes_eq, cut_prefix, has_prefix}
use coraza_kubernetes_operat.RuleSets.Unsupported.RuleIds.{digits}
use coraza_kubernetes_operat.CoreRuleSet.Strings.{trim_space, is_empty}

abbrev some_digits : Bytes × Bytes → Option Bytes
some_digits ([], rest) = none
some_digits (d ∷ ds, rest) = some (d ∷ ds)

abbrev digits_of : Option Bytes → Option Bytes
digits_of none = none
digits_of (some s) = some_digits (digits s)

abbrev or_later : Option Bytes → Option Bytes → Option Bytes
or_later none later = later
or_later (some id) later = some id

-- ruleIDRe: the submatch of the first match of id:(\d+)
unfoldable pub find_rule_id : Bytes → Option Bytes
find_rule_id [] = none
find_rule_id (c ∷ s) =
    let later = find_rule_id s in or_later (digits_of (cut_prefix (c ∷ s) (bytes "id:"))) later

abbrev or_unknown : Option Bytes → Bytes
or_unknown none = bytes "unknown"
or_unknown (some id) = id

unfoldable pub extract_rule_id : Bytes → Bytes
unfolding find_rule_id
extract_rule_id rule_text = or_unknown (find_rule_id rule_text)

-- \s
abbrev is_regexp_space : ℕ → Bool
is_regexp_space c = c == b' ' || c == b'\t' || c == b'\n' || c == 12 || c == b'\r'

abbrev skip_spaces : Bytes → Bytes
skip_spaces [] = []
skip_spaces (c ∷ s) = let rest = skip_spaces s in if is_regexp_space c then rest else c ∷ s

abbrev ends_action : Bytes → Bool
ends_action [] = false
ends_action (c ∷ s) = c == b',' || c == b'"'

abbrev after_chain : Option Bytes → Bool
after_chain none = false
after_chain (some s) = ends_action (skip_spaces s)

-- chainActionRe: ,\s*chain\s*(?:,|")
unfoldable pub sec_rule_has_chain_action : Bytes → Bool
sec_rule_has_chain_action [] = false
sec_rule_has_chain_action (c ∷ s) =
    let later = sec_rule_has_chain_action s in
    c == b',' && after_chain (cut_prefix (skip_spaces s) (bytes "chain")) || later

-- The variables of the loop.
pub record Grouper : Type 0 where
  pub groups : List (List ℕ)
  pub cur : List ℕ
  pub in_chain : Bool

abbrev pub close_chain : Grouper → List ℕ → Grouper
close_chain g chain = record { groups = g.groups ++ chain ∷ []; cur = []; in_chain = false }

-- A block that is skipped, a block that is no SecRule, a SecRule with the chain action, and one
-- without it; the fourth flag is inChain.
unfoldable pub group_on : Bool → Bool → Bool → Bool → Grouper → ℕ → Grouper
group_on true is_rule chains in_chain g i = g
group_on false false chains true g i = close_chain g g.cur
group_on false false chains false g i = g
group_on false true true in_chain g i = record g { cur = g.cur ++ i ∷ []; in_chain = true }
group_on false true false true g i = close_chain g (g.cur ++ i ∷ [])
group_on false true false false g i = record g { groups = g.groups ++ (i ∷ []) ∷ [] }

-- Blank blocks and comments.
unfoldable pub is_skipped : Bytes → Bool
is_skipped block =
    let stripped = trim_space block in is_empty stripped || has_prefix stripped (bytes "#")

unfoldable pub is_sec_rule : Bytes → Bool
is_sec_rule block = has_prefix (trim_space block) (bytes "SecRule")

unfoldable pub group_block : Grouper → ℕ → Bytes → Grouper
unfolding group_on
group_block g i block =
    group_on (is_skipped block) (is_sec_rule block) (sec_rule_has_chain_action block) g.in_chain g i

-- The loop over the blocks from the index `i` on.
unfoldable pub group_blocks : Grouper → ℕ → List Bytes → Grouper
unfolding group_block
group_blocks g i [] = g
group_blocks g i (block ∷ blocks) = group_blocks (group_block g i block) (i + 1) blocks

abbrev pub no_groups : Grouper
no_groups = record { groups = []; cur = []; in_chain = false }

abbrev pub open_chain : Grouper → List (List ℕ)
open_chain g = if g.in_chain && not (is_empty g.cur) then g.groups ++ g.cur ∷ [] else g.groups

unfoldable pub chain_sec_rule_groups : List Bytes → List (List ℕ)
unfolding group_blocks
chain_sec_rule_groups blocks = open_chain (group_blocks no_groups 0 blocks)

-- blocks[i]; the code asks only for indices of blocks.
abbrev pub block_at : List Bytes → ℕ → Bytes
block_at [] i = []
block_at (block ∷ blocks) zero = block
block_at (block ∷ blocks) (suc i) = block_at blocks i
