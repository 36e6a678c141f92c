-- ===== src/CoreRuleSet/Chains/Exact.antt =====
-- chainSecRuleGroups as a whole.
use coraza_kubernetes_operat.Prelude.{true, List, ◌≡◌, all}
use coraza_kubernetes_operat.Prelude.Bytes.{Bytes}
use coraza_kubernetes_operat.CoreRuleSet.Chains.{chain_sec_rule_groups}
use coraza_kubernetes_operat.CoreRuleSet.Chains.Groups.{
  flatten, rule_indices, flatten-chain_sec_rule_groups,
}
use coraza_kubernetes_operat.CoreRuleSet.Chains.Longest.{
  longest_chains, chain_sec_rule_groups-longest_chains,
}
use coraza_kubernetes_operat.CoreRuleSet.Chains.Links.{
  links, chains_at, chain_sec_rule_groups-links,
}

-- The groups, one behind the other, are the SecRule blocks in their order, so that none is left out and
-- none stands in two groups; each group has a rule, and all its rules but the last have the chain
-- action; and no chain is cut: read from the last block to the first, a SecRule with the chain action
-- stands in the group of the SecRule that follows it, with nothing between them but blank blocks and
-- comments, and is the last of its group only where no such SecRule follows.
pub chain_sec_rule_groups_exact :
    (blocks : List Bytes)
    → (flatten (chain_sec_rule_groups blocks) ≡ rule_indices 0 blocks)
      × (all (links (chains_at blocks)) (chain_sec_rule_groups blocks) ≡ true)
      × (chain_sec_rule_groups blocks ≡ longest_chains blocks)
chain_sec_rule_groups_exact blocks = (
  flatten-chain_sec_rule_groups blocks,
  chain_sec_rule_groups-links blocks,
  chain_sec_rule_groups-longest_chains blocks,
)
