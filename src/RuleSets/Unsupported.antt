-- ===== src/RuleSets/Unsupported.antt =====
-- internal/rulesets/unsupported.go: the check for unsupported rules and its message.
-- The registry stands in Unsupported/Registry, and the reading of rule IDs in Unsupported/RuleIds.
pub mod Registry
pub mod RuleIds
pub mod Decimal
pub mod Check
pub mod Collected
pub mod Comments
mod Examples
