-- ===== src/RuleSets.antt =====
-- Package rulesets (internal/rulesets): the analysis of rules for what the engine does not support.
pub mod Unsupported
pub mod MemFs
