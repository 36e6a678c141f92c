-- ===== src/Cache.antt =====
-- Package cache (internal/rulesets/cache): the rule set cache and the server in front of it.
pub mod Store
pub mod Auth
pub mod Server
pub mod Metrics
pub mod UseMetrics
