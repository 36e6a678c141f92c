-- ===== src/Controller.antt =====
-- Package controller (internal/controller): status conditions, errors and the reconcilers.
pub mod Conditions
pub mod Errors
pub mod RuleSet
pub mod Tokens
pub mod Policies
pub mod Watches
pub mod Istio
pub mod Engine
