-- ===== src/CoreRuleSet.antt =====
-- tools/corerulesetgen: the generator of manifests from the files of the OWASP core rule set.
-- The functions of package strings that only it calls stand in Strings.
pub mod Strings
pub mod Blocks
pub mod Chains
pub mod Options
pub mod Process
pub mod Validate
pub mod BaseRules
pub mod Render
pub mod Build
pub mod Paths
pub mod Generate
mod Examples
