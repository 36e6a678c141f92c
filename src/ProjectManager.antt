-- ===== src/ProjectManager.antt =====
-- tools/github_project_manager: the triage of issues and pull requests on GitHub.
pub mod Triage
pub mod PullRequests
pub mod Lowest
pub mod Exec
pub mod Client
pub mod Projects
pub mod Commands
mod Examples
