-- ===== src/ProjectManager/Commands.antt =====
-- tools/github_project_manager/main.go: the commands. What they print is left out, but for the outcome.
pub mod DryRun
pub mod Neutral
pub mod Plan
pub mod Flags
use coraza_kubernetes_operat.Prelude.{
  ℕ, zero, suc, ◌+◌, Bool, true, false, not, ◌&&◌, ◌||◌, List, [], ◌∷◌, ◌++◌, Option, none, some,
  ltb, if◌then◌else◌,
}
use coraza_kubernetes_operat.Prelude.Bytes.{Bytes, bytes, bytes_eq}
use coraza_kubernetes_operat.CoreRuleSet.Strings.{is_empty}
use coraza_kubernetes_operat.CoreRuleSet.Options.{concat, Outcome, ok, err, errorf}
use coraza_kubernetes_operat.ProjectManager.Triage.{
  holds, declined, TriageResult, DeclinedResult, compute_label_updates, effective_labels,
  compute_size_labels, compute_area_labels, compute_declined,
}
use coraza_kubernetes_operat.ProjectManager.PullRequests.{
  Milestone, Semver, compute_pr_area_labels, compute_pr_size_label, find_lowest_milestone,
}
use coraza_kubernetes_operat.ProjectManager.Exec.{Request, Exec, ◌>>=◌, give}
use coraza_kubernetes_operat.ProjectManager.Client.{
  Issue, has_milestone, PullRequestInfo, Network, GitHubClient, get_issue, add_labels, remove_label,
  close_issue, remove_milestone, list_open_milestones, set_milestone, get_pull_request_info,
  get_pull_request_files,
}
use coraza_kubernetes_operat.ProjectManager.Projects.{
  find_oldest_open_project, lookup_project_id, add_item_to_project,
}

pub record Config : Type 0 where
  pub dry_run : Bool
  pub owner : Bytes
  pub repo : Bytes
  pub issue : ℕ
  pub project : ℕ
  pub command : Bytes
  pub token : Bytes

unfoldable pub usage : Bytes
usage = concat (
    bytes "Usage: github_project_manager [flags] <command>\n\nIssue Commands:\n"
    ∷ bytes "  update-labels     Apply triage label rules based on milestone status\n"
    ∷ bytes "  close-declined    Handle declined issues (close, remove labels/milestone)\n\n"
    ∷ bytes "PR Commands:\n"
    ∷ bytes
        "  triage-pr         Apply area labels, milestone, size labels, and add to project board\n"
    ∷ bytes "\nFlags:\n  -v, --verbose     Enable verbose output\n"
    ∷ bytes "  --dry-run         Display changes without making them\n"
    ∷ bytes "  --owner           Repository owner (or GITHUB_OWNER env)\n"
    ∷ bytes "  --repo            Repository name (or GITHUB_REPO env)\n"
    ∷ bytes "  --issue           Issue/PR number (or GITHUB_ISSUE env)\n"
    ∷ bytes
        "  --project         Project number for board management (default: auto-discover oldest open)\n"
    ∷ bytes "\nEnvironment:\n  GITHUB_TOKEN      GitHub API token (required)"
    ∷ [])

abbrev pub done : Exec (Unit {0})
done = give (ok tt)

-- The changes that update-labels makes to an issue that is not declined.
unfoldable pub label_plan : List Bytes → Bool → Bytes → TriageResult
label_plan labels milestone body =
    let r = compute_label_updates labels milestone in
    let effective = effective_labels labels r in
    record r {
      labels_to_add =
          r.labels_to_add ++ compute_size_labels effective ++ compute_area_labels effective body;
    }

module _ (net : Network) (semver : Semver) (c : GitHubClient) where
  unfoldable pub remove_labels : ℕ → List Bytes → Exec (Unit {0})
  remove_labels n [] = done
  remove_labels n (l ∷ labels) = remove_label net c n l >>= λ _. remove_labels n labels

  unfoldable pub apply_labels : ℕ → List Bytes → List Bytes → Bool → Exec (Unit {0})
  unfolding remove_labels
  apply_labels n to_add to_remove dry_run =
      if dry_run
      then done
      else ((if is_empty to_add then done else add_labels net c n to_add) >>= λ _.
          remove_labels n to_remove)

  unfoldable pub run_update_labels : ℕ → List Bytes → Bool → Bytes → Bool → Exec (Unit {0})
  unfolding apply_labels label_plan
  run_update_labels n labels milestone body dry_run =
      if holds labels declined
      then done
      else let plan = label_plan labels milestone body in
        if is_empty plan.labels_to_add && is_empty plan.labels_to_remove
        then done
        else apply_labels n plan.labels_to_add plan.labels_to_remove dry_run

  abbrev when : Bool → Exec (Unit {0}) → Exec (Unit {0})
  when true m = m
  when false m = done

  unfoldable pub apply_declined : ℕ → Bool → Option DeclinedResult → Exec (Unit {0})
  unfolding remove_labels
  apply_declined n dry_run none = done
  apply_declined n dry_run (some r) =
      if dry_run
      then done
      else (remove_labels n r.labels_to_remove >>= λ _.
          when r.remove_milestone (remove_milestone net c n) >>= λ _.
          when r.close_issue (close_issue net c n))

  unfoldable pub run_close_declined : ℕ → List Bytes → Bool → Bytes → Bool → Exec (Unit {0})
  unfolding apply_declined
  run_close_declined n labels milestone state dry_run =
      apply_declined n dry_run (compute_declined labels milestone state)

  unfoldable pub resolve_project_id : ℕ → Exec Bytes
  resolve_project_id n =
      if ltb 0 n then lookup_project_id net c n else find_oldest_open_project net c

  abbrev set_found : ℕ → Bool → Option Milestone → Exec (Unit {0})
  set_found n dry_run none = done
  set_found n dry_run (some m) = if dry_run then done else set_milestone net c n m.number

  unfoldable pub assign_milestone : ℕ → Bool → Exec (Unit {0})
  assign_milestone n dry_run = list_open_milestones net c >>= λ milestones.
      set_found n dry_run (find_lowest_milestone semver milestones)

  -- An error of the project board is a warning.
  abbrev with_warning : Outcome (Unit {0}) × List Request → Outcome (Unit {0}) × List Request
  with_warning (_, sent) = (ok tt, sent)

  unfoldable pub add_to_board : ℕ → Bytes → Exec (Unit {0})
  unfolding resolve_project_id
  add_to_board project node_id = λ sent. with_warning (
      (resolve_project_id project >>= λ id. add_item_to_project net c id node_id (bytes "Review"))
        sent)

  unfoldable pub run_triage_pr : ℕ → Issue → ℕ → Bool → Exec (Unit {0})
  unfolding apply_labels assign_milestone add_to_board
  run_triage_pr n iss project dry_run = get_pull_request_info net c n >>= λ info.
      get_pull_request_files net c n >>= λ files.
      apply_labels n
        (compute_pr_area_labels iss.labels files
          ++ compute_pr_size_label iss.labels info.additions info.deletions)
        [] dry_run
      >>= λ _. (if not (has_milestone iss) then assign_milestone n dry_run else done) >>= λ _.
          if not dry_run then add_to_board project info.node_id else done

  unfoldable pub run_command : Config → Issue → Exec (Unit {0})
  unfolding run_update_labels run_close_declined run_triage_pr
  run_command cfg iss =
      if bytes_eq cfg.command (bytes "update-labels")
      then run_update_labels cfg.issue iss.labels (has_milestone iss) iss.body cfg.dry_run
      else if bytes_eq cfg.command (bytes "close-declined")
      then run_close_declined cfg.issue iss.labels (has_milestone iss) iss.state cfg.dry_run
      else if bytes_eq cfg.command (bytes "triage-pr")
      then run_triage_pr cfg.issue iss cfg.project cfg.dry_run
      else give
          (errorf (bytes "unknown command " ∷ net.quote cfg.command ∷ bytes "\n\n" ∷ usage ∷ []))

  unfoldable pub dispatch : Config → Exec (Unit {0})
  unfolding run_command
  dispatch cfg = get_issue net c cfg.issue >>= run_command cfg
