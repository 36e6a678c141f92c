-- ===== src/ProjectManager/Commands/DryRun.antt =====
-- With --dry-run, the commands only read.
use coraza_kubernetes_operat.Prelude.{
  refl, not, false, ◌∷◌, Option, ℕ, if◌then◌else◌, some, none, true, Bool, List, [], ◌++◌, ◌≡◌, sym,
  ap, ◌∙◌, All, All-append,
}
use mathlib.Core.List.{append_assoc, append-nil}
use coraza_kubernetes_operat.Prelude.Bytes.{bytes_eq, Bytes, bytes}
use coraza_kubernetes_operat.CoreRuleSet.Options.{Outcome, ok, err}
use coraza_kubernetes_operat.ProjectManager.Triage.{
  holds, declined, DeclinedResult, compute_declined,
}
use coraza_kubernetes_operat.ProjectManager.PullRequests.{Milestone, Semver, find_lowest_milestone}
use coraza_kubernetes_operat.ProjectManager.Client.{
  has_milestone, Issue, Network, GitHubClient, request_of, do_request, get_json, get_issue,
  get_pull_request_info, get_pull_request_files, list_open_milestones,
}
use coraza_kubernetes_operat.ProjectManager.Commands.{
  Config, done, set_found, apply_labels, run_update_labels, apply_declined, run_close_declined,
  assign_milestone, run_triage_pr, run_command, dispatch,
}
use coraza_kubernetes_operat.ProjectManager.Exec.{
  Request, Exec, ◌>>=◌, continue, give, wrapped, wrap_pair,
}

-- The requests that a result adds are reads.
abbrev pub AddsReads : {A : Type 0} → List Request → Outcome A × List Request → Type 0
AddsReads before r =
    (new : List Request) × (r.1 ≡ before ++ new) × All (λ (q : Request). q.method ≡ bytes "GET") new

pub record OnlyReads {A : Type 0} (m : Exec A) : Type 0 where
  pub adds : (before : List Request) → AddsReads before (m before)

give-OnlyReads : {A : Type 0} (o : Outcome A) → OnlyReads (give o)
give-OnlyReads o = record { adds = λ before. ([], sym (append-nil before), tt) }

continue-AddsReads :
    {A B : Type 0} (before : List Request) (r : Outcome A × List Request) (f : A → Exec B)
    → AddsReads before r
    → ((a : A) → OnlyReads (f a))
    → AddsReads before (continue r f)
continue-AddsReads before (err e, sent) f h g = h
continue-AddsReads before (ok a, sent) f (new, e, reads) g =
    let (more, e', reads') = (g a).adds sent in
    (
      new ++ more,
      e' ∙ ap (λ l. l ++ more) e ∙ append_assoc before new more,
      All-append (λ (q : Request). q.method ≡ bytes "GET") new more reads reads',
    )

bind-OnlyReads :
    {A B : Type 0} (m : Exec A) (f : A → Exec B)
    → OnlyReads m
    → ((a : A) → OnlyReads (f a))
    → OnlyReads (m >>= f)
bind-OnlyReads m f h g = record {
  adds = λ before. continue-AddsReads before (m before) f (h.adds before) g;
}

wrap_pair-AddsReads :
    {A : Type 0} (parts : List Bytes) (before : List Request) (r : Outcome A × List Request)
    → AddsReads before r
    → AddsReads before (wrap_pair parts r)
wrap_pair-AddsReads parts before (o, sent) h = h

wrapped-OnlyReads :
    {A : Type 0} (parts : List Bytes) (m : Exec A) → OnlyReads m → OnlyReads (wrapped parts m)
unfolding wrapped
wrapped-OnlyReads parts m h = record {
  adds = λ before. wrap_pair-AddsReads parts before (m before) (h.adds before);
}

module _ (net : Network) (c : GitHubClient) where
  get-OnlyReads : (url : Bytes) → OnlyReads (do_request net c (bytes "GET") url [])
  unfolding do_request request_of
  get-OnlyReads url = record {
    adds = λ before. (request_of net c (bytes "GET") url [] ∷ [], refl, (refl, tt));
  }

  get_json-OnlyReads :
      {A : Type 0} (url : Bytes) (decode : Bytes → Outcome A)
      → OnlyReads (get_json net c url decode)
  unfolding get_json
  get_json-OnlyReads url decode =
      bind-OnlyReads (do_request net c (bytes "GET") url []) _ (get-OnlyReads url)
        (λ r. give-OnlyReads _)

  get_issue-OnlyReads : (n : ℕ) → OnlyReads (get_issue net c n)
  unfolding get_issue
  get_issue-OnlyReads n = wrapped-OnlyReads _ _ (get_json-OnlyReads _ _)

  get_pull_request_info-OnlyReads : (n : ℕ) → OnlyReads (get_pull_request_info net c n)
  unfolding get_pull_request_info
  get_pull_request_info-OnlyReads n = wrapped-OnlyReads _ _ (get_json-OnlyReads _ _)

  get_pull_request_files-OnlyReads : (n : ℕ) → OnlyReads (get_pull_request_files net c n)
  unfolding get_pull_request_files
  get_pull_request_files-OnlyReads n = wrapped-OnlyReads _ _ (get_json-OnlyReads _ _)

  list_open_milestones-OnlyReads : OnlyReads (list_open_milestones net c)
  unfolding list_open_milestones
  list_open_milestones-OnlyReads = wrapped-OnlyReads _ _ (get_json-OnlyReads _ _)

done-OnlyReads : OnlyReads done
done-OnlyReads = give-OnlyReads (ok tt)

if-OnlyReads :
    (b : Bool) (m k : Exec (Unit {0})) → OnlyReads m → OnlyReads k → OnlyReads (if b then m else k)
if-OnlyReads true m k hm hk = hm
if-OnlyReads false m k hm hk = hk

module _ (net : Network) (semver : Semver) (c : GitHubClient) where
  run_update_labels-OnlyReads :
      (n : ℕ) (labels : List Bytes) (milestone : Bool) (body : Bytes)
      → OnlyReads (run_update_labels net semver c n labels milestone body true)
  unfolding run_update_labels apply_labels
  run_update_labels-OnlyReads n labels milestone body =
      if-OnlyReads (holds labels declined) done _ done-OnlyReads
        (if-OnlyReads _ done _ done-OnlyReads done-OnlyReads)

  run_close_declined-OnlyReads :
      (n : ℕ) (labels : List Bytes) (milestone : Bool) (state : Bytes)
      → OnlyReads (run_close_declined net semver c n labels milestone state true)
  unfolding run_close_declined apply_declined
  run_close_declined-OnlyReads n labels milestone state =
      by_result (compute_declined labels milestone state)
    where
      by_result : (r : Option DeclinedResult) → OnlyReads (apply_declined net semver c n true r)
      by_result none = done-OnlyReads
      by_result (some r) = done-OnlyReads

  assign_milestone-OnlyReads : (n : ℕ) → OnlyReads (assign_milestone net semver c n true)
  unfolding assign_milestone
  assign_milestone-OnlyReads n =
      bind-OnlyReads (list_open_milestones net c)
        (λ (ms : List Milestone). set_found net semver c n true (find_lowest_milestone semver ms))
        (list_open_milestones-OnlyReads net c) (λ ms. nothing_set (find_lowest_milestone semver ms))
    where
      nothing_set : (m : Option Milestone) → OnlyReads (set_found net semver c n true m)
      nothing_set none = done-OnlyReads
      nothing_set (some m) = done-OnlyReads

  run_triage_pr-OnlyReads :
      (n : ℕ) (iss : Issue) (project : ℕ)
      → OnlyReads (run_triage_pr net semver c n iss project true)
  unfolding run_triage_pr apply_labels
  run_triage_pr-OnlyReads n iss project =
      bind-OnlyReads (get_pull_request_info net c n) _ (get_pull_request_info-OnlyReads net c n)
        (λ info.
          bind-OnlyReads (get_pull_request_files net c n) _
            (get_pull_request_files-OnlyReads net c n)
            (λ files. bind-OnlyReads done _ done-OnlyReads (λ _.
              bind-OnlyReads _ _
                (if-OnlyReads (not (has_milestone iss)) (assign_milestone net semver c n true) done
                  (assign_milestone-OnlyReads n) done-OnlyReads)
                (λ _. done-OnlyReads))))

  run_command-OnlyReads :
      (cfg : Config) (iss : Issue)
      → cfg.dry_run ≡ true
      → OnlyReads (run_command net semver c cfg iss)
  unfolding run_command
  run_command-OnlyReads cfg iss h = rw h (
      if-OnlyReads (bytes_eq cfg.command (bytes "update-labels")) _ _
        (run_update_labels-OnlyReads cfg.issue iss.labels (has_milestone iss) iss.body)
        (if-OnlyReads (bytes_eq cfg.command (bytes "close-declined")) _ _
          (run_close_declined-OnlyReads cfg.issue iss.labels (has_milestone iss) iss.state)
          (if-OnlyReads (bytes_eq cfg.command (bytes "triage-pr")) _ _
            (run_triage_pr-OnlyReads cfg.issue iss cfg.project) (give-OnlyReads _))))

-- With --dry-run, a run of a command sends GET requests only, whatever the network answers.
pub dispatch_dry_run :
    (net : Network) (semver : Semver) (c : GitHubClient) (cfg : Config)
    → cfg.dry_run ≡ true
    → OnlyReads (dispatch net semver c cfg)
unfolding dispatch
dispatch_dry_run net semver c cfg h =
    bind-OnlyReads (get_issue net c cfg.issue) (run_command net semver c cfg)
      (get_issue-OnlyReads net c cfg.issue) (λ iss. run_command-OnlyReads net semver c cfg iss h)
