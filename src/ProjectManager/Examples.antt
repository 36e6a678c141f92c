-- ===== src/ProjectManager/Examples.antt =====
-- Tests of the project manager.
use coraza_kubernetes_operat.Prelude.{
  ℕ, true, false, List, [], ◌∷◌, ◌≡◌, refl, arith, Option, none, some, ltb, if◌then◌else◌,
}
use coraza_kubernetes_operat.Prelude.Bytes.{Bytes, bytes, bytes_eq}
use coraza_kubernetes_operat.Controller.Errors.{plain_error}
use coraza_kubernetes_operat.CoreRuleSet.Options.{ok, err}
use coraza_kubernetes_operat.ProjectManager.Triage.{effective_labels}
use coraza_kubernetes_operat.ProjectManager.Triage.WithMilestone.{no_update}
use coraza_kubernetes_operat.ProjectManager.PullRequests.{Milestone, Semver, find_lowest_milestone}
use coraza_kubernetes_operat.ProjectManager.Lowest.{
  IsOrdered, IsLowest, find_lowest_milestone-IsLowest,
}
use coraza_kubernetes_operat.ProjectManager.Client.{Issue, Network, answered, new_github_client}
use coraza_kubernetes_operat.ProjectManager.Commands.{Config, label_plan, dispatch}
use coraza_kubernetes_operat.ProjectManager.Commands.Plan.{label_plan_settles}
use coraza_kubernetes_operat.ProjectManager.Commands.DryRun.{OnlyReads, dispatch_dry_run}
use coraza_kubernetes_operat.ProjectManager.Commands.Flags.{Setting, parse_config}

abbrev sample_labels : List Bytes
sample_labels = bytes "triage/needs-triage" ∷ bytes "bug" ∷ bytes "triage/blocked" ∷ []

label_plan_settles_example :
    label_plan
      (effective_labels sample_labels (label_plan sample_labels true (bytes "slow test")))
      true
      (bytes "slow test")
    ≡ no_update
label_plan_settles_example = label_plan_settles sample_labels true (bytes "slow test") (omega arith)

-- Versions of one number, which is the first byte of the title.
abbrev number_of : Bytes → Option ℕ
number_of [] = none
number_of (b ∷ s) = if ltb 47 b then some b else none

abbrev sample_semver : Semver
sample_semver = record { Version = ℕ; strict_new_version = number_of; less_than = ltb }

sample_semver-IsOrdered : IsOrdered sample_semver
sample_semver-IsOrdered = record {
  irreflexive = λ v. ground arith;
  transitive = λ u v w h k. ground (arith, h, k);
}

abbrev sample_milestones : List Milestone
sample_milestones =
    record { number = 1; title = bytes "v2" }
    ∷ record { number = 2; title = bytes "-" }
    ∷ record { number = 3; title = bytes "1" }
    ∷ []

find_lowest_milestone-IsLowest_example :
    IsLowest sample_semver sample_milestones (find_lowest_milestone sample_semver sample_milestones)
find_lowest_milestone-IsLowest_example =
    find_lowest_milestone-IsLowest sample_semver sample_milestones sample_semver-IsOrdered

abbrev sample_issue : Issue
sample_issue = record {
  number = 7;
  state = bytes "open";
  body = [];
  labels = sample_labels;
  milestone = none;
}

abbrev sample_network : Network
sample_network = record {
  reply = λ sent r. answered 200 [];
  quote = λ s. s;
  path_escape = λ s. s;
  encode_labels = λ l. ok [];
  encode_milestone = λ n. ok [];
  encode_query = λ q v. ok [];
  decode_issue = λ b. ok sample_issue;
  decode_milestones = λ b. ok sample_milestones;
  decode_info = λ b. ok (record { node_id = bytes "n"; additions = 3; deletions = 9 });
  decode_files = λ b. ok (bytes "docs/a.md" ∷ []);
  decode_graphql = λ b. ok ([], []);
  decode_org_projects = λ b. ok [];
  decode_user_projects = λ b. ok [];
  decode_org_project = λ b. ok [];
  decode_user_project = λ b. ok [];
  decode_added_item = λ b. ok [];
  decode_status_field = λ b. ok (record { id = []; options = [] });
}

abbrev sample_config : Config
sample_config = record {
  dry_run = true;
  owner = bytes "o";
  repo = bytes "r";
  issue = 7;
  project = 0;
  command = bytes "triage-pr";
  token = bytes "t";
}

dispatch_dry_run_example : OnlyReads (
    dispatch sample_network sample_semver
      (new_github_client (bytes "t") (bytes "o") (bytes "r"))
      sample_config)
dispatch_dry_run_example =
    dispatch_dry_run sample_network sample_semver
      (new_github_client (bytes "t") (bytes "o") (bytes "r")) sample_config refl

abbrev sample_setting : Setting
sample_setting = record {
  parse_flags = λ args. ok (record {
    verbose = false;
    dry_run = true;
    owner = bytes "o";
    repo = [];
    issue = 7;
    project = 0;
    remaining = args;
  });
  getenv = λ name. if bytes_eq name (bytes "GITHUB_ISSUE") then [] else bytes "r";
  atoi = λ s. err (plain_error []);
  quote = λ s. s;
}

parsed_sample :
    parse_config sample_setting (bytes "triage-pr" ∷ [])
    ≡ ok (record sample_config { repo = bytes "r"; token = bytes "r" })
unfolding parse_config
parsed_sample = refl
