-- ===== src/ProjectManager/PullRequests.antt =====
-- tools/github_project_manager/pr_triage.go: labels and milestones of pull requests. The semver package
-- is the parameter `Semver`.
use coraza_kubernetes_operat.Prelude.{
  ℕ, ◌+◌, Bool, true, not, ◌&&◌, List, [], ◌∷◌, Option, none, some, any, leb, if◌then◌else◌,
}
use coraza_kubernetes_operat.Prelude.Bytes.{Bytes, bytes, has_prefix, trim_prefix}
use coraza_kubernetes_operat.CoreRuleSet.Strings.{is_found, bytes_le}
use coraza_kubernetes_operat.ProjectManager.Triage.{has_label_prefix}

pub record PathRule : Type 0 where
  pub label : Bytes
  pub prefixes : List Bytes

unfoldable pub path_area_rules : List PathRule
path_area_rules =
    record { label = bytes "area/api"; prefixes = bytes "api/" ∷ [] }
    ∷ record { label = bytes "area/controllers"; prefixes = bytes "internal/controller/" ∷ [] }
    ∷ record { label = bytes "area/cache"; prefixes = bytes "internal/rulesets/" ∷ [] }
    ∷ record {
      label = bytes "area/testing";
      prefixes = bytes "test/" ∷ bytes "internal/controller/suite_test.go" ∷ [];
    }
    ∷ record {
      label = bytes "area/infrastructure";
      prefixes =
          bytes ".github/"
          ∷ bytes "Makefile"
          ∷ bytes "Dockerfile"
          ∷ bytes "hack/"
          ∷ bytes "tools/"
          ∷ [];
    }
    ∷ record {
      label = bytes "area/documentation";
      prefixes =
          bytes "docs/"
          ∷ bytes "README.md"
          ∷ bytes "CONTRIBUTING.md"
          ∷ bytes "DEVELOPMENT.md"
          ∷ bytes "RELEASE.md"
          ∷ [];
    }
    ∷ record { label = bytes "area/helm"; prefixes = bytes "charts/" ∷ [] }
    ∷ []

-- The labels of the rules with a prefix of a file.
unfoldable pub matching_paths : List PathRule → List Bytes → List Bytes
matching_paths [] files = []
matching_paths (r ∷ rules) files =
    let rest = matching_paths rules files in
    if any (λ f. any (has_prefix f) r.prefixes) files then r.label ∷ rest else rest

unfoldable pub compute_pr_area_labels : List Bytes → List Bytes → List Bytes
unfolding path_area_rules matching_paths has_label_prefix
compute_pr_area_labels labels files =
    if has_label_prefix labels (bytes "area/") then [] else matching_paths path_area_rules files

abbrev size_label : ℕ → Bytes
size_label total =
    if leb total 10
    then bytes "size/XS"
    else if leb total 50
    then bytes "size/S"
    else if leb total 200
    then bytes "size/M"
    else if leb total 500
    then bytes "size/L"
    else bytes "size/XL"

unfoldable pub compute_pr_size_label : List Bytes → ℕ → ℕ → List Bytes
unfolding has_label_prefix
compute_pr_size_label labels additions deletions =
    if has_label_prefix labels (bytes "size/") then [] else size_label (additions + deletions) ∷ []

pub record Milestone : Type 0 where
  pub number : ℕ
  pub title : Bytes

-- semver.StrictNewVersion, and LessThan of two versions.
pub record Semver : Type 1 where
  pub Version : Type 0
  pub strict_new_version : Bytes → Option Version
  pub less_than : Version → Version → Bool

module _ (semver : Semver) where
  unfoldable pub parse_semver : Bytes → Option semver.Version
  parse_semver s = semver.strict_new_version (trim_prefix s (bytes "v"))

  abbrev compare_parsed : Option semver.Version → Option semver.Version → Bool → Bool
  compare_parsed (some a) (some b) by_text = semver.less_than a b
  compare_parsed _ _ by_text = by_text

  unfoldable pub semver_less : Bytes → Bytes → Bool
  unfolding parse_semver
  semver_less a b = compare_parsed (parse_semver a) (parse_semver b) (not (bytes_le b a))

  abbrev pub better : Option Milestone → Milestone → Bool
  better none m = true
  better (some best) m = semver_less m.title best.title

  -- The loop over the milestones.
  unfoldable pub lowest_from : Option Milestone → List Milestone → Option Milestone
  lowest_from best [] = best
  lowest_from best (m ∷ milestones) =
      lowest_from (if is_found (parse_semver m.title) && better best m then some m else best)
        milestones

  -- `none` is the error that there is no milestone with a semver title.
  unfoldable pub find_lowest_milestone : List Milestone → Option Milestone
  unfolding lowest_from
  find_lowest_milestone milestones = lowest_from none milestones
