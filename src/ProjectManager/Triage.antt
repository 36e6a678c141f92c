-- ===== src/ProjectManager/Triage.antt =====
-- tools/github_project_manager/triage.go: the labels of issues.
pub mod Labels
pub mod WithMilestone
pub mod WithoutMilestone
pub mod Settled
use coraza_kubernetes_operat.Prelude.{
  ℕ, zero, suc, ◌+◌, Bool, true, false, not, ◌&&◌, ◌||◌, List, [], ◌∷◌, ◌++◌, Option, none, some,
  any, select, count_if, ltb, ◌==◌, if◌then◌else◌,
}
use coraza_kubernetes_operat.Prelude.Bytes.{Bytes, bytes, bytes_eq, contains, has_prefix}
use coraza_kubernetes_operat.CoreRuleSet.Strings.{to_lower}

-- slices.Contains
abbrev pub holds : List Bytes → Bytes → Bool
holds labels l = any (bytes_eq l) labels

abbrev pub accepted : Bytes
accepted = bytes "triage/accepted"

abbrev pub needs_triage : Bytes
needs_triage = bytes "triage/needs-triage"

abbrev pub declined : Bytes
declined = bytes "triage/declined"

-- A triage label other than the given one.
unfoldable pub is_other_triage : Bytes → Bytes → Bool
is_other_triage but l = has_prefix l (bytes "triage/") && not (bytes_eq l but)

pub record TriageResult : Type 0 where
  pub labels_to_add : List Bytes
  pub labels_to_remove : List Bytes

abbrev label_if : Bool → Bytes → List Bytes
label_if true l = l ∷ []
label_if false l = []

abbrev pub without_milestone : List Bytes → ℕ → TriageResult
without_milestone labels triage_count =
    let remove = label_if (holds labels accepted) accepted in
    if triage_count == 0
    then record { labels_to_add = needs_triage ∷ []; labels_to_remove = remove }
    else if holds labels needs_triage && ltb 1 triage_count
    then record { labels_to_add = []; labels_to_remove = remove ++ needs_triage ∷ [] }
    else record { labels_to_add = []; labels_to_remove = remove }

unfoldable pub compute_label_updates : List Bytes → Bool → TriageResult
compute_label_updates labels false =
    without_milestone labels (count_if (is_other_triage accepted) labels)
compute_label_updates labels true = record {
  labels_to_add = label_if (not (holds labels accepted)) accepted;
  labels_to_remove = select (is_other_triage accepted) labels;
}

unfoldable pub effective_labels : List Bytes → TriageResult → List Bytes
effective_labels labels r = select (λ l. not (holds r.labels_to_remove l)) labels ++ r.labels_to_add

unfoldable pub has_label_prefix : List Bytes → Bytes → Bool
has_label_prefix labels prefix = any (λ l. has_prefix l prefix) labels

pub record DeclinedResult : Type 0 where
  pub labels_to_remove : List Bytes
  pub remove_milestone : Bool
  pub close_issue : Bool

unfoldable pub compute_declined : List Bytes → Bool → Bytes → Option DeclinedResult
compute_declined labels has_milestone state =
    if not (holds labels declined)
    then none
    else some (record {
      labels_to_remove = select (is_other_triage declined) labels;
      remove_milestone = has_milestone;
      close_issue = not (bytes_eq state (bytes "closed"));
    })

pub record AreaRule : Type 0 where
  pub label : Bytes
  pub keywords : List Bytes

unfoldable pub area_rules : List AreaRule
area_rules =
    record {
      label = bytes "area/testing";
      keywords =
          bytes "test"
          ∷ bytes "testing"
          ∷ bytes "e2e"
          ∷ bytes "unit test"
          ∷ bytes "integration test"
          ∷ [];
    }
    ∷ record {
      label = bytes "area/infrastructure";
      keywords =
          bytes "ci"
          ∷ bytes "pipeline"
          ∷ bytes "build"
          ∷ bytes "makefile"
          ∷ bytes "dockerfile"
          ∷ bytes "github action"
          ∷ bytes "workflow"
          ∷ bytes "script"
          ∷ [];
    }
    ∷ record {
      label = bytes "area/documentation";
      keywords = bytes "docs" ∷ bytes "documentation" ∷ bytes "readme" ∷ bytes "guide" ∷ [];
    }
    ∷ record {
      label = bytes "area/refinements";
      keywords =
          bytes "refactor"
          ∷ bytes "improvement"
          ∷ bytes "cleanup"
          ∷ bytes "enhance"
          ∷ bytes "technical debt"
          ∷ [];
    }
    ∷ record {
      label = bytes "area/perfscale";
      keywords =
          bytes "performance"
          ∷ bytes "scale"
          ∷ bytes "scaling"
          ∷ bytes "latency"
          ∷ bytes "throughput"
          ∷ bytes "benchmark"
          ∷ [];
    }
    ∷ []

-- The labels of the rules that have a keyword in the text.
unfoldable pub matching_areas : List AreaRule → Bytes → List Bytes
matching_areas [] lower = []
matching_areas (r ∷ rules) lower =
    let rest = matching_areas rules lower in
    if any (contains lower) r.keywords then r.label ∷ rest else rest

unfoldable pub compute_area_labels : List Bytes → Bytes → List Bytes
unfolding area_rules matching_areas has_label_prefix
compute_area_labels labels body =
    if not (holds labels accepted) || has_label_prefix labels (bytes "area/")
    then []
    else matching_areas area_rules (to_lower body)

unfoldable pub compute_size_labels : List Bytes → List Bytes
unfolding has_label_prefix
compute_size_labels labels =
    if holds labels accepted && not (has_label_prefix labels (bytes "size/"))
    then bytes "size/needs-sizing" ∷ []
    else []
