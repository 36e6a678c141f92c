-- ===== src/ProjectManager/Triage/Settled.antt =====
-- The label updates of an issue settle: once they are applied, no further update is due.
use coraza_kubernetes_operat.Prelude.{◌≤◌, Bool, true, false, List, ◌≡◌, count_if}
use coraza_kubernetes_operat.Prelude.Bytes.{Bytes, bytes_eq}
use coraza_kubernetes_operat.ProjectManager.Triage.{
  effective_labels, needs_triage, compute_label_updates,
}
use coraza_kubernetes_operat.ProjectManager.Triage.WithMilestone.{no_update, settled_with}
use coraza_kubernetes_operat.ProjectManager.Triage.WithoutMilestone.{settled_without}

-- Once the updates of computeLabelUpdates are applied, no update is due: with a milestone, and without
-- one where the issue does not have needs-triage twice.
pub compute_label_updates_settle :
    (labels : List Bytes) (has_milestone : Bool)
    → count_if (bytes_eq needs_triage) labels ≤ 1
    → compute_label_updates
        (effective_labels labels (compute_label_updates labels has_milestone))
        has_milestone
      ≡ no_update
compute_label_updates_settle labels true u = settled_with labels
compute_label_updates_settle labels false u = settled_without labels u
