-- ===== src/Controller/Conditions/Examples.antt =====
-- Tests of the conditions, and their theorems at a concrete input.
use coraza_kubernetes_operat.Prelude.{◌≡◌, refl, List, [], ◌∷◌}
use coraza_kubernetes_operat.Prelude.Bytes.{bytes}
use coraza_kubernetes_operat.Controller.Conditions.{
  Condition, Cause, condition_set, condition_removed, condition_changed, is_true, is_false,
  apply_status_condition_degraded, apply_status_progressing, log_condition_transitions,
}
use coraza_kubernetes_operat.Controller.Conditions.Sample.{sample_conditions}

abbrev start : Cause
start = record {
  generation = 1;
  reason = bytes "Reconciling";
  message = bytes "Starting";
  first = 5;
  second = 6;
}

abbrev failure : Cause
failure = record {
  generation = 1;
  reason = bytes "Bad";
  message = bytes "no";
  first = 7;
  second = 8;
}

abbrev progressing : List Condition
progressing = apply_status_progressing sample_conditions [] start

logged :
    log_condition_transitions sample_conditions progressing
      (apply_status_condition_degraded sample_conditions progressing failure)
    ≡ condition_changed (bytes "Ready") is_false is_false (bytes "Bad")
      ∷ condition_set (bytes "Degraded") is_true (bytes "Bad")
      ∷ condition_removed (bytes "Progressing") is_true
      ∷ []
unfolding log_condition_transitions apply_status_progressing apply_status_condition_degraded
    sample_conditions
logged = refl
