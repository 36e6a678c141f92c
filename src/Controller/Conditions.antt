-- ===== src/Controller/Conditions.antt =====
-- internal/controller/utils.go: status conditions and their transitions.
-- The functions of apimeta on lists of conditions are a parameter with their documented laws, and
-- metav1.Now() is an argument.
pub mod Phases
pub mod Notes
pub mod Transitions
pub mod Sample
mod Examples
use coraza_kubernetes_operat.Prelude.{
  ℕ, ◌-◌, Bool, true, false, ◌&&◌, not, ◌≡◌, Option, none, some, List, [], ◌∷◌, ◌++◌, length, take,
  leb, if◌then◌else◌,
}
use coraza_kubernetes_operat.Prelude.Bytes.{Bytes, bytes, bytes_eq}

pub data ConditionStatus : Type 0 where
  is_true is_false is_unknown : ConditionStatus

abbrev pub same_status : ConditionStatus → ConditionStatus → Bool
same_status is_true is_true = true
same_status is_false is_false = true
same_status is_unknown is_unknown = true
same_status _ _ = false

pub record Condition : Type 0 where
  pub type : Bytes
  pub status : ConditionStatus
  pub observed_generation : ℕ
  pub last_transition_time : ℕ
  pub reason : Bytes
  pub message : Bytes

-- What SetStatusCondition stores in place of an old condition: the transition time stays while the
-- status does.
abbrev pub stamped : Option Condition → Condition → Condition
stamped none c = c
stamped (some old) c =
    if same_status old.status c.status
    then record c { last_transition_time = old.last_transition_time }
    else c

-- FindStatusCondition, SetStatusCondition and RemoveStatusCondition.
pub record ConditionList : Type 0 where
  pub find : List Condition → Bytes → Option Condition
  pub set : List Condition → Condition → List Condition
  pub remove : List Condition → Bytes → List Condition
  pub find-set :
      (cs : List Condition) (c : Condition) (t : Bytes)
      → find (set cs c) t
        ≡ (if bytes_eq c.type t then some (stamped (find cs c.type) c) else find cs t)
  pub find-remove :
      (cs : List Condition) (s t : Bytes)
      → find (remove cs s) t ≡ (if bytes_eq s t then none else find cs t)

abbrev pub condition_ready : Bytes
condition_ready = bytes "Ready"

abbrev pub condition_degraded : Bytes
condition_degraded = bytes "Degraded"

abbrev pub condition_progressing : Bytes
condition_progressing = bytes "Progressing"

abbrev pub tracked_condition_types : List Bytes
tracked_condition_types = condition_ready ∷ condition_degraded ∷ condition_progressing ∷ []

-- The text of a condition, and the instants at which its setters read the clock.
pub record Cause : Type 0 where
  pub generation : ℕ
  pub reason : Bytes
  pub message : Bytes
  pub first : ℕ
  pub second : ℕ

abbrev condition : Bytes → ConditionStatus → ℕ → Cause → Condition
condition type status now c = record {
  type = type;
  status = status;
  observed_generation = c.generation;
  last_transition_time = now;
  reason = c.reason;
  message = c.message;
}

module _ (api : ConditionList) where
  unfoldable pub set_condition_true : List Condition → Bytes → ℕ → Cause → List Condition
  set_condition_true cs type now c = api.set cs (condition type is_true now c)

  unfoldable pub set_condition_false : List Condition → Bytes → ℕ → Cause → List Condition
  set_condition_false cs type now c = api.set cs (condition type is_false now c)

  unfoldable pub apply_status_condition_degraded : List Condition → Cause → List Condition
  unfolding set_condition_true set_condition_false
  apply_status_condition_degraded cs c =
      let cs' = set_condition_false cs condition_ready c.first c in
      let cs'' = set_condition_true cs' condition_degraded c.second c in
      api.remove cs'' condition_progressing

  unfoldable pub apply_status_progressing : List Condition → Cause → List Condition
  unfolding set_condition_true set_condition_false
  apply_status_progressing cs c =
      let cs' = set_condition_false cs condition_ready c.first c in
      set_condition_true cs' condition_progressing c.second c

  unfoldable pub apply_status_ready : List Condition → Cause → List Condition
  unfolding set_condition_true
  apply_status_ready cs c =
      let cs' = set_condition_true cs condition_ready c.first c in
      api.remove (api.remove cs' condition_degraded) condition_progressing

-- A line of logConditionTransitions. A removal has no reason.
pub data Transition : Type 0 where
  condition_set : Bytes → ConditionStatus → Bytes → Transition
  condition_removed : Bytes → ConditionStatus → Transition
  condition_changed : Bytes → ConditionStatus → ConditionStatus → Bytes → Transition

abbrev transition : Bytes → Option Condition → Option Condition → List Transition
transition t none none = []
transition t none (some cur) = condition_set t cur.status cur.reason ∷ []
transition t (some prev) none = condition_removed t prev.status ∷ []
transition t (some prev) (some cur) =
    if same_status prev.status cur.status && bytes_eq prev.reason cur.reason
    then []
    else condition_changed t prev.status cur.status cur.reason ∷ []

abbrev transitions_of :
    (Bytes → Option Condition) → (Bytes → Option Condition) → List Bytes → List Transition
transitions_of before after [] = []
transitions_of before after (t ∷ ts) =
    transition t (before t) (after t) ++ transitions_of before after ts

-- The conditions before an update, by type: snapshotConditions copies the tracked ones.
unfoldable pub log_condition_transitions :
    ConditionList → List Condition → List Condition → List Transition
log_condition_transitions api before after =
    transitions_of (api.find before) (api.find after) tracked_condition_types

unfoldable pub max_event_note_bytes : ℕ
max_event_note_bytes = 1024

unfoldable pub truncate_event_note : Bytes → Bytes
truncate_event_note msg =
    if leb (length msg) max_event_note_bytes
    then msg
    else take (max_event_note_bytes - 3) msg ++ bytes "..."
