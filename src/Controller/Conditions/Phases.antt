-- ===== src/Controller/Conditions/Phases.antt =====
-- The phases of a resource as its conditions show them.
use coraza_kubernetes_operat.Prelude.{ℕ, ◌≡◌, refl, Option, none, some, List, arith}
use coraza_kubernetes_operat.Prelude.Bytes.{Bytes}
use coraza_kubernetes_operat.Controller.Conditions.{
  ConditionStatus, is_true, is_false, Condition, ConditionList, stamped, condition_ready,
  condition_degraded, condition_progressing, Cause, condition, apply_status_ready,
  apply_status_condition_degraded, apply_status_progressing,
}

module _ (api : ConditionList) (cs : List Condition) where
  -- The condition of the type has this status, and the cause's generation, reason and message.
  pub record Says (type : Bytes) (status : ConditionStatus) (c : Cause) : Type 0 where
    pub condition : Condition
    pub found : api.find cs type ≡ some condition
    pub has_status : condition.status ≡ status
    pub has_reason : condition.reason ≡ c.reason
    pub has_message : condition.message ≡ c.message
    pub has_generation : condition.observed_generation ≡ c.generation

  pub record IsReady (c : Cause) : Type 0 where
    pub ready : Says condition_ready is_true c
    pub not_degraded : api.find cs condition_degraded ≡ none
    pub not_progressing : api.find cs condition_progressing ≡ none

  pub record IsDegraded (c : Cause) : Type 0 where
    pub not_ready : Says condition_ready is_false c
    pub degraded : Says condition_degraded is_true c
    pub not_progressing : api.find cs condition_progressing ≡ none

  pub record IsProgressing (c : Cause) : Type 0 where
    pub not_ready : Says condition_ready is_false c
    pub progressing : Says condition_progressing is_true c

module _ (api : ConditionList) where
  says_stamped :
      (cs : List Condition) (type : Bytes) (status : ConditionStatus) (now : ℕ) (c : Cause)
      (old : Option Condition)
      → api.find cs type ≡ some (stamped old (condition type status now c))
      → Says api cs type status c
  says_stamped cs type status now c none h = record {
    condition = condition type status now c;
    found = h;
    has_status = refl;
    has_reason = refl;
    has_message = refl;
    has_generation = refl;
  }
  says_stamped cs type status now c (some old) h = record {
    condition = stamped (some old) (condition type status now c);
    found = h;
    has_status = ground arith;
    has_reason = ground arith;
    has_message = ground arith;
    has_generation = ground arith;
  }

  -- Whatever the conditions were: afterwards Ready is True for this cause, and Degraded and
  -- Progressing are absent.
  pub apply_status_ready-IsReady :
      (cs : List Condition) (c : Cause) → IsReady api (apply_status_ready api cs c) c
  unfolding apply_status_ready
  apply_status_ready-IsReady cs c = record {
    ready =
        says_stamped _ condition_ready is_true c.first c (api.find cs condition_ready)
          (simp (api.find-remove, api.find-set));
    not_degraded = simp (api.find-remove);
    not_progressing = simp (api.find-remove);
  }

  -- Whatever the conditions were: afterwards Ready is False and Degraded is True, both for this
  -- cause, and Progressing is absent.
  pub apply_status_condition_degraded-IsDegraded :
      (cs : List Condition) (c : Cause)
      → IsDegraded api (apply_status_condition_degraded api cs c) c
  unfolding apply_status_condition_degraded
  apply_status_condition_degraded-IsDegraded cs c = record {
    not_ready =
        says_stamped _ condition_ready is_false c.first c (api.find cs condition_ready)
          (simp (api.find-remove, api.find-set));
    degraded =
        says_stamped _ condition_degraded is_true c.second c (api.find cs condition_degraded)
          (simp (api.find-remove, api.find-set));
    not_progressing = simp (api.find-remove);
  }

  -- Whatever the conditions were: afterwards Ready is False and Progressing is True, both for this
  -- cause, and Degraded is as it was.
  pub apply_status_progressing-IsProgressing :
      (cs : List Condition) (c : Cause)
      → IsProgressing api (apply_status_progressing api cs c) c
        × (api.find (apply_status_progressing api cs c) condition_degraded
            ≡ api.find cs condition_degraded)
  unfolding apply_status_progressing
  apply_status_progressing-IsProgressing cs c = (
    record {
      not_ready =
          says_stamped _ condition_ready is_false c.first c (api.find cs condition_ready)
            (simp (api.find-set));
      progressing =
          says_stamped _ condition_progressing is_true c.second c
            (api.find cs condition_progressing) (simp (api.find-set));
    },
    simp (api.find-set),
  )
