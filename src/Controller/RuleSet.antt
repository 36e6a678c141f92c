-- ===== src/Controller/RuleSet.antt =====
-- internal/controller/ruleset_controller*.go: the reconciler of RuleSets.
-- The API server, Coraza and the functions of apimeta are parameters. The conditions of the world are
-- the cluster's: a refused patch leaves them.
pub mod Loading
pub mod Reconcile
pub mod Outcome
pub mod Keeping
pub mod Ending
pub mod Loaded
pub mod Complete
mod Examples
use coraza_kubernetes_operat.Prelude.{
  ℕ, Bool, true, false, Option, none, some, List, [], ◌∷◌, ◌++◌, if◌then◌else◌,
}
use coraza_kubernetes_operat.Prelude.Bytes.{Bytes, bytes, bytes_eq}
use coraza_kubernetes_operat.Prelude.Assoc.{Assoc, lookup, insert}
use coraza_kubernetes_operat.Cache.Store.{RuleSetCache}
use coraza_kubernetes_operat.Controller.Conditions.{
  Condition, ConditionList, Transition, Cause, apply_status_condition_degraded, apply_status_ready,
  log_condition_transitions, truncate_event_note,
}
use coraza_kubernetes_operat.Controller.Errors.{GoError}

-- A RuleSet and a RuleSource, as far as they are read. `annotations` may lack a key.
pub record RuleSet : Type 0 where
  pub namespace : Bytes
  pub name : Bytes
  pub generation : ℕ
  pub annotations : Assoc Bytes
  pub sources : List Bytes
  pub data_sources : List Bytes

pub record RuleSource : Type 0 where
  pub rules : Bytes
  pub source_annotations : Assoc Bytes

-- The outcome of a GET. IsNotFound tells `missing` from `failed`.
pub data Fetched {ℓ} (A : Type ℓ) : Type ℓ where
  found : A → Fetched A
  missing : Fetched A
  failed : GoError → Fetched A

-- The objects of one namespace, the status patch, and coraza.NewWAF on directives and the files of
-- its root file system, where there is one.
pub record Cluster : Type 0 where
  pub get_rule_set : Fetched RuleSet
  pub get_rule_data : Bytes → Fetched (Assoc Bytes)
  pub get_rule_source : Bytes → Fetched RuleSource
  pub patch_status : List Condition → Option GoError
  pub new_waf : Bytes → Option (Assoc Bytes) → Option GoError

-- What a reconciliation reads from the clock, and the UUID that Put draws.
pub record Chance : Type 0 where
  pub init_first : ℕ
  pub init_second : ℕ
  pub first : ℕ
  pub second : ℕ
  pub put_at : ℕ
  pub uuid : Bytes

pub data EventKind : Type 0 where
  normal warning : EventKind

pub record Event : Type 0 where
  pub kind : EventKind
  pub event_reason : Bytes
  pub note : Bytes

pub record World : Type 0 where
  pub conditions : List Condition
  pub events : List Event
  pub log : List Transition
  pub cache : RuleSetCache

abbrev pub emit : World → EventKind → Bytes → Bytes → World
emit w kind reason message = record w {
  events =
      w.events
      ++ record { kind = kind; event_reason = reason; note = truncate_event_note message } ∷ [];
}

abbrev pub get_annotation : Bytes → Assoc Bytes → Bytes
get_annotation key annotations = elim (lookup key annotations) [ none ↦ [] | some v ↦ v ]

module _ (api : ConditionList) (patch_status : List Condition → Option GoError) where
  -- Status().Patch, and the log of the transitions where it succeeds.
  abbrev pub patched : List Condition → Option GoError → World → Option GoError × World
  patched after (some e) w = (some e, w)
  patched after none w = (
    none,
    record w {
      conditions = after;
      log = w.log ++ log_condition_transitions api w.conditions after;
    },
  )

  unfoldable pub patch_degraded : Cause → World → Option GoError × World
  patch_degraded c w =
      let after = apply_status_condition_degraded api w.conditions c in
      patched after (patch_status after) (emit w warning c.reason c.message)

  unfoldable pub patch_ready : Cause → World → Option GoError × World
  patch_ready c w =
      let after = apply_status_ready api w.conditions c in
      patched after (patch_status after) (emit w normal c.reason c.message)
