-- ===== src/Controller/RuleSet/Examples.antt =====
-- Tests of the reconciler of RuleSets, and its theorems at a concrete input.
use coraza_kubernetes_operat.Prelude.{◌≡◌, refl, inl, Option, none, some, List, [], ◌∷◌, map}
use coraza_kubernetes_operat.Prelude.Bytes.{Bytes, bytes}
use coraza_kubernetes_operat.Prelude.Assoc.{Assoc, lookup}
use coraza_kubernetes_operat.Cache.Store.{new_rule_set_cache, put}
use coraza_kubernetes_operat.RuleSets.Unsupported.RuleIds.{mentioned_ids}
use coraza_kubernetes_operat.RuleSets.Unsupported.Registry.{unsupported_rule, build_registry}
use coraza_kubernetes_operat.RuleSets.Unsupported.Check.{check_unsupported_rules, find_unsupported}
use coraza_kubernetes_operat.Prelude.Sort.{sort_by}
use coraza_kubernetes_operat.Controller.Errors.{
  sanitize_error_message, should_skip_missing_file_error,
}
use coraza_kubernetes_operat.Controller.Conditions.{
  apply_status_progressing, set_condition_true, set_condition_false,
}
use coraza_kubernetes_operat.Controller.Conditions.Sample.{sample_conditions}
use coraza_kubernetes_operat.Controller.Errors.{plain_error}
use coraza_kubernetes_operat.Controller.RuleSet.{
  RuleSet, RuleSource, Fetched, found, missing, Cluster, World, Chance, patch_degraded,
}
use coraza_kubernetes_operat.Controller.RuleSet.Loading.{
  load_data, load_sources, validate_rule_source_rules,
}
use coraza_kubernetes_operat.Controller.RuleSet.Reconcile.{reconcile}
use coraza_kubernetes_operat.Controller.RuleSet.Outcome.{Ends, ReadySince}
use coraza_kubernetes_operat.Controller.RuleSet.Ending.{reconcile-Ends}
use coraza_kubernetes_operat.Controller.RuleSet.Complete.{reconcile_succeeds}

abbrev rule_set : RuleSet
rule_set = record {
  namespace = bytes "ns";
  name = bytes "crs";
  generation = 3;
  annotations = [];
  sources = bytes "first" ∷ bytes "second" ∷ [];
  data_sources = bytes "words" ∷ [];
}

abbrev files : Assoc Bytes
files = (bytes "words.txt", bytes "a") ∷ []

abbrev sources : Assoc RuleSource
sources =
    (bytes "first", record { rules = bytes "SecRuleEngine On"; source_annotations = [] })
    ∷ (bytes "second", record { rules = bytes "SecAction \"id:1\""; source_annotations = [] })
    ∷ []

abbrev fetch_from : Option RuleSource → Fetched RuleSource
fetch_from none = missing
fetch_from (some s) = found s

-- Everything is there, and every directive is accepted.
abbrev cluster : Cluster
cluster = record {
  get_rule_set = found rule_set;
  get_rule_data = λ _. found files;
  get_rule_source = λ name. fetch_from (lookup name sources);
  patch_status = λ _. none;
  new_waf = λ _ _. none;
}

-- Coraza refuses every text.
abbrev strict : Cluster
strict = record cluster { new_waf = λ _ _. some (plain_error (bytes "bad directive")) }

abbrev chance : Chance
chance = record {
  init_first = 1;
  init_second = 2;
  first = 3;
  second = 4;
  put_at = 5;
  uuid = bytes "u1";
}

abbrev world : World
world = record { conditions = []; events = []; log = []; cache = new_rule_set_cache }

abbrev joined : Bytes
joined = bytes "SecRuleEngine On\nSecAction \"id:1\""

abbrev source_objs : List (Bytes × RuleSource)
source_objs = sources

refused :
    ((reconcile sample_conditions strict chance world).0
      ≡ some (plain_error (bytes "bad directive")))
    × (map (λ e. e.event_reason) (reconcile sample_conditions strict chance world).1.events
        ≡ bytes "InvalidRuleSource" ∷ bytes "InvalidRuleSource" ∷ bytes "InvalidRuleSet" ∷ [])
unfolding reconcile load_data load_sources validate_rule_source_rules sanitize_error_message
    patch_degraded should_skip_missing_file_error sample_conditions apply_status_progressing
    set_condition_false set_condition_true
refused = (refl, refl)

reconcile-Ends_example :
    Ends sample_conditions cluster chance rule_set world
      (reconcile sample_conditions cluster chance world).1
      (reconcile sample_conditions cluster chance world).0
reconcile-Ends_example = reconcile-Ends sample_conditions cluster chance rule_set world refl

reconcile_succeeds_example :
    ((reconcile sample_conditions cluster chance world).0 ≡ none)
    × ((reconcile sample_conditions cluster chance world).1.cache
        ≡ put new_rule_set_cache (bytes "ns/crs") joined (some files) (bytes "u1") 5)
    × ReadySince sample_conditions chance rule_set
        (reconcile sample_conditions cluster chance world).1
unfolding check_unsupported_rules mentioned_ids find_unsupported sort_by unsupported_rule
    build_registry
reconcile_succeeds_example =
    reconcile_succeeds sample_conditions cluster chance rule_set world ((bytes "words", files) ∷ [])
      source_objs refl refl refl refl (inl refl) (λ _. refl)
