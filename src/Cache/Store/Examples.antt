-- ===== src/Cache/Store/Examples.antt =====
-- Tests of the rule set cache, and its theorems at concrete inputs.
use coraza_kubernetes_operat.Prelude.{
  ◌<◌, ◌+◌, ◌≤◌, ◌≡◌, refl, true, ◌⊎◌, List, [], ◌∷◌, map, none, some,
}
use coraza_kubernetes_operat.Prelude.Bytes.{Bytes, bytes}
use coraza_kubernetes_operat.Prelude.Assoc.{lookup}
use coraza_kubernetes_operat.Cache.Store.{
  RuleSetCache, Op, puts, prunes, prunes_by_size, shuffle, run, perform, put, get, prune,
  prune_by_size, entry_size, new_entry, new_rule_set_cache,
}
use coraza_kubernetes_operat.Cache.Store.Sweeps.{survivors_of, stored_count}
use coraza_kubernetes_operat.Cache.Store.SizeInstances.{EvictedAll, largest_stored, only_latest}
use coraza_kubernetes_operat.Cache.Store.Accounting.{
  IsConsistent, run-IsConsistent, new-IsConsistent,
}
use coraza_kubernetes_operat.Cache.Store.Pruning.{prune_exact, prune_by_size_exact}
use coraza_kubernetes_operat.Cache.Store.History.{get-run, last_puts}

abbrev key_a : Bytes
key_a = bytes "default/a"

abbrev key_b : Bytes
key_b = bytes "default/b"

-- Two versions of one rule set, one of another, and a garbage collection.
abbrev history : List Op
history =
    puts key_a (bytes "SecRuleEngine On") none (bytes "u1") 100
    ∷ puts key_b (bytes "SecRuleEngine Off") none (bytes "u2") 110
    ∷ puts key_a (bytes "SecRule") (some ((bytes "f", 1 ∷ 2 ∷ []) ∷ [])) (bytes "u3") 150
    ∷ shuffle 0
    ∷ prunes 500 100
    ∷ prunes_by_size 3
    ∷ []

abbrev two_versions : RuleSetCache
two_versions = record {
  entries =
      (
        key_a,
        record {
          latest = bytes "u3";
          entries =
              record {
                uuid = bytes "u1";
                timestamp = 100;
                rules = 1 ∷ 2 ∷ 3 ∷ [];
                data_files = none;
              }
              ∷ record { uuid = bytes "u3"; timestamp = 150; rules = 1 ∷ 2 ∷ []; data_files = none }
              ∷ [];
        },
      )
      ∷ [];
  total_size = 5;
  total_entries = 2;
}

runs_to_latest :
    map (λ e. e.1.entries) (run new_rule_set_cache history).entries
    ≡ (new_entry (bytes "SecRuleEngine Off") none (bytes "u2") 110 ∷ [])
      ∷ (new_entry (bytes "SecRule") (some ((bytes "f", 1 ∷ 2 ∷ []) ∷ [])) (bytes "u3") 150 ∷ [])
      ∷ []
unfolding run perform put prune prune_by_size entry_size new_entry new_rule_set_cache
runs_to_latest = refl

pruned_one : (prune two_versions 500 100).1 ≡ 1
unfolding prune entry_size
pruned_one = refl

pruned_one_by_size : (prune_by_size two_versions 4).1 ≡ 1
unfolding prune_by_size entry_size
pruned_one_by_size = refl

run-IsConsistent_example : IsConsistent (run new_rule_set_cache history)
run-IsConsistent_example = run-IsConsistent history new_rule_set_cache new-IsConsistent

get-run_example : get (run new_rule_set_cache history) key_a ≡ lookup key_a (last_puts [] history)
unfolding run perform put prune prune_by_size entry_size new_entry new_rule_set_cache
get-run_example = get-run history (refl, (refl, (refl, (tt, (tt, (tt, tt)))))) key_a

prune_exact_example :
    ((prune two_versions 500 100).0.entries ≡ survivors_of 500 100 two_versions.entries)
    × ((prune two_versions 500 100).1 + stored_count (prune two_versions 500 100).0.entries ≡ 2)
prune_exact_example = prune_exact two_versions 500 100

prune_by_size_exact_example :
    EvictedAll two_versions.entries (prune_by_size two_versions 4).0.entries
    × ((prune_by_size two_versions 4).1 + stored_count (prune_by_size two_versions 4).0.entries ≡ 2)
    × (((prune_by_size two_versions 4).0.total_size ≤ 4)
        ⊎ (only_latest (prune_by_size two_versions 4).0.entries ≡ true))
    × (((prune_by_size two_versions 4).1 ≡ 0)
        ⊎ (4 < (prune_by_size two_versions 4).0.total_size + largest_stored two_versions.entries))
prune_by_size_exact_example = prune_by_size_exact two_versions 4
