-- ===== src/Cache/Store/History.antt =====
-- The cache against its abstract view: a map from each instance to the entry that was put last.
use coraza_kubernetes_operat.Prelude.{◌≡◌, refl, ◌∙◌, false, List, [], ◌∷◌, any, arith}
use coraza_kubernetes_operat.Prelude.Bytes.{Bytes}
use coraza_kubernetes_operat.Prelude.Assoc.{Assoc, lookup, insert, lookup-insert}
use coraza_kubernetes_operat.Cache.Store.{
  RuleSetEntry, RuleSetCache, is_latest, get, new_entry, stored, Op, puts, prunes, prunes_by_size,
  shuffle, perform, run, new_rule_set_cache,
}
use coraza_kubernetes_operat.Cache.Store.Accounting.{
  IsConsistent, perform-IsConsistent, new-IsConsistent,
}
use coraza_kubernetes_operat.Cache.Store.Latest.{
  get-put, get-prune, get-prune_by_size, lookup-swap_at,
}

-- The abstract cache: only Put changes it.
pub last_put : Assoc RuleSetEntry → Op → Assoc RuleSetEntry
last_put s (puts k rules files uuid now) = insert k (new_entry rules files uuid now) s
last_put s _ = s

pub last_puts : Assoc RuleSetEntry → List Op → Assoc RuleSetEntry
unfolding last_put
last_puts s [] = s
last_puts s (op ∷ ops) = last_puts (last_put s op) ops

-- uuid.New() returns a UUID that no entry of the instance bears at that time.
abbrev Fresh : RuleSetCache → Op → Type 0
Fresh c (puts k rules files uuid now) = any (is_latest uuid) (stored (lookup k c.entries)) ≡ false
Fresh c _ = Unit

abbrev pub IsFresh : RuleSetCache → List Op → Type 0
IsFresh c [] = Unit
IsFresh c (op ∷ ops) = Fresh c op × IsFresh (perform op c) ops

abbrev pub Refines : RuleSetCache → Assoc RuleSetEntry → Type 0
Refines c s = (k : Bytes) → get c k ≡ lookup k s

perform-Refines :
    (op : Op) (c : RuleSetCache) (s : Assoc RuleSetEntry)
    → IsConsistent c
    → Fresh c op
    → Refines c s
    → Refines (perform op c) (last_put s op)
unfolding perform last_put
perform-Refines (puts k rules files uuid now) c s v f r j = ground (
  arith,
  get-put c k j rules files uuid now f,
  lookup-insert k j (new_entry rules files uuid now) s,
  r j,
)
perform-Refines (prunes now max_age) c s v f r j = get-prune c now max_age j ∙ r j
perform-Refines (prunes_by_size max_size) c s v f r j = get-prune_by_size c max_size j ∙ r j
perform-Refines (shuffle i) c s v f r j =
    unfold get in rw (lookup-swap_at i j c.entries v.is_map) (r j)

run-Refines :
    (ops : List Op) (c : RuleSetCache) (s : Assoc RuleSetEntry)
    → IsConsistent c
    → IsFresh c ops
    → Refines c s
    → Refines (run c ops) (last_puts s ops)
unfolding run last_puts
run-Refines [] c s v f r = r
run-Refines (op ∷ ops) c s v f r =
    run-Refines ops (perform op c) (last_put s op) (perform-IsConsistent op c v) f.1
      (perform-Refines op c s v f.0 r)

-- After any sequence of Put, Prune and PruneBySize calls on a new cache, in which every UUID is new
-- to its instance, and in whatever order the loops visit the instances, Get returns for each
-- instance the entry of the last Put, and nothing where there was none.
pub get-run :
    (ops : List Op)
    → IsFresh new_rule_set_cache ops
    → (k : Bytes) → get (run new_rule_set_cache ops) k ≡ lookup k (last_puts [] ops)
get-run ops f =
    run-Refines ops new_rule_set_cache [] new-IsConsistent f
      (λ k. unfold get new_rule_set_cache in refl)
