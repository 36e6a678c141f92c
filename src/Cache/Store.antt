-- ===== src/Cache/Store.antt =====
-- internal/rulesets/cache/cache.go: RuleSetCache.
-- Each method holds the mutex for its whole body, so a run of the cache is a sequence of calls.
-- A string or []byte is its bytes, time.Now() and uuid.New() are arguments, and an instant is a
-- number of nanoseconds. A map is iterated in the order of its list; Go chooses that order
-- freshly for each loop, which is the operation `shuffle`.
pub mod Sweeps
pub mod SizeSweeps
pub mod SizeInstances
pub mod Accounting
pub mod Latest
pub mod Pruning
pub mod History
mod Examples
use coraza_kubernetes_operat.Prelude.{
  ℕ, zero, suc, ◌+◌, ◌-◌, Bool, ◌||◌, Option, none, some, List, [], ◌∷◌, ◌++◌, length, sum_of, find,
  ltb, leb, ◌==◌, if◌then◌else◌,
}
use coraza_kubernetes_operat.Prelude.Bytes.{Bytes, bytes_eq}
use coraza_kubernetes_operat.Prelude.Assoc
use coraza_kubernetes_operat.Prelude.Assoc.{Assoc, lookup, insert}

pub record RuleSetEntry : Type 0 where
  pub uuid : Bytes
  pub timestamp : ℕ
  pub rules : Bytes
  -- `none` is the nil map.
  pub data_files : Option (Assoc Bytes)

pub record RuleSetEntries : Type 0 where
  pub latest : Bytes
  pub entries : List RuleSetEntry

pub record RuleSetCache : Type 0 where
  pub entries : Assoc RuleSetEntries
  pub total_size : ℕ
  pub total_entries : ℕ

unfoldable pub new_rule_set_cache : RuleSetCache
new_rule_set_cache = record { entries = []; total_size = 0; total_entries = 0 }

abbrev pub files : Option (Assoc Bytes) → Assoc Bytes
files none = []
files (some m) = m

unfoldable pub entry_size : RuleSetEntry → ℕ
entry_size e = length e.rules + sum_of (λ f. length f.0 + length f.1) (files e.data_files)

-- The latest entry is the first one that bears the UUID in Latest. The copy that Get returns is
-- equal to the stored entry.
abbrev pub is_latest : Bytes → RuleSetEntry → Bool
is_latest latest e = bytes_eq e.uuid latest

abbrev get_latest : Option RuleSetEntries → Option RuleSetEntry
get_latest none = none
get_latest (some es) =
    if ltb 0 (length es.entries) then find (is_latest es.latest) es.entries else none

unfoldable pub get : RuleSetCache → Bytes → Option RuleSetEntry
get c instance_name = get_latest (lookup instance_name c.entries)

-- An empty map of data files is stored as nil.
abbrev copied_data : Assoc Bytes → Option (Assoc Bytes)
copied_data [] = none
copied_data (f ∷ m) = some (f ∷ m)

unfoldable pub new_entry : Bytes → Option (Assoc Bytes) → Bytes → ℕ → RuleSetEntry
new_entry rules data_files uuid now = record {
  uuid = uuid;
  timestamp = now;
  rules = rules;
  data_files = copied_data (files data_files);
}

abbrev pub append_entry : Option RuleSetEntries → RuleSetEntry → RuleSetEntries
append_entry none e = record { latest = e.uuid; entries = e ∷ [] }
append_entry (some es) e = record { latest = e.uuid; entries = es.entries ++ e ∷ [] }

unfoldable pub put : RuleSetCache → Bytes → Bytes → Option (Assoc Bytes) → Bytes → ℕ → RuleSetCache
put c instance_name rules data_files uuid now =
    let e = new_entry rules data_files uuid now in
    record {
      entries = insert instance_name (append_entry (lookup instance_name c.entries) e) c.entries;
      total_size = c.total_size + entry_size e;
      total_entries = c.total_entries + 1;
    }

unfoldable pub len : RuleSetCache → ℕ
len c = length c.entries

unfoldable pub list_keys : RuleSetCache → List Bytes
list_keys c = Assoc.keys c.entries

abbrev pub stored : Option RuleSetEntries → List RuleSetEntry
stored none = []
stored (some es) = es.entries

unfoldable pub count_entries : RuleSetCache → Bytes → ℕ
count_entries c instance_name = length (stored (lookup instance_name c.entries))

-- What the loops of Prune and PruneBySize write: c.totalSize, c.totalEntries and pruned.
pub record Tally : Type 0 where
  pub total_size : ℕ
  pub total_entries : ℕ
  pub pruned : ℕ

abbrev pub discharge : RuleSetEntry → Tally → Tally
discharge e t = record {
  total_size = t.total_size - entry_size e;
  total_entries = t.total_entries - 1;
  pruned = t.pruned + 1;
}

-- now.Sub(entry.Timestamp) <= maxAge, for a maxAge that is not negative.
abbrev pub young : ℕ → ℕ → RuleSetEntry → Bool
young now max_age e = leb now (e.timestamp + max_age)

-- The inner loop of Prune.
pub prune_entries : ℕ → ℕ → Bytes → Tally → List RuleSetEntry → List RuleSetEntry × Tally
prune_entries now max_age latest t [] = ([], t)
prune_entries now max_age latest t (e ∷ es) =
    let kept = is_latest latest e || young now max_age e in
    let (rest, t') = prune_entries now max_age latest (if kept then t else discharge e t) es in
    (if kept then e ∷ rest else rest, t')

-- The outer loop.
pub prune_instances : ℕ → ℕ → Tally → Assoc RuleSetEntries → Assoc RuleSetEntries × Tally
prune_instances now max_age t [] = ([], t)
prune_instances now max_age t ((k, es) ∷ m) =
    let (kept, t') = prune_entries now max_age es.latest t es.entries in
    let (rest, t'') = prune_instances now max_age t' m in
    ((k, record es { entries = kept }) ∷ rest, t'')

abbrev pub tally : RuleSetCache → Tally
tally c = record { total_size = c.total_size; total_entries = c.total_entries; pruned = 0 }

abbrev pub store_tally : Assoc RuleSetEntries → Tally → RuleSetCache × ℕ
store_tally m t =
    (record { entries = m; total_size = t.total_size; total_entries = t.total_entries }, t.pruned)

unfoldable pub prune : RuleSetCache → ℕ → ℕ → RuleSetCache × ℕ
unfolding prune_entries prune_instances
prune c now max_age =
    if length c.entries == 0
    then (c, 0)
    else let (m, t) = prune_instances now max_age (tally c) c.entries in store_tally m t

-- The inner loop of PruneBySize: `current` is currentSize.
pub prune_entries_by_size :
    ℕ → Bytes → ℕ → Tally → List RuleSetEntry → List RuleSetEntry × ℕ × Tally
prune_entries_by_size max_size latest current t [] = ([], current, t)
prune_entries_by_size max_size latest current t (e ∷ es) =
    let kept = is_latest latest e || leb current max_size in
    let (rest, current', t') =
      prune_entries_by_size max_size latest (if kept then current else current - entry_size e)
        (if kept then t else discharge e t) es in
    (if kept then e ∷ rest else rest, current', t')

-- The outer loop, which breaks once the size is under the limit.
pub prune_instances_by_size : ℕ → ℕ → Tally → Assoc RuleSetEntries → Assoc RuleSetEntries × Tally
prune_instances_by_size max_size current t [] = ([], t)
prune_instances_by_size max_size current t ((k, es) ∷ m) =
    let (kept, current', t') = prune_entries_by_size max_size es.latest current t es.entries in
    let (rest, t'') = prune_instances_by_size max_size current' t' m in
    if leb current max_size
    then ((k, es) ∷ m, t)
    else ((k, record es { entries = kept }) ∷ rest, t'')

unfoldable pub prune_by_size : RuleSetCache → ℕ → RuleSetCache × ℕ
unfolding prune_entries_by_size prune_instances_by_size
prune_by_size c max_size =
    if leb c.total_size max_size
    then (c, 0)
    else let (m, t) = prune_instances_by_size max_size c.total_size (tally c) c.entries in
      store_tally m t

-- The order in which the next loop visits the instances: neighbours change places.
abbrev swap_at {ℓ} : {A : Type ℓ} → ℕ → List A → List A
swap_at i [] = []
swap_at i (a ∷ []) = a ∷ []
swap_at zero (a ∷ b ∷ m) = b ∷ a ∷ m
swap_at (suc i) (a ∷ b ∷ m) = a ∷ swap_at i (b ∷ m)

pub data Op : Type 0 where
  puts : Bytes → Bytes → Option (Assoc Bytes) → Bytes → ℕ → Op
  prunes : ℕ → ℕ → Op
  prunes_by_size : ℕ → Op
  shuffle : ℕ → Op

unfoldable pub perform : Op → RuleSetCache → RuleSetCache
perform (puts instance_name rules data_files uuid now) c =
    put c instance_name rules data_files uuid now
perform (prunes now max_age) c = (prune c now max_age).0
perform (prunes_by_size max_size) c = (prune_by_size c max_size).0
perform (shuffle i) c = record c { entries = swap_at i c.entries }

unfoldable pub run : RuleSetCache → List Op → RuleSetCache
run c [] = c
run c (op ∷ ops) = run (perform op c) ops
