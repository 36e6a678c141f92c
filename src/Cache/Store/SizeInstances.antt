-- ===== src/Cache/Store/SizeInstances.antt =====
-- The outer loop of PruneBySize against its description.
use coraza_kubernetes_operat.Prelude.{
  ℕ, ◌+◌, ◌≤◌, ◌<◌, ◌≡◌, refl, Bool, true, inl, inr, ◌⊎◌, List, [], ◌∷◌, length, all, arith, leb,
  Bool-cases, if◌then◌else◌,
}
use coraza_kubernetes_operat.Prelude.Bytes.{Bytes}
use coraza_kubernetes_operat.Prelude.Assoc.{Assoc}
use coraza_kubernetes_operat.Cache.Store.{
  RuleSetEntry, RuleSetEntries, Tally, entry_size, is_latest, prune_entries_by_size,
  prune_instances_by_size,
}
use coraza_kubernetes_operat.Cache.Store.Sweeps.{sizes, stored_size, stored_count}
use coraza_kubernetes_operat.Cache.Store.SizeSweeps.{
  Evicted, prune_entries_by_size-Evicted, prune_entries_by_size_end, prune_entries_by_size_current,
  prune_entries_by_size_size, prune_entries_by_size_count, prune_entries_by_size_pruned,
  prune_entries_by_size_needed,
}

-- The same for every instance: keys and latest UUIDs stay.
pub data EvictedAll : Assoc RuleSetEntries → Assoc RuleSetEntries → Type 0 where
  untouched : (m : Assoc RuleSetEntries) → EvictedAll m m
  swept :
      (k : Bytes) (es : RuleSetEntries) {kept : List RuleSetEntry} {m m' : Assoc RuleSetEntries}
      → Evicted es.latest es.entries kept
      → EvictedAll m m'
      → EvictedAll ((k, es) ∷ m) ((k, record es { entries = kept }) ∷ m')

-- Every instance has only entries that bear its latest UUID.
abbrev pub only_latest : Assoc RuleSetEntries → Bool
only_latest = all (λ i. all (is_latest i.1.latest) i.1.entries)

abbrev pub sizes_within : ℕ → Assoc RuleSetEntries → Bool
sizes_within bound = all (λ i. all (λ e. leb (entry_size e) bound) i.1.entries)

abbrev pub max_of : ℕ → ℕ → ℕ
max_of a b = if leb a b then b else a

-- The size of the largest entry.
abbrev pub largest : List RuleSetEntry → ℕ
largest [] = 0
largest (e ∷ es) = max_of (entry_size e) (largest es)

abbrev pub largest_stored : Assoc RuleSetEntries → ℕ
largest_stored [] = 0
largest_stored ((k, es) ∷ m) = max_of (largest es.entries) (largest_stored m)

largest_bounds :
    (bound : ℕ) (es : List RuleSetEntry)
    → largest es ≤ bound
    → all (λ e. leb (entry_size e) bound) es ≡ true
largest_bounds bound [] h = refl
largest_bounds bound (e ∷ es) h = ground (arith, largest_bounds bound es)

pub largest_stored_bounds :
    (bound : ℕ) (m : Assoc RuleSetEntries) → largest_stored m ≤ bound → sizes_within bound m ≡ true
largest_stored_bounds bound [] h = refl
largest_stored_bounds bound ((k, es) ∷ m) h =
    ground (arith, largest_bounds bound es.entries, largest_stored_bounds bound m)

module _ (max_size : ℕ) where
  pub prune_instances_by_size-EvictedAll :
      (current : ℕ) (t : Tally) (m : Assoc RuleSetEntries)
      → EvictedAll m (prune_instances_by_size max_size current t m).0
  unfolding prune_instances_by_size
  prune_instances_by_size-EvictedAll current t [] = untouched []
  prune_instances_by_size-EvictedAll current t ((k, es) ∷ m) =
      let (kept, current', t') = prune_entries_by_size max_size es.latest current t es.entries in
      let gone = prune_entries_by_size-Evicted max_size es.latest current t es.entries in
      let rest = prune_instances_by_size-EvictedAll current' t' m in
      elim (Bool-cases (leb current max_size)) [
        | inl under ↦ rw under (untouched ((k, es) ∷ m))
        | inr over ↦ rw over (swept k es gone rest)
      ]

  pub prune_instances_by_size_under :
      (current : ℕ) (t : Tally) (m : Assoc RuleSetEntries)
      → current ≤ max_size
      → prune_instances_by_size max_size current t m ≡ (m, t)
  unfolding prune_instances_by_size
  prune_instances_by_size_under current t [] h = refl
  prune_instances_by_size_under current t ((k, es) ∷ m) h = ground arith

  pub prune_instances_by_size_end :
      (current : ℕ) (t : Tally) (m : Assoc RuleSetEntries)
      → t.total_size ≡ current
      → ((prune_instances_by_size max_size current t m).1.total_size ≤ max_size)
        ⊎ (only_latest (prune_instances_by_size max_size current t m).0 ≡ true)
  unfolding prune_instances_by_size
  prune_instances_by_size_end current t [] h = inr refl
  prune_instances_by_size_end current t ((k, es) ∷ m) h =
      let (kept, current', t') = prune_entries_by_size max_size es.latest current t es.entries in
      ground (
        arith,
        prune_entries_by_size_current max_size es.latest current t es.entries h,
        prune_entries_by_size_end max_size es.latest current t es.entries,
        prune_instances_by_size_end current' t' m,
        prune_instances_by_size_under current' t' m,
      )

  pub prune_instances_by_size_size :
      (s current : ℕ) (t : Tally) (m : Assoc RuleSetEntries)
      → t.total_size ≡ s + stored_size m
      → (prune_instances_by_size max_size current t m).1.total_size
        ≡ s + stored_size (prune_instances_by_size max_size current t m).0
  unfolding prune_instances_by_size
  prune_instances_by_size_size s current t [] h = h
  prune_instances_by_size_size s current t ((k, es) ∷ m) h =
      let (kept, current', t') = prune_entries_by_size max_size es.latest current t es.entries in
      ground (
        arith,
        prune_entries_by_size_size max_size es.latest (s + stored_size m) current t es.entries,
        prune_instances_by_size_size (s + sizes kept) current' t' m,
      )

  pub prune_instances_by_size_count :
      (s current : ℕ) (t : Tally) (m : Assoc RuleSetEntries)
      → t.total_entries ≡ s + stored_count m
      → (prune_instances_by_size max_size current t m).1.total_entries
        ≡ s + stored_count (prune_instances_by_size max_size current t m).0
  unfolding prune_instances_by_size
  prune_instances_by_size_count s current t [] h = h
  prune_instances_by_size_count s current t ((k, es) ∷ m) h =
      let (kept, current', t') = prune_entries_by_size max_size es.latest current t es.entries in
      ground (
        arith,
        prune_entries_by_size_count max_size es.latest (s + stored_count m) current t es.entries,
        prune_instances_by_size_count (s + length kept) current' t' m,
      )

  pub prune_instances_by_size_pruned :
      (current : ℕ) (t : Tally) (m : Assoc RuleSetEntries)
      → (prune_instances_by_size max_size current t m).1.pruned
          + stored_count (prune_instances_by_size max_size current t m).0
        ≡ t.pruned + stored_count m
  unfolding prune_instances_by_size
  prune_instances_by_size_pruned current t [] = refl
  prune_instances_by_size_pruned current t ((k, es) ∷ m) =
      let (kept, current', t') = prune_entries_by_size max_size es.latest current t es.entries in
      ground (
        arith,
        prune_entries_by_size_pruned max_size es.latest current t es.entries,
        prune_instances_by_size_pruned current' t' m,
      )

  pub prune_instances_by_size_needed :
      (bound current : ℕ) (t : Tally) (m : Assoc RuleSetEntries)
      → t.total_size ≡ current
      → sizes_within bound m ≡ true
      → (((prune_instances_by_size max_size current t m).1.pruned ≡ t.pruned)
          × ((prune_instances_by_size max_size current t m).1.total_size ≡ current))
        ⊎ (max_size < (prune_instances_by_size max_size current t m).1.total_size + bound)
  unfolding prune_instances_by_size
  prune_instances_by_size_needed bound current t [] e h = inl (refl, e)
  prune_instances_by_size_needed bound current t ((k, es) ∷ m) e h =
      let (kept, current', t') = prune_entries_by_size max_size es.latest current t es.entries in
      ground (
        arith,
        prune_entries_by_size_current max_size es.latest current t es.entries e,
        prune_entries_by_size_needed max_size es.latest bound current t es.entries,
        prune_instances_by_size_needed bound current' t' m,
      )
