-- ===== src/Cache/Store/Sweeps.antt =====
-- The loops of Prune and PruneBySize against their descriptions: what they keep, and how the
-- counters follow.
use coraza_kubernetes_operat.Prelude.{
  ℕ, ◌+◌, ◌≡◌, refl, Bool, ◌||◌, List, [], ◌∷◌, length, sum_of, select, arith,
}
use coraza_kubernetes_operat.Prelude.Bytes.{Bytes}
use coraza_kubernetes_operat.Prelude.Assoc.{Assoc}
use coraza_kubernetes_operat.Cache.Store.{
  RuleSetEntry, RuleSetEntries, Tally, entry_size, is_latest, young, discharge, prune_entries,
  prune_instances,
}

abbrev pub sizes : List RuleSetEntry → ℕ
sizes = sum_of entry_size

-- The bytes and the entries that a map of instances holds.
abbrev pub stored_size : Assoc RuleSetEntries → ℕ
stored_size = sum_of (λ i. sizes i.1.entries)

abbrev pub stored_count : Assoc RuleSetEntries → ℕ
stored_count = sum_of (λ i. length i.1.entries)

-- What Prune keeps of an instance.
abbrev pub survives : ℕ → ℕ → Bytes → RuleSetEntry → Bool
survives now max_age latest e = is_latest latest e || young now max_age e

abbrev pub survivors : ℕ → ℕ → RuleSetEntries → RuleSetEntries
survivors now max_age es = record es {
  entries = select (survives now max_age es.latest) es.entries;
}

abbrev pub survivors_of : ℕ → ℕ → Assoc RuleSetEntries → Assoc RuleSetEntries
survivors_of now max_age [] = []
survivors_of now max_age ((k, es) ∷ m) = (k, survivors now max_age es) ∷ survivors_of now max_age m

module _ (now max_age : ℕ) (latest : Bytes) where
  pub prune_entries-select :
      (t : Tally) (es : List RuleSetEntry)
      → (prune_entries now max_age latest t es).0 ≡ select (survives now max_age latest) es
  unfolding prune_entries
  prune_entries-select t [] = refl
  prune_entries-select t (e ∷ es) =
      ground (arith, prune_entries-select t es, prune_entries-select (discharge e t) es)

  pub prune_entries_size :
      (s : ℕ) (t : Tally) (es : List RuleSetEntry)
      → t.total_size ≡ s + sizes es
      → (prune_entries now max_age latest t es).1.total_size
        ≡ s + sizes (prune_entries now max_age latest t es).0
  unfolding prune_entries
  prune_entries_size s t [] h = h
  prune_entries_size s t (e ∷ es) h =
      ground
        (arith, prune_entries_size (s + entry_size e) t es, prune_entries_size s (discharge e t) es)

  pub prune_entries_count :
      (s : ℕ) (t : Tally) (es : List RuleSetEntry)
      → t.total_entries ≡ s + length es
      → (prune_entries now max_age latest t es).1.total_entries
        ≡ s + length (prune_entries now max_age latest t es).0
  unfolding prune_entries
  prune_entries_count s t [] h = h
  prune_entries_count s t (e ∷ es) h =
      ground (arith, prune_entries_count (s + 1) t es, prune_entries_count s (discharge e t) es)

  pub prune_entries_pruned :
      (t : Tally) (es : List RuleSetEntry)
      → (prune_entries now max_age latest t es).1.pruned
          + length (prune_entries now max_age latest t es).0
        ≡ t.pruned + length es
  unfolding prune_entries
  prune_entries_pruned t [] = refl
  prune_entries_pruned t (e ∷ es) =
      ground (arith, prune_entries_pruned t es, prune_entries_pruned (discharge e t) es)

module _ (now max_age : ℕ) where
  pub prune_instances-survivors :
      (t : Tally) (m : Assoc RuleSetEntries)
      → (prune_instances now max_age t m).0 ≡ survivors_of now max_age m
  unfolding prune_instances
  prune_instances-survivors t [] = refl
  prune_instances-survivors t ((k, es) ∷ m) = cc (
    prune_entries-select now max_age es.latest t es.entries,
    prune_instances-survivors (prune_entries now max_age es.latest t es.entries).1 m,
  )

  pub prune_instances_size :
      (s : ℕ) (t : Tally) (m : Assoc RuleSetEntries)
      → t.total_size ≡ s + stored_size m
      → (prune_instances now max_age t m).1.total_size
        ≡ s + stored_size (prune_instances now max_age t m).0
  unfolding prune_instances
  prune_instances_size s t [] h = h
  prune_instances_size s t ((k, es) ∷ m) h =
      let (kept, t') = prune_entries now max_age es.latest t es.entries in
      let first =
        prune_entries_size now max_age es.latest (s + stored_size m) t es.entries (omega arith) in
      omega (arith, first, prune_instances_size (s + sizes kept) t' m (omega (arith, first)))

  pub prune_instances_count :
      (s : ℕ) (t : Tally) (m : Assoc RuleSetEntries)
      → t.total_entries ≡ s + stored_count m
      → (prune_instances now max_age t m).1.total_entries
        ≡ s + stored_count (prune_instances now max_age t m).0
  unfolding prune_instances
  prune_instances_count s t [] h = h
  prune_instances_count s t ((k, es) ∷ m) h =
      let (kept, t') = prune_entries now max_age es.latest t es.entries in
      let first =
        prune_entries_count now max_age es.latest (s + stored_count m) t es.entries (omega arith) in
      omega (arith, first, prune_instances_count (s + length kept) t' m (omega (arith, first)))

  pub prune_instances_pruned :
      (t : Tally) (m : Assoc RuleSetEntries)
      → (prune_instances now max_age t m).1.pruned
          + stored_count (prune_instances now max_age t m).0
        ≡ t.pruned + stored_count m
  unfolding prune_instances
  prune_instances_pruned t [] = refl
  prune_instances_pruned t ((k, es) ∷ m) =
      let (kept, t') = prune_entries now max_age es.latest t es.entries in
      omega (
        arith,
        prune_entries_pruned now max_age es.latest t es.entries,
        prune_instances_pruned t' m,
      )
