-- ===== src/Cache/Store/Pruning.antt =====
-- What Prune and PruneBySize leave behind.
use coraza_kubernetes_operat.Prelude.{
  ℕ, ◌+◌, ◌≤◌, ◌<◌, ◌≡◌, refl, sym, true, inl, inr, ◌⊎◌, [], ◌∷◌, ◌==◌, Bool-cases, arith, length,
  leb,
}
use coraza_kubernetes_operat.Prelude.Assoc.{Assoc}
use coraza_kubernetes_operat.Cache.Store.{RuleSetEntries, RuleSetCache, prune, prune_by_size, tally}
use coraza_kubernetes_operat.Cache.Store.Sweeps.{
  stored_count, survivors_of, prune_instances-survivors, prune_instances_pruned,
}
use coraza_kubernetes_operat.Cache.Store.SizeInstances.{
  EvictedAll, untouched, largest_stored, largest_stored_bounds, only_latest, sizes_within,
  prune_instances_by_size-EvictedAll, prune_instances_by_size_end, prune_instances_by_size_pruned,
  prune_instances_by_size_needed,
}

survivors_of_empty :
    (now max_age : ℕ) (m : Assoc RuleSetEntries)
    → (length m == 0) ≡ true
    → survivors_of now max_age m ≡ m
survivors_of_empty now max_age [] h = refl
survivors_of_empty now max_age (i ∷ m) h = ground arith

-- Prune keeps of every instance, in their order, exactly the entries that bear the latest UUID or
-- are at most maxAge old, and returns the number of the entries that it removed.
pub prune_exact :
    (c : RuleSetCache) (now max_age : ℕ)
    → ((prune c now max_age).0.entries ≡ survivors_of now max_age c.entries)
      × ((prune c now max_age).1 + stored_count (prune c now max_age).0.entries
          ≡ stored_count c.entries)
unfolding prune
prune_exact c now max_age = elim (Bool-cases (length c.entries == 0)) [
  | inl done ↦ rw done (sym (survivors_of_empty now max_age c.entries done), omega arith)
  | inr more ↦ rw more (
    prune_instances-survivors now max_age (tally c) c.entries,
    omega (arith, prune_instances_pruned now max_age (tally c) c.entries),
  )
]

-- PruneBySize evicts no more than it has to: where no entry is larger than `bound`, it evicts nothing,
-- or the size that it leaves with one such entry put back is over the limit.
prune_by_size_needed :
    (c : RuleSetCache) (max_size bound : ℕ)
    → sizes_within bound c.entries ≡ true
    → ((prune_by_size c max_size).1 ≡ 0)
      ⊎ (max_size < (prune_by_size c max_size).0.total_size + bound)
unfolding prune_by_size
prune_by_size_needed c max_size bound h = elim (Bool-cases (leb c.total_size max_size)) [
  | inl under ↦ rw under (inl refl)
  | inr over ↦ rw over (
      ground (
        arith,
        prune_instances_by_size_needed max_size bound c.total_size (tally c) c.entries refl h,
      ))
]

-- What is removed, the count, and the two ways to end.
prune_by_size_end :
    (c : RuleSetCache) (max_size : ℕ)
    → EvictedAll c.entries (prune_by_size c max_size).0.entries
      × ((prune_by_size c max_size).1 + stored_count (prune_by_size c max_size).0.entries
          ≡ stored_count c.entries)
      × (((prune_by_size c max_size).0.total_size ≤ max_size)
          ⊎ (only_latest (prune_by_size c max_size).0.entries ≡ true))
unfolding prune_by_size
prune_by_size_end c max_size = elim (Bool-cases (leb c.total_size max_size)) [
  | inl under ↦ rw under (untouched c.entries, omega arith, inl (ground arith))
  | inr over ↦ rw over (
    prune_instances_by_size-EvictedAll max_size c.total_size (tally c) c.entries,
    omega (arith, prune_instances_by_size_pruned max_size c.total_size (tally c) c.entries),
    prune_instances_by_size_end max_size c.total_size (tally c) c.entries refl,
  )
]

-- PruneBySize removes entries from the front of each instance and skips those that bear the latest
-- UUID. It returns the number of the entries that it removed. Afterwards the size is within the
-- limit, or every entry that is left bears the latest UUID of its instance. It stops in time: where it
-- has removed an entry, the size that is left and the size of the largest entry are over the limit
-- together.
pub prune_by_size_exact :
    (c : RuleSetCache) (max_size : ℕ)
    → EvictedAll c.entries (prune_by_size c max_size).0.entries
      × ((prune_by_size c max_size).1 + stored_count (prune_by_size c max_size).0.entries
          ≡ stored_count c.entries)
      × (((prune_by_size c max_size).0.total_size ≤ max_size)
          ⊎ (only_latest (prune_by_size c max_size).0.entries ≡ true))
      × (((prune_by_size c max_size).1 ≡ 0)
          ⊎ (max_size < (prune_by_size c max_size).0.total_size + largest_stored c.entries))
prune_by_size_exact c max_size =
    let (gone, counted, end) = prune_by_size_end c max_size in
    (
      gone,
      counted,
      end,
      prune_by_size_needed c max_size (largest_stored c.entries)
          (largest_stored_bounds (largest_stored c.entries) c.entries (omega arith)),
    )
