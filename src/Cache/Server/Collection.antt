-- ===== src/Cache/Server/Collection.antt =====
-- A tick of the garbage collection.
use coraza_kubernetes_operat.Prelude.{
  ℕ, ◌+◌, ◌≤◌, ◌≡◌, refl, ◌∙◌, true, inl, inr, ◌⊎◌, ltb, arith, Bool-cases,
}
use coraza_kubernetes_operat.Prelude.Bytes.{Bytes}
use coraza_kubernetes_operat.Cache.Store.{RuleSetCache, get, prune, prune_by_size}
use coraza_kubernetes_operat.Cache.Store.Sweeps.{stored_count}
use coraza_kubernetes_operat.Cache.Store.SizeInstances.{only_latest}
use coraza_kubernetes_operat.Cache.Store.Latest.{get-prune, get-prune_by_size}
use coraza_kubernetes_operat.Cache.Store.Pruning.{prune_exact, prune_by_size_exact}
use coraza_kubernetes_operat.Cache.Server.{GarbageCollectionConfig, GcMetrics, collect}

-- A tick of the garbage collection changes no answer of Get, adds the number of the entries that it
-- removes to the counters of pruned entries, and leaves the size within the limit or, counted as an
-- excess, only entries that bear the latest UUID of their instance.
pub collect_exact :
    (gc : GarbageCollectionConfig) (now : ℕ) (c : RuleSetCache) (metrics : GcMetrics)
    → ((k : Bytes) → get (collect gc now c metrics).0 k ≡ get c k)
      × ((collect gc now c metrics).1.pruned_by_age
            + (collect gc now c metrics).1.pruned_by_size
            + stored_count (collect gc now c metrics).0.entries
          ≡ metrics.pruned_by_age + metrics.pruned_by_size + stored_count c.entries)
      × ((((collect gc now c metrics).0.total_size ≤ gc.max_size)
            × ((collect gc now c metrics).1.size_limit_exceeded ≡ metrics.size_limit_exceeded))
          ⊎ ((only_latest (collect gc now c metrics).0.entries ≡ true)
              × ((collect gc now c metrics).1.size_limit_exceeded
                  ≡ metrics.size_limit_exceeded + 1)))
unfolding collect
collect_exact gc now c metrics =
    let (c', pruned) = prune c now gc.max_age in
    let (kept, counted) = prune_exact c now gc.max_age in
    elim (Bool-cases (ltb gc.max_size c'.total_size)) [
      | inr under ↦
          rw under
            (λ k. get-prune c now gc.max_age k, omega (arith, counted), inl (ground arith, refl))
      | inl over ↦
          let (gone, counted', end, stopped) = prune_by_size_exact c' gc.max_size in
          rw over (
            λ k. get-prune_by_size c' gc.max_size k ∙ get-prune c now gc.max_age k,
            omega (arith, counted, counted'),
            elim (Bool-cases (ltb gc.max_size (prune_by_size c' gc.max_size).0.total_size)) [
              | inr fits ↦ rw fits (inl (ground arith, refl))
              | inl exceeds ↦ rw exceeds (inr (ground arith, refl))
            ],
          )
    ]
