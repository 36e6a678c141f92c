-- ===== src/Cache/Store/SizeSweeps.antt =====
-- The loops of PruneBySize against their description: what they evict, when they stop, and how the
-- counters follow.
use coraza_kubernetes_operat.Prelude.{
  ℕ, ◌+◌, ◌-◌, ◌≤◌, ◌<◌, ◌≡◌, refl, true, false, inl, inr, ◌⊎◌, List, [], ◌∷◌, length, all, arith,
  leb, Bool-cases,
}
use coraza_kubernetes_operat.Prelude.Bytes.{Bytes}
use coraza_kubernetes_operat.Cache.Store.{
  RuleSetEntry, Tally, entry_size, is_latest, discharge, prune_entries_by_size,
}
use coraza_kubernetes_operat.Cache.Store.Sweeps.{sizes}

-- What PruneBySize leaves of one instance: of the entries before some point only the latest ones.
pub data Evicted (latest : Bytes) : List RuleSetEntry → List RuleSetEntry → Type 0 where
  rest_kept : (es : List RuleSetEntry) → Evicted latest es es
  latest_kept :
      (e : RuleSetEntry) {es kept : List RuleSetEntry}
      → is_latest latest e ≡ true
      → Evicted latest es kept
      → Evicted latest (e ∷ es) (e ∷ kept)
  evicted :
      (e : RuleSetEntry) {es kept : List RuleSetEntry}
      → is_latest latest e ≡ false
      → Evicted latest es kept
      → Evicted latest (e ∷ es) kept

module _ (max_size : ℕ) (latest : Bytes) where
  -- Under the limit, nothing goes.
  pub prune_entries_by_size_under :
      (current : ℕ) (t : Tally) (es : List RuleSetEntry)
      → current ≤ max_size
      → prune_entries_by_size max_size latest current t es ≡ (es, current, t)
  unfolding prune_entries_by_size
  prune_entries_by_size_under current t [] h = refl
  prune_entries_by_size_under current t (e ∷ es) h =
      ground (arith, prune_entries_by_size_under current t es)

  pub prune_entries_by_size-Evicted :
      (current : ℕ) (t : Tally) (es : List RuleSetEntry)
      → Evicted latest es (prune_entries_by_size max_size latest current t es).0
  unfolding prune_entries_by_size
  prune_entries_by_size-Evicted current t [] = rest_kept []
  prune_entries_by_size-Evicted current t (e ∷ es) = elim (Bool-cases (is_latest latest e)) [
    | inl here ↦ rw here (latest_kept e here (prune_entries_by_size-Evicted current t es))
    | inr other ↦ elim (Bool-cases (leb current max_size)) [
      | inl under ↦
          rw (other, under, prune_entries_by_size_under current t es (ground arith))
            (rest_kept (e ∷ es))
      | inr over ↦
          rw (other, over)
            (evicted e other
              (prune_entries_by_size-Evicted (current - entry_size e) (discharge e t) es))
    ]
  ]

  -- At the end the size is under the limit, or only latest entries are left.
  pub prune_entries_by_size_end :
      (current : ℕ) (t : Tally) (es : List RuleSetEntry)
      → ((prune_entries_by_size max_size latest current t es).1 ≤ max_size)
        ⊎ (all (is_latest latest) (prune_entries_by_size max_size latest current t es).0 ≡ true)
  unfolding prune_entries_by_size
  prune_entries_by_size_end current t [] = inr refl
  prune_entries_by_size_end current t (e ∷ es) = ground (
    arith,
    prune_entries_by_size_end current t es,
    prune_entries_by_size_end (current - entry_size e) (discharge e t) es,
    prune_entries_by_size_under current t es,
  )

  -- currentSize and c.totalSize fall together.
  pub prune_entries_by_size_current :
      (current : ℕ) (t : Tally) (es : List RuleSetEntry)
      → t.total_size ≡ current
      → (prune_entries_by_size max_size latest current t es).2.total_size
        ≡ (prune_entries_by_size max_size latest current t es).1
  unfolding prune_entries_by_size
  prune_entries_by_size_current current t [] h = h
  prune_entries_by_size_current current t (e ∷ es) h = ground (
    arith,
    prune_entries_by_size_current current t es,
    prune_entries_by_size_current (current - entry_size e) (discharge e t) es,
  )

  pub prune_entries_by_size_size :
      (s current : ℕ) (t : Tally) (es : List RuleSetEntry)
      → t.total_size ≡ s + sizes es
      → (prune_entries_by_size max_size latest current t es).2.total_size
        ≡ s + sizes (prune_entries_by_size max_size latest current t es).0
  unfolding prune_entries_by_size
  prune_entries_by_size_size s current t [] h = h
  prune_entries_by_size_size s current t (e ∷ es) h = ground (
    arith,
    prune_entries_by_size_size (s + entry_size e) current t es,
    prune_entries_by_size_size s (current - entry_size e) (discharge e t) es,
  )

  pub prune_entries_by_size_count :
      (s current : ℕ) (t : Tally) (es : List RuleSetEntry)
      → t.total_entries ≡ s + length es
      → (prune_entries_by_size max_size latest current t es).2.total_entries
        ≡ s + length (prune_entries_by_size max_size latest current t es).0
  unfolding prune_entries_by_size
  prune_entries_by_size_count s current t [] h = h
  prune_entries_by_size_count s current t (e ∷ es) h = ground (
    arith,
    prune_entries_by_size_count (s + 1) current t es,
    prune_entries_by_size_count s (current - entry_size e) (discharge e t) es,
  )

  pub prune_entries_by_size_pruned :
      (current : ℕ) (t : Tally) (es : List RuleSetEntry)
      → (prune_entries_by_size max_size latest current t es).2.pruned
          + length (prune_entries_by_size max_size latest current t es).0
        ≡ t.pruned + length es
  unfolding prune_entries_by_size
  prune_entries_by_size_pruned current t [] = refl
  prune_entries_by_size_pruned current t (e ∷ es) = ground (
    arith,
    prune_entries_by_size_pruned current t es,
    prune_entries_by_size_pruned (current - entry_size e) (discharge e t) es,
  )

  -- An eviction happens only above the limit: put one evicted entry back, and the size is over it.
  -- Without an eviction nothing changes.
  pub prune_entries_by_size_needed :
      (bound current : ℕ) (t : Tally) (es : List RuleSetEntry)
      → all (λ e. leb (entry_size e) bound) es ≡ true
      → (((prune_entries_by_size max_size latest current t es).2.pruned ≡ t.pruned)
          × ((prune_entries_by_size max_size latest current t es).1 ≡ current))
        ⊎ (max_size < (prune_entries_by_size max_size latest current t es).1 + bound)
  unfolding prune_entries_by_size
  prune_entries_by_size_needed bound current t [] h = inl (refl, refl)
  prune_entries_by_size_needed bound current t (e ∷ es) h = ground (
    arith,
    prune_entries_by_size_needed bound current t es,
    prune_entries_by_size_needed bound (current - entry_size e) (discharge e t) es,
  )
