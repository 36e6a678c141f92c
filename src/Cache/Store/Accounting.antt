-- ===== src/Cache/Store/Accounting.antt =====
-- The cache's counters and its map agree after every sequence of calls.
use coraza_kubernetes_operat.Prelude.{
  ℕ, zero, suc, ◌+◌, ◌≡◌, refl, ap, ◌∙◌, true, ◌||◌, inl, inr, List, [], ◌∷◌, sym, ◌==◌, Bool-cases,
  any, All, arith, Option, none, some, Option-cases, length, sum_of, length-append, sum_of-append,
  any-append, any-select, leb,
}
use coraza_kubernetes_operat.Prelude.Bytes.{Bytes, bytes_eq_iff, bytes_eq_refl}
use coraza_kubernetes_operat.Prelude.Assoc.{
  Assoc, lookup, insert, IsMap, insert-IsMap, sum_of-insert_present, sum_of-insert_absent,
  All-insert,
}
use coraza_kubernetes_operat.Cache.Store.{
  RuleSetEntry, RuleSetEntries, RuleSetCache, is_latest, put, new_entry, append_entry, entry_size,
  prune, prune_by_size, swap_at, tally, prune_instances, prune_instances_by_size, Op, puts, prunes,
  prunes_by_size, shuffle, perform, run, new_rule_set_cache,
}
use coraza_kubernetes_operat.Cache.Store.Sweeps.{
  sizes, stored_size, stored_count, survivors_of, survives, prune_instances-survivors,
  prune_instances_size, prune_instances_count,
}
use coraza_kubernetes_operat.Cache.Store.SizeSweeps.{Evicted, rest_kept, latest_kept, evicted}
use coraza_kubernetes_operat.Cache.Store.SizeInstances.{
  EvictedAll, untouched, swept, prune_instances_by_size-EvictedAll, prune_instances_by_size_size,
  prune_instances_by_size_count,
}
use coraza_kubernetes_operat.Cache.Store.Latest.{lookup-swap_at}

-- The latest UUID of an instance is that of one of its entries.
abbrev pub HasLatest : Bytes × RuleSetEntries → Type 0
HasLatest i = any (is_latest i.1.latest) i.1.entries ≡ true

pub record IsConsistent (c : RuleSetCache) : Type 0 where
  pub is_map : IsMap c.entries
  pub has_latest : All HasLatest c.entries
  pub sized : c.total_size ≡ stored_size c.entries
  pub counted : c.total_entries ≡ stored_count c.entries

pub new-IsConsistent : IsConsistent new_rule_set_cache
unfolding new_rule_set_cache
new-IsConsistent = record { is_map = tt; has_latest = tt; sized = refl; counted = refl }

HasLatest-append :
    (k : Bytes) (o : Option RuleSetEntries) (e : RuleSetEntry) → HasLatest (k, append_entry o e)
HasLatest-append k none e = rw (bytes_eq_refl e.uuid)
HasLatest-append k (some es) e =
    ground (arith, any-append (is_latest e.uuid) es.entries (e ∷ []), bytes_eq_refl e.uuid)

stored_size-insert :
    (k : Bytes) (e : RuleSetEntry) (m : Assoc RuleSetEntries)
    → stored_size (insert k (append_entry (lookup k m) e) m) ≡ stored_size m + entry_size e
stored_size-insert k e m = elim (Option-cases (lookup k m)) [
  | inl absent ↦ rw absent (
      omega (arith, sum_of-insert_absent (λ i. sizes i.1.entries) k (append_entry none e) m absent))
  | inr (es, present) ↦ rw present (
      omega (
        arith,
        sum_of-insert_present (λ i. sizes i.1.entries) k (append_entry (some es) e) es m present,
        sum_of-append entry_size es.entries (e ∷ []),
      ))
]

stored_count-insert :
    (k : Bytes) (e : RuleSetEntry) (m : Assoc RuleSetEntries)
    → stored_count (insert k (append_entry (lookup k m) e) m) ≡ stored_count m + 1
stored_count-insert k e m = elim (Option-cases (lookup k m)) [
  | inl absent ↦ rw absent (
      omega
        (arith, sum_of-insert_absent (λ i. length i.1.entries) k (append_entry none e) m absent))
  | inr (es, present) ↦ rw present (
      omega (
        arith,
        sum_of-insert_present (λ i. length i.1.entries) k (append_entry (some es) e) es m present,
        length-append es.entries (e ∷ []),
      ))
]

put-IsConsistent :
    (c : RuleSetCache) (k rules : Bytes) (files : Option (Assoc Bytes)) (uuid : Bytes) (now : ℕ)
    → IsConsistent c
    → IsConsistent (put c k rules files uuid now)
unfolding put
put-IsConsistent c k rules files uuid now v =
    let e = new_entry rules files uuid now in
    record {
      is_map = insert-IsMap k _ c.entries v.is_map;
      has_latest =
          All-insert HasLatest k _ c.entries (HasLatest-append k (lookup k c.entries) e)
            v.has_latest;
      sized = omega (arith, v.sized, stored_size-insert k e c.entries);
      counted = omega (arith, v.counted, stored_count-insert k e c.entries);
    }

survivors_of-IsMap :
    (now max_age : ℕ) (m : Assoc RuleSetEntries) → IsMap m → IsMap (survivors_of now max_age m)
survivors_of-IsMap now max_age [] h = tt
survivors_of-IsMap now max_age ((k, es) ∷ m) h =
    (absent k m h.0, survivors_of-IsMap now max_age m h.1)
  where
    absent :
        (k : Bytes) (m : Assoc RuleSetEntries)
        → lookup k m ≡ none
        → lookup k (survivors_of now max_age m) ≡ none
    absent k [] h = refl
    absent k ((j, es) ∷ m) h = ground (arith, absent k m)

survivors_of-HasLatest :
    (now max_age : ℕ) (m : Assoc RuleSetEntries)
    → All HasLatest m
    → All HasLatest (survivors_of now max_age m)
survivors_of-HasLatest now max_age [] h = tt
survivors_of-HasLatest now max_age ((k, es) ∷ m) h = (
  any-select (is_latest es.latest) (survives now max_age es.latest) es.entries (λ e t. ground arith)
      ∙ h.0,
  survivors_of-HasLatest now max_age m h.1,
)

prune-IsConsistent :
    (c : RuleSetCache) (now max_age : ℕ) → IsConsistent c → IsConsistent (prune c now max_age).0
unfolding prune
prune-IsConsistent c now max_age v = elim (Bool-cases (length c.entries == 0)) [
  | inl done ↦ rw done v
  | inr more ↦ rw more (record {
    is_map = rw kept (survivors_of-IsMap now max_age c.entries v.is_map);
    has_latest = rw kept (survivors_of-HasLatest now max_age c.entries v.has_latest);
    sized = omega (arith, v.sized, prune_instances_size now max_age 0 (tally c) c.entries);
    counted = omega (arith, v.counted, prune_instances_count now max_age 0 (tally c) c.entries);
  })
]
  where
    kept : (prune_instances now max_age (tally c) c.entries).0 ≡ survivors_of now max_age c.entries
    kept = prune_instances-survivors now max_age (tally c) c.entries

EvictedAll-absent :
    (k : Bytes) {m m' : Assoc RuleSetEntries}
    → EvictedAll m m'
    → lookup k m ≡ none
    → lookup k m' ≡ none
EvictedAll-absent k (untouched m) h = h
EvictedAll-absent k (swept j es r rs) h = ground (arith, EvictedAll-absent k rs)

any-Evicted :
    (latest : Bytes) {es kept : List RuleSetEntry}
    → Evicted latest es kept
    → any (is_latest latest) kept ≡ any (is_latest latest) es
any-Evicted latest (rest_kept es) = refl
any-Evicted latest (latest_kept e h r) = ap (λ b. is_latest latest e || b) (any-Evicted latest r)
any-Evicted latest (evicted e h r) = rw h (any-Evicted latest r)

EvictedAll-IsMap : {m m' : Assoc RuleSetEntries} → EvictedAll m m' → IsMap m → IsMap m'
EvictedAll-IsMap (untouched m) h = h
EvictedAll-IsMap (swept j es r rs) h = (EvictedAll-absent j rs h.0, EvictedAll-IsMap rs h.1)

EvictedAll-HasLatest :
    {m m' : Assoc RuleSetEntries} → EvictedAll m m' → All HasLatest m → All HasLatest m'
EvictedAll-HasLatest (untouched m) h = h
EvictedAll-HasLatest (swept j es r rs) h =
    (any-Evicted es.latest r ∙ h.0, EvictedAll-HasLatest rs h.1)

prune_by_size-IsConsistent :
    (c : RuleSetCache) (max_size : ℕ) → IsConsistent c → IsConsistent (prune_by_size c max_size).0
unfolding prune_by_size
prune_by_size-IsConsistent c max_size v = elim (Bool-cases (leb c.total_size max_size)) [
  | inl under ↦ rw under v
  | inr over ↦ rw over (record {
    is_map = EvictedAll-IsMap gone v.is_map;
    has_latest = EvictedAll-HasLatest gone v.has_latest;
    sized =
        omega (
          arith,
          v.sized,
          prune_instances_by_size_size max_size 0 c.total_size (tally c) c.entries,
        );
    counted = omega (
      arith,
      v.counted,
      prune_instances_by_size_count max_size 0 c.total_size (tally c) c.entries,
    );
  })
]
  where
    gone :
        EvictedAll c.entries (prune_instances_by_size max_size c.total_size (tally c) c.entries).0
    gone = prune_instances_by_size-EvictedAll max_size c.total_size (tally c) c.entries

swap_at-IsMap {ℓ} : {V : Type ℓ} (i : ℕ) (m : Assoc V) → IsMap m → IsMap (swap_at i m)
swap_at-IsMap i [] h = h
swap_at-IsMap i (a ∷ []) h = h
swap_at-IsMap zero ((a, v) ∷ (b, w) ∷ m) h = ground (arith, bytes_eq_iff a b, bytes_eq_iff b a)
swap_at-IsMap (suc i) ((a, v) ∷ b ∷ m) h =
    (lookup-swap_at i a (b ∷ m) h.1 ∙ h.0, swap_at-IsMap i (b ∷ m) h.1)

All-swap_at {ℓ κ} :
    {A : Type ℓ} (P : A → Type κ) (i : ℕ) (m : List A) → All P m → All P (swap_at i m)
All-swap_at P i [] h = h
All-swap_at P i (a ∷ []) h = h
All-swap_at P zero (a ∷ b ∷ m) h = (h.1.0, (h.0, h.1.1))
All-swap_at P (suc i) (a ∷ b ∷ m) h = (h.0, All-swap_at P i (b ∷ m) h.1)

sum_of-swap_at {ℓ} :
    {A : Type ℓ} (f : A → ℕ) (i : ℕ) (m : List A) → sum_of f (swap_at i m) ≡ sum_of f m
sum_of-swap_at f i [] = refl
sum_of-swap_at f i (a ∷ []) = refl
sum_of-swap_at f zero (a ∷ b ∷ m) = omega arith
sum_of-swap_at f (suc i) (a ∷ b ∷ m) = omega (arith, sum_of-swap_at f i (b ∷ m))

pub perform-IsConsistent :
    (op : Op) (c : RuleSetCache) → IsConsistent c → IsConsistent (perform op c)
unfolding perform
perform-IsConsistent (puts k rules files uuid now) c v = put-IsConsistent c k rules files uuid now v
perform-IsConsistent (prunes now max_age) c v = prune-IsConsistent c now max_age v
perform-IsConsistent (prunes_by_size max_size) c v = prune_by_size-IsConsistent c max_size v
perform-IsConsistent (shuffle i) c v = record {
  is_map = swap_at-IsMap i c.entries v.is_map;
  has_latest = All-swap_at HasLatest i c.entries v.has_latest;
  sized = v.sized ∙ sym (sum_of-swap_at (λ k. sizes k.1.entries) i c.entries);
  counted = v.counted ∙ sym (sum_of-swap_at (λ k. length k.1.entries) i c.entries);
}

-- From a consistent cache, any sequence of calls leads to one in which the keys are distinct, each
-- instance has an entry that bears its latest UUID, and totalSize and totalEntries are the size and
-- the number of the stored entries.
pub run-IsConsistent :
    (ops : List Op) (c : RuleSetCache) → IsConsistent c → IsConsistent (run c ops)
unfolding run
run-IsConsistent [] c v = v
run-IsConsistent (op ∷ ops) c v = run-IsConsistent ops (perform op c) (perform-IsConsistent op c v)
