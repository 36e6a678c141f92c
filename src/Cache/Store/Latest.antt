-- ===== src/Cache/Store/Latest.antt =====
-- What Get returns, across each operation.
use coraza_kubernetes_operat.Prelude.{
  ℕ, zero, suc, ◌≡◌, refl, ◌∙◌, false, List, [], ltb, ◌∷◌, any, find, arith, Option, none, some,
  if◌then◌else◌, find-append_none, find-select, length,
}
use coraza_kubernetes_operat.Prelude.Bytes.{Bytes, bytes_eq, bytes_eq_iff, bytes_eq_refl}
use coraza_kubernetes_operat.Prelude.Assoc.{Assoc, lookup, lookup-insert, IsMap}
use coraza_kubernetes_operat.Cache.Store.{
  RuleSetEntry, RuleSetEntries, RuleSetCache, is_latest, get_latest, get, put, new_entry,
  append_entry, prune, prune_by_size, swap_at, stored, tally,
}
use coraza_kubernetes_operat.Cache.Store.Sweeps.{
  survivors, survivors_of, survives, prune_instances-survivors,
}
use coraza_kubernetes_operat.Cache.Store.SizeSweeps.{Evicted, rest_kept, latest_kept, evicted}
use coraza_kubernetes_operat.Cache.Store.SizeInstances.{
  EvictedAll, untouched, swept, prune_instances_by_size-EvictedAll,
}

-- The guard on the number of entries does not change what is found.
pub get_latest-find :
    (es : RuleSetEntries) → get_latest (some es) ≡ find (is_latest es.latest) es.entries
get_latest-find es = go es.entries
  where
    go :
        (xs : List RuleSetEntry)
        → (if ltb 0 (length xs) then find (is_latest es.latest) xs else none)
          ≡ find (is_latest es.latest) xs
    go [] = refl
    go (x ∷ xs) = ground arith

get_latest-append :
    (o : Option RuleSetEntries) (e : RuleSetEntry)
    → any (is_latest e.uuid) (stored o) ≡ false
    → get_latest (some (append_entry o e)) ≡ some e
get_latest-append none e h = rw (bytes_eq_refl e.uuid)
get_latest-append (some es) e h =
    get_latest-find (append_entry (some es) e)
    ∙ find-append_none (is_latest e.uuid) es.entries (e ∷ []) h
    ∙ rw (bytes_eq_refl e.uuid)

-- Put decides what Get finds under its instance, and nothing else.
pub get-put :
    (c : RuleSetCache) (k j rules : Bytes) (files : Option (Assoc Bytes)) (uuid : Bytes) (now : ℕ)
    → any (is_latest uuid) (stored (lookup k c.entries)) ≡ false
    → get (put c k rules files uuid now) j
      ≡ (if bytes_eq k j then some (new_entry rules files uuid now) else get c j)
unfolding get put new_entry
get-put c k j rules files uuid now fresh =
    rw (lookup-insert k j _ c.entries) (
      ground (arith, get_latest-append (lookup k c.entries) (new_entry rules files uuid now) fresh))

get_latest-survivors :
    (now max_age : ℕ) (es : RuleSetEntries)
    → get_latest (some (survivors now max_age es)) ≡ get_latest (some es)
get_latest-survivors now max_age es =
    rw (get_latest-find (survivors now max_age es), get_latest-find es)
      (find-select (is_latest es.latest) (survives now max_age es.latest) es.entries
        (λ e h. ground arith))

lookup-survivors_of :
    (now max_age : ℕ) (k : Bytes) (m : Assoc RuleSetEntries)
    → get_latest (lookup k (survivors_of now max_age m)) ≡ get_latest (lookup k m)
lookup-survivors_of now max_age k [] = refl
lookup-survivors_of now max_age k ((j, es) ∷ m) =
    ground (arith, get_latest-survivors now max_age es, lookup-survivors_of now max_age k m)

-- Prune changes no answer of Get.
pub get-prune :
    (c : RuleSetCache) (now max_age : ℕ) (k : Bytes) → get (prune c now max_age).0 k ≡ get c k
unfolding get prune
get-prune c now max_age k = ground (
  arith,
  prune_instances-survivors now max_age (tally c) c.entries,
  lookup-survivors_of now max_age k c.entries,
)

pub find-Evicted :
    (latest : Bytes) {es kept : List RuleSetEntry}
    → Evicted latest es kept
    → find (is_latest latest) kept ≡ find (is_latest latest) es
find-Evicted latest (rest_kept es) = refl
find-Evicted latest (latest_kept e h r) = rw h
find-Evicted latest (evicted e h r) = rw h (find-Evicted latest r)

get-EvictedAll :
    (k : Bytes) {m m' : Assoc RuleSetEntries}
    → EvictedAll m m'
    → get_latest (lookup k m') ≡ get_latest (lookup k m)
get-EvictedAll k (untouched m) = refl
get-EvictedAll k (swept j es {kept = kept} {m = m} {m' = m'} r rs) = ground (
  arith,
  get-EvictedAll k rs,
  get_latest-find es,
  get_latest-find (record es { entries = kept }),
  find-Evicted es.latest r,
)

-- Nor does PruneBySize.
pub get-prune_by_size :
    (c : RuleSetCache) (max_size : ℕ) (k : Bytes) → get (prune_by_size c max_size).0 k ≡ get c k
unfolding get prune_by_size
get-prune_by_size c max_size k = ground (
  arith,
  get-EvictedAll k (prune_instances_by_size-EvictedAll max_size c.total_size (tally c) c.entries),
)

-- In a map, a lookup does not depend on the order.
pub lookup-swap_at {ℓ} :
    {V : Type ℓ} (i : ℕ) (k : Bytes) (m : Assoc V) → IsMap m → lookup k (swap_at i m) ≡ lookup k m
lookup-swap_at i k [] h = refl
lookup-swap_at i k (a ∷ []) h = refl
lookup-swap_at zero k ((a, v) ∷ (b, w) ∷ m) h =
    ground (arith, bytes_eq_iff a k, bytes_eq_iff b k, bytes_eq_iff b a)
lookup-swap_at (suc i) k ((a, v) ∷ b ∷ m) h = ground (arith, lookup-swap_at i k (b ∷ m))
