-- ===== src/Prelude/Assoc.antt =====
-- Go maps with string keys: association lists, iterated in the order of the list.
use mathlib.Core.Path.{◌≡◌, refl}
use mathlib.Core.Option.{Option, none, some}
use mathlib.Core.List.{List, [], ◌∷◌}
use native.Mathlib.Omega.{arith}
use Prim.Native.Nat.{ℕ, suc, ◌+◌}
use coraza_kubernetes_operat.Prelude.Tests.{if◌then◌else◌}
use coraza_kubernetes_operat.Prelude.Lists.{length, sum_of, All}
use coraza_kubernetes_operat.Prelude.Bytes.{Bytes, bytes_eq, bytes_eq_iff}

abbrev pub Assoc {ℓ} : Type ℓ → Type ℓ
Assoc V = List (Bytes × V)

module _ {ℓ} {V : Type ℓ} where
  -- v, ok := m[k]
  abbrev pub lookup : Bytes → Assoc V → Option V
  lookup k [] = none
  lookup k ((j, v) ∷ m) = if bytes_eq j k then some v else lookup k m

  -- m[k] = v
  abbrev pub insert : Bytes → V → Assoc V → Assoc V
  insert k v [] = (k, v) ∷ []
  insert k v ((j, w) ∷ m) = if bytes_eq j k then (j, v) ∷ m else (j, w) ∷ insert k v m

  -- delete(m, k)
  abbrev pub delete : Bytes → Assoc V → Assoc V
  delete k [] = []
  delete k ((j, w) ∷ m) = if bytes_eq j k then delete k m else (j, w) ∷ delete k m

  abbrev pub keys : Assoc V → List Bytes
  keys [] = []
  keys ((k, v) ∷ m) = k ∷ keys m

  -- No key stands twice.
  abbrev pub IsMap : Assoc V → Type ℓ
  IsMap [] = Unit
  IsMap ((k, v) ∷ m) = (lookup k m ≡ none) × IsMap m

module _ {ℓ} {V : Type ℓ} where
  pub lookup-insert :
      (k j : Bytes) (v : V) (m : Assoc V)
      → lookup j (insert k v m) ≡ (if bytes_eq k j then some v else lookup j m)
  lookup-insert k j v [] = refl
  lookup-insert k j v ((i, w) ∷ m) =
      ground (arith, bytes_eq_iff k j, bytes_eq_iff i k, bytes_eq_iff i j, lookup-insert k j v m)

  pub lookup-delete :
      (k j : Bytes) (m : Assoc V)
      → lookup j (delete k m) ≡ (if bytes_eq k j then none else lookup j m)
  lookup-delete k j [] = ground arith
  lookup-delete k j ((i, w) ∷ m) =
      ground (arith, bytes_eq_iff k j, bytes_eq_iff i k, bytes_eq_iff i j, lookup-delete k j m)

  pub insert-IsMap : (k : Bytes) (v : V) (m : Assoc V) → IsMap m → IsMap (insert k v m)
  insert-IsMap k v [] h = (refl, tt)
  insert-IsMap k v ((j, w) ∷ m) h =
      ground (arith, bytes_eq_iff j k, bytes_eq_iff k j, lookup-insert k j v m, insert-IsMap k v m)

  pub delete-IsMap : (k : Bytes) (m : Assoc V) → IsMap m → IsMap (delete k m)
  delete-IsMap k [] h = tt
  delete-IsMap k ((j, w) ∷ m) h = ground (arith, lookup-delete k j m, delete-IsMap k m)

  pub length-insert_absent :
      (k : Bytes) (v : V) (m : Assoc V) → lookup k m ≡ none → length (insert k v m) ≡ suc (length m)
  length-insert_absent k v [] h = refl
  length-insert_absent k v ((j, w) ∷ m) h = ground (arith, length-insert_absent k v m)

  pub length-insert_present :
      (k : Bytes) (v w : V) (m : Assoc V) → lookup k m ≡ some w → length (insert k v m) ≡ length m
  length-insert_present k v w [] h = cc
  length-insert_present k v w ((j, u) ∷ m) h = ground (arith, length-insert_present k v w m)

  pub delete_absent : (k : Bytes) (m : Assoc V) → lookup k m ≡ none → delete k m ≡ m
  delete_absent k [] h = refl
  delete_absent k ((j, w) ∷ m) h = ground (arith, delete_absent k m)

  pub length-delete_present :
      (k : Bytes) (w : V) (m : Assoc V)
      → IsMap m
      → lookup k m ≡ some w
      → length (delete k m) + 1 ≡ length m
  length-delete_present k w [] d h = cc
  length-delete_present k w ((j, u) ∷ m) d h =
      ground (arith, bytes_eq_iff j k, delete_absent k m, length-delete_present k w m)

  -- A write of a key that is there replaces what it held in a sum over the map.
  pub sum_of-insert_present :
      (f : Bytes × V → ℕ) (k : Bytes) (v w : V) (m : Assoc V)
      → lookup k m ≡ some w
      → sum_of f (insert k v m) + f (k, w) ≡ sum_of f m + f (k, v)
  sum_of-insert_present f k v w [] h = cc
  sum_of-insert_present f k v w ((j, u) ∷ m) h =
      ground (arith, bytes_eq_iff j k, sum_of-insert_present f k v w m)

  pub sum_of-insert_absent :
      (f : Bytes × V → ℕ) (k : Bytes) (v : V) (m : Assoc V)
      → lookup k m ≡ none
      → sum_of f (insert k v m) ≡ sum_of f m + f (k, v)
  sum_of-insert_absent f k v [] h = omega arith
  sum_of-insert_absent f k v ((j, u) ∷ m) h = ground (arith, sum_of-insert_absent f k v m)

  pub All-insert {κ} :
      (P : Bytes × V → Type κ) (k : Bytes) (v : V) (m : Assoc V)
      → P (k, v)
      → All P m
      → All P (insert k v m)
  All-insert P k v [] p h = (p, tt)
  All-insert P k v ((j, w) ∷ m) p h = ground (arith, bytes_eq_iff j k, All-insert P k v m)

  pub All-lookup {κ} :
      (P : Bytes × V → Type κ) (k : Bytes) (v : V) (m : Assoc V)
      → All P m
      → lookup k m ≡ some v
      → P (k, v)
  All-lookup P k v [] h e = cc
  All-lookup P k v ((j, w) ∷ m) h e = ground (arith, bytes_eq_iff j k, All-lookup P k v m)

  pub All-delete {κ} :
      (P : Bytes × V → Type κ) (k : Bytes) (m : Assoc V) → All P m → All P (delete k m)
  All-delete P k [] h = h
  All-delete P k ((j, w) ∷ m) h = ground (arith, All-delete P k m)
