-- ===== src/Cache/Auth/Bounds.antt =====
-- The size of the authentication cache, in every interleaving of its critical sections.
use coraza_kubernetes_operat.Prelude.{
  List, ℕ, ◌+◌, ◌-◌, ◌≤◌, ◌≡◌, refl, true, false, inl, inr, [], ◌∷◌, ltb, none, arith, length,
  Bool-cases, Option-cases,
}
use coraza_kubernetes_operat.Prelude.Bytes.{Bytes}
use coraza_kubernetes_operat.Prelude.Assoc.{
  Assoc, lookup, insert, IsMap, insert-IsMap, delete-IsMap, length-insert_absent,
  length-insert_present, length-delete_present,
}
use coraza_kubernetes_operat.Cache.Auth.{
  new_token_authenticator, TokenAuthenticator, AuthCacheEntry, Review, reviewed, failed, Instants,
  Result, ok, err, AuthResult, max_auth_cache_size, drop_expired, drop_loaded, evict,
  evict_expired_locked, store_locked, store_entry, settle, parse_service_account_username,
  store_parsed,
}

pub evict_size :
    (s now : ℕ) (m : Assoc AuthCacheEntry) (size : ℕ)
    → size ≡ s + length m
    → (evict now m size).1 ≡ s + length (evict now m size).0
unfolding evict
evict_size s now [] size h = h
evict_size s now ((k, e) ∷ m) size h =
    ground (arith, evict_size s now m (size - 1), evict_size (s + 1) now m size)

evict_le : (now : ℕ) (m : Assoc AuthCacheEntry) (size : ℕ) → (evict now m size).1 ≤ size
unfolding evict
evict_le now [] size = omega arith
evict_le now ((k, e) ∷ m) size = ground (arith, evict_le now m (size - 1), evict_le now m size)

pub evict_absent :
    (now : ℕ) (k : Bytes) (m : Assoc AuthCacheEntry) (size : ℕ)
    → lookup k m ≡ none
    → lookup k (evict now m size).0 ≡ none
unfolding evict
evict_absent now k [] size h = refl
evict_absent now k ((j, e) ∷ m) size h =
    ground (arith, evict_absent now k m (size - 1), evict_absent now k m size)

evict-IsMap : (now : ℕ) (m : Assoc AuthCacheEntry) (size : ℕ) → IsMap m → IsMap (evict now m size).0
unfolding evict
evict-IsMap now [] size h = tt
evict-IsMap now ((j, e) ∷ m) size h =
    ground (arith, evict-IsMap now m (size - 1), evict-IsMap now m size, evict_absent now j m size)

pub record IsBounded (a : TokenAuthenticator) : Type 0 where
  pub is_map : IsMap a.cache
  pub covered : length a.cache ≤ a.cache_size
  pub limited : a.cache_size ≤ max_auth_cache_size

pub drop_expired-IsBounded :
    (key : Bytes) (a : TokenAuthenticator) → IsBounded a → IsBounded (drop_expired key a)
unfolding drop_expired
drop_expired-IsBounded key a v = elim (Option-cases (lookup key a.cache)) [
  | inl e ↦ rw (e, drop_loaded) v
  | inr (x, e) ↦
      rw (e, drop_loaded)
        (record {
          is_map = delete-IsMap key a.cache v.is_map;
          covered = omega (arith, v.covered, length-delete_present key x a.cache v.is_map e);
          limited = omega (arith, v.limited);
        })
]

evict_expired_locked-IsBounded :
    (now : ℕ) (a : TokenAuthenticator) → IsBounded a → IsBounded (evict_expired_locked now a)
unfolding evict_expired_locked
evict_expired_locked-IsBounded now a v = record {
  is_map = evict-IsMap now a.cache a.cache_size v.is_map;
  covered =
      omega (arith, v.covered, evict_size (a.cache_size - length a.cache) now a.cache a.cache_size);
  limited = omega (arith, v.limited, evict_le now a.cache a.cache_size);
}

length-insert-le :
    (k : Bytes) (e : AuthCacheEntry) (m : Assoc AuthCacheEntry)
    → length (insert k e m) ≤ length m + 1
length-insert-le k e m = elim (Option-cases (lookup k m)) [
  | inl absent ↦ omega (arith, length-insert_absent k e m absent)
  | inr (w, present) ↦ omega (arith, length-insert_present k e w m present)
]

store_entry-IsBounded :
    (key : Bytes) (e : AuthCacheEntry) (a : TokenAuthenticator)
    → IsBounded a
    → IsBounded (store_entry key e a)
store_entry-IsBounded key e a v = elim (Bool-cases (ltb a.cache_size max_auth_cache_size)) [
  | inl room ↦ rw room (record {
    is_map = insert-IsMap key e a.cache v.is_map;
    covered = omega (arith, v.covered, length-insert-le key e a.cache);
    limited = ground arith;
  })
  | inr full ↦ rw full v
]

store_locked-IsBounded :
    (key : Bytes) (e : AuthCacheEntry) (now : ℕ) (a : TokenAuthenticator)
    → IsBounded a
    → IsBounded (store_locked key e now a)
unfolding store_locked
store_locked-IsBounded key e now a v = elim (Bool-cases (ltb a.cache_size max_auth_cache_size)) [
  | inl room ↦ rw room (store_entry-IsBounded key e a v)
  | inr full ↦ rw full (
      store_entry-IsBounded key e (evict_expired_locked now a)
        (evict_expired_locked-IsBounded now a v))
]

pub settle-IsBounded :
    (key : Bytes) (answer : Review) (at : Instants) (a : TokenAuthenticator)
    → IsBounded a
    → IsBounded (settle key answer at a).1
unfolding settle
settle-IsBounded key failed at a v = v
settle-IsBounded key (reviewed false username) at a v = v
settle-IsBounded key (reviewed true username) at a v = go (parse_service_account_username username)
  where
    go : (r : Result AuthResult) → IsBounded (store_parsed key at r a).1
    go (err e) = v
    go (ok r) = store_locked-IsBounded key _ at.evicted a v

-- A critical section of some request: any request may run any of them at any time.
pub data Section : Type 0 where
  drops : Bytes → Section
  settles : Bytes → Review → Instants → Section

unfoldable pub enter : Section → TokenAuthenticator → TokenAuthenticator
enter (drops key) a = drop_expired key a
enter (settles key answer at) a = (settle key answer at a).1

unfoldable pub interleave : TokenAuthenticator → List Section → TokenAuthenticator
unfolding enter
interleave a [] = a
interleave a (s ∷ ss) = interleave (enter s a) ss

-- In every interleaving of concurrent requests, the cache is a map, holds at most cacheSize
-- entries, and cacheSize is at most maxAuthCacheSize.
pub interleave-IsBounded :
    (a : TokenAuthenticator) (ss : List Section) → IsBounded a → IsBounded (interleave a ss)
unfolding interleave
interleave-IsBounded a [] v = v
interleave-IsBounded a (drops key ∷ ss) v =
    interleave-IsBounded (drop_expired key a) ss (drop_expired-IsBounded key a v)
interleave-IsBounded a (settles key answer at ∷ ss) v =
    interleave-IsBounded (settle key answer at a).1 ss (settle-IsBounded key answer at a v)

pub new-IsBounded : IsBounded new_token_authenticator
unfolding new_token_authenticator max_auth_cache_size
new-IsBounded = record { is_map = tt; covered = omega arith; limited = omega arith }
