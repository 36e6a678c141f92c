-- ===== src/Cache/Auth/Counting.antt =====
-- cacheSize against the number of cached entries.
use coraza_kubernetes_operat.Prelude.{
  ℕ, ◌+◌, ◌<◌, ◌≡◌, refl, true, false, inl, inr, ltb, Option, none, some, arith, length, Bool-cases,
  Option-cases,
}
use coraza_kubernetes_operat.Prelude.Bytes.{Bytes, bytes_eq_refl}
use coraza_kubernetes_operat.Prelude.Assoc.{
  lookup, IsMap, lookup-delete, lookup-insert, length-insert_absent, length-insert_present,
  length-delete_present,
}
use coraza_kubernetes_operat.Cache.Auth.{
  TokenAuthenticator, AuthCacheEntry, Review, reviewed, failed, Instants, Result, ok, err,
  AuthResult, max_auth_cache_size, drop_expired, drop_loaded, evict, evict_expired_locked,
  store_locked, settle, authenticate, parse_service_account_username, from_cache, cache_key_of,
  store_parsed,
}
use coraza_kubernetes_operat.Cache.Auth.Bounds.{
  IsBounded, evict_size, evict_absent, drop_expired-IsBounded, settle-IsBounded,
}

abbrev pub Counted : TokenAuthenticator → Type 0
Counted a = a.cache_size ≡ length a.cache

store_locked-Counted :
    (key : Bytes) (e : AuthCacheEntry) (now : ℕ) (a : TokenAuthenticator)
    → lookup key a.cache ≡ none
    → Counted a
    → Counted (store_locked key e now a)
unfolding store_locked evict_expired_locked
store_locked-Counted key e now a absent n =
    let (m, size) = evict now a.cache a.cache_size in
    ground (
      arith,
      length-insert_absent key e a.cache absent,
      length-insert_absent key e m,
      evict_absent now key a.cache a.cache_size absent,
      evict_size 0 now a.cache a.cache_size,
    )

settle-Counted :
    (key : Bytes) (answer : Review) (at : Instants) (a : TokenAuthenticator)
    → lookup key a.cache ≡ none
    → Counted a
    → Counted (settle key answer at a).1
unfolding settle
settle-Counted key failed at a absent n = n
settle-Counted key (reviewed false username) at a absent n = n
settle-Counted key (reviewed true username) at a absent n =
    go (parse_service_account_username username)
  where
    go : (r : Result AuthResult) → Counted (store_parsed key at r a).1
    go (err e) = n
    go (ok r) = store_locked-Counted key _ at.evicted a absent n

drop_expired-Counted :
    (key : Bytes) (a : TokenAuthenticator)
    → IsMap a.cache
    → Counted a
    → Counted (drop_expired key a)
unfolding drop_expired
drop_expired-Counted key a v n = elim (Option-cases (lookup key a.cache)) [
  | inl e ↦ rw (e, drop_loaded) n
  | inr (x, e) ↦ rw (e, drop_loaded) (omega (arith, length-delete_present key x a.cache v e))
]

drop_expired_absent :
    (key : Bytes) (a : TokenAuthenticator) → lookup key (drop_expired key a).cache ≡ none
unfolding drop_expired
drop_expired_absent key a = elim (Option-cases (lookup key a.cache)) [
  | inl e ↦ rw (e, drop_loaded) e
  | inr (x, e) ↦ rw (e, drop_loaded) (rw (lookup-delete key key a.cache, bytes_eq_refl key))
]

-- While requests do not overlap, cacheSize is the number of cached entries, and within the limit.
pub authenticate-Counted :
    (review : Bytes → Bytes → Review) (token audience : Bytes) (at : Instants)
    (a : TokenAuthenticator)
    → IsBounded a
    → Counted a
    → IsBounded (authenticate review token audience at a).1
      × Counted (authenticate review token audience at a).1
unfolding authenticate
authenticate-Counted review token audience at a v n = go (lookup key a.cache) refl
  where
    key : Bytes
    key = cache_key_of token audience

    answer : Review
    answer = review token audience

    go :
        (o : Option AuthCacheEntry)
        → lookup key a.cache ≡ o
        → IsBounded (from_cache key answer at o a).1 × Counted (from_cache key answer at o a).1
    go none e = (settle-IsBounded key answer at a v, settle-Counted key answer at a e n)
    go (some x) e = elim (Bool-cases (ltb at.checked x.expires_at)) [
      | inl live ↦ rw live (v, n)
      | inr dead ↦ rw dead (
        settle-IsBounded key answer at (drop_expired key a) (drop_expired-IsBounded key a v),
        settle-Counted key answer at (drop_expired key a) (drop_expired_absent key a)
            (drop_expired-Counted key a v.is_map n),
      )
    ]

-- A store of a key that is cached raises cacheSize by one and adds no entry.
settle_again :
    (key username : Bytes) (at : Instants) (a : TokenAuthenticator) {e : AuthCacheEntry}
    {r : AuthResult}
    → lookup key a.cache ≡ some e
    → a.cache_size < max_auth_cache_size
    → parse_service_account_username username ≡ ok r
    → ((settle key (reviewed true username) at a).1.cache_size ≡ a.cache_size + 1)
      × (length (settle key (reviewed true username) at a).1.cache ≡ length a.cache)
unfolding settle store_locked
settle_again key username at a {e} {r} present room parsed =
    rw (parsed, store_parsed)
      (ground (
        arith,
        length-insert_present key (record { result = r; expires_at = at.reviewed_at + a.cache_ttl })
            e a.cache present,
      ))

settle_first :
    (key username : Bytes) (at : Instants) (a : TokenAuthenticator) {r : AuthResult}
    → lookup key a.cache ≡ none
    → a.cache_size < max_auth_cache_size
    → parse_service_account_username username ≡ ok r
    → let b = (settle key (reviewed true username) at a).1 in
      (lookup key b.cache ≡ some (record { result = r; expires_at = at.reviewed_at + a.cache_ttl }))
      × (b.cache_size ≡ a.cache_size + 1)
      × (length b.cache ≡ length a.cache + 1)
unfolding settle store_locked
settle_first key username at a {r} absent room parsed =
    let e : AuthCacheEntry = record { result = r; expires_at = at.reviewed_at + a.cache_ttl } in
    rw (parsed, store_parsed)
      (ground (
        arith,
        length-insert_absent key e a.cache absent,
        lookup-insert key key e a.cache,
        bytes_eq_refl key,
      ))

-- Two requests with the same token and audience overlap: both look the key up before either of them
-- stores. Where cacheSize is the number of cached entries, the key is not cached, there is room for two
-- entries and the API confirms a service account, cacheSize then exceeds the number of entries by one.
pub overlap_overcounts :
    (review : Bytes → Bytes → Review) (token audience username : Bytes) (at at' : Instants)
    (a : TokenAuthenticator) {r : AuthResult}
    → Counted a
    → lookup (cache_key_of token audience) a.cache ≡ none
    → a.cache_size + 1 < max_auth_cache_size
    → review token audience ≡ reviewed true username
    → parse_service_account_username username ≡ ok r
    → let key = cache_key_of token audience in
      let loaded = lookup key a.cache in
      let first = (from_cache key (review token audience) at loaded a).1 in
      let both = (from_cache key (review token audience) at' loaded first).1 in
      both.cache_size ≡ length both.cache + 1
overlap_overcounts review token audience username at at' a counted absent room answer parsed =
    let key = cache_key_of token audience in
    let (present, size, entries) = settle_first key username at a absent (omega arith) parsed in
    let (size', entries') =
      settle_again key username at' (settle key (reviewed true username) at a).1 present
        (omega (arith, size)) parsed in
    rw (absent, answer) (omega (arith, counted, size, entries, size', entries'))
