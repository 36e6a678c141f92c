-- ===== src/Cache/Auth.antt =====
-- internal/rulesets/cache/auth.go: TokenAuthenticator.
-- The TokenReview API is an argument. Instants are numbers of nanoseconds, and every reading of the
-- clock is an argument of the call. The cache is changed only under cacheMu, in two critical
-- sections: `drop_expired` and `settle`.
pub mod Username
pub mod Keys
pub mod Bounds
pub mod Counting
pub mod Soundness
mod Examples
use coraza_kubernetes_operat.Prelude.{
  ℕ, ◌+◌, ◌-◌, ◌*◌, Bool, true, false, Option, none, some, List, [], ◌∷◌, ◌++◌, ltb, if◌then◌else◌,
}
use coraza_kubernetes_operat.Prelude.Bytes.{Bytes, bytes, cut_prefix, cut_byte}
use coraza_kubernetes_operat.Prelude.Assoc
use coraza_kubernetes_operat.Prelude.Assoc.{Assoc, lookup, insert}

pub record AuthResult : Type 0 where
  pub namespace : Bytes
  pub name : Bytes

pub data AuthError : Type 0 where
  review_failed not_authenticated not_service_account invalid_username : AuthError

pub data Result {ℓ} (A : Type ℓ) : Type ℓ where
  ok : A → Result A
  err : AuthError → Result A

pub record AuthCacheEntry : Type 0 where
  pub result : AuthResult
  pub expires_at : ℕ

pub record TokenAuthenticator : Type 0 where
  pub cache : Assoc AuthCacheEntry
  pub cache_size : ℕ
  pub cache_ttl : ℕ

-- The answer of the TokenReview API: an error, or status.authenticated and the username.
pub data Review : Type 0 where
  failed : Review
  reviewed : Bool → Bytes → Review

-- A second of time.Duration.
abbrev second : ℕ
second = 1_000_000_000

abbrev pub default_auth_cache_ttl : ℕ
default_auth_cache_ttl = 5 * (60 * second)

-- It is shut, so that no proof counts up to it.
unfoldable pub max_auth_cache_size : ℕ
max_auth_cache_size = 10000

abbrev pub cache_audience_prefix : Bytes
cache_audience_prefix = bytes "coraza-cache:"

unfoldable pub audience_of : Bytes → Bytes
audience_of cache_key = cache_audience_prefix ++ cache_key

unfoldable pub new_token_authenticator : TokenAuthenticator
new_token_authenticator = record { cache = []; cache_size = 0; cache_ttl = default_auth_cache_ttl }

abbrev pub service_account_prefix : Bytes
service_account_prefix = bytes "system:serviceaccount:"

abbrev split_name : Option (Bytes × Bytes) → Result AuthResult
split_name none = err invalid_username
split_name (some (namespace, name)) = ok (record { namespace = namespace; name = name })

abbrev after_prefix : Option Bytes → Result AuthResult
after_prefix none = err not_service_account
after_prefix (some ns_name) = split_name (cut_byte b':' ns_name)

unfoldable pub parse_service_account_username : Bytes → Result AuthResult
parse_service_account_username username = after_prefix (cut_prefix username service_account_prefix)

-- token + ":" + audience
unfoldable pub cache_key_of : Bytes → Bytes → Bytes
cache_key_of token audience = token ++ b':' ∷ audience

-- LoadAndDelete, and the counter.
abbrev drop_loaded : Bytes → Option AuthCacheEntry → TokenAuthenticator → TokenAuthenticator
drop_loaded key none a = a
drop_loaded key (some e) a = record a {
  cache = Assoc.delete key a.cache;
  cache_size = a.cache_size - 1;
}

unfoldable pub drop_expired : Bytes → TokenAuthenticator → TokenAuthenticator
drop_expired key a = drop_loaded key (lookup key a.cache) a

-- The loop of evictExpiredLocked: what it leaves of the map and of the counter.
pub evict : ℕ → Assoc AuthCacheEntry → ℕ → Assoc AuthCacheEntry × ℕ
evict now [] size = ([], size)
evict now ((k, e) ∷ m) size =
    let expired = ltb e.expires_at now in
    let (rest, size') = evict now m (if expired then size - 1 else size) in
    (if expired then rest else (k, e) ∷ rest, size')

pub evict_expired_locked : ℕ → TokenAuthenticator → TokenAuthenticator
unfolding evict
evict_expired_locked now a =
    let (m, size) = evict now a.cache a.cache_size in record a { cache = m; cache_size = size }

abbrev store_entry : Bytes → AuthCacheEntry → TokenAuthenticator → TokenAuthenticator
store_entry key e a =
    if ltb a.cache_size max_auth_cache_size
    then record a { cache = insert key e a.cache; cache_size = a.cache_size + 1 }
    else a

-- The critical section that stores a result: evict when the cache is full, store if there is room.
pub store_locked : Bytes → AuthCacheEntry → ℕ → TokenAuthenticator → TokenAuthenticator
unfolding evict_expired_locked
store_locked key e evicted a =
    store_entry key e
      (if ltb a.cache_size max_auth_cache_size then a else evict_expired_locked evicted a)

-- The instants at which one call of Authenticate reads the clock.
pub record Instants : Type 0 where
  pub checked : ℕ
  pub reviewed_at : ℕ
  pub evicted : ℕ

abbrev store_parsed :
    Bytes
    → Instants
    → Result AuthResult
    → TokenAuthenticator
    → Result AuthResult × TokenAuthenticator
store_parsed key at (err e) a = (err e, a)
store_parsed key at (ok r) a = (
  ok r,
  store_locked key (record { result = r; expires_at = at.reviewed_at + a.cache_ttl }) at.evicted a,
)

-- Authenticate from the answer of the API on.
unfoldable pub settle :
    Bytes → Review → Instants → TokenAuthenticator → Result AuthResult × TokenAuthenticator
unfolding store_locked
settle key failed at a = (err review_failed, a)
settle key (reviewed false username) at a = (err not_authenticated, a)
settle key (reviewed true username) at a =
    store_parsed key at (parse_service_account_username username) a

abbrev from_cache :
    Bytes
    → Review
    → Instants
    → Option AuthCacheEntry
    → TokenAuthenticator
    → Result AuthResult × TokenAuthenticator
from_cache key answer at none a = settle key answer at a
from_cache key answer at (some e) a =
    if ltb at.checked e.expires_at
    then (ok e.result, a)
    else settle key answer at (drop_expired key a)

-- One call with no other call in between. `review` is the TokenReview API.
unfoldable pub authenticate :
    (Bytes → Bytes → Review)
    → Bytes
    → Bytes
    → Instants
    → TokenAuthenticator
    → Result AuthResult × TokenAuthenticator
authenticate review token audience at a =
    let key = cache_key_of token audience in
    from_cache key (review token audience) at (lookup key a.cache) a
