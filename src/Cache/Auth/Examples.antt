-- ===== src/Cache/Auth/Examples.antt =====
-- Tests of the token authenticator, and its theorems at concrete inputs.
use coraza_kubernetes_operat.Prelude.{
  ℕ, ◌+◌, ◌<◌, ◌≡◌, refl, true, ◌⊎◌, ◌↔◌, List, [], ◌∷◌, ◌++◌, arith, length,
}
use coraza_kubernetes_operat.Prelude.Bytes.{Bytes, bytes}
use coraza_kubernetes_operat.Cache.Auth.{
  from_cache, lookup, TokenAuthenticator, AuthResult, AuthCacheEntry, Review, reviewed, Instants,
  ok, authenticate, settle, cache_key_of, audience_of, parse_service_account_username, store_locked,
  max_auth_cache_size, drop_expired, new_token_authenticator, default_auth_cache_ttl,
}
use coraza_kubernetes_operat.Cache.Auth.Username.{username_of, HasNoColon, parse_iff}
use coraza_kubernetes_operat.Cache.Auth.Bounds.{
  Section, settles, drops, interleave, enter, IsBounded, interleave-IsBounded, new-IsBounded,
}
use coraza_kubernetes_operat.Cache.Auth.Counting.{overlap_overcounts}
use coraza_kubernetes_operat.Cache.Auth.Soundness.{Confirmed, authenticate_sound}

abbrev account : AuthResult
account = record { namespace = bytes "ns"; name = bytes "sa" }

abbrev username : Bytes
username = bytes "system:serviceaccount:ns:sa"

abbrev at_ten : Instants
at_ten = record { checked = 10; reviewed_at = 11; evicted = 12 }

abbrev answers : Bytes → Bytes → Review
answers token audience = reviewed true username

abbrev key : Bytes
key = bytes "tok" ++ b':' ∷ bytes "coraza-cache:ns/a"

abbrev cached : AuthCacheEntry
cached = record { result = account; expires_at = 50 }

abbrev no_entries : TokenAuthenticator
no_entries = record { cache = []; cache_size = 0; cache_ttl = 40 }

abbrev one_cached : TokenAuthenticator
one_cached = record { cache = (key, cached) ∷ []; cache_size = 1; cache_ttl = 40 }

-- Two requests for the same token that overlap, and a third after the entry has expired.
abbrev sections : List Section
sections =
    settles (bytes "tok:aud") (reviewed true username) at_ten
    ∷ settles (bytes "tok:aud") (reviewed true username) at_ten
    ∷ drops (bytes "tok:aud")
    ∷ []

parses : parse_service_account_username username ≡ ok account
unfolding parse_service_account_username
parses = refl

hits :
    (authenticate answers (bytes "tok") (audience_of (bytes "ns/a")) at_ten one_cached).1
    ≡ one_cached
unfolding authenticate audience_of cache_key_of
hits = refl

drifted : (interleave new_token_authenticator sections).cache_size ≡ 1
unfolding interleave enter settle store_locked drop_expired max_auth_cache_size
    new_token_authenticator parse_service_account_username
drifted = refl

parse_iff_example :
    (parse_service_account_username username ≡ ok account)
    ↔ ((username ≡ username_of account) × HasNoColon (bytes "ns"))
parse_iff_example = parse_iff username account

interleave-IsBounded_example : IsBounded (interleave new_token_authenticator sections)
interleave-IsBounded_example = interleave-IsBounded new_token_authenticator sections new-IsBounded

one_cached-IsBounded : IsBounded one_cached
unfolding max_auth_cache_size
one_cached-IsBounded = record { is_map = (refl, tt); covered = omega arith; limited = omega arith }

overlap_overcounts_example :
    let loaded = lookup (cache_key_of (bytes "tok") (bytes "aud")) no_entries.cache in
    let tok_aud = cache_key_of (bytes "tok") (bytes "aud") in
    let first =
      (from_cache tok_aud (answers (bytes "tok") (bytes "aud")) at_ten loaded no_entries).1 in
    let both = (from_cache tok_aud (answers (bytes "tok") (bytes "aud")) at_ten loaded first).1 in
    both.cache_size ≡ length both.cache + 1
unfolding max_auth_cache_size parse_service_account_username
overlap_overcounts_example =
    overlap_overcounts answers (bytes "tok") (bytes "aud") username at_ten at_ten no_entries
      {r = account} refl refl (omega arith) refl refl

-- An API that Confirms `username` for every token and audience from time 11 on.
abbrev Confirms : Bytes → Bytes → Bytes → ℕ → Type 0
Confirms token audience user at = (user ≡ username) × (at ≡ 11)

same_user : (user : Bytes) → reviewed true username ≡ reviewed true user → user ≡ username
same_user user e = ground arith

authenticate_sound_example :
    (when : ℕ) × Confirmed Confirms (bytes "tok") (bytes "aud") account when
    × ((when ≡ 11) ⊎ (10 < when + default_auth_cache_ttl))
unfolding authenticate interleave enter settle store_locked max_auth_cache_size
    new_token_authenticator parse_service_account_username cache_key_of
authenticate_sound_example =
    authenticate_sound Confirms answers
      (settles (bytes "tok:aud") (reviewed true username) at_ten ∷ []) (bytes "tok") (bytes "aud")
      at_ten account
      ((bytes "tok", bytes "aud", refl, refl, λ user e. (same_user user e, refl)), tt) refl
      (λ user e. (same_user user e, refl)) refl
