-- ===== src/Cache/Auth/Soundness.antt =====
-- Whom Authenticate vouches for: only service accounts that the TokenReview API has confirmed.
use coraza_kubernetes_operat.Prelude.{
  subst, ℕ, ◌+◌, ◌-◌, subst, ◌<◌, ◌≡◌, refl, ap, true, false, inl, inr, ◌⊎◌, List, [], ◌∷◌, ltb,
  Option, none, some, arith, All, Bool-cases, Option-cases,
}
use coraza_kubernetes_operat.Prelude.Bytes.{Bytes}
use coraza_kubernetes_operat.Prelude.Assoc.{Assoc, lookup, All-insert, All-delete, All-lookup}
use coraza_kubernetes_operat.Cache.Auth.{
  TokenAuthenticator, AuthCacheEntry, AuthResult, Review, reviewed, failed, Instants, Result, ok,
  err, drop_expired, drop_loaded, evict, evict_expired_locked, store_locked, store_entry,
  store_parsed, settle, from_cache, authenticate, cache_key_of, max_auth_cache_size,
  new_token_authenticator, parse_service_account_username, default_auth_cache_ttl,
}
use coraza_kubernetes_operat.Cache.Auth.Username.{HasNoColon}
use coraza_kubernetes_operat.Cache.Auth.Keys.{cache_key_of-injective}
use coraza_kubernetes_operat.Cache.Auth.Bounds.{Section, drops, settles, interleave}

-- `Grants token audience username at`: at that time the API confirmed that the token is valid for
-- the audience and belongs to the user.
module _ (Grants : Bytes → Bytes → Bytes → ℕ → Type 0) where
  -- A request reports what the API answered for its own token and audience.
  abbrev pub Honest : Bytes → Bytes → Review → ℕ → Type 0
  Honest token audience answer at =
      (username : Bytes) → answer ≡ reviewed true username → Grants token audience username at

  abbrev pub IsRequest : Section → Type 0
  IsRequest (drops key) = Unit
  IsRequest (settles key answer at) =
      (token : Bytes) × (audience : Bytes) × HasNoColon token
      × (key ≡ cache_key_of token audience)
      × Honest token audience answer at.reviewed_at

  -- The API confirmed the result for the token and the audience at the time `at`.
  pub record Confirmed (token audience : Bytes) (r : AuthResult) (at : ℕ) : Type 0 where
    pub username : Bytes
    pub granted : Grants token audience username at
    pub parsed : parse_service_account_username username ≡ ok r

  record Vouched (i : Bytes × AuthCacheEntry) : Type 0 where
    token : Bytes
    audience : Bytes
    at : ℕ
    no_colon : HasNoColon token
    keyed : i.0 ≡ cache_key_of token audience
    confirmed : Confirmed token audience i.1.result at
    expiry : i.1.expires_at ≡ at + default_auth_cache_ttl

  record IsTrusted (a : TokenAuthenticator) : Type 0 where
    ttl : a.cache_ttl ≡ default_auth_cache_ttl
    vouched : All Vouched a.cache

  evict-Vouched :
      (now : ℕ) (m : Assoc AuthCacheEntry) (size : ℕ)
      → All Vouched m
      → All Vouched (evict now m size).0
  unfolding evict
  evict-Vouched now [] size h = h
  evict-Vouched now ((k, e) ∷ m) size h = elim (Bool-cases (ltb e.expires_at now)) [
    | inl gone ↦ rw gone (evict-Vouched now m (size - 1) h.1)
    | inr live ↦ rw live (h.0, evict-Vouched now m size h.1)
  ]

  store_entry-IsTrusted :
      (key : Bytes) (e : AuthCacheEntry) (a : TokenAuthenticator)
      → Vouched (key, e)
      → IsTrusted a
      → IsTrusted (store_entry key e a)
  store_entry-IsTrusted key e a w v = elim (Bool-cases (ltb a.cache_size max_auth_cache_size)) [
    | inl room ↦
        rw room (record { ttl = v.ttl; vouched = All-insert Vouched key e a.cache w v.vouched })
    | inr full ↦ rw full v
  ]

  store_locked-IsTrusted :
      (key : Bytes) (e : AuthCacheEntry) (now : ℕ) (a : TokenAuthenticator)
      → Vouched (key, e)
      → IsTrusted a
      → IsTrusted (store_locked key e now a)
  unfolding store_locked evict_expired_locked
  store_locked-IsTrusted key e now a w v =
      elim (Bool-cases (ltb a.cache_size max_auth_cache_size)) [
        | inl room ↦ rw room (store_entry-IsTrusted key e a w v)
        | inr full ↦ rw full (
            store_entry-IsTrusted key e _ w
              (record { ttl = v.ttl; vouched = evict-Vouched now a.cache a.cache_size v.vouched }))
      ]

  drop_expired-IsTrusted :
      (key : Bytes) (a : TokenAuthenticator) → IsTrusted a → IsTrusted (drop_expired key a)
  unfolding drop_expired
  drop_expired-IsTrusted key a v = elim (Option-cases (lookup key a.cache)) [
    | inl e ↦ rw (e, drop_loaded) v
    | inr (x, e) ↦
        rw (e, drop_loaded)
          (record { ttl = v.ttl; vouched = All-delete Vouched key a.cache v.vouched })
  ]

  settle-IsTrusted :
      (token audience : Bytes) (answer : Review) (at : Instants) (a : TokenAuthenticator)
      → HasNoColon token
      → Honest token audience answer at.reviewed_at
      → IsTrusted a
      → IsTrusted (settle (cache_key_of token audience) answer at a).1
  unfolding settle
  settle-IsTrusted token audience failed at a n h v = v
  settle-IsTrusted token audience (reviewed false username) at a n h v = v
  settle-IsTrusted token audience (reviewed true username) at a n h v =
      go (parse_service_account_username username) refl
    where
      go :
          (r : Result AuthResult)
          → parse_service_account_username username ≡ r
          → IsTrusted (store_parsed (cache_key_of token audience) at r a).1
      go (err e) p = v
      go (ok r) p =
          store_locked-IsTrusted _ _ at.evicted a
            (record {
              token = token;
              audience = audience;
              at = at.reviewed_at;
              no_colon = n;
              keyed = refl;
              confirmed = record { username = username; granted = h username refl; parsed = p };
              expiry = ap (λ t. at.reviewed_at + t) v.ttl;
            })
            v

  interleave-IsTrusted :
      (a : TokenAuthenticator) (ss : List Section)
      → All IsRequest ss
      → IsTrusted a
      → IsTrusted (interleave a ss)
  unfolding interleave
  interleave-IsTrusted a [] h v = v
  interleave-IsTrusted a (drops key ∷ ss) h v =
      interleave-IsTrusted (drop_expired key a) ss h.1 (drop_expired-IsTrusted key a v)
  interleave-IsTrusted a (settles key answer at ∷ ss) h v =
      let (token, audience, n, k, honest) = h.0 in
      interleave-IsTrusted (settle key answer at a).1 ss h.1
        (rw k (settle-IsTrusted token audience answer at a n honest v))

  settle-Confirmed :
      (token audience : Bytes) (answer : Review) (at : Instants) (a : TokenAuthenticator)
      {r : AuthResult}
      → Honest token audience answer at.reviewed_at
      → (settle (cache_key_of token audience) answer at a).0 ≡ ok r
      → Confirmed token audience r at.reviewed_at
  unfolding settle
  settle-Confirmed token audience failed at a h e = cc
  settle-Confirmed token audience (reviewed false username) at a h e = cc
  settle-Confirmed token audience (reviewed true username) at a {r} h e = record {
    username = username;
    granted = h username refl;
    parsed = go (parse_service_account_username username) e;
  }
    where
      go :
          (p : Result AuthResult)
          → (store_parsed (cache_key_of token audience) at p a).0 ≡ ok r
          → p ≡ ok r
      go (err x) e = cc
      go (ok x) e = e

  Vouched-Confirmed :
      (token audience : Bytes) (e : AuthCacheEntry)
      → HasNoColon token
      → Vouched (cache_key_of token audience, e)
      → (at : ℕ) × Confirmed token audience e.result at
        × (e.expires_at ≡ at + default_auth_cache_ttl)
  Vouched-Confirmed token audience e n w =
      let (t, u) = cache_key_of-injective token w.token audience w.audience n w.no_colon w.keyed in
      (w.at, rw (t, u) w.confirmed, w.expiry)

  -- After any interleaving of requests whose tokens have no colon, a successful Authenticate names
  -- a service account that the API confirmed for this very token and this very audience, in this
  -- call or less than the cache's time to live before it.
  pub authenticate_sound :
      (review : Bytes → Bytes → Review) (ss : List Section) (token audience : Bytes) (at : Instants)
      (r : AuthResult)
      → All IsRequest ss
      → HasNoColon token
      → Honest token audience (review token audience) at.reviewed_at
      → (authenticate review token audience at (interleave new_token_authenticator ss)).0 ≡ ok r
      → (when : ℕ) × Confirmed token audience r when
        × ((when ≡ at.reviewed_at) ⊎ (at.checked < when + default_auth_cache_ttl))
  unfolding authenticate new_token_authenticator
  authenticate_sound review ss token audience at r rs n h e = go (lookup key a.cache) refl e
    where
      key : Bytes
      key = cache_key_of token audience

      a : TokenAuthenticator
      a = interleave new_token_authenticator ss

      trusted : IsTrusted a
      trusted =
          interleave-IsTrusted new_token_authenticator ss rs (record { ttl = refl; vouched = tt })

      Answer : Type 0
      Answer =
          (when : ℕ) × Confirmed token audience r when
          × ((when ≡ at.reviewed_at) ⊎ (at.checked < when + default_auth_cache_ttl))

      hit :
          (x : AuthCacheEntry)
          → lookup key a.cache ≡ some x
          → ltb at.checked x.expires_at ≡ true
          → x.result ≡ r
          → Answer
      hit x found live same =
          let w = All-lookup Vouched key x a.cache trusted.vouched found in
          let (when, c, t) = Vouched-Confirmed token audience x n w in
          (when, subst (λ q. Confirmed token audience q when) same c, inr (ground (arith, t)))

      go :
          (o : Option AuthCacheEntry)
          → lookup key a.cache ≡ o
          → (from_cache key (review token audience) at o a).0 ≡ ok r
          → Answer
      go none p q = (at.reviewed_at, settle-Confirmed token audience _ at a h q, inl refl)
      go (some x) p q = elim (Bool-cases (ltb at.checked x.expires_at)) [
        | inl live ↦ hit x p live (ground arith)
        | inr dead ↦ (
          at.reviewed_at,
          settle-Confirmed token audience _ at (drop_expired key a) h (rw dead at q),
          inl refl,
        )
      ]
