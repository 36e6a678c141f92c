-- ===== src/Cache/Server/Examples.antt =====
-- Tests of the cache server, and its theorems at concrete inputs.
use coraza_kubernetes_operat.Prelude.{
  ℕ, ◌+◌, ◌≤◌, ◌<◌, ◌≡◌, refl, true, ◌⊎◌, [], ◌∷◌, ◌++◌, none, some, arith,
}
use coraza_kubernetes_operat.Prelude.Bytes.{Bytes, bytes, trim_prefix}
use coraza_kubernetes_operat.Cache.Store.{RuleSetCache, get, put, new_rule_set_cache, new_entry}
use coraza_kubernetes_operat.Cache.Store.Sweeps.{stored_count}
use coraza_kubernetes_operat.Cache.Store.SizeInstances.{only_latest}
use coraza_kubernetes_operat.Cache.Auth.{
  AuthResult, Review, reviewed, Instants, authenticate, audience_of, cache_key_of, settle,
  parse_service_account_username, new_token_authenticator, default_auth_cache_ttl,
}
use coraza_kubernetes_operat.Cache.Auth.Username.{username_of}
use coraza_kubernetes_operat.Cache.Auth.Bounds.{interleave}
use coraza_kubernetes_operat.Cache.Server.{
  rules_path, Request, Encoding, route, extract_bearer_token, authenticate_request, handle_rules,
  GarbageCollectionConfig, GcMetrics, collect, forbidden,
}
use coraza_kubernetes_operat.Cache.Server.Access.{
  key_of, token_of, MayRead, Carries, handle_rules_ok, handle_rules_sound,
}
use coraza_kubernetes_operat.Cache.Server.Isolation.{handle_rules_isolated}
use coraza_kubernetes_operat.Cache.Server.Collection.{collect_exact}

-- An encoding that writes the rules, or the UUID.
abbrev plain : Encoding
plain = record {
  format_timestamp = λ t. t ∷ [];
  encode_latest = λ l. some l.uuid;
  encode_entry = λ e. some e.rules;
}

abbrev username : Bytes
username = bytes "system:serviceaccount:ns:sa"

abbrev answers : Bytes → Bytes → Review
answers token audience = reviewed true username

abbrev at_ten : Instants
at_ten = record { checked = 10; reviewed_at = 11; evicted = 12 }

abbrev get_rules : Request
get_rules = record {
  method = bytes "GET";
  path = bytes "/rules/ns/a";
  authorization = bytes "bearer tok";
}

abbrev cache : RuleSetCache
cache = put new_rule_set_cache (bytes "ns/a") (1 ∷ 2 ∷ []) none (bytes "u1") 5

abbrev other_cache : RuleSetCache
other_cache = put cache (bytes "prod/a") (3 ∷ []) none (bytes "u2") 6

served :
    (handle_rules plain answers at_ten cache new_token_authenticator get_rules).0.body ≡ 1 ∷ 2 ∷ []
unfolding handle_rules authenticate_request authenticate settle parse_service_account_username route
    extract_bearer_token get put new_rule_set_cache new_entry new_token_authenticator audience_of
    cache_key_of
served = refl

-- The account's namespace is compared with the whole first part of the key.
refused :
    (handle_rules plain answers at_ten cache new_token_authenticator
      (record get_rules { path = bytes "/rules/nsx/a" })).0
    ≡ forbidden
unfolding handle_rules authenticate_request authenticate settle parse_service_account_username route
    extract_bearer_token new_token_authenticator audience_of cache_key_of
refused = refl

handle_rules_ok_example :
    (bytes "GET" ≡ bytes "GET")
    × MayRead answers at_ten new_token_authenticator get_rules
    × Carries plain cache (trim_prefix get_rules.path rules_path) (key_of get_rules) (1 ∷ 2 ∷ [])
unfolding handle_rules authenticate_request authenticate settle parse_service_account_username route
    extract_bearer_token get put new_rule_set_cache new_entry new_token_authenticator audience_of
    cache_key_of
handle_rules_ok_example =
    handle_rules_ok plain answers at_ten cache new_token_authenticator get_rules refl

-- An API that confirms `username` for every token and audience at time 11.
abbrev Confirms : Bytes → Bytes → Bytes → ℕ → Type 0
Confirms token audience user at = (user ≡ username) × (at ≡ 11)

same_user : (user : Bytes) → reviewed true username ≡ reviewed true user → user ≡ username
same_user user e = ground arith

handle_rules_sound_example :
    (account : AuthResult) × (name : Bytes) × (when : ℕ) × (key_of get_rules
      ≡ account.namespace ++ b'/' ∷ name)
    × Confirms (token_of get_rules) (audience_of (key_of get_rules)) (username_of account) when
    × ((when ≡ 11) ⊎ (10 < when + default_auth_cache_ttl))
unfolding handle_rules authenticate_request authenticate settle parse_service_account_username route
    extract_bearer_token get put new_rule_set_cache new_entry new_token_authenticator audience_of
    cache_key_of interleave
handle_rules_sound_example =
    handle_rules_sound plain Confirms answers at_ten cache [] get_rules tt refl
      (λ user e. (same_user user e, refl)) refl

handle_rules_isolated_example :
    handle_rules plain answers at_ten cache new_token_authenticator get_rules
    ≡ handle_rules plain answers at_ten other_cache new_token_authenticator get_rules
unfolding authenticate settle parse_service_account_username route extract_bearer_token get put
    new_rule_set_cache new_entry new_token_authenticator audience_of cache_key_of
handle_rules_isolated_example =
    handle_rules_isolated plain answers at_ten cache other_cache new_token_authenticator get_rules
      (λ account name e. same_answer account name (ground arith))
  where
    same_answer :
        (account : AuthResult) (name : Bytes)
        → account.namespace ≡ bytes "ns"
        → get cache (account.namespace ++ b'/' ∷ name)
          ≡ get other_cache (account.namespace ++ b'/' ∷ name)
    same_answer account name e = rw e refl

abbrev tight : GarbageCollectionConfig
tight = record { gc_interval = 1; max_age = 100; max_size = 1 }

abbrev no_metrics : GcMetrics
no_metrics = record { pruned_by_age = 0; pruned_by_size = 0; size_limit_exceeded = 0 }

collect_exact_example :
    ((k : Bytes) → get (collect tight 10 cache no_metrics).0 k ≡ get cache k)
    × ((collect tight 10 cache no_metrics).1.pruned_by_age
          + (collect tight 10 cache no_metrics).1.pruned_by_size
          + stored_count (collect tight 10 cache no_metrics).0.entries
        ≡ 0 + 0 + stored_count cache.entries)
    × ((((collect tight 10 cache no_metrics).0.total_size ≤ 1)
          × ((collect tight 10 cache no_metrics).1.size_limit_exceeded ≡ 0))
        ⊎ ((only_latest (collect tight 10 cache no_metrics).0.entries ≡ true)
            × ((collect tight 10 cache no_metrics).1.size_limit_exceeded ≡ 0 + 1)))
collect_exact_example = collect_exact tight 10 cache no_metrics
