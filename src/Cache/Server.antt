-- ===== src/Cache/Server.antt =====
-- internal/rulesets/cache/server.go: the handlers and the garbage collection of ruleSetCacheServer,
-- and the routing label of metrics.go.
-- The JSON encoder and the format of timestamps are parameters. A request is its method, its URL
-- path and its Authorization header; the body is never read.
pub mod Routing
pub mod Access
pub mod Isolation
pub mod Collection
mod Examples
use coraza_kubernetes_operat.Prelude.{
  ℕ, ◌+◌, ◌*◌, Bool, true, false, Option, none, some, List, [], ◌∷◌, ◌++◌, map, length, take, drop,
  ltb, ◌&&◌, not, if◌then◌else◌,
}
use coraza_kubernetes_operat.Prelude.Bytes.{
  Bytes, bytes, bytes_eq, trim_prefix, has_prefix, cut_suffix, cut_byte, lower_byte,
}
use coraza_kubernetes_operat.Cache.Store.{RuleSetCache, RuleSetEntry, get, prune, prune_by_size}
use coraza_kubernetes_operat.Cache.Auth.{
  TokenAuthenticator, AuthResult, Review, Instants, Result, ok, err, AuthError, authenticate,
  audience_of,
}

pub record Request : Type 0 where
  pub method : Bytes
  pub path : Bytes
  pub authorization : Bytes

pub record Response : Type 0 where
  pub status : ℕ
  pub content_type : Bytes
  pub body : Bytes

-- http.Error
abbrev pub http_error : Bytes → ℕ → Response
http_error message status = record {
  status = status;
  content_type = bytes "text/plain; charset=utf-8";
  body = message ++ 10 ∷ [];
}

abbrev json_response : Bytes → Response
json_response body = record { status = 200; content_type = bytes "application/json"; body = body }

pub record LatestResponse : Type 0 where
  pub uuid : Bytes
  pub timestamp : Bytes

-- Time.Format(TimestampFormat), and json.Encoder, which may refuse a value.
pub record Encoding : Type 0 where
  pub format_timestamp : ℕ → Bytes
  pub encode_latest : LatestResponse → Option Bytes
  pub encode_entry : RuleSetEntry → Option Bytes

-- strings.EqualFold where one side is ASCII and has neither k nor s, the letters that characters
-- outside ASCII fold to.
abbrev equal_fold : Bytes → Bytes → Bool
equal_fold s t = bytes_eq (map lower_byte s) (map lower_byte t)

abbrev bearer : Bytes
bearer = bytes "Bearer "

unfoldable pub extract_bearer_token : Bytes → Bytes
extract_bearer_token auth =
    if ltb 7 (length auth) && equal_fold (take 7 auth) bearer then drop 7 auth else []

-- The cache key and whether only the latest version's metadata are asked for.
abbrev stripped : Bytes → Option Bytes → Bytes × Bool
stripped path none = (path, false)
stripped path (some key) = (key, true)

unfoldable pub route : Bytes → Bytes × Bool
route path = stripped path (cut_suffix path (bytes "/latest"))

abbrev pub rules_path : Bytes
rules_path = bytes "/rules/"

-- metrics.go
abbrev label : Option Bytes → Bytes
label none = bytes "rules"
label (some key) = bytes "latest"

unfoldable pub handler_label : Bytes → Bytes
handler_label url_path =
    if has_prefix url_path rules_path
    then label (cut_suffix (trim_prefix url_path rules_path) (bytes "/latest"))
    else bytes "rules"

pub data RequestError : Type 0 where
  missing_bearer_token invalid_cache_key namespace_mismatch : RequestError
  not_authentic : AuthError → RequestError

abbrev check_namespace : AuthResult → Option (Bytes × Bytes) → Option RequestError
check_namespace r none = some invalid_cache_key
check_namespace r (some (key_ns, _)) =
    if bytes_eq r.namespace key_ns then none else some namespace_mismatch

abbrev check_result : Bytes → Result AuthResult → Option RequestError
check_result cache_key (err e) = some (not_authentic e)
check_result cache_key (ok r) = check_namespace r (cut_byte b'/' cache_key)

-- `none` is a nil error.
unfoldable pub authenticate_request :
    (Bytes → Bytes → Review)
    → Instants
    → TokenAuthenticator
    → Request
    → Bytes
    → Option RequestError × TokenAuthenticator
authenticate_request review at a r cache_key =
    let token = extract_bearer_token r.authorization in
    if bytes_eq token []
    then (some missing_bearer_token, a)
    else let (result, a') = authenticate review token (audience_of cache_key) at a in
      (check_result cache_key result, a')

abbrev encoded : Option Bytes → Response
encoded none = http_error (bytes "Internal server error") 500
encoded (some body) = json_response body

abbrev not_found : Response
not_found = http_error (bytes "RuleSet not found") 404

abbrev forbidden : Response
forbidden = http_error (bytes "Forbidden") 403

module _ (enc : Encoding) where
  abbrev latest_of : Option RuleSetEntry → Response
  latest_of none = not_found
  latest_of (some e) =
      encoded
        (enc.encode_latest (record { uuid = e.uuid; timestamp = enc.format_timestamp e.timestamp }))

  unfoldable pub handle_latest : RuleSetCache → Bytes → Response
  handle_latest c cache_key = latest_of (get c cache_key)

  abbrev rules_of : Option RuleSetEntry → Response
  rules_of none = not_found
  rules_of (some e) = encoded (enc.encode_entry e)

  unfoldable pub handle_get_rules : RuleSetCache → Bytes → Response
  handle_get_rules c cache_key = rules_of (get c cache_key)

  abbrev respond : RuleSetCache → Bytes → Bool → Option RequestError → Response
  respond c cache_key is_latest (some e) = forbidden
  respond c cache_key true none = handle_latest c cache_key
  respond c cache_key false none = handle_get_rules c cache_key

  unfoldable pub handle_rules :
      (Bytes → Bytes → Review)
      → Instants
      → RuleSetCache
      → TokenAuthenticator
      → Request
      → Response × TokenAuthenticator
  unfolding handle_latest handle_get_rules
  handle_rules review at c a r =
      let path = trim_prefix r.path rules_path in
      let (cache_key, is_latest) = route path in
      let (refused, a') = authenticate_request review at a r cache_key in
      if not (bytes_eq r.method (bytes "GET"))
      then (http_error (bytes "Method not allowed") 405, a)
      else if bytes_eq path []
      then (http_error (bytes "RuleSet key required") 400, a)
      else (respond c cache_key is_latest refused, a')

pub record GarbageCollectionConfig : Type 0 where
  pub gc_interval : ℕ
  pub max_age : ℕ
  pub max_size : ℕ

-- A minute of time.Duration.
abbrev minute : ℕ
minute = 60_000_000_000

unfoldable pub default_gc : GarbageCollectionConfig
default_gc = record {
  gc_interval = 5 * minute;
  max_age = 24 * (60 * minute);
  max_size = 100 * (1024 * 1024);
}

-- gcPrunedEntriesTotal for its two reasons, and gcSizeLimitExceededTotal.
pub record GcMetrics : Type 0 where
  pub pruned_by_age : ℕ
  pub pruned_by_size : ℕ
  pub size_limit_exceeded : ℕ

-- The second half of a tick of rungc, entered when the size is over the limit.
pub collect_by_size : ℕ → RuleSetCache → GcMetrics → RuleSetCache × GcMetrics
collect_by_size max_size c metrics =
    let (c', pruned) = prune_by_size c max_size in
    (
      c',
      record metrics {
        pruned_by_size = metrics.pruned_by_size + pruned;
        size_limit_exceeded =
            (if ltb max_size c'.total_size
              then metrics.size_limit_exceeded + 1
              else metrics.size_limit_exceeded);
      },
    )

-- One tick of rungc with no other call in between. A counter that grows by 0 is left alone.
unfoldable pub collect :
    GarbageCollectionConfig → ℕ → RuleSetCache → GcMetrics → RuleSetCache × GcMetrics
unfolding collect_by_size
collect gc now c metrics =
    let (c', pruned) = prune c now gc.max_age in
    let metrics' : GcMetrics = record metrics { pruned_by_age = metrics.pruned_by_age + pruned } in
    if ltb gc.max_size c'.total_size
    then collect_by_size gc.max_size c' metrics'
    else (c', metrics')
