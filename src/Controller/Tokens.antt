-- ===== src/Controller/Tokens.antt =====
-- internal/controller/engine_controller_token.go: the tokens of cache clients, without the service
-- accounts. The CreateToken call of the API is a parameter, and the clock is read through arguments.
pub mod Validity
pub mod Origin
mod Examples
use coraza_kubernetes_operat.Prelude.{
  ℕ, ◌+◌, ◌-◌, ◌*◌, ◌/◌, Bool, true, false, not, Option, none, some, List, [], ◌∷◌, ◌++◌, leb, ltb,
  if◌then◌else◌,
}
use coraza_kubernetes_operat.Prelude.Bytes.{Bytes, bytes}
use coraza_kubernetes_operat.Prelude.Assoc.{Assoc, lookup, insert}
use coraza_kubernetes_operat.Cache.Auth.{audience_of}
use coraza_kubernetes_operat.Controller.Errors.{GoError, wrap, slash}

pub record TokenEntry : Type 0 where
  pub token : Bytes
  pub issued_at : ℕ
  pub expires_at : ℕ

-- tokenRenewalFraction is 0.8. The product in float64, rounded down, is this quotient for lifetimes
-- below 2^50 nanoseconds, which is 13 days.
abbrev pub renewal_share : ℕ → ℕ
renewal_share lifetime = lifetime * 4 / 5

-- The lifetime is negative where the token expires before it is issued.
unfoldable pub renewal_deadline : TokenEntry → ℕ
renewal_deadline e =
    if leb e.issued_at e.expires_at
    then e.issued_at + renewal_share (e.expires_at - e.issued_at)
    else e.issued_at - renewal_share (e.issued_at - e.expires_at)

unfoldable pub needs_renewal : ℕ → TokenEntry → Bool
needs_renewal now e = not (ltb now (renewal_deadline e))

-- The names of a call, and the instants at which it reads the clock.
pub record TokenCall : Type 0 where
  pub namespace : Bytes
  pub engine : Bytes
  pub rule_set : Bytes
  pub sa_name : Bytes
  pub checked : ℕ
  pub issued : ℕ
  pub pruned : ℕ

-- CreateToken for a service account and an audience: the token and its expiry.
pub data Created : Type 0 where
  created : Bytes → ℕ → Created
  refused : GoError → Created

-- The token and its renewal deadline.
pub data TokenResult : Type 0 where
  has_token : Bytes → ℕ → TokenResult
  no_token : GoError → TokenResult

abbrev pub rule_set_key : TokenCall → Bytes
rule_set_key c = c.namespace ++ slash ∷ c.rule_set

unfoldable pub token_key : TokenCall → Bytes
token_key c = c.namespace ++ slash ∷ (c.engine ++ slash ∷ c.rule_set)

unfoldable pub prune_expired_tokens : ℕ → Assoc TokenEntry → Assoc TokenEntry
prune_expired_tokens now [] = []
prune_expired_tokens now ((k, e) ∷ store) =
    let rest = prune_expired_tokens now store in
    if ltb e.expires_at now then rest else (k, e) ∷ rest

abbrev pub new_token : TokenCall → Created → Assoc TokenEntry → TokenResult × Assoc TokenEntry
new_token c (refused e) store = (
  no_token (
      wrap
        (bytes "failed to create token for SA "
          ++ (c.namespace ++ (bytes "/" ++ (c.sa_name ++ bytes ": "))))
        e),
  store,
)
new_token c (created token expires_at) store =
    let e : TokenEntry = record { token = token; issued_at = c.issued; expires_at = expires_at } in
    (
      has_token token (renewal_deadline e),
      prune_expired_tokens c.pruned (insert (token_key c) e store),
    )

abbrev pub cached_or :
    TokenCall → Option TokenEntry → Created → Assoc TokenEntry → TokenResult × Assoc TokenEntry
cached_or c none answer store = new_token c answer store
cached_or c (some e) answer store =
    if needs_renewal c.checked e
    then new_token c answer store
    else (has_token e.token (renewal_deadline e), store)

unfoldable pub ensure_cache_token :
    (Bytes → Bytes → Created) → TokenCall → Assoc TokenEntry → TokenResult × Assoc TokenEntry
ensure_cache_token create c store =
    cached_or c (lookup (token_key c) store) (create c.sa_name (audience_of (rule_set_key c))) store
