-- ===== src/Cache/Server/Isolation.antt =====
-- A request learns nothing of rule sets outside the namespace of its account.
use coraza_kubernetes_operat.Prelude.{
  [], ◌≡◌, refl, ap, Bool, true, false, inl, inr, ◌∷◌, ◌++◌, Option, none, some, Bool-cases,
}
use coraza_kubernetes_operat.Prelude.Bytes.{Bytes, bytes, bytes_eq, trim_prefix}
use coraza_kubernetes_operat.Cache.Store.{RuleSetCache, get}
use coraza_kubernetes_operat.Cache.Auth.{
  TokenAuthenticator, AuthResult, Review, Instants, ok, authenticate, audience_of,
}
use coraza_kubernetes_operat.Cache.Server.{
  Request, Encoding, RequestError, route, rules_path, authenticate_request, handle_latest,
  handle_get_rules, latest_of, rules_of, respond, handle_rules,
}
use coraza_kubernetes_operat.Cache.Server.Access.{key_of, token_of, authenticate_request-none}

module _ (enc : Encoding) where
  respond_same :
      (c d : RuleSetCache) (key : Bytes) (latest : Bool) (refused : Option RequestError)
      → (refused ≡ none → get c key ≡ get d key)
      → respond enc c key latest refused ≡ respond enc d key latest refused
  unfolding handle_latest handle_get_rules
  respond_same c d key latest (some e) h = refl
  respond_same c d key true none h = ap (latest_of enc) (h refl)
  respond_same c d key false none h = ap (rules_of enc) (h refl)

  -- Two caches that agree on every key of the namespace of the account that authenticates answer
  -- the request alike, whatever else they hold; so where no account authenticates, the answer does
  -- not depend on the cache at all.
  pub handle_rules_isolated :
      (review : Bytes → Bytes → Review) (at : Instants) (c d : RuleSetCache)
      (a : TokenAuthenticator) (r : Request)
      → ((account : AuthResult) (name : Bytes)
          → (authenticate review (token_of r) (audience_of (key_of r)) at a).0 ≡ ok account
          → get c (account.namespace ++ b'/' ∷ name) ≡ get d (account.namespace ++ b'/' ∷ name))
      → handle_rules enc review at c a r ≡ handle_rules enc review at d a r
  unfolding handle_rules
  handle_rules_isolated review at c d a r h = elim (Bool-cases (bytes_eq r.method (bytes "GET"))) [
    | inr e ↦ rw e
    | inl e ↦ elim (Bool-cases (bytes_eq (trim_prefix r.path rules_path) [])) [
      | inl f ↦ rw (e, f)
      | inr f ↦
          let (refused, a') = authenticate_request review at a r (key_of r) in
          rw (e, f)
            (ap (λ answer. (answer, a'))
              (respond_same c d (key_of r) (route (trim_prefix r.path rules_path)).1 refused same))
    ]
  ]
    where
      same :
          (authenticate_request review at a r (key_of r)).0 ≡ none
          → get c (key_of r) ≡ get d (key_of r)
      same allowed =
          let m = authenticate_request-none review at a r allowed in
          rw m.in_namespace (h m.account m.name m.authentic)
