-- ===== src/Cache/Auth/Username.antt =====
-- parseServiceAccountUsername against the format system:serviceaccount:<namespace>:<name>.
use coraza_kubernetes_operat.Prelude.{
  ◌≡◌, ap, ◌∙◌, false, ◌↔◌, ◌∷◌, ◌++◌, any, ◌==◌, arith, inl, inr, Option-cases,
}
use coraza_kubernetes_operat.Prelude.Bytes.{
  Bytes, cut_prefix, cut_prefix-some, cut_byte, cut_byte-append, cut_byte-some,
}
use coraza_kubernetes_operat.Cache.Auth.{
  AuthResult, ok, service_account_prefix, parse_service_account_username, split_name,
}

-- The username of a service account.
abbrev pub username_of : AuthResult → Bytes
username_of r = service_account_prefix ++ (r.namespace ++ b':' ∷ r.name)

abbrev pub HasNoColon : Bytes → Type 0
HasNoColon s = any (λ c. c == b':') s ≡ false

split_name_ok :
    (rest : Bytes) (r : AuthResult)
    → split_name (cut_byte b':' rest) ≡ ok r
    → (rest ≡ r.namespace ++ b':' ∷ r.name) × HasNoColon r.namespace
split_name_ok rest r h = cut_byte-some b':' rest r.namespace r.name (ground arith)

-- A username parses to a namespace and a name exactly when it is the username of that service
-- account and the namespace has no colon.
pub parse_iff :
    (username : Bytes) (r : AuthResult)
    → (parse_service_account_username username ≡ ok r)
      ↔ ((username ≡ username_of r) × HasNoColon r.namespace)
unfolding parse_service_account_username
parse_iff username r = (only_if, if_so)
  where
    only_if :
        parse_service_account_username username ≡ ok r
        → (username ≡ username_of r) × HasNoColon r.namespace
    only_if h = elim (Option-cases (cut_prefix username service_account_prefix)) [
      | inl e ↦ absurd (cc e)
      | inr (rest, e) ↦
          let (f, n) = split_name_ok rest r (ground arith) in
          (
            cut_prefix-some username service_account_prefix rest e
                ∙ ap (λ s. service_account_prefix ++ s) f,
            n,
          )
    ]

    if_so :
        (username ≡ username_of r) × HasNoColon r.namespace
        → parse_service_account_username username ≡ ok r
    if_so (u, n) = rw (u, cut_byte-append b':' r.namespace r.name n)
