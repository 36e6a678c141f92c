-- ===== src/Cache/Server/Access.antt =====
-- Who gets which rule set.
use coraza_kubernetes_operat.Prelude.{
  ℕ, ◌+◌, ◌<◌, ◌≡◌, ◌≢◌, refl, ap, sym, ◌∙◌, subst, Bool, true, false, inl, inr, ◌⊎◌, List, [], ◌∷◌,
  ◌++◌, Option, none, some, arith, All, Bool-cases, Option-cases,
}
use coraza_kubernetes_operat.Prelude.Bytes.{
  Bytes, bytes, bytes_eq, bytes_eq_iff, trim_prefix, cut_byte, cut_byte-some,
}
use coraza_kubernetes_operat.Cache.Store.{RuleSetCache, RuleSetEntry, get}
use coraza_kubernetes_operat.Cache.Auth.{
  TokenAuthenticator, AuthResult, Review, Instants, Result, ok, err, authenticate, audience_of,
  new_token_authenticator, default_auth_cache_ttl,
}
use coraza_kubernetes_operat.Cache.Auth.Username.{HasNoColon, username_of, parse_iff}
use coraza_kubernetes_operat.Cache.Auth.Bounds.{Section, interleave}
use coraza_kubernetes_operat.Cache.Auth.Soundness.{IsRequest, Honest, authenticate_sound}
use coraza_kubernetes_operat.Cache.Server.Routing.{route_iff}
use coraza_kubernetes_operat.Cache.Server.{
  Request, Encoding, RequestError, route, rules_path, extract_bearer_token, check_result,
  authenticate_request, handle_latest, handle_get_rules, latest_of, rules_of, encoded, respond,
  handle_rules,
}

abbrev pub key_of : Request → Bytes
key_of r = (route (trim_prefix r.path rules_path)).0

abbrev pub token_of : Request → Bytes
token_of r = extract_bearer_token r.authorization

-- The token is valid for the key, and its account lives in the namespace that the key begins with.
pub record MayRead (review : Bytes → Bytes → Review) (at : Instants) (a : TokenAuthenticator)
    (r : Request) : Type 0 where
  pub account : AuthResult
  pub name : Bytes
  pub has_token : token_of r ≢ []
  pub authentic : (authenticate review (token_of r) (audience_of (key_of r)) at a).0 ≡ ok account
  pub in_namespace : key_of r ≡ account.namespace ++ b'/' ∷ name

true_is_not_false : true ≡ false → ⊥
true_is_not_false h = cc

check_result-none :
    (key : Bytes) (res : Result AuthResult)
    → check_result key res ≡ none
    → (account : AuthResult) × (name : Bytes) × (res ≡ ok account)
      × (key ≡ account.namespace ++ b'/' ∷ name)
check_result-none key (err e) h = cc
check_result-none key (ok account) h = elim (Option-cases (cut_byte b'/' key)) [
  | inl e ↦ absurd (ground arith)
  | inr ((ns, name), e) ↦
      let same : account.namespace ≡ ns = ground (arith, bytes_eq_iff account.namespace ns) in
      (account, name, refl, rw same ((cut_byte-some b'/' key ns name e).0))
]

pub authenticate_request-none :
    (review : Bytes → Bytes → Review) (at : Instants) (a : TokenAuthenticator) (r : Request)
    → (authenticate_request review at a r (key_of r)).0 ≡ none
    → MayRead review at a r
unfolding authenticate_request
authenticate_request-none review at a r h = elim (Bool-cases (bytes_eq (token_of r) [])) [
  | inl e ↦ absurd (ground arith)
  | inr e ↦
      let (account, name, ok_account, in_ns) =
        check_result-none (key_of r)
          (authenticate review (token_of r) (audience_of (key_of r)) at a).0 (rw e at h) in
      record {
        account = account;
        name = name;
        has_token = λ p. ground (arith, bytes_eq_iff (token_of r) []);
        authentic = ok_account;
        in_namespace = in_ns;
      }
]

module _ (enc : Encoding) where
  -- What is encoded of an entry: its metadata where only the latest version is asked for.
  abbrev Encodes : Bool → RuleSetEntry → Bytes → Type 0
  Encodes true e body =
      enc.encode_latest (record { uuid = e.uuid; timestamp = enc.format_timestamp e.timestamp })
      ≡ some body
  Encodes false e body = enc.encode_entry e ≡ some body

  -- The path behind /rules/ asks for the latest version of the key, or for its rules.
  abbrev Asks : Bool → Bytes → Bytes → Type 0
  Asks true path key = path ≡ key ++ bytes "/latest"
  Asks false path key = (path ≡ key) × ((k : Bytes) → path ≢ k ++ bytes "/latest")

  -- The body is that of the latest entry of the key: the metadata exactly where the path is the key
  -- followed by /latest, and the rules where the path is the key.
  abbrev pub Carries : RuleSetCache → Bytes → Bytes → Bytes → Type 0
  Carries c path key body =
      (latest : Bool) × (e : RuleSetEntry) × Asks latest path key
      × (get c key ≡ some e)
      × Encodes latest e body

  asked : (path : Bytes) (latest : Bool) → (route path).1 ≡ latest → Asks latest path (route path).0
  asked path true h = ((route_iff path).0 (route path).0).0 (ap (λ b. ((route path).0, b)) h)
  asked path false h = (
    sym ((route_iff path).1 h),
    λ k e. absurd (true_is_not_false (sym (ap (λ r. r.1) (((route_iff path).0 k).1 e)) ∙ h)),
  )

  encoded_ok :
      (o : Option Bytes) (body : Bytes)
      → (encoded o).status ≡ 200
      → (encoded o).body ≡ body
      → o ≡ some body
  encoded_ok none body h b = absurd (omega arith)
  encoded_ok (some x) body h b = ap some b

  respond_ok :
      (c : RuleSetCache) (key : Bytes) (latest : Bool) (refused : Option RequestError)
      → (respond enc c key latest refused).status ≡ 200
      → (refused ≡ none)
        × ((e : RuleSetEntry) × (get c key ≡ some e)
            × Encodes latest e (respond enc c key latest refused).body)
  unfolding handle_latest handle_get_rules
  respond_ok c key latest (some e) h = absurd (omega arith)
  respond_ok c key true none h = (refl, go (get c key) refl h)
    where
      go :
          (o : Option RuleSetEntry)
          → get c key ≡ o
          → (latest_of enc o).status ≡ 200
          → (e : RuleSetEntry) × (get c key ≡ some e) × Encodes true e (latest_of enc o).body
      go none p h = absurd (omega arith)
      go (some e) p h = (e, p, encoded_ok _ _ h refl)
  respond_ok c key false none h = (refl, go (get c key) refl h)
    where
      go :
          (o : Option RuleSetEntry)
          → get c key ≡ o
          → (rules_of enc o).status ≡ 200
          → (e : RuleSetEntry) × (get c key ≡ some e) × Encodes false e (rules_of enc o).body
      go none p h = absurd (omega arith)
      go (some e) p h = (e, p, encoded_ok _ _ h refl)

  -- An answer with status 200 is given only to a GET request that may read the rule set which its
  -- path names, and carries the latest entry of that rule set: the entry's metadata where the path
  -- ends in /latest behind the key, and the whole entry where the path is the key and does not end so.
  pub handle_rules_ok :
      (review : Bytes → Bytes → Review) (at : Instants) (c : RuleSetCache) (a : TokenAuthenticator)
      (r : Request)
      → (handle_rules enc review at c a r).0.status ≡ 200
      → (r.method ≡ bytes "GET")
        × MayRead review at a r
        × Carries c
            (trim_prefix r.path rules_path)
            (key_of r)
            (handle_rules enc review at c a r).0.body
  unfolding handle_rules
  handle_rules_ok review at c a r h = elim (Bool-cases (bytes_eq r.method (bytes "GET"))) [
    | inr e ↦ absurd (ground arith)
    | inl e ↦ elim (Bool-cases (bytes_eq (trim_prefix r.path rules_path) [])) [
      | inl f ↦ absurd (ground arith)
      | inr f ↦
          let (refused, a') = authenticate_request review at a r (key_of r) in
          let (allowed, (entry, found, encodes)) =
            respond_ok c (key_of r) (route (trim_prefix r.path rules_path)).1 refused
              (rw (e, f) at h) in
          (
            (bytes_eq_iff r.method (bytes "GET")).0 e,
            authenticate_request-none review at a r allowed,
            (
              (route (trim_prefix r.path rules_path)).1,
              entry,
              asked (trim_prefix r.path rules_path) (route (trim_prefix r.path rules_path)).1 refl,
              found,
              rw (e, f) encodes,
            ),
          )
    ]
  ]

  -- Rules leave the server only as follows: after any interleaving of requests whose tokens have no
  -- colon, if a request whose token has no colon is answered with status 200, the TokenReview API
  -- has confirmed, in this call or less than the time to live before it, that its token is valid for
  -- the audience of the requested rule set and belongs to a service account of the namespace with
  -- which the rule set's key begins.
  pub handle_rules_sound :
      (Grants : Bytes → Bytes → Bytes → ℕ → Type 0) (review : Bytes → Bytes → Review)
      (at : Instants) (c : RuleSetCache) (ss : List Section) (r : Request)
      → All (IsRequest Grants) ss
      → HasNoColon (token_of r)
      → Honest Grants
          (token_of r)
          (audience_of (key_of r))
          (review (token_of r) (audience_of (key_of r)))
          at.reviewed_at
      → (handle_rules enc review at c (interleave new_token_authenticator ss) r).0.status ≡ 200
      → (account : AuthResult) × (name : Bytes) × (when : ℕ) × (key_of r
          ≡ account.namespace ++ b'/' ∷ name)
        × Grants (token_of r) (audience_of (key_of r)) (username_of account) when
        × ((when ≡ at.reviewed_at) ⊎ (at.checked < when + default_auth_cache_ttl))
  handle_rules_sound Grants review at c ss r rs n honest h =
      let (_, m, _) = handle_rules_ok review at c (interleave new_token_authenticator ss) r h in
      let (when, confirmed, recent) =
        authenticate_sound Grants review ss (token_of r) (audience_of (key_of r)) at m.account rs n
          honest m.authentic in
      let named = ((parse_iff confirmed.username m.account).0 confirmed.parsed).0 in
      (
        m.account,
        m.name,
        when,
        m.in_namespace,
        subst (λ u. Grants (token_of r) (audience_of (key_of r)) u when) named confirmed.granted,
        recent,
      )
