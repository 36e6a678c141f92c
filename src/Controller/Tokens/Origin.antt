-- ===== src/Controller/Tokens/Origin.antt =====
-- Whom a token was issued for.
use coraza_kubernetes_operat.Prelude.{
  ℕ, ◌≡◌, inl, inr, arith, false, Bool-cases, Option, none, some, List, [], ◌∷◌, ◌++◌, refl, sym,
  ap, ◌∙◌, subst, All,
}
use coraza_kubernetes_operat.Prelude.Bytes.{Bytes, cut_byte, cut_byte-append}
use coraza_kubernetes_operat.Prelude.Assoc.{Assoc, lookup, All-insert, All-lookup}
use coraza_kubernetes_operat.Controller.Errors.{slash, has_slash}
use coraza_kubernetes_operat.Controller.Tokens.{
  TokenEntry, TokenCall, Created, created, refused, has_token, ensure_cache_token,
  prune_expired_tokens, cached_or, new_token, token_key, rule_set_key, needs_renewal,
}
use coraza_kubernetes_operat.Controller.Tokens.Validity.{ensure_cache_token_usable}
use coraza_kubernetes_operat.Cache.Auth.{audience_of}

-- Names of namespaces and Engines.
pub record HasNames (c : TokenCall) : Type 0 where
  pub no_slash_in_namespace : has_slash c.namespace ≡ false
  pub no_slash_in_engine : has_slash c.engine ≡ false

-- Calls that share a key are for the same engine and rule set.
token_key-injective :
    (c d : TokenCall)
    → HasNames c
    → HasNames d
    → token_key c ≡ token_key d
    → (c.namespace ≡ d.namespace) × (c.engine ≡ d.engine) × (c.rule_set ≡ d.rule_set)
unfolding token_key
token_key-injective c d hc hd h =
    let first = pair_injective (
      sym (
        cut_byte-append slash c.namespace (c.engine ++ slash ∷ c.rule_set) hc.no_slash_in_namespace)
      ∙ (ap (cut_byte slash) h
          ∙ cut_byte-append slash d.namespace (d.engine ++ slash ∷ d.rule_set)
              hd.no_slash_in_namespace)) in
    let second = pair_injective (
      sym (cut_byte-append slash c.engine c.rule_set hc.no_slash_in_engine)
      ∙ (ap (cut_byte slash) first.1
          ∙ cut_byte-append slash d.engine d.rule_set hd.no_slash_in_engine)) in
    (first.0, second.0, second.1)
  where
    left : Option (Bytes × Bytes) → Bytes
    left none = []
    left (some p) = p.0

    right : Option (Bytes × Bytes) → Bytes
    right none = []
    right (some p) = p.1

    pair_injective :
        {a b x y : Bytes}
        → ◌≡◌ {A = Option (Bytes × Bytes)} (some (a, b)) (some (x, y))
        → (a ≡ x) × (b ≡ y)
    pair_injective h = (ap left h, ap right h)

-- `Issued` holds of the namespace, the engine, the rule set and the token.
module _ (Issued : Bytes → Bytes → Bytes → Bytes → Type 0) where
  -- The token was issued for the engine and the audience of the rule set that the key names.
  pub Stored : Bytes × TokenEntry → Type 0
  Stored (key, e) =
      (c : TokenCall) × HasNames c
      × (token_key c ≡ key)
      × Issued c.namespace c.engine c.rule_set e.token

  prune-Stored :
      (now : ℕ) (store : Assoc TokenEntry)
      → All Stored store
      → All Stored (prune_expired_tokens now store)
  unfolding prune_expired_tokens
  prune-Stored now [] h = tt
  prune-Stored now ((k, e) ∷ store) h = ground (arith, prune-Stored now store h.1, h)

  -- The API answers this call with a token for the engine and the audience of the rule set.
  abbrev pub Honest : TokenCall × (Bytes → Bytes → Created) → Type 0
  Honest (c, create) =
      HasNames c
      × ((t : Bytes) (expires : ℕ)
          → create c.sa_name (audience_of (rule_set_key c)) ≡ created t expires
          → Issued c.namespace c.engine c.rule_set t)

  new_token-Stored :
      (c : TokenCall) (answer : Created) (store : Assoc TokenEntry)
      → HasNames c
      → ((t : Bytes) (expires : ℕ)
          → answer ≡ created t expires
          → Issued c.namespace c.engine c.rule_set t)
      → All Stored store
      → All Stored (new_token c answer store).1
  unfolding Stored
  new_token-Stored c (refused e) store n h all = all
  new_token-Stored c (created t expires) store n h all =
      prune-Stored c.pruned _
        (All-insert Stored (token_key c) _ store (c, n, refl, h t expires refl) all)

  ensure_cache_token-Stored :
      (create : Bytes → Bytes → Created) (c : TokenCall) (store : Assoc TokenEntry)
      → Honest (c, create)
      → All Stored store
      → All Stored (ensure_cache_token create c store).1
  unfolding ensure_cache_token
  ensure_cache_token-Stored create c store (n, h) all = go (lookup (token_key c) store)
    where
      answer : Created
      answer = create c.sa_name (audience_of (rule_set_key c))

      fresh : All Stored (new_token c answer store).1
      fresh = new_token-Stored c answer store n h all

      go : (o : Option TokenEntry) → All Stored (cached_or c o answer store).1
      go none = fresh
      go (some e) = elim (Bool-cases (needs_renewal c.checked e)) [
        | inl r ↦ rw r fresh
        | inr r ↦ rw r all
      ]

-- Calls in sequence, each with the answers that the API would give it.
unfoldable pub ensure_all :
    List (TokenCall × (Bytes → Bytes → Created)) → Assoc TokenEntry → Assoc TokenEntry
ensure_all [] store = store
ensure_all ((c, create) ∷ calls) store = ensure_all calls (ensure_cache_token create c store).1

module _ (Issued : Bytes → Bytes → Bytes → Bytes → Type 0) where
  ensure_all-Stored :
      (calls : List (TokenCall × (Bytes → Bytes → Created))) (store : Assoc TokenEntry)
      → All (Honest Issued) calls
      → All (Stored Issued) store
      → All (Stored Issued) (ensure_all calls store)
  unfolding ensure_all
  ensure_all-Stored [] store h all = all
  ensure_all-Stored ((c, create) ∷ calls) store (h, hs) all =
      ensure_all-Stored calls _ hs (ensure_cache_token-Stored Issued create c store h all)

  -- After any sequence of calls for engines whose names and namespaces have no slash, a token that a
  -- call returns is one that the API issued, in this call or an earlier one, for the same engine and
  -- for the audience of the same rule set: no engine gets the token of another, nor keeps a token
  -- when its rule set changes.
  pub ensure_cache_token_sound :
      (calls : List (TokenCall × (Bytes → Bytes → Created))) (create : Bytes → Bytes → Created)
      (c : TokenCall) (t : Bytes) (deadline : ℕ)
      → All (Honest Issued) calls
      → Honest Issued (c, create)
      → (ensure_cache_token create c (ensure_all calls [])).0 ≡ has_token t deadline
      → Issued c.namespace c.engine c.rule_set t
  unfolding ensure_all Stored
  ensure_cache_token_sound calls create c t deadline hs (n, h) e =
      elim (ensure_cache_token_usable create c (ensure_all calls []) t deadline e) [
        | inl (expires, q, _) ↦ h t expires q
        | inr (entry, found, same, _, _) ↦ stored entry same (
            All-lookup (Stored Issued) (token_key c) entry _ (ensure_all-Stored calls [] hs tt)
              found)
      ]
    where
      stored :
          (entry : TokenEntry)
          → entry.token ≡ t
          → Stored Issued (token_key c, entry)
          → Issued c.namespace c.engine c.rule_set t
      stored entry same (d, nd, key, issued) =
          let (ns, engine, rules) = token_key-injective d c nd n key in
          subst (λ v. Issued c.namespace c.engine c.rule_set v) same
            (subst (λ v. Issued c.namespace c.engine v entry.token) rules
              (subst (λ v. Issued c.namespace v d.rule_set entry.token) engine
                (subst (λ v. Issued v d.engine d.rule_set entry.token) ns issued)))
