-- ===== src/Controller/Tokens/Validity.antt =====
-- When tokens are renewed and removed.
use coraza_kubernetes_operat.Prelude.{
  ℕ, ◌+◌, ◌*◌, ◌≡◌, ◌≤◌, ◌<◌, ◌⊎◌, inl, inr, arith, Bool, true, false, not, Option, none, some, [],
  refl, sym, subst, ◌∙◌, ltb, if◌then◌else◌, ap,
}
use coraza_kubernetes_operat.Prelude.Bytes.{Bytes}
use coraza_kubernetes_operat.Prelude.Assoc.{Assoc, lookup}
use coraza_kubernetes_operat.Controller.Tokens.{
  TokenEntry, TokenCall, Created, created, refused, TokenResult, has_token, no_token,
  renewal_deadline, needs_renewal, ensure_cache_token, cached_or, new_token, token_key,
  rule_set_key,
}
use coraza_kubernetes_operat.Cache.Auth.{audience_of}

-- A token that does not expire before it is issued is renewed when four fifths of its lifetime are
-- over, rounded down, and so not after it expires.
pub renewal_deadline_bounds :
    (e : TokenEntry)
    → e.issued_at ≤ e.expires_at
    → (e.issued_at ≤ renewal_deadline e)
      × (renewal_deadline e ≤ e.expires_at)
      × (5 * renewal_deadline e ≤ e.issued_at + 4 * e.expires_at)
      × (e.issued_at + 4 * e.expires_at < 5 * renewal_deadline e + 5)
unfolding renewal_deadline
renewal_deadline_bounds e h = ground (arith, h)

abbrev token_of : TokenResult → Bytes
token_of (has_token t deadline) = t
token_of (no_token e) = []

abbrev deadline_of : TokenResult → ℕ
deadline_of (has_token t deadline) = deadline
deadline_of (no_token e) = 0

not-ltb : (now deadline : ℕ) → not (ltb now deadline) ≡ false → now < deadline
not-ltb now deadline h = ground arith

-- What ensureCacheToken returns is usable at once: either the API has just issued it, or it was
-- stored under the key of the engine and its rule set, and its renewal deadline is still ahead of the
-- clock.
pub ensure_cache_token_usable :
    (create : Bytes → Bytes → Created) (c : TokenCall) (store : Assoc TokenEntry) (t : Bytes)
    (deadline : ℕ)
    → (ensure_cache_token create c store).0 ≡ has_token t deadline
    → ((expires : ℕ) × (create c.sa_name (audience_of (rule_set_key c)) ≡ created t expires)
        × (deadline
            ≡ renewal_deadline (record { token = t; issued_at = c.issued; expires_at = expires })))
      ⊎ ((e : TokenEntry) × (lookup (token_key c) store ≡ some e)
          × (e.token ≡ t)
          × (deadline ≡ renewal_deadline e)
          × (c.checked < deadline))
unfolding ensure_cache_token needs_renewal
ensure_cache_token_usable create c store t deadline =
    go (lookup (token_key c) store) (create c.sa_name (audience_of (rule_set_key c))) refl refl
  where
    Usable : Type 0
    Usable =
        ((expires : ℕ) × (create c.sa_name (audience_of (rule_set_key c)) ≡ created t expires)
          × (deadline
              ≡ renewal_deadline
                  (record { token = t; issued_at = c.issued; expires_at = expires })))
        ⊎ ((e : TokenEntry) × (lookup (token_key c) store ≡ some e)
            × (e.token ≡ t)
            × (deadline ≡ renewal_deadline e)
            × (c.checked < deadline))

    fresh :
        (answer : Created)
        → create c.sa_name (audience_of (rule_set_key c)) ≡ answer
        → (new_token c answer store).0 ≡ has_token t deadline
        → Usable
    fresh (refused e) q h = absurd (ground (arith, h))
    fresh (created u expires) q h =
        let same : u ≡ t = ap token_of h in
        inl (
          expires,
          q ∙ ap (λ v. created v expires) same,
          sym (ap deadline_of h)
              ∙ ap
                  (λ v.
                    renewal_deadline
                      (record { token = v; issued_at = c.issued; expires_at = expires }))
                  same,
        )

    go :
        (o : Option TokenEntry) (answer : Created)
        → lookup (token_key c) store ≡ o
        → create c.sa_name (audience_of (rule_set_key c)) ≡ answer
        → (cached_or c o answer store).0 ≡ has_token t deadline
        → Usable
    go none answer l q h = fresh answer q h
    go (some e) answer l q h = choose (needs_renewal c.checked e) refl h
      where
        choose :
            (b : Bool)
            → needs_renewal c.checked e ≡ b
            → (if b
                then new_token c answer store
                else (has_token e.token (renewal_deadline e), store)).0
              ≡ has_token t deadline
            → Usable
        choose true n h = fresh answer q h
        choose false n h =
            let same : renewal_deadline e ≡ deadline = ap deadline_of h in
            inr (e, l, ap token_of h, sym same, subst (λ d. c.checked < d) same (not-ltb _ _ n))
