-- ===== src/Controller/Tokens/Examples.antt =====
-- Tests of the token store, and its theorems at a concrete input.
use coraza_kubernetes_operat.Prelude.{ℕ, ◌<◌, ◌≡◌, ◌⊎◌, refl, sym, ap, some, [], ◌∷◌, ◌++◌}
use coraza_kubernetes_operat.Prelude.Bytes.{Bytes, bytes}
use coraza_kubernetes_operat.Prelude.Assoc.{lookup}
use coraza_kubernetes_operat.Cache.Auth.{audience_of}
use coraza_kubernetes_operat.Controller.Tokens.{
  TokenEntry, TokenCall, Created, created, refused, has_token, renewal_deadline, needs_renewal,
  ensure_cache_token, prune_expired_tokens, token_key, rule_set_key,
}
use coraza_kubernetes_operat.Controller.Tokens.Validity.{ensure_cache_token_usable}
use coraza_kubernetes_operat.Controller.Tokens.Origin.{Honest, ensure_all, ensure_cache_token_sound}

abbrev entry : TokenEntry
entry = record { token = bytes "t"; issued_at = 100; expires_at = 160 }

-- The token names the account and the audience.
abbrev create : Bytes → Bytes → Created
create sa audience = created (sa ++ audience) 160

abbrev call : ℕ → TokenCall
call now = record {
  namespace = bytes "ns";
  engine = bytes "waf";
  rule_set = bytes "crs";
  sa_name = bytes "sa-1";
  checked = now;
  issued = now;
  pruned = now;
}

abbrev first_token : Bytes
first_token = bytes "sa-1coraza-cache:ns/crs"

-- The second call finds the token of the first, and a call after the deadline asks for another.
reused :
    ((ensure_cache_token create (call 110) (ensure_cache_token create (call 100) []).1).0
      ≡ has_token first_token 148)
    × ((ensure_cache_token create (call 150) (ensure_cache_token create (call 100) []).1).0
        ≡ has_token first_token 158)
unfolding ensure_cache_token needs_renewal renewal_deadline prune_expired_tokens token_key
    audience_of
reused = (refl, refl)

ensure_cache_token_usable_example :
    ((expires : ℕ) × (create (bytes "sa-1") (audience_of (rule_set_key (call 100)))
        ≡ created first_token expires)
      × (148
          ≡ renewal_deadline
              (record { token = first_token; issued_at = 100; expires_at = expires })))
    ⊎ ((e : TokenEntry) × (lookup (token_key (call 100)) [] ≡ some e)
        × (e.token ≡ first_token)
        × (148 ≡ renewal_deadline e)
        × (100 < 148))
unfolding ensure_cache_token needs_renewal renewal_deadline prune_expired_tokens token_key
    audience_of
ensure_cache_token_usable_example =
    ensure_cache_token_usable create (call 100) [] first_token 148 refl

abbrev IssuedFor : Bytes → Bytes → Bytes → Bytes → Type 0
IssuedFor ns engine rules token = token ≡ bytes "sa-1" ++ audience_of (ns ++ b'/' ∷ rules)

abbrev token_in : Created → Bytes
token_in (created t expires) = t
token_in (refused e) = []

ensure_cache_token_sound_example : IssuedFor (bytes "ns") (bytes "waf") (bytes "crs") first_token
unfolding ensure_cache_token needs_renewal renewal_deadline prune_expired_tokens token_key
    audience_of ensure_all
ensure_cache_token_sound_example =
    ensure_cache_token_sound IssuedFor ((call 100, create) ∷ []) create (call 110) first_token 148
      (honest 100, tt) (honest 110) refl
  where
    honest : (now : ℕ) → Honest IssuedFor (call now, create)
    honest now = (
      record { no_slash_in_namespace = refl; no_slash_in_engine = refl },
      λ t expires e. ap token_in (sym e),
    )
