-- ===== src/Cache/Auth/Keys.antt =====
-- The keys of the authentication cache.
use mathlib.Core.List.{append_assoc}
use coraza_kubernetes_operat.Prelude.{◌≡◌, sym, ap, ◌∙◌, ◌∷◌, ◌++◌, Option, some, arith}
use coraza_kubernetes_operat.Prelude.Bytes.{Bytes, cut_byte, cut_byte-append}
use coraza_kubernetes_operat.Cache.Auth.{cache_key_of}
use coraza_kubernetes_operat.Cache.Auth.Username.{HasNoColon}

-- Tokens without a colon share a key only if both the tokens and the audiences are the same.
pub cache_key_of-injective :
    (t u a b : Bytes)
    → HasNoColon t
    → HasNoColon u
    → cache_key_of t a ≡ cache_key_of u b
    → (t ≡ u) × (a ≡ b)
unfolding cache_key_of
cache_key_of-injective t u a b ht hu e = (ground (arith, same), ground (arith, same))
  where
    same : ◌≡◌ {A = Option (Bytes × Bytes)} (some (t, a)) (some (u, b))
    same = sym (cut_byte-append b':' t a ht) ∙ ap (cut_byte b':') e ∙ cut_byte-append b':' u b hu

-- A colon in the token moves the border: two different pairs share a key.
pub cache_key_of_shared :
    (t a b : Bytes) → cache_key_of (t ++ b':' ∷ a) b ≡ cache_key_of t (a ++ b':' ∷ b)
unfolding cache_key_of
cache_key_of_shared t a b = append_assoc t (b':' ∷ a) (b':' ∷ b)
