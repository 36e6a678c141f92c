-- ===== src/CoreRuleSet/Validate/Names.antt =====
-- The names of RuleSources that are made from file names.
use coraza_kubernetes_operat.Prelude.{
  ℕ, Bool, true, false, not, [], ◌∷◌, ◌≡◌, refl, subst, arith, all, select, Bool-cases, inl, inr,
}
use coraza_kubernetes_operat.Prelude.Bytes.{Bytes, bytes}
use coraza_kubernetes_operat.CoreRuleSet.Strings.{
  is_empty, replace_byte, to_lower, trim_suffix, trim_left, trim_right,
}
use coraza_kubernetes_operat.CoreRuleSet.Options.{ok}
use coraza_kubernetes_operat.CoreRuleSet.Validate.{
  is_name_byte, is_edge, sanitized_name, generate_rule_source_name,
}

-- The first byte passes the test, where there is one, and so for the last.
abbrev pub first_is : (ℕ → Bool) → Bytes → Bool
first_is p [] = true
first_is p (c ∷ s) = p c

abbrev pub last_is : (ℕ → Bool) → Bytes → Bool
last_is p [] = true
last_is p (c ∷ []) = p c
last_is p (c ∷ d ∷ s) = last_is p (d ∷ s)

all-select : (p : ℕ → Bool) (s : Bytes) → all p (select p s) ≡ true
all-select p [] = refl
all-select p (c ∷ s) = ground (arith, all-select p s)

module _ (edge : ℕ → Bool) where
  all-trim_left : (p : ℕ → Bool) (s : Bytes) → all p s ≡ true → all p (trim_left edge s) ≡ true
  all-trim_left p [] h = refl
  all-trim_left p (c ∷ s) h = ground (arith, h, all-trim_left p s)

  all-trim_right : (p : ℕ → Bool) (s : Bytes) → all p s ≡ true → all p (trim_right edge s) ≡ true
  all-trim_right p [] h = refl
  all-trim_right p (c ∷ s) h = ground (arith, h, all-trim_right p s)

  first-trim_left : (s : Bytes) → first_is (λ c. not (edge c)) (trim_left edge s) ≡ true
  first-trim_left [] = refl
  first-trim_left (c ∷ s) = ground (arith, first-trim_left s)

  first-trim_right :
      (p : ℕ → Bool) (s : Bytes) → first_is p s ≡ true → first_is p (trim_right edge s) ≡ true
  first-trim_right p [] h = refl
  first-trim_right p (c ∷ s) h = ground (arith, h)

  last-cons :
      (c : ℕ) (s t : Bytes)
      → trim_right edge s ≡ t
      → last_is (λ c. not (edge c)) t ≡ true
      → last_is (λ c. not (edge c)) (trim_right edge (c ∷ s)) ≡ true
  last-cons c s [] e h = rw e (ground arith)
  last-cons c s (d ∷ t) e h = rw e (ground (arith, h))

  last-trim_right : (s : Bytes) → last_is (λ c. not (edge c)) (trim_right edge s) ≡ true
  last-trim_right [] = refl
  last-trim_right (c ∷ s) = last-cons c s (trim_right edge s) refl (last-trim_right s)

-- What generateRuleSourceName promises of a name.
pub record IsSourceName (name : Bytes) : Type 0 where
  pub filled : is_empty name ≡ false
  pub allowed : all is_name_byte name ≡ true
  pub starts : first_is (λ c. not (is_edge c)) name ≡ true
  pub ends : last_is (λ c. not (is_edge c)) name ≡ true

trimmed-IsSourceName :
    (s : Bytes)
    → is_empty (trim_right is_edge (trim_left is_edge (select is_name_byte s))) ≡ false
    → IsSourceName (trim_right is_edge (trim_left is_edge (select is_name_byte s)))
trimmed-IsSourceName s e =
    let allowed = select is_name_byte s in
    let left = trim_left is_edge allowed in
    record {
      filled = e;
      allowed =
          all-trim_right is_edge is_name_byte left
            (all-trim_left is_edge is_name_byte allowed (all-select is_name_byte s));
      starts =
          first-trim_right is_edge (λ c. not (is_edge c)) left (first-trim_left is_edge allowed);
      ends = last-trim_right is_edge left;
    }

sanitized_name-IsSourceName :
    (file_base : Bytes)
    → is_empty (sanitized_name file_base) ≡ false
    → IsSourceName (sanitized_name file_base)
unfolding sanitized_name
sanitized_name-IsSourceName file_base =
    trimmed-IsSourceName
      (replace_byte b'_' (bytes "-") (to_lower (trim_suffix file_base (bytes ".conf"))))

-- A name that generateRuleSourceName returns is not empty, has only lower case letters, digits, dots and
-- dashes, and neither starts nor ends with a dot or a dash.
pub generate_rule_source_name-IsSourceName :
    (file_base : Bytes) {name : Bytes}
    → generate_rule_source_name file_base ≡ ok name
    → IsSourceName name
unfolding generate_rule_source_name
generate_rule_source_name-IsSourceName file_base h =
    elim (Bool-cases (is_empty (sanitized_name file_base))) [
      | inl e ↦ absurd (ground (arith, rw e at h))
      | inr e ↦
          subst IsSourceName (ground (arith, rw e at h)) (sanitized_name-IsSourceName file_base e)
    ]
