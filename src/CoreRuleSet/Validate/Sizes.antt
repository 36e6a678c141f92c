-- ===== src/CoreRuleSet/Validate/Sizes.antt =====
-- The size checks.
use coraza_kubernetes_operat.Prelude.{
  ℕ, ◌+◌, ◌≤◌, Bool, true, false, [], ◌∷◌, ◌≡◌, ◌↔◌, refl, sym, ap, ◌∙◌, arith, sum_of, length, ltb,
  ltb→lt, Bool-cases, inl, inr, ◌⊎◌,
}
use coraza_kubernetes_operat.Prelude.Bytes.{Bytes}
use coraza_kubernetes_operat.Prelude.Assoc.{Assoc}
use coraza_kubernetes_operat.CoreRuleSet.Options.{Outcome, ok, err, ◌>>=◌, Options, Host}
use coraza_kubernetes_operat.CoreRuleSet.Validate.{
  max_rules_payload_bytes, max_data_files_total_bytes, total_size, check_total,
  check_rule_data_size,
}

-- The bytes of all the values.
abbrev pub values_size : Assoc Bytes → ℕ
values_size = sum_of (λ (p : Bytes × Bytes). length p.1)

module _ (host : Host) (source_name : Bytes) where
  total_size-small :
      (entries : Assoc Bytes) (total : ℕ)
      → total + values_size entries ≤ max_data_files_total_bytes
      → total_size host source_name entries total ≡ ok (total + values_size entries)
  unfolding total_size
  total_size-small [] total h = ap ok (omega arith)
  total_size-small ((k, v) ∷ entries) total h =
      let ih = total_size-small entries (total + length v) (omega (arith, h)) in
      elim (Bool-cases (ltb max_rules_payload_bytes (length v))) [
        | inl e ↦ absurd (omega (arith, h, ltb→lt max_rules_payload_bytes (length v) e))
        | inr e ↦ rw e (ih ∙ ap ok (omega arith))
      ]

  total_size-ok :
      (entries : Assoc Bytes) (total : ℕ) {n : ℕ}
      → total_size host source_name entries total ≡ ok n
      → n ≡ total + values_size entries
  unfolding total_size
  total_size-ok [] total h = ground (arith, h)
  total_size-ok ((k, v) ∷ entries) total h =
      elim (Bool-cases (ltb max_rules_payload_bytes (length v))) [
        | inl e ↦ absurd (cc (rw e at h))
        | inr e ↦ omega (arith, total_size-ok entries (total + length v) (rw e at h))
      ]

  check_total_iff :
      (n : ℕ) → (check_total host source_name n ≡ ok tt) ↔ (n ≤ max_data_files_total_bytes)
  check_total_iff n = elim (Bool-cases (ltb max_data_files_total_bytes n)) [
    | inl e ↦ (
      λ h. absurd (cc (rw e at h)),
      λ h. absurd (omega (arith, h, ltb→lt max_data_files_total_bytes n e)),
    )
    | inr e ↦ (λ h. ground (arith, e), λ h. rw e)
  ]

  accepted-small :
      (entries : Assoc Bytes) (size : Outcome ℕ)
      → total_size host source_name entries 0 ≡ size
      → (size >>= check_total host source_name) ≡ ok tt
      → values_size entries ≤ max_data_files_total_bytes
  accepted-small entries (ok n) e h =
      omega (arith, total_size-ok entries 0 e, (check_total_iff n).0 h)
  accepted-small entries (err x) e h = absurd (cc h)

  small-accepted :
      (entries : Assoc Bytes)
      → values_size entries ≤ max_data_files_total_bytes
      → (total_size host source_name entries 0 >>= check_total host source_name) ≡ ok tt
  small-accepted entries h =
      rw (total_size-small entries 0 (omega (arith, h)))
        ((check_total_iff (0 + values_size entries)).1 (omega (arith, h)))

-- checkRuleDataSize accepts exactly the data whose values have at most 900 KiB together, in whatever order
-- the map is read; with --skip-size-check it accepts all data.
pub check_rule_data_size_iff :
    (host : Host) (source_name : Bytes) (entries : Assoc Bytes) (opts : Options)
    → (check_rule_data_size host source_name entries opts ≡ ok tt)
      ↔ ((opts.skip_size_check ≡ true) ⊎ (values_size entries ≤ max_data_files_total_bytes))
unfolding check_rule_data_size
check_rule_data_size_iff host source_name entries opts = by_flag opts.skip_size_check refl
  where
    by_flag :
        (b : Bool)
        → opts.skip_size_check ≡ b
        → (check_rule_data_size host source_name entries opts ≡ ok tt)
          ↔ ((opts.skip_size_check ≡ true) ⊎ (values_size entries ≤ max_data_files_total_bytes))
    by_flag true e = (λ h. inl e, λ h. rw e)
    by_flag false e = (
      λ h. inr (accepted-small host source_name entries _ refl (rw e at h)),
      λ h. rw e (elim h [
        | inl t ↦ absurd (cc (sym t ∙ e))
        | inr l ↦ small-accepted host source_name entries l
      ]),
    )
