-- ===== src/RuleSets/Unsupported/Decimal.antt =====
-- %d of package fmt, for a number that is not negative.
use coraza_kubernetes_operat.Prelude.{
  ℕ, zero, suc, ◌+◌, ◌/◌, ◌%◌, ◌*◌, ◌-◌, ◌<◌, ◌≡◌, ◌∙◌, ap, arith, inl, inr, Bool-cases, [], ◌∷◌,
  ltb, if◌then◌else◌,
}
use coraza_kubernetes_operat.Prelude.Bytes.{Bytes}

-- The digits of `n` in front of `acc`; a number has at most `n + 1` of them.
abbrev decimal_onto : ℕ → ℕ → Bytes → Bytes
decimal_onto zero n acc = acc
decimal_onto (suc fuel) n acc =
    let rest = decimal_onto fuel (n / 10) ((b'0' + n % 10) ∷ acc) in
    if ltb n 10 then (b'0' + n) ∷ acc else rest

unfoldable pub decimal : ℕ → Bytes
decimal n = decimal_onto (n + 1) n []

-- The number that decimal digits write after the number `v`.
abbrev pub number_after : ℕ → Bytes → ℕ
number_after v [] = v
number_after v (c ∷ cs) = number_after (v * 10 + (c - b'0')) cs

number_after-decimal_onto :
    (fuel n : ℕ) (acc : Bytes)
    → n < fuel
    → number_after 0 (decimal_onto fuel n acc) ≡ number_after n acc
number_after-decimal_onto zero n acc h = absurd (omega (arith, h))
number_after-decimal_onto (suc fuel) n acc h = elim (Bool-cases (ltb n 10)) [
  | inl t ↦ rw t (ap (λ v. number_after v acc) (omega arith))
  | inr f ↦ rw f (
      number_after-decimal_onto fuel (n / 10) _ (ground (arith, f, h))
      ∙ ap (λ v. number_after v acc) (omega arith))
]

-- The digits of a number, for which there is enough fuel, write that number.
pub number_after-decimal : (n : ℕ) → number_after 0 (decimal n) ≡ n
unfolding decimal
number_after-decimal n = number_after-decimal_onto (n + 1) n [] (omega arith)
