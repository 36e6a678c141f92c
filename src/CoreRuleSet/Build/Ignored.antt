-- ===== src/CoreRuleSet/Build/Ignored.antt =====
-- The rule IDs that Build ignores.
use coraza_kubernetes_operat.Prelude.{
  ℕ, Bool, true, false, not, ◌&&◌, ◌||◌, List, [], ◌∷◌, ◌≡◌, refl, sym, ap, ◌∙◌, any, any-append,
  none, some, map, select, Bool-cases, inl, inr,
}
use coraza_kubernetes_operat.Prelude.Bytes.{Bytes, bytes_eq, bytes_eq_iff}
use coraza_kubernetes_operat.RuleSets.Unsupported.Decimal.{decimal}
use coraza_kubernetes_operat.CoreRuleSet.Options.{StringSet, in_set, Options}
use coraza_kubernetes_operat.CoreRuleSet.Build.{
  keys_of, merge_ids, merge_unsupported_ids, unsupported_ids_for_profile,
}

-- The profile of the options has the rule ID.
abbrev pub in_profile : Options → Bytes → Bool
in_profile opts key =
    any (bytes_eq key) (map decimal (unsupported_ids_for_profile opts.ignore_unsupported_rules))

or_false : (a : Bool) → (a || false) ≡ a
or_false true = refl
or_false false = refl

and_false : (r : Bool) → (r && false) ≡ false
and_false true = refl
and_false false = refl

kept_out : (a r k : Bool) → (a ≡ true → k ≡ true) → (r && not k) ≡ ((a || r) && not k)
kept_out true r k h = rw (h refl) (and_false r)
kept_out false r k h = refl

kept_in : (a r k : Bool) → (a ≡ true → k ≡ false) → (a || (r && not k)) ≡ ((a || r) && not k)
kept_in true r k h = rw (h refl)
kept_in false r k h = refl

in_set-keys_of : (ids : StringSet) (key : Bytes) → any (bytes_eq key) (keys_of ids) ≡ in_set ids key
in_set-keys_of none key = refl
in_set-keys_of (some keys) key = refl

any-select_absent :
    (ids : StringSet) (key : Bytes) (l : List Bytes)
    → any (bytes_eq key) (select (λ sid. not (in_set ids sid)) l)
      ≡ (any (bytes_eq key) l && not (in_set ids key))
any-select_absent ids key [] = refl
any-select_absent ids key (s ∷ l) =
    absent (any-select_absent ids key l) (λ e. ap (in_set ids) ((bytes_eq_iff key s).0 e))
  where
    absent :
        any (bytes_eq key) (select (λ sid. not (in_set ids sid)) l)
          ≡ (any (bytes_eq key) l && not (in_set ids key))
        → (bytes_eq key s ≡ true → in_set ids key ≡ in_set ids s)
        → any (bytes_eq key) (select (λ sid. not (in_set ids sid)) (s ∷ l))
          ≡ ((bytes_eq key s || any (bytes_eq key) l) && not (in_set ids key))
    absent ih same = elim (Bool-cases (in_set ids s)) [
      | inl i ↦ rw (i, ih) (kept_out (bytes_eq key s) _ (in_set ids key) (λ e. same e ∙ i))
      | inr i ↦ rw (i, ih) (kept_in (bytes_eq key s) _ (in_set ids key) (λ e. same e ∙ i))
    ]

abbrev pub Merged : Options → Bytes → Options → Bool → Type 0
Merged opts key merged profiled =
    (in_set merged.ignore_rule_ids key ≡ (in_set opts.ignore_rule_ids key || profiled))
    × (in_set merged.auto_ignored_ids key ≡ (profiled && not (in_set opts.ignore_rule_ids key)))

merge_ids-Merged :
    (opts : Options) (key : Bytes) (ids : List ℕ)
    → Merged opts key (merge_ids opts ids) (any (bytes_eq key) (map decimal ids))
unfolding merge_ids
merge_ids-Merged opts key [] = (sym (or_false (in_set opts.ignore_rule_ids key)), refl)
merge_ids-Merged opts key (id ∷ ids) = (
  any-append (bytes_eq key) (keys_of opts.ignore_rule_ids) (map decimal (id ∷ ids))
      ∙ ap (λ t. t || any (bytes_eq key) (map decimal (id ∷ ids)))
          (in_set-keys_of opts.ignore_rule_ids key),
  any-select_absent opts.ignore_rule_ids key (map decimal (id ∷ ids)),
)

-- The effective rule IDs to ignore are those of the user and those of the profile, and the IDs that
-- count as ignored by the profile are those of it that the user did not name.
pub merge_unsupported_ids_exact :
    (opts : Options) (key : Bytes)
    → Merged opts key (merge_unsupported_ids opts) (in_profile opts key)
unfolding merge_unsupported_ids
merge_unsupported_ids_exact opts key =
    merge_ids-Merged opts key (unsupported_ids_for_profile opts.ignore_unsupported_rules)
