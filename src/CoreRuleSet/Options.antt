-- ===== src/CoreRuleSet/Options.antt =====
-- tools/corerulesetgen/generate.go: Options, with the results of fallible functions and the files that
-- the generator reads. A map that is used as a set is a list of its keys, where one may
-- stand twice, and nil is `none`.
use coraza_kubernetes_operat.Prelude.{
  Bool, false, List, [], ◌∷◌, ◌++◌, Option, none, some, any, ◌≡◌, refl,
}
use coraza_kubernetes_operat.Prelude.Bytes.{Bytes, bytes_eq}
use coraza_kubernetes_operat.Controller.Errors.{GoError, plain_error}

pub data Outcome {ℓ} (A : Type ℓ) : Type ℓ where
  ok : A → Outcome A
  err : GoError → Outcome A

-- The usual `if err != nil { return err }`.
infixl 5 ◌>>=◌
abbrev pub ◌>>=◌ {ℓ κ} : {A : Type ℓ} {B : Type κ} → Outcome A → (A → Outcome B) → Outcome B
err failure >>= next = err failure
ok value >>= next = next value

-- A chain succeeds where its first call does, and the rest on the value.
pub >>=-eq-ok :
    {A B : Type 0} (first : Outcome A) (next : A → Outcome B) {result : B}
    → (first >>= next) ≡ ok result
    → (value : A) × (first ≡ ok value) × (next value ≡ ok result)
>>=-eq-ok (err failure) next returned = absurd (cc returned)
>>=-eq-ok (ok value) next returned = (value, refl, returned)

abbrev pub StringSet : Type 0
StringSet = Option (List Bytes)

-- _, found := set[key]
abbrev pub in_set : StringSet → Bytes → Bool
in_set none key = false
in_set (some keys) key = any (bytes_eq key) keys

-- The parts of a text that fmt.Sprintf puts together.
abbrev pub concat : List Bytes → Bytes
concat [] = []
concat (s ∷ parts) = s ++ concat parts

-- fmt.Errorf without a wrapped error.
abbrev pub errorf {ℓ} : {A : Type ℓ} → List Bytes → Outcome A
errorf parts = err (plain_error (concat parts))

pub record Options : Type 0 where
  pub rules_dir : Bytes
  pub version : Bytes
  pub ignore_rule_ids : StringSet
  pub ignore_pm_from_file : Bool
  pub include_test_rule : Bool
  pub rule_set_name : Bytes
  pub namespace : Bytes
  pub data_source_name : Bytes
  pub name_prefix : Bytes
  pub name_suffix : Bytes
  pub dry_run : Bool
  pub skip_size_check : Bool
  pub ignore_unsupported_rules : Bytes
  pub auto_ignored_ids : StringSet

-- The file system, %q of package fmt, and the names that Kubernetes accepts: the messages of
-- validation.IsDNS1123Subdomain, IsDNS1123Label and IsConfigMapKey.
pub record Host : Type 0 where
  pub read_file : Bytes → Outcome Bytes
  pub glob : Bytes → Outcome (List Bytes)
  pub stat_is_dir : Bytes → Outcome Bool
  pub quote : Bytes → Bytes
  pub is_dns1123_subdomain : Bytes → List Bytes
  pub is_dns1123_label : Bytes → List Bytes
  pub is_config_map_key : Bytes → List Bytes
