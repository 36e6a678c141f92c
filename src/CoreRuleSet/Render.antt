-- ===== src/CoreRuleSet/Render.antt =====
-- tools/corerulesetgen/render.go: the YAML of RuleSources, RuleData and RuleSets.
pub mod Scalar
pub mod Indent
use coraza_kubernetes_operat.Prelude.{
  ℕ, zero, suc, ◌+◌, Bool, true, false, not, List, [], ◌∷◌, ◌++◌, Option, none, some, map,
  if◌then◌else◌,
}
use coraza_kubernetes_operat.Prelude.Bytes.{Bytes, bytes, cut_prefix, contains, split_byte}
use coraza_kubernetes_operat.Prelude.Assoc.{Assoc, lookup, insert, keys}
use coraza_kubernetes_operat.Controller.Errors.{base, wrap}
use coraza_kubernetes_operat.CoreRuleSet.Strings.{
  trim_space, trim_suffix, is_empty, to_valid_utf8, sort_strings,
}
use coraza_kubernetes_operat.CoreRuleSet.Options.{Outcome, ok, err, ◌>>=◌, concat, Options, Host}
use coraza_kubernetes_operat.CoreRuleSet.Validate.{check_rule_data_size, validate_data_file_key}

abbrev or_next : ℕ → Bytes → Option Bytes → Bytes → Bytes
or_next c replacement none next = c ∷ next
or_next c replacement (some rest) next = replacement ++ rest

-- strings.Replace(s, old, replacement, 1), for an `old` that is not empty.
abbrev replace_first : Bytes → Bytes → Bytes → Bytes
replace_first old replacement [] = []
replace_first old replacement (c ∷ s) =
    let next = replace_first old replacement s in
    or_next c replacement (cut_prefix (c ∷ s) old) next

abbrev base_head : Bytes
base_head = bytes "metadata:\n  name: base-rules"

unfoldable pub inject_namespace_in_base_rule_source_yaml : Bytes → Bytes → Bytes
inject_namespace_in_base_rule_source_yaml doc ns =
    if is_empty ns
    then doc
    else if not (contains doc base_head)
    then doc
    else replace_first base_head
        (concat (bytes "metadata:\n  namespace: " ∷ ns ∷ bytes "\n  name: base-rules" ∷ [])) doc

-- strings.Repeat(" ", n)
abbrev pub spaces : ℕ → Bytes
spaces zero = []
spaces (suc n) = b' ' ∷ spaces n

-- A line, with its indentation and the line feed.
abbrev indented_line : ℕ → Bytes → Bytes
indented_line indent line =
    if is_empty (trim_space line)
    then spaces indent ++ bytes "\n"
    else spaces indent ++ (line ++ bytes "\n")

unfoldable pub indent_multiline : Bytes → ℕ → Bytes
indent_multiline processed indent =
    trim_suffix (concat (map (indented_line indent) (split_byte 10 processed))) (bytes "\n")

abbrev head_of : Bytes → Bytes → Bytes
head_of kind namespace = concat (
    bytes "apiVersion: waf.k8s.coraza.io/v1alpha1\nkind: "
    ∷ kind
    ∷ bytes "\nmetadata:\n"
    ∷ (if is_empty namespace
        then []
        else concat (bytes "  namespace: " ∷ namespace ∷ bytes "\n" ∷ []))
    ∷ [])

unfoldable pub format_rule_source_yaml : Bytes → Bytes → Bytes → Bytes
format_rule_source_yaml name namespace indented_rules = concat (
    head_of (bytes "RuleSource") namespace
    ∷ bytes "  name: "
    ∷ name
    ∷ bytes "\nspec:\n  rules: |\n"
    ∷ indented_rules
    ∷ bytes "\n"
    ∷ [])

abbrev or_empty : Option Bytes → Bytes
or_empty none = []
or_empty (some v) = v

abbrev file_entry : Assoc Bytes → Bytes → Bytes
file_entry files k = concat (
    bytes "    "
    ∷ k
    ∷ bytes ": |\n"
    ∷ indent_multiline (or_empty (lookup k files)) 6
    ∷ bytes "\n"
    ∷ [])

unfoldable pub format_rule_data_yaml : Bytes → Bytes → Assoc Bytes → Bytes
unfolding indent_multiline
format_rule_data_yaml name namespace files = concat (
    head_of (bytes "RuleData") namespace
    ∷ bytes "  name: "
    ∷ name
    ∷ bytes "\nspec:\n  files:\n"
    ∷ map (file_entry files) (sort_strings (keys files)))

abbrev source_entry : Bytes → Bytes
source_entry n = concat (bytes "    - name: " ∷ n ∷ bytes "\n" ∷ [])

unfoldable pub format_rule_set_yaml : Bytes → Bytes → List Bytes → Bytes → Bytes
format_rule_set_yaml rule_set_name namespace source_names data_source_name = concat (
    head_of (bytes "RuleSet") namespace
    ∷ bytes "  name: "
    ∷ rule_set_name
    ∷ bytes "\nspec:\n  sources:\n"
    ∷ bytes "    - name: base-rules\n"
    ∷ concat (map source_entry source_names)
    ∷ (if is_empty data_source_name
        then []
        else concat (bytes "  data:\n    - name: " ∷ data_source_name ∷ bytes "\n" ∷ []))
    ∷ [])

unfoldable pub rule_set_yaml : List Bytes → Options → Bool → Bytes
unfolding format_rule_set_yaml
rule_set_yaml source_names opts include_data =
    format_rule_set_yaml opts.rule_set_name opts.namespace source_names
      (if include_data then opts.data_source_name else [])

abbrev at_path : {A : Type 0} → Bytes → Bytes → Outcome A → Outcome A
at_path doing path (ok a) = ok a
at_path doing path (err e) = err (wrap (concat (doing ∷ path ∷ bytes ": " ∷ [])) e)

module _ (host : Host) where
  -- The loop over the data files.
  unfoldable pub read_data_files : List Bytes → Assoc Bytes → Outcome (Assoc Bytes)
  read_data_files [] entries = ok entries
  read_data_files (p ∷ paths) entries =
      at_path (bytes "data file ") p (validate_data_file_key host (base p)) >>= λ _.
      at_path (bytes "read data file ") p (host.read_file p) >>= λ raw.
      read_data_files paths (insert (base p) (to_valid_utf8 raw) entries)

  unfoldable pub build_rule_data_yaml : List Bytes → Options → Outcome Bytes
  unfolding read_data_files format_rule_data_yaml
  build_rule_data_yaml data_files opts = read_data_files data_files [] >>= λ entries.
      check_rule_data_size host opts.data_source_name entries opts >>= λ _.
      ok (format_rule_data_yaml opts.data_source_name opts.namespace entries)
