-- ===== src/CoreRuleSet/Validate.antt =====
-- tools/corerulesetgen/validate.go: versions, sizes and names.
pub mod Names
pub mod Sizes
use coraza_kubernetes_operat.Prelude.{
  ℕ, ◌+◌, ◌*◌, Bool, true, false, not, ◌&&◌, ◌||◌, List, [], ◌∷◌, ◌++◌, any, select, length, ltb,
  leb, ◌==◌, if◌then◌else◌,
}
use coraza_kubernetes_operat.Prelude.Bytes.{Bytes, bytes, trim_prefix}
use coraza_kubernetes_operat.Prelude.Assoc.{Assoc}
use coraza_kubernetes_operat.RuleSets.Unsupported.Decimal.{decimal}
use coraza_kubernetes_operat.RuleSets.Unsupported.RuleIds.{is_digit}
use coraza_kubernetes_operat.CoreRuleSet.Strings.{
  trim_space, trim_suffix, to_lower, replace_byte, trim_left, trim_right, is_empty, join,
}
use coraza_kubernetes_operat.CoreRuleSet.Options.{
  Outcome, ok, err, ◌>>=◌, errorf, concat, Options, Host,
}

-- 900 * 1024
abbrev pub max_rules_payload_bytes : ℕ
max_rules_payload_bytes = 921_600

abbrev pub max_data_files_total_bytes : ℕ
max_data_files_total_bytes = 921_600

pub record CrsVersion : Type 0 where
  pub normalized : Bytes
  pub setup : Bytes

-- What is left of \d+(\.\d+)*$ behind a digit, or behind a dot or at the start.
abbrev is_version_from : Bool → Bytes → Bool
is_version_from after_digit [] = after_digit
is_version_from after_digit (c ∷ s) =
    let rest = is_version_from (is_digit c) s in (is_digit c || after_digit && c == b'.') && rest

-- validVersionRe: ^\d+(\.\d+)*$
abbrev pub is_version : Bytes → Bool
is_version = is_version_from false

-- The messages of a Kubernetes validation as one error.
abbrev pub refuse : List Bytes → List Bytes → Outcome (Unit {0})
refuse [] what = ok tt
refuse (e ∷ errs) what = errorf (concat what ∷ bytes ": " ∷ join (bytes "; ") (e ∷ errs) ∷ [])

module _ (host : Host) where
  unfoldable pub normalize_crs_version : Bytes → Outcome (Bytes × Bytes)
  normalize_crs_version v =
      let normalized = trim_prefix (trim_space v) (bytes "v") in
      if not (is_version normalized)
      then errorf (
          bytes "invalid CoreRuleSet version format "
          ∷ host.quote v
          ∷ bytes ": expected digits and dots (e.g. 4.24.1 or v4.24.1)"
          ∷ [])
      else ok (normalized, replace_byte b'.' [] normalized)

  unfoldable pub parse_crs_version : Bytes → Outcome CrsVersion
  unfolding normalize_crs_version
  parse_crs_version v = normalize_crs_version v >>= λ (p : Bytes × Bytes).
      ok (record { normalized = p.0; setup = p.1 })

  unfoldable pub check_payload_size : Bytes → Bytes → Options → Outcome (Unit {0})
  check_payload_size rules_block object_name opts =
      if opts.skip_size_check
      then ok tt
      else if ltb max_rules_payload_bytes (length rules_block)
      then errorf (
          bytes "rules payload for "
          ∷ host.quote object_name
          ∷ bytes " is about "
          ∷ decimal (length rules_block)
          ∷ bytes " bytes (limit "
          ∷ decimal max_rules_payload_bytes
          ∷ bytes
              "): split rules, use smaller files, or pass --skip-size-check to override (not recommended)"
          ∷ [])
      else ok tt

  abbrev value_error : Bytes → Bytes → ℕ → Outcome ℕ
  value_error source_name k n = errorf (
      bytes "RuleData "
      ∷ host.quote source_name
      ∷ bytes " file "
      ∷ host.quote k
      ∷ bytes " is about "
      ∷ decimal n
      ∷ bytes " bytes (limit "
      ∷ decimal max_rules_payload_bytes
      ∷ bytes " per value): trim data files or pass --skip-size-check to override (not recommended)"
      ∷ [])

  -- The loop over the entries: their size, or an error for a value that is too large.
  unfoldable pub total_size : Bytes → Assoc Bytes → ℕ → Outcome ℕ
  total_size source_name [] total = ok total
  total_size source_name ((k, v) ∷ entries) total =
      let rest = total_size source_name entries (total + length v) in
      if ltb max_rules_payload_bytes (length v) then value_error source_name k (length v) else rest

  abbrev check_total : Bytes → ℕ → Outcome (Unit {0})
  check_total source_name total =
      if ltb max_data_files_total_bytes total
      then errorf (
          bytes "RuleData "
          ∷ host.quote source_name
          ∷ bytes " files total is about "
          ∷ decimal total
          ∷ bytes " bytes (limit "
          ∷ decimal max_data_files_total_bytes
          ∷ bytes
              "): split data across RuleData resources or pass --skip-size-check to override (not recommended)"
          ∷ [])
      else ok tt

  unfoldable pub check_rule_data_size : Bytes → Assoc Bytes → Options → Outcome (Unit {0})
  unfolding total_size
  check_rule_data_size source_name entries opts =
      if opts.skip_size_check
      then ok tt
      else (total_size source_name entries 0 >>= check_total source_name)

  unfoldable pub validate_rule_source_object_name : Bytes → Outcome (Unit {0})
  validate_rule_source_object_name name =
      refuse (host.is_dns1123_subdomain name)
        (bytes "invalid RuleSource name " ∷ host.quote name ∷ [])

  unfoldable pub validate_data_file_key : Bytes → Outcome (Unit {0})
  validate_data_file_key key =
      refuse (host.is_config_map_key key)
        (bytes "invalid RuleData files key " ∷ host.quote key ∷ bytes " (from data filename)" ∷ [])

abbrev pub is_name_byte : ℕ → Bool
is_name_byte c = leb b'a' c && leb c b'z' || is_digit c || c == b'.' || c == b'-'

abbrev pub is_edge : ℕ → Bool
is_edge c = c == b'-' || c == b'.'

-- The steps of generateRuleSourceName on the name; nameSanitizeRe, [^a-z0-9.-]+, is replaced by nothing.
unfoldable pub sanitized_name : Bytes → Bytes
sanitized_name file_base = trim_right is_edge (
    trim_left is_edge (
      select is_name_byte
        (replace_byte b'_' (bytes "-") (to_lower (trim_suffix file_base (bytes ".conf"))))))

unfoldable pub generate_rule_source_name : Bytes → Outcome Bytes
unfolding sanitized_name
generate_rule_source_name file_base =
    let name = sanitized_name file_base in
    if is_empty name
    then errorf (bytes "cannot generate valid RuleSource name from file: " ∷ file_base ∷ [])
    else ok name
