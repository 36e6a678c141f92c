-- ===== src/CoreRuleSet/Process.antt =====
-- tools/corerulesetgen/rules.go: processFileContent and ignoreReason.
pub mod Flags
pub mod Members
pub mod Whole
pub mod Exact
use coraza_kubernetes_operat.Prelude.{
  ℕ, zero, suc, Bool, true, false, not, ◌&&◌, ◌||◌, List, [], ◌∷◌, ◌++◌, none, some, any, map,
  length, ltb, ◌==◌, if◌then◌else◌,
}
use coraza_kubernetes_operat.Prelude.Bytes.{Bytes, bytes, contains, has_prefix}
use coraza_kubernetes_operat.Controller.Errors.{base, wrap}
use coraza_kubernetes_operat.CoreRuleSet.Strings.{trim_space, trim_right, join, to_valid_utf8}
use coraza_kubernetes_operat.CoreRuleSet.Blocks.{split_into_rules, newline}
use coraza_kubernetes_operat.CoreRuleSet.Chains.{
  extract_rule_id, is_skipped, is_sec_rule, chain_sec_rule_groups, block_at,
}
use coraza_kubernetes_operat.CoreRuleSet.Options.{
  Outcome, ok, err, ◌>>=◌, StringSet, in_set, concat, Host,
}

unfoldable pub ignore_reason : Bytes → StringSet → Bytes
ignore_reason rule_id none = bytes "Rule ID in ignore list"
ignore_reason rule_id (some auto_ignored) =
    if in_set (some auto_ignored) rule_id
    then bytes
        "excluded by --ignore-unsupported-rules profile (operator); pass --ignore-unsupported-rules=none to emit this rule"
    else bytes "Rule ID in --ignore-rules"

abbrev pub names_data_file : Bytes → Bool
names_data_file block = contains block (bytes "@pmFromFile")

-- What the first loop writes to wishDrop for a block.
unfoldable pub wishes_drop : StringSet → Bool → Bytes → Bool
wishes_drop ignore_ids ignore_pm block =
    not (is_skipped block || not (has_prefix (trim_space block) (bytes "Sec")))
    && is_sec_rule block
    && (ignore_pm && names_data_file block || in_set ignore_ids (extract_rule_id block))

-- flags[i]; the code asks only for indices of blocks.
abbrev pub flag_at : List Bool → ℕ → Bool
flag_at [] i = false
flag_at (b ∷ flags) zero = b
flag_at (b ∷ flags) (suc i) = flag_at flags i

-- flags[i] = true
abbrev pub set_flag : ℕ → List Bool → List Bool
set_flag i [] = []
set_flag zero (b ∷ flags) = true ∷ flags
set_flag (suc i) (b ∷ flags) = b ∷ set_flag i flags

abbrev pub set_flags : List ℕ → List Bool → List Bool
set_flags [] flags = flags
set_flags (i ∷ is) flags = set_flags is (set_flag i flags)

abbrev pub any_wish : List Bool → List ℕ → Bool
any_wish wish_drop = any (flag_at wish_drop)

-- The second loop: a chain with a member to drop is dropped whole.
unfoldable pub drop_chains : List Bool → List (List ℕ) → List Bool → List Bool
drop_chains wish_drop [] drop = drop
drop_chains wish_drop (g ∷ groups) drop =
    drop_chains wish_drop groups
      (if ltb 1 (length g) && any_wish wish_drop g then set_flags g drop else drop)

abbrev head_index : List ℕ → ℕ
head_index [] = 0
head_index (i ∷ g) = i

module _ (base_name : Bytes) (ignore_ids auto_ignored : StringSet) (ignore_pm : Bool) where
  abbrev warn_rule : Bytes → Bytes → Bytes
  warn_rule id reason = concat (
      bytes "  [warn] Ignored rules in "
      ∷ base_name
      ∷ bytes ":\n    - Rule ID: "
      ∷ id
      ∷ bytes " ("
      ∷ reason
      ∷ bytes ")\n"
      ∷ [])

  abbrev warn_single : Bytes → List Bytes
  warn_single block =
      let rid = extract_rule_id block in
      if ignore_pm && names_data_file block
      then warn_rule rid (bytes "@pmFromFile not supported") ∷ []
      else if in_set ignore_ids rid
      then warn_rule rid (ignore_reason rid auto_ignored) ∷ []
      else []

  abbrev warn_chain : List Bytes → Bytes
  warn_chain ids = concat (
      bytes "  [warn] Ignored rules in "
      ∷ base_name
      ∷ bytes ":\n    - SecRule chain (IDs: "
      ∷ join (bytes ", ") ids
      ∷ bytes
          "): dropping entire chain because at least one rule matched --ignore-rules, default WASM-unsupported filtering, or @pmFromFile stripping\n"
      ∷ [])

  -- The third loop, over the groups.
  unfoldable pub warnings : List Bytes → List Bool → List (List ℕ) → List Bytes
  unfolding ignore_reason
  warnings blocks wish_drop [] = []
  warnings blocks wish_drop (g ∷ groups) =
      let rest = warnings blocks wish_drop groups in
      if not (any_wish wish_drop g)
      then rest
      else if ltb 1 (length g)
      then warn_chain (map (λ i. extract_rule_id (block_at blocks i)) g) ∷ rest
      else warn_single (block_at blocks (head_index g)) ++ rest

-- The last loop: the blocks that are not dropped.
unfoldable pub keep_blocks : List Bool → List Bytes → List Bytes
keep_blocks [] blocks = []
keep_blocks (d ∷ drop) [] = []
keep_blocks (d ∷ drop) (block ∷ blocks) =
    if d then keep_blocks drop blocks else block ∷ keep_blocks drop blocks

abbrev newline_or_return : ℕ → Bool
newline_or_return c = c == b'\n' || c == b'\r'

abbrev pub rules_text : Bytes → Bytes
rules_text raw = trim_right newline_or_return (to_valid_utf8 raw)

abbrev pub has_rules : Bytes → Bool
has_rules content = contains content (bytes "SecRule") || contains content (bytes "SecAction")

abbrev pub wish_drops : StringSet → Bool → List Bytes → List Bool
wish_drops ignore_ids ignore_pm = map (wishes_drop ignore_ids ignore_pm)

-- What follows the check for rules: the text that is left, and the warnings.
unfoldable pub filter_blocks :
    Bytes → StringSet → StringSet → Bool → List Bytes → Bytes × List Bytes
unfolding drop_chains keep_blocks wishes_drop warnings
filter_blocks base_name ignore_ids auto_ignored ignore_pm blocks =
    let wish_drop = wish_drops ignore_ids ignore_pm blocks in
    let groups = chain_sec_rule_groups blocks in
    (
      join newline (keep_blocks (drop_chains wish_drop groups wish_drop) blocks),
      warnings base_name ignore_ids auto_ignored ignore_pm blocks wish_drop groups,
    )

abbrev pub read_error : {A : Type 0} → Bytes → Outcome A → Outcome A
read_error path (ok a) = ok a
read_error path (err e) = err (wrap (concat (bytes "read " ∷ path ∷ bytes ": " ∷ [])) e)

unfoldable pub process_file_content :
    Host → Bytes → StringSet → StringSet → Bool → Outcome (Bytes × List Bytes)
unfolding filter_blocks
process_file_content host path ignore_ids auto_ignored ignore_pm =
    read_error path (host.read_file path) >>= λ raw.
    let content = rules_text raw in
    if has_rules content
    then ok (filter_blocks (base path) ignore_ids auto_ignored ignore_pm (split_into_rules content))
    else ok ([], [])
