-- ===== src/CoreRuleSet/Process/Exact.antt =====
-- What processFileContent leaves of a file.
use coraza_kubernetes_operat.Prelude.{
  ℕ, suc, ◌<◌, Bool, true, false, List, [], ◌∷◌, ◌≡◌, ap, ◌∙◌, arith, All, length, Bool-cases, inl,
  inr,
}
use coraza_kubernetes_operat.Prelude.Bytes.{Bytes}
use coraza_kubernetes_operat.Controller.Errors.{base}
use coraza_kubernetes_operat.CoreRuleSet.Strings.{join}
use coraza_kubernetes_operat.CoreRuleSet.Blocks.{split_into_rules, newline}
use coraza_kubernetes_operat.CoreRuleSet.Chains.{chain_sec_rule_groups, block_at}
use coraza_kubernetes_operat.CoreRuleSet.Options.{ok, StringSet, Host}
use coraza_kubernetes_operat.CoreRuleSet.Process.{
  wishes_drop, wish_drops, drop_chains, keep_blocks, filter_blocks, process_file_content,
  rules_text, has_rules, warnings,
}
use coraza_kubernetes_operat.CoreRuleSet.Process.Flags.{
  kept_by, keep_blocks-kept_by, length-drop_chains, length-map,
}
use coraza_kubernetes_operat.CoreRuleSet.Process.Members.{or_left}
use coraza_kubernetes_operat.CoreRuleSet.Process.Whole.{removed, wishes, dropped-removed}

kept_by-All :
    (P : Bytes → Type 0) (gone : ℕ → Bool) (blocks : List Bytes)
    → ((k : ℕ) → gone k ≡ false → k < length blocks → P (block_at blocks k))
    → All P (kept_by gone blocks)
kept_by-All P gone [] h = tt
kept_by-All P gone (b ∷ blocks) h =
    let rest = kept_by-All P (λ k. gone (suc k)) blocks (λ k e l. h (suc k) e (omega arith)) in
    elim (Bool-cases (gone 0)) [ inl e ↦ rw e rest | inr e ↦ rw e (h 0 e (omega arith), rest) ]

module _ (ignore_ids : StringSet) (ignore_pm : Bool) (blocks : List Bytes) where
  kept_blocks :
      keep_blocks
        (drop_chains
          (wish_drops ignore_ids ignore_pm blocks)
          (chain_sec_rule_groups blocks)
          (wish_drops ignore_ids ignore_pm blocks))
        blocks
      ≡ kept_by (removed ignore_ids ignore_pm blocks) blocks
  kept_blocks =
      let wish_drop = wish_drops ignore_ids ignore_pm blocks in
      let groups = chain_sec_rule_groups blocks in
      let n = length-map (wishes_drop ignore_ids ignore_pm) blocks in
      keep_blocks-kept_by (removed ignore_ids ignore_pm blocks) _ blocks
        (length-drop_chains wish_drop groups wish_drop ∙ n)
        (dropped-removed ignore_ids ignore_pm blocks)

  abbrev pub kept : List Bytes
  kept = kept_by (removed ignore_ids ignore_pm blocks) blocks

  abbrev pub file_warnings : Bytes → StringSet → List Bytes
  file_warnings base_name auto_ignored =
      warnings base_name ignore_ids auto_ignored ignore_pm blocks
        (wish_drops ignore_ids ignore_pm blocks) (chain_sec_rule_groups blocks)

  filter_blocks-kept :
      (base_name : Bytes) (auto_ignored : StringSet)
      → filter_blocks base_name ignore_ids auto_ignored ignore_pm blocks
        ≡ (join newline kept, file_warnings base_name auto_ignored)
  unfolding filter_blocks
  filter_blocks-kept base_name auto_ignored =
      ap (λ l. (join newline l, file_warnings base_name auto_ignored)) kept_blocks

  kept-permitted : All (λ b. wishes_drop ignore_ids ignore_pm b ≡ false) kept
  kept-permitted =
      kept_by-All (λ b. wishes_drop ignore_ids ignore_pm b ≡ false) _ blocks
        (λ k e l. or_left (wishes ignore_ids ignore_pm blocks k) _ e)

-- Of a file with rules, processFileContent leaves the blocks that are not removed, in their order, and
-- none of them is a SecRule with an ignored ID, or with @pmFromFile where that is to be dropped.
pub process_file_content_exact :
    (host : Host) (path raw : Bytes) (ignore_ids auto_ignored : StringSet) (ignore_pm : Bool)
    → host.read_file path ≡ ok raw
    → has_rules (rules_text raw) ≡ true
    → let blocks = split_into_rules (rules_text raw) in
      (process_file_content host path ignore_ids auto_ignored ignore_pm
        ≡ ok (
          join newline (kept ignore_ids ignore_pm blocks),
          file_warnings ignore_ids ignore_pm blocks (base path) auto_ignored,
        ))
      × All (λ b. wishes_drop ignore_ids ignore_pm b ≡ false) (kept ignore_ids ignore_pm blocks)
unfolding process_file_content
process_file_content_exact host path raw ignore_ids auto_ignored ignore_pm r h =
    let blocks = split_into_rules (rules_text raw) in
    (
      rw (r, h) (ap ok (filter_blocks-kept ignore_ids ignore_pm blocks (base path) auto_ignored)),
      kept-permitted ignore_ids ignore_pm blocks,
    )
