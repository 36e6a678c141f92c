-- ===== src/CoreRuleSet/Blocks.antt =====
-- tools/corerulesetgen/rules.go: trimLineEnd and splitIntoRules, which joins the lines of a directive
-- that end in a backslash to one block.

pub mod Spelled
use coraza_kubernetes_operat.Prelude.{
  ℕ, Bool, true, false, not, ◌&&◌, ◌||◌, List, [], ◌∷◌, ◌++◌, ◌==◌, if◌then◌else◌, Option, none,
  some,
}
use coraza_kubernetes_operat.RuleSets.Unsupported.RuleIds.{is_word}
use coraza_kubernetes_operat.Prelude.Bytes.{Bytes, bytes, cut_prefix, has_prefix, split_byte}
use coraza_kubernetes_operat.CoreRuleSet.Strings.{join, trim_right, has_suffix, is_empty}

abbrev line_end : ℕ → Bool
line_end c = c == b' ' || c == b'\t' || c == b'\r' || c == b'\n'

unfoldable pub trim_line_end : Bytes → Bytes
trim_line_end = trim_right line_end

-- The word, and then a byte that is not part of a word, or the end.
abbrev word_ends : Option Bytes → Bool
word_ends none = false
word_ends (some []) = true
word_ends (some (c ∷ s)) = not (is_word c)

abbrev has_word : Bytes → Bytes → Bool
has_word s word = word_ends (cut_prefix s word)

-- secDirectiveLine: ^(SecRule|SecAction|SecMarker)\b
unfoldable pub sec_directive_line : Bytes → Bool
sec_directive_line s =
    has_word s (bytes "SecRule") || has_word s (bytes "SecAction") || has_word s (bytes "SecMarker")

abbrev pub newline : Bytes
newline = bytes "\n"

-- The variables of the loop.
pub record Splitter : Type 0 where
  pub blocks : List Bytes
  pub current : List Bytes
  pub in_multiline : Bool

abbrev pub starts_directive : Bytes → Bool
starts_directive stripped = not (has_prefix stripped (bytes "#")) && sec_directive_line stripped

abbrev close : Splitter → List Bytes → Splitter
close s lines = record {
  blocks = s.blocks ++ join newline lines ∷ [];
  current = [];
  in_multiline = false;
}

-- The branches: in a directive of several lines or not, at the start of a directive or not, with a
-- backslash at the end of the line or not.
unfoldable pub split_on : Bool → Bool → Bool → Splitter → Bytes → Splitter
split_on true starts true s line = record s { current = s.current ++ line ∷ [] }
split_on true starts false s line = close s (s.current ++ line ∷ [])
split_on false true true s line = record s { current = line ∷ []; in_multiline = true }
split_on false true false s line = close s (line ∷ [])
split_on false false goes_on s line = record s { blocks = s.blocks ++ line ∷ [] }

-- One round of the loop.
unfoldable pub split_step : Splitter → Bytes → Splitter
unfolding split_on
split_step s line =
    let stripped = trim_line_end line in
    split_on s.in_multiline (starts_directive stripped) (has_suffix stripped (bytes "\\")) s line

unfoldable pub split_lines : Splitter → List Bytes → Splitter
split_lines s [] = s
split_lines s (line ∷ lines) = split_lines (split_step s line) lines

abbrev pub leftover : Splitter → List Bytes
leftover s = if is_empty s.current then s.blocks else s.blocks ++ join newline s.current ∷ []

abbrev pub initial : Splitter
initial = record { blocks = []; current = []; in_multiline = false }

unfoldable pub split_into_rules : Bytes → List Bytes
unfolding split_lines
split_into_rules content = leftover (split_lines initial (split_byte 10 content))
