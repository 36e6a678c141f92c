-- ===== src/RuleSets/Unsupported/RuleIds.antt =====
-- The rule IDs that a text mentions: stripCommentLines, the pattern \bid:['"]?(\d+)['"]? with
-- FindAllStringSubmatch, and strconv.Atoi.
use coraza_kubernetes_operat.Prelude.{
  ℕ, zero, suc, ◌+◌, ◌-◌, ◌*◌, Bool, true, false, ◌&&◌, ◌||◌, List, [], ◌∷◌, ◌++◌, Option, none,
  some, leb, ◌==◌, length, if◌then◌else◌,
}
use coraza_kubernetes_operat.Prelude.Bytes.{Bytes, bytes, cut_prefix, split_byte, trim_left_space}

abbrev pub newline : ℕ
newline = 10

abbrev pub starts_comment : Bytes → Bool
starts_comment [] = true
starts_comment (c ∷ s) = c == b'#'

-- The loop over the lines of a text.
unfoldable pub strip_lines : List Bytes → Bytes
strip_lines [] = []
strip_lines (line ∷ lines) =
    let rest = strip_lines lines in
    if starts_comment (trim_left_space line) then rest else line ++ newline ∷ rest

unfoldable pub strip_comment_lines : Bytes → Bytes
unfolding strip_lines
strip_comment_lines rules = strip_lines (split_byte newline rules)

abbrev pub is_digit : ℕ → Bool
is_digit c = leb b'0' c && leb c b'9'

abbrev pub is_word : ℕ → Bool
is_word c = is_digit c || leb b'A' c && leb c b'Z' || leb b'a' c && leb c b'z' || c == b'_'

-- The longest run of digits, and what follows it.
unfoldable pub digits : Bytes → Bytes × Bytes
digits [] = ([], [])
digits (c ∷ s) = let (ds, rest) = digits s in if is_digit c then (c ∷ ds, rest) else ([], c ∷ s)

abbrev is_quote : ℕ → Bool
is_quote c = c == 39 || c == b'"'

-- ['"]?, which takes a quote where there is one.
abbrev skip_quote : Bytes → Bytes
skip_quote [] = []
skip_quote (c ∷ s) = if is_quote c then s else c ∷ s

abbrev digits_then_quote : Bytes × Bytes → Option (Bytes × Bytes)
digits_then_quote ([], rest) = none
digits_then_quote (d ∷ ds, rest) = some (d ∷ ds, skip_quote rest)

abbrev after_id : Option Bytes → Option (Bytes × Bytes)
after_id none = none
after_id (some s) = digits_then_quote (digits (skip_quote s))

-- A match that begins here, behind a byte that is or is not part of a word: the submatch, and what
-- follows the match. At most one of the ways to read an optional quote leads to digits.
unfoldable pub match_at : Bool → Bytes → Option (Bytes × Bytes)
unfolding digits
match_at after_word s = if after_word then none else after_id (cut_prefix s (bytes "id:"))

-- The submatches of all matches, from left to right; `skip` bytes still belong to the last match.
unfoldable pub find_all : Bool → ℕ → Bytes → List Bytes
unfolding match_at
find_all after_word skip [] = []
find_all after_word (suc skip) (c ∷ s) = find_all (is_word c) skip s
find_all after_word zero (c ∷ s) = elim (match_at after_word (c ∷ s)) [
  | none ↦ find_all (is_word c) zero s
  | some (ds, rest) ↦ ds ∷ find_all (is_word c) (length s - length rest) s
]

abbrev pub max_int : ℕ
max_int = 9223372036854775807

-- strconv.Atoi on digits: `none` is a value out of range.
abbrev number : ℕ → Bytes → ℕ
number n [] = n
number n (c ∷ s) = number (n * 10 + (c - b'0')) s

unfoldable pub atoi : Bytes → Option ℕ
atoi ds = if leb (number 0 ds) max_int then some (number 0 ds) else none

abbrev cons_some : Option ℕ → List ℕ → List ℕ
cons_some none l = l
cons_some (some n) l = n ∷ l

unfoldable pub numbers : List Bytes → List ℕ
unfolding atoi
numbers [] = []
numbers (ds ∷ l) = cons_some (atoi ds) (numbers l)

-- The IDs that the active lines of the rules mention, in order.
unfoldable pub mentioned_ids : Bytes → List ℕ
unfolding strip_comment_lines find_all numbers
mentioned_ids rules = numbers (find_all false 0 (strip_comment_lines rules))
