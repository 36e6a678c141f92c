-- ===== src/CoreRuleSet/Render/Indent.antt =====
-- The indentation of a YAML block scalar: what a reader of the scalar gets back.
use coraza_kubernetes_operat.Prelude.{ℕ, Bool, false, List, [], ◌++◌, ◌≡◌, any, ◌==◌, if◌then◌else◌}
use coraza_kubernetes_operat.Prelude.Bytes.{Bytes}
use coraza_kubernetes_operat.CoreRuleSet.Strings.{trim_space, is_empty}
use coraza_kubernetes_operat.CoreRuleSet.Render.{spaces}

abbrev has_byte : ℕ → Bytes → Bool
has_byte c = any (λ a. a == c)

abbrev Lacks : ℕ → Bytes → Type 0
Lacks c s = has_byte c s ≡ false

-- A line as it is shown: blank lines are empty.
abbrev pub shown : Bytes → Bytes
shown line = if is_empty (trim_space line) then [] else line

module _ (n : ℕ) where
  shifted : Bytes → Bytes
  shifted l = spaces n ++ shown l
