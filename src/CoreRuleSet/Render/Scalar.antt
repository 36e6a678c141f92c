-- ===== src/CoreRuleSet/Render/Scalar.antt =====
-- What YAML reads of a block scalar `|` without an indentation indicator.
use coraza_kubernetes_operat.Prelude.{
  ℕ, zero, suc, Bool, true, false, not, ◌&&◌, List, [], ◌∷◌, ◌++◌, ◌≡◌, refl, ap, all, map, drop,
  ◌==◌, if◌then◌else◌,
}
use coraza_kubernetes_operat.Prelude.Bytes.{Bytes, split_byte}
use coraza_kubernetes_operat.CoreRuleSet.Strings.{is_empty}
use coraza_kubernetes_operat.CoreRuleSet.Render.{spaces}

abbrev pub is_blank : Bytes → Bool
is_blank = all (λ c. c == b' ')

abbrev pub leading_spaces : Bytes → ℕ
leading_spaces [] = 0
leading_spaces (c ∷ s) = let rest = leading_spaces s in if c == b' ' then suc rest else 0

-- The spaces in front of the first line that is not blank.
abbrev pub detected_indent : List Bytes → ℕ
detected_indent [] = 0
detected_indent (l ∷ ls) =
    let later = detected_indent ls in if is_blank l then later else leading_spaces l

-- The lines with their line feeds, without the empty ones at the end.
abbrev pub clipped : List Bytes → Bytes
clipped [] = []
clipped (l ∷ ls) =
    let rest = clipped ls in if is_empty l && is_empty rest then [] else l ++ 10 ∷ rest

abbrev pub read_block_scalar : Bytes → Bytes
read_block_scalar s = let ls = split_byte 10 s in clipped (map (drop (detected_indent ls)) ls)

-- Of these lines, the first that is not empty does not begin with a space.
abbrev pub starts_flush : List Bytes → Bool
starts_flush [] = false
starts_flush ([] ∷ ls) = starts_flush ls
starts_flush ((c ∷ l) ∷ ls) = not (c == b' ')

pub blank_spaces : (n : ℕ) → is_blank (spaces n ++ []) ≡ true
blank_spaces zero = refl
blank_spaces (suc n) = blank_spaces n

pub not_blank_spaces :
    (n c : ℕ) (s : Bytes) → (c == b' ') ≡ false → is_blank (spaces n ++ c ∷ s) ≡ false
not_blank_spaces zero c s h = rw h refl
not_blank_spaces (suc n) c s h = not_blank_spaces n c s h

pub leading_spaces_of :
    (n c : ℕ) (s : Bytes) → (c == b' ') ≡ false → leading_spaces (spaces n ++ c ∷ s) ≡ n
leading_spaces_of zero c s h = rw h refl
leading_spaces_of (suc n) c s h = ap suc (leading_spaces_of n c s h)
