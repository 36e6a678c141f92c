-- ===== src/RuleSets/Unsupported/Comments.antt =====
-- Comment lines mention no rule.
use mathlib.Core.List.{append_assoc}
use coraza_kubernetes_operat.Prelude.{
  ◌≡◌, refl, ap, ◌∙◌, sym, true, false, List, [], ◌∷◌, ◌++◌, any, ◌==◌, inl, inr, Bool-cases,
}
use coraza_kubernetes_operat.Prelude.Bytes.{
  Bytes, split_byte-append, split_byte_whole, split_byte, trim_left_space,
}
use coraza_kubernetes_operat.RuleSets.Unsupported.RuleIds.{
  newline, starts_comment, strip_lines, strip_comment_lines, mentioned_ids, numbers, find_all,
}

strip_lines-append :
    (xs ys : List Bytes) → strip_lines (xs ++ ys) ≡ strip_lines xs ++ strip_lines ys
unfolding strip_lines
strip_lines-append [] ys = refl
strip_lines-append (x ∷ xs) ys = elim (Bool-cases (starts_comment (trim_left_space x))) [
  | inl e ↦ rw e (strip_lines-append xs ys)
  | inr e ↦
      rw (e, strip_lines-append xs ys)
        (sym (append_assoc x (newline ∷ strip_lines xs) (strip_lines ys)))
]

strip_lines_comment :
    (line : Bytes)
    → any (λ c. c == newline) line ≡ false
    → starts_comment (trim_left_space line) ≡ true
    → strip_lines (split_byte newline line) ≡ []
unfolding strip_lines
strip_lines_comment line n c = rw (split_byte_whole newline line n, c)

strip_comment_lines-append :
    (s t : Bytes)
    → strip_comment_lines (s ++ newline ∷ t)
      ≡ strip_lines (split_byte newline s) ++ strip_comment_lines t
unfolding strip_comment_lines
strip_comment_lines-append s t =
    ap strip_lines (split_byte-append newline s t)
    ∙ strip_lines-append (split_byte newline s) (split_byte newline t)

-- A line of white space, or one whose first character other than white space is #, can be taken out
-- between any two lines: it does not change which rule IDs the text mentions.
pub mentioned_ids_comment :
    (before line after : Bytes)
    → any (λ c. c == newline) line ≡ false
    → starts_comment (trim_left_space line) ≡ true
    → mentioned_ids (before ++ newline ∷ (line ++ newline ∷ after))
      ≡ mentioned_ids (before ++ newline ∷ after)
unfolding mentioned_ids
mentioned_ids_comment before line after n c = ap (λ s. numbers (find_all false 0 s)) same
  where
    same :
        strip_comment_lines (before ++ newline ∷ (line ++ newline ∷ after))
        ≡ strip_comment_lines (before ++ newline ∷ after)
    same = rw (
      strip_comment_lines-append before (line ++ newline ∷ after),
      strip_comment_lines-append line after,
      strip_lines_comment line n c,
      strip_comment_lines-append before after,
    )
