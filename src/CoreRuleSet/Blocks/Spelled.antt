-- ===== src/CoreRuleSet/Blocks/Spelled.antt =====
-- The blocks of splitIntoRules against the text that it splits.
use coraza_kubernetes_operat.Prelude.{
  Bool, true, false, List, [], ◌∷◌, ◌++◌, ◌≡◌, refl, sym, ap, ◌∙◌, ◌⊎◌, inl, inr, arith,
}
use mathlib.Core.List.{append_assoc, append-nil}
use coraza_kubernetes_operat.Prelude.Bytes.{Bytes, split_byte, split_byte_cons}
use coraza_kubernetes_operat.CoreRuleSet.Strings.{
  join, join_rest, join_rest-append, join-split_byte,
}
use coraza_kubernetes_operat.CoreRuleSet.Blocks.{
  Splitter, newline, split_step, split_on, split_lines, leftover, initial, split_into_rules,
}

-- Nothing is pending outside of a directive, and the blocks with what is pending spell the lines.
abbrev IsIdle : Splitter → Type 0
IsIdle s = (s.in_multiline ≡ true) ⊎ (s.current ≡ [])

abbrev spelled : Splitter → Bytes
spelled s = join_rest newline s.blocks ++ join_rest newline s.current

join_rest-join :
    (c : List Bytes) (line : Bytes)
    → join_rest newline (join newline (c ++ line ∷ []) ∷ []) ≡ join_rest newline (c ++ line ∷ [])
join_rest-join [] line = ap (λ t. newline ++ t) (append-nil (line ++ []))
join_rest-join (p ∷ c) line =
    ap (λ t. newline ++ t) (append-nil (p ++ join_rest newline (c ++ line ∷ [])))

append_line :
    (bs : List Bytes) (line : Bytes)
    → join_rest newline (bs ++ line ∷ []) ≡ join_rest newline bs ++ (newline ++ line)
append_line bs line =
    join_rest-append newline bs (line ∷ [])
    ∙ ap (λ t. join_rest newline bs ++ (newline ++ t)) (append-nil line)

closed :
    (bs c : List Bytes) (line : Bytes)
    → join_rest newline (bs ++ join newline (c ++ line ∷ []) ∷ []) ++ []
      ≡ join_rest newline bs ++ join_rest newline c ++ (newline ++ line)
closed bs c line =
    append-nil _
    ∙ join_rest-append newline bs _
    ∙ ap (λ t. join_rest newline bs ++ t) (join_rest-join c line ∙ append_line c line)
    ∙ sym (append_assoc (join_rest newline bs) (join_rest newline c) (newline ++ line))

idle_current : (s : Splitter) → IsIdle s → s.in_multiline ≡ false → s.current ≡ []
idle_current s (inl t) e = absurd (ground (arith, t, e))
idle_current s (inr c) e = c

no_current : {c : List Bytes} (t : Bytes) → c ≡ [] → t ++ join_rest newline c ≡ t
no_current t e = rw e (append-nil t)

-- What one round reads is spelled behind what was there.
abbrev Reads : Splitter → Bytes → Splitter → Type 0
Reads s line t = IsIdle t × (spelled t ≡ spelled s ++ (newline ++ line))

split_on-Reads :
    (m starts goes_on : Bool) (s : Splitter) (line : Bytes)
    → s.in_multiline ≡ m
    → IsIdle s
    → Reads s line (split_on m starts goes_on s line)
unfolding split_on
split_on-Reads true starts true s line e h = (
  inl e,
  ap (λ t. join_rest newline s.blocks ++ t) (append_line s.current line)
      ∙ sym (
          append_assoc (join_rest newline s.blocks) (join_rest newline s.current)
            (newline ++ line)),
)
split_on-Reads true starts false s line e h = (inr refl, closed s.blocks s.current line)
split_on-Reads false true true s line e h = (
  inl refl,
  ap (λ t. join_rest newline s.blocks ++ (newline ++ t)) (append-nil line)
      ∙ ap (λ t. t ++ (newline ++ line))
          (sym (no_current (join_rest newline s.blocks) (idle_current s h e))),
)
split_on-Reads false true false s line e h =
    (inr refl, rw (idle_current s h e) (closed s.blocks [] line))
split_on-Reads false false goes_on s line e h = (
  inr (idle_current s h e),
  no_current (join_rest newline (s.blocks ++ line ∷ [])) (idle_current s h e)
      ∙ append_line s.blocks line
      ∙ ap (λ t. t ++ (newline ++ line))
          (sym (no_current (join_rest newline s.blocks) (idle_current s h e))),
)

split_lines-Reads :
    (lines : List Bytes) (s : Splitter)
    → IsIdle s
    → IsIdle (split_lines s lines)
      × (spelled (split_lines s lines) ≡ spelled s ++ join_rest newline lines)
unfolding split_lines split_step
split_lines-Reads [] s h = (h, sym (append-nil (spelled s)))
split_lines-Reads (line ∷ lines) s h =
    let (idle, e) = split_on-Reads s.in_multiline _ _ s line refl h in
    let (idle', e') = split_lines-Reads lines (split_step s line) idle in
    (
      idle',
      e'
          ∙ ap (λ t. t ++ join_rest newline lines) e
          ∙ append_assoc (spelled s) (newline ++ line) (join_rest newline lines),
    )

leftover-spelled :
    (s : Splitter) (c : List Bytes) → s.current ≡ c → join_rest newline (leftover s) ≡ spelled s
leftover-spelled s [] e = rw e (sym (append-nil (join_rest newline s.blocks)))
leftover-spelled s (l ∷ c) e = rw e (
    join_rest-append newline s.blocks _
    ∙ ap (λ t. join_rest newline s.blocks ++ (newline ++ t))
        (append-nil (l ++ join_rest newline c)))

join-join_rest : (ps : List Bytes) (t : Bytes) → join_rest newline ps ≡ 10 ∷ t → join newline ps ≡ t
join-join_rest [] t e = cc
join-join_rest (p ∷ ps) t e = cc

-- The blocks of splitIntoRules, joined by line feeds, are the text.
pub join-split_into_rules : (content : Bytes) → join newline (split_into_rules content) ≡ content
unfolding split_into_rules
join-split_into_rules content =
    let lines = split_byte 10 content in
    let s = split_lines initial lines in
    join-join_rest (leftover s) content (
      leftover-spelled s s.current refl
      ∙ (split_lines-Reads lines initial (inr refl)).1
      ∙ lines_spelled (split_byte_cons 10 content).2)
  where
    lines_spelled :
        {h : Bytes} {t : List Bytes}
        → split_byte 10 content ≡ h ∷ t
        → join_rest newline (split_byte 10 content) ≡ 10 ∷ content
    lines_spelled r = rw r (ap (◌∷◌ 10) (rw r at (join-split_byte 10 content)))
