-- ===== src/CoreRuleSet/Strings.antt =====
-- Functions of package strings that tools/corerulesetgen calls.
use coraza_kubernetes_operat.Prelude.{
  suc, zero, ℕ, Bool, true, false, ◌&&◌, ◌||◌, List, [], ◌∷◌, ◌++◌, Option, none, some, leb,
  Bool-cases, inl, inr, ap, ==_iff, ◌⊎◌, ltb, ◌==◌, if◌then◌else◌, ◌≡◌, refl,
}
use mathlib.Core.List.{append_assoc}
use coraza_kubernetes_operat.Prelude.Bytes.{
  has_prefix, Bytes, bytes_eq, cut_suffix, lower_byte, split_byte_cons, trim_left_space, split_byte,
}

-- Every part behind a separator.
abbrev pub join_rest : Bytes → List Bytes → Bytes
join_rest sep [] = []
join_rest sep (p ∷ ps) = sep ++ (p ++ join_rest sep ps)

-- strings.Join(parts, sep)
abbrev pub join : Bytes → List Bytes → Bytes
join sep [] = []
join sep (p ∷ ps) = p ++ join_rest sep ps

abbrev pub is_empty {ℓ} : {A : Type ℓ} → List A → Bool
is_empty [] = true
is_empty (x ∷ l) = false

-- strings.TrimRight(s, cutset), for a cutset of ASCII characters.
abbrev pub trim_right : (ℕ → Bool) → Bytes → Bytes
trim_right in_set [] = []
trim_right in_set (c ∷ s) =
    let rest = trim_right in_set s in if in_set c && bytes_eq rest [] then [] else c ∷ rest

-- strings.TrimLeft(s, cutset)
abbrev pub trim_left : (ℕ → Bool) → Bytes → Bytes
trim_left in_set [] = []
trim_left in_set (c ∷ s) = let rest = trim_left in_set s in if in_set c then rest else c ∷ s

-- strings.TrimSpace
abbrev trim_right_space : Bytes → Bytes
trim_right_space [] = []
trim_right_space (c ∷ s) =
    let rest = trim_right_space s in if bytes_eq (trim_left_space (c ∷ s)) [] then [] else c ∷ rest

abbrev pub trim_space : Bytes → Bytes
trim_space s = trim_right_space (trim_left_space s)

abbrev or_whole : Option Bytes → Bytes → Bytes
or_whole none s = s
or_whole (some t) s = t

-- strings.TrimSuffix
abbrev pub trim_suffix : Bytes → Bytes → Bytes
trim_suffix s p = or_whole (cut_suffix s p) s

abbrev pub is_found {ℓ} : {A : Type ℓ} → Option A → Bool
is_found none = false
is_found (some a) = true

-- strings.HasSuffix
abbrev pub has_suffix : Bytes → Bytes → Bool
has_suffix s p = is_found (cut_suffix s p)

-- strings.ReplaceAll(s, old, new) for an `old` of one byte.
abbrev pub replace_byte : ℕ → Bytes → Bytes → Bytes
replace_byte old new [] = []
replace_byte old new (c ∷ s) =
    let rest = replace_byte old new s in if c == old then new ++ rest else c ∷ rest

-- strings.ToLower, for the letters of ASCII and the two others whose lower case is in ASCII, the dotted
-- capital I and the Kelvin sign; the second number counts the bytes that go with the first.
abbrev lowered : Bytes → ℕ × ℕ
lowered [] = (0, 0)
lowered (c ∷ s) =
    if has_prefix (c ∷ s) (0xc4 ∷ 0xb0 ∷ [])
    then (b'i', 1)
    else if has_prefix (c ∷ s) (0xe2 ∷ 0x84 ∷ 0xaa ∷ [])
    then (b'k', 2)
    else (lower_byte c, 0)

abbrev lower_from : ℕ → Bytes → Bytes
lower_from skip [] = []
lower_from (suc skip) (c ∷ s) = lower_from skip s
lower_from zero (c ∷ s) = let (l, skip) = lowered (c ∷ s) in l ∷ lower_from skip s

abbrev pub to_lower : Bytes → Bytes
to_lower = lower_from 0

-- The order of Go strings: less or equal.
abbrev pub bytes_le : Bytes → Bytes → Bool
bytes_le [] t = true
bytes_le (a ∷ s) [] = false
bytes_le (a ∷ s) (b ∷ t) = ltb a b || a == b && bytes_le s t

abbrev insert_string : Bytes → List Bytes → List Bytes
insert_string s [] = s ∷ []
insert_string s (t ∷ l) =
    let rest = insert_string s l in if bytes_le s t then s ∷ t ∷ l else t ∷ rest

-- sort.Strings; equal strings are the same, so the result does not depend on the algorithm.
abbrev pub sort_strings : List Bytes → List Bytes
sort_strings [] = []
sort_strings (s ∷ l) = insert_string s (sort_strings l)

abbrev between : ℕ → ℕ → ℕ → Bool
between a b c = leb a c && leb c b

abbrev continues : ℕ → Bool
continues = between 0x80 0xbf

abbrev two_bytes : ℕ → ℕ → Bool
two_bytes a b = between 0xc2 0xdf a && continues b

abbrev three_bytes : ℕ → ℕ → ℕ → Bool
three_bytes a b c =
    (a == 0xe0 && between 0xa0 0xbf b
      || a == 0xed && between 0x80 0x9f b
      || (between 0xe1 0xec a || between 0xee 0xef a) && continues b)
    && continues c

abbrev four_bytes : ℕ → ℕ → ℕ → ℕ → Bool
four_bytes a b c d =
    (a == 0xf0 && between 0x90 0xbf b
      || between 0xf1 0xf3 a && continues b
      || a == 0xf4 && between 0x80 0x8f b)
    && continues c
    && continues d

-- strings.ToValidUTF8(s, ""): the bytes that belong to no encoded character are dropped.
unfoldable pub to_valid_utf8 : Bytes → Bytes
to_valid_utf8 [] = []
to_valid_utf8 (a ∷ []) = if ltb a 0x80 then a ∷ [] else []
to_valid_utf8 (a ∷ b ∷ []) =
    let one = to_valid_utf8 (b ∷ []) in
    if ltb a 0x80 then a ∷ one else if two_bytes a b then a ∷ b ∷ [] else one
to_valid_utf8 (a ∷ b ∷ c ∷ []) =
    let one = to_valid_utf8 (b ∷ c ∷ []) in
    let two = to_valid_utf8 (c ∷ []) in
    if ltb a 0x80
    then a ∷ one
    else if two_bytes a b
    then a ∷ b ∷ two
    else if three_bytes a b c
    then a ∷ b ∷ c ∷ []
    else one
to_valid_utf8 (a ∷ b ∷ c ∷ d ∷ s) =
    let one = to_valid_utf8 (b ∷ c ∷ d ∷ s) in
    let two = to_valid_utf8 (c ∷ d ∷ s) in
    let three = to_valid_utf8 (d ∷ s) in
    let four = to_valid_utf8 s in
    if ltb a 0x80
    then a ∷ one
    else if two_bytes a b
    then a ∷ b ∷ two
    else if three_bytes a b c
    then a ∷ b ∷ c ∷ three
    else if four_bytes a b c d
    then a ∷ b ∷ c ∷ d ∷ four
    else one

pub join_rest-append :
    (sep : Bytes) (ps qs : List Bytes)
    → join_rest sep (ps ++ qs) ≡ join_rest sep ps ++ join_rest sep qs
join_rest-append sep [] qs = refl
join_rest-append sep (p ∷ ps) qs = simp (join_rest-append sep ps, append_assoc)

-- What strings.Split cuts, strings.Join puts together.
pub join-split_byte : (c : ℕ) (s : Bytes) → join (c ∷ []) (split_byte c s) ≡ s
join-split_byte c [] = refl
join-split_byte c (a ∷ s) =
    let (h, t, r) = split_byte_cons c s in
    let ih : h ++ join_rest (c ∷ []) t ≡ s = rw r at (join-split_byte c s) in
    split_at (Bool-cases (a == c)) h t r ih
  where
    split_at :
        ((a == c) ≡ true) ⊎ ((a == c) ≡ false)
        → (h : Bytes) (t : List Bytes) → split_byte c s ≡ h ∷ t
        → h ++ join_rest (c ∷ []) t ≡ s
        → join (c ∷ []) (split_byte c (a ∷ s)) ≡ a ∷ s
    split_at (inl e) h t r ih = rw (e, r, (==_iff a c).0 e) (ap (◌∷◌ c) ih)
    split_at (inr e) h t r ih = rw (e, r) (ap (◌∷◌ a) ih)
