-- ===== src/Prelude/Bytes.antt =====
-- Go strings: sequences of bytes, with the functions of package strings that the operator calls.
use Prim.Native.Nat.{ℕ, ◌+◌, ◌/◌, ◌%◌}
use Prim.Native.Char.{code}
use Prim.Native.String.{String}
use mathlib.Core.Path.{ap, ◌≡◌, refl}
use mathlib.Core.Logic.{inl, inr, ◌↔◌, ◌≢◌}
use mathlib.Core.Bool.{Bool, true, false, ◌&&◌, ◌||◌}
use mathlib.Core.Option.{Option, none, some}
use mathlib.Core.List.{List, [], ◌∷◌, ◌++◌}
use native.Mathlib.Omega.{arith}
use coraza_kubernetes_operat.Prelude.Tests.{Bool-cases, leb, ltb, ◌==◌, if◌then◌else◌}
use coraza_kubernetes_operat.Prelude.Lists.{length-append, length, any}

abbrev pub Bytes : Type 0
Bytes = List ℕ

-- The UTF-8 bytes of a code point.
abbrev utf8_char : ℕ → Bytes
utf8_char c =
    if ltb c 0x80
    then c ∷ []
    else if ltb c 0x800
    then (0xc0 + c / 64) ∷ (0x80 + c % 64) ∷ []
    else if ltb c 0x10000
    then (0xe0 + c / 4096) ∷ (0x80 + c / 64 % 64) ∷ (0x80 + c % 64) ∷ []
    else (0xf0 + c / 262144) ∷ (0x80 + c / 4096 % 64) ∷ (0x80 + c / 64 % 64) ∷ (0x80 + c % 64) ∷ []

-- A string literal of the source.
abbrev pub bytes : String → Bytes
bytes String.[] = []
bytes (String.◌∷◌ c s) = utf8_char (code c) ++ bytes s

-- s == t
abbrev pub bytes_eq : Bytes → Bytes → Bool
bytes_eq [] [] = true
bytes_eq (a ∷ s) (b ∷ t) = a == b && bytes_eq s t
bytes_eq _ _ = false

pub bytes_eq_refl : (s : Bytes) → bytes_eq s s ≡ true
bytes_eq_refl [] = refl
bytes_eq_refl (a ∷ s) = ground (arith, bytes_eq_refl s)

bytes_eq_sound : (s t : Bytes) → bytes_eq s t ≡ true → s ≡ t
bytes_eq_sound [] [] h = refl
bytes_eq_sound [] (b ∷ t) h = cc
bytes_eq_sound (a ∷ s) [] h = cc
bytes_eq_sound (a ∷ s) (b ∷ t) h = ground (arith, bytes_eq_sound s t)

pub bytes_eq_iff : (s t : Bytes) → (bytes_eq s t ≡ true) ↔ (s ≡ t)
bytes_eq_iff s t = (bytes_eq_sound s t, λ e. rw e (bytes_eq_refl t))

pub bytes_eq-false : (s t : Bytes) → s ≢ t → bytes_eq s t ≡ false
bytes_eq-false s t h = ground (arith, bytes_eq_iff s t)

-- strings.CutPrefix(s, prefix); `none` is `!found`.
abbrev pub cut_prefix : Bytes → Bytes → Option Bytes
cut_prefix s [] = some s
cut_prefix [] (b ∷ p) = none
cut_prefix (a ∷ s) (b ∷ p) = if a == b then cut_prefix s p else none

abbrev pub has_prefix : Bytes → Bytes → Bool
has_prefix s [] = true
has_prefix [] (b ∷ p) = false
has_prefix (a ∷ s) (b ∷ p) = a == b && has_prefix s p

abbrev or_else {ℓ} : {A : Type ℓ} → Option A → A → A
or_else none d = d
or_else (some a) d = a

-- strings.TrimPrefix
abbrev pub trim_prefix : Bytes → Bytes → Bytes
trim_prefix s p = or_else (cut_prefix s p) s

abbrev on_head : ℕ → Option Bytes → Option Bytes
on_head a none = none
on_head a (some s) = some (a ∷ s)

-- strings.CutSuffix(s, suffix)
abbrev pub cut_suffix : Bytes → Bytes → Option Bytes
cut_suffix [] p = if bytes_eq [] p then some [] else none
cut_suffix (a ∷ s) p = if bytes_eq (a ∷ s) p then some [] else on_head a (cut_suffix s p)

abbrev on_first : ℕ → Option (Bytes × Bytes) → Option (Bytes × Bytes)
on_first a none = none
on_first a (some (s, t)) = some (a ∷ s, t)

-- strings.Cut(s, sep) for a separator of one byte: what stands before and after the first.
abbrev pub cut_byte : ℕ → Bytes → Option (Bytes × Bytes)
cut_byte c [] = none
cut_byte c (a ∷ s) = if a == c then some ([], s) else on_first a (cut_byte c s)

-- strings.Contains(s, t)
abbrev pub contains : Bytes → Bytes → Bool
contains [] t = has_prefix [] t
contains (a ∷ s) t = has_prefix (a ∷ s) t || contains s t

-- The ASCII part of strings.ToLower.
abbrev pub lower_byte : ℕ → ℕ
lower_byte c = if ltb 64 c && ltb c 91 then c + 32 else c

pub cut_prefix-some : (s p t : Bytes) → cut_prefix s p ≡ some t → s ≡ p ++ t
cut_prefix-some s [] t h = ground arith
cut_prefix-some [] (b ∷ p) t h = cc
cut_prefix-some (a ∷ s) (b ∷ p) t h = ground (arith, cut_prefix-some s p t)

pub cut_prefix-append : (p t : Bytes) → cut_prefix (p ++ t) p ≡ some t
cut_prefix-append [] t = refl
cut_prefix-append (b ∷ p) t = ground (arith, cut_prefix-append p t)

pub has_prefix-append : (p t : Bytes) → has_prefix (p ++ t) p ≡ true
has_prefix-append [] t = refl
has_prefix-append (b ∷ p) t = ground (arith, has_prefix-append p t)

pub cut_suffix-some : (s p t : Bytes) → cut_suffix s p ≡ some t → s ≡ t ++ p
cut_suffix-some [] p t h = ground (arith, bytes_eq_iff [] p)
cut_suffix-some (a ∷ s) p [] h = ground (arith, bytes_eq_iff (a ∷ s) p)
cut_suffix-some (a ∷ s) p (b ∷ t) h = ground (arith, cut_suffix-some s p t)

-- The first separator is where the string is cut.
pub cut_byte-append :
    (c : ℕ) (s t : Bytes) → any (λ a. a == c) s ≡ false → cut_byte c (s ++ c ∷ t) ≡ some (s, t)
cut_byte-append c [] t h = ground arith
cut_byte-append c (a ∷ s) t h = ground (arith, cut_byte-append c s t)

pub cut_byte-some :
    (c : ℕ) (s l r : Bytes)
    → cut_byte c s ≡ some (l, r)
    → (s ≡ l ++ c ∷ r) × (any (λ a. a == c) l ≡ false)
cut_byte-some c [] l r h = cc
cut_byte-some c (a ∷ s) [] r h = ground arith
cut_byte-some c (a ∷ s) (b ∷ l) r h = ground (arith, cut_byte-some c s l r)

cut_suffix_self : (p : Bytes) → cut_suffix p p ≡ some []
cut_suffix_self [] = refl
cut_suffix_self (b ∷ p) = rw (bytes_eq_refl (b ∷ p))

longer : (a : ℕ) (t p : Bytes) → bytes_eq (a ∷ (t ++ p)) p ≡ false
longer a t p = bytes_eq-false (a ∷ (t ++ p)) p (λ e. omega (arith, ap length e, length-append t p))

pub cut_suffix-append : (t p : Bytes) → cut_suffix (t ++ p) p ≡ some t
cut_suffix-append [] p = cut_suffix_self p
cut_suffix-append (a ∷ t) p = rw (longer a t p, cut_suffix-append t p)

abbrev add_byte : ℕ → List Bytes → List Bytes
add_byte a [] = (a ∷ []) ∷ []
add_byte a (s ∷ l) = (a ∷ s) ∷ l

-- strings.Split(s, sep) for a separator of one byte.
abbrev pub split_byte : ℕ → Bytes → List Bytes
split_byte c [] = [] ∷ []
split_byte c (a ∷ s) = let rest = split_byte c s in if a == c then [] ∷ rest else add_byte a rest

-- The white space characters of Unicode, as UTF-8.
abbrev ascii_space : ℕ → Bool
ascii_space c = leb 9 c && leb c 13 || c == 32

abbrev space_2 : ℕ → ℕ → Bool
space_2 a b = a == 0xc2 && (b == 0x85 || b == 0xa0)

abbrev space_3 : ℕ → ℕ → ℕ → Bool
space_3 a b c =
    a == 0xe1 && b == 0x9a && c == 0x80
    || a == 0xe2 && b == 0x80 && (leb 0x80 c && leb c 0x8a || c == 0xa8 || c == 0xa9 || c == 0xaf)
    || a == 0xe2 && b == 0x81 && c == 0x9f
    || a == 0xe3 && b == 0x80 && c == 0x80

-- strings.TrimLeftFunc(s, unicode.IsSpace)
abbrev pub trim_left_space : Bytes → Bytes
trim_left_space [] = []
trim_left_space (a ∷ []) = if ascii_space a then [] else a ∷ []
trim_left_space (a ∷ b ∷ []) =
    let rest = trim_left_space (b ∷ []) in
    if ascii_space a then rest else if space_2 a b then [] else a ∷ b ∷ []
trim_left_space (a ∷ b ∷ c ∷ s) =
    let one = trim_left_space (b ∷ c ∷ s) in
    let two = trim_left_space (c ∷ s) in
    let three = trim_left_space s in
    if ascii_space a
    then one
    else if space_2 a b
    then two
    else if space_3 a b c
    then three
    else a ∷ b ∷ c ∷ s

pub split_byte_cons :
    (c : ℕ) (s : Bytes) → (h : Bytes) × (l : List Bytes) × (split_byte c s ≡ h ∷ l)
split_byte_cons c [] = ([], [], refl)
split_byte_cons c (a ∷ s) = elim (Bool-cases (a == c)) [
  | inl e ↦ ([], split_byte c s, rw e)
  | inr e ↦ let (h, l, r) = split_byte_cons c s in (a ∷ h, l, rw (e, r))
]

add_byte-append :
    (a : ℕ) (c : ℕ) (s : Bytes) (l : List Bytes)
    → add_byte a (split_byte c s ++ l) ≡ add_byte a (split_byte c s) ++ l
add_byte-append a c s l = let (h, t, e) = split_byte_cons c s in rw e

pub split_byte-append :
    (c : ℕ) (s t : Bytes) → split_byte c (s ++ c ∷ t) ≡ split_byte c s ++ split_byte c t
split_byte-append c [] t = ground arith
split_byte-append c (a ∷ s) t = elim (Bool-cases (a == c)) [
  | inl e ↦ rw (e, split_byte-append c s t)
  | inr e ↦ rw (e, split_byte-append c s t) (add_byte-append a c s (split_byte c t))
]

pub split_byte_whole : (c : ℕ) (s : Bytes) → any (λ a. a == c) s ≡ false → split_byte c s ≡ s ∷ []
split_byte_whole c [] h = refl
split_byte_whole c (a ∷ s) h = ground (arith, split_byte_whole c s)
