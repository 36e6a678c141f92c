-- ===== src/Controller/Errors/Elements.antt =====
-- What filepath.Base gives of a path.
use mathlib.Core.List.{append_assoc, append-nil}
use coraza_kubernetes_operat.Prelude.{
  ℕ, List, sym, Bool, true, false, ◌&&◌, ◌≡◌, refl, ap, ◌∙◌, ◌⊎◌, inl, inr, Bool-cases,
  if◌then◌else◌, [], ◌∷◌, ◌++◌, ◌==◌, all, arith,
}
use coraza_kubernetes_operat.Prelude.Bytes.{Bytes, bytes, bytes_eq, bytes_eq_iff}
use coraza_kubernetes_operat.Controller.Errors.{
  base, slash, has_slash, last_element, trim_slashes, or_slash,
}

last_element_plain : (s : Bytes) → has_slash (last_element s) ≡ false
last_element_plain [] = refl
last_element_plain (c ∷ cs) = ground (arith, last_element_plain cs)

trimmed_tail :
    (s : Bytes) → (t : Bytes) × (all (λ c. c == slash) t ≡ true) × (s ≡ trim_slashes s ++ t)
trimmed_tail [] = ([], refl, refl)
trimmed_tail (c ∷ cs) =
    let (t, slashes, e) = trimmed_tail cs in
    elim (Bool-cases (c == slash && bytes_eq (trim_slashes cs) [])) [
      | inl gone ↦
          let none_left : trim_slashes cs ≡ [] =
            (bytes_eq_iff (trim_slashes cs) []).0 (ground (arith, gone)) in
          rw gone
            (c ∷ t, ground (arith, gone, slashes), ap (λ l. c ∷ l) (e ∙ ap (λ l. l ++ t) none_left))
      | inr kept ↦ rw kept (t, slashes, ap (λ l. c ∷ l) e)
    ]

-- A directory is empty or ends in a slash.
abbrev pub IsDirectory : Bytes → Type 0
IsDirectory dir = (dir ≡ []) ⊎ ((d : Bytes) × (dir ≡ d ++ slash ∷ []))

last_element_of : (s : Bytes) → (dir : Bytes) × IsDirectory dir × (s ≡ dir ++ last_element s)
last_element_of [] = ([], inl refl, refl)
last_element_of (c ∷ cs) =
    let (dir, is_dir, e) = last_element_of cs in
    elim (Bool-cases (has_slash cs)) [
      | inl deeper ↦ rw deeper (elim is_dir [
        | inl nothing ↦
            let whole : cs ≡ last_element cs = e ∙ ap (λ d. d ++ last_element cs) nothing in
            let plain : has_slash cs ≡ false = ap has_slash whole ∙ last_element_plain cs in
            absurd (ground (arith, deeper, plain))
        | inr (d, ends) ↦ (c ∷ dir, inr (c ∷ d, ap (λ l. c ∷ l) ends), ap (λ l. c ∷ l) e)
      ])
      | inr flat ↦ elim (Bool-cases (c == slash)) [
        | inl here ↦ rw (flat, here) (c ∷ [], inr ([], ground (arith, here)), refl)
        | inr other ↦ rw (flat, other) ([], inl refl, refl)
      ]
    ]

no_cons_nil : {A : Type 0} (a : A) (l : List A) → a ∷ l ≡ [] → ⊥
no_cons_nil a l h = cc

no_snoc_nil : (d : Bytes) → [] ≡ d ++ slash ∷ [] → ⊥
no_snoc_nil [] h = no_cons_nil slash [] (sym h)
no_snoc_nil (x ∷ d) h = no_cons_nil x (d ++ slash ∷ []) (sym h)

abbrev head_or : ℕ → Bytes → ℕ
head_or n [] = n
head_or n (c ∷ cs) = c

abbrev tail_of : Bytes → Bytes
tail_of [] = []
tail_of (c ∷ cs) = cs

-- What trim_slashes leaves does not end in a slash.
trim_slashes_end : (s d : Bytes) → trim_slashes s ≡ d ++ slash ∷ [] → ⊥
trim_slashes_end [] d h = no_snoc_nil d h
trim_slashes_end (c ∷ cs) d h =
    by_test (c == slash && bytes_eq (trim_slashes cs) []) refl d h (trim_slashes_end cs)
  where
    by_test :
        (b : Bool)
        → (c == slash && bytes_eq (trim_slashes cs) []) ≡ b
        → (d : Bytes) → (if b then [] else c ∷ trim_slashes cs) ≡ d ++ slash ∷ []
        → ((d : Bytes) → trim_slashes cs ≡ d ++ slash ∷ [] → ⊥)
        → ⊥
    by_test true t d h ih = no_snoc_nil d h
    by_test false t [] h ih =
        let here : c ≡ slash = ap (head_or 0) h in
        let whole : trim_slashes cs ≡ [] = ap tail_of h in
        absurd (ground (arith, t, here, (bytes_eq_iff (trim_slashes cs) []).1 whole))
    by_test false t (x ∷ d) h ih = ih d (ap tail_of h)

root_of : (s : Bytes) → last_element (trim_slashes s) ≡ [] → all (λ c. c == slash) s ≡ true
root_of s h =
    let (t, slashes, e) = trimmed_tail s in
    let (dir, is_dir, found) = last_element_of (trim_slashes s) in
    let bare : trim_slashes s ≡ dir = found ∙ ap (λ l. dir ++ l) h ∙ append-nil dir in
    elim is_dir [
      | inl nothing ↦ ap (all (λ c. c == slash)) (e ∙ ap (λ l. l ++ t) (bare ∙ nothing)) ∙ slashes
      | inr (d, ends) ↦ absurd (trim_slashes_end s d (bare ∙ ends))
    ]

-- What filepath.Base gives: an element without a slash, which is the last of the path but for slashes at
-- its end, or a dot for the empty path, or a slash for a path of slashes.
abbrev pub IsElement : Bytes → Bytes → Type 0
IsElement name path =
    ((has_slash name ≡ false)
      × ((dir : Bytes) × (tail : Bytes) × IsDirectory dir
          × (all (λ c. c == slash) tail ≡ true)
          × (path ≡ dir ++ (name ++ tail))))
    ⊎ (((name ≡ bytes ".") × (path ≡ []))
        ⊎ ((name ≡ bytes "/") × (all (λ c. c == slash) path ≡ true)))

pub base-IsElement : (path : Bytes) → IsElement (base path) path
unfolding base
base-IsElement [] = inr (inl (refl, refl))
base-IsElement (c ∷ cs) =
    go (last_element (trim_slashes (c ∷ cs))) refl (last_element_plain (trim_slashes (c ∷ cs)))
      (e ∙ ap (λ l. l ++ tail) found ∙ append_assoc dir (last_element (trim_slashes (c ∷ cs))) tail)
  where
    tail : Bytes
    tail = (trimmed_tail (c ∷ cs)).0

    e : c ∷ cs ≡ trim_slashes (c ∷ cs) ++ tail
    e = (trimmed_tail (c ∷ cs)).2

    dir : Bytes
    dir = (last_element_of (trim_slashes (c ∷ cs))).0

    found : trim_slashes (c ∷ cs) ≡ dir ++ last_element (trim_slashes (c ∷ cs))
    found = (last_element_of (trim_slashes (c ∷ cs))).2

    go :
        (name : Bytes)
        → last_element (trim_slashes (c ∷ cs)) ≡ name
        → has_slash name ≡ false
        → c ∷ cs ≡ dir ++ (name ++ tail)
        → IsElement (or_slash name) (c ∷ cs)
    go [] is_last plain path = inr (inr (refl, root_of (c ∷ cs) is_last))
    go (d ∷ name) is_last plain path = inl (
      plain,
      (dir, tail, (last_element_of (trim_slashes (c ∷ cs))).1, (trimmed_tail (c ∷ cs)).1, path),
    )
