-- ===== src/Controller/Watches/Requests.antt =====
-- collectRequests of internal/controller/utils.go: for which objects of a list it makes requests.
use coraza_kubernetes_operat.Prelude.{
  Bool, true, false, ◌&&◌, ◌≡◌, ◌↔◌, ◌⊎◌, inl, inr, List, [], ◌∷◌, In, select, arith, refl, sym,
  subst, if◌then◌else◌,
}
use coraza_kubernetes_operat.Controller.Watches.{NamespacedName, collect_requests}

-- The step of a loop that keeps what passes a test.
In-kept :
    {A : Type 0} (b : Bool) (n x : A) (rest : List A)
    → In n (if b then x ∷ rest else rest)
    → ((b ≡ true) × (n ≡ x)) ⊎ In n rest
In-kept true n x rest (inl e) = inl (refl, e)
In-kept true n x rest (inr i) = inr i
In-kept false n x rest i = inr i

keep-In :
    {A : Type 0} (b : Bool) (n x : A) (rest : List A)
    → ((b ≡ true) × (n ≡ x)) ⊎ In n rest
    → In n (if b then x ∷ rest else rest)
keep-In true n x rest (inl (t, e)) = inl e
keep-In true n x rest (inr i) = inr i
keep-In false n x rest (inl (t, e)) = absurd (cc t)
keep-In false n x rest (inr i) = i

-- A request is made for an object of the list that matches.
abbrev pub IsRequested :
    {A : Type 0} → (A → NamespacedName) → (A → Bool) → List A → NamespacedName → Type 0
IsRequested {A} name matches xs n = (x : A) × In x xs × (matches x ≡ true) × (name x ≡ n)

In-collect_requests :
    {A : Type 0} (name : A → NamespacedName) (matches : A → Bool) (xs : List A) (n : NamespacedName)
    → In n (collect_requests name matches xs)
    → IsRequested name matches xs n
unfolding collect_requests
In-collect_requests name matches [] n i = absurd i
In-collect_requests name matches (x ∷ xs) n i = elim (In-kept (matches x) n (name x) _ i) [
  | inl (t, e) ↦ (x, inl refl, t, sym e)
  | inr j ↦ let (y, k, m, e) = In-collect_requests name matches xs n j in (y, inr k, m, e)
]

collect_requests-In :
    {A : Type 0} (name : A → NamespacedName) (matches : A → Bool) (xs : List A) (n : NamespacedName)
    (x : A)
    → In x xs
    → matches x ≡ true
    → name x ≡ n
    → In n (collect_requests name matches xs)
unfolding collect_requests
collect_requests-In name matches [] n x i t e = absurd i
collect_requests-In name matches (y ∷ xs) n x (inl q) t e =
    keep-In (matches y) n (name y) (collect_requests name matches xs)
      (inl (subst (λ z. matches z ≡ true) q t, subst (λ z. n ≡ name z) q (sym e)))
collect_requests-In name matches (y ∷ xs) n x (inr i) t e =
    keep-In (matches y) n (name y) (collect_requests name matches xs)
      (inr (collect_requests-In name matches xs n x i t e))

In-select :
    {A : Type 0} (p : A → Bool) (xs : List A) (x : A) → In x (select p xs) → In x xs × (p x ≡ true)
In-select p [] x i = absurd i
In-select p (y ∷ xs) x i = elim (In-kept (p y) x y _ i) [
  | inl (t, e) ↦ (inl e, subst (λ z. p z ≡ true) (sym e) t)
  | inr j ↦ let (k, t) = In-select p xs x j in (inr k, t)
]

select-In :
    {A : Type 0} (p : A → Bool) (xs : List A) (x : A) → In x xs → p x ≡ true → In x (select p xs)
select-In p [] x i t = absurd i
select-In p (y ∷ xs) x (inl e) t =
    keep-In (p y) x y (select p xs) (inl (subst (λ z. p z ≡ true) e t, e))
select-In p (y ∷ xs) x (inr i) t = keep-In (p y) x y (select p xs) (inr (select-In p xs x i t))

-- To match in a selection is to match both tests.
pub collect_requests-select_iff :
    {A : Type 0} (name : A → NamespacedName) (matches p : A → Bool) (xs : List A)
    (n : NamespacedName)
    → In n (collect_requests name matches (select p xs))
      ↔ IsRequested name (λ x. p x && matches x) xs n
collect_requests-select_iff name matches p xs n = (forth, back)
  where
    forth :
        In n (collect_requests name matches (select p xs))
        → IsRequested name (λ x. p x && matches x) xs n
    forth i =
        let (x, j, t, e) = In-collect_requests name matches (select p xs) n i in
        let (k, u) = In-select p xs x j in (x, k, ground (arith, t, u), e)

    back :
        IsRequested name (λ x. p x && matches x) xs n
        → In n (collect_requests name matches (select p xs))
    back (x, i, t, e) =
        collect_requests-In name matches (select p xs) n x (select-In p xs x i (ground (arith, t)))
          (ground (arith, t)) e
