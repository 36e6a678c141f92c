-- ===== src/CoreRuleSet/Paths.antt =====
-- Functions of package path/filepath that tools/corerulesetgen calls.
use coraza_kubernetes_operat.Prelude.{
  Bool, false, not, ◌||◌, List, [], ◌∷◌, ◌++◌, ◌==◌, if◌then◌else◌,
}
use coraza_kubernetes_operat.Prelude.Bytes.{Bytes, bytes, bytes_eq, split_byte}
use coraza_kubernetes_operat.Controller.Errors.{slash}
use coraza_kubernetes_operat.CoreRuleSet.Strings.{is_empty, join}

-- filepath.Clean on Unix: the elements that are kept, the last one first.
abbrev push_element : Bool → List Bytes → Bytes → List Bytes
push_element rooted kept element =
    if is_empty element || bytes_eq element (bytes ".")
    then kept
    else if not (bytes_eq element (bytes ".."))
    then element ∷ kept
    else parent kept
  where
    parent : List Bytes → List Bytes
    parent [] = if rooted then [] else bytes ".." ∷ []
    parent (e ∷ es) = if bytes_eq e (bytes "..") then bytes ".." ∷ e ∷ es else es

abbrev push_elements : Bool → List Bytes → List Bytes → List Bytes
push_elements rooted kept [] = kept
push_elements rooted kept (e ∷ es) = push_elements rooted (push_element rooted kept e) es

abbrev reverse_onto : List Bytes → List Bytes → List Bytes
reverse_onto [] out = out
reverse_onto (e ∷ es) out = reverse_onto es (e ∷ out)

abbrev is_rooted : Bytes → Bool
is_rooted [] = false
is_rooted (c ∷ s) = c == slash

abbrev or_dot : Bytes → Bytes
or_dot [] = bytes "."
or_dot (c ∷ s) = c ∷ s

unfoldable pub clean : Bytes → Bytes
clean path =
    let rooted = is_rooted path in
    or_dot (
      (if rooted then bytes "/" else [])
      ++ join (bytes "/") (reverse_onto (push_elements rooted [] (split_byte slash path)) []))

-- filepath.Join of two elements that are not empty.
abbrev pub join_path : Bytes → Bytes → Bytes
join_path dir name = clean (dir ++ slash ∷ name)
