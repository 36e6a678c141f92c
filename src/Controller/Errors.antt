-- ===== src/Controller/Errors.antt =====
-- internal/controller/utils.go: messages about missing files, and the message of the Ready condition.
-- An error is what the code asks of its chain: its text, its first *fs.PathError, and whether
-- errors.Is finds fs.ErrNotExist in it.
pub mod Elements
pub mod Redaction
mod Examples
use coraza_kubernetes_operat.Prelude.{
  ℕ, Bool, true, false, ◌&&◌, not, ◌≡◌, Option, none, some, List, [], ◌∷◌, ◌++◌, any, ◌==◌,
  if◌then◌else◌,
}
use coraza_kubernetes_operat.Prelude.Bytes.{Bytes, bytes, bytes_eq}
use coraza_kubernetes_operat.Prelude.Assoc.{Assoc, lookup}

pub record PathError : Type 0 where
  pub path : Bytes
  pub path_not_exist : Bool

pub record GoError : Type 0 where
  pub text : Bytes
  pub path_error : Option PathError
  pub not_exist : Bool

-- errors.New, or fmt.Errorf without a wrapped error.
abbrev pub plain_error : Bytes → GoError
plain_error text = record { text = text; path_error = none; not_exist = false }

-- fmt.Errorf whose %w stands at the end.
abbrev pub wrap : Bytes → GoError → GoError
wrap prefix e = record e { text = prefix ++ e.text }

abbrev pub slash : ℕ
slash = 47

abbrev pub has_slash : Bytes → Bool
has_slash = any (λ c. c == slash)

abbrev trim_slashes : Bytes → Bytes
trim_slashes [] = []
trim_slashes (c ∷ cs) =
    let rest = trim_slashes cs in if c == slash && bytes_eq rest [] then [] else c ∷ rest

abbrev pub last_element : Bytes → Bytes
last_element [] = []
last_element (c ∷ cs) =
    let rest = last_element cs in if has_slash cs then rest else if c == slash then cs else c ∷ cs

abbrev or_slash : Bytes → Bytes
or_slash [] = bytes "/"
or_slash (c ∷ cs) = c ∷ cs

-- filepath.Base on Unix.
unfoldable pub base : Bytes → Bytes
base [] = bytes "."
base (c ∷ cs) = or_slash (last_element (trim_slashes (c ∷ cs)))

abbrev of_path_error : Option PathError → Option Bytes
of_path_error none = none
of_path_error (some e) = if e.path_not_exist then some (base e.path) else none

unfoldable pub extract_missing_file_basename : GoError → Option Bytes
extract_missing_file_basename e = of_path_error e.path_error

abbrev redact : Option Bytes → GoError → GoError
redact (some basename) e =
    plain_error (bytes "open " ++ (basename ++ bytes ": data does not exist"))
redact none e =
    if e.not_exist
    then plain_error (bytes "validation failed: referenced file does not exist (path redacted)")
    else e

unfoldable pub sanitize_error_message : GoError → GoError
unfolding extract_missing_file_basename
sanitize_error_message e = redact (extract_missing_file_basename e) e

abbrev pub is_some {ℓ} : {A : Type ℓ} → Option A → Bool
is_some none = false
is_some (some a) = true

abbrev among : Option Bytes → Assoc Bytes → Bool
among none secret_data = false
among (some basename) secret_data = is_some (lookup basename secret_data)

unfoldable pub should_skip_missing_file_error : GoError → Option (Assoc Bytes) → Bool
should_skip_missing_file_error e none = false
should_skip_missing_file_error e (some secret_data) =
    among (extract_missing_file_basename e) secret_data

unfoldable pub build_cache_ready_message : Bytes → Bytes → Bytes → Bytes
build_cache_ready_message namespace name unsupported_msg =
    let msg = bytes "Successfully cached rules for " ++ (namespace ++ (slash ∷ name)) in
    if bytes_eq unsupported_msg []
    then msg
    else msg ++ (bytes "\n[annotation override] " ++ unsupported_msg)
