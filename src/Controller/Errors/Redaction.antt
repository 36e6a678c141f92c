-- ===== src/Controller/Errors/Redaction.antt =====
-- What the messages about missing files reveal.
use coraza_kubernetes_operat.Prelude.{Bool, true, false, ◌≡◌, Option, none, some, ◌++◌}
use coraza_kubernetes_operat.Prelude.Bytes.{Bytes, bytes}
use coraza_kubernetes_operat.Prelude.Assoc.{Assoc, lookup}
use coraza_kubernetes_operat.Controller.Errors.{
  GoError, PathError, plain_error, is_some, sanitize_error_message, should_skip_missing_file_error,
}
use coraza_kubernetes_operat.Controller.Errors.Elements.{IsElement}

-- The chain has a *fs.PathError, and the first one is about a missing file.
abbrev pub is_missing_path : Option PathError → Bool
is_missing_path none = false
is_missing_path (some p) = p.path_not_exist

-- The message of an error, and whether it may be skipped. A file that is named is looked up by its last
-- element, an error that only wraps fs.ErrNotExist says nothing of the chain, and others pass.
pub data Redacted (e : GoError) (files : Assoc Bytes) : Type 0 where
  names_element :
      (p : PathError) (name : Bytes)
      → e.path_error ≡ some p
      → p.path_not_exist ≡ true
      → IsElement name p.path
      → sanitize_error_message e
        ≡ plain_error (bytes "open " ++ (name ++ bytes ": data does not exist"))
      → should_skip_missing_file_error e (some files) ≡ is_some (lookup name files)
      → Redacted e files
  names_nothing :
      is_missing_path e.path_error ≡ false
      → e.not_exist ≡ true
      → sanitize_error_message e
        ≡ plain_error (bytes "validation failed: referenced file does not exist (path redacted)")
      → should_skip_missing_file_error e (some files) ≡ false
      → Redacted e files
  passes :
      is_missing_path e.path_error ≡ false
      → e.not_exist ≡ false
      → sanitize_error_message e ≡ e
      → should_skip_missing_file_error e (some files) ≡ false
      → Redacted e files
