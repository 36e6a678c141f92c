-- ===== src/Controller/Errors/Examples.antt =====
-- Tests of the messages about missing files, and their theorem at a concrete input.
use coraza_kubernetes_operat.Prelude.{◌≡◌, refl, none, some, [], ◌∷◌, ◌++◌, true}
use coraza_kubernetes_operat.Prelude.Bytes.{bytes}
use coraza_kubernetes_operat.Controller.Errors.{
  GoError, plain_error, base, slash, sanitize_error_message, extract_missing_file_basename,
  build_cache_ready_message,
}

bases :
    (base (bytes "/etc/crs/data.txt") ≡ bytes "data.txt")
    × (base (bytes "a/b//") ≡ bytes "b")
    × (base (bytes "//") ≡ bytes "/")
    × (base [] ≡ bytes ".")
unfolding base
bases = (refl, refl, refl, refl)

abbrev missing_file : GoError
missing_file = record {
  text = bytes "open /etc/crs/data.txt: no such file or directory";
  path_error =
      some (record { path = bytes "/etc/crs" ++ slash ∷ bytes "data.txt"; path_not_exist = true });
  not_exist = true;
}

abbrev hidden : GoError
hidden = record { text = bytes "/etc: gone"; path_error = none; not_exist = true }

redacted :
    sanitize_error_message hidden
    ≡ plain_error (bytes "validation failed: referenced file does not exist (path redacted)")
unfolding sanitize_error_message extract_missing_file_basename
redacted = refl

ready_message :
    build_cache_ready_message (bytes "ns") (bytes "crs") (bytes "m")
    ≡ bytes "Successfully cached rules for ns/crs\n[annotation override] m"
unfolding build_cache_ready_message
ready_message = refl
