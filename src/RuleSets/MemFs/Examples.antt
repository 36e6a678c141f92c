-- ===== src/RuleSets/MemFs/Examples.antt =====
-- Tests of the file system in memory, and its theorem at a concrete input.
use coraza_kubernetes_operat.Prelude.{◌≡◌, refl, [], ◌∷◌, ◌++◌}
use coraza_kubernetes_operat.Prelude.Bytes.{Bytes, bytes}
use coraza_kubernetes_operat.Prelude.Assoc.{Assoc}
use coraza_kubernetes_operat.Controller.Errors.{plain_error, base, sanitize_error_message}
use coraza_kubernetes_operat.RuleSets.MemFs.{
  MemFs, has_file, not_exist_error, new_mem_fs, write_file, open_file, get_data_filesystem,
  open_file-get_data_filesystem,
}

written :
    open_file (bytes "a") (write_file (bytes "a") (bytes "xy") 7 new_mem_fs)
    ≡ has_file (record { name = bytes "a"; mod_time = 7; unread = bytes "xy"; size = 2 })
unfolding open_file
written = refl

abbrev files : Assoc Bytes
files = (bytes "a", bytes "xy") ∷ (bytes "b", bytes "z") ∷ []

abbrev file_system : MemFs
file_system =
    (bytes "a", record { content = bytes "xy"; mod_time = 7 })
    ∷ (bytes "b", record { content = bytes "z"; mod_time = 7 })
    ∷ []

open_file-get_data_filesystem_example :
    (open_file (bytes "b") file_system
      ≡ has_file (record { name = bytes "b"; mod_time = 7; unread = bytes "z"; size = 1 }))
    × (sanitize_error_message (not_exist_error (bytes "b"))
        ≡ plain_error (bytes "open " ++ (base (bytes "b") ++ bytes ": data does not exist")))
unfolding get_data_filesystem
open_file-get_data_filesystem_example =
    open_file-get_data_filesystem (λ _. 7) files file_system (bytes "b") (refl, (refl, tt)) refl
