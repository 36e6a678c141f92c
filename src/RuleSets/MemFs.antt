-- ===== src/RuleSets/MemFs.antt =====
-- internal/rulesets/memfs/memfs.go, and getDataFilesystem of
-- internal/controller/ruleset_controller_secret_data.go.
-- A file is its name, its modification time, the bytes that its reader has left, and its size.
mod Examples
use coraza_kubernetes_operat.Prelude.{
  ℕ, Bool, true, false, ◌≡◌, refl, sym, ap, ◌∙◌, Bool-cases, inl, inr, Option, none, some, List, [],
  ◌∷◌, ◌++◌, length, arith, if◌then◌else◌,
}
use coraza_kubernetes_operat.Prelude.Bytes.{Bytes, bytes, bytes_eq, bytes_eq_iff}
use coraza_kubernetes_operat.Prelude.Assoc.{Assoc, IsMap, lookup, insert, lookup-insert}
use coraza_kubernetes_operat.Controller.Errors.{
  PathError, GoError, plain_error, base, sanitize_error_message, extract_missing_file_basename,
}

pub record MemEntry : Type 0 where
  pub content : Bytes
  pub mod_time : ℕ

abbrev pub MemFs : Type 0
MemFs = Assoc MemEntry

pub record MemFile : Type 0 where
  pub name : Bytes
  pub mod_time : ℕ
  pub unread : Bytes
  pub size : ℕ

pub data Opened : Type 0 where
  has_file : MemFile → Opened
  no_file : GoError → Opened

abbrev pub new_mem_fs : MemFs
new_mem_fs = []

abbrev pub write_file : Bytes → Bytes → ℕ → MemFs → MemFs
write_file name content now m = insert name (record { content = content; mod_time = now }) m

-- &fs.PathError{Op: "open", Path: name, Err: fs.ErrNotExist}
abbrev pub not_exist_error : Bytes → GoError
not_exist_error name = record {
  text = bytes "open " ++ (name ++ bytes ": file does not exist");
  path_error = some (record { path = name; path_not_exist = true });
  not_exist = true;
}

abbrev pub opened : Bytes → Option MemEntry → Opened
opened name none = no_file (not_exist_error name)
opened name (some e) =
    has_file
      (record { name = name; mod_time = e.mod_time; unread = e.content; size = length e.content })

unfoldable pub open_file : Bytes → MemFs → Opened
open_file name m = opened name (lookup name m)

-- The loop over the data files. `clock` is the instant at which a file is written.
abbrev write_files : (Bytes → ℕ) → Assoc Bytes → MemFs → MemFs
write_files clock [] m = m
write_files clock ((name, content) ∷ files) m =
    write_files clock files (write_file name content (clock name) m)

-- A nil map has no file system.
unfoldable pub get_data_filesystem : (Bytes → ℕ) → Option (Assoc Bytes) → Option MemFs
get_data_filesystem clock none = none
get_data_filesystem clock (some files) = some (write_files clock files new_mem_fs)

abbrev entry_of : ℕ → Option Bytes → Option MemEntry → Option MemEntry
entry_of now none old = old
entry_of now (some content) old = some (record { content = content; mod_time = now })

lookup-write_files :
    (clock : Bytes → ℕ) (name : Bytes) (files : Assoc Bytes) (m : MemFs)
    → IsMap files
    → lookup name (write_files clock files m)
      ≡ entry_of (clock name) (lookup name files) (lookup name m)
lookup-write_files clock name [] m h = refl
lookup-write_files clock name ((k, v) ∷ files) m h =
    lookup-write_files clock name files (insert k (record { content = v; mod_time = clock k }) m)
      h.1
    ∙ elim (Bool-cases (bytes_eq k name)) [
      | inl e ↦ same ((bytes_eq_iff k name).0 e) e
      | inr e ↦ rw (lookup-insert k name (record { content = v; mod_time = clock k }) m, e) refl
    ]
  where
    same :
        k ≡ name
        → bytes_eq k name ≡ true
        → entry_of
            (clock name)
            (lookup name files)
            (lookup name (insert k (record { content = v; mod_time = clock k }) m))
          ≡ entry_of
              (clock name)
              (if bytes_eq k name then some v else lookup name files)
              (lookup name m)
    same key e =
        rw
          (
            e,
            lookup-insert k name (record { content = v; mod_time = clock k }) m,
            e,
            sym (ap (λ n. lookup n files) key) ∙ h.0,
          )
          (ap (λ n. some (record { content = v; mod_time = clock n })) key)

-- What Open answers for the name of a data file or of none.
abbrev pub answer : Bytes → ℕ → Option Bytes → Opened
answer name now none = no_file (not_exist_error name)
answer name now (some content) =
    has_file (record { name = name; mod_time = now; unread = content; size = length content })

-- The file system of a map of data files opens exactly the names of the map, each with its bytes, all
-- unread, and their number; every other name is reported missing, by its last element only once the
-- error is sanitized.
pub open_file-get_data_filesystem :
    (clock : Bytes → ℕ) (files : Assoc Bytes) (m : MemFs) (name : Bytes)
    → IsMap files
    → get_data_filesystem clock (some files) ≡ some m
    → (open_file name m ≡ answer name (clock name) (lookup name files))
      × (sanitize_error_message (not_exist_error name)
          ≡ plain_error (bytes "open " ++ (base name ++ bytes ": data does not exist")))
unfolding open_file get_data_filesystem sanitize_error_message extract_missing_file_basename
open_file-get_data_filesystem clock files m name h e = (
  ap (λ fs. open_file name fs) (sym (ap (or_none m) e))
      ∙ (ap (opened name) (lookup-write_files clock name files [] h) ∙ final (lookup name files)),
  refl,
)
  where
    or_none : MemFs → Option MemFs → MemFs
    or_none m none = m
    or_none m (some fs) = fs

    final :
        (o : Option Bytes) → opened name (entry_of (clock name) o none) ≡ answer name (clock name) o
    final none = refl
    final (some content) = refl
