-- ===== src/Services/AuditPath.antt =====
-- src/orkio_v2/services/audit_path_policy.py: the files that an audit may open.
pub mod Parts
pub mod Roots
pub mod Verified
use efata_777_backend_premiu.Prelude.{
  ℕ, String, Bool, true, false, not, ◌&&◌, ◌||◌, ◌==◌, Option, none, some, List, [], ◌∷◌, str_eq,
  any, if◌then◌else◌,
}
use Prim.Native.String.{◌++◌ as ◌+++◌}
use efata_777_backend_premiu.Prelude.Text.{strip, lower, is_empty}
use efata_777_backend_premiu.Runtime.Contracts.{Result, ok, err}
use efata_777_backend_premiu.Access.Principal.{includes}
use efata_777_backend_premiu.Services.AuditPath.Parts.{
  parts_of, is_absolute, is_clean, starts_text, ends_text,
}

abbrev pub secret_basenames : List String
secret_basenames =
    ".env" ∷ ".aws" ∷ ".ssh" ∷ ".gnupg" ∷ "id_rsa" ∷ "id_ed25519" ∷ "credentials"
    ∷ "credentials.json" ∷ "secrets" ∷ "secrets.json" ∷ []

-- One part of `_assert_path_not_secret_like`.
unfoldable pub is_secret_like : String → Bool
unfolding lower
is_secret_like part =
    let folded = lower part in
    includes folded secret_basenames
    || starts_text ".env." folded
    || ends_text ".key" folded
    || ends_text ".pem" folded
    || ends_text ".p12" folded
    || ends_text ".pfx" folded

abbrev pub is_special : String → Bool
is_special part = is_empty part || str_eq part "." || str_eq part ".."

unfoldable pub checked_parts : List String → Result (List String)
checked_parts [] = err "AUDIT_PATH_NOT_ALLOWED"
checked_parts (part ∷ parts) =
    if any is_special (part ∷ parts)
    then err "AUDIT_PATH_NOT_ALLOWED"
    else if any is_secret_like (part ∷ parts)
    then err "AUDIT_PATH_SECRET_LIKE_FORBIDDEN"
    else ok (part ∷ parts)

-- `_safe_components`.
unfoldable pub safe_components : String → Result (List String)
safe_components relative_path =
    if is_empty relative_path || not (is_clean relative_path) || is_absolute relative_path
    then err "AUDIT_PATH_NOT_ALLOWED"
    else checked_parts (parts_of relative_path)

-- `"/".join(parts)`.
unfoldable pub join : List String → String
join [] = ""
join (part ∷ parts) = join_after part parts
  where
    join_after : String → List String → String
    join_after part [] = part
    join_after part (next ∷ parts) = part +++ ("/" +++ join_after next parts)

pub data FileKind : Type 0 where
  regular directory symlink other : FileKind

pub record Stat : Type 0 where
  pub kind : FileKind
  pub device : ℕ
  pub inode : ℕ
  pub size : ℕ

-- The operating system: what a path is (following no link), what a name below an open directory opens (following no link) and is, and what a descriptor is.
pub record Files : Type 0 where
  pub lstat : String → Option Stat
  pub open_root : String → Option ℕ
  pub open_at : ℕ → String → Option ℕ
  pub lstat_at : ℕ → String → Option Stat
  pub fstat : ℕ → Stat

pub record VerifiedFile : Type 0 where
  pub root_id : String
  pub relative_path : String
  pub fd : ℕ
  pub size : ℕ
  pub device : ℕ
  pub inode : ℕ

abbrev pub is_directory : FileKind → Bool
is_directory FileKind.directory = true
is_directory _ = false

abbrev pub is_regular : FileKind → Bool
is_regular FileKind.regular = true
is_regular _ = false

abbrev pub is_symlink : FileKind → Bool
is_symlink FileKind.symlink = true
is_symlink _ = false

-- `before` and `after` are the same regular file.
abbrev pub is_same : Stat → Stat → Bool
is_same before after =
    before.device == after.device && before.inode == after.inode && is_regular after.kind

unfoldable pub opened : Files → String → String → Stat → Option ℕ → Result VerifiedFile
opened files root_id path before none = err "AUDIT_PATH_NOT_ALLOWED"
opened files root_id path before (some fd) =
    let after = files.fstat fd in
    if is_same before after
    then ok (record {
      root_id = root_id;
      relative_path = path;
      fd = fd;
      size = after.size;
      device = after.device;
      inode = after.inode;
    })
    else err "AUDIT_PATH_IDENTITY_CHANGED"

unfoldable pub inspected : Files → String → String → ℕ → String → Option Stat → Result VerifiedFile
inspected files root_id path dir name none = err "AUDIT_PATH_NOT_ALLOWED"
inspected files root_id path dir name (some before) =
    if is_symlink before.kind
    then err "AUDIT_PATH_SYMLINK_FORBIDDEN"
    else if not (is_regular before.kind)
    then err "AUDIT_PATH_SPECIAL_FILE_FORBIDDEN"
    else opened files root_id path before (files.open_at dir name)

abbrev pub is_known_directory : Files → Option ℕ → Bool
is_known_directory files none = false
is_known_directory files (some fd) = is_directory (files.fstat fd).kind

-- From one open directory on: the directories of all parts but the last, and the file of the last.
unfoldable pub walk : Files → String → String → List String → Option ℕ → Result VerifiedFile
walk files root_id path parts none = err "AUDIT_PATH_NOT_ALLOWED"
walk files root_id path [] (some dir) = err "AUDIT_PATH_NOT_ALLOWED"
walk files root_id path (name ∷ []) (some dir) =
    inspected files root_id path dir name (files.lstat_at dir name)
walk files root_id path (part ∷ name ∷ parts) (some dir) =
    let rest = walk files root_id path (name ∷ parts) (files.open_at dir part) in
    if is_known_directory files (files.open_at dir part) then rest else err "AUDIT_PATH_NOT_ALLOWED"

abbrev pub below : Files → String → String → Result (List String) → Result VerifiedFile
below files root_id root (err code) = err code
below files root_id root (ok parts) = walk files root_id (join parts) parts (files.open_root root)

-- `self._roots[root_id]`.
unfoldable pub root_of : String → List (String × String) → Option String
root_of root_id [] = none
root_of root_id ((id, path) ∷ roots) =
    let rest = root_of root_id roots in if str_eq id root_id then some path else rest

-- `normalized[key] = path`.
unfoldable pub set_root : String → String → List (String × String) → List (String × String)
set_root id path [] = (id, path) ∷ []
set_root id path ((known, old) ∷ roots) =
    let rest = set_root id path roots in
    if str_eq known id then (known, path) ∷ roots else (known, old) ∷ rest

abbrev pub is_directory_entry : Option Stat → Bool
is_directory_entry none = false
is_directory_entry (some entry) = is_directory entry.kind

-- An absolute path to a directory that is no link.
abbrev pub is_root : Files → String → Bool
is_root files path = is_absolute path && is_directory_entry (files.lstat path)

unfoldable pub register :
    Files → List (String × String) → List (String × String) → Result (List (String × String))
unfolding strip
register files [] roots = ok roots
register files ((id, path) ∷ more) roots =
    let rest = register files more (set_root (strip id) path roots) in
    if is_empty (strip id) || not (is_root files path) then err "AUDIT_ROOT_INVALID" else rest

-- `AuditPathPolicy.__init__`: the roots of the policy.
unfoldable pub new_policy : Files → List (String × String) → Result (List (String × String))
new_policy files registered = register files registered []

abbrev pub at_root : Files → String → String → Option String → Result VerifiedFile
at_root files root_id relative_path none = err "AUDIT_ROOT_NOT_REGISTERED"
at_root files root_id relative_path (some root) =
    below files root_id root (safe_components relative_path)

unfoldable pub open_verified_file :
    Files → List (String × String) → String → String → Result VerifiedFile
open_verified_file files roots root_id relative_path =
    at_root files root_id relative_path (root_of root_id roots)
