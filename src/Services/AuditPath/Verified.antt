-- ===== src/Services/AuditPath/Verified.antt =====
-- What src/orkio_v2/services/audit_path_policy.py has checked of a file that it opens.
use efata_777_backend_premiu.Prelude.{
  ℕ, String, true, false, not, ◌||◌, ◌≡◌, refl, Option, none, some, List, [], ◌∷◌, any, arith,
  Bool-cases, inl, inr,
}
use efata_777_backend_premiu.Prelude.Text.{is_empty}
use efata_777_backend_premiu.Runtime.Contracts.{Result, ok, err}
use efata_777_backend_premiu.Services.AuditPath.Parts.{parts_of, is_clean, is_absolute}
use efata_777_backend_premiu.Services.AuditPath.{
  Files, Stat, VerifiedFile, is_regular, is_symlink, is_directory, is_same, is_known_directory,
  is_special, is_secret_like, checked_parts, safe_components, join, opened, inspected, walk, below,
  root_of, at_root, open_verified_file, is_root, new_policy,
}
use efata_777_backend_premiu.Services.AuditPath.Roots.{register-any, root_of-any}

-- From an open directory, the parts lead to a name in another one: each part but the last is a directory opened in the one before.
pub data Reaches (files : Files) : ℕ → List String → ℕ → String → Type 0 where
  here : {dir : ℕ} {name : String} → Reaches files dir (name ∷ []) dir name
  down :
      {dir next last : ℕ} {part name : String} {parts : List String}
      → files.open_at dir part ≡ some next
      → is_directory (files.fstat next).kind ≡ true
      → Reaches files next parts last name
      → Reaches files dir (part ∷ parts) last name

-- The file is the regular one that the name stood for before it was opened.
pub record IsOpened (files : Files) (dir : ℕ) (name : String) (file : VerifiedFile) : Type 0 where
  pub before : Stat
  pub listed : files.lstat_at dir name ≡ some before
  pub descriptor : files.open_at dir name ≡ some file.fd
  pub was_regular : is_regular before.kind ≡ true
  pub stays_regular : is_regular (files.fstat file.fd).kind ≡ true
  pub device : (before.device ≡ file.device) × ((files.fstat file.fd).device ≡ file.device)
  pub inode : (before.inode ≡ file.inode) × ((files.fstat file.fd).inode ≡ file.inode)
  pub size : (files.fstat file.fd).size ≡ file.size

pub record IsVerified (files : Files) (root : String) (parts : List String) (file : VerifiedFile)
    : Type 0 where
  pub shown : file.relative_path ≡ join parts
  pub plain : any is_special parts ≡ false
  pub harmless : any is_secret_like parts ≡ false
  pub top : ℕ
  pub dir : ℕ
  pub name : String
  pub rooted : files.open_root root ≡ some top
  pub reached : Reaches files top parts dir name
  pub is_opened : IsOpened files dir name file

checked_parts-plain :
    (parts checked : List String)
    → checked_parts parts ≡ ok checked
    → (any is_special checked ≡ false) × (any is_secret_like checked ≡ false)
unfolding checked_parts
checked_parts-plain [] checked h = cc h
checked_parts-plain (part ∷ parts) checked h = elim (Bool-cases (any is_special (part ∷ parts))) [
  | inl e ↦ cc (rw e at h)
  | inr e ↦ elim (Bool-cases (any is_secret_like (part ∷ parts))) [
    | inl f ↦ cc (rw (e, f) at h)
    | inr f ↦ let same : checked ≡ part ∷ parts = cc (rw (e, f) at h) in (rw same e, rw same f)
  ]
]

safe_components-plain :
    (path : String) (parts : List String)
    → safe_components path ≡ ok parts
    → (any is_special parts ≡ false) × (any is_secret_like parts ≡ false)
unfolding safe_components
safe_components-plain path parts h =
    elim (Bool-cases (is_empty path || not (is_clean path) || is_absolute path)) [
      | inl e ↦ cc (rw e at h)
      | inr e ↦ checked_parts-plain (parts_of path) parts (rw e at h)
    ]

is_same-parts :
    (before after : Stat)
    → is_same before after ≡ true
    → (is_regular after.kind ≡ true) × (before.device ≡ after.device) × (before.inode ≡ after.inode)
is_same-parts before after h = (ground arith, ground arith, ground arith)

module _ (files : Files) (root_id path : String) where
  opened-IsOpened :
      (dir : ℕ) (name : String) (before : Stat) (fd : Option ℕ) (file : VerifiedFile)
      → files.lstat_at dir name ≡ some before
      → files.open_at dir name ≡ fd
      → is_regular before.kind ≡ true
      → opened files root_id path before fd ≡ ok file
      → IsOpened files dir name file × (file.relative_path ≡ path)
  unfolding opened
  opened-IsOpened dir name before none file listed d regular h = cc h
  opened-IsOpened dir name before (some fd) file listed d regular h =
      elim (Bool-cases (is_same before (files.fstat fd))) [
        | inr e ↦ cc (rw e at h)
        | inl e ↦
            let same : file ≡ record {
              root_id = root_id;
              relative_path = path;
              fd = fd;
              size = (files.fstat fd).size;
              device = (files.fstat fd).device;
              inode = (files.fstat fd).inode;
            } =
              cc (rw e at h) in
            let (regular', device, inode) = is_same-parts before (files.fstat fd) e in
            rw same (
              record {
                before = before;
                listed = listed;
                descriptor = d;
                was_regular = regular;
                stays_regular = regular';
                device = (device, refl);
                inode = (inode, refl);
                size = refl;
              },
              refl,
            )
      ]

  inspected-IsOpened :
      (dir : ℕ) (name : String) (listed : Option Stat) (file : VerifiedFile)
      → files.lstat_at dir name ≡ listed
      → inspected files root_id path dir name listed ≡ ok file
      → IsOpened files dir name file × (file.relative_path ≡ path)
  unfolding inspected
  inspected-IsOpened dir name none file l h = cc h
  inspected-IsOpened dir name (some before) file l h = elim (Bool-cases (is_symlink before.kind)) [
    | inl e ↦ cc (rw e at h)
    | inr e ↦ elim (Bool-cases (is_regular before.kind)) [
      | inr f ↦ cc (rw (e, f) at h)
      | inl f ↦
          opened-IsOpened dir name before (files.open_at dir name) file l refl f (rw (e, f) at h)
    ]
  ]

  known_is_directory :
      (o : Option ℕ) (fd : ℕ)
      → o ≡ some fd
      → is_known_directory files o ≡ true
      → is_directory (files.fstat fd).kind ≡ true
  known_is_directory o fd e h = rw e at h

  walk-Reaches :
      (parts : List String) (start : Option ℕ) (file : VerifiedFile)
      → walk files root_id path parts start ≡ ok file
      → (top dir : ℕ) × (name : String) × (start ≡ some top)
        × Reaches files top parts dir name
        × IsOpened files dir name file
        × (file.relative_path ≡ path)
  unfolding walk
  walk-Reaches parts none file h = cc h
  walk-Reaches [] (some dir) file h = cc h
  walk-Reaches (name ∷ []) (some dir) file h =
      let (opens, shown) = inspected-IsOpened dir name (files.lstat_at dir name) file refl h in
      (dir, dir, name, refl, here, opens, shown)
  walk-Reaches (part ∷ name ∷ parts) (some dir) file h =
      elim (Bool-cases (is_known_directory files (files.open_at dir part))) [
        | inr e ↦ cc (rw e at h)
        | inl e ↦
            let (top, last, file_name, o, reached, opens, shown) =
              walk-Reaches (name ∷ parts) (files.open_at dir part) file (rw e at h) in
            (
              dir,
              last,
              file_name,
              refl,
              down o (known_is_directory (files.open_at dir part) top o e) reached,
              opens,
              shown,
            )
      ]

below-IsVerified :
    (files : Files) (root_id root path : String) (checked : Result (List String))
    (file : VerifiedFile)
    → safe_components path ≡ checked
    → below files root_id root checked ≡ ok file
    → (parts : List String) × (checked ≡ ok parts) × IsVerified files root parts file
below-IsVerified files root_id root path (err code) file s h = cc h
below-IsVerified files root_id root path (ok parts) file s h =
    let (plain, harmless) = safe_components-plain path parts s in
    let (top, dir, name, rooted, reached, opens, shown) =
      walk-Reaches files root_id (join parts) parts (files.open_root root) file h in
    (
      parts,
      refl,
      record {
        shown = shown;
        plain = plain;
        harmless = harmless;
        top = top;
        dir = dir;
        name = name;
        rooted = rooted;
        reached = reached;
        is_opened = opens;
      },
    )

at_root-IsVerified :
    (files : Files) (root_id path : String) (known : Option String) (file : VerifiedFile)
    → at_root files root_id path known ≡ ok file
    → (root : String) × (parts : List String) × (known ≡ some root)
      × (safe_components path ≡ ok parts)
      × IsVerified files root parts file
at_root-IsVerified files root_id path none file h = cc h
at_root-IsVerified files root_id path (some root) file h =
    let (parts, checked, verified) =
      below-IsVerified files root_id root path (safe_components path) file refl h in
    (root, parts, refl, checked, verified)

-- A file that a policy opens, built from registered roots, was asked for under one of its roots, an absolute path to a directory that was no link, by a path with safe components, none of them empty, ".", ".." or like a secret, and is called by them joined; the components lead down to it from the open root through open directories, and it is a regular file with the device and inode that its name had before it was opened.
pub open_verified_file-IsVerified :
    (files : Files) (registered roots : List (String × String)) (root_id path : String)
    (file : VerifiedFile)
    → new_policy files registered ≡ ok roots
    → open_verified_file files roots root_id path ≡ ok file
    → (root : String) × (parts : List String) × (root_of root_id roots ≡ some root)
      × (is_root files root ≡ true)
      × (safe_components path ≡ ok parts)
      × IsVerified files root parts file
unfolding open_verified_file new_policy any
open_verified_file-IsVerified files registered roots root_id path file built h =
    let (root, parts, known, checked, verified) =
      at_root-IsVerified files root_id path (root_of root_id roots) file h in
    let sound =
      root_of-any (λ p. not (is_root files p)) root_id root roots
        (register-any files registered [] roots refl built) known in
    (root, parts, known, ground arith, checked, verified)
