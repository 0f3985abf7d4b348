-- ===== src/Services/AuditPath/Parts.antt =====
-- The texts of src/orkio_v2/services/audit_path_policy.py: a POSIX path, its parts and their ends.
use Prim.Native.Char.{code}
use Prim.Native.String.{String, [], ◌∷◌, ◌++◌ as ◌+++◌}
use mathlib.Core.List.{List}
use efata_777_backend_premiu.Prelude.{
  Bool, true, false, not, ◌&&◌, ◌||◌, ◌==◌, str_eq, if◌then◌else◌, no_more, one_more,
}
use efata_777_backend_premiu.Prelude.Text.{is_empty}

-- Neither a backslash nor a NUL.
unfoldable pub is_clean : String → Bool
is_clean [] = true
is_clean (c ∷ s) = not (code c == 92) && not (code c == 0) && is_clean s

abbrev pub is_absolute : String → Bool
is_absolute [] = false
is_absolute (c ∷ s) = code c == 47

-- `PurePosixPath` drops empty parts and ".".
abbrev pub keep_part : String → List String → List String
keep_part part rest = if is_empty part || str_eq part "." then rest else one_more part rest

unfoldable pub parts_from : String → String → List String
parts_from part [] = keep_part part no_more
parts_from part (c ∷ s) =
    let next = parts_from "" s in
    let more = parts_from (part +++ (c ∷ "")) s in
    if code c == 47 then keep_part part next else more

-- `PurePosixPath(path).parts`, of a path that is not absolute.
unfoldable pub parts_of : String → List String
unfolding parts_from
parts_of path = parts_from "" path

-- `s.startswith(prefix)` and `s.endswith(suffix)`.
unfoldable pub starts_text : String → String → Bool
starts_text [] s = true
starts_text (c ∷ p) [] = false
starts_text (c ∷ p) (d ∷ s) = code c == code d && starts_text p s

unfoldable pub ends_text : String → String → Bool
ends_text suffix [] = is_empty suffix
ends_text suffix (c ∷ s) = str_eq suffix (c ∷ s) || ends_text suffix s
