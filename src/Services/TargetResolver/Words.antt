-- ===== src/Services/TargetResolver/Words.antt =====
-- The texts of src/orkio_v2/services/target_resolver.py: normalization, and the terms of a request.
use Prim.Native.Char.{Char, code}
use Prim.Native.String.{String, [], ◌∷◌, ◌++◌ as ◌+++◌}
use efata_777_backend_premiu.Prelude.{Bool, true, false, not, ◌&&◌, ◌||◌, ◌==◌, leb, if◌then◌else◌}
use efata_777_backend_premiu.Prelude.Text.{strip, lower, is_empty}

abbrev pub is_alnum : Char → Bool
is_alnum c =
    let n = code c in (leb 48 n && leb n 57) || (leb 65 n && leb n 90) || (leb 97 n && leb n 122)

-- Every character but letters and digits becomes a space, and runs of spaces one space.
spaced : Bool → String → String
spaced before [] = []
spaced before (c ∷ s) =
    let word = spaced false s in
    let gap = spaced true s in if is_alnum c then c ∷ word else if before then gap else " " +++ gap

-- `normalize_target`, on ASCII texts.
unfoldable pub normalize_target : String → String
unfolding spaced strip lower
normalize_target value = strip (spaced true (lower value))

starts_with : String → String → Bool
starts_with [] s = true
starts_with (c ∷ p) [] = false
starts_with (c ∷ p) (d ∷ s) = code c == code d && starts_with p s

-- `term in text`.
unfoldable pub contains : String → String → Bool
unfolding starts_with
contains term [] = is_empty term
contains term (c ∷ s) = starts_with term (c ∷ s) || contains term s

-- `[a-zA-Z0-9_.-]+`.
all_handle : String → Bool
all_handle [] = true
all_handle (c ∷ s) = (is_alnum c || code c == 95 || code c == 46 || code c == 45) && all_handle s

unfoldable pub is_handle : String → Bool
unfolding all_handle
is_handle h = not (is_empty h) && all_handle h
