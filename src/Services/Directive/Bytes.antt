-- ===== src/Services/Directive/Bytes.antt =====
-- The texts of src/orkio_v2/services/audit_invocation_directive.py in bytes.
use Prim.Native.Char.{code}
use Prim.Native.String.{String, [], ◌∷◌}
use efata_777_backend_premiu.Prelude.{ℕ, ◌+◌, Bool, false, ◌||◌, ◌==◌, ltb, if◌then◌else◌}

-- `len(s.encode("utf-8"))`.
unfoldable pub utf8_length : String → ℕ
utf8_length [] = 0
utf8_length (c ∷ s) =
    let rest = utf8_length s in
    let n = code c in
    (if ltb n 128 then 1 else if ltb n 2048 then 2 else if ltb n 65536 then 3 else 4) + rest

unfoldable pub has_nul : String → Bool
has_nul [] = false
has_nul (c ∷ s) = code c == 0 || has_nul s
