-- ===== src/Prelude/Text.antt =====
-- What the code uses of Python's `str`: `strip`, `upper`, truth, `==` and concatenation.
use Prim.Native.Nat.{ℕ, zero, suc}
use Prim.Native.Char.{Char, code}
use Prim.Native.String.{String, [], ◌∷◌}
use mathlib.Core.Bool.{Bool, true, false, ◌&&◌, ◌||◌}
use mathlib.Core.Option.{Option, none, some}
use mathlib.Core.Path.{◌≡◌, refl}
use text.Mathlib.Text.{◌==◌ as str_eq}
use efata_777_backend_premiu.Prelude.Tests.{leb, ◌==◌, if◌then◌else◌}

-- `str.isspace` of one character.
unfoldable pub is_space : Char → Bool
is_space c =
    let n = code c in
    (leb 9 n && leb n 13)
    || (leb 28 n && leb n 32)
    || n == 133
    || n == 160
    || n == 5760
    || (leb 8192 n && leb n 8202)
    || n == 8232
    || n == 8233
    || n == 8239
    || n == 8287
    || n == 12288

unfoldable pub lstrip : String → String
unfolding is_space
lstrip [] = []
lstrip (c ∷ s) = let rest = lstrip s in if is_space c then rest else c ∷ s

unfoldable pub rstrip : String → String
unfolding is_space
rstrip [] = []
rstrip (c ∷ s) = let rest = rstrip s in if str_eq rest "" && is_space c then [] else c ∷ rest

unfoldable pub strip : String → String
unfolding lstrip rstrip
strip s = rstrip (lstrip s)

-- The character at the place that `c` has in the first text.
transliterate : String → String → Char → Char
transliterate (a ∷ from) (b ∷ to) c = if code a == code c then b else transliterate from to c
transliterate _ _ c = c

-- `str.upper` and `str.lower`, on the ASCII letters.
unfoldable pub upper : String → String
unfolding transliterate
upper [] = []
upper (c ∷ s) = transliterate "abcdefghijklmnopqrstuvwxyz" "ABCDEFGHIJKLMNOPQRSTUVWXYZ" c ∷ upper s

unfoldable pub lower : String → String
unfolding transliterate
lower [] = []
lower (c ∷ s) = transliterate "ABCDEFGHIJKLMNOPQRSTUVWXYZ" "abcdefghijklmnopqrstuvwxyz" c ∷ lower s

-- `a or b` on texts, and `value or None`.
abbrev pub is_empty : String → Bool
is_empty s = str_eq s ""

abbrev pub or_text : String → String → String
or_text a b = if is_empty a then b else a

abbrev pub or_none : String → Option String
or_none s = if is_empty s then none else some s

-- A nullable text in a condition: `None` and "" are false.
abbrev pub truthy : Option String → Bool
truthy none = false
truthy (some s) = if is_empty s then false else true

abbrev pub text_or : Option String → String → String
text_or none d = d
text_or (some s) d = or_text s d

-- `column == value` on a nullable column.
abbrev pub is_some_text : Option String → String → Bool
is_some_text none v = false
is_some_text (some s) v = str_eq s v

-- `len(s)`.
unfoldable pub text_length : String → ℕ
text_length [] = 0
text_length (c ∷ s) = suc (text_length s)

-- `s[:n]`.
unfoldable pub take_text : ℕ → String → String
take_text zero s = ""
take_text (suc n) [] = ""
take_text (suc n) (c ∷ s) = c ∷ take_text n s

-- `s[n:]`.
unfoldable pub drop_text : ℕ → String → String
drop_text zero s = s
drop_text (suc n) [] = ""
drop_text (suc n) (c ∷ s) = drop_text n s

-- `"".join(ch for ch in s if ch.isdigit())`, on the ASCII digits.
unfoldable pub digits_only : String → String
digits_only [] = []
digits_only (c ∷ s) =
    let rest = digits_only s in if leb 48 (code c) && leb (code c) 57 then c ∷ rest else rest

strip-upper_works : str_eq (upper (strip "  payment_received ")) "PAYMENT_RECEIVED" ≡ true
unfolding strip upper
strip-upper_works = refl
