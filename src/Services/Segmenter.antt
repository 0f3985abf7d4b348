-- ===== src/Services/Segmenter.antt =====
-- src/orkio_v2/services/realtime_segmenter.py: where a stream of text is cut into speech-sized segments.
pub mod Ink
pub mod Loop
use Prim.Native.Char.{Char, code}
use Prim.Native.String.{String, [], ◌∷◌, ◌++◌ as ◌+++◌}
use efata_777_backend_premiu.Prelude.{
  ℕ, zero, suc, ◌+◌, ◌-◌, Bool, true, false, not, ◌&&◌, ◌||◌, ◌==◌, Option, none, some, List,
  str_eq, ltb, leb, if◌then◌else◌,
}
use efata_777_backend_premiu.Prelude.Text.{is_space, rstrip, lower, text_length, take_text}

abbrev pub is_newline : Char → Bool
is_newline c = code c == 10

abbrev pub starts_newline : String → Bool
starts_newline [] = false
starts_newline (c ∷ s) = is_newline c

-- `(?=\s|$)`.
abbrev pub at_word_end : String → Bool
at_word_end [] = true
at_word_end (c ∷ s) = is_space c

-- `[.!?]`.
abbrev pub is_mark : Char → Bool
is_mark c = code c == 46 || code c == 33 || code c == 63

-- `word in _ABBREVIATIONS`.
abbrev pub is_abbreviation : String → Bool
is_abbreviation w =
    str_eq w "sr."
    || str_eq w "sra."
    || str_eq w "srta."
    || str_eq w "dr."
    || str_eq w "dra."
    || str_eq w "prof."
    || str_eq w "profa."
    || str_eq w "etc."
    || str_eq w "ex."
    || str_eq w "p.ex."
    || str_eq w "a.k.a."
    || str_eq w "st."
    || str_eq w "vs."
    || str_eq w "fig."

-- The word that a text without space at its end ends in: `split()[-1]`.
unfoldable pub last_word : String → String → String
unfolding is_space
last_word word [] = word
last_word word (c ∷ s) =
    let more = last_word (word +++ (c ∷ "")) s in
    let fresh = last_word "" s in if is_space c then fresh else more

unfoldable pub is_abbreviated : String → Bool
unfolding rstrip last_word lower
is_abbreviated boundary = is_abbreviation (lower (last_word "" (rstrip boundary)))

-- How many line ends a text starts with.
unfoldable pub newlines : String → ℕ
newlines [] = 0
newlines (c ∷ s) = let n = newlines s in if is_newline c then suc n else 0

-- The end of the first match of `_TERMINAL` from a place on, behind the skipped ones, whose text does not end in an abbreviation.
unfoldable pub safe_from : String → ℕ → ℕ → String → Option ℕ
unfolding newlines is_abbreviated
safe_from buffer place skip [] = none
safe_from buffer place (suc skip) (c ∷ s) = safe_from buffer (suc place) skip s
safe_from buffer place zero (c ∷ s) =
    let later = safe_from buffer (suc place) zero s in
    let lines = suc (newlines s) in
    let behind = safe_from buffer (suc place) (newlines s) s in
    if is_mark c && at_word_end s
    then if is_abbreviated (take_text (suc place) buffer) then later else some (suc place)
    else if is_newline c && starts_newline s
    then if is_abbreviated (take_text (place + lines) buffer) then behind else some (place + lines)
    else later

-- `_safe_boundary`, by the end of its match.
unfoldable pub safe_boundary : String → Option ℕ
unfolding safe_from
safe_boundary buffer = safe_from buffer 0 0 buffer

abbrev pub shift : Option ℕ → Option ℕ
shift none = none
shift (some n) = some (suc n)

-- `buffer.find("\n\n")`.
unfoldable pub find_paragraph : String → Option ℕ
find_paragraph [] = none
find_paragraph (c ∷ s) =
    let rest = find_paragraph s in if is_newline c && starts_newline s then some 0 else shift rest

abbrev pub or_here : Bool → Option ℕ → Option ℕ
or_here here none = if here then some 0 else none
or_here here (some n) = some (suc n)

-- `buffer.rfind(" ", 0, n)`.
rfind_space : ℕ → String → Option ℕ
rfind_space zero s = none
rfind_space (suc n) [] = none
rfind_space (suc n) (c ∷ s) = or_here (code c == 32) (rfind_space n s)

-- `buffer.find(" ", n)`.
find_space : ℕ → String → Option ℕ
find_space n [] = none
find_space zero (c ∷ s) =
    let rest = find_space zero s in if code c == 32 then some 0 else shift rest
find_space (suc n) (c ∷ s) = shift (find_space n s)

abbrev pub from_80 : Option ℕ → Option ℕ → Option ℕ
from_80 none other = other
from_80 (some cut) other = if ltb cut 80 then other else some cut

-- The place of a cut behind the limit, if there is a space to cut at.
unfoldable pub limit_cut : ℕ → String → Option ℕ
unfolding rfind_space find_space
limit_cut max buffer =
    if leb (text_length buffer) max
    then none
    else from_80 (rfind_space (max + 1) buffer) (find_space max buffer)

-- Where the next segment ends, and how many characters behind it are dropped with it.
abbrev pub of_cut : Option ℕ → Option (ℕ × ℕ)
of_cut none = none
of_cut (some zero) = none
of_cut (some (suc cut)) = some (suc cut, 0)

abbrev pub at_boundary : ℕ → String → Option ℕ → Option (ℕ × ℕ)
at_boundary max buffer (some place) = some (place, 0)
at_boundary max buffer none = of_cut (limit_cut max buffer)

abbrev pub at_paragraph : ℕ → String → Option ℕ → Option (ℕ × ℕ)
at_paragraph max buffer (some (suc place)) = some (suc place, 2)
at_paragraph max buffer _ = at_boundary max buffer (safe_boundary buffer)

-- One round of the loop: `none` is its `break`.
unfoldable pub next_cut : ℕ → String → Option (ℕ × ℕ)
next_cut max buffer = at_paragraph max buffer (find_paragraph buffer)
