-- ===== src/Services/Segmenter/Loop.antt =====
-- `SentenceSegmenter` of src/orkio_v2/services/realtime_segmenter.py: its buffer and its loop.
pub mod Conservation
use Prim.Native.String.{◌++◌ as ◌+++◌}
use efata_777_backend_premiu.Prelude.{
  ℕ, zero, suc, ◌+◌, String, Bool, Option, none, some, List, [], ◌∷◌, ltb, if◌then◌else◌,
}
use efata_777_backend_premiu.Prelude.Text.{
  lstrip, strip, is_empty, text_length, take_text, drop_text,
}
use efata_777_backend_premiu.Services.Segmenter.{next_cut}

pub record SentenceSegmenter : Type 0 where
  pub max_chars : ℕ
  pub buffer : String

-- `__init__`, which raises on a limit below 80.
unfoldable pub new_segmenter : ℕ → Option SentenceSegmenter
new_segmenter max_chars =
    if ltb max_chars 80 then none else some (record { max_chars = max_chars; buffer = "" })

-- `if value: segments.append(value)`.
abbrev pub add_segment : String → List String → List String
add_segment value segments = if is_empty value then segments else value ∷ segments

abbrev pub with_segment : String → Option (List String × String) → Option (List String × String)
with_segment value none = none
with_segment value (some (segments, rest)) = some (add_segment value segments, rest)

-- One round, before the rounds that follow it.
unfoldable pub round :
    Option (ℕ × ℕ)
    → String
    → (String → Option (List String × String))
    → Option (List String × String)
unfolding strip lstrip
round none buffer next = some ([], buffer)
round (some (place, drop)) buffer next =
    with_segment (strip (take_text place buffer)) (next (lstrip (drop_text (place + drop) buffer)))

-- `_extract`, on at most as many rounds as the fuel: the segments and the buffer that stays.
unfoldable pub extract : ℕ → ℕ → String → Option (List String × String)
unfolding round
extract zero max buffer = none
extract (suc fuel) max buffer = round (next_cut max buffer) buffer (extract fuel max)

abbrev pub after_extract :
    ℕ → Option (List String × String) → Option (List String × SentenceSegmenter)
after_extract max none = none
after_extract max (some (segments, rest)) =
    some (segments, record { max_chars = max; buffer = rest })

-- One round for each character, and one that breaks.
unfoldable pub push : String → SentenceSegmenter → Option (List String × SentenceSegmenter)
push delta s =
    let buffer = s.buffer +++ delta in
    after_extract s.max_chars (extract (suc (text_length buffer)) s.max_chars buffer)

unfoldable pub flush : SentenceSegmenter → List String × SentenceSegmenter
unfolding strip
flush s = (add_segment (strip s.buffer) [], record s { buffer = "" })
