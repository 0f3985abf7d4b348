-- ===== src/Services/Segmenter/Loop/Conservation.antt =====
-- What the loop of src/orkio_v2/services/realtime_segmenter.py keeps of a text.
use Prim.Native.String.{◌++◌ as ◌+++◌}
use efata_777_backend_premiu.Prelude.{
  ℕ, zero, suc, ◌+◌, ◌<◌, String, ◌≡◌, refl, ◌∙◌, Bool-cases, Option-cases, inl, inr, Option, none,
  some, List, [], ◌∷◌, ◌++◌, eq_iff, arith,
}
use efata_777_backend_premiu.Prelude.Text.{
  lstrip, strip, is_empty, text_length, take_text, drop_text,
}
use efata_777_backend_premiu.Services.Segmenter.{next_cut}
use efata_777_backend_premiu.Services.Segmenter.Ink.{
  ink, ink-append, ink-strip, ink-lstrip, next_cut-IsCut, ink-cut, cut_nonempty, cut_shortens,
}
use efata_777_backend_premiu.Services.Segmenter.Loop.{
  SentenceSegmenter, add_segment, round, extract, push, flush,
}

-- The ink of the segments, in front of that of a text.
abbrev pub ink_all : List String → String → String
ink_all [] rest = rest
ink_all (v ∷ vs) rest = ink v (ink_all vs rest)

-- What a run of the loop is for a buffer: segments and a rest that together have the buffer's ink.
pub record Extracts (fuel max : ℕ) (buffer : String) : Type 0 where
  pub segments : List String
  pub rest : String
  pub result : extract fuel max buffer ≡ some (segments, rest)
  pub same_ink : (tail : String) → ink_all segments (ink rest tail) ≡ ink buffer tail

ink_all-add_segment :
    (v : String) (vs : List String) (rest : String)
    → ink_all (add_segment v vs) rest ≡ ink v (ink_all vs rest)
ink_all-add_segment v vs rest = elim (Bool-cases (is_empty v)) [
  | inl e ↦ rw ((eq_iff v "").0 e) refl
  | inr e ↦ rw e refl
]

-- With more fuel than the buffer has characters, the loop ends by its break.
extract_ends :
    (fuel max : ℕ) (buffer : String) → text_length buffer < fuel → Extracts fuel max buffer
unfolding extract round
extract_ends zero max buffer h = absurd (omega (arith, h))
extract_ends (suc fuel) max buffer h = elim (Option-cases (next_cut max buffer)) [
  | inl stop ↦ record {
    segments = [];
    rest = buffer;
    result = rw stop refl;
    same_ink = λ tail. refl;
  }
  | inr ((place, drop), cut) ↦
      let is_cut = next_cut-IsCut max buffer place drop cut in
      let value = strip (take_text place buffer) in
      let behind = lstrip (drop_text (place + drop) buffer) in
      let shorter =
        cut_shortens buffer place drop is_cut (cut_nonempty max buffer place drop cut) in
      let later = extract_ends fuel max behind (omega (arith, h, shorter)) in
      record {
        segments = add_segment value later.segments;
        rest = later.rest;
        result = rw (cut, later.result) refl;
        same_ink = λ tail.
            rw
              (
                ink_all-add_segment value later.segments (ink later.rest tail),
                later.same_ink tail,
                ink-strip (take_text place buffer) (ink behind tail),
                ink-lstrip (drop_text (place + drop) buffer) tail,
              )
              (ink-cut buffer tail place drop is_cut);
      }
]

-- `push` always returns: its loop ends within one round for each character of the buffer and one more; and the segments it returns and the buffer it leaves together have exactly the characters of the old buffer and the new text that are no space, in their order.
pub push_conserves :
    (delta : String) (s : SentenceSegmenter)
    → (segments : List String) × (s' : SentenceSegmenter) × (push delta s ≡ some (segments, s'))
      × (s'.max_chars ≡ s.max_chars)
      × ((tail : String) → ink_all segments (ink s'.buffer tail) ≡ ink (s.buffer +++ delta) tail)
unfolding push
push_conserves delta s =
    let buffer = s.buffer +++ delta in
    let done = extract_ends (suc (text_length buffer)) s.max_chars buffer (omega arith) in
    (
      done.segments,
      record { max_chars = s.max_chars; buffer = done.rest },
      rw done.result refl,
      refl,
      done.same_ink,
    )

ink_all-append :
    (vs ws : List String) (rest : String) → ink_all (vs ++ ws) rest ≡ ink_all vs (ink_all ws rest)
ink_all-append [] ws rest = refl
ink_all-append (v ∷ vs) ws rest = rw (ink_all-append vs ws rest) refl

unfoldable pub with_more : List String → Option (List String) → Option (List String)
with_more segments none = none
with_more segments (some more) = some (segments ++ more)

unfoldable pub after_push :
    Option (List String × SentenceSegmenter)
    → (SentenceSegmenter → Option (List String))
    → Option (List String)
after_push none next = none
after_push (some (segments, s)) next = with_more segments (next s)

-- A whole answer: the deltas one after the other, and the flush at its end.
abbrev pub speak : List String → SentenceSegmenter → Option (List String)
speak [] s = some (flush s).0
speak (delta ∷ deltas) s = after_push (push delta s) (speak deltas)

-- For any stream of deltas that is then flushed, the segmenter returns, and its segments together have exactly the characters of the buffer it started with and of the deltas that are no space, in their order: nothing is lost, repeated or reordered.
pub speak_conserves :
    (deltas : List String) (s : SentenceSegmenter)
    → (segments : List String) × (speak deltas s ≡ some segments)
      × (ink_all segments "" ≡ ink s.buffer (ink_all deltas ""))
unfolding flush after_push with_more
speak_conserves [] s = (
  add_segment (strip s.buffer) [],
  refl,
  ink_all-add_segment (strip s.buffer) [] "" ∙ ink-strip s.buffer "",
)
speak_conserves (delta ∷ deltas) s =
    let (segments, s', pushed, kept, same) = push_conserves delta s in
    let (more, spoken, same') = speak_conserves deltas s' in
    (
      segments ++ more,
      rw (pushed, spoken) refl,
      rw
          (
            ink_all-append segments more "",
            same',
            same (ink_all deltas ""),
            ink-append s.buffer delta (ink_all deltas ""),
          )
          refl,
    )
