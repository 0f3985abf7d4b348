-- ===== src/Runtime/Events/Laws.antt =====
-- The streams that the sequence tests of runtime/events.py accept.
use efata_777_backend_premiu.Prelude.{
  ℕ, suc, ◌+◌, String, ◌≡◌, refl, ◌↔◌, true, false, Option, List, [], ◌∷◌, ◌++◌, eq_iff, eq_refl,
  arith, length,
}
use efata_777_backend_premiu.Runtime.Contracts.{ok}
use efata_777_backend_premiu.Runtime.Events.{
  RuntimeEvent, terminal_events, is_done, done_positions, is_only, error_from,
  validate_terminal_sequence, same_execution, is_range, validate_runtime_sequence,
}

-- One `done` event, and it is the last.
abbrev pub EndsOnce : List RuntimeEvent → Type 0
EndsOnce [] = ⊥
EndsOnce (e ∷ []) = is_done e ≡ true
EndsOnce (e ∷ f ∷ es) = (is_done e ≡ false) × EndsOnce (f ∷ es)

done_positions-EndsOnce :
    (i : ℕ) (e : RuntimeEvent) (es : List RuntimeEvent)
    → EndsOnce (e ∷ es)
    → done_positions i (e ∷ es) ≡ (i + length es) ∷ []
unfolding done_positions
done_positions-EndsOnce i e [] h = ground arith
done_positions-EndsOnce i e (f ∷ es) (h, t) =
    ground (arith, h, done_positions-EndsOnce (suc i) f es t)

error_from-EndsOnce :
    (d i : ℕ) (e : RuntimeEvent) (es : List RuntimeEvent)
    → EndsOnce (e ∷ es)
    → d ≡ i + length es
    → error_from d i (e ∷ es) ≡ false
unfolding error_from
error_from-EndsOnce d i e [] h q = ground arith
error_from-EndsOnce d i e (f ∷ es) (h, t) q = ground (arith, error_from-EndsOnce d (suc i) f es t)

is_only_first : (i n : ℕ) (ps : List ℕ) → is_only (i ∷ ps) n ≡ true → i ≡ n
is_only_first i n [] h = ground arith
is_only_first i n (p ∷ ps) h = ground arith

is_only-EndsOnce :
    (i n : ℕ) (e : RuntimeEvent) (es : List RuntimeEvent)
    → n ≡ i + length es
    → is_only (done_positions i (e ∷ es)) n ≡ true
    → EndsOnce (e ∷ es)
unfolding done_positions
is_only-EndsOnce i n e [] q h = ground arith
is_only-EndsOnce i n e (f ∷ es) q h =
    ground
      (arith, is_only_first i n (done_positions (suc i) (f ∷ es)), is_only-EndsOnce (suc i) n f es)

-- The terminal test accepts a stream exactly when its one `done` event is its last; an error event elsewhere is never refused.
pub validate_terminal_exact :
    (es : List RuntimeEvent) → (validate_terminal_sequence es ≡ ok tt) ↔ EndsOnce es
unfolding validate_terminal_sequence
validate_terminal_exact [] = ground arith
validate_terminal_exact (e ∷ es) = ground (
  arith,
  is_only-EndsOnce 0 (length es) e es (omega arith),
  done_positions-EndsOnce 0 e es,
  error_from-EndsOnce (length es) 0 e es,
)

-- A stream body: no terminal event in it, of one execution, numbered from `n` on.
abbrev pub Body : String → ℕ → List RuntimeEvent → Type 0
Body x n [] = Unit
Body x n (e ∷ es) =
    (is_done e ≡ false) × (e.execution_id ≡ x) × (e.sequence ≡ n) × Body x (suc n) es

terminal_events-EndsOnce :
    (x : String) (n : ℕ) (es : List RuntimeEvent) (code : Option String) (from : ℕ)
    → Body x from es
    → EndsOnce (es ++ terminal_events x n code)
unfolding terminal_events
terminal_events-EndsOnce x n [] code from b = ground arith
terminal_events-EndsOnce x n (e ∷ []) code from (b, _, _, _) = ground (arith, b)
terminal_events-EndsOnce x n (e ∷ f ∷ es) code from (b, _, _, c) =
    (b, terminal_events-EndsOnce x n (f ∷ es) code (suc from) c)

same_execution-terminal :
    (x : String) (n : ℕ) (es : List RuntimeEvent) (code : Option String) (from : ℕ)
    → Body x from es
    → same_execution x (es ++ terminal_events x n code) ≡ true
unfolding terminal_events same_execution
same_execution-terminal x n [] code from b = ground (arith, eq_refl x)
same_execution-terminal x n (e ∷ es) code from (_, same, _, c) =
    ground (arith, same_execution-terminal x n es code (suc from) c, eq_iff e.execution_id x, same)

is_range-terminal :
    (x : String) (from n : ℕ) (es : List RuntimeEvent) (code : Option String)
    → Body x from es
    → n ≡ from + length es
    → is_range from (es ++ terminal_events x n code) ≡ true
unfolding terminal_events is_range
is_range-terminal x from n [] code b q = ground arith
is_range-terminal x from n (e ∷ es) code (_, _, same, c) q =
    ground (arith, is_range-terminal x (suc from) n es code c)

validate_runtime-accepts :
    (x : String) (n : ℕ) (es : List RuntimeEvent)
    → EndsOnce es
    → same_execution x es ≡ true
    → is_range n es ≡ true
    → validate_runtime_sequence es ≡ ok tt
unfolding validate_runtime_sequence same_execution is_range
validate_runtime-accepts x n [] once same range = ground arith
validate_runtime-accepts x n (e ∷ es) once same range =
    ground
      (arith, validate_terminal_exact (e ∷ es), eq_iff e.execution_id x, eq_refl e.execution_id)

-- The runtime accepts every stream that is a body (no `done` event, one execution, consecutive numbers) followed by `terminal_events` numbered after it, with an error code or without one.
pub stream_accepted :
    (x : String) (from : ℕ) (body : List RuntimeEvent) (code : Option String)
    → Body x from body
    → validate_runtime_sequence (body ++ terminal_events x (from + length body) code) ≡ ok tt
stream_accepted x from body code b =
    let n = from + length body in
    validate_runtime-accepts x from (body ++ terminal_events x n code)
      (terminal_events-EndsOnce x n body code from b) (same_execution-terminal x n body code from b)
      (is_range-terminal x from n body code b refl)
