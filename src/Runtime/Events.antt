-- ===== src/Runtime/Events.antt =====
-- src/orkio_v2/runtime/events.py: the events of one execution, and the tests on their sequence.
pub mod Laws
use efata_777_backend_premiu.Prelude.{
  ℕ, suc, ◌+◌, String, Bool, true, false, not, ◌&&◌, ◌||◌, Option, none, some, List, [], ◌∷◌,
  str_eq, leb, ◌==◌, if◌then◌else◌, length,
}
use efata_777_backend_premiu.Prelude.Text.{truthy, text_or}
use efata_777_backend_premiu.Runtime.Contracts.{Result, ok, err, raise_if, ◌>>◌}

pub data RuntimeEventType : Type 0 where
  status execution agent_started chunk agent_chunk agent_done error done : RuntimeEventType

pub record RuntimeEvent : Type 0 where
  pub event_type : RuntimeEventType
  pub execution_id : String
  pub sequence : ℕ
  pub data_ : List (String × String)

unfoldable pub terminal_events : String → ℕ → Option String → List RuntimeEvent
terminal_events execution_id start_sequence error_code =
    if truthy error_code
    then (record {
      event_type = error;
      execution_id = execution_id;
      sequence = start_sequence;
      data_ = ("code", text_or error_code "") ∷ [];
    }
        ∷ record {
          event_type = done;
          execution_id = execution_id;
          sequence = start_sequence + 1;
          data_ = ("status", "failed") ∷ [];
        }
        ∷ [])
    else (record {
      event_type = done;
      execution_id = execution_id;
      sequence = start_sequence;
      data_ = ("status", "completed") ∷ [];
    }
        ∷ [])

abbrev pub is_done : RuntimeEvent → Bool
is_done e = elim e.event_type [ done ↦ true | _ ↦ false ]

abbrev pub is_error : RuntimeEvent → Bool
is_error e = elim e.event_type [ error ↦ true | _ ↦ false ]

-- `[index for index, event in enumerate(events, i) if event.event_type is DONE]`.
unfoldable pub done_positions : ℕ → List RuntimeEvent → List ℕ
done_positions i [] = []
done_positions i (e ∷ es) =
    let rest = done_positions (suc i) es in if is_done e then i ∷ rest else rest

-- `positions != [n]`, of a list and the one number.
abbrev pub is_only : List ℕ → ℕ → Bool
is_only (p ∷ []) n = p == n
is_only _ n = false

-- An error event at or after the position, from the position `i` on.
unfoldable pub error_from : ℕ → ℕ → List RuntimeEvent → Bool
error_from d i [] = false
error_from d i (e ∷ es) =
    let rest = error_from d (suc i) es in if is_error e && leb d i then true else rest

abbrev pub first_or_zero : List ℕ → ℕ
first_or_zero [] = 0
first_or_zero (p ∷ ps) = p

abbrev pub last_index : List RuntimeEvent → ℕ
last_index [] = 0
last_index (e ∷ es) = length es

unfoldable pub validate_terminal_sequence : List RuntimeEvent → Result (Unit {0})
validate_terminal_sequence [] = err "SSE_TERMINAL_EVENT_REQUIRED"
validate_terminal_sequence (e ∷ es) =
    raise_if (not (is_only (done_positions 0 (e ∷ es)) (last_index (e ∷ es))))
      "SSE_DONE_MUST_BE_UNIQUE_AND_LAST"
    >> raise_if (error_from (first_or_zero (done_positions 0 (e ∷ es))) 0 (e ∷ es))
        "SSE_ERROR_MUST_PRECEDE_DONE"

-- `len({event.execution_id for event in events}) == 1`, of a list that is not empty.
unfoldable pub same_execution : String → List RuntimeEvent → Bool
same_execution x [] = true
same_execution x (e ∷ es) =
    let rest = same_execution x es in if str_eq e.execution_id x then rest else false

-- `sequences == list(range(n, n + len(sequences)))`.
unfoldable pub is_range : ℕ → List RuntimeEvent → Bool
is_range n [] = true
is_range n (e ∷ es) = let rest = is_range (suc n) es in if e.sequence == n then rest else false

unfoldable pub validate_runtime_sequence : List RuntimeEvent → Result (Unit {0})
validate_runtime_sequence [] = validate_terminal_sequence []
validate_runtime_sequence (e ∷ es) =
    validate_terminal_sequence (e ∷ es)
    >> raise_if (not (same_execution e.execution_id (e ∷ es))) "SSE_EXECUTION_ID_MISMATCH"
    >> raise_if (not (is_range e.sequence (e ∷ es))) "SSE_SEQUENCE_MUST_BE_CONTIGUOUS"
