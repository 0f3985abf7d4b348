-- ===== src/Services/RealtimeBridge.antt =====
-- src/orkio_v2/services/realtime_bridge.py: one receipt for each spoken turn, kept as an audit row.
pub mod Receipts
use Prim.Native.String.{◌++◌ as ◌+++◌}
use efata_777_backend_premiu.Prelude.{
  String, Bool, true, false, not, ◌&&◌, ◌||◌, Option, none, some, List, [], ◌∷◌, ◌++◌, str_eq, find,
  modify_first, if◌then◌else◌,
}
use efata_777_backend_premiu.Prelude.Text.{strip, is_empty, text_or, take_text}
use efata_777_backend_premiu.Runtime.Contracts.{Result, ok, err, raise_if, ◌>>◌}

pub record RealtimeReceipt : Type 0 where
  pub turn_key : String
  pub state : String
  pub message_id : Option String
  pub execution_id : Option String
  pub agent_id : Option String

-- The columns of `audit_events` that are written here; the metadata as key and text.
pub record AuditRow : Type 0 where
  pub id : String
  pub tenant_id : String
  pub actor_id : String
  pub action : String
  pub resource_type : String
  pub resource_id : String
  pub outcome : String
  pub metadata_json : List (String × String)

unfoldable pub lookup : List (String × String) → String → Option String
lookup [] key = none
lookup ((k, v) ∷ rest) key = let later = lookup rest key in if str_eq k key then some v else later

-- `data[key] = value`.
unfoldable pub assign : String → String → List (String × String) → List (String × String)
assign key value [] = (key, value) ∷ []
assign key value ((k, v) ∷ rest) =
    let kept = assign key value rest in if str_eq k key then (k, value) ∷ rest else (k, v) ∷ kept

abbrev is_blank : String → Bool
is_blank s = is_empty (strip s)

-- The key of a turn: the digest of its five identifiers, one to a line.
unfoldable pub realtime_turn_key :
    (String → String) → String → String → String → String → String → Result String
unfolding strip
realtime_turn_key sha256 tenant_id thread_id session_id item_id transcript_id =
    raise_if
      (is_blank tenant_id
        || is_blank thread_id
        || is_blank session_id
        || is_blank item_id
        || is_blank transcript_id)
      "REALTIME_IDEMPOTENCY_KEY_INCOMPLETE"
    >> ok (
        sha256 (
          strip tenant_id
          +++ ("\n"
              +++ (strip thread_id
                  +++ ("\n"
                      +++ (strip session_id
                          +++ ("\n" +++ (strip item_id +++ ("\n" +++ strip transcript_id)))))))))

unfoldable pub receipt_id : String → String
unfolding take_text
receipt_id turn_key = "rt-" +++ take_text 61 turn_key

abbrev pub has_id : String → AuditRow → Bool
has_id id r = str_eq r.id id

-- `db.get(AuditEvent, receipt_id(turn_key))`.
unfoldable pub row_of : String → List AuditRow → Option AuditRow
row_of turn_key rows = find (has_id (receipt_id turn_key)) rows

abbrev present : Option String → Option String
present none = none
present (some s) = if is_empty s then none else some s

abbrev pub receipt_of : String → AuditRow → RealtimeReceipt
receipt_of turn_key row = record {
  turn_key = turn_key;
  state = text_or (lookup row.metadata_json "state") row.outcome;
  message_id = present (lookup row.metadata_json "message_id");
  execution_id = present (lookup row.metadata_json "execution_id");
  agent_id = present (lookup row.metadata_json "agent_id");
}

unfoldable pub load_found : String → String → Option AuditRow → Option RealtimeReceipt
load_found tenant_id turn_key none = none
load_found tenant_id turn_key (some row) =
    if not (str_eq row.tenant_id tenant_id) || not (str_eq row.action "realtime_turn_receipt")
    then none
    else some (receipt_of turn_key row)

unfoldable pub load_receipt : String → String → List AuditRow → Option RealtimeReceipt
load_receipt tenant_id turn_key rows = load_found tenant_id turn_key (row_of turn_key rows)

-- How the commit of the new row ends; a failure shows the rows that others have committed.
pub data Commit : Type 0 where
  committed : Commit
  failed : List AuditRow → Commit

abbrev pub new_row : String → String → String → String → String → AuditRow
new_row tenant_id actor_id thread_id turn_key session_id = record {
  id = receipt_id turn_key;
  tenant_id = tenant_id;
  actor_id = actor_id;
  action = "realtime_turn_receipt";
  resource_type = "realtime_turn";
  resource_id = thread_id;
  outcome = "processing";
  metadata_json =
      ("state", "processing") ∷ ("session_id", session_id) ∷ ("thread_id", thread_id) ∷ [];
}

abbrev pub processing : String → RealtimeReceipt
processing turn_key = record {
  turn_key = turn_key;
  state = "processing";
  message_id = none;
  execution_id = none;
  agent_id = none;
}

after_failure : Option RealtimeReceipt → List AuditRow → Result RealtimeReceipt × List AuditRow
after_failure none rows = (err "commit", rows)
after_failure (some receipt) rows = (ok receipt, rows)

reserve_new :
    Commit
    → String
    → String
    → String
    → String
    → String
    → List AuditRow
    → Result RealtimeReceipt × List AuditRow
unfolding after_failure
reserve_new committed tenant_id actor_id thread_id turn_key session_id rows = (
  ok (processing turn_key),
  rows ++ new_row tenant_id actor_id thread_id turn_key session_id ∷ [],
)
reserve_new (failed others) tenant_id actor_id thread_id turn_key session_id rows =
    after_failure (load_receipt tenant_id turn_key (rows ++ others)) (rows ++ others)

reserve_or :
    Option RealtimeReceipt
    → Commit
    → String
    → String
    → String
    → String
    → String
    → List AuditRow
    → Result RealtimeReceipt × List AuditRow
unfolding reserve_new
reserve_or (some receipt) commit tenant_id actor_id thread_id turn_key session_id rows =
    (ok receipt, rows)
reserve_or none commit tenant_id actor_id thread_id turn_key session_id rows =
    reserve_new commit tenant_id actor_id thread_id turn_key session_id rows

unfoldable pub reserve_receipt :
    Commit
    → String
    → String
    → String
    → String
    → String
    → List AuditRow
    → Result RealtimeReceipt × List AuditRow
unfolding reserve_or
reserve_receipt commit tenant_id actor_id thread_id turn_key session_id rows =
    reserve_or (load_receipt tenant_id turn_key rows) commit tenant_id actor_id thread_id turn_key
      session_id rows

abbrev pub completed_row : String → String → String → AuditRow → AuditRow
completed_row message_id execution_id agent_id row = record row {
  outcome = "success";
  metadata_json = assign "agent_id" agent_id (
      assign "execution_id" execution_id
        (assign "message_id" message_id (assign "state" "completed" row.metadata_json)));
}

abbrev pub is_of_tenant : String → Option AuditRow → Bool
is_of_tenant tenant_id none = false
is_of_tenant tenant_id (some row) = str_eq row.tenant_id tenant_id

abbrev pub write_row : String → (AuditRow → AuditRow) → List AuditRow → List AuditRow
write_row turn_key f rows = modify_first (has_id (receipt_id turn_key)) f rows

unfoldable pub complete_receipt :
    String
    → String
    → String
    → String
    → String
    → List AuditRow
    → Result RealtimeReceipt × List AuditRow
complete_receipt tenant_id turn_key message_id execution_id agent_id rows =
    if is_of_tenant tenant_id (row_of turn_key rows)
    then (
      ok (record {
        turn_key = turn_key;
        state = "completed";
        message_id = some message_id;
        execution_id = some execution_id;
        agent_id = some agent_id;
      }),
      write_row turn_key (completed_row message_id execution_id agent_id) rows,
    )
    else (err "REALTIME_RECEIPT_NOT_FOUND", rows)

abbrev pub failed_row : String → AuditRow → AuditRow
failed_row error_code row = record row {
  outcome = "failed";
  metadata_json = assign "error_code" error_code (assign "state" "failed" row.metadata_json);
}

unfoldable pub fail_receipt : String → String → String → List AuditRow → List AuditRow
fail_receipt tenant_id turn_key error_code rows =
    if is_of_tenant tenant_id (row_of turn_key rows)
    then write_row turn_key (failed_row error_code) rows
    else rows
