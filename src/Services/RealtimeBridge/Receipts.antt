-- ===== src/Services/RealtimeBridge/Receipts.antt =====
-- The receipts of services/realtime_bridge.py after each operation.
use efata_777_backend_premiu.Prelude.{
  String, ◌≡◌, refl, ap, ◌∙◌, false, none, some, List, [], ◌∷◌, ◌++◌, str_eq, eq_iff, eq_refl,
  modify_first, arith, find-append, find-modify_first_self,
}
use mathlib.Core.Option
use efata_777_backend_premiu.Prelude.Text.{is_empty}
use efata_777_backend_premiu.Runtime.Contracts.{ok}
use efata_777_backend_premiu.Services.RealtimeBridge.{
  RealtimeReceipt, AuditRow, lookup, assign, receipt_id, has_id, row_of, receipt_of, load_found,
  load_receipt, Commit, committed, new_row, processing, reserve_receipt, reserve_or, reserve_new,
  completed_row, complete_receipt, failed_row, fail_receipt,
}

lookup-assign :
    (key value : String) (d : List (String × String)) → lookup (assign key value d) key ≡ some value
unfolding lookup assign
lookup-assign key value [] = ground (arith, eq_refl key)
lookup-assign key value ((k, v) ∷ rest) = ground (arith, lookup-assign key value rest)

lookup-assign_ne :
    (key other value : String) (d : List (String × String))
    → str_eq key other ≡ false
    → lookup (assign key value d) other ≡ lookup d other
unfolding lookup assign
lookup-assign_ne key other value [] h = ground arith
lookup-assign_ne key other value ((k, v) ∷ rest) h =
    ground (arith, lookup-assign_ne key other value rest h, eq_iff k key)

-- A receipt that is found is what every later reservation returns, and nothing is written.
reserve_found :
    (c : Commit) (t a th key s : String) (rows : List AuditRow) (r : RealtimeReceipt)
    → load_receipt t key rows ≡ some r
    → reserve_receipt c t a th key s rows ≡ (ok r, rows)
unfolding reserve_receipt reserve_or
reserve_found c t a th key s rows r h = rw h refl

load_written :
    (t key : String) (f : AuditRow → AuditRow) (rows : List AuditRow) (row : AuditRow)
    → ((r : AuditRow) → (f r).id ≡ r.id)
    → row_of key rows ≡ some row
    → load_receipt t key (modify_first (has_id (receipt_id key)) f rows)
      ≡ load_found t key (some (f row))
unfolding load_receipt row_of
load_written t key f rows row same found = ap (load_found t key) (
    find-modify_first_self (has_id (receipt_id key)) f rows (λ r h. rw (same r) h)
    ∙ ap (Option.map f) found)

completed_receipt :
    (key m x g : String) (row : AuditRow)
    → is_empty m ≡ false
    → is_empty x ≡ false
    → is_empty g ≡ false
    → receipt_of key (completed_row m x g row) ≡ record {
      turn_key = key;
      state = "completed";
      message_id = some m;
      execution_id = some x;
      agent_id = some g;
    }
completed_receipt key m x g row hm hx hg =
    let d1 = assign "state" "completed" row.metadata_json in
    let d2 = assign "message_id" m d1 in
    let d3 = assign "execution_id" x d2 in
    rw
      (
        lookup-assign_ne "agent_id" "state" g d3 refl,
        lookup-assign_ne "execution_id" "state" x d2 refl,
        lookup-assign_ne "message_id" "state" m d1 refl,
        lookup-assign "state" "completed" row.metadata_json,
        lookup-assign_ne "agent_id" "message_id" g d3 refl,
        lookup-assign_ne "execution_id" "message_id" x d2 refl,
        lookup-assign "message_id" m d1,
        lookup-assign_ne "agent_id" "execution_id" g d3 refl,
        lookup-assign "execution_id" x d2,
        lookup-assign "agent_id" g d3,
        hm,
        hx,
        hg,
      )
      refl

failed_state :
    (key e : String) (row : AuditRow) → (receipt_of key (failed_row e row)).state ≡ "failed"
failed_state key e row =
    let d1 = assign "state" "failed" row.metadata_json in
    rw
      (
        lookup-assign_ne "error_code" "state" e d1 refl,
        lookup-assign "state" "failed" row.metadata_json,
      )
      refl

-- The row of a receipt of the tenant.
pub record IsReceipt (t key : String) (rows : List AuditRow) (row : AuditRow) : Type 0 where
  pub found : row_of key rows ≡ some row
  pub tenant : row.tenant_id ≡ t
  pub action : row.action ≡ "realtime_turn_receipt"

load_own :
    (t key : String) (row : AuditRow)
    → row.tenant_id ≡ t
    → row.action ≡ "realtime_turn_receipt"
    → load_found t key (some row) ≡ some (receipt_of key row)
unfolding load_found
load_own t key row own action = rw (own, action, eq_refl t) refl

load_completed :
    (t key m x g : String) (rows : List AuditRow) (row : AuditRow)
    → IsReceipt t key rows row
    → load_receipt t key (complete_receipt t key m x g rows).1
      ≡ some (receipt_of key (completed_row m x g row))
unfolding complete_receipt
load_completed t key m x g rows row h =
    rw (h.found, h.tenant, eq_refl t)
      (load_written t key (completed_row m x g) rows row (λ r. refl) h.found
        ∙ load_own t key (completed_row m x g row) h.tenant h.action)

load_failed :
    (t key e : String) (rows : List AuditRow) (row : AuditRow)
    → IsReceipt t key rows row
    → load_receipt t key (fail_receipt t key e rows) ≡ some (receipt_of key (failed_row e row))
unfolding fail_receipt
load_failed t key e rows row h =
    rw (h.found, h.tenant, eq_refl t)
      (load_written t key (failed_row e) rows row (λ r. refl) h.found
        ∙ load_own t key (failed_row e row) h.tenant h.action)

-- A reserved turn is settled once: after `complete_receipt` with identifiers that are not empty, every later reservation of its key, from any session and whatever its commit would meet, returns the completed receipt with those identifiers and writes nothing; after `fail_receipt` it returns a receipt in the state "failed" and writes nothing.
pub settled_turn :
    (t key m x g e : String) (rows : List AuditRow) (row : AuditRow)
    → IsReceipt t key rows row
    → is_empty m ≡ false
    → is_empty x ≡ false
    → is_empty g ≡ false
    → ((c : Commit) (actor thread session : String)
        → let rows' = (complete_receipt t key m x g rows).1 in
          reserve_receipt c t actor thread key session rows' ≡ (
            ok (record {
              turn_key = key;
              state = "completed";
              message_id = some m;
              execution_id = some x;
              agent_id = some g;
            }),
            rows',
          ))
      × ((c : Commit) (actor thread session : String)
          → let rows' = fail_receipt t key e rows in
            (r : RealtimeReceipt) × (reserve_receipt c t actor thread key session rows'
              ≡ (ok r, rows'))
            × (r.state ≡ "failed"))
settled_turn t key m x g e rows row h hm hx hg = (
  λ c actor thread session.
      reserve_found c t actor thread key session (complete_receipt t key m x g rows).1 _ (
        load_completed t key m x g rows row h ∙ ap some (completed_receipt key m x g row hm hx hg)),
  λ c actor thread session. (
    receipt_of key (failed_row e row),
    reserve_found c t actor thread key session (fail_receipt t key e rows) _
        (load_failed t key e rows row h),
    failed_state key e row,
  ),
)

new_receipt :
    (t actor thread key session : String)
    → receipt_of key (new_row t actor thread key session) ≡ processing key
unfolding lookup
new_receipt t actor thread key session = refl

new_row_found :
    (t actor thread key session : String) (rows : List AuditRow)
    → row_of key rows ≡ none
    → row_of key (rows ++ new_row t actor thread key session ∷ [])
      ≡ some (new_row t actor thread key session)
unfolding row_of
new_row_found t actor thread key session rows free =
    find-append (has_id (receipt_id key)) rows (new_row t actor thread key session)
    ∙ rw (free, eq_refl (receipt_id key)) refl

reserve_first :
    (t actor thread key session : String) (rows : List AuditRow)
    → row_of key rows ≡ none
    → reserve_receipt committed t actor thread key session rows
      ≡ (ok (processing key), rows ++ new_row t actor thread key session ∷ [])
unfolding reserve_receipt reserve_or reserve_new load_receipt load_found
reserve_first t actor thread key session rows free = rw free refl

-- The first reservation of a key that no row has, once committed, leaves a receipt row of the tenant in the state "processing".
pub reserved_turn :
    (t actor thread key session : String) (rows : List AuditRow)
    → row_of key rows ≡ none
    → let rows' = (reserve_receipt committed t actor thread key session rows).1 in
      (reserve_receipt committed t actor thread key session rows ≡ (ok (processing key), rows'))
      × IsReceipt t key rows' (new_row t actor thread key session)
      × ((c : Commit) (actor' thread' session' : String)
          → reserve_receipt c t actor' thread' key session' rows' ≡ (ok (processing key), rows'))
unfolding load_receipt
reserved_turn t actor thread key session rows free =
    let own = new_row_found t actor thread key session rows free in
    let first = reserve_first t actor thread key session rows free in
    rw first (
      refl,
      record { found = own; tenant = refl; action = refl },
      λ c actor' thread' session'.
          reserve_found c t actor' thread' key session'
            (rows ++ new_row t actor thread key session ∷ []) (processing key)
            (ap (load_found t key) own
              ∙ load_own t key (new_row t actor thread key session) refl refl
              ∙ ap some (new_receipt t actor thread key session)),
    )
