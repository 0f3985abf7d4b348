-- ===== src/Services/Tests.antt =====
-- One user and one spoken turn, and the theorems on the services at them.
mod Texts
mod Audits
use efata_777_backend_premiu.Prelude.{
  ℕ, ◌+◌, ◌≤◌, String, ◌≡◌, refl, true, not, some, List, [], ◌∷◌, leb, count_if, find, any, arith,
}
use efata_777_backend_premiu.Prelude.Text.{take_text, strip}
use efata_777_backend_premiu.Runtime.Contracts.{ok}
use efata_777_backend_premiu.Services.Authorization.{
  Directory, resolve_provisioned_roles, of_membership, with_owner, roles_of, add_role,
}
use efata_777_backend_premiu.Services.Authorization.Roles.{IsEntitled, roles-IsEntitled}
use efata_777_backend_premiu.Services.RateLimit.{AbuseLimiter}
use efata_777_backend_premiu.Services.RateLimit.Window.{
  Attempt, accepted_times, accepted_within_limit,
}
use efata_777_backend_premiu.Services.RealtimeBridge.{
  RealtimeReceipt, AuditRow, Commit, committed, row_of, receipt_id, reserve_receipt,
  complete_receipt, fail_receipt, new_row, processing,
}
use efata_777_backend_premiu.Services.RealtimeBridge.Receipts.{
  IsReceipt, settled_turn, reserved_turn,
}

abbrev two_a_minute : AbuseLimiter
two_a_minute = record { window = 60; per_user_limit = 2; events = λ t u. [] }

abbrev at : ℕ → Attempt
at now = record { tenant = "t"; user = "u"; now = now }

accepted_within_limit_example :
    count_if
      (λ e. not (leb (e + 60) 70))
      (accepted_times "t" "u" two_a_minute [] (at 0 ∷ at 1 ∷ at 2 ∷ at 65 ∷ []))
    ≤ 2
accepted_within_limit_example =
    accepted_within_limit "t" "u" two_a_minute (at 0 ∷ at 1 ∷ at 2 ∷ at 65 ∷ []) 70 refl
      (omega arith, (omega arith, (omega arith, (omega arith, omega arith))))

abbrev reserved_rows : List AuditRow
reserved_rows = new_row "t" "a" "th" "key" "s" ∷ []

is_reserved : IsReceipt "t" "key" reserved_rows (new_row "t" "a" "th" "key" "s")
unfolding row_of find receipt_id take_text
is_reserved = record { found = refl; tenant = refl; action = refl }

reserved_turn_example :
    let rows' = (reserve_receipt committed "t" "a" "th" "key" "s" []).1 in
    (reserve_receipt committed "t" "a" "th" "key" "s" [] ≡ (ok (processing "key"), rows'))
    × IsReceipt "t" "key" rows' (new_row "t" "a" "th" "key" "s")
    × ((c : Commit) (actor' thread' session' : String)
        → reserve_receipt c "t" actor' thread' "key" session' rows'
          ≡ (ok (processing "key"), rows'))
unfolding row_of find
reserved_turn_example = reserved_turn "t" "a" "th" "key" "s" [] refl

settled_turn_example :
    ((c : Commit) (actor thread session : String)
      → let rows' = (complete_receipt "t" "key" "m1" "x1" "g1" reserved_rows).1 in
        reserve_receipt c "t" actor thread "key" session rows' ≡ (
          ok (record {
            turn_key = "key";
            state = "completed";
            message_id = some "m1";
            execution_id = some "x1";
            agent_id = some "g1";
          }),
          rows',
        ))
    × ((c : Commit) (actor thread session : String)
        → let rows' = fail_receipt "t" "key" "LOST" reserved_rows in
          (r : RealtimeReceipt) × (reserve_receipt c "t" actor thread "key" session rows'
            ≡ (ok r, rows'))
          × (r.state ≡ "failed"))
settled_turn_example =
    settled_turn "t" "key" "m1" "x1" "g1" "LOST" reserved_rows (new_row "t" "a" "th" "key" "s")
      is_reserved refl refl refl

abbrev directory : Directory
directory = record {
  tenants = record { id = "t" } ∷ [];
  users = record { id = "u"; external_subject = "sub" } ∷ [];
  memberships = record { tenant_id = "t"; user_id = "u"; role = " superadmin"; active = true } ∷ [];
}

abbrev owner_roles : List String
owner_roles = "admin" ∷ "owner" ∷ "platform_owner" ∷ "superadmin" ∷ []

roles-IsEntitled_example : IsEntitled directory "t" "u" (some "sub") (some "sub ") owner_roles
unfolding resolve_provisioned_roles of_membership with_owner roles_of add_role find any strip
roles-IsEntitled_example =
    roles-IsEntitled directory "t" "u" (some "sub") (some "sub ") owner_roles refl
