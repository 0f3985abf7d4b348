-- ===== src/Services/RateLimit.antt =====
-- src/orkio_v2/services/audit_invocation_rate_limit.py: the two limits on audit invocations. Clocks
-- count in equal ticks, `window` is the ticks of a window, and a comparison with the cutoff
-- `now - window` is written as one with `now`.
pub mod Window
use efata_777_backend_premiu.Prelude.{
  ℕ, ◌+◌, String, Bool, true, false, not, ◌&&◌, ◌||◌, List, [], ◌∷◌, ◌++◌, str_eq, ltb, leb, ◌==◌,
  if◌then◌else◌, count_if, length,
}
use efata_777_backend_premiu.Runtime.Contracts.{Result, ok, raise_if, ◌>>◌}

-- The columns of `audit_evidence_records` that the limit reads.
pub record AuditEvidenceRecord : Type 0 where
  pub tenant_id : String
  pub user_id : String
  pub capability_id : String
  pub created_at : ℕ

pub record LedgerLimit : Type 0 where
  pub window_seconds : ℕ
  pub user_limit : ℕ
  pub tenant_limit : ℕ

unfoldable pub ledger_limit : ℕ → ℕ → ℕ → Result LedgerLimit
ledger_limit window user tenant =
    raise_if (not (window == 60)) "AUDIT_RATE_LIMIT_WINDOW_INVALID"
    >> raise_if (ltb user 1 || ltb tenant user) "AUDIT_RATE_LIMIT_VALUE_INVALID"
    >> ok (record { window_seconds = window; user_limit = user; tenant_limit = tenant })

abbrev pub in_window : LedgerLimit → String → String → ℕ → AuditEvidenceRecord → Bool
in_window l tenant capability now r =
    str_eq r.tenant_id tenant
    && str_eq r.capability_id capability
    && leb now (r.created_at + l.window_seconds)

unfoldable pub check_ledger :
    LedgerLimit → String → String → String → ℕ → List AuditEvidenceRecord → Bool
check_ledger l tenant user capability now rows =
    ltb (count_if (λ r. in_window l tenant capability now r && str_eq r.user_id user) rows)
      l.user_limit
    && ltb (count_if (in_window l tenant capability now) rows) l.tenant_limit

-- `AuditDirectiveAbuseLimiter`: the times that each key has had accepted and that may still count.
pub record AbuseLimiter : Type 0 where
  pub window : ℕ
  pub per_user_limit : ℕ
  pub events : String → String → List ℕ

unfoldable pub abuse_limiter : ℕ → ℕ → Result AbuseLimiter
abuse_limiter window limit =
    raise_if (not (window == 60) || ltb limit 1) "AUDIT_DIRECTIVE_RATE_LIMIT_INVALID"
    >> ok (record { window = window; per_user_limit = limit; events = λ t u. [] })

-- `while events and events[0] <= cutoff: events.popleft()`.
unfoldable pub drop_expired : ℕ → ℕ → List ℕ → List ℕ
drop_expired window now [] = []
drop_expired window now (e ∷ es) =
    let rest = drop_expired window now es in if leb (e + window) now then rest else e ∷ es

abbrev pub put : String → String → List ℕ → (String → String → List ℕ) → String → String → List ℕ
put t u es f t' u' = if str_eq t t' && str_eq u u' then es else f t' u'

unfoldable pub consume : String → String → ℕ → AbuseLimiter → Bool × AbuseLimiter
consume tenant user now l =
    let live = drop_expired l.window now (l.events tenant user) in
    if leb l.per_user_limit (length live)
    then (false, record l { events = put tenant user live l.events })
    else (true, record l { events = put tenant user (live ++ now ∷ []) l.events })

unfoldable pub reset : AbuseLimiter → AbuseLimiter
reset l = record l { events = λ t u. [] }
