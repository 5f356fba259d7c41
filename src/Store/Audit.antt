-- ===== src/Store/Audit.antt =====
-- internal/store/sqlite/audit.go. No statement deletes from audit_log, so the next AUTOINCREMENT id
-- is one more than the number of its rows.
use mathlib.Core.List.{reverse}
use trust_mate.Common.{ℕ, ◌+◌, List, [], ◌∷◌, ◌++◌, length, take}
use trust_mate.Store.Records.{AuditEntry, Error, Db}
use trust_mate.Store.Timestamp.{column}
use trust_mate.Exec.{Result, ok, Exec, statement, query}

-- the row of an entry behind the given rows
abbrev pub stored : AuditEntry → List AuditEntry → AuditEntry
stored entry rows = record entry { id = length rows + 1; timestamp = column entry.timestamp }

unfoldable pub insert : AuditEntry → Db → Result Error (Unit {0}) × Db
insert entry db = (ok tt, record db { audit_log = db.audit_log ++ stored entry db.audit_log ∷ [] })

unfoldable pub append : AuditEntry → Exec Error (Unit {0})
append entry = statement (insert entry)

-- ORDER BY id DESC LIMIT ?
unfoldable pub newest : ℕ → List AuditEntry → List AuditEntry
newest limit rows = take limit (reverse rows)

unfoldable pub list : ℕ → Exec Error (List AuditEntry)
list limit = query (λ db. ok (newest limit db.audit_log))
