-- ===== src/Store/Timestamp.antt =====
-- Timestamps in TEXT columns of the SQLite backend: t.UTC().Format(time.RFC3339) on the way in and
-- time.Parse on the way out. Times lie in the years 1970 to 9999, where the text always parses, and
-- where the order of the texts is the order of the seconds.
use trust_mate.Common.{ℕ, ◌*◌, ◌/◌, ◌≤◌, ◌+◌, ◌<◌, arith, Option, none, some}
use trust_mate.Store.Records.{Time}

abbrev pub second : ℕ
second = 1000000000

-- the seconds that Format(time.RFC3339) writes
abbrev pub format_rfc3339 : Time → ℕ
format_rfc3339 t = t / second

abbrev pub parse_rfc3339 : ℕ → Time
parse_rfc3339 s = s * second

-- what a column gives back
abbrev pub column : Time → Time
column t = parse_rfc3339 (format_rfc3339 t)

abbrev pub nullable_column : Option Time → Option Time
nullable_column none = none
nullable_column (some t) = some (column t)

-- A column gives back a time at most a second early.
pub column_bounds : (t : Time) → (column t ≤ t) × (t < column t + second)
column_bounds t = omega arith
