-- ===== src/Store/Time.antt =====
-- Instants and the two text layouts in which internal/store keeps them.
-- A `Time` counts nanoseconds from Go's zero time, so 0 is the value that `IsZero` tests for. In the
-- years 1 to 9999 both layouts have a fixed width in UTC, so texts compare as the numbers here do.
use fleetsweeper.Common.{ℕ, ◌*◌, ◌/◌, ◌≤◌, ◌≡◌, arith, Bool, Option, none, some, if◌then◌else◌, eqb}

abbrev pub Time : Type 0
Time = ℕ

abbrev pub second : ℕ
second = 1_000_000_000

unfoldable pub is_zero : Time → Bool
is_zero t = eqb t 0

-- `t.UTC().Format(time.RFC3339)`: whole seconds.
unfoldable pub format : Time → ℕ
format t = t / second

-- `time.Parse(time.RFC3339, s)` of such a text.
unfoldable pub parse : ℕ → Time
parse s = s * second

-- What is left of an instant that is written and read again.
unfoldable pub truncated : Time → Time
unfolding format parse
truncated t = parse (format t)

-- A zero time is written as SQL NULL, any other as its text.
unfoldable pub format_null : Time → Option ℕ
unfolding is_zero format
format_null t = if is_zero t then none else some (format t)

-- NULL is read as the zero time.
unfoldable pub parse_null : Option ℕ → Time
unfolding parse
parse_null none = 0
parse_null (some s) = parse s

pub truncated-le : (t : Time) → truncated t ≤ t
unfolding truncated
truncated-le t = omega arith

pub parse_null-format_null : (t : Time) → parse_null (format_null t) ≡ truncated t
unfolding parse_null format_null truncated
parse_null-format_null t = ground arith
