-- ===== src/Handlers/Conversions.antt =====
-- indexer/handlers.ts: fields that the code converts by `Number`, and what their columns refuse.
use ourdao_backend.Common.{
  ℕ, zero, suc, String, Bool, true, false, Option, none, some, if◌then◌else◌, ok, err, leb, ltb,
  ◌>>=◌,
}
use ourdao_backend.Common.Int.{ℤ, pos, negsuc}
use ourdao_backend.Common.Text.{is_decimal, decimal}
use ourdao_backend.Common.Split.{strip_prefix}
use ourdao_backend.Events.{Value, JsNumber, null, bool, num, str, arr, obj}
use ourdao_backend.Handlers.Require.{Fold, invalid_integer, invalid_date, date_out_of_range}
use ourdao_backend.Handlers.Statements.{int4}

negated : ℕ → ℤ
negated zero = pos 0
negated (suc n) = negsuc n

decimal_of : String → Option String → Option ℤ
unfolding negated
decimal_of s none = if is_decimal s then some (pos (decimal s)) else none
decimal_of s (some digits) = if is_decimal digits then some (negated (decimal digits)) else none

-- `Number(v)` where that is an integer. Decoding leaves integers as numbers or as decimal texts; other
-- texts, arrays and objects are taken as no number.
unfoldable pub number_of : Value → Option ℤ
unfolding strip_prefix decimal_of
number_of null = some (pos 0)
number_of (bool b) = some (pos (if b then 1 else 0))
number_of (num n) = n.integer
number_of (str s) = decimal_of s (strip_prefix "-" s)
number_of (obj fs) = none
number_of (arr xs) = none

within_dates : Bool → Bool → ℤ → Fold (Option ℤ)
within_dates true true seconds = ok (some seconds)
within_dates true false seconds = err date_out_of_range
within_dates false _ seconds = err invalid_date

seconds_or_throw : Option ℤ → Fold (Option ℤ)
unfolding within_dates
seconds_or_throw none = err invalid_date
seconds_or_throw (some (pos n)) = within_dates (leb n 8640000000000) true (pos n)
seconds_or_throw (some (negsuc n)) =
    within_dates (ltb n 8640000000000) (ltb n 210866803200) (negsuc n)

-- `f.due_time == null ? null : new Date(Number(f.due_time) * 1000)`, as a TIMESTAMPTZ: a date holds
-- 8.64e15 milliseconds before and after 1970, the database none before 4714 BC
unfoldable pub due_time_of : Value → Fold (Option ℤ)
unfolding seconds_or_throw number_of
due_time_of null = ok none
due_time_of v = seconds_or_throw (number_of v)

stored : Option ℤ → Fold (Option ℤ)
stored none = ok none
stored (some n) = do n' ← int4 n; ok (some n')

number_or_throw : JsNumber → Option ℤ → Fold (Option ℤ)
unfolding stored
number_or_throw v none = err (invalid_integer v.text)
number_or_throw v (some n) = stored (some n)

-- `num(v)`, as an INTEGER: `Number(null)` is 0, what is no number is NULL, and the database refuses a
-- fraction
unfoldable pub active_members_of : Value → Fold (Option ℤ)
unfolding number_or_throw number_of
active_members_of (Value.num n) = number_or_throw n n.integer
active_members_of v = stored (number_of v)
