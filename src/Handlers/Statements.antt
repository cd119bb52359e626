-- ===== src/Handlers/Statements.antt =====
-- indexer/handlers.ts: the statements that several handlers share, with what the column types of
-- db/schema.sql refuse: NUMERIC(40,0) and INTEGER.
use ourdao_backend.Common.{
  ℕ, String, Bool, false, Option, none, some, ◌≡◌, ◌⊎◌, ◌+◌, ◌/◌, ◌^◌, ◌&&◌, List, [], ◌∷◌, ◌++◌,
  if◌then◌else◌, ltb, leb, any, Result, ok, err, ◌>>=◌, Eq, ◌==◌, string_eq, nat_eq, arith,
}
use ourdao_backend.Common.Int.{ℤ, pos, negsuc, int_eq}
use ourdao_backend.Common.Table.{Table, lookup, put}
use ourdao_backend.Events.{DecodedEvent}
use ourdao_backend.Derived.{Member, Notification, NotificationType, DailyLoanStats, Derived}
use ourdao_backend.Handlers.Require.{FoldError, numeric_overflow, integer_out_of_range, Fold}

-- a NUMERIC(40,0) column takes up to 40 digits
unfoldable pub numeric40 : ℕ → Fold ℕ
numeric40 n = if ltb n (10 ^ 40) then ok n else err numeric_overflow

-- an INTEGER column or key
unfoldable pub int4 : ℤ → Fold ℤ
int4 (pos n) = if leb n 2147483647 then ok (pos n) else err integer_out_of_range
int4 (negsuc n) = if leb n 2147483647 then ok (negsuc n) else err integer_out_of_range

unfoldable pub int4_count : ℕ → Fold ℕ
int4_count n = if leb n 2147483647 then ok n else err integer_out_of_range

-- The row that an `UPDATE … WHERE key = k` writes: none where the table has none.
unfoldable pub update_row {ℓ κ} :
    {K : Type κ} {V : Type ℓ} ⦃e : Eq K⦄
    → K
    → (V → Result FoldError V)
    → Table K V
    → Result FoldError (Table K V)
update_row k f t = elim (lookup k t) [ none ↦ ok t | some v ↦ f v >>= λ w. ok (put k w t) ]

unfoldable pub update_member : String → (Member → Fold Member) → Derived → Fold Derived
unfolding update_row
update_member address f db = do
  members' ← update_row address f db.members
  ok (record db { members = members' })

notified : String → String → List Notification → Bool
notified event_id address = any (λ n. n.event_id == event_id && n.address == address)

-- `notify`: at most one row for each event and address
unfoldable pub notify :
    DecodedEvent → String → NotificationType → String → String → Derived → Derived
unfolding notified
notify ev address kind title message db =
    if address == ""
    then db
    else if notified ev.id address db.notifications
    then db
    else record db {
      notifications =
          db.notifications
          ++ record {
            address = address;
            kind = kind;
            title = title;
            message = message;
            ledger = ev.ledger;
            tx_hash = ev.tx_hash;
            event_id = ev.id;
            read = false;
          }
            ∷ [];
    }

no_stats : DailyLoanStats
no_stats = record {
  loans_originated = 0;
  principal_lent = 0;
  principal_repaid = 0;
  defaults_count = 0;
  value_defaulted = 0;
}

unfoldable pub stats_or_zero : Option DailyLoanStats → DailyLoanStats
unfolding no_stats
stats_or_zero none = no_stats
stats_or_zero (some s) = s

unfoldable pub add_stats : DailyLoanStats → DailyLoanStats → Fold DailyLoanStats
add_stats s d = do
  loans ← int4_count (s.loans_originated + d.loans_originated)
  lent ← numeric40 (s.principal_lent + d.principal_lent)
  repaid ← numeric40 (s.principal_repaid + d.principal_repaid)
  defaults ← int4_count (s.defaults_count + d.defaults_count)
  value ← numeric40 (s.value_defaulted + d.value_defaulted)
  ok (record {
    loans_originated = loans;
    principal_lent = lent;
    principal_repaid = repaid;
    defaults_count = defaults;
    value_defaulted = value;
  })

-- the day, in UTC, on which the event's ledger closed
unfoldable pub day_of : DecodedEvent → ℕ
day_of ev = ev.closed_at / 86400

unfoldable pub increment_daily_loan_stats : DecodedEvent → DailyLoanStats → Derived → Fold Derived
unfolding stats_or_zero add_stats
increment_daily_loan_stats ev deltas db = do
  stats ← add_stats (stats_or_zero (lookup (day_of ev) db.daily_loan_stats)) deltas
  ok (record db { daily_loan_stats = put (day_of ev) stats db.daily_loan_stats })

-- `UPDATE dao_totals SET … WHERE id = 1`, one column each
unfoldable pub add_principal_lent : ℕ → Derived → Fold Derived
add_principal_lent n db = do
  total ← numeric40 (db.dao_totals.principal_lent + n)
  ok (record db { dao_totals = record (db.dao_totals) { principal_lent = total } })

unfoldable pub add_principal_repaid : ℕ → Derived → Fold Derived
add_principal_repaid n db = do
  total ← numeric40 (db.dao_totals.principal_repaid + n)
  ok (record db { dao_totals = record (db.dao_totals) { principal_repaid = total } })

unfoldable pub add_value_defaulted : ℕ → Derived → Fold Derived
add_value_defaulted n db = do
  total ← numeric40 (db.dao_totals.value_defaulted + n)
  ok (record db { dao_totals = record (db.dao_totals) { value_defaulted = total } })

unfoldable pub add_interest_collected : ℕ → Derived → Fold Derived
add_interest_collected n db = do
  total ← numeric40 (db.dao_totals.interest_collected + n)
  ok (record db { dao_totals = record (db.dao_totals) { interest_collected = total } })

-- A check passes its number on or throws.
pub numeric40_cases : (n : ℕ) → (numeric40 n ≡ ok n) ⊎ (numeric40 n ≡ err numeric_overflow)
unfolding numeric40
numeric40_cases n = ground arith

pub int4_count_cases : (n : ℕ) → (int4_count n ≡ ok n) ⊎ (int4_count n ≡ err integer_out_of_range)
unfolding int4_count
int4_count_cases n = ground arith

pub int4_cases : (n : ℤ) → (int4 n ≡ ok n) ⊎ (int4 n ≡ err integer_out_of_range)
unfolding int4
int4_cases (pos n) = ground arith
int4_cases (negsuc n) = ground arith
