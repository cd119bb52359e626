-- ===== src/Handlers/Totals.antt =====
-- indexer/handlers.ts: the running totals and the daily statistics, and the rows they summarise.
pub mod Entries
pub mod Changes
use ourdao_backend.Common.{
  ℕ, String, Bool, true, false, Option, none, some, ◌≡◌, ◌+◌, refl, sym, subst, not, ◌&&◌, ok, err,
  Option-cases, inl, inr, Result-cases, >>=-eq-ok, arith, string_eq, nat_eq,
}
use ourdao_backend.Common.Int.{ℤ, int_eq}
use ourdao_backend.Common.Text.{decimal}
use ourdao_backend.Common.Table.{Table, lookup, put, sum_of, sum_of-put_new, sum_of-put}
use ourdao_backend.Events.{DecodedEvent}
use ourdao_backend.Derived.{Loan, LoanStatus, InterestDistribution, DailyLoanStats, Derived}
use ourdao_backend.Handlers.Books.{Books, books}
use ourdao_backend.Handlers.Loans.{
  disburse, count_repayment, repay_row, is_repaid, record_repayment, record_default,
  insert_distribution,
}
use ourdao_backend.Handlers.Statements.{
  numeric40, increment_daily_loan_stats, add_stats, stats_or_zero, day_of, numeric40_cases,
  int4_count_cases, add_principal_lent, add_principal_repaid, add_value_defaulted,
  add_interest_collected,
}

-- Column by column, `s + d`.
pub record IsSum (s d r : DailyLoanStats) : Type 0 where
  pub loans_originated : r.loans_originated ≡ s.loans_originated + d.loans_originated
  pub principal_lent : r.principal_lent ≡ s.principal_lent + d.principal_lent
  pub principal_repaid : r.principal_repaid ≡ s.principal_repaid + d.principal_repaid
  pub defaults_count : r.defaults_count ≡ s.defaults_count + d.defaults_count
  pub value_defaulted : r.value_defaulted ≡ s.value_defaulted + d.value_defaulted

add_stats-IsSum : (s d : DailyLoanStats) {r : DailyLoanStats} → add_stats s d ≡ ok r → IsSum s d r
unfolding add_stats
add_stats-IsSum s d h = ground (
  arith,
  int4_count_cases (s.loans_originated + d.loans_originated),
  numeric40_cases (s.principal_lent + d.principal_lent),
  numeric40_cases (s.principal_repaid + d.principal_repaid),
  int4_count_cases (s.defaults_count + d.defaults_count),
  numeric40_cases (s.value_defaulted + d.value_defaulted),
)

-- The sums of a table of daily statistics.
abbrev pub column_sums : Table ℕ DailyLoanStats → DailyLoanStats
column_sums t = record {
  loans_originated = sum_of (λ s. s.loans_originated) t;
  principal_lent = sum_of (λ s. s.principal_lent) t;
  principal_repaid = sum_of (λ s. s.principal_repaid) t;
  defaults_count = sum_of (λ s. s.defaults_count) t;
  value_defaulted = sum_of (λ s. s.value_defaulted) t;
}

put_stats-IsSum :
    (day : ℕ) (t : Table ℕ DailyLoanStats) (d r : DailyLoanStats)
    → IsSum (stats_or_zero (lookup day t)) d r
    → IsSum (column_sums t) d (column_sums (put day r t))
unfolding stats_or_zero
put_stats-IsSum day t d r h = elim (Option-cases (lookup day t)) [
  | inl e ↦ ground (
    arith,
    sum_of-put_new (λ (s : DailyLoanStats). s.loans_originated) day r t e,
    sum_of-put_new (λ (s : DailyLoanStats). s.principal_lent) day r t e,
    sum_of-put_new (λ (s : DailyLoanStats). s.principal_repaid) day r t e,
    sum_of-put_new (λ (s : DailyLoanStats). s.defaults_count) day r t e,
    sum_of-put_new (λ (s : DailyLoanStats). s.value_defaulted) day r t e,
  )
  | inr (old, e) ↦ ground (
    arith,
    sum_of-put (λ (s : DailyLoanStats). s.loans_originated) day r old t e,
    sum_of-put (λ (s : DailyLoanStats). s.principal_lent) day r old t e,
    sum_of-put (λ (s : DailyLoanStats). s.principal_repaid) day r old t e,
    sum_of-put (λ (s : DailyLoanStats). s.defaults_count) day r old t e,
    sum_of-put (λ (s : DailyLoanStats). s.value_defaulted) day r old t e,
  )
]

-- The totals agree with the rows: what was lent with the loans, the interest with its
-- distributions, and each day's figures, summed up, with the totals.
pub record Reconciles (b : Books) : Type 0 where
  pub lent : b.dao_totals.principal_lent ≡ sum_of (λ (l : Loan). l.amount) b.loans
  pub counted :
      sum_of (λ (s : DailyLoanStats). s.loans_originated) b.daily_loan_stats
      ≡ sum_of (λ (l : Loan). 1) b.loans
  pub interest :
      b.dao_totals.interest_collected
      ≡ sum_of (λ (i : InterestDistribution). i.amount) b.interest_distributions
  pub daily_lent :
      sum_of (λ (s : DailyLoanStats). s.principal_lent) b.daily_loan_stats
      ≡ b.dao_totals.principal_lent
  pub daily_repaid :
      sum_of (λ (s : DailyLoanStats). s.principal_repaid) b.daily_loan_stats
      ≡ b.dao_totals.principal_repaid
  pub daily_defaulted :
      sum_of (λ (s : DailyLoanStats). s.value_defaulted) b.daily_loan_stats
      ≡ b.dao_totals.value_defaulted

-- A day's increment is added to the sums, and nothing else in the books moves.
pub increment_sums :
    (ev : DecodedEvent) (d : DailyLoanStats) (db : Derived) {db' : Derived}
    → increment_daily_loan_stats ev d db ≡ ok db'
    → IsSum (column_sums db.daily_loan_stats) d (column_sums db'.daily_loan_stats)
      × (db'.loans ≡ db.loans)
      × (db'.interest_distributions ≡ db.interest_distributions)
      × (db'.dao_totals ≡ db.dao_totals)
unfolding increment_daily_loan_stats
increment_sums ev d db {db'} h =
    elim (Result-cases (add_stats (stats_or_zero (lookup (day_of ev) db.daily_loan_stats)) d)) [
      | inl (r, e) ↦
          let sums = put_stats-IsSum (day_of ev) db.daily_loan_stats d r (add_stats-IsSum _ d e) in
          ground arith
      | inr (x, e) ↦ (let p : err x ≡ ok db' = (rw e at h) in cc p)
    ]

pub books-add_principal_lent :
    (n : ℕ) (db : Derived) {db' : Derived}
    → add_principal_lent n db ≡ ok db'
    → books db' ≡ record (books db) {
      dao_totals = record (db.dao_totals) { principal_lent = db.dao_totals.principal_lent + n };
    }
unfolding add_principal_lent
books-add_principal_lent n db h = ground (arith, numeric40_cases (db.dao_totals.principal_lent + n))

pub books-add_principal_repaid :
    (n : ℕ) (db : Derived) {db' : Derived}
    → add_principal_repaid n db ≡ ok db'
    → books db' ≡ record (books db) {
      dao_totals = record (db.dao_totals) { principal_repaid = db.dao_totals.principal_repaid + n };
    }
unfolding add_principal_repaid
books-add_principal_repaid n db h =
    ground (arith, numeric40_cases (db.dao_totals.principal_repaid + n))

pub books-add_value_defaulted :
    (n : ℕ) (db : Derived) {db' : Derived}
    → add_value_defaulted n db ≡ ok db'
    → books db' ≡ record (books db) {
      dao_totals = record (db.dao_totals) { value_defaulted = db.dao_totals.value_defaulted + n };
    }
unfolding add_value_defaulted
books-add_value_defaulted n db h =
    ground (arith, numeric40_cases (db.dao_totals.value_defaulted + n))

pub books-add_interest_collected :
    (n : ℕ) (db : Derived) {db' : Derived}
    → add_interest_collected n db ≡ ok db'
    → books db' ≡ record (books db) {
      dao_totals = record (db.dao_totals) {
        interest_collected = db.dao_totals.interest_collected + n;
      };
    }
unfolding add_interest_collected
books-add_interest_collected n db h =
    ground (arith, numeric40_cases (db.dao_totals.interest_collected + n))
