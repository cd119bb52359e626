-- ===== src/Handlers/Totals/Changes.antt =====
-- indexer/handlers.ts: what is counted when a loan becomes repaid or defaulted.
use ourdao_backend.Common.{
  ℕ, String, Bool, true, false, Option, none, some, ◌≡◌, ◌+◌, ◌-◌, refl, subst, not, ok, >>=-eq-ok,
  arith, string_eq, nat_eq, if◌then◌else◌, Bool-cases, inl, inr,
}
use ourdao_backend.Common.Int.{ℤ, int_eq}
use ourdao_backend.Common.Text.{decimal}
use ourdao_backend.Common.Table.{Table, lookup, put, sum_of, sum_of-put_new, sum_of-put}
use ourdao_backend.Events.{DecodedEvent}
use ourdao_backend.Derived.{Loan, LoanStatus, InterestDistribution, DailyLoanStats, Derived}
use ourdao_backend.Handlers.Books.{Books, books}
use ourdao_backend.Handlers.Loans.{
  disburse, count_repayment, repay_row, is_repaid, is_defaulted, record_repayment, record_default,
  insert_distribution,
}
use ourdao_backend.Handlers.Statements.{numeric40, increment_daily_loan_stats, add_principal_lent}
use ourdao_backend.Handlers.Totals.{
  increment_sums, books-add_principal_lent, books-add_principal_repaid, books-add_value_defaulted,
  books-add_interest_collected,
}

-- the principal of the loans that are repaid, and the number of those in default
abbrev pub repaid_amount : Loan → ℕ
repaid_amount l = if is_repaid l.status then l.amount else 0

abbrev pub repaid_sum : Table ℤ Loan → ℕ
repaid_sum loans = sum_of repaid_amount loans

abbrev pub one_defaulted : Loan → ℕ
one_defaulted l = if is_defaulted l.status then 1 else 0

abbrev pub defaulted_number : Table ℤ Loan → ℕ
defaulted_number loans = sum_of one_defaulted loans

-- The total of the principal repaid grows by the principal of the loans that became repaid, and the
-- days' number of defaults by the number of loans that came into default.
pub record CountsOnce (before after : Books) : Type 0 where
  pub repaid :
      after.dao_totals.principal_repaid
      ≡ before.dao_totals.principal_repaid + (repaid_sum after.loans - repaid_sum before.loans)
  pub defaults :
      sum_of (λ (s : DailyLoanStats). s.defaults_count) after.daily_loan_stats
      ≡ sum_of (λ (s : DailyLoanStats). s.defaults_count) before.daily_loan_stats
        + (defaulted_number after.loans - defaulted_number before.loans)

pub CountsOnce-refl : (b : Books) → CountsOnce b b
CountsOnce-refl b = record { repaid = omega arith; defaults = omega arith }

new_loan-CountsOnce :
    (db db1 db' : Derived) (ev : DecodedEvent) (id : ℤ) (row : Loan)
    → lookup id db.loans ≡ none
    → row.status ≡ LoanStatus.active
    → add_principal_lent row.amount (record db { loans = put id row db.loans }) ≡ ok db1
    → increment_daily_loan_stats ev
        (record {
          loans_originated = 1;
          principal_lent = row.amount;
          principal_repaid = 0;
          defaults_count = 0;
          value_defaulted = 0;
        })
        db1
      ≡ ok db'
    → CountsOnce (books db) (books db')
unfolding is_repaid is_defaulted
new_loan-CountsOnce db db1 db' ev id row e s h1 h2 =
    let moved =
      books-add_principal_lent row.amount (record db { loans = put id row db.loans }) h1 in
    let daily = increment_sums ev _ db1 h2 in
    let repaid = sum_of-put_new repaid_amount id row db.loans e in
    let defaulted = sum_of-put_new one_defaulted id row db.loans e in
    record { repaid = ground arith; defaults = ground arith }

-- a loan that is written again and is neither repaid nor in default
active-CountsOnce :
    (b : Books) (id : ℤ) (l row : Loan)
    → lookup id b.loans ≡ some l
    → row.status ≡ LoanStatus.active
    → CountsOnce b (record b { loans = put id row b.loans })
unfolding is_repaid is_defaulted
active-CountsOnce b id l row e s =
    let repaid = sum_of-put repaid_amount id row l b.loans e in
    let defaulted = sum_of-put one_defaulted id row l b.loans e in
    record { repaid = ground arith; defaults = ground arith }

pub disburse-CountsOnce :
    (ev : DecodedEvent) (id : ℤ) (borrower : String) (amount total : ℕ) (due : Option ℤ)
    (db : Derived) (o : Option Loan) {db' : Derived}
    → lookup id db.loans ≡ o
    → disburse ev id borrower amount total due o db ≡ ok db'
    → CountsOnce (books db) (books db')
unfolding disburse
disburse-CountsOnce ev id borrower amount total due db none {db'} e h =
    let (db1, h1, h2) = >>=-eq-ok _ _ h in new_loan-CountsOnce db db1 db' ev id _ e refl h1 h2
disburse-CountsOnce ev id borrower amount total due db (some l) {db'} e h =
    let row : Loan = record l { status = LoanStatus.active; approved_ledger = ev.ledger } in
    let moved : record db { loans = put id row db.loans } ≡ db' = cc h in
    subst (λ (d : Derived). CountsOnce (books db) (books d)) moved
      (active-CountsOnce (books db) id l row e refl)

-- a repayment that leaves the loan repaid
cleared-CountsOnce :
    (ev : DecodedEvent) (id : ℤ) (l row : Loan) (db : Derived) {db' : Derived}
    → lookup id db.loans ≡ some l
    → row.status ≡ LoanStatus.repaid
    → row.amount ≡ l.amount
    → count_repayment ev
        (not (is_repaid l.status))
        l.amount
        (record db { loans = put id row db.loans })
      ≡ ok db'
    → CountsOnce (books db) (books db')
unfolding count_repayment is_repaid is_defaulted
cleared-CountsOnce ev id l row db {db'} e s same h =
    let repaid = sum_of-put repaid_amount id row l db.loans e in
    let defaulted = sum_of-put one_defaulted id row l db.loans e in
    let after : repaid_amount row ≡ l.amount = (rw s same) in
    let neither : one_defaulted row ≡ 0 = (rw s refl) in
    elim (Bool-cases (is_repaid l.status)) [
      | inl was ↦
          let moved : ok (record db { loans = put id row db.loans }) ≡ ok db' = (rw was at h) in
          let before : repaid_amount l ≡ l.amount = (rw was refl) in
          record { repaid = ground arith; defaults = ground arith }
      | inr new ↦
          let counted : count_repayment ev true l.amount (record db { loans = put id row db.loans })
              ≡ ok db' =
            (rw new at h) in
          let (db1, h1, h2) = >>=-eq-ok _ _ counted in
          let total =
            books-add_principal_repaid l.amount (record db { loans = put id row db.loans }) h1 in
          let daily = increment_sums ev _ db1 h2 in
          let before : repaid_amount l ≡ 0 = (rw new refl) in
          record { repaid = ground arith; defaults = ground arith }
    ]

pub record_default-CountsOnce :
    (ev : DecodedEvent) (id : ℤ) (l : Loan) (db : Derived) {db' : Derived}
    → lookup id db.loans ≡ some l
    → is_defaulted l.status ≡ false
    → record_default ev id l db ≡ ok db'
    → CountsOnce (books db) (books db')
unfolding record_default is_repaid is_defaulted
record_default-CountsOnce ev id l db {db'} e new h =
    let (db1, h1, h2) = >>=-eq-ok _ _ h in
    let row : Loan = record l {
      status = LoanStatus.defaulted;
      defaulted_ledger = some ev.ledger;
    } in
    let repaid = sum_of-put repaid_amount id row l db.loans e in
    let defaulted = sum_of-put one_defaulted id row l db.loans e in
    let total =
      books-add_value_defaulted l.outstanding (record db { loans = put id row db.loans }) h1 in
    let daily = increment_sums ev _ db1 h2 in
    record { repaid = ground arith; defaults = ground arith }

pub insert_distribution-CountsOnce :
    (event_id : String) (row : InterestDistribution) (o : Option InterestDistribution)
    (db : Derived) {db' : Derived}
    → insert_distribution event_id row o db ≡ ok db'
    → CountsOnce (books db) (books db')
unfolding insert_distribution
insert_distribution-CountsOnce event_id row none db {db'} h =
    let moved =
      books-add_interest_collected row.amount
        (record db { interest_distributions = put event_id row db.interest_distributions }) h in
    record { repaid = ground arith; defaults = ground arith }
insert_distribution-CountsOnce event_id row (some i) db {db'} h =
    let same : db ≡ db' = cc h in
    subst (λ (d : Derived). CountsOnce (books db) (books d)) same (CountsOnce-refl (books db))

repay_row-cleared :
    (ledger left : ℕ) (l : Loan)
    → ((repay_row ledger left true l).status ≡ LoanStatus.repaid)
      × ((repay_row ledger left true l).amount ≡ l.amount)
unfolding repay_row
repay_row-cleared ledger left l = (refl, refl)

repay_row-active :
    (ledger left : ℕ) (l : Loan) → (repay_row ledger left false l).status ≡ LoanStatus.active
unfolding repay_row
repay_row-active ledger left l = refl

pub record_repayment-CountsOnce :
    (ev : DecodedEvent) (id : ℤ) (outstanding : String) (cleared : Bool) (o : Option Loan)
    (db : Derived) {db' : Derived}
    → lookup id db.loans ≡ o
    → record_repayment ev id outstanding cleared o db ≡ ok db'
    → CountsOnce (books db) (books db')
unfolding record_repayment count_repayment
record_repayment-CountsOnce ev id outstanding cleared none db {db'} e h =
    let same : db ≡ db' = cc h in
    subst (λ (d : Derived). CountsOnce (books db) (books d)) same (CountsOnce-refl (books db))
record_repayment-CountsOnce ev id outstanding true (some l) db e h =
    let (left, h1, h2) = >>=-eq-ok (numeric40 (decimal outstanding)) _ h in
    let (status, amount) = repay_row-cleared ev.ledger left l in
    cleared-CountsOnce ev id l (repay_row ev.ledger left true l) db e status amount h2
record_repayment-CountsOnce ev id outstanding false (some l) db {db'} e h =
    let (left, h1, h2) = >>=-eq-ok (numeric40 (decimal outstanding)) _ h in
    let row = repay_row ev.ledger left false l in
    let moved : record db { loans = put id row db.loans } ≡ db' = cc h2 in
    subst (λ (d : Derived). CountsOnce (books db) (books d)) moved
      (active-CountsOnce (books db) id l row e (repay_row-active ev.ledger left l))
