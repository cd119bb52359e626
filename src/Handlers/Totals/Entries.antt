-- ===== src/Handlers/Totals/Entries.antt =====
-- indexer/handlers.ts: the writes of loans, repayments, defaults and interest, with their totals.
use ourdao_backend.Common.{
  ℕ, String, Bool, true, false, Option, none, some, ◌≡◌, refl, sym, subst, not, ◌&&◌, ok, >>=-eq-ok,
  arith, string_eq, nat_eq,
}
use ourdao_backend.Common.Int.{ℤ, int_eq}
use ourdao_backend.Common.Text.{decimal}
use ourdao_backend.Common.Table.{lookup, put, sum_of-put_new, sum_of-put}
use ourdao_backend.Events.{DecodedEvent}
use ourdao_backend.Derived.{Loan, LoanStatus, InterestDistribution, Derived}
use ourdao_backend.Handlers.Books.{Books, books}
use ourdao_backend.Handlers.Loans.{
  disburse, count_repayment, repay_row, is_repaid, record_repayment, record_default,
  insert_distribution,
}
use ourdao_backend.Handlers.Statements.{
  numeric40, increment_daily_loan_stats, add_principal_lent, add_principal_repaid,
  add_value_defaulted,
}
use ourdao_backend.Handlers.Totals.{
  Reconciles, increment_sums, books-add_principal_lent, books-add_principal_repaid,
  books-add_value_defaulted, books-add_interest_collected,
}

-- a new loan: the totals move by its amount, as the sum over the loans does
new_loan-Reconciles :
    (db db1 db' : Derived) (ev : DecodedEvent) (id : ℤ) (row : Loan)
    → lookup id db.loans ≡ none
    → add_principal_lent row.amount (record db { loans = put id row db.loans }) ≡ ok db1
    → increment_daily_loan_stats ev
        (record {
          loans_originated = 1;
          principal_lent = row.amount;
          principal_repaid = 0;
          defaults_count = 0;
          value_defaulted = 0;
        })
        db1
      ≡ ok db'
    → Reconciles (books db)
    → Reconciles (books db')
new_loan-Reconciles db db1 db' ev id row e h1 h2 r =
    let moved =
      books-add_principal_lent row.amount (record db { loans = put id row db.loans }) h1 in
    let daily = increment_sums ev _ db1 h2 in
    ground (
      arith,
      sum_of-put_new (λ (l : Loan). l.amount) id row db.loans e,
      sum_of-put_new (λ (l : Loan). 1) id row db.loans e,
    )

-- a loan's row is written again with the same amount: no sum over the loans changes
rewritten-Reconciles :
    (b : Books) (id : ℤ) (l row : Loan)
    → lookup id b.loans ≡ some l
    → row.amount ≡ l.amount
    → Reconciles b
    → Reconciles (record b { loans = put id row b.loans })
rewritten-Reconciles b id l row e same r = ground (
  arith,
  sum_of-put (λ (x : Loan). x.amount) id row l b.loans e,
  sum_of-put (λ (x : Loan). 1) id row l b.loans e,
)

pub disburse-Reconciles :
    (ev : DecodedEvent) (id : ℤ) (borrower : String) (amount total : ℕ) (due : Option ℤ)
    (db : Derived) (o : Option Loan) {db' : Derived}
    → lookup id db.loans ≡ o
    → disburse ev id borrower amount total due o db ≡ ok db'
    → Reconciles (books db)
    → Reconciles (books db')
unfolding disburse
disburse-Reconciles ev id borrower amount total due db none {db'} e h r =
    let (db1, h1, h2) = >>=-eq-ok _ _ h in new_loan-Reconciles db db1 db' ev id _ e h1 h2 r
disburse-Reconciles ev id borrower amount total due db (some l) {db'} e h r =
    let moved : record db {
      loans =
          put id (record l { status = LoanStatus.active; approved_ledger = ev.ledger }) db.loans;
    }
        ≡ db' =
      cc h in
    subst (λ d. Reconciles (books d)) moved
      (rewritten-Reconciles (books db) id l
        (record l { status = LoanStatus.active; approved_ledger = ev.ledger }) e refl r)

-- principal repaid: the daily figures and the total move alike
repaid-Reconciles :
    (db db1 db' : Derived) (ev : DecodedEvent) (n : ℕ)
    → add_principal_repaid n db ≡ ok db1
    → increment_daily_loan_stats ev
        (record {
          loans_originated = 0;
          principal_lent = 0;
          principal_repaid = n;
          defaults_count = 0;
          value_defaulted = 0;
        })
        db1
      ≡ ok db'
    → Reconciles (books db)
    → Reconciles (books db')
repaid-Reconciles db db1 db' ev n h1 h2 r =
    let moved = books-add_principal_repaid n db h1 in
    let daily = increment_sums ev _ db1 h2 in ground arith

count_repayment-Reconciles :
    (ev : DecodedEvent) (counted : Bool) (n : ℕ) (db : Derived) {db' : Derived}
    → count_repayment ev counted n db ≡ ok db'
    → Reconciles (books db)
    → Reconciles (books db')
unfolding count_repayment
count_repayment-Reconciles ev true n db {db'} h r =
    let (db1, h1, h2) = >>=-eq-ok _ _ h in repaid-Reconciles db db1 db' ev n h1 h2 r
count_repayment-Reconciles ev false n db {db'} h r =
    let same : db ≡ db' = cc h in subst (λ d. Reconciles (books d)) same r

amount-repay_row :
    (ledger left : ℕ) (cleared : Bool) (l : Loan)
    → (repay_row ledger left cleared l).amount ≡ l.amount
unfolding repay_row
amount-repay_row ledger left true l = refl
amount-repay_row ledger left false l = refl

pub record_repayment-Reconciles :
    (ev : DecodedEvent) (id : ℤ) (outstanding : String) (cleared : Bool) (o : Option Loan)
    (db : Derived) {db' : Derived}
    → lookup id db.loans ≡ o
    → record_repayment ev id outstanding cleared o db ≡ ok db'
    → Reconciles (books db)
    → Reconciles (books db')
unfolding record_repayment
record_repayment-Reconciles ev id outstanding cleared none db {db'} e h r =
    let same : db ≡ db' = cc h in subst (λ d. Reconciles (books d)) same r
record_repayment-Reconciles ev id outstanding cleared (some l) db e h r =
    let written : ℕ → Derived =
      λ left. record db { loans = put id (repay_row ev.ledger left cleared l) db.loans } in
    let counted = cleared && not (is_repaid l.status) in
    let (left, h1, h2) =
      >>=-eq-ok (numeric40 (decimal outstanding))
        (λ n. count_repayment ev counted l.amount (written n)) h in
    count_repayment-Reconciles ev counted l.amount (written left) h2 (
      rewritten-Reconciles (books db) id l (repay_row ev.ledger left cleared l) e
        (amount-repay_row ev.ledger left cleared l) r)

defaulted-Reconciles :
    (db db1 db' : Derived) (ev : DecodedEvent) (n : ℕ)
    → add_value_defaulted n db ≡ ok db1
    → increment_daily_loan_stats ev
        (record {
          loans_originated = 0;
          principal_lent = 0;
          principal_repaid = 0;
          defaults_count = 1;
          value_defaulted = n;
        })
        db1
      ≡ ok db'
    → Reconciles (books db)
    → Reconciles (books db')
defaulted-Reconciles db db1 db' ev n h1 h2 r =
    let moved = books-add_value_defaulted n db h1 in
    let daily = increment_sums ev _ db1 h2 in ground arith

pub record_default-Reconciles :
    (ev : DecodedEvent) (id : ℤ) (l : Loan) (db : Derived) {db' : Derived}
    → lookup id db.loans ≡ some l
    → record_default ev id l db ≡ ok db'
    → Reconciles (books db)
    → Reconciles (books db')
unfolding record_default
record_default-Reconciles ev id l db {db'} e h r =
    let (db1, h1, h2) = >>=-eq-ok _ _ h in
    defaulted-Reconciles _ db1 db' ev l.outstanding h1 h2 (
      rewritten-Reconciles (books db) id l
        (record l { status = LoanStatus.defaulted; defaulted_ledger = some ev.ledger }) e refl r)

pub insert_distribution-Reconciles :
    (event_id : String) (row : InterestDistribution) (o : Option InterestDistribution)
    (db : Derived) {db' : Derived}
    → lookup event_id db.interest_distributions ≡ o
    → insert_distribution event_id row o db ≡ ok db'
    → Reconciles (books db)
    → Reconciles (books db')
unfolding insert_distribution
insert_distribution-Reconciles event_id row none db e h r =
    let moved =
      books-add_interest_collected row.amount
        (record db { interest_distributions = put event_id row db.interest_distributions }) h in
    subst Reconciles (sym moved) (
      omega (
        arith,
        sum_of-put_new (λ (i : InterestDistribution). i.amount) event_id row
            db.interest_distributions e,
      ))
insert_distribution-Reconciles event_id row (some i) db {db'} e h r =
    let same : db ≡ db' = cc h in subst (λ d. Reconciles (books d)) same r
