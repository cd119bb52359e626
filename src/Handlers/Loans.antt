-- ===== src/Handlers/Loans.antt =====
-- indexer/handlers.ts: the handlers of loan events.
use Prim.Native.String.{◌++◌ as concat}
use ourdao_backend.Common.{
  ℕ, String, Bool, true, false, not, Option, none, some, ◌+◌, ◌-◌, ◌&&◌, if◌then◌else◌, ok, ◌>>=◌,
  ◌==◌, string_eq,
}
use ourdao_backend.Common.Int.{ℤ, int_eq}
use ourdao_backend.Common.Text.{decimal, show_int}
use ourdao_backend.Common.Table.{lookup, put}
use ourdao_backend.Events.{DecodedEvent, get_field}
use ourdao_backend.Derived.{
  Member, LoanProposal, LoanProposalStatus, Loan, LoanStatus, InterestDistribution, Derived,
  success, info, error,
}
use ourdao_backend.Handlers.Require.{Fold, require_addr, require_id, require_amount}
use ourdao_backend.Handlers.Conversions.{due_time_of, active_members_of}
use ourdao_backend.Handlers.Statements.{
  numeric40, int4, int4_count, update_row, update_member, notify, increment_daily_loan_stats,
  add_principal_lent, add_principal_repaid, add_value_defaulted, add_interest_collected,
}

unfoldable pub set_active_loan : Bool → Member → Fold Member
set_active_loan b m = ok (record m { has_active_loan = b })

approve_row : LoanProposal → Fold LoanProposal
approve_row p = ok (record p { status = LoanProposalStatus.approved })

-- `proposal.rows[0]?.total_repayment ?? amount`
repayment_or : ℕ → Option LoanProposal → ℕ
repayment_or amount none = amount
repayment_or amount (some p) = p.total_repayment

-- `INSERT INTO loans … ON CONFLICT (id) DO UPDATE … RETURNING (xmax = 0) AS is_new`, and the
-- totals that a new row moves
unfoldable pub disburse :
    DecodedEvent → ℤ → String → ℕ → ℕ → Option ℤ → Option Loan → Derived → Fold Derived
disburse ev id borrower amount total due none db = do
  let row : Loan = record {
    borrower = borrower;
    amount = amount;
    outstanding = total;
    total_repayment = total;
    status = LoanStatus.active;
    approved_ledger = ev.ledger;
    due_time = due;
    repaid_ledger = none;
    defaulted_ledger = none;
  }
  db' ← add_principal_lent amount (record db { loans = put id row db.loans })
  increment_daily_loan_stats ev
      (record {
        loans_originated = 1;
        principal_lent = amount;
        principal_repaid = 0;
        defaults_count = 0;
        value_defaulted = 0;
      })
      db'
disburse ev id borrower amount total due (some l) db = ok (record db {
  loans = put id (record l { status = LoanStatus.active; approved_ledger = ev.ledger }) db.loans;
})

unfoldable pub handle_loan_appr : DecodedEvent → Derived → Fold Derived
unfolding approve_row repayment_or due_time_of set_active_loan disburse update_row update_member
handle_loan_appr ev db = do
  given ← require_id ev "id"
  borrower ← require_addr ev "borrower"
  amount ← require_amount ev "amount"
  id ← int4 given
  proposals ← update_row id approve_row db.loan_proposals
  amount' ← numeric40 (decimal amount)
  let total = repayment_or amount' (lookup id proposals)
  let db1 = record db { loan_proposals = proposals }
  due ← due_time_of (get_field ev "due_time")
  db2 ← disburse ev id borrower amount' total due (lookup id db.loans) db1
  db3 ← update_member borrower (set_active_loan true) db2
  ok (
      notify ev borrower success "Loan approved"
        (concat "Loan #" (concat (show_int id) (concat " of " (concat amount " was approved."))))
        db3)

unfoldable pub is_repaid : LoanStatus → Bool
is_repaid LoanStatus.repaid = true
is_repaid _ = false

-- the loan's row after a repayment; `cleared` is `status === 'repaid'`
unfoldable pub repay_row : ℕ → ℕ → Bool → Loan → Loan
repay_row ledger outstanding true l = record l {
  outstanding = outstanding;
  status = LoanStatus.repaid;
  repaid_ledger = some ledger;
}
repay_row ledger outstanding false l = record l {
  outstanding = outstanding;
  status = LoanStatus.active;
}

-- the totals of a repayment that clears a loan which was not repaid before
unfoldable pub count_repayment : DecodedEvent → Bool → ℕ → Derived → Fold Derived
count_repayment ev false amount db = ok db
count_repayment ev true amount db = do
  db' ← add_principal_repaid amount db
  increment_daily_loan_stats ev
      (record {
        loans_originated = 0;
        principal_lent = 0;
        principal_repaid = amount;
        defaults_count = 0;
        value_defaulted = 0;
      })
      db'

-- the repayment of a loan, if it is known
unfoldable pub record_repayment :
    DecodedEvent → ℤ → String → Bool → Option Loan → Derived → Fold Derived
unfolding is_repaid repay_row count_repayment
record_repayment ev id outstanding cleared none db = ok db
record_repayment ev id outstanding cleared (some l) db = do
  left ← numeric40 (decimal outstanding)
  let db' = record db { loans = put id (repay_row ev.ledger left cleared l) db.loans }
  count_repayment ev (cleared && not (is_repaid l.status)) l.amount db'

-- `if (status === 'repaid')`: the borrower has no active loan any more
unfoldable pub clear_active_loan : Bool → String → Derived → Fold Derived
unfolding set_active_loan update_member
clear_active_loan true borrower db = update_member borrower (set_active_loan false) db
clear_active_loan false borrower db = ok db

repayment_message : ℤ → String → Bool → String
repayment_message id outstanding true = concat "Loan #" (concat (show_int id) " is fully repaid.")
repayment_message id outstanding false =
    concat "Repayment received; " (concat outstanding " remaining.")

unfoldable pub handle_loan_rpy : DecodedEvent → Derived → Fold Derived
unfolding clear_active_loan record_repayment repayment_message
handle_loan_rpy ev db = do
  given ← require_id ev "loan_id"
  borrower ← require_addr ev "borrower"
  outstanding ← require_amount ev "outstanding"
  id ← int4 given
  let cleared = outstanding == "0"
  db1 ← record_repayment ev id outstanding cleared (lookup id db.loans) db
  db2 ← clear_active_loan cleared borrower db1
  ok (
      notify ev borrower (if cleared then success else info) "Loan repayment"
        (repayment_message id outstanding cleared) db2)

unfoldable pub is_defaulted : LoanStatus → Bool
is_defaulted LoanStatus.defaulted = true
is_defaulted _ = false

-- `GREATEST(contribution - penalty, 0)`
penalise_row : String → Member → Fold Member
penalise_row penalty m = do
  defaults ← int4_count (m.defaults_count + 1)
  ok (record m {
    contribution = m.contribution - decimal penalty;
    has_active_loan = false;
    defaults_count = defaults;
  })

-- the default of a loan that is not in default yet, up to the member's penalty
unfoldable pub record_default : DecodedEvent → ℤ → Loan → Derived → Fold Derived
record_default ev id l db = do
  let row = record l { status = LoanStatus.defaulted; defaulted_ledger = some ev.ledger }
  db' ← add_value_defaulted l.outstanding (record db { loans = put id row db.loans })
  increment_daily_loan_stats ev
      (record {
        loans_originated = 0;
        principal_lent = 0;
        principal_repaid = 0;
        defaults_count = 1;
        value_defaulted = l.outstanding;
      })
      db'

-- nothing for a loan that is unknown or already in default
unfoldable pub default_loan :
    DecodedEvent → ℤ → String → String → Option Loan → Derived → Fold Derived
unfolding is_defaulted penalise_row record_default update_member
default_loan ev id borrower penalty none db = ok db
default_loan ev id borrower penalty (some l) db = if is_defaulted l.status then ok db else (do
  db1 ← record_default ev id l db
  db2 ← update_member borrower (penalise_row penalty) db1
  ok (
      notify ev borrower error "Loan defaulted"
        (concat "Loan #" (
          concat (show_int id) (
            concat " was marked defaulted; a penalty of "
              (concat penalty " was applied to your contribution."))))
        db2))

unfoldable pub handle_loan_dflt : DecodedEvent → Derived → Fold Derived
unfolding default_loan
handle_loan_dflt ev db = do
  given ← require_id ev "loan_id"
  borrower ← require_addr ev "borrower"
  penalty ← require_amount ev "penalty"
  id ← int4 given
  default_loan ev id borrower penalty (lookup id db.loans) db

-- `INSERT INTO interest_distributions … ON CONFLICT (event_id) DO NOTHING`, and the total that a new
-- row moves
unfoldable pub insert_distribution :
    String → InterestDistribution → Option InterestDistribution → Derived → Fold Derived
insert_distribution event_id row none db =
    add_interest_collected row.amount
      (record db { interest_distributions = put event_id row db.interest_distributions })
insert_distribution event_id row (some _) db = ok db

unfoldable pub handle_interest : DecodedEvent → Derived → Fold Derived
unfolding insert_distribution active_members_of
handle_interest ev db = do
  amount ← require_amount ev "interest"
  amount' ← numeric40 (decimal amount)
  active ← active_members_of (get_field ev "active")
  let row : InterestDistribution = record {
    ledger = ev.ledger;
    amount = amount';
    active_members = active;
    tx_hash = ev.tx_hash;
  }
  insert_distribution ev.id row (lookup ev.id db.interest_distributions) db
