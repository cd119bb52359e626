-- ===== src/Handlers/Proposals.antt =====
-- indexer/handlers.ts: the handlers of loan proposal events.
use Prim.Native.String.{◌++◌ as concat}
use ourdao_backend.Common.{
  ℕ, String, Bool, true, false, Option, none, some, ◌+◌, if◌then◌else◌, ok, ◌>>=◌, string_eq,
}
use ourdao_backend.Common.Int.{ℤ, int_eq}
use ourdao_backend.Common.Text.{decimal, show_int}
use ourdao_backend.Common.Table.{lookup, put}
use ourdao_backend.Events.{DecodedEvent}
use ourdao_backend.Derived.{
  LoanProposal, LoanProposalStatus, NotificationType, Derived, info, warning,
}
use ourdao_backend.Handlers.Require.{
  Fold, require_addr, require_id, require_amount, require_bool, weight_of,
}
use ourdao_backend.Handlers.Statements.{numeric40, int4, int4_count, update_row, notify}

unfoldable pub is_pending : LoanProposalStatus → Bool
is_pending LoanProposalStatus.pending = true
is_pending _ = false

-- a new proposal, or the amounts of a known one
request_row : String → ℕ → ℕ → ℕ → Option LoanProposal → LoanProposal
request_row borrower amount total ledger none = record {
  borrower = borrower;
  amount = amount;
  total_repayment = total;
  status = LoanProposalStatus.pending;
  votes_for = 0;
  votes_against = 0;
  voter_count = 0;
  created_ledger = ledger;
}
request_row borrower amount total ledger (some p) = record p {
  amount = amount;
  total_repayment = total;
}

unfoldable pub handle_loan_req : DecodedEvent → Derived → Fold Derived
unfolding request_row
handle_loan_req ev db = do
  given ← require_id ev "id"
  borrower ← require_addr ev "borrower"
  amount ← require_amount ev "amount"
  total_repayment ← require_amount ev "total_repayment"
  id ← int4 given
  amount' ← numeric40 (decimal amount)
  total ← numeric40 (decimal total_repayment)
  let row = request_row borrower amount' total ev.ledger (lookup id db.loan_proposals)
  let db' = record db { loan_proposals = put id row db.loan_proposals }
  ok (
      notify ev borrower info "Loan requested"
        (concat "Proposal #" (concat (show_int id) " is open for voting.")) db')

edit_row : String → String → LoanProposal → Fold LoanProposal
edit_row amount total p = do
  amount' ← numeric40 (decimal amount)
  total' ← numeric40 (decimal total)
  ok (record p { amount = amount'; total_repayment = total' })

unfoldable pub handle_loan_edit : DecodedEvent → Derived → Fold Derived
unfolding edit_row update_row
handle_loan_edit ev db = do
  given ← require_id ev "proposal_id"
  new_amount ← require_amount ev "new_amount"
  total_repayment ← require_amount ev "total_repayment"
  id ← int4 given
  rows ← update_row id (edit_row new_amount total_repayment) db.loan_proposals
  ok (record db { loan_proposals = rows })

-- the columns votes_for, votes_against and voter_count after a ballot
count_vote : Bool → ℕ → LoanProposal → Fold LoanProposal
count_vote true weight p = do
  votes ← numeric40 (p.votes_for + weight)
  voters ← int4_count (p.voter_count + 1)
  ok (record p { votes_for = votes; voter_count = voters })
count_vote false weight p = do
  votes ← numeric40 (p.votes_against + weight)
  voters ← int4_count (p.voter_count + 1)
  ok (record p { votes_against = votes; voter_count = voters })

unfoldable pub handle_loan_vote : DecodedEvent → Derived → Fold Derived
unfolding count_vote update_row
handle_loan_vote ev db = do
  given ← require_id ev "proposal_id"
  support ← require_bool ev "support"
  weight ← weight_of ev
  id ← int4 given
  rows ← update_row id (count_vote support (decimal weight)) db.loan_proposals
  ok (record db { loan_proposals = rows })

-- `UPDATE loan_proposals SET status = … WHERE id = $1 AND status = 'pending' RETURNING borrower`
unfoldable pub leave_pending : ℤ → LoanProposalStatus → Derived → Derived × Option String
unfolding is_pending
leave_pending id status db = elim (lookup id db.loan_proposals) [
  | none ↦ (db, none)
  | some p ↦
      if is_pending p.status
      then (
        record db { loan_proposals = put id (record p { status = status }) db.loan_proposals },
        some p.borrower,
      )
      else (db, none)
]

-- `if (borrower) await notify(…)`
unfoldable pub notify_borrower :
    DecodedEvent → NotificationType → String → String → Derived × Option String → Derived
notify_borrower ev kind title message (db, none) = db
notify_borrower ev kind title message (db, some borrower) = notify ev borrower kind title message db

unfoldable pub handle_loan_wait : DecodedEvent → Derived → Fold Derived
unfolding leave_pending notify_borrower
handle_loan_wait ev db = do
  given ← require_id ev "id"
  id ← int4 given
  ok (
      notify_borrower ev info "Loan approved, awaiting funds"
        (concat "Proposal #" (
          concat (show_int id)
            " reached quorum but the treasury can't cover it yet — it will be disbursed once funds are available."))
        (leave_pending id LoanProposalStatus.approved_pending_disbursement db))

unfoldable pub handle_loan_rej : DecodedEvent → Derived → Fold Derived
unfolding leave_pending notify_borrower
handle_loan_rej ev db = do
  given ← require_id ev "id"
  id ← int4 given
  ok (
      notify_borrower ev warning "Loan proposal rejected"
        (concat "Proposal #"
          (concat (show_int id) " could no longer reach quorum and was rejected."))
        (leave_pending id LoanProposalStatus.rejected db))

-- `if (updated.rowCount === 0) return`, then the event's own borrower is told
unfoldable pub notify_expired : DecodedEvent → String → ℤ → Derived × Option String → Derived
notify_expired ev borrower id (db, none) = db
notify_expired ev borrower id (db, some _) =
    notify ev borrower warning "Loan proposal expired"
      (concat "Proposal #" (concat (show_int id) " expired without reaching quorum.")) db

unfoldable pub handle_loan_exp : DecodedEvent → Derived → Fold Derived
unfolding leave_pending notify_expired
handle_loan_exp ev db = do
  given ← require_id ev "proposal_id"
  borrower ← require_addr ev "borrower"
  id ← int4 given
  ok (notify_expired ev borrower id (leave_pending id LoanProposalStatus.rejected db))
