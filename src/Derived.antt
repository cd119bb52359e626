-- ===== src/Derived.antt =====
-- The derived tables of db/schema.sql: what the handlers read and write. Their `updated_at` and
-- `created_at` stamps and serial ids are left out.
use ourdao_backend.Common.{ℕ, String, Bool, Option, List}
use ourdao_backend.Common.Int.{ℤ}
use ourdao_backend.Common.Table.{Table}

pub record Member : Type 0 where
  pub joined_ledger : Option ℕ
  pub contribution : ℕ
  pub exited : Bool
  pub exit_share : Option ℕ
  pub exited_ledger : Option ℕ
  pub pending_claimed : ℕ
  pub stake : ℕ
  pub has_active_loan : Bool
  pub name : Option String
  pub defaults_count : ℕ

pub data LoanProposalStatus : Type 0 where
  pending approved rejected cancelled approved_pending_disbursement : LoanProposalStatus

pub record LoanProposal : Type 0 where
  pub borrower : String
  pub amount : ℕ
  pub total_repayment : ℕ
  pub status : LoanProposalStatus
  pub votes_for : ℕ
  pub votes_against : ℕ
  pub voter_count : ℕ
  pub created_ledger : ℕ

pub data LoanStatus : Type 0 where
  active repaid defaulted : LoanStatus

-- `due_time` is in unix seconds.
pub record Loan : Type 0 where
  pub borrower : String
  pub amount : ℕ
  pub outstanding : ℕ
  pub total_repayment : ℕ
  pub status : LoanStatus
  pub approved_ledger : ℕ
  pub due_time : Option ℤ
  pub repaid_ledger : Option ℕ
  pub defaulted_ledger : Option ℕ

pub data TreasuryStatus : Type 0 where
  pending executed rejected approved_pending_disbursement : TreasuryStatus

pub record TreasuryProposal : Type 0 where
  pub amount : ℕ
  pub destination : String
  pub private : Bool
  pub status : TreasuryStatus
  pub votes_for : ℕ
  pub votes_against : ℕ
  pub voter_count : ℕ
  pub created_ledger : ℕ
  pub executed_ledger : Option ℕ

pub data NotificationType : Type 0 where
  success info warning error : NotificationType

pub record Notification : Type 0 where
  pub address : String
  pub kind : NotificationType
  pub title : String
  pub message : String
  pub ledger : ℕ
  pub tx_hash : Option String
  pub event_id : String
  pub read : Bool

pub record InterestDistribution : Type 0 where
  pub ledger : ℕ
  pub amount : ℕ
  pub active_members : Option ℤ
  pub tx_hash : Option String

pub data ProposalKind : Type 0 where
  loan treasury : ProposalKind

pub record Document : Type 0 where
  pub proposal_id : ℤ
  pub kind : ProposalKind
  pub caller : String
  pub ledger : ℕ
  pub tx_hash : Option String

pub record DailyLoanStats : Type 0 where
  pub loans_originated : ℕ
  pub principal_lent : ℕ
  pub principal_repaid : ℕ
  pub defaults_count : ℕ
  pub value_defaulted : ℕ

-- The single row of `dao_totals`.
pub record DaoTotals : Type 0 where
  pub interest_collected : ℕ
  pub principal_lent : ℕ
  pub principal_repaid : ℕ
  pub value_defaulted : ℕ

-- Everything that a fold writes. Days are counted from the unix epoch.
pub record Derived : Type 0 where
  pub members : Table String Member
  pub loan_proposals : Table ℤ LoanProposal
  pub loans : Table ℤ Loan
  pub treasury_proposals : Table ℤ TreasuryProposal
  pub notifications : List Notification
  pub interest_distributions : Table String InterestDistribution
  pub daily_loan_stats : Table ℕ DailyLoanStats
  pub documents : Table String Document
  pub dao_totals : DaoTotals
