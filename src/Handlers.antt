-- ===== src/Handlers.antt =====
-- indexer/handlers.ts: the dispatch of an event to its handler, and the stream channels that a fold
-- touches. Tracing and the one-time warning about an unknown symbol are left out.
pub mod Require
pub mod Statements
pub mod Conversions
pub mod Members
pub mod Proposals
pub mod Loans
pub mod Treasury
pub mod Books
pub mod Totals
pub mod Reconcile
pub mod Counting
use ourdao_backend.Common.{List, [], ◌∷◌, Result, ok, err}
use ourdao_backend.Events.{
  Symbol, joined, exited, claimed, loan_req, loan_edit, loan_vote, loan_wait, loan_rej, loan_appr,
  loan_rpy, loan_dflt, loan_exp, interest, tre_prop, tre_vote, tre_wait, tre_rej, tre_exec, staked,
  unstaked, name_reg, committed, revealed, doc_attn, DecodedEvent,
}
use ourdao_backend.Derived.{Derived}
use Require.{Fold}
use Members.{handle_joined, handle_exited, handle_claimed, handle_staked, handle_name_reg}
use Proposals.{
  handle_loan_req, handle_loan_edit, handle_loan_vote, handle_loan_wait, handle_loan_rej,
  handle_loan_exp,
}
use Loans.{handle_loan_appr, handle_loan_rpy, handle_loan_dflt, handle_interest}
use Treasury.{
  handle_tre_prop, handle_tre_vote, handle_revealed, handle_tre_wait, handle_tre_rej,
  handle_tre_exec, handle_committed, handle_doc_attn,
}

-- `handlers[ev.symbol]`; a symbol with no handler is a no-op
unfoldable pub dispatch : Symbol → DecodedEvent → Derived → Fold Derived
dispatch joined = handle_joined
dispatch exited = handle_exited
dispatch claimed = handle_claimed
dispatch loan_req = handle_loan_req
dispatch loan_edit = handle_loan_edit
dispatch loan_vote = handle_loan_vote
dispatch loan_wait = handle_loan_wait
dispatch loan_rej = handle_loan_rej
dispatch loan_appr = handle_loan_appr
dispatch loan_rpy = handle_loan_rpy
dispatch loan_dflt = handle_loan_dflt
dispatch loan_exp = handle_loan_exp
dispatch interest = handle_interest
dispatch tre_prop = handle_tre_prop
dispatch tre_vote = handle_tre_vote
dispatch tre_wait = handle_tre_wait
dispatch tre_rej = handle_tre_rej
dispatch tre_exec = handle_tre_exec
dispatch staked = handle_staked
dispatch unstaked = handle_staked
dispatch name_reg = handle_name_reg
dispatch committed = handle_committed
dispatch revealed = handle_revealed
dispatch doc_attn = handle_doc_attn
dispatch _ = λ ev db. ok db

pub data StreamChannel : Type 0 where
  members loan_proposals loans treasury_proposals interest_channel : StreamChannel

unfoldable pub channel_map : Symbol → List StreamChannel
channel_map joined = members ∷ []
channel_map exited = members ∷ []
channel_map staked = members ∷ []
channel_map unstaked = members ∷ []
channel_map claimed = members ∷ []
channel_map name_reg = members ∷ []
channel_map loan_req = loan_proposals ∷ []
channel_map loan_edit = loan_proposals ∷ []
channel_map loan_vote = loan_proposals ∷ []
channel_map loan_wait = loan_proposals ∷ []
channel_map loan_rej = loan_proposals ∷ []
channel_map loan_appr = loan_proposals ∷ loans ∷ []
channel_map loan_exp = loan_proposals ∷ []
channel_map loan_rpy = loans ∷ []
channel_map loan_dflt = loans ∷ []
channel_map tre_prop = treasury_proposals ∷ []
channel_map tre_vote = treasury_proposals ∷ []
channel_map committed = treasury_proposals ∷ []
channel_map revealed = treasury_proposals ∷ []
channel_map tre_exec = treasury_proposals ∷ []
channel_map tre_wait = treasury_proposals ∷ []
channel_map tre_rej = treasury_proposals ∷ []
channel_map interest = interest_channel ∷ []
channel_map _ = []

-- `applyEvent`, for what it writes
unfoldable pub apply_event : DecodedEvent → Derived → Fold Derived
unfolding dispatch
apply_event ev db = dispatch ev.symbol ev db
