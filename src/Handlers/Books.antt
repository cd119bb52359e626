-- ===== src/Handlers/Books.antt =====
-- indexer/handlers.ts: the accounts that the handlers keep, which are the loans, the interest
-- distributions, the daily statistics and the running totals, and the handlers that do not write them.
use ourdao_backend.Common.{
  string_eq, ℕ, String, Option, none, some, ◌≡◌, refl, ◌∙◌, ok, err, ◌>>=◌, arith,
}
use ourdao_backend.Common.Int.{ℤ, int_eq}
use ourdao_backend.Common.Table.{Table}
use ourdao_backend.Events.{DecodedEvent}
use ourdao_backend.Derived.{
  Member, Loan, LoanProposalStatus, TreasuryStatus, Document, InterestDistribution, DailyLoanStats,
  DaoTotals, NotificationType, Derived,
}
use ourdao_backend.Handlers.Require.{Fold}
use ourdao_backend.Handlers.Statements.{update_member, notify}
use ourdao_backend.Handlers.Members.{
  handle_joined, handle_exited, handle_claimed, handle_staked, handle_name_reg,
}
use ourdao_backend.Handlers.Proposals.{
  handle_loan_req, handle_loan_edit, handle_loan_vote, handle_loan_wait, handle_loan_rej,
  handle_loan_exp, leave_pending, notify_borrower, notify_expired,
}
use ourdao_backend.Handlers.Treasury
use ourdao_backend.Handlers.Treasury.{
  handle_tre_prop, handle_tre_vote, handle_revealed, handle_tre_wait, handle_tre_rej,
  handle_tre_exec, handle_committed, handle_doc_attn, insert_document, notify_destination,
}

pub record Books : Type 0 where
  pub loans : Table ℤ Loan
  pub interest_distributions : Table String InterestDistribution
  pub daily_loan_stats : Table ℕ DailyLoanStats
  pub dao_totals : DaoTotals

abbrev pub books : Derived → Books
books db = record {
  loans = db.loans;
  interest_distributions = db.interest_distributions;
  daily_loan_stats = db.daily_loan_stats;
  dao_totals = db.dao_totals;
}

pub books-notify :
    (ev : DecodedEvent) (to : String) (kind : NotificationType) (title message : String)
    (db : Derived)
    → books (notify ev to kind title message db) ≡ books db
unfolding notify
books-notify ev to kind title message db = ground arith

pub books-update_member :
    (a : String) (f : Member → Fold Member) (db : Derived) {db' : Derived}
    → update_member a f db ≡ ok db'
    → books db' ≡ books db
unfolding update_member
books-update_member a f db h = ground arith

-- What a handler leaves of the books where it does not throw.
abbrev pub KeepsBooks : Derived → Fold Derived → Type 0
KeepsBooks db (ok db') = books db' ≡ books db
KeepsBooks db (err e) = Unit

pub KeepsBooks-bind :
    {A : Type 0} (db : Derived) (m : Fold A) (f : A → Fold Derived)
    → ((a : A) → m ≡ ok a → KeepsBooks db (f a))
    → KeepsBooks db (m >>= f)
KeepsBooks-bind db (ok a) f h = h a refl
KeepsBooks-bind db (err e) f h = tt

pub books-notify_from :
    (ev : DecodedEvent) (to : String) (kind : NotificationType) (title message : String)
    (db db' : Derived)
    → books db' ≡ books db
    → books (notify ev to kind title message db') ≡ books db
books-notify_from ev to kind title message db db' h = books-notify ev to kind title message db' ∙ h

books-leave_pending :
    (id : ℤ) (status : LoanProposalStatus) (db : Derived)
    → books (leave_pending id status db).0 ≡ books db
unfolding leave_pending
books-leave_pending id status db = ground arith

books-treasury_leave_pending :
    (id : ℤ) (status : TreasuryStatus) (db : Derived)
    → books (Treasury.leave_pending id status db).0 ≡ books db
unfolding Treasury.leave_pending
books-treasury_leave_pending id status db = ground arith

books-notify_borrower :
    (ev : DecodedEvent) (kind : NotificationType) (title message : String)
    (r : Derived × Option String) (db : Derived)
    → books r.0 ≡ books db
    → books (notify_borrower ev kind title message r) ≡ books db
unfolding notify_borrower
books-notify_borrower ev kind title message (db', none) db h = h
books-notify_borrower ev kind title message (db', some to) db h =
    books-notify ev to kind title message db' ∙ h

books-notify_expired :
    (ev : DecodedEvent) (borrower : String) (id : ℤ) (r : Derived × Option String) (db : Derived)
    → books r.0 ≡ books db
    → books (notify_expired ev borrower id r) ≡ books db
unfolding notify_expired
books-notify_expired ev borrower id (db', none) db h = h
books-notify_expired ev borrower id (db', some to) db h = books-notify ev borrower _ _ _ db' ∙ h

books-notify_destination :
    (ev : DecodedEvent) (kind : NotificationType) (title message : String)
    (r : Derived × Option String) (db : Derived)
    → books r.0 ≡ books db
    → books (notify_destination ev kind title message r) ≡ books db
unfolding notify_destination
books-notify_destination ev kind title message (db', none) db h = h
books-notify_destination ev kind title message (db', some to) db h =
    books-notify ev to kind title message db' ∙ h

books-insert_document :
    (event_id : String) (row : Document) (o : Option Document) (db : Derived)
    → books (insert_document event_id row o db) ≡ books db
unfolding insert_document
books-insert_document event_id row none db = refl
books-insert_document event_id row (some d) db = refl

ruleset frame = (
  KeepsBooks-bind, books-insert_document, books-notify_from, books-notify, books-update_member,
  books-notify_borrower, books-notify_expired, books-notify_destination, books-leave_pending,
  books-treasury_leave_pending, refl,
)

pub handle_joined-KeepsBooks :
    (ev : DecodedEvent) (db : Derived) → KeepsBooks db (handle_joined ev db)
unfolding handle_joined
handle_joined-KeepsBooks ev db = search frame

pub handle_exited-KeepsBooks :
    (ev : DecodedEvent) (db : Derived) → KeepsBooks db (handle_exited ev db)
unfolding handle_exited
handle_exited-KeepsBooks ev db = search frame

pub handle_claimed-KeepsBooks :
    (ev : DecodedEvent) (db : Derived) → KeepsBooks db (handle_claimed ev db)
unfolding handle_claimed
handle_claimed-KeepsBooks ev db = search frame

pub handle_staked-KeepsBooks :
    (ev : DecodedEvent) (db : Derived) → KeepsBooks db (handle_staked ev db)
unfolding handle_staked
handle_staked-KeepsBooks ev db = search frame

pub handle_name_reg-KeepsBooks :
    (ev : DecodedEvent) (db : Derived) → KeepsBooks db (handle_name_reg ev db)
unfolding handle_name_reg
handle_name_reg-KeepsBooks ev db = search frame

pub handle_loan_req-KeepsBooks :
    (ev : DecodedEvent) (db : Derived) → KeepsBooks db (handle_loan_req ev db)
unfolding handle_loan_req
handle_loan_req-KeepsBooks ev db = search frame depth 10

pub handle_loan_edit-KeepsBooks :
    (ev : DecodedEvent) (db : Derived) → KeepsBooks db (handle_loan_edit ev db)
unfolding handle_loan_edit
handle_loan_edit-KeepsBooks ev db = search frame

pub handle_loan_vote-KeepsBooks :
    (ev : DecodedEvent) (db : Derived) → KeepsBooks db (handle_loan_vote ev db)
unfolding handle_loan_vote
handle_loan_vote-KeepsBooks ev db = search frame

pub handle_tre_prop-KeepsBooks :
    (ev : DecodedEvent) (db : Derived) → KeepsBooks db (handle_tre_prop ev db)
unfolding handle_tre_prop
handle_tre_prop-KeepsBooks ev db = search frame

pub handle_tre_vote-KeepsBooks :
    (ev : DecodedEvent) (db : Derived) → KeepsBooks db (handle_tre_vote ev db)
unfolding handle_tre_vote
handle_tre_vote-KeepsBooks ev db = search frame

pub handle_revealed-KeepsBooks :
    (ev : DecodedEvent) (db : Derived) → KeepsBooks db (handle_revealed ev db)
unfolding handle_revealed
handle_revealed-KeepsBooks ev db = search frame

pub handle_tre_exec-KeepsBooks :
    (ev : DecodedEvent) (db : Derived) → KeepsBooks db (handle_tre_exec ev db)
unfolding handle_tre_exec
handle_tre_exec-KeepsBooks ev db = search frame

pub handle_committed-KeepsBooks :
    (ev : DecodedEvent) (db : Derived) → KeepsBooks db (handle_committed ev db)
unfolding handle_committed
handle_committed-KeepsBooks ev db = search frame

pub handle_loan_wait-KeepsBooks :
    (ev : DecodedEvent) (db : Derived) → KeepsBooks db (handle_loan_wait ev db)
unfolding handle_loan_wait
handle_loan_wait-KeepsBooks ev db = search frame

pub handle_loan_rej-KeepsBooks :
    (ev : DecodedEvent) (db : Derived) → KeepsBooks db (handle_loan_rej ev db)
unfolding handle_loan_rej
handle_loan_rej-KeepsBooks ev db = search frame

pub handle_loan_exp-KeepsBooks :
    (ev : DecodedEvent) (db : Derived) → KeepsBooks db (handle_loan_exp ev db)
unfolding handle_loan_exp
handle_loan_exp-KeepsBooks ev db = search frame

pub handle_tre_wait-KeepsBooks :
    (ev : DecodedEvent) (db : Derived) → KeepsBooks db (handle_tre_wait ev db)
unfolding handle_tre_wait
handle_tre_wait-KeepsBooks ev db = search frame

pub handle_tre_rej-KeepsBooks :
    (ev : DecodedEvent) (db : Derived) → KeepsBooks db (handle_tre_rej ev db)
unfolding handle_tre_rej
handle_tre_rej-KeepsBooks ev db = search frame

pub handle_doc_attn-KeepsBooks :
    (ev : DecodedEvent) (db : Derived) → KeepsBooks db (handle_doc_attn ev db)
unfolding handle_doc_attn
handle_doc_attn-KeepsBooks ev db = search frame
