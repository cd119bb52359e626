-- ===== src/Handlers/Counting.antt =====
-- indexer/handlers.ts, applyEvent: the repayments and defaults that are counted, over all handlers.
use ourdao_backend.Common.{
  ℕ, String, Bool, true, false, Option, none, some, ◌≡◌, refl, sym, subst, ok, err, ◌>>=◌,
  string_eq, Bool-cases, inl, inr,
}
use ourdao_backend.Common.Int.{ℤ, int_eq}
use ourdao_backend.Common.Table.{Table, lookup}
use ourdao_backend.Events.{Symbol, DecodedEvent}
use ourdao_backend.Derived.{
  Member, NotificationType, Loan, LoanProposal, InterestDistribution, Derived,
}
use ourdao_backend.Handlers.{apply_event, dispatch}
use ourdao_backend.Handlers.Require.{Fold}
use ourdao_backend.Handlers.Statements.{update_member, notify}
use ourdao_backend.Handlers.Loans.{
  handle_loan_appr, handle_loan_rpy, handle_loan_dflt, handle_interest, default_loan, disburse,
  is_defaulted, set_active_loan, clear_active_loan, insert_distribution,
}
use ourdao_backend.Handlers.Books
use ourdao_backend.Handlers.Books.{Books, books, KeepsBooks, books-notify, books-update_member}
use ourdao_backend.Handlers.Totals.Changes.{
  CountsOnce, CountsOnce-refl, disburse-CountsOnce, record_repayment-CountsOnce,
  record_default-CountsOnce, insert_distribution-CountsOnce,
}

-- A handler that returns has counted what changed since these books.
abbrev Counted : Books → Fold Derived → Type 0
Counted before (ok db) = CountsOnce before (books db)
Counted before (err e) = Unit

Counted-bind :
    {A : Type 0} (before : Books) (m : Fold A) (f : A → Fold Derived)
    → ((a : A) → m ≡ ok a → Counted before (f a))
    → Counted before (m >>= f)
Counted-bind before (ok a) f h = h a refl
Counted-bind before (err e) f h = tt

notify-CountsOnce :
    (before : Books) (ev : DecodedEvent) (to : String) (kind : NotificationType)
    (title message : String) (db : Derived)
    → CountsOnce before (books db)
    → CountsOnce before (books (notify ev to kind title message db))
notify-CountsOnce before ev to kind title message db r =
    subst (CountsOnce before) (sym (books-notify ev to kind title message db)) r

update_member-CountsOnce :
    (before : Books) (a : String) (f : Member → Fold Member) (db : Derived) {db' : Derived}
    → update_member a f db ≡ ok db'
    → CountsOnce before (books db)
    → CountsOnce before (books db')
update_member-CountsOnce before a f db h r =
    subst (CountsOnce before) (sym (books-update_member a f db h)) r

clear_active_loan-CountsOnce :
    (before : Books) (cleared : Bool) (a : String) (db : Derived) {db' : Derived}
    → clear_active_loan cleared a db ≡ ok db'
    → CountsOnce before (books db)
    → CountsOnce before (books db')
unfolding clear_active_loan
clear_active_loan-CountsOnce before true a db h r =
    update_member-CountsOnce before a (set_active_loan false) db h r
clear_active_loan-CountsOnce before false a db {db'} h r =
    let same : db ≡ db' = cc h in subst (λ (d : Derived). CountsOnce before (books d)) same r

Counted-intro :
    (before : Books) (m : Fold Derived)
    → ((db : Derived) → m ≡ ok db → CountsOnce before (books db))
    → Counted before m
Counted-intro before (ok db) h = h db refl
Counted-intro before (err e) h = tt

insert_distribution-Counted :
    (event_id : String) (row : InterestDistribution) (db : Derived)
    → Counted
        (books db)
        (insert_distribution event_id row (lookup event_id db.interest_distributions) db)
insert_distribution-Counted event_id row db =
    Counted-intro (books db) _ (λ db' h. insert_distribution-CountsOnce event_id row _ db h)

ruleset counted = (Counted-bind, notify-CountsOnce, update_member-CountsOnce, refl)

default_loan-Counted :
    (ev : DecodedEvent) (id : ℤ) (borrower penalty : String) (o : Option Loan) (db : Derived)
    → lookup id db.loans ≡ o
    → Counted (books db) (default_loan ev id borrower penalty o db)
unfolding default_loan
default_loan-Counted ev id borrower penalty none db e = CountsOnce-refl (books db)
default_loan-Counted ev id borrower penalty (some l) db e =
    elim (Bool-cases (is_defaulted l.status)) [
      | inl h ↦ rw h (CountsOnce-refl (books db))
      | inr h ↦ rw h (search (counted, record_default-CountsOnce) depth 10)
    ]

-- the proposals are not part of the books
disburse_approved-CountsOnce :
    (ev : DecodedEvent) (id : ℤ) (borrower : String) (amount total : ℕ) (due : Option ℤ)
    (proposals : Table ℤ LoanProposal) (db : Derived) {db' : Derived}
    → disburse ev id borrower amount total due
        (lookup id db.loans)
        (record db { loan_proposals = proposals })
      ≡ ok db'
    → CountsOnce (books db) (books db')
disburse_approved-CountsOnce ev id borrower amount total due proposals db h =
    disburse-CountsOnce ev id borrower amount total due (record db { loan_proposals = proposals }) _
      refl h

handle_loan_appr-Counted :
    (ev : DecodedEvent) (db : Derived) → Counted (books db) (handle_loan_appr ev db)
unfolding handle_loan_appr
handle_loan_appr-Counted ev db = search (counted, disburse_approved-CountsOnce) depth 16

handle_loan_rpy-Counted :
    (ev : DecodedEvent) (db : Derived) → Counted (books db) (handle_loan_rpy ev db)
unfolding handle_loan_rpy
handle_loan_rpy-Counted ev db =
    search (counted, record_repayment-CountsOnce, clear_active_loan-CountsOnce) depth 14

handle_loan_dflt-Counted :
    (ev : DecodedEvent) (db : Derived) → Counted (books db) (handle_loan_dflt ev db)
unfolding handle_loan_dflt
handle_loan_dflt-Counted ev db = search (counted, default_loan-Counted) depth 14

handle_interest-Counted :
    (ev : DecodedEvent) (db : Derived) → Counted (books db) (handle_interest ev db)
unfolding handle_interest
handle_interest-Counted ev db = search (counted, insert_distribution-Counted) depth 14

-- a handler that leaves the books alone
KeepsBooks-Counted : (db : Derived) (m : Fold Derived) → KeepsBooks db m → Counted (books db) m
KeepsBooks-Counted db (ok db') h =
    subst (CountsOnce (books db)) (sym h) (CountsOnce-refl (books db))
KeepsBooks-Counted db (err e) h = tt

dispatch-Counted :
    (s : Symbol) (ev : DecodedEvent) (db : Derived) → Counted (books db) (dispatch s ev db)
unfolding dispatch
dispatch-Counted Symbol.joined ev db =
    KeepsBooks-Counted db _ (Books.handle_joined-KeepsBooks ev db)
dispatch-Counted Symbol.exited ev db =
    KeepsBooks-Counted db _ (Books.handle_exited-KeepsBooks ev db)
dispatch-Counted Symbol.claimed ev db =
    KeepsBooks-Counted db _ (Books.handle_claimed-KeepsBooks ev db)
dispatch-Counted Symbol.loan_req ev db =
    KeepsBooks-Counted db _ (Books.handle_loan_req-KeepsBooks ev db)
dispatch-Counted Symbol.loan_edit ev db =
    KeepsBooks-Counted db _ (Books.handle_loan_edit-KeepsBooks ev db)
dispatch-Counted Symbol.loan_vote ev db =
    KeepsBooks-Counted db _ (Books.handle_loan_vote-KeepsBooks ev db)
dispatch-Counted Symbol.loan_wait ev db =
    KeepsBooks-Counted db _ (Books.handle_loan_wait-KeepsBooks ev db)
dispatch-Counted Symbol.loan_rej ev db =
    KeepsBooks-Counted db _ (Books.handle_loan_rej-KeepsBooks ev db)
dispatch-Counted Symbol.loan_exp ev db =
    KeepsBooks-Counted db _ (Books.handle_loan_exp-KeepsBooks ev db)
dispatch-Counted Symbol.tre_prop ev db =
    KeepsBooks-Counted db _ (Books.handle_tre_prop-KeepsBooks ev db)
dispatch-Counted Symbol.tre_vote ev db =
    KeepsBooks-Counted db _ (Books.handle_tre_vote-KeepsBooks ev db)
dispatch-Counted Symbol.tre_wait ev db =
    KeepsBooks-Counted db _ (Books.handle_tre_wait-KeepsBooks ev db)
dispatch-Counted Symbol.tre_rej ev db =
    KeepsBooks-Counted db _ (Books.handle_tre_rej-KeepsBooks ev db)
dispatch-Counted Symbol.tre_exec ev db =
    KeepsBooks-Counted db _ (Books.handle_tre_exec-KeepsBooks ev db)
dispatch-Counted Symbol.name_reg ev db =
    KeepsBooks-Counted db _ (Books.handle_name_reg-KeepsBooks ev db)
dispatch-Counted Symbol.committed ev db =
    KeepsBooks-Counted db _ (Books.handle_committed-KeepsBooks ev db)
dispatch-Counted Symbol.revealed ev db =
    KeepsBooks-Counted db _ (Books.handle_revealed-KeepsBooks ev db)
dispatch-Counted Symbol.doc_attn ev db =
    KeepsBooks-Counted db _ (Books.handle_doc_attn-KeepsBooks ev db)
dispatch-Counted Symbol.staked ev db =
    KeepsBooks-Counted db _ (Books.handle_staked-KeepsBooks ev db)
dispatch-Counted Symbol.unstaked ev db =
    KeepsBooks-Counted db _ (Books.handle_staked-KeepsBooks ev db)
dispatch-Counted Symbol.loan_appr ev db = handle_loan_appr-Counted ev db
dispatch-Counted Symbol.loan_rpy ev db = handle_loan_rpy-Counted ev db
dispatch-Counted Symbol.loan_dflt ev db = handle_loan_dflt-Counted ev db
dispatch-Counted Symbol.interest ev db = handle_interest-Counted ev db
dispatch-Counted _ ev db = CountsOnce-refl (books db)

pub apply_event-CountsOnce :
    (ev : DecodedEvent) (db : Derived) {db' : Derived}
    → apply_event ev db ≡ ok db'
    → CountsOnce (books db) (books db')
unfolding apply_event
apply_event-CountsOnce ev db h = subst (Counted (books db)) h (dispatch-Counted ev.symbol ev db)
