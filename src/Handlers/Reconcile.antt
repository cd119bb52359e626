-- ===== src/Handlers/Reconcile.antt =====
-- indexer/handlers.ts, applyEvent: the totals and the rows, over all handlers.
use ourdao_backend.Common.{
  String, Bool, true, false, Option, none, some, ◌≡◌, refl, sym, subst, ok, err, ◌>>=◌, string_eq,
  Bool-cases, inl, inr,
}
use ourdao_backend.Common.Int.{ℤ, int_eq}
use ourdao_backend.Common.Table.{lookup}
use ourdao_backend.Events.{Symbol, DecodedEvent}
use ourdao_backend.Derived.{Member, NotificationType, Loan, InterestDistribution, Derived}
use ourdao_backend.Handlers.{apply_event, dispatch}
use ourdao_backend.Handlers.Require.{Fold}
use ourdao_backend.Handlers.Statements.{update_member, notify}
use ourdao_backend.Handlers.Loans.{
  handle_loan_appr, handle_loan_rpy, handle_loan_dflt, handle_interest, default_loan, is_defaulted,
  set_active_loan, clear_active_loan, insert_distribution,
}
use ourdao_backend.Handlers.Books
use ourdao_backend.Handlers.Books.{books, KeepsBooks, books-notify, books-update_member}
use ourdao_backend.Handlers.Counting.{apply_event-CountsOnce}
use ourdao_backend.Handlers.Totals.{Reconciles}
use ourdao_backend.Handlers.Totals.Changes.{CountsOnce}
use ourdao_backend.Handlers.Totals.Entries.{
  disburse-Reconciles, record_repayment-Reconciles, record_default-Reconciles,
  insert_distribution-Reconciles,
}

-- A handler that returns leaves books that reconcile.
abbrev Kept : Fold Derived → Type 0
Kept (ok db) = Reconciles (books db)
Kept (err e) = Unit

Kept-bind :
    {A : Type 0} (m : Fold A) (f : A → Fold Derived)
    → ((a : A) → m ≡ ok a → Kept (f a))
    → Kept (m >>= f)
Kept-bind (ok a) f h = h a refl
Kept-bind (err e) f h = tt

notify-Reconciles :
    (ev : DecodedEvent) (to : String) (kind : NotificationType) (title message : String)
    (db : Derived)
    → Reconciles (books db)
    → Reconciles (books (notify ev to kind title message db))
notify-Reconciles ev to kind title message db r =
    subst Reconciles (sym (books-notify ev to kind title message db)) r

update_member-Reconciles :
    (a : String) (f : Member → Fold Member) (db : Derived) {db' : Derived}
    → update_member a f db ≡ ok db'
    → Reconciles (books db)
    → Reconciles (books db')
update_member-Reconciles a f db h r = subst Reconciles (sym (books-update_member a f db h)) r

clear_active_loan-Reconciles :
    (cleared : Bool) (a : String) (db : Derived) {db' : Derived}
    → clear_active_loan cleared a db ≡ ok db'
    → Reconciles (books db)
    → Reconciles (books db')
unfolding clear_active_loan
clear_active_loan-Reconciles true a db h r =
    update_member-Reconciles a (set_active_loan false) db h r
clear_active_loan-Reconciles false a db {db'} h r =
    let same : db ≡ db' = cc h in subst (λ d. Reconciles (books d)) same r

Kept-intro : (m : Fold Derived) → ((db : Derived) → m ≡ ok db → Reconciles (books db)) → Kept m
Kept-intro (ok db) h = h db refl
Kept-intro (err e) h = tt

insert_distribution-Kept :
    (event_id : String) (row : InterestDistribution) (db : Derived)
    → Reconciles (books db)
    → Kept (insert_distribution event_id row (lookup event_id db.interest_distributions) db)
insert_distribution-Kept event_id row db r =
    Kept-intro _ (λ db' h. insert_distribution-Reconciles event_id row _ db refl h r)

ruleset kept = (Kept-bind, notify-Reconciles, update_member-Reconciles)

default_loan-Kept :
    (ev : DecodedEvent) (id : ℤ) (borrower penalty : String) (o : Option Loan) (db : Derived)
    → lookup id db.loans ≡ o
    → Reconciles (books db)
    → Kept (default_loan ev id borrower penalty o db)
unfolding default_loan
default_loan-Kept ev id borrower penalty none db e r = r
default_loan-Kept ev id borrower penalty (some l) db e r =
    elim (Bool-cases (is_defaulted l.status)) [
      | inl h ↦ rw h r
      | inr h ↦ rw h (search (kept, record_default-Reconciles) depth 10)
    ]

handle_loan_appr-Kept :
    (ev : DecodedEvent) (db : Derived) → Reconciles (books db) → Kept (handle_loan_appr ev db)
unfolding handle_loan_appr
handle_loan_appr-Kept ev db r = search (kept, disburse-Reconciles) depth 14

handle_loan_rpy-Kept :
    (ev : DecodedEvent) (db : Derived) → Reconciles (books db) → Kept (handle_loan_rpy ev db)
unfolding handle_loan_rpy
handle_loan_rpy-Kept ev db r =
    search (kept, record_repayment-Reconciles, clear_active_loan-Reconciles) depth 14

handle_loan_dflt-Kept :
    (ev : DecodedEvent) (db : Derived) → Reconciles (books db) → Kept (handle_loan_dflt ev db)
unfolding handle_loan_dflt
handle_loan_dflt-Kept ev db r = search (kept, default_loan-Kept) depth 14

handle_interest-Kept :
    (ev : DecodedEvent) (db : Derived) → Reconciles (books db) → Kept (handle_interest ev db)
unfolding handle_interest
handle_interest-Kept ev db r = search (kept, insert_distribution-Kept) depth 14

-- a handler that leaves the books alone
KeepsBooks-Kept :
    (db : Derived) (m : Fold Derived) → KeepsBooks db m → Reconciles (books db) → Kept m
KeepsBooks-Kept db (ok db') h r = subst Reconciles (sym h) r
KeepsBooks-Kept db (err e) h r = tt

dispatch-Kept :
    (s : Symbol) (ev : DecodedEvent) (db : Derived)
    → Reconciles (books db)
    → Kept (dispatch s ev db)
unfolding dispatch
dispatch-Kept Symbol.joined ev db r = KeepsBooks-Kept db _ (Books.handle_joined-KeepsBooks ev db) r
dispatch-Kept Symbol.exited ev db r = KeepsBooks-Kept db _ (Books.handle_exited-KeepsBooks ev db) r
dispatch-Kept Symbol.claimed ev db r =
    KeepsBooks-Kept db _ (Books.handle_claimed-KeepsBooks ev db) r
dispatch-Kept Symbol.loan_req ev db r =
    KeepsBooks-Kept db _ (Books.handle_loan_req-KeepsBooks ev db) r
dispatch-Kept Symbol.loan_edit ev db r =
    KeepsBooks-Kept db _ (Books.handle_loan_edit-KeepsBooks ev db) r
dispatch-Kept Symbol.loan_vote ev db r =
    KeepsBooks-Kept db _ (Books.handle_loan_vote-KeepsBooks ev db) r
dispatch-Kept Symbol.loan_wait ev db r =
    KeepsBooks-Kept db _ (Books.handle_loan_wait-KeepsBooks ev db) r
dispatch-Kept Symbol.loan_rej ev db r =
    KeepsBooks-Kept db _ (Books.handle_loan_rej-KeepsBooks ev db) r
dispatch-Kept Symbol.loan_exp ev db r =
    KeepsBooks-Kept db _ (Books.handle_loan_exp-KeepsBooks ev db) r
dispatch-Kept Symbol.tre_prop ev db r =
    KeepsBooks-Kept db _ (Books.handle_tre_prop-KeepsBooks ev db) r
dispatch-Kept Symbol.tre_vote ev db r =
    KeepsBooks-Kept db _ (Books.handle_tre_vote-KeepsBooks ev db) r
dispatch-Kept Symbol.tre_wait ev db r =
    KeepsBooks-Kept db _ (Books.handle_tre_wait-KeepsBooks ev db) r
dispatch-Kept Symbol.tre_rej ev db r =
    KeepsBooks-Kept db _ (Books.handle_tre_rej-KeepsBooks ev db) r
dispatch-Kept Symbol.tre_exec ev db r =
    KeepsBooks-Kept db _ (Books.handle_tre_exec-KeepsBooks ev db) r
dispatch-Kept Symbol.name_reg ev db r =
    KeepsBooks-Kept db _ (Books.handle_name_reg-KeepsBooks ev db) r
dispatch-Kept Symbol.committed ev db r =
    KeepsBooks-Kept db _ (Books.handle_committed-KeepsBooks ev db) r
dispatch-Kept Symbol.revealed ev db r =
    KeepsBooks-Kept db _ (Books.handle_revealed-KeepsBooks ev db) r
dispatch-Kept Symbol.doc_attn ev db r =
    KeepsBooks-Kept db _ (Books.handle_doc_attn-KeepsBooks ev db) r
dispatch-Kept Symbol.staked ev db r = KeepsBooks-Kept db _ (Books.handle_staked-KeepsBooks ev db) r
dispatch-Kept Symbol.unstaked ev db r =
    KeepsBooks-Kept db _ (Books.handle_staked-KeepsBooks ev db) r
dispatch-Kept Symbol.loan_appr ev db r = handle_loan_appr-Kept ev db r
dispatch-Kept Symbol.loan_rpy ev db r = handle_loan_rpy-Kept ev db r
dispatch-Kept Symbol.loan_dflt ev db r = handle_loan_dflt-Kept ev db r
dispatch-Kept Symbol.interest ev db r = handle_interest-Kept ev db r
dispatch-Kept _ ev db r = r

-- An event whose handler does not throw, whatever the event, keeps these equal: the principal lent and the
-- sum over the loans, the interest and the sum over its distributions, the days' originations and the
-- number of loans, and the days' sums of principal lent, principal repaid and value defaulted and their
-- totals. And it moves the principal repaid by that of the loans which became repaid, and the days'
-- number of defaults by the number of the loans which came into default.
pub apply_event-Reconciles :
    (ev : DecodedEvent) (db : Derived) {db' : Derived}
    → Reconciles (books db)
    → apply_event ev db ≡ ok db'
    → Reconciles (books db') × CountsOnce (books db) (books db')
unfolding apply_event
apply_event-Reconciles ev db r h =
    (subst Kept h (dispatch-Kept ev.symbol ev db r), apply_event-CountsOnce ev db h)
