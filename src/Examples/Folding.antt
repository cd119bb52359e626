-- ===== src/Examples/Folding.antt =====
-- Pages of events that are folded.
use ourdao_backend.Common.{true, refl, ok, [], ◌≡◌}
use ourdao_backend.Handlers.Reconcile.{apply_event-Reconciles}
use ourdao_backend.Handlers.Books.{books}
use ourdao_backend.Handlers.Totals.{Reconciles}
use ourdao_backend.Handlers.Totals.Changes.{CountsOnce}
use ourdao_backend.Ingest.{ingest_page}
use ourdao_backend.Ingest.Once.{FoldsAll, ingest_page-FoldsAll, ingest_page-again}
use ourdao_backend.Examples.Data.{
  page, empty_store, page_store, repaid_derived, repayment_event, running,
}

ingest_page-FoldsAll_example : FoldsAll 3 page empty_store page_store
unfolding running page_store repaid_derived
ingest_page-FoldsAll_example = ingest_page-FoldsAll true 3 page empty_store refl

ingest_page-again_example : ingest_page true 3 page page_store ≡ (ok [], page_store)
unfolding running page_store repaid_derived
ingest_page-again_example = ingest_page-again true 3 page empty_store refl

page_store-Reconciles : Reconciles (books page_store.derived)
unfolding running page_store repaid_derived
page_store-Reconciles = record {
  lent = refl;
  counted = refl;
  interest = refl;
  daily_lent = refl;
  daily_repaid = refl;
  daily_defaulted = refl;
}

apply_event-Reconciles_example :
    Reconciles (books repaid_derived) × CountsOnce (books page_store.derived) (books repaid_derived)
unfolding running page_store repaid_derived
apply_event-Reconciles_example =
    apply_event-Reconciles repayment_event page_store.derived page_store-Reconciles refl
