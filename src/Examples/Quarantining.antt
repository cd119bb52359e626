-- ===== src/Examples/Quarantining.antt =====
-- A page with an event whose handler throws.
use ourdao_backend.Common.{true, refl, List, [], ◌∷◌, arith}
use ourdao_backend.Events.{DecodedEvent}
use ourdao_backend.Handlers.Require.{field_validation}
use ourdao_backend.Ingest.{Turn, ingest_events_quarantined}
use ourdao_backend.Ingest.Isolation.{SettlesAll, quarantine-SettlesAll}
use ourdao_backend.Ingest.Quarantine.{
  current_state, next_state, load_quarantine_state, ingest_page_with_quarantine,
}
use ourdao_backend.Ingest.Progress.{GetsThrough, attempts, failing_page-GetsThrough}
use ourdao_backend.Examples.Data.{join_event, broken_event, empty_store, running}

abbrev broken_page : List DecodedEvent
broken_page = broken_event ∷ join_event ∷ []

abbrev recorded : DecodedEvent → Turn
recorded ev = record { lock = true; records = true }

quarantine-SettlesAll_example :
    SettlesAll recorded broken_page empty_store
      (ingest_events_quarantined recorded 3 broken_page empty_store)
unfolding running
quarantine-SettlesAll_example =
    quarantine-SettlesAll recorded 3 broken_page empty_store (refl, (refl, tt)) (refl, (refl, tt))

failing_page-GetsThrough_example : GetsThrough recorded broken_page (
    attempts 2
      (ingest_page_with_quarantine 3 true recorded 3 "CONTRACT" broken_page)
      []
      empty_store)
unfolding running current_state next_state load_quarantine_state
failing_page-GetsThrough_example =
    failing_page-GetsThrough 2 3 true recorded 3 "CONTRACT" broken_page [] empty_store
      (field_validation "0007-2" "id") refl (refl, (refl, tt)) (refl, (refl, tt)) (omega arith)
