-- ===== src/Examples/Polling.antt =====
-- Polls of a contract, and starts of the indexer.
use ourdao_backend.Common.{
  zero, suc, true, false, some, none, refl, List, [], ◌∷◌, ok, err, ◌≡◌, ◌≤◌, string_eq, nat_eq,
}
use ourdao_backend.Events.{DecodedEvent}
use ourdao_backend.Handlers.Require.{field_validation}
use ourdao_backend.Store.{Cursor, ReorgHalt, Store, fold_failed}
use ourdao_backend.Ingest.{
  Turn, ingest_page, ingest_event_quarantined, ingest_events_quarantined, after_event,
  fold_or_record, record_quarantined_event,
}
use ourdao_backend.Ingest.Quarantine.{
  States, page_key_for, current_state, next_state, persist_quarantine_state, same_error, is_reorg,
  finish, escalate, after_failure, after_page, ingest_page_with_quarantine,
}
use ourdao_backend.Recovery.{empty_derived}
use ourdao_backend.Polling.{PollConfig, Outside, fetch_once}
use ourdao_backend.Polling.Pages.{IsThrough, page-IsThrough}
use ourdao_backend.Polling.Advance.{ledger_of, fetch_once-advances}
use ourdao_backend.Startup.{
  reorg_halted, record_reorg_halt, clear_recorded_reorg, ensure_cursor_contract, start_indexer,
  reset_for_contract_change, load_uncleared_reorg_halt, stale_of,
}
use ourdao_backend.Startup.Halts.{halt-refuses}
use ourdao_backend.Startup.Contracts.{IsConfigured, start_indexer-IsConfigured, reset-skips_folded}
use ourdao_backend.Examples.Data.{join_event, broken_event, page, page_store, empty_store, running}

abbrev config : PollConfig
config = record {
  page_limit = 2;
  max_drain_pages = 5;
  quarantine_after_failures = 3;
  start_ledger = 1;
  start_lookback_ledgers = 0;
}

-- an RPC that answers a full page and then an empty one
abbrev outside : Outside
outside = record {
  tip = 5;
  latest_ledger = 5;
  ledger_hash = λ n ledger. some "HASH";
  get_events = λ n request. some (record {
    events = elim n [ zero ↦ page | suc k ↦ [] ];
    token = none;
    latest_ledger = some 9;
  });
  aborted = λ n. false;
  time_exhausted = λ n. false;
  lock = λ n. true;
  turns = λ n ev. record { lock = true; records = true };
}

-- an RPC with nothing new
abbrev idle : Outside
idle = record outside {
  get_events = λ n request. some (record { events = []; token = none; latest_ledger = some 9 });
}

abbrev cursor : Cursor
cursor = record {
  paging_token = some "0007-1";
  last_ledger = 7;
  last_ledger_hash = some "HASH";
  observed_tip_ledger = 9;
}

unfoldable cursor_store : Store
unfolding page_store
cursor_store = record page_store { indexer_cursor = ("CONTRACT", cursor) ∷ [] }

fetch_once-advances_example :
    ledger_of "CONTRACT" empty_store
    ≤ ledger_of "CONTRACT" (fetch_once config "CONTRACT" outside [] empty_store).2
fetch_once-advances_example = fetch_once-advances config "CONTRACT" outside [] empty_store

abbrev failing_page : List DecodedEvent
failing_page = broken_event ∷ join_event ∷ []

abbrev failed_twice : States
failed_twice =
    (
      "CONTRACT",
      some (record {
        page_key = page_key_for failing_page;
        error_message = fold_failed (field_validation "0007-2" "id");
        failures = 2;
      }),
    )
    ∷ []

abbrev recorded : DecodedEvent → Turn
recorded ev = record { lock = true; records = true }

-- the database after the third attempt
unfoldable quarantined_store : Store
quarantined_store =
    (ingest_page_with_quarantine 3 true recorded 3 "CONTRACT" failing_page failed_twice
      empty_store).2

page-IsThrough_example : IsThrough recorded 3 failing_page quarantined_store
unfolding running quarantined_store ingest_page_with_quarantine after_page after_failure is_reorg
    escalate finish current_state next_state page_key_for same_error ingest_events_quarantined
    after_event ingest_event_quarantined fold_or_record record_quarantined_event
    persist_quarantine_state
page-IsThrough_example =
    page-IsThrough 3 true recorded 3 "CONTRACT" failing_page failed_twice empty_store refl

unfoldable halted_store : Store
halted_store = record_reorg_halt true "CONTRACT" "rewind" cursor_store

halt-refuses_example :
    ((h : ReorgHalt) × ((h.contract_id ≡ "CONTRACT") × (h.detail ≡ "rewind"))
      × (start_indexer ("CONTRACT" ∷ []) false true halted_store
          ≡ (err (reorg_halted h), halted_store)))
    × (start_indexer ("CONTRACT" ∷ []) false true (clear_recorded_reorg "operator" halted_store).1
        ≡ ensure_cursor_contract
            ("CONTRACT" ∷ [])
            false
            true
            (clear_recorded_reorg "operator" halted_store).1)
unfolding halted_store
halt-refuses_example =
    halt-refuses "CONTRACT" "rewind" "operator" ("CONTRACT" ∷ []) false true cursor_store

-- a start for another contract, with the reset allowed
unfoldable restarted_store : Store
restarted_store = (start_indexer ("OTHER" ∷ []) true true cursor_store).1

start_indexer-IsConfigured_example : IsConfigured ("OTHER" ∷ []) restarted_store.indexer_cursor
unfolding running cursor_store restarted_store start_indexer load_uncleared_reorg_halt
    ensure_cursor_contract stale_of reset_for_contract_change
start_indexer-IsConfigured_example =
    start_indexer-IsConfigured ("OTHER" ∷ []) true true cursor_store refl

reset-skips_folded_example :
    ((reset_for_contract_change true page_store).1.derived ≡ empty_derived)
    × (ingest_page true 0 page (reset_for_contract_change true page_store).1
        ≡ (ok [], (reset_for_contract_change true page_store).1))
unfolding running page_store
reset-skips_folded_example = reset-skips_folded page page_store (refl, (refl, (refl, tt)))
