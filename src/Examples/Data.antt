-- ===== src/Examples/Data.antt =====
-- Test data: a contract's events, as the poller decodes them, and databases they are folded into.
use ourdao_backend.Common.{ℕ, String, true, none, some, false, List, [], ◌∷◌, ok, err}
use ourdao_backend.Derived.{Derived}
use ourdao_backend.Common.Int.{pos}
use ourdao_backend.Events.{
  Symbol, Value, str, num, joined, loan_req, loan_appr, loan_rpy, loan_dflt, named_fields,
  DecodedEvent,
}
use ourdao_backend.Store.{Store}
use ourdao_backend.Events.{get_field}
use ourdao_backend.Common.Table.{lookup, put, has, sum_of}
use ourdao_backend.Common.Text.{decimal, is_decimal, show_int}
use ourdao_backend.Handlers.{apply_event, channel_map}
use ourdao_backend.Handlers.Require.{
  Fold, numeric_overflow, require_addr, require_amount, require_bool, require_id, str_or_zero,
  text_or_empty,
}
use ourdao_backend.Handlers.Statements.{
  add_principal_lent, add_principal_repaid, add_stats, day_of, increment_daily_loan_stats, int4,
  int4_count, notify, numeric40, stats_or_zero, update_member, update_row,
}
use ourdao_backend.Handlers.Members.{handle_joined}
use ourdao_backend.Handlers.Proposals.{handle_loan_req}
use ourdao_backend.Handlers.Loans.{
  handle_loan_appr, handle_loan_rpy, disburse, count_repayment, repay_row, is_repaid,
  record_repayment, clear_active_loan, set_active_loan,
}
use ourdao_backend.Ingest.{
  insert_raw_event, is_rewind, mark_folded, needs_fold, pending_of, fold_new, fold_event,
  fold_events, ingest_page,
}
use ourdao_backend.Recovery.{empty_derived}

unfoldable pub make_event : String → ℕ → Symbol → List Value → DecodedEvent
unfolding named_fields
make_event id ledger symbol args = record {
  id = id;
  ledger = ledger;
  closed_at = 1700000000;
  contract_id = "CONTRACT";
  tx_hash = some "TX";
  symbol = symbol;
  args = args;
  fields = named_fields symbol args;
  decode_error = none;
}

unfoldable pub loan_id : Value
loan_id = num (record { text = "1"; integer = some (pos 1) })

unfoldable pub join_event : DecodedEvent
unfolding make_event
join_event = make_event "0005-1" 5 joined (str "GA" ∷ str "500" ∷ [])

unfoldable pub request_event : DecodedEvent
unfolding make_event loan_id
request_event = make_event "0006-1" 6 loan_req (loan_id ∷ str "GA" ∷ str "1000" ∷ str "1100" ∷ [])

unfoldable pub approval_event : DecodedEvent
unfolding make_event loan_id
approval_event =
    make_event "0007-1" 7 loan_appr (loan_id ∷ str "GA" ∷ str "1000" ∷ str "1800000000" ∷ [])

unfoldable pub repayment_event : DecodedEvent
unfolding make_event loan_id
repayment_event = make_event "0008-1" 8 loan_rpy (loan_id ∷ str "GA" ∷ str "400" ∷ [])

unfoldable pub default_event : DecodedEvent
unfolding make_event loan_id
default_event = make_event "0009-1" 9 loan_dflt (loan_id ∷ str "GA" ∷ str "50" ∷ [])

-- an approval whose fields are missing
unfoldable pub broken_event : DecodedEvent
unfolding make_event
broken_event = make_event "0007-2" 7 loan_appr []

unfoldable pub empty_store : Store
unfolding empty_derived
empty_store = record {
  derived = empty_derived;
  events = [];
  failed_events = [];
  indexer_cursor = [];
  quarantine_state = [];
  reorg_halts = [];
}

unfoldable pub page : List DecodedEvent
unfolding join_event request_event approval_event
page = join_event ∷ request_event ∷ approval_event ∷ []

-- A proof that runs the program unfolds this name.
unfoldable pub running : Unit {0}
unfolding page broken_event repayment_event empty_store get_field lookup put has sum_of decimal
    is_decimal show_int require_addr require_amount require_bool require_id str_or_zero
    text_or_empty handle_joined handle_loan_req handle_loan_appr handle_loan_rpy disburse
    count_repayment repay_row is_repaid record_repayment clear_active_loan set_active_loan
    add_principal_lent add_principal_repaid add_stats day_of increment_daily_loan_stats int4
    int4_count notify numeric40 stats_or_zero update_member update_row apply_event channel_map
    insert_raw_event is_rewind mark_folded needs_fold pending_of fold_new fold_event fold_events
    ingest_page
running = tt

-- the database after the page
unfoldable pub page_store : Store
unfolding running
page_store = (ingest_page true 3 page empty_store).1

derived_or : Derived → Fold Derived → Derived
derived_or d (ok db) = db
derived_or d (err e) = d

-- the derived tables after the repayment that follows the page
unfoldable pub repaid_derived : Derived
unfolding running page_store derived_or
repaid_derived = derived_or page_store.derived (apply_event repayment_event page_store.derived)

-- a request whose fold failed: it is in the log, and on record as a failure
unfoldable pub failed_store : Store
unfolding running page_store
failed_store =
    record (insert_raw_event request_event (ingest_page true 3 (join_event ∷ []) empty_store).1) {
      failed_events =
          (
            "0006-1",
            record { ledger = 6; error = numeric_overflow; is_resolved = false; resolution = none },
          )
          ∷ [];
      reorg_halts =
          record {
            contract_id = "CONTRACT";
            last_ledger = some 6;
            last_ledger_hash = none;
            detail = "rewind";
            cleared_by = none;
          }
          ∷ [];
    }
