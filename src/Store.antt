-- ===== src/Store.antt =====
-- The database of db/schema.sql as the indexer sees it: the derived tables, the raw event log and
-- the indexer's own bookkeeping. Time stamps that nothing tests are left out.
use ourdao_backend.Common.{ℕ, String, Bool, Option, List}
use ourdao_backend.Common.Table.{Table}
use ourdao_backend.Events.{DecodedEvent}
use ourdao_backend.Derived.{Derived}
use ourdao_backend.Handlers.Require.{FoldError}

-- A row of `events`; `folded` says that `folded_at` is set.
pub record EventRow : Type 0 where
  pub event : DecodedEvent
  pub folded : Bool

pub data Resolution : Type 0 where
  resolved ignored : Resolution

-- What stops a page: a rewound ledger (the event's, and the one folded last), the advisory lock held
-- elsewhere, or a handler that throws.
pub data IngestError : Type 0 where
  reorg_detected : String → ℕ → ℕ → IngestError
  lock_held : IngestError
  fold_failed : FoldError → IngestError

-- A row of `failed_events`: at most one for an event. `is_resolved` says that `resolved_at` is set.
pub record FailedEvent : Type 0 where
  pub ledger : ℕ
  pub error : FoldError
  pub is_resolved : Bool
  pub resolution : Option Resolution

pub record Cursor : Type 0 where
  pub paging_token : Option String
  pub last_ledger : ℕ
  pub last_ledger_hash : Option String
  pub observed_tip_ledger : ℕ

pub record QuarantineState : Type 0 where
  pub page_key : String
  pub error_message : IngestError
  pub failures : ℕ

-- A row of `quarantine_state`; `state` is none where the page key and the message are NULL.
pub record QuarantineRow : Type 0 where
  pub state : Option QuarantineState
  pub escalated : Bool

pub record ReorgHalt : Type 0 where
  pub contract_id : String
  pub last_ledger : Option ℕ
  pub last_ledger_hash : Option String
  pub detail : String
  pub cleared_by : Option String

pub record Store : Type 0 where
  pub derived : Derived
  pub events : Table String EventRow
  pub failed_events : Table String FailedEvent
  pub indexer_cursor : Table String Cursor
  pub quarantine_state : Table String QuarantineRow
  pub reorg_halts : List ReorgHalt
