-- ===== src/Ingest.antt =====
-- indexer/poller.ts: a page of events folded in one transaction, and one event at a time. Events
-- come decoded. `lock` is what `pg_try_advisory_lock` returns, and `records` says whether the insert
-- into `failed_events` succeeds; no other statement fails but by a handler.
pub mod Once
pub mod Quarantine
pub mod Isolation
pub mod Progress
use ourdao_backend.Common.{
  ℕ, String, Bool, true, false, ◌&&◌, Option, none, some, List, [], ◌∷◌, ◌++◌, map, Result, ok, err,
  ◌>>=◌, ltb, if◌then◌else◌, string_eq,
}
use ourdao_backend.Common.Table.{Table, lookup, put}
use ourdao_backend.Events.{DecodedEvent}
use ourdao_backend.Derived.{Derived}
use ourdao_backend.Handlers.{StreamChannel, apply_event, channel_map}
use ourdao_backend.Handlers.Require.{FoldError, Fold}
use ourdao_backend.Store.{
  EventRow, FailedEvent, IngestError, reorg_detected, lock_held, fold_failed, Store,
}

-- What is notified after the commit.
abbrev pub Pending : Type 0
Pending = List (StreamChannel × DecodedEvent)

-- the row is new, or there and not folded
unfoldable pub needs_fold : Option EventRow → Bool
needs_fold none = true
needs_fold (some row) = if row.folded then false else true

-- `INSERT INTO events … ON CONFLICT (id) DO UPDATE SET id = events.id`
unfoldable pub insert_raw_event : DecodedEvent → Store → Store
insert_raw_event ev st = elim (lookup ev.id st.events) [
  | none ↦ record st { events = put ev.id (record { event = ev; folded = false }) st.events }
  | some _ ↦ st
]

unfoldable pub mark_folded : String → Store → Store
mark_folded id st = elim (lookup id st.events) [
  | none ↦ st
  | some row ↦ record st { events = put id (record row { folded = true }) st.events }
]

-- `lastLedger > 0 && ev.ledger < lastLedger`
unfoldable pub is_rewind : ℕ → DecodedEvent → Bool
is_rewind last_ledger ev = ltb 0 last_ledger && ltb ev.ledger last_ledger

unfoldable pub pending_of : DecodedEvent → Pending
pending_of ev = map (λ c. (c, ev)) (channel_map ev.symbol)

-- the handler's writes, with the mark that they were made
unfoldable pub fold_new : DecodedEvent → Store → Result IngestError Store
fold_new ev st = elim (apply_event ev st.derived) [
  | ok d ↦ ok (mark_folded ev.id (record st { derived = d }))
  | err e ↦ err (fold_failed e)
]

-- one round of the loop in `ingestPage`
unfoldable pub fold_event : ℕ → DecodedEvent → Store → Result IngestError (Store × Pending)
fold_event last_ledger ev st =
    if is_rewind last_ledger ev
    then err (reorg_detected ev.id ev.ledger last_ledger)
    else if needs_fold (lookup ev.id st.events)
    then (fold_new ev (insert_raw_event ev st) >>= λ st'. ok (st', pending_of ev))
    else ok (insert_raw_event ev st, [])

unfoldable pub fold_events : ℕ → List DecodedEvent → Store → Result IngestError (Store × Pending)
fold_events last_ledger [] st = ok (st, [])
fold_events last_ledger (ev ∷ evs) st = fold_event last_ledger ev st >>= λ (st', sent).
    fold_events last_ledger evs st' >>= λ (st'', rest). ok (st'', sent ++ rest)

-- `COMMIT`, or `ROLLBACK` and the error
unfoldable pub commit_or_rollback :
    Store → Result IngestError (Store × Pending) → Result IngestError Pending × Store
commit_or_rollback st (ok (st', sent)) = (ok sent, st')
commit_or_rollback st (err e) = (err e, st)

-- `ingestPage`
unfoldable pub ingest_page :
    Bool → ℕ → List DecodedEvent → Store → Result IngestError Pending × Store
unfolding commit_or_rollback
ingest_page lock last_ledger [] st = (ok [], st)
ingest_page lock last_ledger (ev ∷ evs) st =
    if lock
    then commit_or_rollback st (fold_events last_ledger (ev ∷ evs) st)
    else (err lock_held, st)

-- `recordQuarantinedEvent`
unfoldable pub record_quarantined_event : DecodedEvent → FoldError → Store → Store
record_quarantined_event ev e st = record st {
  failed_events =
      put ev.id
        (elim (lookup ev.id st.failed_events) [
          | none ↦ record { ledger = ev.ledger; error = e; is_resolved = false; resolution = none }
          | some row ↦ record row { error = e; is_resolved = false }
        ])
        st.failed_events;
}

-- What the statements of an event's turn in the quarantine mode meet: the attempt at the lock, and
-- the insert of `recordQuarantinedEvent`.
pub record Turn : Type 0 where
  pub lock : Bool
  pub records : Bool

-- the second transaction of `ingestEventQuarantined`: the fold, or the record of its failure. That the
-- record cannot be written is logged and swallowed.
unfoldable pub fold_or_record : Bool → DecodedEvent → Store → Store × Pending
fold_or_record records ev st = elim (apply_event ev st.derived) [
  | ok d ↦ (mark_folded ev.id (record st { derived = d }), pending_of ev)
  | err e ↦ (if records then record_quarantined_event ev e st else st, [])
]

-- `ingestEventQuarantined`
unfoldable pub ingest_event_quarantined :
    Turn → ℕ → DecodedEvent → Store → Result IngestError Pending × Store
ingest_event_quarantined turn last_ledger ev st =
    if is_rewind last_ledger ev
    then (err (reorg_detected ev.id ev.ledger last_ledger), st)
    else if turn.lock
    then (if needs_fold (lookup ev.id st.events)
        then (let (st', sent) = fold_or_record turn.records ev (insert_raw_event ev st) in
            (ok sent, st'))
        else (ok [], insert_raw_event ev st))
    else (err lock_held, st)

unfoldable pub after_event :
    Result IngestError Pending × Store
    → (Store → Result IngestError Pending × Store)
    → Result IngestError Pending × Store
after_event (err e, st) k = (err e, st)
after_event (ok sent, st) k = let (r, st') = k st in (r >>= (λ rest. ok (sent ++ rest)), st')

-- the loop of the quarantine mode; what an earlier event committed stays where a later one throws.
unfoldable pub ingest_events_quarantined :
    (DecodedEvent → Turn) → ℕ → List DecodedEvent → Store → Result IngestError Pending × Store
unfolding after_event
ingest_events_quarantined turns last_ledger [] st = (ok [], st)
ingest_events_quarantined turns last_ledger (ev ∷ evs) st =
    after_event (ingest_event_quarantined (turns ev) last_ledger ev st)
      (ingest_events_quarantined turns last_ledger evs)
