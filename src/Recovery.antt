-- ===== src/Recovery.antt =====
-- indexer/reindex.ts, indexer/replay.ts, indexer/clear-reorg.ts and indexer/derived-tables.ts: the
-- ways back from a failure. `lock` is what the attempt at the advisory lock gives. The keyset pages
-- in which a rebuild reads the log are taken as one read in the log's order.
pub mod Rebuild
pub mod LiveFold
pub mod Retry
use ourdao_backend.Common.{
  ℕ, String, Bool, true, false, not, ◌&&◌, Option, none, some, List, [], ◌∷◌, map, any, length,
  Result, ok, err, ◌>>=◌, ltb, if◌then◌else◌, ◌==◌, string_eq, nat_eq,
}
use ourdao_backend.Common.Table.{Table, lookup, put}
use ourdao_backend.Events.{DecodedEvent, named_fields}
use ourdao_backend.Derived.{Derived, Notification}
use ourdao_backend.Handlers.{apply_event}
use ourdao_backend.Handlers.Require.{FoldError, Fold}
use ourdao_backend.Ingest.{Pending, pending_of, mark_folded}
use ourdao_backend.Store.{EventRow, FailedEvent, Resolution, resolved, ReorgHalt, Store}

pub data RecoveryError : Type 0 where
  recovery_locked : RecoveryError
  rebuild_failed : FoldError → RecoveryError
  missing_event : String → RecoveryError

-- the derived tables after `TRUNCATE … RESTART IDENTITY` and `resetDaoTotals`
unfoldable pub empty_derived : Derived
empty_derived = record {
  members = [];
  loan_proposals = [];
  loans = [];
  treasury_proposals = [];
  notifications = [];
  interest_distributions = [];
  daily_loan_stats = [];
  documents = [];
  dao_totals = record {
    interest_collected = 0;
    principal_lent = 0;
    principal_repaid = 0;
    value_defaulted = 0;
  };
}

-- the event that is read back from the log: its named fields are made again
unfoldable pub to_decoded_event : EventRow → DecodedEvent
to_decoded_event row = record (row.event) {
  fields = named_fields row.event.symbol row.event.args;
  decode_error = none;
}

-- `ORDER BY ledger ASC, id ASC`, where `id_before` is the database's order of texts
unfoldable pub comes_before : (String → String → Bool) → DecodedEvent → DecodedEvent → Bool
comes_before id_before a b =
    if ltb a.ledger b.ledger
    then true
    else if a.ledger == b.ledger
    then id_before a.id b.id
    else false

unfoldable pub insert_in_order :
    (DecodedEvent → DecodedEvent → Bool) → DecodedEvent → List DecodedEvent → List DecodedEvent
insert_in_order before ev [] = ev ∷ []
insert_in_order before ev (x ∷ xs) =
    let rest = insert_in_order before ev xs in if before x ev then x ∷ rest else ev ∷ x ∷ xs

unfoldable pub in_order :
    (DecodedEvent → DecodedEvent → Bool) → List DecodedEvent → List DecodedEvent
unfolding insert_in_order
in_order before [] = []
in_order before (ev ∷ evs) = insert_in_order before ev (in_order before evs)

unfoldable pub log_of : Table String EventRow → List DecodedEvent
log_of [] = []
log_of ((id, row) ∷ rows) = to_decoded_event row ∷ log_of rows

unfoldable pub fold_all : List DecodedEvent → Derived → Fold Derived
fold_all [] db = ok db
fold_all (ev ∷ evs) db = apply_event ev db >>= fold_all evs

-- the event ids and addresses of the notifications that were read
unfoldable pub saved_reads : List Notification → List (String × String)
saved_reads [] = []
saved_reads (n ∷ ns) =
    let rest = saved_reads ns in if n.read then (n.event_id, n.address) ∷ rest else rest

unfoldable pub restore_read : List (String × String) → Notification → Notification
restore_read reads n =
    if any (λ (event_id, address). event_id == n.event_id && address == n.address) reads
    then record n { read = true }
    else n

unfoldable pub restore_reads : List (String × String) → Derived → Derived
unfolding restore_read
restore_reads reads db = record db { notifications = map (restore_read reads) db.notifications }

unfoldable pub resolve : Resolution → FailedEvent → FailedEvent
resolve r f = if f.is_resolved then f else record f { is_resolved = true; resolution = some r }

unfoldable pub resolve_all : Table String FailedEvent → Table String FailedEvent
unfolding resolve
resolve_all [] = []
resolve_all ((id, f) ∷ fs) = (id, resolve resolved f) ∷ resolve_all fs

unfoldable pub clear_halt : String → ReorgHalt → ReorgHalt
clear_halt by h = elim h.cleared_by [ none ↦ record h { cleared_by = some by } | some _ ↦ h ]

-- `UPDATE reorg_halts SET cleared_by = $1 WHERE cleared_at IS NULL`
unfoldable pub clear_reorg_halts : String → List ReorgHalt → List ReorgHalt
unfolding clear_halt
clear_reorg_halts by = map (clear_halt by)

unfoldable pub rebuilt : Store → List DecodedEvent → Fold Derived → Result RecoveryError ℕ × Store
rebuilt st log (err e) = (err (rebuild_failed e), st)
rebuilt st log (ok db) = (
  ok (length log),
  record st {
    derived = restore_reads (saved_reads st.derived.notifications) db;
    failed_events = resolve_all st.failed_events;
    reorg_halts = clear_reorg_halts "reindex" st.reorg_halts;
  },
)

-- `reindexFromEventLog`, one transaction
unfoldable pub reindex_from_event_log :
    (String → String → Bool) → Bool → Store → Result RecoveryError ℕ × Store
unfolding rebuilt
reindex_from_event_log id_before lock st =
    let log = in_order (comes_before id_before) (log_of st.events) in
    if lock then rebuilt st log (fold_all log empty_derived) else (err recovery_locked, st)

pub data ReplayOutcome : Type 0 where
  replayed already_resolved : ReplayOutcome
  still_failing : FoldError → ReplayOutcome

-- `UPDATE failed_events SET resolved_at = now(), resolution = $2 WHERE event_id = $1 AND …`
unfoldable pub resolve_event : String → Resolution → Store → Store
unfolding resolve
resolve_event id r st = elim (lookup id st.failed_events) [
  | none ↦ st
  | some f ↦ record st { failed_events = put id (resolve r f) st.failed_events }
]

-- `UPDATE failed_events SET error = $2 WHERE event_id = $1 AND resolved_at IS NULL`
unfoldable pub update_error : String → FoldError → Store → Store
update_error id e st = elim (lookup id st.failed_events) [
  | none ↦ st
  | some f ↦
      if f.is_resolved
      then st
      else record st { failed_events = put id (record f { error = e }) st.failed_events }
]

unfoldable pub refolded :
    String → Resolution → EventRow → Store → Fold Derived → ReplayOutcome × Store
unfolding resolve_event update_error
refolded id r row st (ok db) =
    (replayed, resolve_event id r (mark_folded id (record st { derived = db })))
refolded id r row st (err e) = (still_failing e, update_error id e st)

-- the record is unresolved: look at the log
unfoldable pub replay_row :
    String → Resolution → Option EventRow → Store → Result RecoveryError ReplayOutcome × Store
unfolding resolve_event refolded
replay_row id r none st = (err (missing_event id), st)
replay_row id r (some row) st =
    if row.folded
    then (ok already_resolved, resolve_event id r st)
    else (let (outcome, st') =
          refolded id r row st (apply_event (to_decoded_event row) st.derived) in
        (ok outcome, st'))

unfoldable pub has_unresolved : Option FailedEvent → Bool
has_unresolved none = false
has_unresolved (some f) = not f.is_resolved

-- `replayFailedEvent`
unfoldable pub replay_failed_event :
    Bool → String → Resolution → Store → Result RecoveryError ReplayOutcome × Store
unfolding has_unresolved replay_row
replay_failed_event lock id r st =
    if lock
    then (if has_unresolved (lookup id st.failed_events)
        then replay_row id r (lookup id st.events) st
        else (ok already_resolved, st))
    else (err recovery_locked, st)
