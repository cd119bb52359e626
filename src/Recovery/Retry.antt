-- ===== src/Recovery/Retry.antt =====
-- indexer/replay.ts: the outcomes of a replay.
use ourdao_backend.Common.{
  String, Bool, true, false, Option, none, some, Result, ok, err, string_eq, ◌≡◌, refl, ap, ◌∙◌,
  subst, Bool-cases, Option-cases, inl, inr, arith,
}
use ourdao_backend.Common.Table.{lookup, lookup-put_self}
use ourdao_backend.Derived.{Derived}
use ourdao_backend.Handlers.{apply_event}
use ourdao_backend.Handlers.Require.{FoldError, Fold}
use ourdao_backend.Store.{EventRow, Resolution, Store}
use ourdao_backend.Ingest.{mark_folded}
use ourdao_backend.Recovery.{
  RecoveryError, ReplayOutcome, replayed, already_resolved, still_failing, resolve_event, resolve,
  update_error, refolded, replay_row, has_unresolved, replay_failed_event, to_decoded_event,
}

resolve_event-resolves :
    (id : String) (r : Resolution) (st : Store)
    → has_unresolved (lookup id (resolve_event id r st).failed_events) ≡ false
unfolding resolve_event has_unresolved resolve
resolve_event-resolves id r st = elim (Option-cases (lookup id st.failed_events)) [
  | inl e ↦ ground arith
  | inr (f, e) ↦ ground (arith, lookup-put_self id (resolve r f) st.failed_events)
]

-- What a replay with the lock held here has done, by its outcome.
abbrev pub Replays : String → Store → Result RecoveryError ReplayOutcome × Store → Type 0
Replays id st (ok replayed, st') =
    (has_unresolved (lookup id st'.failed_events) ≡ false)
    × ((row : EventRow) × (lookup id st.events ≡ some row)
        × (row.folded ≡ false)
        × (lookup id st'.events ≡ some (record row { folded = true }))
        × (apply_event (to_decoded_event row) st.derived ≡ ok st'.derived))
Replays id st (ok already_resolved, st') =
    (has_unresolved (lookup id st'.failed_events) ≡ false)
    × (st'.derived ≡ st.derived)
    × (st'.events ≡ st.events)
Replays id st (ok (still_failing e), st') = (st'.derived ≡ st.derived) × (st'.events ≡ st.events)
Replays id st (err e, st') = st' ≡ st

derived-mark_folded : (id : String) (st : Store) → (mark_folded id st).derived ≡ st.derived
unfolding mark_folded
derived-mark_folded id st = ground arith

derived-resolve_event :
    (id : String) (r : Resolution) (st : Store)
    → ((resolve_event id r st).derived ≡ st.derived) × ((resolve_event id r st).events ≡ st.events)
unfolding resolve_event
derived-resolve_event id r st = (ground arith, ground arith)

derived-update_error :
    (id : String) (e : FoldError) (st : Store)
    → ((update_error id e st).derived ≡ st.derived) × ((update_error id e st).events ≡ st.events)
unfolding update_error
derived-update_error id e st = (ground arith, ground arith)

lookup-mark_folded :
    (id : String) (row : EventRow) (st : Store)
    → lookup id st.events ≡ some row
    → lookup id (mark_folded id st).events ≡ some (record row { folded = true })
unfolding mark_folded
lookup-mark_folded id row st there =
    rw (there, mark_folded) (lookup-put_self id (record row { folded = true }) st.events)

lookup-refolded :
    (id : String) (r : Resolution) (row : EventRow) (st : Store)
    → lookup id st.events ≡ some row
    → lookup id (resolve_event id r (mark_folded id st)).events
      ≡ some (record row { folded = true })
lookup-refolded id r row st there =
    ap (lookup id) (derived-resolve_event id r (mark_folded id st)).1
    ∙ lookup-mark_folded id row st there

refolded-Replays :
    (id : String) (r : Resolution) (row : EventRow) (st : Store) (result : Fold Derived)
    → lookup id st.events ≡ some row
    → row.folded ≡ false
    → apply_event (to_decoded_event row) st.derived ≡ result
    → Replays id st (ok (refolded id r row st result).0, (refolded id r row st result).1)
unfolding refolded
refolded-Replays id r row st (ok db) there new e = (
  resolve_event-resolves id r (mark_folded id (record st { derived = db })),
  (
    row,
    there,
    new,
    lookup-refolded id r row (record st { derived = db }) there,
    rw
        (
          (derived-resolve_event id r (mark_folded id (record st { derived = db }))).0,
          derived-mark_folded id (record st { derived = db }),
        )
        e,
  ),
)
refolded-Replays id r row st (err x) there new e = derived-update_error id x st

replay_row-Replays :
    (id : String) (r : Resolution) (o : Option EventRow) (st : Store)
    → lookup id st.events ≡ o
    → Replays id st (replay_row id r o st)
unfolding replay_row
replay_row-Replays id r none st there = refl
replay_row-Replays id r (some row) st there = elim (Bool-cases row.folded) [
  | inl e ↦ simp e (
    resolve_event-resolves id r st,
    (derived-resolve_event id r st).0,
    (derived-resolve_event id r st).1,
  )
  | inr e ↦ simp e (refolded-Replays id r row st _ there e refl)
]

-- A replay folds the log's row of the event, which was not folded, marks it as folded and resolves
-- its record; or finds the record resolved or the row folded and leaves the record resolved; or leaves
-- the derived tables and the log as they were.
pub replay-Replays :
    (lock : Bool) (id : String) (r : Resolution) (st : Store)
    → Replays id st (replay_failed_event lock id r st)
unfolding replay_failed_event
replay-Replays false id r st = refl
replay-Replays true id r st = elim (Bool-cases (has_unresolved (lookup id st.failed_events))) [
  | inl e ↦ rw e (replay_row-Replays id r (lookup id st.events) st refl)
  | inr e ↦ rw e (e, refl, refl)
]

-- A second replay of an event that was replayed changes nothing, whatever resolution it asks for.
pub replay-again :
    (lock : Bool) (id : String) (r r' : Resolution) (st : Store) {st' : Store}
    → replay_failed_event lock id r st ≡ (ok replayed, st')
    → replay_failed_event true id r' st' ≡ (ok already_resolved, st')
unfolding replay_failed_event
replay-again lock id r r' st {st'} h =
    let done : Replays id st (ok replayed, st') =
      subst (Replays id st) h (unfold replay_failed_event in replay-Replays lock id r st) in
    rw done.0
