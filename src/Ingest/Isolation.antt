-- ===== src/Ingest/Isolation.antt =====
-- indexer/poller.ts, ingestEventQuarantined: the quarantine mode over a page.
use ourdao_backend.Common.{
  ℕ, String, Bool, true, false, Option, none, some, List, [], ◌∷◌, ◌++◌, Result, ok, err,
  if◌then◌else◌, if_elim, string_eq, ◌≡◌, ◌≢◌, ◌⊎◌, refl, All, Bool-cases, Option-cases,
  Result-cases, inl, inr, ==_cases, arith,
}
use ourdao_backend.Common.Table.{lookup, lookup-put_self, lookup-put_ne}
use ourdao_backend.Events.{DecodedEvent}
use ourdao_backend.Handlers.{apply_event}
use ourdao_backend.Handlers.Require.{FoldError}
use ourdao_backend.Store.{FailedEvent, IngestError, Store}
use ourdao_backend.Ingest.{
  Turn, Pending, needs_fold, insert_raw_event, mark_folded, is_rewind, record_quarantined_event,
  fold_or_record, ingest_event_quarantined, ingest_events_quarantined, after_event,
}
use ourdao_backend.Ingest.Once.{
  IsFolded, insert_raw_event-IsFolded, mark_folded-IsFolded, mark_folded_self,
  lookup-insert_raw_event,
}

-- an unresolved record of a failure
unfoldable pub is_unresolved : Option FailedEvent → Bool
is_unresolved none = false
is_unresolved (some f) = if f.is_resolved then false else true

-- The event is folded, or its failure is on record and not resolved.
abbrev pub IsSettled : String → Store → Type 0
IsSettled id st = IsFolded id st ⊎ (is_unresolved (lookup id st.failed_events) ≡ true)

-- It is settled, or the record of its failure could not be written.
abbrev pub IsHandled : Turn → String → Store → Type 0
IsHandled turn id st = IsSettled id st ⊎ (turn.records ≡ false)

record_quarantined_event_self :
    (ev : DecodedEvent) (e : FoldError) (st : Store)
    → is_unresolved (lookup ev.id (record_quarantined_event ev e st).failed_events) ≡ true
unfolding record_quarantined_event is_unresolved
record_quarantined_event_self ev e st = rw (lookup-put_self ev.id _ st.failed_events) (ground arith)

record_quarantined_event-keeps :
    (id : String) (ev : DecodedEvent) (e : FoldError) (st : Store)
    → is_unresolved (lookup id st.failed_events) ≡ true
    → is_unresolved (lookup id (record_quarantined_event ev e st).failed_events) ≡ true
record_quarantined_event-keeps id ev e st h = elim (==_cases id ev.id) [
  | inl (b, same) ↦ rw same (record_quarantined_event_self ev e st)
  | inr (b, other) ↦
      unfold record_quarantined_event in rw (lookup-put_ne id ev.id _ st.failed_events other) h
]

events-mark_folded :
    (id : String) (st : Store) → (mark_folded id st).failed_events ≡ st.failed_events
unfolding mark_folded
events-mark_folded id st = ground arith

failed_events-insert_raw_event :
    (ev : DecodedEvent) (st : Store) → (insert_raw_event ev st).failed_events ≡ st.failed_events
unfolding insert_raw_event
failed_events-insert_raw_event ev st = ground arith

fold_or_record_self :
    (turn : Turn) (ev : DecodedEvent) (st : Store)
    → lookup ev.id st.events ≢ none
    → IsHandled turn ev.id (fold_or_record turn.records ev st).0
unfolding fold_or_record
fold_or_record_self turn ev st there = elim (Option-cases (lookup ev.id st.events)) [
  | inl e ↦ absurd (there e)
  | inr (row, e) ↦ elim (Result-cases (apply_event ev st.derived)) [
    | inl (d, a) ↦
        rw (a, fold_or_record)
          (inl (inl (mark_folded_self ev.id row (record st { derived = d }) e)))
    | inr (x, a) ↦ elim (Bool-cases turn.records) [
      | inl r ↦ rw (a, r, fold_or_record) (inl (inr (record_quarantined_event_self ev x st)))
      | inr r ↦ inr r
    ]
  ]
]

fold_or_record-keeps :
    (records : Bool) (id : String) (ev : DecodedEvent) (st : Store)
    → IsSettled id st
    → IsSettled id (fold_or_record records ev st).0
unfolding fold_or_record
fold_or_record-keeps records id ev st (inl f) = elim (Result-cases (apply_event ev st.derived)) [
  | inl (d, a) ↦
      rw (a, fold_or_record) (inl (mark_folded-IsFolded id ev.id (record st { derived = d }) f))
  | inr (x, a) ↦
      rw (a, fold_or_record)
        (if_elim (IsSettled id) records (λ r. inl (unfold record_quarantined_event in f))
          (λ r. inl f))
]
fold_or_record-keeps records id ev st (inr u) = elim (Result-cases (apply_event ev st.derived)) [
  | inl (d, a) ↦
      rw (a, fold_or_record) (inr (rw (events-mark_folded ev.id (record st { derived = d })) u))
  | inr (x, a) ↦
      rw (a, fold_or_record)
        (if_elim (IsSettled id) records (λ r. inr (record_quarantined_event-keeps id ev x st u))
          (λ r. inr u))
]

insert_raw_event-keeps :
    (id : String) (ev : DecodedEvent) (st : Store)
    → IsSettled id st
    → IsSettled id (insert_raw_event ev st)
insert_raw_event-keeps id ev st (inl f) = inl (insert_raw_event-IsFolded id ev st f)
insert_raw_event-keeps id ev st (inr u) = inr (rw (failed_events-insert_raw_event ev st) u)

-- One event's turn in the quarantine mode, with the lock free and no rewind, never throws.
pub record Settles (turn : Turn) (ev : DecodedEvent) (st : Store)
    (r : Result IngestError Pending × Store) : Type 0 where
  pub sent : Pending
  pub returns : r.0 ≡ ok sent
  pub is_settled : IsHandled turn ev.id r.1
  pub keeps : (id : String) → IsSettled id st → IsSettled id r.1

ingest_event_quarantined-Settles :
    (turn : Turn) (last_ledger : ℕ) (ev : DecodedEvent) (st : Store)
    → turn.lock ≡ true
    → is_rewind last_ledger ev ≡ false
    → Settles turn ev st (ingest_event_quarantined turn last_ledger ev st)
unfolding ingest_event_quarantined
ingest_event_quarantined-Settles turn last_ledger ev st free order =
    rw (order, free)
      (elim (Bool-cases (needs_fold (lookup ev.id st.events))) [
        | inl new ↦ rw new (record {
          sent = (fold_or_record turn.records ev (insert_raw_event ev st)).1;
          returns = refl;
          is_settled =
              fold_or_record_self turn ev (insert_raw_event ev st) (lookup-insert_raw_event ev st);
          keeps = λ id s.
              fold_or_record-keeps turn.records id ev (insert_raw_event ev st)
                (insert_raw_event-keeps id ev st s);
        })
        | inr old ↦ rw old (record {
          sent = [];
          returns = refl;
          is_settled = inl (inl (insert_raw_event-IsFolded ev.id ev st old));
          keeps = λ id s. insert_raw_event-keeps id ev st s;
        })
      ])

IsHandled-mono :
    (turn : Turn) (id : String) (st st' : Store)
    → (IsSettled id st → IsSettled id st')
    → IsHandled turn id st
    → IsHandled turn id st'
IsHandled-mono turn id st st' keeps (inl s) = inl (keeps s)
IsHandled-mono turn id st st' keeps (inr r) = inr r

-- A page in the quarantine mode.
pub record SettlesAll (turns : DecodedEvent → Turn) (evs : List DecodedEvent) (st : Store)
    (r : Result IngestError Pending × Store) : Type 0 where
  pub sent : Pending
  pub returns : r.0 ≡ ok sent
  pub all_settled : All (λ (ev : DecodedEvent). IsHandled (turns ev) ev.id r.1) evs
  pub keeps : (id : String) → IsSettled id st → IsSettled id r.1

after_event-SettlesAll :
    (turns : DecodedEvent → Turn) (ev : DecodedEvent) (evs : List DecodedEvent) (st : Store)
    (first : Result IngestError Pending × Store) (k : Store → Result IngestError Pending × Store)
    → Settles (turns ev) ev st first
    → SettlesAll turns evs first.1 (k first.1)
    → SettlesAll turns (ev ∷ evs) st (after_event first k)
unfolding after_event
after_event-SettlesAll turns ev evs st (ok sent, mid) k one all = record {
  sent = sent ++ all.sent;
  returns = rw all.returns;
  all_settled = (
    IsHandled-mono (turns ev) ev.id mid (k mid).1 (all.keeps ev.id) one.is_settled,
    all.all_settled,
  );
  keeps = λ id s. all.keeps id (one.keeps id s);
}
after_event-SettlesAll turns ev evs st (err e, mid) k one all = absurd (cc one.returns)

-- In the quarantine mode, with the lock free and no event below the last folded ledger, the page
-- gets through: each of its events ends folded or on record as an unresolved failure, whatever the
-- handlers and the records of the others did, unless the insert of its own record fails; and so
-- stays every event that was so before.
pub quarantine-SettlesAll :
    (turns : DecodedEvent → Turn) (last_ledger : ℕ) (evs : List DecodedEvent) (st : Store)
    → All (λ ev. is_rewind last_ledger ev ≡ false) evs
    → All (λ ev. (turns ev).lock ≡ true) evs
    → SettlesAll turns evs st (ingest_events_quarantined turns last_ledger evs st)
unfolding ingest_events_quarantined
quarantine-SettlesAll turns last_ledger [] st order free = record {
  sent = [];
  returns = refl;
  all_settled = tt;
  keeps = λ id s. s;
}
quarantine-SettlesAll turns last_ledger (ev ∷ evs) st order free =
    after_event-SettlesAll turns ev evs st (ingest_event_quarantined (turns ev) last_ledger ev st)
      (ingest_events_quarantined turns last_ledger evs)
      (ingest_event_quarantined-Settles (turns ev) last_ledger ev st free.0 order.0)
      (quarantine-SettlesAll turns last_ledger evs
        (ingest_event_quarantined (turns ev) last_ledger ev st).1 order.1 free.1)
