-- ===== src/Ingest/Once.antt =====
-- indexer/poller.ts, ingestPage: the marks on the events of a page, and repeated deliveries.
use ourdao_backend.Common.{
  ℕ, String, Bool, true, false, none, some, List, [], ◌∷◌, ◌++◌, Result, ok, err, ◌>>=◌, string_eq,
  ◌≡◌, ◌≢◌, ◌⊎◌, refl, subst, All, Option-cases, Result-cases, inl, inr, ==_cases, arith, >>=-eq-ok,
}
use ourdao_backend.Common.Table.{lookup, lookup-put_self, lookup-put_ne}
use ourdao_backend.Events.{DecodedEvent}
use ourdao_backend.Handlers.{apply_event}
use ourdao_backend.Store.{EventRow, IngestError, Store}
use ourdao_backend.Ingest.{
  Pending, needs_fold, insert_raw_event, mark_folded, is_rewind, fold_new, fold_event, fold_events,
  commit_or_rollback, ingest_page,
}

-- The event with this id is in the log and marked as folded.
abbrev pub IsFolded : String → Store → Type 0
IsFolded id st = needs_fold (lookup id st.events) ≡ false

abbrev raw_row : DecodedEvent → EventRow
raw_row ev = record { event = ev; folded = false }

pub insert_raw_event-IsFolded :
    (id : String) (ev : DecodedEvent) (st : Store)
    → IsFolded id st
    → IsFolded id (insert_raw_event ev st)
unfolding insert_raw_event needs_fold
insert_raw_event-IsFolded id ev st h =
    ground (arith, ==_cases id ev.id, lookup-put_ne id ev.id (raw_row ev) st.events)

pub mark_folded-IsFolded :
    (id id' : String) (st : Store) → IsFolded id st → IsFolded id (mark_folded id' st)
unfolding mark_folded needs_fold
mark_folded-IsFolded id id' st h = elim (Option-cases (lookup id' st.events)) [
  | inl e ↦ ground arith
  | inr (row, e) ↦ ground (
    arith,
    ==_cases id id',
    lookup-put_ne id id' (record row { folded = true }) st.events,
    lookup-put_self id' (record row { folded = true }) st.events,
  )
]

pub mark_folded_self :
    (id : String) (row : EventRow) (st : Store)
    → lookup id st.events ≡ some row
    → IsFolded id (mark_folded id st)
unfolding mark_folded needs_fold
mark_folded_self id row st e =
    ground (arith, lookup-put_self id (record row { folded = true }) st.events)

pub lookup-insert_raw_event :
    (ev : DecodedEvent) (st : Store) → lookup ev.id (insert_raw_event ev st).events ≢ none
unfolding insert_raw_event
lookup-insert_raw_event ev st = ground (arith, lookup-put_self ev.id (raw_row ev) st.events)

pub insert_raw_event-folded :
    (ev : DecodedEvent) (st : Store) → IsFolded ev.id st → insert_raw_event ev st ≡ st
unfolding insert_raw_event needs_fold
insert_raw_event-folded ev st h = ground arith

-- a fold that returns has marked its event, and unmarked none
fold_new_self :
    (ev : DecodedEvent) (st : Store) {st' : Store}
    → lookup ev.id st.events ≢ none
    → fold_new ev st ≡ ok st'
    → IsFolded ev.id st'
unfolding fold_new
fold_new_self ev st {st'} there h = elim (Option-cases (lookup ev.id st.events)) [
  | inl e ↦ absurd (there e)
  | inr (row, e) ↦ elim (Result-cases (apply_event ev st.derived)) [
    | inl (d, a) ↦
        let marked = mark_folded_self ev.id row (record st { derived = d }) e in ground arith
    | inr (x, a) ↦ ground arith
  ]
]

fold_new-IsFolded :
    (id : String) (ev : DecodedEvent) (st : Store) {st' : Store}
    → fold_new ev st ≡ ok st'
    → IsFolded id st
    → IsFolded id st'
unfolding fold_new
fold_new-IsFolded id ev st {st'} h f = elim (Result-cases (apply_event ev st.derived)) [
  | inl (d, a) ↦
      let kept = mark_folded-IsFolded id ev.id (record st { derived = d }) f in ground arith
  | inr (x, a) ↦ ground arith
]

-- One round of a page's loop that returns: the event was no rewind, it is folded now, and what was
-- folded before still is.
pub record Folds (last_ledger : ℕ) (ev : DecodedEvent) (st st' : Store) : Type 0 where
  pub in_order : is_rewind last_ledger ev ≡ false
  pub is_folded : IsFolded ev.id st'
  pub keeps : (id : String) → IsFolded id st → IsFolded id st'

pub fold_event_cases :
    (last_ledger : ℕ) (ev : DecodedEvent) (st : Store) {st' : Store} {sent : Pending}
    → fold_event last_ledger ev st ≡ ok (st', sent)
    → (is_rewind last_ledger ev ≡ false)
      × ((needs_fold (lookup ev.id st.events) ≡ true)
            × (fold_new ev (insert_raw_event ev st) ≡ ok st')
          ⊎ IsFolded ev.id st × (st' ≡ st))
unfolding fold_event
fold_event_cases last_ledger ev st h = ground (arith, insert_raw_event-folded ev st)

pub fold_event-Folds :
    (last_ledger : ℕ) (ev : DecodedEvent) (st : Store) {st' : Store} {sent : Pending}
    → fold_event last_ledger ev st ≡ ok (st', sent)
    → Folds last_ledger ev st st'
fold_event-Folds last_ledger ev st {st'} h =
    let (order, how) = fold_event_cases last_ledger ev st h in
    elim how [
      | inl (_, new) ↦ record {
        in_order = order;
        is_folded = fold_new_self ev (insert_raw_event ev st) (lookup-insert_raw_event ev st) new;
        keeps = λ id f.
            fold_new-IsFolded id ev (insert_raw_event ev st) new
              (insert_raw_event-IsFolded id ev st f);
      }
      | inr (old, same) ↦ rw same (record { in_order = order; is_folded = old; keeps = λ id f. f })
    ]

pub fold_event-idle :
    (last_ledger : ℕ) (ev : DecodedEvent) (st : Store)
    → is_rewind last_ledger ev ≡ false
    → IsFolded ev.id st
    → fold_event last_ledger ev st ≡ ok (st, [])
unfolding fold_event
fold_event-idle last_ledger ev st order f = rw order (rw f (rw (insert_raw_event-folded ev st f)))

-- What a page's loop that returns has done.
pub record FoldsAll (last_ledger : ℕ) (evs : List DecodedEvent) (st st' : Store) : Type 0 where
  pub in_order : All (λ ev. is_rewind last_ledger ev ≡ false) evs
  pub all_folded : All (λ (ev : DecodedEvent). IsFolded ev.id st') evs
  pub keeps : (id : String) → IsFolded id st → IsFolded id st'

pub fold_events-FoldsAll :
    (last_ledger : ℕ) (evs : List DecodedEvent) (st : Store) {st' : Store} {sent : Pending}
    → fold_events last_ledger evs st ≡ ok (st', sent)
    → FoldsAll last_ledger evs st st'
unfolding fold_events
fold_events-FoldsAll last_ledger [] st {st'} h =
    let same : st ≡ st' = cc h in
    record { in_order = tt; all_folded = tt; keeps = λ id f. rw (← same) f }
fold_events-FoldsAll last_ledger (ev ∷ evs) st {st'} h =
    let (mid, first, more) =
      >>=-eq-ok (fold_event last_ledger ev st)
        (λ (p : Store × Pending).
          fold_events last_ledger evs p.0 >>= λ (q : Store × Pending). ok (q.0, p.1 ++ q.1))
        h in
    let (end, rest, same) =
      >>=-eq-ok (fold_events last_ledger evs mid.0)
        (λ (q : Store × Pending). ok (q.0, mid.1 ++ q.1)) more in
    let one = fold_event-Folds last_ledger ev st first in
    let all = fold_events-FoldsAll last_ledger evs mid.0 rest in
    let last : end.0 ≡ st' = cc same in
    subst (FoldsAll last_ledger (ev ∷ evs) st) last (record {
      in_order = (one.in_order, all.in_order);
      all_folded = (all.keeps ev.id one.is_folded, all.all_folded);
      keeps = λ id f. all.keeps id (one.keeps id f);
    })

pub fold_events-idle :
    (last_ledger : ℕ) (evs : List DecodedEvent) (st : Store)
    → All (λ ev. is_rewind last_ledger ev ≡ false) evs
    → All (λ (ev : DecodedEvent). IsFolded ev.id st) evs
    → fold_events last_ledger evs st ≡ ok (st, [])
unfolding fold_events
fold_events-idle last_ledger [] st order f = refl
fold_events-idle last_ledger (ev ∷ evs) st order f =
    rw (fold_event-idle last_ledger ev st order.0 f.0)
      (rw (fold_events-idle last_ledger evs st order.1 f.1))

pub committed :
    (st : Store) (r : Result IngestError (Store × Pending)) {sent : Pending} {st' : Store}
    → commit_or_rollback st r ≡ (ok sent, st')
    → r ≡ ok (st', sent)
unfolding commit_or_rollback
committed st (ok (a, b)) h = cc h
committed st (err e) h = cc h

-- A page that was ingested is folded event by event, and only events at or above the last folded
-- ledger were.
pub ingest_page-FoldsAll :
    (lock : Bool) (last_ledger : ℕ) (evs : List DecodedEvent) (st : Store) {st' : Store}
    {sent : Pending}
    → ingest_page lock last_ledger evs st ≡ (ok sent, st')
    → FoldsAll last_ledger evs st st'
unfolding ingest_page
ingest_page-FoldsAll lock last_ledger [] st {st'} h =
    let same : st ≡ st' = cc h in
    record { in_order = tt; all_folded = tt; keeps = λ id f. rw (← same) f }
ingest_page-FoldsAll true last_ledger (ev ∷ evs) st h =
    fold_events-FoldsAll last_ledger (ev ∷ evs) st (committed st _ h)
ingest_page-FoldsAll false last_ledger (ev ∷ evs) st h = absurd (cc h)

-- A page that was ingested once changes nothing, and notifies nobody, when it is delivered again,
-- with the lock free.
pub ingest_page-again :
    (lock : Bool) (last_ledger : ℕ) (evs : List DecodedEvent) (st : Store) {st' : Store}
    {sent : Pending}
    → ingest_page lock last_ledger evs st ≡ (ok sent, st')
    → ingest_page true last_ledger evs st' ≡ (ok [], st')
unfolding ingest_page commit_or_rollback
ingest_page-again lock last_ledger [] st h = refl
ingest_page-again lock last_ledger (ev ∷ evs) st {st'} h =
    let done = ingest_page-FoldsAll lock last_ledger (ev ∷ evs) st h in
    rw (fold_events-idle last_ledger (ev ∷ evs) st' done.in_order done.all_folded)
