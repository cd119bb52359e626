-- ===== src/Recovery/LiveFold.antt =====
-- indexer/reindex.ts and indexer/poller.ts: folding live, page by page, and rebuilding from the log.
use ourdao_backend.Common.{
  ℕ, String, Bool, true, false, none, some, List, [], ◌∷◌, ◌++◌, ok, ◌>>=◌, ◌==◌, string_eq, nat_eq,
  ◌≡◌, ◌≢◌, refl, ap, ◌∙◌, subst, All, Bool-cases, Option-cases, Result-cases, >>=-eq-ok, inl, inr,
  arith, ==_cases,
}
use ourdao_backend.Common.Table.{Table, lookup, put, lookup-put_self, lookup-put_ne}
use ourdao_backend.Events.{DecodedEvent}
use ourdao_backend.Derived.{Derived}
use ourdao_backend.Handlers.{apply_event}
use ourdao_backend.Store.{EventRow, Store}
use ourdao_backend.Ingest.{
  Pending, needs_fold, insert_raw_event, mark_folded, fold_new, fold_event, fold_events,
  ingest_page,
}
use ourdao_backend.Ingest.Once.{fold_event_cases, committed}
use ourdao_backend.Recovery.{empty_derived, to_decoded_event, log_of, fold_all}

abbrev fresh_row : DecodedEvent → EventRow
fresh_row ev = record { event = ev; folded = false }

-- Reading the event back from the log gives the event: it was decoded without an error.
abbrev pub IsDecoded : DecodedEvent → Type 0
IsDecoded ev = to_decoded_event (fresh_row ev) ≡ ev

log_of-put_new :
    (id : String) (row : EventRow) (t : Table String EventRow)
    → lookup id t ≡ none
    → log_of (put id row t) ≡ log_of t ++ to_decoded_event row ∷ []
unfolding log_of put lookup
log_of-put_new id row [] h = refl
log_of-put_new id row ((j, w) ∷ t) h = elim (Bool-cases (j == id)) [
  | inl g ↦ (let p : some w ≡ none = (rw g at h) in absurd (cc p))
  | inr g ↦
      (let p : lookup id t ≡ none = (rw g at h) in
        rw g (ap (λ l. to_decoded_event w ∷ l) (log_of-put_new id row t p)))
]

log_of-put_old :
    (id : String) (row old : EventRow) (t : Table String EventRow)
    → lookup id t ≡ some old
    → to_decoded_event row ≡ to_decoded_event old
    → log_of (put id row t) ≡ log_of t
unfolding log_of put lookup
log_of-put_old id row old [] h same = absurd (cc h)
log_of-put_old id row old ((j, w) ∷ t) h same = elim (Bool-cases (j == id)) [
  | inl g ↦ rw g (
      let p : some w ≡ some old = (rw g at h) in
      let q : w ≡ old = cc p in cc (same, ap to_decoded_event q))
  | inr g ↦
      (let p : lookup id t ≡ some old = (rw g at h) in
        rw g (ap (λ l. to_decoded_event w ∷ l) (log_of-put_old id row old t p same)))
]

fold_all-append :
    (xs ys : List DecodedEvent) (db : Derived)
    → fold_all (xs ++ ys) db ≡ (fold_all xs db >>= fold_all ys)
unfolding fold_all
fold_all-append [] ys db = refl
fold_all-append (x ∷ xs) ys db = elim (Result-cases (apply_event x db)) [
  | inl (mid, e) ↦ rw e (fold_all-append xs ys mid)
  | inr (x', e) ↦ rw e refl
]

-- Every event of the log is marked as folded, and folding the log in the order of its rows from
-- empty tables gives the derived tables.
pub record IsReplay (st : Store) : Type 0 where
  pub all_folded :
      (id : String) → lookup id st.events ≢ none → needs_fold (lookup id st.events) ≡ false
  pub replays : fold_all (log_of st.events) empty_derived ≡ ok st.derived

-- the table after a new event is inserted and marked
abbrev marked : DecodedEvent → Table String EventRow → Table String EventRow
marked ev t = put ev.id (record { event = ev; folded = true }) (put ev.id (fresh_row ev) t)

fold_new-marked :
    (ev : DecodedEvent) (st : Store) {st' : Store}
    → lookup ev.id st.events ≡ none
    → fold_new ev (insert_raw_event ev st) ≡ ok st'
    → (apply_event ev st.derived ≡ ok st'.derived) × (st'.events ≡ marked ev st.events)
unfolding fold_new insert_raw_event mark_folded
fold_new-marked ev st h e = ground (arith, lookup-put_self ev.id (fresh_row ev) st.events)

lookup-marked :
    (ev : DecodedEvent) (t : Table String EventRow) (id : String)
    → ((id : String) → lookup id t ≢ none → needs_fold (lookup id t) ≡ false)
    → lookup id (marked ev t) ≢ none
    → needs_fold (lookup id (marked ev t)) ≡ false
lookup-marked ev t id all h = elim (==_cases id ev.id) [
  | inl (b, same) ↦
      rw
        (
          same,
          lookup-put_self ev.id (record { event = ev; folded = true }) (put ev.id (fresh_row ev) t),
        )
        (unfold needs_fold in refl)
  | inr (b, other) ↦
      let here : lookup id (marked ev t) ≡ lookup id t =
        lookup-put_ne id ev.id (record { event = ev; folded = true }) (put ev.id (fresh_row ev) t)
          other
        ∙ lookup-put_ne id ev.id (fresh_row ev) t other in
      rw here (all id (λ p. h (here ∙ p)))
]

log_of-marked :
    (ev : DecodedEvent) (t : Table String EventRow)
    → IsDecoded ev
    → lookup ev.id t ≡ none
    → log_of (marked ev t) ≡ log_of t ++ ev ∷ []
log_of-marked ev t d h =
    log_of-put_old ev.id (record { event = ev; folded = true }) (fresh_row ev)
      (put ev.id (fresh_row ev) t) (lookup-put_self ev.id (fresh_row ev) t)
      (unfold to_decoded_event in refl)
    ∙ log_of-put_new ev.id (fresh_row ev) t h
    ∙ ap (λ e. log_of t ++ e ∷ []) d

fold_new-IsReplay :
    (ev : DecodedEvent) (st : Store) {st' : Store}
    → IsDecoded ev
    → IsReplay st
    → lookup ev.id st.events ≡ none
    → fold_new ev (insert_raw_event ev st) ≡ ok st'
    → IsReplay st'
fold_new-IsReplay ev st {st'} d r h e =
    let (applied, written) = fold_new-marked ev st h e in
    record {
      all_folded = λ id there.
          rw written (lookup-marked ev st.events id r.all_folded (λ p. there (rw written p)));
      replays =
          rw (written, log_of-marked ev st.events d h)
            (rw (fold_all-append (log_of st.events) (ev ∷ []) empty_derived)
              (rw r.replays (unfold fold_all in rw applied refl)));
    }

fold_event-IsReplay :
    (last_ledger : ℕ) (ev : DecodedEvent) (st : Store) {st' : Store} {sent : Pending}
    → IsDecoded ev
    → IsReplay st
    → fold_event last_ledger ev st ≡ ok (st', sent)
    → IsReplay st'
fold_event-IsReplay last_ledger ev st {st'} d r h =
    let (order, how) = fold_event_cases last_ledger ev st h in
    elim how [
      | inl (new, done) ↦ elim (Option-cases (lookup ev.id st.events)) [
        | inl e ↦ fold_new-IsReplay ev st d r e done
        | inr (row, e) ↦ absurd (cc (new, r.all_folded ev.id (λ p. cc (e, p))))
      ]
      | inr (old, same) ↦ rw same r
    ]

fold_events-IsReplay :
    (last_ledger : ℕ) (evs : List DecodedEvent) (st : Store) {st' : Store} {sent : Pending}
    → All IsDecoded evs
    → IsReplay st
    → fold_events last_ledger evs st ≡ ok (st', sent)
    → IsReplay st'
unfolding fold_events
fold_events-IsReplay last_ledger [] st {st'} d r h = let same : st ≡ st' = cc h in rw (← same) r
fold_events-IsReplay last_ledger (ev ∷ evs) st {st'} d r h =
    let (mid, first, more) =
      >>=-eq-ok (fold_event last_ledger ev st)
        (λ (p : Store × Pending).
          fold_events last_ledger evs p.0 >>= λ (q : Store × Pending). ok (q.0, p.1 ++ q.1))
        h in
    let (end, rest, same) =
      >>=-eq-ok (fold_events last_ledger evs mid.0)
        (λ (q : Store × Pending). ok (q.0, mid.1 ++ q.1)) more in
    let last : end.0 ≡ st' = cc same in
    subst IsReplay last (
      fold_events-IsReplay last_ledger evs mid.0 d.1
        (fold_event-IsReplay last_ledger ev st d.0 r first) rest)

-- A page of well decoded events that is ingested keeps this true of the database: every event of
-- the log is folded, and folding the log from empty tables gives the derived tables.
pub ingest_page-IsReplay :
    (lock : Bool) (last_ledger : ℕ) (evs : List DecodedEvent) (st : Store) {st' : Store}
    {sent : Pending}
    → All IsDecoded evs
    → IsReplay st
    → ingest_page lock last_ledger evs st ≡ (ok sent, st')
    → IsReplay st'
unfolding ingest_page
ingest_page-IsReplay lock last_ledger [] st {st'} d r h =
    let same : st ≡ st' = cc h in rw (← same) r
ingest_page-IsReplay true last_ledger (ev ∷ evs) st d r h =
    fold_events-IsReplay last_ledger (ev ∷ evs) st d r (committed st _ h)
ingest_page-IsReplay false last_ledger (ev ∷ evs) st d r h = absurd (cc h)
