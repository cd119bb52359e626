-- ===== src/Ingest/Progress.antt =====
-- indexer/poller.ts, ingestPageWithQuarantine: repeated attempts at a page that fails in a handler.
use ourdao_backend.Common.{
  ℕ, zero, suc, String, Bool, true, false, Option, none, some, List, [], ◌∷◌, ◌+◌, ◌≤◌, ◌<◌, ltb→lt,
  ltb-false, Result, ok, err, ltb, string_eq, ◌≡◌, refl, sym, subst, All, Bool-cases, Result-cases,
  inl, inr, ◌==◌, ==_refl, arith, ◌&&◌,
}
use ourdao_backend.Common.Table.{Table, put, lookup-put_self}
use ourdao_backend.Events.{DecodedEvent}
use ourdao_backend.Handlers.Require.{FoldError}
use ourdao_backend.Store.{IngestError, fold_failed, QuarantineState, QuarantineRow, Store}
use ourdao_backend.Ingest.{
  Turn, Pending, insert_raw_event, mark_folded, is_rewind, fold_new, fold_event, fold_events,
  ingest_page,
}
use ourdao_backend.Ingest.Isolation.{IsHandled, SettlesAll, quarantine-SettlesAll}
use ourdao_backend.Ingest.Quarantine.{
  States, page_key_for, same_error, same_error_refl, current_state, next_state, finish, escalate,
  after_failure, persist_quarantine_state, ingest_page_with_quarantine,
}

-- The same database but for the quarantine states.
abbrev with_states : Table String QuarantineRow → Store → Store
with_states q st = record st { quarantine_state = q }

abbrev map_store :
    (Store → Store) → Result IngestError (Store × Pending) → Result IngestError (Store × Pending)
map_store f (ok (st, sent)) = ok (f st, sent)
map_store f (err e) = err e

fold_event-with_states :
    (q : Table String QuarantineRow) (last_ledger : ℕ) (ev : DecodedEvent) (st : Store)
    → fold_event last_ledger ev (with_states q st)
      ≡ map_store (with_states q) (fold_event last_ledger ev st)
unfolding fold_event fold_new insert_raw_event mark_folded
fold_event-with_states q last_ledger ev st = ground arith

fold_events-with_states :
    (q : Table String QuarantineRow) (last_ledger : ℕ) (evs : List DecodedEvent) (st : Store)
    → fold_events last_ledger evs (with_states q st)
      ≡ map_store (with_states q) (fold_events last_ledger evs st)
unfolding fold_events
fold_events-with_states q last_ledger [] st = refl
fold_events-with_states q last_ledger (ev ∷ evs) st =
    rw (fold_event-with_states q last_ledger ev st)
      (elim (Result-cases (fold_event last_ledger ev st)) [
        | inl ((mid, sent), e) ↦ rw e (
            rw (fold_events-with_states q last_ledger evs mid)
              (elim (Result-cases (fold_events last_ledger evs mid)) [
                | inl ((end, rest), g) ↦ rw g refl
                | inr (x, g) ↦ rw g refl
              ]))
        | inr (x, e) ↦ rw e refl
      ])

-- An attempt at the whole page that fails, fails again where only quarantine states were written.
ingest_page-with_states :
    (lock : Bool) (last_ledger : ℕ) (evs : List DecodedEvent) (st : Store)
    (q : Table String QuarantineRow) {e : IngestError}
    → ingest_page lock last_ledger evs st ≡ (err e, st)
    → ingest_page lock last_ledger evs (with_states q st) ≡ (err e, with_states q st)
unfolding ingest_page
ingest_page-with_states lock last_ledger [] st q h = absurd (cc h)
ingest_page-with_states false last_ledger (ev ∷ evs) st q h = cc h
ingest_page-with_states true last_ledger (ev ∷ evs) st q h =
    rw (fold_events-with_states q last_ledger (ev ∷ evs) st)
      (elim (Result-cases (fold_events last_ledger (ev ∷ evs) st)) [
        | inl ((end, sent), g) ↦ (let p : (ok sent, end) ≡ (err _, st) = (rw g at h) in cc p)
        | inr (x, g) ↦ rw g (let p : (err x, st) ≡ (err _, st) = (rw g at h) in cc p)
      ])

-- A failed attempt below the limit: the error comes back, the count is one more, and only the
-- quarantine state was written.
pub failure_counts :
    (limit : ℕ) (lock : Bool) (turns : DecodedEvent → Turn) (last_ledger : ℕ) (contract_id : String)
    (evs : List DecodedEvent) (states : States) (st : Store) (x : FoldError)
    → ingest_page lock last_ledger evs st ≡ (err (fold_failed x), st)
    → let s = next_state (current_state contract_id states st) (page_key_for evs) (fold_failed x) in
      s.failures < limit
      → ingest_page_with_quarantine limit lock turns last_ledger contract_id evs states st ≡ (
        err (fold_failed x),
        put contract_id (some s) states,
        persist_quarantine_state contract_id (some s) false st,
      )
unfolding ingest_page_with_quarantine after_failure
failure_counts limit lock turns last_ledger contract_id evs states st x h below =
    rw h (ground arith)

-- The attempt that reaches the limit goes event by event.
limit_escalates :
    (limit : ℕ) (lock : Bool) (turns : DecodedEvent → Turn) (last_ledger : ℕ) (contract_id : String)
    (evs : List DecodedEvent) (states : States) (st : Store) (x : FoldError)
    → ingest_page lock last_ledger evs st ≡ (err (fold_failed x), st)
    → let s = next_state (current_state contract_id states st) (page_key_for evs) (fold_failed x) in
      limit ≤ s.failures
      → ingest_page_with_quarantine limit lock turns last_ledger contract_id evs states st
        ≡ escalate turns last_ledger contract_id evs s
            (put contract_id (some s) states)
            (persist_quarantine_state contract_id (some s) false st)
unfolding ingest_page_with_quarantine after_failure
limit_escalates limit lock turns last_ledger contract_id evs states st x h reached =
    rw h (ground arith)

-- The next failure of the same page with the same error counts one more.
next_state-again :
    (before : Option QuarantineState) (key : String) (e : IngestError)
    → next_state (some (next_state before key e)) key e
      ≡ record (next_state before key e) { failures = (next_state before key e).failures + 1 }
unfolding next_state
next_state-again none key e = rw (==_refl key, same_error_refl e) refl
next_state-again (some s) key e =
    elim (Bool-cases (s.page_key == key && same_error s.error_message e)) [
      | inl same ↦ rw same (rw same refl)
      | inr new ↦ rw new (rw (==_refl key, same_error_refl e) refl)
    ]

current_state-put :
    (contract_id : String) (s : QuarantineState) (states : States) (st : Store)
    → current_state contract_id (put contract_id (some s) states) st ≡ some s
unfolding current_state
current_state-put contract_id s states st =
    ground (arith, lookup-put_self contract_id (some s) states)

-- the outcome of an attempt, or of the next one where it threw
next_attempt :
    (States → Store → Result IngestError Pending × States × Store)
    → Result IngestError Pending × States × Store
    → Result IngestError Pending × States × Store
next_attempt again (ok sent, states, st) = (ok sent, states, st)
next_attempt again (err e, states, st) = again states st

-- The poll loop's attempts at one page, until one returns: at most `n + 1`.
unfoldable pub attempts :
    ℕ
    → (States → Store → Result IngestError Pending × States × Store)
    → States
    → Store
    → Result IngestError Pending × States × Store
unfolding next_attempt
attempts zero attempt states st = attempt states st
attempts (suc n) attempt states st = next_attempt (attempts n attempt) (attempt states st)

-- An attempt that returned, with every event of the page settled, or its record not written.
abbrev pub GetsThrough :
    (DecodedEvent → Turn) → List DecodedEvent → Result IngestError Pending × States × Store → Type 0
GetsThrough turns evs (r, states, st) =
    (sent : Pending) × (r ≡ ok sent)
    × All (λ (ev : DecodedEvent). IsHandled (turns ev) ev.id st) evs

finish-GetsThrough :
    (turns : DecodedEvent → Turn) (contract_id : String) (states : States) (evs : List DecodedEvent)
    (st : Store) (r : Result IngestError Pending × Store)
    → SettlesAll turns evs st r
    → GetsThrough turns evs (finish contract_id states r)
unfolding finish persist_quarantine_state
finish-GetsThrough turns contract_id states evs st (ok sent, st') s = (sent, refl, s.all_settled)
finish-GetsThrough turns contract_id states evs st (err e, st') s = absurd (cc s.returns)

next_attempt-stop :
    (turns : DecodedEvent → Turn)
    (again : States → Store → Result IngestError Pending × States × Store)
    (out : Result IngestError Pending × States × Store) (evs : List DecodedEvent)
    → GetsThrough turns evs out
    → GetsThrough turns evs (next_attempt again out)
unfolding next_attempt
next_attempt-stop turns again (ok sent, states, st) evs g = g
next_attempt-stop turns again (err e, states, st) evs (sent, p, settled) = absurd (cc p)

escalation-GetsThrough :
    (limit : ℕ) (lock : Bool) (turns : DecodedEvent → Turn) (last_ledger : ℕ) (contract_id : String)
    (evs : List DecodedEvent) (states : States) (st : Store) (x : FoldError)
    → ingest_page lock last_ledger evs st ≡ (err (fold_failed x), st)
    → All (λ ev. is_rewind last_ledger ev ≡ false) evs
    → All (λ ev. (turns ev).lock ≡ true) evs
    → limit
      ≤ (next_state
          (current_state contract_id states st)
          (page_key_for evs)
          (fold_failed x)).failures
    → GetsThrough turns evs
        (ingest_page_with_quarantine limit lock turns last_ledger contract_id evs states st)
escalation-GetsThrough limit lock turns last_ledger contract_id evs states st x h order free
      reached =
    rw (limit_escalates limit lock turns last_ledger contract_id evs states st x h reached) (
      unfold escalate in
      finish-GetsThrough turns contract_id _ evs _ _
        (quarantine-SettlesAll turns last_ledger evs _ order free))

-- A page that fails in one of its handlers as a whole gets through after as many attempts as are
-- left to the limit: each of its events is then folded or on record as an unresolved failure, or the
-- insert of its record failed. The
-- page has no event below the last folded ledger, and the lock is free when its events have their
-- turns.
pub failing_page-GetsThrough :
    (n limit : ℕ) (lock : Bool) (turns : DecodedEvent → Turn) (last_ledger : ℕ)
    (contract_id : String) (evs : List DecodedEvent) (states : States) (st : Store) (x : FoldError)
    → ingest_page lock last_ledger evs st ≡ (err (fold_failed x), st)
    → All (λ ev. is_rewind last_ledger ev ≡ false) evs
    → All (λ ev. (turns ev).lock ≡ true) evs
    → limit
      ≤ (next_state
          (current_state contract_id states st)
          (page_key_for evs)
          (fold_failed x)).failures
        + n
    → GetsThrough turns evs (
        attempts n
          (ingest_page_with_quarantine limit lock turns last_ledger contract_id evs)
          states
          st)
unfolding attempts
failing_page-GetsThrough zero limit lock turns last_ledger contract_id evs states st x h order free
      enough =
    escalation-GetsThrough limit lock turns last_ledger contract_id evs states st x h order free
      (omega arith)
failing_page-GetsThrough (suc n) limit lock turns last_ledger contract_id evs states st x h order
      free enough =
    let before = current_state contract_id states st in
    let s = next_state before (page_key_for evs) (fold_failed x) in
    elim (Bool-cases (ltb s.failures limit)) [
      | inl below ↦
          let failed =
            failure_counts limit lock turns last_ledger contract_id evs states st x h
              (ltb→lt s.failures limit below) in
          let rest =
            failing_page-GetsThrough n limit lock turns last_ledger contract_id evs
              (put contract_id (some s) states)
              (persist_quarantine_state contract_id (some s) false st) x
              (unfold persist_quarantine_state in
                ingest_page-with_states lock last_ledger evs st _ h)
              order free
              (rw
                (current_state-put contract_id s states
                  (persist_quarantine_state contract_id (some s) false st))
                (rw (next_state-again before (page_key_for evs) (fold_failed x)) (omega arith))) in
          subst
            (λ out. GetsThrough turns evs (
              next_attempt
                (attempts n
                  (ingest_page_with_quarantine limit lock turns last_ledger contract_id evs))
                out))
            (sym failed) rest
      | inr reached ↦
          next_attempt-stop turns _
            (ingest_page_with_quarantine limit lock turns last_ledger contract_id evs states st) evs
            (escalation-GetsThrough limit lock turns last_ledger contract_id evs states st x h order
              free (ltb-false s.failures limit reached))
    ]
