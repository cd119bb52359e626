-- ===== src/Polling/Cursors.antt =====
-- indexer/poller.ts: the cursors while a page is ingested.
use ourdao_backend.Common.{
  ℕ, String, Bool, true, false, Option, List, [], ◌∷◌, Result, ok, err, ◌≡◌, refl, ◌∙◌, Bool-cases,
  Result-cases, inl, inr, arith, ltb, string_eq, nat_eq,
}
use ourdao_backend.Events.{DecodedEvent}
use ourdao_backend.Store.{IngestError, QuarantineState, Store}
use ourdao_backend.Ingest.{
  Turn, Pending, insert_raw_event, mark_folded, fold_new, fold_event, fold_events, fold_or_record,
  record_quarantined_event, ingest_page, ingest_event_quarantined, ingest_events_quarantined,
  after_event, commit_or_rollback,
}
use ourdao_backend.Ingest.Quarantine.{
  States, persist_quarantine_state, finish, escalate, after_failure, after_page, is_reorg,
  next_state, page_key_for, ingest_page_with_quarantine,
}

-- The same cursors.
abbrev pub SameCursors : Store → Store → Type 0
SameCursors st st' = st'.indexer_cursor ≡ st.indexer_cursor

fold_event-SameCursors :
    (last_ledger : ℕ) (ev : DecodedEvent) (st : Store) {st' : Store} {sent : Pending}
    → fold_event last_ledger ev st ≡ ok (st', sent)
    → SameCursors st st'
unfolding fold_event fold_new insert_raw_event mark_folded
fold_event-SameCursors last_ledger ev st h = ground arith

fold_events-SameCursors :
    (last_ledger : ℕ) (evs : List DecodedEvent) (st : Store) {st' : Store} {sent : Pending}
    → fold_events last_ledger evs st ≡ ok (st', sent)
    → SameCursors st st'
unfolding fold_events
fold_events-SameCursors last_ledger [] st h = ground arith
fold_events-SameCursors last_ledger (ev ∷ evs) st h =
    elim (Result-cases (fold_event last_ledger ev st)) [
      | inl ((mid, sent), e) ↦ elim (Result-cases (fold_events last_ledger evs mid)) [
        | inl ((end, rest), g) ↦
            let one = fold_event-SameCursors last_ledger ev st e in
            let all = fold_events-SameCursors last_ledger evs mid g in ground arith
        | inr (x, g) ↦ ground arith
      ]
      | inr (x, e) ↦ ground arith
    ]

ingest_page-SameCursors :
    (lock : Bool) (last_ledger : ℕ) (evs : List DecodedEvent) (st : Store)
    → SameCursors st (ingest_page lock last_ledger evs st).1
unfolding ingest_page commit_or_rollback
ingest_page-SameCursors lock last_ledger [] st = refl
ingest_page-SameCursors false last_ledger (ev ∷ evs) st = refl
ingest_page-SameCursors true last_ledger (ev ∷ evs) st =
    elim (Result-cases (fold_events last_ledger (ev ∷ evs) st)) [
      | inl ((end, sent), e) ↦ rw e (fold_events-SameCursors last_ledger (ev ∷ evs) st e)
      | inr (x, e) ↦ rw e refl
    ]

event_quarantined-SameCursors :
    (turn : Turn) (last_ledger : ℕ) (ev : DecodedEvent) (st : Store)
    → SameCursors st (ingest_event_quarantined turn last_ledger ev st).1
unfolding ingest_event_quarantined fold_or_record insert_raw_event mark_folded
    record_quarantined_event
event_quarantined-SameCursors turn last_ledger ev st = ground arith

after_event-SameCursors :
    (st : Store) (r : Result IngestError Pending × Store)
    (k : Store → Result IngestError Pending × Store)
    → SameCursors st r.1
    → SameCursors r.1 (k r.1).1
    → SameCursors st (after_event r k).1
unfolding after_event
after_event-SameCursors st (ok sent, mid) k one all = all ∙ one
after_event-SameCursors st (err e, mid) k one all = one

events_quarantined-SameCursors :
    (turns : DecodedEvent → Turn) (last_ledger : ℕ) (evs : List DecodedEvent) (st : Store)
    → SameCursors st (ingest_events_quarantined turns last_ledger evs st).1
unfolding ingest_events_quarantined
events_quarantined-SameCursors turns last_ledger [] st = refl
events_quarantined-SameCursors turns last_ledger (ev ∷ evs) st =
    after_event-SameCursors st (ingest_event_quarantined (turns ev) last_ledger ev st) _
      (event_quarantined-SameCursors (turns ev) last_ledger ev st)
      (events_quarantined-SameCursors turns last_ledger evs _)

finish-SameCursors :
    (contract_id : String) (states : States) (r : Result IngestError Pending × Store)
    → SameCursors r.1 (finish contract_id states r).2
unfolding finish persist_quarantine_state
finish-SameCursors contract_id states (ok sent, st) = refl
finish-SameCursors contract_id states (err e, st) = refl

escalate-SameCursors :
    (turns : DecodedEvent → Turn) (last_ledger : ℕ) (contract_id : String) (evs : List DecodedEvent)
    (q : QuarantineState) (states : States) (st : Store)
    → SameCursors st (escalate turns last_ledger contract_id evs q states st).2
unfolding escalate persist_quarantine_state
escalate-SameCursors turns last_ledger contract_id evs q states st =
    finish-SameCursors contract_id states _ ∙ events_quarantined-SameCursors turns last_ledger evs _

after_page-SameCursors :
    (limit : ℕ) (turns : DecodedEvent → Turn) (last_ledger : ℕ) (contract_id : String)
    (evs : List DecodedEvent) (before : Option QuarantineState) (states : States)
    (r : Result IngestError Pending × Store)
    → SameCursors r.1 (after_page limit turns last_ledger contract_id evs before states r).2
unfolding after_page after_failure persist_quarantine_state
after_page-SameCursors limit turns last_ledger contract_id evs before states (ok sent, st) =
    finish-SameCursors contract_id states (ok sent, st)
after_page-SameCursors limit turns last_ledger contract_id evs before states (err e, st) =
    let s = next_state before (page_key_for evs) e in
    elim (Bool-cases (is_reorg e)) [
      | inl g ↦ rw g refl
      | inr g ↦ elim (Bool-cases (ltb s.failures limit)) [
        | inl b ↦ rw (g, b) refl
        | inr b ↦ rw (g, b) (escalate-SameCursors turns last_ledger contract_id evs s _ _)
      ]
    ]

pub page-SameCursors :
    (limit : ℕ) (lock : Bool) (turns : DecodedEvent → Turn) (last_ledger : ℕ) (contract_id : String)
    (evs : List DecodedEvent) (states : States) (st : Store)
    → SameCursors st
        (ingest_page_with_quarantine limit lock turns last_ledger contract_id evs states st).2
unfolding ingest_page_with_quarantine
page-SameCursors limit lock turns last_ledger contract_id evs states st =
    after_page-SameCursors limit turns last_ledger contract_id evs _ states _
    ∙ ingest_page-SameCursors lock last_ledger evs st
