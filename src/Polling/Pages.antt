-- ===== src/Polling/Pages.antt =====
-- indexer/poller.ts, ingestPageWithQuarantine: the events of a page that got through.
use ourdao_backend.Common.{
  ℕ, String, Bool, true, false, Option, some, List, [], ◌∷◌, Result, ok, err, ◌≡◌, refl, ap, subst,
  All, Bool-cases, Result-cases, inl, inr, arith, ltb, string_eq,
}
use ourdao_backend.Common.Table.{put}
use ourdao_backend.Events.{DecodedEvent}
use ourdao_backend.Store.{IngestError, QuarantineState, Store}
use ourdao_backend.Ingest.{
  Turn, Pending, is_rewind, ingest_page, ingest_event_quarantined, ingest_events_quarantined,
  after_event,
}
use ourdao_backend.Ingest.Once.{IsFolded, ingest_page-FoldsAll}
use ourdao_backend.Ingest.Isolation.{IsHandled, quarantine-SettlesAll}
use ourdao_backend.Ingest.Quarantine.{
  States, current_state, next_state, page_key_for, persist_quarantine_state, finish, escalate,
  is_reorg, after_failure, after_page, ingest_page_with_quarantine,
}

-- No event of the page lies below the last folded ledger.
abbrev pub IsAhead : ℕ → List DecodedEvent → Type 0
IsAhead last_ledger evs = All (λ ev. is_rewind last_ledger ev ≡ false) evs

event_quarantined-ok :
    (turn : Turn) (last_ledger : ℕ) (ev : DecodedEvent) (st : Store) {sent : Pending} {st' : Store}
    → ingest_event_quarantined turn last_ledger ev st ≡ (ok sent, st')
    → (is_rewind last_ledger ev ≡ false) × (turn.lock ≡ true)
unfolding ingest_event_quarantined
event_quarantined-ok turn last_ledger ev st h = ground arith

after_event-ok :
    (r : Result IngestError Pending × Store) (k : Store → Result IngestError Pending × Store)
    {sent : Pending} {st' : Store}
    → after_event r k ≡ (ok sent, st')
    → (first : Pending) × (mid : Store) × (rest : Pending) × (r ≡ (ok first, mid))
      × (k mid ≡ (ok rest, st'))
unfolding after_event
after_event-ok (err e, mid) k h = absurd (cc h)
after_event-ok (ok first, mid) k {sent} {st'} h = elim (Result-cases (k mid).0) [
  | inl (rest, e) ↦ (
    first,
    mid,
    rest,
    refl,
    (let same : (k mid).1 ≡ st' = ap (λ (p : Result IngestError Pending × Store). p.1) h in
        let both : (k mid) ≡ ((k mid).0, (k mid).1) = refl in cc (both, e, same)),
  )
  | inr (x, e) ↦
      (let p : err x ≡ ok sent =
          (rw e at (ap (λ (p : Result IngestError Pending × Store). p.0) h)) in
        absurd (cc p))
]

-- A page that got through in the quarantine mode had no rewound event, and the lock at each.
events_quarantined-ok :
    (turns : DecodedEvent → Turn) (last_ledger : ℕ) (evs : List DecodedEvent) (st : Store)
    {sent : Pending} {st' : Store}
    → ingest_events_quarantined turns last_ledger evs st ≡ (ok sent, st')
    → IsAhead last_ledger evs × All (λ ev. (turns ev).lock ≡ true) evs
unfolding ingest_events_quarantined
events_quarantined-ok turns last_ledger [] st h = (tt, tt)
events_quarantined-ok turns last_ledger (ev ∷ evs) st h =
    let (first, mid, rest, one, more) =
      after_event-ok (ingest_event_quarantined (turns ev) last_ledger ev st)
        (ingest_events_quarantined turns last_ledger evs) h in
    let (order, lock) = event_quarantined-ok (turns ev) last_ledger ev st one in
    let (ahead, free) = events_quarantined-ok turns last_ledger evs mid more in
    ((order, ahead), (lock, free))

-- What a page that got through has done.
pub record IsThrough (turns : DecodedEvent → Turn) (last_ledger : ℕ) (evs : List DecodedEvent)
    (st : Store) : Type 0 where
  pub is_ahead : IsAhead last_ledger evs
  pub all_settled : All (λ (ev : DecodedEvent). IsHandled (turns ev) ev.id st) evs

events_quarantined-IsThrough :
    (turns : DecodedEvent → Turn) (last_ledger : ℕ) (evs : List DecodedEvent) (st : Store)
    {sent : Pending} {st' : Store}
    → ingest_events_quarantined turns last_ledger evs st ≡ (ok sent, st')
    → IsThrough turns last_ledger evs st'
events_quarantined-IsThrough turns last_ledger evs st h =
    let (ahead, free) = events_quarantined-ok turns last_ledger evs st h in
    let through = quarantine-SettlesAll turns last_ledger evs st ahead free in
    record {
      is_ahead = ahead;
      all_settled =
          subst (λ s. All (λ (ev : DecodedEvent). IsHandled (turns ev) ev.id s) evs)
            (ap (λ (p : Result IngestError Pending × Store). p.1) h) through.all_settled;
    }

All-IsHandled :
    (turns : DecodedEvent → Turn) (evs : List DecodedEvent) (st : Store)
    → All (λ (ev : DecodedEvent). IsFolded ev.id st) evs
    → All (λ (ev : DecodedEvent). IsHandled (turns ev) ev.id st) evs
All-IsHandled turns [] st f = tt
All-IsHandled turns (ev ∷ evs) st f = (inl (inl f.0), All-IsHandled turns evs st f.1)

finish-IsThrough :
    (turns : DecodedEvent → Turn) (contract_id : String) (last_ledger : ℕ) (evs : List DecodedEvent)
    (states : States) (r : Result IngestError Pending × Store) {sent : Pending} {states' : States}
    {st' : Store}
    → ((s : Pending) → r ≡ (ok s, r.1) → IsThrough turns last_ledger evs r.1)
    → finish contract_id states r ≡ (ok sent, states', st')
    → IsThrough turns last_ledger evs st'
unfolding finish persist_quarantine_state
finish-IsThrough turns contract_id last_ledger evs states (ok s, mid) through h =
    let t = through s refl in
    subst (IsThrough turns last_ledger evs)
      (ap (λ (p : Result IngestError Pending × States × Store). p.2) h)
      (record { is_ahead = t.is_ahead; all_settled = t.all_settled })
finish-IsThrough turns contract_id last_ledger evs states (err e, mid) through h = absurd (cc h)

escalate-IsThrough :
    (turns : DecodedEvent → Turn) (last_ledger : ℕ) (contract_id : String) (evs : List DecodedEvent)
    (q : QuarantineState) (states : States) (st : Store) {sent : Pending} {states' : States}
    {st' : Store}
    → escalate turns last_ledger contract_id evs q states st ≡ (ok sent, states', st')
    → IsThrough turns last_ledger evs st'
unfolding escalate
escalate-IsThrough turns last_ledger contract_id evs q states st h =
    finish-IsThrough turns contract_id last_ledger evs states
      (ingest_events_quarantined turns last_ledger evs
        (persist_quarantine_state contract_id (some q) true st))
      (λ sent e. events_quarantined-IsThrough turns last_ledger evs _ e) h

after_failure-IsThrough :
    (limit : ℕ) (turns : DecodedEvent → Turn) (last_ledger : ℕ) (contract_id : String)
    (evs : List DecodedEvent) (e : IngestError) (before : Option QuarantineState) (states : States)
    (st : Store) {sent : Pending} {states' : States} {st' : Store}
    → after_failure limit turns last_ledger contract_id evs e before states st
      ≡ (ok sent, states', st')
    → IsThrough turns last_ledger evs st'
unfolding after_failure
after_failure-IsThrough limit turns last_ledger contract_id evs e before states st {sent} {states'}
      {st'} h =
    let s = next_state before (page_key_for evs) e in
    let q = put contract_id (some s) states in
    let kept = persist_quarantine_state contract_id (some s) false st in
    elim (Bool-cases (is_reorg e)) [
      | inl g ↦
          (let p : (err e, put contract_id before states, st) ≡ (ok sent, states', st') =
              (rw g at h) in
            absurd (cc p))
      | inr g ↦ elim (Bool-cases (ltb s.failures limit)) [
        | inl b ↦
            (let p : (err e, q, kept) ≡ (ok sent, states', st') = (rw (g, b) at h) in absurd (cc p))
        | inr b ↦
            let p : escalate turns last_ledger contract_id evs s q kept ≡ (ok sent, states', st') =
              (rw (g, b) at h) in
            escalate-IsThrough turns last_ledger contract_id evs s q kept p
      ]
    ]

after_page-IsThrough :
    (limit : ℕ) (turns : DecodedEvent → Turn) (last_ledger : ℕ) (contract_id : String)
    (evs : List DecodedEvent) (before : Option QuarantineState) (states : States)
    (r : Result IngestError Pending × Store) {sent : Pending} {states' : States} {st' : Store}
    → ((s : Pending) → r ≡ (ok s, r.1) → IsThrough turns last_ledger evs r.1)
    → after_page limit turns last_ledger contract_id evs before states r ≡ (ok sent, states', st')
    → IsThrough turns last_ledger evs st'
unfolding after_page
after_page-IsThrough limit turns last_ledger contract_id evs before states (ok s, st) through h =
    finish-IsThrough turns contract_id last_ledger evs states (ok s, st) through h
after_page-IsThrough limit turns last_ledger contract_id evs before states (err e, st) through h =
    after_failure-IsThrough limit turns last_ledger contract_id evs e before states st h

-- A page that got through, as a whole or in the quarantine mode, had no event below the last folded
-- ledger, and each of its events is folded or on record as an unresolved failure, or the insert of
-- its record failed.
pub page-IsThrough :
    (limit : ℕ) (lock : Bool) (turns : DecodedEvent → Turn) (last_ledger : ℕ) (contract_id : String)
    (evs : List DecodedEvent) (states : States) (st : Store) {sent : Pending} {states' : States}
    {st' : Store}
    → ingest_page_with_quarantine limit lock turns last_ledger contract_id evs states st
      ≡ (ok sent, states', st')
    → IsThrough turns last_ledger evs st'
unfolding ingest_page_with_quarantine
page-IsThrough limit lock turns last_ledger contract_id evs states st h =
    after_page-IsThrough limit turns last_ledger contract_id evs
      (current_state contract_id states st) states (ingest_page lock last_ledger evs st)
      (λ sent e.
        let all = ingest_page-FoldsAll lock last_ledger evs st e in
        record {
          is_ahead = all.in_order;
          all_settled =
              All-IsHandled turns evs (ingest_page lock last_ledger evs st).1 all.all_folded;
        })
      h
