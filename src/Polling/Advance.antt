-- ===== src/Polling/Advance.antt =====
-- indexer/poller.ts, fetchOnce: the saved ledger over a whole poll.
use ourdao_backend.Common.{
  ℕ, zero, suc, String, Bool, true, false, Option, none, some, List, [], ◌∷◌, ◌≤◌, Result, ok, err,
  ◌≡◌, refl, sym, ap, ◌∙◌, Bool-cases, inl, inr, arith, if◌then◌else◌, string_eq, nat_eq, not, ◌&&◌,
  ◌-◌,
}
use ourdao_backend.Common.Table.{lookup, lookup-put_self}
use ourdao_backend.Events.{DecodedEvent}
use ourdao_backend.Store.{Cursor, IngestError, Store}
use ourdao_backend.Ingest.{Turn, Pending, is_rewind}
use ourdao_backend.Ingest.Quarantine.{States, ingest_page_with_quarantine}
use ourdao_backend.Polling.{
  PollConfig, Outside, Response, Drain, Polled, saved_ledger, folded_ledger, cursor_after,
  has_moved, save_cursor, advance, after_ingest, after_answer, drain_page, drain, is_full,
  is_rewound, is_diverged, start_poll, start_drain, fetch_once,
}
use ourdao_backend.Polling.Pages.{IsAhead, page-IsThrough}
use ourdao_backend.Polling.Cursors.{page-SameCursors}

-- the ledger that the cursor of a contract says was folded last; 0 where there is no cursor
abbrev pub ledger_of : String → Store → ℕ
ledger_of contract_id st = saved_ledger (lookup contract_id st.indexer_cursor)

is_rewind-false :
    (last_ledger : ℕ) (ev : DecodedEvent)
    → is_rewind last_ledger ev ≡ false
    → last_ledger ≤ ev.ledger
unfolding is_rewind
is_rewind-false last_ledger ev h = ground arith

-- a page with no rewound event ends at or above the last folded ledger
le-folded_ledger :
    (last_ledger : ℕ) (evs : List DecodedEvent)
    → IsAhead last_ledger evs
    → last_ledger ≤ folded_ledger last_ledger evs
unfolding folded_ledger
le-folded_ledger last_ledger [] h = omega arith
le-folded_ledger last_ledger (ev ∷ []) h = is_rewind-false last_ledger ev h.0
le-folded_ledger last_ledger (ev ∷ x ∷ evs) h = le-folded_ledger last_ledger (x ∷ evs) h.1

-- The cursor that is saved and the loop's own last ledger agree, and lie at or above a bound.
record IsAt (contract_id : String) (bound : ℕ) (d : Drain) (st : Store) : Type 0 where
  same : ledger_of contract_id st ≡ d.last_ledger
  above : bound ≤ d.last_ledger

advance-IsAt :
    (contract_id : String) (cursor : Option Cursor) (out : Outside) (n : ℕ) (d : Drain)
    (res : Response) (bound : ℕ) (st : Store)
    → IsAt contract_id bound d st
    → d.last_ledger ≤ folded_ledger d.last_ledger res.events
    → let (d', st') = advance contract_id cursor out n d res st in IsAt contract_id bound d' st'
unfolding advance save_cursor cursor_after
advance-IsAt contract_id cursor out n d res bound st at up =
    elim (Bool-cases (has_moved cursor d (cursor_after out n d res))) [
      | inl e ↦ rw e (record {
        same =
            ap saved_ledger
              (lookup-put_self contract_id (cursor_after out n d res) st.indexer_cursor);
        above = omega (arith, at.above, up);
      })
      | inr e ↦ rw e (record { same = at.same; above = at.above })
    ]

-- What a poll leaves.
abbrev IsAbove : String → ℕ → Polled → Type 0
IsAbove contract_id bound (e, states, st) = bound ≤ ledger_of contract_id st

IsAt-above :
    (contract_id : String) (bound : ℕ) (d : Drain) (st : Store)
    → IsAt contract_id bound d st
    → bound ≤ ledger_of contract_id st
IsAt-above contract_id bound d st at = rw at.same at.above

page_ok-IsAhead :
    (limit : ℕ) (lock : Bool) (turns : DecodedEvent → Turn) (last_ledger : ℕ) (contract_id : String)
    (evs : List DecodedEvent) (states : States) (st : Store)
    (r : Result IngestError Pending × States × Store) {sent : Pending}
    → ingest_page_with_quarantine limit lock turns last_ledger contract_id evs states st ≡ r
    → r.0 ≡ ok sent
    → IsAhead last_ledger evs
page_ok-IsAhead limit lock turns last_ledger contract_id evs states st (ok s, q, st') h e =
    (page-IsThrough limit lock turns last_ledger contract_id evs states st h).is_ahead
page_ok-IsAhead limit lock turns last_ledger contract_id evs states st (err x, q, st') h e =
    absurd (cc e)

last_ledger-start_drain :
    (config : PollConfig) (out : Outside) (cursor : Option Cursor)
    → (start_drain config out cursor).last_ledger ≡ saved_ledger cursor
unfolding start_drain
last_ledger-start_drain config out none = refl
last_ledger-start_drain config out (some c) = refl

-- the rest of a poll, from where the loop stands
abbrev Continues : String → ℕ → (Drain → States → Store → Polled) → Type 0
Continues contract_id bound again =
    (d : Drain) (states : States) (st : Store)
    → IsAt contract_id bound d st
    → IsAbove contract_id bound (again d states st)

stop_or_again-IsAbove :
    (contract_id : String) (bound : ℕ) (goes_on : Bool) (again : Drain → States → Store → Polled)
    (d : Drain) (states : States) (st : Store)
    → Continues contract_id bound again
    → IsAt contract_id bound d st
    → IsAbove contract_id bound (if goes_on then again d states st else (none, states, st))
stop_or_again-IsAbove contract_id bound true again d states st go at = go d states st at
stop_or_again-IsAbove contract_id bound false again d states st go at =
    IsAt-above contract_id bound d st at

after_ingest-IsAbove :
    (config : PollConfig) (contract_id : String) (cursor : Option Cursor) (out : Outside) (n : ℕ)
    (again : Drain → States → Store → Polled) (d : Drain) (res : Response) (bound : ℕ)
    (r : Result IngestError Pending × States × Store)
    → Continues contract_id bound again
    → IsAt contract_id bound d r.2
    → ((sent : Pending) → r.0 ≡ ok sent → d.last_ledger ≤ folded_ledger d.last_ledger res.events)
    → IsAbove contract_id bound (after_ingest config contract_id cursor out n again d res r)
unfolding after_ingest
after_ingest-IsAbove config contract_id cursor out n again d res bound (err e, states, st) go at
      up =
    IsAt-above contract_id bound d st at
after_ingest-IsAbove config contract_id cursor out n again d res bound (ok sent, states, st) go at
      up =
    stop_or_again-IsAbove contract_id bound (is_full config res && not (out.time_exhausted n)) again
      (advance contract_id cursor out n d res st).0 states
      (advance contract_id cursor out n d res st).1 go
      (advance-IsAt contract_id cursor out n d res bound st at (up sent refl))

after_answer-IsAbove :
    (config : PollConfig) (contract_id : String) (cursor : Option Cursor) (out : Outside) (n : ℕ)
    (again : Drain → States → Store → Polled) (d : Drain) (answer : Option Response) (bound : ℕ)
    (states : States) (st : Store)
    → Continues contract_id bound again
    → IsAt contract_id bound d st
    → IsAbove contract_id bound
        (after_answer config contract_id cursor out n again d answer states st)
unfolding after_answer
after_answer-IsAbove config contract_id cursor out n again d none bound states st go at =
    IsAt-above contract_id bound d st at
after_answer-IsAbove config contract_id cursor out n again d (some res) bound states st go at =
    let limit = config.quarantine_after_failures in
    let kept =
      page-SameCursors limit (out.lock n) (out.turns n) d.last_ledger contract_id res.events states
        st in
    after_ingest-IsAbove config contract_id cursor out n again d res bound _ go
      (record {
        same = ap (λ t. saved_ledger (lookup contract_id t)) kept ∙ at.same;
        above = at.above;
      })
      (λ sent e. le-folded_ledger d.last_ledger res.events (
        page_ok-IsAhead limit (out.lock n) (out.turns n) d.last_ledger contract_id res.events states
          st _ refl e))

drain_page-IsAbove :
    (config : PollConfig) (contract_id : String) (cursor : Option Cursor) (out : Outside) (n : ℕ)
    (again : Drain → States → Store → Polled) (bound : ℕ)
    → Continues contract_id bound again
    → Continues contract_id bound (drain_page config contract_id cursor out n again)
unfolding drain_page
drain_page-IsAbove config contract_id cursor out n again bound go d states st at =
    elim (Bool-cases (out.aborted n)) [
      | inl e ↦ rw e (IsAt-above contract_id bound d st at)
      | inr e ↦ rw e (
          after_answer-IsAbove config contract_id cursor out n again d (out.get_events n d.request)
            bound states st go at)
    ]

drain-IsAbove :
    (config : PollConfig) (contract_id : String) (cursor : Option Cursor) (out : Outside)
    (left n : ℕ) (bound : ℕ)
    → Continues contract_id bound (drain config contract_id cursor out left n)
unfolding drain
drain-IsAbove config contract_id cursor out zero n bound =
    drain_page-IsAbove config contract_id cursor out n (λ d states st. (none, states, st)) bound
      (λ d states st at. IsAt-above contract_id bound d st at)
drain-IsAbove config contract_id cursor out (suc left) n bound =
    drain_page-IsAbove config contract_id cursor out n _ bound
      (drain-IsAbove config contract_id cursor out left (suc n) bound)

start_poll-IsAbove :
    (config : PollConfig) (contract_id : String) (out : Outside) (cursor : Option Cursor)
    (states : States) (st : Store)
    → lookup contract_id st.indexer_cursor ≡ cursor
    → IsAbove contract_id (saved_ledger cursor) (start_poll config contract_id out cursor states st)
unfolding start_poll
start_poll-IsAbove config contract_id out cursor states st e =
    let here : ledger_of contract_id st ≡ saved_ledger cursor = ap saved_ledger e in
    elim (Bool-cases (is_rewound cursor out.tip)) [
      | inl g ↦ rw g (omega (arith, here))
      | inr g ↦ rw g (elim (Bool-cases (is_diverged cursor (out.ledger_hash 0))) [
        | inl f ↦ rw f (omega (arith, here))
        | inr f ↦ rw f (
            drain-IsAbove config contract_id cursor out (config.max_drain_pages - 1) 0
              (saved_ledger cursor) (start_drain config out cursor) states st
              (record {
                same = here ∙ sym (last_ledger-start_drain config out cursor);
                above = rw (last_ledger-start_drain config out cursor) (omega arith);
              }))
      ])
    ]

-- A poll never moves the saved ledger of its contract back, whatever the RPC answers, wherever a
-- page fails and whenever the poll is stopped.
pub fetch_once-advances :
    (config : PollConfig) (contract_id : String) (out : Outside) (states : States) (st : Store)
    → ledger_of contract_id st
      ≤ ledger_of contract_id (fetch_once config contract_id out states st).2
unfolding fetch_once
fetch_once-advances config contract_id out states st =
    start_poll-IsAbove config contract_id out (lookup contract_id st.indexer_cursor) states st refl
