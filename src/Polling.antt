-- ===== src/Polling.antt =====
-- indexer/poller.ts, fetchOnce: one poll of a contract, page by page. What the RPC answers, the lock,
-- the clock and the signal to stop are given by the caller, page by page, since they change while the
-- pages are drained. Writes of the cursor succeed.
pub mod Pages
pub mod Cursors
pub mod Advance
pub mod Checks
use ourdao_backend.Common.{
  ℕ, zero, suc, String, Bool, true, false, ◌&&◌, ◌||◌, not, Option, none, some, List, [], ◌∷◌, ◌+◌,
  ◌-◌, max, Result, ok, err, ltb, leb, if◌then◌else◌, ◌==◌, string_eq, nat_eq, length, get_last?,
}
use ourdao_backend.Common.Table.{Table, lookup, put}
use ourdao_backend.Events.{DecodedEvent}
use ourdao_backend.Store.{Cursor, IngestError, Store}
use ourdao_backend.Ingest.{Turn, Pending}
use ourdao_backend.Ingest.Quarantine.{States, ingest_page_with_quarantine}

-- `config.indexer`: a start ledger of 0 is none
pub record PollConfig : Type 0 where
  pub page_limit : ℕ
  pub max_drain_pages : ℕ
  pub quarantine_after_failures : ℕ
  pub start_ledger : ℕ
  pub start_lookback_ledgers : ℕ

-- where `getEvents` starts: at a token, or at a ledger
pub data Request : Type 0 where
  from_token : Option String → Request
  from_ledger : ℕ → Request

pub record Response : Type 0 where
  pub events : List DecodedEvent
  pub token : Option String
  pub latest_ledger : Option ℕ

-- What lies outside, by the number of pages that were drained before; `get_events` gives none where
-- the RPC throws.
pub record Outside : Type 0 where
  pub tip : ℕ
  pub latest_ledger : ℕ
  pub ledger_hash : ℕ → ℕ → Option String
  pub get_events : ℕ → Request → Option Response
  pub aborted : ℕ → Bool
  pub time_exhausted : ℕ → Bool
  pub lock : ℕ → Bool
  pub turns : ℕ → DecodedEvent → Turn

pub data PollError : Type 0 where
  chain_rewound history_diverged rpc_failed : PollError
  page_failed : IngestError → PollError

abbrev pub grace_window : ℕ
grace_window = 10

abbrev pub saved_ledger : Option Cursor → ℕ
saved_ledger none = 0
saved_ledger (some c) = c.last_ledger

abbrev pub saved_tip : Option Cursor → ℕ
saved_tip none = 0
saved_tip (some c) = c.observed_tip_ledger

-- the RPC's tip lies below the last folded ledger, and not by a few ledgers of a delayed node
unfoldable pub is_rewound : Option Cursor → ℕ → Bool
is_rewound cursor tip =
    let prior = saved_ledger cursor in
    ltb 0 prior
    && ltb tip prior
    && not (
        ltb 0 (saved_tip cursor)
        && leb (prior - tip) grace_window
        && leb (prior - grace_window) tip)

unfoldable pub differs : Option String → Option String → Bool
differs (some actual) (some saved) = not (saved == "") && not (actual == saved)
differs _ _ = false

-- the hash of the last folded ledger is known on both sides, and not the same; an empty text counts as
-- none in the cursor
unfoldable pub is_diverged : Option Cursor → (ℕ → Option String) → Bool
unfolding differs
is_diverged none hash_of = false
is_diverged (some c) hash_of =
    ltb 0 c.last_ledger && differs (hash_of c.last_ledger) c.last_ledger_hash

unfoldable pub resolve_start_ledger : PollConfig → ℕ → ℕ
resolve_start_ledger config latest =
    if ltb 0 config.start_ledger
    then max 1 config.start_ledger
    else max 1 (latest - config.start_lookback_ledgers)

-- an empty token counts as none
first_request : PollConfig → ℕ → Option Cursor → Request
unfolding resolve_start_ledger
first_request config latest none = from_ledger (resolve_start_ledger config latest)
first_request config latest (some c) = elim (c.paging_token) [
  | none ↦ from_ledger (resolve_start_ledger config latest)
  | some t ↦
      if t == "" then from_ledger (resolve_start_ledger config latest) else from_token (some t)
]

or_else : Option String → Option String → Option String
or_else none b = b
or_else (some a) b = some a

request_token : Request → Option String
request_token (from_token t) = t
request_token (from_ledger n) = none

-- `last?.id ?? res.cursor ?? currentRequest.cursor ?? null`
unfoldable pub next_token : Request → Response → Option String
unfolding or_else request_token
next_token request res = elim (get_last? res.events) [
  | some ev ↦ some ev.id
  | none ↦ or_else res.token (request_token request)
]

-- `last?.ledger ?? lastLedger`
unfoldable pub folded_ledger : ℕ → List DecodedEvent → ℕ
folded_ledger last_ledger evs = elim (get_last? evs) [ some ev ↦ ev.ledger | none ↦ last_ledger ]

or_tip : Option ℕ → ℕ → ℕ
or_tip none tip = tip
or_tip (some n) tip = n

same_token : Option String → Option String → Bool
same_token none none = true
same_token (some a) (some b) = a == b
same_token _ _ = false

-- `nextToken !== cursor?.paging_token`, which holds where there is no cursor
token_moved : Option Cursor → Option String → Bool
unfolding same_token
token_moved none token = true
token_moved (some c) token = not (same_token token c.paging_token)

-- what the loop keeps between two pages
pub record Drain : Type 0 where
  pub request : Request
  pub last_ledger : ℕ
  pub last_ledger_hash : Option String
  pub observed_tip_ledger : ℕ

unfoldable pub save_cursor : String → Cursor → Store → Store
save_cursor contract_id c st = record st { indexer_cursor = put contract_id c st.indexer_cursor }

-- the cursor that a page leads to, and whether it is written
unfoldable pub cursor_after : Outside → ℕ → Drain → Response → Cursor
unfolding or_tip next_token
cursor_after out n d res =
    let ledger = folded_ledger d.last_ledger res.events in
    record {
      paging_token = next_token d.request res;
      last_ledger = ledger;
      last_ledger_hash =
          if ledger == d.last_ledger then d.last_ledger_hash else out.ledger_hash (suc n) ledger;
      observed_tip_ledger = or_tip res.latest_ledger d.observed_tip_ledger;
    }

unfoldable pub has_moved : Option Cursor → Drain → Cursor → Bool
unfolding token_moved
has_moved cursor d c =
    token_moved cursor c.paging_token
    || (not (c.last_ledger == d.last_ledger)
        || not (c.observed_tip_ledger == d.observed_tip_ledger))

unfoldable pub advance :
    String → Option Cursor → Outside → ℕ → Drain → Response → Store → Drain × Store
unfolding has_moved
advance contract_id cursor out n d res st =
    let c = cursor_after out n d res in
    if has_moved cursor d c
    then (
      record {
        request = from_token c.paging_token;
        last_ledger = c.last_ledger;
        last_ledger_hash = c.last_ledger_hash;
        observed_tip_ledger = c.observed_tip_ledger;
      },
      save_cursor contract_id c st,
    )
    else (record d { request = from_token c.paging_token }, st)

abbrev pub Polled : Type 0
Polled = Option PollError × States × Store

unfoldable pub is_full : PollConfig → Response → Bool
is_full config res = leb config.page_limit (length res.events)

-- after the page: the error, or the cursor and the next page
unfoldable pub after_ingest :
    PollConfig
    → String
    → Option Cursor
    → Outside
    → ℕ
    → (Drain → States → Store → Polled)
    → Drain
    → Response
    → Result IngestError Pending × States × Store
    → Polled
unfolding is_full
after_ingest config contract_id cursor out n again d res (err e, states, st) =
    (some (page_failed e), states, st)
after_ingest config contract_id cursor out n again d res (ok sent, states, st) =
    let (d', st') = advance contract_id cursor out n d res st in
    if is_full config res && not (out.time_exhausted n)
    then again d' states st'
    else (none, states, st')

unfoldable pub after_answer :
    PollConfig
    → String
    → Option Cursor
    → Outside
    → ℕ
    → (Drain → States → Store → Polled)
    → Drain
    → Option Response
    → States
    → Store
    → Polled
after_answer config contract_id cursor out n again d none states st = (some rpc_failed, states, st)
after_answer config contract_id cursor out n again d (some res) states st =
    after_ingest config contract_id cursor out n again d res (
      ingest_page_with_quarantine config.quarantine_after_failures (out.lock n) (out.turns n)
        d.last_ledger contract_id res.events states st)

-- one round of the loop; `again` is the rest of it
unfoldable pub drain_page :
    PollConfig
    → String
    → Option Cursor
    → Outside
    → ℕ
    → (Drain → States → Store → Polled)
    → Drain
    → States
    → Store
    → Polled
drain_page config contract_id cursor out n again d states st =
    if out.aborted n
    then (none, states, st)
    else after_answer config contract_id cursor out n again d (out.get_events n d.request) states st

-- The loop over the pages: `n` are drained, and `left` more may follow the one that is asked for.
unfoldable pub drain :
    PollConfig → String → Option Cursor → Outside → ℕ → ℕ → Drain → States → Store → Polled
drain config contract_id cursor out zero n d states st =
    drain_page config contract_id cursor out n (λ d' states' st'. (none, states', st')) d states st
drain config contract_id cursor out (suc left) n d states st =
    drain_page config contract_id cursor out n (drain config contract_id cursor out left (suc n)) d
      states st

unfoldable pub start_drain : PollConfig → Outside → Option Cursor → Drain
unfolding first_request
start_drain config out none = record {
  request = first_request config out.latest_ledger none;
  last_ledger = 0;
  last_ledger_hash = none;
  observed_tip_ledger = out.tip;
}
start_drain config out (some c) = record {
  request = first_request config out.latest_ledger (some c);
  last_ledger = c.last_ledger;
  last_ledger_hash = c.last_ledger_hash;
  observed_tip_ledger = c.observed_tip_ledger;
}

unfoldable pub start_poll : PollConfig → String → Outside → Option Cursor → States → Store → Polled
unfolding start_drain
start_poll config contract_id out cursor states st =
    if is_rewound cursor out.tip
    then (some chain_rewound, states, st)
    else if is_diverged cursor (out.ledger_hash 0)
    then (some history_diverged, states, st)
    else drain config contract_id cursor out (config.max_drain_pages - 1) 0
        (start_drain config out cursor) states st

-- `fetchOnce`: the error that it throws, if any, with what was written
unfoldable pub fetch_once : PollConfig → String → Outside → States → Store → Polled
fetch_once config contract_id out states st =
    start_poll config contract_id out (lookup contract_id st.indexer_cursor) states st
