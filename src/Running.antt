-- ===== src/Running.antt =====
-- indexer/poller.ts, the loop of runIndexer: when each contract is polled, and what a failed poll
-- changes. The clock, the signal to stop and what lies outside of a poll are given round by round.
-- The broadcast of a halt to the stream is the list of the ledgers that are sent.
pub mod Halting
use ourdao_backend.Common.{
  ℕ, String, Bool, true, false, Option, none, some, List, [], ◌∷◌, ◌++◌, ◌+◌, ◌*◌, ◌^◌, min, ltb,
  if◌then◌else◌, string_eq,
}
use ourdao_backend.Common.Table.{Table, lookup, put}
use ourdao_backend.Store.{Store}
use ourdao_backend.Ingest.Quarantine.{States, is_reorg}
use ourdao_backend.Polling.{PollConfig, PollError, Outside, Polled, fetch_once, saved_ledger}
use ourdao_backend.Startup.{record_reorg_halt}

-- `config.indexer`, for the loop
pub record RunConfig : Type 0 where
  pub poll : PollConfig
  pub poll_interval_ms : ℕ
  pub max_backoff_ms : ℕ

-- What the process keeps between polls, with the database.
pub record RunState : Type 0 where
  pub consecutive_failures : Table String ℕ
  pub next_poll_at : Table String ℕ
  pub states : States
  pub store : Store
  pub resyncs : List ℕ

-- one contract in a round: the signal to stop, what its poll meets, when the poll is over, and whether
-- the record of a discontinuity can be written
pub record Visit : Type 0 where
  pub aborted : Bool
  pub outside : Outside
  pub finished_at : ℕ
  pub records_halt : Bool

pub record Round : Type 0 where
  pub aborted : Bool
  pub now : ℕ
  pub visit : String → Visit

-- `new Map(contractIds.map((id) => [id, 0]))`
unfoldable pub all_due : List String → Table String ℕ
all_due [] = []
all_due (id ∷ ids) = (id, 0) ∷ all_due ids

unfoldable pub start_run : List String → States → Store → RunState
unfolding all_due
start_run contract_ids states st = record {
  consecutive_failures = [];
  next_poll_at = all_due contract_ids;
  states = states;
  store = st;
  resyncs = [];
}

unfoldable pub or_else_zero : Option ℕ → ℕ
or_else_zero none = 0
or_else_zero (some n) = n

-- `consecutiveFailures.get(contractId) ?? 0`
unfoldable pub failures_of : String → RunState → ℕ
unfolding or_else_zero
failures_of contract_id s = or_else_zero (lookup contract_id s.consecutive_failures)

-- `nextPollAt.get(contractId) ?? 0`
unfoldable pub due_at : String → RunState → ℕ
unfolding or_else_zero
due_at contract_id s = or_else_zero (lookup contract_id s.next_poll_at)

-- `err instanceof ReorgDetectedError`
unfoldable pub is_discontinuity : PollError → Bool
unfolding is_reorg
is_discontinuity PollError.chain_rewound = true
is_discontinuity PollError.history_diverged = true
is_discontinuity PollError.rpc_failed = false
is_discontinuity (PollError.page_failed e) = is_reorg e

unfoldable pub backoff_delay : RunConfig → ℕ → ℕ
backoff_delay config failures = min (config.poll_interval_ms * 2 ^ failures) config.max_backoff_ms

abbrev pub with_failures : String → ℕ → ℕ → RunState → RunState
with_failures contract_id failures due s = record s {
  consecutive_failures = put contract_id failures s.consecutive_failures;
  next_poll_at = put contract_id due s.next_poll_at;
}

-- a discontinuity: it is recorded, where that succeeds, and broadcast
unfoldable pub halt : Bool → (PollError → String) → String → PollError → RunState → RunState
halt records detail contract_id e s =
    let recorded = record_reorg_halt records contract_id (detail e) s.store in
    record s {
      store = recorded;
      resyncs = s.resyncs ++ saved_ledger (lookup contract_id recorded.indexer_cursor) ∷ [];
    }

-- The discontinuity that ends the loop, if any, and the state.
abbrev pub Ended : Type 0
Ended = Option (String × PollError) × RunState

unfoldable pub unless_halted : (RunState → Ended) → Ended → Ended
unless_halted next (some halted, s) = (some halted, s)
unless_halted next (none, s) = next s

module _ (config : RunConfig) (detail : PollError → String) where
  -- after `fetchOnce` returned or threw, with what it wrote; the discontinuity that ends the loop
  unfoldable pub after_poll : Bool → String → ℕ → Option PollError → RunState → Ended
  unfolding is_discontinuity backoff_delay failures_of halt
  after_poll records contract_id finished_at none s =
      (none, with_failures contract_id 0 (finished_at + config.poll_interval_ms) s)
  after_poll records contract_id finished_at (some e) s =
      if is_discontinuity e
      then (some (contract_id, e), halt records detail contract_id e s)
      else let failures = failures_of contract_id s + 1 in
        (none, with_failures contract_id failures (finished_at + backoff_delay config failures) s)

  unfoldable pub poll_contract : String → Visit → RunState → Ended
  unfolding after_poll fetch_once
  poll_contract contract_id visit s =
      let (thrown, states, st) =
        fetch_once config.poll contract_id visit.outside s.states s.store in
      after_poll visit.records_halt contract_id visit.finished_at thrown
        (record s { states = states; store = st })

  -- The contracts of a round that are due.
  unfoldable pub poll_contracts : Round → List String → RunState → Ended
  unfolding poll_contract due_at unless_halted
  poll_contracts round [] s = (none, s)
  poll_contracts round (contract_id ∷ rest) s =
      if (round.visit contract_id).aborted
      then (none, s)
      else if ltb round.now (due_at contract_id s)
      then poll_contracts round rest s
      else unless_halted (poll_contracts round rest)
          (poll_contract contract_id (round.visit contract_id) s)

  -- The rounds until the signal to stop, or until a discontinuity.
  unfoldable pub run_rounds : List String → List Round → RunState → Ended
  unfolding poll_contracts unless_halted
  run_rounds contract_ids [] s = (none, s)
  run_rounds contract_ids (round ∷ rounds) s =
      if round.aborted
      then (none, s)
      else unless_halted (run_rounds contract_ids rounds) (poll_contracts round contract_ids s)
