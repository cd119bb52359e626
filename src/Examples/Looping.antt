-- ===== src/Examples/Looping.antt =====
-- Rounds of the poll loop.
use ourdao_backend.Common.{
  String, true, false, none, some, [], ◌∷◌, ◌≡◌, refl, err, string_eq, nat_eq,
}
use ourdao_backend.Common.Table.{lookup}
use ourdao_backend.Store.{ReorgHalt, Store}
use ourdao_backend.Polling.{PollError, Outside, fetch_once, start_poll, is_rewound}
use ourdao_backend.Startup.{start_indexer, reorg_halted}
use ourdao_backend.Running.{
  RunConfig, RunState, Visit, Round, start_run, all_due, or_else_zero, due_at, is_discontinuity,
  unless_halted, after_poll, poll_contract, poll_contracts, run_rounds,
}
use ourdao_backend.Running.Halting.{run_rounds-StaysHalted}
use ourdao_backend.Examples.Data.{empty_store}

abbrev config : RunConfig
config = record {
  poll = record {
    page_limit = 2;
    max_drain_pages = 5;
    quarantine_after_failures = 3;
    start_ledger = 1;
    start_lookback_ledgers = 0;
  };
  poll_interval_ms = 5000;
  max_backoff_ms = 60000;
}

-- an RPC whose chain ends long before the last folded ledger
abbrev rewound : Outside
rewound = record {
  tip = 5;
  latest_ledger = 5;
  ledger_hash = λ n ledger. none;
  get_events = λ n request. none;
  aborted = λ n. false;
  time_exhausted = λ n. false;
  lock = λ n. true;
  turns = λ n ev. record { lock = true; records = true };
}

abbrev folded : Store
folded = record empty_store {
  indexer_cursor =
      (
        "CONTRACT",
        record {
          last_ledger = 100;
          last_ledger_hash = none;
          paging_token = none;
          observed_tip_ledger = 0;
        },
      )
      ∷ [];
}

abbrev visit : Visit
visit = record { aborted = false; outside = rewound; finished_at = 1500; records_halt = true }

abbrev round : Round
round = record { aborted = false; now = 1000; visit = λ id. visit }

abbrev detail : PollError → String
detail e = "discontinuity"

unfoldable halted : RunState
unfolding start_run
halted =
    (run_rounds config detail ("CONTRACT" ∷ []) (round ∷ [])
      (start_run ("CONTRACT" ∷ []) [] folded)).1

ended :
    run_rounds config detail ("CONTRACT" ∷ []) (round ∷ []) (start_run ("CONTRACT" ∷ []) [] folded)
    ≡ (some ("CONTRACT", PollError.chain_rewound), halted)
unfolding halted start_run all_due or_else_zero due_at is_discontinuity unless_halted after_poll
    poll_contract poll_contracts run_rounds fetch_once start_poll is_rewound lookup
ended = refl

run_rounds-StaysHalted_example :
    (is_discontinuity PollError.chain_rewound ≡ true)
    × ((h : ReorgHalt) × (h.contract_id ≡ "CONTRACT")
        × (h.detail ≡ "discontinuity")
        × (start_indexer ("CONTRACT" ∷ []) false true halted.store
            ≡ (err (reorg_halted h), halted.store)))
run_rounds-StaysHalted_example =
    run_rounds-StaysHalted config detail ("CONTRACT" ∷ []) (round ∷ [])
      (start_run ("CONTRACT" ∷ []) [] folded) ("CONTRACT" ∷ []) false true ((λ id. refl), tt) ended
