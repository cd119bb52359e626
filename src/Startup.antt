-- ===== src/Startup.antt =====
-- indexer/poller.ts, the start of runIndexer: the halt that a ledger discontinuity leaves, and the
-- check of the saved cursors against the configured contracts; indexer/clear-reorg.ts. That a second
-- start of the same process is refused, and the audit log, are left out. Writes succeed, but for the
-- record of a halt.
pub mod Halts
pub mod Contracts
use ourdao_backend.Common.{
  ℕ, String, Bool, true, false, not, Option, none, some, List, [], ◌∷◌, ◌+◌, ◌++◌, any, Result, ok,
  err, if◌then◌else◌, ◌==◌, string_eq,
}
use ourdao_backend.Common.Table.{Table, lookup}
use ourdao_backend.Store.{Cursor, ReorgHalt, Store}
use ourdao_backend.Recovery.{empty_derived, clear_reorg_halts}

pub data StartError : Type 0 where
  reorg_halted : ReorgHalt → StartError
  stale_contracts : List String → StartError
  reset_locked : StartError

abbrev pub Started : Type 0
Started = Result StartError (Unit {0}) × Store

halt_of : String → String → Option Cursor → ReorgHalt
halt_of contract_id detail none = record {
  contract_id = contract_id;
  last_ledger = none;
  last_ledger_hash = none;
  detail = detail;
  cleared_by = none;
}
halt_of contract_id detail (some c) = record {
  contract_id = contract_id;
  last_ledger = some c.last_ledger;
  last_ledger_hash = c.last_ledger_hash;
  detail = detail;
  cleared_by = none;
}

abbrev with_halt : ReorgHalt → Store → Store
with_halt h st = record st { reorg_halts = st.reorg_halts ++ h ∷ [] }

-- `recordReorgHalt`: `records` says whether its statements succeed. A failure is logged and swallowed.
unfoldable pub record_reorg_halt : Bool → String → String → Store → Store
unfolding halt_of
record_reorg_halt records contract_id detail st =
    if records
    then with_halt (halt_of contract_id detail (lookup contract_id st.indexer_cursor)) st
    else st

is_cleared : ReorgHalt → Bool
is_cleared h = elim (h.cleared_by) [ none ↦ false | some by ↦ true ]

-- `WHERE cleared_at IS NULL ORDER BY id DESC LIMIT 1`: the last row that is not cleared
unfoldable pub last_uncleared : List ReorgHalt → Option ReorgHalt
unfolding is_cleared
last_uncleared [] = none
last_uncleared (h ∷ hs) = elim (last_uncleared hs) [
  | some later ↦ some later
  | none ↦ if is_cleared h then none else some h
]

-- `loadUnclearedReorgHalt`
unfoldable pub load_uncleared_reorg_halt : Store → Option ReorgHalt
unfolding last_uncleared
load_uncleared_reorg_halt st = last_uncleared st.reorg_halts

count_uncleared : List ReorgHalt → ℕ
count_uncleared [] = 0
count_uncleared (h ∷ hs) = let rest = count_uncleared hs in if is_cleared h then rest else rest + 1

clear_found : String → Option ReorgHalt → Store → (Option ReorgHalt × ℕ) × Store
unfolding count_uncleared is_cleared
clear_found by none st = ((none, 0), st)
clear_found by (some h) st = (
  (some h, count_uncleared st.reorg_halts),
  record st { reorg_halts = clear_reorg_halts by st.reorg_halts },
)

-- `clearRecordedReorg`: the halt, and how many rows were cleared
unfoldable pub clear_recorded_reorg : String → Store → (Option ReorgHalt × ℕ) × Store
unfolding clear_found
clear_recorded_reorg by st = clear_found by (load_uncleared_reorg_halt st) st

-- `resetForContractChange`: the derived tables and every cursor are wiped
unfoldable pub reset_for_contract_change : Bool → Store → Started
reset_for_contract_change lock st =
    if lock
    then (ok tt, record st { derived = empty_derived; indexer_cursor = [] })
    else (err reset_locked, st)

-- `!configured.has(contract_id)`, for the rows of `indexer_cursor`
unfoldable pub stale_of : List String → Table String Cursor → List String
stale_of configured [] = []
stale_of configured ((id, c) ∷ t) =
    let rest = stale_of configured t in if any (λ k. k == id) configured then rest else id ∷ rest

refuse_or_reset : Bool → Bool → List String → Store → Started
refuse_or_reset resets lock [] st = (ok tt, st)
refuse_or_reset resets lock (id ∷ ids) st =
    if resets then reset_for_contract_change lock st else (err (stale_contracts (id ∷ ids)), st)

-- `ensureCursorContract`; `resets` is INDEXER_RESET_ON_CONTRACT_CHANGE
unfoldable pub ensure_cursor_contract : List String → Bool → Bool → Store → Started
unfolding refuse_or_reset
ensure_cursor_contract configured resets lock st =
    refuse_or_reset resets lock (stale_of configured st.indexer_cursor) st

start_or_refuse : List String → Bool → Bool → Option ReorgHalt → Store → Started
start_or_refuse configured resets lock (some h) st = (err (reorg_halted h), st)
start_or_refuse configured resets lock none st = ensure_cursor_contract configured resets lock st

-- `runIndexer`, up to the loop
unfoldable pub start_indexer : List String → Bool → Bool → Store → Started
unfolding start_or_refuse
start_indexer configured resets lock st =
    start_or_refuse configured resets lock (load_uncleared_reorg_halt st) st
