-- ===== src/Startup/Halts.antt =====
-- indexer/poller.ts and indexer/clear-reorg.ts: starts with a recorded discontinuity.
use ourdao_backend.Common.{
  String, Bool, true, Option, none, some, List, [], ◌∷◌, ◌++◌, err, ◌≡◌, refl, ap, Option-cases,
  inl, inr, arith, string_eq,
}
use ourdao_backend.Common.Table.{lookup}
use ourdao_backend.Store.{Cursor, ReorgHalt, Store}
use ourdao_backend.Recovery.{clear_reorg_halts}
use ourdao_backend.Startup.{
  reorg_halted, halt_of, record_reorg_halt, last_uncleared, load_uncleared_reorg_halt, clear_found,
  clear_recorded_reorg, start_or_refuse, ensure_cursor_contract, start_indexer,
}

last_uncleared-append :
    (hs : List ReorgHalt) (h : ReorgHalt)
    → h.cleared_by ≡ none
    → last_uncleared (hs ++ h ∷ []) ≡ some h
unfolding last_uncleared
last_uncleared-append [] h e = ground arith
last_uncleared-append (x ∷ hs) h e = rw (last_uncleared-append hs h e) refl

uncleared-halt_of :
    (contract_id detail : String) (st : Store)
    → (halt_of contract_id detail (lookup contract_id st.indexer_cursor)).cleared_by ≡ none
unfolding halt_of
uncleared-halt_of contract_id detail st =
    elim (Option-cases (lookup contract_id st.indexer_cursor)) [
      | inl e ↦ rw e refl
      | inr (c, e) ↦ rw e refl
    ]

last_uncleared-clear :
    (by : String) (hs : List ReorgHalt) → last_uncleared (clear_reorg_halts by hs) ≡ none
unfolding last_uncleared clear_reorg_halts
last_uncleared-clear by [] = refl
last_uncleared-clear by (h ∷ hs) = rw (last_uncleared-clear by hs) (ground arith)

none-clear_found :
    (by : String) (o : Option ReorgHalt) (st : Store)
    → last_uncleared st.reorg_halts ≡ o
    → load_uncleared_reorg_halt (clear_found by o st).1 ≡ none
unfolding clear_found load_uncleared_reorg_halt
none-clear_found by none st e = e
none-clear_found by (some h) st e = last_uncleared-clear by st.reorg_halts

none-load :
    (by : String) (st : Store) → load_uncleared_reorg_halt (clear_recorded_reorg by st).1 ≡ none
unfolding clear_recorded_reorg
none-load by st =
    none-clear_found by (load_uncleared_reorg_halt st) st (unfold load_uncleared_reorg_halt in refl)

load-record_reorg_halt :
    (contract_id detail : String) (st : Store)
    → load_uncleared_reorg_halt (record_reorg_halt true contract_id detail st)
      ≡ some (halt_of contract_id detail (lookup contract_id st.indexer_cursor))
unfolding load_uncleared_reorg_halt record_reorg_halt
load-record_reorg_halt contract_id detail st =
    last_uncleared-append st.reorg_halts _ (uncleared-halt_of contract_id detail st)

names-halt_of :
    (contract_id detail : String) (c : Option Cursor)
    → ((halt_of contract_id detail c).contract_id ≡ contract_id)
      × ((halt_of contract_id detail c).detail ≡ detail)
unfolding halt_of
names-halt_of contract_id detail none = (refl, refl)
names-halt_of contract_id detail (some c) = (refl, refl)

-- After the insert that records a discontinuity, a start is refused with that record and changes
-- nothing; once an operator has cleared the records, it is not refused for any of them: what is left is the check
-- of the contracts.
pub halt-refuses :
    (contract_id detail by : String) (configured : List String) (resets lock : Bool) (st : Store)
    → let halted = record_reorg_halt true contract_id detail st in
      let cleared = (clear_recorded_reorg by halted).1 in
      ((h : ReorgHalt) × ((h.contract_id ≡ contract_id) × (h.detail ≡ detail))
        × (start_indexer configured resets lock halted ≡ (err (reorg_halted h), halted)))
      × (start_indexer configured resets lock cleared
          ≡ ensure_cursor_contract configured resets lock cleared)
unfolding start_indexer
halt-refuses contract_id detail by configured resets lock st = (
  (
    halt_of contract_id detail (lookup contract_id st.indexer_cursor),
    names-halt_of contract_id detail (lookup contract_id st.indexer_cursor),
    ap
        (λ o.
          start_or_refuse configured resets lock o (record_reorg_halt true contract_id detail st))
        (load-record_reorg_halt contract_id detail st),
  ),
  ap
      (λ o.
        start_or_refuse configured resets lock o
          (clear_recorded_reorg by (record_reorg_halt true contract_id detail st)).1)
      (none-load by (record_reorg_halt true contract_id detail st)),
)
