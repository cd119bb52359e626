-- ===== src/Startup/Contracts.antt =====
-- indexer/poller.ts, ensureCursorContract and resetForContractChange: the cursors after a start, and
-- the log after a reset.
use mathlib.Core.List.{Memᴰ}
use ourdao_backend.Common.{
  String, Bool, true, false, Option, none, some, List, [], ◌∷◌, ok, ◌≡◌, refl, sym, ap, subst, All,
  any, ◌==◌, ==_cases, Bool-cases, inl, inr, string_eq,
}
use ourdao_backend.Common.Table.{Table}
use ourdao_backend.Events.{DecodedEvent}
use ourdao_backend.Store.{Cursor, ReorgHalt, Store}
use ourdao_backend.Ingest.{is_rewind, ingest_page, commit_or_rollback}
use ourdao_backend.Ingest.Once.{IsFolded, fold_events-idle}
use ourdao_backend.Recovery.{empty_derived}
use ourdao_backend.Startup.{
  Started, load_uncleared_reorg_halt, stale_of, start_or_refuse, refuse_or_reset,
  reset_for_contract_change, ensure_cursor_contract, start_indexer,
}

-- Every saved cursor is a configured contract's.
abbrev pub IsConfigured : List String → Table String Cursor → Type 0
IsConfigured configured t = All (λ (p : String × Cursor). Memᴰ p.0 configured) t

any-Mem : (id : String) (ids : List String) → any (λ k. k == id) ids ≡ true → Memᴰ id ids
any-Mem id [] h = absurd (cc h)
any-Mem id (k ∷ ks) h = elim (==_cases k id) [
  | inl (e, same) ↦ Memᴰ.head (sym same)
  | inr (e, other) ↦
      let rest : any (λ k. k == id) ks ≡ true = (rw e at h) in Memᴰ.tail (any-Mem id ks rest)
]

stale_of-IsConfigured :
    (configured : List String) (t : Table String Cursor)
    → stale_of configured t ≡ []
    → IsConfigured configured t
unfolding stale_of
stale_of-IsConfigured configured [] h = tt
stale_of-IsConfigured configured ((id, c) ∷ t) h =
    elim (Bool-cases (any (λ k. k == id) configured)) [
      | inl e ↦
          let rest : stale_of configured t ≡ [] = (rw e at h) in
          (any-Mem id configured e, stale_of-IsConfigured configured t rest)
      | inr e ↦ (let full : id ∷ stale_of configured t ≡ [] = (rw e at h) in absurd (cc full))
    ]

refuse_or_reset-IsConfigured :
    (configured : List String) (resets lock : Bool) (stale : List String) (st : Store) {st' : Store}
    → stale_of configured st.indexer_cursor ≡ stale
    → refuse_or_reset resets lock stale st ≡ (ok tt, st')
    → IsConfigured configured st'.indexer_cursor
unfolding refuse_or_reset reset_for_contract_change
refuse_or_reset-IsConfigured configured resets lock [] st {st'} e h =
    let same : st ≡ st' = cc h in
    subst (λ s. IsConfigured configured s.indexer_cursor) same
      (stale_of-IsConfigured configured st.indexer_cursor e)
refuse_or_reset-IsConfigured configured true true (id ∷ ids) st {st'} e h =
    let same : [] ≡ st'.indexer_cursor = ap (λ (p : Started). p.1.indexer_cursor) h in
    subst (IsConfigured configured) same tt
refuse_or_reset-IsConfigured configured true false (id ∷ ids) st e h = absurd (cc h)
refuse_or_reset-IsConfigured configured false lock (id ∷ ids) st e h = absurd (cc h)

start_or_refuse-IsConfigured :
    (configured : List String) (resets lock : Bool) (o : Option ReorgHalt) (st : Store)
    {st' : Store}
    → start_or_refuse configured resets lock o st ≡ (ok tt, st')
    → IsConfigured configured st'.indexer_cursor
unfolding start_or_refuse ensure_cursor_contract
start_or_refuse-IsConfigured configured resets lock (some halt) st h = absurd (cc h)
start_or_refuse-IsConfigured configured resets lock none st h =
    refuse_or_reset-IsConfigured configured resets lock (stale_of configured st.indexer_cursor) st
      refl h

-- Where the indexer starts, every saved cursor is of a contract in the list of the configured ones.
pub start_indexer-IsConfigured :
    (configured : List String) (resets lock : Bool) (st : Store) {st' : Store}
    → start_indexer configured resets lock st ≡ (ok tt, st')
    → IsConfigured configured st'.indexer_cursor
unfolding start_indexer
start_indexer-IsConfigured configured resets lock st h =
    start_or_refuse-IsConfigured configured resets lock (load_uncleared_reorg_halt st) st h

All-in_order : (evs : List DecodedEvent) → All (λ ev. is_rewind 0 ev ≡ false) evs
unfolding is_rewind
All-in_order [] = tt
All-in_order (ev ∷ evs) = (refl, All-in_order evs)

-- After a reset the derived tables are empty, and a page whose events were all folded before the
-- reset is ingested from the beginning of the chain without folding any of them: the tables stay
-- empty.
pub reset-skips_folded :
    (evs : List DecodedEvent) (st : Store)
    → All (λ (ev : DecodedEvent). IsFolded ev.id st) evs
    → let st' = (reset_for_contract_change true st).1 in
      (st'.derived ≡ empty_derived) × (ingest_page true 0 evs st' ≡ (ok [], st'))
unfolding reset_for_contract_change ingest_page commit_or_rollback
reset-skips_folded [] st f = (refl, refl)
reset-skips_folded (ev ∷ evs) st f = (
  refl,
  rw (
      fold_events-idle 0 (ev ∷ evs) (record st { derived = empty_derived; indexer_cursor = [] })
        (All-in_order (ev ∷ evs)) f),
)
