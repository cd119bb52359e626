-- ===== src/Recovery/Rebuild.antt =====
-- indexer/reindex.ts: what a rebuild of the derived tables from the event log gives.
use mathlib.Core.List.{Memᴰ}
use ourdao_backend.Common.{
  ◌==◌, Option, ℕ, String, Bool, true, false, none, some, List, [], ◌∷◌, Result, ok, err, ◌>>=◌,
  string_eq, nat_eq, ◌≡◌, refl, sym, ap, subst, All, if_elim, Bool-cases, Result-cases, >>=-eq-ok,
  inl, inr, arith,
}
use ourdao_backend.Common.Table.{Table, lookup, sum_of}
use ourdao_backend.Events.{DecodedEvent}
use ourdao_backend.Derived.{Derived}
use ourdao_backend.Handlers.{apply_event}
use ourdao_backend.Handlers.Require.{Fold}
use ourdao_backend.Handlers.Books.{books}
use ourdao_backend.Handlers.Totals.{Reconciles}
use ourdao_backend.Handlers.Reconcile.{apply_event-Reconciles}
use ourdao_backend.Store.{EventRow, FailedEvent, ReorgHalt, Store}
use ourdao_backend.Ingest.{
  needs_fold, insert_raw_event, is_rewind, fold_new, fold_event, pending_of,
}
use ourdao_backend.Recovery.{
  RecoveryError, empty_derived, comes_before, in_order, insert_in_order, to_decoded_event,
  saved_reads, log_of, fold_all, restore_reads, resolve_all, clear_reorg_halts, rebuilt,
  reindex_from_event_log,
}

empty_derived-Reconciles : Reconciles (books empty_derived)
unfolding empty_derived sum_of
empty_derived-Reconciles = omega arith

fold_all-Reconciles :
    (evs : List DecodedEvent) (db : Derived) {db' : Derived}
    → Reconciles (books db)
    → fold_all evs db ≡ ok db'
    → Reconciles (books db')
unfolding fold_all
fold_all-Reconciles [] db {db'} r h =
    let same : db ≡ db' = cc h in subst (λ d. Reconciles (books d)) same r
fold_all-Reconciles (ev ∷ evs) db r h =
    let (mid, first, rest) = >>=-eq-ok (apply_event ev db) (fold_all evs) h in
    fold_all-Reconciles evs mid (apply_event-Reconciles ev db r first).0 rest

-- A rebuild that completes leaves totals that agree with the rows, whatever state the derived
-- tables were in before.
pub reindex-Reconciles :
    (id_before : String → String → Bool) (lock : Bool) (st : Store) {n : ℕ} {st' : Store}
    → reindex_from_event_log id_before lock st ≡ (ok n, st')
    → Reconciles (books st'.derived)
unfolding reindex_from_event_log restore_reads
reindex-Reconciles id_before false st h = absurd (cc h)
reindex-Reconciles id_before true st {n} {st'} h =
    elim (Result-cases
      (fold_all (in_order (comes_before id_before) (log_of st.events)) empty_derived)) [
        | inl (db, e) ↦
            let kept = fold_all-Reconciles _ empty_derived empty_derived-Reconciles e in
            let done : rebuilt st (in_order (comes_before id_before) (log_of st.events)) (ok db)
                ≡ (ok n, st') =
              (rw e at h) in
            subst (λ s. Reconciles (books s.derived))
              (ap (λ (p : Result RecoveryError ℕ × Store). p.1) done) kept
        | inr (x, e) ↦
            (let failed : rebuilt st (in_order (comes_before id_before) (log_of st.events)) (err x)
                  ≡ (ok n, st') =
                (rw e at h) in
              absurd (cc failed))
      ]

resolve_all-resolves :
    (t : Table String FailedEvent)
    → All (λ (p : String × FailedEvent). p.1.is_resolved ≡ true) (resolve_all t)
unfolding resolve_all
resolve_all-resolves [] = tt
resolve_all-resolves ((id, f) ∷ t) = (ground arith, resolve_all-resolves t)

abbrev pub IsCleared : ReorgHalt → Type 0
IsCleared h = h.cleared_by ≡ none → ⊥

clear_reorg_halts-clears :
    (by : String) (hs : List ReorgHalt) → All IsCleared (clear_reorg_halts by hs)
unfolding clear_reorg_halts
clear_reorg_halts-clears by [] = tt
clear_reorg_halts-clears by (h ∷ hs) = (λ p. ground arith, clear_reorg_halts-clears by hs)

-- What a rebuild that completes does beside the derived tables: every recorded failure is resolved
-- and every halt cleared, and neither the log nor a cursor is written.
pub record Completes (st st' : Store) : Type 0 where
  pub resolves : All (λ (p : String × FailedEvent). p.1.is_resolved ≡ true) st'.failed_events
  pub clears : All IsCleared st'.reorg_halts
  pub keeps_log : st'.events ≡ st.events
  pub keeps_cursors : st'.indexer_cursor ≡ st.indexer_cursor

rebuilt-Completes :
    (st : Store) (log : List DecodedEvent) (r : Fold Derived) {n : ℕ} {st' : Store}
    → rebuilt st log r ≡ (ok n, st')
    → Completes st st'
unfolding rebuilt
rebuilt-Completes st log (ok db) {n} {st'} h =
    subst (Completes st) (ap (λ (p : Result RecoveryError ℕ × Store). p.1) h) (record {
      resolves = resolve_all-resolves st.failed_events;
      clears = clear_reorg_halts-clears "reindex" st.reorg_halts;
      keeps_log = refl;
      keeps_cursors = refl;
    })
rebuilt-Completes st log (err e) h = absurd (cc h)

-- A rebuild that completes resolves every recorded failure, clears every halt and leaves the event
-- log, its marks included, and the cursors as they were.
pub reindex-Completes :
    (id_before : String → String → Bool) (lock : Bool) (st : Store) {n : ℕ} {st' : Store}
    → reindex_from_event_log id_before lock st ≡ (ok n, st')
    → Completes st st'
unfolding reindex_from_event_log
reindex-Completes id_before false st h = absurd (cc h)
reindex-Completes id_before true st h = rebuilt-Completes st _ _ h

-- The rows that a rebuild reads are those of the log.
insert_in_order-self :
    (before : DecodedEvent → DecodedEvent → Bool) (x : DecodedEvent) (xs : List DecodedEvent)
    → Memᴰ x (insert_in_order before x xs)
unfolding insert_in_order
insert_in_order-self before x [] = Memᴰ.head refl
insert_in_order-self before x (y ∷ ys) =
    if_elim (Memᴰ x) (before y x) (λ h. Memᴰ.tail (insert_in_order-self before x ys))
      (λ h. Memᴰ.head refl)

insert_in_order-keeps :
    (before : DecodedEvent → DecodedEvent → Bool) (x y : DecodedEvent) (ys : List DecodedEvent)
    → Memᴰ x ys
    → Memᴰ x (insert_in_order before y ys)
unfolding insert_in_order
insert_in_order-keeps before x y [] m = elim m [ ]
insert_in_order-keeps before x y (z ∷ zs) (Memᴰ.head e) =
    if_elim (Memᴰ x) (before z y) (λ h. Memᴰ.head e) (λ h. Memᴰ.tail (Memᴰ.head e))
insert_in_order-keeps before x y (z ∷ zs) (Memᴰ.tail m) =
    if_elim (Memᴰ x) (before z y) (λ h. Memᴰ.tail (insert_in_order-keeps before x y zs m))
      (λ h. Memᴰ.tail (Memᴰ.tail m))

in_order-keeps :
    (before : DecodedEvent → DecodedEvent → Bool) (x : DecodedEvent) (xs : List DecodedEvent)
    → Memᴰ x xs
    → Memᴰ x (in_order before xs)
unfolding in_order
in_order-keeps before x [] m = elim m [ ]
in_order-keeps before x (y ∷ ys) (Memᴰ.head e) =
    rw e (insert_in_order-self before y (in_order before ys))
in_order-keeps before x (y ∷ ys) (Memᴰ.tail m) =
    insert_in_order-keeps before x y (in_order before ys) (in_order-keeps before x ys m)

log_of-holds :
    (t : Table String EventRow) (id : String) (row : EventRow)
    → lookup id t ≡ some row
    → Memᴰ (to_decoded_event row) (log_of t)
unfolding log_of lookup
log_of-holds [] id row h = absurd (cc h)
log_of-holds ((k, r) ∷ t) id row h = elim (Bool-cases (k == id)) [
  | inl e ↦
      let same : ◌≡◌ {A = Option EventRow} (some r) (some row) = (rw e at h) in
      Memᴰ.head (ap to_decoded_event (let back : r ≡ row = cc same in sym back))
  | inr e ↦
      let rest : lookup id t ≡ some row = (rw e at h) in Memᴰ.tail (log_of-holds t id row rest)
]

rebuilt-derived :
    (st : Store) (log : List DecodedEvent) (r : Fold Derived) {n : ℕ} {st' : Store}
    → rebuilt st log r ≡ (ok n, st')
    → (db : Derived) × (r ≡ ok db)
      × (st'.derived ≡ restore_reads (saved_reads st.derived.notifications) db)
unfolding rebuilt
rebuilt-derived st log (ok db) h =
    (db, refl, sym (ap (λ (p : Result RecoveryError ℕ × Store). p.1.derived) h))
rebuilt-derived st log (err e) h = absurd (cc h)

-- A rebuild that completes has folded every row of the log, whether it is marked as folded or not, and
-- marks none: the tables are those of the fold, with the read notifications restored; a row that was
-- not marked is among what was folded, and a page that brings its event again folds it once more, on
-- top of the rebuilt tables.
pub reindex_folds_again :
    (id_before : String → String → Bool) (lock : Bool) (st : Store) (ev : DecodedEvent)
    (last_ledger : ℕ) {n : ℕ} {st' : Store} {row : EventRow}
    → reindex_from_event_log id_before lock st ≡ (ok n, st')
    → lookup ev.id st.events ≡ some row
    → row.folded ≡ false
    → is_rewind last_ledger ev ≡ false
    → let log = in_order (comes_before id_before) (log_of st.events) in
      Memᴰ (to_decoded_event row) log
      × ((db : Derived) × (fold_all log empty_derived ≡ ok db)
          × (st'.derived ≡ restore_reads (saved_reads st.derived.notifications) db))
      × (fold_event last_ledger ev st' ≡ (fold_new ev st' >>= λ s. ok (s, pending_of ev)))
unfolding fold_event needs_fold insert_raw_event reindex_from_event_log
reindex_folds_again id_before false st ev last_ledger h there unfolded order = absurd (cc h)
reindex_folds_again id_before true st ev last_ledger {n} {st'} {row} h there unfolded order =
    let done = rebuilt-Completes st _ _ h in
    let still : lookup ev.id st'.events ≡ some row = (rw done.keeps_log there) in
    (
      in_order-keeps (comes_before id_before) _ _ (log_of-holds st.events ev.id row there),
      rebuilt-derived st _ _ h,
      rw order (ground arith),
    )
