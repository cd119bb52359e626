-- ===== src/Examples/Recovering.antt =====
-- Rebuilds of the derived tables, and replays of one event.
use Prim.Native.String.{compare}
use Prim.Native.Nat.{Ordering}
use mathlib.Core.List.{Memᴰ}
use ourdao_backend.Derived.{Derived}
use ourdao_backend.Common.{String, Bool, true, false, refl, ok, ◌≡◌, ◌>>=◌}
use ourdao_backend.Handlers.Books.{books}
use ourdao_backend.Handlers.Totals.{Reconciles}
use ourdao_backend.Store.{Store, resolved, ignored}
use ourdao_backend.Ingest.{fold_event, fold_new, pending_of}
use ourdao_backend.Recovery.{
  already_resolved, reindex_from_event_log, replay_failed_event, log_of, fold_all, in_order,
  comes_before, saved_reads, restore_reads, resolve_all, clear_reorg_halts, rebuilt,
  to_decoded_event, empty_derived, resolve_event, refolded, replay_row, has_unresolved,
}
use ourdao_backend.Recovery.Rebuild.{
  Completes, reindex-Reconciles, reindex-Completes, reindex_folds_again,
}
use ourdao_backend.Recovery.LiveFold.{IsReplay, ingest_page-IsReplay}
use ourdao_backend.Recovery.Retry.{Replays, replay-Replays, replay-again}
use ourdao_backend.Examples.Data.{
  page, page_store, empty_store, failed_store, request_event, running,
}

text_before : String → String → Bool
text_before a b = elim (compare a b) [ Ordering.lt ↦ true | _ ↦ false ]

unfoldable running_recovery : Unit {0}
unfolding running reindex_from_event_log replay_failed_event log_of fold_all in_order comes_before
    saved_reads restore_reads resolve_all clear_reorg_halts rebuilt to_decoded_event empty_derived
    resolve_event refolded replay_row has_unresolved text_before failed_store page_store
running_recovery = tt

-- the database after the rebuild
unfoldable rebuilt_store : Store
unfolding text_before
rebuilt_store = (reindex_from_event_log text_before true failed_store).1

reindex-Reconciles_example : Reconciles (books rebuilt_store.derived)
unfolding running_recovery rebuilt_store
reindex-Reconciles_example = reindex-Reconciles text_before true failed_store refl

reindex-Completes_example : Completes failed_store rebuilt_store
unfolding running_recovery rebuilt_store
reindex-Completes_example = reindex-Completes text_before true failed_store refl

reindex_folds_again_example :
    Memᴰ
      (to_decoded_event (record { event = request_event; folded = false }))
      (in_order (comes_before text_before) (log_of failed_store.events))
    × ((db : Derived) × (fold_all
            (in_order (comes_before text_before) (log_of failed_store.events))
            empty_derived
          ≡ ok db)
        × (rebuilt_store.derived
            ≡ restore_reads (saved_reads failed_store.derived.notifications) db))
    × (fold_event 3 request_event rebuilt_store
        ≡ (fold_new request_event rebuilt_store >>= λ st. ok (st, pending_of request_event)))
unfolding running_recovery rebuilt_store
reindex_folds_again_example =
    reindex_folds_again text_before true failed_store request_event 3 refl refl refl refl

empty_store-IsReplay : IsReplay empty_store
unfolding running_recovery
empty_store-IsReplay = record { all_folded = λ id there. absurd (there refl); replays = refl }

ingest_page-IsReplay_example : IsReplay page_store
unfolding running_recovery
ingest_page-IsReplay_example =
    ingest_page-IsReplay true 3 page empty_store (refl, (refl, (refl, tt))) empty_store-IsReplay
      refl

replay-Replays_example :
    Replays "0006-1" failed_store (replay_failed_event true "0006-1" resolved failed_store)
replay-Replays_example = replay-Replays true "0006-1" resolved failed_store

-- the database after the replay
unfoldable replayed_store : Store
replayed_store = (replay_failed_event true "0006-1" resolved failed_store).1

replay-again_example :
    replay_failed_event true "0006-1" ignored replayed_store ≡ (ok already_resolved, replayed_store)
unfolding running_recovery replayed_store
replay-again_example = replay-again true "0006-1" resolved ignored failed_store refl
