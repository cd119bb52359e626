-- ===== src/Ingest/Quarantine.antt =====
-- indexer/poller.ts: the quarantine that a page enters when it keeps failing with one error. The
-- process keeps a state for each contract and a copy of it in the database. An error's message is
-- the error itself here: two are the same text when they name the same failure. Writes of the
-- state, whose failures the code only logs, succeed.
use Prim.Native.String.{◌++◌ as concat}
use ourdao_backend.Common.{
  ℕ, String, Bool, true, false, ◌&&◌, ◌||◌, Option, none, some, List, [], ◌∷◌, ◌+◌, ◌≡◌, refl,
  Result, ok, err, ltb, if◌then◌else◌, ◌==◌, string_eq, nat_eq, length, get_last?, ==_refl, arith,
}
use ourdao_backend.Common.Table.{Table, lookup, put}
use ourdao_backend.Common.Text.{show_nat}
use ourdao_backend.Events.{DecodedEvent}
use ourdao_backend.Handlers.Require.{
  FoldError, field_validation, numeric_overflow, integer_out_of_range, invalid_integer,
  invalid_date, date_out_of_range,
}
use ourdao_backend.Store.{
  IngestError, reorg_detected, lock_held, fold_failed, QuarantineState, QuarantineRow, Store,
}
use ourdao_backend.Ingest.{Turn, Pending, ingest_page, ingest_events_quarantined}

same_fold_error : FoldError → FoldError → Bool
same_fold_error (field_validation a b) (field_validation c d) = a == c && b == d
same_fold_error numeric_overflow numeric_overflow = true
same_fold_error integer_out_of_range integer_out_of_range = true
same_fold_error (invalid_integer a) (invalid_integer b) = a == b
same_fold_error invalid_date invalid_date = true
same_fold_error date_out_of_range date_out_of_range = true
same_fold_error _ _ = false

-- equality of messages
unfoldable pub same_error : IngestError → IngestError → Bool
unfolding same_fold_error
same_error (reorg_detected a b c) (reorg_detected d e f) = a == d && (b == e && c == f)
same_error lock_held lock_held = true
same_error (fold_failed a) (fold_failed b) = same_fold_error a b
same_error _ _ = false

pub same_error_refl : (e : IngestError) → same_error e e ≡ true
unfolding same_error
same_error_refl (reorg_detected a b c) = ground (arith, ==_refl a, ==_refl b, ==_refl c)
same_error_refl lock_held = refl
same_error_refl (fold_failed (field_validation a b)) = ground (arith, ==_refl a, ==_refl b)
same_error_refl (fold_failed numeric_overflow) = refl
same_error_refl (fold_failed integer_out_of_range) = refl
same_error_refl (fold_failed (invalid_integer a)) = ground (arith, ==_refl a)
same_error_refl (fold_failed invalid_date) = refl
same_error_refl (fold_failed date_out_of_range) = refl

id_or_empty : Option DecodedEvent → String
id_or_empty none = ""
id_or_empty (some ev) = ev.id

unfoldable pub page_key_for : List DecodedEvent → String
unfolding id_or_empty
page_key_for [] = ""
page_key_for (ev ∷ evs) = concat ev.id (
    concat ".."
      (concat (id_or_empty (get_last? (ev ∷ evs))) (concat ":" (show_nat (length (ev ∷ evs))))))

-- `quarantineStates` and `quarantineStatesLoaded`: a contract with an entry has been loaded.
abbrev pub States : Type 0
States = Table String (Option QuarantineState)

-- a row without a page key counts as none
unfoldable pub load_quarantine_state : String → Store → Option QuarantineState
load_quarantine_state contract_id st = elim (lookup contract_id st.quarantine_state) [
  | none ↦ none
  | some row ↦ elim row.state [ none ↦ none | some s ↦ if s.page_key == "" then none else some s ]
]

was_escalated : Option QuarantineRow → Bool
was_escalated none = false
was_escalated (some row) = row.escalated

state_row : Option QuarantineState → Bool → Option QuarantineRow → QuarantineRow
unfolding was_escalated
state_row none escalating old = record { state = none; escalated = false }
state_row (some s) escalating old = record {
  state = some s;
  escalated = escalating || was_escalated old;
}

unfoldable pub persist_quarantine_state : String → Option QuarantineState → Bool → Store → Store
unfolding state_row
persist_quarantine_state contract_id state escalating st = record st {
  quarantine_state =
      put contract_id (state_row state escalating (lookup contract_id st.quarantine_state))
        st.quarantine_state;
}

-- the state before a page: the process's own, loaded on first use
unfoldable pub current_state : String → States → Store → Option QuarantineState
current_state contract_id states st = elim (lookup contract_id states) [
  | none ↦ load_quarantine_state contract_id st
  | some s ↦ s
]

-- one more failure of the same page with the same error, or the first of another
unfoldable pub next_state : Option QuarantineState → String → IngestError → QuarantineState
next_state none key e = record { page_key = key; error_message = e; failures = 1 }
next_state (some s) key e =
    if s.page_key == key && same_error s.error_message e
    then record s { failures = s.failures + 1 }
    else record { page_key = key; error_message = e; failures = 1 }

unfoldable pub is_reorg : IngestError → Bool
is_reorg (reorg_detected _ _ _) = true
is_reorg _ = false

-- the state is cleared where the page got through
unfoldable pub finish :
    String
    → States
    → Result IngestError Pending × Store
    → Result IngestError Pending × States × Store
finish contract_id states (ok sent, st) =
    (ok sent, put contract_id none states, persist_quarantine_state contract_id none false st)
finish contract_id states (err e, st) = (err e, states, st)

-- the quarantine mode, once the failures have reached the limit
unfoldable pub escalate :
    (DecodedEvent → Turn)
    → ℕ
    → String
    → List DecodedEvent
    → QuarantineState
    → States
    → Store
    → Result IngestError Pending × States × Store
escalate turns last_ledger contract_id evs s states st = finish contract_id states (
    ingest_events_quarantined turns last_ledger evs
      (persist_quarantine_state contract_id (some s) true st))

-- what follows a failed attempt at the whole page: `limit` is `quarantineAfterFailures`
unfoldable pub after_failure :
    ℕ
    → (DecodedEvent → Turn)
    → ℕ
    → String
    → List DecodedEvent
    → IngestError
    → Option QuarantineState
    → States
    → Store
    → Result IngestError Pending × States × Store
unfolding is_reorg
after_failure limit turns last_ledger contract_id evs e before states st =
    if is_reorg e
    then (err e, put contract_id before states, st)
    else (let s = next_state before (page_key_for evs) e in
        let states' = put contract_id (some s) states in
        let st' = persist_quarantine_state contract_id (some s) false st in
        if ltb s.failures limit
        then (err e, states', st')
        else escalate turns last_ledger contract_id evs s states' st')

unfoldable pub after_page :
    ℕ
    → (DecodedEvent → Turn)
    → ℕ
    → String
    → List DecodedEvent
    → Option QuarantineState
    → States
    → Result IngestError Pending × Store
    → Result IngestError Pending × States × Store
after_page limit turns last_ledger contract_id evs before states (ok sent, st) =
    finish contract_id states (ok sent, st)
after_page limit turns last_ledger contract_id evs before states (err e, st) =
    after_failure limit turns last_ledger contract_id evs e before states st

unfoldable pub ingest_page_with_quarantine :
    ℕ
    → Bool
    → (DecodedEvent → Turn)
    → ℕ
    → String
    → List DecodedEvent
    → States
    → Store
    → Result IngestError Pending × States × Store
unfolding after_page
ingest_page_with_quarantine limit lock turns last_ledger contract_id evs states st =
    after_page limit turns last_ledger contract_id evs (current_state contract_id states st) states
      (ingest_page lock last_ledger evs st)
