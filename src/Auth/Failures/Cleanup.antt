-- ===== src/Auth/Failures/Cleanup.antt =====
-- auth.ts, AuthFailureTracker: what the timer's clean-up may forget.
use ourdao_backend.Common.{
  ℕ, String, true, false, none, some, ◌≤◌, ◌≡◌, ◌≢◌, ◌+◌, ◌-◌, refl, sym, inl, inr, ltb, ◌∙◌, ap,
  arith, string_eq, ==_cases, [],
}
use ourdao_backend.Common.Table.{
  lookup, IsUnique, lookup-put_ne, lookup-erase_ne, lookup-erase_self,
}
use ourdao_backend.Common.Rows.{KeptOrGone, StandIn-self, delete_where-keeps_others}
use ourdao_backend.Auth.Failures.{
  FailureRecord, AuthFailureTracker, record_failure, record_success, cleanup, evict_oldest,
  next_record, is_allowed, allowed_by, remaining_of, get_remaining_backoff, is_stale,
  failure_window_ms, Step, Reachable,
}
use ourdao_backend.Auth.Failures.Backoff.{next_record-bounds, lookup-record_failure}
use ourdao_backend.Auth.Failures.Capacity.{tracker-IsBounded, lookup-evict_other}

-- Every record makes its address wait from its last failure on, and for a minute at most.
abbrev IsTimed : AuthFailureTracker → Type 0
IsTimed t =
    (a : String) (r : FailureRecord)
    → lookup a t.failures ≡ some r
    → (r.last_failure_at ≤ r.next_allowed_at) × (r.next_allowed_at ≤ r.last_failure_at + 60000)

cleanup-KeptOrGone :
    (now : ℕ) (address : String) (t : AuthFailureTracker)
    → IsUnique t.failures
    → KeptOrGone (is_stale now) address t.failures (cleanup now t).failures
unfolding cleanup
cleanup-KeptOrGone now address t u =
    delete_where-keeps_others (is_stale now) address t.failures t.failures u u
      (StandIn-self t.failures u)

lookup-record_failure_ne :
    (now : ℕ) (a address : String) (t : AuthFailureTracker)
    → a ≢ address
    → lookup a (record_failure now address t).failures
      ≡ lookup a (evict_oldest (lookup address t.failures) t.failures)
unfolding record_failure
lookup-record_failure_ne now a address t other = lookup-put_ne a address _ _ other

lookup-record_success_ne :
    (a address : String) (t : AuthFailureTracker)
    → a ≢ address
    → lookup a (record_success address t).failures ≡ lookup a t.failures
unfolding record_success
lookup-record_success_ne a address t other = lookup-erase_ne a address t.failures other

failed-IsTimed :
    (now : ℕ) (address : String) (t : AuthFailureTracker)
    → IsUnique t.failures
    → IsTimed t
    → IsTimed (record_failure now address t)
failed-IsTimed now address t u timed a r h = elim (==_cases a address) [
  | inl (g, same) ↦
      let (at, low, high) = next_record-bounds now (lookup address t.failures) in
      let written : some r ≡ some (next_record now (lookup address t.failures)) =
        sym h ∙ (rw same (lookup-record_failure now address t)) in
      let it : r ≡ next_record now (lookup address t.failures) = cc written in
      rw it (rw at (omega arith, high))
  | inr (g, other) ↦
      let before : lookup a (evict_oldest (lookup address t.failures) t.failures) ≡ some r =
        sym (lookup-record_failure_ne now a address t other) ∙ h in
      timed a r (lookup-evict_other a (lookup address t.failures) t.failures u before)
]

Step-IsTimed :
    {t t' : AuthFailureTracker} → Step t t' → IsUnique t.failures → IsTimed t → IsTimed t'
Step-IsTimed (Step.fails now address t) u timed = failed-IsTimed now address t u timed
Step-IsTimed (Step.succeeds address t) u timed = λ a r h. elim (==_cases a address) [
  | inl (g, same) ↦
      let dead : lookup a (record_success address t).failures ≡ none =
        (unfold record_success in rw same (lookup-erase_self address t.failures u)) in
      absurd (cc (h, dead))
  | inr (g, other) ↦ timed a r (sym (lookup-record_success_ne a address t other) ∙ h)
]
Step-IsTimed (Step.cleans now t) u timed = λ a r h. elim (cleanup-KeptOrGone now a t u) [
  | inl kept ↦ timed a r (sym kept ∙ h)
  | inr (v, found, stale, gone) ↦ absurd (cc (h, gone))
]

no_row : (a : String) (r : FailureRecord) → ¬ (lookup a [] ≡ some r)
unfolding lookup
no_row a r h = cc h

tracker-IsTimed : {t : AuthFailureTracker} → Reachable t → IsTimed t
tracker-IsTimed Reachable.fresh = λ a r h. absurd (no_row a r h)
tracker-IsTimed (Reachable.then_step before step) =
    Step-IsTimed step (tracker-IsBounded before).0 (tracker-IsTimed before)

-- A stale record decides as no record does.
stale-IsUnseen :
    (now later : ℕ) (r : FailureRecord)
    → is_stale now r ≡ true
    → (r.last_failure_at ≤ r.next_allowed_at) × (r.next_allowed_at ≤ r.last_failure_at + 60000)
    → now ≤ later
    → (allowed_by later (some r) ≡ true)
      × (remaining_of later (some r) ≡ 0)
      × (next_record later (some r) ≡ next_record later none)
unfolding is_stale allowed_by remaining_of next_record
stale-IsUnseen now later r stale timed order =
    let old : (r.next_allowed_at ≤ later) × (r.last_failure_at + 300000 ≤ later) = ground arith in
    let outside : ltb (later - r.last_failure_at) failure_window_ms ≡ false = ground arith in
    (ground arith, omega arith, rw outside refl)

cases-IsUnseen :
    (now later : ℕ) (address : String) (t : AuthFailureTracker)
    → IsTimed t
    → KeptOrGone (is_stale now) address t.failures (cleanup now t).failures
    → now ≤ later
    → let before = lookup address t.failures in
      let after = lookup address (cleanup now t).failures in
      (allowed_by later after ≡ allowed_by later before)
      × (remaining_of later after ≡ remaining_of later before)
      × (next_record later after ≡ next_record later before)
cases-IsUnseen now later address t timed (inl kept) order = rw kept (refl, refl, refl)
cases-IsUnseen now later address t timed (inr (r, found, stale, gone)) order =
    let (open_, nothing, anew) = stale-IsUnseen now later r stale (timed address r found) order in
    rw (gone, found)
      ((unfold allowed_by in sym open_), (unfold remaining_of in sym nothing), sym anew)

-- A clean-up of a tracker changes nothing that an address sees at that instant or later: whether it
-- may try, how long it has to wait, and the record of its next failure.
pub cleanup-IsUnseen :
    (now later : ℕ) (address : String) {t : AuthFailureTracker}
    → Reachable t
    → now ≤ later
    → (is_allowed later address (cleanup now t) ≡ is_allowed later address t)
      × (get_remaining_backoff later address (cleanup now t)
          ≡ get_remaining_backoff later address t)
      × (lookup address (record_failure later address (cleanup now t)).failures
          ≡ lookup address (record_failure later address t).failures)
unfolding is_allowed get_remaining_backoff
cleanup-IsUnseen now later address {t} r order =
    let (same, wait, next) =
      cases-IsUnseen now later address t (tracker-IsTimed r)
        (cleanup-KeptOrGone now address t (tracker-IsBounded r).0) order in
    (
      same,
      wait,
      lookup-record_failure later address (cleanup now t)
          ∙ ap some next
          ∙ sym (lookup-record_failure later address t),
    )
