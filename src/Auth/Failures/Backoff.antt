-- ===== src/Auth/Failures/Backoff.antt =====
-- auth.ts, AuthFailureTracker: how long a failed attempt keeps an address waiting.
use ourdao_backend.Common.{
  ℕ, suc, String, true, false, Option, none, some, List, [], ◌∷◌, ◌≤◌, ◌<◌, ◌≡◌, ◌+◌, ◌-◌, ◌*◌, ◌^◌,
  min, refl, inl, inr, ltb, Bool-cases, length, ◌↔◌, ◌∙◌, arith, string_eq, ap,
}
use native.Mathlib.Nat.{one-le-pow, pow-le-pow_right}
use ourdao_backend.Common.Table.{lookup, lookup-put_self}
use ourdao_backend.Auth.Failures.{
  FailureRecord, AuthFailureTracker, record_failure, next_record, backoff_ms, first_failure,
  is_allowed, allowed_by, remaining_of, get_remaining_backoff, failure_window_ms,
}

-- The wait is at least a second and at most a minute.
pub backoff_ms-bounds : (n : ℕ) → (1000 ≤ backoff_ms n) × (backoff_ms n ≤ 60000)
unfolding backoff_ms
backoff_ms-bounds n =
    let positive = one-le-pow (n - 1) 2 (omega arith) in (omega arith, omega arith)

-- More failures, no shorter wait.
backoff_ms-monotone : (n m : ℕ) → n ≤ m → backoff_ms n ≤ backoff_ms m
unfolding backoff_ms
backoff_ms-monotone n m h =
    let grows : 2 ^ (n - 1) ≤ 2 ^ (m - 1) = pow-le-pow_right (omega arith) (omega arith) in
    omega arith

pub lookup-record_failure :
    (now : ℕ) (address : String) (t : AuthFailureTracker)
    → lookup address (record_failure now address t).failures
      ≡ some (next_record now (lookup address t.failures))
unfolding record_failure
lookup-record_failure now address t = lookup-put_self address _ _

pub next_record-bounds :
    (now : ℕ) (o : Option FailureRecord)
    → ((next_record now o).last_failure_at ≡ now)
      × (now + 1000 ≤ (next_record now o).next_allowed_at)
      × ((next_record now o).next_allowed_at ≤ now + 60000)
unfolding next_record first_failure
next_record-bounds now none = (refl, omega arith, omega arith)
next_record-bounds now (some r) =
    let (low, high) = backoff_ms-bounds (r.count + 1) in
    elim (Bool-cases (ltb (now - r.last_failure_at) failure_window_ms)) [
      | inl g ↦ rw g (refl, omega arith, omega arith)
      | inr g ↦ rw g (refl, omega arith, omega arith)
    ]

-- After a failed attempt, whatever came before it, the address has to wait for a second at least,
-- and may try again after a minute.
record_failure-blocks :
    (now later : ℕ) (address : String) (t : AuthFailureTracker)
    → (later < now + 1000 → is_allowed later address (record_failure now address t) ≡ false)
      × (now + 60000 ≤ later → is_allowed later address (record_failure now address t) ≡ true)
unfolding is_allowed allowed_by
record_failure-blocks now later address t =
    let (at, low, high) = next_record-bounds now (lookup address t.failures) in
    rw (lookup-record_failure now address t) (λ early. ground arith, λ late. ground arith)

remaining-agrees :
    (now : ℕ) (o : Option FailureRecord) → (allowed_by now o ≡ true) ↔ (remaining_of now o ≡ 0)
unfolding allowed_by remaining_of
remaining-agrees now none = (λ h. refl, λ h. refl)
remaining-agrees now (some r) = (λ h. ground arith, λ h. ground arith)

-- An address is allowed to try exactly when no time remains for it.
is_allowed-remaining :
    (now : ℕ) (address : String) (t : AuthFailureTracker)
    → (is_allowed now address t ≡ true) ↔ (get_remaining_backoff now address t ≡ 0)
unfolding is_allowed get_remaining_backoff
is_allowed-remaining now address t = remaining-agrees now (lookup address t.failures)

-- Failures of one address at these instants.
unfoldable pub fail_each : String → List ℕ → AuthFailureTracker → AuthFailureTracker
fail_each address [] t = t
fail_each address (now ∷ rest) t = fail_each address rest (record_failure now address t)

-- Each instant is within five minutes of the one before.
abbrev pub IsStreak : ℕ → List ℕ → Type 0
IsStreak last [] = Unit
IsStreak last (now ∷ rest) = (now - last < failure_window_ms) × IsStreak now rest

abbrev pub last_of : ℕ → List ℕ → ℕ
last_of last [] = last
last_of last (now ∷ rest) = last_of now rest

abbrev run_record : ℕ → ℕ → FailureRecord
run_record n now = record { count = n; last_failure_at = now; next_allowed_at = now + backoff_ms n }

next_record-run :
    (n last now : ℕ)
    → now - last < failure_window_ms
    → next_record now (some (run_record n last)) ≡ run_record (n + 1) now
unfolding next_record
next_record-run n last now h =
    let within : ltb (now - last) failure_window_ms ≡ true = ground arith in rw within refl

fail_each-run :
    (address : String) (n last : ℕ) (times : List ℕ) (t : AuthFailureTracker)
    → lookup address t.failures ≡ some (run_record n last)
    → IsStreak last times
    → lookup address (fail_each address times t).failures
      ≡ some (run_record (n + length times) (last_of last times))
unfolding fail_each
fail_each-run address n last [] t h s = let same : n + 0 ≡ n = omega arith in rw same h
fail_each-run address n last (now ∷ rest) t h s =
    let count : n + 1 + length rest ≡ n + suc (length rest) = omega arith in
    rw (← count) (
      fail_each-run address (n + 1) now rest (record_failure now address t)
        (lookup-record_failure now address t ∙ ap some (rw h (next_record-run n last now s.0))) s.1)

-- If an unknown address fails n times, each time within five minutes of the time before, the wait
-- after the last failure is 2 ^ (n - 1) seconds, and at most a minute.
pub fail_each-doubles :
    (address : String) (first : ℕ) (rest : List ℕ) (t : AuthFailureTracker)
    → lookup address t.failures ≡ none
    → IsStreak first rest
    → get_remaining_backoff (last_of first rest) address (fail_each address (first ∷ rest) t)
      ≡ min (2 ^ length rest * 1000) 60000
unfolding get_remaining_backoff remaining_of fail_each
fail_each-doubles address first rest t h s =
    let one : some (next_record first (lookup address t.failures)) ≡ some (run_record 1 first) =
      (rw h (unfold next_record first_failure backoff_ms in refl)) in
    let all =
      fail_each-run address 1 first rest (record_failure first address t)
        (lookup-record_failure first address t ∙ one) s in
    rw all (
      unfold backoff_ms in
      let exponent : 1 + length rest - 1 ≡ length rest = omega arith in rw exponent (omega arith))
