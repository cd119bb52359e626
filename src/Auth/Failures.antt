-- ===== src/Auth/Failures.antt =====
-- auth.ts, AuthFailureTracker: the failed attempts of each address, and until when it has to wait.
-- The instant is an argument, in milliseconds. The timer that calls the clean-up every minute is
-- left out; the clean-up is an operation.
pub mod Backoff
pub mod Capacity
pub mod Cleanup
use ourdao_backend.Common.{
  ℕ, String, Bool, true, false, Option, none, some, [], ◌∷◌, ◌+◌, ◌-◌, ◌*◌, ◌^◌, min, ltb, leb,
  if◌then◌else◌, ◌||◌, length, string_eq,
}
use ourdao_backend.Common.Table.{Table, lookup, put, erase}
use ourdao_backend.Common.Rows.{delete_where}

pub record FailureRecord : Type 0 where
  pub count : ℕ
  pub last_failure_at : ℕ
  pub next_allowed_at : ℕ

pub record AuthFailureTracker : Type 0 where
  pub failures : Table String FailureRecord

abbrev pub base_backoff_ms : ℕ
base_backoff_ms = 1000

abbrev pub max_backoff_ms : ℕ
max_backoff_ms = 60000

abbrev pub failure_window_ms : ℕ
failure_window_ms = 300000

abbrev pub max_capacity : ℕ
max_capacity = 10000

-- `new Map()`
abbrev pub new_tracker : AuthFailureTracker
new_tracker = record { failures = [] }

unfoldable pub allowed_by : ℕ → Option FailureRecord → Bool
allowed_by now none = true
allowed_by now (some r) = leb r.next_allowed_at now

unfoldable pub is_allowed : ℕ → String → AuthFailureTracker → Bool
unfolding allowed_by
is_allowed now address t = allowed_by now (lookup address t.failures)

-- the difference of numbers stops at 0, as `Math.max(0, remaining)` does
unfoldable pub remaining_of : ℕ → Option FailureRecord → ℕ
remaining_of now none = 0
remaining_of now (some r) = r.next_allowed_at - now

unfoldable pub get_remaining_backoff : ℕ → String → AuthFailureTracker → ℕ
unfolding remaining_of
get_remaining_backoff now address t = remaining_of now (lookup address t.failures)

-- `record.nextAllowedAt < oldestTime`, where none is `Infinity`
unfoldable pub before_oldest : FailureRecord → Option (String × ℕ) → Bool
before_oldest r none = true
before_oldest r (some (key, time)) = ltb r.next_allowed_at time

-- the loop for `oldestKey` and `oldestTime`, both set or neither
unfoldable pub find_oldest : Table String FailureRecord → Option (String × ℕ) → Option (String × ℕ)
unfolding before_oldest
find_oldest [] oldest = oldest
find_oldest ((key, r) ∷ rest) oldest =
    find_oldest rest (if before_oldest r oldest then some (key, r.next_allowed_at) else oldest)

unfoldable pub delete_key :
    Option (String × ℕ) → Table String FailureRecord → Table String FailureRecord
delete_key none t = t
delete_key (some (key, time)) t = erase key t

-- the eviction when a new address finds the map full
unfoldable pub evict_oldest :
    Option FailureRecord → Table String FailureRecord → Table String FailureRecord
unfolding find_oldest delete_key
evict_oldest (some existing) t = t
evict_oldest none t = if leb max_capacity (length t) then delete_key (find_oldest t none) t else t

unfoldable pub backoff_ms : ℕ → ℕ
backoff_ms new_count = min (2 ^ (new_count - 1) * base_backoff_ms) max_backoff_ms

unfoldable pub first_failure : ℕ → FailureRecord
first_failure now = record {
  count = 1;
  last_failure_at = now;
  next_allowed_at = now + base_backoff_ms;
}

-- the record that `recordFailure` writes
unfoldable pub next_record : ℕ → Option FailureRecord → FailureRecord
unfolding backoff_ms first_failure
next_record now none = first_failure now
next_record now (some existing) =
    if ltb (now - existing.last_failure_at) failure_window_ms
    then record {
      count = existing.count + 1;
      last_failure_at = now;
      next_allowed_at = now + backoff_ms (existing.count + 1);
    }
    else first_failure now

unfoldable pub record_failure : ℕ → String → AuthFailureTracker → AuthFailureTracker
unfolding next_record evict_oldest
record_failure now address t = record t {
  failures =
      put address (next_record now (lookup address t.failures))
        (evict_oldest (lookup address t.failures) t.failures);
}

unfoldable pub record_success : String → AuthFailureTracker → AuthFailureTracker
record_success address t = record t { failures = erase address t.failures }

unfoldable pub is_stale : ℕ → FailureRecord → Bool
is_stale now r =
    ltb r.last_failure_at (now - failure_window_ms) || ltb (r.next_allowed_at + 3600000) now

-- the timer's clean-up, over the records as they were when it began
unfoldable pub cleanup : ℕ → AuthFailureTracker → AuthFailureTracker
unfolding is_stale delete_where
cleanup now t = record t { failures = delete_where (is_stale now) t.failures t.failures }

-- What can happen to a tracker, with the instant.
pub data Step : AuthFailureTracker → AuthFailureTracker → Type 0 where
  fails :
      (now : ℕ) (address : String) (t : AuthFailureTracker) → Step t (record_failure now address t)
  succeeds : (address : String) (t : AuthFailureTracker) → Step t (record_success address t)
  cleans : (now : ℕ) (t : AuthFailureTracker) → Step t (cleanup now t)

pub data Reachable : AuthFailureTracker → Type 0 where
  fresh : Reachable new_tracker
  then_step : {t t' : AuthFailureTracker} → Reachable t → Step t t' → Reachable t'
