-- ===== src/Examples/Challenges.antt =====
-- Challenges that are issued and used.
use ourdao_backend.Common.{
  String, true, false, refl, [], ◌≡◌, ◌≢◌, ap, ◌==◌, Bool, arith, string_eq,
}
use ourdao_backend.Common.Table.{lookup, put, erase, sum_of}
use ourdao_backend.Auth.Nonces.{
  sweep, NonceConfig, MemoryNonceStore, issue, consume, consume_entry, issue_count, decrement,
  or_zero,
}
use ourdao_backend.Auth.Nonces.Counts.{IsValid, issue-IsValid}
use ourdao_backend.Auth.Nonces.Sweep.{sweep-IsValid}
use ourdao_backend.Auth.Nonces.Consume.{consume-once, consume-leaks}

abbrev config : NonceConfig
config = record { ttl_ms = 300000; max_entries = 1000 }

abbrev empty : MemoryNonceStore
empty = record { store = []; address_issue_counts = [] }

empty-IsValid : IsValid empty
unfolding issue_count or_zero lookup sum_of
empty-IsValid = record { unique_nonces = tt; unique_counts = tt; counted = λ a. refl }

-- one challenge is out
unfoldable one : MemoryNonceStore
unfolding issue put issue_count or_zero lookup
one = (issue config 1000 "GA" "n1" empty).1

issue-IsValid_example : IsValid one
unfolding one lookup
issue-IsValid_example = issue-IsValid config 1000 "GA" "n1" empty refl empty-IsValid

one-IsValid : IsValid one
unfolding one lookup
one-IsValid = issue-IsValid config 1000 "GA" "n1" empty refl empty-IsValid

consume-once_example : IsValid empty × (consume 3000 "GB" "n1" empty ≡ (false, empty))
unfolding one consume consume_entry decrement erase
consume-once_example = consume-once 2000 3000 "GA" "GB" "n1" one one-IsValid refl

other_address : ◌≢◌ {A = String} "GA" "GB"
other_address p = let q : ◌≡◌ {A = Bool} true false = ap (λ b. "GA" == b) p in cc q

consume-leaks_example : ¬ IsValid (consume 400000 "GB" "n1" one).1
unfolding one
consume-leaks_example =
    consume-leaks 400000 "GB" "n1" (record { address = "GA"; expires_at = 301000 }) one refl
      (omega arith) other_address one-IsValid

sweep-IsValid_example : IsValid (sweep 400000 one)
sweep-IsValid_example = sweep-IsValid 400000 one one-IsValid
