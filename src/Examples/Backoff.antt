-- ===== src/Examples/Backoff.antt =====
-- Addresses that fail, and wait.
use ourdao_backend.Common.{[], ◌∷◌, ◌≡◌, refl, arith, string_eq}
use ourdao_backend.Common.Table.{lookup}
use ourdao_backend.Auth.Failures.{
  new_tracker, record_failure, is_allowed, get_remaining_backoff, cleanup, Reachable, Step,
}
use ourdao_backend.Auth.Failures.Backoff.{fail_each, fail_each-doubles}
use ourdao_backend.Auth.Failures.Capacity.{IsBounded, tracker-IsBounded}
use ourdao_backend.Auth.Failures.Cleanup.{cleanup-IsUnseen}

once : Reachable (record_failure 5000 "GA" new_tracker)
once = Reachable.then_step Reachable.fresh (Step.fails 5000 "GA" new_tracker)

tracker-IsBounded_example : IsBounded (record_failure 5000 "GA" new_tracker)
tracker-IsBounded_example = tracker-IsBounded once

cleanup-IsUnseen_example :
    let t = record_failure 5000 "GA" new_tracker in
    (is_allowed 310000 "GA" (cleanup 310000 t) ≡ is_allowed 310000 "GA" t)
    × (get_remaining_backoff 310000 "GA" (cleanup 310000 t) ≡ get_remaining_backoff 310000 "GA" t)
    × (lookup "GA" (record_failure 310000 "GA" (cleanup 310000 t)).failures
        ≡ lookup "GA" (record_failure 310000 "GA" t).failures)
cleanup-IsUnseen_example = cleanup-IsUnseen 310000 310000 "GA" once (omega arith)

-- the fourth failure within a minute
fail_each-doubles_example :
    get_remaining_backoff 8000 "GA" (fail_each "GA" (1000 ∷ 2500 ∷ 5000 ∷ 8000 ∷ []) new_tracker)
    ≡ 8000
fail_each-doubles_example =
    fail_each-doubles "GA" 1000 (2500 ∷ 5000 ∷ 8000 ∷ []) new_tracker (unfold lookup in refl)
      (omega arith, (omega arith, (omega arith, tt)))
