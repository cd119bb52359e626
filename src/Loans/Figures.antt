-- ===== src/Loans/Figures.antt =====
-- src/api/loan-derived.ts: what the figures of a loan say of its amounts.
use ourdao_backend.Common.{ℕ, suc, ◌+◌, ◌*◌, ◌≤◌, ◌<◌, ◌≡◌, ◌⊎◌, suc}
use ourdao_backend.Common.Int.{ℤ, pos, negsuc}

-- `n` basis points are the share that `repaid` is of `total`, rounded down, and at most 10000; nothing
-- repaid, or no total, is 0.
abbrev pub IsShare : ℤ → ℤ → ℕ → Type 0
IsShare repaid (negsuc t) n = n ≡ 0
IsShare (negsuc r) (pos t) n = n ≡ 0
IsShare (pos r) (pos t) n =
    ((t ≡ 0) × (n ≡ 0))
    ⊎ ((n ≤ 10000) × (t * n ≤ r * 10000) × ((r * 10000 < t * n + t) ⊎ (n ≡ 10000)))
