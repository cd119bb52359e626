-- ===== src/Polling/Checks.antt =====
-- indexer/poller.ts, fetchOnce: the checks against the RPC's chain that come before the first page.
use ourdao_backend.Common.{String, Option, some, ◌≡◌, ◌⊎◌, string_eq}
use ourdao_backend.Store.{Store}

-- The hash that the RPC gives for a ledger, and the saved one: the same, where both are known and the
-- saved one is not empty.
abbrev pub AgreesWith : Option String → Option String → Type 0
AgreesWith (some actual) (some saved) = (actual ≡ saved) ⊎ (saved ≡ "")
AgreesWith _ _ = Unit
