-- ===== src/Auth/Nonces.antt =====
-- auth.ts, MemoryNonceStore: the challenges that were issued and not consumed, in memory. The
-- instant is an argument, in milliseconds, and so is the new nonce: the hexadecimal time and random
-- bytes are not computed here. Timers and logging are left out.
pub mod Counts
pub mod Consume
pub mod Sweep
use ourdao_backend.Common.{
  ℕ, String, Bool, true, false, Option, none, some, List, [], ◌∷◌, ◌+◌, ◌-◌, Result, ok, err, ltb,
  leb, if◌then◌else◌, ◌==◌, ◌!==◌, string_eq, length,
}
use ourdao_backend.Common.Table.{Table, lookup, put, erase}

pub record NonceEntry : Type 0 where
  pub address : String
  pub expires_at : ℕ

-- `config.db.nonceTtlMs` and `nonceMaxEntries`
pub record NonceConfig : Type 0 where
  pub ttl_ms : ℕ
  pub max_entries : ℕ

abbrev pub max_nonces_per_address : ℕ
max_nonces_per_address = 100

pub record MemoryNonceStore : Type 0 where
  pub store : Table String NonceEntry
  pub address_issue_counts : Table String ℕ

pub data NonceError : Type 0 where
  store_full too_many_for_address : NonceError

unfoldable pub or_zero : Option ℕ → ℕ
or_zero none = 0
or_zero (some n) = n

-- `this.addressIssueCounts.get(address) ?? 0`
unfoldable pub issue_count : String → MemoryNonceStore → ℕ
unfolding or_zero
issue_count address s = or_zero (lookup address s.address_issue_counts)

-- one outstanding nonce fewer
unfoldable pub decrement : String → MemoryNonceStore → MemoryNonceStore
decrement address s = record s {
  address_issue_counts =
      if ltb 1 (issue_count address s)
      then put address (issue_count address s - 1) s.address_issue_counts
      else erase address s.address_issue_counts;
}

unfoldable pub delete_nonce : String → MemoryNonceStore → MemoryNonceStore
delete_nonce nonce s = record s { store = erase nonce s.store }

unfoldable pub issue :
    NonceConfig
    → ℕ
    → String
    → String
    → MemoryNonceStore
    → Result NonceError String × MemoryNonceStore
issue config now address nonce s =
    if leb config.max_entries (length s.store)
    then (err store_full, s)
    else if leb max_nonces_per_address (issue_count address s)
    then (err too_many_for_address, s)
    else (
      ok nonce,
      record s {
        store = put nonce (record { address = address; expires_at = now + config.ttl_ms }) s.store;
        address_issue_counts = put address (issue_count address s + 1) s.address_issue_counts;
      },
    )

unfoldable pub consume_entry :
    ℕ → String → String → Option NonceEntry → MemoryNonceStore → Bool × MemoryNonceStore
unfolding delete_nonce
consume_entry now address nonce none s = (false, s)
consume_entry now address nonce (some entry) s =
    if ltb entry.expires_at now
    then (false, decrement address (delete_nonce nonce s))
    else if entry.address !== address
    then (false, s)
    else (true, decrement address (delete_nonce nonce s))

unfoldable pub consume : ℕ → String → String → MemoryNonceStore → Bool × MemoryNonceStore
unfolding consume_entry
consume now address nonce s = consume_entry now address nonce (lookup nonce s.store) s

-- the timer's sweep, over the entries as they were when it began
unfoldable pub sweep_entries : ℕ → Table String NonceEntry → MemoryNonceStore → MemoryNonceStore
unfolding delete_nonce
sweep_entries now [] s = s
sweep_entries now ((nonce, entry) ∷ rest) s =
    sweep_entries now rest
      (if ltb entry.expires_at now then decrement entry.address (delete_nonce nonce s) else s)

unfoldable pub sweep : ℕ → MemoryNonceStore → MemoryNonceStore
unfolding sweep_entries
sweep now s = sweep_entries now s.store s
