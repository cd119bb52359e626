-- ===== src/Auth/Postgres.antt =====
-- auth.ts, PostgresNonceStore: the challenges in the table auth_nonces, under its primary key.
-- `db_now` is the database's now() and `now` the clock of the process. A statement that fails,
-- timers and logging are left out, and so is the new nonce's text, which is an argument.
pub mod Limits
pub mod Agreement
use ourdao_backend.Common.{
  ℕ, String, Bool, true, false, Option, none, some, List, [], ◌∷◌, ◌+◌, Result, err, ok, ltb, leb,
  if◌then◌else◌, ◌==◌, string_eq, ◌&&◌,
}
use ourdao_backend.Common.Table.{Table, lookup, put, erase, has, sum_of}
use ourdao_backend.Common.Rows.{delete_where}
use ourdao_backend.Auth.Nonces.{NonceEntry, NonceConfig, max_nonces_per_address}

pub data IssueError : Type 0 where
  store_full too_many_for_address : IssueError
  -- the primary key's violation
  duplicate_nonce : IssueError

-- `expires_at > now()`
unfoldable pub is_live : ℕ → NonceEntry → Bool
is_live db_now entry = ltb db_now entry.expires_at

unfoldable pub one_if : Bool → ℕ
one_if true = 1
one_if false = 0

-- `COUNT(*) FILTER (WHERE expires_at > now())`
unfoldable pub total : ℕ → Table String NonceEntry → ℕ
unfolding is_live one_if sum_of
total db_now rows = sum_of (λ entry. one_if (is_live db_now entry)) rows

-- `COUNT(*) FILTER (WHERE expires_at > now() AND address = $1)`
unfoldable pub address_total : ℕ → String → Table String NonceEntry → ℕ
unfolding is_live one_if sum_of
address_total db_now address rows =
    sum_of (λ entry. one_if (is_live db_now entry && (entry.address == address))) rows

unfoldable pub insert_nonce :
    String
    → NonceEntry
    → Table String NonceEntry
    → Result IssueError String × Table String NonceEntry
unfolding has put
insert_nonce nonce entry rows =
    if has nonce rows
    then (err IssueError.duplicate_nonce, rows)
    else (ok nonce, put nonce entry rows)

-- The two statements of `issue` are awaited one after the other, without a transaction: `counted` are
-- the rows when they are counted, `rows` those of the insert.
unfoldable pub issue :
    NonceConfig
    → ℕ
    → ℕ
    → String
    → String
    → Table String NonceEntry
    → Table String NonceEntry
    → Result IssueError String × Table String NonceEntry
unfolding total address_total insert_nonce
issue config db_now now address nonce counted rows =
    if leb config.max_entries (total db_now counted)
    then (err IssueError.store_full, rows)
    else if leb max_nonces_per_address (address_total db_now address counted)
    then (err IssueError.too_many_for_address, rows)
    else insert_nonce nonce (record { address = address; expires_at = now + config.ttl_ms }) rows

-- `DELETE … WHERE nonce = $1 AND address = $2 AND expires_at > now() RETURNING nonce`
unfoldable pub delete_matching :
    ℕ
    → String
    → String
    → Option NonceEntry
    → Table String NonceEntry
    → Bool × Table String NonceEntry
unfolding is_live
delete_matching db_now address nonce none rows = (false, rows)
delete_matching db_now address nonce (some entry) rows =
    if (entry.address == address) && is_live db_now entry
    then (true, erase nonce rows)
    else (false, rows)

unfoldable pub consume :
    ℕ → String → String → Table String NonceEntry → Bool × Table String NonceEntry
unfolding delete_matching lookup
consume db_now address nonce rows = delete_matching db_now address nonce (lookup nonce rows) rows

-- `DELETE FROM auth_nonces WHERE expires_at <= now()`
unfoldable pub cleanup : ℕ → Table String NonceEntry → Table String NonceEntry
unfolding delete_where
cleanup db_now rows = delete_where (λ entry. leb entry.expires_at db_now) rows rows
