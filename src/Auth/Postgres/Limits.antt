-- ===== src/Auth/Postgres/Limits.antt =====
-- auth.ts, PostgresNonceStore.issue: how many challenges can be live.
use ourdao_backend.Common.{
  ℕ, String, Bool, true, false, none, some, ok, err, Result, ◌≤◌, ◌<◌, ◌≡◌, ◌+◌, ◌-◌, leb,
  Bool-cases, inl, inr, arith, string_eq, ◌==◌, ◌&&◌,
}
use ourdao_backend.Common.Table.{Table, lookup, put, has, has-none, lookup-put_self, sum_of-put_new}
use ourdao_backend.Auth.Nonces.{NonceEntry, NonceConfig, max_nonces_per_address}
use ourdao_backend.Auth.Postgres.{
  IssueError, is_live, one_if, total, address_total, insert_nonce, issue,
}

one_if-le : (b : Bool) → one_if b ≤ 1
unfolding one_if
one_if-le true = omega arith
one_if-le false = omega arith

inserted :
    (nonce : String) (entry : NonceEntry) (rows : Table String NonceEntry)
    {rows' : Table String NonceEntry}
    → insert_nonce nonce entry rows ≡ (ok nonce, rows')
    → (lookup nonce rows ≡ none) × (rows' ≡ put nonce entry rows)
unfolding insert_nonce
inserted nonce entry rows {rows'} h = elim (Bool-cases (has nonce rows)) [
  | inl g ↦
      (let p : ◌≡◌ {A = Result IssueError String × Table String NonceEntry}
            (err IssueError.duplicate_nonce, rows) (ok nonce, rows') =
          (rw g at h) in
        absurd (cc p))
  | inr g ↦
      let p : ◌≡◌ {A = Result IssueError String × Table String NonceEntry}
          (ok nonce, put nonce entry rows) (ok nonce, rows') =
        (rw g at h) in
      (has-none nonce rows g, cc p)
]

accepted :
    (config : NonceConfig) (db_now now : ℕ) (address nonce : String)
    (counted rows : Table String NonceEntry) {rows' : Table String NonceEntry}
    → issue config db_now now address nonce counted rows ≡ (ok nonce, rows')
    → (total db_now counted < config.max_entries)
      × (address_total db_now address counted < max_nonces_per_address)
      × (lookup nonce rows ≡ none)
      × (rows' ≡ put nonce (record { address = address; expires_at = now + config.ttl_ms }) rows)
unfolding issue
accepted config db_now now address nonce counted rows {rows'} h =
    elim (Bool-cases (leb config.max_entries (total db_now counted))) [
      | inl full ↦
          (let p : ◌≡◌ {A = Result IssueError String × Table String NonceEntry}
                (err IssueError.store_full, rows) (ok nonce, rows') =
              (rw full at h) in
            absurd (cc p))
      | inr room ↦
          elim (Bool-cases (leb max_nonces_per_address (address_total db_now address counted))) [
            | inl many ↦
                (let p : ◌≡◌ {A = Result IssueError String × Table String NonceEntry}
                      (err IssueError.too_many_for_address, rows) (ok nonce, rows') =
                    (rw (room, many) at h) in
                  absurd (cc p))
            | inr few ↦
                let (new, written) = inserted nonce _ rows (rw (room, few) at h) in
                (ground arith, ground arith, new, written)
          ]
    ]

-- If a challenge is issued, it stands in the table for its address and no row had its nonce. The live
-- challenges exceed the limits, of all addresses and of this one, at most by what was added between the
-- count and the insert: where nothing was, they are within the limits.
pub issue-IsWithin :
    (config : NonceConfig) (db_now now : ℕ) (address nonce : String)
    (counted rows : Table String NonceEntry) {rows' : Table String NonceEntry}
    → issue config db_now now address nonce counted rows ≡ (ok nonce, rows')
    → (lookup nonce rows ≡ none)
      × (lookup nonce rows' ≡ some (record { address = address; expires_at = now + config.ttl_ms }))
      × (total db_now rows' ≤ config.max_entries + (total db_now rows - total db_now counted))
      × (address_total db_now address rows'
          ≤ max_nonces_per_address
            + (address_total db_now address rows - address_total db_now address counted))
unfolding total address_total
issue-IsWithin config db_now now address nonce counted rows h =
    let (room, few, new, written) = accepted config db_now now address nonce counted rows h in
    let entry : NonceEntry = record { address = address; expires_at = now + config.ttl_ms } in
    let all = sum_of-put_new (λ entry. one_if (is_live db_now entry)) nonce entry rows new in
    let own =
      sum_of-put_new (λ entry. one_if (is_live db_now entry && (entry.address == address))) nonce
        entry rows new in
    let one = one_if-le (is_live db_now entry) in
    let mine = one_if-le (is_live db_now entry && (address == address)) in
    rw written (new, lookup-put_self nonce entry rows, omega arith, omega arith)
