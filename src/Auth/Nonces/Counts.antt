-- ===== src/Auth/Nonces/Counts.antt =====
-- auth.ts, MemoryNonceStore: the counters of the addresses and their outstanding nonces.
use ourdao_backend.Common.{
  ℕ, String, none, some, ◌+◌, ◌-◌, ltb, leb, if◌then◌else◌, ◌==◌, string_eq, length, ◌≡◌, refl, sym,
  ◌∙◌, Bool-cases, inl, inr, ==_cases, arith,
}
use ourdao_backend.Common.Table.{
  Table, lookup, put, erase, IsUnique, IsUnique-put, IsUnique-erase, lookup-put_self, lookup-put_ne,
  lookup-erase_self, lookup-erase_ne, sum_of, sum_of-put_new, sum_of-erase,
}
use ourdao_backend.Auth.Nonces.{
  NonceEntry, NonceConfig, MemoryNonceStore, or_zero, issue_count, decrement, issue, delete_nonce,
  max_nonces_per_address,
}

-- 1 for an entry of the address
abbrev pub belongs : String → NonceEntry → ℕ
belongs address entry = if entry.address == address then 1 else 0

-- the outstanding nonces of an address
abbrev pub outstanding : String → MemoryNonceStore → ℕ
outstanding address s = sum_of (belongs address) s.store

pub record IsValid (s : MemoryNonceStore) : Type 0 where
  pub unique_nonces : IsUnique s.store
  pub unique_counts : IsUnique s.address_issue_counts
  pub counted : (address : String) → issue_count address s ≡ outstanding address s

-- The counter of one address after a decrement.
pub issue_count-decrement :
    (a b : String) (s : MemoryNonceStore)
    → IsUnique s.address_issue_counts
    → issue_count a (decrement b s) ≡ issue_count a s - (if b == a then 1 else 0)
unfolding decrement issue_count
issue_count-decrement a b s u =
    let n = issue_count b s - 1 in
    let counts = s.address_issue_counts in
    elim (==_cases b a) [
      | inl (g, same) ↦ ground (
        arith,
        lookup-put_self a n counts,
        lookup-put_self b n counts,
        lookup-erase_self a counts u,
        lookup-erase_self b counts u,
      )
      | inr (g, other) ↦ ground (
        arith,
        lookup-put_ne a b n counts (λ p. other (sym p)),
        lookup-erase_ne a b counts (λ p. other (sym p)),
      )
    ]

IsUnique-decrement :
    (b : String) (s : MemoryNonceStore)
    → IsUnique s.address_issue_counts
    → IsUnique (decrement b s).address_issue_counts
unfolding decrement
IsUnique-decrement b s u = elim (Bool-cases (ltb 1 (issue_count b s))) [
  | inl g ↦ rw (g, decrement) (IsUnique-put b _ s.address_issue_counts u)
  | inr g ↦ rw (g, decrement) (IsUnique-erase b s.address_issue_counts u)
]

store-decrement : (b : String) (s : MemoryNonceStore) → (decrement b s).store ≡ s.store
unfolding decrement
store-decrement b s = refl

pub same_count :
    (a nonce : String) (s : MemoryNonceStore)
    → issue_count a (delete_nonce nonce s) ≡ issue_count a s
unfolding issue_count delete_nonce
same_count a nonce s = refl

lowered_by : (x y o e b : ℕ) → x ≡ y - b → y ≡ o → e + b ≡ o → x ≡ e
lowered_by x y o e b p q r = omega arith

erased_count :
    (a nonce : String) (entry : NonceEntry) (s : MemoryNonceStore)
    → lookup nonce s.store ≡ some entry
    → IsUnique s.address_issue_counts
    → issue_count a s ≡ outstanding a s
    → issue_count a (decrement entry.address (delete_nonce nonce s))
      ≡ sum_of (belongs a) (erase nonce s.store)
unfolding delete_nonce
erased_count a nonce entry s e u counted =
    lowered_by _ _ _ _ _ (issue_count-decrement a entry.address (delete_nonce nonce s) u)
      (same_count a nonce s ∙ counted) (sum_of-erase (belongs a) nonce entry s.store e)

-- An entry is deleted and the counter of its own address lowered.
pub dropped-IsValid :
    (nonce : String) (entry : NonceEntry) (s : MemoryNonceStore)
    → lookup nonce s.store ≡ some entry
    → IsValid s
    → IsValid (decrement entry.address (delete_nonce nonce s))
unfolding delete_nonce decrement
dropped-IsValid nonce entry s e v = record {
  unique_nonces = IsUnique-erase nonce s.store v.unique_nonces;
  unique_counts =
      unfold delete_nonce decrement in
      IsUnique-decrement entry.address (delete_nonce nonce s) v.unique_counts;
  counted = λ address. erased_count address nonce entry s e v.unique_counts (v.counted address);
}

counted_again : String → MemoryNonceStore → Table String ℕ
counted_again address s = put address (issue_count address s + 1) s.address_issue_counts

issued_count :
    (a b : String) (s : MemoryNonceStore)
    → or_zero (lookup a (counted_again b s)) ≡ issue_count a s + (if b == a then 1 else 0)
unfolding issue_count or_zero counted_again
issued_count a b s =
    let n = issue_count b s + 1 in
    elim (==_cases b a) [
      | inl (g, same) ↦ ground (
        arith,
        lookup-put_self a n s.address_issue_counts,
        lookup-put_self b n s.address_issue_counts,
      )
      | inr (g, other) ↦
          ground (arith, lookup-put_ne a b n s.address_issue_counts (λ p. other (sym p)))
    ]

raised_by : (x y o e b : ℕ) → x ≡ y + b → y ≡ o → e ≡ o + b → x ≡ e
raised_by x y o e b p q r = omega arith

abbrev issued : NonceConfig → ℕ → String → String → MemoryNonceStore → MemoryNonceStore
issued config now address nonce s = record s {
  store = put nonce (record { address = address; expires_at = now + config.ttl_ms }) s.store;
  address_issue_counts = put address (issue_count address s + 1) s.address_issue_counts;
}

issue_count-issued :
    (config : NonceConfig) (now : ℕ) (a b nonce : String) (s : MemoryNonceStore)
    → issue_count a (issued config now b nonce s) ≡ issue_count a s + (if b == a then 1 else 0)
unfolding issue_count counted_again
issue_count-issued config now a b nonce s = issued_count a b s

issued-IsValid :
    (config : NonceConfig) (now : ℕ) (address nonce : String) (s : MemoryNonceStore)
    → lookup nonce s.store ≡ none
    → IsValid s
    → IsValid (issued config now address nonce s)
issued-IsValid config now address nonce s fresh v =
    let entry : NonceEntry = record { address = address; expires_at = now + config.ttl_ms } in
    record {
      unique_nonces = IsUnique-put nonce entry s.store v.unique_nonces;
      unique_counts =
          IsUnique-put address (issue_count address s + 1) s.address_issue_counts v.unique_counts;
      counted = λ a.
          raised_by _ _ _ _ _ (issue_count-issued config now a address nonce s) (v.counted a)
            (sum_of-put_new (belongs a) nonce entry s.store fresh);
    }

-- If the new nonce is not in use, issuing a challenge keeps each counter equal to the number of
-- outstanding nonces of its address, also where it is refused.
pub issue-IsValid :
    (config : NonceConfig) (now : ℕ) (address nonce : String) (s : MemoryNonceStore)
    → lookup nonce s.store ≡ none
    → IsValid s
    → IsValid (issue config now address nonce s).1
unfolding issue
issue-IsValid config now address nonce s fresh v =
    elim (Bool-cases (leb config.max_entries (length s.store))) [
      | inl e ↦ rw e v
      | inr e ↦ rw e (elim (Bool-cases (leb max_nonces_per_address (issue_count address s))) [
        | inl g ↦ rw g v
        | inr g ↦ rw g (issued-IsValid config now address nonce s fresh v)
      ])
    ]
