-- ===== src/Auth/Nonces/Consume.antt =====
-- auth.ts, MemoryNonceStore.consume: who can use a challenge, when, and how often.
use ourdao_backend.Common.{
  ℕ, String, Bool, true, false, Option, none, some, ◌+◌, ◌-◌, ◌<◌, ◌≤◌, ltb, ltb-false,
  if◌then◌else◌, ◌==◌, string_eq, ◌≡◌, ◌≢◌, refl, sym, subst, ◌∙◌, Bool-cases, inl, inr, ==_cases,
  ==_refl, arith,
}
use ourdao_backend.Common.Table.{lookup, erase, IsUnique, lookup-erase_self, sum_of, sum_of-erase}
use ourdao_backend.Auth.Nonces.{
  NonceEntry, MemoryNonceStore, issue_count, decrement, consume, consume_entry, delete_nonce,
}
use ourdao_backend.Auth.Nonces.Counts.{
  IsValid, belongs, issue_count-decrement, same_count, dropped-IsValid,
}

-- the nonce is unknown, expired, another's, or accepted
consume_entry-accepts :
    (now : ℕ) (address nonce : String) (o : Option NonceEntry) (s : MemoryNonceStore)
    {s' : MemoryNonceStore}
    → consume_entry now address nonce o s ≡ (true, s')
    → (entry : NonceEntry) × (o ≡ some entry)
      × (entry.address ≡ address)
      × (now ≤ entry.expires_at)
      × (decrement address (delete_nonce nonce s) ≡ s')
unfolding consume_entry delete_nonce
consume_entry-accepts now address nonce none s h = absurd (cc h)
consume_entry-accepts now address nonce (some entry) s {s'} h =
    elim (Bool-cases (ltb entry.expires_at now)) [
      | inl late ↦
          (let p : (false, decrement address (delete_nonce nonce s)) ≡ (true, s') =
              (rw late at h) in
            absurd (cc p))
      | inr early ↦ elim (==_cases entry.address address) [
        | inl (g, same) ↦
            let p : (true, decrement address (delete_nonce nonce s)) ≡ (true, s') =
              (rw (early, g) at h) in
            (entry, refl, same, ltb-false entry.expires_at now early, cc p)
        | inr (g, other) ↦ (let p : (false, s) ≡ (true, s') = (rw (early, g) at h) in absurd (cc p))
      ]
    ]

-- If a challenge is accepted, it was issued to this address and had not expired.
pub consume-accepts :
    (now : ℕ) (address nonce : String) (s : MemoryNonceStore) {s' : MemoryNonceStore}
    → consume now address nonce s ≡ (true, s')
    → (entry : NonceEntry) × (lookup nonce s.store ≡ some entry)
      × (entry.address ≡ address)
      × (now ≤ entry.expires_at)
      × (decrement address (delete_nonce nonce s) ≡ s')
unfolding consume
consume-accepts now address nonce s h =
    consume_entry-accepts now address nonce (lookup nonce s.store) s h

pub consume_missing :
    (now : ℕ) (address nonce : String) (s : MemoryNonceStore)
    → lookup nonce s.store ≡ none
    → consume now address nonce s ≡ (false, s)
unfolding consume consume_entry
consume_missing now address nonce s h = rw h refl

gone :
    (address nonce : String) (s : MemoryNonceStore)
    → IsUnique s.store
    → lookup nonce (decrement address (delete_nonce nonce s)).store ≡ none
unfolding decrement delete_nonce
gone address nonce s u = lookup-erase_self nonce s.store u

-- If the counters are right, an accepted challenge leaves them right, and is accepted from nobody
-- again, whenever it is sent again.
pub consume-once :
    (now later : ℕ) (address other nonce : String) (s : MemoryNonceStore) {s' : MemoryNonceStore}
    → IsValid s
    → consume now address nonce s ≡ (true, s')
    → IsValid s' × (consume later other nonce s' ≡ (false, s'))
consume-once now later address other nonce s {s'} v h =
    let (entry, found, same, early, left) = consume-accepts now address nonce s h in
    let right : IsValid (decrement address (delete_nonce nonce s)) =
      subst (λ a. IsValid (decrement a (delete_nonce nonce s))) same
        (dropped-IsValid nonce entry s found v) in
    (
      subst IsValid left right,
      subst (λ t. consume later other nonce t ≡ (false, t)) left
          (consume_missing later other nonce _ (gone address nonce s v.unique_nonces)),
    )

unchanged_by : (x y o e b c : ℕ) → x ≡ y - b → b ≡ 0 → y ≡ o → e + c ≡ o → c ≡ 1 → x ≢ e
unchanged_by x y o e b c p q r s t = λ w. omega arith

belongs_other : (a b : String) → a ≢ b → ◌≡◌ {A = ℕ} (if b == a then 1 else 0) 0
belongs_other a b h = elim (==_cases b a) [
  | inl (g, same) ↦ absurd (h (sym same))
  | inr (g, other) ↦ rw g refl
]

belongs_self : (a : String) → ◌≡◌ {A = ℕ} (if a == a then 1 else 0) 1
belongs_self a = rw (==_refl a) refl

-- a challenge that has not expired is accepted from its address
pub consume_unexpired :
    (now : ℕ) (address nonce : String) (entry : NonceEntry) (s : MemoryNonceStore)
    → lookup nonce s.store ≡ some entry
    → now ≤ entry.expires_at
    → consume now address nonce s ≡ (
        if entry.address == address
        then (true, decrement address (delete_nonce nonce s))
        else (false, s))
unfolding consume consume_entry delete_nonce
consume_unexpired now address nonce entry s found early =
    let unexpired : ltb entry.expires_at now ≡ false = ground arith in
    rw (found, unexpired)
      (elim (Bool-cases (entry.address == address)) [ inl g ↦ rw g refl | inr g ↦ rw g refl ])

leaked_count :
    (address nonce : String) (entry : NonceEntry) (s : MemoryNonceStore)
    → lookup nonce s.store ≡ some entry
    → entry.address ≢ address
    → IsValid s
    → issue_count entry.address (decrement address (delete_nonce nonce s))
      ≢ sum_of (belongs entry.address) (erase nonce s.store)
unfolding delete_nonce
leaked_count address nonce entry s found other v =
    unchanged_by _ _ _ _ _ _
      (issue_count-decrement entry.address address (delete_nonce nonce s) v.unique_counts)
      (belongs_other entry.address address other)
      (same_count entry.address nonce s ∙ v.counted entry.address)
      (sum_of-erase (belongs entry.address) nonce entry s.store found) (belongs_self entry.address)

pub consume_expired :
    (now : ℕ) (address nonce : String) (entry : NonceEntry) (s : MemoryNonceStore)
    → lookup nonce s.store ≡ some entry
    → entry.expires_at < now
    → consume now address nonce s ≡ (false, decrement address (delete_nonce nonce s))
unfolding consume consume_entry delete_nonce
consume_expired now address nonce entry s found late =
    let expired : ltb entry.expires_at now ≡ true = ground arith in rw (found, expired) refl

IsValid-counts :
    (a address nonce : String) (s : MemoryNonceStore)
    → IsValid (decrement address (delete_nonce nonce s))
    → issue_count a (decrement address (delete_nonce nonce s))
      ≡ sum_of (belongs a) (erase nonce s.store)
unfolding delete_nonce decrement
IsValid-counts a address nonce s v = v.counted a

-- If an address presents another address's challenge after it has expired, the counters stop being
-- right: the challenge is deleted and its owner's counter stays.
pub consume-leaks :
    (now : ℕ) (address nonce : String) (entry : NonceEntry) (s : MemoryNonceStore)
    → lookup nonce s.store ≡ some entry
    → entry.expires_at < now
    → entry.address ≢ address
    → IsValid s
    → ¬ IsValid (consume now address nonce s).1
consume-leaks now address nonce entry s found late other v w =
    let after : IsValid (decrement address (delete_nonce nonce s)) =
      subst (λ (p : Bool × MemoryNonceStore). IsValid p.1)
        (consume_expired now address nonce entry s found late) w in
    leaked_count address nonce entry s found other v
      (IsValid-counts entry.address address nonce s after)
