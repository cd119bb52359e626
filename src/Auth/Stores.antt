-- ===== src/Auth/Stores.antt =====
-- auth.ts, NonceStore: what a store of challenges promises to the requests, and that both stores
-- keep the promise.
use ourdao_backend.Common.{
  ℕ, String, Bool, true, false, Option, none, some, ◌≡◌, refl, ◌∙◌, Bool-cases, inl, inr, ◌⊎◌,
  string_eq, ◌==◌, ==_cases, ◌&&◌, ltb,
}
use ourdao_backend.Common.Table.{
  Table, lookup, erase, IsUnique, IsUnique-erase, lookup-erase_self, lookup-erase_ne,
}
use ourdao_backend.Auth.Nonces.{
  NonceEntry, MemoryNonceStore, decrement, delete_nonce, consume_entry,
}
use ourdao_backend.Auth.Nonces
use ourdao_backend.Auth.Nonces.Consume.{consume_missing}
use ourdao_backend.Auth.Postgres.{delete_matching, is_live}
use ourdao_backend.Auth.Postgres

-- A store with its state: which states are in order, and which challenges nobody can use any more.
pub record NonceStore (S : Type 0) : Type 1 where
  pub consume : ℕ → String → String → S → Bool × S
  pub IsSound : S → Type 0
  pub IsSpent : String → S → Type 0
  pub keeps :
      (now : ℕ) (address nonce : String) (s : S)
      → IsSound s
      → IsSound (consume now address nonce s).1
  pub spends :
      (now : ℕ) (address nonce : String) (s : S)
      → IsSound s
      → (consume now address nonce s).0 ≡ true
      → IsSpent nonce (consume now address nonce s).1
  pub stays :
      (now : ℕ) (address other nonce : String) (s : S)
      → IsSound s
      → IsSpent nonce s
      → IsSpent nonce (consume now address other s).1
  pub refuses :
      (now : ℕ) (address nonce : String) (s : S)
      → IsSpent nonce s
      → consume now address nonce s ≡ (false, s)

module _ {V : Type 0} where
  lookup-erase_none :
      (n k : String) (t : Table String V)
      → IsUnique t
      → lookup n t ≡ none
      → lookup n (erase k t) ≡ none
  lookup-erase_none n k t u h = elim (==_cases n k) [
    | inl (g, same) ↦ rw same (lookup-erase_self k t u)
    | inr (g, other) ↦ lookup-erase_ne n k t other ∙ h
  ]

-- the entries are left, or the presented one is deleted
memory_cases :
    (now : ℕ) (address nonce : String) (o : Option NonceEntry) (s : MemoryNonceStore)
    → (consume_entry now address nonce o s ≡ (false, s))
      ⊎ ((consume_entry now address nonce o s).1.store ≡ erase nonce s.store)
unfolding consume_entry decrement delete_nonce
memory_cases now address nonce none s = inl refl
memory_cases now address nonce (some entry) s = elim (Bool-cases (ltb entry.expires_at now)) [
  | inl late ↦ rw late (inr refl)
  | inr early ↦ elim (Bool-cases (entry.address == address)) [
    | inl g ↦ rw (early, g) (inr refl)
    | inr g ↦ rw (early, g) (inl refl)
  ]
]

postgres_cases :
    (now : ℕ) (address nonce : String) (o : Option NonceEntry) (rows : Table String NonceEntry)
    → (delete_matching now address nonce o rows ≡ (false, rows))
      ⊎ ((delete_matching now address nonce o rows).1 ≡ erase nonce rows)
unfolding delete_matching
postgres_cases now address nonce none rows = inl refl
postgres_cases now address nonce (some entry) rows =
    elim (Bool-cases ((entry.address == address) && is_live now entry)) [
      | inl g ↦ rw g (inr refl)
      | inr g ↦ rw g (inl refl)
    ]

module _ {S : Type 0} (entries : S → Table String NonceEntry) (s : S) (nonce : String)
    (r : Bool × S) (cases : (r ≡ (false, s)) ⊎ (entries r.1 ≡ erase nonce (entries s)))
    (u : IsUnique (entries s)) where
  kept_unique : IsUnique (entries r.1)
  kept_unique = elim cases [ inl h ↦ rw h u | inr h ↦ rw h (IsUnique-erase nonce (entries s) u) ]

  spent_now : r.0 ≡ true → lookup nonce (entries r.1) ≡ none
  spent_now accepted = elim cases [
    | inl h ↦ (let refused : r.0 ≡ false = (rw h refl) in absurd (cc (accepted, refused)))
    | inr h ↦ rw h (lookup-erase_self nonce (entries s) u)
  ]

  stays_spent :
      (other : String) → lookup other (entries s) ≡ none → lookup other (entries r.1) ≡ none
  stays_spent other gone = elim cases [
    | inl h ↦ rw h gone
    | inr h ↦ rw h (lookup-erase_none other nonce (entries s) u gone)
  ]

memory_consume :
    (now : ℕ) (address nonce : String) (s : MemoryNonceStore)
    → (Nonces.consume now address nonce s ≡ (false, s))
      ⊎ ((Nonces.consume now address nonce s).1.store ≡ erase nonce s.store)
unfolding Nonces.consume
memory_consume now address nonce s = memory_cases now address nonce (lookup nonce s.store) s

postgres_consume :
    (now : ℕ) (address nonce : String) (rows : Table String NonceEntry)
    → (Postgres.consume now address nonce rows ≡ (false, rows))
      ⊎ ((Postgres.consume now address nonce rows).1 ≡ erase nonce rows)
unfolding Postgres.consume
postgres_consume now address nonce rows = postgres_cases now address nonce (lookup nonce rows) rows

postgres_missing :
    (now : ℕ) (address nonce : String) (rows : Table String NonceEntry)
    → lookup nonce rows ≡ none
    → Postgres.consume now address nonce rows ≡ (false, rows)
unfolding Postgres.consume delete_matching
postgres_missing now address nonce rows h = rw h refl

unfoldable pub memory_store : NonceStore MemoryNonceStore
unfolding kept_unique memory_consume spent_now stays_spent lookup-erase_none memory_cases
memory_store = record {
  consume = Nonces.consume;
  IsSound = λ s. IsUnique s.store;
  IsSpent = λ nonce s. lookup nonce s.store ≡ none;
  keeps = λ now address nonce s u.
      kept_unique (λ t. t.store) s nonce (Nonces.consume now address nonce s)
        (memory_consume now address nonce s) u;
  spends = λ now address nonce s u accepted.
      spent_now (λ t. t.store) s nonce (Nonces.consume now address nonce s)
        (memory_consume now address nonce s) u accepted;
  stays = λ now address other nonce s u gone.
      stays_spent (λ t. t.store) s other (Nonces.consume now address other s)
        (memory_consume now address other s) u nonce gone;
  refuses = consume_missing;
}

unfoldable pub postgres_store : NonceStore (Table String NonceEntry)
unfolding kept_unique postgres_consume spent_now stays_spent postgres_missing lookup-erase_none
    postgres_cases
postgres_store = record {
  consume = Postgres.consume;
  IsSound = IsUnique;
  IsSpent = λ nonce rows. lookup nonce rows ≡ none;
  keeps = λ now address nonce s u.
      kept_unique (λ t. t) s nonce (Postgres.consume now address nonce s)
        (postgres_consume now address nonce s) u;
  spends = λ now address nonce s u accepted.
      spent_now (λ t. t) s nonce (Postgres.consume now address nonce s)
        (postgres_consume now address nonce s) u accepted;
  stays = λ now address other nonce s u gone.
      stays_spent (λ t. t) s other (Postgres.consume now address other s)
        (postgres_consume now address other s) u nonce gone;
  refuses = postgres_missing;
}
