-- ===== src/Auth/Postgres/Agreement.antt =====
-- auth.ts, MemoryNonceStore and PostgresNonceStore: the store of development and that of production
-- accept the same challenges. Their entries are compared by what has not expired.
use ourdao_backend.Common.{
  ℕ, String, Bool, true, false, Option, none, some, ◌≡◌, ◌≢◌, refl, sym, ltb, ltb→lt, ltb-false,
  ◌<◌, Bool-cases, Option-cases, inl, inr, arith, string_eq, ◌==◌, ==_cases, ◌∙◌, if◌then◌else◌,
}
use ourdao_backend.Common.Table.{Table, lookup, erase, IsUnique, lookup-erase_self, lookup-erase_ne}
use ourdao_backend.Auth.Nonces.{NonceEntry, MemoryNonceStore, decrement, delete_nonce}
use ourdao_backend.Auth.Nonces
use ourdao_backend.Auth.Nonces.Consume.{consume_missing, consume_expired, consume_unexpired}
use ourdao_backend.Auth.Postgres.{is_live, delete_matching}
use ourdao_backend.Auth.Postgres

-- the entry, unless it has expired
abbrev live_of : ℕ → Option NonceEntry → Option NonceEntry
live_of now none = none
live_of now (some entry) = if is_live now entry then some entry else none

-- The stores have the same unexpired challenges.
abbrev pub Agree : ℕ → Table String NonceEntry → Table String NonceEntry → Type 0
Agree now memory rows = (k : String) → live_of now (lookup k memory) ≡ live_of now (lookup k rows)

live_entry :
    (now : ℕ) (o : Option NonceEntry) {entry : NonceEntry}
    → live_of now o ≡ some entry
    → (o ≡ some entry) × (is_live now entry ≡ true)
live_entry now none h = cc h
live_entry now (some e) {entry} h = elim (Bool-cases (is_live now e)) [
  | inl g ↦
      let p : some e ≡ some entry = (rw g at h) in let same : e ≡ entry = cc p in (p, rw (← same) g)
  | inr g ↦ (let p : none ≡ some entry = (rw g at h) in absurd (cc p))
]

postgres_refuses :
    (now : ℕ) (address nonce : String) (o : Option NonceEntry) (rows : Table String NonceEntry)
    → live_of now o ≡ none
    → delete_matching now address nonce o rows ≡ (false, rows)
unfolding delete_matching
postgres_refuses now address nonce none rows h = refl
postgres_refuses now address nonce (some e) rows h = elim (Bool-cases (is_live now e)) [
  | inl g ↦ (let p : some e ≡ none = (rw g at h) in absurd (cc p))
  | inr g ↦ elim (Bool-cases (e.address == address)) [
    | inl b ↦ rw (g, b) refl
    | inr b ↦ rw (g, b) refl
  ]
]

postgres_decides :
    (now : ℕ) (address nonce : String) (entry : NonceEntry) (rows : Table String NonceEntry)
    → is_live now entry ≡ true
    → delete_matching now address nonce (some entry) rows
      ≡ (if entry.address == address then (true, erase nonce rows) else (false, rows))
unfolding delete_matching
postgres_decides now address nonce entry rows live = elim (Bool-cases (entry.address == address)) [
  | inl g ↦ rw (live, g) refl
  | inr g ↦ rw (live, g) refl
]

Agree-erase_left :
    (now : ℕ) (nonce : String) (memory rows : Table String NonceEntry)
    → IsUnique memory
    → live_of now (lookup nonce rows) ≡ none
    → Agree now memory rows
    → Agree now (erase nonce memory) rows
Agree-erase_left now nonce memory rows u dead agree = λ k. elim (==_cases k nonce) [
  | inl (g, same) ↦ rw same (rw (lookup-erase_self nonce memory u, dead) refl)
  | inr (g, other) ↦ rw (lookup-erase_ne k nonce memory other) (agree k)
]

Agree-erase :
    (now : ℕ) (nonce : String) (memory rows : Table String NonceEntry)
    → IsUnique memory
    → IsUnique rows
    → Agree now memory rows
    → Agree now (erase nonce memory) (erase nonce rows)
Agree-erase now nonce memory rows um ur agree = λ k. elim (==_cases k nonce) [
  | inl (g, same) ↦
      rw same (rw (lookup-erase_self nonce memory um, lookup-erase_self nonce rows ur) refl)
  | inr (g, other) ↦
      rw (lookup-erase_ne k nonce memory other, lookup-erase_ne k nonce rows other) (agree k)
]

-- the verdicts are the same, and the stores agree afterwards
abbrev pub SameVerdict : ℕ → Bool × MemoryNonceStore → Bool × Table String NonceEntry → Type 0
SameVerdict now (accepted, s) (accepted', rows) = (accepted ≡ accepted') × Agree now s.store rows

store-dropped :
    (nonce address : String) (s : MemoryNonceStore)
    → (decrement address (delete_nonce nonce s)).store ≡ erase nonce s.store
unfolding decrement delete_nonce
store-dropped nonce address s = refl

both_unexpired :
    (now : ℕ) (address nonce : String) (entry : NonceEntry) (s : MemoryNonceStore)
    (rows : Table String NonceEntry)
    → IsUnique s.store
    → IsUnique rows
    → Agree now s.store rows
    → SameVerdict now
        (if entry.address == address
          then (true, decrement address (delete_nonce nonce s))
          else (false, s))
        (if entry.address == address then (true, erase nonce rows) else (false, rows))
both_unexpired now address nonce entry s rows um ur agree =
    elim (Bool-cases (entry.address == address)) [
      | inl g ↦ rw g (
        refl,
        rw (store-dropped nonce address s) (Agree-erase now nonce s.store rows um ur agree),
      )
      | inr g ↦ rw g (refl, agree)
    ]

abbrev Outcome : ℕ → String → String → MemoryNonceStore → Table String NonceEntry → Type 0
Outcome now address nonce s rows =
    SameVerdict now (Nonces.consume now address nonce s) (Postgres.consume now address nonce rows)

refuse_both :
    (now : ℕ) (address nonce : String) (s : MemoryNonceStore) (rows : Table String NonceEntry)
    → live_of now (lookup nonce rows) ≡ none
    → ((Nonces.consume now address nonce s).0 ≡ false)
      × Agree now (Nonces.consume now address nonce s).1.store rows
    → Outcome now address nonce s rows
unfolding Postgres.consume
refuse_both now address nonce s rows dead (refused, agree) =
    rw (postgres_refuses now address nonce (lookup nonce rows) rows dead) (refused, agree)

Agree-missing :
    (now : ℕ) (address nonce : String) (s : MemoryNonceStore) (rows : Table String NonceEntry)
    → Agree now s.store rows
    → lookup nonce s.store ≡ none
    → Outcome now address nonce s rows
Agree-missing now address nonce s rows agree h =
    refuse_both now address nonce s rows
      (let same : live_of now (lookup nonce s.store) ≡ none = (rw h refl) in
        sym (agree nonce) ∙ same)
      (rw (consume_missing now address nonce s h) (refl, agree))

Agree-expired :
    (now : ℕ) (address nonce : String) (entry : NonceEntry) (s : MemoryNonceStore)
    (rows : Table String NonceEntry)
    → IsUnique s.store
    → Agree now s.store rows
    → lookup nonce s.store ≡ some entry
    → entry.expires_at < now
    → Outcome now address nonce s rows
Agree-expired now address nonce entry s rows u agree found late =
    let expired : is_live now entry ≡ false = (unfold is_live in ground arith) in
    let dead : live_of now (lookup nonce rows) ≡ none =
      sym (agree nonce) ∙ (rw found (rw expired refl)) in
    refuse_both now address nonce s rows dead (
      rw (consume_expired now address nonce entry s found late) (
        refl,
        rw (store-dropped nonce address s) (Agree-erase_left now nonce s.store rows u dead agree),
      ))

Agree-unexpired :
    (now : ℕ) (address nonce : String) (entry : NonceEntry) (s : MemoryNonceStore)
    (rows : Table String NonceEntry)
    → IsUnique s.store
    → IsUnique rows
    → Agree now s.store rows
    → lookup nonce s.store ≡ some entry
    → now < entry.expires_at
    → Outcome now address nonce s rows
unfolding Postgres.consume
Agree-unexpired now address nonce entry s rows um ur agree found early =
    let live : is_live now entry ≡ true = (unfold is_live in ground arith) in
    let alive : live_of now (lookup nonce rows) ≡ some entry =
      sym (agree nonce) ∙ (rw found (rw live refl)) in
    let (same, _) = live_entry now (lookup nonce rows) alive in
    rw (consume_unexpired now address nonce entry s found (omega arith), same)
      (rw (postgres_decides now address nonce entry rows live)
        (both_unexpired now address nonce entry s rows um ur agree))

-- If the store in memory and the table have the same unexpired challenges, and the challenge that
-- is presented does not expire in this very millisecond, both accept it or both refuse it, and they
-- have the same unexpired challenges afterwards.
pub consume-Agrees :
    (now : ℕ) (address nonce : String) (s : MemoryNonceStore) (rows : Table String NonceEntry)
    → IsUnique s.store
    → IsUnique rows
    → Agree now s.store rows
    → ((entry : NonceEntry) → lookup nonce s.store ≡ some entry → entry.expires_at ≢ now)
    → SameVerdict now (Nonces.consume now address nonce s) (Postgres.consume now address nonce rows)
consume-Agrees now address nonce s rows um ur agree apart =
    elim (Option-cases (lookup nonce s.store)) [
      | inl h ↦ Agree-missing now address nonce s rows agree h
      | inr (entry, found) ↦ elim (Bool-cases (ltb entry.expires_at now)) [
        | inl g ↦ Agree-expired now address nonce entry s rows um agree found (ltb→lt _ _ g)
        | inr g ↦
            let later = ltb-false _ _ g in
            let other = apart entry found in
            Agree-unexpired now address nonce entry s rows um ur agree found (omega arith)
      ]
    ]
