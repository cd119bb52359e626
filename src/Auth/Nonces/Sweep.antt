-- ===== src/Auth/Nonces/Sweep.antt =====
-- auth.ts, MemoryNonceStore.startSweep: what the timer's sweep leaves.
use ourdao_backend.Common.{ℕ, String, [], ◌∷◌, ◌≡◌, refl, Bool-cases, inl, inr, ltb, string_eq}
use ourdao_backend.Common.Rows.{StandIn, StandIn-erase, StandIn-self}
use ourdao_backend.Common.Table.{Table, erase, IsUnique}
use ourdao_backend.Auth.Nonces.{
  NonceEntry, MemoryNonceStore, decrement, delete_nonce, sweep, sweep_entries,
}
use ourdao_backend.Auth.Nonces.Counts.{IsValid, dropped-IsValid}

store-dropped :
    (nonce : String) (address : String) (s : MemoryNonceStore)
    → (decrement address (delete_nonce nonce s)).store ≡ erase nonce s.store
unfolding decrement delete_nonce
store-dropped nonce address s = refl

sweep_entries-IsValid :
    (now : ℕ) (rows : Table String NonceEntry) (s : MemoryNonceStore)
    → IsUnique rows
    → StandIn rows s.store
    → IsValid s
    → IsValid (sweep_entries now rows s)
unfolding sweep_entries
sweep_entries-IsValid now [] s u here v = v
sweep_entries-IsValid now ((nonce, entry) ∷ rows) s u here v =
    elim (Bool-cases (ltb entry.expires_at now)) [
      | inl late ↦ rw late (
          sweep_entries-IsValid now rows (decrement entry.address (delete_nonce nonce s)) u.1
            (rw (store-dropped nonce entry.address s) (StandIn-erase nonce rows s.store u.0 here.1))
            (dropped-IsValid nonce entry s here.0 v))
      | inr early ↦ rw early (sweep_entries-IsValid now rows s u.1 here.1 v)
    ]

-- If each counter is the number of outstanding nonces of its address, it still is after a sweep.
pub sweep-IsValid : (now : ℕ) (s : MemoryNonceStore) → IsValid s → IsValid (sweep now s)
unfolding sweep
sweep-IsValid now s v =
    sweep_entries-IsValid now s.store s v.unique_nonces (StandIn-self s.store v.unique_nonces) v
