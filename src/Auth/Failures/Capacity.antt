-- ===== src/Auth/Failures/Capacity.antt =====
-- auth.ts, AuthFailureTracker: how many records it keeps, and which one makes room.
use ourdao_backend.Common.{
  ℕ, String, true, Option, none, some, [], ◌∷◌, ◌≤◌, ◌<◌, ◌≡◌, ◌≢◌, refl, sym, ◌⊎◌, ==_cases, ◌∙◌,
  subst, inl, inr, leb, ltb, ◌==◌, ltb→lt, ltb-false, Bool-cases, length, All, arith, string_eq,
}
use ourdao_backend.Common.Table.{
  Table, lookup, put, erase, IsUnique, IsUnique-put, IsUnique-erase, lookup-put_ne, lookup-erase_ne,
  lookup-erase_self,
}
use ourdao_backend.Common.Rows.{
  StandIn, StandIn-self, delete_where-IsUnique, length-delete_where, length-erase,
  length-erase_found, length-put_found, length-put_new,
}
use ourdao_backend.Auth.Failures.{
  FailureRecord, AuthFailureTracker, record_failure, record_success, cleanup, evict_oldest,
  find_oldest, before_oldest, delete_key, max_capacity, is_stale, Step, Reachable,
}

-- A row of the table.
abbrev IsRow : Table String FailureRecord → String × ℕ → Type 0
IsRow t (key, time) = (r : FailureRecord) × (lookup key t ≡ some r) × (r.next_allowed_at ≡ time)

-- No row comes before this time.
abbrev IsLeast : ℕ → Table String FailureRecord → Type 0
IsLeast time rows = All (λ (p : String × FailureRecord). time ≤ p.1.next_allowed_at) rows

abbrev FindsOldest :
    Table String FailureRecord → Table String FailureRecord → ℕ → Option (String × ℕ) → Type 0
FindsOldest rows t bound found =
    (key : String) × (time : ℕ) × (found ≡ some (key, time))
    × IsRow t (key, time)
    × (time ≤ bound)
    × IsLeast time rows

find_oldest-FindsOldest :
    (rows t : Table String FailureRecord) (key : String) (time : ℕ)
    → StandIn rows t
    → IsRow t (key, time)
    → FindsOldest rows t time (find_oldest rows (some (key, time)))
unfolding find_oldest before_oldest
find_oldest-FindsOldest [] t key time here row = (key, time, refl, row, omega arith, tt)
find_oldest-FindsOldest ((k, r) ∷ rows) t key time here row =
    elim (Bool-cases (ltb r.next_allowed_at time)) [
      | inl g ↦ rw g (
          let (key', time', found, row', low, least) =
            find_oldest-FindsOldest rows t k r.next_allowed_at here.1 (r, here.0, refl) in
          let less = ltb→lt r.next_allowed_at time g in
          (key', time', found, row', omega arith, (low, least)))
      | inr g ↦ rw g (
          let (key', time', found, row', low, least) =
            find_oldest-FindsOldest rows t key time here.1 row in
          let more = ltb-false r.next_allowed_at time g in
          (key', time', found, row', low, (omega arith, least)))
    ]

-- The loop finds a row that none comes before, if there is a row.
find_oldest-IsRow :
    (t : Table String FailureRecord)
    → IsUnique t
    → (t ≡ [])
      ⊎ ((key : String) × (time : ℕ) × (find_oldest t none ≡ some (key, time))
          × IsRow t (key, time)
          × IsLeast time t)
unfolding find_oldest before_oldest
find_oldest-IsRow [] u = inl refl
find_oldest-IsRow ((k, r) ∷ rows) u =
    let here = StandIn-self ((k, r) ∷ rows) u in
    let (key, time, found, row, low, least) =
      find_oldest-FindsOldest rows ((k, r) ∷ rows) k r.next_allowed_at here.1 (r, here.0, refl) in
    inr (key, time, found, row, (low, least))

IsLeast-lookup :
    (time : ℕ) (k : String) (t : Table String FailureRecord) {r : FailureRecord}
    → IsLeast time t
    → lookup k t ≡ some r
    → time ≤ r.next_allowed_at
unfolding lookup
IsLeast-lookup time k [] least h = cc
IsLeast-lookup time k ((j, q) ∷ t) {r} least h = elim (Bool-cases (j == k)) [
  | inl g ↦
      (let p : some q ≡ some r = (rw g at h) in let same : q ≡ r = cc p in rw (← same) least.0)
  | inr g ↦ (let p : lookup k t ≡ some r = (rw g at h) in IsLeast-lookup time k t least.1 p)
]

-- room is made for a new address
evicted :
    (t : Table String FailureRecord)
    → IsUnique t
    → leb max_capacity (length t) ≡ true
    → (victim : String) × (r : FailureRecord) × (lookup victim t ≡ some r)
      × IsLeast r.next_allowed_at t
      × (evict_oldest none t ≡ erase victim t)
unfolding evict_oldest delete_key
evicted t u full = rw full (elim (find_oldest-IsRow t u) [
  | inl empty ↦ (let p : leb max_capacity 0 ≡ true = (rw empty at full) in absurd (cc p))
  | inr (key, time, found, (r, row, at), least) ↦ rw found (key, r, row, rw at least, refl)
])

-- the keys stand once, and there is room
abbrev pub IsBounded : AuthFailureTracker → Type 0
IsBounded t = IsUnique t.failures × (length t.failures ≤ max_capacity)

evict_oldest-IsUnique :
    (o : Option FailureRecord) (t : Table String FailureRecord)
    → IsUnique t
    → IsUnique (evict_oldest o t)
unfolding evict_oldest
evict_oldest-IsUnique (some existing) t u = u
evict_oldest-IsUnique none t u = elim (Bool-cases (leb max_capacity (length t))) [
  | inl full ↦
      let (victim, r, found, least, gone) = evicted t u full in
      subst IsUnique (sym gone) (IsUnique-erase victim t u)
  | inr room ↦ rw room u
]

-- the eviction keeps a record, or drops it
pub lookup-evict_other :
    (k : String) (o : Option FailureRecord) (t : Table String FailureRecord) {r : FailureRecord}
    → IsUnique t
    → lookup k (evict_oldest o t) ≡ some r
    → lookup k t ≡ some r
unfolding evict_oldest
lookup-evict_other k (some existing) t u h = h
lookup-evict_other k none t u h = elim (Bool-cases (leb max_capacity (length t))) [
  | inl full ↦
      let (victim, r, found, least, gone) = evicted t u full in
      elim (==_cases k victim) [
        | inl (g, same) ↦
            let dead : lookup k (evict_oldest none t) ≡ none =
              rw (gone, same) (lookup-erase_self victim t u) in
            absurd (cc (h, dead))
        | inr (g, other) ↦ sym (lookup-erase_ne k victim t other) ∙ (rw (← gone) h)
      ]
  | inr room ↦ (rw room at h)
]

-- after the eviction there is room for a new address
lookup-evict_none :
    (address : String) (t : Table String FailureRecord)
    → IsUnique t
    → lookup address t ≡ none
    → length t ≤ max_capacity
    → (lookup address (evict_oldest none t) ≡ none) × (length (evict_oldest none t) < max_capacity)
lookup-evict_none address t u h small = elim (Bool-cases (leb max_capacity (length t))) [
  | inl full ↦
      let (victim, r, found, least, gone) = evicted t u full in
      let other : address ≢ victim = λ p. cc (h, found, p) in
      rw gone (
        lookup-erase_ne address victim t other ∙ h,
        (let shorter = length-erase_found victim t found in omega arith),
      )
  | inr room ↦ (unfold evict_oldest in rw room (h, ground arith))
]

write-IsBounded :
    (address : String) (w : FailureRecord) (o : Option FailureRecord)
    (t : Table String FailureRecord)
    → lookup address t ≡ o
    → IsUnique t × (length t ≤ max_capacity)
    → length (put address w (evict_oldest o t)) ≤ max_capacity
write-IsBounded address w (some existing) t h (u, small) =
    unfold evict_oldest in rw (length-put_found address w t h) small
write-IsBounded address w none t h (u, small) =
    let (gone, room) = lookup-evict_none address t u h small in
    rw (length-put_new address w (evict_oldest none t) gone) (omega arith)

Step-IsBounded : {t t' : AuthFailureTracker} → Step t t' → IsBounded t → IsBounded t'
unfolding record_failure record_success cleanup
Step-IsBounded (Step.fails now address t) b = (
  IsUnique-put address _ _ (evict_oldest-IsUnique (lookup address t.failures) t.failures b.0),
  write-IsBounded address _ (lookup address t.failures) t.failures refl b,
)
Step-IsBounded (Step.succeeds address t) b = (
  IsUnique-erase address t.failures b.0,
  (let shorter = length-erase address t.failures in let small = b.1 in omega arith),
)
Step-IsBounded (Step.cleans now t) b = (
  delete_where-IsUnique (is_stale now) t.failures t.failures b.0,
  (let shorter = length-delete_where (is_stale now) t.failures t.failures in
      let small = b.1 in omega arith),
)

-- However failures, successes and clean-ups follow each other, the tracker has at most 10000
-- records, no two of one address.
pub tracker-IsBounded : {t : AuthFailureTracker} → Reachable t → IsBounded t
tracker-IsBounded Reachable.fresh = (tt, omega arith)
tracker-IsBounded (Reachable.then_step before step) = Step-IsBounded step (tracker-IsBounded before)

-- If the tracker is full when a new address fails, exactly one record makes room, one that no other
-- comes before in the time of its next attempt.
record_failure-evicts :
    (now : ℕ) (address : String) (t : AuthFailureTracker)
    → IsUnique t.failures
    → lookup address t.failures ≡ none
    → max_capacity ≤ length t.failures
    → (victim : String) × (r : FailureRecord) × (lookup victim t.failures ≡ some r)
      × ((k : String) (q : FailureRecord)
          → lookup k t.failures ≡ some q
          → r.next_allowed_at ≤ q.next_allowed_at)
      × (lookup victim (record_failure now address t).failures ≡ none)
      × ((k : String)
          → k ≢ victim
          → k ≢ address
          → lookup k (record_failure now address t).failures ≡ lookup k t.failures)
unfolding record_failure
record_failure-evicts now address t u new full =
    let (victim, r, found, least, gone) = evicted t.failures u (ground arith) in
    let other : victim ≢ address = λ p. cc (new, found, p) in
    (
      victim,
      r,
      found,
      λ k q h. IsLeast-lookup r.next_allowed_at k t.failures least h,
      rw (new, gone)
          (lookup-put_ne victim address _ (erase victim t.failures) other
            ∙ lookup-erase_self victim t.failures u),
      λ k not_victim not_address.
          rw (new, gone)
            (lookup-put_ne k address _ (erase victim t.failures) not_address
              ∙ lookup-erase_ne k victim t.failures not_victim),
    )
