-- ===== src/Common/Table.antt =====
-- A database table under its primary key: the rows in the order of insertion.
use Prim.Native.Nat.{ℕ, ◌+◌}
use mathlib.Core.Path.{◌≡◌, refl}
use mathlib.Core.Logic.{◌≢◌, inl, inr}
use mathlib.Core.Bool.{Bool, true, false}
use mathlib.Core.Option.{Option, none, some}
use mathlib.Core.List.{List, [], ◌∷◌}
use native.Mathlib.Omega.{arith}
use ourdao_backend.Common.Tests.{if◌then◌else◌, Bool-cases}
use ourdao_backend.Common.Equality.{Eq, ◌==◌, ==_refl, ==_cases, ==_sym_false}

abbrev pub Table {ℓ κ} : Type κ → Type ℓ → Type (κ ⊔ ℓ)
Table K V = List (K × V)

module _ {ℓ κ} {K : Type κ} {V : Type ℓ} ⦃e : Eq K⦄ where
  -- `SELECT … WHERE key = k`
  unfoldable pub lookup : K → Table K V → Option V
  lookup k [] = none
  lookup k ((j, v) ∷ t) = if j == k then some v else lookup k t

  -- `INSERT … ON CONFLICT DO UPDATE`, or the write of an `UPDATE` whose row exists
  unfoldable pub put : K → V → Table K V → Table K V
  put k v [] = (k, v) ∷ []
  put k v ((j, w) ∷ t) = if j == k then (j, v) ∷ t else (j, w) ∷ put k v t

  -- whether the table has a row with this key
  unfoldable pub has : K → Table K V → Bool
  has k [] = false
  has k ((j, v) ∷ t) = if j == k then true else has k t

  pub lookup-put_self : (k : K) (v : V) (t : Table K V) → lookup k (put k v t) ≡ some v
  unfolding lookup put
  lookup-put_self k v [] = rw (==_refl k)
  lookup-put_self k v ((j, w) ∷ t) = elim (Bool-cases (j == k)) [
    | inl h ↦ rw h (rw h)
    | inr h ↦ rw h (rw h (lookup-put_self k v t))
  ]

  pub lookup-put_ne : (j k : K) (v : V) (t : Table K V) → j ≢ k → lookup j (put k v t) ≡ lookup j t
  unfolding lookup put
  lookup-put_ne j k v [] ne = elim (==_cases k j) [
    | inl (h, same) ↦ absurd (ne (cc same))
    | inr (h, other) ↦ rw h
  ]
  lookup-put_ne j k v ((i, w) ∷ t) ne = elim (==_cases i k) [
    | inl (h, same) ↦ rw h (elim (==_cases i j) [
      | inl (g, same') ↦ absurd (ne (cc (same, same')))
      | inr (g, other') ↦ rw g
    ])
    | inr (h, other) ↦
        rw h (elim (Bool-cases (i == j)) [ inl g ↦ rw g | inr g ↦ rw g (lookup-put_ne j k v t ne) ])
  ]

  -- writing back what is there changes nothing
  pub put_same : (k : K) (v : V) (t : Table K V) → lookup k t ≡ some v → put k v t ≡ t
  unfolding lookup put
  put_same k v [] h = cc
  put_same k v ((j, w) ∷ t) h = elim (Bool-cases (j == k)) [
    | inl g ↦ rw g (let p : some w ≡ some v = (rw g at h) in cc p)
    | inr g ↦ rw g (let p : lookup k t ≡ some v = (rw g at h) in cc (put_same k v t p))
  ]

  -- The sum of a column.
  unfoldable pub sum_of : (V → ℕ) → Table K V → ℕ
  sum_of f [] = 0
  sum_of f ((j, v) ∷ t) = f v + sum_of f t

  pub sum_of-put_new :
      (f : V → ℕ) (k : K) (v : V) (t : Table K V)
      → lookup k t ≡ none
      → sum_of f (put k v t) ≡ sum_of f t + f v
  unfolding sum_of lookup put
  sum_of-put_new f k v [] h = omega arith
  sum_of-put_new f k v ((j, w) ∷ t) h = elim (Bool-cases (j == k)) [
    | inl g ↦ (let p : some w ≡ none = (rw g at h) in cc p)
    | inr g ↦
        rw g (let p : lookup k t ≡ none = (rw g at h) in omega (arith, sum_of-put_new f k v t p))
  ]

  pub sum_of-put :
      (f : V → ℕ) (k : K) (v old : V) (t : Table K V)
      → lookup k t ≡ some old
      → sum_of f (put k v t) + f old ≡ sum_of f t + f v
  unfolding sum_of lookup put
  sum_of-put f k v old [] h = cc
  sum_of-put f k v old ((j, w) ∷ t) h = elim (Bool-cases (j == k)) [
    | inl g ↦
        rw g (let p : some w ≡ some old = (rw g at h) in let q : f w ≡ f old = cc p in omega arith)
    | inr g ↦
        rw g
          (let p : lookup k t ≡ some old = (rw g at h) in omega (arith, sum_of-put f k v old t p))
  ]

module _ {ℓ κ} {K : Type κ} {V : Type ℓ} ⦃e : Eq K⦄ where
  -- `DELETE … WHERE key = k`
  unfoldable pub erase : K → Table K V → Table K V
  erase k [] = []
  erase k ((j, v) ∷ t) = if j == k then t else (j, v) ∷ erase k t

  -- No key stands twice.
  abbrev pub IsUnique : Table K V → Type 0
  IsUnique [] = Unit
  IsUnique ((j, v) ∷ t) = (has j t ≡ false) × IsUnique t

  pub has-none : (k : K) (t : Table K V) → has k t ≡ false → lookup k t ≡ none
  unfolding has lookup
  has-none k [] h = refl
  has-none k ((j, v) ∷ t) h = elim (Bool-cases (j == k)) [
    | inl g ↦ (let p : true ≡ false = (rw g at h) in absurd (cc p))
    | inr g ↦ rw g (let p : has k t ≡ false = (rw g at h) in has-none k t p)
  ]

  has-put_ne :
      (j k : K) (v : V) (t : Table K V)
      → (k == j) ≡ false
      → has j t ≡ false
      → has j (put k v t) ≡ false
  unfolding has put
  has-put_ne j k v [] ne h = rw ne
  has-put_ne j k v ((i, w) ∷ t) ne h = elim (Bool-cases (i == j)) [
    | inl g ↦ (let p : true ≡ false = (rw g at h) in absurd (cc p))
    | inr g ↦
        (let p : has j t ≡ false = (rw g at h) in
          elim (Bool-cases (i == k)) [
            | inl b ↦ rw b (rw g p)
            | inr b ↦ rw b (rw g (has-put_ne j k v t ne p))
          ])
  ]

  pub IsUnique-put : (k : K) (v : V) (t : Table K V) → IsUnique t → IsUnique (put k v t)
  unfolding put
  IsUnique-put k v [] u = (unfold has in refl, tt)
  IsUnique-put k v ((j, w) ∷ t) u = elim (Bool-cases (j == k)) [
    | inl g ↦ rw g u
    | inr g ↦ rw g (has-put_ne j k v t (==_sym_false j k g) u.0, IsUnique-put k v t u.1)
  ]

  has-erase : (j k : K) (t : Table K V) → has j t ≡ false → has j (erase k t) ≡ false
  unfolding has erase
  has-erase j k [] h = refl
  has-erase j k ((i, w) ∷ t) h = elim (Bool-cases (i == j)) [
    | inl g ↦ (let p : true ≡ false = (rw g at h) in absurd (cc p))
    | inr g ↦
        (let p : has j t ≡ false = (rw g at h) in
          elim (Bool-cases (i == k)) [ inl b ↦ rw b p | inr b ↦ rw b (rw g (has-erase j k t p)) ])
  ]

  pub IsUnique-erase : (k : K) (t : Table K V) → IsUnique t → IsUnique (erase k t)
  unfolding erase
  IsUnique-erase k [] u = tt
  IsUnique-erase k ((j, w) ∷ t) u = elim (Bool-cases (j == k)) [
    | inl g ↦ rw g u.1
    | inr g ↦ rw g (has-erase j k t u.0, IsUnique-erase k t u.1)
  ]

  pub lookup-erase_self : (k : K) (t : Table K V) → IsUnique t → lookup k (erase k t) ≡ none
  unfolding lookup erase
  lookup-erase_self k [] u = refl
  lookup-erase_self k ((j, w) ∷ t) u = elim (==_cases j k) [
    | inl (g, same) ↦ rw g (has-none k t (rw (← same) u.0))
    | inr (g, other) ↦ rw g (rw g (lookup-erase_self k t u.1))
  ]

  pub lookup-erase_ne : (j k : K) (t : Table K V) → j ≢ k → lookup j (erase k t) ≡ lookup j t
  unfolding lookup erase
  lookup-erase_ne j k [] ne = refl
  lookup-erase_ne j k ((i, w) ∷ t) ne = elim (==_cases i k) [
    | inl (g, same) ↦ rw g (elim (==_cases i j) [
      | inl (b, same') ↦ absurd (ne (cc (same, same')))
      | inr (b, other') ↦ rw b
    ])
    | inr (g, other) ↦
        rw g (elim (Bool-cases (i == j)) [ inl b ↦ rw b | inr b ↦ rw b (lookup-erase_ne j k t ne) ])
  ]

  pub sum_of-erase :
      (f : V → ℕ) (k : K) (old : V) (t : Table K V)
      → lookup k t ≡ some old
      → sum_of f (erase k t) + f old ≡ sum_of f t
  unfolding sum_of lookup erase
  sum_of-erase f k old [] h = cc
  sum_of-erase f k old ((j, w) ∷ t) h = elim (Bool-cases (j == k)) [
    | inl g ↦
        rw g (let p : some w ≡ some old = (rw g at h) in let q : f w ≡ f old = cc p in omega arith)
    | inr g ↦
        rw g
          (let p : lookup k t ≡ some old = (rw g at h) in omega (arith, sum_of-erase f k old t p))
  ]
