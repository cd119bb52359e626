-- ===== src/Common/Rows.antt =====
-- The rows of a table, one after another, while the table itself changes.
use Prim.Native.Nat.{suc, ◌≤◌}
use mathlib.Core.Path.{◌≡◌, refl, sym}
use mathlib.Core.Logic.{◌≢◌, ◌⊎◌, inl, inr}
use mathlib.Core.Bool.{Bool, true, false}
use mathlib.Core.Option.{none, some}
use mathlib.Core.List.{[], ◌∷◌}
use native.Mathlib.Omega.{arith}
use ourdao_backend.Common.Tests.{if◌then◌else◌, Bool-cases}
use ourdao_backend.Common.Equality.{Eq, ◌==◌, ==_refl, ==_cases}
use ourdao_backend.Common.Lists.{All, length}
use ourdao_backend.Common.Table.{
  Table, lookup, put, erase, has, IsUnique, lookup-erase_ne, lookup-erase_self, IsUnique-erase,
}

module _ {ℓ κ} {K : Type κ} {V : Type ℓ} ⦃e : Eq K⦄ where
  -- The rows of one table stand in another.
  abbrev pub StandIn : Table K V → Table K V → Type ℓ
  StandIn rows t = All (λ (p : K × V). lookup p.0 t ≡ some p.1) rows

  -- a key that a table has not is none of its rows'
  has-head :
      (k j : K) (v : V) (rows : Table K V)
      → has k ((j, v) ∷ rows) ≡ false
      → (j ≢ k) × (has k rows ≡ false)
  unfolding has
  has-head k j v rows h = elim (==_cases j k) [
    | inl (g, same) ↦ (let p : true ≡ false = (rw g at h) in absurd (cc p))
    | inr (g, other) ↦ (other, rw g at h)
  ]

  pub StandIn-erase :
      (k : K) (rows t : Table K V) → has k rows ≡ false → StandIn rows t → StandIn rows (erase k t)
  StandIn-erase k [] t h s = tt
  StandIn-erase k ((j, v) ∷ rows) t h s =
      let (other, rest) = has-head k j v rows h in
      (rw (lookup-erase_ne j k t other) s.0, StandIn-erase k rows t rest s.1)

  StandIn-more :
      (k : K) (v : V) (rows t : Table K V)
      → has k rows ≡ false
      → StandIn rows t
      → StandIn rows ((k, v) ∷ t)
  unfolding lookup
  StandIn-more k v [] t h s = tt
  StandIn-more k v ((j, w) ∷ rows) t h s =
      let (other, rest) = has-head k j w rows h in
      (
        elim (==_cases k j) [ inl (g, same) ↦ absurd (other (sym same)) | inr (g, _) ↦ rw g s.0 ],
        StandIn-more k v rows t rest s.1,
      )

  pub StandIn-self : (t : Table K V) → IsUnique t → StandIn t t
  StandIn-self [] u = tt
  StandIn-self ((k, v) ∷ t) u =
      ((unfold lookup in rw (==_refl k) refl), StandIn-more k v t t u.0 (StandIn-self t u.1))

  -- `for (const [k, v] of rows) if (p(v)) t.delete(k)`
  unfoldable pub delete_where : (V → Bool) → Table K V → Table K V → Table K V
  delete_where p [] t = t
  delete_where p ((k, v) ∷ rows) t = delete_where p rows (if p v then erase k t else t)

  pub length-erase : (k : K) (t : Table K V) → length (erase k t) ≤ length t
  unfolding erase
  length-erase k [] = omega arith
  length-erase k ((j, v) ∷ t) = elim (Bool-cases (j == k)) [
    | inl g ↦ rw g (omega arith)
    | inr g ↦ rw g (omega (arith, length-erase k t))
  ]

  pub length-erase_found :
      (k : K) {v : V} (t : Table K V) → lookup k t ≡ some v → suc (length (erase k t)) ≡ length t
  unfolding erase lookup
  length-erase_found k [] h = cc
  length-erase_found k {v} ((j, w) ∷ t) h = elim (Bool-cases (j == k)) [
    | inl g ↦ rw g (omega arith)
    | inr g ↦
        (let p : lookup k t ≡ some v = (rw g at h) in
          rw g (omega (arith, length-erase_found k t p)))
  ]

  pub length-put_found :
      (k : K) (v : V) {w : V} (t : Table K V) → lookup k t ≡ some w → length (put k v t) ≡ length t
  unfolding put lookup
  length-put_found k v [] h = cc
  length-put_found k v {w} ((j, x) ∷ t) h = elim (Bool-cases (j == k)) [
    | inl g ↦ rw g (omega arith)
    | inr g ↦
        (let p : lookup k t ≡ some w = (rw g at h) in
          rw g (omega (arith, length-put_found k v t p)))
  ]

  pub length-put_new :
      (k : K) (v : V) (t : Table K V) → lookup k t ≡ none → length (put k v t) ≡ suc (length t)
  unfolding put lookup
  length-put_new k v [] h = omega arith
  length-put_new k v ((j, x) ∷ t) h = elim (Bool-cases (j == k)) [
    | inl g ↦ (let p : some x ≡ none = (rw g at h) in absurd (cc p))
    | inr g ↦
        (let p : lookup k t ≡ none = (rw g at h) in rw g (omega (arith, length-put_new k v t p)))
  ]

  pub delete_where-IsUnique :
      (p : V → Bool) (rows t : Table K V) → IsUnique t → IsUnique (delete_where p rows t)
  unfolding delete_where
  delete_where-IsUnique p [] t u = u
  delete_where-IsUnique p ((k, v) ∷ rows) t u = elim (Bool-cases (p v)) [
    | inl g ↦ rw g (delete_where-IsUnique p rows (erase k t) (IsUnique-erase k t u))
    | inr g ↦ rw g (delete_where-IsUnique p rows t u)
  ]

  pub length-delete_where :
      (p : V → Bool) (rows t : Table K V) → length (delete_where p rows t) ≤ length t
  unfolding delete_where
  length-delete_where p [] t = omega arith
  length-delete_where p ((k, v) ∷ rows) t = elim (Bool-cases (p v)) [
    | inl g ↦ rw g (omega (arith, length-delete_where p rows (erase k t), length-erase k t))
    | inr g ↦ rw g (length-delete_where p rows t)
  ]

  -- A row is kept, or it passed the test and is gone.
  abbrev pub KeptOrGone : (V → Bool) → K → Table K V → Table K V → Type ℓ
  KeptOrGone p k t t' =
      (lookup k t' ≡ lookup k t)
      ⊎ ((v : V) × (lookup k t ≡ some v) × (p v ≡ true) × (lookup k t' ≡ none))

  pub delete_where-keeps_others :
      (p : V → Bool) (k : K) (rows t : Table K V)
      → IsUnique rows
      → IsUnique t
      → StandIn rows t
      → KeptOrGone p k t (delete_where p rows t)
  unfolding delete_where
  delete_where-keeps_others p k [] t ur u s = inl refl
  delete_where-keeps_others p k ((j, v) ∷ rows) t ur u s = elim (Bool-cases (p v)) [
    | inl g ↦ rw g (
        let rest =
          delete_where-keeps_others p k rows (erase j t) ur.1 (IsUnique-erase j t u)
            (StandIn-erase j rows t ur.0 s.1) in
        elim (==_cases k j) [
          | inl (b, same) ↦
              let dead : lookup k (erase j t) ≡ none = rw same (lookup-erase_self j t u) in
              let here : lookup k t ≡ some v = rw same s.0 in
              elim rest [
                | inl q ↦ inr (v, here, g, cc (q, dead))
                | inr (w, q, _, _) ↦ absurd (cc (q, dead))
              ]
          | inr (b, other) ↦
              let alive = lookup-erase_ne k j t other in
              elim rest [
                | inl q ↦ inl (cc (q, alive))
                | inr (w, q, r, z) ↦ inr (w, cc (q, alive), r, z)
              ]
        ])
    | inr g ↦ rw g (delete_where-keeps_others p k rows t ur.1 u s.1)
  ]
