-- ===== src/Common/Equality.antt =====
-- Equality tests: an interface, with instances for the numbers and for texts.
use Prim.Native.Nat.{ℕ}
use Prim.Native.String.{String}
use mathlib.Core.Path.{◌≡◌, refl, sym}
use mathlib.Core.Logic.{◌↔◌, ◌⊎◌, inl, inr, ◌≢◌}
use mathlib.Core.Bool.{Bool, true, false, not}
use text.Mathlib.Text.{◌==◌ as str_eq}
use text.Mathlib.TextEquality.{eq_iff}
use ourdao_backend.Common.Tests.{◌=ℕ◌, =ℕ_iff, Bool-cases}

pub record Eq {ℓ} (A : Type ℓ) : Type ℓ where
  pub equals : A → A → Bool
  pub equals_iff : (a b : A) → (equals a b ≡ true) ↔ (a ≡ b)

infix 50 ◌==◌
abbrev pub ◌==◌ {ℓ} : {A : Type ℓ} ⦃e : Eq A⦄ → A → A → Bool
◌==◌ ⦃e⦄ = e.equals

infix 50 ◌!==◌
abbrev pub ◌!==◌ {ℓ} : {A : Type ℓ} ⦃e : Eq A⦄ → A → A → Bool
◌!==◌ ⦃e⦄ a b = not (e.equals a b)

instance abbrev pub string_eq : Eq String
string_eq = record { equals = str_eq; equals_iff = eq_iff }

instance abbrev pub nat_eq : Eq ℕ
nat_eq = record { equals = ◌=ℕ◌; equals_iff = =ℕ_iff }

module _ {ℓ} {A : Type ℓ} ⦃e : Eq A⦄ where
  pub ==_refl : (a : A) → (a == a) ≡ true
  ==_refl a = (e.equals_iff a a).1 refl

  pub ==_sound : (a b : A) → (a == b) ≡ true → a ≡ b
  ==_sound a b h = (e.equals_iff a b).0 h

  pub ==_cases : (a b : A) → ((a == b) ≡ true) × (a ≡ b) ⊎ ((a == b) ≡ false) × (a ≢ b)
  ==_cases a b = elim (Bool-cases (a == b)) [
    | inl h ↦ inl (h, (e.equals_iff a b).0 h)
    | inr h ↦ inr (h, λ p. cc (h, (e.equals_iff a b).1 p))
  ]

  pub ==_sym_false : (a b : A) → (a == b) ≡ false → (b == a) ≡ false
  ==_sym_false a b h = elim (Bool-cases (b == a)) [
    | inl g ↦ absurd (cc (h, (e.equals_iff a b).1 (sym ((e.equals_iff b a).0 g))))
    | inr g ↦ g
  ]
