-- ===== src/Common/Split.antt =====
-- `startsWith` with `slice`, `split` at a character, and the text that they come from.
use Prim.Native.Char.{Char, code}
use Prim.Native.String.{String, ◌++◌}
use mathlib.Core.Path.{◌≡◌, refl, ap, ◌∙◌, sym}
use mathlib.Core.Logic.{inl, inr}
use mathlib.Core.Bool.{true, false}
use mathlib.Core.Option.{Option, none, some}
use mathlib.Core.List.{List, [], ◌∷◌}
use text.Mathlib.TextEquality.{Char-path}
use text.Mathlib.TextLemmas.{nil-append, cons-append}
use ourdao_backend.Common.Lists.{All}
use ourdao_backend.Common.Tests.{if◌then◌else◌, Bool-cases, ◌=ℕ◌, =ℕ_iff}

-- `s.startsWith(prefix) ? s.slice(prefix.length) : undefined`
unfoldable pub strip_prefix : String → String → Option String
strip_prefix String.[] s = some s
strip_prefix (String.◌∷◌ c p) String.[] = none
strip_prefix (String.◌∷◌ c p) (String.◌∷◌ d s) =
    let rest = strip_prefix p s in if code c =ℕ code d then rest else none

unfoldable pub cons_first : Char → List String → List String
cons_first c [] = String.◌∷◌ c String.[] ∷ []
cons_first c (p ∷ ps) = String.◌∷◌ c p ∷ ps

-- `s.split(sep)` for a separator of one character
unfoldable pub split : Char → String → List String
unfolding cons_first
split sep String.[] = String.[] ∷ []
split sep (String.◌∷◌ c s) =
    let rest = split sep s in if code c =ℕ code sep then String.[] ∷ rest else cons_first c rest

-- `parts.join(sep)`
unfoldable pub join : Char → List String → String
join sep [] = String.[]
join sep (p ∷ []) = p
join sep (p ∷ q ∷ ps) = p ++ String.◌∷◌ sep (join sep (q ∷ ps))

-- The character does not stand in the text.
abbrev pub IsFree : Char → String → Type 0
IsFree sep String.[] = Unit
IsFree sep (String.◌∷◌ c s) = ((code c =ℕ code sep) ≡ false) × IsFree sep s

pub strip_prefix-append : (p s : String) → strip_prefix p (p ++ s) ≡ some s
unfolding strip_prefix
strip_prefix-append String.[] s = ap some (nil-append s)
strip_prefix-append (String.◌∷◌ c p) s =
    let same : (code c =ℕ code c) ≡ true = (=ℕ_iff (code c) (code c)).1 refl in
    rw (cons-append c p s) (rw same (strip_prefix-append p s))

pub strip_prefix_sound : (p s : String) {r : String} → strip_prefix p s ≡ some r → s ≡ p ++ r
unfolding strip_prefix
strip_prefix_sound String.[] s {r} h = let p : s ≡ r = cc h in p ∙ sym (nil-append r)
strip_prefix_sound (String.◌∷◌ c p) String.[] h = cc h
strip_prefix_sound (String.◌∷◌ c p) (String.◌∷◌ d s) {r} h = elim (Bool-cases (code c =ℕ code d)) [
  | inl g ↦
      let q : strip_prefix p s ≡ some r = (rw g at h) in
      let same : c ≡ d = Char-path c d ((=ℕ_iff (code c) (code d)).0 g) in
      rw (cons-append c p r, strip_prefix_sound p s q, same) refl
  | inr g ↦ (let q : none ≡ some r = (rw g at h) in absurd (cc q))
]

join-cons_first :
    (sep c : Char) (ps : List String) → join sep (cons_first c ps) ≡ String.◌∷◌ c (join sep ps)
unfolding join cons_first
join-cons_first sep c [] = refl
join-cons_first sep c (p ∷ []) = refl
join-cons_first sep c (p ∷ q ∷ ps) = cons-append c p _

join-nil : (sep : Char) (ps : List String) (p : String) → ps ≡ p ∷ [] → join sep ps ≡ p
unfolding join
join-nil sep ps p h = rw h refl

-- the parts are at least one
split-head : (sep : Char) (s : String) → (p : String) × (ps : List String) × (split sep s ≡ p ∷ ps)
unfolding split cons_first
split-head sep String.[] = (String.[], [], refl)
split-head sep (String.◌∷◌ c s) = elim (Bool-cases (code c =ℕ code sep)) [
  | inl g ↦ rw g (String.[], split sep s, refl)
  | inr g ↦ let (p, ps, h) = split-head sep s in rw (g, h) (String.◌∷◌ c p, ps, refl)
]

join-empty_first :
    (sep : Char) (p : String) (ps : List String)
    → join sep (String.[] ∷ p ∷ ps) ≡ String.◌∷◌ sep (join sep (p ∷ ps))
unfolding join
join-empty_first sep p ps = nil-append _

-- The parts of a text, joined again, are the text.
pub join-split : (sep : Char) (s : String) → join sep (split sep s) ≡ s
unfolding split
join-split sep String.[] = unfold join in refl
join-split sep (String.◌∷◌ c s) = elim (Bool-cases (code c =ℕ code sep)) [
  | inl g ↦
      let same : c ≡ sep = Char-path c sep ((=ℕ_iff (code c) (code sep)).0 g) in
      let (p, ps, h) = split-head sep s in
      let whole : join sep (p ∷ ps) ≡ s = (rw (← h) (join-split sep s)) in
      rw (g, h, join-empty_first sep p ps, whole, same) refl
  | inr g ↦ rw (g, join-cons_first sep c (split sep s), join-split sep s) refl
]

cons_first-IsFree :
    (sep c : Char) (ps : List String)
    → (code c =ℕ code sep) ≡ false
    → All (IsFree sep) ps
    → All (IsFree sep) (cons_first c ps)
unfolding cons_first
cons_first-IsFree sep c [] h f = ((h, tt), tt)
cons_first-IsFree sep c (p ∷ ps) h f = ((h, f.0), f.1)

-- No part has the separator.
pub split-IsFree : (sep : Char) (s : String) → All (IsFree sep) (split sep s)
unfolding split
split-IsFree sep String.[] = (tt, tt)
split-IsFree sep (String.◌∷◌ c s) = elim (Bool-cases (code c =ℕ code sep)) [
  | inl g ↦ rw g (tt, split-IsFree sep s)
  | inr g ↦ rw g (cons_first-IsFree sep c (split sep s) g (split-IsFree sep s))
]

split_free : (sep : Char) (s : String) → IsFree sep s → split sep s ≡ s ∷ []
unfolding split cons_first
split_free sep String.[] f = refl
split_free sep (String.◌∷◌ c s) f = rw (f.0, split_free sep s f.1) refl

pub split-append :
    (sep : Char) (s t : String) → IsFree sep s → split sep (s ++ String.◌∷◌ sep t) ≡ s ∷ split sep t
unfolding split cons_first
split-append sep String.[] t f =
    let same : (code sep =ℕ code sep) ≡ true = (=ℕ_iff (code sep) (code sep)).1 refl in
    rw (nil-append (String.◌∷◌ sep t)) (rw same refl)
split-append sep (String.◌∷◌ c s) t f =
    rw (cons-append c s (String.◌∷◌ sep t)) (rw (f.0, split-append sep s t f.1) refl)

-- Parts without the separator, joined, are split into the same parts.
pub split-join_three :
    (sep : Char) (a b c : String)
    → IsFree sep a
    → IsFree sep b
    → IsFree sep c
    → split sep (join sep (a ∷ b ∷ c ∷ [])) ≡ a ∷ b ∷ c ∷ []
unfolding join
split-join_three sep a b c fa fb fc =
    rw (split-append sep a _ fa, split-append sep b c fb, split_free sep c fc) refl
