-- ===== src/Common/Text.antt =====
-- Texts: code points, decimal numerals, ASCII case.
use Prim.Native.Char.{code}
use Prim.Native.Nat.{ℕ, zero, suc, ◌+◌, ◌-◌, ◌*◌, ◌/◌, ◌%◌}
use Prim.Native.String.{String, ◌++◌}
use mathlib.Core.Bool.{Bool, true, false, ◌&&◌}
use mathlib.Core.List.{List, [], ◌∷◌, map}
use ourdao_backend.Common.Tests.{◌=ℕ◌, leb, ltb, if◌then◌else◌}
use ourdao_backend.Common.Int.{ℤ, pos, negsuc}

abbrev pub codes : String → List ℕ
codes String.[] = []
codes (String.◌∷◌ c s) = code c ∷ codes s

abbrev pub is_digit : ℕ → Bool
is_digit c = leb b'0' c && leb c b'9'

abbrev all_digits : List ℕ → Bool
all_digits [] = true
all_digits (c ∷ cs) = is_digit c && all_digits cs

-- the test `/^\d+$/`
unfoldable pub is_decimal : String → Bool
is_decimal s = elim (codes s) [ [] ↦ false | c ∷ cs ↦ all_digits (c ∷ cs) ]

abbrev scan : ℕ → List ℕ → ℕ
scan n [] = n
scan n (c ∷ cs) = scan (10 * n + (c - b'0')) cs

-- the number that a decimal numeral stands for
unfoldable pub decimal : String → ℕ
decimal s = scan 0 (codes s)

digit_text : ℕ → String
digit_text n =
    if n =ℕ 0
    then "0"
    else if n =ℕ 1
    then "1"
    else if n =ℕ 2
    then "2"
    else if n =ℕ 3
    then "3"
    else if n =ℕ 4
    then "4"
    else if n =ℕ 5
    then "5"
    else if n =ℕ 6
    then "6"
    else if n =ℕ 7
    then "7"
    else if n =ℕ 8
    then "8"
    else "9"

-- The digits of `n`; `n + 1` rounds are more than it has digits.
show_from : ℕ → ℕ → String
show_from zero n = ""
show_from (suc fuel) n =
    let rest = show_from fuel (n / 10) in
    if ltb n 10 then digit_text n else rest ++ digit_text (n % 10)

unfoldable pub show_nat : ℕ → String
unfolding show_from digit_text
show_nat n = show_from (suc n) n

-- `String(id)` for an integer of the database's range
unfoldable pub show_int : ℤ → String
unfolding show_nat
show_int (pos n) = show_nat n
show_int (negsuc n) = "-" ++ show_nat (suc n)

abbrev to_lower : ℕ → ℕ
to_lower c = if leb b'A' c && leb c b'Z' then c + 32 else c

-- `s.toLowerCase() === lower`, for a `lower` of ASCII letters other than k: no character outside
-- ASCII has such a letter as its lower case.
unfoldable pub lowers_to : String → List ℕ → Bool
lowers_to s lower = same (map to_lower (codes s)) lower
  where
    same : List ℕ → List ℕ → Bool
    same [] [] = true
    same (a ∷ as') (b ∷ bs) = (a =ℕ b) && same as' bs
    same _ _ = false
