-- ===== src/Loans.antt =====
-- src/api/loan-derived.ts: the figures of a loan that are computed when it is read. A bigint is an integer;
-- the source prints the charge and the repaid amount as decimal texts.
pub mod Figures
use ourdao_backend.Common.{
  ℕ, zero, suc, String, Bool, true, false, Option, none, some, ◌+◌, ◌-◌, ◌*◌, ◌/◌, leb, ltb,
  if◌then◌else◌,
}
use ourdao_backend.Common.Int.{ℤ, pos, negsuc}
use ourdao_backend.Common.Text.{is_decimal, decimal}
use ourdao_backend.Common.Split.{strip_prefix}

-- `total - amount` for two natural numbers
abbrev minus : ℕ → ℕ → ℤ
minus a b = if leb b a then pos (a - b) else negsuc (b - a - 1)

abbrev pub negate : ℕ → ℤ
negate zero = pos 0
negate (suc n) = negsuc n

infixl 6 ◌-ℤ◌
abbrev pub ◌-ℤ◌ : ℤ → ℤ → ℤ
pos a -ℤ pos b = minus a b
pos a -ℤ negsuc b = pos (a + suc b)
negsuc a -ℤ pos b = negsuc (a + b)
negsuc a -ℤ negsuc b = minus b a

-- A column as the database driver hands it over: a text, a number that is an integer, or another value.
pub data AmountValue : Type 0 where
  text : String → AmountValue
  integer : ℤ → AmountValue
  other : AmountValue

abbrev digits : String → (ℕ → ℤ) → Option ℤ
digits s sign = if is_decimal s then some (sign (decimal s)) else none

abbrev signed : String → Option String → Option ℤ
signed s none = digits s pos
signed s (some rest) = digits rest negate

abbrev magnitude : ℤ → ℕ
magnitude (pos n) = n
magnitude (negsuc n) = suc n

unfoldable pub parse_integer_amount : AmountValue → Option ℤ
unfolding strip_prefix
parse_integer_amount (AmountValue.text s) = signed s (strip_prefix "-" s)
parse_integer_amount (AmountValue.integer n) =
    if leb (magnitude n) 9007199254740991 then some n else none
parse_integer_amount AmountValue.other = none

-- `n * 10000n / t` towards zero
abbrev scaled_quotient : ℤ → ℕ → ℤ
scaled_quotient (pos n) t = pos (n * 10000 / t)
scaled_quotient (negsuc n) t = negate (suc n * 10000 / t)

abbrev clamp : ℤ → ℕ
clamp (negsuc n) = 0
clamp (pos n) = if ltb 10000 n then 10000 else n

unfoldable pub repayment_progress_bps : ℤ → ℤ → ℕ
repayment_progress_bps repaid (negsuc t) = 0
repayment_progress_bps repaid (pos t) = if leb t 0 then 0 else clamp (scaled_quotient repaid t)

pub record LoanAmounts : Type 0 where
  pub amount : AmountValue
  pub total_repayment : AmountValue
  pub outstanding : AmountValue

pub record LoanFigures : Type 0 where
  pub interest_charge : Option ℤ
  pub repaid_amount : Option ℤ
  pub repayment_progress : Option ℕ

abbrev pub no_figures : LoanFigures
no_figures = record { interest_charge = none; repaid_amount = none; repayment_progress = none }

abbrev pub figures : Option ℤ → Option ℤ → Option ℤ → LoanFigures
figures (some total) (some amount) (some outstanding) = record {
  interest_charge = some (total -ℤ amount);
  repaid_amount = some (total -ℤ outstanding);
  repayment_progress = some (repayment_progress_bps (total -ℤ outstanding) total);
}
figures _ _ _ = no_figures

unfoldable pub with_loan_derived : LoanAmounts → LoanFigures
unfolding parse_integer_amount repayment_progress_bps
with_loan_derived loan =
    figures (parse_integer_amount loan.total_repayment) (parse_integer_amount loan.amount)
      (parse_integer_amount loan.outstanding)
