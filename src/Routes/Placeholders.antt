-- ===== src/Routes/Placeholders.antt =====
-- src/api/routes/index.ts: what a statement's conditions say of a row, with their placeholders.
use mathlib.Core.List.{append_assoc}
use ourdao_backend.Common.{
  ℕ, zero, suc, String, Bool, true, false, Option, none, some, List, [], ◌∷◌, ◌++◌, ◌-◌, leb, ltb,
  ◌&&◌, ◌||◌, length, length-append, ◌==◌, ◌=ℕ◌, string_eq, ◌≡◌, refl, sym, ◌∙◌, ap, arith,
}
use ourdao_backend.Routes.{Param, Condition, Clauses, push, push_pair, add_text}

-- the columns that the conditions read
pub record EventColumns : Type 0 where
  pub id : String
  pub ledger : ℕ
  pub symbol : String
  pub contract_id : String
  pub is_undecoded : Bool

-- the value of `$n`
abbrev pub get_param : ℕ → List Param → Option Param
get_param zero ps = none
get_param (suc n) [] = none
get_param (suc n) (p ∷ ps) = elim n [ zero ↦ some p | suc m ↦ get_param n ps ]

abbrev is_text_param : Option Param → String → Bool
is_text_param (some (Param.text v)) column = column == v
is_text_param _ column = false

abbrev pub compare_param : (ℕ → Bool) → Option Param → Bool
compare_param test (some (Param.number_param n)) = test n
compare_param test _ = false

-- `(ledger, id) < (n, v)` and `>`, by the database's order of texts
module _ (text_lt : String → String → Bool) where
  abbrev pub pair_is_below : EventColumns → ℕ → String → Bool
  pair_is_below row n v = ltb row.ledger n || ((row.ledger =ℕ n) && text_lt row.id v)

  abbrev pub pair_is_above : EventColumns → ℕ → String → Bool
  pair_is_above row n v = ltb n row.ledger || ((row.ledger =ℕ n) && text_lt v row.id)

  abbrev pub pair_param : (ℕ → String → Bool) → Option Param → Option Param → Bool
  pair_param test (some (Param.number_param n)) (some (Param.text v)) = test n v
  pair_param test _ _ = false

  abbrev pub holds : List Param → EventColumns → Condition → Bool
  holds ps row (Condition.symbol_is n) = is_text_param (get_param n ps) row.symbol
  holds ps row (Condition.contract_is n) = is_text_param (get_param n ps) row.contract_id
  holds ps row (Condition.ledger_from n) = compare_param (λ k. leb k row.ledger) (get_param n ps)
  holds ps row (Condition.ledger_to n) = compare_param (λ k. leb row.ledger k) (get_param n ps)
  holds ps row (Condition.ledger_below n) = compare_param (λ k. ltb row.ledger k) (get_param n ps)
  holds ps row (Condition.ledger_above n) = compare_param (λ k. ltb k row.ledger) (get_param n ps)
  holds ps row Condition.has_decode_error = row.is_undecoded
  holds ps row (Condition.pair_below n m) =
      pair_param (pair_is_below row) (get_param n ps) (get_param m ps)
  holds ps row (Condition.pair_above n m) =
      pair_param (pair_is_above row) (get_param n ps) (get_param m ps)

  -- `c1 AND c2 AND …`
  abbrev pub all_hold : List Param → EventColumns → List Condition → Bool
  all_hold ps row [] = true
  all_hold ps row (c ∷ cs) = holds ps row c && all_hold ps row cs

pub get_param-last :
    (ps : List Param) (p : Param) (extra : List Param)
    → get_param (length (ps ++ p ∷ [])) ((ps ++ p ∷ []) ++ extra) ≡ some p
get_param-last [] p extra = refl
get_param-last (q ∷ []) p extra = refl
get_param-last (q ∷ r ∷ ps) p extra = get_param-last (r ∷ ps) p extra

get_param-first :
    (ps : List Param) (a b : Param) (extra : List Param)
    → get_param (length (ps ++ a ∷ [])) ((ps ++ a ∷ b ∷ []) ++ extra) ≡ some a
get_param-first [] a b extra = refl
get_param-first (q ∷ []) a b extra = refl
get_param-first (q ∷ r ∷ ps) a b extra = get_param-first (r ∷ ps) a b extra

get_param-second :
    (ps : List Param) (a b : Param) (extra : List Param)
    → get_param (length (ps ++ a ∷ b ∷ [])) ((ps ++ a ∷ b ∷ []) ++ extra) ≡ some b
get_param-second [] a b extra = refl
get_param-second (q ∷ []) a b extra = refl
get_param-second (q ∷ r ∷ ps) a b extra = get_param-second (r ∷ ps) a b extra

-- `$${params.length - 1}`
length-before_last :
    (ps : List Param) (a b : Param) → length (ps ++ a ∷ b ∷ []) - 1 ≡ length (ps ++ a ∷ [])
length-before_last ps a b =
    let two = length-append ps (a ∷ b ∷ []) in let one = length-append ps (a ∷ []) in omega arith

pub and_true : (b : Bool) → b && true ≡ b
and_true true = refl
and_true false = refl

and_assoc : (a b c : Bool) → (a && b) && c ≡ a && (b && c)
and_assoc true b c = refl
and_assoc false b c = refl

-- what each part of the filter says of the row
abbrev pub says_text : Option String → String → Bool
says_text none column = true
says_text (some v) column = column == v

abbrev pub says_ledger : (ℕ → Bool) → Option ℕ → Bool
says_ledger test none = true
says_ledger test (some n) = test n

module _ (text_lt : String → String → Bool) (row : EventColumns) where
  pub all_hold-append :
      (ps : List Param) (cs : List Condition) (c : Condition)
      → all_hold text_lt ps row (cs ++ c ∷ [])
        ≡ all_hold text_lt ps row cs && holds text_lt ps row c
  all_hold-append ps [] c = and_true (holds text_lt ps row c)
  all_hold-append ps (d ∷ cs) c =
      ap (λ b. holds text_lt ps row d && b) (all_hold-append ps cs c)
      ∙ sym
          (and_assoc (holds text_lt ps row d) (all_hold text_lt ps row cs) (holds text_lt ps row c))

  -- the conditions say `b` of the row, whatever is bound after them
  unfoldable pub Means : Clauses → Bool → Type 0
  Means q b = (extra : List Param) → all_hold text_lt (q.params ++ extra) row q.conditions ≡ b

  -- what was said before a placeholder is still said
  step :
      (q : Clauses) (b d : Bool) (bound : List Param) (c : Condition)
      → Means q b
      → ((extra : List Param) → holds text_lt ((q.params ++ bound) ++ extra) row c ≡ d)
      → (extra : List Param)
      → all_hold text_lt ((q.params ++ bound) ++ extra) row (q.conditions ++ c ∷ []) ≡ b && d
  unfolding Means
  step q b d bound c m h extra =
      all_hold-append ((q.params ++ bound) ++ extra) q.conditions c
      ∙ ap (λ x. all_hold text_lt ((q.params ++ bound) ++ extra) row q.conditions && x) (h extra)
      ∙ ap (λ ps. all_hold text_lt ps row q.conditions && d) (append_assoc q.params bound extra)
      ∙ ap (λ x. x && d) (m (bound ++ extra))

  pub push-Means :
      (q : Clauses) (b d : Bool) (p : Param) (c : ℕ → Condition)
      → Means q b
      → ((n : ℕ) (ps : List Param) → get_param n ps ≡ some p → holds text_lt ps row (c n) ≡ d)
      → Means (push p c q) (b && d)
  unfolding Means push
  push-Means q b d p c m reads = step q b d (p ∷ []) (c (length (q.params ++ p ∷ []))) m (λ extra.
      reads (length (q.params ++ p ∷ [])) ((q.params ++ p ∷ []) ++ extra)
        (get_param-last q.params p extra))

  pub push_pair-Means :
      (q : Clauses) (s d : Bool) (a b : Param) (c : ℕ → ℕ → Condition)
      → Means q s
      → ((n m : ℕ) (ps : List Param)
          → get_param n ps ≡ some a
          → get_param m ps ≡ some b
          → holds text_lt ps row (c n m) ≡ d)
      → Means (push_pair a b c q) (s && d)
  unfolding Means push_pair
  push_pair-Means q s d a b c m reads =
      let n = length (q.params ++ a ∷ b ∷ []) in
      step q s d (a ∷ b ∷ []) (c (n - 1) n) m (λ extra.
        let ps = (q.params ++ a ∷ b ∷ []) ++ extra in
        reads (n - 1) n ps
          (ap (λ i. get_param i ps) (length-before_last q.params a b)
            ∙ get_param-first q.params a b extra)
          (get_param-second q.params a b extra))

  pub add_symbol-Means :
      (q : Clauses) (b : Bool) (v : Option String)
      → Means q b
      → Means (add_text Condition.symbol_is v q) (b && says_text v row.symbol)
  unfolding Means add_text
  add_symbol-Means q b none m = λ extra. m extra ∙ sym (and_true b)
  add_symbol-Means q b (some v) m =
      push-Means q b (row.symbol == v) (Param.text v) Condition.symbol_is m
        (λ n ps h. ap (λ p. is_text_param p row.symbol) h)

  pub add_contract-Means :
      (q : Clauses) (b : Bool) (v : Option String)
      → Means q b
      → Means (add_text Condition.contract_is v q) (b && says_text v row.contract_id)
  unfolding Means add_text
  add_contract-Means q b none m = λ extra. m extra ∙ sym (and_true b)
  add_contract-Means q b (some v) m =
      push-Means q b (row.contract_id == v) (Param.text v) Condition.contract_is m
        (λ n ps h. ap (λ p. is_text_param p row.contract_id) h)
