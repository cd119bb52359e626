-- ===== src/Routes.antt =====
-- src/api/routes/index.ts: the parameters of a query, and the statement of GET /events. A parameter is a
-- text or missing. `trim` and `Number` are parameters where the text need not be digits.
pub mod Placeholders
pub mod Events
use ourdao_backend.Common.{
  ℕ, zero, suc, String, Bool, true, false, Option, none, some, List, [], ◌∷◌, ◌++◌, ◌-◌, leb, ltb,
  not, ◌&&◌, ◌||◌, length, if◌then◌else◌, ◌==◌, string_eq, nat_eq, Result, ok, err,
}
use ourdao_backend.Common.Text.{is_decimal, decimal}
use ourdao_backend.Common.Split.{split}

abbrev pub max_safe_integer : ℕ
max_safe_integer = 9007199254740991

abbrev pub max_ledger_range : ℕ
max_ledger_range = 10000

-- `{ ledger, id? }`
pub record EventCursor : Type 0 where
  pub ledger : ℕ
  pub id : Option String

-- digits, as a safe integer between two bounds
abbrev digits_within : ℕ → ℕ → String → Option ℕ
digits_within low high raw =
    if is_decimal raw && leb low (decimal raw) && leb (decimal raw) high
    then some (decimal raw)
    else none

-- `/^[0-9]+-[0-9]+$/`; `Number` of the first digits is exact up to max_safe_integer
abbrev pair_of : String → List String → Option EventCursor
pair_of raw (a ∷ b ∷ []) =
    if is_decimal a && is_decimal b
    then some (record { ledger = decimal a; id = some raw })
    else none
pair_of raw _ = none

abbrev plain_cursor : Option ℕ → Option EventCursor
plain_cursor none = none
plain_cursor (some n) =
    if leb 1 n && leb n max_safe_integer then some (record { ledger = n; id = none }) else none

abbrev or_plain : Option ℕ → Option EventCursor → Option EventCursor
or_plain n none = plain_cursor n
or_plain n (some c) = some c

-- a parameter that is there and is not read
abbrev pub unread {ℓ} : {A : Type ℓ} → Option String → Option A → Bool
unread none parsed = false
unread (some v) none = true
unread (some v) (some parsed) = false

abbrev bad_span : Option ℕ → Option ℕ → Bool
bad_span (some from) (some to) = ltb to from || ltb max_ledger_range (to - from)
bad_span _ _ = false

-- a text that is there and not empty
unfoldable pub text_param : Option String → Option String
text_param none = none
text_param (some v) = if v == "" then none else some v

-- `trim`, and `Number(text)` where that is a natural number
module _ (trim : String → String) where
  unfoldable pub parse_limit : Option String → Option ℕ
  parse_limit none = some 50
  parse_limit (some v) = if v == "" then some 50 else digits_within 1 200 (trim v)

  -- `?before=` of the other lists
  unfoldable pub ledger_bound : Option String → Option ℕ
  ledger_bound none = none
  ledger_bound (some v) = if v == "" then none else digits_within 0 max_safe_integer (trim v)

  unfoldable pub event_cursor : (String → Option ℕ) → Option String → Option EventCursor
  unfolding split
  event_cursor number none = none
  event_cursor number (some v) =
      if v == "" then none else or_plain (number (trim v)) (pair_of (trim v) (split "-" (trim v)))

  unfoldable pub invalid_ledger_range : Option String → Option String → Bool
  unfolding ledger_bound
  invalid_ledger_range from_raw to_raw =
      if unread from_raw (ledger_bound from_raw)
      then true
      else if unread to_raw (ledger_bound to_raw)
      then true
      else bad_span (ledger_bound from_raw) (ledger_bound to_raw)

-- A value that is bound to a placeholder.
pub data Param : Type 0 where
  text : String → Param
  number_param : ℕ → Param

-- A condition, with the numbers of its placeholders.
pub data Condition : Type 0 where
  symbol_is contract_is ledger_from ledger_to ledger_below ledger_above : ℕ → Condition
  has_decode_error : Condition
  pair_below pair_above : ℕ → ℕ → Condition

pub record Clauses : Type 0 where
  pub conditions : List Condition
  pub params : List Param

-- `params.push(p); conditions.push(c(params.length))`
unfoldable pub push : Param → (ℕ → Condition) → Clauses → Clauses
push p c q =
    let params = q.params ++ p ∷ [] in
    record { conditions = q.conditions ++ c (length params) ∷ []; params = params }

-- `params.push(a, b)` with `$${params.length - 1}` and `$${params.length}`
unfoldable pub push_pair : Param → Param → (ℕ → ℕ → Condition) → Clauses → Clauses
push_pair a b c q =
    let params = q.params ++ a ∷ b ∷ [] in
    record {
      conditions = q.conditions ++ c (length params - 1) (length params) ∷ [];
      params = params;
    }

unfoldable pub add_text : (ℕ → Condition) → Option String → Clauses → Clauses
unfolding push
add_text c none q = q
add_text c (some v) q = push (text v) c q

unfoldable pub add_ledger : (ℕ → Condition) → Option ℕ → Clauses → Clauses
unfolding push
add_ledger c none q = q
add_ledger c (some n) q = push (number_param n) c q

unfoldable pub add_decode_error : Bool → Clauses → Clauses
add_decode_error decode_error q =
    if decode_error then record q { conditions = q.conditions ++ has_decode_error ∷ [] } else q

-- a cursor with an id compares the pair, one without compares the ledger
unfoldable pub add_at :
    (ℕ → ℕ → Condition) → (ℕ → Condition) → ℕ → Option String → Clauses → Clauses
unfolding push push_pair
add_at pair one ledger none q = push (number_param ledger) one q
add_at pair one ledger (some id) q = push_pair (number_param ledger) (text id) pair q

unfoldable pub add_cursor :
    (ℕ → ℕ → Condition) → (ℕ → Condition) → Option EventCursor → Clauses → Clauses
unfolding add_at
add_cursor pair one none q = q
add_cursor pair one (some c) q = add_at pair one c.ledger c.id q

-- What a request asks for.
pub record EventFilter : Type 0 where
  pub symbol : Option String
  pub contract : Option String
  pub decode_error : Bool
  pub from_ledger : Option ℕ
  pub to_ledger : Option ℕ
  pub before : Option EventCursor
  pub after : Option EventCursor

abbrev pub no_clauses : Clauses
no_clauses = record { conditions = []; params = [] }

unfoldable pub event_clauses : EventFilter → Clauses
unfolding add_text add_ledger add_decode_error add_cursor
event_clauses f = add_cursor pair_above ledger_above f.after (
    add_cursor pair_below ledger_below f.before (
      add_ledger ledger_to f.to_ledger (
        add_ledger ledger_from f.from_ledger (
          add_decode_error f.decode_error
            (add_text contract_is f.contract (add_text symbol_is f.symbol no_clauses))))))

-- The query's texts.
pub record EventQuery : Type 0 where
  pub limit : Option String
  pub before : Option String
  pub after : Option String
  pub from_ledger : Option String
  pub to_ledger : Option String
  pub order : Option String
  pub symbol : Option String
  pub contract : Option String
  pub decode_error : Option String

-- The replies with status 400.
pub data QueryError : Type 0 where
  invalid_limit invalid_before invalid_after before_and_after invalid_range : QueryError

pub record Statement : Type 0 where
  pub conditions : List Condition
  pub params : List Param
  pub ascending : Bool

abbrev pub both {ℓ} : {A : Type ℓ} → Option A → Option A → Bool
both (some a) (some b) = true
both _ _ = false

abbrev is_text : String → Option String → Bool
is_text t none = false
is_text t (some v) = v == t

module _ (trim : String → String) (number : String → Option ℕ) where
  unfoldable pub event_filter : EventQuery → EventFilter
  unfolding event_cursor ledger_bound text_param
  event_filter q = record {
    symbol = text_param q.symbol;
    contract = text_param q.contract;
    decode_error = is_text "true" q.decode_error;
    from_ledger = ledger_bound trim q.from_ledger;
    to_ledger = ledger_bound trim q.to_ledger;
    before = event_cursor trim number q.before;
    after = event_cursor trim number q.after;
  }

  -- the statement with the limit as its last parameter
  unfoldable pub limited : ℕ → EventQuery → Statement
  unfolding event_clauses event_filter
  limited l q =
      let clauses = event_clauses (event_filter q) in
      record {
        conditions = clauses.conditions;
        params = clauses.params ++ number_param l ∷ [];
        ascending = is_text "asc" q.order;
      }

  unfoldable pub checked : EventQuery → Option ℕ → Result QueryError Statement
  unfolding limited event_cursor invalid_ledger_range
  checked q none = err invalid_limit
  checked q (some l) =
      if unread q.before (event_cursor trim number q.before)
      then err invalid_before
      else if unread q.after (event_cursor trim number q.after)
      then err invalid_after
      else if both (event_cursor trim number q.before) (event_cursor trim number q.after)
      then err before_and_after
      else if invalid_ledger_range trim q.from_ledger q.to_ledger
      then err invalid_range
      else ok (limited l q)

  -- the handler of GET /events, up to the query
  unfoldable pub events_statement : EventQuery → Result QueryError Statement
  unfolding checked parse_limit
  events_statement q = checked q (parse_limit trim q.limit)
