-- ===== src/Examples/Querying.antt =====
-- A query of GET /events.
use ourdao_backend.Common.{
  ℕ, String, true, false, Option, none, some, [], ◌∷◌, length, string_eq, nat_eq, ◌≡◌, refl, ok,
  if◌then◌else◌,
}
use ourdao_backend.Common.Text.{is_decimal, decimal}
use ourdao_backend.Common.Split.{split, cons_first}
use ourdao_backend.Routes.{
  Param, Condition, EventQuery, Statement, events_statement, checked, limited, parse_limit,
  event_cursor, ledger_bound, invalid_ledger_range, text_param, event_filter, event_clauses,
  add_text, add_ledger, add_decode_error, add_cursor, add_at, push, push_pair,
}
use ourdao_backend.Routes.Placeholders.{EventColumns, get_param, compare_param, all_hold}
use ourdao_backend.Routes.Events.{matches, is_limit, events_statement-selects}

abbrev trim : String → String
trim v = v

abbrev number : String → Option ℕ
number v = if is_decimal v then some (decimal v) else none

abbrev request : EventQuery
request = record {
  limit = some "20";
  before = some "90-3";
  after = none;
  from_ledger = some "10";
  to_ledger = none;
  order = none;
  symbol = some "loan";
  contract = none;
  decode_error = none;
}

abbrev statement : Statement
statement = record {
  conditions = Condition.symbol_is 1 ∷ Condition.ledger_from 2 ∷ Condition.pair_below 3 4 ∷ [];
  params =
      Param.text "loan"
      ∷ Param.number_param 10
      ∷ Param.number_param 90
      ∷ Param.text "90-3"
      ∷ Param.number_param 20
      ∷ [];
  ascending = false;
}

abbrev row : EventColumns
row = record { id = "50-1"; ledger = 50; symbol = "loan"; contract_id = "C"; is_undecoded = false }

answered : events_statement trim number request ≡ ok statement
unfolding events_statement checked limited parse_limit event_cursor ledger_bound
    invalid_ledger_range text_param event_filter event_clauses add_text add_ledger add_decode_error
    add_cursor add_at push push_pair split cons_first is_decimal decimal
answered = refl

events_statement-selects_example :
    (all_hold (λ a b. false) statement.params row statement.conditions
      ≡ matches (λ a b. false) (event_filter trim number request) row)
    × (compare_param is_limit (get_param (length statement.params) statement.params) ≡ true)
events_statement-selects_example =
    events_statement-selects trim number (λ a b. false) request statement row answered
