-- ===== src/Routes/Events.antt =====
-- src/api/routes/index.ts: the rows that the statement of GET /events selects.
use ourdao_backend.Common.{
  ℕ, String, Bool, true, false, Option, none, some, List, [], ◌∷◌, ◌++◌, leb, ltb, ◌&&◌, length,
  if◌then◌else◌, ◌==◌, string_eq, nat_eq, ◌≡◌, refl, sym, ◌∙◌, ap, subst, Result, ok, err, if_elim,
  arith,
}
use ourdao_backend.Routes.{
  Param, Condition, Clauses, EventCursor, EventFilter, EventQuery, QueryError, Statement, unread,
  both, event_cursor, invalid_ledger_range, add_ledger, add_decode_error, add_at, add_cursor,
  no_clauses, event_clauses, event_filter, limited, checked, events_statement, parse_limit,
}
use ourdao_backend.Routes.Placeholders.{
  EventColumns, get_param, compare_param, pair_param, pair_is_below, pair_is_above, holds, all_hold,
  and_true, Means, push-Means, push_pair-Means, says_text, says_ledger, add_symbol-Means,
  add_contract-Means, all_hold-append,
}

abbrev says_at : (ℕ → String → Bool) → (ℕ → Bool) → ℕ → Option String → Bool
says_at pair one ledger none = one ledger
says_at pair one ledger (some id) = pair ledger id

abbrev says_cursor : (ℕ → String → Bool) → (ℕ → Bool) → Option EventCursor → Bool
says_cursor pair one none = true
says_cursor pair one (some c) = says_at pair one c.ledger c.id

-- The row is what the request asks for.
abbrev pub matches : (String → String → Bool) → EventFilter → EventColumns → Bool
matches text_lt f row =
    says_text f.symbol row.symbol
    && says_text f.contract row.contract_id
    && (if f.decode_error then row.is_undecoded else true)
    && says_ledger (λ n. leb n row.ledger) f.from_ledger
    && says_ledger (λ n. leb row.ledger n) f.to_ledger
    && says_cursor (pair_is_below text_lt row) (λ n. ltb row.ledger n) f.before
    && says_cursor (pair_is_above text_lt row) (λ n. ltb n row.ledger) f.after

module _ (text_lt : String → String → Bool) (row : EventColumns) where
  add_ledger-Means :
      (q : Clauses) (b : Bool) (test : ℕ → Bool) (c : ℕ → Condition) (o : Option ℕ)
      → ((n : ℕ) (ps : List Param)
          → holds text_lt ps row (c n) ≡ compare_param test (get_param n ps))
      → Means text_lt row q b
      → Means text_lt row (add_ledger c o q) (b && says_ledger test o)
  unfolding Means add_ledger
  add_ledger-Means q b test c none is m = λ extra. m extra ∙ sym (and_true b)
  add_ledger-Means q b test c (some k) is m =
      push-Means text_lt row q b (test k) (Param.number_param k) c m
        (λ n ps h. is n ps ∙ ap (compare_param test) h)

  add_decode_error-Means :
      (q : Clauses) (b f : Bool)
      → Means text_lt row q b
      → Means text_lt row (add_decode_error f q) (b && (if f then row.is_undecoded else true))
  unfolding Means add_decode_error
  add_decode_error-Means q b false m = λ extra. m extra ∙ sym (and_true b)
  add_decode_error-Means q b true m = λ extra.
      all_hold-append text_lt row (q.params ++ extra) q.conditions Condition.has_decode_error
      ∙ ap (λ x. x && row.is_undecoded) (m extra)

  add_at-Means :
      (q : Clauses) (b : Bool) (pair : ℕ → String → Bool) (one : ℕ → Bool) (cp : ℕ → ℕ → Condition)
      (co : ℕ → Condition) (ledger : ℕ) (id : Option String)
      → ((n : ℕ) (ps : List Param)
          → holds text_lt ps row (co n) ≡ compare_param one (get_param n ps))
      → ((n m : ℕ) (ps : List Param)
          → holds text_lt ps row (cp n m)
            ≡ pair_param text_lt pair (get_param n ps) (get_param m ps))
      → Means text_lt row q b
      → Means text_lt row (add_at cp co ledger id q) (b && says_at pair one ledger id)
  unfolding add_at
  add_at-Means q b pair one cp co ledger none is_one is_pair m =
      push-Means text_lt row q b (one ledger) (Param.number_param ledger) co m
        (λ n ps h. is_one n ps ∙ ap (compare_param one) h)
  add_at-Means q b pair one cp co ledger (some id) is_one is_pair m =
      push_pair-Means text_lt row q b (pair ledger id) (Param.number_param ledger) (Param.text id)
        cp m
        (λ n k ps g h.
          is_pair n k ps
          ∙ ap (λ p. pair_param text_lt pair p (get_param k ps)) g
          ∙ ap (λ p. pair_param text_lt pair (some (Param.number_param ledger)) p) h)

  add_cursor-Means :
      (q : Clauses) (b : Bool) (pair : ℕ → String → Bool) (one : ℕ → Bool) (cp : ℕ → ℕ → Condition)
      (co : ℕ → Condition) (cursor : Option EventCursor)
      → ((n : ℕ) (ps : List Param)
          → holds text_lt ps row (co n) ≡ compare_param one (get_param n ps))
      → ((n m : ℕ) (ps : List Param)
          → holds text_lt ps row (cp n m)
            ≡ pair_param text_lt pair (get_param n ps) (get_param m ps))
      → Means text_lt row q b
      → Means text_lt row (add_cursor cp co cursor q) (b && says_cursor pair one cursor)
  unfolding Means add_cursor
  add_cursor-Means q b pair one cp co none is_one is_pair m = λ extra. m extra ∙ sym (and_true b)
  add_cursor-Means q b pair one cp co (some c) is_one is_pair m =
      add_at-Means q b pair one cp co c.ledger c.id is_one is_pair m

  event_clauses-Means :
      (f : EventFilter) → Means text_lt row (event_clauses f) (matches text_lt f row)
  unfolding event_clauses Means
  event_clauses-Means f =
      add_cursor-Means _ _ (pair_is_above text_lt row) (λ n. ltb n row.ledger) Condition.pair_above
        Condition.ledger_above f.after (λ n ps. refl) (λ n m ps. refl)
        (add_cursor-Means _ _ (pair_is_below text_lt row) (λ n. ltb row.ledger n)
          Condition.pair_below Condition.ledger_below f.before (λ n ps. refl) (λ n m ps. refl)
          (add_ledger-Means _ _ (λ n. leb row.ledger n) Condition.ledger_to f.to_ledger
            (λ n ps. refl)
            (add_ledger-Means _ _ (λ n. leb n row.ledger) Condition.ledger_from f.from_ledger
              (λ n ps. refl)
              (add_decode_error-Means _ _ f.decode_error (
                add_contract-Means text_lt row _ _ f.contract
                  (add_symbol-Means text_lt row no_clauses true f.symbol (λ extra. refl)))))))

get_param-limit :
    (ps : List Param) (p : Param) → get_param (length (ps ++ p ∷ [])) (ps ++ p ∷ []) ≡ some p
get_param-limit [] p = refl
get_param-limit (q ∷ []) p = refl
get_param-limit (q ∷ r ∷ ps) p = get_param-limit (r ∷ ps) p

after_guard :
    (b : Bool) (e : QueryError) (rest : Result QueryError Statement) (st t : Statement)
    → (rest ≡ ok st → t ≡ st)
    → (if b then err e else rest) ≡ ok st
    → t ≡ st
after_guard true e rest st t next h = absurd (cc h)
after_guard false e rest st t next h = next h

abbrev pub is_limit : ℕ → Bool
is_limit n = leb 1 n && leb n 200

unfoldable limit_ok : Option ℕ → Bool
limit_ok none = true
limit_ok (some n) = is_limit n

module _ (trim : String → String) (number : String → Option ℕ) where
  parse_limit-limit_ok : (v : Option String) → limit_ok (parse_limit trim v) ≡ true
  unfolding parse_limit limit_ok
  parse_limit-limit_ok none = refl
  parse_limit-limit_ok (some v) =
      if_elim (λ o. limit_ok o ≡ true) (v == "") (λ h. refl) (λ h. ground arith)

  checked-limited :
      (q : EventQuery) (l : ℕ) (st : Statement)
      → checked trim number q (some l) ≡ ok st
      → limited trim number l q ≡ st
  unfolding checked
  checked-limited q l st =
      let before = event_cursor trim number q.before in
      let after = event_cursor trim number q.after in
      let done = limited trim number l q in
      let ranged =
        if invalid_ledger_range trim q.from_ledger q.to_ledger
        then err QueryError.invalid_range
        else ok done in
      let single = if both before after then err QueryError.before_and_after else ranged in
      after_guard (unread q.before before) QueryError.invalid_before
        (if unread q.after after then err QueryError.invalid_after else single) st done
        (after_guard (unread q.after after) QueryError.invalid_after single st done (
          after_guard (both before after) QueryError.before_and_after ranged st done (
            after_guard (invalid_ledger_range trim q.from_ledger q.to_ledger)
              QueryError.invalid_range (ok done) st done (λ h. cc h))))

  invalid : (q : EventQuery) (st : Statement) → checked trim number q none ≡ ok st → ⊥
  unfolding checked
  invalid q st h = absurd (cc h)

  limited-selects :
      (text_lt : String → String → Bool) (q : EventQuery) (l : ℕ) (row : EventColumns)
      → is_limit l ≡ true
      → (all_hold text_lt (limited trim number l q).params row (limited trim number l q).conditions
          ≡ matches text_lt (event_filter trim number q) row)
        × (compare_param is_limit
              (get_param (length (limited trim number l q).params) (limited trim number l q).params)
            ≡ true)
  unfolding limited Means
  limited-selects text_lt q l row h = (
    event_clauses-Means text_lt row (event_filter trim number q) (Param.number_param l ∷ []),
    ap (compare_param is_limit) (
          get_param-limit (event_clauses (event_filter trim number q)).params
            (Param.number_param l))
        ∙ h,
  )

  checked-selects :
      (text_lt : String → String → Bool) (q : EventQuery) (o : Option ℕ) (st : Statement)
      (row : EventColumns)
      → limit_ok o ≡ true
      → checked trim number q o ≡ ok st
      → (all_hold text_lt st.params row st.conditions
          ≡ matches text_lt (event_filter trim number q) row)
        × (compare_param is_limit (get_param (length st.params) st.params) ≡ true)
  unfolding limit_ok
  checked-selects text_lt q none st row k h = absurd (invalid q st h)
  checked-selects text_lt q (some l) st row k h =
      subst
        (λ t.
          (all_hold text_lt t.params row t.conditions
            ≡ matches text_lt (event_filter trim number q) row)
          × (compare_param is_limit (get_param (length t.params) t.params) ≡ true))
        (checked-limited q l st h) (limited-selects text_lt q l row k)

  -- In an order of texts, where a query is answered with a statement: its conditions, with the values
  -- that its parameters bind, hold of a row exactly where the row matches every filter of the query;
  -- and the last parameter is a limit from 1 to 200.
  pub events_statement-selects :
      (text_lt : String → String → Bool) (q : EventQuery) (st : Statement) (row : EventColumns)
      → events_statement trim number q ≡ ok st
      → (all_hold text_lt st.params row st.conditions
          ≡ matches text_lt (event_filter trim number q) row)
        × (compare_param is_limit (get_param (length st.params) st.params) ≡ true)
  unfolding events_statement
  events_statement-selects text_lt q st row h =
      checked-selects text_lt q (parse_limit trim q.limit) st row (parse_limit-limit_ok q.limit) h
