-- ===== src/Handlers/Require.antt =====
-- indexer/handlers.ts: the readers of an event's fields. One that a derived row depends on throws
-- where the field is missing or malformed.
use Prim.Native.String.{◌++◌ as concat}
use ourdao_backend.Common.{
  String, Bool, true, false, Option, none, some, [], ◌∷◌, if◌then◌else◌, Result, ok, err, ◌==◌,
  string_eq,
}
use ourdao_backend.Common.Int.{ℤ, pos}
use ourdao_backend.Common.Text.{is_decimal, decimal, lowers_to}
use ourdao_backend.Events.{
  Value, null, bool, num, str, arr, obj, Items, nil, cons, Fields, end, field, DecodedEvent,
  get_field,
}
use ourdao_backend.Derived.{ProposalKind, loan, treasury}

-- What makes a handler throw: a field that fails its check (with the event's id and the field's
-- name), or a statement that the database refuses.
pub data FoldError : Type 0 where
  field_validation : String → String → FoldError
  numeric_overflow : FoldError
  integer_out_of_range : FoldError
  -- a text that is no INTEGER, no TIMESTAMPTZ, or one before its range
  invalid_integer : String → FoldError
  invalid_date : FoldError
  date_out_of_range : FoldError

abbrev pub Fold : Type 0 → Type 0
Fold A = Result FoldError A

abbrev invalid : {A : Type 0} → DecodedEvent → String → Fold A
invalid ev name = err (field_validation ev.id name)

address_of : DecodedEvent → String → Value → Fold String
address_of ev name (str s) = if s == "" then invalid ev name else ok s
address_of ev name _ = invalid ev name

unfoldable pub require_addr : DecodedEvent → String → Fold String
unfolding address_of
require_addr ev name = address_of ev name (get_field ev name)

integer_of : DecodedEvent → String → Option ℤ → Fold ℤ
integer_of ev name none = invalid ev name
integer_of ev name (some n) = ok n

-- `Number(v)` of a decimal text is its value. Beyond 2 ^ 53 JavaScript rounds it, which no id that
-- the database takes can reach.
id_of : DecodedEvent → String → Value → Fold ℤ
unfolding integer_of
id_of ev name (num n) = integer_of ev name n.integer
id_of ev name (str s) = if is_decimal s then ok (pos (decimal s)) else invalid ev name
id_of ev name _ = invalid ev name

unfoldable pub require_id : DecodedEvent → String → Fold ℤ
unfolding id_of
require_id ev name = id_of ev name (get_field ev name)

-- `typeof v === 'number' && Number.isFinite(v) ? String(v) : v`; the text of a number that is not
-- finite is not decimal either
amount_of : DecodedEvent → String → Value → Fold String
amount_of ev name (num n) = if is_decimal n.text then ok n.text else invalid ev name
amount_of ev name (str s) = if is_decimal s then ok s else invalid ev name
amount_of ev name _ = invalid ev name

unfoldable pub require_amount : DecodedEvent → String → Fold String
unfolding amount_of
require_amount ev name = amount_of ev name (get_field ev name)

bool_of : DecodedEvent → String → Value → Fold Bool
bool_of ev name (bool b) = ok b
bool_of ev name _ = invalid ev name

unfoldable pub require_bool : DecodedEvent → String → Fold Bool
unfolding bool_of
require_bool ev name = bool_of ev name (get_field ev name)

find_tag : Fields → Option Value
find_tag end = none
find_tag (field k v rest) = if k == "tag" then some v else find_tag rest

-- a bare text, the head of an array, or the `tag` of an object
tag_of : Value → Value
unfolding find_tag
tag_of (arr nil) = null
tag_of (arr (cons v vs)) = v
tag_of (obj fs) = elim (find_tag fs) [ none ↦ obj fs | some v ↦ v ]
tag_of v = v

kind_of : Value → Option ProposalKind
kind_of (str s) =
    if lowers_to s (b'l' ∷ b'o' ∷ b'a' ∷ b'n' ∷ [])
    then some loan
    else if lowers_to s (b't' ∷ b'r' ∷ b'e' ∷ b'a' ∷ b's' ∷ b'u' ∷ b'r' ∷ b'y' ∷ [])
    then some treasury
    else none
kind_of _ = none

unfoldable pub normalize_proposal_kind : Value → Option ProposalKind
unfolding tag_of kind_of
normalize_proposal_kind v = kind_of (tag_of v)

kind_or_throw : DecodedEvent → String → Option ProposalKind → Fold ProposalKind
kind_or_throw ev name none = invalid ev name
kind_or_throw ev name (some k) = ok k

unfoldable pub require_proposal_kind : DecodedEvent → String → Fold ProposalKind
unfolding normalize_proposal_kind kind_or_throw
require_proposal_kind ev name = kind_or_throw ev name (normalize_proposal_kind (get_field ev name))

weight_from : DecodedEvent → Value → Fold String
unfolding amount_of
weight_from ev null = ok "1"
weight_from ev v = amount_of ev "weight" v

-- a vote whose event carries no weight counts as 1
unfoldable pub weight_of : DecodedEvent → Fold String
unfolding weight_from
weight_of ev = weight_from ev (get_field ev "weight")

is_null : Value → Bool
is_null null = true
is_null _ = false

separator : Items → String
separator nil = ""
separator (cons _ _) = ","

mutual
  unfolding is_null separator

  -- `String(v)`
  pub text_of : Value → String
  text_of null = "null"
  text_of (bool b) = if b then "true" else "false"
  text_of (num n) = n.text
  text_of (str s) = s
  text_of (arr xs) = text_of_items xs
  text_of (obj fs) = "[object Object]"

  -- `join(',')` of an array, where null is the empty text
  text_of_items : Items → String
  text_of_items nil = ""
  text_of_items (cons v rest) =
      concat (if is_null v then "" else text_of v) (concat (separator rest) (text_of_items rest))

-- `str(v)`
unfoldable pub str_or_zero : Value → String
unfolding is_null
str_or_zero v = if is_null v then "0" else text_of v

-- `addr(v)`, and `String(v ?? '')`
unfoldable pub text_or_empty : Value → String
unfolding is_null
text_or_empty v = if is_null v then "" else text_of v
