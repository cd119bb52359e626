-- ===== src/Events.antt =====
-- stellar/events.ts: the catalog of contract events, and decoded values. A value is what
-- `toJsonSafe` leaves: bigints are texts. `decodeEvent` itself is the SDK's `scValToNative` with
-- this view on top of it.
use ourdao_backend.Common.{ℕ, String, Bool, Option, List, [], ◌∷◌, if◌then◌else◌, ◌==◌, string_eq}
use ourdao_backend.Common.Int.{ℤ}

-- A JavaScript number: its `String()` text, and its value where `Number.isInteger` holds.
pub record JsNumber : Type 0 where
  pub text : String
  pub integer : Option ℤ

mutual
  -- `unknown`, as decoding produces it; `null` also stands for `undefined`
  pub data Value : Type 0 where
    null : Value
    bool : Bool → Value
    num : JsNumber → Value
    str : String → Value
    obj : Fields → Value
    arr : Items → Value

  pub data Fields : Type 0 where
    end : Fields
    field : String → Value → Fields → Fields

  pub data Items : Type 0 where
    nil : Items
    cons : Value → Items → Items

-- The first topic. `other` is any symbol that the catalog does not know.
pub data Symbol : Type 0 where
  joined exited claimed loan_req loan_edit loan_vote loan_wait loan_rej loan_appr loan_rpy : Symbol
  loan_dflt loan_exp interest tre_prop tre_vote tre_wait tre_rej tre_exec staked unstaked : Symbol
  name_reg committed revealed doc_attn : Symbol
  init admin_add admin_rem threshold policy paused unpaused : Symbol
  other : String → Symbol

-- `EVENT_FIELDS`, and `{}` for an unknown symbol
unfoldable pub event_fields : Symbol → List String
event_fields joined = "member" ∷ "fee" ∷ []
event_fields exited = "member" ∷ "share" ∷ []
event_fields claimed = "member" ∷ "pending" ∷ []
event_fields loan_req = "id" ∷ "borrower" ∷ "amount" ∷ "total_repayment" ∷ []
event_fields loan_edit = "proposal_id" ∷ "borrower" ∷ "new_amount" ∷ "total_repayment" ∷ []
event_fields loan_vote = "proposal_id" ∷ "voter" ∷ "support" ∷ "weight" ∷ []
event_fields loan_wait = "id" ∷ "amount" ∷ []
event_fields loan_rej = "id" ∷ "for_votes" ∷ "against_votes" ∷ []
event_fields loan_appr = "id" ∷ "borrower" ∷ "amount" ∷ "due_time" ∷ []
event_fields loan_rpy = "loan_id" ∷ "borrower" ∷ "outstanding" ∷ []
event_fields loan_dflt = "loan_id" ∷ "borrower" ∷ "penalty" ∷ []
event_fields loan_exp = "proposal_id" ∷ "borrower" ∷ []
event_fields interest = "interest" ∷ "active" ∷ []
event_fields tre_prop = "id" ∷ "amount" ∷ "destination" ∷ "private" ∷ []
event_fields tre_vote = "id" ∷ "voter" ∷ "support" ∷ "weight" ∷ []
event_fields tre_wait = "id" ∷ "amount" ∷ []
event_fields tre_rej = "id" ∷ "for_votes" ∷ "against_votes" ∷ []
event_fields tre_exec = "id" ∷ "amount" ∷ "destination" ∷ []
event_fields staked = "member" ∷ "amount" ∷ "new_stake" ∷ []
event_fields unstaked = "member" ∷ "amount" ∷ "new_stake" ∷ []
event_fields name_reg = "name" ∷ "owner" ∷ []
event_fields committed = "proposal_id" ∷ "voter" ∷ []
event_fields revealed = "proposal_id" ∷ "voter" ∷ "support" ∷ "weight" ∷ []
event_fields doc_attn = "kind" ∷ "proposal_id" ∷ "caller" ∷ []
event_fields init = "admins" ∷ "consensus_threshold" ∷ "membership_fee" ∷ "token" ∷ []
event_fields admin_add = "admin" ∷ []
event_fields admin_rem = "admin" ∷ []
event_fields threshold = "threshold" ∷ []
event_fields policy = []
event_fields paused = []
event_fields unpaused = []
event_fields (other s) = []

-- `names.forEach((name, i) => (fields[name] = data[i] ?? null))`
pair_names : List String → List Value → List (String × Value)
pair_names [] vs = []
pair_names (n ∷ ns) [] = (n, null) ∷ pair_names ns []
pair_names (n ∷ ns) (v ∷ vs) = (n, v) ∷ pair_names ns vs

unfoldable pub named_fields : Symbol → List Value → List (String × Value)
unfolding event_fields pair_names
named_fields symbol args = pair_names (event_fields symbol) args

-- `closedAt` is the instant in unix seconds.
pub record DecodedEvent : Type 0 where
  pub id : String
  pub ledger : ℕ
  pub closed_at : ℕ
  pub contract_id : String
  pub tx_hash : Option String
  pub symbol : Symbol
  pub args : List Value
  pub fields : List (String × Value)
  pub decode_error : Option String

get_from : String → List (String × Value) → Value
get_from name [] = null
get_from name ((n, v) ∷ fs) = if n == name then v else get_from name fs

-- `ev.fields[name]`
unfoldable pub get_field : DecodedEvent → String → Value
unfolding get_from
get_field ev name = get_from name ev.fields
