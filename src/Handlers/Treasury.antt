-- ===== src/Handlers/Treasury.antt =====
-- indexer/handlers.ts: the handlers of treasury proposal, ballot and document events.
use Prim.Native.String.{◌++◌ as concat}
use ourdao_backend.Common.{
  ℕ, String, Bool, true, false, Option, none, some, ◌+◌, if◌then◌else◌, ok, ◌>>=◌, string_eq,
}
use ourdao_backend.Common.Int.{ℤ, int_eq}
use ourdao_backend.Common.Text.{decimal, show_int}
use ourdao_backend.Common.Table.{lookup, put}
use ourdao_backend.Events.{Value, DecodedEvent, get_field, bool}
use ourdao_backend.Derived.{
  TreasuryProposal, TreasuryStatus, NotificationType, Document, Derived, success, info, warning,
}
use ourdao_backend.Handlers.Require.{
  Fold, require_addr, require_id, require_amount, require_bool, require_proposal_kind, weight_of,
  str_or_zero, text_or_empty,
}
use ourdao_backend.Handlers.Statements.{numeric40, int4, int4_count, update_row, notify}

unfoldable pub is_pending : TreasuryStatus → Bool
is_pending TreasuryStatus.pending = true
is_pending _ = false

-- `f.private === true`
is_true : Value → Bool
is_true (bool b) = b
is_true _ = false

propose_row : ℕ → String → Bool → ℕ → Option TreasuryProposal → TreasuryProposal
propose_row amount destination private ledger none = record {
  amount = amount;
  destination = destination;
  private = private;
  status = TreasuryStatus.pending;
  votes_for = 0;
  votes_against = 0;
  voter_count = 0;
  created_ledger = ledger;
  executed_ledger = none;
}
propose_row amount destination private ledger (some p) = record p {
  amount = amount;
  destination = destination;
  private = private;
}

unfoldable pub handle_tre_prop : DecodedEvent → Derived → Fold Derived
unfolding propose_row is_true
handle_tre_prop ev db = do
  given ← require_id ev "id"
  amount ← require_amount ev "amount"
  destination ← require_addr ev "destination"
  id ← int4 given
  amount' ← numeric40 (decimal amount)
  let private = is_true (get_field ev "private")
  let row = propose_row amount' destination private ev.ledger (lookup id db.treasury_proposals)
  ok (record db { treasury_proposals = put id row db.treasury_proposals })

count_vote : Bool → ℕ → TreasuryProposal → Fold TreasuryProposal
count_vote true weight p = do
  votes ← numeric40 (p.votes_for + weight)
  voters ← int4_count (p.voter_count + 1)
  ok (record p { votes_for = votes; voter_count = voters })
count_vote false weight p = do
  votes ← numeric40 (p.votes_against + weight)
  voters ← int4_count (p.voter_count + 1)
  ok (record p { votes_against = votes; voter_count = voters })

-- `tre_vote` reads the proposal's id from the field `id`, `revealed` from `proposal_id`
ballot : String → DecodedEvent → Derived → Fold Derived
unfolding count_vote update_row
ballot id_field ev db = do
  given ← require_id ev id_field
  support ← require_bool ev "support"
  weight ← weight_of ev
  id ← int4 given
  rows ← update_row id (count_vote support (decimal weight)) db.treasury_proposals
  ok (record db { treasury_proposals = rows })

unfoldable pub handle_tre_vote : DecodedEvent → Derived → Fold Derived
unfolding ballot
handle_tre_vote ev db = ballot "id" ev db

unfoldable pub handle_revealed : DecodedEvent → Derived → Fold Derived
unfolding ballot
handle_revealed ev db = ballot "proposal_id" ev db

-- `UPDATE treasury_proposals SET status = … WHERE id = $1 AND status = 'pending' RETURNING destination`
unfoldable pub leave_pending : ℤ → TreasuryStatus → Derived → Derived × Option String
unfolding is_pending
leave_pending id status db = elim (lookup id db.treasury_proposals) [
  | none ↦ (db, none)
  | some p ↦
      if is_pending p.status
      then (
        record db {
          treasury_proposals = put id (record p { status = status }) db.treasury_proposals;
        },
        some p.destination,
      )
      else (db, none)
]

unfoldable pub notify_destination :
    DecodedEvent → NotificationType → String → String → Derived × Option String → Derived
notify_destination ev kind title message (db, none) = db
notify_destination ev kind title message (db, some to) = notify ev to kind title message db

unfoldable pub handle_tre_wait : DecodedEvent → Derived → Fold Derived
unfolding leave_pending notify_destination
handle_tre_wait ev db = do
  given ← require_id ev "id"
  id ← int4 given
  ok (
      notify_destination ev info "Treasury withdrawal approved, awaiting funds"
        (concat "Proposal #" (
          concat (show_int id)
            " reached quorum but the treasury can't cover it yet — it will execute once funds are available."))
        (leave_pending id TreasuryStatus.approved_pending_disbursement db))

unfoldable pub handle_tre_rej : DecodedEvent → Derived → Fold Derived
unfolding leave_pending notify_destination
handle_tre_rej ev db = do
  given ← require_id ev "id"
  id ← int4 given
  ok (
      notify_destination ev warning "Treasury proposal rejected"
        (concat "Proposal #"
          (concat (show_int id) " could no longer reach quorum and was rejected."))
        (leave_pending id TreasuryStatus.rejected db))

execute_row : ℕ → TreasuryProposal → Fold TreasuryProposal
execute_row ledger p =
    ok (record p { status = TreasuryStatus.executed; executed_ledger = some ledger })

unfoldable pub handle_tre_exec : DecodedEvent → Derived → Fold Derived
unfolding execute_row update_row
handle_tre_exec ev db = do
  given ← require_id ev "id"
  destination ← require_addr ev "destination"
  id ← int4 given
  rows ← update_row id (execute_row ev.ledger) db.treasury_proposals
  ok (
      notify ev destination success "Treasury withdrawal executed"
        (concat (str_or_zero (get_field ev "amount")) " was sent to your address.")
        (record db { treasury_proposals = rows }))

unfoldable pub handle_committed : DecodedEvent → Derived → Fold Derived
handle_committed ev db = ok (
    notify ev (text_or_empty (get_field ev "voter")) info "Private vote committed"
      (concat "Your commitment for proposal #"
        (concat (str_or_zero (get_field ev "proposal_id")) " was recorded."))
      db)

-- `INSERT INTO documents … ON CONFLICT (event_id) DO NOTHING`
unfoldable pub insert_document : String → Document → Option Document → Derived → Derived
insert_document event_id row none db = record db { documents = put event_id row db.documents }
insert_document event_id row (some _) db = db

unfoldable pub handle_doc_attn : DecodedEvent → Derived → Fold Derived
unfolding insert_document
handle_doc_attn ev db = do
  given ← require_id ev "proposal_id"
  caller ← require_addr ev "caller"
  kind ← require_proposal_kind ev "kind"
  proposal_id ← int4 given
  let row : Document = record {
    proposal_id = proposal_id;
    kind = kind;
    caller = caller;
    ledger = ev.ledger;
    tx_hash = ev.tx_hash;
  }
  ok (insert_document ev.id row (lookup ev.id db.documents) db)
