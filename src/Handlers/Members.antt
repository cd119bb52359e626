-- ===== src/Handlers/Members.antt =====
-- indexer/handlers.ts: the handlers of membership, staking and name events.
use Prim.Native.String.{◌++◌ as concat}
use ourdao_backend.Common.{ℕ, String, true, false, Option, none, some, ◌+◌, ok, ◌>>=◌, string_eq}
use ourdao_backend.Common.Int.{int_eq}
use ourdao_backend.Common.Text.{decimal}
use ourdao_backend.Common.Table.{lookup, put}
use ourdao_backend.Events.{DecodedEvent, get_field}
use ourdao_backend.Derived.{Member, Derived, success, info}
use ourdao_backend.Handlers.Require.{Fold, require_addr, require_amount, text_or_empty}
use ourdao_backend.Handlers.Statements.{numeric40, update_member, notify}

-- the row that `joined` leaves: contribution and membership start afresh, the rest stays
join_row : ℕ → ℕ → Option Member → Member
join_row ledger contribution none = record {
  joined_ledger = some ledger;
  contribution = contribution;
  exited = false;
  exit_share = none;
  exited_ledger = none;
  pending_claimed = 0;
  stake = 0;
  has_active_loan = false;
  name = none;
  defaults_count = 0;
}
join_row ledger contribution (some m) = record m {
  joined_ledger = some ledger;
  contribution = contribution;
  exited = false;
  exit_share = none;
  exited_ledger = none;
  has_active_loan = false;
}

unfoldable pub handle_joined : DecodedEvent → Derived → Fold Derived
unfolding join_row
handle_joined ev db = do
  member ← require_addr ev "member"
  fee ← require_amount ev "fee"
  contribution ← numeric40 (decimal fee)
  let row = join_row ev.ledger contribution (lookup member db.members)
  let db' = record db { members = put member row db.members }
  ok (notify ev member success "Welcome to OurDAO" "Your membership is active." db')

exit_row : ℕ → String → Member → Fold Member
exit_row ledger share m = do
  exit_share ← numeric40 (decimal share)
  ok (record m {
    exited = true;
    exit_share = some exit_share;
    exited_ledger = some ledger;
    stake = 0;
    has_active_loan = false;
  })

unfoldable pub handle_exited : DecodedEvent → Derived → Fold Derived
unfolding exit_row update_member
handle_exited ev db = do
  member ← require_addr ev "member"
  share ← require_amount ev "share"
  db' ← update_member member (exit_row ev.ledger share) db
  ok (
      notify ev member info "Membership ended"
        (concat "You withdrew your share of " (concat share ".")) db')

claim_row : String → Member → Fold Member
claim_row claimed m = do
  total ← numeric40 (m.pending_claimed + decimal claimed)
  ok (record m { pending_claimed = total })

unfoldable pub handle_claimed : DecodedEvent → Derived → Fold Derived
unfolding claim_row update_member
handle_claimed ev db = do
  member ← require_addr ev "member"
  claimed ← require_amount ev "pending"
  db' ← update_member member (claim_row claimed) db
  ok (
      notify ev member success "Yield claimed"
        (concat "You claimed " (concat claimed " in rewards.")) db')

stake_row : String → Member → Fold Member
stake_row new_stake m = do stake ← numeric40 (decimal new_stake); ok (record m { stake = stake })

-- `staked` and `unstaked`: an update only, so an unknown address makes no row
unfoldable pub handle_staked : DecodedEvent → Derived → Fold Derived
unfolding stake_row update_member
handle_staked ev db = do
  member ← require_addr ev "member"
  new_stake ← require_amount ev "new_stake"
  update_member member (stake_row new_stake) db

name_row : String → Member → Fold Member
name_row name m = ok (record m { name = some name })

unfoldable pub handle_name_reg : DecodedEvent → Derived → Fold Derived
unfolding name_row update_member
handle_name_reg ev db = do
  owner ← require_addr ev "owner"
  update_member owner (name_row (text_or_empty (get_field ev "name"))) db
