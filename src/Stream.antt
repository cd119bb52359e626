-- ===== src/Stream.antt =====
-- api/stream.ts: the messages of the event stream. The text of a frame is left out: it is made of
-- the event's type, the id and the message. Ledger numbers are natural numbers.
pub mod Client
pub mod Hub
use ourdao_backend.Common.{
  ℕ, String, Bool, true, false, Option, none, some, ◌&&◌, inl, inr, ◌≡◌, ◌↔◌,
}
use ourdao_backend.Common.{Eq}

pub data StreamChannel : Type 0 where
  members_changed loan_proposals_changed loans_changed treasury_proposals_changed interest_changed :
      StreamChannel

abbrev pub channel_beq : StreamChannel → StreamChannel → Bool
channel_beq StreamChannel.members_changed StreamChannel.members_changed = true
channel_beq StreamChannel.loan_proposals_changed StreamChannel.loan_proposals_changed = true
channel_beq StreamChannel.loans_changed StreamChannel.loans_changed = true
channel_beq StreamChannel.treasury_proposals_changed StreamChannel.treasury_proposals_changed = true
channel_beq StreamChannel.interest_changed StreamChannel.interest_changed = true
channel_beq _ _ = false

-- A payload: an object that was sent by NOTIFY, with what is read of it, or one of this code's own.
pub data Payload : Type 0 where
  notified : (ledger reorg_ledger : Option ℕ) → (rest : String) → Payload
  missed_since : Bool → ℕ → Payload
  connected_to_stream database_connection_lost : Payload

-- `payload.ledger`, if it is a number
unfoldable pub ledger_of : Payload → Option ℕ
ledger_of (Payload.notified ledger reorg_ledger rest) = ledger
ledger_of _ = none

unfoldable pub reorg_ledger_of : Payload → Option ℕ
reorg_ledger_of (Payload.notified ledger reorg_ledger rest) = reorg_ledger
reorg_ledger_of _ = none

pub data MessageType : Type 0 where
  heartbeat notification error resync : MessageType

pub record StreamMessage : Type 0 where
  pub type : MessageType
  pub channel : Option StreamChannel
  pub payload : Option Payload
  pub timestamp : ℕ

pub record Frame : Type 0 where
  pub id : ℕ
  pub message : StreamMessage

-- What `reply.raw.write(frame)` does: it returns true or false, or throws.
pub data WriteAnswer : Type 0 where
  accepted full : WriteAnswer
  thrown : (destroyed : Bool) → WriteAnswer

abbrev pub max_queued_messages : ℕ
max_queued_messages = 200

abbrev pub heartbeat_retry_initial_ms : ℕ
heartbeat_retry_initial_ms = 1000

abbrev pub heartbeat_retry_max_ms : ℕ
heartbeat_retry_max_ms = 16000
