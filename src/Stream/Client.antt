-- ===== src/Stream/Client.antt =====
-- api/stream.ts, StreamClient: one connection, its queue and its timers. The socket is a parameter,
-- with a state of its own; what its write answers is what backpressure is. A timer is whether it is
-- armed. Metrics and the response's headers are left out.
pub mod Signals
pub mod Bounds
pub mod Order
pub mod Delivery
pub mod Overtaking
use ourdao_backend.Common.{
  ℕ, String, Bool, true, false, Option, none, some, List, [], ◌∷◌, ◌++◌, ◌*◌, min, leb, ltb, not,
  ◌&&◌, ◌||◌, any, length, if◌then◌else◌,
}
use ourdao_backend.Stream.{
  StreamChannel, channel_beq, Payload, ledger_of, MessageType, StreamMessage, Frame, WriteAnswer,
  max_queued_messages, heartbeat_retry_initial_ms, heartbeat_retry_max_ms,
}

pub record StreamClient : Type 0 where
  pub ip : String
  pub channels : List StreamChannel
  pub closed : Bool
  -- whether `releasePromise` is set: `close` has run
  pub released : Bool
  pub paused : Bool
  pub queue : List Frame
  pub heartbeat_timer : Bool
  pub stall_timer : Bool
  pub heartbeat_retry_timer : Bool
  pub heartbeat_retry_delay_ms : ℕ
  pub last_sent_ledger : ℕ

abbrev pub new_client : String → StreamClient
new_client ip = record {
  ip = ip;
  channels = [];
  closed = false;
  released = false;
  paused = false;
  queue = [];
  heartbeat_timer = false;
  stall_timer = false;
  heartbeat_retry_timer = false;
  heartbeat_retry_delay_ms = heartbeat_retry_initial_ms;
  last_sent_ledger = 0;
}

-- `close` with `doClose`, but for the process-wide trackers
unfoldable pub close : StreamClient → StreamClient
close c = if c.released then c else record c {
  closed = true;
  released = true;
  queue = [];
  channels = [];
  stall_timer = false;
  heartbeat_retry_timer = false;
  heartbeat_timer = false;
}

unfoldable pub enqueue : Frame → StreamClient → StreamClient
unfolding close
enqueue frame c =
    if leb max_queued_messages (length c.queue)
    then close c
    else record c { queue = c.queue ++ frame ∷ [] }

unfoldable pub after_write : WriteAnswer → StreamClient → StreamClient
after_write WriteAnswer.accepted c = record c { paused = false; stall_timer = false }
after_write WriteAnswer.full c = record c { paused = true; stall_timer = true }
after_write (WriteAnswer.thrown destroyed) c = record c { closed = c.closed || destroyed }

unfoldable pub raise_ledger : Option ℕ → StreamClient → StreamClient
raise_ledger none c = c
raise_ledger (some ledger) c = record c {
  last_sent_ledger = if ltb c.last_sent_ledger ledger then ledger else c.last_sent_ledger;
}

-- `msg.payload?.ledger`
unfoldable pub message_ledger : Option Payload → Option ℕ
unfolding ledger_of
message_ledger none = none
message_ledger (some payload) = ledger_of payload

abbrev pub heartbeat_at : ℕ → StreamMessage
heartbeat_at now = record {
  type = MessageType.heartbeat;
  channel = none;
  payload = none;
  timestamp = now;
}

abbrev pub notification_of : StreamChannel → Payload → ℕ → StreamMessage
notification_of channel payload now = record {
  type = MessageType.notification;
  channel = some channel;
  payload = some payload;
  timestamp = now;
}

abbrev pub resync_of : Bool → ℕ → ℕ → StreamMessage
resync_of missed current_ledger now = record {
  type = MessageType.resync;
  channel = none;
  payload = some (Payload.missed_since missed current_ledger);
  timestamp = now;
}

abbrev pub connected_at : ℕ → StreamMessage
connected_at now = record {
  type = MessageType.notification;
  channel = none;
  payload = some Payload.connected_to_stream;
  timestamp = now;
}

unfoldable pub schedule_heartbeat_retry : StreamClient → StreamClient
schedule_heartbeat_retry c = if c.heartbeat_retry_timer then c else record c {
  heartbeat_retry_delay_ms = heartbeat_retry_initial_ms;
  heartbeat_retry_timer = true;
}

unfoldable pub back_off_heartbeat : StreamClient → StreamClient
back_off_heartbeat c =
    if c.paused
    then record c {
      heartbeat_retry_delay_ms = min (c.heartbeat_retry_delay_ms * 2) heartbeat_retry_max_ms;
      heartbeat_retry_timer = true;
    }
    else c

-- a `Set` of channels, in the order of insertion
unfoldable pub add_channels : List StreamChannel → List StreamChannel → List StreamChannel
add_channels [] set = set
add_channels (channel ∷ rest) set =
    add_channels rest (if any (channel_beq channel) set then set else set ++ channel ∷ [])

-- `seen < currentLedger`, or `lastEventId` is no number; none is what is not a natural number
unfoldable pub has_missed : Option ℕ → ℕ → Bool
has_missed none current_ledger = true
has_missed (some seen_ledger) current_ledger = ltb seen_ledger current_ledger

unfoldable pub ledger_or_zero : Option ℕ → ℕ
ledger_or_zero none = 0
ledger_or_zero (some ledger) = ledger

module _ {W : Type 0} (write : Frame → W → WriteAnswer × W) where
  unfoldable pub write_frame : Frame → StreamClient × W → StreamClient × W
  unfolding after_write
  write_frame frame (c, w) = (after_write (write frame w).0 c, (write frame w).1)

  unfoldable pub send_frame : Bool → Frame → StreamClient × W → StreamClient × W
  unfolding enqueue write_frame
  send_frame force frame (c, w) =
      if c.paused && not force then (enqueue frame c, w) else write_frame frame (c, w)

  unfoldable pub send_message : Bool → StreamMessage → StreamClient × W → StreamClient × W
  unfolding send_frame raise_ledger message_ledger
  send_message force msg (c, w) =
      if c.closed
      then (c, w)
      else let c' = raise_ledger (message_ledger msg.payload) c in
        send_frame force (record { id = c'.last_sent_ledger; message = msg }) (c', w)

  -- the loop of `flushQueue`, over the queue as it was when it began
  unfoldable pub flush_frames : List Frame → StreamClient × W → StreamClient × W
  unfolding write_frame
  flush_frames [] s = s
  flush_frames (frame ∷ rest) (c, w) =
      if c.paused || c.closed
      then (c, w)
      else flush_frames rest (write_frame frame (record c { queue = rest }, w))

  unfoldable pub flush_queue : StreamClient × W → StreamClient × W
  unfolding flush_frames
  flush_queue (c, w) = flush_frames c.queue (c, w)

  -- the socket's 'drain' event
  unfoldable pub on_drain : StreamClient × W → StreamClient × W
  unfolding flush_queue
  on_drain (c, w) = flush_queue (record c { paused = false; stall_timer = false }, w)

  -- the timer of 30 seconds
  unfoldable pub heartbeat_tick : ℕ → StreamClient × W → StreamClient × W
  unfolding schedule_heartbeat_retry send_message
  heartbeat_tick now (c, w) =
      if c.closed
      then (c, w)
      else if c.paused
      then (schedule_heartbeat_retry c, w)
      else send_message false (heartbeat_at now) (c, w)

  -- the retry's timer, when it fires
  unfoldable pub heartbeat_retry : ℕ → StreamClient × W → StreamClient × W
  unfolding back_off_heartbeat send_message
  heartbeat_retry now (c, w) =
      if c.closed
      then (record c { heartbeat_retry_timer = false }, w)
      else let (c', w') =
          send_message true (heartbeat_at now) (record c { heartbeat_retry_timer = false }, w) in
        (back_off_heartbeat c', w')

  unfoldable pub receive_notification :
      StreamChannel → Payload → ℕ → StreamClient × W → StreamClient × W
  unfolding send_message
  receive_notification channel payload now (c, w) =
      if c.closed
      then (c, w)
      else if not (any (channel_beq channel) c.channels)
      then (c, w)
      else send_message false (notification_of channel payload now) (c, w)

  unfoldable pub send_resync :
      Option (Option ℕ) → Option ℕ → ℕ → StreamClient × W → StreamClient × W
  unfolding send_message has_missed
  send_resync (some seen) (some current_ledger) now s =
      send_message false (resync_of (has_missed seen current_ledger) current_ledger now) s
  send_resync _ _ now s = s

  -- `last_event_id` is none without the header
  unfoldable pub start :
      List StreamChannel → Option (Option ℕ) → Option ℕ → ℕ → StreamClient × W → StreamClient × W
  unfolding send_resync send_message add_channels ledger_or_zero
  start channels last_event_id known_ledger now (c, w) =
      let subscribed = record c {
        channels = add_channels channels c.channels;
        last_sent_ledger = ledger_or_zero known_ledger;
      } in
      let (c', w') =
        send_message false (connected_at now)
          (send_resync last_event_id known_ledger now (subscribed, w)) in
      (record c' { heartbeat_timer = true }, w')
