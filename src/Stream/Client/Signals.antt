-- ===== src/Stream/Client/Signals.antt =====
-- api/stream.ts, StreamClient: what happens to a connection, one thing after another.
use ourdao_backend.Common.{ℕ, List, [], ◌∷◌, if◌then◌else◌}
use ourdao_backend.Stream.{StreamChannel, Payload, Frame, WriteAnswer}
use ourdao_backend.Stream.Client.{
  StreamClient, close, on_drain, heartbeat_tick, heartbeat_retry, receive_notification,
}

-- A notification, the socket's 'drain', a timer, or the end of the socket. A timer fires if it is
-- armed.
pub data Signal : Type 0 where
  receives : StreamChannel → Payload → ℕ → Signal
  drains : Signal
  ticks : ℕ → Signal
  retries : ℕ → Signal
  stalls : Signal
  ends : Signal

module _ {W : Type 0} (write : Frame → W → WriteAnswer × W) where
  unfoldable pub react : Signal → StreamClient × W → StreamClient × W
  unfolding close on_drain heartbeat_tick heartbeat_retry receive_notification
  react (Signal.receives channel payload now) s = receive_notification write channel payload now s
  react Signal.drains s = on_drain write s
  react (Signal.ticks now) (c, w) =
      if c.heartbeat_timer then heartbeat_tick write now (c, w) else (c, w)
  react (Signal.retries now) (c, w) =
      if c.heartbeat_retry_timer then heartbeat_retry write now (c, w) else (c, w)
  react Signal.stalls (c, w) = if c.stall_timer then (close c, w) else (c, w)
  react Signal.ends (c, w) = (close c, w)

  unfoldable pub react_all : List Signal → StreamClient × W → StreamClient × W
  react_all [] s = s
  react_all (signal ∷ rest) s = react_all rest (react signal s)
