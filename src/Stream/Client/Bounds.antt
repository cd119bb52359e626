-- ===== src/Stream/Client/Bounds.antt =====
-- api/stream.ts, StreamClient: the bounds of the queue and of the retry's delay, and the timer that
-- watches a paused connection.
use ourdao_backend.Common.{
  ℕ, String, Bool, true, false, Option, none, some, List, [], ◌∷◌, ◌≤◌, ◌≡◌, leb, not, ◌&&◌, ◌||◌,
  length, length-append, refl, inl, inr, ◌⊎◌, arith, any, if_elim,
}
use ourdao_backend.Stream.{
  StreamChannel, Payload, StreamMessage, Frame, WriteAnswer, channel_beq, max_queued_messages,
}
use ourdao_backend.Stream.Client.{
  StreamClient, new_client, close, enqueue, after_write, raise_ledger, schedule_heartbeat_retry,
  back_off_heartbeat, write_frame, send_frame, send_message, flush_frames, flush_queue, on_drain,
  heartbeat_tick, heartbeat_retry, receive_notification, send_resync, start, heartbeat_at,
  notification_of, resync_of, connected_at, has_missed,
}
use ourdao_backend.Stream.Client.Signals.{Signal, react, react_all}

-- At most 200 frames wait, a paused connection that is open has its stall timer armed, and a retry
-- waits between one second and sixteen.
pub record IsBounded (c : StreamClient) : Type 0 where
  pub small : length c.queue ≤ 200
  pub watched : c.paused ≡ true → (c.closed ≡ true) ⊎ (c.stall_timer ≡ true)
  pub patient : (1000 ≤ c.heartbeat_retry_delay_ms) × (c.heartbeat_retry_delay_ms ≤ 16000)

new_client-IsBounded : (ip : String) → IsBounded (new_client ip)
new_client-IsBounded ip = record {
  small = omega arith;
  watched = λ h. absurd (cc h);
  patient = (omega arith, omega arith);
}

close-IsBounded : (c : StreamClient) → IsBounded c → IsBounded (close c)
unfolding close
close-IsBounded c b =
    if_elim IsBounded c.released (λ h. b)
      (λ h. record { small = omega arith; watched = λ g. inl refl; patient = b.patient })

enqueue-IsBounded : (frame : Frame) (c : StreamClient) → IsBounded c → IsBounded (enqueue frame c)
unfolding enqueue
enqueue-IsBounded frame c b =
    if_elim IsBounded (leb max_queued_messages (length c.queue)) (λ h. close-IsBounded c b)
      (λ h. record {
        small = (let more = length-append c.queue (frame ∷ []) in ground arith);
        watched = b.watched;
        patient = b.patient;
      })

after_write-IsBounded :
    (answer : WriteAnswer) (c : StreamClient) → IsBounded c → IsBounded (after_write answer c)
unfolding after_write
after_write-IsBounded WriteAnswer.accepted c b = record {
  small = b.small;
  watched = λ h. absurd (cc h);
  patient = b.patient;
}
after_write-IsBounded WriteAnswer.full c b = record {
  small = b.small;
  watched = λ h. inr refl;
  patient = b.patient;
}
after_write-IsBounded (WriteAnswer.thrown destroyed) c b = record {
  small = b.small;
  watched = λ h. elim (b.watched h) [ inl shut ↦ inl (rw shut refl) | inr armed ↦ inr armed ];
  patient = b.patient;
}

raise_ledger-IsBounded :
    (o : Option ℕ) (c : StreamClient) → IsBounded c → IsBounded (raise_ledger o c)
unfolding raise_ledger
raise_ledger-IsBounded none c b = b
raise_ledger-IsBounded (some ledger) c b = record {
  small = b.small;
  watched = b.watched;
  patient = b.patient;
}

schedule-IsBounded : (c : StreamClient) → IsBounded c → IsBounded (schedule_heartbeat_retry c)
unfolding schedule_heartbeat_retry
schedule-IsBounded c b =
    if_elim IsBounded c.heartbeat_retry_timer (λ h. b)
      (λ h. record { small = b.small; watched = b.watched; patient = (omega arith, omega arith) })

back_off-IsBounded : (c : StreamClient) → IsBounded c → IsBounded (back_off_heartbeat c)
unfolding back_off_heartbeat
back_off-IsBounded c b =
    let (low, high) = b.patient in
    if_elim IsBounded c.paused
      (λ h. record { small = b.small; watched = b.watched; patient = (omega arith, omega arith) })
      (λ h. b)

module _ {W : Type 0} (write : Frame → W → WriteAnswer × W) where
  abbrev Bounded : StreamClient × W → Type 0
  Bounded s = IsBounded s.0

  write_frame-IsBounded :
      (frame : Frame) (s : StreamClient × W) → Bounded s → Bounded (write_frame write frame s)
  unfolding write_frame
  write_frame-IsBounded frame (c, w) b = after_write-IsBounded (write frame w).0 c b

  send_frame-IsBounded :
      (force : Bool) (frame : Frame) (s : StreamClient × W)
      → Bounded s
      → Bounded (send_frame write force frame s)
  unfolding send_frame
  send_frame-IsBounded force frame (c, w) b =
      if_elim Bounded (c.paused && not force) (λ h. enqueue-IsBounded frame c b)
        (λ h. write_frame-IsBounded frame (c, w) b)

  send_message-IsBounded :
      (force : Bool) (msg : StreamMessage) (s : StreamClient × W)
      → Bounded s
      → Bounded (send_message write force msg s)
  unfolding send_message
  send_message-IsBounded force msg (c, w) b =
      if_elim Bounded c.closed (λ h. b)
        (λ h. send_frame-IsBounded force _ _ (raise_ledger-IsBounded _ c b))

  flush_frames-IsBounded :
      (frames : List Frame) (s : StreamClient × W)
      → length frames ≤ 200
      → Bounded s
      → Bounded (flush_frames write frames s)
  unfolding flush_frames
  flush_frames-IsBounded [] s h b = b
  flush_frames-IsBounded (frame ∷ rest) (c, w) h b =
      if_elim Bounded (c.paused || c.closed) (λ g. b)
        (λ g. flush_frames-IsBounded rest _ (omega arith) (
          write_frame-IsBounded frame (record c { queue = rest }, w)
            (record { small = omega arith; watched = b.watched; patient = b.patient })))

  on_drain-IsBounded : (s : StreamClient × W) → Bounded s → Bounded (on_drain write s)
  unfolding on_drain flush_queue
  on_drain-IsBounded (c, w) b =
      flush_frames-IsBounded c.queue _ b.small
        (record { small = b.small; watched = λ h. absurd (cc h); patient = b.patient })

  heartbeat_tick-IsBounded :
      (now : ℕ) (s : StreamClient × W) → Bounded s → Bounded (heartbeat_tick write now s)
  unfolding heartbeat_tick
  heartbeat_tick-IsBounded now (c, w) b =
      if_elim Bounded c.closed (λ h. b)
        (λ h.
          if_elim Bounded c.paused (λ g. schedule-IsBounded c b)
            (λ g. send_message-IsBounded false (heartbeat_at now) (c, w) b))

  heartbeat_retry-IsBounded :
      (now : ℕ) (s : StreamClient × W) → Bounded s → Bounded (heartbeat_retry write now s)
  unfolding heartbeat_retry
  heartbeat_retry-IsBounded now (c, w) b =
      let fired : IsBounded (record c { heartbeat_retry_timer = false }) = record {
        small = b.small;
        watched = b.watched;
        patient = b.patient;
      } in
      if_elim Bounded c.closed (λ h. fired)
        (λ h. back_off-IsBounded _ (
          send_message-IsBounded true (heartbeat_at now)
            (record c { heartbeat_retry_timer = false }, w) fired))

  receive-IsBounded :
      (channel : StreamChannel) (payload : Payload) (now : ℕ) (s : StreamClient × W)
      → Bounded s
      → Bounded (receive_notification write channel payload now s)
  unfolding receive_notification
  receive-IsBounded channel payload now (c, w) b =
      if_elim Bounded c.closed (λ h. b)
        (λ h.
          if_elim Bounded (not (any (channel_beq channel) c.channels)) (λ g. b)
            (λ g. send_message-IsBounded false (notification_of channel payload now) (c, w) b))

  react-IsBounded :
      (signal : Signal) (s : StreamClient × W) → Bounded s → Bounded (react write signal s)
  unfolding react
  react-IsBounded (Signal.receives channel payload now) s b =
      receive-IsBounded channel payload now s b
  react-IsBounded Signal.drains s b = on_drain-IsBounded s b
  react-IsBounded (Signal.ticks now) (c, w) b =
      if_elim Bounded c.heartbeat_timer (λ h. heartbeat_tick-IsBounded now (c, w) b) (λ h. b)
  react-IsBounded (Signal.retries now) (c, w) b =
      if_elim Bounded c.heartbeat_retry_timer (λ h. heartbeat_retry-IsBounded now (c, w) b) (λ h. b)
  react-IsBounded Signal.stalls (c, w) b =
      if_elim Bounded c.stall_timer (λ h. close-IsBounded c b) (λ h. b)
  react-IsBounded Signal.ends (c, w) b = close-IsBounded c b

  react_all-IsBounded :
      (signals : List Signal) (s : StreamClient × W)
      → Bounded s
      → Bounded (react_all write signals s)
  unfolding react_all
  react_all-IsBounded [] s b = b
  react_all-IsBounded (signal ∷ rest) s b =
      react_all-IsBounded rest (react write signal s) (react-IsBounded signal s b)

  send_resync-IsBounded :
      (last_event_id : Option (Option ℕ)) (known : Option ℕ) (now : ℕ) (s : StreamClient × W)
      → Bounded s
      → Bounded (send_resync write last_event_id known now s)
  unfolding send_resync
  send_resync-IsBounded (some seen) (some current) now s b =
      send_message-IsBounded false (resync_of (has_missed seen current) current now) s b
  send_resync-IsBounded (some seen) none now s b = b
  send_resync-IsBounded none known now s b = b

  start-IsBounded :
      (channels : List StreamChannel) (last_event_id : Option (Option ℕ)) (known : Option ℕ)
      (now : ℕ) (s : StreamClient × W)
      → Bounded s
      → Bounded (start write channels last_event_id known now s)
  unfolding start
  start-IsBounded channels last_event_id known now (c, w) b =
      let sent = send_message-IsBounded false (connected_at now) _ (
        send_resync-IsBounded last_event_id known now _
          (record { small = b.small; watched = b.watched; patient = b.patient })) in
      record { small = sent.small; watched = sent.watched; patient = sent.patient }

  -- However the socket answers, a connection that was started, whatever happens to it then, has at
  -- most 200 frames waiting; its stall timer is armed if it is paused and open; and its heartbeats
  -- are retried after one to sixteen seconds.
  pub connection-IsBounded :
      (ip : String) (channels : List StreamChannel) (last_event_id : Option (Option ℕ))
      (known : Option ℕ) (now : ℕ) (signals : List Signal) (w : W)
      → IsBounded
          (react_all write signals
            (start write channels last_event_id known now (new_client ip, w))).0
  connection-IsBounded ip channels last_event_id known now signals w =
      react_all-IsBounded signals _ (
        start-IsBounded channels last_event_id known now (new_client ip, w)
          (new_client-IsBounded ip))
