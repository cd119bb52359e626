-- ===== src/Stream/Client/Delivery.antt =====
-- api/stream.ts, StreamClient: every notification reaches the socket, or waits for it, in order.
use mathlib.Core.List.{append_assoc, append-nil}
use ourdao_backend.Common.{
  ℕ, Bool, true, false, List, [], ◌∷◌, ◌++◌, ◌≡◌, not, refl, sym, ◌∙◌, ap, Bool-cases, inl, inr,
  ◌⊎◌, any, All, if_elim,
}
use ourdao_backend.Stream.{StreamChannel, Payload, ledger_of, Frame, WriteAnswer, channel_beq}
use ourdao_backend.Stream.Client.{
  StreamClient, message_ledger, send_message, flush_queue, on_drain, heartbeat_tick,
  receive_notification, heartbeat_at, notification_of, schedule_heartbeat_retry,
}
use ourdao_backend.Stream.Client.Signals.{Signal, react, react_all}
use ourdao_backend.Stream.Client.Order.{
  log_write, ThrowsDestroyed, newest, expected, expected_frame, is_notification, notifications,
  is_retry, IsLive, IsDrained, Carries, close-closed, close_stays, flush_frames-Carries,
  flush_frames-closed, send_message-Carries,
}

notifications-append :
    (xs ys : List Frame) → notifications (xs ++ ys) ≡ notifications xs ++ notifications ys
notifications-append [] ys = refl
notifications-append (frame ∷ xs) ys = elim (Bool-cases (is_notification frame)) [
  | inl g ↦ rw (g, notifications-append xs ys) refl
  | inr g ↦ rw (g, notifications-append xs ys) refl
]

schedule-keeps :
    (channels : List StreamChannel) (last : ℕ) (c : StreamClient)
    → IsLive channels last c
    → IsDrained c
    → let d = schedule_heartbeat_retry c in
      IsLive channels last d × IsDrained d × (d.queue ≡ c.queue)
unfolding schedule_heartbeat_retry
schedule-keeps channels last c live drained =
    if_elim (λ (d : StreamClient). IsLive channels last d × IsDrained d × (d.queue ≡ c.queue))
      c.heartbeat_retry_timer (λ h. (live, drained, refl))
      (λ h. (
        record {
          open_ = live.open_;
          held = live.held;
          subscribed = live.subscribed;
          told = live.told;
        },
        drained,
        refl,
      ))

not-true : (b : Bool) → not b ≡ true → b ≡ false
not-true true h = sym h
not-true false h = refl

not-false : (b : Bool) → not b ≡ false → b ≡ true
not-false true h = refl
not-false false h = sym h

module _ (answer : List Frame → Frame → WriteAnswer) (survives : ThrowsDestroyed answer) where
  abbrev socket : Frame → List Frame → WriteAnswer × List Frame
  socket = log_write answer

  -- After a signal, all that was to be sent is written or waits, and it is what it was with the
  -- notification of this signal.
  abbrev Moves : List StreamChannel → ℕ → List Frame → Signal → StreamClient × List Frame → Type 0
  Moves channels last before signal s =
      (last' : ℕ) × (all : List Frame) × Carries answer survives channels last' all s
      × ((rest : List Signal)
          → notifications all ++ expected channels last' rest
            ≡ notifications before ++ expected channels last (signal ∷ rest))

  sent-Moves :
      (channels : List StreamChannel) (last : ℕ) (channel : StreamChannel) (payload : Payload)
      (now : ℕ) (c : StreamClient) (log : List Frame)
      → IsLive channels last c
      → IsDrained c
      → any (channel_beq channel) channels ≡ true
      → Moves channels last
          (log ++ c.queue)
          (Signal.receives channel payload now)
          (send_message socket false (notification_of channel payload now) (c, log))
  unfolding expected expected_frame message_ledger
  sent-Moves channels last channel payload now c log live drained on = (
    newest (ledger_of payload) last,
    (log ++ c.queue) ++ expected_frame channel payload now last ∷ [],
    send_message-Carries answer survives channels last (notification_of channel payload now) c log
        live drained,
    λ rest. rw on (
        ap (λ l. l ++ expected channels (newest (ledger_of payload) last) rest)
          (notifications-append (log ++ c.queue) (expected_frame channel payload now last ∷ []))
        ∙ append_assoc (notifications (log ++ c.queue)) _ _),
  )

  skipped-Moves :
      (channels : List StreamChannel) (last : ℕ) (channel : StreamChannel) (payload : Payload)
      (now : ℕ) (c : StreamClient) (log : List Frame)
      → IsLive channels last c
      → IsDrained c
      → any (channel_beq channel) channels ≡ false
      → Moves channels last (log ++ c.queue) (Signal.receives channel payload now) (c, log)
  unfolding expected
  skipped-Moves channels last channel payload now c log live drained off =
      (last, log ++ c.queue, inr (live, drained, refl), λ rest. rw off refl)

  receive-Moves :
      (channels : List StreamChannel) (last : ℕ) (channel : StreamChannel) (payload : Payload)
      (now : ℕ) (c : StreamClient) (log : List Frame)
      → IsLive channels last c
      → IsDrained c
      → Moves channels last
          (log ++ c.queue)
          (Signal.receives channel payload now)
          (receive_notification socket channel payload now (c, log))
  unfolding receive_notification
  receive-Moves channels last channel payload now c log live drained =
      let P = Moves channels last (log ++ c.queue) (Signal.receives channel payload now) in
      let same = ap (any (channel_beq channel)) live.subscribed in
      if_elim P c.closed (λ h. (let shut = live.open_ in absurd (cc (h, shut))))
        (λ h.
          if_elim P (not (any (channel_beq channel) c.channels))
            (λ off.
              skipped-Moves channels last channel payload now c log live drained
                (sym same ∙ not-true _ off))
            (λ on.
              sent-Moves channels last channel payload now c log live drained
                (sym same ∙ not-false _ on)))

  -- a signal that calls for no notification
  abbrev IsQuiet : List StreamChannel → ℕ → Signal → Type 0
  IsQuiet channels last signal =
      (rest : List Signal) → expected channels last (signal ∷ rest) ≡ expected channels last rest

  quiet-Moves :
      (channels : List StreamChannel) (last : ℕ) (all : List Frame) (signal : Signal)
      (s : StreamClient × List Frame)
      → IsQuiet channels last signal
      → Carries answer survives channels last all s
      → Moves channels last all signal s
  quiet-Moves channels last all signal s quiet carries =
      (last, all, carries, λ rest. ap (λ l. notifications all ++ l) (sym (quiet rest)))

  tick-Moves :
      (channels : List StreamChannel) (last : ℕ) (now : ℕ) (c : StreamClient) (log : List Frame)
      → IsLive channels last c
      → IsDrained c
      → Moves channels last (log ++ c.queue) (Signal.ticks now) (heartbeat_tick socket now (c, log))
  unfolding heartbeat_tick expected message_ledger newest
  tick-Moves channels last now c log live drained =
      let P = Moves channels last (log ++ c.queue) (Signal.ticks now) in
      if_elim P c.closed (λ h. (let shut = live.open_ in absurd (cc (h, shut))))
        (λ h.
          if_elim P c.paused
            (λ g.
              let (live', drained', same) = schedule-keeps channels last c live drained in
              quiet-Moves channels last (log ++ c.queue) (Signal.ticks now) _ (λ rest. refl)
                (inr (live', drained', ap (λ q. log ++ q) same)))
            (λ g. (
              last,
              (log ++ c.queue) ++ (record { id = last; message = heartbeat_at now }) ∷ [],
              send_message-Carries answer survives channels last (heartbeat_at now) c log live
                  drained,
              λ rest.
                  ap (λ l. l ++ expected channels last rest)
                    (notifications-append (log ++ c.queue)
                        (record { id = last; message = heartbeat_at now } ∷ [])
                      ∙ append-nil _),
            )))

  react-Moves :
      (channels : List StreamChannel) (last : ℕ) (signal : Signal) (c : StreamClient)
      (log : List Frame)
      → is_retry signal ≡ false
      → IsLive channels last c
      → IsDrained c
      → Moves channels last (log ++ c.queue) signal (react socket signal (c, log))
  unfolding react on_drain flush_queue expected
  react-Moves channels last (Signal.receives channel payload now) c log plain live drained =
      receive-Moves channels last channel payload now c log live drained
  react-Moves channels last Signal.drains c log plain live drained =
      quiet-Moves channels last (log ++ c.queue) Signal.drains _ (λ rest. refl)
        (flush_frames-Carries answer survives channels last c.queue
          (record c { paused = false; stall_timer = false }) log
          (record {
            open_ = live.open_;
            held = live.held;
            subscribed = live.subscribed;
            told = live.told;
          })
          refl)
  react-Moves channels last (Signal.ticks now) c log plain live drained =
      if_elim (Moves channels last (log ++ c.queue) (Signal.ticks now)) c.heartbeat_timer
        (λ h. tick-Moves channels last now c log live drained)
        (λ h.
          quiet-Moves channels last (log ++ c.queue) (Signal.ticks now) (c, log) (λ rest. refl)
            (inr (live, drained, refl)))
  react-Moves channels last (Signal.retries now) c log plain live drained = absurd (cc plain)
  react-Moves channels last Signal.stalls c log plain live drained =
      quiet-Moves channels last (log ++ c.queue) Signal.stalls _ (λ rest. refl)
        (if_elim (Carries answer survives channels last (log ++ c.queue)) c.stall_timer
          (λ h. inl (close-closed c live.held)) (λ h. inr (live, drained, refl)))
  react-Moves channels last Signal.ends c log plain live drained =
      quiet-Moves channels last (log ++ c.queue) Signal.ends _ (λ rest. refl)
        (inl (close-closed c live.held))

  abbrev Closed : StreamClient × List Frame → Type 0
  Closed s = s.0.closed ≡ true

  react-Closed :
      (signal : Signal) (s : StreamClient × List Frame)
      → Closed s
      → is_retry signal ≡ false
      → Closed (react socket signal s)
  unfolding react on_drain flush_queue heartbeat_tick receive_notification
  react-Closed (Signal.receives channel payload now) (c, log) h plain =
      if_elim Closed c.closed (λ g. h) (λ g. absurd (cc (h, g)))
  react-Closed Signal.drains (c, log) h plain =
      flush_frames-closed answer survives c.queue (record c { paused = false; stall_timer = false })
        log h
  react-Closed (Signal.ticks now) (c, log) h plain =
      if_elim Closed c.heartbeat_timer
        (λ g. if_elim Closed c.closed (λ k. h) (λ k. absurd (cc (h, k)))) (λ g. h)
  react-Closed (Signal.retries now) (c, log) h plain = absurd (cc plain)
  react-Closed Signal.stalls (c, log) h plain =
      if_elim Closed c.stall_timer (λ g. close_stays c h) (λ g. h)
  react-Closed Signal.ends (c, log) h plain = close_stays c h

  -- no retry of a heartbeat is among them
  abbrev pub IsPlain : List Signal → Type 0
  IsPlain signals = All (λ signal. is_retry signal ≡ false) signals

  react_all-Closed :
      (signals : List Signal) (s : StreamClient × List Frame)
      → IsPlain signals
      → Closed s
      → Closed (react_all socket signals s)
  unfolding react_all
  react_all-Closed [] s plain h = h
  react_all-Closed (signal ∷ rest) s plain h =
      react_all-Closed rest (react socket signal s) plain.1 (react-Closed signal s h plain.0)

  -- If no heartbeat is retried, and the socket's write throws only where the socket is destroyed, an open connection whose queue is
  -- empty unless it is paused ends closed, or has every notification of its channels written or
  -- waiting: after those that were before, each once, in the order in which they came, with the
  -- newest ledger so far as its id.
  pub react_all-delivers :
      (channels : List StreamChannel) (last : ℕ) (signals : List Signal) (c : StreamClient)
      (log : List Frame)
      → IsPlain signals
      → IsLive channels last c
      → IsDrained c
      → let s = react_all socket signals (c, log) in
        (s.0.closed ≡ true)
        ⊎ (notifications (s.1 ++ s.0.queue)
            ≡ notifications (log ++ c.queue) ++ expected channels last signals)
  unfolding react_all
  react_all-delivers channels last [] c log plain live drained =
      inr (unfold expected in sym (append-nil _))
  react_all-delivers channels last (signal ∷ rest) c log plain live drained =
      let (last', all, carries, adds) =
        react-Moves channels last signal c log plain.0 live drained in
      elim carries [
        | inl shut ↦ inl (react_all-Closed rest (react socket signal (c, log)) plain.1 shut)
        | inr (live', drained', held) ↦
            elim (react_all-delivers channels last' rest (react socket signal (c, log)).0
              (react socket signal (c, log)).1 plain.1 live' drained') [
                | inl shut ↦ inl shut
                | inr same ↦ inr (
                    same
                    ∙ ap (λ l. notifications l ++ expected channels last' rest) held
                    ∙ adds rest)
              ]
      ]
