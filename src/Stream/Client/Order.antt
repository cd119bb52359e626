-- ===== src/Stream/Client/Order.antt =====
-- api/stream.ts, StreamClient: what is sent, and in which order, while the socket pushes back.
use mathlib.Core.List.{append_assoc, append-nil}
use ourdao_backend.Common.{
  ℕ, Bool, true, false, Option, none, some, List, [], ◌∷◌, ◌++◌, ◌≡◌, ◌≢◌, max, leb, ◌&&◌, ◌||◌,
  length, if◌then◌else◌, refl, sym, ◌∙◌, ap, inl, inr, ◌⊎◌, arith, any, if_elim, subst,
}
use ourdao_backend.Stream.{
  StreamChannel, Payload, ledger_of, MessageType, StreamMessage, Frame, WriteAnswer, channel_beq,
  max_queued_messages,
}
use ourdao_backend.Stream.Client.{
  StreamClient, close, enqueue, after_write, raise_ledger, message_ledger, write_frame, send_frame,
  send_message, flush_frames, notification_of,
}
use ourdao_backend.Stream.Client.Signals.{Signal}

-- the frame is written unless the write throws
abbrev logged : WriteAnswer → Frame → List Frame → List Frame
logged WriteAnswer.accepted frame log = log ++ frame ∷ []
logged WriteAnswer.full frame log = log ++ frame ∷ []
logged (WriteAnswer.thrown destroyed) frame log = log

-- A socket that answers by what was written to it before, and its log.
abbrev pub log_write :
    (List Frame → Frame → WriteAnswer) → Frame → List Frame → WriteAnswer × List Frame
log_write answer frame log = (answer log frame, logged (answer log frame) frame log)

-- A write of this socket throws only where the socket is destroyed.
abbrev pub ThrowsDestroyed : (List Frame → Frame → WriteAnswer) → Type 0
ThrowsDestroyed answer =
    (log : List Frame) (frame : Frame) → answer log frame ≢ WriteAnswer.thrown false

-- the newest ledger that a client was told of
unfoldable pub newest : Option ℕ → ℕ → ℕ
newest none last = last
newest (some ledger) last = max last ledger

-- the frame of a notification, for a client of these channels
unfoldable pub expected_frame : StreamChannel → Payload → ℕ → ℕ → Frame
unfolding newest
expected_frame channel payload now last = record {
  id = newest (ledger_of payload) last;
  message = notification_of channel payload now;
}

-- The frames of all notifications on the channels, in the order in which they came.
unfoldable pub expected : List StreamChannel → ℕ → List Signal → List Frame
expected channels last [] = []
expected channels last (Signal.receives channel payload now ∷ rest) =
    if any (channel_beq channel) channels
    then expected_frame channel payload now last
      ∷ expected channels (newest (ledger_of payload) last) rest
    else expected channels last rest
expected channels last (Signal.drains ∷ rest) = expected channels last rest
expected channels last (Signal.ticks now ∷ rest) = expected channels last rest
expected channels last (Signal.retries now ∷ rest) = expected channels last rest
expected channels last (Signal.stalls ∷ rest) = expected channels last rest
expected channels last (Signal.ends ∷ rest) = expected channels last rest

abbrev pub is_notification : Frame → Bool
is_notification frame = elim frame.message.type [ MessageType.heartbeat ↦ false | _ ↦ true ]

-- the frames other than heartbeats
abbrev pub notifications : List Frame → List Frame
notifications [] = []
notifications (frame ∷ rest) =
    if is_notification frame then frame ∷ notifications rest else notifications rest

abbrev pub is_retry : Signal → Bool
is_retry (Signal.retries now) = true
is_retry _ = false

-- An open connection of these channels, which was told of this ledger.
pub record IsLive (channels : List StreamChannel) (last : ℕ) (c : StreamClient) : Type 0 where
  pub open_ : c.closed ≡ false
  pub held : c.released ≡ false
  pub subscribed : c.channels ≡ channels
  pub told : c.last_sent_ledger ≡ last

-- what waits, waits for the socket
abbrev pub IsDrained : StreamClient → Type 0
IsDrained c = c.paused ≡ false → c.queue ≡ []

after_write-IsLive :
    (channels : List StreamChannel) (last : ℕ) (result : WriteAnswer) (frame : Frame)
    (c : StreamClient) (log : List Frame)
    → result ≢ WriteAnswer.thrown false
    → IsLive channels last c
    → ((after_write result c).closed ≡ true)
      ⊎ (IsLive channels last (after_write result c)
          × ((after_write result c).queue ≡ c.queue)
          × (logged result frame log ≡ log ++ frame ∷ []))
unfolding after_write
after_write-IsLive channels last WriteAnswer.accepted frame c log thrown live = inr (
  record { open_ = live.open_; held = live.held; subscribed = live.subscribed; told = live.told },
  refl,
  refl,
)
after_write-IsLive channels last WriteAnswer.full frame c log thrown live = inr (
  record { open_ = live.open_; held = live.held; subscribed = live.subscribed; told = live.told },
  refl,
  refl,
)
after_write-IsLive channels last (WriteAnswer.thrown true) frame c log thrown live =
    inl (rw live.open_ refl)
after_write-IsLive channels last (WriteAnswer.thrown false) frame c log thrown live =
    absurd (thrown refl)

pub close-closed : (c : StreamClient) → c.released ≡ false → (close c).closed ≡ true
unfolding close
close-closed c h = rw h refl

raise_ledger-IsLive :
    (channels : List StreamChannel) (last : ℕ) (o : Option ℕ) (c : StreamClient)
    → IsLive channels last c
    → IsLive channels (newest o last) (raise_ledger o c)
unfolding raise_ledger newest
raise_ledger-IsLive channels last none c live = live
raise_ledger-IsLive channels last (some ledger) c live = record {
  open_ = live.open_;
  held = live.held;
  subscribed = live.subscribed;
  told = (let same = live.told in ground arith);
}

pub raise_ledger-keeps :
    (o : Option ℕ) (c : StreamClient)
    → ((raise_ledger o c).queue ≡ c.queue) × ((raise_ledger o c).paused ≡ c.paused)
unfolding raise_ledger
raise_ledger-keeps none c = (refl, refl)
raise_ledger-keeps (some ledger) c = (refl, refl)

stopped_open : (paused shut : Bool) → (paused || shut) ≡ true → paused ≡ false → shut ≡ false → ⊥
stopped_open true shut h p q = cc p
stopped_open false shut h p q = cc (h, q)

and_true : (b : Bool) → (b && true) ≡ true → b ≡ true
and_true true h = refl
and_true false h = h

and_false : (b : Bool) → (b && true) ≡ false → b ≡ false
and_false true h = h
and_false false h = refl

or_right : (paused shut : Bool) → shut ≡ true → (paused || shut) ≡ true
or_right true shut h = refl
or_right false shut h = h

pub close_stays : (c : StreamClient) → c.closed ≡ true → (close c).closed ≡ true
unfolding close
close_stays c h = if_elim (λ (d : StreamClient). d.closed ≡ true) c.released (λ g. h) (λ g. refl)

module _ (answer : List Frame → Frame → WriteAnswer) (survives : ThrowsDestroyed answer) where
  abbrev write : Frame → List Frame → WriteAnswer × List Frame
  write = log_write answer

  -- The connection is closed, or all that was to be sent is written or waits, in order.
  abbrev pub Carries : List StreamChannel → ℕ → List Frame → StreamClient × List Frame → Type 0
  Carries channels last all (c, log) =
      (c.closed ≡ true) ⊎ (IsLive channels last c × IsDrained c × (log ++ c.queue ≡ all))

  write_frame-IsLive :
      (channels : List StreamChannel) (last : ℕ) (frame : Frame) (c : StreamClient)
      (log : List Frame)
      → IsLive channels last c
      → ((write_frame write frame (c, log)).0.closed ≡ true)
        ⊎ (IsLive channels last (write_frame write frame (c, log)).0
            × ((write_frame write frame (c, log)).0.queue ≡ c.queue)
            × ((write_frame write frame (c, log)).1 ≡ log ++ frame ∷ []))
  unfolding write_frame
  write_frame-IsLive channels last frame c log live =
      after_write-IsLive channels last (answer log frame) frame c log (survives log frame) live

  abbrev Shut : StreamClient × List Frame → Type 0
  Shut s = s.0.closed ≡ true

  pub flush_frames-closed :
      (frames : List Frame) (c : StreamClient) (log : List Frame)
      → c.closed ≡ true
      → Shut (flush_frames write frames (c, log))
  unfolding flush_frames
  flush_frames-closed [] c log h = h
  flush_frames-closed (frame ∷ rest) c log h =
      if_elim Shut (c.paused || c.closed) (λ g. h)
        (λ g. absurd (cc (g, or_right c.paused c.closed h)))

  -- the flush writes what waits until the socket is full
  pub flush_frames-Carries :
      (channels : List StreamChannel) (last : ℕ) (frames : List Frame) (c : StreamClient)
      (log : List Frame)
      → IsLive channels last c
      → c.queue ≡ frames
      → Carries channels last (log ++ frames) (flush_frames write frames (c, log))
  unfolding flush_frames
  flush_frames-Carries channels last [] c log live waits = inr (live, λ h. waits, rw waits refl)
  flush_frames-Carries channels last (frame ∷ rest) c log live waits =
      if_elim (Carries channels last (log ++ frame ∷ rest)) (c.paused || c.closed)
        (λ stopped. inr (
          live,
          λ free.
              (let shut = live.open_ in absurd (stopped_open c.paused c.closed stopped free shut)),
          rw waits refl,
        ))
        (λ going.
          let ready : IsLive channels last (record c { queue = rest }) = record {
            open_ = live.open_;
            held = live.held;
            subscribed = live.subscribed;
            told = live.told;
          } in
          elim (write_frame-IsLive channels last frame (record c { queue = rest }) log ready) [
            | inl shut ↦ inl (flush_frames-closed rest _ _ shut)
            | inr (live', waits', written) ↦
                subst
                  (λ all. Carries channels last all (
                    flush_frames write rest
                      (write_frame write frame (record c { queue = rest }, log))))
                  (ap (λ l. l ++ rest) written ∙ append_assoc log (frame ∷ []) rest)
                  (flush_frames-Carries channels last rest _ _ live' waits')
          ])

  enqueue-Carries :
      (channels : List StreamChannel) (last : ℕ) (frame : Frame) (c : StreamClient)
      (log : List Frame)
      → IsLive channels last c
      → c.paused ≡ true
      → Carries channels last ((log ++ c.queue) ++ frame ∷ []) (enqueue frame c, log)
  unfolding enqueue
  enqueue-Carries channels last frame c log live paused =
      if_elim (λ d. Carries channels last ((log ++ c.queue) ++ frame ∷ []) (d, log))
        (leb max_queued_messages (length c.queue)) (λ h. inl (close-closed c live.held))
        (λ h. inr (
          record {
            open_ = live.open_;
            held = live.held;
            subscribed = live.subscribed;
            told = live.told;
          },
          λ free. absurd (cc (paused, free)),
          sym (append_assoc log c.queue (frame ∷ [])),
        ))

  -- one frame more, written or waiting
  send_frame-Carries :
      (channels : List StreamChannel) (last : ℕ) (frame : Frame) (c : StreamClient)
      (log : List Frame)
      → IsLive channels last c
      → IsDrained c
      → Carries channels last
          ((log ++ c.queue) ++ frame ∷ [])
          (send_frame write false frame (c, log))
  unfolding send_frame
  send_frame-Carries channels last frame c log live drained =
      if_elim (Carries channels last ((log ++ c.queue) ++ frame ∷ [])) (c.paused && true)
        (λ stopped. enqueue-Carries channels last frame c log live (and_true c.paused stopped))
        (λ going.
          let empty = drained (and_false c.paused going) in
          elim (write_frame-IsLive channels last frame c log live) [
            | inl shut ↦ inl shut
            | inr (live', waits, written) ↦ inr (
              live',
              λ h. waits ∙ empty,
              rw (waits, empty, written)
                  (append-nil _ ∙ ap (λ l. l ++ frame ∷ []) (sym (append-nil log))),
            )
          ])

  pub send_message-Carries :
      (channels : List StreamChannel) (last : ℕ) (msg : StreamMessage) (c : StreamClient)
      (log : List Frame)
      → IsLive channels last c
      → IsDrained c
      → Carries channels
          (newest (message_ledger msg.payload) last)
          ((log ++ c.queue)
            ++ (record { id = newest (message_ledger msg.payload) last; message = msg } ∷ []))
          (send_message write false msg (c, log))
  unfolding send_message
  send_message-Carries channels last msg c log live drained =
      let raised = raise_ledger (message_ledger msg.payload) c in
      let (same_queue, same_paused) = raise_ledger-keeps (message_ledger msg.payload) c in
      let live' = raise_ledger-IsLive channels last (message_ledger msg.payload) c live in
      let sent =
        send_frame-Carries channels (newest (message_ledger msg.payload) last)
          (record { id = raised.last_sent_ledger; message = msg }) raised log live'
          (λ h. same_queue ∙ drained (sym same_paused ∙ h)) in
      let after : Frame = record { id = newest (message_ledger msg.payload) last; message = msg } in
      let same_all : (log ++ raised.queue)
            ++ (record { id = raised.last_sent_ledger; message = msg } ∷ [])
          ≡ (log ++ c.queue) ++ (after ∷ []) =
        rw (same_queue, live'.told) refl in
      if_elim
        (Carries channels (newest (message_ledger msg.payload) last)
          ((log ++ c.queue) ++ (after ∷ [])))
        c.closed (λ h. inl h)
        (λ h.
          subst
            (λ all. Carries channels (newest (message_ledger msg.payload) last) all (
              send_frame write false (record { id = raised.last_sent_ledger; message = msg })
                (raised, log)))
            same_all sent)
