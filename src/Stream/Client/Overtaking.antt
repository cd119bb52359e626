-- ===== src/Stream/Client/Overtaking.antt =====
-- api/stream.ts, StreamClient: a heartbeat's retry that the socket accepts.
use mathlib.Core.List.{append_assoc}
use ourdao_backend.Common.{
  ℕ, Bool, true, false, Option, none, some, List, [], ◌∷◌, ◌++◌, ◌≡◌, not, ◌&&◌, refl, any, ◌∙◌, ap,
  sym, subst, if_elim, arith,
}
use ourdao_backend.Stream.{
  StreamChannel, Payload, ledger_of, Frame, StreamMessage, WriteAnswer, channel_beq,
}
use ourdao_backend.Stream.Client.{
  StreamClient, after_write, raise_ledger, message_ledger, write_frame, send_frame, send_message,
  back_off_heartbeat, heartbeat_retry, receive_notification, heartbeat_at, notification_of,
}
use ourdao_backend.Stream.Client.Order.{log_write, newest, expected_frame, raise_ledger-keeps}

-- the client after a retry that was accepted
abbrev pub recovered : StreamClient → StreamClient
recovered c = record c { heartbeat_retry_timer = false; paused = false; stall_timer = false }

-- every write is accepted
abbrev pub takes_all : List Frame → Frame → WriteAnswer
takes_all log frame = WriteAnswer.accepted

paused_free : (b : Bool) → b ≡ false → (b && not false) ≡ false
paused_free true h = h
paused_free false h = refl

not_on : (b : Bool) → b ≡ true → not b ≡ true → ⊥
not_on true h k = cc k
not_on false h k = cc h

-- what is sent to an open connection, and need not wait, is written
send_message_taken :
    (force : Bool) (msg : StreamMessage) (c : StreamClient) (log : List Frame)
    → c.closed ≡ false
    → (c.paused && not force) ≡ false
    → let c' = raise_ledger (message_ledger msg.payload) c in
      send_message (log_write takes_all) force msg (c, log) ≡ (
        after_write WriteAnswer.accepted c',
        log ++ (record { id = c'.last_sent_ledger; message = msg }) ∷ [],
      )
unfolding send_message send_frame write_frame
send_message_taken force msg c log h free =
    let c' = raise_ledger (message_ledger msg.payload) c in
    let P : StreamClient × List Frame → Type 0 = λ s. s ≡ (
      after_write WriteAnswer.accepted c',
      log ++ (record { id = c'.last_sent_ledger; message = msg }) ∷ [],
    ) in
    let (_, same) = raise_ledger-keeps (message_ledger msg.payload) c in
    if_elim P c.closed (λ g. absurd (cc (g, h)))
      (λ g. if_elim P (c'.paused && not force) (λ k. absurd (cc (k, same, free))) (λ k. refl))

and_not-true : (b : Bool) → (b && not true) ≡ false
and_not-true true = refl
and_not-true false = refl

open_retry :
    (now : ℕ) (c : StreamClient) (log : List Frame)
    → c.closed ≡ false
    → heartbeat_retry (log_write takes_all) now (c, log)
      ≡ (recovered c, log ++ (record { id = c.last_sent_ledger; message = heartbeat_at now }) ∷ [])
unfolding heartbeat_retry after_write raise_ledger message_ledger back_off_heartbeat
open_retry now c log h =
    if_elim
      (λ (s : StreamClient × List Frame). s ≡ (
        recovered c,
        log ++ (record { id = c.last_sent_ledger; message = heartbeat_at now }) ∷ [],
      ))
      c.closed (λ g. absurd (cc (g, h)))
      (λ g.
        ap (λ (s : StreamClient × List Frame). (back_off_heartbeat s.0, s.1))
          (send_message_taken true (heartbeat_at now) (record c { heartbeat_retry_timer = false })
            log h (and_not-true c.paused)))

raised_id :
    (o : Option ℕ) (c : StreamClient)
    → (raise_ledger o c).last_sent_ledger ≡ newest o c.last_sent_ledger
unfolding raise_ledger newest
raised_id none c = refl
raised_id (some ledger) c = ground arith

taken_notification :
    (channel : StreamChannel) (payload : Payload) (later : ℕ) (c : StreamClient) (log : List Frame)
    → c.closed ≡ false
    → c.paused ≡ false
    → any (channel_beq channel) c.channels ≡ true
    → let s = receive_notification (log_write takes_all) channel payload later (c, log) in
      (s.0.paused ≡ false)
      × (s.0.queue ≡ c.queue)
      × (s.1 ≡ log ++ expected_frame channel payload later c.last_sent_ledger ∷ [])
unfolding receive_notification after_write message_ledger expected_frame
taken_notification channel payload later c log h free on =
    let P : StreamClient × List Frame → Type 0 = λ s.
      (s.0.paused ≡ false)
      × (s.0.queue ≡ c.queue)
      × (s.1 ≡ log ++ expected_frame channel payload later c.last_sent_ledger ∷ []) in
    if_elim P c.closed (λ g. absurd (cc (g, h)))
      (λ g.
        if_elim P (not (any (channel_beq channel) c.channels)) (λ k. absurd (not_on _ on k))
          (λ k.
            subst P
              (sym (
                send_message_taken false (notification_of channel payload later) c log h
                  (paused_free c.paused free)))
              (
                refl,
                (raise_ledger-keeps (ledger_of payload) c).0,
                ap
                    (λ n.
                      log
                      ++ (record { id = n; message = notification_of channel payload later }) ∷ [])
                    (raised_id (ledger_of payload) c),
              )))

-- If a heartbeat's retry is accepted by the socket, the frames that wait go on waiting without a
-- pause, and the next notification is written before them.
pub retry-overtakes :
    (channel : StreamChannel) (payload : Payload) (now later : ℕ) (c : StreamClient)
    (log : List Frame)
    → c.closed ≡ false
    → any (channel_beq channel) c.channels ≡ true
    → let s =
        receive_notification
          (log_write takes_all)
          channel
          payload
          later
          (heartbeat_retry (log_write takes_all) now (c, log)) in
      (s.0.paused ≡ false)
      × (s.0.queue ≡ c.queue)
      × (s.1
          ≡ log
            ++ (record { id = c.last_sent_ledger; message = heartbeat_at now })
              ∷ expected_frame channel payload later c.last_sent_ledger
              ∷ [])
retry-overtakes channel payload now later c log h on =
    let P : StreamClient × List Frame → Type 0 = λ s₀.
      let s = receive_notification (log_write takes_all) channel payload later s₀ in
      (s.0.paused ≡ false)
      × (s.0.queue ≡ c.queue)
      × (s.1
          ≡ log
            ++ (record { id = c.last_sent_ledger; message = heartbeat_at now })
              ∷ expected_frame channel payload later c.last_sent_ledger
              ∷ []) in
    let (free, waits, written) =
      taken_notification channel payload later (recovered c)
        (log ++ (record { id = c.last_sent_ledger; message = heartbeat_at now }) ∷ []) h refl on in
    subst P (sym (open_retry now c log h)) (free, waits, written ∙ append_assoc log _ _)
