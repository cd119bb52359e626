-- ===== src/Examples/Streaming.antt =====
-- Connections to the event stream.
use ourdao_backend.Common.{
  ℕ, String, true, false, none, some, List, [], ◌∷◌, ◌++◌, ◌≡◌, ◌+◌, refl, ◌⊎◌, ok, arith, nat_eq,
  string_eq,
}
use ourdao_backend.Common.Table.{lookup, sum_of}
use ourdao_backend.Stream.{StreamChannel, Payload, ledger_of, reorg_ledger_of, Frame, WriteAnswer}
use ourdao_backend.Stream.Client.{
  StreamClient, new_client, start, heartbeat_at, heartbeat_retry, receive_notification,
}
use ourdao_backend.Stream.Client.Signals.{Signal, react_all}
use ourdao_backend.Stream.Client.Bounds.{IsBounded, connection-IsBounded}
use ourdao_backend.Stream.Client.Order.{
  log_write, ThrowsDestroyed, notifications, expected, expected_frame,
}
use ourdao_backend.Stream.Client.Delivery.{react_all-delivers}
use ourdao_backend.Stream.Client.Overtaking.{retry-overtakes, takes_all}
use ourdao_backend.Stream.Hub.{
  StreamHub, StreamLimits, Parsed, ip_connections, count_or_zero, register, check_capacity,
  parse_payload, is_newer, advance_frontier, fan_out, dispatch_parsed, dispatch_stream_notification,
}
use ourdao_backend.Stream.Hub.Admission.{IsCounted, is_of}
use ourdao_backend.Stream.Hub.Caps.{
  Open, Traffic, IsWithin, no_clients, handshakes-IsWithin, handshakes-Overlap,
}
use ourdao_backend.Stream.Hub.Dispatch.{IsAhead, Heeds, dispatch-IsAhead}

-- a socket that is full after two frames
abbrev slow : List Frame → Frame → WriteAnswer
slow [] frame = WriteAnswer.accepted
slow (first ∷ rest) frame = WriteAnswer.full

abbrev loans : StreamChannel
loans = StreamChannel.loans_changed

abbrev change : ℕ → Payload
change ledger = Payload.notified (some ledger) none "{}"

abbrev client : StreamClient
client = record (new_client "10.0.0.1") { channels = loans ∷ []; last_sent_ledger = 7 }

abbrev signals : List Signal
signals =
    Signal.receives loans (change 8) 100
    ∷ Signal.receives loans (change 9) 200
    ∷ Signal.ticks 30000
    ∷ Signal.receives loans (change 6) 300
    ∷ Signal.drains
    ∷ []

slow-throws : ThrowsDestroyed slow
slow-throws [] frame h = absurd (cc h)
slow-throws (first ∷ rest) frame h = absurd (cc h)

react_all-delivers_example :
    let s = react_all (log_write slow) signals (client, []) in
    (s.0.closed ≡ true)
    ⊎ (notifications (s.1 ++ s.0.queue) ≡ notifications [] ++ expected (loans ∷ []) 7 signals)
react_all-delivers_example =
    react_all-delivers slow slow-throws (loans ∷ []) 7 signals client []
      (refl, (refl, (refl, (refl, (refl, tt)))))
      (record { open_ = refl; held = refl; subscribed = refl; told = refl }) (λ h. refl)

connection-IsBounded_example :
    IsBounded
      (react_all (log_write slow) signals (
        start
          (log_write slow)
          (loans ∷ [])
          (some (some 5))
          (some 7)
          50
          (new_client "10.0.0.1", []))).0
connection-IsBounded_example =
    connection-IsBounded (log_write slow) "10.0.0.1" (loans ∷ []) (some (some 5)) (some 7) 50
      signals []

-- one frame waits
abbrev waiting : StreamClient
waiting = record client {
  paused = true;
  stall_timer = true;
  heartbeat_retry_timer = true;
  queue = expected_frame loans (change 8) 100 7 ∷ [];
  last_sent_ledger = 8;
}

retry-overtakes_example :
    let s =
      receive_notification
        (log_write takes_all)
        loans
        (change 9)
        31000
        (heartbeat_retry (log_write takes_all) 30000 (waiting, [])) in
    (s.0.paused ≡ false)
    × (s.0.queue ≡ waiting.queue)
    × (s.1
        ≡ []
          ++ (record { id = 8; message = heartbeat_at 30000 })
            ∷ expected_frame loans (change 9) 31000 8
            ∷ [])
retry-overtakes_example = retry-overtakes loans (change 9) 30000 31000 waiting [] refl refl

abbrev limits : StreamLimits
limits = record { max_connections = 100; max_connections_per_ip = 2 }

abbrev quiet : StreamHub ℕ
quiet = no_clients 0

quiet-passes : check_capacity limits "10.0.0.1" quiet ≡ ok 0
unfolding check_capacity ip_connections count_or_zero lookup
quiet-passes = refl

handshakes-IsWithin_example : IsWithin limits (register 1 "10.0.0.1" 0 quiet)
handshakes-IsWithin_example = handshakes-IsWithin limits (
    Open.and_then (Open.none_yet 0)
      (Traffic.admits 1 "10.0.0.1" 0 quiet (unfold lookup in refl) quiet-passes))

quiet-IsCounted : IsCounted quiet
unfolding ip_connections count_or_zero lookup sum_of
quiet-IsCounted = record { unique_clients = tt; unique_counts = tt; counted = λ ip. refl }

handshakes-Overlap_example :
    let both = register 2 "10.0.0.1" 0 (register 1 "10.0.0.1" 0 quiet) in
    (sum_of (is_of "10.0.0.1") both.connected_clients ≡ 0 + 2)
    × (ip_connections "10.0.0.1" both.connections_by_ip ≡ 0 + 1)
handshakes-Overlap_example =
    handshakes-Overlap limits 1 2 "10.0.0.1" 0 quiet quiet-IsCounted (unfold lookup in refl)
      (unfold lookup in refl) (λ p. omega arith) quiet-passes

-- a hub that knows ledger 7 and a reorg at 5
abbrev informed : StreamHub ℕ
informed = record quiet { known_ledger = some 7; last_reorg_ledger = some 5 }

abbrev stale : Payload
stale = Payload.notified (some 9) (some 4) "{}"

abbrev parse : String → Parsed
parse raw = Parsed.value stale

abbrev write : ℕ → Frame → ℕ → WriteAnswer × ℕ
write id frame n = (WriteAnswer.accepted, n + 1)

dispatched :
    dispatch_stream_notification write parse loans (some "{}") 100 informed
    ≡ ok (record informed { known_ledger = some 9 })
unfolding dispatch_stream_notification dispatch_parsed parse_payload fan_out is_newer
    advance_frontier ledger_of reorg_ledger_of
dispatched = refl

dispatch-IsAhead_example :
    IsAhead (some 7) (some 9)
    × IsAhead (some 5) (some 5)
    × Heeds write (some 4) informed (record informed { known_ledger = some 9 })
unfolding reorg_ledger_of
dispatch-IsAhead_example =
    dispatch-IsAhead write parse loans (some "{}") stale 100 informed (unfold parse_payload in refl)
      dispatched
