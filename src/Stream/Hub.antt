-- ===== src/Stream/Hub.antt =====
-- api/stream.ts: the connections of a process, the notifications that are fanned out to them, and
-- the admission of new ones. Connections are numbered, as objects are distinct. JSON.parse and the
-- sockets are parameters.
pub mod Admission
pub mod Caps
pub mod Dispatch
use ourdao_backend.Common.{
  ℕ, String, Bool, true, false, Option, none, some, List, [], ◌∷◌, ◌+◌, ◌-◌, leb, ltb, length,
  if◌then◌else◌, ◌==◌, string_eq, nat_eq, Result, ok, err,
}
use ourdao_backend.Common.Table.{Table, lookup, put, erase, has}
use ourdao_backend.Stream.{StreamChannel, Payload, ledger_of, reorg_ledger_of, Frame, WriteAnswer}
use ourdao_backend.Stream.Client.{StreamClient, new_client, receive_notification, close, start}

pub record StreamHub (W : Type 0) : Type 0 where
  pub connected_clients : Table ℕ StreamClient
  pub connections_by_ip : Table String ℕ
  pub known_ledger : Option ℕ
  pub last_reorg_ledger : Option ℕ
  pub sockets : W

unfoldable pub count_or_zero : Option ℕ → ℕ
count_or_zero none = 0
count_or_zero (some n) = n

-- `connectionsByIp.get(ip) ?? 0`
unfoldable pub ip_connections : String → Table String ℕ → ℕ
unfolding count_or_zero
ip_connections ip counts = count_or_zero (lookup ip counts)

unfoldable pub lower_count : String → Table String ℕ → Table String ℕ
unfolding ip_connections
lower_count ip counts =
    if leb (ip_connections ip counts) 1
    then erase ip counts
    else put ip (ip_connections ip counts - 1) counts

-- `ledger > frontier.value`, or nothing is known yet
unfoldable pub is_newer : ℕ → Option ℕ → Bool
is_newer ledger none = true
is_newer ledger (some value) = ltb value ledger

unfoldable pub advance_frontier : Option ℕ → Option ℕ → Option ℕ
unfolding is_newer
advance_frontier none value = value
advance_frontier (some ledger) value = if is_newer ledger value then some ledger else value

pub record StreamLimits : Type 0 where
  pub max_connections : ℕ
  pub max_connections_per_ip : ℕ

pub data Rejection : Type 0 where
  too_many_connections too_many_from_address : Rejection

-- `JSON.parse` of a payload: it throws, gives null, or gives a value whose fields can be read.
pub data Parsed : Type 0 where
  malformed null_value : Parsed
  value : Payload → Parsed

-- The error that a field of null throws.
pub data TypeError : Type 0 where
  field_of_null : TypeError

abbrev pub no_payload : Payload
no_payload = Payload.notified none none ""

unfoldable pub parse_payload : (String → Parsed) → Option String → Parsed
parse_payload parse none = Parsed.value no_payload
parse_payload parse (some raw) = if raw == "" then Parsed.value no_payload else parse raw

module _ {W : Type 0} where
  -- the part of `doClose` that concerns the trackers
  unfoldable pub untrack : ℕ → String → StreamHub W → StreamHub W
  unfolding lower_count
  untrack id ip hub =
      if has id hub.connected_clients
      then record hub {
        connected_clients = erase id hub.connected_clients;
        connections_by_ip = lower_count ip hub.connections_by_ip;
      }
      else hub

  -- A client after a call: one that closed itself has left the trackers.
  unfoldable pub settle : ℕ → StreamClient × W → StreamHub W → StreamHub W
  unfolding untrack
  settle id (c, w) hub =
      if c.released
      then untrack id c.ip (record hub { sockets = w })
      else record hub { connected_clients = put id c hub.connected_clients; sockets = w }

  unfoldable pub close_client : ℕ → Option StreamClient → StreamHub W → StreamHub W
  unfolding settle close
  close_client id none hub = hub
  close_client id (some c) hub = settle id (close c, hub.sockets) hub

  -- the checks of the handshake: the number of the address's connections, or a rejection
  unfoldable pub check_capacity : StreamLimits → String → StreamHub W → Result Rejection ℕ
  unfolding ip_connections
  check_capacity limits ip hub =
      if leb limits.max_connections (length hub.connected_clients)
      then err Rejection.too_many_connections
      else if leb limits.max_connections_per_ip (ip_connections ip hub.connections_by_ip)
      then err Rejection.too_many_from_address
      else ok (ip_connections ip hub.connections_by_ip)

  -- the rest of the handshake, after the listener was awaited, with the number read before
  unfoldable pub register : ℕ → String → ℕ → StreamHub W → StreamHub W
  register id ip ip_count hub = record hub {
    connected_clients = put id (new_client ip) hub.connected_clients;
    connections_by_ip = put ip (ip_count + 1) hub.connections_by_ip;
  }

  module _ (write : ℕ → Frame → W → WriteAnswer × W) where
    unfoldable pub deliver :
        StreamChannel → Payload → ℕ → ℕ → Option StreamClient → StreamHub W → StreamHub W
    unfolding settle receive_notification
    deliver channel payload now id none hub = hub
    deliver channel payload now id (some c) hub =
        settle id (receive_notification (write id) channel payload now (c, hub.sockets)) hub

    -- the start of a registered client
    unfoldable pub start_client :
        List StreamChannel
        → Option (Option ℕ)
        → ℕ
        → ℕ
        → Option StreamClient
        → StreamHub W
        → StreamHub W
    unfolding settle start
    start_client channels last_event_id now id none hub = hub
    start_client channels last_event_id now id (some c) hub =
        settle id (start (write id) channels last_event_id hub.known_ledger now (c, hub.sockets))
          hub

    -- the loop over the clients, as they were when it began
    unfoldable pub deliver_all :
        StreamChannel → Payload → ℕ → Table ℕ StreamClient → StreamHub W → StreamHub W
    unfolding deliver lookup
    deliver_all channel payload now [] hub = hub
    deliver_all channel payload now ((id, _) ∷ rest) hub =
        deliver_all channel payload now rest
          (deliver channel payload now id (lookup id hub.connected_clients) hub)

    -- a reorg's signal that is not newer than the last one is dropped
    unfoldable pub fan_out : StreamChannel → Payload → ℕ → Option ℕ → StreamHub W → StreamHub W
    unfolding deliver_all is_newer
    fan_out channel payload now none hub = deliver_all channel payload now hub.connected_clients hub
    fan_out channel payload now (some reorg_ledger) hub =
        if is_newer reorg_ledger hub.last_reorg_ledger
        then deliver_all channel payload now hub.connected_clients
            (record hub { last_reorg_ledger = some reorg_ledger })
        else hub

    unfoldable pub dispatch_parsed :
        StreamChannel → Parsed → ℕ → StreamHub W → Result TypeError (StreamHub W)
    unfolding fan_out advance_frontier ledger_of reorg_ledger_of
    dispatch_parsed channel Parsed.malformed now hub = ok hub
    dispatch_parsed channel Parsed.null_value now hub = err TypeError.field_of_null
    dispatch_parsed channel (Parsed.value payload) now hub = ok (
        fan_out channel payload now (reorg_ledger_of payload)
          (record hub { known_ledger = advance_frontier (ledger_of payload) hub.known_ledger }))

    unfoldable pub dispatch_stream_notification :
        (String → Parsed)
        → StreamChannel
        → Option String
        → ℕ
        → StreamHub W
        → Result TypeError (StreamHub W)
    unfolding dispatch_parsed parse_payload
    dispatch_stream_notification parse channel raw_payload now hub =
        dispatch_parsed channel (parse_payload parse raw_payload) now hub
