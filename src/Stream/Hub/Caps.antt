-- ===== src/Stream/Hub/Caps.antt =====
-- api/stream.ts, registerStreamEndpoint: the caps, for handshakes one after another and for two that
-- overlap.
use ourdao_backend.Common.{
  ℕ, String, Option, none, some, [], ◌+◌, ◌≤◌, ◌<◌, ◌≡◌, ◌≢◌, leb, length, ◌==◌, string_eq, nat_eq,
  Result, ok, err, refl, sym, ◌∙◌, Bool-cases, ==_refl, inl, inr, arith, if_elim,
}
use ourdao_backend.Common.Table.{lookup, put, has, lookup-put_ne, sum_of, sum_of-put_new}
use ourdao_backend.Common.Rows.{length-put_new, length-erase}
use ourdao_backend.Stream.Client.{StreamClient, new_client}
use ourdao_backend.Stream.Hub.{
  StreamHub, StreamLimits, Rejection, count_or_zero, ip_connections, untrack, close_client,
  check_capacity, register,
}
use ourdao_backend.Stream.Hub.Admission.{
  IsCounted, is_of, register-IsCounted, untrack-IsCounted, close_client-untracks,
  ip_connections-put, ip_connections-lower,
}

plus_two : (x y o k n : ℕ) → x ≡ y + k → y ≡ o + k → k ≡ 1 → o ≡ n → x ≡ n + 2
plus_two x y o k n p q r t = omega arith

module _ {W : Type 0} where
  -- What happens to the trackers: a handshake that is admitted and registered at once, and the end
  -- of a connection.
  pub data Traffic (limits : StreamLimits) : StreamHub W → StreamHub W → Type 0 where
    admits :
        (id : ℕ) (ip : String) (n : ℕ) (hub : StreamHub W)
        → lookup id hub.connected_clients ≡ none
        → check_capacity limits ip hub ≡ ok n
        → Traffic limits hub (register id ip n hub)
    closes :
        (id : ℕ) (hub : StreamHub W)
        → Traffic limits hub (close_client id (lookup id hub.connected_clients) hub)

  abbrev pub no_clients : W → StreamHub W
  no_clients w = record {
    connected_clients = [];
    connections_by_ip = [];
    known_ledger = none;
    last_reorg_ledger = none;
    sockets = w;
  }

  pub data Open (limits : StreamLimits) : StreamHub W → Type 0 where
    none_yet : (w : W) → Open limits (no_clients w)
    and_then :
        {hub hub' : StreamHub W} → Open limits hub → Traffic limits hub hub' → Open limits hub'

  -- within the caps
  pub record IsWithin (limits : StreamLimits) (hub : StreamHub W) : Type 0 where
    pub is_counted : IsCounted hub
    pub few : length hub.connected_clients ≤ limits.max_connections
    pub few_by_ip :
        (ip : String) → ip_connections ip hub.connections_by_ip ≤ limits.max_connections_per_ip

  admitted :
      (limits : StreamLimits) (ip : String) (n : ℕ) (hub : StreamHub W)
      → check_capacity limits ip hub ≡ ok n
      → (length hub.connected_clients < limits.max_connections)
        × (n < limits.max_connections_per_ip)
        × (n ≡ ip_connections ip hub.connections_by_ip)
  unfolding check_capacity
  admitted limits ip n hub h =
      elim (Bool-cases (leb limits.max_connections (length hub.connected_clients))) [
        | inl full ↦
            (let p : err Rejection.too_many_connections ≡ ok n = (rw full at h) in absurd (cc p))
        | inr room ↦
            elim (Bool-cases
              (leb limits.max_connections_per_ip (ip_connections ip hub.connections_by_ip))) [
                | inl many ↦
                    (let p : err Rejection.too_many_from_address ≡ ok n = (rw (room, many) at h) in
                      absurd (cc p))
                | inr few ↦
                    let p : ◌≡◌ {A = Result Rejection ℕ}
                        (ok (ip_connections ip hub.connections_by_ip)) (ok n) =
                      (rw (room, few) at h) in
                    let same : ip_connections ip hub.connections_by_ip ≡ n = cc p in
                    (ground arith, ground arith, sym same)
              ]
      ]

  register-IsWithin :
      (limits : StreamLimits) (id : ℕ) (ip : String) (n : ℕ) (hub : StreamHub W)
      → IsWithin limits hub
      → lookup id hub.connected_clients ≡ none
      → check_capacity limits ip hub ≡ ok n
      → IsWithin limits (register id ip n hub)
  unfolding register
  register-IsWithin limits id ip n hub v new passed =
      let (room, few, same) = admitted limits ip n hub passed in
      record {
        is_counted = (unfold register in register-IsCounted id ip n hub v.is_counted new same);
        few = rw (length-put_new id (new_client ip) hub.connected_clients new) (omega arith);
        few_by_ip = λ a.
            let raised = ip_connections-put a ip (n + 1) hub.connections_by_ip in
            let before = v.few_by_ip a in
            rw raised (
              if_elim (λ m. m ≤ limits.max_connections_per_ip) (ip == a) (λ g. omega arith)
                (λ g. before));
      }

  untrack-IsWithin :
      (limits : StreamLimits) (id : ℕ) (c : StreamClient) (hub : StreamHub W)
      → IsWithin limits hub
      → lookup id hub.connected_clients ≡ some c
      → IsWithin limits (untrack id c.ip hub)
  untrack-IsWithin limits id c hub v found = record {
    is_counted = untrack-IsCounted id c hub v.is_counted found;
    few =
        (unfold untrack in
          if_elim (λ (h : StreamHub W). length h.connected_clients ≤ limits.max_connections)
            (has id hub.connected_clients)
            (λ g.
              (let less = length-erase id hub.connected_clients in
                let before = v.few in omega arith))
            (λ g. v.few));
    few_by_ip = λ a.
        (unfold untrack in
          if_elim
            (λ (h : StreamHub W).
              ip_connections a h.connections_by_ip ≤ limits.max_connections_per_ip)
            (has id hub.connected_clients)
            (λ g.
              let less =
                ip_connections-lower a c.ip hub.connections_by_ip v.is_counted.unique_counts in
              let before = v.few_by_ip a in omega arith)
            (λ g. v.few_by_ip a));
  }

  close_client-IsWithin :
      (limits : StreamLimits) (id : ℕ) (hub : StreamHub W) (o : Option StreamClient)
      → IsWithin limits hub
      → lookup id hub.connected_clients ≡ o
      → IsWithin limits (close_client id o hub)
  close_client-IsWithin limits id hub none v h = unfold close_client in v
  close_client-IsWithin limits id hub (some c) v h =
      rw (close_client-untracks id c hub) (untrack-IsWithin limits id c hub v h)

  -- If every handshake is registered as soon as it is admitted, and connections end at any time, the
  -- open connections stay within the caps, of the process and of each address, and each address's
  -- number is that of its open connections.
  pub handshakes-IsWithin :
      (limits : StreamLimits) {hub : StreamHub W} → Open limits hub → IsWithin limits hub
  handshakes-IsWithin limits (Open.none_yet w) = record {
    is_counted = record {
      unique_clients = tt;
      unique_counts = tt;
      counted = λ ip. (unfold ip_connections count_or_zero lookup sum_of in refl);
    };
    few = omega arith;
    few_by_ip = λ ip. (unfold ip_connections count_or_zero lookup in omega arith);
  }
  handshakes-IsWithin limits (Open.and_then before (Traffic.admits id ip n hub new passed)) =
      register-IsWithin limits id ip n hub (handshakes-IsWithin limits before) new passed
  handshakes-IsWithin limits (Open.and_then before (Traffic.closes id hub)) =
      close_client-IsWithin limits id hub _ (handshakes-IsWithin limits before) refl

  -- If two handshakes of an address are both admitted before either is registered, and then both
  -- are, the address has two connections more and its number is one higher.
  pub handshakes-Overlap :
      (limits : StreamLimits) (a b : ℕ) (ip : String) (n : ℕ) (hub : StreamHub W)
      → IsCounted hub
      → lookup a hub.connected_clients ≡ none
      → lookup b hub.connected_clients ≡ none
      → b ≢ a
      → check_capacity limits ip hub ≡ ok n
      → let both = register b ip n (register a ip n hub) in
        (sum_of (is_of ip) both.connected_clients ≡ n + 2)
        × (ip_connections ip both.connections_by_ip ≡ n + 1)
  unfolding register
  handshakes-Overlap limits a b ip n hub v new_a new_b apart passed =
      let (room, few, same) = admitted limits ip n hub passed in
      let first = sum_of-put_new (is_of ip) a (new_client ip) hub.connected_clients new_a in
      let second =
        sum_of-put_new (is_of ip) b (new_client ip) (put a (new_client ip) hub.connected_clients)
          (lookup-put_ne b a (new_client ip) hub.connected_clients apart ∙ new_b) in
      let one : is_of ip (new_client ip) ≡ 1 = rw (==_refl ip) refl in
      let before = v.counted ip in
      let written = ip_connections-put ip ip (n + 1) (put ip (n + 1) hub.connections_by_ip) in
      (plus_two _ _ _ _ _ second first one (sym before ∙ sym same), (rw (==_refl ip) at written))
