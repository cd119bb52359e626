-- ===== src/Stream/Hub/Dispatch.antt =====
-- api/stream.ts, dispatchStreamNotification: the frontier and the reorgs that a process knows of.
use ourdao_backend.Common.{
  inl, inr, ◌⊎◌, ℕ, String, true, false, Option, none, some, [], ◌∷◌, ◌≤◌, ◌≡◌, refl, ◌∙◌, Result,
  ok, arith, if_elim, nat_eq,
}
use ourdao_backend.Common.Table.{Table, lookup, has}
use ourdao_backend.Stream.{StreamChannel, Payload, ledger_of, reorg_ledger_of, Frame, WriteAnswer}
use ourdao_backend.Stream.Client.{StreamClient}
use ourdao_backend.Stream.Hub.{
  StreamHub, Parsed, TypeError, is_newer, advance_frontier, parse_payload, untrack, settle, deliver,
  deliver_all, fan_out, dispatch_parsed, dispatch_stream_notification,
}

-- A ledger that is known stays known, or a newer one is.
abbrev pub IsAhead : Option ℕ → Option ℕ → Type 0
IsAhead none after = Unit
IsAhead (some n) after = (m : ℕ) × (after ≡ some m) × (n ≤ m)

IsAhead-same : (o o' : Option ℕ) → o' ≡ o → IsAhead o o'
IsAhead-same none o' h = tt
IsAhead-same (some n) o' h = (n, h, omega arith)

IsAhead-after : (o a b : Option ℕ) → b ≡ a → IsAhead o a → IsAhead o b
IsAhead-after none a b h p = tt
IsAhead-after (some n) a b h (m, q, le) = (m, h ∙ q, le)

newer-IsAhead :
    (ledger : ℕ) (value : Option ℕ) → is_newer ledger value ≡ true → IsAhead value (some ledger)
unfolding is_newer
newer-IsAhead ledger none g = tt
newer-IsAhead ledger (some value) g = (ledger, refl, ground arith)

advance-IsAhead : (ledger value : Option ℕ) → IsAhead value (advance_frontier ledger value)
unfolding advance_frontier
advance-IsAhead none value = IsAhead-same value value refl
advance-IsAhead (some ledger) value =
    if_elim (IsAhead value) (is_newer ledger value) (λ g. newer-IsAhead ledger value g)
      (λ g. IsAhead-same value value refl)

module _ {W : Type 0} where
  -- the ledgers that are known stay
  abbrev SameLedgers : StreamHub W → StreamHub W → Type 0
  SameLedgers hub hub' =
      (hub'.known_ledger ≡ hub.known_ledger) × (hub'.last_reorg_ledger ≡ hub.last_reorg_ledger)

  settle-SameLedgers :
      (id : ℕ) (s : StreamClient × W) (hub : StreamHub W) → SameLedgers hub (settle id s hub)
  unfolding settle untrack
  settle-SameLedgers id (c, w) hub =
      if_elim (SameLedgers hub) c.released
        (λ g.
          if_elim (SameLedgers hub) (has id hub.connected_clients) (λ h. (refl, refl))
            (λ h. (refl, refl)))
        (λ g. (refl, refl))

  module _ (write : ℕ → Frame → W → WriteAnswer × W) where
    deliver-SameLedgers :
        (channel : StreamChannel) (payload : Payload) (now id : ℕ) (o : Option StreamClient)
        (hub : StreamHub W)
        → SameLedgers hub (deliver write channel payload now id o hub)
    unfolding deliver
    deliver-SameLedgers channel payload now id none hub = (refl, refl)
    deliver-SameLedgers channel payload now id (some c) hub = settle-SameLedgers id _ hub

    deliver_all-SameLedgers :
        (channel : StreamChannel) (payload : Payload) (now : ℕ) (rows : Table ℕ StreamClient)
        (hub : StreamHub W)
        → SameLedgers hub (deliver_all write channel payload now rows hub)
    unfolding deliver_all
    deliver_all-SameLedgers channel payload now [] hub = (refl, refl)
    deliver_all-SameLedgers channel payload now ((id, c) ∷ rest) hub =
        let first =
          deliver-SameLedgers channel payload now id (lookup id hub.connected_clients) hub in
        let others =
          deliver_all-SameLedgers channel payload now rest
            (deliver write channel payload now id (lookup id hub.connected_clients) hub) in
        (others.0 ∙ first.0, others.1 ∙ first.1)

    -- The hub after a payload with this reorg ledger, if it has one: an old one changes nothing.
    abbrev pub Heeds : Option ℕ → StreamHub W → StreamHub W → Type 0
    Heeds reorg hub hub' =
        (reorg ≡ none)
        ⊎ ((r : ℕ) × (reorg ≡ some r)
            × (is_newer r hub.last_reorg_ledger ≡ false)
            × (hub'.connected_clients ≡ hub.connected_clients)
            × (hub'.sockets ≡ hub.sockets))
        ⊎ ((r : ℕ) × (reorg ≡ some r)
            × (is_newer r hub.last_reorg_ledger ≡ true)
            × (hub'.last_reorg_ledger ≡ some r))

    abbrev Advances : Option ℕ → StreamHub W → StreamHub W → Type 0
    Advances reorg hub hub' =
        (hub'.known_ledger ≡ hub.known_ledger)
        × IsAhead hub.last_reorg_ledger hub'.last_reorg_ledger
        × Heeds reorg hub hub'

    fan_out-Advances :
        (channel : StreamChannel) (payload : Payload) (now : ℕ) (reorg : Option ℕ)
        (hub : StreamHub W)
        → Advances reorg hub (fan_out write channel payload now reorg hub)
    unfolding fan_out
    fan_out-Advances channel payload now none hub =
        let (known, last) = deliver_all-SameLedgers channel payload now hub.connected_clients hub in
        (known, IsAhead-same hub.last_reorg_ledger _ last, inl refl)
    fan_out-Advances channel payload now (some reorg) hub =
        if_elim (Advances (some reorg) hub) (is_newer reorg hub.last_reorg_ledger)
          (λ g.
            let (known, last) =
              deliver_all-SameLedgers channel payload now hub.connected_clients
                (record hub { last_reorg_ledger = some reorg }) in
            (
              known,
              IsAhead-after hub.last_reorg_ledger (some reorg) _ last
                  (newer-IsAhead reorg hub.last_reorg_ledger g),
              inr (inr (reorg, refl, g, last)),
            ))
          (λ g. (
            refl,
            IsAhead-same hub.last_reorg_ledger hub.last_reorg_ledger refl,
            inr (inl (reorg, refl, g, refl, refl)),
          ))

    -- If a notification is dispatched, no ledger that the process knows goes back; a reorg that is
    -- not newer than the last one reaches no client, and a newer one becomes the last.
    pub dispatch-IsAhead :
        (parse : String → Parsed) (channel : StreamChannel) (raw : Option String)
        (payload : Payload) (now : ℕ) (hub : StreamHub W) {hub' : StreamHub W}
        → parse_payload parse raw ≡ Parsed.value payload
        → dispatch_stream_notification write parse channel raw now hub ≡ ok hub'
        → IsAhead hub.known_ledger hub'.known_ledger
          × IsAhead hub.last_reorg_ledger hub'.last_reorg_ledger
          × Heeds (reorg_ledger_of payload) hub hub'
    unfolding dispatch_stream_notification dispatch_parsed
    dispatch-IsAhead parse channel raw payload now hub {hub'} parsed h =
        let next = record hub {
          known_ledger = advance_frontier (ledger_of payload) hub.known_ledger;
        } in
        let q : ◌≡◌ {A = Result TypeError (StreamHub W)}
            (ok (fan_out write channel payload now (reorg_ledger_of payload) next)) (ok hub') =
          (rw parsed at h) in
        let same : fan_out write channel payload now (reorg_ledger_of payload) next ≡ hub' = cc q in
        let (known, ahead, heeds) =
          fan_out-Advances channel payload now (reorg_ledger_of payload) next in
        rw (← same) (
          IsAhead-after hub.known_ledger next.known_ledger _ known
              (advance-IsAhead (ledger_of payload) hub.known_ledger),
          ahead,
          heeds,
        )
