-- ===== src/Stream/Hub/Admission.antt =====
-- api/stream.ts, registerStreamEndpoint: the caps on open connections, and the numbers by address.
use ourdao_backend.Common.{
  ℕ, String, true, none, some, ◌+◌, ◌-◌, ◌≡◌, leb, if◌then◌else◌, ◌==◌, string_eq, nat_eq, refl,
  sym, ◌∙◌, ap, ==_cases, inl, inr, arith, if_elim,
}
use ourdao_backend.Common.Table.{
  Table, lookup, put, erase, has, IsUnique, IsUnique-put, IsUnique-erase, lookup-put_self,
  lookup-put_ne, lookup-erase_self, lookup-erase_ne, sum_of, sum_of-put_new, sum_of-erase,
}
use ourdao_backend.Stream.Client.{StreamClient, new_client, close}
use ourdao_backend.Stream.Hub.{
  StreamHub, count_or_zero, ip_connections, lower_count, untrack, settle, close_client, register,
}

-- 1 for a client of the address
abbrev pub is_of : String → StreamClient → ℕ
is_of ip c = if c.ip == ip then 1 else 0

module _ {W : Type 0} where
  -- No client or address stands twice, and each address has the number of its clients.
  pub record IsCounted (hub : StreamHub W) : Type 0 where
    pub unique_clients : IsUnique hub.connected_clients
    pub unique_counts : IsUnique hub.connections_by_ip
    pub counted :
        (ip : String)
        → ip_connections ip hub.connections_by_ip ≡ sum_of (is_of ip) hub.connected_clients

pub ip_connections-put :
    (a b : String) (n : ℕ) (counts : Table String ℕ)
    → ip_connections a (put b n counts) ≡ (if b == a then n else ip_connections a counts)
unfolding ip_connections count_or_zero
ip_connections-put a b n counts = elim (==_cases b a) [
  | inl (g, same) ↦ ground (arith, lookup-put_self a n counts, lookup-put_self b n counts)
  | inr (g, other) ↦ ground (arith, lookup-put_ne a b n counts (λ p. other (sym p)))
]

pub ip_connections-lower :
    (a b : String) (counts : Table String ℕ)
    → IsUnique counts
    → ip_connections a (lower_count b counts) ≡ ip_connections a counts - (if b == a then 1 else 0)
unfolding ip_connections count_or_zero lower_count
ip_connections-lower a b counts u =
    let n = ip_connections b counts - 1 in
    elim (==_cases b a) [
      | inl (g, same) ↦ ground (
        arith,
        lookup-put_self a n counts,
        lookup-put_self b n counts,
        lookup-erase_self a counts u,
        lookup-erase_self b counts u,
      )
      | inr (g, other) ↦ ground (
        arith,
        lookup-put_ne a b n counts (λ p. other (sym p)),
        lookup-erase_ne a b counts (λ p. other (sym p)),
      )
    ]

lower_count-IsUnique :
    (b : String) (counts : Table String ℕ) → IsUnique counts → IsUnique (lower_count b counts)
unfolding lower_count
lower_count-IsUnique b counts u =
    if_elim IsUnique (leb (ip_connections b counts) 1) (λ h. IsUnique-erase b counts u)
      (λ h. IsUnique-put b _ counts u)

close-released : (c : StreamClient) → ((close c).released ≡ true) × ((close c).ip ≡ c.ip)
unfolding close
close-released c =
    if_elim (λ (d : StreamClient). (d.released ≡ true) × (d.ip ≡ c.ip)) c.released (λ h. (h, refl))
      (λ h. (refl, refl))

registered_self : (x y n o : ℕ) → x ≡ n + 1 → y ≡ o + 1 → n ≡ o → x ≡ y
registered_self x y n o p q r = omega arith

registered_other : (x y n o : ℕ) → x ≡ n → y ≡ o + 0 → n ≡ o → x ≡ y
registered_other x y n o p q r = omega arith

lowered : (x y n o b : ℕ) → x ≡ n - b → y + b ≡ o → n ≡ o → x ≡ y
lowered x y n o b p q r = omega arith

module _ {W : Type 0} where
  -- a new connection, with the number of its address
  pub register-IsCounted :
      (id : ℕ) (ip : String) (n : ℕ) (hub : StreamHub W)
      → IsCounted hub
      → lookup id hub.connected_clients ≡ none
      → n ≡ ip_connections ip hub.connections_by_ip
      → IsCounted (register id ip n hub)
  unfolding register
  register-IsCounted id ip n hub v new same = record {
    unique_clients = IsUnique-put id (new_client ip) hub.connected_clients v.unique_clients;
    unique_counts = IsUnique-put ip (n + 1) hub.connections_by_ip v.unique_counts;
    counted = λ a.
        let raised = ip_connections-put a ip (n + 1) hub.connections_by_ip in
        let summed = sum_of-put_new (is_of a) id (new_client ip) hub.connected_clients new in
        let before = v.counted a in
        elim (==_cases ip a) [
          | inl (g, is_a) ↦
              registered_self _ _ _ _ (rw g at raised) (rw g at summed)
                (same ∙ ap (λ x. ip_connections x hub.connections_by_ip) is_a ∙ before)
          | inr (g, other) ↦ registered_other _ _ _ _ (rw g at raised) (rw g at summed) before
        ];
  }

  -- the trackers drop a connection that they have
  dropped-IsCounted :
      (id : ℕ) (c : StreamClient) (hub : StreamHub W)
      → IsCounted hub
      → lookup id hub.connected_clients ≡ some c
      → IsCounted (record hub {
        connected_clients = erase id hub.connected_clients;
        connections_by_ip = lower_count c.ip hub.connections_by_ip;
      })
  dropped-IsCounted id c hub v found = record {
    unique_clients = IsUnique-erase id hub.connected_clients v.unique_clients;
    unique_counts = lower_count-IsUnique c.ip hub.connections_by_ip v.unique_counts;
    counted = λ a.
        lowered _ _ _ _ _ (ip_connections-lower a c.ip hub.connections_by_ip v.unique_counts)
          (sum_of-erase (is_of a) id c hub.connected_clients found) (v.counted a);
  }

  pub untrack-IsCounted :
      (id : ℕ) (c : StreamClient) (hub : StreamHub W)
      → IsCounted hub
      → lookup id hub.connected_clients ≡ some c
      → IsCounted (untrack id c.ip hub)
  unfolding untrack
  untrack-IsCounted id c hub v found =
      if_elim IsCounted (has id hub.connected_clients) (λ h. dropped-IsCounted id c hub v found)
        (λ h. v)

  pub close_client-untracks :
      (id : ℕ) (c : StreamClient) (hub : StreamHub W)
      → close_client id (some c) hub ≡ untrack id c.ip hub
  unfolding close_client settle
  close_client-untracks id c hub =
      let (gone, same) = close-released c in
      if_elim (λ (h : StreamHub W). h ≡ untrack id c.ip hub) (close c).released
        (λ h. ap (λ ip. untrack id ip hub) same) (λ h. absurd (cc (h, gone)))
