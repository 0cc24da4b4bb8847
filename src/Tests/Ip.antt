-- ===== src/Tests/Ip.antt =====
-- ip.c at concrete inputs.
use protocol_stack.Ip.Netif.{
  ip_netif_by_addr_lem, has_addr, netif_loop, IsNetifAt, ip_netif_by_addr,
}
use protocol_stack.Ip.Protocol.{add_refused, ip_dispatch-add, ip_dispatch, ip_add_protocol}
use protocol_stack.Util.Checksum.{cksum16}
use protocol_stack.Base.Registry.{find}
use protocol_stack.Ip.Header.{read_header, write_header}
use protocol_stack.Net.{Netif, netdev_get_netif}
use protocol_stack.Util.ByteOrder.{load32, load16, ntoh16, little}
use protocol_stack.Base.{
  ◌⊎◌, false, take, ◌^◌, ℕ, ◌+◌, ◌-◌, ◌≡◌, ◌≢◌, ◌≤◌, ◌<◌, ◌%◌, refl, arith, inl, List, [], ◌∷◌,
  ◌++◌, true, some, none, length, replicate, All, ◌↔◌,
}
use protocol_stack.Ip.Tx.{resolve_found, Link, ip_tx, ip_tx_header}
use protocol_stack.Ip.Tx.Plan.{Piece, joined, IsPiece, send_pieces}
use protocol_stack.Ip.Tx.Laws.{ip_tx_lem, send_of, ip_rx_check-ip_tx_header}
use protocol_stack.Ip.Rx.{
  size_sub, header_length, ip_rx_address, Accepted, ip_rx_check, accepted, is_fragmented,
}
use protocol_stack.Ip.Rx.Laws.{ip_rx_check-accepted, accepted-plen, is_fragmented_iff}
use protocol_stack.Tests.Data.{dev_a, dev_b, netif_a, netif_b, hello}

-- A link that keeps the packets, newest first.
abbrev recorder : Link (List (List ℕ))
recorder = record {
  resolve = λ dst packet s. (resolve_found (2 ∷ 0 ∷ 0 ∷ 0 ∷ 0 ∷ 10 ∷ []), s);
  tx = λ type packet ha s. (some (length packet), packet ∷ s);
}

ip_tx_lem_example :
    (plan : List Piece) × ((ip_tx recorder little dev_a netif_a 255 hello netif_b.unicast 128 []).0
      ≡ send_pieces (send_of recorder little dev_a netif_a 255 netif_b.unicast 128) hello plan [])
    × (joined hello plan ≡ hello)
    × ((1500 - 20) % 8 ≡ 0 → length hello ≤ 65536 → All (IsPiece (1500 - 20) (length hello)) plan)
ip_tx_lem_example =
    ip_tx_lem recorder little dev_a netif_a 255 hello netif_b.unicast 128 [] (omega arith)
      (omega arith)

ip_rx_check-ip_tx_header_example :
    ip_rx_check little dev_b (
      write_header little
        (ip_tx_header little netif_a 255 5 (some netif_a.unicast) netif_b.unicast 128 0)
      ++ (hello ++ replicate 21 0))
    ≡ accepted (record {
      hdr = ip_tx_header little netif_a 255 5 (some netif_a.unicast) netif_b.unicast 128 0;
      payload = hello ++ replicate 21 0;
      plen = 5;
      netif = netif_b;
      fragmented = is_fragmented 0;
    })
unfolding netdev_get_netif
ip_rx_check-ip_tx_header_example =
    ip_rx_check-ip_tx_header little netif_a 255 5 128 0 netif_b.unicast (some netif_a.unicast)
      (omega arith) (omega arith) (omega arith) (omega arith) (omega arith) (omega arith) dev_b
      netif_b hello (replicate 21 0) refl (unfold find in refl) (inl refl)

is_fragmented_iff_runs : (is_fragmented 0x4000 ≡ true) ↔ (◌≢◌ {A = ℕ} 0x4000 0)
is_fragmented_iff_runs = is_fragmented_iff 0x4000 (omega arith)

-- A datagram whose stated length, 10, is less than its header.
abbrev short_dgram : List ℕ
short_dgram =
    0x45 ∷ 0 ∷ 0 ∷ 10 ∷ 0 ∷ 0 ∷ 0 ∷ 0 ∷ 64 ∷ 6 ∷ 183 ∷ 136 ∷ 192 ∷ 168 ∷ 33 ∷ 11 ∷ 192 ∷ 168 ∷ 33
    ∷ 10 ∷ hello

abbrev short_accepted : Accepted
short_accepted = record {
  hdr = record {
    vhl = 0x45;
    tos = 0;
    len = 0x0a00;
    id = 0;
    offset = 0;
    ttl = 64;
    protocol = 6;
    sum = 34999;
    src = netif_a.unicast;
    dst = netif_b.unicast;
  };
  payload = hello;
  plen = 2 ^ 64 - 10;
  netif = netif_b;
  fragmented = false;
}

short_is_accepted : ip_rx_check little dev_b short_dgram ≡ accepted short_accepted
unfolding ip_rx_check ip_rx_address read_header header_length size_sub is_fragmented cksum16
    netdev_get_netif load16 load32 ntoh16
short_is_accepted = refl

accepted-plen_example :
    (header_length short_accepted.hdr ≤ ntoh16 little short_accepted.hdr.len
      → (short_accepted.plen
          ≡ ntoh16 little short_accepted.hdr.len - header_length short_accepted.hdr)
        × (short_accepted.plen ≤ 5))
    × (ntoh16 little short_accepted.hdr.len < header_length short_accepted.hdr
        → 25 < short_accepted.plen)
accepted-plen_example =
    accepted-plen little dev_b short_dgram short_accepted (omega arith) short_is_accepted

ip_rx_check-accepted_runs :
    cksum16 little (take (header_length short_accepted.hdr) short_dgram) 0 ≡ 0
ip_rx_check-accepted_runs =
    (ip_rx_check-accepted little dev_b short_dgram short_accepted short_is_accepted).4

ip_dispatch-add_runs :
    (ip_add_protocol {S = ℕ} 6
        (λ d s. s + d.plen)
        true
        (record { type = 6; handler = λ d s. s + d.plen } ∷ [])
      ≡ add_refused)
    × (ip_dispatch {S = ℕ}
          (record { type = 6; handler = λ d s. s + d.plen } ∷ [])
          6
          (record { payload = hello; plen = 5; src = 1; dst = 2; netif = netif_b })
          10
        ≡ 15)
    × ((other : ℕ)
        → other ≢ 6
        → ip_dispatch {S = ℕ}
            (record { type = 6; handler = λ d s. s + d.plen } ∷ [])
            other
            (record { payload = hello; plen = 5; src = 1; dst = 2; netif = netif_b })
            10
          ≡ ip_dispatch [] other
              (record { payload = hello; plen = 5; src = 1; dst = 2; netif = netif_b })
              10)
unfolding ip_add_protocol
ip_dispatch-add_runs =
    ip_dispatch-add 6 (λ d s. s + d.plen) [] (record { type = 6; handler = λ d s. s + d.plen } ∷ [])
      (record { payload = hello; plen = 5; src = 1; dst = 2; netif = netif_b }) 10
      (unfold find in refl)

ip_netif_by_addr_lem_runs :
    ((i j : ℕ) × (netif : Netif) × IsNetifAt (dev_a ∷ dev_b ∷ []) i j netif
      × (has_addr netif_b.unicast netif ≡ true)
      × (ip_netif_by_addr netif_b.unicast (dev_a ∷ dev_b ∷ []) ≡ some netif))
    ⊎ (((i j : ℕ) (netif : Netif)
          → IsNetifAt (dev_a ∷ dev_b ∷ []) i j netif
          → has_addr netif_b.unicast netif ≡ false)
        × (ip_netif_by_addr netif_b.unicast (dev_a ∷ dev_b ∷ []) ≡ none))
ip_netif_by_addr_lem_runs = ip_netif_by_addr_lem netif_b.unicast (dev_a ∷ dev_b ∷ [])

-- The second device's interface is found.
netif_b_found : ip_netif_by_addr netif_b.unicast (dev_a ∷ dev_b ∷ []) ≡ some netif_b
unfolding ip_netif_by_addr netif_loop has_addr
netif_b_found = refl
