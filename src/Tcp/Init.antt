-- ===== src/Tcp/Init.antt =====
-- tcp.c: `tcp_init`, and the way of a segment from the sender's `ip_tx` to `tcp_rx`. The state that IP's
-- handlers act on is the table of control blocks and what `tcp_tx` has been called with.
use protocol_stack.Ip.Receive.{rx_done, ip_rx_deliver, ip_rx_accepted, ip_rx}
use protocol_stack.Ip.Fragment.Process.{Reassembly, Chunk, Clock}
use protocol_stack.Base.{
  length-append, ltb, Bool, if◌then◌else◌, true, inl, false, ℕ, ◌+◌, ◌^◌, ◌<◌, ◌≡◌, refl, ap, ◌∙◌,
  arith, List, [], ◌∷◌, ◌++◌, Option, some, take, length, take_prefix,
}
use protocol_stack.Util.ByteOrder.{Endian}
use protocol_stack.Net.{Netif, Netdev, netdev_get_netif, netif_family_ipv4}
use protocol_stack.Ip.Header.{write_header, ip_protocol_tcp}
use protocol_stack.Ip.Protocol.{
  AddProtocol, added, Delivery, IpProtocol, ip_add_protocol, ip_dispatch-add,
}
use protocol_stack.Ip.Rx.{Accepted, accepted, ip_rx_check, is_fragmented}
use protocol_stack.Ip.Tx.{ip_tx_header}
use protocol_stack.Ip.Tx.Laws.{ip_rx_check-ip_tx_header}
use protocol_stack.Tcp.Cb.{TcpCb}
use protocol_stack.Tcp.Segment.{over_read, Action}
use protocol_stack.Tcp.Rx.{tcp_rx}

pub record Tcp : Type 0 where
  pub table : List TcpCb
  pub actions : List Action

-- `tcp_rx` as the handler of IP: it reads `plen` bytes from the payload on, which may be more than there are.
unfoldable pub tcp_handler : Endian → Delivery → Tcp → Tcp
tcp_handler m d s =
    if ltb (length d.payload) d.plen
    then record s { actions = s.actions ++ (over_read ∷ []) }
    else (let (table, action) = tcp_rx m s.table (take d.plen d.payload) d.src d.dst d.netif in
        record { table = table; actions = s.actions ++ (action ∷ []) })

unfoldable pub tcp_init : Endian → Bool → List (IpProtocol Tcp) → AddProtocol Tcp
tcp_init m malloc_ok protocols = ip_add_protocol ip_protocol_tcp (tcp_handler m) malloc_ok protocols

module _ (m : Endian) (protocols protocols' : List (IpProtocol Tcp))
    (init : tcp_init m true protocols ≡ added protocols') (netif : Netif) (segment padding : List ℕ)
    (id : ℕ) (receiver : Netdev) (n : Netif) (clock : Clock) (chunk : Option Chunk)
    (st : Reassembly) (s : Tcp) (hl : 20 + length segment < 2 ^ 16) (hi : id < 2 ^ 16)
    (hu : netif.unicast < 2 ^ 32) (hd : n.unicast < 2 ^ 32)
    (here : netdev_get_netif receiver netif_family_ipv4 ≡ some n) where
  -- The packet in which `ip_tx_core` puts a whole segment.
  abbrev pub segment_packet : List ℕ
  segment_packet =
      write_header m
        (ip_tx_header m netif ip_protocol_tcp (length segment) (some netif.unicast) n.unicast id 0)
      ++ (segment ++ padding)

  -- `tcp_rx` has been called with the segment alone, both addresses and the interface.
  abbrev pub handled_segment : Tcp
  handled_segment = record {
    table = (tcp_rx m s.table segment netif.unicast n.unicast n).0;
    actions = s.actions ++ ((tcp_rx m s.table segment netif.unicast n.unicast n).1 ∷ []);
  }

  whole_segment :
      (d : Delivery)
      → d.payload ≡ segment ++ padding
      → d.plen ≡ length segment
      → d.src ≡ netif.unicast
      → d.dst ≡ n.unicast
      → d.netif ≡ n
      → tcp_handler m d s ≡ handled_segment
  unfolding tcp_handler
  whole_segment d payload plen src dst on =
      let whole : ltb (length (segment ++ padding)) (length segment) ≡ false =
        ground (arith, length-append segment padding) in
      rw (payload, plen, src, dst, on, whole, take_prefix segment padding) refl

  -- After a successful `tcp_init`, for a segment that fits an IP packet: `ip_rx`, on the device whose interface
  -- has the destination address, of the packet in which `ip_tx_core` puts the whole segment, with any padding,
  -- leaves reassembly as it was and calls `tcp_rx` with the segment alone, both addresses and the interface.
  pub tcp_init-delivers :
      ip_rx m receiver protocols' clock chunk segment_packet st s ≡ rx_done st handled_segment
  unfolding tcp_init ip_tx_header is_fragmented ip_rx ip_rx_accepted ip_rx_deliver
  tcp_init-delivers =
      let a : Accepted = record {
        hdr =
            ip_tx_header m netif ip_protocol_tcp (length segment) (some netif.unicast) n.unicast id
              0;
        payload = segment ++ padding;
        plen = length segment;
        netif = n;
        fragmented = is_fragmented 0;
      } in
      let d : Delivery = record {
        payload = segment ++ padding;
        plen = length segment;
        src = netif.unicast;
        dst = n.unicast;
        netif = n;
      } in
      let (_, handled, _) =
        ip_dispatch-add ip_protocol_tcp (tcp_handler m) protocols protocols' d s init in
      let passes : ip_rx_check m receiver segment_packet ≡ accepted a =
        ip_rx_check-ip_tx_header m netif ip_protocol_tcp (length segment) id 0 n.unicast
          (some netif.unicast) hl (omega arith) hi (omega arith) hd hu receiver n segment padding
          refl here (inl refl) in
      rw (ip_rx, passes) (ap (rx_done st) (handled ∙ whole_segment d refl refl refl refl refl))
