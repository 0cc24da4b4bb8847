-- ===== src/Ip/Tx/Laws.antt =====
-- ip.c: what `ip_tx` sends, and that the receiver's `ip_rx` takes it.
use protocol_stack.Net.{netif_family_ipv4, netdev_get_netif}
use protocol_stack.Util.ByteOrder.{ntoh16}
use protocol_stack.Util.Checksum.Laws.{cksum16-lt}
use protocol_stack.Util.ByteOrder.Laws.{ntoh16-hton16, hton16-lt}
use protocol_stack.Ip.Rx.{
  is_fragmented, accepted, ip_rx_address, ip_rx_check, header_length, size_sub,
}
use protocol_stack.Ip.Header.RoundTrip.{Fits, read-write, cksum16-write}
use protocol_stack.Ip.Tx.Plan.{
  pieces-IsPiece, pieces-joined, ip_tx_loop-send_pieces, pieces, IsPiece, joined, send_pieces,
  Piece,
}
use protocol_stack.Base.{
  length-append, none, ◌==◌, ◌⊎◌, ◌∙◌, u16, if◌then◌else◌, some, Option, ℕ, suc, ◌+◌, ◌-◌, ◌%◌, ◌^◌,
  ◌<◌, ◌≡◌, ◌≤◌, refl, ap, arith, List, ◌++◌, take, drop, length, All,
}
use protocol_stack.Ip.Tx.{
  ip_tx_core, ipaddr_broadcast, write_header, cksum16, source_of, size_sub, max_payload,
  ip_tx_header, IpHdr, Sent, Netif, Netdev, ip_generate_id, Endian, Link, ip_tx,
}

-- The sends of `ip_tx` with what its call fixes.
abbrev pub send_of :
    {S : Type 0} → Link S → Endian → Netdev → Netif → ℕ → ℕ → ℕ → List ℕ → ℕ → S → Sent × S
send_of link m dev netif protocol dst id chunk offset s =
    let nexthop : Option ℕ = if dst == ipaddr_broadcast then none else some dst in
    let src : Option ℕ = if dst == ipaddr_broadcast then none else some netif.unicast in
    ip_tx_core link m dev netif protocol chunk src dst nexthop id offset s

-- The pieces that `ip_tx` cuts of a payload.
abbrev pub plan_of : Netdev → List ℕ → List Piece
plan_of dev buf = pieces (suc (length buf)) (dev.driver.mtu - 20) (length buf) 0

pub ip_tx-send_pieces :
    {S : Type 0} (link : Link S) (m : Endian) (dev : Netdev) (netif : Netif) (protocol : ℕ)
    (buf : List ℕ) (dst id : ℕ) (s : S)
    → 20 < dev.driver.mtu
    → dev.driver.mtu < 2 ^ 16
    → (ip_tx link m dev netif protocol buf dst id s).0
      ≡ send_pieces (send_of link m dev netif protocol dst id) buf (plan_of dev buf) s
unfolding ip_tx ip_generate_id
ip_tx-send_pieces link m dev netif protocol buf dst id s low high =
    let step : max_payload dev ≡ dev.driver.mtu - 20 = unfold max_payload size_sub in omega arith in
    rw step (
      ip_tx_loop-send_pieces (dev.driver.mtu - 20) (omega arith)
        (send_of link m dev netif protocol dst id) (suc (length buf)) buf 0 s (omega arith))

-- With an MTU over 20 `ip_tx` ends, and sends exactly the pieces of its payload in order, each under the same
-- identification, until one fails. Joined, the pieces are the payload; and if a full piece is a multiple of 8
-- bytes and the payload is at most 65536 bytes, each piece is nonempty, fits the device's packets, and has its
-- place and whether more follow in its offset field.
pub ip_tx_lem :
    {S : Type 0} (link : Link S) (m : Endian) (dev : Netdev) (netif : Netif) (protocol : ℕ)
    (buf : List ℕ) (dst id : ℕ) (s : S)
    → 20 < dev.driver.mtu
    → dev.driver.mtu < 2 ^ 16
    → (plan : List Piece) × ((ip_tx link m dev netif protocol buf dst id s).0
        ≡ send_pieces (send_of link m dev netif protocol dst id) buf plan s)
      × (joined buf plan ≡ buf)
      × ((dev.driver.mtu - 20) % 8 ≡ 0
          → length buf ≤ 65536
          → All (IsPiece (dev.driver.mtu - 20) (length buf)) plan)
ip_tx_lem link m dev netif protocol buf dst id s low high = (
  plan_of dev buf,
  ip_tx-send_pieces link m dev netif protocol buf dst id s low high,
  pieces-joined (dev.driver.mtu - 20) (omega arith) (suc (length buf)) buf 0 (omega arith),
  λ whole small.
      pieces-IsPiece (dev.driver.mtu - 20) (omega arith) (suc (length buf)) (length buf) 0 whole
        small (λ _. refl),
)

module _ (m : Endian) (netif : Netif) (protocol len id offset dst : ℕ) (src : Option ℕ)
    (hl : 20 + len < 2 ^ 16) (hp : protocol < 256) (hi : id < 2 ^ 16) (ho : offset < 2 ^ 16)
    (hd : dst < 2 ^ 32) (hs : source_of netif src < 2 ^ 32) where
  abbrev pub header : IpHdr
  header = ip_tx_header m netif protocol len src dst id offset

  header-Fits : Fits header
  unfolding ip_tx_header
  header-Fits = record {
    vhl = omega arith;
    tos = omega arith;
    len = hton16-lt m (u16 (20 + len)) (omega arith);
    id = hton16-lt m id hi;
    offset = hton16-lt m offset ho;
    ttl = omega arith;
    protocol = hp;
    sum = cksum16-lt m _ 0;
    src = hs;
    dst = hd;
  }

  pub header_fields :
      (header.vhl ≡ 69)
      × (header_length header ≡ 20)
      × (header.ttl ≡ 255)
      × (ntoh16 m header.len ≡ 20 + len)
      × (ntoh16 m header.offset ≡ offset)
      × (header.dst ≡ dst)
      × (cksum16 m (write_header m header) 0 ≡ 0)
  unfolding ip_tx_header header_length
  header_fields = (
    refl,
    refl,
    refl,
    ntoh16-hton16 m (u16 (20 + len)) (omega arith) ∙ omega arith,
    ntoh16-hton16 m offset ho,
    refl,
    cksum16-write m header header-Fits refl,
  )

  address_accepted :
      (n : Netif) (body dgram : List ℕ)
      → drop 20 dgram ≡ body
      → (dst ≡ n.unicast) ⊎ (dst ≡ n.broadcast) ⊎ (dst ≡ ipaddr_broadcast)
      → ip_rx_address m header dgram (some n)
        ≡ accepted (record {
          hdr = header;
          payload = body;
          plen = len;
          netif = n;
          fragmented = is_fragmented offset;
        })
  unfolding ip_rx_address size_sub
  address_accepted n body dgram back to_n =
      let (vhl, hlen, ttl, total, off, to, sum) = header_fields in
      ground
        (arith, hlen, total, off, to, back, ap (λ (k : ℕ). drop k dgram) hlen, ap is_fragmented off)

  -- A packet of `ip_tx_core`, with any padding after it, passes the tests of `ip_rx` on a device whose
  -- interface has the destination address or broadcasts to it. What is accepted is the payload with the
  -- padding, its true length, and whether the offset field counts as a fragment's.
  pub ip_rx_check-ip_tx_header :
      (receiver : Netdev) (n : Netif) (buf padding : List ℕ)
      → length buf ≡ len
      → netdev_get_netif receiver netif_family_ipv4 ≡ some n
      → (dst ≡ n.unicast) ⊎ (dst ≡ n.broadcast) ⊎ (dst ≡ ipaddr_broadcast)
      → ip_rx_check m receiver (write_header m header ++ (buf ++ padding))
        ≡ accepted (record {
          hdr = header;
          payload = buf ++ padding;
          plen = len;
          netif = n;
          fragmented = is_fragmented offset;
        })
  unfolding ip_rx_check ip_rx_address
  ip_rx_check-ip_tx_header receiver n buf padding size here to_n =
      let (read, front, back, whole) = read-write m header (buf ++ padding) header-Fits in
      let (vhl, hlen, ttl, total, off, to, sum) = header_fields in
      rw (read, ip_rx_check)
        (ground (
          arith,
          vhl,
          hlen,
          ttl,
          total,
          sum,
          whole,
          front,
          here,
          ap (λ (k : ℕ). take k (write_header m header ++ (buf ++ padding))) hlen,
          length-append buf padding,
          address_accepted n (buf ++ padding) (write_header m header ++ (buf ++ padding)) back to_n,
        ))
