-- ===== src/Ip/Rx/Laws.antt =====
-- ip.c: `ip_rx`, what an accepted datagram has passed, and what its tests leave out.
use protocol_stack.Base.{
  ◌⊎◌, some, length-drop, ℕ, ◌-◌, ◌^◌, ◌<◌, ◌≡◌, ◌≢◌, ◌≤◌, ap, arith, List, take, drop, length,
  bit_and, true, ◌↔◌,
}
use protocol_stack.Base.Bits.{bit_and_mask}
use protocol_stack.Util.ByteOrder.{Endian, ntoh16}
use protocol_stack.Ip.Header.{IpHdr, read_header, ipaddr_broadcast}
use protocol_stack.Ip.Rx.{
  netif_family_ipv4, netdev_get_netif, cksum16, Netdev, Accepted, accepted, header_length,
  is_fragmented, ip_rx_check, ip_rx_address, size_sub,
}

-- An accepted datagram holds its header and its stated length, has a header checksum of 0 and a time to
-- live, and is for the device's IPv4 interface, by its address or by broadcast.
pub ip_rx_check-accepted :
    (m : Endian) (dev : Netdev) (dgram : List ℕ) (a : Accepted)
    → ip_rx_check m dev dgram ≡ accepted a
    → (a.hdr ≡ read_header m dgram)
      × (20 ≤ length dgram)
      × (header_length a.hdr ≤ length dgram)
      × (ntoh16 m a.hdr.len ≤ length dgram)
      × (cksum16 m (take (header_length a.hdr) dgram) 0 ≡ 0)
      × (a.hdr.ttl ≢ 0)
      × (netdev_get_netif dev netif_family_ipv4 ≡ some a.netif)
      × ((a.hdr.dst ≡ a.netif.unicast)
          ⊎ (a.hdr.dst ≡ a.netif.broadcast)
          ⊎ (a.hdr.dst ≡ ipaddr_broadcast))
unfolding ip_rx_check ip_rx_address
ip_rx_check-accepted m dev dgram a e = ground arith

accepted_parts :
    (m : Endian) (dev : Netdev) (dgram : List ℕ) (a : Accepted)
    → ip_rx_check m dev dgram ≡ accepted a
    → (a.plen ≡ size_sub (ntoh16 m a.hdr.len) (header_length a.hdr))
      × (a.payload ≡ drop (header_length a.hdr) dgram)
      × (ntoh16 m a.hdr.len ≤ length dgram)
unfolding ip_rx_check ip_rx_address
accepted_parts m dev dgram a e = ground arith

header_length-lt : (hdr : IpHdr) → header_length hdr < 64
unfolding header_length
header_length-lt hdr = omega (arith, bit_and_mask 4 hdr.vhl)

-- The payload's length. If the stated length covers the header, it is the rest, and the datagram holds
-- that many bytes. No test keeps the stated length from being less than the header's: then the
-- subtraction wraps, and the length is more than the whole datagram's.
pub accepted-plen :
    (m : Endian) (dev : Netdev) (dgram : List ℕ) (a : Accepted)
    → length dgram < 2 ^ 63
    → ip_rx_check m dev dgram ≡ accepted a
    → (header_length a.hdr ≤ ntoh16 m a.hdr.len
        → (a.plen ≡ ntoh16 m a.hdr.len - header_length a.hdr) × (a.plen ≤ length a.payload))
      × (ntoh16 m a.hdr.len < header_length a.hdr → length dgram < a.plen)
unfolding size_sub
accepted-plen m dev dgram a small e =
    let (plen, payload, held) = accepted_parts m dev dgram a e in
    let short = header_length-lt a.hdr in
    let rest = length-drop (header_length a.hdr) dgram in
    (λ covers. (omega arith, omega (arith, ap length payload)), λ lacks. omega arith)

-- Every nonzero offset field counts as a fragment's: also one that holds only the flag 0x4000, "don't
-- fragment", since the mask has a digit too many.
pub is_fragmented_iff :
    (offset : ℕ) → offset < 2 ^ 16 → (is_fragmented offset ≡ true) ↔ (offset ≢ 0)
unfolding is_fragmented
is_fragmented_iff offset h =
    ground (arith, bit_and_mask 17 offset, ap (λ (x : ℕ). bit_and x 0x2000))
