-- ===== src/Ip/Rx.antt =====
-- ip.c: `ip_rx` up to the branch on fragments: the tests on the header, and what they leave.
pub mod Laws
use protocol_stack.Base.{
  ℕ, ◌+◌, ◌-◌, ◌*◌, ◌%◌, ◌^◌, Bool, true, false, not, ◌&&◌, ◌||◌, List, Option, none, some, ◌==◌,
  ltb, length, take, drop, bit_and, u16, if◌then◌else◌,
}
use protocol_stack.Base.Bits.{◌<<<◌, ◌>>>◌}
use protocol_stack.Util.ByteOrder.{Endian, ntoh16}
use protocol_stack.Util.Checksum.{cksum16}
use protocol_stack.Net.{Netif, Netdev, netdev_get_netif, netif_family_ipv4}
use protocol_stack.Ip.Header.{
  IpHdr, read_header, ip_version_ipv4, ip_hdr_size_min, ipaddr_broadcast,
}

-- The early returns, in the order of the source.
pub data Drop : Type 0 where
  too_short not_ipv4 bad_length bad_checksum dead no_interface not_ours : Drop

-- What goes on to reassembly or to the handlers: the header, the bytes from the payload on, and the
-- payload's length as a `size_t`.
pub record Accepted : Type 0 where
  pub hdr : IpHdr
  pub payload : List ℕ
  pub plen : ℕ
  pub netif : Netif
  pub fragmented : Bool

pub data Verdict : Type 0 where
  dropped : Drop → Verdict
  accepted : Accepted → Verdict

-- `a - b` of two numbers that fit an `int`, converted to a 64-bit `size_t`.
unfoldable pub size_sub : ℕ → ℕ → ℕ
size_sub a b = (a + 2 ^ 64 - b) % 2 ^ 64

unfoldable pub header_length : IpHdr → ℕ
header_length hdr = u16 (bit_and hdr.vhl 0x0f <<< 2)

-- `offset & 0x2000 || offset & 0x1ffff`
unfoldable pub is_fragmented : ℕ → Bool
is_fragmented offset = not (bit_and offset 0x2000 == 0) || not (bit_and offset 0x1ffff == 0)

-- The interface, and whether the datagram is for it. Forwarding is not implemented in the source.
unfoldable pub ip_rx_address : Endian → IpHdr → List ℕ → Option Netif → Verdict
ip_rx_address m hdr dgram none = dropped no_interface
ip_rx_address m hdr dgram (some netif) =
    if not (hdr.dst == netif.unicast)
      && (not (hdr.dst == netif.broadcast) && not (hdr.dst == ipaddr_broadcast))
    then dropped not_ours
    else accepted (record {
      hdr = hdr;
      payload = drop (header_length hdr) dgram;
      plen = size_sub (ntoh16 m hdr.len) (header_length hdr);
      netif = netif;
      fragmented = is_fragmented (ntoh16 m hdr.offset);
    })

unfoldable pub ip_rx_check : Endian → Netdev → List ℕ → Verdict
ip_rx_check m dev dgram =
    let hdr = read_header m dgram in
    let hlen = header_length hdr in
    if ltb (length dgram) ip_hdr_size_min
    then dropped too_short
    else if not ((hdr.vhl >>> 4) == ip_version_ipv4)
    then dropped not_ipv4
    else if ltb (length dgram) hlen || ltb (length dgram) (ntoh16 m hdr.len)
    then dropped bad_length
    else if not (cksum16 m (take hlen dgram) 0 == 0)
    then dropped bad_checksum
    else if hdr.ttl == 0
    then dropped dead
    else ip_rx_address m hdr dgram (netdev_get_netif dev netif_family_ipv4)
