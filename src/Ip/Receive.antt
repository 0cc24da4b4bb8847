-- ===== src/Ip/Receive.antt =====
-- ip.c: `ip_rx` as a whole: the tests, reassembly, and the handler of the protocol.
pub mod Datagrams
pub mod Sent
pub mod Packets
use protocol_stack.Ip.Protocol.{ip_dispatch, IpProtocol}
use protocol_stack.Net.{Netdev}
use protocol_stack.Util.ByteOrder.{Endian}
use protocol_stack.Ip.Rx.{ip_rx_check, Accepted, accepted, dropped}
use protocol_stack.Ip.Fragment.Process.{
  patrol_crash, ip_fragment_process, Chunk, Clock, Reassembly, Stored, pending, broken, completed,
}
use protocol_stack.Base.{Option, List, false, true, ℕ, ◌+◌}

-- The state after a call; `rx_crash` and `rx_broken` are what `ip_fragment_process` came to.
pub data IpRx (S : Type 0) : Type 0 where
  rx_crash : IpRx S
  rx_broken : Stored → IpRx S
  rx_done : Reassembly → S → IpRx S

module _ {S : Type 0} (m : Endian) (dev : Netdev) (protocols : List (IpProtocol S)) where
  -- What a handler is given of an accepted datagram: its own payload, or the buffer of the object.
  unfoldable pub ip_rx_deliver : Accepted → List ℕ → ℕ → S → S
  ip_rx_deliver a payload plen s =
      ip_dispatch protocols a.hdr.protocol
        (record {
          payload = payload;
          plen = plen;
          src = a.hdr.src;
          dst = a.hdr.dst;
          netif = a.netif;
        })
        s

  unfoldable pub ip_rx_accepted : Clock → Option Chunk → Accepted → Reassembly → S → IpRx S
  ip_rx_accepted clock chunk a st s = elim a.fragmented [
    | false ↦ rx_done st (ip_rx_deliver a a.payload a.plen s)
    | true ↦ elim (ip_fragment_process m clock a.hdr a.payload a.plen chunk st) [
      | patrol_crash ↦ rx_crash
      | broken bad ↦ rx_broken bad
      | pending st' ↦ rx_done st' s
      | completed f st' ↦ rx_done st' (ip_rx_deliver a f.bytes f.len s)
    ]
  ]

  unfoldable pub ip_rx : Clock → Option Chunk → List ℕ → Reassembly → S → IpRx S
  ip_rx clock chunk dgram st s = elim (ip_rx_check m dev dgram) [
    | dropped _ ↦ rx_done st s
    | accepted a ↦ ip_rx_accepted clock chunk a st s
  ]
