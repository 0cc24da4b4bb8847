-- ===== src/Tcp/Rx.antt =====
-- tcp.c: `tcp_rx`, the search of the table and the block for a new peer.
pub mod Find
pub mod Laws
pub mod Connection
pub mod Handshake
pub mod Refused
use protocol_stack.Base.{
  ℕ, suc, ◌+◌, Bool, true, false, not, ◌&&◌, List, [], ◌∷◌, Option, none, some, ◌==◌, ltb, length,
  get_elem?, set, bit_and, u16, if◌then◌else◌,
}
use protocol_stack.Base.Bits.{◌>>>◌}
use protocol_stack.Util.ByteOrder.{Endian, hton16}
use protocol_stack.Util.Checksum.{cksum16}
use protocol_stack.Net.{Netif}
use protocol_stack.Ip.Header.{ip_protocol_tcp}
use protocol_stack.Tcp.Cb.{TcpCb, is_closed, is_listen, window_size}
use protocol_stack.Tcp.Segment.{TcpHdr, Action, quiet, read_tcp_hdr, tcp_hdr_size}
use protocol_stack.Tcp.Event.{tcp_event_segment_arrives}

-- The pseudo header's part of the checksum, as `tcp_rx` adds it up for a segment of `len` bytes.
unfoldable pub tcp_rx_pseudo : Endian → ℕ → ℕ → ℕ → ℕ
tcp_rx_pseudo m src dst len =
    (src >>> 16)
    + bit_and src 0xffff
    + (dst >>> 16)
    + bit_and dst 0xffff
    + hton16 m ip_protocol_tcp
    + hton16 m (u16 len)

-- What the loop makes of one control block.
pub data Probe : Type 0 where
  is_free is_connection is_listener is_other : Probe

-- `!cb->iface || cb->iface == iface`
unfoldable pub on_iface : Option Netif → Netif → Bool
on_iface none iface = true
on_iface (some n) iface = n.id == iface.id

unfoldable pub probe : TcpHdr → ℕ → Netif → TcpCb → Probe
probe hdr src iface cb =
    if not cb.used && is_closed cb.state
    then is_free
    else if on_iface cb.iface iface && cb.port == hdr.dst
    then (if cb.peer_addr == src && cb.peer_port == hdr.src
        then is_connection
        else if is_listen cb.state
        then is_listener
        else is_other)
    else is_other

-- `found` is a loop that breaks; `searched` holds `fcb` and `lcb` of one that comes to its end.
pub data Search : Type 0 where
  found : ℕ → Search
  searched : Option ℕ → Option ℕ → Search

-- `lcb` is set once.
unfoldable pub first_listener : Option ℕ → ℕ → Option ℕ
first_listener none i = some i
first_listener (some j) i = some j

module _ (hdr : TcpHdr) (src : ℕ) (iface : Netif) where
  unfoldable pub tcp_rx_loop : List TcpCb → ℕ → Option ℕ → Option ℕ → Search
  tcp_rx_loop [] i fcb lcb = searched fcb lcb
  tcp_rx_loop (cb ∷ rest) i fcb lcb = elim (probe hdr src iface cb) [
    | is_free ↦ tcp_rx_loop rest (suc i) (some i) lcb
    | is_connection ↦ found i
    | is_listener ↦ tcp_rx_loop rest (suc i) fcb (first_listener lcb i)
    | is_other ↦ tcp_rx_loop rest (suc i) fcb lcb
  ]

  -- The free block as the accept socket of a listener, or for a segment that no one expects.
  unfoldable pub take_free : TcpCb → Option ℕ → Option TcpCb → TcpCb
  take_free cb lcb (some l) = record cb {
    iface = some iface;
    used = true;
    state = l.state;
    port = l.port;
    rcv_wnd = window_size;
    parent = lcb;
    peer_addr = src;
    peer_port = hdr.src;
  }
  take_free cb lcb none = record cb {
    iface = some iface;
    used = false;
    port = 0;
    rcv_wnd = 0;
    peer_addr = src;
    peer_port = hdr.src;
  }

-- `lcb ? *lcb : NULL`
unfoldable pub listener : List TcpCb → Option ℕ → Option TcpCb
listener table none = none
listener table (some i) = get_elem? table i

-- The block at `i`, changed by `prepare`, handles the segment.
unfoldable pub handle : Endian → List TcpCb → TcpHdr → ℕ → ℕ → (TcpCb → TcpCb) → List TcpCb × Action
handle m table hdr len i prepare = elim (get_elem? table i) [
  | none ↦ (table, quiet)
  | some cb ↦
      let (cb', action) = tcp_event_segment_arrives m (prepare cb) hdr len in
      (set table i cb', action)
]

unfoldable pub tcp_rx_valid : Endian → List TcpCb → TcpHdr → ℕ → ℕ → Netif → List TcpCb × Action
tcp_rx_valid m table hdr len src iface = elim (tcp_rx_loop hdr src iface table 0 none none) [
  | found i ↦ handle m table hdr len i (λ cb. cb)
  | searched none lcb ↦ (table, quiet)
  | searched (some i) lcb ↦
      handle m table hdr len i (λ cb. take_free hdr src iface cb lcb (listener table lcb))
]

-- `segment` has the `len` bytes from the pointer on.
unfoldable pub tcp_rx : Endian → List TcpCb → List ℕ → ℕ → ℕ → Netif → List TcpCb × Action
tcp_rx m table segment src dst iface =
    if dst == iface.unicast
    then (if ltb (length segment) tcp_hdr_size
        then (table, quiet)
        else if cksum16 m segment (tcp_rx_pseudo m src dst (length segment)) == 0
        then tcp_rx_valid m table (read_tcp_hdr m segment) (length segment) src iface
        else (table, quiet))
    else (table, quiet)
