-- ===== src/Tcp/Rx/Connection.antt =====
-- tcp.c: segments that `tcp_tx` made, as `tcp_rx` of the other end takes them.
use protocol_stack.Tcp.Rx.Find.{IsNoConnection}
use protocol_stack.Base.{
  none, get_elem?-lt, ◌∙◌, sym, false, ◌≢◌, ◌⊎◌, ℕ, ◌<◌, ◌≡◌, refl, arith, List, some, true,
  get_elem?, set,
}
use protocol_stack.Util.ByteOrder.{Endian}
use protocol_stack.Net.{Netif}
use protocol_stack.Tcp.Cb.{is_closed, TcpCb}
use protocol_stack.Tcp.Rx.{
  tcp_event_segment_arrives, is_connection, handle, on_iface, tcp_rx_valid, probe, TcpHdr,
}
use protocol_stack.Tcp.Rx.Laws.{get-kind, kind-get, tcp_rx_loop-found}

-- Free blocks are the others.
abbrev pub IsBusy : TcpCb → Type 0
IsBusy cb = (cb.used ≡ true) ⊎ (is_closed cb.state ≡ false)

-- The block is a connection with the peer, of the interface or of none yet.
pub record IsConnection (cb : TcpCb) (iface : Netif) (port peer_addr peer_port : ℕ) : Type 0 where
  pub busy : IsBusy cb
  pub iface_is : (cb.iface ≡ none) ⊎ (cb.iface ≡ some iface)
  pub port_is : cb.port ≡ port
  pub peer_addr_is : cb.peer_addr ≡ peer_addr
  pub peer_port_is : cb.peer_port ≡ peer_port

-- None of the first `i` blocks that are not free has these endpoints.
abbrev pub IsFirst : List TcpCb → ℕ → ℕ → ℕ → ℕ → Type 0
IsFirst table i port peer_addr peer_port =
    (j : ℕ) (c : TcpCb)
    → j < i
    → get_elem? table j ≡ some c
    → IsBusy c
    → c.port ≡ port
    → c.peer_addr ≡ peer_addr
    → c.peer_port ≢ peer_port

module _ (hdr : TcpHdr) (src : ℕ) (iface : Netif) where
  probe-connection :
      (cb : TcpCb)
      → IsConnection cb iface hdr.dst src hdr.src
      → probe hdr src iface cb ≡ is_connection
  unfolding probe on_iface
  probe-connection cb h = ground (arith, h)

  probe-connection_only :
      (cb : TcpCb)
      → probe hdr src iface cb ≡ is_connection
      → IsBusy cb × (cb.port ≡ hdr.dst) × (cb.peer_addr ≡ src) × (cb.peer_port ≡ hdr.src)
  unfolding probe on_iface
  probe-connection_only cb e = ground arith

  -- A valid segment of a connection is handled by the first block that has its endpoints, and changes no
  -- other.
  pub tcp_rx_valid-connection :
      (m : Endian) (table : List TcpCb) (len i : ℕ) (cb : TcpCb)
      → get_elem? table i ≡ some cb
      → IsConnection cb iface hdr.dst src hdr.src
      → IsFirst table i hdr.dst src hdr.src
      → tcp_rx_valid m table hdr len src iface ≡ (
        set table i (tcp_event_segment_arrives m cb hdr len).0,
        (tcp_event_segment_arrives m cb hdr len).1,
      )
  unfolding tcp_rx_valid handle
  tcp_rx_valid-connection m table len i cb at conn first =
      rw
        (
          tcp_rx_valid,
          tcp_rx_loop-found hdr src iface table i (get_elem?-lt table i at)
              (kind-get hdr src iface table i cb at ∙ probe-connection cb conn) none_before,
          handle,
          at,
        )
        refl
    where
      none_before : IsNoConnection hdr src iface table i
      none_before j lt e =
          let (c, there) = get-kind hdr src iface table j (λ o. cc) in
          let (busy, p, a, q) =
            probe-connection_only c (sym (kind-get hdr src iface table j c there) ∙ e) in
          first j c lt there busy p a q
