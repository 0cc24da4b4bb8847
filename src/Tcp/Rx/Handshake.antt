-- ===== src/Tcp/Rx/Handshake.antt =====
-- tcp.c: the end of an active open, from the segment that the server's `tcp_tx` makes.
use protocol_stack.Tcp.Event.Laws.{arrives-syn_sent_lem}
use protocol_stack.Util.ByteOrder.Laws.{ntoh32-hton32}
use protocol_stack.Base.{
  ap, inr, sym, ◌∙◌, subst, ℕ, ◌+◌, ◌%◌, ◌^◌, ◌<◌, ◌≡◌, refl, arith, List, [], some, length,
  get_elem?, set, u32, bit_or,
}
use protocol_stack.Util.ByteOrder.{Endian}
use protocol_stack.Net.{Netif}
use protocol_stack.Tcp.Cb.{TcpCb, syn_sent, established}
use protocol_stack.Tcp.Segment.{
  tcp_flg_isset, tcp_tx, tcp_segment, tcp_tx_hdr, tcp_flg_ack, tcp_flg_syn,
}
use protocol_stack.Tcp.Segment.Checksum.{IsCb, tcp_segment-verifies, read-tcp_segment}
use protocol_stack.Tcp.Rx.{tcp_rx_valid, tcp_rx_pseudo, cksum16, tcp_rx}
use protocol_stack.Tcp.Rx.Laws.{IsForUs, tcp_rx-passes}
use protocol_stack.Tcp.Rx.Connection.{IsFirst, IsConnection, tcp_rx_valid-connection}

-- The server's block has the same endpoints from the other side, and its segment passes the checksum.
pub record IsPeer (server cb : TcpCb) (iface : Netif) : Type 0 where
  pub fits : IsCb server
  pub port : server.port ≡ cb.peer_port
  pub peer_port : server.peer_port ≡ cb.port
  pub peer_addr : server.peer_addr ≡ iface.unicast
  pub addr : cb.peer_addr < 2 ^ 32
  pub halves : cb.peer_addr % 65536 % 65535 ≡ iface.unicast % 65536 % 65535

abbrev pub syn_ack : ℕ
syn_ack = bit_or tcp_flg_syn tcp_flg_ack

-- The client's block after the handshake.
abbrev pub opened : TcpCb → ℕ → TcpCb
opened cb server_iss = record cb {
  state = established;
  rcv_nxt = u32 (server_iss + 1);
  irs = server_iss;
  snd_una = cb.iss + 1;
}

module _ (m : Endian) (table : List TcpCb) (i : ℕ) (cb server : TcpCb) (iface : Netif)
    (server_iss : ℕ) (at : get_elem? table i ≡ some cb)
    (conn : IsConnection cb iface cb.port cb.peer_addr cb.peer_port)
    (first : IsFirst table i cb.port cb.peer_addr cb.peer_port) (state : cb.state ≡ syn_sent)
    (una : cb.snd_una ≡ cb.iss) (nxt : cb.snd_nxt ≡ cb.iss + 1) (iss : cb.iss + 1 < 2 ^ 32)
    (siss : server_iss < 2 ^ 32) (peer : IsPeer server cb iface) where
  abbrev segment : List ℕ
  segment = tcp_segment m cb.peer_addr server server_iss (cb.iss + 1) syn_ack []

  segment-IsForUs : IsForUs m segment cb.peer_addr iface.unicast iface
  segment-IsForUs =
      let verifies =
        tcp_segment-verifies m cb.peer_addr server server_iss (cb.iss + 1) syn_ack [] peer.addr
          peer.fits siss iss (omega arith) tt (omega arith) in
      let (_, _, size) =
        read-tcp_segment m cb.peer_addr server server_iss (cb.iss + 1) syn_ack [] peer.addr
          peer.fits siss iss (omega arith) tt (omega arith) in
      (
        refl,
        omega (arith, size),
        subst (λ a. cksum16 m segment (tcp_rx_pseudo m cb.peer_addr a (length segment)) ≡ 0)
            peer.peer_addr
            (verifies.1 (
              subst (λ a. cb.peer_addr % 65536 % 65535 ≡ a % 65536 % 65535) (sym peer.peer_addr)
                peer.halves)),
      )

  -- For a block in SYN_SENT with only its SYN unacknowledged, the first that is not free with its
  -- endpoints, the SYN and ACK that `tcp_tx` makes from a server's block with the same endpoints, when the
  -- low halves of the addresses agree by their remainder by 65535, makes `tcp_rx` open the connection: the
  -- block becomes ESTABLISHED with the server's sequence number, an ACK goes to the server, and no other
  -- block changes.
  pub tcp_rx-syn_ack : tcp_rx m table segment cb.peer_addr iface.unicast iface ≡ (
    set table i (opened cb server_iss),
    tcp_tx m (opened cb server_iss) (cb.iss + 1) (u32 (server_iss + 1)) tcp_flg_ack [],
  )
  unfolding tcp_tx_hdr tcp_flg_isset
  tcp_rx-syn_ack =
      let (sum, read, size) =
        read-tcp_segment m cb.peer_addr server server_iss (cb.iss + 1) syn_ack [] peer.addr
          peer.fits siss iss (omega arith) tt (omega arith) in
      let hdr = record (tcp_tx_hdr m server server_iss (cb.iss + 1) syn_ack) { sum = sum } in
      let here : IsConnection cb iface hdr.dst cb.peer_addr hdr.src = record {
        busy = conn.busy;
        iface_is = conn.iface_is;
        port_is = sym peer.peer_port;
        peer_addr_is = refl;
        peer_port_is = sym peer.port;
      } in
      let handled =
        tcp_rx_valid-connection hdr cb.peer_addr iface m table (length segment) i cb at here
          (λ j c lt there busy p a q.
            first j c lt there busy (p ∙ peer.peer_port) a (q ∙ peer.port)) in
      let acknowledged = ntoh32-hton32 m (cb.iss + 1) iss in
      let (over, _) =
        (arrives-syn_sent_lem m cb hdr (length segment) state una nxt).3 (inr acknowledged) refl
          refl in
      tcp_rx-passes m table segment cb.peer_addr iface.unicast iface segment-IsForUs
      ∙ ap (λ h. tcp_rx_valid m table h (length segment) cb.peer_addr iface) read
      ∙ handled
      ∙ rw (over (omega (arith, acknowledged)), acknowledged, ntoh32-hton32 m server_iss siss, nxt)
          refl
