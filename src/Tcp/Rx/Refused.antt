-- ===== src/Tcp/Rx/Refused.antt =====
-- tcp.c: segments for a port that no block listens on, for a listener, and for a block that has just
-- been opened.
use protocol_stack.Tcp.Event.{tcp_event_segment_arrives, arrives_closed}
use protocol_stack.Base.{
  inl, ap, ◌∙◌, sym, ◌≢◌, ℕ, ◌<◌, ◌≡◌, refl, arith, List, [], some, none, true, false, length,
  get_elem?, set,
}
use protocol_stack.Util.ByteOrder.{ntoh32, Endian}
use protocol_stack.Net.{Netif}
use protocol_stack.Tcp.Cb.{TcpCb, closed, is_closed}
use protocol_stack.Tcp.Segment.{
  TcpHdr, Action, transmit, null_iface, tcp_tx, tcp_segment, tcp_flg_ack, tcp_flg_rst,
  tcp_flg_isset, read_tcp_hdr,
}
use protocol_stack.Tcp.Rx.{
  listener, handle, tcp_rx_valid, tcp_event_segment_arrives, probe, tcp_rx, is_connection,
  is_listener, is_free, take_free,
}
use protocol_stack.Tcp.Rx.Find.{kind}
use protocol_stack.Tcp.Rx.Laws.{get-kind, IsForUs, tcp_rx-passes, kind-get, tcp_rx_loop-free}
use protocol_stack.Tcp.Rx.Connection.{IsFirst, IsConnection, tcp_rx_valid-connection}

module _ (m : Endian) (table : List TcpCb) (segment : List ℕ) (src dst : ℕ) (iface : Netif)
    (valid : IsForUs m segment src dst iface) where
  abbrev hdr : TcpHdr
  hdr = read_tcp_hdr m segment

  probe-free :
      (cb : TcpCb) → probe hdr src iface cb ≡ is_free → (cb.used ≡ false) × (cb.state ≡ closed)
  unfolding probe is_closed
  probe-free cb e = ground arith

  -- A block that a refused segment has been put into.
  abbrev refusing : TcpCb → TcpCb
  refusing cb = take_free hdr src iface cb none none

  closed_reply :
      (cb : TcpCb)
      → cb.state ≡ closed
      → cb.iface ≡ some iface
      → tcp_flg_isset hdr.flg tcp_flg_rst ≡ false
      → tcp_flg_isset hdr.flg tcp_flg_ack ≡ true
      → tcp_event_segment_arrives m cb hdr (length segment) ≡ (
        cb,
        transmit (record {
          netif = iface;
          segment = tcp_segment m iface.unicast cb (ntoh32 m hdr.ack) 0 tcp_flg_rst [];
          peer = cb.peer_addr;
        }),
      )
  unfolding tcp_event_segment_arrives arrives_closed tcp_tx
  closed_reply cb state on rst ack = ground arith

  -- A segment for this interface with a valid checksum, an ACK and no RST, for which there is neither a
  -- connection nor a listener, while a block is free: a free block is filled in with the sender's address and remains free, no other
  -- changes, and the answer is a reset whose sequence number is the segment's acknowledgment, from the
  -- port 0.
  pub tcp_rx-refused :
      ((j : ℕ) → kind hdr src iface table j ≢ is_connection)
      → ((j : ℕ) → kind hdr src iface table j ≢ is_listener)
      → (k : ℕ) → k < length table
      → kind hdr src iface table k ≡ is_free
      → tcp_flg_isset hdr.flg tcp_flg_rst ≡ false
      → tcp_flg_isset hdr.flg tcp_flg_ack ≡ true
      → (i : ℕ) × (cb cb' : TcpCb) × (get_elem? table i ≡ some cb)
        × (cb'.used ≡ false)
        × (cb'.state ≡ closed)
        × (cb'.port ≡ 0)
        × (cb'.peer_port ≡ hdr.src)
        × (tcp_rx m table segment src dst iface ≡ (
          set table i cb',
          transmit (record {
            netif = iface;
            segment = tcp_segment m iface.unicast cb' (ntoh32 m hdr.ack) 0 tcp_flg_rst [];
            peer = src;
          }),
        ))
  unfolding take_free tcp_rx_valid handle listener
  tcp_rx-refused nc nl k lt free rst ack =
      let (i, result, here) = tcp_rx_loop-free hdr src iface table nc nl k lt free in
      let (cb, at) = get-kind hdr src iface table i (λ o. cc) in
      let (unused, state) = probe-free cb (sym (kind-get hdr src iface table i cb at) ∙ here) in
      (
        i,
        cb,
        refusing cb,
        at,
        refl,
        state,
        refl,
        refl,
        tcp_rx-passes m table segment src dst iface valid
            ∙ rw (tcp_rx_valid, result, handle, at)
                (ap (λ (r : TcpCb × Action). (set table i r.0, r.1))
                  (closed_reply (refusing cb) state refl rst ack)),
      )

  closed_crash :
      (cb : TcpCb)
      → cb.state ≡ closed
      → cb.iface ≡ none
      → tcp_flg_isset hdr.flg tcp_flg_rst ≡ false
      → (tcp_event_segment_arrives m cb hdr (length segment)).1 ≡ null_iface
  unfolding tcp_event_segment_arrives arrives_closed tcp_tx
  closed_crash cb state off rst = ground arith

  -- A block that has been opened and has no interface yet, as long as it has the port 0 and no peer,
  -- counts as the connection of a segment from the address 0 and port 0 to port 0. If it is the first
  -- such block, a segment like that with a valid checksum, unless it is a reset, makes `tcp_rx` read through the null pointer to the interface.
  pub tcp_rx-null :
      (i : ℕ) (cb : TcpCb)
      → get_elem? table i ≡ some cb
      → cb.used ≡ true
      → cb.state ≡ closed
      → cb.iface ≡ none
      → cb.port ≡ 0
      → cb.peer_addr ≡ 0
      → cb.peer_port ≡ 0
      → IsFirst table i 0 0 0
      → src ≡ 0
      → hdr.src ≡ 0
      → hdr.dst ≡ 0
      → tcp_flg_isset hdr.flg tcp_flg_rst ≡ false
      → (tcp_rx m table segment src dst iface).1 ≡ null_iface
  tcp_rx-null i cb at used state off port addr peer first from sport dport rst =
      let conn : IsConnection cb iface hdr.dst src hdr.src = record {
        busy = inl used;
        iface_is = inl off;
        port_is = port ∙ sym dport;
        peer_addr_is = addr ∙ sym from;
        peer_port_is = peer ∙ sym sport;
      } in
      ap (λ (r : List TcpCb × Action). r.1)
        (tcp_rx-passes m table segment src dst iface valid
          ∙ tcp_rx_valid-connection hdr src iface m table (length segment) i cb at conn
              (λ j c lt there busy p a q.
                first j c lt there busy (p ∙ dport) (a ∙ from) (q ∙ sport)))
      ∙ closed_crash cb state off rst
