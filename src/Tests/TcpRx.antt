-- ===== src/Tests/TcpRx.antt =====
-- tcp.c at concrete inputs: received segments.
use protocol_stack.Tcp.Rx.Refused.{tcp_rx-null, tcp_rx-refused}
use mathlib.Core.Option.{some-injective}
use protocol_stack.Tcp.Event.Laws.{arrives-syn_sent_lem, arrives-established_iff}
use protocol_stack.Tcp.Rx.Find.{tcp_rx_loop_lem, IsResult, kind}
use protocol_stack.Tcp.Rx.Laws.{IsForUs}
use protocol_stack.Tcp.Event.{tcp_event_segment_arrives}
use protocol_stack.Tcp.Rx.Connection.{IsFirst, IsConnection}
use protocol_stack.Tcp.Rx.Handshake.{tcp_rx-syn_ack, opened, IsPeer}
use protocol_stack.Util.Checksum.Laws.{IsBytes}
use protocol_stack.Base.{
  ap, sym, ℕ, zero, suc, ◌%◌, ◌<◌, ◌≡◌, ◌≢◌, ◌⊎◌, ◌↔◌, inl, inr, refl, arith, true, false, List, [],
  ◌∷◌, none, some, length, get_elem?, set,
}
use protocol_stack.Util.ByteOrder.{
  byteswap32, hton32_call, store32, store16, load16, little, hton16, ntoh32, hton32,
}
use protocol_stack.Util.Checksum.{cksum16}
use protocol_stack.Tcp.Cb.{is_closed, TcpCb, blank_cb, closed, established}
use protocol_stack.Tcp.Segment.{
  undefined_write, tcp_tx_pseudo, tcp_tx_hdr, null_iface, write_tcp_hdr, transmit, read_tcp_hdr,
  TcpHdr, tcp_segment, tcp_tx, tcp_flg_ack, tcp_flg_syn, tcp_flg_rst, tcp_flg_isset,
}
use protocol_stack.Tcp.Segment.Checksum.{tcp_segment-verifies}
use protocol_stack.Tcp.Rx.{tcp_rx_loop, is_listener, probe, tcp_rx, is_connection, tcp_rx_pseudo}
use protocol_stack.Tests.Data.{netif_a, netif_b, hello}
use protocol_stack.Tests.TcpBlocks.{client, server, server-IsCb, two_blocks, bare_syn, just_opened}

hello-IsBytes : IsBytes hello
hello-IsBytes = (omega arith, (omega arith, (omega arith, (omega arith, (omega arith, tt)))))

tcp_segment-verifies_example :
    (cksum16 little (tcp_segment little netif_b.unicast server 5000 1001 18 hello) (
        tcp_rx_pseudo little netif_b.unicast netif_a.unicast
          (length (tcp_segment little netif_b.unicast server 5000 1001 18 hello)))
      ≡ 0)
    ↔ (netif_b.unicast % 65536 % 65535 ≡ netif_a.unicast % 65536 % 65535)
tcp_segment-verifies_example =
    tcp_segment-verifies little netif_b.unicast server 5000 1001 18 hello (omega arith) server-IsCb
      (omega arith) (omega arith) (omega arith) hello-IsBytes (omega arith)

server-IsPeer : IsPeer server client netif_a
server-IsPeer = record {
  fits = server-IsCb;
  port = refl;
  peer_port = refl;
  peer_addr = refl;
  addr = omega arith;
  halves = omega arith;
}

client-IsConnection : IsConnection client netif_a client.port client.peer_addr client.peer_port
client-IsConnection = record {
  busy = inl refl;
  iface_is = inr refl;
  port_is = refl;
  peer_addr_is = refl;
  peer_port_is = refl;
}

client-IsFirst : IsFirst two_blocks 1 192 netif_b.unicast 20480
unfolding is_closed
client-IsFirst zero c lt e busy p a q =
    let same = some-injective _ _ e in
    let port : c.port ≡ 0 = sym (ap (λ (b : TcpCb). b.port) same) in omega arith
client-IsFirst (suc j) c lt e busy p a q = absurd (omega arith)

tcp_rx-syn_ack_example :
    tcp_rx little two_blocks
      (tcp_segment little netif_b.unicast server 5000 1001 18 [])
      netif_b.unicast
      netif_a.unicast
      netif_a
    ≡ (
      set two_blocks 1 (opened client 5000),
      tcp_tx little (opened client 5000) 1001 5001 tcp_flg_ack [],
    )
tcp_rx-syn_ack_example =
    tcp_rx-syn_ack little two_blocks 1 client server netif_a 5000 refl client-IsConnection
      client-IsFirst refl refl refl (omega arith) (omega arith) server-IsPeer

bare_syn-ack : ntoh32 little bare_syn.ack ≡ 2000
unfolding ntoh32
bare_syn-ack = refl

arrives-established_iff_example :
    ((tcp_event_segment_arrives little client bare_syn 20).0.state ≡ established) ↔ (
      (tcp_flg_isset 2 tcp_flg_syn ≡ true)
      × (tcp_flg_isset 2 tcp_flg_rst ≡ false)
      × (((tcp_flg_isset 2 tcp_flg_ack ≡ true) × (ntoh32 little bare_syn.ack ≡ 1001))
          ⊎ ((tcp_flg_isset 2 tcp_flg_ack ≡ false) × (1000 < ntoh32 little bare_syn.ack))))
arrives-established_iff_example = arrives-established_iff little client bare_syn 20 refl refl refl

-- The SYN alone opens the connection.
bare_syn-established : (tcp_event_segment_arrives little client bare_syn 20).0.state ≡ established
unfolding tcp_flg_isset
bare_syn-established =
    arrives-established_iff_example.1 (refl, refl, inr (refl, omega (arith, bare_syn-ack)))

-- A segment with an ACK for a table in which no block knows the port.
abbrev stray : List ℕ
stray = tcp_segment little netif_b.unicast server 5000 1001 16 []

stray-IsForUs : IsForUs little stray netif_b.unicast netif_a.unicast netif_a
unfolding tcp_segment cksum16 write_tcp_hdr store16 store32 tcp_rx_pseudo hton16 load16 tcp_tx_hdr
    hton32 tcp_tx_pseudo
stray-IsForUs = (refl, omega arith, refl)

blank-kind :
    (hdr : TcpHdr) (j : ℕ)
    → (kind hdr netif_b.unicast netif_a (blank_cb ∷ []) j ≢ is_connection)
      × (kind hdr netif_b.unicast netif_a (blank_cb ∷ []) j ≢ is_listener)
unfolding kind probe is_closed
blank-kind hdr zero = (λ e. cc, λ e. cc)
blank-kind hdr (suc j) = (λ e. cc, λ e. cc)

tcp_rx-refused_example :
    (i : ℕ) × (cb cb' : TcpCb) × (get_elem? (blank_cb ∷ []) i ≡ some cb)
    × (cb'.used ≡ false)
    × (cb'.state ≡ closed)
    × (cb'.port ≡ 0)
    × (cb'.peer_port ≡ 20480)
    × (tcp_rx little (blank_cb ∷ []) stray netif_b.unicast netif_a.unicast netif_a ≡ (
      set (blank_cb ∷ []) i cb',
      transmit (record {
        netif = netif_a;
        segment =
            tcp_segment little netif_a.unicast cb'
              (ntoh32 little (read_tcp_hdr little stray).ack)
              0
              tcp_flg_rst
              [];
        peer = netif_b.unicast;
      }),
    ))
unfolding kind probe is_closed tcp_flg_isset tcp_segment read_tcp_hdr write_tcp_hdr store16 store32
    tcp_tx_hdr load16
tcp_rx-refused_example =
    tcp_rx-refused little (blank_cb ∷ []) stray netif_b.unicast netif_a.unicast netif_a
      stray-IsForUs (λ j. (blank-kind (read_tcp_hdr little stray) j).0)
      (λ j. (blank-kind (read_tcp_hdr little stray) j).1) 0 (omega arith) refl refl refl

-- A SYN from 0.0.0.0, port 0, to port 0, with the checksum that the receiver wants.
abbrev null_syn : List ℕ
null_syn = 0 ∷ 0 ∷ 0 ∷ 0 ∷ 0 ∷ 0 ∷ 0 ∷ 0 ∷ 0 ∷ 0 ∷ 0 ∷ 0 ∷ 80 ∷ 2 ∷ 0 ∷ 0 ∷ 206 ∷ 47 ∷ 0 ∷ 0 ∷ []

null_syn-IsForUs : IsForUs little null_syn 0 netif_a.unicast netif_a
unfolding cksum16 tcp_rx_pseudo hton16 load16
null_syn-IsForUs = (refl, omega arith, refl)

tcp_rx-null_example :
    (tcp_rx little (just_opened ∷ []) null_syn 0 netif_a.unicast netif_a).1 ≡ null_iface
unfolding read_tcp_hdr load16 tcp_flg_isset
tcp_rx-null_example =
    tcp_rx-null little (just_opened ∷ []) null_syn 0 netif_a.unicast netif_a null_syn-IsForUs 0
      just_opened refl refl refl refl refl refl refl (λ j c lt. absurd (omega arith)) refl refl refl
      refl

tcp_rx_loop_lem_runs :
    IsResult bare_syn netif_b.unicast netif_a two_blocks
      (tcp_rx_loop bare_syn netif_b.unicast netif_a two_blocks 0 none none)
tcp_rx_loop_lem_runs = tcp_rx_loop_lem bare_syn netif_b.unicast netif_a two_blocks

-- A reset that acknowledges the client's SYN.
abbrev reset_hdr : TcpHdr
reset_hdr = record bare_syn { ack = 0xe9030000; flg = 20 }

arrives-syn_sent_lem_runs :
    tcp_event_segment_arrives little client reset_hdr 20 ≡ (client, undefined_write)
unfolding tcp_flg_isset ntoh32 hton32 hton32_call byteswap32
arrives-syn_sent_lem_runs =
    (arrives-syn_sent_lem little client reset_hdr 20 refl refl refl).1 refl refl refl
