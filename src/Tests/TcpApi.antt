-- ===== src/Tests/TcpApi.antt =====
-- tcp.c at concrete inputs: open and connect.
use protocol_stack.Ip.Receive.{rx_done, ip_rx}
use protocol_stack.Ip.Tx.{ip_tx_header}
use protocol_stack.Ip.Header.{write_header}
use protocol_stack.Base.Registry.{find}
use protocol_stack.Net.{netdev_get_netif}
use protocol_stack.Tcp.Init.{tcp_init-delivers, tcp_handler, Tcp, tcp_init}
use protocol_stack.Tests.IpReceive.{at_100, nothing}
use protocol_stack.Ip.Protocol.{added, ip_add_protocol, IpProtocol}
use protocol_stack.Tcp.Open.{connect-established}
use protocol_stack.Tcp.Api.Port.{choose_port-IsFresh, IsFresh}
use protocol_stack.Tcp.Api.Laws.{
  tcp_api_connect_lem, numbered, tcp_api_open_lem, syn_of, IsFirstUnused, AllUsed, connecting,
}
use protocol_stack.Tcp.Block.{IsTcpTable}
use protocol_stack.Tcp.Reach.{open_step, start, TcpReach-IsTcpTable, more, TcpReach}
use protocol_stack.Tcp.Api.{
  tcp_api_connect_wake, is_port_used, connect_wait, port_loop, first_unused, tcp_api_connect,
  choose_port, tcp_api_open,
}
use protocol_stack.Tcp.Rx.Handshake.{syn_ack, opened, IsPeer}
use protocol_stack.Base.{
  Bool, false, replicate, ◌++◌, sym, ℕ, ◌≡◌, ◌⊎◌, refl, arith, true, List, [], ◌∷◌, none, some,
  length, get_elem?, set,
}
use protocol_stack.Util.ByteOrder.{little, hton16}
use protocol_stack.Tcp.Cb.{TcpCb, cb_table, closed}
use protocol_stack.Tcp.Segment.{tcp_segment, tcp_tx, tcp_flg_ack}
use protocol_stack.Tcp.Rx.{tcp_rx}
use protocol_stack.Tests.Data.{hello, dev_a, netif_a, netif_b}
use protocol_stack.Tests.TcpBlocks.{server, server-IsCb, two_blocks, just_opened}

-- The table once a socket has been opened.
abbrev one_open : List TcpCb
one_open = (tcp_api_open cb_table).0

one_open-TcpReach : TcpReach little cb_table one_open
one_open-TcpReach = more start (open_step cb_table)

TcpReach-IsTcpTable_example : IsTcpTable one_open × (length one_open ≡ 128)
TcpReach-IsTcpTable_example = TcpReach-IsTcpTable little one_open one_open-TcpReach

one_open-at : get_elem? one_open 0 ≡ some just_opened
unfolding tcp_api_open first_unused cb_table
one_open-at = refl

one_open-port : choose_port little one_open 0 0 ≡ 192
unfolding choose_port port_loop is_port_used tcp_api_open first_unused cb_table hton16
one_open-port = refl

choose_port-IsFresh_example :
    IsFresh little two_blocks 49152 16384 (choose_port little two_blocks 0 7)
choose_port-IsFresh_example = choose_port-IsFresh little two_blocks 7 (omega arith)

tcp_api_open_lem_runs :
    (AllUsed two_blocks × (tcp_api_open two_blocks ≡ (two_blocks, none)))
    ⊎ ((i : ℕ) × (cb : TcpCb) × IsFirstUnused two_blocks i cb
        × (tcp_api_open two_blocks
            ≡ (set two_blocks i (record cb { used = true; state = closed }), some i)))
tcp_api_open_lem_runs = tcp_api_open_lem two_blocks

abbrev connected : TcpCb
connected =
    connecting little just_opened (choose_port little one_open 0 0) netif_b.unicast 80 netif_a 1000

connected-IsPeer : IsPeer server connected netif_a
unfolding hton16
connected-IsPeer = record {
  fits = server-IsCb;
  port = refl;
  peer_port = sym one_open-port;
  peer_addr = refl;
  addr = omega arith;
  halves = omega arith;
}

connect-established_example :
    (tcp_api_connect little one_open 0 netif_b.unicast 80 0 (some netif_a) 1000 true ≡ (
      set one_open 0 connected,
      connect_wait (
          syn_of little
            (numbered little just_opened
              (choose_port little one_open 0 0)
              netif_b.unicast
              80
              netif_a
              1000)
            netif_b.unicast
            netif_a),
    ))
    × ((woken : Bool) → tcp_api_connect_wake woken (set one_open 0 connected) 0 ≡ none)
    × (tcp_rx little
          (set one_open 0 connected)
          (tcp_segment little netif_b.unicast server 5000 1001 syn_ack [])
          netif_b.unicast
          netif_a.unicast
          netif_a
        ≡ (
          set (set one_open 0 connected) 0 (opened connected 5000),
          tcp_tx little (opened connected 5000) 1001 5001 tcp_flg_ack [],
        ))
    × (tcp_api_connect_wake true (set (set one_open 0 connected) 0 (opened connected 5000)) 0
        ≡ some 0)
    × (tcp_api_connect_wake false (set (set one_open 0 connected) 0 (opened connected 5000)) 0
        ≡ none)
connect-established_example =
    connect-established little one_open one_open-TcpReach 0 just_opened one_open-at refl refl refl
      netif_b.unicast 80 0 1000 (some netif_a) netif_a refl (omega arith) server 5000 (omega arith)
      connected-IsPeer

tcp_api_connect_lem_example :
    tcp_api_connect little (just_opened ∷ []) 0 netif_b.unicast 80 7 (some netif_a) 1000 true ≡ (
      connecting little just_opened
            (choose_port little (just_opened ∷ []) 0 7)
            netif_b.unicast
            80
            netif_a
            1000
          ∷ [],
      connect_wait (
          syn_of little
            (numbered little just_opened
              (choose_port little (just_opened ∷ []) 0 7)
              netif_b.unicast
              80
              netif_a
              1000)
            netif_b.unicast
            netif_a),
    )
tcp_api_connect_lem_example =
    ((((tcp_api_connect_lem little (just_opened ∷ []) 0 netif_b.unicast 80 7 1000 (some netif_a)
              true just_opened (omega arith)).1
            refl).1
          refl refl).1
        netif_a refl).0
      refl

abbrev handlers : List (IpProtocol Tcp)
handlers = record { type = 6; handler = tcp_handler little } ∷ []

handlers-init : tcp_init little true [] ≡ added handlers
unfolding tcp_init ip_add_protocol find
handlers-init = refl

abbrev fresh_tcp : Tcp
fresh_tcp = record { table = two_blocks; actions = [] }

tcp_init-delivers_example :
    ip_rx little dev_a handlers at_100 none
      (write_header little
          (ip_tx_header little netif_b 6 5 (some netif_b.unicast) netif_a.unicast 128 0)
        ++ (hello ++ replicate 21 0))
      nothing
      fresh_tcp
    ≡ rx_done nothing (record {
      table = (tcp_rx little two_blocks hello netif_b.unicast netif_a.unicast netif_a).0;
      actions = (tcp_rx little two_blocks hello netif_b.unicast netif_a.unicast netif_a).1 ∷ [];
    })
unfolding netdev_get_netif find
tcp_init-delivers_example =
    tcp_init-delivers little [] handlers handlers-init netif_b hello (replicate 21 0) 128 dev_a
      netif_a at_100 none nothing fresh_tcp (omega arith) (omega arith) (omega arith) (omega arith)
      refl
