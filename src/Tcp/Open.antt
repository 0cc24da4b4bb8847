-- ===== src/Tcp/Open.antt =====
-- tcp.c: an active open as a whole, from a reachable table: `tcp_api_connect`, the server's segment, and
-- the end of the wait.
use mathlib.Core.Option.{some-injective}
use protocol_stack.Base.{
  Bool, length-set, get_elem?-set_self, get_elem?-lt, ap, suc, All-get, get_elem?-set_ne, ◌∷◌,
  false, ℕ, zero, suc, [], ◌∷◌, ◌+◌, ◌^◌, ◌<◌, ◌≡◌, ◌≢◌, inl, inr, refl, sym, ◌∙◌, arith, true,
  List, Option, none, some, length, get_elem?, set, u32,
}
use protocol_stack.Util.ByteOrder.{hton16, Endian}
use protocol_stack.Net.{Netif}
use protocol_stack.Tcp.Cb.{is_syn_sent, is_closed, TcpCb, cb_table, closed}
use protocol_stack.Tcp.Segment.{tcp_segment, tcp_tx, tcp_flg_ack}
use protocol_stack.Tcp.Rx.{tcp_rx}
use protocol_stack.Tcp.Rx.Connection.{IsFirst, IsBusy}
use protocol_stack.Tcp.Rx.Handshake.{IsPeer, opened, syn_ack, tcp_rx-syn_ack}
use protocol_stack.Tcp.Api.{
  choose_port, is_port_used, connect_wait, tcp_api_connect, tcp_api_connect_wake,
}
use protocol_stack.Tcp.Api.Laws.{connecting, numbered, syn_of, tcp_api_connect_lem}
use protocol_stack.Tcp.Api.Port.{choose_port-IsFresh}
use protocol_stack.Tcp.Block.{IsBlock}
use protocol_stack.Tcp.Reach.{TcpReach, TcpReach-IsTcpTable}

is_port_used-get :
    (port : ℕ) (table : List TcpCb) (j : ℕ) (c : TcpCb)
    → is_port_used port table ≡ false
    → get_elem? table j ≡ some c
    → c.used ≡ true
    → c.port ≢ port
unfolding is_port_used
is_port_used-get port [] j c h e used p = absurd (cc)
is_port_used-get port (cb ∷ rest) zero c h e used p =
    let same = some-injective _ _ e in ground (arith)
is_port_used-get port (cb ∷ rest) (suc j) c h e used p =
    is_port_used-get port rest j c (ground arith) e used p

busy-used : (cb : TcpCb) → IsBlock cb → IsBusy cb → cb.used ≡ true
unfolding is_closed
busy-used cb block busy = ground (arith, block)

module _ (m : Endian) (table : List TcpCb) (reach : TcpReach m cb_table table) (soc : ℕ)
    (cb : TcpCb) (at : get_elem? table soc ≡ some cb) (used : cb.used ≡ true)
    (state : cb.state ≡ closed) (no_port : cb.port ≡ 0) (addr port time random : ℕ)
    (default_netif : Option Netif) (netif : Netif) (routed : default_netif ≡ some netif)
    (hr : random < 2 ^ 31) where
  abbrev source : ℕ
  source = choose_port m table cb.port time

  abbrev client : TcpCb
  client = connecting m cb source addr port netif random

  abbrev waiting : List TcpCb
  waiting = set table soc client

  size : length table ≡ 128
  size = (TcpReach-IsTcpTable m table reach).1

  client-IsFirst : IsFirst waiting soc source addr (hton16 m port)
  client-IsFirst j c lt there busy p a q =
      let before : get_elem? table j ≡ some c =
        sym (get_elem?-set_ne table soc j client (λ e. omega arith)) ∙ there in
      let block = All-get IsBlock table j before (TcpReach-IsTcpTable m table reach).0 in
      let fresh = choose_port-IsFresh m table time (omega (arith, size)) in
      is_port_used-get source table j c
        (ap (λ (p : ℕ). is_port_used (choose_port m table p time) table) no_port ∙ fresh.unused)
        before (busy-used c block busy) p

  module _ (server : TcpCb) (server_iss : ℕ) (hs : server_iss < 2 ^ 32)
      (peer : IsPeer server client netif) where
    -- An active open of a CLOSED socket in use without a port, with a default interface and a SYN that is sent, from
    -- any table that can be reached, `random()` being below 2 ^ 31: the call waits; the SYN and ACK that
    -- `tcp_tx` makes from a server's block with the same endpoints, when the low halves of the addresses
    -- agree by their remainder by 65535, makes the block ESTABLISHED with an ACK as the answer, and
    -- changes no other block. The call, which no wakeup ends before, then returns 0 if its wait on the
    -- condition is woken, and goes on waiting if it is not; the program itself never wakes it.
    pub connect-established :
        (tcp_api_connect m table soc addr port time default_netif random true ≡ (
          waiting,
          connect_wait (syn_of m (numbered m cb source addr port netif random) addr netif),
        ))
        × ((woken : Bool) → tcp_api_connect_wake woken waiting soc ≡ none)
        × (tcp_rx m waiting
              (tcp_segment m addr server server_iss (client.iss + 1) syn_ack [])
              addr
              netif.unicast
              netif
            ≡ (
              set waiting soc (opened client server_iss),
              tcp_tx m
                  (opened client server_iss)
                  (client.iss + 1)
                  (u32 (server_iss + 1))
                  tcp_flg_ack
                  [],
            ))
        × (tcp_api_connect_wake true (set waiting soc (opened client server_iss)) soc ≡ some 0)
        × (tcp_api_connect_wake false (set waiting soc (opened client server_iss)) soc ≡ none)
    unfolding tcp_api_connect_wake is_syn_sent
    connect-established =
        let lt = get_elem?-lt table soc at in
        let (_, socket) =
          tcp_api_connect_lem m table soc addr port time random default_netif true cb
            (omega (arith, size)) in
        let established_at =
          get_elem?-set_self waiting soc (opened client server_iss)
            (omega (arith, lt, length-set table soc client)) in
        let (go, _) = ((socket at).1 used state).1 netif routed in
        (
          go refl,
          λ woken. rw (tcp_api_connect_wake, get_elem?-set_self table soc client lt) refl,
          tcp_rx-syn_ack m waiting soc client server netif server_iss
              (get_elem?-set_self table soc client lt)
              (record {
                busy = inl used;
                iface_is = inr refl;
                port_is = refl;
                peer_addr_is = refl;
                peer_port_is = refl;
              })
              client-IsFirst refl refl (omega arith) (omega arith) hs peer,
          rw (tcp_api_connect_wake, established_at) refl,
          rw (tcp_api_connect_wake, established_at) refl,
        )
