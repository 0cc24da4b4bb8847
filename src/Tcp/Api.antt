-- ===== src/Tcp/Api.antt =====
-- tcp.c: `tcp_api_open` and `tcp_api_connect`. A wait on the condition ends a critical section, so the
-- code after it is a function of its own.
pub mod Port
pub mod Laws
use protocol_stack.Ip.Netif.{ip_netif_by_peer}
use protocol_stack.Base.{
  ℕ, zero, suc, ◌+◌, ◌-◌, ◌%◌, Bool, true, false, not, ◌&&◌, ◌||◌, List, [], ◌∷◌, Option, none,
  some, ◌==◌, get_elem?, set, u16, u32, if◌then◌else◌,
}
use protocol_stack.Util.ByteOrder.{Endian, hton16}
use protocol_stack.Net.{Netif}
use protocol_stack.Tcp.Cb.{TcpCb, closed, syn_sent, is_closed, is_syn_sent, window_size}
use protocol_stack.Tcp.Segment.{
  undefined_write, over_read, Action, Outgoing, transmit, quiet, null_iface, overrun, tcp_tx,
  tcp_flg_syn,
}

abbrev pub tcp_source_port_min : ℕ
tcp_source_port_min = 49152

abbrev pub tcp_source_port_max : ℕ
tcp_source_port_max = 65535

-- The loop of `tcp_api_open` from the block at `i` on.
unfoldable pub first_unused : List TcpCb → ℕ → Option ℕ
first_unused [] i = none
first_unused (cb ∷ rest) i =
    let next = first_unused rest (suc i) in if not cb.used then some i else next

-- `none` is -1.
unfoldable pub tcp_api_open : List TcpCb → List TcpCb × Option ℕ
tcp_api_open table = elim (first_unused table 0) [
  | none ↦ (table, none)
  | some i ↦ elim (get_elem? table i) [
    | none ↦ (table, none)
    | some cb ↦ (set table i (record cb { used = true; state = closed }), some i)
  ]
]

-- The inner loop of the search of a port: some block in use has it.
unfoldable pub is_port_used : ℕ → List TcpCb → Bool
is_port_used port [] = false
is_port_used port (cb ∷ rest) = (cb.used && cb.port == port) || is_port_used port rest

-- `for (i = ...; i <= TCP_SOURCE_PORT_MAX; i++)`, with one unit of fuel for each port that is left;
-- the result is in network order, 0 if every port is used.
unfoldable pub port_loop : Endian → List TcpCb → ℕ → ℕ → ℕ
port_loop m table zero i = 0
port_loop m table (suc fuel) i =
    let rest = port_loop m table fuel (suc i) in
    if is_port_used (hton16 m (u16 i)) table then rest else hton16 m (u16 i)

-- The port of the block if it has one; `time` is what `time(NULL)` returns.
unfoldable pub choose_port : Endian → List TcpCb → ℕ → ℕ → ℕ
choose_port m table port time =
    let first = tcp_source_port_min + time % 1024 in
    if port == 0 then port_loop m table (suc tcp_source_port_max - first) first else port

-- How the part of `tcp_api_connect` before the wait ends: -1, the wait, or a failure of `tcp_tx` that
-- is not a return.
pub data Connect : Type 0 where
  connect_error connect_crash : Connect
  connect_wait : Outgoing → Connect
  connect_unsent : Outgoing → Connect

-- After the SYN: `sent` is false if `ip_tx` returns -1.
unfoldable pub connect_sent : TcpCb → Bool → Action → TcpCb × Connect
connect_sent cb sent quiet = (cb, connect_crash)
connect_sent cb sent null_iface = (cb, connect_crash)
connect_sent cb sent overrun = (cb, connect_crash)
connect_sent cb sent undefined_write = (cb, connect_crash)
connect_sent cb sent over_read = (cb, connect_crash)
connect_sent cb sent (transmit out) =
    if sent
    then (
      record cb { snd_una = cb.iss; snd_nxt = u32 (cb.iss + 1); state = syn_sent },
      connect_wait out,
    )
    else (cb, connect_unsent out)

-- From the initialization of the block on. `route` is what `ip_netif_by_peer` finds, `random` what
-- `random()` returns.
unfoldable pub connect_cb : Endian → TcpCb → ℕ → ℕ → ℕ → Option Netif → ℕ → Bool → TcpCb × Connect
connect_cb m cb source addr port route random sent =
    let cb' : TcpCb = record cb {
      port = source;
      peer_addr = addr;
      peer_port = hton16 m port;
      iface = route;
    } in
    elim route [
      | none ↦ (cb', connect_error)
      | some netif ↦
          let cb'' : TcpCb = record cb' { rcv_wnd = window_size; iss = u32 random } in
          connect_sent cb'' sent (tcp_tx m cb'' cb''.iss 0 tcp_flg_syn [])
    ]

-- A `soc` that is negative is no index, and is tested like one that is too large.
unfoldable pub tcp_api_connect :
    Endian → List TcpCb → ℕ → ℕ → ℕ → ℕ → Option Netif → ℕ → Bool → List TcpCb × Connect
tcp_api_connect m table soc addr port time default_netif random sent = elim (get_elem? table soc) [
  | none ↦ (table, connect_error)
  | some cb ↦
      if cb.used && is_closed cb.state
      then (let source = choose_port m table cb.port time in
          if source == 0
          then (table, connect_error)
          else (let (cb', result) =
                connect_cb m cb source addr port (ip_netif_by_peer default_netif addr) random
                  sent in
              (set table soc cb', result)))
      else (table, connect_error)
]

-- The loop around the wait: `none` is another wait or the same one, `some 0` the return. `woken` says whether
-- `pthread_cond_wait` returns. No function of the source signals the condition, so that it may only do so
-- for no reason.
unfoldable pub tcp_api_connect_wake : Bool → List TcpCb → ℕ → Option ℕ
tcp_api_connect_wake woken table soc = elim (get_elem? table soc) [
  | none ↦ none
  | some cb ↦ if is_syn_sent cb.state then none else if woken then some 0 else none
]
