-- ===== src/Tcp/Reach.antt =====
-- tcp.c as a state machine: the table under any sequence of calls of `tcp_api_open` and `tcp_api_connect`
-- and of received segments. Each is one critical section.
use protocol_stack.Ip.Netif.{ip_netif_by_peer}
use protocol_stack.Util.ByteOrder.Laws.{hton16-lt}
use protocol_stack.Tcp.Api.Laws.{tcp_api_open_lem}
use protocol_stack.Tcp.Api.{
  connect_sent, tcp_api_open, tcp_api_connect, choose_port, port_loop, connect_cb,
}
use protocol_stack.Tcp.Block.{IsBlock, tcp_rx_valid-IsTcpTable, IsTcpTable}
use protocol_stack.Util.Checksum.Laws.{load16-lt, IsBytes}
use protocol_stack.Base.{
  length-replicate, ◌==◌, ◌%◌, Bool-cases, ◌+◌, replicate, ◌&&◌, ◌-◌, u16, set, ◌∷◌, Bool, suc,
  get_or, ℕ, ◌^◌, ◌<◌, ◌≡◌, inl, inr, refl, ◌∙◌, arith, true, List, Option, none, some, length,
  get_elem?, All-set, All-get, length-set, Option-cases, zero, [],
}
use protocol_stack.Util.ByteOrder.{Endian}
use protocol_stack.Net.{Netif}
use protocol_stack.Tcp.Cb.{tcp_cb_table_size, cb_table, blank_cb, is_closed, TcpCb, closed}
use protocol_stack.Tcp.Segment.{tcp_tx, read_tcp_hdr}
use protocol_stack.Tcp.Rx.{tcp_rx, tcp_rx_valid}

-- Bytes are below 256.
get_or-lt : (xs : List ℕ) (i : ℕ) → IsBytes xs → get_or xs i 0 < 256
get_or-lt [] i h = omega arith
get_or-lt (x ∷ xs) zero h = h.0
get_or-lt (x ∷ xs) (suc i) h = get_or-lt xs i h.1

read_tcp_hdr-src :
    (m : Endian) (segment : List ℕ) → IsBytes segment → (read_tcp_hdr m segment).src < 2 ^ 16
unfolding read_tcp_hdr
read_tcp_hdr-src m segment h = load16-lt m _ _ (get_or-lt segment 0 h) (get_or-lt segment 1 h)

-- What every step keeps: the invariant, and the number of blocks.
pub record KeepsTcp (table table' : List TcpCb) : Type 0 where
  pub blocks : IsTcpTable table'
  pub same_length : length table' ≡ length table

tcp_rx-KeepsTcp :
    (m : Endian) (table : List TcpCb) (segment : List ℕ) (src dst : ℕ) (iface : Netif)
    → IsTcpTable table
    → IsBytes segment
    → src < 2 ^ 32
    → KeepsTcp table (tcp_rx m table segment src dst iface).0
unfolding tcp_rx
tcp_rx-KeepsTcp m table segment src dst iface h bytes hs =
    let (blocks, size) =
      tcp_rx_valid-IsTcpTable m table (read_tcp_hdr m segment) (length segment) src iface h
        (read_tcp_hdr-src m segment bytes) hs in
    let same : KeepsTcp table table = record { blocks = h; same_length = refl } in
    let changed : KeepsTcp table
        (tcp_rx_valid m table (read_tcp_hdr m segment) (length segment) src iface).0 =
      record { blocks = blocks; same_length = size } in
    ground (arith, same, changed)

set-KeepsTcp :
    (table : List TcpCb) (i : ℕ) (cb : TcpCb)
    → IsTcpTable table
    → IsBlock cb
    → KeepsTcp table (set table i cb)
set-KeepsTcp table i cb h block = record {
  blocks = All-set IsBlock table i cb block h;
  same_length = length-set table i cb;
}

open-KeepsTcp : (table : List TcpCb) → IsTcpTable table → KeepsTcp table (tcp_api_open table).0
open-KeepsTcp table h = elim (tcp_api_open_lem table) [
  | inl full ↦ rw full.1 (record { blocks = h; same_length = refl })
  | inr (i, cb, first, e) ↦ rw e (
      set-KeepsTcp table i (record cb { used = true; state = closed }) h
        (opened_block cb (All-get IsBlock table i first.0 h)))
]
  where
    opened_block : (cb : TcpCb) → IsBlock cb → IsBlock (record cb { used = true; state = closed })
    opened_block cb block = ground (arith, block)

connect_cb-IsBlock :
    (m : Endian) (cb : TcpCb) (source addr port : ℕ) (route : Option Netif) (random : ℕ)
    (sent : Bool)
    → cb.used ≡ true
    → cb.state ≡ closed
    → source < 2 ^ 16
    → addr < 2 ^ 32
    → port < 2 ^ 16
    → IsBlock cb
    → IsBlock (connect_cb m cb source addr port route random sent).0
unfolding connect_cb connect_sent tcp_tx
connect_cb-IsBlock m cb source addr port none random sent used state hs ha hp fits =
    ground (arith, hton16-lt m port hp)
connect_cb-IsBlock m cb source addr port (some netif) random sent used state hs ha hp fits =
    ground (arith, hton16-lt m port hp)

port_loop-lt : (m : Endian) (table : List TcpCb) (fuel i : ℕ) → port_loop m table fuel i < 2 ^ 16
unfolding port_loop
port_loop-lt m table zero i = omega arith
port_loop-lt m table (suc fuel) i =
    ground (arith, port_loop-lt m table fuel (suc i), hton16-lt m (u16 i) (omega arith))

choose_port-lt :
    (m : Endian) (table : List TcpCb) (port time : ℕ)
    → port < 2 ^ 16
    → choose_port m table port time < 2 ^ 16
unfolding choose_port
choose_port-lt m table port time hp =
    ground (arith, port_loop-lt m table (65536 - (49152 + time % 1024)) (49152 + time % 1024))

connect-KeepsTcp :
    (m : Endian) (table : List TcpCb) (soc addr port time : ℕ) (default_netif : Option Netif)
    (random : ℕ) (sent : Bool)
    → IsTcpTable table
    → addr < 2 ^ 32
    → port < 2 ^ 16
    → KeepsTcp table (tcp_api_connect m table soc addr port time default_netif random sent).0
unfolding tcp_api_connect is_closed
connect-KeepsTcp m table soc addr port time default_netif random sent h ha hp =
    elim (Option-cases (get_elem? table soc)) [
      | inl e ↦ rw (tcp_api_connect, e) (record { blocks = h; same_length = refl })
      | inr (cb, at) ↦
          rw (tcp_api_connect, at)
            (elim (Bool-cases (cb.used && is_closed cb.state)) [
              | inr busy ↦ rw busy (record { blocks = h; same_length = refl })
              | inl free ↦ rw free (elim (Bool-cases (choose_port m table cb.port time == 0)) [
                | inl none_left ↦ rw none_left (record { blocks = h; same_length = refl })
                | inr source ↦ rw source (chosen cb at free)
              ])
            ])
    ]
  where
    ready :
        (cb : TcpCb)
        → (cb.used && is_closed cb.state) ≡ true
        → (cb.used ≡ true) × (cb.state ≡ closed)
    ready cb free = ground arith

    chosen :
        (cb : TcpCb)
        → get_elem? table soc ≡ some cb
        → (cb.used && is_closed cb.state) ≡ true
        → KeepsTcp table (
            set table soc
              (connect_cb m cb
                (choose_port m table cb.port time)
                addr
                port
                (ip_netif_by_peer default_netif addr)
                random
                sent).0)
    chosen cb at free =
        let block = All-get IsBlock table soc at h in
        let (used, state) = ready cb free in
        set-KeepsTcp table soc _ h (
          connect_cb-IsBlock m cb (choose_port m table cb.port time) addr port
            (ip_netif_by_peer default_netif addr) random sent used state
            (choose_port-lt m table cb.port time block.fits.port) ha hp block)

-- Segments have bytes, addresses 32 bits and ports 16.
pub data TcpStep (m : Endian) : List TcpCb → List TcpCb → Type 0 where
  open_step : (table : List TcpCb) → TcpStep m table (tcp_api_open table).0
  connect_step :
      (table : List TcpCb) (soc addr port time : ℕ) (default_netif : Option Netif) (random : ℕ)
      (sent : Bool)
      → addr < 2 ^ 32
      → port < 2 ^ 16
      → TcpStep m table (tcp_api_connect m table soc addr port time default_netif random sent).0
  rx_step :
      (table : List TcpCb) (segment : List ℕ) (src dst : ℕ) (iface : Netif)
      → IsBytes segment
      → src < 2 ^ 32
      → TcpStep m table (tcp_rx m table segment src dst iface).0

pub data TcpReach (m : Endian) (table : List TcpCb) : List TcpCb → Type 0 where
  start : TcpReach m table table
  more :
      {table' table'' : List TcpCb}
      → TcpReach m table table'
      → TcpStep m table' table''
      → TcpReach m table table''

TcpStep-KeepsTcp :
    (m : Endian) {table table' : List TcpCb}
    → TcpStep m table table'
    → IsTcpTable table
    → KeepsTcp table table'
TcpStep-KeepsTcp m (open_step table) h = open-KeepsTcp table h
TcpStep-KeepsTcp m (connect_step table soc addr port time default_netif random sent ha hp) h =
    connect-KeepsTcp m table soc addr port time default_netif random sent h ha hp
TcpStep-KeepsTcp m (rx_step table segment src dst iface bytes hs) h =
    tcp_rx-KeepsTcp m table segment src dst iface h bytes hs

TcpReach-KeepsTcp :
    (m : Endian) (table : List TcpCb) {table' : List TcpCb}
    → IsTcpTable table
    → TcpReach m table table'
    → KeepsTcp table table'
TcpReach-KeepsTcp m table h start = record { blocks = h; same_length = refl }
TcpReach-KeepsTcp m table h (more r step) =
    let before = TcpReach-KeepsTcp m table h r in
    let after = TcpStep-KeepsTcp m step before.blocks in
    record { blocks = after.blocks; same_length = after.same_length ∙ before.same_length }

blank-IsBlock : IsBlock blank_cb
blank-IsBlock = record {
  fits = record {
    port = omega arith;
    peer_port = omega arith;
    peer_addr = omega arith;
    rcv_wnd = omega arith;
  };
  snd_nxt = omega arith;
  iss = omega arith;
  rcv_nxt = omega arith;
  state = inl refl;
}

replicate-IsTcpTable : (n : ℕ) → IsTcpTable (replicate n blank_cb)
replicate-IsTcpTable zero = tt
replicate-IsTcpTable (suc n) = (blank-IsBlock, replicate-IsTcpTable n)

-- From the start on, whatever is called and whatever arrives: a block that is not CLOSED is in use, has an
-- interface, and is not in LISTEN; every block's ports, peer address, window, and the numbers `iss`,
-- `snd_nxt` and `rcv_nxt` fit their widths; and the table has its 128 blocks.
pub TcpReach-IsTcpTable :
    (m : Endian) (table : List TcpCb)
    → TcpReach m cb_table table
    → IsTcpTable table × (length table ≡ tcp_cb_table_size)
unfolding cb_table
TcpReach-IsTcpTable m table r =
    let kept = TcpReach-KeepsTcp m cb_table (replicate-IsTcpTable tcp_cb_table_size) r in
    (kept.blocks, kept.same_length ∙ length-replicate tcp_cb_table_size blank_cb)
