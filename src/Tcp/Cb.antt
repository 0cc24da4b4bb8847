-- ===== src/Tcp/Cb.antt =====
-- tcp.c: the control blocks and their table. What is left out of `struct tcp_cb` is `window`, of which
-- only the size is used, and the condition variable.
use protocol_stack.Base.{ℕ, Bool, true, false, List, Option, none, replicate}
use protocol_stack.Net.{Netif}

abbrev pub tcp_cb_table_size : ℕ
tcp_cb_table_size = 128

pub data State : Type 0 where
  closed listen syn_sent syn_rcvd established fin_wait1 fin_wait2 : State
  closing time_wait close_wait last_ack : State

-- Ports are in network order. `parent` is an index into the table.
pub record TcpCb : Type 0 where
  pub used : Bool
  pub state : State
  pub iface : Option Netif
  pub port : ℕ
  pub peer_addr : ℕ
  pub peer_port : ℕ
  pub snd_nxt : ℕ
  pub snd_una : ℕ
  pub snd_up : ℕ
  pub snd_wl1 : ℕ
  pub snd_wl2 : ℕ
  pub snd_wnd : ℕ
  pub iss : ℕ
  pub rcv_nxt : ℕ
  pub rcv_up : ℕ
  pub rcv_wnd : ℕ
  pub irs : ℕ
  pub parent : Option ℕ

-- `sizeof(cb->window)`
abbrev pub window_size : ℕ
window_size = 65535

-- Static memory is all zeros at the start.
abbrev pub blank_cb : TcpCb
blank_cb = record {
  used = false;
  state = closed;
  iface = none;
  port = 0;
  peer_addr = 0;
  peer_port = 0;
  snd_nxt = 0;
  snd_una = 0;
  snd_up = 0;
  snd_wl1 = 0;
  snd_wl2 = 0;
  snd_wnd = 0;
  iss = 0;
  rcv_nxt = 0;
  rcv_up = 0;
  rcv_wnd = 0;
  irs = 0;
  parent = none;
}

unfoldable pub cb_table : List TcpCb
cb_table = replicate tcp_cb_table_size blank_cb

unfoldable pub is_closed : State → Bool
is_closed closed = true
is_closed _ = false

unfoldable pub is_listen : State → Bool
is_listen listen = true
is_listen _ = false

unfoldable pub is_syn_sent : State → Bool
is_syn_sent syn_sent = true
is_syn_sent _ = false
