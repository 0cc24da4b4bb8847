-- ===== src/Tests/TcpBlocks.antt =====
-- Blocks and headers of tcp.c for the runs: a client on 192.168.33.11 and a server on 192.168.33.10.
use protocol_stack.Base.{arith, true, List, [], ◌∷◌, some}
use protocol_stack.Tcp.Cb.{TcpCb, blank_cb, syn_sent}
use protocol_stack.Tcp.Segment.{TcpHdr}
use protocol_stack.Tcp.Segment.Checksum.{IsCb}
use protocol_stack.Tests.Data.{netif_a, netif_b}

-- The client's block in SYN_SENT, with the first sequence number 1000, and the server's.
abbrev pub client : TcpCb
client = record blank_cb {
  used = true;
  state = syn_sent;
  iface = some netif_a;
  port = 192;
  peer_addr = netif_b.unicast;
  peer_port = 20480;
  iss = 1000;
  snd_una = 1000;
  snd_nxt = 1001;
  rcv_wnd = 65535;
}

abbrev pub server : TcpCb
server = record blank_cb {
  used = true;
  iface = some netif_b;
  port = 20480;
  peer_addr = netif_a.unicast;
  peer_port = 192;
  rcv_wnd = 65535;
}

pub server-IsCb : IsCb server
server-IsCb = record {
  port = omega arith;
  peer_port = omega arith;
  peer_addr = omega arith;
  rcv_wnd = omega arith;
}

abbrev pub two_blocks : List TcpCb
two_blocks = blank_cb ∷ client ∷ []

-- A SYN without an ACK, whose acknowledgment field holds 2000.
abbrev pub bare_syn : TcpHdr
bare_syn = record {
  src = 20480;
  dst = 192;
  seq = 0;
  ack = 0xd0070000;
  off = 80;
  flg = 2;
  win = 0;
  sum = 0;
  urg = 0;
}

abbrev pub just_opened : TcpCb
just_opened = record blank_cb { used = true }
