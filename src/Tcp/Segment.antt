-- ===== src/Tcp/Segment.antt =====
-- tcp.c: `struct tcp_hdr`, the flags, and `tcp_tx`, which builds a segment and hands it to `ip_tx`.
pub mod RoundTrip
pub mod Checksum
use protocol_stack.Base.{
  ℕ, ◌+◌, Bool, not, List, ◌∷◌, ◌++◌, none, some, ◌==◌, ltb, length, get_or, bit_and, u16,
  if◌then◌else◌,
}
use protocol_stack.Base.Bits.{◌<<<◌, ◌>>>◌}
use protocol_stack.Util.ByteOrder.{Endian, load16, load32, store16, store32, hton16, hton32}
use protocol_stack.Util.Checksum.{cksum16}
use protocol_stack.Net.{Netif}
use protocol_stack.Ip.Header.{ip_protocol_tcp}
use protocol_stack.Tcp.Cb.{TcpCb}

abbrev pub tcp_flg_syn : ℕ
tcp_flg_syn = 0x02

abbrev pub tcp_flg_rst : ℕ
tcp_flg_rst = 0x04

abbrev pub tcp_flg_ack : ℕ
tcp_flg_ack = 0x10

abbrev pub tcp_hdr_size : ℕ
tcp_hdr_size = 20

abbrev pub segment_size : ℕ
segment_size = 1500

-- `TCP_FLG_ISSET`
unfoldable pub tcp_flg_isset : ℕ → ℕ → Bool
tcp_flg_isset x y = not (bit_and (bit_and x 0x3f) y == 0)

-- The numbers as the machine reads them in memory; fields of 16 and 32 bits are in network order there.
pub record TcpHdr : Type 0 where
  pub src : ℕ
  pub dst : ℕ
  pub seq : ℕ
  pub ack : ℕ
  pub off : ℕ
  pub flg : ℕ
  pub win : ℕ
  pub sum : ℕ
  pub urg : ℕ

unfoldable pub write_tcp_hdr : Endian → TcpHdr → List ℕ
write_tcp_hdr m hdr =
    store16 m hdr.src
    ++ (store16 m hdr.dst
        ++ (store32 m hdr.seq
            ++ (store32 m hdr.ack
                ++ (hdr.off
                    ∷ hdr.flg
                    ∷ (store16 m hdr.win ++ (store16 m hdr.sum ++ store16 m hdr.urg))))))

-- `(struct tcp_hdr *)segment`, for a segment that is long enough.
unfoldable pub read_tcp_hdr : Endian → List ℕ → TcpHdr
read_tcp_hdr m segment = record {
  src = half 0;
  dst = half 2;
  seq = word 4;
  ack = word 8;
  off = byte 12;
  flg = byte 13;
  win = half 14;
  sum = half 16;
  urg = half 18;
}
  where
    byte : ℕ → ℕ
    byte i = get_or segment i 0

    half : ℕ → ℕ
    half i = load16 m (byte i) (byte (i + 1))

    word : ℕ → ℕ
    word i = load32 m (byte i) (byte (i + 1)) (byte (i + 2)) (byte (i + 3))

-- The header of `tcp_tx` before its checksum is filled in.
unfoldable pub tcp_tx_hdr : Endian → TcpCb → ℕ → ℕ → ℕ → TcpHdr
tcp_tx_hdr m cb seq ack flg = record {
  src = cb.port;
  dst = cb.peer_port;
  seq = hton32 m seq;
  ack = hton32 m ack;
  off = (tcp_hdr_size >>> 2) <<< 4;
  flg = flg;
  win = hton16 m cb.rcv_wnd;
  sum = 0;
  urg = 0;
}

-- The pseudo header's part of the checksum, as `tcp_tx` adds it up for `len` bytes of data.
unfoldable pub tcp_tx_pseudo : Endian → ℕ → ℕ → ℕ → ℕ
tcp_tx_pseudo m self peer len =
    bit_and (self >>> 16) 0xffff
    + bit_and self 0xffff
    + bit_and (peer >>> 16) 0xffff
    + bit_and self 0xffff
    + hton16 m ip_protocol_tcp
    + hton16 m (u16 (tcp_hdr_size + len))

unfoldable pub tcp_segment : Endian → ℕ → TcpCb → ℕ → ℕ → ℕ → List ℕ → List ℕ
tcp_segment m self cb seq ack flg buf =
    let hdr = tcp_tx_hdr m cb seq ack flg in
    let pseudo = tcp_tx_pseudo m self cb.peer_addr (length buf) in
    write_tcp_hdr m (record hdr { sum = cksum16 m (write_tcp_hdr m hdr ++ buf) pseudo }) ++ buf

-- A call of `ip_tx` for the protocol TCP.
pub record Outgoing : Type 0 where
  pub netif : Netif
  pub segment : List ℕ
  pub peer : ℕ

-- What a call of `tcp_tx` does before it returns what `ip_tx` makes of it: `null_iface` is a read
-- through a null pointer, `overrun` a segment that does not fit its buffer. `quiet` is no call. What is
-- undefined before any call: `undefined_write` is the `sprintf` to `stderr`, `over_read` a segment that is
-- read past the datagram's end.
pub data Action : Type 0 where
  quiet null_iface overrun undefined_write over_read : Action
  transmit : Outgoing → Action

unfoldable pub tcp_tx : Endian → TcpCb → ℕ → ℕ → ℕ → List ℕ → Action
tcp_tx m cb seq ack flg buf =
    if ltb segment_size (tcp_hdr_size + length buf) then overrun else elim cb.iface [
      | none ↦ null_iface
      | some netif ↦ transmit (record {
        netif = netif;
        segment = tcp_segment m netif.unicast cb seq ack flg buf;
        peer = cb.peer_addr;
      })
    ]
