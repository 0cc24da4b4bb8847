-- ===== src/Tcp/Event.antt =====
-- tcp.c: `tcp_event_segment_arrives`, in the order of its tests.
pub mod Laws
use protocol_stack.Base.{ℕ, ◌+◌, Bool, false, ◌&&◌, ◌||◌, [], ltb, leb, bit_or, u32, if◌then◌else◌}
use protocol_stack.Base.Bits.{◌<<<◌, ◌>>>◌}
use protocol_stack.Util.ByteOrder.{Endian, ntoh32}
use protocol_stack.Ip.Rx.{size_sub}
use protocol_stack.Tcp.Cb.{TcpCb, closed, syn_sent, syn_rcvd, established}
use protocol_stack.Tcp.Segment.{
  undefined_write, TcpHdr, Action, quiet, tcp_tx, tcp_flg_isset, tcp_flg_ack, tcp_flg_rst,
  tcp_flg_syn,
}

-- In the state CLOSED.
unfoldable pub arrives_closed : Endian → TcpCb → TcpHdr → ℕ → TcpCb × Action
arrives_closed m cb hdr plen =
    if tcp_flg_isset hdr.flg tcp_flg_rst
    then (cb, quiet)
    else if tcp_flg_isset hdr.flg tcp_flg_ack
    then (cb, tcp_tx m cb (ntoh32 m hdr.ack) 0 tcp_flg_rst [])
    else (cb, tcp_tx m cb 0 (u32 (ntoh32 m hdr.seq + plen)) (bit_or tcp_flg_rst tcp_flg_ack) [])

-- In the state SYN_SENT: "fourth check the SYN bit", and what is after it.
unfoldable pub arrives_syn : Endian → TcpCb → TcpHdr → TcpCb × Action
arrives_syn m cb hdr =
    if tcp_flg_isset hdr.flg tcp_flg_syn
    then (let cb' : TcpCb = record cb {
      rcv_nxt = u32 (ntoh32 m hdr.seq + 1);
      irs = ntoh32 m hdr.seq;
      snd_una = ntoh32 m hdr.ack;
    } in
        if ltb cb'.iss cb'.snd_una
        then (
          record cb' { state = established },
          tcp_tx m (record cb' { state = established }) cb'.snd_nxt cb'.rcv_nxt tcp_flg_ack [],
        )
        else (
          record cb' { state = syn_rcvd },
          tcp_tx m (record cb' { state = syn_rcvd }) cb'.iss cb'.rcv_nxt
              (bit_or tcp_flg_syn tcp_flg_ack) [],
        ))
    else (cb, quiet)

-- In the state SYN_SENT: "second check the RST bit", and what is after it. An acceptable reset makes
-- `sprintf` write into the object of `stderr`, before the block is freed; what the program does from there
-- on is undefined, and the block is left as it is then.
unfoldable pub arrives_rst : Endian → TcpCb → TcpHdr → Bool → TcpCb × Action
arrives_rst m cb hdr acceptable =
    if tcp_flg_isset hdr.flg tcp_flg_rst
    then (cb, if acceptable then undefined_write else quiet)
    else arrives_syn m cb hdr

-- In the state SYN_SENT: "first check the ACK bit", and what is after it.
unfoldable pub arrives_syn_sent : Endian → TcpCb → TcpHdr → TcpCb × Action
arrives_syn_sent m cb hdr =
    let ack = ntoh32 m hdr.ack in
    if tcp_flg_isset hdr.flg tcp_flg_ack
    then (if leb ack cb.iss || ltb cb.snd_nxt ack
        then (cb, tcp_tx m cb ack 0 tcp_flg_rst [])
        else arrives_rst m cb hdr (leb cb.snd_una ack && leb ack cb.snd_nxt))
    else arrives_rst m cb hdr false

-- `len` is the length of the segment. No other state is implemented.
unfoldable pub tcp_event_segment_arrives : Endian → TcpCb → TcpHdr → ℕ → TcpCb × Action
tcp_event_segment_arrives m cb hdr len =
    let hlen = (hdr.off >>> 4) <<< 2 in
    elim cb.state [
      | closed ↦ arrives_closed m cb hdr (size_sub len hlen)
      | syn_sent ↦ arrives_syn_sent m cb hdr
      | _ ↦ (cb, quiet)
    ]
