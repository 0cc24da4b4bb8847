-- ===== src/Tcp/Segment/Checksum.antt =====
-- tcp.c: when the receiver's checksum of a segment of `tcp_tx` is 0.
use protocol_stack.Base.{
  u16, ℕ, ◌+◌, ◌%◌, ◌/◌, ◌^◌, ◌<◌, ◌≤◌, ◌≡◌, ◌↔◌, refl, arith, List, ◌++◌, length,
}
use protocol_stack.Base.Bits.{bit_and_mask}
use protocol_stack.Util.ByteOrder.{little, big, hton16, hton16_call, Endian}
use protocol_stack.Util.Checksum.{cksum16}
use protocol_stack.Util.Checksum.Laws.{
  cksum16_zero-short, cksum16-lt, IsBytes, word_sum-append, word_sum-le, cksum16_completes,
}
use protocol_stack.Util.ByteOrder.Laws.{hton16-lt, hton32-lt}
use protocol_stack.Tcp.Cb.{TcpCb}
use protocol_stack.Tcp.Segment.{
  read_tcp_hdr, ip_protocol_tcp, hton16, tcp_tx_hdr, tcp_tx_pseudo, tcp_segment, write_tcp_hdr,
}
use protocol_stack.Tcp.Segment.RoundTrip.{IsTcpHdr, read_tcp_hdr-write, word_sum-tcp_hdr}
use protocol_stack.Tcp.Rx.{tcp_rx_pseudo}

-- The fields of a block that go into a segment fit theirs.
pub record IsCb (cb : TcpCb) : Type 0 where
  pub port : cb.port < 2 ^ 16
  pub peer_port : cb.peer_port < 2 ^ 16
  pub peer_addr : cb.peer_addr < 2 ^ 32
  pub rcv_wnd : cb.rcv_wnd < 2 ^ 16

protocol_positive : (m : Endian) → 0 < hton16 m ip_protocol_tcp
unfolding hton16 hton16_call
protocol_positive little = omega arith
protocol_positive big = omega arith

module _ (m : Endian) (self : ℕ) (cb : TcpCb) (seq ack flg : ℕ) (buf : List ℕ) (hs : self < 2 ^ 32)
    (hc : IsCb cb) (hq : seq < 2 ^ 32) (ha : ack < 2 ^ 32) (hf : flg < 256) (hb : IsBytes buf)
    (hl : length buf ≤ 1480) where
  pub tcp_tx_hdr-IsTcpHdr :
      (sum : ℕ) → sum < 2 ^ 16 → IsTcpHdr (record (tcp_tx_hdr m cb seq ack flg) { sum = sum })
  unfolding tcp_tx_hdr
  tcp_tx_hdr-IsTcpHdr sum small = record {
    src = hc.port;
    dst = hc.peer_port;
    seq = hton32-lt m seq hq;
    ack = hton32-lt m ack ha;
    off = omega arith;
    flg = hf;
    win = hton16-lt m cb.rcv_wnd hc.rcv_wnd;
    sum = small;
    urg = omega arith;
  }

  -- Both ends' pseudo headers: they differ in the low half of one address.
  pseudo_sums :
      (rest : ℕ) × (tcp_tx_pseudo m self cb.peer_addr (length buf) ≡ rest + self % 65536)
      × (tcp_rx_pseudo m self cb.peer_addr (20 + length buf) ≡ rest + cb.peer_addr % 65536)
      × (0 < rest)
      × (rest < 2 ^ 20)
  unfolding tcp_tx_pseudo tcp_rx_pseudo
  pseudo_sums =
      let protocol = hton16 m ip_protocol_tcp in
      let size = hton16 m (20 + length buf) in
      let same : u16 (20 + length buf) ≡ 20 + length buf = omega arith in
      (
        self / 65536 + self % 65536 + cb.peer_addr / 65536 + protocol + size,
        rw same (
            omega (
              arith,
              bit_and_mask 16 self,
              bit_and_mask 16 (self / 65536),
              bit_and_mask 16 (cb.peer_addr / 65536),
              hc.peer_addr,
            )),
        rw same (omega (arith, bit_and_mask 16 self, bit_and_mask 16 cb.peer_addr)),
        omega (arith, protocol_positive m),
        omega (
          arith,
          hc.peer_addr,
          hton16-lt m ip_protocol_tcp (omega arith),
          hton16-lt m (20 + length buf) (omega arith),
        ),
      )

  -- The checksum of a segment from `self` with up to 1480 bytes of data and fields that fit, as the
  -- receiver at the block's peer address computes it, is 0 exactly when the low halves of the two
  -- addresses agree by their remainder by 65535.
  pub tcp_segment-verifies :
      (cksum16 m
          (tcp_segment m self cb seq ack flg buf)
          (tcp_rx_pseudo m self cb.peer_addr (length (tcp_segment m self cb seq ack flg buf)))
        ≡ 0)
      ↔ (self % 65536 % 65535 ≡ cb.peer_addr % 65536 % 65535)
  unfolding tcp_segment tcp_tx_hdr
  tcp_segment-verifies =
      let (rest, tx, rx, positive, small) = pseudo_sums in
      let hdr = tcp_tx_hdr m cb seq ack flg in
      let pseudo = tcp_tx_pseudo m self cb.peer_addr (length buf) in
      let sum = cksum16 m (write_tcp_hdr m hdr ++ buf) pseudo in
      let hdr_fits = tcp_tx_hdr-IsTcpHdr 0 (omega arith) in
      let (_, size, total) = read_tcp_hdr-write m hdr buf hdr_fits in
      let bound = word_sum-le m buf hb in
      let blank_split = word_sum-append m 10 (write_tcp_hdr m hdr) buf size in
      let (field, words) = word_sum-tcp_hdr m hdr sum hdr_fits refl (cksum16-lt m _ pseudo) in
      let whole = record hdr { sum = sum } in
      let (_, size', total') =
        read_tcp_hdr-write m whole buf (tcp_tx_hdr-IsTcpHdr sum (cksum16-lt m _ pseudo)) in
      let split = word_sum-append m 10 (write_tcp_hdr m whole) buf size' in
      let (lt, multiple, _) =
        cksum16_completes m (write_tcp_hdr m hdr ++ buf) pseudo (omega (arith, total))
          (omega arith) in
      let zero_iff =
        cksum16_zero-short m (write_tcp_hdr m whole ++ buf)
          (tcp_rx_pseudo m self cb.peer_addr (20 + length buf)) (omega (arith, total'))
          (omega arith) in
      rw total' (
        λ verifies. let sums = zero_iff.0 verifies in omega arith,
        λ agree. zero_iff.1 (omega arith, omega arith),
      )

  -- What the receiver reads in the header of a segment, and the segment's length.
  pub read-tcp_segment :
      (sum : ℕ) × (read_tcp_hdr m (tcp_segment m self cb seq ack flg buf)
        ≡ record (tcp_tx_hdr m cb seq ack flg) { sum = sum })
      × (length (tcp_segment m self cb seq ack flg buf) ≡ 20 + length buf)
  unfolding tcp_segment
  read-tcp_segment =
      let pseudo = tcp_tx_pseudo m self cb.peer_addr (length buf) in
      let sum = cksum16 m (write_tcp_hdr m (tcp_tx_hdr m cb seq ack flg) ++ buf) pseudo in
      let (read, _, total) =
        read_tcp_hdr-write m (record (tcp_tx_hdr m cb seq ack flg) { sum = sum }) buf
          (tcp_tx_hdr-IsTcpHdr sum (cksum16-lt m _ pseudo)) in
      (sum, read, total)
