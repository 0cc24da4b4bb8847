-- ===== src/Tcp/Segment/RoundTrip.antt =====
-- tcp.c: a header that is written is read back, and the sum of its words.
use protocol_stack.Base.{ℕ, ◌+◌, ◌^◌, ◌<◌, ◌≡◌, refl, arith, List, ◌++◌, length}
use protocol_stack.Util.ByteOrder.{Endian, little, big, load16, load32, store16, store32}
use protocol_stack.Util.Checksum.Laws.{word_sum}
use protocol_stack.Tcp.Segment.{TcpHdr, write_tcp_hdr, read_tcp_hdr}

pub record IsTcpHdr (h : TcpHdr) : Type 0 where
  pub src : h.src < 2 ^ 16
  pub dst : h.dst < 2 ^ 16
  pub seq : h.seq < 2 ^ 32
  pub ack : h.ack < 2 ^ 32
  pub off : h.off < 256
  pub flg : h.flg < 256
  pub win : h.win < 2 ^ 16
  pub sum : h.sum < 2 ^ 16
  pub urg : h.urg < 2 ^ 16

-- A header in front of anything is read back, and is 20 bytes long.
pub read_tcp_hdr-write :
    (m : Endian) (h : TcpHdr) (rest : List ℕ)
    → IsTcpHdr h
    → (read_tcp_hdr m (write_tcp_hdr m h ++ rest) ≡ h)
      × (length (write_tcp_hdr m h) ≡ 20)
      × (length (write_tcp_hdr m h ++ rest) ≡ 20 + length rest)
unfolding read_tcp_hdr write_tcp_hdr store16 store32 load16 load32
read_tcp_hdr-write little h rest fits = (ground (arith, fits), refl, omega arith)
read_tcp_hdr-write big h rest fits = (ground (arith, fits), refl, omega arith)

-- The checksum field is a word of its own.
pub word_sum-tcp_hdr :
    (m : Endian) (h : TcpHdr) (sum : ℕ)
    → IsTcpHdr h
    → h.sum ≡ 0
    → sum < 2 ^ 16
    → (word_sum m (write_tcp_hdr m (record h { sum = sum })) ≡ word_sum m (write_tcp_hdr m h) + sum)
      × (word_sum m (write_tcp_hdr m h) < 2 ^ 20)
unfolding word_sum write_tcp_hdr store16 store32 load16
word_sum-tcp_hdr little h sum fits blank small = omega (arith, fits)
word_sum-tcp_hdr big h sum fits blank small = omega (arith, fits)
