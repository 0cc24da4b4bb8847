-- ===== src/Ip/Header/RoundTrip.antt =====
-- ip.h: a header that is written is read back, and its checksum.
use protocol_stack.Base.{ℕ, ◌+◌, ◌^◌, ◌<◌, ◌≡◌, refl, arith, List, ◌++◌, take, drop, length}
use protocol_stack.Util.ByteOrder.{Endian, little, big, load16, load32, store16, store32}
use protocol_stack.Util.Checksum.{cksum16}
use protocol_stack.Util.Checksum.Laws.{cksum16_zero-short, word_sum, cksum16_completes}
use protocol_stack.Ip.Header.{IpHdr, write_header, read_header}

pub record Fits (h : IpHdr) : Type 0 where
  pub vhl : h.vhl < 256
  pub tos : h.tos < 256
  pub len : h.len < 2 ^ 16
  pub id : h.id < 2 ^ 16
  pub offset : h.offset < 2 ^ 16
  pub ttl : h.ttl < 256
  pub protocol : h.protocol < 256
  pub sum : h.sum < 2 ^ 16
  pub src : h.src < 2 ^ 32
  pub dst : h.dst < 2 ^ 32

-- A header in front of anything is read back, is 20 bytes long, and ends where the rest begins.
pub read-write :
    (m : Endian) (h : IpHdr) (rest : List ℕ)
    → Fits h
    → (read_header m (write_header m h ++ rest) ≡ h)
      × (take 20 (write_header m h ++ rest) ≡ write_header m h)
      × (drop 20 (write_header m h ++ rest) ≡ rest)
      × (length (write_header m h ++ rest) ≡ 20 + length rest)
unfolding read_header write_header store16 store32 load16 load32
read-write little h rest fits = (ground (arith, fits), refl, refl, omega arith)
read-write big h rest fits = (ground (arith, fits), refl, refl, omega arith)

-- The sum of a header's words, the checksum field being a word of its own.
word_sum-header :
    (m : Endian) (h : IpHdr)
    → Fits h
    → (word_sum m (write_header m h) ≡ word_sum m (write_header m (record h { sum = 0 })) + h.sum)
      × (word_sum m (write_header m (record h { sum = 0 })) < 2 ^ 20)
unfolding word_sum write_header store16 store32 load16
word_sum-header little h fits = omega (arith, fits)
word_sum-header big h fits = omega (arith, fits)

header-length : (m : Endian) (h : IpHdr) → length (write_header m h) ≡ 20
unfolding write_header store16 store32
header-length little h = refl
header-length big h = refl

-- A header whose checksum field holds `cksum16` of the header with 0 there has checksum 0.
pub cksum16-write :
    (m : Endian) (h : IpHdr)
    → Fits h
    → h.sum ≡ cksum16 m (write_header m (record h { sum = 0 })) 0
    → cksum16 m (write_header m h) 0 ≡ 0
cksum16-write m h fits e =
    let (split, small) = word_sum-header m h fits in
    let blank = write_header m (record h { sum = 0 }) in
    let (fits16, multiple, positive) =
      cksum16_completes m blank 0 (omega (arith, header-length m (record h { sum = 0 })))
        (omega arith) in
    (cksum16_zero-short m (write_header m h) 0 (omega (arith, header-length m h)) (omega arith)).1
      (omega arith, omega arith)
