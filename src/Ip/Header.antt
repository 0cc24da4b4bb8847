-- ===== src/Ip/Header.antt =====
-- ip.h: `struct ip_hdr`, without options.
pub mod RoundTrip
use protocol_stack.Base.{ℕ, ◌+◌, List, [], ◌∷◌, ◌++◌, get_or}
use protocol_stack.Util.ByteOrder.{Endian, load16, load32, store16, store32}

abbrev pub ip_version_ipv4 : ℕ
ip_version_ipv4 = 4

abbrev pub ip_protocol_tcp : ℕ
ip_protocol_tcp = 6

abbrev pub ip_hdr_size_min : ℕ
ip_hdr_size_min = 20

abbrev pub ipaddr_broadcast : ℕ
ipaddr_broadcast = 0xffffffff

-- The numbers as the machine reads them in memory: 16-bit fields are in network order there.
pub record IpHdr : Type 0 where
  pub vhl : ℕ
  pub tos : ℕ
  pub len : ℕ
  pub id : ℕ
  pub offset : ℕ
  pub ttl : ℕ
  pub protocol : ℕ
  pub sum : ℕ
  pub src : ℕ
  pub dst : ℕ

unfoldable pub write_header : Endian → IpHdr → List ℕ
write_header m hdr =
    hdr.vhl
    ∷ hdr.tos
    ∷ (store16 m hdr.len
        ++ (store16 m hdr.id
            ++ (store16 m hdr.offset
                ++ (hdr.ttl
                    ∷ hdr.protocol
                    ∷ (store16 m hdr.sum ++ (store32 m hdr.src ++ store32 m hdr.dst))))))

-- `(struct ip_hdr *)dgram`, for a datagram that is long enough.
unfoldable pub read_header : Endian → List ℕ → IpHdr
read_header m dgram = record {
  vhl = byte 0;
  tos = byte 1;
  len = half 2;
  id = half 4;
  offset = half 6;
  ttl = byte 8;
  protocol = byte 9;
  sum = half 10;
  src = word 12;
  dst = word 16;
}
  where
    byte : ℕ → ℕ
    byte i = get_or dgram i 0

    half : ℕ → ℕ
    half i = load16 m (byte i) (byte (i + 1))

    word : ℕ → ℕ
    word i = load32 m (byte i) (byte (i + 1)) (byte (i + 2)) (byte (i + 3))
