-- ===== src/Arp/Message.antt =====
-- arp.c: `struct arp_ethernet`, `arp_send_request` and `arp_send_reply`. A protocol address is kept as
-- the machine reads its four bytes, as everywhere in the program.
pub mod RoundTrip
use protocol_stack.Base.{ℕ, ◌+◌, List, [], ◌∷◌, ◌++◌, Option, none, some, take, drop, get_or}
use protocol_stack.Util.ByteOrder.{Endian, load16, load32, store16, store32, hton16}
use protocol_stack.Net.{Netif, Netdev}
use protocol_stack.Ethernet.{
  ethernet_addr_len, ethernet_addr_any, ethernet_addr_broadcast, ethernet_type_ip,
  ethernet_type_arp,
}
use protocol_stack.Arp.Table.{Transmit}

abbrev pub arp_hrd_ethernet : ℕ
arp_hrd_ethernet = 0x0001

abbrev pub arp_op_request : ℕ
arp_op_request = 1

abbrev pub arp_op_reply : ℕ
arp_op_reply = 2

abbrev pub ip_addr_len : ℕ
ip_addr_len = 4

abbrev pub arp_message_size : ℕ
arp_message_size = 28

-- `struct arp_hdr` and the rest of `struct arp_ethernet`; the numbers as they stand in memory.
pub record ArpMessage : Type 0 where
  pub hrd : ℕ
  pub pro : ℕ
  pub hln : ℕ
  pub pln : ℕ
  pub op : ℕ
  pub sha : List ℕ
  pub spa : ℕ
  pub tha : List ℕ
  pub tpa : ℕ

-- The 28 bytes of a message.
unfoldable pub write_message : Endian → ArpMessage → List ℕ
write_message m message =
    store16 m message.hrd
    ++ (store16 m message.pro
        ++ (message.hln ∷ message.pln ∷ store16 m message.op
            ++ (message.sha ++ (store32 m message.spa ++ (message.tha ++ store32 m message.tpa)))))

-- `(struct arp_ethernet *)packet`, for a packet that is long enough.
unfoldable pub read_message : Endian → List ℕ → ArpMessage
read_message m packet = record {
  hrd = half 0;
  pro = half 2;
  hln = byte 4;
  pln = byte 5;
  op = half 6;
  sha = take ethernet_addr_len (drop 8 packet);
  spa = word 14;
  tha = take ethernet_addr_len (drop 18 packet);
  tpa = word 24;
}
  where
    byte : ℕ → ℕ
    byte i = get_or packet i 0

    half : ℕ → ℕ
    half i = load16 m (byte i) (byte (i + 1))

    word : ℕ → ℕ
    word i = load32 m (byte i) (byte (i + 1)) (byte (i + 2)) (byte (i + 3))

-- The header and the sender's addresses, as both functions that send a message fill them in.
unfoldable pub own_message : Endian → Netdev → Netif → ℕ → List ℕ → ℕ → ArpMessage
own_message m dev netif op tha tpa = record {
  hrd = hton16 m arp_hrd_ethernet;
  pro = hton16 m ethernet_type_ip;
  hln = ethernet_addr_len;
  pln = ip_addr_len;
  op = hton16 m op;
  sha = take ethernet_addr_len dev.addr;
  spa = netif.unicast;
  tha = tha;
  tpa = tpa;
}

-- `dev` is `netif->dev`. No caller looks at what these functions return.
unfoldable pub arp_send_request : Endian → Netdev → Netif → Option ℕ → List Transmit
arp_send_request m dev netif none = []
arp_send_request m dev netif (some tpa) =
    record {
      dev = dev.id;
      type = ethernet_type_arp;
      packet = write_message m (own_message m dev netif arp_op_request ethernet_addr_any tpa);
      dst = ethernet_addr_broadcast;
    }
    ∷ []

unfoldable pub arp_send_reply : Endian → Netdev → Netif → List ℕ → ℕ → List ℕ → List Transmit
arp_send_reply m dev netif tha tpa dst =
    record {
      dev = dev.id;
      type = ethernet_type_arp;
      packet =
          write_message m (own_message m dev netif arp_op_reply (take ethernet_addr_len tha) tpa);
      dst = dst;
    }
    ∷ []
