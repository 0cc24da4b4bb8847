-- ===== src/Ip/Receive/Packets.antt =====
-- ip.c: the packets of `ip_tx` on their way to `ip_rx`.
use protocol_stack.Ip.Fragment.{IpFragment}
use protocol_stack.Ip.Rx.Laws.{is_fragmented_iff}
use protocol_stack.Ip.Fragment.Collect.{InPiece}
use protocol_stack.Ip.Header.{ipaddr_broadcast, write_header, IpHdr}
use protocol_stack.Net.{netif_family_ipv4, netdev_get_netif, Netif}
use protocol_stack.Ip.Receive.{
  ip_rx, IpRx, IpProtocol, Netdev, Endian, rx_broken, rx_crash, rx_done,
}
use protocol_stack.Ip.Rx.{is_fragmented}
use protocol_stack.Ip.Tx.{fragment_offset, ip_tx_header, source_of}
use protocol_stack.Ip.Fragment.Process.{
  patrol_crash, Stored, Reassembly, Chunk, Clock, Process, completed, broken, pending,
}
use protocol_stack.Base.{
  arith, ◌++◌, ◌⊎◌, length, ◌≡◌, ◌^◌, Option, ◌<◌, ◌≤◌, List, ◌∷◌, refl, true, inr, inl, some, [],
  ℕ, ◌+◌,
}
use protocol_stack.Ip.Tx.Plan.{Piece, IsPiece, piece_bytes}
use protocol_stack.Ip.Fragment.Arrivals.{HasByte, Arrival}

-- A packet that `ip_rx` gets, and the environment of the call.
pub record Incoming : Type 0 where
  pub dgram : List ℕ
  pub clock : Clock
  pub chunk : Option Chunk

module _ {S : Type 0} (m : Endian) (dev : Netdev) (protocols : List (IpProtocol S)) where
  -- Packets that arrive one after the other.
  unfoldable pub ip_rx_all : List Incoming → Reassembly → S → IpRx S
  ip_rx_all [] st s = rx_done st s
  ip_rx_all (p ∷ packets) st s = elim (ip_rx m dev protocols p.clock p.chunk p.dgram st s) [
    | rx_crash ↦ rx_crash
    | rx_broken bad ↦ rx_broken bad
    | rx_done st' s' ↦ ip_rx_all packets st' s'
  ]

-- What the sender fixes for all fragments of a datagram.
pub record Sender : Type 0 where
  pub netif : Netif
  pub protocol : ℕ
  pub src : Option ℕ
  pub dst : ℕ
  pub id : ℕ

-- The sender's fields fit their widths, and its packets are for the receiver's interface.
pub record Reaches (from : Sender) (receiver : Netdev) (n : Netif) : Type 0 where
  pub protocol : from.protocol < 256
  pub id : from.id < 2 ^ 16
  pub dst : from.dst < 2 ^ 32
  pub src : source_of from.netif from.src < 2 ^ 32
  pub interface : netdev_get_netif receiver netif_family_ipv4 ≡ some n
  pub to_n : (from.dst ≡ n.unicast) ⊎ (from.dst ≡ n.broadcast) ⊎ (from.dst ≡ ipaddr_broadcast)

-- The header that `ip_tx_core` makes of a piece of a payload of `len` bytes.
unfoldable pub piece_header : Endian → Sender → ℕ → Piece → IpHdr
piece_header m from len p =
    ip_tx_header m from.netif from.protocol p.size from.src from.dst from.id
      (fragment_offset len p.pos p.size)

-- The packet that `ip_tx_core` makes of a piece.
abbrev pub piece_packet : Endian → Sender → List ℕ → Piece → List ℕ
piece_packet m from buf p = write_header m (piece_header m from (length buf) p) ++ piece_bytes buf p

-- A piece on its way, with the link's padding after it.
pub record Carried : Type 0 where
  pub piece : Piece
  pub padding : List ℕ
  pub clock : Clock
  pub chunk : Option Chunk

abbrev pub packets_of : Endian → Sender → List ℕ → List Carried → List Incoming
packets_of m from buf [] = []
packets_of m from buf (c ∷ pieces) =
    record {
      dgram = piece_packet m from buf c.piece ++ c.padding;
      clock = c.clock;
      chunk = c.chunk;
    }
    ∷ packets_of m from buf pieces

-- The piece is one of a payload that takes more than one, and arrives in the 30 seconds from `since` on.
pub record IsCarried (step len since : ℕ) (c : Carried) : Type 0 where
  pub piece : IsPiece step len c.piece
  pub after : since ≤ c.clock.stamped
  pub in_time : c.clock.patrolled_at ≤ since + 30

abbrev pub CarriesByte : List Carried → ℕ → Type 0
CarriesByte [] k = ⊥
CarriesByte (c ∷ pieces) k = InPiece c.piece k ⊎ CarriesByte pieces k

abbrev pub arrival_of : Endian → Sender → ℕ → Carried → Arrival
arrival_of m from len c = record {
  piece = c.piece;
  padding = c.padding;
  hdr = piece_header m from len c.piece;
  clock = c.clock;
  chunk = c.chunk;
}

abbrev pub arrivals_of : Endian → Sender → ℕ → List Carried → List Arrival
arrivals_of m from len [] = []
arrivals_of m from len (c ∷ pieces) = arrival_of m from len c ∷ arrivals_of m from len pieces

pub arrivals_of-HasByte :
    (m : Endian) (from : Sender) (len : ℕ) (pieces : List Carried) (k : ℕ)
    → CarriesByte pieces k
    → HasByte (arrivals_of m from len pieces) k
arrivals_of-HasByte m from len [] k h = h
arrivals_of-HasByte m from len (c ∷ pieces) k (inl now) = inl now
arrivals_of-HasByte m from len (c ∷ pieces) k (inr later) =
    inr (arrivals_of-HasByte m from len pieces k later)

pub piece-fragmented :
    (step len : ℕ) (p : Piece)
    → step < len
    → len ≤ 65535
    → IsPiece step len p
    → is_fragmented (fragment_offset len p.pos p.size) ≡ true
piece-fragmented step len p more small piece =
    (is_fragmented_iff (fragment_offset len p.pos p.size) (ground (arith, piece.flag))).1
      (λ none_set. ground (arith, piece.flag, piece.aligned, piece.fits, none_set))

pub Process-cases :
    (p : Process)
    → ((p ≡ patrol_crash) ⊎ ((bad : Stored) × (p ≡ broken bad)))
      ⊎ (((st : Reassembly) × (p ≡ pending st))
          ⊎ ((f : IpFragment) × (st : Reassembly) × (p ≡ completed f st)))
Process-cases patrol_crash = inl (inl refl)
Process-cases (broken bad) = inl (inr (bad, refl))
Process-cases (pending st) = inr (inl (st, refl))
Process-cases (completed f st) = inr (inr (f, st, refl))
