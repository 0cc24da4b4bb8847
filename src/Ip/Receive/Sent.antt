-- ===== src/Ip/Receive/Sent.antt =====
-- ip.c: `ip_tx` on one host and `ip_rx` on the other, when every packet of the datagram gets through.
use protocol_stack.Ip.Receive.Packets.{piece_packet, Carried, Sender}
use protocol_stack.Ip.Fragment.Collect.{InPiece}
use protocol_stack.Ip.Header.{ipaddr_broadcast}
use protocol_stack.Ip.Receive.{Endian}
use protocol_stack.Ip.Tx.{next_round, IpTx, Sent, complete}
use protocol_stack.Ip.Tx.Plan.{Piece}
use protocol_stack.Net.{Netif}
use protocol_stack.Base.{
  Option, none, some, ◌≡◌, ◌≤◌, ◌+◌, ◌⊎◌, ◌==◌, List, [], ◌∷◌, ℕ, if◌then◌else◌,
}

abbrev pub IsAmong : List Piece → Piece → Type 0
IsAmong [] p = ⊥
IsAmong (q ∷ plan) p = (p ≡ q) ⊎ IsAmong plan p

-- The piece has come through.
abbrev pub HasCome : List Carried → Piece → Type 0
HasCome [] p = ⊥
HasCome (c ∷ carried) p = (c.piece ≡ p) ⊎ HasCome carried p

-- A packet of the plan, that arrives in the 30 seconds from `since` on.
pub record IsOnTime (plan : List Piece) (since : ℕ) (c : Carried) : Type 0 where
  pub planned : IsAmong plan c.piece
  pub after : since ≤ c.clock.stamped
  pub in_time : c.clock.patrolled_at ≤ since + 30

-- What a call of `ip_tx` fixes for all its packets.
abbrev pub sender_of : Netif → ℕ → ℕ → ℕ → Sender
sender_of netif protocol dst id = record {
  netif = netif;
  protocol = protocol;
  src = if dst == ipaddr_broadcast then none else some netif.unicast;
  dst = dst;
  id = id;
}

-- The address that `ip_tx` gives to `ip_tx_netdev`; none is a broadcast.
abbrev pub nexthop_of : ℕ → Option ℕ
nexthop_of dst = if dst == ipaddr_broadcast then none else some dst

abbrev pub packets_of_plan : Endian → Sender → List ℕ → List Piece → List (List ℕ)
packets_of_plan m from buf [] = []
packets_of_plan m from buf (p ∷ plan) = piece_packet m from buf p ∷ packets_of_plan m from buf plan

-- Sends packets one by one, until one fails.
unfoldable pub send_packets : {S : Type 0} → (List ℕ → S → Sent × S) → List (List ℕ) → S → IpTx × S
send_packets send [] s = (complete, s)
send_packets send (packet ∷ rest) s = next_round (send packet s) (λ s'. send_packets send rest s')

abbrev PlanHasByte : List Piece → ℕ → Type 0
PlanHasByte [] k = ⊥
PlanHasByte (p ∷ plan) k = InPiece p k ⊎ PlanHasByte plan k
