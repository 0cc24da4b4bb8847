-- ===== src/Arp/Rx.antt =====
-- arp.c: `arp_rx`. The lock is released between the update of the table and the insertion, so these are
-- two steps; `arp_rx` makes them with nothing in between.
pub mod Laws
use protocol_stack.Base.{
  ℕ, ◌+◌, Bool, true, false, ◌&&◌, not, List, [], ◌++◌, Option, none, some, ◌==◌, ltb, length,
  if◌then◌else◌,
}
use protocol_stack.Util.ByteOrder.{Endian, ntoh16}
use protocol_stack.Net.{Netif, Netdev, netdev_get_netif, netif_family_ipv4}
use protocol_stack.Ethernet.{ethernet_addr_len, ethernet_type_ip}
use protocol_stack.Arp.Table.{
  Arp, Transmit, not_found, fault, updated, arp_table_insert, arp_table_update, arp_table_patrol,
}
use protocol_stack.Arp.Message.{
  ArpMessage, read_message, arp_send_reply, arp_message_size, arp_hrd_ethernet, arp_op_request,
  ip_addr_len,
}

-- The five tests at the beginning.
unfoldable pub is_valid_message : Endian → List ℕ → Bool
is_valid_message m packet =
    let message = read_message m packet in
    not (ltb (length packet) arp_message_size)
    && (ntoh16 m message.hrd == arp_hrd_ethernet
        && (ntoh16 m message.pro == ethernet_type_ip
            && (message.hln == ethernet_addr_len && message.pln == ip_addr_len)))

-- The patrol, at most once in ten seconds.
unfoldable pub arp_patrol : ℕ → Arp → Arp
arp_patrol now st =
    if ltb (st.timestamp + 10) now
    then record { table = arp_table_patrol now st.table; timestamp = now }
    else st

pub data Outcome : Type 0 where
  crash : Outcome
  done : Arp → List Transmit → Outcome

-- The first critical section: the state, whether the entry was there, and what is sent.
pub data Merge : Type 0 where
  merge_crash : Merge
  merged : Arp → Bool → List Transmit → Merge

unfoldable pub arp_rx_update : ℕ → Netdev → ArpMessage → Arp → Merge
arp_rx_update now dev message st =
    let st' = arp_patrol now st in
    elim (arp_table_update now dev.id message.spa message.sha st'.table) [
      | not_found ↦ merged st' false []
      | fault ↦ merge_crash
      | updated table out ↦ merged (record st' { table = table }) true out
    ]

-- The second critical section. A full table leaves everything as it was.
unfoldable pub arp_rx_insert : ℕ → ArpMessage → Arp → Arp
arp_rx_insert now message st = elim (arp_table_insert now message.spa message.sha st.table) [
  | none ↦ st
  | some table ↦ record st { table = table }
]

-- What follows the first critical section; `out` is what it has sent.
unfoldable pub arp_rx_target :
    Endian → ℕ → Netdev → ArpMessage → Option Netif → Arp → Bool → List Transmit → Outcome
arp_rx_target m now dev message none st merge out = done st out
arp_rx_target m now dev message (some netif) st merge out =
    if netif.unicast == message.tpa
    then done (if merge then st else arp_rx_insert now message st) (
        out
        ++ (if ntoh16 m message.op == arp_op_request
            then arp_send_reply m dev netif message.sha message.spa message.sha
            else []))
    else done st out

unfoldable pub arp_rx : Endian → ℕ → List ℕ → Netdev → Arp → Outcome
arp_rx m now packet dev st =
    if is_valid_message m packet
    then elim (arp_rx_update now dev (read_message m packet) st) [
      | merge_crash ↦ crash
      | merged st' merge out ↦
          arp_rx_target m now dev (read_message m packet) (netdev_get_netif dev netif_family_ipv4)
            st' merge out
    ]
    else done st []
