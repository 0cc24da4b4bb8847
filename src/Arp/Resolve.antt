-- ===== src/Arp/Resolve.antt =====
-- arp.c: `arp_resolve`. A call that finds a pending entry waits on its condition variable; what happens
-- until it wakes up is a sequence of other steps, and `arp_resolve_wake` is the rest of the call.
pub mod Laws
use protocol_stack.Base.{
  ℕ, Bool, true, not, ◌||◌, List, [], Option, none, some, length, take, get_or, set, if◌then◌else◌,
}
use protocol_stack.Util.ByteOrder.{Endian}
use protocol_stack.Net.{Netif, Netdev}
use protocol_stack.Ethernet.{ethernet_addr_len, ethernet_addr_any, bytes_eq}
use protocol_stack.Arp.Table.{
  Arp, ArpEntry, empty_entry, Transmit, arp_table_select, arp_table_freespace, arp_entry_clear,
}
use protocol_stack.Arp.Message.{arp_send_request}

-- ARP_RESOLVE_ERROR, ARP_RESOLVE_QUERY, ARP_RESOLVE_FOUND with the address, or the wait on entry `i`.
pub data Resolve : Type 0 where
  error query : Arp → List Transmit → Resolve
  found : List ℕ → Arp → Resolve
  waiting : ℕ → Arp → List Transmit → Resolve

-- The copy of the packet: `none` is a failed `malloc`.
unfoldable pub copy_packet : Bool → Option (List ℕ) → Option (Option (List ℕ))
copy_packet malloc_ok none = some none
copy_packet malloc_ok (some packet) = if malloc_ok then some (some packet) else none

-- No entry for `pa`: take a free one, keep the packet in it, and ask.
unfoldable pub arp_resolve_new :
    Endian → ℕ → Bool → Netdev → Netif → ℕ → Option (List ℕ) → Arp → Resolve
arp_resolve_new m now malloc_ok dev netif pa packet st = elim (arp_table_freespace st.table) [
  | none ↦ error st []
  | some i ↦
      let free = get_or st.table i empty_entry in
      elim (copy_packet malloc_ok packet) [
        | none ↦ error (record st { table = set st.table i (record free { queued = none }) }) []
        | some kept ↦
            let entry : ArpEntry = record free {
              used = true;
              pa = pa;
              timestamp = now;
              queued = elim kept [ none ↦ free.queued | some p ↦ some p ];
              len = elim kept [ none ↦ free.len | some p ↦ length p ];
              netif = some netif;
            } in
            query (record st { table = set st.table i entry })
              (arp_send_request m dev netif (some pa))
      ]
]

-- `dev` is `netif->dev`.
unfoldable pub arp_resolve :
    Endian → ℕ → Bool → Netdev → Netif → ℕ → Option (List ℕ) → Arp → Resolve
arp_resolve m now malloc_ok dev netif pa packet st = elim (arp_table_select pa st.table) [
  | none ↦ arp_resolve_new m now malloc_ok dev netif pa packet st
  | some i ↦
      let entry = get_or st.table i empty_entry in
      if bytes_eq (take ethernet_addr_len entry.ha) ethernet_addr_any
      then waiting i st (arp_send_request m dev netif (some pa))
      else found (take ethernet_addr_len entry.ha) st
]

-- The end of a wait, `timed_out` for ETIMEDOUT.
unfoldable pub arp_resolve_wake : ℕ → Bool → Arp → Resolve
arp_resolve_wake i timed_out st =
    let entry = get_or st.table i empty_entry in
    if not entry.used || timed_out
    then error
        (if entry.used then record st { table = set st.table i (arp_entry_clear entry) } else st) []
    else found (take ethernet_addr_len entry.ha) st
