-- ===== src/Arp/Table.antt =====
-- arp.c: `struct arp_entry`, the table and the functions on it. The table is the list of its entries,
-- a pointer into it is an index, and time is an argument. Condition variables carry no data: who waits
-- on an entry is in `Resolve`.
pub mod Lookup
pub mod Wf
pub mod Change
use protocol_stack.Base.{
  ℕ, suc, ◌+◌, Bool, true, false, not, ◌&&◌, List, [], ◌∷◌, Option, none, some, ◌==◌, ltb, take,
  get_or, set, replicate, if◌then◌else◌,
}
use protocol_stack.Net.{Netif}
use protocol_stack.Ethernet.{ethernet_addr_len, ethernet_addr_any, ethernet_type_ip}

unfoldable pub arp_table_size : ℕ
arp_table_size = 4096

abbrev pub arp_table_timeout_sec : ℕ
arp_table_timeout_sec = 300

-- `data` is `queued` here: the packet that waits for the address.
pub record ArpEntry : Type 0 where
  pub used : Bool
  pub pa : ℕ
  pub ha : List ℕ
  pub timestamp : ℕ
  pub queued : Option (List ℕ)
  pub len : ℕ
  pub netif : Option Netif

-- An entry of the static table before its first use.
abbrev pub empty_entry : ArpEntry
empty_entry = record {
  used = false;
  pa = 0;
  ha = ethernet_addr_any;
  timestamp = 0;
  queued = none;
  len = 0;
  netif = none;
}

-- The static variables of arp.c.
pub record Arp : Type 0 where
  pub table : List ArpEntry
  pub timestamp : ℕ

unfoldable pub arp_init : ℕ → Arp
arp_init now = record { table = replicate arp_table_size empty_entry; timestamp = now }

-- A call of `dev->ops->tx`; `dev` is the device's address.
pub record Transmit : Type 0 where
  pub dev : ℕ
  pub type : ℕ
  pub packet : List ℕ
  pub dst : List ℕ

abbrev pub next_index : Option ℕ → Option ℕ
next_index none = none
next_index (some i) = some (suc i)

unfoldable pub arp_table_freespace : List ArpEntry → Option ℕ
arp_table_freespace [] = none
arp_table_freespace (entry ∷ rest) =
    if not entry.used then some 0 else next_index (arp_table_freespace rest)

unfoldable pub arp_table_select : ℕ → List ArpEntry → Option ℕ
arp_table_select pa [] = none
arp_table_select pa (entry ∷ rest) =
    if entry.used && entry.pa == pa then some 0 else next_index (arp_table_select pa rest)

unfoldable pub arp_table_insert : ℕ → ℕ → List ℕ → List ArpEntry → Option (List ArpEntry)
arp_table_insert now pa ha table = elim (arp_table_freespace table) [
  | none ↦ none
  | some i ↦
      let entry = get_or table i empty_entry in
      some (
        set table i
          (record entry { used = true; pa = pa; ha = take ethernet_addr_len ha; timestamp = now }))
]

-- `fault` is the read through a null `netif` or `dev`.
pub data Update : Type 0 where
  not_found : Update
  fault : Update
  updated : List ArpEntry → List Transmit → Update

-- The device that a queued packet leaves by: its own, with a warning where the reply came in by another.
abbrev pub queue_dev : ℕ → Option Netif → Option ℕ
queue_dev dev none = none
queue_dev dev (some netif) = elim netif.dev [
  | none ↦ none
  | some own ↦ some (if not (own == dev) then own else dev)
]

unfoldable pub flush_queue : ℕ → List ArpEntry → ℕ → ArpEntry → Option (List ℕ) → Update
flush_queue dev table i entry none = updated (set table i entry) []
flush_queue dev table i entry (some packet) = elim (queue_dev dev entry.netif) [
  | none ↦ fault
  | some out ↦ updated (set table i (record entry { queued = none; len = 0 })) (
      record { dev = out; type = ethernet_type_ip; packet = take entry.len packet; dst = entry.ha }
      ∷ [])
]

unfoldable pub arp_table_update : ℕ → ℕ → ℕ → List ℕ → List ArpEntry → Update
arp_table_update now dev pa ha table = elim (arp_table_select pa table) [
  | none ↦ not_found
  | some i ↦
      let found = get_or table i empty_entry in
      let entry : ArpEntry = record found { ha = take ethernet_addr_len ha; timestamp = now } in
      flush_queue dev table i entry entry.queued
]

unfoldable pub arp_entry_clear : ArpEntry → ArpEntry
arp_entry_clear entry = record {
  used = false;
  pa = 0;
  ha = ethernet_addr_any;
  timestamp = 0;
  queued = none;
  len = elim entry.queued [ none ↦ entry.len | some _ ↦ 0 ];
  netif = none;
}

-- `timestamp - entry->timestamp > ARP_TABLE_TIMEOUT_SEC`, which is a signed comparison.
unfoldable pub is_expired : ℕ → ArpEntry → Bool
is_expired timestamp entry = entry.used && ltb (entry.timestamp + arp_table_timeout_sec) timestamp

unfoldable pub arp_table_patrol : ℕ → List ArpEntry → List ArpEntry
arp_table_patrol timestamp [] = []
arp_table_patrol timestamp (entry ∷ rest) =
    (if is_expired timestamp entry then arp_entry_clear entry else entry)
    ∷ arp_table_patrol timestamp rest
