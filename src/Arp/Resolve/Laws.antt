-- ===== src/Arp/Resolve/Laws.antt =====
-- arp.c: `arp_resolve` and the end of its wait.
use mathlib.Core.Option.{some-injective}
use protocol_stack.Ethernet.Laws.{bytes_eq→eq, bytes_eq_refl}
use protocol_stack.Base.{
  ℕ, zero, suc, ◌≡◌, ◌≢◌, refl, ap, sym, ◌∙◌, subst, arith, Bool, true, false, List, [], ◌∷◌,
  Option, none, some, inl, inr, ◌⊎◌, ◌==◌, take, length, get_or, set, if◌then◌else◌, length-set,
  Option-cases, take_all,
}
use protocol_stack.Util.ByteOrder.{Endian}
use protocol_stack.Net.{Netif, Netdev}
use protocol_stack.Ethernet.{ethernet_addr_any}
use protocol_stack.Arp.Table.{
  Arp, ArpEntry, empty_entry, Transmit, arp_table_select, arp_table_freespace, arp_table_insert,
  arp_entry_clear,
}
use protocol_stack.Arp.Table.Lookup.{
  entry_of, IsUnique, entry_of-set_free, entry_of-set_unused, select-some, select-none,
  entry_of-none, freespace-some,
}
use protocol_stack.Arp.Table.Wf.{
  IsEntry, IsTable, get-IsEntry, clear-IsEntry, set_free-IsTable, set_unused-IsTable,
}
use protocol_stack.Arp.Table.Change.{insert-not-IsUnique, insert-none, IsChanged}
use protocol_stack.Arp.Message.{ArpMessage, arp_send_request}
use protocol_stack.Arp.Rx.{arp_rx_insert}
use protocol_stack.Arp.Resolve.{
  error, query, found, waiting, copy_packet, arp_resolve_new, arp_resolve, arp_resolve_wake,
}

-- An entry that has been asked for, with the packet that waits.
abbrev pub pending : ℕ → ℕ → Option (List ℕ) → Netif → ArpEntry
pending now pa packet netif = record {
  used = true;
  pa = pa;
  ha = ethernet_addr_any;
  timestamp = now;
  queued = packet;
  len = elim packet [ none ↦ 0 | some p ↦ length p ];
  netif = some netif;
}

pending-IsEntry :
    (now pa : ℕ) (packet : Option (List ℕ)) (netif : Netif)
    → netif.dev ≢ none
    → IsEntry (pending now pa packet netif)
pending-IsEntry now pa none netif has_dev = record { blank = λ c. cc; queue = refl; address = refl }
pending-IsEntry now pa (some p) netif has_dev = record {
  blank = λ c. cc;
  queue = (refl, has_dev);
  address = refl;
}

cleared_unused : (e : ArpEntry) → (arp_entry_clear e).used ≡ false
unfolding arp_entry_clear
cleared_unused e = refl

set-get : (t : List ArpEntry) (i : ℕ) (d : ArpEntry) → set t i (get_or t i d) ≡ t
set-get [] i d = refl
set-get (e ∷ t) zero d = refl
set-get (e ∷ t) (suc i) d = ap (◌∷◌ e) (set-get t i d)

module _ (m : Endian) (now : ℕ) (dev : Netdev) (netif : Netif) (pa : ℕ) (packet : Option (List ℕ))
    (st : Arp) (h : IsTable st.table) where
  -- A call for an address with an entry does not change the table: it returns the hardware address, or
  -- asks once more and waits if the address has not come yet.
  pub arp_resolve-entry :
      (malloc_ok : Bool) (e : ArpEntry)
      → entry_of pa st.table ≡ some e
      → (e.ha ≢ ethernet_addr_any
          → arp_resolve m now malloc_ok dev netif pa packet st ≡ found e.ha st)
        × (e.ha ≡ ethernet_addr_any
            → (i : ℕ) × (get_or st.table i empty_entry ≡ e)
              × (arp_resolve m now malloc_ok dev netif pa packet st
                  ≡ waiting i st (arp_send_request m dev netif (some pa))))
  unfolding arp_resolve
  arp_resolve-entry malloc_ok e known = elim (Option-cases (arp_table_select pa st.table)) [
    | inl missing ↦ absurd (ground (arith, select-none pa st.table missing))
    | inr (i, sel) ↦
        let slot_eq : get_or st.table i empty_entry ≡ e =
          some-injective _ _ (sym (select-some pa i st.table sel).0 ∙ known) in
        let six_bytes : length e.ha ≡ 6 =
          subst (λ (x : ArpEntry). length x.ha ≡ 6) slot_eq
            (get-IsEntry st.table i h.entries).address in
        let whole : take 6 e.ha ≡ e.ha = take_all 6 e.ha (omega arith) in
        (
          λ ne. ground (arith, sel, slot_eq, whole, bytes_eq→eq e.ha ethernet_addr_any),
          λ unknown.
              (i, slot_eq, ground (arith, sel, slot_eq, whole, bytes_eq_refl ethernet_addr_any)),
        )
  ]

  -- A call for an address without an entry, with memory for the packet, enters the address as pending with the
  -- packet, changes no other, and asks, if there is a free entry. Without one it fails and changes nothing.
  pub arp_resolve-new :
      entry_of pa st.table ≡ none
      → netif.dev ≢ none
      → ((arp_table_freespace st.table ≡ none)
          × (arp_resolve m now true dev netif pa packet st ≡ error st []))
        ⊎ ((st' : Arp) × (arp_resolve m now true dev netif pa packet st
              ≡ query st' (arp_send_request m dev netif (some pa)))
            × IsChanged pa (pending now pa packet netif) st.table st'.table)
  unfolding arp_resolve arp_resolve_new copy_packet
  arp_resolve-new new has_dev = elim (Option-cases (arp_table_freespace st.table)) [
    | inl full ↦ inl (full, ground (arith, entry_of-none pa st.table new))
    | inr (i, free) ↦
        let slot : ArpEntry = get_or st.table i empty_entry in
        let ok = get-IsEntry st.table i h.entries in
        let blank = ok.blank (freespace-some i st.table free).0 in
        let v : ArpEntry = pending now pa packet netif in
        let v_ok : IsEntry v = pending-IsEntry now pa packet netif has_dev in
        inr (
          record st { table = set st.table i v },
          ground (arith, entry_of-none pa st.table new, free, blank, ok.queue, Option-cases packet),
          record {
            kept = set_free-IsTable i v st.table v_ok h free new refl;
            lookup = λ k. entry_of-set_free k i v st.table free new refl;
            same_length = length-set st.table i v;
          },
        )
  ]

  -- Without memory for the packet the call fails and the table is as it was.
  pub arp_resolve-no_memory :
      (p : List ℕ)
      → packet ≡ some p
      → entry_of pa st.table ≡ none
      → arp_resolve m now false dev netif pa packet st ≡ error st []
  unfolding arp_resolve arp_resolve_new copy_packet
  arp_resolve-no_memory p has_packet new = elim (Option-cases (arp_table_freespace st.table)) [
    | inl full ↦ ground (arith, entry_of-none pa st.table new)
    | inr (i, free) ↦
        let ok = get-IsEntry st.table i h.entries in
        let blank = ok.blank (freespace-some i st.table free).0 in
        let same : record (get_or st.table i empty_entry) { queued = none }
            ≡ get_or st.table i empty_entry =
          ground (arith, blank) in
        ground (
          arith,
          entry_of-none pa st.table new,
          free,
          ap (set st.table i) same,
          set-get st.table i empty_entry,
        )
  ]

-- What a wait leaves. An entry that was cleared meanwhile, or a timeout, is an error, and the entry is
-- given up with its packet; otherwise the address in the entry is returned.
pub arp_resolve_wake_lem :
    (i : ℕ) (timed_out : Bool) (st : Arp) (e : ArpEntry)
    → IsTable st.table
    → get_or st.table i empty_entry ≡ e
    → (e.used ≡ false → arp_resolve_wake i timed_out st ≡ error st [])
      × (e.used ≡ true → timed_out ≡ false → arp_resolve_wake i timed_out st ≡ found e.ha st)
      × (e.used ≡ true
          → timed_out ≡ true
          → (st' : Arp) × (arp_resolve_wake i timed_out st ≡ error st' [])
            × IsTable st'.table
            × (length st'.table ≡ length st.table)
            × ((k : ℕ) → entry_of k st'.table ≡ (if k == e.pa then none else entry_of k st.table)))
unfolding arp_resolve_wake
arp_resolve_wake_lem i timed_out st e h here = (
  λ unused. ground (arith, here),
  λ u t. ground (arith, here, whole),
  λ u t. (
    record st { table = set st.table i (arp_entry_clear slot) },
    ground (arith, here),
    set_unused-IsTable i (arp_entry_clear slot) st.table
        (clear-IsEntry slot (get-IsEntry st.table i h.entries)) h (cleared_unused slot),
    length-set st.table i (arp_entry_clear slot),
    λ k.
        entry_of-set_unused k i (arp_entry_clear slot) st.table h.unique (cleared_unused slot)
          (ground (arith, here))
        ∙ ap (λ (x : ArpEntry). if k == x.pa then none else entry_of k st.table) here,
  ),
)
  where
    slot : ArpEntry
    slot = get_or st.table i empty_entry

    whole : take 6 e.ha ≡ e.ha
    whole =
        let six_bytes : length e.ha ≡ 6 =
          subst (λ (x : ArpEntry). length x.ha ≡ 6) here
            (get-IsEntry st.table i h.entries).address in
        take_all 6 e.ha (omega arith)

-- Between its two critical sections `arp_rx` does not hold the lock. A call of `arp_resolve` for the
-- sender's address that comes in between makes two entries in use for that address, if another entry is
-- free.
pub arp_rx_race :
    (m : Endian) (now : ℕ) (dev : Netdev) (netif : Netif) (message : ArpMessage)
    (packet : Option (List ℕ)) (st st' : Arp) (out : List Transmit)
    → IsTable st.table
    → entry_of message.spa st.table ≡ none
    → netif.dev ≢ none
    → arp_resolve m now true dev netif message.spa packet st ≡ query st' out
    → arp_table_freespace st'.table ≢ none
    → ¬ IsUnique (arp_rx_insert now message st').table
unfolding arp_rx_insert
arp_rx_race m now dev netif message packet st st' out h new has_dev asked room =
    elim (arp_resolve-new m now dev netif message.spa packet st h new has_dev) [
      | inl full ↦ absurd (cc (full.1, asked))
      | inr (st'', step, change) ↦
          let same : st'' ≡ st' = cc (step, asked) in
          let there : entry_of message.spa st''.table ≢ none =
            ground (arith, change.lookup message.spa) in
          let there' : entry_of message.spa st'.table ≢ none =
            subst (λ (x : Arp). entry_of message.spa x.table ≢ none) same there in
          elim (Option-cases (arp_table_insert now message.spa message.sha st'.table)) [
            | inl none_left ↦
                absurd (room (insert-none now message.spa message.sha st'.table none_left))
            | inr (t', e) ↦
                rw (e, arp_rx_insert)
                  (insert-not-IsUnique now message.spa message.sha st'.table t' there' e)
          ]
    ]

-- With no packet to keep nothing is allocated.
pub arp_resolve-no_packet :
    (m : Endian) (now : ℕ) (dev : Netdev) (netif : Netif) (pa : ℕ) (st : Arp)
    → arp_resolve m now false dev netif pa none st ≡ arp_resolve m now true dev netif pa none st
unfolding arp_resolve arp_resolve_new copy_packet
arp_resolve-no_packet m now dev netif pa st = refl
