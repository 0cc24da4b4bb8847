-- ===== src/Tests/Arp.antt =====
-- arp.c at concrete inputs: a table of two entries.
use protocol_stack.Arp.Table.Change.{learned, resolved, IsChanged, flushed}
use protocol_stack.Arp.Rx.Laws.{arp_rx-unknown, arp_rx-known, answer, IsTarget}
use protocol_stack.Base.Registry.{find}
use protocol_stack.Net.{netdev_get_netif}
use protocol_stack.Util.ByteOrder.{load32, ntoh16, load16, little}
use protocol_stack.Arp.Resolve.Laws.{
  arp_resolve_wake_lem, arp_resolve-new, arp_rx_race, arp_resolve-entry, pending,
}
use protocol_stack.Arp.Reach.{resolve, next, state_of, here, Reach-IsTable, empty-IsTable}
use protocol_stack.Base.{
  ◌==◌, if◌then◌else◌, length, ◌⊎◌, get_or, Option, ℕ, ◌≡◌, ◌≢◌, refl, arith, List, [], ◌∷◌, ◌++◌,
  true, some, none, take,
}
use protocol_stack.Ethernet.{
  ethernet_addr_broadcast, ethernet_type_arp, ethernet_addr_any, ethernet_type_ip,
}
use protocol_stack.Arp.Table.{
  arp_table_size, arp_init, arp_table_freespace, arp_table_select, Arp, ArpEntry, empty_entry,
  Transmit,
}
use protocol_stack.Arp.Table.Lookup.{IsUnique, entry_of}
use protocol_stack.Arp.Table.Wf.{empty-IsEntry, IsTable}
use protocol_stack.Arp.Message.{
  arp_op_reply, read_message, own_message, write_message, arp_send_request,
}
use protocol_stack.Arp.Rx.{arp_rx_insert, arp_patrol, is_valid_message, arp_rx, done}
use protocol_stack.Arp.Resolve.{
  waiting, arp_resolve_wake, error, copy_packet, found, arp_resolve_new, arp_resolve, query,
}
use protocol_stack.Arp.Exchange.{arp_rx-reply, arp_rx-request}
use protocol_stack.Tests.Data.{dev_a, dev_b, netif_a, netif_b, hello}

abbrev two_empty : Arp
two_empty = record { table = empty_entry ∷ empty_entry ∷ []; timestamp = 100 }

two_empty-IsTable : IsTable two_empty.table
two_empty-IsTable = empty-IsTable 2

-- Host A has asked for B's address, with a packet to send.
abbrev asking_entry : ArpEntry
asking_entry = pending 101 netif_b.unicast (some hello) netif_a

abbrev asked_state : Arp
asked_state = record { table = asking_entry ∷ empty_entry ∷ []; timestamp = 100 }

abbrev request_to_b : List Transmit
request_to_b = arp_send_request little dev_a netif_a (some netif_b.unicast)

a_asks :
    arp_resolve little 101 true dev_a netif_a netif_b.unicast (some hello) two_empty
    ≡ query asked_state request_to_b
unfolding arp_resolve arp_resolve_new arp_table_select arp_table_freespace copy_packet
a_asks = refl

not_known : entry_of netif_b.unicast two_empty.table ≡ none
unfolding entry_of
not_known = refl

arp_rx-reply_example :
    (st : Arp) × (arp_rx little 102
        (write_message little
            (own_message little dev_b netif_b 2 (take 6 dev_a.addr) netif_a.unicast)
          ++ [])
        dev_a
        asked_state
      ≡ done st
          (record { dev = 1; type = ethernet_type_ip; packet = hello; dst = dev_b.addr } ∷ []))
    × (dev_b.addr ≢ ethernet_addr_any
        → (at : ℕ) (packet : Option (List ℕ))
        → arp_resolve little at true dev_a netif_a netif_b.unicast packet st ≡ found dev_b.addr st)
arp_rx-reply_example =
    arp_rx-reply little dev_a dev_b netif_a netif_b [] (omega arith) (omega arith) (omega arith)
      (omega arith) 101 102 hello 1 two_empty asked_state request_to_b two_empty-IsTable not_known
      refl a_asks (omega arith)

arp_rx-request_example :
    (q r : Transmit) × (arp_send_request little dev_a netif_a (some netif_b.unicast) ≡ q ∷ [])
    × (q.dev ≡ 1)
    × (q.type ≡ ethernet_type_arp)
    × (q.dst ≡ ethernet_addr_broadcast)
    × (st : Arp) × (before : List Transmit) × (arp_rx little 101
          (q.packet ++ (0 ∷ []))
          dev_b
          two_empty
        ≡ done st (before ++ (r ∷ [])))
    × IsTable st.table
    × (r.dev ≡ 2)
    × (r.type ≡ ethernet_type_arp)
    × (r.dst ≡ dev_a.addr)
    × (is_valid_message little r.packet ≡ true)
    × (ntoh16 little (read_message little r.packet).op ≡ arp_op_reply)
    × ((read_message little r.packet).sha ≡ dev_b.addr)
    × ((read_message little r.packet).spa ≡ netif_b.unicast)
    × ((read_message little r.packet).tha ≡ dev_a.addr)
    × ((read_message little r.packet).tpa ≡ netif_a.unicast)
unfolding netdev_get_netif
arp_rx-request_example =
    arp_rx-request little dev_a dev_b netif_a netif_b (0 ∷ []) (omega arith) (omega arith)
      (omega arith) (omega arith) 101 two_empty two_empty-IsTable (unfold find in refl)

-- The packets of the exchange.
abbrev reply_packet : List ℕ
reply_packet =
    0 ∷ 1 ∷ 8 ∷ 0 ∷ 6 ∷ 4 ∷ 0 ∷ 2 ∷ 2 ∷ 0 ∷ 0 ∷ 0 ∷ 0 ∷ 10 ∷ 192 ∷ 168 ∷ 33 ∷ 10 ∷ 2 ∷ 0 ∷ 0 ∷ 0 ∷ 0
    ∷ 11 ∷ 192 ∷ 168 ∷ 33 ∷ 11 ∷ []

reply_is_valid : is_valid_message little reply_packet ≡ true
unfolding is_valid_message read_message load16 ntoh16
reply_is_valid = refl

asked-IsTable : IsTable asked_state.table
unfolding entry_of
asked-IsTable = record {
  entries = (
    record { blank = λ c. absurd (cc); queue = (refl, λ e. cc); address = refl },
    (empty-IsEntry, tt),
  );
  unique = (λ u. refl, (λ u. refl, tt));
}

arp_rx-known_example :
    (t' : List ArpEntry) × (arp_rx little 102 reply_packet dev_a asked_state
      ≡ done
          (record (arp_patrol 102 asked_state) { table = t' })
          (flushed (read_message little reply_packet).sha asking_entry
            ++ answer little dev_a (read_message little reply_packet)))
    × IsChanged
        (read_message little reply_packet).spa
        (resolved 102 (read_message little reply_packet).sha asking_entry)
        (arp_patrol 102 asked_state).table
        t'
arp_rx-known_example =
    arp_rx-known little 102 reply_packet dev_a asked_state reply_is_valid asked-IsTable asking_entry
      (unfold arp_patrol entry_of read_message load32 in refl)

arp_rx-unknown_example :
    (IsTarget dev_a (read_message little reply_packet)
      → (st' : Arp) × (arp_rx little 102 reply_packet dev_a two_empty
          ≡ done st' (answer little dev_a (read_message little reply_packet)))
        × (((arp_table_freespace (arp_patrol 102 two_empty).table ≡ none)
              × (st' ≡ arp_patrol 102 two_empty))
            ⊎ IsChanged
                (read_message little reply_packet).spa
                (learned 102
                  (read_message little reply_packet).spa
                  (read_message little reply_packet).sha)
                (arp_patrol 102 two_empty).table
                st'.table))
    × (¬ IsTarget dev_a (read_message little reply_packet)
        → arp_rx little 102 reply_packet dev_a two_empty ≡ done (arp_patrol 102 two_empty) [])
arp_rx-unknown_example =
    arp_rx-unknown little 102 reply_packet dev_a two_empty reply_is_valid two_empty-IsTable
      (unfold arp_patrol entry_of in refl)

arp_resolve-new_example :
    ((arp_table_freespace two_empty.table ≡ none)
      × (arp_resolve little 101 true dev_a netif_a netif_b.unicast (some hello) two_empty
          ≡ error two_empty []))
    ⊎ ((st' : Arp) × (arp_resolve little 101 true dev_a netif_a netif_b.unicast
            (some hello)
            two_empty
          ≡ query st' request_to_b)
        × IsChanged netif_b.unicast asking_entry two_empty.table st'.table)
arp_resolve-new_example =
    arp_resolve-new little 101 dev_a netif_a netif_b.unicast (some hello) two_empty
      two_empty-IsTable not_known (λ e. cc)

arp_resolve-entry_runs :
    (asking_entry.ha ≢ ethernet_addr_any
      → arp_resolve little 102 true dev_a netif_a netif_b.unicast none asked_state
        ≡ found asking_entry.ha asked_state)
    × (asking_entry.ha ≡ ethernet_addr_any
        → (i : ℕ) × (get_or asked_state.table i empty_entry ≡ asking_entry)
          × (arp_resolve little 102 true dev_a netif_a netif_b.unicast none asked_state
              ≡ waiting i asked_state request_to_b))
arp_resolve-entry_runs =
    arp_resolve-entry little 102 dev_a netif_a netif_b.unicast none asked_state asked-IsTable true
      asking_entry (unfold entry_of in refl)

arp_resolve_wake_lem_example :
    (st' : Arp) × (arp_resolve_wake 0 true asked_state ≡ error st' [])
    × IsTable st'.table
    × (length st'.table ≡ 2)
    × ((k : ℕ)
        → entry_of k st'.table
          ≡ (if k == netif_b.unicast then none else entry_of k asked_state.table))
arp_resolve_wake_lem_example =
    (arp_resolve_wake_lem 0 true asked_state asking_entry asked-IsTable refl).2 refl refl

arp_rx_race_example :
    ¬ IsUnique (arp_rx_insert 101 (read_message little reply_packet) asked_state).table
arp_rx_race_example =
    arp_rx_race little 101 dev_a netif_a (read_message little reply_packet) (some hello) two_empty
      asked_state request_to_b two_empty-IsTable (unfold entry_of in refl) (λ e. cc)
      (unfold read_message load32 in a_asks) (unfold arp_table_freespace in λ e. cc)

-- The static variables after a first call of `arp_resolve`.
abbrev after_call : Arp
after_call =
    state_of (arp_resolve little 6 true dev_a netif_a netif_b.unicast (some hello) (arp_init 5))

Reach-IsTable_example : IsTable after_call.table × (length after_call.table ≡ arp_table_size)
Reach-IsTable_example = Reach-IsTable little 5 after_call (
    next here (
      resolve 6 true dev_a netif_a netif_b.unicast (some hello) (arp_init 5) after_call (λ e. cc)
        refl))
