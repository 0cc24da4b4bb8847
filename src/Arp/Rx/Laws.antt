-- ===== src/Arp/Rx/Laws.antt =====
-- arp.c: `arp_rx` on every packet.
use mathlib.Core.List.{append-nil}
use protocol_stack.Base.{
  ◌∙◌, ap, sym, subst, ◌≢◌, Option-cases, ℕ, ◌+◌, ◌≡◌, ◌≤◌, refl, arith, true, false, List, [],
  ◌++◌, none, some, inl, inr, ◌⊎◌, ◌==◌, ltb, ◌&&◌, drop, length, if◌then◌else◌, length-take,
  length-drop, Bool-cases,
}
use protocol_stack.Util.ByteOrder.{Endian, ntoh16}
use protocol_stack.Net.{Netif, Netdev, netdev_get_netif, netif_family_ipv4}
use protocol_stack.Arp.Table.{arp_table_freespace, Arp, ArpEntry, Transmit}
use protocol_stack.Arp.Table.Lookup.{entry_of}
use protocol_stack.Arp.Table.Wf.{IsTable, patrol-IsTable, length-patrol}
use protocol_stack.Arp.Table.Change.{
  insert-IsChanged, insert-none, learned, update-not_found, resolved, flushed, IsChanged,
  update-IsChanged,
}
use protocol_stack.Arp.Message.{ArpMessage, read_message, arp_send_reply, arp_op_request}
use protocol_stack.Arp.Rx.{
  arp_table_insert, Outcome, arp_rx_insert, is_valid_message, arp_patrol, done, arp_rx_update,
  arp_rx_target, arp_rx,
}

-- The reply, which only a request for one of the device's own addresses gets.
abbrev pub answer : Endian → Netdev → ArpMessage → List Transmit
answer m dev message = elim (netdev_get_netif dev netif_family_ipv4) [
  | none ↦ []
  | some netif ↦
      if netif.unicast == message.tpa && ntoh16 m message.op == arp_op_request
      then arp_send_reply m dev netif message.sha message.spa message.sha
      else []
]

-- The message asks for, or answers, the device's own IPv4 address.
abbrev pub IsTarget : Netdev → ArpMessage → Type 0
IsTarget dev message =
    (netif : Netif) × (netdev_get_netif dev netif_family_ipv4 ≡ some netif)
    × (netif.unicast ≡ message.tpa)

IsTarget-cases :
    (dev : Netdev) (message : ArpMessage) → IsTarget dev message ⊎ ¬ IsTarget dev message
IsTarget-cases dev message = elim (Option-cases (netdev_get_netif dev netif_family_ipv4)) [
  | inl e ↦ inr (λ t. cc (t.1, e))
  | inr (netif, e) ↦ elim (Bool-cases (netif.unicast == message.tpa)) [
    | inl same ↦ inl (netif, e, ground arith)
    | inr other ↦ inr (λ t. ground (arith, t.1, t.2))
  ]
]

-- A packet that fails one of the first tests changes nothing and sends nothing.
pub arp_rx-invalid :
    (m : Endian) (now : ℕ) (packet : List ℕ) (dev : Netdev) (st : Arp)
    → is_valid_message m packet ≡ false
    → arp_rx m now packet dev st ≡ done st []
unfolding arp_rx
arp_rx-invalid m now packet dev st h = rw h

pub patrol_lem :
    (now : ℕ) (st : Arp)
    → IsTable st.table
    → IsTable (arp_patrol now st).table × (length (arp_patrol now st).table ≡ length st.table)
unfolding arp_patrol
patrol_lem now st h = elim (Bool-cases (ltb (st.timestamp + 10) now)) [
  | inl due ↦ rw due (patrol-IsTable now st.table h, length-patrol now st.table)
  | inr early ↦ rw early (h, refl)
]

pub length-sha :
    (m : Endian) (packet : List ℕ)
    → is_valid_message m packet ≡ true
    → length (read_message m packet).sha ≡ 6
unfolding is_valid_message read_message
length-sha m packet h =
    let long : 28 ≤ length packet = ground arith in
    omega (arith, length-take 6 (drop 8 packet), length-drop 8 packet)

module _ (m : Endian) (now : ℕ) (packet : List ℕ) (dev : Netdev) (st : Arp)
    (valid : is_valid_message m packet ≡ true) (h : IsTable st.table) where
  abbrev message : ArpMessage
  message = read_message m packet

  abbrev table : List ArpEntry
  table = (arp_patrol now st).table

  long : 6 ≤ length message.sha
  long = omega (arith, length-sha m packet valid)

  -- A message from an address that is in the table after the patrol, which may be due first, gives the entry
  -- the sender's hardware address, sends the packet that waits for it, and is answered if it is a request for
  -- this device; the table differs from the one after the patrol for no other address.
  pub arp_rx-known :
      (e : ArpEntry)
      → entry_of message.spa table ≡ some e
      → (t' : List ArpEntry) × (arp_rx m now packet dev st
          ≡ done
              (record (arp_patrol now st) { table = t' })
              (flushed message.sha e ++ answer m dev message))
        × IsChanged message.spa (resolved now message.sha e) table t'
  unfolding arp_rx arp_rx_update arp_rx_target
  arp_rx-known e known =
      let (t', step, change) =
        update-IsChanged now message.spa message.sha table (patrol_lem now st h).0 long dev.id e
          known in
      (t', ground (arith, valid, step, append-nil (flushed message.sha e)), change)

  -- A message from an unknown address that is not for this device changes nothing but what the patrol does.
  arp_rx-other :
      entry_of message.spa table ≡ none
      → ¬ IsTarget dev message
      → arp_rx m now packet dev st ≡ done (arp_patrol now st) []
  unfolding arp_rx arp_rx_update arp_rx_target
  arp_rx-other new other = elim (Option-cases (netdev_get_netif dev netif_family_ipv4)) [
    | inl e ↦ ground (
      arith,
      valid,
      update-not_found now message.spa message.sha table (patrol_lem now st h).0 long dev.id new,
    )
    | inr (netif, e) ↦
        let ne : netif.unicast ≢ message.tpa = λ q. other (netif, e, q) in
        ground (
          arith,
          valid,
          update-not_found now message.spa message.sha table (patrol_lem now st h).0 long dev.id
              new,
        )
  ]

  -- One that is for this device is entered and answered; a full table only loses the entry.
  arp_rx-target :
      entry_of message.spa table ≡ none
      → IsTarget dev message
      → arp_rx m now packet dev st
        ≡ done (arp_rx_insert now message (arp_patrol now st)) (answer m dev message)
  unfolding arp_rx arp_rx_update arp_rx_target
  arp_rx-target new (netif, e, q) = ground (
    arith,
    valid,
    update-not_found now message.spa message.sha table (patrol_lem now st h).0 long dev.id new,
  )

  -- What the insertion does: it fails on a full table alone, and else adds the sender to the map.
  insert_lem :
      entry_of message.spa table ≡ none
      → ((arp_table_freespace table ≡ none)
          × (arp_rx_insert now message (arp_patrol now st) ≡ arp_patrol now st))
        ⊎ IsChanged message.spa
            (learned now message.spa message.sha)
            table
            (arp_rx_insert now message (arp_patrol now st)).table
  unfolding arp_rx_insert
  insert_lem new = elim (Option-cases (arp_table_insert now message.spa message.sha table)) [
    | inl full ↦ inl (insert-none now message.spa message.sha table full, ground (arith, full))
    | inr (t', e) ↦ inr (
        subst (IsChanged message.spa (learned now message.spa message.sha) table)
          (ground (arith, e))
          (insert-IsChanged now message.spa message.sha table (patrol_lem now st h).0 long t' new
            e))
  ]

  -- A message from an unknown address for one of the device's own: the table gets an entry for the sender
  -- unless it is full, and a request is answered either way. One that is for another device leaves the
  -- table to the patrol and is not answered.
  pub arp_rx-unknown :
      entry_of message.spa table ≡ none
      → (IsTarget dev message
          → (st' : Arp) × (arp_rx m now packet dev st ≡ done st' (answer m dev message))
            × (((arp_table_freespace table ≡ none) × (st' ≡ arp_patrol now st))
                ⊎ IsChanged message.spa (learned now message.spa message.sha) table st'.table))
        × (¬ IsTarget dev message → arp_rx m now packet dev st ≡ done (arp_patrol now st) [])
  arp_rx-unknown new = (
    λ to_us.
        (arp_rx_insert now message (arp_patrol now st), arp_rx-target new to_us, insert_lem new),
    arp_rx-other new,
  )

-- The table after a call keeps the invariant, and no entry is lost from the array.
abbrev pub KeepsTable : Arp → Outcome → Type 0
KeepsTable st result =
    (st' : Arp) × (out : List Transmit) × (result ≡ done st' out)
    × IsTable st'.table
    × (length st'.table ≡ length st.table)

arp_rx-IsTable_valid :
    (m : Endian) (now : ℕ) (packet : List ℕ) (dev : Netdev) (st : Arp)
    → is_valid_message m packet ≡ true
    → IsTable st.table
    → KeepsTable st (arp_rx m now packet dev st)
arp_rx-IsTable_valid m now packet dev st valid h =
    elim (Option-cases (entry_of message.spa table)) [
      | inl new ↦ elim (IsTarget-cases dev message) [
        | inl ours ↦
            let (st', step, what) = (arp_rx-unknown m now packet dev st valid h new).0 ours in
            elim what [
              | inl full ↦ (
                st',
                answer m dev message,
                step,
                subst (λ s. IsTable s.table) (sym full.1) patrolled.0,
                ap (λ s. length s.table) full.1 ∙ patrolled.1,
              )
              | inr change ↦
                  (st', answer m dev message, step, change.kept, change.same_length ∙ patrolled.1)
            ]
        | inr theirs ↦ (
          arp_patrol now st,
          [],
          (arp_rx-unknown m now packet dev st valid h new).1 theirs,
          patrolled.0,
          patrolled.1,
        )
      ]
      | inr (e, known) ↦
          let (t', step, change) = arp_rx-known m now packet dev st valid h e known in
          (
            record (arp_patrol now st) { table = t' },
            flushed message.sha e ++ answer m dev message,
            step,
            change.kept,
            change.same_length ∙ patrolled.1,
          )
    ]
  where
    message : ArpMessage
    message = read_message m packet

    table : List ArpEntry
    table = (arp_patrol now st).table

    patrolled : IsTable table × (length table ≡ length st.table)
    patrolled = patrol_lem now st h

-- No packet makes `arp_rx` read through a null pointer, give two entries in use one address, or leave
-- anything in a free entry.
pub arp_rx-IsTable :
    (m : Endian) (now : ℕ) (packet : List ℕ) (dev : Netdev) (st : Arp)
    → IsTable st.table
    → KeepsTable st (arp_rx m now packet dev st)
arp_rx-IsTable m now packet dev st h = elim (Bool-cases (is_valid_message m packet)) [
  | inl valid ↦ arp_rx-IsTable_valid m now packet dev st valid h
  | inr bad ↦ (st, [], arp_rx-invalid m now packet dev st bad, h, refl)
]

pub done-IsTable :
    (m : Endian) (now : ℕ) (packet : List ℕ) (dev : Netdev) (st st' : Arp) (out : List Transmit)
    → IsTable st.table
    → arp_rx m now packet dev st ≡ done st' out
    → IsTable st'.table
done-IsTable m now packet dev st st' out h step =
    let (st'', out', step', table', size) = arp_rx-IsTable m now packet dev st h in
    let same : st'' ≡ st' = cc (step, step') in subst (λ (s : Arp). IsTable s.table) same table'
