-- ===== src/Arp/Reach.antt =====
-- arp.c as a state machine: the static variables under any sequence of critical sections, those of `arp_rx`,
-- of `arp_resolve` and of the ends of its waits. What is left out is an insertion by `arp_rx` of an address
-- that another thread has entered since the update.
use protocol_stack.Arp.Table.Change.{flushed, update-IsChanged, update-not_found, insert-IsChanged}
use protocol_stack.Arp.Message.{ArpMessage, read_message}
use protocol_stack.Ethernet.Laws.{bytes_eq_refl, bytes_eq→eq}
use protocol_stack.Arp.Resolve.Laws.{
  arp_resolve-entry, arp_resolve_wake_lem, arp_resolve-no_memory, arp_resolve-new,
  arp_resolve-no_packet,
}
use protocol_stack.Arp.Rx.Laws.{patrol_lem, length-sha}
use protocol_stack.Arp.Table.Lookup.{entry_of}
use protocol_stack.Base.{
  sym, ◌≤◌, arith, [], zero, suc, suc, length-replicate, replicate, get_or, ℕ, ◌≡◌, ◌≢◌, refl, ap,
  ◌∙◌, subst, Bool, true, false, List, Option, none, some, inl, inr, length, Option-cases,
  Bool-cases,
}
use protocol_stack.Util.ByteOrder.{Endian}
use protocol_stack.Net.{Netif, Netdev}
use protocol_stack.Ethernet.{ethernet_addr_any, bytes_eq}
use protocol_stack.Arp.Table.{
  arp_table_insert, empty_entry, Arp, Transmit, arp_init, arp_table_size,
}
use protocol_stack.Arp.Table.Wf.{IsTable, empty-IsEntry}
use protocol_stack.Arp.Rx.{
  arp_patrol, Merge, arp_rx_insert, arp_rx_update, is_valid_message, merge_crash, merged,
}
use protocol_stack.Arp.Resolve.{
  Resolve, error, query, found, waiting, arp_resolve, arp_resolve_wake,
}

-- The static variables when a call returns or begins to wait.
abbrev pub state_of : Resolve → Arp
state_of (error st out) = st
state_of (query st out) = st
state_of (found ha st) = st
state_of (waiting i st out) = st

pub data Step (m : Endian) : Arp → Arp → Type 0 where
  rx_update :
      (now : ℕ) (packet : List ℕ) (dev : Netdev) (st st' : Arp) (merge : Bool) (out : List Transmit)
      → is_valid_message m packet ≡ true
      → arp_rx_update now dev (read_message m packet) st ≡ merged st' merge out
      → Step m st st'
  rx_insert :
      (now : ℕ) (packet : List ℕ) (st : Arp)
      → is_valid_message m packet ≡ true
      → entry_of (read_message m packet).spa st.table ≡ none
      → Step m st (arp_rx_insert now (read_message m packet) st)
  resolve :
      (now : ℕ) (malloc_ok : Bool) (dev : Netdev) (netif : Netif) (pa : ℕ)
      (packet : Option (List ℕ)) (st st' : Arp)
      → netif.dev ≢ none
      → state_of (arp_resolve m now malloc_ok dev netif pa packet st) ≡ st'
      → Step m st st'
  wake :
      (i : ℕ) (timed_out : Bool) (st st' : Arp)
      → state_of (arp_resolve_wake i timed_out st) ≡ st'
      → Step m st st'

pub data Reach (m : Endian) (st : Arp) : Arp → Type 0 where
  here : Reach m st st
  next : {st' st'' : Arp} → Reach m st st' → Step m st' st'' → Reach m st st''

-- What every step keeps: the invariant, and the number of entries.
pub record Keeps (st st' : Arp) : Type 0 where
  pub table : IsTable st'.table
  pub same_length : length st'.table ≡ length st.table

update-Keeps :
    (now : ℕ) (dev : Netdev) (message : ArpMessage) (st st' : Arp) (merge : Bool)
    (out : List Transmit)
    → IsTable st.table
    → 6 ≤ length message.sha
    → arp_rx_update now dev message st ≡ merged st' merge out
    → Keeps st st'
unfolding arp_rx_update
update-Keeps now dev message st st' merge out h long e =
    let table = (arp_patrol now st).table in
    let (patrolled, size) = patrol_lem now st h in
    elim (Option-cases (entry_of message.spa table)) [
      | inl new ↦
          let step = update-not_found now message.spa message.sha table patrolled long dev.id new in
          let left : arp_rx_update now dev message st ≡ merged (arp_patrol now st) false [] =
            rw (arp_rx_update, step) refl in
          subst (Keeps st) (ap state_after (sym left ∙ e))
            (record { table = patrolled; same_length = size })
      | inr (entry, known) ↦
          let (t', step, change) =
            update-IsChanged now message.spa message.sha table patrolled long dev.id entry known in
          let left : arp_rx_update now dev message st
              ≡ merged (record (arp_patrol now st) { table = t' }) true
                  (flushed message.sha entry) =
            rw (arp_rx_update, step) refl in
          subst (Keeps st) (ap state_after (sym left ∙ e))
            (record { table = change.kept; same_length = change.same_length ∙ size })
    ]
  where
    state_after : Merge → Arp
    state_after merge_crash = st
    state_after (merged s b o) = s

insert-Keeps :
    (now : ℕ) (message : ArpMessage) (st : Arp)
    → IsTable st.table
    → 6 ≤ length message.sha
    → entry_of message.spa st.table ≡ none
    → Keeps st (arp_rx_insert now message st)
unfolding arp_rx_insert
insert-Keeps now message st h long new =
    elim (Option-cases (arp_table_insert now message.spa message.sha st.table)) [
      | inl full ↦ rw (arp_rx_insert, full) (record { table = h; same_length = refl })
      | inr (t', e) ↦
          let change = insert-IsChanged now message.spa message.sha st.table h long t' new e in
          rw (arp_rx_insert, e) (record { table = change.kept; same_length = change.same_length })
    ]

resolve-new-Keeps :
    (m : Endian) (now : ℕ) (dev : Netdev) (netif : Netif) (pa : ℕ) (packet : Option (List ℕ))
    (st : Arp)
    → IsTable st.table
    → netif.dev ≢ none
    → entry_of pa st.table ≡ none
    → Keeps st (state_of (arp_resolve m now true dev netif pa packet st))
resolve-new-Keeps m now dev netif pa packet st h has_dev new =
    elim (arp_resolve-new m now dev netif pa packet st h new has_dev) [
      | inl full ↦ rw full.1 (record { table = h; same_length = refl })
      | inr (st', step, change) ↦
          rw step (record { table = change.kept; same_length = change.same_length })
    ]

resolve-Keeps :
    (m : Endian) (now : ℕ) (malloc_ok : Bool) (dev : Netdev) (netif : Netif) (pa : ℕ)
    (packet : Option (List ℕ)) (st : Arp)
    → IsTable st.table
    → netif.dev ≢ none
    → Keeps st (state_of (arp_resolve m now malloc_ok dev netif pa packet st))
resolve-Keeps m now malloc_ok dev netif pa packet st h has_dev =
    elim (Option-cases (entry_of pa st.table)) [
      | inl new ↦ fresh malloc_ok packet new
      | inr (e, known) ↦
          let cases = arp_resolve-entry m now dev netif pa packet st h malloc_ok e known in
          elim (Bool-cases (bytes_eq e.ha ethernet_addr_any)) [
            | inl unknown ↦
                let (i, at, step) = cases.1 (bytes_eq→eq e.ha ethernet_addr_any unknown) in
                rw step (record { table = h; same_length = refl })
            | inr there ↦
                rw
                  (cases.0 (λ q. cc (
                    ap (λ x. bytes_eq x ethernet_addr_any) q,
                    bytes_eq_refl ethernet_addr_any,
                    there,
                  )))
                  (record { table = h; same_length = refl })
          ]
    ]
  where
    fresh :
        (ok : Bool) (queued : Option (List ℕ))
        → entry_of pa st.table ≡ none
        → Keeps st (state_of (arp_resolve m now ok dev netif pa queued st))
    fresh true queued new = resolve-new-Keeps m now dev netif pa queued st h has_dev new
    fresh false none new =
        rw (arp_resolve-no_packet m now dev netif pa st)
          (resolve-new-Keeps m now dev netif pa none st h has_dev new)
    fresh false (some p) new =
        rw (arp_resolve-no_memory m now dev netif pa (some p) st h p refl new)
          (record { table = h; same_length = refl })

wake-Keeps :
    (i : ℕ) (timed_out : Bool) (st : Arp)
    → IsTable st.table
    → Keeps st (state_of (arp_resolve_wake i timed_out st))
wake-Keeps i timed_out st h =
    let slot = get_or st.table i empty_entry in
    let cases = arp_resolve_wake_lem i timed_out st slot h refl in
    elim (Bool-cases slot.used) [
      | inr unused ↦ rw (cases.0 unused) (record { table = h; same_length = refl })
      | inl used ↦ elim (Bool-cases timed_out) [
        | inr in_time ↦ rw (cases.1 used in_time) (record { table = h; same_length = refl })
        | inl late ↦
            let (st', step, table, size, map) = cases.2 used late in
            rw step (record { table = table; same_length = size })
      ]
    ]

Step-Keeps : (m : Endian) {st st' : Arp} → Step m st st' → IsTable st.table → Keeps st st'
Step-Keeps m (rx_update now packet dev st st' merge out valid step) h =
    update-Keeps now dev (read_message m packet) st st' merge out h
      (omega (arith, length-sha m packet valid)) step
Step-Keeps m (rx_insert now packet st valid new) h =
    insert-Keeps now (read_message m packet) st h (omega (arith, length-sha m packet valid)) new
Step-Keeps m (resolve now malloc_ok dev netif pa packet st st' has_dev step) h =
    subst (Keeps st) step (resolve-Keeps m now malloc_ok dev netif pa packet st h has_dev)
Step-Keeps m (wake i timed_out st st' step) h = subst (Keeps st) step (wake-Keeps i timed_out st h)

pub empty-IsTable : (n : ℕ) → IsTable (replicate n empty_entry)
empty-IsTable zero = record { entries = tt; unique = tt }
empty-IsTable (suc n) =
    let rest = empty-IsTable n in
    record { entries = (empty-IsEntry, rest.entries); unique = (λ u. cc, rest.unique) }

Reach-Keeps : (m : Endian) (st : Arp) {st' : Arp} → IsTable st.table → Reach m st st' → Keeps st st'
Reach-Keeps m st h here = record { table = h; same_length = refl }
Reach-Keeps m st h (next r step) =
    let before = Reach-Keeps m st h r in
    let after = Step-Keeps m step before.table in
    record { table = after.table; same_length = after.same_length ∙ before.same_length }

-- From `arp_init` on, under any sequence of critical sections of any threads, which are the update and the
-- insertion of `arp_rx` for valid messages, calls of `arp_resolve` for an interface with a device, and ends of
-- their waits, as long as no insertion comes when the table has an entry of its address: no two entries in use
-- have one address, a free entry is blank, a queued packet has an interface with a device to leave by, and
-- the table has its 4096 entries.
pub Reach-IsTable :
    (m : Endian) (now : ℕ) (st : Arp)
    → Reach m (arp_init now) st
    → IsTable st.table × (length st.table ≡ arp_table_size)
unfolding arp_init
Reach-IsTable m now st r =
    let kept = Reach-Keeps m (arp_init now) (empty-IsTable arp_table_size) r in
    (kept.table, kept.same_length ∙ length-replicate arp_table_size empty_entry)
