-- ===== src/Arp/Table/Wf.antt =====
-- arp.c: the invariant of the table, and that the functions on it keep it.
use protocol_stack.Base.{
  ℕ, zero, suc, ◌≡◌, ◌≢◌, refl, ap, arith, inl, inr, Bool-cases, true, false, List, [], ◌∷◌, Option,
  none, some, length, get_or, set, All, All-set,
}
use protocol_stack.Net.{Netif}
use protocol_stack.Ethernet.{ethernet_addr_any}
use protocol_stack.Arp.Table.{
  ArpEntry, empty_entry, arp_table_freespace, arp_table_select, arp_entry_clear, is_expired,
  arp_table_patrol,
}
use protocol_stack.Arp.Table.Lookup.{entry_of, IsUnique, entry_of-set_free, entry_of-set_used}

-- A queued packet has its length beside it and an interface with a device to leave by.
abbrev pub QueueIsReady : Option (List ℕ) → ℕ → Option Netif → Type 0
QueueIsReady none len netif = len ≡ 0
QueueIsReady (some p) len none = ⊥
QueueIsReady (some p) len (some netif) = (len ≡ length p) × (netif.dev ≢ none)

-- A free entry holds no address, no packet and no interface.
abbrev pub IsBlank : ArpEntry → Type 0
IsBlank e = (e.pa ≡ 0) × (e.ha ≡ ethernet_addr_any) × (e.queued ≡ none) × (e.netif ≡ none)

pub record IsEntry (e : ArpEntry) : Type 0 where
  pub blank : e.used ≡ false → IsBlank e
  pub queue : QueueIsReady e.queued e.len e.netif
  pub address : length e.ha ≡ 6

pub record IsTable (t : List ArpEntry) : Type 0 where
  pub entries : All IsEntry t
  pub unique : IsUnique t

pub empty-IsEntry : IsEntry empty_entry
empty-IsEntry = record { blank = λ _. (refl, refl, refl, refl); queue = refl; address = refl }

pub get-IsEntry : (t : List ArpEntry) (i : ℕ) → All IsEntry t → IsEntry (get_or t i empty_entry)
get-IsEntry [] i h = empty-IsEntry
get-IsEntry (e ∷ t) zero h = h.0
get-IsEntry (e ∷ t) (suc i) h = get-IsEntry t i h.1

pub clear-IsEntry : (e : ArpEntry) → IsEntry e → IsEntry (arp_entry_clear e)
unfolding arp_entry_clear
clear-IsEntry e h = record {
  blank = λ _. (refl, refl, refl, refl);
  queue = ground (arith, h.queue);
  address = refl;
}

module _ (v : ArpEntry) where
  IsUnique-set_free :
      (i : ℕ) (t : List ArpEntry)
      → arp_table_freespace t ≡ some i
      → entry_of v.pa t ≡ none
      → v.used ≡ true
      → IsUnique t
      → IsUnique (set t i v)
  unfolding arp_table_freespace entry_of
  IsUnique-set_free i [] h new u w = tt
  IsUnique-set_free zero (e ∷ t) h new u w = ground (arith, w.0)
  IsUnique-set_free (suc i) (e ∷ t) h new u w = (
    λ eu. ground (arith, w.0 eu, entry_of-set_free e.pa i v t),
    IsUnique-set_free i t (ground arith) (ground arith) u w.1,
  )

  IsUnique-set_used :
      (i : ℕ) (t : List ArpEntry)
      → arp_table_select v.pa t ≡ some i
      → v.used ≡ true
      → IsUnique t
      → IsUnique (set t i v)
  unfolding arp_table_select entry_of
  IsUnique-set_used i [] h u w = tt
  IsUnique-set_used zero (e ∷ t) h u w = ground (arith, w.0)
  IsUnique-set_used (suc i) (e ∷ t) h u w = (
    λ eu. ground (arith, w.0 eu, entry_of-set_used e.pa i v t),
    IsUnique-set_used i t (ground arith) u w.1,
  )

  none-set_unused :
      (k i : ℕ) (t : List ArpEntry)
      → v.used ≡ false
      → entry_of k t ≡ none
      → entry_of k (set t i v) ≡ none
  unfolding entry_of
  none-set_unused k i [] u h = refl
  none-set_unused k zero (e ∷ t) u h = ground arith
  none-set_unused k (suc i) (e ∷ t) u h = ground (arith, none-set_unused k i t u)

  IsUnique-set_unused :
      (i : ℕ) (t : List ArpEntry) → v.used ≡ false → IsUnique t → IsUnique (set t i v)
  unfolding entry_of
  IsUnique-set_unused i [] u w = tt
  IsUnique-set_unused zero (e ∷ t) u w = (λ c. cc, w.1)
  IsUnique-set_unused (suc i) (e ∷ t) u w =
      (λ eu. none-set_unused e.pa i t u (w.0 eu), IsUnique-set_unused i t u w.1)

none-patrol :
    (k now : ℕ) (t : List ArpEntry)
    → entry_of k t ≡ none
    → entry_of k (arp_table_patrol now t) ≡ none
unfolding entry_of arp_table_patrol arp_entry_clear
none-patrol k now [] h = refl
none-patrol k now (e ∷ t) h = ground (arith, none-patrol k now t)

IsUnique-patrol : (now : ℕ) (t : List ArpEntry) → IsUnique t → IsUnique (arp_table_patrol now t)
unfolding arp_table_patrol arp_entry_clear
IsUnique-patrol now [] h = tt
IsUnique-patrol now (e ∷ t) h =
    (ground (arith, h.0, none-patrol e.pa now t), IsUnique-patrol now t h.1)

entries-patrol :
    (now : ℕ) (t : List ArpEntry) → All IsEntry t → All IsEntry (arp_table_patrol now t)
unfolding arp_table_patrol
entries-patrol now [] h = tt
entries-patrol now (e ∷ t) h = elim (Bool-cases (is_expired now e)) [
  | inl old ↦ rw old (clear-IsEntry e h.0, entries-patrol now t h.1)
  | inr fresh ↦ rw fresh (h.0, entries-patrol now t h.1)
]

pub length-patrol : (now : ℕ) (t : List ArpEntry) → length (arp_table_patrol now t) ≡ length t
unfolding arp_table_patrol
length-patrol now [] = refl
length-patrol now (e ∷ t) = ap suc (length-patrol now t)

pub patrol-IsTable : (now : ℕ) (t : List ArpEntry) → IsTable t → IsTable (arp_table_patrol now t)
patrol-IsTable now t h = record {
  entries = entries-patrol now t h.entries;
  unique = IsUnique-patrol now t h.unique;
}

module _ (i : ℕ) (v : ArpEntry) (t : List ArpEntry) (w : IsEntry v) (h : IsTable t) where
  pub set_free-IsTable :
      arp_table_freespace t ≡ some i → entry_of v.pa t ≡ none → v.used ≡ true → IsTable (set t i v)
  set_free-IsTable free new u = record {
    entries = All-set IsEntry t i v w h.entries;
    unique = IsUnique-set_free v i t free new u h.unique;
  }

  pub set_used-IsTable : arp_table_select v.pa t ≡ some i → v.used ≡ true → IsTable (set t i v)
  set_used-IsTable sel u = record {
    entries = All-set IsEntry t i v w h.entries;
    unique = IsUnique-set_used v i t sel u h.unique;
  }

  pub set_unused-IsTable : v.used ≡ false → IsTable (set t i v)
  set_unused-IsTable u = record {
    entries = All-set IsEntry t i v w h.entries;
    unique = IsUnique-set_unused v i t u h.unique;
  }
