-- ===== src/Arp/Table/Lookup.antt =====
-- arp.c: the table as a map from protocol addresses to entries, and what each function on the table does
-- to that map.
use protocol_stack.Base.{
  ℕ, zero, suc, ◌<◌, ◌≡◌, ◌≢◌, refl, ap, arith, true, false, ◌&&◌, List, [], ◌∷◌, Option, none,
  some, ◌==◌, length, get_or, set, if◌then◌else◌,
}
use protocol_stack.Arp.Table.{
  ArpEntry, empty_entry, arp_table_freespace, arp_table_select, arp_entry_clear, is_expired,
  arp_table_patrol,
}

-- The entry in use for an address.
unfoldable pub entry_of : ℕ → List ArpEntry → Option ArpEntry
entry_of pa [] = none
entry_of pa (entry ∷ rest) = if entry.used && entry.pa == pa then some entry else entry_of pa rest

-- At most one entry in use has a given address.
abbrev pub IsUnique : List ArpEntry → Type 0
IsUnique [] = Unit
IsUnique (entry ∷ rest) = (entry.used ≡ true → entry_of entry.pa rest ≡ none) × IsUnique rest

pub select-none : (pa : ℕ) (t : List ArpEntry) → arp_table_select pa t ≡ none → entry_of pa t ≡ none
unfolding arp_table_select entry_of
select-none pa [] h = refl
select-none pa (e ∷ t) h = ground (arith, select-none pa t)

pub entry_of-none :
    (pa : ℕ) (t : List ArpEntry) → entry_of pa t ≡ none → arp_table_select pa t ≡ none
unfolding arp_table_select entry_of
entry_of-none pa [] h = refl
entry_of-none pa (e ∷ t) h = ground (arith, entry_of-none pa t)

-- What `arp_table_select` points to.
pub select-some :
    (pa i : ℕ) (t : List ArpEntry)
    → arp_table_select pa t ≡ some i
    → (entry_of pa t ≡ some (get_or t i empty_entry))
      × ((get_or t i empty_entry).used ≡ true)
      × ((get_or t i empty_entry).pa ≡ pa)
      × (i < length t)
unfolding arp_table_select entry_of
select-some pa i [] h = absurd (cc)
select-some pa zero (e ∷ t) h = ground (arith)
select-some pa (suc i) (e ∷ t) h = ground (arith, select-some pa i t)

pub freespace-some :
    (i : ℕ) (t : List ArpEntry)
    → arp_table_freespace t ≡ some i
    → ((get_or t i empty_entry).used ≡ false) × (i < length t)
unfolding arp_table_freespace
freespace-some i [] h = absurd (cc)
freespace-some zero (e ∷ t) h = ground (arith)
freespace-some (suc i) (e ∷ t) h = ground (arith, freespace-some i t)

-- A new entry in the first free place adds one address to the map.
pub entry_of-set_free :
    (k i : ℕ) (v : ArpEntry) (t : List ArpEntry)
    → arp_table_freespace t ≡ some i
    → entry_of v.pa t ≡ none
    → v.used ≡ true
    → entry_of k (set t i v) ≡ (if k == v.pa then some v else entry_of k t)
unfolding arp_table_freespace entry_of
entry_of-set_free k i v [] h new u = absurd (cc)
entry_of-set_free k zero v (e ∷ t) h new u = ground arith
entry_of-set_free k (suc i) v (e ∷ t) h new u = ground (arith, entry_of-set_free k i v t)

-- A new value in the place of an entry in use, for the same address, changes the map there alone.
pub entry_of-set_used :
    (k i : ℕ) (v : ArpEntry) (t : List ArpEntry)
    → arp_table_select v.pa t ≡ some i
    → v.used ≡ true
    → entry_of k (set t i v) ≡ (if k == v.pa then some v else entry_of k t)
unfolding arp_table_select entry_of
entry_of-set_used k i v [] h u = absurd (cc)
entry_of-set_used k zero v (e ∷ t) h u = ground arith
entry_of-set_used k (suc i) v (e ∷ t) h u = ground (arith, entry_of-set_used k i v t)

used-entry_of :
    (i : ℕ) (t : List ArpEntry)
    → (get_or t i empty_entry).used ≡ true
    → entry_of (get_or t i empty_entry).pa t ≢ none
unfolding entry_of
used-entry_of i [] u = cc
used-entry_of zero (e ∷ t) u = ground arith
used-entry_of (suc i) (e ∷ t) u = ground (arith, used-entry_of i t u)

-- A free value in the place of an entry takes its address out of the map.
pub entry_of-set_unused :
    (k i : ℕ) (v : ArpEntry) (t : List ArpEntry)
    → IsUnique t
    → v.used ≡ false
    → (get_or t i empty_entry).used ≡ true
    → entry_of k (set t i v) ≡ (if k == (get_or t i empty_entry).pa then none else entry_of k t)
unfolding entry_of
entry_of-set_unused k i v [] h u w = absurd (cc)
entry_of-set_unused k zero v (e ∷ t) h u w = ground (arith, h.0)
entry_of-set_unused k (suc i) v (e ∷ t) h u w = ground (
  arith,
  entry_of-set_unused k i v t h.1,
  used-entry_of i t w,
  h.0,
  ap (λ (pa : ℕ). entry_of pa t),
)

-- The patrol takes out the entries whose time is over.
pub entry_of-patrol :
    (k now : ℕ) (t : List ArpEntry)
    → IsUnique t
    → entry_of k (arp_table_patrol now t)
      ≡ elim (entry_of k t) [ none ↦ none | some e ↦ if is_expired now e then none else some e ]
unfolding entry_of arp_table_patrol arp_entry_clear is_expired
entry_of-patrol k now [] h = refl
entry_of-patrol k now (e ∷ t) h = ground (arith, h.0, entry_of-patrol k now t h.1)
