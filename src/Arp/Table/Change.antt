-- ===== src/Arp/Table/Change.antt =====
-- arp.c: what `arp_table_insert` and `arp_table_update` do to a table that keeps the invariant.
use mathlib.Core.Option.{some-injective}
use protocol_stack.Base.{
  zero, suc, ◌≢◌, ℕ, ◌≡◌, ◌≤◌, refl, ap, sym, ◌∙◌, subst, arith, true, List, [], ◌∷◌, Option, none,
  some, inl, inr, ◌==◌, take, length, get_or, set, if◌then◌else◌, length-set, length-take, take_all,
  Option-cases,
}
use protocol_stack.Net.{Netif}
use protocol_stack.Ethernet.{ethernet_addr_len, ethernet_type_ip}
use protocol_stack.Arp.Table.{
  suc, ArpEntry, empty_entry, not_found, updated, Transmit, arp_table_freespace, arp_table_select,
  arp_table_insert, arp_table_update, flush_queue,
}
use protocol_stack.Arp.Table.Lookup.{
  IsUnique, entry_of, entry_of-set_free, entry_of-set_used, select-some, select-none, entry_of-none,
  freespace-some,
}
use protocol_stack.Arp.Table.Wf.{
  QueueIsReady, IsEntry, IsTable, get-IsEntry, set_free-IsTable, set_used-IsTable,
}

-- An entry that a message alone has filled.
abbrev pub learned : ℕ → ℕ → List ℕ → ArpEntry
learned now pa ha = record {
  used = true;
  pa = pa;
  ha = take ethernet_addr_len ha;
  timestamp = now;
  queued = none;
  len = 0;
  netif = none;
}

-- An entry whose address has come.
abbrev pub resolved : ℕ → List ℕ → ArpEntry → ArpEntry
resolved now ha e = record e {
  ha = take ethernet_addr_len ha;
  timestamp = now;
  queued = none;
  len = 0;
}

-- What is sent then: the queued packet, as it was given, by the device of its interface.
abbrev pub flushed : List ℕ → ArpEntry → List Transmit
flushed ha e = elim e.queued [
  | none ↦ []
  | some p ↦ elim e.netif [
    | none ↦ []
    | some netif ↦ elim netif.dev [
      | none ↦ []
      | some d ↦
          record { dev = d; type = ethernet_type_ip; packet = p; dst = take ethernet_addr_len ha }
          ∷ []
    ]
  ]
]

flush_queue_lem :
    (dev now i : ℕ) (ha : List ℕ) (t : List ArpEntry) (e : ArpEntry) (queued : Option (List ℕ))
    (netif : Option Netif)
    → e.queued ≡ queued
    → e.netif ≡ netif
    → QueueIsReady queued e.len netif
    → flush_queue dev t i (record e { ha = take ethernet_addr_len ha; timestamp = now }) queued
      ≡ updated (set t i (resolved now ha e)) (flushed ha e)
unfolding flush_queue
flush_queue_lem dev now i ha t e none netif q n h = ground arith
flush_queue_lem dev now i ha t e (some p) none q n h = absurd h
flush_queue_lem dev now i ha t e (some p) (some netif) q n h =
    ground (arith, take_all e.len p, h.0, h.1)

-- An update of an entry that keeps the invariant.
flush_lem :
    (dev now i : ℕ) (ha : List ℕ) (t : List ArpEntry) (e : ArpEntry)
    → IsEntry e
    → flush_queue dev t i (record e { ha = take ethernet_addr_len ha; timestamp = now }) e.queued
      ≡ updated (set t i (resolved now ha e)) (flushed ha e)
flush_lem dev now i ha t e h = flush_queue_lem dev now i ha t e e.queued e.netif refl refl h.queue

-- The table after a change of the map at one address.
pub record IsChanged (pa : ℕ) (e : ArpEntry) (t t' : List ArpEntry) : Type 0 where
  pub kept : IsTable t'
  pub lookup : (k : ℕ) → entry_of k t' ≡ (if k == pa then some e else entry_of k t)
  pub same_length : length t' ≡ length t

module _ (now pa : ℕ) (ha : List ℕ) (t : List ArpEntry) (h : IsTable t) (long : 6 ≤ length ha) where
  pub insert-IsChanged :
      (t' : List ArpEntry)
      → entry_of pa t ≡ none
      → arp_table_insert now pa ha t ≡ some t'
      → IsChanged pa (learned now pa ha) t t'
  unfolding arp_table_insert
  insert-IsChanged t' new e = elim (Option-cases (arp_table_freespace t)) [
    | inl full ↦ absurd (ground arith)
    | inr (i, free) ↦
        let slot : ArpEntry = get_or t i empty_entry in
        let ok = get-IsEntry t i h.entries in
        let blank = ok.blank (freespace-some i t free).0 in
        let v : ArpEntry = record slot {
          used = true;
          pa = pa;
          ha = take ethernet_addr_len ha;
          timestamp = now;
        } in
        let v_eq : v ≡ learned now pa ha = ground (arith, blank, ok.queue) in
        let t_eq : set t i v ≡ t' = ground arith in
        let v_ok : IsEntry v = record {
          blank = λ c. cc;
          queue = ok.queue;
          address = omega (arith, length-take 6 ha);
        } in
        subst (IsChanged pa (learned now pa ha) t) t_eq (record {
          kept = set_free-IsTable i v t v_ok h free new refl;
          lookup = λ k.
              entry_of-set_free k i v t free new refl
              ∙ ap (λ (x : ArpEntry). if k == pa then some x else entry_of k t) v_eq;
          same_length = length-set t i v;
        })
  ]

  pub update-not_found :
      (dev : ℕ) → entry_of pa t ≡ none → arp_table_update now dev pa ha t ≡ not_found
  unfolding arp_table_update
  update-not_found dev e = rw (entry_of-none pa t e, arp_table_update) refl

  -- The entry of a known address is updated and its packet sent, without a fault.
  pub update-IsChanged :
      (dev : ℕ) (e : ArpEntry)
      → entry_of pa t ≡ some e
      → (t' : List ArpEntry) × (arp_table_update now dev pa ha t ≡ updated t' (flushed ha e))
        × IsChanged pa (resolved now ha e) t t'
  unfolding arp_table_update
  update-IsChanged dev e known = elim (Option-cases (arp_table_select pa t)) [
    | inl missing ↦ absurd (ground (arith, select-none pa t missing))
    | inr (i, sel) ↦
        let slot : ArpEntry = get_or t i empty_entry in
        let there = select-some pa i t sel in
        let ok = get-IsEntry t i h.entries in
        let slot_eq : slot ≡ e = some-injective _ _ (sym there.0 ∙ known) in
        let v : ArpEntry = resolved now ha slot in
        let v_ok : IsEntry v = record {
          blank = λ c. absurd (ground (arith, there.1));
          queue = refl;
          address = omega (arith, length-take 6 ha);
        } in
        let sel_v : arp_table_select v.pa t ≡ some i = rw there.2 sel in
        let result : arp_table_update now dev pa ha t ≡ updated (set t i v) (flushed ha slot) =
          rw (sel, arp_table_update) (flush_lem dev now i ha t slot ok) in
        let change : IsChanged pa v t (set t i v) = record {
          kept = set_used-IsTable i v t v_ok h sel_v there.1;
          lookup = λ k.
              entry_of-set_used k i v t sel_v there.1
              ∙ ap (λ (p : ℕ). if k == p then some v else entry_of k t) there.2;
          same_length = length-set t i v;
        } in
        (
          set t i v,
          result ∙ ap (λ x. updated (set t i v) (flushed ha x)) slot_eq,
          subst (λ x. IsChanged pa (resolved now ha x) t (set t i v)) slot_eq change,
        )
  ]

pub insert-none :
    (now pa : ℕ) (ha : List ℕ) (t : List ArpEntry)
    → arp_table_insert now pa ha t ≡ none
    → arp_table_freespace t ≡ none
unfolding arp_table_insert
insert-none now pa ha t e = ground arith

module _ (v : ArpEntry) (u : v.used ≡ true) where
  entry_of-set_self :
      (i : ℕ) (t : List ArpEntry)
      → arp_table_freespace t ≡ some i
      → entry_of v.pa (set t i v) ≢ none
  unfolding entry_of arp_table_freespace
  entry_of-set_self i [] free = cc
  entry_of-set_self zero (e ∷ t) free = ground arith
  entry_of-set_self (suc i) (e ∷ t) free = ground (arith, entry_of-set_self i t)

  set-not-IsUnique :
      (i : ℕ) (t : List ArpEntry)
      → arp_table_freespace t ≡ some i
      → entry_of v.pa t ≢ none
      → ¬ IsUnique (set t i v)
  unfolding entry_of arp_table_freespace
  set-not-IsUnique i [] free there unique = absurd (cc)
  set-not-IsUnique zero (e ∷ t) free there unique = ground (arith, there, unique.0 u)
  set-not-IsUnique (suc i) (e ∷ t) free there unique = ground (
    arith,
    there,
    unique.0,
    entry_of-set_self i t,
    ap (λ (pa : ℕ). entry_of pa (set t i v)),
    λ (f : arp_table_freespace t ≡ some i) (n : entry_of v.pa t ≢ none).
        set-not-IsUnique i t f n unique.1,
  )

-- An entry for an address that has one already makes two.
pub insert-not-IsUnique :
    (now pa : ℕ) (ha : List ℕ) (t t' : List ArpEntry)
    → entry_of pa t ≢ none
    → arp_table_insert now pa ha t ≡ some t'
    → ¬ IsUnique t'
unfolding arp_table_insert
insert-not-IsUnique now pa ha t t' there e = elim (Option-cases (arp_table_freespace t)) [
  | inl full ↦ absurd (ground arith)
  | inr (i, free) ↦
      let v : ArpEntry = record (get_or t i empty_entry) {
        used = true;
        pa = pa;
        ha = take ethernet_addr_len ha;
        timestamp = now;
      } in
      let t_eq : set t i v ≡ t' = ground arith in
      subst (λ x. ¬ IsUnique x) t_eq (set-not-IsUnique v refl i t free there)
]
