-- ===== src/Ip/Fragment/Others.antt =====
-- ip.c: what a call of `ip_fragment_process` does to the objects of other datagrams.
use protocol_stack.Ip.Fragment.Written.{
  detach-IsReassembly, search-same, write-Writes, search-later, search-here, Alike,
}
use protocol_stack.Util.Mask.{maskchk}
use protocol_stack.Util.ByteOrder.{Endian}
use mathlib.Core.Option.{Option}
use protocol_stack.Ip.Header.{IpHdr}
use protocol_stack.Ip.Fragment.Process.{
  object_given, ip_fragment_process, Clock, ip_fragment_add, Chunk, ip_fragment_finish,
  find_or_create, Reassembly, new_fragment, ip_fragment_store, Process, stored, broken, pending,
  patrol_crash, completed, write_fragment,
}
use protocol_stack.Ip.Fragment.{is_same_datagram, ip_fragment_search, IpFragment}
use protocol_stack.Base.{
  ◌≤◌, Option-cases, subst, ◌≢◌, ◌∙◌, ◌==◌, arith, sym, Bool-cases, All, List, ◌≡◌, refl, false,
  true, inr, inl, some, none, ℕ, ◌+◌,
}
use protocol_stack.Ip.Fragment.Laws.{IsReassembly, ip_fragment_search-detach}
use protocol_stack.Ip.Fragment.Arrivals.{
  find_or_create-cases, Object-cases, Stored-cases, process_kept, ip_fragment_search_cong,
  SameDatagram, IsSince,
}

-- The memory of a new object is no other object's.
abbrev pub IsFresh : Option Chunk → List IpFragment → Type 0
IsFresh none list = Unit
IsFresh (some chunk) list = All (λ (f : IpFragment). f.address ≢ chunk.address) list

-- The list keeps its shape, and the objects of the other datagrams.
abbrev pub KeepsOthers : IpHdr → List IpFragment → List IpFragment → Type 0
KeepsOthers hdr list list' =
    IsReassembly list'
    × ((h : IpHdr) → ¬ SameDatagram h hdr → ip_fragment_search h list' ≡ ip_fragment_search h list)

-- The list after a call that returns; a datagram that is complete is no longer in it.
abbrev pub KeepsResult : IpHdr → List IpFragment → Process → Type 0
KeepsResult hdr list patrol_crash = Unit
KeepsResult hdr list (broken s) = Unit
KeepsResult hdr list (pending st) = KeepsOthers hdr list st.fragments
KeepsResult hdr list (completed f st) =
    KeepsOthers hdr list st.fragments × (ip_fragment_search hdr st.fragments ≡ none)

pub not_same :
    (hdr h : IpHdr) (f : IpFragment)
    → is_same_datagram hdr f ≡ true
    → ¬ SameDatagram h hdr
    → is_same_datagram h f ≡ false
unfolding is_same_datagram
not_same hdr h f same differ = ground arith

pub store-Alike :
    (m : Endian) (hdr : IpHdr) (payload : List ℕ) (plen now : ℕ) (f f' : IpFragment)
    → ip_fragment_store m hdr payload plen now f ≡ stored f'
    → Alike f f'
unfolding ip_fragment_store is_same_datagram
store-Alike m hdr payload plen now f f' e = record {
  address = ground arith;
  datagram = λ h. ground arith;
}

pub new-same : (hdr : IpHdr) (chunk : Chunk) → is_same_datagram hdr (new_fragment hdr chunk) ≡ true
unfolding new_fragment is_same_datagram
new-same hdr chunk = ground arith

new-other :
    (hdr h : IpHdr) (chunk : Chunk)
    → is_same_datagram h (new_fragment hdr chunk) ≡ true
    → SameDatagram h hdr
unfolding new_fragment is_same_datagram
new-other hdr h chunk same = (ground arith, ground arith, ground arith, ground arith)

-- The object that is found or created, in its list.
abbrev pub Found : IpHdr → List IpFragment → IpFragment → Reassembly → Type 0
Found hdr list f st =
    IsReassembly st.fragments
    × (ip_fragment_search hdr st.fragments ≡ some f)
    × ((h : IpHdr)
        → is_same_datagram h f ≡ false
        → ip_fragment_search h st.fragments ≡ ip_fragment_search h list)

pub find_or_create-Found :
    (hdr : IpHdr) (chunk : Option Chunk) (st st' : Reassembly) (f : IpFragment)
    → IsReassembly st.fragments
    → IsFresh chunk st.fragments
    → find_or_create hdr chunk st ≡ object_given f st'
    → Found hdr st.fragments f st'
find_or_create-Found hdr chunk st st' f wf fresh e =
    elim (find_or_create-cases hdr chunk st st' f e) [
      | inl (found, same) ↦
          subst (λ (r : IpFragment × Reassembly). Found hdr st.fragments r.0 r.1) same
            (wf, found, λ h other. refl)
      | inr (c, memory, missing, room, made) ↦
          subst (λ (r : IpFragment × Reassembly). Found hdr st.fragments r.0 r.1) made
            (
              (
                new-apart c (subst (λ k. IsFresh k st.fragments) memory fresh),
                λ h same.
                    ip_fragment_search_cong h hdr st.fragments (new-other hdr h c same) ∙ missing,
                wf,
              ),
              search-here hdr (new_fragment hdr c) st.fragments (new-same hdr c),
              λ h other. search-later h (new_fragment hdr c) st.fragments other,
            )
    ]
  where
    new-apart :
        (c : Chunk)
        → IsFresh (some c) st.fragments
        → All (λ (x : IpFragment). x.address ≢ (new_fragment hdr c).address) st.fragments
    new-apart c fresh = unfold new_fragment in fresh

finish-Keeps :
    (hdr : IpHdr) (list : List IpFragment) (f f' : IpFragment) (st : Reassembly)
    → Found hdr list f st
    → Alike f f'
    → KeepsResult hdr list (ip_fragment_finish f' st)
unfolding ip_fragment_finish
finish-Keeps hdr list f f' st (wf, found, others) alike =
    let writes = write-Writes hdr f f' st.fragments wf found alike in
    let same_f = search-same hdr st.fragments f found in
    let kept : KeepsOthers hdr list (write_fragment f' st.fragments) = (
      writes.wf,
      λ h differ.
          let other = not_same hdr h f same_f differ in writes.others h other ∙ others h other,
    ) in
    elim (Bool-cases (f'.len == 0)) [
      | inl unknown ↦ rw (ip_fragment_finish, unknown) kept
      | inr known ↦ elim (Option-cases (maskchk f'.mask 0 f'.len)) [
        | inl bad ↦ rw (ip_fragment_finish, known, bad) tt
        | inr (b, e) ↦ elim (Bool-cases b) [
          | inr lacks ↦ rw (ip_fragment_finish, known, e, lacks) kept
          | inl all ↦
              let (gone, rest) =
                ip_fragment_search-detach hdr (write_fragment f' st.fragments) f' writes.wf
                  writes.found in
              rw (ip_fragment_finish, known, e, all)
                (
                  (
                    detach-IsReassembly f'.address (write_fragment f' st.fragments) writes.wf,
                    λ h differ.
                        let other = not_same hdr h f same_f differ in
                        rest h (λ same. cc (
                          search-same h (write_fragment f' st.fragments) f' same,
                          alike.datagram h,
                          other,
                        ))
                        ∙ kept.1 h differ,
                  ),
                  gone,
                )
        ]
      ]
    ]

add-Keeps :
    (m : Endian) (clock : Clock) (hdr : IpHdr) (payload : List ℕ) (plen : ℕ) (chunk : Option Chunk)
    (st : Reassembly)
    → IsReassembly st.fragments
    → IsFresh chunk st.fragments
    → KeepsResult hdr st.fragments (ip_fragment_add m clock hdr payload plen chunk st)
unfolding ip_fragment_add
add-Keeps m clock hdr payload plen chunk st wf fresh =
    elim (Object-cases (find_or_create hdr chunk st)) [
      | inl (inl none_there) ↦ rw (ip_fragment_add, none_there) (wf, λ h differ. refl)
      | inl (inr overran) ↦ rw (ip_fragment_add, overran) tt
      | inr (pair, e) ↦
          let found = find_or_create-Found hdr chunk st pair.1 pair.0 wf fresh e in
          elim (Stored-cases (ip_fragment_store m hdr payload plen clock.stamped pair.0)) [
            | inl (f', done) ↦
                rw (ip_fragment_add, e, done)
                  (finish-Keeps hdr st.fragments pair.0 f' pair.1 found
                    (store-Alike m hdr payload plen clock.stamped pair.0 f' done))
            | inr (inl bad) ↦ rw (ip_fragment_add, e, bad) tt
            | inr (inr bad) ↦ rw (ip_fragment_add, e, bad) tt
          ]
    ]

-- While no object is over its time and new memory is no object's: a call of `ip_fragment_process` keeps
-- the objects at different addresses and for different datagrams, finds every other datagram's object as
-- before, and takes a complete datagram out of the list.
pub ip_fragment_process-others :
    (m : Endian) (clock : Clock) (hdr : IpHdr) (payload : List ℕ) (plen : ℕ) (chunk : Option Chunk)
    (st : Reassembly) (since : ℕ)
    → IsSince since st.fragments
    → clock.patrolled_at ≤ since + 30
    → IsReassembly st.fragments
    → IsFresh chunk st.fragments
    → KeepsResult hdr st.fragments (ip_fragment_process m clock hdr payload plen chunk st)
ip_fragment_process-others m clock hdr payload plen chunk st since old early wf fresh =
    subst (KeepsResult hdr st.fragments)
      (sym (process_kept m clock hdr payload plen chunk st since old early))
      (add-Keeps m clock hdr payload plen chunk st wf fresh)
