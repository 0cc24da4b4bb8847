-- ===== src/Ip/Fragment/Starve.antt =====
-- ip.c: the count of `ip_fragment_process`, and what a store of a fragment comes to.
use protocol_stack.Ip.Fragment.Arrivals.{find_or_create-cases, Object-cases, Stored-cases}
use protocol_stack.Ip.Fragment.Count.{
  length-detach, length-patrol, length-write_fragment, search-HasAddress, CountedResult, HasAddress,
  IsCounted,
}
use protocol_stack.Util.Mask.Laws.{maskset_lem, maskset-empty}
use protocol_stack.Util.Mask.{maskchk}
use protocol_stack.Util.Mask.Words.{IsMask}
use protocol_stack.Util.ByteOrder.{Endian}
use mathlib.Core.Option.{Option}
use protocol_stack.Ip.Fragment.Process.{
  object_given, known_len, write_at, fragment_off, mask_words, Chunk, Clock, data_size,
  ip_fragment_process, ip_fragment_add, ip_fragment_finish, ip_fragment_store, find_or_create,
  pending, undefined, stored, fault, ip_fragment_num_max, write_fragment, Reassembly,
}
use protocol_stack.Ip.Fragment.{
  Patrol, use_after_free, ip_fragment_patrol, IpHdr, IpFragment, ip_fragment_search, patrolled,
}
use protocol_stack.Base.{
  take, ◌||◌, sym, ltb, subst, ◌<◌, Option-cases, ◌==◌, Bool-cases, arith, ◌⊎◌, ◌≡◌, ◌≤◌, length,
  List, refl, false, inr, inl, [], ℕ, ◌+◌,
}

find_or_create-IsCounted :
    (hdr : IpHdr) (chunk : Option Chunk) (st st' : Reassembly) (f : IpFragment)
    → IsCounted st
    → find_or_create hdr chunk st ≡ object_given f st'
    → IsCounted st' × HasAddress f.address st'.fragments × (st.count ≤ st'.count)
find_or_create-IsCounted hdr chunk st st' f h e = elim (find_or_create-cases hdr chunk st st' f e) [
  | inl (found, same) ↦
      subst
        (λ (r : IpFragment × Reassembly).
          IsCounted r.1 × HasAddress r.0.address r.1.fragments × (st.count ≤ r.1.count))
        same (h, search-HasAddress hdr st.fragments f found, omega arith)
  | inr (c, memory, missing, room, made) ↦
      subst
        (λ (r : IpFragment × Reassembly).
          IsCounted r.1 × HasAddress r.0.address r.1.fragments × (st.count ≤ r.1.count))
        made
        (
          record { covers = omega (arith, h.covers); bound = omega (arith, room) },
          inl refl,
          omega arith,
        )
]

pub store-address :
    (m : Endian) (hdr : IpHdr) (payload : List ℕ) (plen now : ℕ) (f f' : IpFragment)
    → ip_fragment_store m hdr payload plen now f ≡ stored f'
    → f'.address ≡ f.address
unfolding ip_fragment_store
store-address m hdr payload plen now f f' e = ground arith

finish-IsCounted :
    (f : IpFragment) (st : Reassembly) (count : ℕ)
    → IsCounted st
    → HasAddress f.address st.fragments
    → count ≤ st.count
    → CountedResult count (ip_fragment_finish f st)
unfolding ip_fragment_finish
finish-IsCounted f st count h has le = elim (Bool-cases (f.len == 0)) [
  | inl unknown ↦ rw (ip_fragment_finish, unknown) kept
  | inr known ↦ elim (Option-cases (maskchk f.mask 0 f.len)) [
    | inl bad ↦ rw (ip_fragment_finish, known, bad) tt
    | inr (b, e) ↦ elim (Bool-cases b) [
      | inr lacks ↦ rw (ip_fragment_finish, known, e, lacks) kept
      | inl all ↦
          rw (ip_fragment_finish, known, e, all)
            (record {
              covers = omega (arith, h.covers, length-detach f st.fragments has);
              bound = omega (arith, h.bound);
            })
    ]
  ]
]
  where
    kept : IsCounted (record st { fragments = write_fragment f st.fragments }) × (count ≤ st.count)
    kept = (
      record {
        covers = omega (arith, h.covers, length-write_fragment f st.fragments);
        bound = h.bound;
      },
      le,
    )

add-IsCounted :
    (m : Endian) (clock : Clock) (hdr : IpHdr) (payload : List ℕ) (plen : ℕ) (chunk : Option Chunk)
    (st : Reassembly)
    → IsCounted st
    → CountedResult st.count (ip_fragment_add m clock hdr payload plen chunk st)
unfolding ip_fragment_add
add-IsCounted m clock hdr payload plen chunk st h =
    elim (Object-cases (find_or_create hdr chunk st)) [
      | inl (inl none_there) ↦ rw (ip_fragment_add, none_there) (h, omega arith)
      | inl (inr overran) ↦ rw (ip_fragment_add, overran) tt
      | inr (pair, e) ↦
          let (h', has, le) = find_or_create-IsCounted hdr chunk st pair.1 pair.0 h e in
          elim (Stored-cases (ip_fragment_store m hdr payload plen clock.stamped pair.0)) [
            | inl (f', done) ↦
                let has' =
                  subst (λ a. HasAddress a pair.1.fragments)
                    (sym (store-address m hdr payload plen clock.stamped pair.0 f' done)) has in
                rw (ip_fragment_add, e, done) (finish-IsCounted f' pair.1 st.count h' has' le)
            | inr (inl bad) ↦ rw (ip_fragment_add, e, bad) tt
            | inr (inr bad) ↦ rw (ip_fragment_add, e, bad) tt
          ]
    ]

-- A call keeps the count above the number of objects and within its bound, and only a complete datagram
-- lowers it: the objects that the patrol frees stay in it.
pub ip_fragment_process-IsCounted :
    (m : Endian) (clock : Clock) (hdr : IpHdr) (payload : List ℕ) (plen : ℕ) (chunk : Option Chunk)
    (st : Reassembly)
    → IsCounted st
    → CountedResult st.count (ip_fragment_process m clock hdr payload plen chunk st)
unfolding ip_fragment_process
ip_fragment_process-IsCounted m clock hdr payload plen chunk st h =
    elim (Bool-cases (ltb (st.timestamp + 10) clock.tested)) [
      | inr not_due ↦
          rw (ip_fragment_process, not_due) (add-IsCounted m clock hdr payload plen chunk st h)
      | inl due ↦ elim (Patrol-cases (ip_fragment_patrol clock.patrolled_at st.fragments)) [
        | inl bad ↦ rw (ip_fragment_process, due, bad) tt
        | inr (list, n, e) ↦
            rw (ip_fragment_process, due, e)
              (add-IsCounted m clock hdr payload plen chunk (record st { fragments = list })
                (record {
                  covers =
                      omega
                        (arith, h.covers, length-patrol clock.patrolled_at st.fragments list n e);
                  bound = h.bound;
                }))
      ]
    ]
  where
    Patrol-cases :
        (p : Patrol)
        → (p ≡ use_after_free) ⊎ ((list : List IpFragment) × (n : ℕ) × (p ≡ patrolled list n))
    Patrol-cases use_after_free = inl refl
    Patrol-cases (patrolled list n) = inr (list, n, refl)

-- Once as many datagrams as there may be have been lost, so that the count is at its bound and no object
-- is left, no fragment is ever taken again.
pub ip_fragment_process-starved :
    (m : Endian) (clock : Clock) (hdr : IpHdr) (payload : List ℕ) (plen : ℕ) (chunk : Option Chunk)
    (st : Reassembly)
    → st.fragments ≡ []
    → ip_fragment_num_max ≤ st.count
    → ip_fragment_process m clock hdr payload plen chunk st ≡ pending st
unfolding ip_fragment_process ip_fragment_add find_or_create ip_fragment_search ip_fragment_patrol
ip_fragment_process-starved m clock hdr payload plen chunk st no_object full = ground arith

-- The store of a fragment: past the buffer or the payload it faults, without a byte it comes to an undefined
-- shift, and otherwise it is done.
pub ip_fragment_store_lem :
    (m : Endian) (hdr : IpHdr) (payload : List ℕ) (plen now : ℕ) (f : IpFragment)
    → IsMask f.mask
    → length f.mask ≡ mask_words
    → ((65535 < fragment_off m hdr + plen) ⊎ (length payload < plen)
        → ip_fragment_store m hdr payload plen now f ≡ fault)
      × (fragment_off m hdr + plen ≤ 65535
          → plen ≤ length payload
          → ((plen ≡ 0 → ip_fragment_store m hdr payload plen now f ≡ undefined)
              × (0 < plen
                  → (f' : IpFragment) × (ip_fragment_store m hdr payload plen now f ≡ stored f'))))
unfolding ip_fragment_store data_size
ip_fragment_store_lem m hdr payload plen now f mask words = (
  λ out. ground arith,
  λ fits held. (
    λ empty. let e = maskset-empty f.mask (fragment_off m hdr) in ground arith,
    λ some_bytes.
        let (mask', e, sets) =
          maskset_lem f.mask (fragment_off m hdr) plen mask some_bytes (omega (arith, words)) in
        let inside : (ltb 65535 (fragment_off m hdr + plen) || ltb (length payload) plen) ≡ false =
          ground arith in
        (
          record f {
            bytes = write_at (fragment_off m hdr) (take plen payload) f.bytes;
            mask = mask';
            len = known_len m hdr plen f.len;
            timestamp = now;
          },
          rw (ip_fragment_store, inside, e) refl,
        ),
  ),
)
