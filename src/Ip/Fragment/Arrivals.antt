-- ===== src/Ip/Fragment/Arrivals.antt =====
-- ip.c: the fragments of one datagram, in any order, through `ip_fragment_process`: the calls, and what each finds.
use protocol_stack.Ip.Fragment.Collect.{IsHeaderOf, InPiece}
use protocol_stack.Util.ByteOrder.{Endian}
use protocol_stack.Ip.Fragment.{
  is_timed_out, IpFragment, ip_fragment_search, is_same_datagram, ip_fragment_patrol, IpHdr,
  patrolled,
}
use protocol_stack.Ip.Fragment.Process.{
  Object, cleared_behind, object_refused, object_given, object_overrun, ip_fragment_num_max, Stored,
  fault, stored, undefined, new_fragment, ip_fragment_add, Process, Chunk, ip_fragment_alloc,
  Reassembly, Clock, find_or_create, ip_fragment_process, pending, patrol_crash, completed, broken,
}
use protocol_stack.Base.{
  ap, ◌∙◌, sym, Option-cases, leb, ltb, Bool-cases, ◌<◌, ◌++◌, arith, ◌≤◌, All, ◌⊎◌, Option, length,
  ◌≡◌, List, ◌∷◌, refl, false, true, inr, inl, some, none, [], ℕ, ◌+◌,
}
use protocol_stack.Ip.Tx.Plan.{Piece, IsPiece, piece_bytes}

-- A call of `ip_fragment_process` with a piece of the payload, and bytes after it.
pub record Arrival : Type 0 where
  pub piece : Piece
  pub padding : List ℕ
  pub hdr : IpHdr
  pub clock : Clock
  pub chunk : Option Chunk

-- The calls, until one completes the datagram or fails.
unfoldable pub ip_fragment_run : Endian → List ℕ → List Arrival → Reassembly → Process
ip_fragment_run m payload [] st = pending st
ip_fragment_run m payload (a ∷ arrivals) st =
    elim (ip_fragment_process m a.clock a.hdr (piece_bytes payload a.piece ++ a.padding)
      a.piece.size a.chunk st) [
        | patrol_crash ↦ patrol_crash
        | broken s ↦ broken s
        | completed f st' ↦ completed f st'
        | pending st' ↦ ip_fragment_run m payload arrivals st'
      ]

abbrev pub HasByte : List Arrival → ℕ → Type 0
HasByte [] k = ⊥
HasByte (a ∷ arrivals) k = InPiece a.piece k ⊎ HasByte arrivals k

abbrev pub SameDatagram : IpHdr → IpHdr → Type 0
SameDatagram h h' =
    (h.src ≡ h'.src) × (h.dst ≡ h'.dst) × (h.id ≡ h'.id) × (h.protocol ≡ h'.protocol)

-- The objects are no older than `since`.
abbrev pub IsSince : ℕ → List IpFragment → Type 0
IsSince since = All (λ f. since ≤ f.timestamp)

-- A fragment of the datagram of `hdr` that arrives in the 30 seconds from `since` on.
pub record IsArrival (m : Endian) (step : ℕ) (payload : List ℕ) (hdr : IpHdr) (since : ℕ)
    (a : Arrival) : Type 0 where
  pub piece : IsPiece step (length payload) a.piece
  pub header : IsHeaderOf m (length payload) a.piece a.hdr
  pub same : SameDatagram a.hdr hdr
  pub after : since ≤ a.clock.stamped
  pub in_time : a.clock.patrolled_at ≤ since + 30

patrol_kept :
    (since now : ℕ) (list : List IpFragment)
    → IsSince since list
    → now ≤ since + 30
    → ip_fragment_patrol now list ≡ patrolled list 0
unfolding ip_fragment_patrol is_timed_out
patrol_kept since now [] h early = refl
patrol_kept since now (f ∷ list) (first, rest) early =
    let fresh : is_timed_out now f ≡ false = ground arith in
    rw (ip_fragment_patrol, fresh, patrol_kept since now list rest early) refl

pub process_kept :
    (m : Endian) (clock : Clock) (hdr : IpHdr) (payload : List ℕ) (plen : ℕ) (chunk : Option Chunk)
    (st : Reassembly) (since : ℕ)
    → IsSince since st.fragments
    → clock.patrolled_at ≤ since + 30
    → ip_fragment_process m clock hdr payload plen chunk st
      ≡ ip_fragment_add m clock hdr payload plen chunk st
unfolding ip_fragment_process
process_kept m clock hdr payload plen chunk st since h early =
    elim (Bool-cases (ltb (st.timestamp + 10) clock.tested)) [
      | inl due ↦
          rw (ip_fragment_process, due, patrol_kept since clock.patrolled_at st.fragments h early)
            refl
      | inr not_due ↦ rw (ip_fragment_process, not_due) refl
    ]

pub is_same_datagram_cong :
    (h h' : IpHdr) (f : IpFragment)
    → SameDatagram h h'
    → is_same_datagram h f ≡ is_same_datagram h' f
unfolding is_same_datagram
is_same_datagram_cong h h' f (src, dst, id, protocol) = ground (arith, src, dst, id, protocol)

pub ip_fragment_search_cong :
    (h h' : IpHdr) (list : List IpFragment)
    → SameDatagram h h'
    → ip_fragment_search h list ≡ ip_fragment_search h' list
unfolding ip_fragment_search
ip_fragment_search_cong h h' [] same = refl
ip_fragment_search_cong h h' (f ∷ list) same =
    rw (is_same_datagram_cong h h' f same, ip_fragment_search_cong h h' list same) refl

abbrev pub state : List IpFragment → ℕ → ℕ → Reassembly
state fragments timestamp count = record {
  fragments = fragments;
  timestamp = timestamp;
  count = count;
}

pub find_head :
    (hdr : IpHdr) (chunk : Option Chunk) (f : IpFragment) (rest : List IpFragment) (t c : ℕ)
    → is_same_datagram hdr f ≡ true
    → find_or_create hdr chunk (state (f ∷ rest) t c) ≡ object_given f (state (f ∷ rest) t c)
unfolding find_or_create ip_fragment_search
find_head hdr chunk f rest t c same = rw (find_or_create, ip_fragment_search, same) refl

pub find_new :
    (hdr : IpHdr) (chunk : Chunk) (st : Reassembly)
    → ip_fragment_search hdr st.fragments ≡ none
    → st.count < 8
    → cleared_behind ≤ chunk.behind
    → find_or_create hdr (some chunk) st
      ≡ object_given
          (new_fragment hdr chunk)
          (state (new_fragment hdr chunk ∷ st.fragments) st.timestamp (st.count + 1))
unfolding find_or_create ip_fragment_alloc
find_new hdr chunk st missing room behind =
    let free : leb 8 st.count ≡ false = ground arith in
    let harmless : ltb chunk.behind cleared_behind ≡ false = ground arith in
    rw (find_or_create, missing, free, ip_fragment_alloc, harmless) refl

-- To split on what is found and keep the equation.
pub Object-cases :
    (x : Object)
    → ((x ≡ object_refused) ⊎ (x ≡ object_overrun))
      ⊎ ((pair : IpFragment × Reassembly) × (x ≡ object_given pair.0 pair.1))
Object-cases object_refused = inl (inl refl)
Object-cases object_overrun = inl (inr refl)
Object-cases (object_given f st) = inr ((f, st), refl)

abbrev pub SamePair : IpFragment × Reassembly → IpFragment × Reassembly → Type 0
SamePair p q = p ≡ q

-- How an object is come by: found in the list, or new at its front.
pub find_or_create-cases :
    (hdr : IpHdr) (chunk : Option Chunk) (st st' : Reassembly) (f : IpFragment)
    → find_or_create hdr chunk st ≡ object_given f st'
    → ((ip_fragment_search hdr st.fragments ≡ some f) × SamePair (f, st) (f, st'))
      ⊎ ((c : Chunk) × (chunk ≡ some c)
          × (ip_fragment_search hdr st.fragments ≡ none)
          × (st.count < 8)
          × SamePair
              (
                new_fragment hdr c,
                state (new_fragment hdr c ∷ st.fragments) st.timestamp (st.count + 1),
              )
              (f, st'))
unfolding find_or_create ip_fragment_alloc
find_or_create-cases hdr chunk st st' f e =
    elim (Option-cases (ip_fragment_search hdr st.fragments)) [
      | inr (g, found) ↦
          let old : find_or_create hdr chunk st ≡ object_given g st =
            rw (find_or_create, found) refl in
          let same = ap object_pair (sym old ∙ e) in
          let g_is_f : g ≡ f = ap (λ (r : IpFragment × Reassembly). r.0) same in
          inl (found ∙ ap some g_is_f, ap (λ (x : IpFragment). (x, st)) (sym g_is_f) ∙ same)
      | inl missing ↦ elim (Bool-cases (leb ip_fragment_num_max st.count)) [
        | inl full ↦
            let none_there : find_or_create hdr chunk st ≡ object_refused =
              rw (find_or_create, missing, full) refl in
            absurd (cc)
        | inr room ↦ elim (Option-cases chunk) [
          | inl nothing ↦
              let none_there : find_or_create hdr chunk st ≡ object_refused =
                rw (find_or_create, missing, room, nothing) refl in
              absurd (cc)
          | inr (c, memory) ↦
              let less : st.count < 8 = ground arith in
              elim (Bool-cases (ltb c.behind cleared_behind)) [
                | inl harm ↦
                    let overran : find_or_create hdr chunk st ≡ object_overrun =
                      rw (find_or_create, missing, room, memory, ip_fragment_alloc, harm) refl in
                    absurd (cc)
                | inr harmless ↦
                    let behind : cleared_behind ≤ c.behind = ground arith in
                    let made =
                      ap (λ k. find_or_create hdr k st) memory
                      ∙ find_new hdr c st missing less behind in
                    inr (c, memory, missing, less, ap object_pair (sym made ∙ e))
              ]
        ]
      ]
    ]
  where
    object_pair : Object → IpFragment × Reassembly
    object_pair object_refused = (f, st')
    object_pair object_overrun = (f, st')
    object_pair (object_given g s) = (g, s)

-- To split on a store and keep the equation.
pub Stored-cases :
    (s : Stored) → ((f : IpFragment) × (s ≡ stored f)) ⊎ ((s ≡ fault) ⊎ (s ≡ undefined))
Stored-cases fault = inr (inl refl)
Stored-cases undefined = inr (inr refl)
Stored-cases (stored f) = inl (f, refl)
