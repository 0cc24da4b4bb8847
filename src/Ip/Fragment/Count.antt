-- ===== src/Ip/Fragment/Count.antt =====
-- ip.c: how many objects of reassembly there are.
use mathlib.Core.Option.{some-injective}
use protocol_stack.Ip.Fragment.Laws.{in_time, ip_fragment_patrol_lem}
use protocol_stack.Ip.Fragment.Process.{
  Process, completed, pending, broken, patrol_crash, ip_fragment_num_max, write_fragment,
  Reassembly,
}
use protocol_stack.Ip.Fragment.{
  is_same_datagram, ip_fragment_patrol, ip_fragment_detach, IpHdr, IpFragment, ip_fragment_search,
  patrolled,
}
use protocol_stack.Base.{
  ap, Bool-cases, arith, ◌⊎◌, ◌≡◌, ◌≤◌, length, List, ◌∷◌, refl, false, true, inr, inl, some, [], ℕ,
  ◌+◌,
}

-- The static count covers the objects in the list, and does not pass its bound.
pub record IsCounted (st : Reassembly) : Type 0 where
  pub covers : length st.fragments ≤ st.count
  pub bound : st.count ≤ ip_fragment_num_max

-- An object of the address is in the list.
abbrev pub HasAddress : ℕ → List IpFragment → Type 0
HasAddress address [] = ⊥
HasAddress address (f ∷ list) = (f.address ≡ address) ⊎ HasAddress address list

pub search-HasAddress :
    (hdr : IpHdr) (list : List IpFragment) (f : IpFragment)
    → ip_fragment_search hdr list ≡ some f
    → HasAddress f.address list
unfolding ip_fragment_search
search-HasAddress hdr [] f e = absurd (cc)
search-HasAddress hdr (g ∷ list) f e = elim (Bool-cases (is_same_datagram hdr g)) [
  | inl same ↦ inl (ap (λ (x : IpFragment). x.address) (some-injective _ _ (first same e)))
  | inr other ↦ inr (search-HasAddress hdr list f (later other e))
]
  where
    first :
        is_same_datagram hdr g ≡ true → ip_fragment_search hdr (g ∷ list) ≡ some f → some g ≡ some f
    first same e = ground arith

    later :
        is_same_datagram hdr g ≡ false
        → ip_fragment_search hdr (g ∷ list) ≡ some f
        → ip_fragment_search hdr list ≡ some f
    later other e = ground arith

pub length-write_fragment :
    (f : IpFragment) (list : List IpFragment) → length (write_fragment f list) ≡ length list
unfolding write_fragment
length-write_fragment f [] = refl
length-write_fragment f (g ∷ list) = ground (arith, length-write_fragment f list)

pub length-detach :
    (f : IpFragment) (list : List IpFragment)
    → HasAddress f.address list
    → length (ip_fragment_detach f.address (write_fragment f list)) + 1 ≡ length list
unfolding write_fragment ip_fragment_detach
length-detach f [] h = absurd h
length-detach f (g ∷ list) (inl same) = ground (arith, same)
length-detach f (g ∷ list) (inr later) =
    ground (arith, length-detach f list later, length-write_fragment f list)

pub length-patrol :
    (now : ℕ) (list list' : List IpFragment) (n : ℕ)
    → ip_fragment_patrol now list ≡ patrolled list' n
    → length list' ≤ length list
length-patrol now list list' n e = elim (ip_fragment_patrol_lem now list) [
  | inl (k, stale, bad) ↦ absurd (cc)
  | inr (fine, count, step, size) ↦
      let same : list' ≡ in_time now list = ground (arith, e, step) in
      omega (arith, ap length same, size)
]

-- The count after a call that returns: it goes down only for a datagram that is complete.
abbrev pub CountedResult : ℕ → Process → Type 0
CountedResult count patrol_crash = Unit
CountedResult count (broken s) = Unit
CountedResult count (pending st) = IsCounted st × (count ≤ st.count)
CountedResult count (completed f st) = IsCounted st
