-- ===== src/Tests/IpFragment.antt =====
-- ip.c at concrete inputs: two datagrams in reassembly.
use protocol_stack.Base.{ℕ, ◌+◌, ◌≡◌, ◌≢◌, ◌⊎◌, refl, arith, [], ◌∷◌, none, some, length}
use protocol_stack.Ip.Header.{IpHdr}
use protocol_stack.Ip.Fragment.{
  IpFragment, is_same_datagram, ip_fragment_search, ip_fragment_detach, ip_fragment_patrol,
  use_after_free, patrolled, is_timed_out,
}
use protocol_stack.Ip.Fragment.Laws.{
  in_time, IsStaleAt, IsReassembly, ip_fragment_patrol_lem, ip_fragment_search-detach,
}

abbrev first : IpFragment
first = record {
  address = 1;
  src = 10;
  dst = 20;
  id = 5;
  protocol = 6;
  len = 0;
  bytes = [];
  mask = [];
  timestamp = 100;
}

abbrev second : IpFragment
second = record {
  address = 2;
  src = 10;
  dst = 20;
  id = 6;
  protocol = 6;
  len = 0;
  bytes = [];
  mask = [];
  timestamp = 150;
}

abbrev first_hdr : IpHdr
first_hdr = record {
  vhl = 69;
  tos = 0;
  len = 0;
  id = 5;
  offset = 0;
  ttl = 64;
  protocol = 6;
  sum = 0;
  src = 10;
  dst = 20;
}

ip_fragment_patrol_lem_example :
    ((k : ℕ) × IsStaleAt 140 (first ∷ second ∷ []) k
      × (ip_fragment_patrol 140 (first ∷ second ∷ []) ≡ use_after_free))
    ⊎ (((k : ℕ) → ¬ IsStaleAt 140 (first ∷ second ∷ []) k)
        × (count : ℕ) × (ip_fragment_patrol 140 (first ∷ second ∷ [])
            ≡ patrolled (in_time 140 (first ∷ second ∷ [])) count)
        × (2 ≡ length (in_time 140 (first ∷ second ∷ [])) + count))
ip_fragment_patrol_lem_example = ip_fragment_patrol_lem 140 (first ∷ second ∷ [])

-- The first object is over its time, and the second comes after it.
two_crash : ip_fragment_patrol 140 (first ∷ second ∷ []) ≡ use_after_free
unfolding ip_fragment_patrol is_timed_out
two_crash = refl

two-IsReassembly : IsReassembly (first ∷ second ∷ [])
unfolding is_same_datagram ip_fragment_search
two-IsReassembly = ((λ e. omega arith, tt), (λ hdr e. ground arith), (tt, (λ hdr e. refl), tt))

ip_fragment_search-detach_runs :
    (ip_fragment_search first_hdr (ip_fragment_detach 1 (first ∷ second ∷ [])) ≡ none)
    × ((other : IpHdr)
        → ip_fragment_search other (first ∷ second ∷ []) ≢ some first
        → ip_fragment_search other (ip_fragment_detach 1 (first ∷ second ∷ []))
          ≡ ip_fragment_search other (first ∷ second ∷ []))
unfolding is_same_datagram ip_fragment_search
ip_fragment_search-detach_runs =
    ip_fragment_search-detach first_hdr (first ∷ second ∷ []) first two-IsReassembly refl
