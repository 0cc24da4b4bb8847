-- ===== src/Ip/Fragment/Laws.antt =====
-- ip.c: what search, detach and patrol do to the list of datagrams in reassembly.
use mathlib.Core.Option.{none, some-injective}
use protocol_stack.Base.{
  ◌∙◌, sym, subst, ◌≢◌, All, ℕ, zero, suc, ◌+◌, ◌<◌, ◌≡◌, ◌⊎◌, inl, inr, refl, arith, true, false,
  List, [], ◌∷◌, some, length, get_elem?, Bool-cases, if◌then◌else◌,
}
use protocol_stack.Ip.Fragment.{
  is_same_datagram, ip_fragment_detach, IpHdr, ip_fragment_search, IpFragment, is_timed_out,
  use_after_free, patrolled, ip_fragment_patrol,
}

-- The objects that are kept, and the number of the others.
unfoldable pub in_time : ℕ → List IpFragment → List IpFragment
in_time now [] = []
in_time now (entry ∷ rest) =
    let rest' = in_time now rest in if is_timed_out now entry then rest' else (entry ∷ rest')

-- The object at `k` is over its time and not the last.
abbrev pub IsStaleAt : ℕ → List IpFragment → ℕ → Type 0
IsStaleAt now list k =
    (entry : IpFragment) × (get_elem? list k ≡ some entry)
    × (is_timed_out now entry ≡ true)
    × (suc k < length list)

-- The patrol goes on with an object that it has freed exactly when an object other than the last is over
-- its time. Otherwise it leaves the objects that are not, in their order.
pub ip_fragment_patrol_lem :
    (now : ℕ) (list : List IpFragment)
    → ((k : ℕ) × IsStaleAt now list k × (ip_fragment_patrol now list ≡ use_after_free))
      ⊎ (((k : ℕ) → ¬ IsStaleAt now list k)
          × (count : ℕ) × (ip_fragment_patrol now list ≡ patrolled (in_time now list) count)
          × (length list ≡ length (in_time now list) + count))
unfolding ip_fragment_patrol in_time
ip_fragment_patrol_lem now [] = inr (λ k h. absurd (omega (arith, h.3)), 0, refl, refl)
ip_fragment_patrol_lem now (entry ∷ []) = elim (Bool-cases (is_timed_out now entry)) [
  | inl late ↦ inr (
    λ k h. absurd (omega (arith, h.3)),
    1,
    rw (ip_fragment_patrol, in_time, late) refl,
    rw (in_time, late) refl,
  )
  | inr early ↦ inr (
    λ k h. absurd (omega (arith, h.3)),
    0,
    rw (ip_fragment_patrol, in_time, early) refl,
    rw (in_time, early) refl,
  )
]
ip_fragment_patrol_lem now (entry ∷ next ∷ rest) = elim (Bool-cases (is_timed_out now entry)) [
  | inl late ↦ inl (0, (entry, refl, late, omega arith), rw (ip_fragment_patrol, late) refl)
  | inr early ↦ elim (ip_fragment_patrol_lem now (next ∷ rest)) [
    | inl (k, (e, at, late, lt), crash) ↦
        inl (suc k, (e, at, late, omega arith), rw (ip_fragment_patrol, early, crash) refl)
    | inr (fine, count, step, size) ↦ inr (
      none_stale early fine,
      count,
      rw (ip_fragment_patrol, in_time, early, step) refl,
      rw (in_time, early) (omega (arith, size)),
    )
  ]
]
  where
    none_stale :
        is_timed_out now entry ≡ false
        → ((k : ℕ) → ¬ IsStaleAt now (next ∷ rest) k)
        → (k : ℕ) → ¬ IsStaleAt now (entry ∷ next ∷ rest) k
    none_stale early fine zero (e, at, late, lt) = let same = some-injective _ _ at in absurd (cc)
    none_stale early fine (suc k) (e, at, late, lt) = fine k (e, at, late, omega arith)

-- No two objects have one address, or are for one datagram.
abbrev pub IsReassembly : List IpFragment → Type 0
IsReassembly [] = Unit
IsReassembly (entry ∷ rest) =
    All (λ e. e.address ≢ entry.address) rest
    × ((hdr : IpHdr) → is_same_datagram hdr entry ≡ true → ip_fragment_search hdr rest ≡ none)
    × IsReassembly rest

pub search-All :
    (P : IpFragment → Type 0) (hdr : IpHdr) (list : List IpFragment) (e : IpFragment)
    → ip_fragment_search hdr list ≡ some e
    → All P list
    → P e
unfolding ip_fragment_search
search-All P hdr [] e found h = absurd (cc)
search-All P hdr (entry ∷ rest) e found h = elim (Bool-cases (is_same_datagram hdr entry)) [
  | inl here ↦ subst P (some-injective _ _ (sym (first here) ∙ found)) h.0
  | inr there ↦ search-All P hdr rest e (sym (later there) ∙ found) h.1
]
  where
    first : is_same_datagram hdr entry ≡ true → ip_fragment_search hdr (entry ∷ rest) ≡ some entry
    first here = rw (ip_fragment_search, here) refl

    later :
        is_same_datagram hdr entry ≡ false
        → ip_fragment_search hdr (entry ∷ rest) ≡ ip_fragment_search hdr rest
    later there = rw (ip_fragment_search, there) refl

-- An object that is found and detached is not found again, and every other datagram's object is found as
-- before.
pub ip_fragment_search-detach :
    (hdr : IpHdr) (list : List IpFragment) (e : IpFragment)
    → IsReassembly list
    → ip_fragment_search hdr list ≡ some e
    → (ip_fragment_search hdr (ip_fragment_detach e.address list) ≡ none)
      × ((other : IpHdr)
          → ip_fragment_search other list ≢ some e
          → ip_fragment_search other (ip_fragment_detach e.address list)
            ≡ ip_fragment_search other list)
unfolding ip_fragment_search ip_fragment_detach
ip_fragment_search-detach hdr [] e h found = absurd (cc)
ip_fragment_search-detach hdr (entry ∷ rest) e h found =
    elim (Bool-cases (is_same_datagram hdr entry)) [
      | inl here ↦
          let same : entry ≡ e = ground arith in
          let gone = h.1 hdr here in (ground arith, λ other ne. ground arith)
      | inr there ↦
          let found' : ip_fragment_search hdr rest ≡ some e = ground arith in
          let (gone, kept) = ip_fragment_search-detach hdr rest e h.2 found' in
          let apart = search-All (λ x. x.address ≢ entry.address) hdr rest e found' h.0 in
          (ground arith, λ other ne. let k = kept other in ground arith)
    ]
