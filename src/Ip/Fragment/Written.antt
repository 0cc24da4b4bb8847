-- ===== src/Ip/Fragment/Written.antt =====
-- ip.c: the list of objects of reassembly when one is written in its place or taken out.
use mathlib.Core.Option.{some-injective}
use protocol_stack.Ip.Header.{IpHdr}
use protocol_stack.Ip.Fragment.Process.{write_fragment}
use protocol_stack.Ip.Fragment.{
  is_same_datagram, ip_fragment_detach, ip_fragment_search, IpFragment,
}
use protocol_stack.Base.{
  subst, ap, ◌≢◌, ◌∙◌, ◌==◌, arith, sym, Bool-cases, All, ◌↔◌, List, ◌≡◌, ◌∷◌, refl, false, true,
  inr, inl, some, none, [], ℕ,
}
use protocol_stack.Ip.Fragment.Laws.{IsReassembly, search-All}

-- Two objects of one address, for one datagram.
pub record Alike (f f' : IpFragment) : Type 0 where
  pub address : f'.address ≡ f.address
  pub datagram : (h : IpHdr) → is_same_datagram h f' ≡ is_same_datagram h f

pub search-here :
    (h : IpHdr) (f : IpFragment) (list : List IpFragment)
    → is_same_datagram h f ≡ true
    → ip_fragment_search h (f ∷ list) ≡ some f
unfolding ip_fragment_search
search-here h f list same = rw (ip_fragment_search, same) refl

pub search-later :
    (h : IpHdr) (f : IpFragment) (list : List IpFragment)
    → is_same_datagram h f ≡ false
    → ip_fragment_search h (f ∷ list) ≡ ip_fragment_search h list
unfolding ip_fragment_search
search-later h f list other = rw (ip_fragment_search, other) refl

search_none_iff :
    (h : IpHdr) (list : List IpFragment)
    → (ip_fragment_search h list ≡ none) ↔ All (λ f. is_same_datagram h f ≡ false) list
unfolding ip_fragment_search
search_none_iff h [] = (λ e. tt, λ all. refl)
search_none_iff h (f ∷ list) = elim (Bool-cases (is_same_datagram h f)) [
  | inl same ↦ (λ e. absurd (cc (e, search-here h f list same)), λ all. absurd (cc (all.0, same)))
  | inr other ↦ (
    λ e. (other, (search_none_iff h list).0 (sym (search-later h f list other) ∙ e)),
    λ all. search-later h f list other ∙ (search_none_iff h list).1 all.1,
  )
]

pub search-same :
    (h : IpHdr) (list : List IpFragment) (f : IpFragment)
    → ip_fragment_search h list ≡ some f
    → is_same_datagram h f ≡ true
unfolding ip_fragment_search
search-same h [] f e = absurd (cc)
search-same h (g ∷ list) f e = ground (arith, search-same h list f)

write-All :
    (P : IpFragment → Type 0) (f : IpFragment) (list : List IpFragment)
    → P f
    → All P list
    → All P (write_fragment f list)
unfolding write_fragment
write-All P f [] p all = tt
write-All P f (g ∷ list) p (first, rest) = elim (Bool-cases (g.address == f.address)) [
  | inl here ↦ rw (write_fragment, here) (p, rest)
  | inr later ↦ rw (write_fragment, later) (first, write-All P f list p rest)
]

pub detach-All :
    (P : IpFragment → Type 0) (address : ℕ) (list : List IpFragment)
    → All P list
    → All P (ip_fragment_detach address list)
unfolding ip_fragment_detach
detach-All P address [] all = tt
detach-All P address (g ∷ list) (first, rest) = elim (Bool-cases (g.address == address)) [
  | inl here ↦ rw (ip_fragment_detach, here) rest
  | inr later ↦ rw (ip_fragment_detach, later) (first, detach-All P address list rest)
]

pub detach-IsReassembly :
    (address : ℕ) (list : List IpFragment)
    → IsReassembly list
    → IsReassembly (ip_fragment_detach address list)
unfolding ip_fragment_detach
detach-IsReassembly address [] h = tt
detach-IsReassembly address (g ∷ list) (apart, alone, rest) =
    elim (Bool-cases (g.address == address)) [
      | inl here ↦ rw (ip_fragment_detach, here) rest
      | inr later ↦
          rw (ip_fragment_detach, later)
            (
              detach-All (λ e. e.address ≢ g.address) address list apart,
              λ h same. (search_none_iff h (ip_fragment_detach address list)).1 (
                  detach-All (λ e. is_same_datagram h e ≡ false) address list
                    ((search_none_iff h list).0 (alone h same))),
              detach-IsReassembly address list rest,
            )
    ]

-- The object found is written in its place: it is found there, the others are as before.
pub record Writes (hdr : IpHdr) (f f' : IpFragment) (list list' : List IpFragment) : Type 0 where
  pub wf : IsReassembly list'
  pub found : ip_fragment_search hdr list' ≡ some f'
  pub others :
      (h : IpHdr)
      → is_same_datagram h f ≡ false
      → ip_fragment_search h list' ≡ ip_fragment_search h list

pub write-Writes :
    (hdr : IpHdr) (f f' : IpFragment) (list : List IpFragment)
    → IsReassembly list
    → ip_fragment_search hdr list ≡ some f
    → Alike f f'
    → Writes hdr f f' list (write_fragment f' list)
unfolding write_fragment ip_fragment_search
write-Writes hdr f f' [] wf e alike = absurd (cc)
write-Writes hdr f f' (g ∷ list) (apart, alone, rest) e alike =
    elim (Bool-cases (is_same_datagram hdr g)) [
      | inl here ↦
          let g_is_f : g ≡ f = some-injective _ _ (sym (search-here hdr g list here) ∙ e) in
          let address : f'.address ≡ g.address =
            alike.address ∙ ap (λ (x : IpFragment). x.address) (sym g_is_f) in
          let datagram : (h : IpHdr) → is_same_datagram h f' ≡ is_same_datagram h g =
            λ h. alike.datagram h ∙ ap (is_same_datagram h) (sym g_is_f) in
          let stands : (g.address == f'.address) ≡ true = ground (arith, address) in
          rw (write_fragment, stands)
            (record {
              wf = (
                subst (λ (a : ℕ). All (λ (x : IpFragment). x.address ≢ a) list) (sym address) apart,
                λ h same. alone h (sym (datagram h) ∙ same),
                rest,
              );
              found = search-here hdr f' list (datagram hdr ∙ here);
              others = λ h other.
                  search-later h f' list (alike.datagram h ∙ other)
                  ∙ sym (search-later h g list (ap (is_same_datagram h) g_is_f ∙ other));
            })
      | inr later ↦
          let found' : ip_fragment_search hdr list ≡ some f =
            sym (search-later hdr g list later) ∙ e in
          let not_here : f.address ≢ g.address =
            search-All (λ x. x.address ≢ g.address) hdr list f found' apart in
          let stands : (g.address == f'.address) ≡ false =
            ground (arith, alike.address, not_here) in
          let writes = write-Writes hdr f f' list rest found' alike in
          rw (write_fragment, stands)
            (record {
              wf = (
                write-All (λ x. x.address ≢ g.address) f' list
                    (λ same. not_here (sym alike.address ∙ same)) apart,
                λ h same.
                    let none_of = (search_none_iff h list).0 (alone h same) in
                    (search_none_iff h (write_fragment f' list)).1 (
                      write-All (λ x. is_same_datagram h x ≡ false) f' list
                        (alike.datagram h
                          ∙ search-All (λ x. is_same_datagram h x ≡ false) hdr list f found'
                              none_of)
                        none_of),
                writes.wf,
              );
              found = search-later hdr g (write_fragment f' list) later ∙ writes.found;
              others = λ h other. elim (Bool-cases (is_same_datagram h g)) [
                | inl same ↦
                    search-here h g (write_fragment f' list) same ∙ sym (search-here h g list same)
                | inr differs ↦
                    search-later h g (write_fragment f' list) differs
                    ∙ writes.others h other
                    ∙ sym (search-later h g list differs)
              ];
            })
    ]
