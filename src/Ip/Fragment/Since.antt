-- ===== src/Ip/Fragment/Since.antt =====
-- ip.c: no call of `ip_fragment_process` makes an object older than the call.
use protocol_stack.Ip.Fragment.Written.{detach-All}
use protocol_stack.Ip.Fragment.Starve.{store-address}
use protocol_stack.Util.Mask.{maskchk}
use protocol_stack.Ip.Fragment.Laws.{IsReassembly}
use protocol_stack.Util.ByteOrder.{Endian}
use protocol_stack.Ip.Fragment.{IpHdr, IpFragment}
use protocol_stack.Ip.Fragment.Process.{
  object_given, new_fragment, Chunk, Clock, Reassembly, ip_fragment_add, ip_fragment_store,
  ip_fragment_finish, Process, find_or_create, write_fragment, completed, stored, pending,
  patrol_crash, broken,
}
use protocol_stack.Base.{
  sym, Option-cases, subst, arith, ◌==◌, ◌≤◌, ◌⊎◌, Bool-cases, Option, ◌≢◌, ◌≡◌, All, List, ◌∷◌,
  refl, inr, inl, [], ℕ,
}
use protocol_stack.Ip.Fragment.Arrivals.{find_or_create-cases, Object-cases, IsSince, Stored-cases}
use protocol_stack.Ip.Fragment.Others.{IsFresh, find_or_create-Found}

-- The objects other than that of the address are no older than `since`.
abbrev IsSinceBut : ℕ → ℕ → List IpFragment → Type 0
IsSinceBut since address = All (λ f. (f.address ≡ address) ⊎ (since ≤ f.timestamp))

but_none :
    (since address : ℕ) (list : List IpFragment)
    → All (λ (f : IpFragment). f.address ≢ address) list
    → IsSinceBut since address list
    → IsSince since list
but_none since address [] apart h = tt
but_none since address (g ∷ list) (differs, apart) (inl same, rest) = absurd (differs same)
but_none since address (g ∷ list) (differs, apart) (inr young, rest) =
    (young, but_none since address list apart rest)

write-IsSince :
    (since : ℕ) (f : IpFragment) (list : List IpFragment)
    → IsReassembly list
    → since ≤ f.timestamp
    → IsSinceBut since f.address list
    → IsSince since (write_fragment f list)
unfolding write_fragment
write-IsSince since f [] wf young h = tt
write-IsSince since f (g ∷ list) (apart, alone, wf) young (first, rest) =
    elim (Bool-cases (g.address == f.address)) [
      | inl here ↦
          let same : g.address ≡ f.address = ground arith in
          rw (write_fragment, here)
            (
              young,
              but_none since f.address list
                  (subst (λ (a : ℕ). All (λ (x : IpFragment). x.address ≢ a) list) same apart) rest,
            )
      | inr later ↦
          let differs : g.address ≢ f.address = ground arith in
          rw (write_fragment, later)
            (young_of first differs, write-IsSince since f list wf young rest)
    ]
  where
    young_of : {A : Type 0} → (A ⊎ (since ≤ g.timestamp)) → ¬ A → since ≤ g.timestamp
    young_of (inl a) no_a = absurd (no_a a)
    young_of (inr young) no_a = young

IsSince-but :
    (since address : ℕ) (list : List IpFragment)
    → IsSince since list
    → IsSinceBut since address list
IsSince-but since address [] h = tt
IsSince-but since address (f ∷ list) (young, rest) =
    (inr young, IsSince-but since address list rest)

find_or_create-IsSinceBut :
    (hdr : IpHdr) (chunk : Option Chunk) (st st' : Reassembly) (f : IpFragment) (since : ℕ)
    → IsSince since st.fragments
    → find_or_create hdr chunk st ≡ object_given f st'
    → IsSinceBut since f.address st'.fragments
find_or_create-IsSinceBut hdr chunk st st' f since old e =
    elim (find_or_create-cases hdr chunk st st' f e) [
      | inl (found, same) ↦
          subst (λ (r : IpFragment × Reassembly). IsSinceBut since r.0.address r.1.fragments) same
            (IsSince-but since f.address st.fragments old)
      | inr (c, memory, missing, room, made) ↦
          subst (λ (r : IpFragment × Reassembly). IsSinceBut since r.0.address r.1.fragments) made
            (inl refl, IsSince-but since (new_fragment hdr c).address st.fragments old)
    ]

-- The list after a call that returns.
abbrev pub SinceResult : ℕ → Process → Type 0
SinceResult since patrol_crash = Unit
SinceResult since (broken s) = Unit
SinceResult since (pending st) = IsSince since st.fragments
SinceResult since (completed f st) = IsSince since st.fragments

finish-IsSince :
    (since : ℕ) (f : IpFragment) (st : Reassembly)
    → IsSince since (write_fragment f st.fragments)
    → SinceResult since (ip_fragment_finish f st)
unfolding ip_fragment_finish
finish-IsSince since f st h = elim (Bool-cases (f.len == 0)) [
  | inl unknown ↦ rw (ip_fragment_finish, unknown) h
  | inr known ↦ elim (Option-cases (maskchk f.mask 0 f.len)) [
    | inl bad ↦ rw (ip_fragment_finish, known, bad) tt
    | inr (b, e) ↦ elim (Bool-cases b) [
      | inr lacks ↦ rw (ip_fragment_finish, known, e, lacks) h
      | inl all ↦
          rw (ip_fragment_finish, known, e, all)
            (detach-All (λ x. since ≤ x.timestamp) f.address (write_fragment f st.fragments) h)
    ]
  ]
]

store-timestamp :
    (m : Endian) (hdr : IpHdr) (payload : List ℕ) (plen now : ℕ) (f f' : IpFragment)
    → ip_fragment_store m hdr payload plen now f ≡ stored f'
    → f'.timestamp ≡ now
unfolding ip_fragment_store
store-timestamp m hdr payload plen now f f' e = ground arith

pub add-IsSince :
    (m : Endian) (clock : Clock) (hdr : IpHdr) (payload : List ℕ) (plen : ℕ) (chunk : Option Chunk)
    (st : Reassembly) (since : ℕ)
    → IsSince since st.fragments
    → since ≤ clock.stamped
    → IsReassembly st.fragments
    → IsFresh chunk st.fragments
    → SinceResult since (ip_fragment_add m clock hdr payload plen chunk st)
unfolding ip_fragment_add
add-IsSince m clock hdr payload plen chunk st since old after wf fresh =
    elim (Object-cases (find_or_create hdr chunk st)) [
      | inl (inl none_there) ↦ rw (ip_fragment_add, none_there) old
      | inl (inr overran) ↦ rw (ip_fragment_add, overran) tt
      | inr (pair, e) ↦
          let found = find_or_create-Found hdr chunk st pair.1 pair.0 wf fresh e in
          let but = find_or_create-IsSinceBut hdr chunk st pair.1 pair.0 since old e in
          elim (Stored-cases (ip_fragment_store m hdr payload plen clock.stamped pair.0)) [
            | inl (f', done) ↦
                let address = store-address m hdr payload plen clock.stamped pair.0 f' done in
                let stamp = store-timestamp m hdr payload plen clock.stamped pair.0 f' done in
                rw (ip_fragment_add, e, done)
                  (finish-IsSince since f' pair.1 (
                    write-IsSince since f' pair.1.fragments found.0 (omega (arith, stamp, after))
                      (subst (λ a. IsSinceBut since a pair.1.fragments) (sym address) but)))
            | inr (inl bad) ↦ rw (ip_fragment_add, e, bad) tt
            | inr (inr bad) ↦ rw (ip_fragment_add, e, bad) tt
          ]
    ]
