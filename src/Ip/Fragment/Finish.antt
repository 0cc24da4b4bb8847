-- ===== src/Ip/Fragment/Finish.antt =====
-- ip.c: the end of `ip_fragment_process`, for an object that collects a payload.
use protocol_stack.Ip.Fragment.Buffer.{get_or-take, get_or_ext}
use protocol_stack.Util.Mask.{maskchk}
use protocol_stack.Util.Mask.Words.{mask_bit}
use protocol_stack.Ip.Fragment.Collect.{Gains, HoldsPart}
use protocol_stack.Util.Mask.Check.{maskchk_lem}
use protocol_stack.Util.Mask.Ranges.{RangeSet}
use protocol_stack.Ip.Fragment.{ip_fragment_detach, IpFragment}
use protocol_stack.Ip.Fragment.Arrivals.{state, HasByte, Arrival}
use protocol_stack.Ip.Fragment.Process.{
  Reassembly, write_fragment, ip_fragment_finish, data_size, pending, completed,
}
use protocol_stack.Base.{
  refl, Bool-cases, ◌==◌, ap, ◌∙◌, ◌-◌, length-take, ◌⊎◌, take, arith, ◌≡◌, ◌≤◌, length, ◌<◌, List,
  ◌∷◌, false, inr, inl, some, [], ℕ, ◌+◌,
}
use protocol_stack.Ip.Tx.Plan.{IsPiece}

-- All bytes of the payload are in their place.
module _ (payload : List ℕ) where
  abbrev pub IsDone : IpFragment → Type 0
  IsDone f = (f.len ≡ length payload) × RangeSet 0 (length payload) f.mask

  -- What is not there yet is among the arrivals.
  abbrev pub Awaits : IpFragment → List Arrival → Type 0
  Awaits f arrivals =
      ((k : ℕ) → k < length payload → (mask_bit f.mask k ≡ 1) ⊎ HasByte arrivals k)
      × ((f.len ≡ length payload) ⊎ HasByte arrivals (length payload - 1))

  pub Awaits-none : (f : IpFragment) → Awaits f [] → IsDone f
  Awaits-none f (bits, len) = (ground (arith, len), λ k low high. ground (arith, bits k high))

module _ (payload : List ℕ) (positive : 0 < length payload) (small : length payload ≤ 65535) where
  pub done-bytes :
      (f : IpFragment) → HoldsPart payload f → IsDone payload f → take f.len f.bytes ≡ payload
  unfolding data_size
  done-bytes f holds (len, all) =
      let size : length (take (length payload) f.bytes) ≡ length payload =
        omega (arith, length-take (length payload) f.bytes, holds.room) in
      ap (λ (n : ℕ). take n f.bytes) len
      ∙ get_or_ext (take (length payload) f.bytes) payload size (λ k h.
        get_or-take (length payload) f.bytes k h ∙ (holds.held k (all k (omega arith) h)).1)

  -- The test at the end of `ip_fragment_process`.
  pub ip_fragment_finish-IsDone :
      (f : IpFragment) (st : Reassembly)
      → HoldsPart payload f
      → (f.len ≡ 0) ⊎ (f.len ≡ length payload)
      → (IsDone payload f
          × (ip_fragment_finish f st
              ≡ completed f (record st {
                fragments = ip_fragment_detach f.address (write_fragment f st.fragments);
                count = st.count - 1;
              })))
        ⊎ (¬ IsDone payload f
            × (ip_fragment_finish f st
                ≡ pending (record st { fragments = write_fragment f st.fragments })))
  unfolding ip_fragment_finish
  ip_fragment_finish-IsDone f st holds (inl unknown) =
      inr (λ done. omega (arith, done.0), rw (ip_fragment_finish, unknown) refl)
  ip_fragment_finish-IsDone f st holds (inr known) =
      let (b, e, iff) =
        maskchk_lem f.mask 0 (length payload) holds.is_mask positive (omega (arith, holds.words)) in
      let nonzero : (f.len == 0) ≡ false = ground (arith, known) in
      let chk : maskchk f.mask 0 f.len ≡ some b = ap (maskchk f.mask 0) known ∙ e in
      elim (Bool-cases b) [
        | inl all ↦ inl (
          (known, λ k low high. iff.0 all k low (omega arith)),
          rw (ip_fragment_finish, nonzero, chk, all) refl,
        )
        | inr some_missing ↦ inr (
          λ done. absurd (cc (some_missing, iff.1 (λ k low high. done.1 k low (omega arith)))),
          rw (ip_fragment_finish, nonzero, chk, some_missing) refl,
        )
      ]

  -- The same for the object at the front of the list.
  pub ip_fragment_finish_lem :
      (f f' : IpFragment) (rest : List IpFragment) (t c : ℕ)
      → f'.address ≡ f.address
      → HoldsPart payload f'
      → (f'.len ≡ 0) ⊎ (f'.len ≡ length payload)
      → (IsDone payload f'
          × (ip_fragment_finish f' (state (f ∷ rest) t c) ≡ completed f' (state rest t (c - 1))))
        ⊎ (¬ IsDone payload f'
            × (ip_fragment_finish f' (state (f ∷ rest) t c) ≡ pending (state (f' ∷ rest) t c)))
  unfolding write_fragment ip_fragment_detach
  ip_fragment_finish_lem f f' rest t c address holds known =
      let in_place : write_fragment f' (f ∷ rest) ≡ f' ∷ rest = ground (arith, address) in
      let taken : ip_fragment_detach f'.address (f' ∷ rest) ≡ rest = ground arith in
      elim (ip_fragment_finish-IsDone f' (state (f ∷ rest) t c) holds known) [
        | inl (done, e) ↦ inl (
          done,
          e
              ∙ ap (λ l. completed f' (state l t (c - 1)))
                  (ap (ip_fragment_detach f'.address) in_place ∙ taken),
        )
        | inr (lacks, e) ↦ inr (lacks, e ∙ ap (λ l. pending (state l t c)) in_place)
      ]

  pub Awaits-rest :
      (step : ℕ) (f f' : IpFragment) (a : Arrival) (arrivals : List Arrival)
      → IsPiece step (length payload) a.piece
      → Gains (length payload) a.piece f f'
      → (f.len ≡ 0) ⊎ (f.len ≡ length payload)
      → Awaits payload f (a ∷ arrivals)
      → Awaits payload f' arrivals × ((f'.len ≡ 0) ⊎ (f'.len ≡ length payload))
  Awaits-rest step f f' a arrivals piece gains known (bits, len) = (
    (
      λ k h. elim (bits k h) [
        | inl before ↦ inl (gains.kept k before)
        | inr (inl now) ↦ inl (gains.gained k now)
        | inr (inr later) ↦ inr later
      ],
      elim ends [
        | inl last ↦ inl (gains.ends last)
        | inr more ↦ elim len [
          | inl before ↦ inl (gains.goes_on more ∙ before)
          | inr (inl now) ↦ absurd (omega (arith, now))
          | inr (inr later) ↦ inr later
        ]
      ],
    ),
    elim ends [
      | inl last ↦ inr (gains.ends last)
      | inr more ↦ elim known [
        | inl unknown ↦ inl (gains.goes_on more ∙ unknown)
        | inr before ↦ inr (gains.goes_on more ∙ before)
      ]
    ],
  )
    where
      ends :
          (a.piece.pos + a.piece.size ≡ length payload)
          ⊎ (a.piece.pos + a.piece.size < length payload)
      ends = ground (arith, piece.within)
