-- ===== src/Ip/Fragment/Seen.antt =====
-- ip.c: what an object of reassembly has got from the fragments that have come in.
use protocol_stack.Util.Mask.Words.{mask_bit}
use protocol_stack.Ip.Fragment.Finish.{IsDone}
use protocol_stack.Ip.Fragment.Collect.{Gains, HoldsPart}
use protocol_stack.Ip.Tx.Plan.{IsPiece}
use protocol_stack.Ip.Fragment.{IpFragment}
use protocol_stack.Base.{◌∙◌, arith, ◌-◌, ◌⊎◌, ◌≤◌, length, ◌≡◌, ◌<◌, List, ◌∷◌, inr, inl, ℕ, ◌+◌}
use protocol_stack.Ip.Fragment.Arrivals.{Arrival, HasByte}

module _ (payload : List ℕ) where
  -- What the object of the datagram has got from the fragments that have come in.
  pub record Seen (f : IpFragment) (arrivals : List Arrival) : Type 0 where
    pub holds : HoldsPart payload f
    pub known : (f.len ≡ 0) ⊎ (f.len ≡ length payload)
    pub bits : (k : ℕ) → HasByte arrivals k → mask_bit f.mask k ≡ 1
    pub ended : HasByte arrivals (length payload - 1) → f.len ≡ length payload

module _ (payload : List ℕ) (positive : 0 < length payload) (small : length payload ≤ 65535) where
  pub Seen-gains :
      (step : ℕ) (f f' : IpFragment) (a : Arrival) (arrivals : List Arrival)
      → IsPiece step (length payload) a.piece
      → Gains (length payload) a.piece f f'
      → HoldsPart payload f'
      → Seen payload f arrivals
      → Seen payload f' (a ∷ arrivals)
  Seen-gains step f f' a arrivals piece gains holds seen = record {
    holds = holds;
    known = elim ends [
      | inl last ↦ inr (gains.ends last)
      | inr more ↦ elim seen.known [
        | inl unknown ↦ inl (gains.goes_on more ∙ unknown)
        | inr before ↦ inr (gains.goes_on more ∙ before)
      ]
    ];
    bits = λ k has. elim has [
      | inl now ↦ gains.gained k now
      | inr before ↦ gains.kept k (seen.bits k before)
    ];
    ended = λ has. elim ends [
      | inl last ↦ gains.ends last
      | inr more ↦ elim has [
        | inl now ↦ absurd (omega (arith, now))
        | inr before ↦ gains.goes_on more ∙ seen.ended before
      ]
    ];
  }
    where
      ends :
          (a.piece.pos + a.piece.size ≡ length payload)
          ⊎ (a.piece.pos + a.piece.size < length payload)
      ends = ground (arith, piece.within)

  pub Seen-IsDone :
      (f : IpFragment) (arrivals : List Arrival)
      → Seen payload f arrivals
      → ((k : ℕ) → k < length payload → HasByte arrivals k)
      → IsDone payload f
  Seen-IsDone f arrivals seen cover = (
    seen.ended (cover (length payload - 1) (omega (arith, positive))),
    λ k low high. seen.bits k (cover k high),
  )
