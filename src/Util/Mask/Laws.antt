-- ===== src/Util/Mask/Laws.antt =====
-- util.c: `maskset` as an operation on a set of bits.
use protocol_stack.Base.{
  none, ℕ, zero, suc, ◌+◌, ◌-◌, ◌*◌, ◌/◌, ◌%◌, ◌^◌, ◌≤◌, ◌<◌, ◌≡◌, ◌⊎◌, inl, inr, refl, ◌∙◌, arith,
  false, bit_or, List, some, ◌==◌, length, set,
}
use protocol_stack.Base.Bits.{◌<<<◌, ◌>>>◌}
use protocol_stack.Util.Mask.{all_ones, first_bits, set_tail, set_rest, maskset}
use protocol_stack.Util.Mask.Words.{
  IsMask, SetsRange, SetsRange-trans, SetsRange-refl, SetsRange-bounds, or_word, in_bounds,
  set_loop_lem, first_run_lem, ones_are,
}

set_tail_lem :
    (idx len : ℕ) (mask : List ℕ)
    → IsMask mask
    → len ≤ 32
    → 32 * (idx + 1) + len ≤ 32 * length mask
    → (mask' : List ℕ) × (set_tail idx len mask ≡ some mask')
      × SetsRange (32 * (idx + 1)) (32 * (idx + 1) + len) mask mask'
unfolding set_tail
set_tail_lem idx zero mask h small room = (
  mask,
  refl,
  SetsRange-bounds _ (32 * (idx + 1)) (32 * (idx + 1)) _ mask mask refl (omega arith)
      (SetsRange-refl (32 * (idx + 1)) mask h),
)
set_tail_lem idx (suc len) mask h small room =
    let (w, at) = in_bounds mask (idx + 1) (omega arith) in
    let run : all_ones >>> (32 - suc len) ≡ (2 ^ suc len - 1) <<< 0 =
      ones_are (suc len) small ∙ omega arith in
    (
      set mask (idx + 1) (bit_or w ((2 ^ suc len - 1) <<< 0)),
      rw (set_tail, at, run) (ground arith),
      SetsRange-bounds (32 * (idx + 1) + 0) (32 * (idx + 1) + 0 + suc len) (32 * (idx + 1))
          (32 * (idx + 1) + suc len) mask _ (omega arith) (omega arith)
          (or_word mask (idx + 1) 0 (suc len) w h at (omega arith)),
    )

set_rest_lem :
    (so len : ℕ) (mask : List ℕ)
    → IsMask mask
    → 32 * (so + 1) + len ≤ 32 * length mask
    → (mask' : List ℕ) × (set_rest so len mask ≡ some mask')
      × SetsRange (32 * (so + 1)) (32 * (so + 1) + len) mask mask'
unfolding set_rest
set_rest_lem so len mask h room =
    let (m1, e1, s1) = set_loop_lem (len / 32) so mask h (omega arith) in
    let (m2, e2, s2) =
      set_tail_lem (so + len / 32) (len - 32 * (len / 32)) m1 s1.is_mask (omega arith)
        (omega (arith, s1.same_length)) in
    (
      m2,
      rw (set_rest, e1) e2,
      SetsRange-trans (32 * (so + 1)) (32 * (so + 1 + len / 32)) (32 * (so + 1) + len) mask m1 m2
          (omega arith) (omega arith) s1
          (SetsRange-bounds (32 * (so + len / 32 + 1))
            (32 * (so + len / 32 + 1) + (len - 32 * (len / 32))) (32 * (so + 1 + len / 32))
            (32 * (so + 1) + len) m1 m2 (omega arith) (omega arith) s2),
    )

-- The part of the range in its first word.
pub record IsFirstBits (sb len bl : ℕ) : Type 0 where
  pub positive : 0 < bl
  pub in_word : sb + bl ≤ 32
  pub in_range : bl ≤ len
  pub whole_word : bl < len → sb + bl ≡ 32

pub first_bits-IsFirstBits :
    (sb len : ℕ) → sb < 32 → 0 < len → IsFirstBits sb len (first_bits sb len)
unfolding first_bits
first_bits-IsFirstBits sb len hs hl = ground arith

SetsRange-empty :
    (a b : ℕ) (mask mask' : List ℕ) → SetsRange a a mask mask' → SetsRange b b mask mask'
SetsRange-empty a b mask mask' h = record {
  is_mask = h.is_mask;
  same_length = h.same_length;
  inside = λ k low high. absurd (omega arith);
  outside = λ k out. h.outside k (anywhere k);
}
  where
    anywhere : (k : ℕ) → (k < a) ⊎ (a ≤ k)
    anywhere k = ground arith

-- `maskset` of a range that is not empty and lies in the mask sets the bits of the range and changes no
-- other.
pub maskset_lem :
    (mask : List ℕ) (offset len : ℕ)
    → IsMask mask
    → 0 < len
    → offset + len ≤ 32 * length mask
    → (mask' : List ℕ) × (maskset mask offset len ≡ some mask')
      × SetsRange offset (offset + len) mask mask'
unfolding maskset
maskset_lem mask offset len h positive room =
    let so = offset / 32 in
    let sb = offset % 32 in
    let bl = first_bits sb len in
    let first = first_bits-IsFirstBits sb len (omega arith) positive in
    let nonzero : (bl == 0) ≡ false = ground (arith, first) in
    let (w, at) = in_bounds mask so (omega arith) in
    let run = first_run_lem bl sb first.in_word in
    let step = or_word mask so sb bl w h at first.in_word in
    let m1 = set mask so (bit_or w ((2 ^ bl - 1) <<< sb)) in
    let fits : 32 * (so + 1) + (len - bl) ≤ 32 * length m1 =
      fit bl (length mask) (length m1) first step.same_length room in
    let (m2, e, rest) = set_rest_lem so (len - bl) m1 step.is_mask fits in
    let s1 =
      SetsRange-bounds (32 * so + sb) (32 * so + sb + bl) offset (offset + bl) mask m1 (omega arith)
        (omega arith) step in
    let s2 : SetsRange (offset + bl) (offset + len) m1 m2 = elim (cases bl first.in_range) [
      | inl more ↦
          SetsRange-bounds (32 * (so + 1)) (32 * (so + 1) + (len - bl)) (offset + bl) (offset + len)
            m1 m2 (omega (arith, first.whole_word more)) (omega (arith, first.whole_word more)) rest
      | inr all ↦
          SetsRange-bounds (offset + bl) (offset + bl) (offset + bl) (offset + len) m1 m2 refl
            (omega arith)
            (SetsRange-empty (32 * (so + 1)) (offset + bl) m1 m2 (
              SetsRange-bounds (32 * (so + 1)) (32 * (so + 1) + (len - bl)) (32 * (so + 1))
                (32 * (so + 1)) m1 m2 refl (omega arith) rest))
    ] in
    (
      m2,
      rw (maskset, nonzero, at, run) e,
      SetsRange-trans offset (offset + bl) (offset + len) mask m1 m2 (omega arith)
          (omega (arith, first)) s1 s2,
    )
  where
    fit :
        (bl n n' : ℕ)
        → IsFirstBits (offset % 32) len bl
        → n' ≡ n
        → offset + len ≤ 32 * n
        → 32 * (offset / 32 + 1) + (len - bl) ≤ 32 * n'
    fit bl n n' first same room = ground (arith, first)

    cases : (bl : ℕ) → bl ≤ len → (bl < len) ⊎ (bl ≡ len)
    cases bl h = ground arith

-- An empty range is not defined: the shift of its first word is by 32.
pub maskset-empty : (mask : List ℕ) (offset : ℕ) → maskset mask offset 0 ≡ none
unfolding maskset first_bits
maskset-empty mask offset = ground arith
