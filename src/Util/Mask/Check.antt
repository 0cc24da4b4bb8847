-- ===== src/Util/Mask/Check.antt =====
-- util.c: `maskchk` as a test of a set of bits, and `maskclr`.
use protocol_stack.Util.Mask.Ranges.{
  Decides-false, Decides-rest, Decides-bounds, chk_word, full_word, RangeSet, Decides,
}
use protocol_stack.Base.{
  [], ◌∷◌, ◌∷◌, replicate, subst, Bool-cases, Bool, Option, ℕ, zero, suc, ◌+◌, ◌-◌, ◌*◌, ◌/◌, ◌%◌,
  ◌^◌, ◌≤◌, ◌<◌, ◌≡◌, ◌⊎◌, ◌↔◌, inl, inr, refl, sym, ap, ◌∙◌, arith, true, false, bit_and, bit_xor,
  List, some, ◌==◌, length,
}
use protocol_stack.Base.Bits.{◌<<<◌, ◌>>>◌}
use protocol_stack.Util.Mask.{maskclr, maskchk, chk_rest, chk_tail, chk_loop, all_ones, first_bits}
use protocol_stack.Util.Mask.Words.{IsMask, in_bounds, first_run_lem, ones_are}
use protocol_stack.Util.Mask.Laws.{IsFirstBits, first_bits-IsFirstBits}

chk_loop_lem :
    (rounds idx : ℕ) (mask : List ℕ)
    → IsMask mask
    → idx + rounds < length mask
    → Decides (chk_loop rounds idx mask) (32 * (idx + 1)) (32 * (idx + 1 + rounds)) mask
unfolding chk_loop
chk_loop_lem zero idx mask h room =
    (true, refl, (λ e k low high. absurd (omega arith), λ all. refl))
chk_loop_lem (suc rounds) idx mask h room =
    let (w, at) = in_bounds mask (idx + 1) (omega arith) in
    let word = full_word mask (idx + 1) w h at in
    let more =
      Decides-bounds (chk_loop rounds (idx + 1) mask) (32 * (idx + 1 + 1))
        (32 * (idx + 1 + 1 + rounds)) (32 * (idx + 1 + 1)) (32 * (idx + 1 + suc rounds)) mask refl
        (omega arith) (chk_loop_lem rounds (idx + 1) mask h (omega arith)) in
    elim (Bool-cases (bit_xor w all_ones == 0)) [
      | inl good ↦
          rw (chk_loop, at, good)
            (Decides-rest (chk_loop rounds (idx + 1) mask) (32 * (idx + 1)) (32 * (idx + 1 + 1))
              (32 * (idx + 1 + suc rounds)) mask (omega arith) (omega arith) (word.0 good) more)
      | inr bad ↦
          rw (chk_loop, at, bad)
            (Decides-false (32 * (idx + 1)) (32 * (idx + 1 + 1)) (32 * (idx + 1 + suc rounds)) mask
              (omega arith) (omega arith) (λ all. sym bad ∙ word.1 all))
    ]

chk_tail_lem :
    (idx len : ℕ) (mask : List ℕ)
    → len ≤ 32
    → 32 * (idx + 1) + len ≤ 32 * length mask
    → Decides (chk_tail idx len mask) (32 * (idx + 1)) (32 * (idx + 1) + len) mask
unfolding chk_tail
chk_tail_lem idx zero mask small room =
    (true, refl, (λ e k low high. absurd (omega arith), λ all. refl))
chk_tail_lem idx (suc len) mask small room =
    let (w, at) = in_bounds mask (idx + 1) (omega arith) in
    let run : all_ones >>> (32 - suc len) ≡ (2 ^ suc len - 1) <<< 0 =
      ones_are (suc len) small ∙ omega arith in
    let word = chk_word mask (idx + 1) 0 (suc len) w at (omega arith) in
    let result : Option Bool =
      some (bit_xor (bit_and w ((2 ^ suc len - 1) <<< 0)) ((2 ^ suc len - 1) <<< 0) == 0) in
    let decided : Decides result (32 * (idx + 1) + 0) (32 * (idx + 1) + 0 + suc len) mask =
      (bit_xor (bit_and w ((2 ^ suc len - 1) <<< 0)) ((2 ^ suc len - 1) <<< 0) == 0, refl, word) in
    let shape : chk_tail idx (suc len) mask ≡ result = rw (chk_tail, at, run) (ground arith) in
    subst (λ r. Decides r (32 * (idx + 1)) (32 * (idx + 1) + suc len) mask) (sym shape)
      (Decides-bounds result (32 * (idx + 1) + 0) (32 * (idx + 1) + 0 + suc len) (32 * (idx + 1))
        (32 * (idx + 1) + suc len) mask (omega arith) (omega arith) decided)

chk_rest_lem :
    (so len : ℕ) (mask : List ℕ)
    → IsMask mask
    → 32 * (so + 1) + len ≤ 32 * length mask
    → Decides (chk_rest so len mask) (32 * (so + 1)) (32 * (so + 1) + len) mask
unfolding chk_rest
chk_rest_lem so len mask h room =
    let mid = 32 * (so + 1 + len / 32) in
    let (b, e, iff) = chk_loop_lem (len / 32) so mask h (omega arith) in
    let tail =
      Decides-bounds (chk_tail (so + len / 32) (len - 32 * (len / 32)) mask)
        (32 * (so + len / 32 + 1)) (32 * (so + len / 32 + 1) + (len - 32 * (len / 32))) mid
        (32 * (so + 1) + len) mask (omega arith) (omega arith)
        (chk_tail_lem (so + len / 32) (len - 32 * (len / 32)) mask (omega arith) (omega arith)) in
    elim (Bool-cases b) [
      | inl good ↦
          rw (chk_rest, e, good)
            (Decides-rest (chk_tail (so + len / 32) (len - 32 * (len / 32)) mask) (32 * (so + 1))
              mid (32 * (so + 1) + len) mask (omega arith) (omega arith) (iff.0 good) tail)
      | inr bad ↦
          rw (chk_rest, e, bad)
            (Decides-false (32 * (so + 1)) mid (32 * (so + 1) + len) mask (omega arith)
              (omega arith) (λ all. sym bad ∙ iff.1 all))
    ]

Decides-empty :
    (result : Option Bool) (a b : ℕ) (mask : List ℕ)
    → Decides result a a mask
    → Decides result b b mask
Decides-empty result a b mask (d, e, iff) = (
  d,
  e,
  (λ t k low high. absurd (omega arith), λ all. iff.1 (λ k low high. absurd (omega arith))),
)

-- `maskchk` of a range that is not empty and lies in the mask is defined, and is true exactly when every
-- bit of the range is set.
pub maskchk_lem :
    (mask : List ℕ) (offset len : ℕ)
    → IsMask mask
    → 0 < len
    → offset + len ≤ 32 * length mask
    → (b : Bool) × (maskchk mask offset len ≡ some b)
      × ((b ≡ true) ↔ RangeSet offset (offset + len) mask)
unfolding maskchk
maskchk_lem mask offset len h positive room =
    let so = offset / 32 in
    let sb = offset % 32 in
    let bl = first_bits sb len in
    let first = first_bits-IsFirstBits sb len (omega arith) positive in
    let nonzero : (bl == 0) ≡ false = ground (arith, first) in
    let (w, at) = in_bounds mask so (omega arith) in
    let run = first_run_lem bl sb first.in_word in
    let word = chk_word mask so sb bl w at first.in_word in
    let word' : ((bit_xor (bit_and w ((2 ^ bl - 1) <<< sb)) ((2 ^ bl - 1) <<< sb) == 0) ≡ true)
        ↔ RangeSet offset (offset + bl) mask =
      subst
        (λ x.
          ((bit_xor (bit_and w ((2 ^ bl - 1) <<< sb)) ((2 ^ bl - 1) <<< sb) == 0) ≡ true)
          ↔ RangeSet x (x + bl) mask)
        (start offset) word in
    let rest = chk_rest_lem so (len - bl) mask h (fit bl first) in
    let tail : Decides (chk_rest so (len - bl) mask) (offset + bl) (offset + len) mask =
      elim (cases bl first.in_range) [
        | inl more ↦
            Decides-bounds (chk_rest so (len - bl) mask) (32 * (so + 1))
              (32 * (so + 1) + (len - bl)) (offset + bl) (offset + len) mask
              (omega (arith, first.whole_word more)) (omega (arith, first.whole_word more)) rest
        | inr all ↦
            Decides-bounds (chk_rest so (len - bl) mask) (offset + bl) (offset + bl) (offset + bl)
              (offset + len) mask refl (omega arith)
              (Decides-empty (chk_rest so (len - bl) mask) (32 * (so + 1)) (offset + bl) mask (
                Decides-bounds (chk_rest so (len - bl) mask) (32 * (so + 1))
                  (32 * (so + 1) + (len - bl)) (32 * (so + 1)) (32 * (so + 1)) mask refl
                  (omega arith) rest))
      ] in
    elim (Bool-cases (bit_xor (bit_and w ((2 ^ bl - 1) <<< sb)) ((2 ^ bl - 1) <<< sb) == 0)) [
      | inl good ↦
          rw (maskchk, nonzero, at, run, good)
            (Decides-rest (chk_rest so (len - bl) mask) offset (offset + bl) (offset + len) mask
              (omega arith) (omega (arith, first)) (word'.0 good) tail)
      | inr bad ↦
          rw (maskchk, nonzero, at, run, bad)
            (Decides-false offset (offset + bl) (offset + len) mask (omega arith)
              (omega (arith, first)) (λ all. sym bad ∙ word'.1 all))
    ]
  where
    start : (k : ℕ) → 32 * (k / 32) + k % 32 ≡ k
    start k = omega arith

    fit :
        (bl : ℕ)
        → IsFirstBits (offset % 32) len bl
        → 32 * (offset / 32 + 1) + (len - bl) ≤ 32 * length mask
    fit bl first = ground (arith, first)

    cases : (bl : ℕ) → bl ≤ len → (bl < len) ⊎ (bl ≡ len)
    cases bl h = ground arith

-- `maskclr` clears the words of a mask that has no more than `size`.
pub maskclr_lem :
    (mask : List ℕ) (size : ℕ) → length mask ≤ size → maskclr mask size ≡ replicate (length mask) 0
unfolding maskclr
maskclr_lem [] size h = refl
maskclr_lem (w ∷ mask) zero h = absurd (omega arith)
maskclr_lem (w ∷ mask) (suc size) h = ap (◌∷◌ 0) (maskclr_lem mask size (omega arith))
