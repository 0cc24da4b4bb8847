-- ===== src/Util/Mask/Ranges.antt =====
-- util.c: ranges of a mask that are set, and the test of one word.
use protocol_stack.Base.{
  subst, All-get, Bool, Option, ==_iff, ℕ, ◌+◌, ◌-◌, ◌*◌, ◌/◌, ◌%◌, ◌^◌, ◌≤◌, ◌<◌, ◌≡◌, ◌⊎◌, ◌↔◌,
  inl, inr, refl, sym, ap, ◌∙◌, arith, true, false, bit_and, bit_xor, List, some, ◌==◌, get_elem?,
  get_or,
}
use protocol_stack.Base.Bits.{bit_and_mask, ◌<<<◌}
use protocol_stack.Base.Bits.Digit.{digit, digit-and, digit-run, digit-lt, digits_ext, xor_zero_iff}
use protocol_stack.Util.Mask.{all_ones}
use protocol_stack.Util.Mask.Words.{IsMask, mask_bit, get_or-get}

-- Every bit of the range is set.
abbrev pub RangeSet : ℕ → ℕ → List ℕ → Type 0
RangeSet lo hi mask = (k : ℕ) → lo ≤ k → k < hi → mask_bit mask k ≡ 1

RangeSet-join :
    (lo mid hi : ℕ) (mask : List ℕ)
    → lo ≤ mid
    → mid ≤ hi
    → RangeSet lo hi mask ↔ (RangeSet lo mid mask × RangeSet mid hi mask)
RangeSet-join lo mid hi mask p q = (
  λ h. (λ k low high. h k low (omega arith), λ k low high. h k (omega arith) high),
  λ h k low high. elim (cases k) [ inl below ↦ h.0 k low below | inr above ↦ h.1 k above high ],
)
  where
    cases : (k : ℕ) → (k < mid) ⊎ (mid ≤ k)
    cases k = ground arith

-- One word: the test of a run of ones.
pub chk_word :
    (mask : List ℕ) (i s n w : ℕ)
    → get_elem? mask i ≡ some w
    → s + n ≤ 32
    → ((bit_xor (bit_and w ((2 ^ n - 1) <<< s)) ((2 ^ n - 1) <<< s) == 0) ≡ true)
      ↔ RangeSet (32 * i + s) (32 * i + s + n) mask
unfolding mask_bit
chk_word mask i s n w at room =
    let run = (2 ^ n - 1) <<< s in
    let zero_iff = ==_iff (bit_xor (bit_and w run) run) 0 in
    let equal_iff = xor_zero_iff (bit_and w run) run in
    (
      λ e k low high.
          let same = equal_iff.0 (zero_iff.0 e) in
          let word : k / 32 ≡ i = omega arith in
          let read : get_or mask (k / 32) 0 ≡ w =
            ap (λ j. get_or mask j 0) word ∙ get_or-get mask i w at in
          let digits = sym (digit-and w run (k % 32)) ∙ ap (λ x. digit x (k % 32)) same in
          let one = (digit-run n s (k % 32)).0 (omega arith) (omega arith) in
          ap (λ x. digit x (k % 32)) read ∙ omega (arith, digits, one, digit-lt w (k % 32)),
      λ all. zero_iff.1 (
          equal_iff.1 (
            digits_ext (bit_and w run) run (λ j. elim (cases j) [
              | inl (low, high) ↦
                  let set = all (32 * i + j) (omega arith) (omega arith) in
                  let word : (32 * i + j) / 32 ≡ i = omega arith in
                  let place : (32 * i + j) % 32 ≡ j = omega arith in
                  let read : get_or mask ((32 * i + j) / 32) 0 ≡ w =
                    ap (λ j. get_or mask j 0) word ∙ get_or-get mask i w at in
                  let here : digit w j ≡ 1 =
                    sym (ap (digit w) place)
                    ∙ ap (λ x. digit x ((32 * i + j) % 32)) (sym read)
                    ∙ set in
                  omega (arith, digit-and w run j, here, (digit-run n s j).0 low high)
              | inr out ↦ omega (arith, digit-and w run j, (digit-run n s j).1 out)
            ]))),
    )
  where
    cases : (j : ℕ) → ((s ≤ j) × (j < s + n)) ⊎ ((j < s) ⊎ (s + n ≤ j))
    cases j = ground arith

-- The test of a range, which is defined and means `RangeSet`.
abbrev pub Decides : Option Bool → ℕ → ℕ → List ℕ → Type 0
Decides result lo hi mask = (b : Bool) × (result ≡ some b) × ((b ≡ true) ↔ RangeSet lo hi mask)

pub Decides-bounds :
    (result : Option Bool) (lo hi lo' hi' : ℕ) (mask : List ℕ)
    → lo ≡ lo'
    → hi ≡ hi'
    → Decides result lo hi mask
    → Decides result lo' hi' mask
Decides-bounds result lo hi lo' hi' mask p q h =
    subst (λ a. Decides result a hi' mask) p (subst (λ b. Decides result lo b mask) q h)

-- A test whose first part fails, and one whose first part holds.
pub Decides-false :
    (lo mid hi : ℕ) (mask : List ℕ)
    → lo ≤ mid
    → mid ≤ hi
    → (RangeSet lo mid mask → false ≡ true)
    → Decides (some false) lo hi mask
Decides-false lo mid hi mask p q fails =
    (false, refl, (λ e. cc, λ all. fails ((RangeSet-join lo mid hi mask p q).0 all).0))

pub Decides-rest :
    (result : Option Bool) (lo mid hi : ℕ) (mask : List ℕ)
    → lo ≤ mid
    → mid ≤ hi
    → RangeSet lo mid mask
    → Decides result mid hi mask
    → Decides result lo hi mask
Decides-rest result lo mid hi mask p q first (b, e, iff) = (
  b,
  e,
  (
    λ t. (RangeSet-join lo mid hi mask p q).1 (first, iff.0 t),
    λ all. iff.1 ((RangeSet-join lo mid hi mask p q).0 all).1,
  ),
)

pub full_word :
    (mask : List ℕ) (i w : ℕ)
    → IsMask mask
    → get_elem? mask i ≡ some w
    → ((bit_xor w all_ones == 0) ≡ true) ↔ RangeSet (32 * i) (32 * (i + 1)) mask
full_word mask i w h at =
    let low : bit_and w ((2 ^ 32 - 1) <<< 0) ≡ w =
      bit_and_mask 32 w ∙ omega (arith, All-get (λ x. x < 2 ^ 32) mask i at h) in
    let word = chk_word mask i 0 32 w at (omega arith) in
    let word' : ((bit_xor w all_ones == 0) ≡ true) ↔ RangeSet (32 * i + 0) (32 * i + 0 + 32) mask =
      subst (λ x. ((bit_xor x all_ones == 0) ≡ true) ↔ RangeSet (32 * i + 0) (32 * i + 0 + 32) mask)
        low word in
    let a : 32 * i + 0 ≡ 32 * i = omega arith in
    let b : 32 * i + 0 + 32 ≡ 32 * (i + 1) = omega arith in
    subst (λ x. ((bit_xor w all_ones == 0) ≡ true) ↔ RangeSet x (32 * (i + 1)) mask) a
      (subst (λ y. ((bit_xor w all_ones == 0) ≡ true) ↔ RangeSet (32 * i + 0) y mask) b word')
