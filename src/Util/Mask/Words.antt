-- ===== src/Util/Mask/Words.antt =====
-- util.c: a bit mask as the set of its bits, and what a change of one word does to it.
use native.Mathlib.Nat.{pow-le-pow_right, le_trans}
use mathlib.Core.Option.{some-injective}
use protocol_stack.Base.{
  replicate, get_elem?-lt, ℕ, zero, suc, ◌+◌, ◌-◌, ◌*◌, ◌/◌, ◌%◌, ◌^◌, ◌≤◌, ◌<◌, ◌≡◌, ◌≢◌, ◌⊎◌, inl,
  inr, refl, sym, ap, ◌∙◌, subst, arith, bit_or, List, [], ◌∷◌, some, ◌==◌, length, get_elem?,
  get_or, set, if◌then◌else◌, All, All-set, All-get, length-set,
}
use protocol_stack.Base.Bits.{◌<<<◌, ◌>>>◌}
use protocol_stack.Base.Bits.Digit.{
  digit-zero, digit-lt, digit, digit-or, digit-run, ones-shr, run-lt, or-lt, digit-above,
  digit-ones,
}
use protocol_stack.Util.Mask.{all_ones, first_run, set_loop}

abbrev pub IsMask : List ℕ → Type 0
IsMask = All (λ w. w < 2 ^ 32)

-- Bit `k` of a mask; there is none past its end.
unfoldable pub mask_bit : List ℕ → ℕ → ℕ
mask_bit mask k = digit (get_or mask (k / 32) 0) (k % 32)

pub get_or-get : (xs : List ℕ) (i : ℕ) (x : ℕ) → get_elem? xs i ≡ some x → get_or xs i 0 ≡ x
get_or-get [] i x e = absurd (cc)
get_or-get (y ∷ ys) zero x e = some-injective _ _ e
get_or-get (y ∷ ys) (suc i) x e = get_or-get ys i x e

get_or-set :
    (xs : List ℕ) (i j v : ℕ)
    → i < length xs
    → get_or (set xs i v) j 0 ≡ (if j == i then v else get_or xs j 0)
get_or-set [] i j v h = absurd (omega arith)
get_or-set (x ∷ xs) zero zero v h = refl
get_or-set (x ∷ xs) zero (suc j) v h = ground arith
get_or-set (x ∷ xs) (suc i) zero v h = ground arith
get_or-set (x ∷ xs) (suc i) (suc j) v h = ground (arith, get_or-set xs i j v (omega arith))

-- The range is set, and nothing else is changed.
pub record SetsRange (lo hi : ℕ) (mask mask' : List ℕ) : Type 0 where
  pub is_mask : IsMask mask'
  pub same_length : length mask' ≡ length mask
  pub inside : (k : ℕ) → lo ≤ k → k < hi → mask_bit mask' k ≡ 1
  pub outside : (k : ℕ) → (k < lo) ⊎ (hi ≤ k) → mask_bit mask' k ≡ mask_bit mask k

pub SetsRange-trans :
    (lo mid hi : ℕ) (mask mask' mask'' : List ℕ)
    → lo ≤ mid
    → mid ≤ hi
    → SetsRange lo mid mask mask'
    → SetsRange mid hi mask' mask''
    → SetsRange lo hi mask mask''
SetsRange-trans lo mid hi mask mask' mask'' p q first second = record {
  is_mask = second.is_mask;
  same_length = second.same_length ∙ first.same_length;
  inside = λ k low high. elim (cases k) [
    | inl below ↦ second.outside k (inl below) ∙ first.inside k low below
    | inr above ↦ second.inside k above high
  ];
  outside = λ k out. elim out [
    | inl below ↦ second.outside k (inl (omega arith)) ∙ first.outside k (inl below)
    | inr above ↦ second.outside k (inr above) ∙ first.outside k (inr (omega arith))
  ];
}
  where
    cases : (k : ℕ) → (k < mid) ⊎ (mid ≤ k)
    cases k = ground arith

-- A word whose new value has ones from `s` to `s + n` and is otherwise the old.
write_word :
    (mask : List ℕ) (i s n w v : ℕ)
    → IsMask mask
    → get_elem? mask i ≡ some w
    → v < 2 ^ 32
    → s + n ≤ 32
    → ((j : ℕ) → s ≤ j → j < s + n → digit v j ≡ 1)
    → ((j : ℕ) → (j < s) ⊎ (s + n ≤ j) → digit v j ≡ digit w j)
    → SetsRange (32 * i + s) (32 * i + s + n) mask (set mask i v)
unfolding mask_bit
write_word mask i s n w v h at fits room inside outside = record {
  is_mask = All-set (λ x. x < 2 ^ 32) mask i v fits h;
  same_length = length-set mask i v;
  inside = λ k low high.
      let word : k / 32 ≡ i = omega arith in
      let read : get_or (set mask i v) (k / 32) 0 ≡ v =
        ground (arith, get_or-set mask i (k / 32) v (get_elem?-lt mask i at)) in
      ap (λ x. digit x (k % 32)) read ∙ inside (k % 32) (omega arith) (omega arith);
  outside = λ k out. elim (cases k) [
    | inl word ↦
        let read : get_or (set mask i v) (k / 32) 0 ≡ v =
          ground (arith, get_or-set mask i (k / 32) v (get_elem?-lt mask i at)) in
        let old : get_or mask (k / 32) 0 ≡ w =
          ap (λ j. get_or mask j 0) word ∙ get_or-get mask i w at in
        ap (λ x. digit x (k % 32)) read
        ∙ outside (k % 32) (place k out word)
        ∙ ap (λ x. digit x (k % 32)) (sym old)
    | inr other ↦
        ap (λ x. digit x (k % 32))
          (ground (arith, get_or-set mask i (k / 32) v (get_elem?-lt mask i at)))
  ];
}
  where
    cases : (k : ℕ) → (k / 32 ≡ i) ⊎ (k / 32 ≢ i)
    cases k = ground arith

    place :
        (k : ℕ)
        → (k < 32 * i + s) ⊎ (32 * i + s + n ≤ k)
        → k / 32 ≡ i
        → (k % 32 < s) ⊎ (s + n ≤ k % 32)
    place k out word = ground arith

pub ones_are : (n : ℕ) → n ≤ 32 → all_ones >>> (32 - n) ≡ 2 ^ n - 1
ones_are n h =
    let e : n + (32 - n) ≡ 32 = omega arith in
    subst (λ t. (2 ^ t - 1) >>> (32 - n) ≡ 2 ^ n - 1) e (ones-shr n (32 - n))

run_fits : (n s : ℕ) → s + n ≤ 32 → (2 ^ n - 1) <<< s < 2 ^ 32
run_fits n s h = le_trans (run-lt n s) (pow-le-pow_right (omega arith) h)

-- `bl` bits from `sb` on fit the word.
pub first_run_lem : (bl sb : ℕ) → sb + bl ≤ 32 → first_run bl sb ≡ (2 ^ bl - 1) <<< sb
unfolding first_run
first_run_lem bl sb h = let e = ones_are bl (omega arith) in rw e (omega (arith, run_fits bl sb h))

-- A word that is joined with a run.
pub or_word :
    (mask : List ℕ) (i s n w : ℕ)
    → IsMask mask
    → get_elem? mask i ≡ some w
    → s + n ≤ 32
    → SetsRange (32 * i + s) (32 * i + s + n) mask (set mask i (bit_or w ((2 ^ n - 1) <<< s)))
or_word mask i s n w h at room =
    write_word mask i s n w (bit_or w ((2 ^ n - 1) <<< s)) h at
      (or-lt 32 w ((2 ^ n - 1) <<< s) (All-get (λ x. x < 2 ^ 32) mask i at h) (run_fits n s room))
      room
      (λ j low high.
        omega (arith, digit-or w ((2 ^ n - 1) <<< s) j, (digit-run n s j).0 low high, digit-lt w j))
      (λ j out. omega (arith, digit-or w ((2 ^ n - 1) <<< s) j, (digit-run n s j).1 out))

pub SetsRange-refl : (lo : ℕ) (mask : List ℕ) → IsMask mask → SetsRange lo lo mask mask
SetsRange-refl lo mask h = record {
  is_mask = h;
  same_length = refl;
  inside = λ k low high. absurd (omega arith);
  outside = λ k out. refl;
}

pub in_bounds : (mask : List ℕ) (i : ℕ) → i < length mask → (w : ℕ) × (get_elem? mask i ≡ some w)
in_bounds [] i h = absurd (omega arith)
in_bounds (x ∷ xs) zero h = (x, refl)
in_bounds (x ∷ xs) (suc i) h = in_bounds xs i (omega arith)

-- Equal bounds may be written differently.
pub SetsRange-bounds :
    (lo hi lo' hi' : ℕ) (mask mask' : List ℕ)
    → lo ≡ lo'
    → hi ≡ hi'
    → SetsRange lo hi mask mask'
    → SetsRange lo' hi' mask mask'
SetsRange-bounds lo hi lo' hi' mask mask' p q h =
    subst (λ a. SetsRange a hi' mask mask') p (subst (λ b. SetsRange lo b mask mask') q h)

pub set_loop_lem :
    (rounds idx : ℕ) (mask : List ℕ)
    → IsMask mask
    → idx + rounds < length mask
    → (mask' : List ℕ) × (set_loop rounds idx mask ≡ some mask')
      × SetsRange (32 * (idx + 1)) (32 * (idx + 1 + rounds)) mask mask'
unfolding set_loop
set_loop_lem zero idx mask h room = (
  mask,
  refl,
  SetsRange-bounds (32 * (idx + 1)) (32 * (idx + 1)) _ _ mask mask refl (omega arith)
      (SetsRange-refl (32 * (idx + 1)) mask h),
)
set_loop_lem (suc rounds) idx mask h room =
    let (w, at) = in_bounds mask (idx + 1) (omega arith) in
    let step =
      write_word mask (idx + 1) 0 32 w all_ones h at (omega arith) (omega arith)
        (λ j low high. (digit-ones 32 j).0 (omega arith))
        (λ j out.
          (digit-ones 32 j).1 (omega arith)
          ∙ sym
              (digit-above 32 w j (All-get (λ x. x < 2 ^ 32) mask (idx + 1) at h) (omega arith))) in
    let first =
      SetsRange-bounds (32 * (idx + 1) + 0) (32 * (idx + 1) + 0 + 32) (32 * (idx + 1))
        (32 * (idx + 1 + 1)) mask (set mask (idx + 1) all_ones) (omega arith) (omega arith) step in
    let (mask', e, more) =
      set_loop_lem rounds (idx + 1) (set mask (idx + 1) all_ones) step.is_mask
        (omega (arith, step.same_length)) in
    (
      mask',
      rw (set_loop, at) e,
      SetsRange-bounds (32 * (idx + 1)) (32 * (idx + 1 + 1 + rounds)) (32 * (idx + 1))
          (32 * (idx + 1 + suc rounds)) mask mask' refl (omega arith)
          (SetsRange-trans (32 * (idx + 1)) (32 * (idx + 1 + 1)) (32 * (idx + 1 + 1 + rounds)) mask
            (set mask (idx + 1) all_ones) mask' (omega arith) (omega arith) first more),
    )

pub replicate-IsMask : (n : ℕ) → IsMask (replicate n 0)
replicate-IsMask zero = tt
replicate-IsMask (suc n) = (omega arith, replicate-IsMask n)

get_or-replicate : (n i : ℕ) → get_or (replicate {A = ℕ} n 0) i 0 ≡ 0
get_or-replicate zero i = refl
get_or-replicate (suc n) zero = refl
get_or-replicate (suc n) (suc i) = get_or-replicate n i

pub mask_bit-replicate : (n k : ℕ) → mask_bit (replicate n 0) k ≡ 0
unfolding mask_bit
mask_bit-replicate n k =
    ap (λ w. digit w (k % 32)) (get_or-replicate n (k / 32)) ∙ digit-zero (k % 32)
