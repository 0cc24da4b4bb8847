-- ===== src/Util/Checksum/Laws.antt =====
-- util.c, `cksum16`: when a checksum verifies.
use protocol_stack.Base.{
  u16, take_all, subst, ℕ, ◌+◌, ◌-◌, ◌*◌, ◌/◌, ◌%◌, ◌^◌, ◌≤◌, ◌<◌, List, [], ◌∷◌, ◌++◌, ◌≡◌, arith,
  ◌↔◌, All, length, u32,
}
use protocol_stack.Base.Bits.{bit_and_mask}
use protocol_stack.Util.ByteOrder.{Endian, little, big, load16}
use protocol_stack.Util.Checksum.{summed, sum_loop, fold, cksum16}

abbrev pub IsBytes : List ℕ → Type 0
IsBytes = All (λ b. b < 256)

-- The exact sum of the 16-bit words, a last odd byte standing for itself.
unfoldable pub word_sum : Endian → List ℕ → ℕ
word_sum m [] = 0
word_sum m (a ∷ []) = a
word_sum m (a ∷ b ∷ rest) = load16 m a b + word_sum m rest

pub load16-lt : (m : Endian) (a b : ℕ) → a < 256 → b < 256 → load16 m a b < 2 ^ 16
unfolding load16
load16-lt little a b h k = omega arith
load16-lt big a b h k = omega arith

pub word_sum-le : (m : Endian) (xs : List ℕ) → IsBytes xs → word_sum m xs ≤ 32768 * (length xs + 1)
unfolding word_sum
word_sum-le m [] h = omega arith
word_sum-le m (a ∷ []) h = omega arith
word_sum-le m (a ∷ b ∷ rest) h = omega (arith, load16-lt m a b h.0 h.1.0, word_sum-le m rest h.1.1)

-- Within 32 bits the loop computes the exact sum.
sum_loop-word_sum :
    (m : Endian) (s : ℕ) (xs : List ℕ)
    → s + word_sum m xs < 2 ^ 32
    → sum_loop m s xs ≡ s + word_sum m xs
unfolding sum_loop word_sum
sum_loop-word_sum m s [] h = omega arith
sum_loop-word_sum m s (a ∷ []) h = omega arith
sum_loop-word_sum m s (a ∷ b ∷ rest) h =
    let no_wrap : u32 (s + load16 m a b) ≡ s + load16 m a b = omega arith in
    rw no_wrap (omega (arith, sum_loop-word_sum m (s + load16 m a b) rest (omega arith)))

fold_lem : (s : ℕ) → fold s ≡ (s % 65536 + s / 65536) % 2 ^ 32
unfolding fold
fold_lem s = omega (arith, bit_and_mask 16 s)

-- Folding twice leaves 16 bits, and keeps the sum's remainder by 65535 and whether it is 0.
fold-fold :
    (s : ℕ)
    → s < 2 ^ 32
    → (fold (fold s) < 65536)
      × (fold (fold s) % 65535 ≡ s % 65535)
      × ((fold (fold s) ≡ 0) ↔ (s ≡ 0))
fold-fold s h = omega (arith, fold_lem s, fold_lem (fold s))

pub summed-short : (xs : List ℕ) → length xs < 2 ^ 16 → summed xs ≡ xs
unfolding summed
summed-short xs short = take_all (u16 (length xs)) xs (omega arith)

-- The result is 0 exactly when the sum of the initial value and the words that are read, which are all of them
-- if there are less than 2 ^ 16 bytes, is a positive multiple of 65535, ones' complement's zero; the sum is
-- below 2 ^ 32.
pub cksum16_zero_iff :
    (m : Endian) (xs : List ℕ) (init : ℕ)
    → init + word_sum m (summed xs) < 2 ^ 32
    → (cksum16 m xs init ≡ 0)
      ↔ ((0 < init + word_sum m (summed xs)) × ((init + word_sum m (summed xs)) % 65535 ≡ 0))
unfolding cksum16
cksum16_zero_iff m xs init h =
    let start : u32 init ≡ init = omega arith in
    rw (start, sum_loop-word_sum m init (summed xs) h)
      (grind (arith, fold-fold (init + word_sum m (summed xs)) h))

pub cksum16_zero-short :
    (m : Endian) (xs : List ℕ) (init : ℕ)
    → length xs < 2 ^ 16
    → init + word_sum m xs < 2 ^ 32
    → (cksum16 m xs init ≡ 0) ↔ ((0 < init + word_sum m xs) × ((init + word_sum m xs) % 65535 ≡ 0))
cksum16_zero-short m xs init short h =
    subst
      (λ (ys : List ℕ).
        (cksum16 m xs init ≡ 0)
        ↔ ((0 < init + word_sum m ys) × ((init + word_sum m ys) % 65535 ≡ 0)))
      (summed-short xs short) (cksum16_zero_iff m xs init (rw (summed-short xs short) h))

-- The result is below 2 ^ 16, and completes the sum to a positive multiple of 65535.
pub cksum16_completes :
    (m : Endian) (xs : List ℕ) (init : ℕ)
    → length xs < 2 ^ 16
    → init + word_sum m xs < 2 ^ 32
    → (cksum16 m xs init < 2 ^ 16)
      × ((init + word_sum m xs + cksum16 m xs init) % 65535 ≡ 0)
      × (0 < init + word_sum m xs + cksum16 m xs init)
unfolding cksum16
cksum16_completes m xs init short h =
    let start : u32 init ≡ init = omega arith in
    rw (start, summed-short xs short, sum_loop-word_sum m init xs h)
      (grind (arith, fold-fold (init + word_sum m xs) h))

pub cksum16-lt : (m : Endian) (xs : List ℕ) (init : ℕ) → cksum16 m xs init < 2 ^ 16
unfolding cksum16
cksum16-lt m xs init = omega arith

pub word_sum-append :
    (m : Endian) (k : ℕ) (xs ys : List ℕ)
    → length xs ≡ 2 * k
    → word_sum m (xs ++ ys) ≡ word_sum m xs + word_sum m ys
unfolding word_sum
word_sum-append m k [] ys h = omega arith
word_sum-append m k (a ∷ []) ys h = absurd (omega arith)
word_sum-append m k (a ∷ b ∷ xs) ys h = omega (arith, word_sum-append m (k - 1) xs ys (omega arith))
