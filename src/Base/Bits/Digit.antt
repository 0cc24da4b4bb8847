-- ===== src/Base/Bits/Digit.antt =====
-- A number as its binary digits: what `|`, `&`, `^` and a run of ones do to each.
use Prim.Native.Nat.{
  ℕ, zero, suc, ◌+◌, ◌-◌, ◌*◌, ◌/◌, ◌%◌, ◌^◌, ◌≤◌, ◌<◌, min, max, bit_and, bit_or, bit_xor, differ,
}
use mathlib.Core.Path.{◌≡◌, refl, ap, ◌∙◌, sym}
use mathlib.Core.Logic.{inl, inr, ◌⊎◌, ◌↔◌}
use native.Mathlib.Nat.{pow-suc, one-le-pow}
use native.Mathlib.Omega.{arith}
use protocol_stack.Base.Bits.{or-low, and-low, xor-low, two_pow, half-div, ◌<<<◌, ◌>>>◌}

-- The digit of `x` at `2 ^ k`.
unfoldable pub digit : ℕ → ℕ → ℕ
digit x zero = x % 2
digit x (suc k) = digit (x / 2) k

pub digit-lt : (x k : ℕ) → digit x k < 2
unfolding digit
digit-lt x zero = omega arith
digit-lt x (suc k) = digit-lt (x / 2) k

pub digit-or : (x y k : ℕ) → digit (bit_or x y) k ≡ max (digit x k) (digit y k)
unfolding digit
digit-or x y zero = omega (arith, or-low x y)
digit-or x y (suc k) =
    let half : bit_or x y / 2 ≡ bit_or (x / 2) (y / 2) = omega (arith, or-low x y) in
    ap (λ h. digit h k) half ∙ digit-or (x / 2) (y / 2) k

pub digit-and : (x y k : ℕ) → digit (bit_and x y) k ≡ min (digit x k) (digit y k)
unfolding digit
digit-and x y zero = omega (arith, and-low x y)
digit-and x y (suc k) =
    let half : bit_and x y / 2 ≡ bit_and (x / 2) (y / 2) = omega (arith, and-low x y) in
    ap (λ h. digit h k) half ∙ digit-and (x / 2) (y / 2) k

eq_of_digits : (bound x y : ℕ) → x ≤ bound → y ≤ bound → ((k : ℕ) → digit x k ≡ digit y k) → x ≡ y
unfolding digit
eq_of_digits zero x y p q same = omega arith
eq_of_digits (suc bound) x y p q same =
    let half = eq_of_digits bound (x / 2) (y / 2) (omega arith) (omega arith) (λ k. same (suc k)) in
    let low = same 0 in omega arith

-- Numbers with the same digits are equal.
pub digits_ext : (x y : ℕ) → ((k : ℕ) → digit x k ≡ digit y k) → x ≡ y
digits_ext x y same = eq_of_digits (x + y) x y (omega arith) (omega arith) same

differ_digits : (d e : ℕ) → d < 2 → e < 2 → (differ d e ≡ 0) ↔ (d ≡ e)
differ_digits zero zero p q = ground arith
differ_digits zero (suc e) p q = ground arith
differ_digits (suc zero) zero p q = ground arith
differ_digits (suc zero) (suc zero) p q = ground arith
differ_digits (suc zero) (suc (suc e)) p q = absurd (omega arith)
differ_digits (suc (suc d)) e p q = absurd (omega arith)

xor_bounded : (bound x y : ℕ) → x ≤ bound → y ≤ bound → (bit_xor x y ≡ 0) ↔ (x ≡ y)
xor_bounded zero x y p q = ground (arith, xor-low x y)
xor_bounded (suc bound) x y p q =
    let half = xor_bounded bound (x / 2) (y / 2) (omega arith) (omega arith) in
    let low = differ_digits (x % 2) (y % 2) (omega arith) (omega arith) in
    let split = xor-low x y in
    (
      λ e. let h = half.0 (omega arith) in let l = low.0 (omega arith) in omega arith,
      λ e. let h = half.1 (omega arith) in let l = low.1 (omega arith) in omega arith,
    )

pub xor_zero_iff : (x y : ℕ) → (bit_xor x y ≡ 0) ↔ (x ≡ y)
xor_zero_iff x y = xor_bounded (x + y) x y (omega arith) (omega arith)

pub digit-zero : (k : ℕ) → digit 0 k ≡ 0
unfolding digit
digit-zero zero = refl
digit-zero (suc k) = digit-zero k

ones_half : (n : ℕ) → ((2 ^ suc n - 1) / 2 ≡ 2 ^ n - 1) × ((2 ^ suc n - 1) % 2 ≡ 1)
ones_half n =
    (omega (arith, pow-suc 2 n, one-le-pow n 2), omega (arith, pow-suc 2 n, one-le-pow n 2))

pub digit-ones : (n k : ℕ) → (k < n → digit (2 ^ n - 1) k ≡ 1) × (n ≤ k → digit (2 ^ n - 1) k ≡ 0)
unfolding digit
digit-ones zero k = (λ h. absurd (omega arith), λ h. digit-zero k)
digit-ones (suc n) zero = (λ h. (ones_half n).1, λ h. absurd (omega arith))
digit-ones (suc n) (suc k) =
    let (inside, outside) = digit-ones n k in
    let half = ap (λ h. digit h k) (ones_half n).0 in
    (λ h. half ∙ inside (omega arith), λ h. half ∙ outside (omega arith))

digit-shift :
    (c s k : ℕ) → (k < s → digit (c <<< s) k ≡ 0) × (s ≤ k → digit (c <<< s) k ≡ digit c (k - s))
unfolding digit
digit-shift c zero k = (
  λ h. absurd (omega arith),
  λ h. let e : c * 1 ≡ c = omega arith in let f : k ≡ k - 0 = omega arith in rw e (ap (digit c) f),
)
digit-shift c (suc s) zero = (λ h. omega (arith, two_pow c s), λ h. absurd (omega arith))
digit-shift c (suc s) (suc k) =
    let (below, above) = digit-shift c s k in
    let e : c * 2 ^ suc s / 2 ≡ c * 2 ^ s = omega (arith, two_pow c s) in
    let half = ap (λ h. digit h k) e in
    let f : k - s ≡ suc k - suc s = omega arith in
    (λ h. half ∙ below (omega arith), λ h. half ∙ above (omega arith) ∙ ap (digit c) f)

-- The digits of `n` ones shifted to `s`.
pub digit-run :
    (n s k : ℕ)
    → (s ≤ k → k < s + n → digit ((2 ^ n - 1) <<< s) k ≡ 1)
      × ((k < s) ⊎ (s + n ≤ k) → digit ((2 ^ n - 1) <<< s) k ≡ 0)
digit-run n s k =
    let (below, above) = digit-shift (2 ^ n - 1) s k in
    let (inside, outside) = digit-ones n (k - s) in
    (
      λ low high. above low ∙ inside (omega arith),
      λ out. elim out [
        | inl under ↦ below under
        | inr over ↦ above (omega arith) ∙ outside (omega arith)
      ],
    )

-- `n` ones, as a word of ones shifted right.
pub ones-shr : (n j : ℕ) → (2 ^ (n + j) - 1) >>> j ≡ 2 ^ n - 1
ones-shr n zero = let e : n + 0 ≡ n = omega arith in rw e (omega arith)
ones-shr n (suc j) =
    let e : n + suc j ≡ suc (n + j) = omega arith in
    rw e (
      sym (half-div (2 ^ suc (n + j) - 1) j)
      ∙ ap (λ h. h >>> j) (ones_half (n + j)).0
      ∙ ones-shr n j)

pub run-lt : (n s : ℕ) → (2 ^ n - 1) <<< s < 2 ^ (s + n)
run-lt n zero = let e : 0 + n ≡ n = omega arith in rw e (omega (arith, one-le-pow n 2))
run-lt n (suc s) =
    let e : suc s + n ≡ suc (s + n) = omega arith in
    rw e (omega (arith, two_pow (2 ^ n - 1) s, run-lt n s, pow-suc 2 (s + n)))

pub or-lt : (n x y : ℕ) → x < 2 ^ n → y < 2 ^ n → bit_or x y < 2 ^ n
or-lt zero x y p q =
    let ex : x ≡ 0 = omega arith in let ey : y ≡ 0 = omega arith in rw (ex, ey) (omega arith)
or-lt (suc n) x y p q =
    let half = or-lt n (x / 2) (y / 2) (omega (arith, pow-suc 2 n)) (omega (arith, pow-suc 2 n)) in
    omega (arith, or-low x y, half, pow-suc 2 n)

-- Digits from the width on are 0.
pub digit-above : (n x k : ℕ) → x < 2 ^ n → n ≤ k → digit x k ≡ 0
unfolding digit
digit-above zero x k p q = let e : x ≡ 0 = omega arith in rw e (digit-zero k)
digit-above (suc n) x zero p q = absurd (omega arith)
digit-above (suc n) x (suc k) p q =
    digit-above n (x / 2) k (omega (arith, pow-suc 2 n)) (omega arith)
