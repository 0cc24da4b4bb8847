-- ===== src/Base/Bits.antt =====
-- `&`, `|` and shifts at variables, as arithmetic, at every width.
pub mod Digit
use Prim.Native.Nat.{
  ℕ, zero, suc, ◌+◌, ◌-◌, ◌*◌, ◌/◌, ◌%◌, ◌^◌, ◌≤◌, ◌<◌, min, max, bit_and, bit_or, bit_xor, differ,
  digits, bitwise, bit_and-bitwise, bit_or-bitwise, bit_xor-bitwise,
}
use mathlib.Core.Path.{◌≡◌, refl, ap, ◌∙◌}
use native.Mathlib.Nat.{
  pow-suc, one-le-pow, div-div-eq-div-mul, mod-eq-sub-mul-div, mul_comm, mul-div-le, mul-one,
  div-one,
}
use native.Mathlib.Omega.{arith}

infixl 75 ◌<<<◌ ◌>>>◌
abbrev pub ◌<<<◌ : ℕ → ℕ → ℕ
x <<< k = x * 2 ^ k

abbrev pub ◌>>>◌ : ℕ → ℕ → ℕ
x >>> k = x / 2 ^ k

-- The operations recur on a count of digits. One digit more than the number has makes no difference.
module _ (last : ℕ → ℕ) (op : ℕ → ℕ → ℕ) where
  digits-suc :
      (count x y : ℕ) → x ≤ count → digits last op (suc count) x y ≡ digits last op count x y
  digits-suc zero zero y enough = refl
  digits-suc zero (suc x) y enough = absurd (omega arith)
  digits-suc (suc count) zero y enough = refl
  digits-suc (suc count) (suc x) y enough =
      ap (λ high. high * 2 + op (suc x % 2) (y % 2))
        (digits-suc count (suc x / 2) (y / 2) (omega arith))

  digits-bitwise : (extra x y : ℕ) → digits last op (extra + x) x y ≡ bitwise last op x y
  digits-bitwise zero x y = ap (λ count. digits last op count x y) (omega arith)
  digits-bitwise (suc extra) x y =
      let more : suc extra + x ≡ suc (extra + x) = omega arith in
      ap (λ count. digits last op count x y) more
      ∙ digits-suc (extra + x) x y (omega arith)
      ∙ digits-bitwise extra x y

  -- The lowest digit of a positive number, apart from the others.
  bitwise-low :
      (x y : ℕ)
      → bitwise last op (suc x) y ≡ bitwise last op (suc x / 2) (y / 2) * 2 + op (suc x % 2) (y % 2)
  bitwise-low x y =
      let half = suc x / 2 in
      let count_is : x ≡ x - half + half = omega arith in
      ap (λ high. high * 2 + op (suc x % 2) (y % 2))
        (ap (λ count. digits last op count half (y / 2)) count_is
          ∙ digits-bitwise (x - half) half (y / 2))

pub or-low : (x y : ℕ) → bit_or x y ≡ 2 * bit_or (x / 2) (y / 2) + max (x % 2) (y % 2)
or-low zero y = simp bit_or-bitwise (omega arith)
or-low (suc x) y = simp bit_or-bitwise (omega (arith, bitwise-low (λ d. d) max x y))

pub and-low : (x y : ℕ) → bit_and x y ≡ 2 * bit_and (x / 2) (y / 2) + min (x % 2) (y % 2)
and-low zero y = simp bit_and-bitwise (omega arith)
and-low (suc x) y = simp bit_and-bitwise (omega (arith, bitwise-low (λ d. 0) min x y))

pub xor-low : (x y : ℕ) → bit_xor x y ≡ 2 * bit_xor (x / 2) (y / 2) + differ (x % 2) (y % 2)
xor-low zero y = simp bit_xor-bitwise (differ_low (y % 2) y)
  where
    differ_low : (d z : ℕ) → z ≡ 2 * (z / 2) + z % 2
    differ_low d z = omega arith
xor-low (suc x) y = simp bit_xor-bitwise (omega (arith, bitwise-low (λ d. d) differ x y))

-- With 0 on the right, for numbers up to a bound.
with_zero : (bound x : ℕ) → x ≤ bound → (bit_or x 0 ≡ x) × (bit_and x 0 ≡ 0)
with_zero bound zero small = (refl, refl)
with_zero zero (suc x) small = absurd (omega arith)
with_zero (suc bound) (suc x) small =
    let (or_half, and_half) = with_zero bound (suc x / 2) (omega arith) in
    (omega (arith, or-low (suc x) 0, or_half), omega (arith, and-low (suc x) 0, and_half))

pub two_pow : (c k : ℕ) → c * 2 ^ suc k ≡ c * 2 ^ k * 2
two_pow c k = omega (arith, ap (λ (power : ℕ). c * power) (pow-suc 2 k))

-- `(q << k) | r` is a sum when `r` fits `k` bits.
pub bit_or_fields : (k q r : ℕ) → r < 2 ^ k → bit_or (q <<< k) r ≡ q * 2 ^ k + r
bit_or_fields zero q r small = ground (arith, (with_zero q q (omega arith)).0)
bit_or_fields (suc k) q r small =
    let high = bit_or_fields k q (r / 2) (omega arith) in
    ground (arith, high, two_pow q k, or-low (q * 2 ^ suc k) r)

pub half-div : (x k : ℕ) → x / 2 / 2 ^ k ≡ x / 2 ^ suc k
half-div x k = rw (div-div-eq-div-mul x 2 (2 ^ k), pow-suc 2 k, mul_comm (2 ^ k) 2)

-- The remainder by a power of 2, digit by digit.
mod-two_pow : (x k : ℕ) → x % 2 ^ suc k ≡ 2 * (x / 2 % 2 ^ k) + x % 2
mod-two_pow x k = omega (
  arith,
  mod-eq-sub-mul-div x (2 ^ suc k),
  mod-eq-sub-mul-div (x / 2) (2 ^ k),
  half-div x k,
  mul_comm (2 ^ suc k) (x / 2 ^ suc k),
  mul_comm (2 ^ k) (x / 2 ^ suc k),
  ap (λ (d : ℕ). 2 ^ k * d) (half-div x k),
  two_pow (x / 2 ^ suc k) k,
  mul-div-le x (2 ^ suc k),
  mul-div-le (x / 2) (2 ^ k),
)

-- A mask of `k` low bits is the remainder by `2 ^ k`.
pub bit_and_mask : (k x : ℕ) → bit_and x (2 ^ k - 1) ≡ x % 2 ^ k
bit_and_mask zero x = (with_zero x x (omega arith)).1 ∙ omega arith
bit_and_mask (suc k) x =
    let high = bit_and_mask k (x / 2) in
    ground (arith, high, mod-two_pow x k, pow-suc 2 k, one-le-pow k 2, and-low x (2 ^ suc k - 1))

-- A mask that is shifted left looks at the upper bits alone.
pub bit_and_shift : (k x mask : ℕ) → bit_and x (mask <<< k) ≡ bit_and (x >>> k) mask <<< k
bit_and_shift zero x mask = simp (mul-one, div-one)
bit_and_shift (suc k) x mask =
    let high = bit_and_shift k (x / 2) mask in
    let result = bit_and (x / 2 ^ suc k) mask in
    ground
      (arith, high, half-div x k, two_pow mask k, two_pow result k, and-low x (mask * 2 ^ suc k))
