-- ===== src/Util/Text/Laws.antt =====
-- Numbers that are printed and read again.
use mathlib.Core.List.{append_assoc}
use protocol_stack.Util.Text.{
  is_space, skip_space, skip_prefix, strtol_signed, digit_char, read_digits, print_hex2,
  print_decimal, strtol_digits, strtol, to_digits, digit_value,
}
use native.Mathlib.Nat.{zero-add, zero-mul, div-lt_self, mod-lt, div-add-mod, mul_comm}
use protocol_stack.Base.{
  length, true, ◌∙◌, ap, ltb, ◌%◌, sym, Bool-cases, ◌/◌, ◌*◌, ◌++◌, arith, ◌≡◌, ◌≤◌, ◌<◌, List, ◌∷◌,
  refl, suc, zero, false, inr, inl, some, [], ℕ, ◌+◌,
}

digit_value-digit_char :
    (base d : ℕ) → base ≤ 16 → d < base → digit_value base (digit_char d) ≡ some d
unfolding digit_value digit_char
digit_value-digit_char base d small h = ground arith

read_digits-to_digits :
    (base fuel n : ℕ) (rest : List ℕ)
    → 1 < base
    → base ≤ 16
    → n < fuel
    → read_digits base 0 (to_digits base fuel n ++ rest) ≡ read_digits base n rest
unfolding to_digits read_digits
read_digits-to_digits base zero n rest b small h = absurd (omega arith)
read_digits-to_digits base (suc fuel) n rest b small h = elim (Bool-cases (ltb n base)) [
  | inl one ↦
      let lt : n < base = ground arith in
      rw (to_digits, one, read_digits, digit_value-digit_char base n small lt)
        (ap (λ (k : ℕ). read_digits base k rest) (rw (zero-mul base) (zero-add n)))
  | inr more ↦
      let ge : base ≤ n = ground arith in
      let smaller : n / base < n = div-lt_self (omega arith) b in
      let last : n % base < base = mod-lt n (omega arith) in
      let whole : n / base * base + n % base ≡ n =
        ap (λ (k : ℕ). k + n % base) (mul_comm (n / base) base) ∙ div-add-mod n base in
      let tail : List ℕ = digit_char (n % base) ∷ rest in
      rw (to_digits, more)
        (ap (read_digits base 0)
            (append_assoc (to_digits base fuel (n / base)) (digit_char (n % base) ∷ []) rest)
          ∙ read_digits-to_digits base fuel (n / base) tail b small (omega (arith, smaller))
          ∙ rw (read_digits, digit_value-digit_char base (n % base) small last)
              (ap (λ (k : ℕ). read_digits base k rest) whole))
]

-- The text of a number starts with a digit.
to_digits-head :
    (base fuel n : ℕ)
    → 1 < base
    → n < fuel
    → (d : ℕ) × (text : List ℕ) × (to_digits base fuel n ≡ digit_char d ∷ text) × (d < base)
unfolding to_digits
to_digits-head base zero n b h = absurd (omega arith)
to_digits-head base (suc fuel) n b h = elim (Bool-cases (ltb n base)) [
  | inl one ↦ (n, [], rw (to_digits, one) refl, ground arith)
  | inr more ↦
      let ge : base ≤ n = ground arith in
      let smaller : n / base < n = div-lt_self (omega arith) b in
      let (d, text, e, lt) = to_digits-head base fuel (n / base) b (omega (arith, smaller)) in
      (
        d,
        text ++ (digit_char (n % base) ∷ []),
        rw (to_digits, more) (ap (λ t. t ++ (digit_char (n % base) ∷ [])) e),
        lt,
      )
]

-- Text that starts with a digit is neither space nor a sign.
strtol-digits :
    (base d : ℕ) (text : List ℕ)
    → d < 16
    → strtol base (digit_char d ∷ text)
      ≡ strtol_digits base false (skip_prefix base (digit_char d ∷ text))
unfolding strtol strtol_signed skip_space is_space digit_char
strtol-digits base d text h = ground arith

strtol_digits-read :
    (base d n : ℕ) (text rest : List ℕ)
    → base ≤ 16
    → d < base
    → read_digits base 0 (digit_char d ∷ text) ≡ (n, rest)
    → strtol_digits base false (digit_char d ∷ text)
      ≡ some (record { negative = false; magnitude = n; rest = rest })
unfolding strtol_digits read_digits
strtol_digits-read base d n text rest small h e =
    let value = digit_value-digit_char base d small h in
    let zero_base : 0 * base + d ≡ d = rw (zero-mul base) (zero-add d) in
    let read : read_digits base d text ≡ (n, rest) =
      sym (rw (read_digits, value) (ap (λ (k : ℕ). read_digits base k text) zero_base)) ∙ e in
    rw (strtol_digits, value, read) refl

-- A decimal number is read back, and what is after it is left.
pub strtol-print_decimal :
    (n : ℕ) (rest : List ℕ)
    → read_digits 10 n rest ≡ (n, rest)
    → strtol 10 (print_decimal n ++ rest)
      ≡ some (record { negative = false; magnitude = n; rest = rest })
unfolding print_decimal skip_prefix
strtol-print_decimal n rest stops =
    let (d, text, e, lt) = to_digits-head 10 (suc n) n (omega arith) (omega arith) in
    let read : read_digits 10 0 (digit_char d ∷ (text ++ rest)) ≡ (n, rest) =
      sym (ap (λ t. read_digits 10 0 (t ++ rest)) e)
      ∙ read_digits-to_digits 10 (suc n) n rest (omega arith) (omega arith) (omega arith)
      ∙ stops in
    let no_prefix : skip_prefix 10 (digit_char d ∷ (text ++ rest)) ≡ digit_char d ∷ (text ++ rest) =
      prefix (digit_char d) (text ++ rest) in
    ap (λ t. strtol 10 (t ++ rest)) e
    ∙ strtol-digits 10 d (text ++ rest) (omega arith)
    ∙ ap (strtol_digits 10 false) no_prefix
    ∙ strtol_digits-read 10 d n (text ++ rest) rest (omega arith) lt read
  where
    prefix : (c : ℕ) (t : List ℕ) → skip_prefix 10 (c ∷ t) ≡ c ∷ t
    prefix c [] = refl
    prefix c (x ∷ []) = refl
    prefix c (x ∷ y ∷ t) = ground arith

print_hex2_lem : (n : ℕ) → n < 256 → print_hex2 n ≡ digit_char (n / 16) ∷ digit_char (n % 16) ∷ []
unfolding print_hex2 to_digits digit_char
print_hex2_lem zero h = refl
print_hex2_lem (suc k) h = elim (Bool-cases (ltb (suc k) 16)) [
  | inl one ↦ rw (print_hex2, to_digits, one) (ground arith)
  | inr more ↦
      let high : ltb (suc k / 16) 16 ≡ true = ground arith in
      rw (print_hex2, to_digits, more, to_digits, high) refl
]

-- A byte in hexadecimal is read back.
pub strtol-print_hex2 :
    (n : ℕ) (rest : List ℕ)
    → n < 256
    → read_digits 16 n rest ≡ (n, rest)
    → strtol 16 (print_hex2 n ++ rest)
      ≡ some (record { negative = false; magnitude = n; rest = rest })
unfolding read_digits skip_prefix digit_char
strtol-print_hex2 n rest h stops =
    let high = digit_value-digit_char 16 (n / 16) (omega arith) (omega arith) in
    let low = digit_value-digit_char 16 (n % 16) (omega arith) (omega arith) in
    let whole : (0 * 16 + n / 16) * 16 + n % 16 ≡ n = omega arith in
    let read : read_digits 16 0 (digit_char (n / 16) ∷ digit_char (n % 16) ∷ rest) ≡ (n, rest) =
      rw (read_digits, high, low) (ap (λ (k : ℕ). read_digits 16 k rest) whole ∙ stops) in
    ap (λ t. strtol 16 (t ++ rest)) (print_hex2_lem n h)
    ∙ strtol-digits 16 (n / 16) (digit_char (n % 16) ∷ rest) (omega arith)
    ∙ ap (strtol_digits 16 false) (no_prefix (digit_char (n / 16)) rest)
    ∙ strtol_digits-read 16 (n / 16) n (digit_char (n % 16) ∷ rest) rest (omega arith) (omega arith)
        read
  where
    no_prefix :
        (c : ℕ) (t : List ℕ)
        → skip_prefix 16 (c ∷ digit_char (n % 16) ∷ t) ≡ c ∷ digit_char (n % 16) ∷ t
    no_prefix c [] = refl
    no_prefix c (d ∷ t) = ground arith

pub print_hex2-length : (n : ℕ) → n < 256 → length (print_hex2 n) ≡ 2
print_hex2-length n h = ap length (print_hex2_lem n h)
