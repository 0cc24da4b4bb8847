-- ===== src/Util/Text.antt =====
-- The text that the address functions read and print: `strtol`, and the conversions `%d` and `%02x` of
-- `snprintf`. A string is the list of its characters, without the one that ends it.
pub mod Laws
use Prim.Native.Nat.{min}
use protocol_stack.Base.{
  ◌^◌, ◌%◌, ◌-◌, length, ◌++◌, ◌&&◌, ◌||◌, take, ◌/◌, ltb, not, ◌*◌, leb, ◌==◌, if◌then◌else◌,
  Option, List, Bool, ◌∷◌, suc, zero, false, true, some, none, [], ℕ, ◌+◌,
}

abbrev pub char_zero : ℕ
char_zero = 48

unfoldable pub is_space : ℕ → Bool
is_space c = c == 32 || (leb 9 c && leb c 13)

unfoldable pub skip_space : List ℕ → List ℕ
skip_space [] = []
skip_space (c ∷ text) = let rest = skip_space text in if is_space c then rest else (c ∷ text)

-- `0` to `9`, then letters of either case.
unfoldable pub digit_value : ℕ → ℕ → Option ℕ
digit_value base c =
    let v =
      if leb 48 c && leb c 57
      then c - 48
      else if leb 97 c && leb c 122
      then c - 87
      else if leb 65 c && leb c 90
      then c - 55
      else base in
    if ltb v base then some v else none

-- The digits at the front: the number that they extend, and the text after them.
unfoldable pub read_digits : ℕ → ℕ → List ℕ → ℕ × List ℕ
read_digits base acc [] = (acc, [])
read_digits base acc (c ∷ text) = elim (digit_value base c) [
  | none ↦ (acc, c ∷ text)
  | some v ↦ read_digits base (acc * base + v) text
]

-- What `strtol` converts: the sign, the number without it, and `*ep`. There is none if nothing is
-- converted: then it returns 0 and `ep` is where it began.
pub record Converted : Type 0 where
  pub negative : Bool
  pub magnitude : ℕ
  pub rest : List ℕ

unfoldable pub strtol_digits : ℕ → Bool → List ℕ → Option Converted
strtol_digits base negative [] = none
strtol_digits base negative (c ∷ text) = elim (digit_value base c) [
  | none ↦ none
  | some v ↦
      let (n, rest) = read_digits base v text in
      some (record { negative = negative; magnitude = n; rest = rest })
]

-- `0x` before a hexadecimal digit is passed over.
unfoldable pub skip_prefix : ℕ → List ℕ → List ℕ
skip_prefix base (z ∷ x ∷ d ∷ text) =
    if base == 16 && (z == 48 && ((x == 120 || x == 88) && is_some (digit_value 16 d)))
    then (d ∷ text)
    else (z ∷ x ∷ d ∷ text)
  where
    is_some : Option ℕ → Bool
    is_some none = false
    is_some (some v) = true
skip_prefix base text = text

unfoldable pub strtol_signed : ℕ → List ℕ → Option Converted
strtol_signed base [] = none
strtol_signed base (c ∷ text) =
    if c == 45
    then strtol_digits base true (skip_prefix base text)
    else if c == 43
    then strtol_digits base false (skip_prefix base text)
    else strtol_digits base false (skip_prefix base (c ∷ text))

unfoldable pub strtol : ℕ → List ℕ → Option Converted
strtol base text = strtol_signed base (skip_space text)

-- `val < 0 || val > 255`, for the `long` that is returned: a number that does not fit one is one of its
-- bounds.
unfoldable pub is_out_of_byte : Converted → Bool
is_out_of_byte c =
    if c.negative then not (c.magnitude == 0) else ltb 255 (min c.magnitude (2 ^ 63 - 1))

unfoldable pub digit_char : ℕ → ℕ
digit_char d = if ltb d 10 then char_zero + d else 87 + d

unfoldable pub to_digits : ℕ → ℕ → ℕ → List ℕ
to_digits base zero n = []
to_digits base (suc fuel) n =
    let front = to_digits base fuel (n / base) in
    if ltb n base then (digit_char n ∷ []) else (front ++ (digit_char (n % base) ∷ []))

-- `%d` of a number that is not negative, and `%02x`.
unfoldable pub print_decimal : ℕ → List ℕ
print_decimal n = to_digits 10 (suc n) n

unfoldable pub print_hex2 : ℕ → List ℕ
print_hex2 n =
    let text = to_digits 16 (suc n) n in if ltb (length text) 2 then (char_zero ∷ text) else text

-- What `snprintf` leaves in a buffer of the size.
unfoldable pub snprintf : ℕ → List ℕ → List ℕ
snprintf size text = take (size - 1) text
