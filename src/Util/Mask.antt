-- ===== src/Util/Mask.antt =====
-- util.c: `maskset`, `maskchk` and `maskclr`, on the list of the words of a mask. `none` is behaviour that
-- C leaves undefined: a word out of bounds, or the shift by 32 that an empty range comes to.
pub mod Words
pub mod Laws
pub mod Check
pub mod Ranges
use protocol_stack.Base.{
  ℕ, zero, suc, ◌+◌, ◌-◌, ◌*◌, ◌/◌, ◌%◌, Bool, true, false, bit_and, bit_or, bit_xor, List, [], ◌∷◌,
  Option, none, some, ◌==◌, ltb, get_elem?, set, u32, if◌then◌else◌,
}
use protocol_stack.Base.Bits.{◌<<<◌, ◌>>>◌}

abbrev pub all_ones : ℕ
all_ones = 0xffffffff

-- `bl`: how much of the range lies in its first word.
unfoldable pub first_bits : ℕ → ℕ → ℕ
first_bits sb len = if ltb (32 - sb) len then 32 - sb else len

-- `(0xffffffff >> (32 - bl)) << sb`
unfoldable pub first_run : ℕ → ℕ → ℕ
first_run bl sb = u32 ((all_ones >>> (32 - bl)) <<< sb)

-- `for (idx = so; idx < so + (len / 32); idx++)`, with the rounds left.
unfoldable pub set_loop : ℕ → ℕ → List ℕ → Option (List ℕ)
set_loop zero idx mask = some mask
set_loop (suc rounds) idx mask = elim (get_elem? mask (idx + 1)) [
  | none ↦ none
  | some w ↦ set_loop rounds (idx + 1) (set mask (idx + 1) all_ones)
]

-- The last word, of which `len` bits are in the range.
unfoldable pub set_tail : ℕ → ℕ → List ℕ → Option (List ℕ)
set_tail idx len mask = if len == 0 then some mask else elim (get_elem? mask (idx + 1)) [
  | none ↦ none
  | some w ↦ some (set mask (idx + 1) (bit_or w (all_ones >>> (32 - len))))
]

-- The words after the first, whose index is `so`.
unfoldable pub set_rest : ℕ → ℕ → List ℕ → Option (List ℕ)
set_rest so len mask = elim (set_loop (len / 32) so mask) [
  | none ↦ none
  | some mask' ↦ set_tail (so + len / 32) (len - 32 * (len / 32)) mask'
]

unfoldable pub maskset : List ℕ → ℕ → ℕ → Option (List ℕ)
maskset mask offset len =
    let so = offset / 32 in
    let sb = offset % 32 in
    let bl = first_bits sb len in
    if bl == 0 then none else elim (get_elem? mask so) [
      | none ↦ none
      | some w ↦ set_rest so (len - bl) (set mask so (bit_or w (first_run bl sb)))
    ]

unfoldable pub chk_loop : ℕ → ℕ → List ℕ → Option Bool
chk_loop zero idx mask = some true
chk_loop (suc rounds) idx mask = elim (get_elem? mask (idx + 1)) [
  | none ↦ none
  | some w ↦ elim (bit_xor w all_ones == 0) [
    | false ↦ some false
    | true ↦ chk_loop rounds (idx + 1) mask
  ]
]

unfoldable pub chk_tail : ℕ → ℕ → List ℕ → Option Bool
chk_tail idx len mask = if len == 0 then some true else elim (get_elem? mask (idx + 1)) [
  | none ↦ none
  | some w ↦ let run = all_ones >>> (32 - len) in some (bit_xor (bit_and w run) run == 0)
]

unfoldable pub chk_rest : ℕ → ℕ → List ℕ → Option Bool
chk_rest so len mask = elim (chk_loop (len / 32) so mask) [
  | none ↦ none
  | some false ↦ some false
  | some true ↦ chk_tail (so + len / 32) (len - 32 * (len / 32)) mask
]

unfoldable pub maskchk : List ℕ → ℕ → ℕ → Option Bool
maskchk mask offset len =
    let so = offset / 32 in
    let sb = offset % 32 in
    let bl = first_bits sb len in
    let run = first_run bl sb in
    if bl == 0 then none else elim (get_elem? mask so) [
      | none ↦ none
      | some w ↦ elim (bit_xor (bit_and w run) run == 0) [
        | false ↦ some false
        | true ↦ chk_rest so (len - bl) mask
      ]
    ]

-- `memset(mask, 0, sizeof(*mask) * size)`: the words of the mask, as far as they are among the `size`
-- words that are cleared; `Laws` says how many words past its end are cleared too.
unfoldable pub maskclr : List ℕ → ℕ → List ℕ
maskclr [] size = []
maskclr (w ∷ mask) zero = w ∷ mask
maskclr (w ∷ mask) (suc size) = 0 ∷ maskclr mask size
