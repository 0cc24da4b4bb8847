-- ===== src/Util/Checksum.antt =====
-- util.c, `cksum16`. The list is the bytes that the caller gives; `size` is its length in a `uint16_t`.
pub mod Laws
use protocol_stack.Base.{
  length, take, ℕ, ◌+◌, ◌-◌, ◌*◌, ◌/◌, ◌%◌, ◌^◌, bit_and, List, [], ◌∷◌, u16, u32,
}
use protocol_stack.Base.Bits.{◌>>>◌}
use protocol_stack.Util.ByteOrder.{Endian, load16}

-- `while (size > 1)` and the odd byte after it; the sum is a `uint32_t`.
unfoldable pub sum_loop : Endian → ℕ → List ℕ → ℕ
sum_loop m sum [] = sum
sum_loop m sum (a ∷ []) = u32 (sum + a)
sum_loop m sum (a ∷ b ∷ rest) = sum_loop m (u32 (sum + load16 m a b)) rest

fold : ℕ → ℕ
fold sum = u32 (bit_and sum 0xffff + (sum >>> 16))

-- The bytes that are summed, whose number is cut to 16 bits.
unfoldable pub summed : List ℕ → List ℕ
summed bytes = take (u16 (length bytes)) bytes

unfoldable pub cksum16 : Endian → List ℕ → ℕ → ℕ
unfolding sum_loop fold summed
cksum16 m bytes init =
    let sum = fold (fold (sum_loop m (u32 init) (summed bytes))) in 0xffff - u16 sum
