-- ===== src/Util/ByteOrder.antt =====
-- util.c, byte order: `byteorder`, `byteswap16`, `byteswap32` and the four conversions. How the
-- machine keeps a word in memory is a parameter, since `byteorder` asks the machine.
pub mod Laws
use protocol_stack.Base.{
  ℕ, ◌+◌, ◌*◌, ◌/◌, ◌%◌, ◌^◌, bit_and, bit_or, List, [], ◌∷◌, ◌==◌, if◌then◌else◌, u16, u32, get_or,
}
use protocol_stack.Base.Bits.{◌<<<◌, ◌>>>◌}

pub data Endian : Type 0 where
  little big : Endian

-- The bytes of a `uint16_t` in memory, and the number that they are read as.
unfoldable pub store16 : Endian → ℕ → List ℕ
store16 little v = v % 256 ∷ v / 256 % 256 ∷ []
store16 big v = v / 256 % 256 ∷ v % 256 ∷ []

unfoldable pub load16 : Endian → ℕ → ℕ → ℕ
load16 little a b = a + 256 * b
load16 big a b = 256 * a + b

unfoldable pub store32 : Endian → ℕ → List ℕ
store32 little v = v % 256 ∷ v / 256 % 256 ∷ v / 65536 % 256 ∷ v / 16777216 % 256 ∷ []
store32 big v = v / 16777216 % 256 ∷ v / 65536 % 256 ∷ v / 256 % 256 ∷ v % 256 ∷ []

unfoldable pub load32 : Endian → ℕ → ℕ → ℕ → ℕ → ℕ
load32 little a b c d = a + 256 * b + 65536 * c + 16777216 * d
load32 big a b c d = 16777216 * a + 65536 * b + 256 * c + d

abbrev pub little_endian : ℕ
little_endian = 1234

abbrev pub big_endian : ℕ
big_endian = 4321

-- `*(uint8_t *)&x` for `x = 1`.
unfoldable pub byteorder : Endian → ℕ
unfolding store32
byteorder m = if get_or (store32 m 1) 0 0 == 0 then big_endian else little_endian

unfoldable pub byteswap16 : ℕ → ℕ
byteswap16 v = u16 (bit_or (bit_and v 0x00ff <<< 8) (bit_and v 0xff00 >>> 8))

unfoldable pub byteswap32 : ℕ → ℕ
byteswap32 v = u32 (
    bit_or
      (bit_or (bit_or (bit_and v 0x000000ff <<< 24) (bit_and v 0x0000ff00 <<< 8))
        (bit_and v 0x00ff0000 >>> 8))
      (bit_and v 0xff000000 >>> 24))

-- `if (!endian) endian = byteorder();`, the static variable being an argument.
unfoldable pub detect : Endian → ℕ → ℕ
unfolding byteorder
detect m endian = if endian == 0 then byteorder m else endian

-- The functions of the source: the value returned, and the static variable after the call.
unfoldable pub hton16_call : Endian → ℕ → ℕ → ℕ × ℕ
unfolding detect byteswap16
hton16_call m endian h =
    let endian' = detect m endian in (if endian' == little_endian then byteswap16 h else h, endian')

unfoldable pub hton32_call : Endian → ℕ → ℕ → ℕ × ℕ
unfolding detect byteswap32
hton32_call m endian h =
    let endian' = detect m endian in (if endian' == little_endian then byteswap32 h else h, endian')

-- The value alone, from the first call on; `Laws` shows that no later call differs. `ntoh16` and
-- `ntoh32` have the same bodies as these.
unfoldable pub hton16 : Endian → ℕ → ℕ
unfolding hton16_call
hton16 m h = (hton16_call m 0 h).0

unfoldable pub hton32 : Endian → ℕ → ℕ
unfolding hton32_call
hton32 m h = (hton32_call m 0 h).0

unfoldable pub ntoh16 : Endian → ℕ → ℕ
unfolding hton16
ntoh16 m n = hton16 m n

unfoldable pub ntoh32 : Endian → ℕ → ℕ
unfolding hton32
ntoh32 m n = hton32 m n
