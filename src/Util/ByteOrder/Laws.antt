-- ===== src/Util/ByteOrder/Laws.antt =====
-- util.c, byte order: what the conversions do to the bytes in memory.
use protocol_stack.Base.{
  ℕ, ◌+◌, ◌*◌, ◌/◌, ◌%◌, ◌^◌, ◌<◌, bit_and, bit_or, [], ◌∷◌, ◌≡◌, refl, arith, ◌⊎◌, inl, inr,
}
use protocol_stack.Base.Bits.{bit_or_fields, bit_and_mask, bit_and_shift}
use protocol_stack.Util.ByteOrder.{
  Endian, little, big, store16, load16, store32, load32, byteorder, byteswap16, byteswap32,
  hton16_call, hton32_call, hton16, hton32, ntoh16, ntoh32,
}

bit_and-ff00 : (v : ℕ) → bit_and v 0xff00 ≡ v / 256 % 256 * 256
bit_and-ff00 v = omega (arith, bit_and_shift 8 v 255, bit_and_mask 8 (v / 256))

bit_and-ff0000 : (v : ℕ) → bit_and v 0xff0000 ≡ v / 65536 % 256 * 65536
bit_and-ff0000 v = omega (arith, bit_and_shift 16 v 255, bit_and_mask 8 (v / 65536))

bit_and-ff000000 : (v : ℕ) → bit_and v 0xff000000 ≡ v / 16777216 % 256 * 16777216
bit_and-ff000000 v = omega (arith, bit_and_shift 24 v 255, bit_and_mask 8 (v / 16777216))

pub byteswap16_lem : (v : ℕ) → v < 2 ^ 16 → byteswap16 v ≡ v % 256 * 256 + v / 256
unfolding byteswap16
byteswap16_lem v h =
    rw (bit_and-ff00, bit_and_mask 8 v)
      (omega (arith, bit_or_fields 8 (v % 256) (v / 256 % 256 * 256 / 256) (omega arith)))

module _ (a b c d x y z : ℕ) (hb : b < 256) (hc : c < 256) (hd : d < 256) where
  -- Four bytes in their places, joined by `|`.
  bit_or_bytes :
      x ≡ a * 2 ^ 24
      → y ≡ b * 2 ^ 16
      → z ≡ c * 2 ^ 8
      → bit_or (bit_or (bit_or x y) z) d ≡ a * 16777216 + b * 65536 + c * 256 + d
  bit_or_bytes ex ey ez =
      let two : bit_or x y ≡ (a * 256 + b) * 2 ^ 16 =
        rw (ex, ey) (omega (arith, bit_or_fields 24 a (b * 2 ^ 16) (omega arith))) in
      let three : bit_or (bit_or x y) z ≡ (a * 65536 + b * 256 + c) * 2 ^ 8 =
        rw (two, ez) (omega (arith, bit_or_fields 16 (a * 256 + b) (c * 2 ^ 8) (omega arith))) in
      rw three (omega (arith, bit_or_fields 8 (a * 65536 + b * 256 + c) d hd))

pub byteswap32_lem :
    (v : ℕ)
    → v < 2 ^ 32
    → byteswap32 v
      ≡ v % 256 * 16777216 + v / 256 % 256 * 65536 + v / 65536 % 256 * 256 + v / 16777216
unfolding byteswap32
byteswap32_lem v h =
    rw
      (
        bit_and-ff00,
        bit_and-ff0000,
        bit_and-ff000000,
        bit_and_mask 8 v,
        bit_or_bytes (v % 256) (v / 256 % 256) (v / 65536 % 256)
            (v / 16777216 % 256 * 16777216 / 2 ^ 24) (v % 2 ^ 8 * 2 ^ 24)
            (v / 256 % 256 * 256 * 2 ^ 8) (v / 65536 % 256 * 65536 / 2 ^ 8) (omega arith)
            (omega arith) (omega arith) (omega arith) (omega arith) (omega arith),
      )
      (omega arith)

-- The static variable `endian` holds nothing before the first call and the byte order after it.
abbrev pub IsCached : Endian → ℕ → Type 0
IsCached m endian = (endian ≡ 0) ⊎ (endian ≡ byteorder m)

-- Whatever calls came before, a conversion returns what the first call would, and leaves the static
-- variable at the machine's byte order.
pub conversions_cached :
    (m : Endian) (endian v : ℕ)
    → IsCached m endian
    → (hton16_call m endian v ≡ (hton16 m v, byteorder m))
      × (hton32_call m endian v ≡ (hton32 m v, byteorder m))
unfolding hton16 hton32 hton16_call hton32_call byteorder
conversions_cached little endian v (inl e) = rw e (refl, refl)
conversions_cached little endian v (inr e) = rw e (refl, refl)
conversions_cached big endian v (inl e) = rw e (refl, refl)
conversions_cached big endian v (inr e) = rw e (refl, refl)

-- In memory the result of a conversion has its high byte first, on either machine.
pub store-hton :
    (m : Endian) (v w : ℕ)
    → v < 2 ^ 16
    → w < 2 ^ 32
    → (store16 m (hton16 m v) ≡ v / 256 ∷ v % 256 ∷ [])
      × (store32 m (hton32 m w) ≡ w / 16777216 ∷ w / 65536 % 256 ∷ w / 256 % 256 ∷ w % 256 ∷ [])
unfolding store16 store32 hton16 hton32 hton16_call hton32_call
store-hton little v w h k = (ground (arith, byteswap16_lem v h), ground (arith, byteswap32_lem w k))
store-hton big v w h k = (ground arith, ground arith)

-- A field that arrives with its high byte first is read as its value, on either machine.
pub ntoh-load :
    (m : Endian) (a b c d : ℕ)
    → a < 256
    → b < 256
    → c < 256
    → d < 256
    → (ntoh16 m (load16 m a b) ≡ 256 * a + b)
      × (ntoh32 m (load32 m a b c d) ≡ 16777216 * a + 65536 * b + 256 * c + d)
unfolding load16 load32 ntoh16 ntoh32 hton16 hton32 hton16_call hton32_call
ntoh-load little a b c d ha hb hc hd = (
  omega (arith, byteswap16_lem (a + 256 * b) (omega arith)),
  omega (arith, byteswap32_lem (a + 256 * b + 65536 * c + 16777216 * d) (omega arith)),
)
ntoh-load big a b c d ha hb hc hd = (refl, refl)

pub hton16-lt : (m : Endian) (v : ℕ) → v < 2 ^ 16 → hton16 m v < 2 ^ 16
unfolding hton16 hton16_call
hton16-lt little v h = omega (arith, byteswap16_lem v h)
hton16-lt big v h = h

pub hton32-lt : (m : Endian) (v : ℕ) → v < 2 ^ 32 → hton32 m v < 2 ^ 32
unfolding hton32 hton32_call
hton32-lt little v h = omega (arith, byteswap32_lem v h)
hton32-lt big v h = h

pub ntoh16-hton16 : (m : Endian) (v : ℕ) → v < 2 ^ 16 → ntoh16 m (hton16 m v) ≡ v
unfolding ntoh16 hton16 hton16_call
ntoh16-hton16 little v h =
    omega
      (arith, byteswap16_lem v h, byteswap16_lem (byteswap16 v) (omega (arith, byteswap16_lem v h)))
ntoh16-hton16 big v h = refl

pub ntoh32-hton32 : (m : Endian) (v : ℕ) → v < 2 ^ 32 → ntoh32 m (hton32 m v) ≡ v
unfolding ntoh32 hton32 hton32_call
ntoh32-hton32 little v h =
    omega
      (arith, byteswap32_lem v h, byteswap32_lem (byteswap32 v) (omega (arith, byteswap32_lem v h)))
ntoh32-hton32 big v h = refl

-- Each conversion undoes the other, and is its own inverse.
pub ntoh-hton :
    (m : Endian) (v w : ℕ)
    → v < 2 ^ 16
    → w < 2 ^ 32
    → (ntoh16 m (hton16 m v) ≡ v)
      × (hton16 m (ntoh16 m v) ≡ v)
      × (ntoh32 m (hton32 m w) ≡ w)
      × (hton32 m (ntoh32 m w) ≡ w)
unfolding ntoh16 ntoh32
ntoh-hton m v w h k =
    (ntoh16-hton16 m v h, ntoh16-hton16 m v h, ntoh32-hton32 m w k, ntoh32-hton32 m w k)
