-- ===== src/Tests/Util.antt =====
-- util.c at concrete inputs.
use protocol_stack.Base.{◌≡◌, refl, arith, ◌+◌, ◌%◌, ◌<◌, ◌↔◌, inr, [], ◌∷◌}
use protocol_stack.Util.ByteOrder.{
  little, big, store16, store32, load16, load32, byteorder, hton16, hton32, ntoh16, ntoh32,
  hton16_call, hton32_call,
}
use protocol_stack.Util.ByteOrder.Laws.{conversions_cached, store-hton, ntoh-load, ntoh-hton}
use protocol_stack.Util.Checksum.{summed, cksum16}
use protocol_stack.Util.Checksum.Laws.{word_sum, cksum16_zero_iff}

hton16_runs : (hton16 little 0x0800 ≡ 8) × (hton16 big 0x0800 ≡ 0x0800)
unfolding hton16
hton16_runs = (refl, refl)

cksum16_runs : cksum16 little (1 ∷ 2 ∷ 3 ∷ []) 0 ≡ 0xfdfb
unfolding cksum16 load16
cksum16_runs = refl

conversions_cached_runs :
    (hton16_call little 1234 0x0102 ≡ (hton16 little 0x0102, byteorder little))
    × (hton32_call little 1234 0x0102 ≡ (hton32 little 0x0102, byteorder little))
unfolding byteorder
conversions_cached_runs = conversions_cached little 1234 0x0102 (inr refl)

store-hton_runs :
    (store16 little (hton16 little 0x0806) ≡ 8 ∷ 6 ∷ [])
    × (store32 little (hton32 little 0x01020304) ≡ 1 ∷ 2 ∷ 3 ∷ 4 ∷ [])
store-hton_runs = store-hton little 0x0806 0x01020304 (omega arith) (omega arith)

ntoh-load_runs :
    (ntoh16 little (load16 little 8 6) ≡ 0x0806)
    × (ntoh32 little (load32 little 8 6 0 1) ≡ 0x08060001)
ntoh-load_runs = ntoh-load little 8 6 0 1 (omega arith) (omega arith) (omega arith) (omega arith)

ntoh-hton_example :
    (ntoh16 little (hton16 little 7) ≡ 7)
    × (hton16 little (ntoh16 little 7) ≡ 7)
    × (ntoh32 little (hton32 little 9) ≡ 9)
    × (hton32 little (ntoh32 little 9) ≡ 9)
ntoh-hton_example = ntoh-hton little 7 9 (omega arith) (omega arith)

cksum16_zero_iff_example : (cksum16 little (255 ∷ 255 ∷ []) 0 ≡ 0) ↔ (
    (0 < 0 + word_sum little (summed (255 ∷ 255 ∷ [])))
    × ((0 + word_sum little (summed (255 ∷ 255 ∷ []))) % 65535 ≡ 0))
unfolding word_sum load16 summed
cksum16_zero_iff_example = cksum16_zero_iff little (255 ∷ 255 ∷ []) 0 (omega arith)
