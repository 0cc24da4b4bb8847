-- ===== src/Ethernet/Address.antt =====
-- ethernet.c: `ethernet_addr_pton` and `ethernet_addr_ntop`.
use protocol_stack.Util.Text.Laws.{print_hex2-length, strtol-print_hex2}
use protocol_stack.Ethernet.{ethernet_addr_len}
use protocol_stack.Util.Text.{
  strtol, digit_value, read_digits, print_hex2, snprintf, is_out_of_byte,
}
use Prim.Native.Nat.{min}
use protocol_stack.Base.{
  ◌∙◌, take_all, ap, length-append, ◌-◌, ◌||◌, arith, ◌^◌, if◌then◌else◌, ◌≤◌, u8, length, set, ◌≡◌,
  not, drop, All, ◌&&◌, ltb, ◌++◌, ◌==◌, ◌<◌, take, Bool, get_or, Option, List, ◌∷◌, refl, suc,
  zero, false, true, some, none, [], ℕ, ◌+◌,
}

abbrev pub ethernet_addr_str_len : ℕ
ethernet_addr_str_len = 18

abbrev colon : ℕ
colon = 58

abbrev char_at : List ℕ → ℕ
char_at text = get_or text 0 0

-- The loop over the six bytes, with the rounds left and the last `ep`. At its end the string must end; a
-- `break` leaves an index for which -1 is returned. The result holds what is in `n` then.
unfoldable pub hex_loop : ℕ → ℕ → List ℕ → List ℕ → List ℕ → Bool × List ℕ
hex_loop zero index ep p n = (char_at ep == 0, n)
hex_loop (suc rounds) index ep p n = elim (strtol 16 p) [
  | none ↦ (false, n)
  | some c ↦
      let rest =
        hex_loop rounds (index + 1) c.rest (drop 1 c.rest) (set n index (u8 c.magnitude)) in
      if is_out_of_byte c || (ltb index (ethernet_addr_len - 1) && not (char_at c.rest == colon))
      then (false, n)
      else rest
]

-- Null pointers are `none`; the second result is what `n` points to afterwards.
unfoldable pub ethernet_addr_pton : Option (List ℕ) → Option (List ℕ) → Bool × Option (List ℕ)
ethernet_addr_pton none n = (false, n)
ethernet_addr_pton (some p) none = (false, none)
ethernet_addr_pton (some p) (some n) =
    let (ok, n') = hex_loop ethernet_addr_len 0 [] p n in (ok, some n')

-- `"%02x:%02x:%02x:%02x:%02x:%02x"` of the bytes of `n`, in a buffer of `size` characters.
unfoldable pub ethernet_addr_text : List ℕ → List ℕ
ethernet_addr_text [] = []
ethernet_addr_text (b ∷ []) = print_hex2 b ++ []
ethernet_addr_text (b ∷ c ∷ bytes) = print_hex2 b ++ (colon ∷ ethernet_addr_text (c ∷ bytes))

unfoldable pub ethernet_addr_ntop : Option (List ℕ) → ℕ → Option (List ℕ)
ethernet_addr_ntop none size = none
ethernet_addr_ntop (some n) size =
    some (snprintf size (ethernet_addr_text (take ethernet_addr_len n)))

next_byte :
    (rounds index b : ℕ) (ep text n : List ℕ)
    → b < 256
    → (ltb index 5 && not (char_at text == colon)) ≡ false
    → read_digits 16 b text ≡ (b, text)
    → hex_loop (suc rounds) index ep (print_hex2 b ++ text) n
      ≡ hex_loop rounds (index + 1) text (drop 1 text) (set n index b)
unfolding hex_loop is_out_of_byte
next_byte rounds index b ep text n small sep stops =
    let read = strtol-print_hex2 b text small stops in
    let fits : ltb 255 (min b (2 ^ 63 - 1)) ≡ false = ground arith in
    let byte : u8 b ≡ b = omega arith in rw (hex_loop, read, fits, sep, byte) refl

-- A hardware address that is printed into the buffer that the program has for it is read back.
pub ethernet_addr_pton-ntop :
    (a b c d e f u v w x y z : ℕ)
    → All (λ k. k < 256) (a ∷ b ∷ c ∷ d ∷ e ∷ f ∷ [])
    → ethernet_addr_pton
        (ethernet_addr_ntop (some (a ∷ b ∷ c ∷ d ∷ e ∷ f ∷ [])) ethernet_addr_str_len)
        (some (u ∷ v ∷ w ∷ x ∷ y ∷ z ∷ []))
      ≡ (true, some (a ∷ b ∷ c ∷ d ∷ e ∷ f ∷ []))
unfolding ethernet_addr_pton ethernet_addr_ntop ethernet_addr_text snprintf read_digits digit_value
    hex_loop
ethernet_addr_pton-ntop a b c d e f u v w x y z (ha, (hb, (hc, (hd, (he, (hf, _)))))) =
    let t5 = print_hex2 f ++ [] in
    let t4 = print_hex2 e ++ (colon ∷ t5) in
    let t3 = print_hex2 d ++ (colon ∷ t4) in
    let t2 = print_hex2 c ++ (colon ∷ t3) in
    let t1 = print_hex2 b ++ (colon ∷ t2) in
    let t0 = print_hex2 a ++ (colon ∷ t1) in
    let short : length t0 ≤ 17 = omega (
      arith,
      length-append (print_hex2 a) (colon ∷ t1),
      length-append (print_hex2 b) (colon ∷ t2),
      length-append (print_hex2 c) (colon ∷ t3),
      length-append (print_hex2 d) (colon ∷ t4),
      length-append (print_hex2 e) (colon ∷ t5),
      length-append (print_hex2 f) [],
      print_hex2-length a ha,
      print_hex2-length b hb,
      print_hex2-length c hc,
      print_hex2-length d hd,
      print_hex2-length e he,
      print_hex2-length f hf,
    ) in
    let loop : hex_loop 6 0 [] (take 17 t0) (u ∷ v ∷ w ∷ x ∷ y ∷ z ∷ [])
        ≡ (true, a ∷ b ∷ c ∷ d ∷ e ∷ f ∷ []) =
      ap (λ t. hex_loop 6 0 [] t (u ∷ v ∷ w ∷ x ∷ y ∷ z ∷ [])) (take_all 17 t0 short)
      ∙ next_byte 5 0 a [] (colon ∷ t1) (u ∷ v ∷ w ∷ x ∷ y ∷ z ∷ []) ha refl refl
      ∙ next_byte 4 1 b (colon ∷ t1) (colon ∷ t2) (a ∷ v ∷ w ∷ x ∷ y ∷ z ∷ []) hb refl refl
      ∙ next_byte 3 2 c (colon ∷ t2) (colon ∷ t3) (a ∷ b ∷ w ∷ x ∷ y ∷ z ∷ []) hc refl refl
      ∙ next_byte 2 3 d (colon ∷ t3) (colon ∷ t4) (a ∷ b ∷ c ∷ x ∷ y ∷ z ∷ []) hd refl refl
      ∙ next_byte 1 4 e (colon ∷ t4) (colon ∷ t5) (a ∷ b ∷ c ∷ d ∷ y ∷ z ∷ []) he refl refl
      ∙ next_byte 0 5 f (colon ∷ t5) [] (a ∷ b ∷ c ∷ d ∷ e ∷ z ∷ []) hf refl refl in
    ap (λ (r : Bool × List ℕ). (r.0, some r.1)) loop
