-- ===== src/Ip/Address.antt =====
-- ip.c: `ip_addr_pton` and `ip_addr_ntop`. An address is its four bytes, in the order of memory.
use protocol_stack.Util.Text.Laws.{strtol-print_decimal}
use protocol_stack.Util.Text.{
  digit_char, digit_value, read_digits, to_digits, strtol, snprintf, print_decimal, is_out_of_byte,
}
use Prim.Native.Nat.{min}
use protocol_stack.Base.{
  ◌∙◌, take_all, ◌%◌, ap, length-append, ◌-◌, ◌/◌, arith, ◌^◌, ltb, if◌then◌else◌, u8, ◌||◌, ◌≤◌,
  set, ◌&&◌, length, ◌≡◌, drop, ◌==◌, ◌<◌, ◌++◌, not, get_or, Bool, List, ◌∷◌, refl, suc, zero,
  false, true, some, none, [], ℕ, ◌+◌,
}

abbrev pub ip_addr_str_len : ℕ
ip_addr_str_len = 16

abbrev pub dot : ℕ
dot = 46

-- `*ep`, which is 0 at the end of the string.
abbrev char_at : List ℕ → ℕ
char_at text = get_or text 0 0

-- A separator, or the end of the string after the last number.
unfoldable pub is_separated : ℕ → ℕ → Bool
is_separated idx c = not ((idx == 3 && not (c == 0)) || (not (idx == 3) && not (c == dot)))

-- `for (idx = 0; idx < 4; idx++)`, with the rounds left; the result says whether 0 is returned, and what
-- is in `*n` then.
unfoldable pub pton_loop : ℕ → ℕ → List ℕ → List ℕ → Bool × List ℕ
pton_loop zero idx sp n = (true, n)
pton_loop (suc rounds) idx sp n = elim (strtol 10 sp) [
  | none ↦ (false, n)
  | some c ↦
      let rest = pton_loop rounds (idx + 1) (drop 1 c.rest) (set n idx (u8 c.magnitude)) in
      if is_out_of_byte c || not (is_separated idx (char_at c.rest)) then (false, n) else rest
]

unfoldable pub ip_addr_pton : List ℕ → List ℕ → Bool × List ℕ
ip_addr_pton p n = pton_loop 4 0 p n

-- `"%d.%d.%d.%d"` in a buffer of `size` characters.
unfoldable pub ip_addr_ntop : ℕ → ℕ → ℕ → ℕ → ℕ → List ℕ
ip_addr_ntop a b c d size = snprintf size (
    print_decimal a
    ++ (dot ∷ (print_decimal b ++ (dot ∷ (print_decimal c ++ (dot ∷ (print_decimal d ++ [])))))))

separated :
    (idx n : ℕ) (text : List ℕ) (bytes : List ℕ) (rounds : ℕ)
    → n < 256
    → is_separated idx (char_at text) ≡ true
    → read_digits 10 n text ≡ (n, text)
    → pton_loop (suc rounds) idx (print_decimal n ++ text) bytes
      ≡ pton_loop rounds (idx + 1) (drop 1 text) (set bytes idx n)
unfolding pton_loop is_out_of_byte
separated idx n text bytes rounds small sep stops =
    let read = strtol-print_decimal n text stops in
    let fits : ltb 255 (min n (2 ^ 63 - 1)) ≡ false = ground arith in
    let byte : u8 n ≡ n = omega arith in rw (pton_loop, read, fits, sep, byte) refl

digits_small : (fuel n : ℕ) → n < 10 → length (to_digits 10 fuel n) ≤ 1
unfolding to_digits
digits_small zero n h = omega arith
digits_small (suc fuel) n h = ground arith

digits_step :
    (fuel n k : ℕ)
    → ((fuel' : ℕ) → length (to_digits 10 fuel' (n / 10)) ≤ k)
    → 0 < k
    → length (to_digits 10 fuel n) ≤ k + 1
unfolding to_digits
digits_step zero n k front positive = omega arith
digits_step (suc fuel) n k front positive =
    ground
      (arith, front fuel, length-append (to_digits 10 fuel (n / 10)) (digit_char (n % 10) ∷ []))

print_decimal-length : (n : ℕ) → n < 256 → length (print_decimal n) ≤ 3
unfolding print_decimal
print_decimal-length n h =
    digits_step (suc n) n 2
      (λ f.
        digits_step f (n / 10) 1 (λ g. digits_small g (n / 10 / 10) (omega arith)) (omega arith))
      (omega arith)

-- An address that is printed into the buffer that the program has for it is read back.
pub ip_addr_pton-ntop :
    (a b c d w x y z : ℕ)
    → a < 256
    → b < 256
    → c < 256
    → d < 256
    → ip_addr_pton (ip_addr_ntop a b c d ip_addr_str_len) (w ∷ x ∷ y ∷ z ∷ [])
      ≡ (true, a ∷ b ∷ c ∷ d ∷ [])
unfolding ip_addr_pton ip_addr_ntop snprintf is_separated read_digits digit_value pton_loop
ip_addr_pton-ntop a b c d w x y z ha hb hc hd =
    let t3 = print_decimal d ++ [] in
    let t2 = print_decimal c ++ (dot ∷ t3) in
    let t1 = print_decimal b ++ (dot ∷ t2) in
    let t0 = print_decimal a ++ (dot ∷ t1) in
    let short : length t0 ≤ 15 = omega (
      arith,
      length-append (print_decimal a) (dot ∷ t1),
      length-append (print_decimal b) (dot ∷ t2),
      length-append (print_decimal c) (dot ∷ t3),
      length-append (print_decimal d) [],
      print_decimal-length a ha,
      print_decimal-length b hb,
      print_decimal-length c hc,
      print_decimal-length d hd,
    ) in
    ap (λ t. pton_loop 4 0 t (w ∷ x ∷ y ∷ z ∷ [])) (take_all 15 t0 short)
    ∙ separated 0 a (dot ∷ t1) (w ∷ x ∷ y ∷ z ∷ []) 3 ha refl refl
    ∙ separated 1 b (dot ∷ t2) (a ∷ x ∷ y ∷ z ∷ []) 2 hb refl refl
    ∙ separated 2 c (dot ∷ t3) (a ∷ b ∷ y ∷ z ∷ []) 1 hc refl refl
    ∙ separated 3 d [] (a ∷ b ∷ c ∷ z ∷ []) 0 hd refl refl
