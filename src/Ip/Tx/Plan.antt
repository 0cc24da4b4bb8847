-- ===== src/Ip/Tx/Plan.antt =====
-- ip.c: the fragments that `ip_tx` cuts, as a list, and that they are the payload.
use protocol_stack.Base.Bits.{bit_or_fields, bit_and_mask}
use Prim.Native.Nat.{min}
use protocol_stack.Base.Bits.{◌>>>◌}
use mathlib.Core.Path.{fun_ext}
use native.Mathlib.Nat.{zero-add, suc-add}
use protocol_stack.Base.{
  take-append-drop, ◌∙◌, sym, ℕ, zero, suc, ◌+◌, ◌-◌, ◌*◌, ◌/◌, ◌%◌, ◌^◌, ◌<◌, ◌≡◌, ◌≤◌, refl, ap,
  arith, List, [], ◌∷◌, ◌++◌, take, drop, length, ltb, if◌then◌else◌, Bool-cases, inl, inr, All,
}
use protocol_stack.Ip.Tx.{Sent, IpTx, complete, next_round, fragment_offset, ip_tx_loop}

pub record Piece : Type 0 where
  pub pos : ℕ
  pub size : ℕ

-- Full pieces while there is more, and the rest.
unfoldable pub pieces : ℕ → ℕ → ℕ → ℕ → List Piece
pieces zero step len done = []
pieces (suc fuel) step len done =
    let size = min (len - done) step in
    let rest = record { pos = done; size = size } ∷ pieces fuel step len (done + size) in
    if ltb done len then rest else []

abbrev pub piece_bytes : List ℕ → Piece → List ℕ
piece_bytes buf p = take p.size (drop p.pos buf)

abbrev pub joined : List ℕ → List Piece → List ℕ
joined buf [] = []
joined buf (p ∷ ps) = piece_bytes buf p ++ joined buf ps

-- Sends the pieces one by one, until one fails.
unfoldable pub send_pieces :
    {S : Type 0} → (List ℕ → ℕ → S → Sent × S) → List ℕ → List Piece → S → IpTx × S
send_pieces send buf [] s = (complete, s)
send_pieces send buf (p ∷ ps) s =
    next_round (send (piece_bytes buf p) (fragment_offset (length buf) p.pos p.size) s)
      (λ s'. send_pieces send buf ps s')

-- A piece is in the payload, fits the packet, starts at a multiple of 8, and its offset field holds that
-- multiple, and the flag 0x2000 unless it ends the payload.
pub record IsPiece (step len : ℕ) (p : Piece) : Type 0 where
  pub nonempty : 0 < p.size
  pub within : p.pos + p.size ≤ len
  pub fits : p.size ≤ step
  pub aligned : p.pos ≡ fragment_offset len p.pos p.size % 8192 * 8
  pub flag : fragment_offset len p.pos p.size / 8192 ≡ (if ltb (p.pos + p.size) len then 1 else 0)

pub fragment_offset_lem :
    (len done slen : ℕ)
    → done < 65536
    → fragment_offset len done slen ≡ (if ltb (done + slen) len then 8192 else 0) + done / 8
unfolding fragment_offset
fragment_offset_lem len done slen h = elim (Bool-cases (ltb (done + slen) len)) [
  | inl more ↦
      rw (more, bit_and_mask 13 (done >>> 3))
        (omega (arith, bit_or_fields 13 1 (done / 8 % 2 ^ 13) (omega arith)))
  | inr last ↦
      rw (last, bit_and_mask 13 (done >>> 3))
        (omega (arith, bit_or_fields 13 0 (done / 8 % 2 ^ 13) (omega arith)))
]

drop_all : (n : ℕ) (xs : List ℕ) → length xs ≤ n → drop n xs ≡ []
drop_all zero [] h = refl
drop_all zero (x ∷ xs) h = absurd (omega arith)
drop_all (suc n) [] h = refl
drop_all (suc n) (x ∷ xs) h = drop_all n xs (omega arith)

drop-drop : (n k : ℕ) (xs : List ℕ) → drop k (drop n xs) ≡ drop (n + k) xs
drop-drop zero k xs = rw zero-add
drop-drop (suc n) k [] = rw suc-add (drop_all k [] (omega arith))
drop-drop (suc n) k (x ∷ xs) = rw suc-add (drop-drop n k xs)

module _ (step : ℕ) (pos : 0 < step) where
  pub pieces-joined :
      (fuel : ℕ) (buf : List ℕ) (done : ℕ)
      → length buf < fuel + done
      → joined buf (pieces fuel step (length buf) done) ≡ drop done buf
  unfolding pieces
  pieces-joined zero buf done h = sym (drop_all done buf (omega arith))
  pieces-joined (suc fuel) buf done h =
      let size = min (length buf - done) step in
      elim (Bool-cases (ltb done (length buf))) [
        | inl more ↦
            let inside : done < length buf = ground arith in
            rw more (
              ap (◌++◌ (take size (drop done buf)))
                (pieces-joined fuel buf (done + size) (omega arith) ∙ sym (drop-drop done size buf))
              ∙ take-append-drop size (drop done buf))
        | inr over ↦
            let outside : length buf ≤ done = ground arith in
            rw over (sym (drop_all done buf outside))
      ]

  -- The loop ends by its test, and does what sending the pieces one by one does.
  pub ip_tx_loop-send_pieces :
      {S : Type 0} (send : List ℕ → ℕ → S → Sent × S) (fuel : ℕ) (buf : List ℕ) (done : ℕ) (s : S)
      → length buf - done < fuel
      → ip_tx_loop send step buf fuel done s
        ≡ send_pieces send buf (pieces fuel step (length buf) done) s
  unfolding ip_tx_loop send_pieces pieces
  ip_tx_loop-send_pieces send zero buf done s h = absurd (omega arith)
  ip_tx_loop-send_pieces send (suc fuel) buf done s h =
      let size = min (length buf - done) step in
      elim (Bool-cases (ltb done (length buf))) [
        | inl more ↦
            let inside : done < length buf = ground arith in
            rw more (
              ap
                (next_round
                  (send (take size (drop done buf)) (fragment_offset (length buf) done size) s))
                (fun_ext
                  (λ s'. ip_tx_loop-send_pieces send fuel buf (done + size) s' (omega arith))))
        | inr over ↦ rw over refl
      ]

  pub pieces-IsPiece :
      (fuel len done : ℕ)
      → step % 8 ≡ 0
      → len ≤ 65536
      → (done < len → done % 8 ≡ 0)
      → All (IsPiece step len) (pieces fuel step len done)
  unfolding pieces
  pieces-IsPiece zero len done whole small aligned = tt
  pieces-IsPiece (suc fuel) len done whole small aligned =
      let size = min (len - done) step in
      elim (Bool-cases (ltb done len)) [
        | inl more ↦
            let inside : done < len = ground arith in
            let field = fragment_offset_lem len done size (omega arith) in
            rw more (
              record {
                nonempty = omega arith;
                within = omega arith;
                fits = omega arith;
                aligned = ground (arith, aligned inside, field);
                flag = ground (arith, aligned inside, field);
              },
              pieces-IsPiece fuel len (done + size) whole small
                  (λ inside'. omega (arith, aligned inside)),
            )
        | inr over ↦ rw over tt
      ]
