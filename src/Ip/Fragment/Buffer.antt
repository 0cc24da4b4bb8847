-- ===== src/Ip/Fragment/Buffer.antt =====
-- ip.c: the buffer of an object of reassembly.
use native.Mathlib.Nat.{suc-add, zero-add}
use protocol_stack.Ip.Fragment.Process.{write_at}
use protocol_stack.Base.{
  refl, zero, [], inr, inl, ap, length-append, length-drop, length-take, ◌∷◌, ◌⊎◌, suc, ltb, ◌-◌,
  arith, if◌then◌else◌, ◌≤◌, ◌≡◌, drop, take, ◌++◌, ◌+◌, length, ◌<◌, get_or, List, ℕ,
}

get_or-append :
    (xs ys : List ℕ) (k : ℕ)
    → get_or (xs ++ ys) k 0
      ≡ (if ltb k (length xs) then get_or xs k 0 else get_or ys (k - length xs) 0)
get_or-append [] ys k = ground arith
get_or-append (x ∷ xs) ys zero = ground arith
get_or-append (x ∷ xs) ys (suc k) = ground (arith, get_or-append xs ys k)

pub get_or-take : (n : ℕ) (xs : List ℕ) (k : ℕ) → k < n → get_or (take n xs) k 0 ≡ get_or xs k 0
get_or-take zero xs k h = absurd (omega arith)
get_or-take (suc n) [] k h = refl
get_or-take (suc n) (x ∷ xs) zero h = refl
get_or-take (suc n) (x ∷ xs) (suc k) h = get_or-take n xs k (omega arith)

pub get_or-drop : (n : ℕ) (xs : List ℕ) (k : ℕ) → get_or (drop n xs) k 0 ≡ get_or xs (n + k) 0
get_or-drop zero xs k = rw zero-add
get_or-drop (suc n) [] k = refl
get_or-drop (suc n) (x ∷ xs) k = rw suc-add (get_or-drop n xs k)

pub get_or_ext :
    (xs ys : List ℕ)
    → length xs ≡ length ys
    → ((k : ℕ) → k < length ys → get_or xs k 0 ≡ get_or ys k 0)
    → xs ≡ ys
get_or_ext [] [] size same = refl
get_or_ext [] (y ∷ ys) size same = absurd (omega arith)
get_or_ext (x ∷ xs) [] size same = absurd (omega arith)
get_or_ext (x ∷ xs) (y ∷ ys) size same =
    let head : x ≡ y = same 0 (omega arith) in
    rw head (ap (◌∷◌ y) (get_or_ext xs ys (omega arith) (λ k h. same (suc k) (omega arith))))

-- A copy into the buffer keeps its size, puts the new bytes in their place and keeps the others.
pub write_at_lem :
    (off : ℕ) (new old : List ℕ)
    → off + length new ≤ length old
    → (length (write_at off new old) ≡ length old)
      × ((k : ℕ)
          → off ≤ k
          → k < off + length new
          → get_or (write_at off new old) k 0 ≡ get_or new (k - off) 0)
      × ((k : ℕ)
          → (k < off) ⊎ (off + length new ≤ k)
          → get_or (write_at off new old) k 0 ≡ get_or old k 0)
unfolding write_at
write_at_lem off new old room =
    let front : length (take off old) ≡ off = omega (arith, length-take off old) in
    let back = length-drop (off + length new) old in
    let split = get_or-append (take off old) (new ++ drop (off + length new) old) in
    let rest = get_or-append new (drop (off + length new) old) in
    (
      omega (
        arith,
        front,
        back,
        length-append (take off old) (new ++ drop (off + length new) old),
        length-append new (drop (off + length new) old),
      ),
      λ k low high.
          ground
            (arith, split k, rest (k - off), ap (λ (i : ℕ). get_or new (k - i) 0) front, front),
      λ k out. elim out [
        | inl below ↦ ground (arith, split k, front, get_or-take off old k below)
        | inr above ↦
            let past = get_or-drop (off + length new) old (k - off - length new) in
            let index : off + length new + (k - off - length new) ≡ k = omega arith in
            ground
              (arith, split k, front, rest (k - off), past, ap (λ (i : ℕ). get_or old i 0) index)
      ],
    )
