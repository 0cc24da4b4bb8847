-- ===== src/Arp/Message/RoundTrip.antt =====
-- arp.c: a message that is written is read back.
use protocol_stack.Base.{
  sym, length-take, subst, ℕ, ◌+◌, ◌^◌, ◌<◌, ◌≡◌, ◌≤◌, refl, arith, List, [], ◌∷◌, ◌++◌, length,
}
use protocol_stack.Util.ByteOrder.{Endian, little, big, load16, load32, store16, store32}
use protocol_stack.Util.ByteOrder.Laws.{hton16-lt}
use protocol_stack.Net.{Netif, Netdev}
use protocol_stack.Arp.Message.{ArpMessage, write_message, read_message, own_message}

-- The fields fit their places.
pub record Fits (x : ArpMessage) : Type 0 where
  pub hrd : x.hrd < 2 ^ 16
  pub pro : x.pro < 2 ^ 16
  pub op : x.op < 2 ^ 16
  pub spa : x.spa < 2 ^ 32
  pub tpa : x.tpa < 2 ^ 32
  pub sha : length x.sha ≡ 6
  pub tha : length x.tha ≡ 6

-- A list of six.
pub six_of : (xs : List ℕ) → length xs ≡ 6 → (a b c d e f : ℕ) × (xs ≡ a ∷ b ∷ c ∷ d ∷ e ∷ f ∷ [])
six_of [] h = absurd (omega arith)
six_of (a ∷ []) h = absurd (omega arith)
six_of (a ∷ b ∷ []) h = absurd (omega arith)
six_of (a ∷ b ∷ c ∷ []) h = absurd (omega arith)
six_of (a ∷ b ∷ c ∷ d ∷ []) h = absurd (omega arith)
six_of (a ∷ b ∷ c ∷ d ∷ e ∷ []) h = absurd (omega arith)
six_of (a ∷ b ∷ c ∷ d ∷ e ∷ f ∷ []) h = (a, b, c, d, e, f, refl)
six_of (a ∷ b ∷ c ∷ d ∷ e ∷ f ∷ g ∷ xs) h = absurd (omega arith)

read-write_six :
    (m : Endian) (hrd pro hln pln op spa tpa a b c d e f a' b' c' d' e' f' : ℕ) (rest : List ℕ)
    → hrd < 2 ^ 16
    → pro < 2 ^ 16
    → op < 2 ^ 16
    → spa < 2 ^ 32
    → tpa < 2 ^ 32
    → let x : ArpMessage = record {
      hrd = hrd;
      pro = pro;
      hln = hln;
      pln = pln;
      op = op;
      sha = a ∷ b ∷ c ∷ d ∷ e ∷ f ∷ [];
      spa = spa;
      tha = a' ∷ b' ∷ c' ∷ d' ∷ e' ∷ f' ∷ [];
      tpa = tpa;
    } in
      read_message m (write_message m x ++ rest) ≡ x
unfolding read_message write_message store16 store32 load16 load32
read-write_six little hrd pro hln pln op spa tpa a b c d e f a' b' c' d' e' f' rest p q r s t =
    ground arith
read-write_six big hrd pro hln pln op spa tpa a b c d e f a' b' c' d' e' f' rest p q r s t =
    ground arith

length_six :
    (m : Endian) (hrd pro hln pln op spa tpa a b c d e f a' b' c' d' e' f' : ℕ) (rest : List ℕ)
    → let x : ArpMessage = record {
      hrd = hrd;
      pro = pro;
      hln = hln;
      pln = pln;
      op = op;
      sha = a ∷ b ∷ c ∷ d ∷ e ∷ f ∷ [];
      spa = spa;
      tha = a' ∷ b' ∷ c' ∷ d' ∷ e' ∷ f' ∷ [];
      tpa = tpa;
    } in
      length (write_message m x ++ rest) ≡ 28 + length rest
unfolding write_message store16 store32
length_six little hrd pro hln pln op spa tpa a b c d e f a' b' c' d' e' f' rest = omega arith
length_six big hrd pro hln pln op spa tpa a b c d e f a' b' c' d' e' f' rest = omega arith

read-write_parts :
    (m : Endian) (x : ArpMessage) (rest : List ℕ)
    → Fits x
    → (a b c d e f : ℕ) × (x.sha ≡ a ∷ b ∷ c ∷ d ∷ e ∷ f ∷ [])
    → (a b c d e f : ℕ) × (x.tha ≡ a ∷ b ∷ c ∷ d ∷ e ∷ f ∷ [])
    → (read_message m (write_message m x ++ rest) ≡ x)
      × (length (write_message m x ++ rest) ≡ 28 + length rest)
read-write_parts m x rest h (a, b, c, d, e, f, sha) (a', b', c', d', e', f', tha) =
    subst
      (λ (y : ArpMessage).
        (read_message m (write_message m y ++ rest) ≡ y)
        × (length (write_message m y ++ rest) ≡ 28 + length rest))
      (sym x_eq)
      (
        read-write_six m x.hrd x.pro x.hln x.pln x.op x.spa x.tpa a b c d e f a' b' c' d' e' f' rest
            h.hrd h.pro h.op h.spa h.tpa,
        length_six m x.hrd x.pro x.hln x.pln x.op x.spa x.tpa a b c d e f a' b' c' d' e' f' rest,
      )
  where
    x_eq : x ≡ record {
      hrd = x.hrd;
      pro = x.pro;
      hln = x.hln;
      pln = x.pln;
      op = x.op;
      sha = a ∷ b ∷ c ∷ d ∷ e ∷ f ∷ [];
      spa = x.spa;
      tha = a' ∷ b' ∷ c' ∷ d' ∷ e' ∷ f' ∷ [];
      tpa = x.tpa;
    }
    x_eq = ground arith

-- Whatever follows a message in the packet, `read_message` reads what `write_message` wrote, in 28 bytes.
pub read-write :
    (m : Endian) (x : ArpMessage) (rest : List ℕ)
    → Fits x
    → (read_message m (write_message m x ++ rest) ≡ x)
      × (length (write_message m x ++ rest) ≡ 28 + length rest)
read-write m x rest h = read-write_parts m x rest h (six_of x.sha h.sha) (six_of x.tha h.tha)

pub own-Fits :
    (m : Endian) (dev : Netdev) (netif : Netif) (op : ℕ) (tha : List ℕ) (tpa : ℕ)
    → op < 2 ^ 16
    → netif.unicast < 2 ^ 32
    → tpa < 2 ^ 32
    → 6 ≤ length dev.addr
    → length tha ≡ 6
    → Fits (own_message m dev netif op tha tpa)
unfolding own_message
own-Fits m dev netif op tha tpa ho hs ht ha hl = record {
  hrd = hton16-lt m 1 (omega arith);
  pro = hton16-lt m 0x0800 (omega arith);
  op = hton16-lt m op ho;
  spa = hs;
  tpa = ht;
  sha = omega (arith, length-take 6 dev.addr);
  tha = hl;
}
