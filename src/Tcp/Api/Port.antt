-- ===== src/Tcp/Api/Port.antt =====
-- tcp.c: the search of a port in `tcp_api_connect` always finds one.
use protocol_stack.Base.{
  ℕ, zero, suc, ◌+◌, ◌-◌, ◌%◌, ◌^◌, ◌<◌, ◌≤◌, ◌≡◌, ◌≢◌, ◌⊎◌, inl, inr, refl, sym, ap, ◌∙◌, arith,
  Bool, true, false, ◌||◌, List, [], ◌∷◌, ◌==◌, length, u16, if◌then◌else◌, Bool-cases,
}
use protocol_stack.Util.ByteOrder.{Endian, hton16, ntoh16}
use protocol_stack.Util.ByteOrder.Laws.{ntoh16-hton16}
use protocol_stack.Tcp.Cb.{TcpCb}
use protocol_stack.Tcp.Api.{is_port_used, port_loop, choose_port}

is_member : ℕ → List ℕ → Bool
is_member x [] = false
is_member x (y ∷ ys) = (y == x) || is_member x ys

erase : ℕ → List ℕ → List ℕ
erase x [] = []
erase x (y ∷ ys) = if y == x then ys else (y ∷ erase x ys)

length-erase : (x : ℕ) (ys : List ℕ) → is_member x ys ≡ true → length ys ≡ suc (length (erase x ys))
unfolding is_member erase
length-erase x [] h = absurd (cc)
length-erase x (y ∷ ys) h = ground (arith, length-erase x ys)

is_member-erase :
    (x z : ℕ) (ys : List ℕ) → z ≢ x → is_member z ys ≡ true → is_member z (erase x ys) ≡ true
unfolding is_member erase
is_member-erase x z [] ne h = h
is_member-erase x z (y ∷ ys) ne h = ground (arith, is_member-erase x z ys ne)

hton16-injective :
    (m : Endian) (a b : ℕ) → a < 2 ^ 16 → b < 2 ^ 16 → hton16 m a ≡ hton16 m b → a ≡ b
hton16-injective m a b ha hb e = sym (ntoh16-hton16 m a ha) ∙ ap (ntoh16 m) e ∙ ntoh16-hton16 m b hb

-- If `n` ports in a row are all in a list, the list has `n` elements.
n_ports_le :
    (m : Endian) (n i : ℕ) (ports : List ℕ)
    → i + n ≤ 2 ^ 16
    → ((k : ℕ) → i ≤ k → k < i + n → is_member (hton16 m k) ports ≡ true)
    → n ≤ length ports
n_ports_le m zero i ports room h = omega arith
n_ports_le m (suc n) i ports room h =
    let here = h i (omega arith) (omega arith) in
    let rest = n_ports_le m n (suc i) (erase (hton16 m i) ports) (omega arith) (λ k low high.
      is_member-erase (hton16 m i) (hton16 m k) ports
        (λ e. let same = hton16-injective m k i (omega arith) (omega arith) e in omega arith)
        (h k (omega arith) (omega arith))) in
    omega (arith, rest, length-erase (hton16 m i) ports here)

used_ports : List TcpCb → List ℕ
used_ports [] = []
used_ports (cb ∷ rest) = if cb.used then (cb.port ∷ used_ports rest) else used_ports rest

length-used_ports : (table : List TcpCb) → length (used_ports table) ≤ length table
unfolding used_ports
length-used_ports [] = omega arith
length-used_ports (cb ∷ rest) = ground (arith, length-used_ports rest)

is_port_used-is_member :
    (port : ℕ) (table : List TcpCb) → is_port_used port table ≡ is_member port (used_ports table)
unfolding is_port_used used_ports is_member
is_port_used-is_member port [] = refl
is_port_used-is_member port (cb ∷ rest) = ground (arith, is_port_used-is_member port rest)

-- The port is one of `fuel` numbers from `i` on, in network order, and no block in use has it.
pub record IsFresh (m : Endian) (table : List TcpCb) (i fuel port : ℕ) : Type 0 where
  pub number : ℕ
  pub above : i ≤ number
  pub below : number < i + fuel
  pub network_order : port ≡ hton16 m number
  pub unused : is_port_used port table ≡ false

port_loop_lem :
    (m : Endian) (table : List TcpCb) (fuel i : ℕ)
    → i + fuel ≤ 2 ^ 16
    → ((k : ℕ) → i ≤ k → k < i + fuel → is_port_used (hton16 m k) table ≡ true)
      ⊎ IsFresh m table i fuel (port_loop m table fuel i)
unfolding port_loop
port_loop_lem m table zero i room = inl (λ k low high. absurd (omega arith))
port_loop_lem m table (suc fuel) i room =
    let narrow : u16 i ≡ i = omega arith in
    rw narrow (elim (Bool-cases (is_port_used (hton16 m i) table)) [
      | inr free ↦ rw free (
          inr (record {
            number = i;
            above = omega arith;
            below = omega arith;
            network_order = refl;
            unused = free;
          }))
      | inl taken ↦ rw taken (elim (port_loop_lem m table fuel (suc i) (omega arith)) [
        | inl all ↦ inl (λ k low high. elim (cases k low) [
          | inl e ↦ ap (λ (j : ℕ). is_port_used (hton16 m j) table) e ∙ taken
          | inr more ↦ all k more (omega arith)
        ])
        | inr fresh ↦ inr (record {
          number = fresh.number;
          above = omega (arith, fresh.above);
          below = omega (arith, fresh.below);
          network_order = fresh.network_order;
          unused = fresh.unused;
        })
      ])
    ])
  where
    cases : (k : ℕ) → i ≤ k → (k ≡ i) ⊎ (suc i ≤ k)
    cases k low = ground arith

-- With up to 15361 blocks, and the source has 128, a block without a port always gets one: a number from
-- 49152 to 65535, in network order, that no block in use has.
pub choose_port-IsFresh :
    (m : Endian) (table : List TcpCb) (time : ℕ)
    → length table < 15361
    → IsFresh m table 49152 16384 (choose_port m table 0 time)
unfolding choose_port
choose_port-IsFresh m table time small =
    let first = 49152 + time % 1024 in
    let fuel = 65536 - first in
    elim (port_loop_lem m table fuel first (omega arith)) [
      | inr fresh ↦ record {
        number = fresh.number;
        above = omega (arith, fresh.above);
        below = omega (arith, fresh.below);
        network_order = fresh.network_order;
        unused = fresh.unused;
      }
      | inl all ↦
          let many =
            n_ports_le m fuel first (used_ports table) (omega arith)
              (λ k low high. sym (is_port_used-is_member (hton16 m k) table) ∙ all k low high) in
          absurd (omega (arith, many, length-used_ports table))
    ]
