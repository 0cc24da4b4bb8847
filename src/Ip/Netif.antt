-- ===== src/Ip/Netif.antt =====
-- ip.c: `ip_netif_by_addr` and `ip_netif_by_peer`. The static variable `default_netif` is an argument.
use mathlib.Core.Option.{some-injective}
use protocol_stack.Base.{
  ◌∙◌, Bool-cases, sym, subst, ℕ, ◌≡◌, ◌⊎◌, inl, inr, refl, Bool, true, false, ◌&&◌, List, [], ◌∷◌,
  Option, none, some, ◌==◌, if◌then◌else◌, get_elem?, suc, zero,
}
use protocol_stack.Net.{Netif, Netdev, netif_family_ipv4}

-- There is no routing table: the peer is not looked at.
unfoldable pub ip_netif_by_peer : Option Netif → ℕ → Option Netif
ip_netif_by_peer default_netif peer = default_netif

unfoldable pub has_addr : ℕ → Netif → Bool
has_addr addr entry = entry.family == netif_family_ipv4 && entry.unicast == addr

-- The inner loop, over the interfaces of one device; `rest` is what the outer loop finds after it.
unfoldable pub netif_loop : ℕ → List Netif → Option Netif → Option Netif
netif_loop addr [] rest = rest
netif_loop addr (entry ∷ ifs) rest =
    let next = netif_loop addr ifs rest in if has_addr addr entry then some entry else next

unfoldable pub ip_netif_by_addr : ℕ → List Netdev → Option Netif
ip_netif_by_addr addr [] = none
ip_netif_by_addr addr (dev ∷ devices) = netif_loop addr dev.ifs (ip_netif_by_addr addr devices)

-- The interface stands at `j` in the list of the device at `i`.
abbrev pub IsNetifAt : List Netdev → ℕ → ℕ → Netif → Type 0
IsNetifAt devices i j netif =
    (dev : Netdev) × (get_elem? devices i ≡ some dev) × (get_elem? dev.ifs j ≡ some netif)

abbrev IsOfList : ℕ → List Netif → Option Netif → Option Netif → Type 0
IsOfList addr ifs rest found =
    ((j : ℕ) × (netif : Netif) × (get_elem? ifs j ≡ some netif)
      × (has_addr addr netif ≡ true)
      × (found ≡ some netif))
    ⊎ (((j : ℕ) (netif : Netif) → get_elem? ifs j ≡ some netif → has_addr addr netif ≡ false)
        × (found ≡ rest))

netif_loop_lem :
    (addr : ℕ) (ifs : List Netif) (rest : Option Netif)
    → IsOfList addr ifs rest (netif_loop addr ifs rest)
unfolding netif_loop
netif_loop_lem addr [] rest = inr (λ j netif e. absurd (cc), refl)
netif_loop_lem addr (entry ∷ ifs) rest = elim (Bool-cases (has_addr addr entry)) [
  | inl here ↦ inl (0, entry, refl, here, rw (netif_loop, here) refl)
  | inr other ↦ elim (netif_loop_lem addr ifs rest) [
    | inl (j, netif, at, has, e) ↦ inl (suc j, netif, at, has, rw (netif_loop, other) e)
    | inr (lacks, e) ↦ inr (both other lacks, rw (netif_loop, other) e)
  ]
]
  where
    both :
        has_addr addr entry ≡ false
        → ((j : ℕ) (netif : Netif) → get_elem? ifs j ≡ some netif → has_addr addr netif ≡ false)
        → (j : ℕ) (netif : Netif) → get_elem? (entry ∷ ifs) j ≡ some netif
        → has_addr addr netif ≡ false
    both other lacks zero netif e =
        subst (λ n. has_addr addr n ≡ false) (some-injective _ _ e) other
    both other lacks (suc j) netif e = lacks j netif e

-- `ip_netif_by_addr` finds an IPv4 interface of some device that has the address, or nothing if no
-- device has one.
pub ip_netif_by_addr_lem :
    (addr : ℕ) (devices : List Netdev)
    → ((i j : ℕ) × (netif : Netif) × IsNetifAt devices i j netif
        × (has_addr addr netif ≡ true)
        × (ip_netif_by_addr addr devices ≡ some netif))
      ⊎ (((i j : ℕ) (netif : Netif) → IsNetifAt devices i j netif → has_addr addr netif ≡ false)
          × (ip_netif_by_addr addr devices ≡ none))
unfolding ip_netif_by_addr
ip_netif_by_addr_lem addr [] = inr (λ i j netif h. absurd (cc (h.1)), refl)
ip_netif_by_addr_lem addr (dev ∷ devices) =
    elim (netif_loop_lem addr dev.ifs (ip_netif_by_addr addr devices)) [
      | inl (j, netif, at, has, e) ↦ inl (0, j, netif, (dev, refl, at), has, e)
      | inr (lacks, e) ↦ elim (ip_netif_by_addr_lem addr devices) [
        | inl (i, j, netif, (d, there, at), has, found) ↦
            inl (suc i, j, netif, (d, there, at), has, e ∙ found)
        | inr (none_there, missing) ↦ inr (nowhere lacks none_there, e ∙ missing)
      ]
    ]
  where
    nowhere :
        ((j : ℕ) (netif : Netif) → get_elem? dev.ifs j ≡ some netif → has_addr addr netif ≡ false)
        → ((i j : ℕ) (netif : Netif) → IsNetifAt devices i j netif → has_addr addr netif ≡ false)
        → (i j : ℕ) (netif : Netif) → IsNetifAt (dev ∷ devices) i j netif
        → has_addr addr netif ≡ false
    nowhere lacks rest zero j netif (d, there, at) =
        lacks j netif (
          subst (λ (b : Netdev). get_elem? b.ifs j ≡ some netif) (sym (some-injective _ _ there))
            at)
    nowhere lacks rest (suc i) j netif (d, there, at) = rest i j netif (d, there, at)
