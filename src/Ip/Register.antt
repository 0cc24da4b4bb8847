-- ===== src/Ip/Register.antt =====
-- ip.c: `ip_netif_register`. The static variable `default_netif` is an argument and a result.
use protocol_stack.Ip.Address.{ip_addr_pton}
use protocol_stack.Util.ByteOrder.{load32, Endian}
use protocol_stack.Net.{netif_family_ipv4, netdev_add_netif, Netdev, Netif}
use protocol_stack.Base.{
  ◌∷◌, bit_or, get_or, bit_and, ◌-◌, Option, List, false, true, some, none, ℕ,
}

-- What `malloc` returns: an address, and what the address fields hold there.
pub record NetifChunk : Type 0 where
  pub address : ℕ
  pub old_unicast : List ℕ
  pub old_netmask : List ℕ

-- A pointer to an interface. `freed` is one that is kept although its object is gone.
pub data NetifPointer : Type 0 where
  null : NetifPointer
  points : Netif → NetifPointer
  freed : NetifPointer

-- The value that is returned, and what the call leaves.
pub record Registered : Type 0 where
  pub returned : Option Netif
  pub dev : Netdev
  pub default_netif : NetifPointer

-- The number that the machine reads in four bytes.
unfoldable pub addr_value : Endian → List ℕ → ℕ
addr_value m n = load32 m (get_or n 0 0) (get_or n 1 0) (get_or n 2 0) (get_or n 3 0)

-- `~netmask` of 32 bits.
unfoldable pub complement : ℕ → ℕ
complement netmask = 0xffffffff - netmask

unfoldable pub new_netif : Endian → ℕ → List ℕ → List ℕ → Netif
new_netif m address unicast netmask =
    let ip = addr_value m unicast in
    let mask = addr_value m netmask in
    let net = bit_and ip mask in
    record {
      id = address;
      family = netif_family_ipv4;
      dev = none;
      unicast = ip;
      netmask = mask;
      network = net;
      broadcast = bit_or net (complement mask);
    }

-- `default_netif` is set before the interface is added; when that fails the interface is freed.
unfoldable pub add_default : Netdev → Netif → Registered
add_default dev iface = elim (netdev_add_netif dev iface) [
  | none ↦ record { returned = none; dev = dev; default_netif = freed }
  | some dev' ↦ record {
    returned = some (record iface { dev = some dev.id });
    dev = dev';
    default_netif = points (record iface { dev = some dev.id });
  }
]

-- The gateway is not looked at.
unfoldable pub ip_netif_register :
    Endian → Option NetifChunk → Netdev → List ℕ → List ℕ → List ℕ → NetifPointer → Registered
ip_netif_register m none dev addr netmask gateway default_netif = record {
  returned = none;
  dev = dev;
  default_netif = default_netif;
}
ip_netif_register m (some chunk) dev addr netmask gateway default_netif =
    let failed : Registered = record {
      returned = none;
      dev = dev;
      default_netif = default_netif;
    } in
    elim (ip_addr_pton addr chunk.old_unicast).0 [
      | false ↦ failed
      | true ↦ elim (ip_addr_pton netmask chunk.old_netmask).0 [
        | false ↦ failed
        | true ↦ add_default dev (
            new_netif m chunk.address (ip_addr_pton addr chunk.old_unicast).1
              (ip_addr_pton netmask chunk.old_netmask).1)
      ]
    ]

-- What a device without an IPv4 interface becomes.
abbrev on_device : Netdev → Netif → Netdev
on_device dev iface = record dev { ifs = record iface { dev = some dev.id } ∷ dev.ifs }
