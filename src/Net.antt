-- ===== src/Net.antt =====
-- net.h and net.c: the lists of drivers, protocols, devices and interfaces. Each list is a value
-- that a call takes and returns; whether `malloc` succeeds is an argument.
pub mod Laws
use protocol_stack.Base.{ℕ, ◌≡◌, Bool, List, [], ◌∷◌, Option, none, some, ◌==◌, if◌then◌else◌}
use protocol_stack.Base.Registry.{find}
use protocol_stack.Util.ByteOrder.{Endian, hton16}

abbrev pub netif_family_ipv4 : ℕ
netif_family_ipv4 = 0x02

abbrev pub netdev_flag_noarp : ℕ
netdev_flag_noarp = 0x0010

-- `struct netif` with the rest of `struct netif_ip`, which is the only kind of interface. `id` is
-- its address in memory, by which the program compares interfaces; `dev` is the device's.
pub record Netif : Type 0 where
  pub id : ℕ
  pub family : ℕ
  pub dev : Option ℕ
  pub unicast : ℕ
  pub netmask : ℕ
  pub network : ℕ
  pub broadcast : ℕ

pub record NetdevDef : Type 0 where
  pub type : ℕ
  pub mtu : ℕ
  pub flags : ℕ
  pub hlen : ℕ
  pub alen : ℕ
  pub ops : ℕ

-- `struct netdev`; `id` is its address. The driver's fields are those of its definition.
pub record Netdev : Type 0 where
  pub id : ℕ
  pub ifs : List Netif
  pub driver : NetdevDef
  pub addr : List ℕ
  pub broadcast : List ℕ

unfoldable pub netdev_driver_register : NetdevDef → Bool → List NetdevDef → Option (List NetdevDef)
unfolding find
netdev_driver_register def malloc_ok drivers =
    elim (find (λ (d : NetdevDef). d.type) def.type drivers) [
      | some _ ↦ none
      | none ↦ if malloc_ok then some (def ∷ drivers) else none
    ]

-- What `malloc` returns is not cleared: `addr` and `broadcast` hold what was there.
unfoldable pub netdev_alloc :
    ℕ → Option ℕ → List ℕ → List ℕ → List NetdevDef → List Netdev → Option (Netdev × List Netdev)
unfolding find
netdev_alloc type fresh addr broadcast drivers devices =
    elim (find (λ (d : NetdevDef). d.type) type drivers) [
      | none ↦ none
      | some driver ↦ elim fresh [
        | none ↦ none
        | some id ↦
            let dev : Netdev = record {
              id = id;
              ifs = [];
              driver = driver;
              addr = addr;
              broadcast = broadcast;
            } in
            some (dev, dev ∷ devices)
      ]
    ]

unfoldable pub netdev_add_netif : Netdev → Netif → Option Netdev
unfolding find
netdev_add_netif dev netif = elim (find (λ (n : Netif). n.family) netif.family dev.ifs) [
  | some _ ↦ none
  | none ↦ some (record dev { ifs = record netif { dev = some dev.id } ∷ dev.ifs })
]

unfoldable pub netdev_get_netif : Netdev → ℕ → Option Netif
unfolding find
netdev_get_netif dev family = find (λ (n : Netif). n.family) family dev.ifs

-- A handler acts on the state of the layers above.
pub record NetdevProto (S : Type 0) : Type 0 where
  pub type : ℕ
  pub handler : List ℕ → Netdev → S → S

module _ {S : Type 0} where
  unfoldable pub netdev_proto_register :
      ℕ → (List ℕ → Netdev → S → S) → Bool → List (NetdevProto S) → Option (List (NetdevProto S))
  unfolding find
  netdev_proto_register type handler malloc_ok protos =
      elim (find (λ (p : NetdevProto S). p.type) type protos) [
        | some _ ↦ none
        | none ↦
            if malloc_ok then some (record { type = type; handler = handler } ∷ protos) else none
      ]

  -- Every entry of the type is called, in the list's order.
  unfoldable pub netdev_rx_handler : Endian → List (NetdevProto S) → Netdev → ℕ → List ℕ → S → S
  netdev_rx_handler m [] dev type packet s = s
  netdev_rx_handler m (entry ∷ rest) dev type packet s =
      netdev_rx_handler m rest dev type packet
        (if hton16 m entry.type == type then entry.handler packet dev s else s)
