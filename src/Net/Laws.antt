-- ===== src/Net/Laws.antt =====
-- net.c: what registration keeps, and who gets a packet.
use protocol_stack.Base.{
  subst, ℕ, ◌^◌, ◌<◌, ◌≡◌, refl, ◌≢◌, arith, Bool, true, ◌↔◌, List, [], ◌∷◌, none, some, All,
}
use protocol_stack.Base.Registry.{find, IsDistinct, find-cons_self, find-cons_ne}
use protocol_stack.Util.ByteOrder.{Endian, hton16}
use protocol_stack.Util.ByteOrder.Laws.{ntoh16-hton16}
use protocol_stack.Net.{
  Netif, NetdevDef, Netdev, NetdevProto, netdev_driver_register, netdev_alloc, netdev_add_netif,
  netdev_get_netif, netdev_proto_register, netdev_rx_handler,
}

abbrev pub def_type : NetdevDef → ℕ
def_type d = d.type

abbrev pub proto_type : {S : Type 0} → NetdevProto S → ℕ
proto_type p = p.type

abbrev pub netif_family : Netif → ℕ
netif_family n = n.family

-- A device can be made of a registered type only, and then has its driver's parameters, no
-- interface, and stands first in the list of devices.
pub netdev_alloc-register :
    (def : NetdevDef) (drivers drivers' : List NetdevDef) (devices : List Netdev) (id : ℕ)
    (addr broadcast : List ℕ)
    → netdev_driver_register def true drivers ≡ some drivers'
    → netdev_alloc def.type (some id) addr broadcast drivers' devices
      ≡ some (
        record { id = id; ifs = []; driver = def; addr = addr; broadcast = broadcast },
        record { id = id; ifs = []; driver = def; addr = addr; broadcast = broadcast } ∷ devices,
      )
unfolding netdev_driver_register netdev_alloc
netdev_alloc-register def drivers drivers' devices id addr broadcast e =
    ground (arith, find-cons_self def_type def drivers)

-- A registered interface is the one found for its family; the others are found as before.
pub netdev_get_netif-add :
    (dev dev' : Netdev) (netif : Netif)
    → netdev_add_netif dev netif ≡ some dev'
    → (netdev_get_netif dev' netif.family ≡ some (record netif { dev = some dev.id }))
      × ((family : ℕ)
          → family ≢ netif.family
          → netdev_get_netif dev' family ≡ netdev_get_netif dev family)
unfolding netdev_add_netif netdev_get_netif
netdev_get_netif-add dev dev' netif e = (
  ground (arith, find-cons_self netif_family (record netif { dev = some dev.id }) dev.ifs),
  λ family ne.
      ground
        (arith, find-cons_ne netif_family (record netif { dev = some dev.id }) dev.ifs family ne),
)

-- A second registration of a type, or a second interface of a family on a device, is refused; any
-- other succeeds if there is memory.
pub registration_refused_iff :
    {S : Type 0} (def : NetdevDef) (drivers : List NetdevDef) (type : ℕ)
    (handler : List ℕ → Netdev → S → S) (protos : List (NetdevProto S)) (dev : Netdev)
    (netif : Netif)
    → ((netdev_driver_register def true drivers ≡ none) ↔ (find def_type def.type drivers ≢ none))
      × ((netdev_proto_register type handler true protos ≡ none)
          ↔ (find proto_type type protos ≢ none))
      × ((netdev_add_netif dev netif ≡ none) ↔ (netdev_get_netif dev netif.family ≢ none))
unfolding netdev_driver_register netdev_proto_register netdev_add_netif netdev_get_netif
registration_refused_iff def drivers type handler protos dev netif = ground arith

-- So types and families stay distinct, whatever is registered.
pub registration-IsDistinct :
    {S : Type 0} (def : NetdevDef) (drivers : List NetdevDef) (type : ℕ)
    (handler : List ℕ → Netdev → S → S) (protos : List (NetdevProto S)) (dev : Netdev)
    (netif : Netif) (malloc_ok : Bool) (drivers' : List NetdevDef) (protos' : List (NetdevProto S))
    (dev' : Netdev)
    → IsDistinct def_type drivers
    → IsDistinct proto_type protos
    → IsDistinct netif_family dev.ifs
    → (netdev_driver_register def malloc_ok drivers ≡ some drivers' → IsDistinct def_type drivers')
      × (netdev_proto_register type handler malloc_ok protos ≡ some protos'
          → IsDistinct proto_type protos')
      × (netdev_add_netif dev netif ≡ some dev' → IsDistinct netif_family dev'.ifs)
unfolding netdev_driver_register netdev_proto_register netdev_add_netif
registration-IsDistinct def drivers type handler protos dev netif malloc_ok drivers' protos' dev' a
      b c =
    (
      λ e.
          let new : (find def_type def.type drivers ≡ none) × (def ∷ drivers ≡ drivers') =
            ground arith in
          subst (IsDistinct def_type) new.1 (new.0, a),
      λ e.
          let new : (find proto_type type protos ≡ none)
              × (record { type = type; handler = handler } ∷ protos ≡ protos') =
            ground arith in
          subst (IsDistinct proto_type) new.1 (new.0, b),
      λ e.
          let new : (find netif_family netif.family dev.ifs ≡ none)
              × (record netif { dev = some dev.id } ∷ dev.ifs ≡ dev'.ifs) =
            ground arith in
          subst (IsDistinct netif_family) new.1 (new.0, c),
    )

hton16-injective :
    (m : Endian) (v w : ℕ) → v < 2 ^ 16 → w < 2 ^ 16 → hton16 m v ≡ hton16 m w → v ≡ w
hton16-injective m v w hv hw e = cc (ntoh16-hton16 m v hv, ntoh16-hton16 m w hw)

module _ {S : Type 0} (m : Endian) (dev : Netdev) (packet : List ℕ) where
  -- No entry of the list has the type: the packet is dropped.
  rx_handler_dropped :
      (protos : List (NetdevProto S)) (type : ℕ) (s : S)
      → type < 2 ^ 16
      → All (λ (p : NetdevProto S). p.type < 2 ^ 16) protos
      → find proto_type type protos ≡ none
      → netdev_rx_handler m protos dev (hton16 m type) packet s ≡ s
  unfolding netdev_rx_handler find
  rx_handler_dropped [] type s h small e = refl
  rx_handler_dropped (p ∷ protos) type s h small e =
      ground (
        arith,
        hton16-injective m p.type type small.0 h,
        rx_handler_dropped protos type s h small.1,
      )

  -- A packet whose Ethernet type is registered goes to that protocol's handler, once, and to no
  -- other; types are distinct and below 2 ^ 16.
  pub netdev_rx_handler-find :
      (protos : List (NetdevProto S)) (type : ℕ) (entry : NetdevProto S) (s : S)
      → type < 2 ^ 16
      → All (λ (p : NetdevProto S). p.type < 2 ^ 16) protos
      → IsDistinct proto_type protos
      → find proto_type type protos ≡ some entry
      → netdev_rx_handler m protos dev (hton16 m type) packet s ≡ entry.handler packet dev s
  unfolding netdev_rx_handler find
  netdev_rx_handler-find [] type entry s h small distinct e = absurd (cc)
  netdev_rx_handler-find (p ∷ protos) type entry s h small distinct e = ground (
    arith,
    hton16-injective m p.type type small.0 h,
    rx_handler_dropped protos type (p.handler packet dev s) h small.1,
    netdev_rx_handler-find protos type entry s h small.1 distinct.1,
  )
