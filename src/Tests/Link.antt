-- ===== src/Tests/Link.antt =====
-- net.c and ethernet.c at concrete inputs.
use protocol_stack.Util.ByteOrder.{hton16, store16, little}
use protocol_stack.Base.{
  ℕ, ◌+◌, ◌≡◌, ◌≢◌, refl, arith, List, [], ◌∷◌, ◌++◌, some, none, length, replicate, ◌≤◌,
}
use protocol_stack.Base.Registry.{find}
use protocol_stack.Net.{
  netdev_alloc, netdev_driver_register, Netdev, netdev_get_netif, netdev_add_netif,
  netdev_rx_handler, NetdevProto,
}
use protocol_stack.Net.Laws.{netdev_rx_handler-find, netdev_get_netif-add, netdev_alloc-register}
use protocol_stack.Ethernet.{ethernet_frame, ethernet_rx}
use protocol_stack.Ethernet.Laws.{ethernet_rx-frame, IsAddressed}
use protocol_stack.Tests.Data.{dev_a, dev_b, netif_b, ethernet, hello}

-- A state that counts the packets of two protocols.
abbrev pub counters : List (NetdevProto (ℕ × ℕ))
counters =
    record { type = 0x0800; handler = λ p d s. (s.0 + 1, s.1) }
    ∷ record { type = 0x0806; handler = λ p d s. (s.0, s.1 + 1) }
    ∷ []

abbrev arp_counter : NetdevProto (ℕ × ℕ)
arp_counter = record { type = 0x0806; handler = λ p d s. (s.0, s.1 + 1) }

netdev_rx_handler-find_runs :
    netdev_rx_handler little counters dev_a (hton16 little 0x0806) hello (0, 0) ≡ (0, 1)
netdev_rx_handler-find_runs =
    netdev_rx_handler-find little dev_a hello counters 0x0806 arp_counter (0, 0) (omega arith)
      (omega arith) (unfold find in (refl, (refl, tt))) (unfold find in refl)

abbrev bare : Netdev
bare = record dev_b { ifs = [] }

netdev_get_netif-add_runs :
    (netdev_get_netif dev_b 2 ≡ some netif_b)
    × ((family : ℕ) → family ≢ 2 → netdev_get_netif dev_b family ≡ netdev_get_netif bare family)
unfolding netdev_add_netif
netdev_get_netif-add_runs = netdev_get_netif-add bare dev_b netif_b refl

netdev_alloc-register_runs :
    netdev_alloc 1 (some 2) (2 ∷ 0 ∷ 0 ∷ 0 ∷ 0 ∷ 10 ∷ []) (replicate 6 255) (ethernet ∷ []) []
    ≡ some (bare, bare ∷ [])
unfolding netdev_driver_register
netdev_alloc-register_runs =
    netdev_alloc-register ethernet [] (ethernet ∷ []) [] 2 (2 ∷ 0 ∷ 0 ∷ 0 ∷ 0 ∷ 10 ∷ [])
      (replicate 6 255) refl

abbrev pub hello_frame : List ℕ
hello_frame = 2 ∷ 0 ∷ 0 ∷ 0 ∷ 0 ∷ 10 ∷ 2 ∷ 0 ∷ 0 ∷ 0 ∷ 0 ∷ 11 ∷ 8 ∷ 0 ∷ (hello ++ replicate 41 0)

pub ethernet_frame_runs :
    ethernet_frame little dev_a 0x0800 (some hello) (some dev_b.addr) ≡ some hello_frame
unfolding ethernet_frame store16 hton16
ethernet_frame_runs = refl

ethernet_rx-frame_example :
    (IsAddressed dev_b dev_b.addr
      → ethernet_rx little dev_b hello_frame ≡ some (hton16 little 0x0800, hello ++ replicate 41 0))
    × (¬ IsAddressed dev_b dev_b.addr → ethernet_rx little dev_b hello_frame ≡ none)
    × (60 ≤ length hello_frame)
    × (length hello_frame ≤ 1514)
ethernet_rx-frame_example =
    ethernet_rx-frame little dev_a dev_b 0x0800 hello dev_b.addr hello_frame (omega arith)
      (omega arith) (omega arith) ethernet_frame_runs
