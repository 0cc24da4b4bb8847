-- ===== src/Tests/Data.antt =====
-- Two hosts on one Ethernet, 192.168.33.11 and 192.168.33.10, as in the tests of the repository.
use protocol_stack.Base.{ℕ, List, [], ◌∷◌, some, replicate}
use protocol_stack.Net.{Netif, Netdev, NetdevDef}

abbrev pub ethernet : NetdevDef
ethernet = record { type = 1; mtu = 1500; flags = 1; hlen = 14; alen = 6; ops = 0 }

abbrev pub netif_a : Netif
netif_a = record {
  id = 100;
  family = 2;
  dev = some 1;
  unicast = 0x0b21a8c0;
  netmask = 0x0000ffff;
  network = 0x0000a8c0;
  broadcast = 0xffffa8c0;
}

abbrev pub netif_b : Netif
netif_b = record {
  id = 200;
  family = 2;
  dev = some 2;
  unicast = 0x0a21a8c0;
  netmask = 0x0000ffff;
  network = 0x0000a8c0;
  broadcast = 0xffffa8c0;
}

abbrev pub dev_a : Netdev
dev_a = record {
  id = 1;
  ifs = netif_a ∷ [];
  driver = ethernet;
  addr = 2 ∷ 0 ∷ 0 ∷ 0 ∷ 0 ∷ 11 ∷ [];
  broadcast = replicate 6 255;
}

abbrev pub dev_b : Netdev
dev_b = record {
  id = 2;
  ifs = netif_b ∷ [];
  driver = ethernet;
  addr = 2 ∷ 0 ∷ 0 ∷ 0 ∷ 0 ∷ 10 ∷ [];
  broadcast = replicate 6 255;
}

abbrev pub hello : List ℕ
hello = b'h' ∷ b'e' ∷ b'l' ∷ b'l' ∷ b'o' ∷ []
