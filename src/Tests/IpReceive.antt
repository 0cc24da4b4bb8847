-- ===== src/Tests/IpReceive.antt =====
-- ip.c at concrete inputs: a datagram in two fragments, the second first.
use protocol_stack.Ip.Tx.{resolve_found, Link}
use protocol_stack.Net.{Netdev}
use protocol_stack.Util.Mask.Words.{replicate-IsMask}
use protocol_stack.Ip.Receive.{rx_done}
use protocol_stack.Util.ByteOrder.{little}
use protocol_stack.Base.Registry.{find}
use protocol_stack.Ip.Protocol.{ip_dispatch, Delivery, IpProtocol}
use protocol_stack.Ip.Fragment.Starve.{ip_fragment_process-IsCounted, ip_fragment_store_lem}
use protocol_stack.Ip.Fragment.Count.{CountedResult}
use protocol_stack.Ip.Fragment.{ip_fragment_search, IpFragment}
use protocol_stack.Ip.Header.{IpHdr}
use protocol_stack.Ip.Tx.{fragment_offset}
use protocol_stack.Net.{netdev_get_netif}
use protocol_stack.Ip.Receive.Packets.{
  packets_of, IsCarried, Reaches, ip_rx_all, CarriesByte, Carried, Sender,
}
use protocol_stack.Ip.Receive.Datagrams.{ip_rx_all-ip_tx}
use protocol_stack.Base.{
  ◌≤◌, ◌⊎◌, take, arith, length-replicate, All, ◌≡◌, replicate, ◌++◌, ◌<◌, length, List, ◌∷◌, refl,
  inl, some, none, [], ℕ, ◌+◌,
}
use protocol_stack.Ip.Fragment.Process.{
  ip_fragment_store, fragment_off, ip_fragment_process, cleared_data, undefined, fault, stored,
  Chunk, Clock, Reassembly,
}
use protocol_stack.Tests.Data.{dev_a, dev_b, netif_a, netif_b, hello}

abbrev pub ten_bytes : List ℕ
ten_bytes = hello ++ hello

abbrev pub sender : Sender
sender = record {
  netif = netif_a;
  protocol = 255;
  src = some netif_a.unicast;
  dst = netif_b.unicast;
  id = 128;
}

-- A handler that keeps what it is given.
abbrev recorder : List (IpProtocol (List Delivery))
recorder = record { type = 255; handler = λ d s. d ∷ s } ∷ []

unfoldable pub garbage : List ℕ
garbage = replicate 2048 0xffffffff

pub garbage-length : length garbage ≡ 2048
unfolding garbage
garbage-length = length-replicate {A = ℕ} 2048 0xffffffff

abbrev pub memory : Chunk
memory = record { address = 7; old_mask = garbage; behind = 24576 }

abbrev pub at_100 : Clock
at_100 = record { tested = 100; patrolled_at = 100; stamped = 100 }

abbrev pub nothing : Reassembly
nothing = record { fragments = []; timestamp = 0; count = 0 }

abbrev pub second_piece : Carried
second_piece = record {
  piece = record { pos = 8; size = 2 };
  padding = 0 ∷ 0 ∷ [];
  clock = at_100;
  chunk = some memory;
}

abbrev first_piece : Carried
first_piece = record {
  piece = record { pos = 0; size = 8 };
  padding = [];
  clock = at_100;
  chunk = none;
}

sender-Reaches : Reaches sender dev_b netif_b
unfolding netdev_get_netif find
sender-Reaches = record {
  protocol = omega arith;
  id = omega arith;
  dst = omega arith;
  src = omega arith;
  interface = refl;
  to_n = inl refl;
}

pub pieces-IsCarried : All (IsCarried 8 10 100) (second_piece ∷ first_piece ∷ [])
unfolding fragment_offset
pieces-IsCarried = (
  record {
    piece = record {
      nonempty = omega arith;
      within = omega arith;
      fits = omega arith;
      aligned = refl;
      flag = refl;
    };
    after = omega arith;
    in_time = omega arith;
  },
  (
    record {
      piece = record {
        nonempty = omega arith;
        within = omega arith;
        fits = omega arith;
        aligned = refl;
        flag = refl;
      };
      after = omega arith;
      in_time = omega arith;
    },
    tt,
  ),
)

pieces_cover : (k : ℕ) → k < 10 → CarriesByte (second_piece ∷ first_piece ∷ []) k
pieces_cover k h = ground arith

abbrev pub first_hdr : IpHdr
first_hdr = record {
  vhl = 69;
  tos = 0;
  len = 0x1c00;
  id = 0x8000;
  offset = 0x20;
  ttl = 255;
  protocol = 255;
  sum = 0;
  src = netif_a.unicast;
  dst = netif_b.unicast;
}

abbrev pub object : IpFragment
object = record {
  address = 7;
  src = netif_a.unicast;
  dst = netif_b.unicast;
  id = 0x8000;
  protocol = 255;
  len = 0;
  bytes = cleared_data;
  mask = replicate 2048 0;
  timestamp = 100;
}

ip_rx_all-ip_tx_runs :
    (k plen : ℕ) × (payload : List ℕ) × (ip_rx_all little dev_b recorder
        (take k (packets_of little sender ten_bytes (second_piece ∷ first_piece ∷ [])))
        nothing
        []
      ≡ rx_done nothing (
          ip_dispatch recorder 255
            (record {
              payload = payload;
              plen = plen;
              src = netif_a.unicast;
              dst = netif_b.unicast;
              netif = netif_b;
            })
            []))
    × (take plen payload ≡ ten_bytes)
unfolding ip_fragment_search
ip_rx_all-ip_tx_runs =
    ip_rx_all-ip_tx little sender dev_b netif_b recorder 8 ten_bytes 100 sender-Reaches
      (omega arith) (omega arith) second_piece (first_piece ∷ []) memory nothing [] pieces-IsCarried
      pieces_cover refl (garbage-length, omega arith) tt (omega arith) refl

-- A device whose packets have at most 28 bytes.
abbrev narrow : Netdev
narrow = record dev_a { driver = record dev_a.driver { mtu = 28 } }

-- A link that keeps the packets, newest first.
abbrev link : Link (List (List ℕ))
link = record {
  resolve = λ dst packet s. (resolve_found (2 ∷ 0 ∷ 0 ∷ 0 ∷ 0 ∷ 10 ∷ []), s);
  tx = λ type packet ha s. (some (length packet), packet ∷ s);
}

ip_fragment_process-IsCounted_example :
    CountedResult 0 (ip_fragment_process little at_100 first_hdr ten_bytes 8 (some memory) nothing)
ip_fragment_process-IsCounted_example =
    ip_fragment_process-IsCounted little at_100 first_hdr ten_bytes 8 (some memory) nothing
      (record { covers = omega arith; bound = omega arith })

ip_fragment_store_lem_example :
    ((65535 < fragment_off little first_hdr + 8) ⊎ (10 < 8)
      → ip_fragment_store little first_hdr ten_bytes 8 100 object ≡ fault)
    × (fragment_off little first_hdr + 8 ≤ 65535
        → 8 ≤ 10
        → ((◌≡◌ {A = ℕ} 8 0 → ip_fragment_store little first_hdr ten_bytes 8 100 object ≡ undefined)
            × (0 < 8
                → (f' : IpFragment) × (ip_fragment_store little first_hdr ten_bytes 8 100 object
                    ≡ stored f'))))
ip_fragment_store_lem_example =
    ip_fragment_store_lem little first_hdr ten_bytes 8 100 object (replicate-IsMask 2048)
      (length-replicate {A = ℕ} 2048 0)
