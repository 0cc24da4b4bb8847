-- ===== src/Ip/Tx.antt =====
-- ip.c: `ip_tx` and what it calls. The layer below, `arp_resolve` and the device's `tx`, is an interface
-- over its state `S`; a call that waits in `arp_resolve` is seen here when it returns.
pub mod Plan
pub mod Laws
use Prim.Native.Nat.{min}
use protocol_stack.Base.{
  ℕ, zero, suc, ◌+◌, ◌-◌, ◌*◌, ◌/◌, ◌%◌, ◌^◌, Bool, true, false, not, ◌&&◌, List, [], ◌∷◌, ◌++◌,
  Option, none, some, ◌==◌, ltb, length, take, drop, bit_and, bit_or, u16, if◌then◌else◌,
}
use protocol_stack.Base.Bits.{◌<<<◌, ◌>>>◌}
use protocol_stack.Util.ByteOrder.{Endian, hton16}
use protocol_stack.Util.Checksum.{cksum16}
use protocol_stack.Net.{Netif, Netdev, NetdevDef, netdev_flag_noarp}
use protocol_stack.Ethernet.{ethernet_type_ip}
use protocol_stack.Ip.Header.{
  IpHdr, write_header, ip_version_ipv4, ip_hdr_size_min, ipaddr_broadcast,
}
use protocol_stack.Ip.Rx.{size_sub}

-- What `arp_resolve` returns in the end.
pub data Resolution : Type 0 where
  resolve_error resolve_query : Resolution
  resolve_found : List ℕ → Resolution

-- `tx` returns the number of bytes sent, `none` being -1.
pub record Link (S : Type 0) : Type 0 where
  pub resolve : ℕ → List ℕ → S → Resolution × S
  pub tx : ℕ → List ℕ → List ℕ → S → Option ℕ × S

-- What `ip_tx_netdev` returns: -1, 0 and 1; `overrun` is a packet that does not fit its buffer.
pub data Sent : Type 0 where
  failed waiting sent overrun : Sent

abbrev pub packet_size : ℕ
packet_size = 4096

-- `src ? *src : ((struct netif_ip *)netif)->unicast`
abbrev pub source_of : Netif → Option ℕ → ℕ
source_of netif none = netif.unicast
source_of netif (some a) = a

-- The header of a packet with `len` bytes after it, its checksum filled in.
unfoldable pub ip_tx_header : Endian → Netif → ℕ → ℕ → Option ℕ → ℕ → ℕ → ℕ → IpHdr
ip_tx_header m netif protocol len src dst id offset =
    let hdr : IpHdr = record {
      vhl = bit_or (ip_version_ipv4 <<< 4) (ip_hdr_size_min >>> 2);
      tos = 0;
      len = hton16 m (u16 (ip_hdr_size_min + len));
      id = hton16 m id;
      offset = hton16 m offset;
      ttl = 0xff;
      protocol = protocol;
      sum = 0;
      src = source_of netif src;
      dst = dst;
    } in
    record hdr { sum = cksum16 m (write_header m hdr) 0 }

module _ {S : Type 0} (link : Link S) (m : Endian) (dev : Netdev) (netif : Netif) where
  -- The hardware address is known: the device sends the packet.
  unfoldable pub ip_tx_device : List ℕ → List ℕ → S → Sent × S
  ip_tx_device packet ha s =
      let (n, s') = link.tx ethernet_type_ip packet ha s in
      (elim n [ none ↦ failed | some k ↦ if k == length packet then sent else failed ], s')

  -- `dev` is `netif->dev`.
  unfoldable pub ip_tx_netdev : List ℕ → Option ℕ → S → Sent × S
  ip_tx_netdev packet none s =
      if bit_and dev.driver.flags netdev_flag_noarp == 0
      then ip_tx_device packet (take dev.driver.alen dev.broadcast) s
      else ip_tx_device packet [] s
  ip_tx_netdev packet (some dst) s =
      if bit_and dev.driver.flags netdev_flag_noarp == 0
      then (let (answer, s') = link.resolve dst packet s in
          elim answer [
            | resolve_error ↦ (failed, s')
            | resolve_query ↦ (waiting, s')
            | resolve_found ha ↦ ip_tx_device packet ha s'
          ])
      else ip_tx_device packet [] s

  unfoldable pub ip_tx_core : ℕ → List ℕ → Option ℕ → ℕ → Option ℕ → ℕ → ℕ → S → Sent × S
  ip_tx_core protocol buf src dst nexthop id offset s =
      if ltb packet_size (ip_hdr_size_min + length buf)
      then (overrun, s)
      else ip_tx_netdev
          (write_header m (ip_tx_header m netif protocol (length buf) src dst id offset) ++ buf)
          nexthop s

-- The bytes that a packet can carry, as the source computes them in a `size_t`.
unfoldable pub max_payload : Netdev → ℕ
max_payload dev = size_sub dev.driver.mtu ip_hdr_size_min

-- The offset field of the fragment at `done` of `slen` bytes: `flag | ((done >> 3) & 0x1fff)`.
unfoldable pub fragment_offset : ℕ → ℕ → ℕ → ℕ
fragment_offset len done slen =
    bit_or (if ltb (done + slen) len then 0x2000 else 0x0000) (bit_and (done >>> 3) 0x1fff)

-- `stuck` is a loop that has used up its fuel.
pub data IpTx : Type 0 where
  complete error crash stuck : IpTx

-- What one round makes of the result of `ip_tx_core`.
unfoldable pub next_round : {S : Type 0} → Sent × S → (S → IpTx × S) → IpTx × S
next_round (failed, s) rest = (error, s)
next_round (overrun, s) rest = (crash, s)
next_round (waiting, s) rest = rest s
next_round (sent, s) rest = rest s

module _ {S : Type 0} (send : List ℕ → ℕ → S → Sent × S) (step : ℕ) (buf : List ℕ) where
  -- `for (done = 0; done < len; done += slen)`; `send` is `ip_tx_core` at the call's other arguments.
  unfoldable pub ip_tx_loop : ℕ → ℕ → S → IpTx × S
  ip_tx_loop zero done s = (stuck, s)
  ip_tx_loop (suc fuel) done s =
      let slen = min (length buf - done) step in
      let rest =
        next_round (send (take slen (drop done buf)) (fragment_offset (length buf) done slen) s)
          (λ s'. ip_tx_loop fuel (done + slen) s') in
      if ltb done (length buf) then rest else (complete, s)

-- `ip_generate_id`: the identification returned, and the static variable after the call.
unfoldable pub ip_generate_id : ℕ → ℕ × ℕ
ip_generate_id id = (id, u16 (id + 1))

-- `netif` is not null: the source reads `netif->dev` in any case. The static variable of
-- `ip_generate_id` is an argument and a result.
unfoldable pub ip_tx :
    {S : Type 0} → Link S → Endian → Netdev → Netif → ℕ → List ℕ → ℕ → ℕ → S → (IpTx × S) × ℕ
ip_tx link m dev netif protocol buf dst id s =
    let (this_id, next_id) = ip_generate_id id in
    let nexthop : Option ℕ = if dst == ipaddr_broadcast then none else some dst in
    let src : Option ℕ = if dst == ipaddr_broadcast then none else some netif.unicast in
    (
      ip_tx_loop
          (λ chunk offset.
            ip_tx_core link m dev netif protocol chunk src dst nexthop this_id offset)
          (max_payload dev) buf (suc (length buf)) 0 s,
      next_id,
    )
