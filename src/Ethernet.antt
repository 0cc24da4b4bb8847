-- ===== src/Ethernet.antt =====
-- ethernet.h and ethernet.c: frames. A frame is the list of its bytes.
pub mod Laws
pub mod Address
pub mod Device
use protocol_stack.Base.{
  ℕ, ◌+◌, ◌-◌, Bool, true, false, not, ◌&&◌, ◌||◌, List, [], ◌∷◌, ◌++◌, Option, none, some, ◌==◌,
  ltb, length, take, drop, get_or, replicate, if◌then◌else◌,
}
use protocol_stack.Util.ByteOrder.{Endian, load16, store16, hton16}
use protocol_stack.Net.{Netdev, NetdevDef, NetdevProto, netdev_rx_handler}

abbrev pub ethernet_addr_len : ℕ
ethernet_addr_len = 6

abbrev pub ethernet_hdr_size : ℕ
ethernet_hdr_size = 14

abbrev pub ethernet_trl_size : ℕ
ethernet_trl_size = 4

abbrev pub ethernet_frame_size_min : ℕ
ethernet_frame_size_min = 64

abbrev pub ethernet_frame_size_max : ℕ
ethernet_frame_size_max = 1518

abbrev pub ethernet_payload_size_min : ℕ
ethernet_payload_size_min = ethernet_frame_size_min - (ethernet_hdr_size + ethernet_trl_size)

abbrev pub ethernet_payload_size_max : ℕ
ethernet_payload_size_max = ethernet_frame_size_max - (ethernet_hdr_size + ethernet_trl_size)

abbrev pub ethernet_type_ip : ℕ
ethernet_type_ip = 0x0800

abbrev pub ethernet_type_arp : ℕ
ethernet_type_arp = 0x0806

abbrev pub ethernet_addr_any : List ℕ
ethernet_addr_any = replicate ethernet_addr_len 0

abbrev pub ethernet_addr_broadcast : List ℕ
ethernet_addr_broadcast = replicate ethernet_addr_len 0xff

-- `memcmp(a, b, n) == 0` over the first bytes of both.
unfoldable pub bytes_eq : List ℕ → List ℕ → Bool
bytes_eq [] [] = true
bytes_eq [] (b ∷ bs) = false
bytes_eq (a ∷ as') [] = false
bytes_eq (a ∷ as') (b ∷ bs) = a == b && bytes_eq as' bs

-- `memcpy(dst, src, n)` into the front of a buffer.
abbrev pub memcpy : List ℕ → List ℕ → List ℕ
memcpy buffer src = src ++ drop (length src) buffer

unfoldable pub ethernet_def : ℕ → NetdevDef
ethernet_def ops = record {
  type = 0x0001;
  mtu = ethernet_payload_size_max;
  flags = 0x0001;
  hlen = ethernet_hdr_size;
  alen = ethernet_addr_len;
  ops = ops;
}

-- What `ethernet_tx` hands to the raw device, if it gets that far. Null pointers are `none`.
unfoldable pub ethernet_frame :
    Endian → Netdev → ℕ → Option (List ℕ) → Option (List ℕ) → Option (List ℕ)
ethernet_frame m dev type none dst = none
ethernet_frame m dev type (some payload) none = none
ethernet_frame m dev type (some payload) (some dst) =
    if ltb ethernet_payload_size_max (length payload)
    then none
    else (let hdr =
          take ethernet_addr_len dst
          ++ (take ethernet_addr_len dev.addr ++ store16 m (hton16 m type)) in
        let frame = memcpy (replicate ethernet_frame_size_max 0) (hdr ++ payload) in
        let flen =
          ethernet_hdr_size
          + (if ltb (length payload) ethernet_payload_size_min
              then ethernet_payload_size_min
              else length payload) in
        some (take flen frame))

-- The value returned: `write` says how many bytes the raw device took, `none` being its -1.
unfoldable pub ethernet_tx :
    Endian → (List ℕ → Option ℕ) → Netdev → ℕ → Option (List ℕ) → Option (List ℕ) → Option ℕ
unfolding ethernet_frame
ethernet_tx m write dev type payload dst = elim (ethernet_frame m dev type payload dst) [
  | none ↦ none
  | some frame ↦ elim (write frame) [
    | none ↦ none
    | some n ↦ if n == length frame then payload_size payload else none
  ]
]
  where
    payload_size : Option (List ℕ) → Option ℕ
    payload_size none = none
    payload_size (some p) = some (length p)

-- The call of `dev->rx_handler`: the type as it stands in the frame, and the payload.
unfoldable pub ethernet_rx : Endian → Netdev → List ℕ → Option (ℕ × List ℕ)
ethernet_rx m dev frame =
    if ltb (length frame) ethernet_hdr_size
    then none
    else (let dst = take ethernet_addr_len frame in
        if not (bytes_eq (take ethernet_addr_len dev.addr) dst)
          && not (bytes_eq ethernet_addr_broadcast dst)
        then none
        else some (load16 m (get_or frame 12 0) (get_or frame 13 0), drop ethernet_hdr_size frame))
