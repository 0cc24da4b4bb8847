-- ===== src/Ethernet/Laws.antt =====
-- ethernet.c: what one end sends is what the other end gets.
use protocol_stack.Base.{
  ℕ, ◌+◌, ◌-◌, ◌/◌, ◌%◌, ◌^◌, ◌≤◌, ◌<◌, ◌≡◌, refl, ap, sym, ◌∙◌, arith, true, false, ◌⊎◌, List, [],
  ◌∷◌, ◌++◌, none, some, length, take, drop, get_or, replicate, ltb, length-append, length-take,
  length-replicate, take-copy, if◌then◌else◌,
}
use mathlib.Core.List.{append_assoc}
use mathlib.Core.Option.{some-injective}
use protocol_stack.Util.ByteOrder.{Endian, load16, hton16}
use protocol_stack.Util.ByteOrder.Laws.{store-hton, ntoh-load, ntoh-hton}
use protocol_stack.Util.Checksum.Laws.{load16-lt}
use protocol_stack.Net.{Netdev}
use protocol_stack.Ethernet.{
  ethernet_hdr_size, ethernet_frame_size_max, ethernet_payload_size_min, ethernet_payload_size_max,
  ethernet_addr_broadcast, bytes_eq, memcpy, ethernet_frame, ethernet_rx,
}

pub bytes_eq_refl : (xs : List ℕ) → bytes_eq xs xs ≡ true
unfolding bytes_eq
bytes_eq_refl [] = refl
bytes_eq_refl (x ∷ xs) = ground (arith, bytes_eq_refl xs)

pub bytes_eq→eq : (xs ys : List ℕ) → bytes_eq xs ys ≡ true → xs ≡ ys
unfolding bytes_eq
bytes_eq→eq [] [] h = refl
bytes_eq→eq [] (y ∷ ys) h = cc
bytes_eq→eq (x ∷ xs) [] h = cc
bytes_eq→eq (x ∷ xs) (y ∷ ys) h = ground (arith, bytes_eq→eq xs ys)

-- The first six bytes of a buffer that holds as many.
six : (xs : List ℕ) → 6 ≤ length xs → (a b c d e f : ℕ) × (take 6 xs ≡ a ∷ b ∷ c ∷ d ∷ e ∷ f ∷ [])
six [] h = absurd (omega arith)
six (a ∷ []) h = absurd (omega arith)
six (a ∷ b ∷ []) h = absurd (omega arith)
six (a ∷ b ∷ c ∷ []) h = absurd (omega arith)
six (a ∷ b ∷ c ∷ d ∷ []) h = absurd (omega arith)
six (a ∷ b ∷ c ∷ d ∷ e ∷ []) h = absurd (omega arith)
six (a ∷ b ∷ c ∷ d ∷ e ∷ f ∷ xs) h = (a, b, c, d, e, f, refl)

-- A type field holds in memory what `hton16` makes of the type.
pub load16-hton16 : (m : Endian) (t : ℕ) → t < 2 ^ 16 → load16 m (t / 256) (t % 256) ≡ hton16 m t
load16-hton16 m t h =
    sym
      (ntoh-hton m (load16 m (t / 256) (t % 256)) 0
        (load16-lt m (t / 256) (t % 256) (omega arith) (omega arith)) (omega arith)).1
    ∙ ap (hton16 m) (
        omega (
          arith,
          (ntoh-load m (t / 256) (t % 256) 0 0 (omega arith) (omega arith) (omega arith)
              (omega arith)).0,
        ))

length-take_six : (xs : List ℕ) → 6 ≤ length xs → length (take 6 xs) ≡ 6
length-take_six xs h = omega (arith, length-take 6 xs)

-- The bytes of a frame: both addresses, the type with its high byte first, the payload, and zeros up
-- to the shortest payload.
pub ethernet_frame_bytes :
    (m : Endian) (dev : Netdev) (type : ℕ) (payload dst : List ℕ)
    → type < 2 ^ 16
    → 6 ≤ length dst
    → 6 ≤ length dev.addr
    → length payload ≤ 1500
    → ethernet_frame m dev type (some payload) (some dst)
      ≡ some (
          ((take 6 dst ++ (take 6 dev.addr ++ type / 256 ∷ type % 256 ∷ [])) ++ payload)
          ++ replicate (46 - length payload) 0)
unfolding ethernet_frame
ethernet_frame_bytes m dev type payload dst ht hd ha hp =
    rw (fits, ethernet_frame, (store-hton m type 0 ht (omega arith)).0) (ap some whole)
  where
    fits : ltb ethernet_payload_size_max (length payload) ≡ false
    fits = ground arith

    bytes : List ℕ
    bytes = (take 6 dst ++ (take 6 dev.addr ++ type / 256 ∷ type % 256 ∷ [])) ++ payload

    flen : ℕ
    flen =
        ethernet_hdr_size
        + (if ltb (length payload) ethernet_payload_size_min
            then ethernet_payload_size_min
            else length payload)

    length-bytes : length bytes ≡ 14 + length payload
    length-bytes = omega (
      arith,
      length-append (take 6 dst ++ (take 6 dev.addr ++ type / 256 ∷ type % 256 ∷ [])) payload,
      length-append (take 6 dst) (take 6 dev.addr ++ type / 256 ∷ type % 256 ∷ []),
      length-append (take 6 dev.addr) (type / 256 ∷ type % 256 ∷ []),
      length-take_six dst hd,
      length-take_six dev.addr ha,
    )

    flen_bounds :
        (length bytes ≤ flen) × (flen ≤ 1518) × (flen - length bytes ≡ 46 - length payload)
    flen_bounds = rw length-bytes (ground arith)

    whole :
        take flen (memcpy (replicate ethernet_frame_size_max 0) bytes)
        ≡ bytes ++ replicate (46 - length payload) 0
    whole =
        take-copy 1518 flen 0 bytes flen_bounds.0 flen_bounds.1
        ∙ ap (λ (n : ℕ). bytes ++ replicate n 0) flen_bounds.2

module _ (m : Endian) (dev : Netdev) (dst rest : List ℕ) where
  rx_addressed :
      8 ≤ length rest
      → length dst ≡ 6
      → (dst ≡ take 6 dev.addr) ⊎ (dst ≡ ethernet_addr_broadcast)
      → take 6 (dst ++ rest) ≡ dst
      → ethernet_rx m dev (dst ++ rest)
        ≡ some (
          load16 m (get_or (dst ++ rest) 12 0) (get_or (dst ++ rest) 13 0),
          drop ethernet_hdr_size (dst ++ rest),
        )
  unfolding ethernet_rx
  rx_addressed long six_bytes to_dev front =
      ground (arith, length-append dst rest, bytes_eq_refl dst)

  rx_other :
      ¬ ((dst ≡ take 6 dev.addr) ⊎ (dst ≡ ethernet_addr_broadcast))
      → take 6 (dst ++ rest) ≡ dst
      → ethernet_rx m dev (dst ++ rest) ≡ none
  unfolding ethernet_rx
  rx_other not_to_dev front = ground (
    arith,
    not_to_dev,
    bytes_eq→eq (take 6 dev.addr) dst,
    bytes_eq→eq ethernet_addr_broadcast dst,
  )

-- The frame is for the device: its address or the broadcast address stands in front.
abbrev pub IsAddressed : Netdev → List ℕ → Type 0
IsAddressed dev dst = (take 6 dst ≡ take 6 dev.addr) ⊎ (take 6 dst ≡ ethernet_addr_broadcast)

-- What the receiver makes of a frame with the parts of the sender's.
abbrev Received : Endian → Netdev → ℕ → List ℕ → List ℕ → List ℕ → Type 0
Received m dev type dst body frame =
    ((dst ≡ take 6 dev.addr) ⊎ (dst ≡ ethernet_addr_broadcast)
      → ethernet_rx m dev frame ≡ some (hton16 m type, body))
    × (¬ ((dst ≡ take 6 dev.addr) ⊎ (dst ≡ ethernet_addr_broadcast))
        → ethernet_rx m dev frame ≡ none)

rx_parts :
    (m : Endian) (dev : Netdev) (type : ℕ) (dst src body : List ℕ)
    → type < 2 ^ 16
    → (a b c d e f : ℕ) × (dst ≡ a ∷ b ∷ c ∷ d ∷ e ∷ f ∷ [])
    → (a b c d e f : ℕ) × (src ≡ a ∷ b ∷ c ∷ d ∷ e ∷ f ∷ [])
    → Received m dev type dst body (dst ++ (src ++ type / 256 ∷ type % 256 ∷ body))
rx_parts m dev type dst src body ht (a, b, c, d, e, f, dst_eq) (a', b', c', d', e', f', src_eq) =
    rw (dst_eq, src_eq)
      (
        λ to_dev.
            rx_addressed m dev (a ∷ b ∷ c ∷ d ∷ e ∷ f ∷ [])
              (a' ∷ b' ∷ c' ∷ d' ∷ e' ∷ f' ∷ type / 256 ∷ type % 256 ∷ body) (omega arith) refl
              to_dev refl
            ∙ ap (λ t. some (t, body)) (load16-hton16 m type ht),
        λ not_to_dev.
            rx_other m dev (a ∷ b ∷ c ∷ d ∷ e ∷ f ∷ [])
              (a' ∷ b' ∷ c' ∷ d' ∷ e' ∷ f' ∷ type / 256 ∷ type % 256 ∷ body) not_to_dev refl,
      )

ethernet_frame-short :
    (m : Endian) (dev : Netdev) (type : ℕ) (payload dst frame : List ℕ)
    → ethernet_frame m dev type (some payload) (some dst) ≡ some frame
    → length payload ≤ 1500
unfolding ethernet_frame
ethernet_frame-short m dev type payload dst frame e = ground arith

-- A frame that `ethernet_tx` sends from one device is handed up by `ethernet_rx` on any device that it
-- is addressed to, with the type in network order and the payload, zeros after it up to 46 bytes; every
-- other device drops it. The frame is of 60 to 1514 bytes.
pub ethernet_rx-frame :
    (m : Endian) (sender receiver : Netdev) (type : ℕ) (payload dst frame : List ℕ)
    → type < 2 ^ 16
    → 6 ≤ length dst
    → 6 ≤ length sender.addr
    → ethernet_frame m sender type (some payload) (some dst) ≡ some frame
    → (IsAddressed receiver dst
        → ethernet_rx m receiver frame
          ≡ some (hton16 m type, payload ++ replicate (46 - length payload) 0))
      × (¬ IsAddressed receiver dst → ethernet_rx m receiver frame ≡ none)
      × (60 ≤ length frame)
      × (length frame ≤ 1514)
ethernet_rx-frame m sender receiver type payload dst frame ht hd ha e = (
  rw frame_parts received.0,
  rw frame_parts received.1,
  omega (arith, sizes, short),
  omega (arith, sizes, short),
)
  where
    dst6 : List ℕ
    dst6 = take 6 dst

    src6 : List ℕ
    src6 = take 6 sender.addr

    body : List ℕ
    body = payload ++ replicate (46 - length payload) 0

    short : length payload ≤ 1500
    short = ethernet_frame-short m sender type payload dst frame e

    frame_parts : frame ≡ dst6 ++ (src6 ++ type / 256 ∷ type % 256 ∷ body)
    frame_parts =
        some-injective _ _ (sym e ∙ ethernet_frame_bytes m sender type payload dst ht hd ha short)
        ∙ append_assoc (dst6 ++ (src6 ++ type / 256 ∷ type % 256 ∷ [])) payload
            (replicate (46 - length payload) 0)
        ∙ append_assoc dst6 (src6 ++ type / 256 ∷ type % 256 ∷ []) body
        ∙ ap (◌++◌ dst6) (append_assoc src6 (type / 256 ∷ type % 256 ∷ []) body)

    received : Received m receiver type dst6 body (dst6 ++ (src6 ++ type / 256 ∷ type % 256 ∷ body))
    received = rx_parts m receiver type dst6 src6 body ht (six dst hd) (six sender.addr ha)

    sizes : length frame ≡ 14 + (length payload + (46 - length payload))
    sizes = omega (
      arith,
      ap length frame_parts,
      length-append dst6 (src6 ++ type / 256 ∷ type % 256 ∷ body),
      length-append src6 (type / 256 ∷ type % 256 ∷ body),
      length-append payload (replicate (46 - length payload) 0),
      length-replicate {A = ℕ} (46 - length payload) 0,
      length-take_six dst hd,
      length-take_six sender.addr ha,
    )
