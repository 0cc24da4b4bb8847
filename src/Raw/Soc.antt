-- ===== src/Raw/Soc.antt =====
-- raw/soc.c: a raw device on a packet socket.
use protocol_stack.Raw.{Rawdev}
use protocol_stack.Raw.System.{
  iff_promisc, remove, rx_buf_size, sys_open, sys_alloc, Read, Opened, sys_close, sys_free, Poll,
  Sys, Handle, null_write, poll_error, read_error, poll_ready, read_bytes, failed, poll_timeout,
  opened,
}
use protocol_stack.Base.{
  ◌&&◌, Bool-cases, arith, Option-cases, ◌⊎◌, ◌≡◌, drop, bit_or, ◌++◌, not, take, if◌then◌else◌,
  Bool, List, Option, ◌∷◌, refl, false, true, inr, inl, some, none, [], ℕ,
}

-- What `malloc` and the system calls of `soc_dev_open` return. `none` is a null pointer or -1, `false` is -1.
pub record SocCalls : Type 0 where
  pub memory : Option ℕ
  pub socket : Option ℕ
  pub ifindex : Bool
  pub bind : Bool
  pub get_flags : Bool
  pub set_flags : Bool

unfoldable pub soc_dev_close : Handle → Sys → Sys
soc_dev_close dev sys = elim dev.fd [
  | none ↦ sys_free dev.address sys
  | some fd ↦ sys_free dev.address (sys_close fd sys)
]

-- The label `ERROR`: the device is closed, and null is returned.
unfoldable pub soc_dev_error : Handle → Sys → Opened × Sys
soc_dev_error dev sys = (failed, soc_dev_close dev sys)

-- From `ioctl [SIOCGIFINDEX]` on. The interface is made promiscuous.
unfoldable pub soc_dev_setup : SocCalls → Handle → Sys → Opened × Sys
soc_dev_setup calls dev sys =
    if not calls.ifindex
    then soc_dev_error dev sys
    else if not calls.bind
    then soc_dev_error dev sys
    else if not calls.get_flags
    then soc_dev_error dev sys
    else if not calls.set_flags
    then soc_dev_error dev sys
    else (opened dev, record sys { flags = bit_or sys.flags iff_promisc })

-- The memory is not checked before the descriptor is stored in it.
unfoldable pub soc_dev_open : SocCalls → Sys → Opened × Sys
soc_dev_open calls sys = elim calls.memory [
  | none ↦ (null_write, sys)
  | some address ↦ elim calls.socket [
    | none ↦ soc_dev_error (record { address = address; fd = none }) (sys_alloc address sys)
    | some fd ↦
        soc_dev_setup calls (record { address = address; fd = some fd })
          (sys_open fd (sys_alloc address sys))
  ]
]

-- `soc_dev_open_wrap`: the device's `priv`, and whether 0 is returned.
unfoldable pub soc_dev_open_wrap :
    SocCalls → Rawdev Handle → Sys → Option (Bool × Rawdev Handle) × Sys
soc_dev_open_wrap calls dev sys =
    let (result, sys') = soc_dev_open calls sys in
    (
      elim result [
        | null_write ↦ none
        | failed ↦ some (false, record dev { priv = none })
        | opened handle ↦ some (true, record dev { priv = some handle })
      ],
      sys',
    )

-- A device that was not opened has no `priv`: `none` is the use of a null pointer.
unfoldable pub soc_dev_close_wrap : Rawdev Handle → Sys → Option Sys
soc_dev_close_wrap dev sys = elim dev.priv [
  | none ↦ none
  | some handle ↦ some (soc_dev_close handle sys)
]

-- The callback is called with what was read, if anything was.
unfoldable pub soc_dev_rx : {S : Type 0} → Poll → Read → (List ℕ → S → S) → S → S
soc_dev_rx poll_error read callback s = s
soc_dev_rx poll_timeout read callback s = s
soc_dev_rx poll_ready read_error callback s = s
soc_dev_rx poll_ready (read_bytes []) callback s = s
soc_dev_rx poll_ready (read_bytes (b ∷ bytes)) callback s =
    callback (take rx_buf_size (b ∷ bytes)) s

-- The result is that of `write`.
unfoldable pub soc_dev_tx : (List ℕ → Option ℕ) → List ℕ → Option ℕ
soc_dev_tx write buf = write buf

-- `soc_dev_addr`: whether 0 is returned, what is at `dst`, and the system afterwards. `hwaddr` is the answer
-- of `ioctl [SIOCGIFHWADDR]`.
unfoldable pub soc_dev_addr : Option ℕ → Option (List ℕ) → List ℕ → ℕ → Sys → (Bool × List ℕ) × Sys
soc_dev_addr socket hwaddr dst size sys = elim socket [
  | none ↦ ((false, dst), sys)
  | some fd ↦ elim hwaddr [
    | none ↦ ((false, dst), sys_close fd (sys_open fd sys))
    | some bytes ↦ ((true, take size bytes ++ drop size dst), sys_close fd (sys_open fd sys))
  ]
]

-- An open that gets memory either fails and leaves the system as it was, or gives an open device; closing
-- it frees the object and the descriptor, but the interface stays promiscuous. Without memory, a null
-- pointer is written to.
pub soc_dev_open_lem :
    (calls : SocCalls) (sys : Sys)
    → let result = soc_dev_open calls sys in
      ((calls.memory ≡ none) × (result ≡ (null_write, sys)))
      ⊎ (((address : ℕ) × (calls.memory ≡ some address))
          × ((result ≡ (failed, sys))
              ⊎ ((dev : Handle) × (result.0 ≡ opened dev)
                  × (soc_dev_close dev result.1
                      ≡ record sys { flags = bit_or sys.flags iff_promisc }))))
unfolding soc_dev_open soc_dev_setup soc_dev_error soc_dev_close sys_free sys_close sys_open
    sys_alloc remove
soc_dev_open_lem calls sys = elim (Option-cases calls.memory) [
  | inl missing ↦ inl (missing, rw (soc_dev_open, missing) refl)
  | inr (address, got) ↦ inr (
    (address, got),
    elim (Option-cases calls.socket) [
      | inl no_socket ↦ inl (rw (soc_dev_open, got, no_socket) (ground arith))
      | inr (fd, e) ↦
          elim (Bool-cases
            (calls.ifindex && (calls.bind && (calls.get_flags && calls.set_flags)))) [
              | inl all ↦ inr (
                record { address = address; fd = some fd },
                rw (soc_dev_open, got, e) (ground arith),
                rw (soc_dev_open, got, e) (ground arith),
              )
              | inr not_all ↦ inl (rw (soc_dev_open, got, e) (ground arith))
            ]
    ],
  )
]
