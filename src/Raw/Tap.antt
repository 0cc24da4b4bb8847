-- ===== src/Raw/Tap.antt =====
-- raw/tap_linux.c: a raw device on a tap interface.
use protocol_stack.Raw.Soc.{soc_dev_addr}
use protocol_stack.Raw.{Rawdev}
use protocol_stack.Raw.System.{
  close_socket, remove, rx_buf_size, sys_open, sys_alloc, Read, Opened, sys_close, sys_free, Poll,
  Sys, Handle, null_write, poll_error, read_error, poll_ready, read_bytes, failed, poll_timeout,
  opened,
}
use protocol_stack.Base.{
  Bool-cases, arith, Option-cases, drop, ◌++◌, if◌then◌else◌, ◌⊎◌, take, ◌≡◌, Bool, List, Option,
  ◌∷◌, refl, false, true, inr, inl, some, none, [], ℕ,
}

-- What `malloc` and the system calls of `tap_dev_open` return.
pub record TapCalls : Type 0 where
  pub memory : Option ℕ
  pub open_clone : Option ℕ
  pub set_iff : Bool

unfoldable pub tap_dev_close : Handle → Sys → Sys
tap_dev_close dev sys = elim dev.fd [
  | none ↦ sys_free dev.address sys
  | some fd ↦ sys_free dev.address (sys_close fd sys)
]

unfoldable pub tap_dev_open : TapCalls → Sys → Opened × Sys
tap_dev_open calls sys = elim calls.memory [
  | none ↦ (failed, sys)
  | some address ↦ elim calls.open_clone [
    | none ↦
        (failed, tap_dev_close (record { address = address; fd = none }) (sys_alloc address sys))
    | some fd ↦
        let dev : Handle = record { address = address; fd = some fd } in
        let sys' = sys_open fd (sys_alloc address sys) in
        if calls.set_iff then (opened dev, sys') else (failed, tap_dev_close dev sys')
  ]
]

unfoldable pub tap_dev_open_wrap : TapCalls → Rawdev Handle → Sys → (Bool × Rawdev Handle) × Sys
tap_dev_open_wrap calls dev sys =
    let (result, sys') = tap_dev_open calls sys in
    (
      elim result [
        | null_write ↦ (false, record dev { priv = none })
        | failed ↦ (false, record dev { priv = none })
        | opened handle ↦ (true, record dev { priv = some handle })
      ],
      sys',
    )

-- A device that was not opened has no `priv`: `none` is the use of a null pointer.
unfoldable pub tap_dev_close_wrap : Rawdev Handle → Sys → Option Sys
tap_dev_close_wrap dev sys = elim dev.priv [
  | none ↦ none
  | some handle ↦ some (tap_dev_close handle sys)
]

unfoldable pub tap_dev_rx : {S : Type 0} → Poll → Read → (List ℕ → S → S) → S → S
tap_dev_rx poll_error read callback s = s
tap_dev_rx poll_timeout read callback s = s
tap_dev_rx poll_ready read_error callback s = s
tap_dev_rx poll_ready (read_bytes []) callback s = s
tap_dev_rx poll_ready (read_bytes (b ∷ bytes)) callback s =
    callback (take rx_buf_size (b ∷ bytes)) s

unfoldable pub tap_dev_tx : (List ℕ → Option ℕ) → List ℕ → Option ℕ
tap_dev_tx write buf = write buf

-- `tap_dev_addr`: whether 0 is returned, what is at `dst`, and the system afterwards. `hwaddr` is the answer
-- of `ioctl [SIOCGIFHWADDR]`.
unfoldable pub tap_dev_addr : Option ℕ → Option (List ℕ) → List ℕ → ℕ → Sys → (Bool × List ℕ) × Sys
tap_dev_addr socket hwaddr dst size sys = elim socket [
  | none ↦ ((false, dst), sys)
  | some fd ↦ elim hwaddr [
    | none ↦ ((false, dst), sys_close fd (sys_open fd sys))
    | some bytes ↦ ((true, take size bytes ++ drop size dst), sys_close fd (sys_open fd sys))
  ]
]

-- An open gives a device exactly if the memory, the descriptor and the interface are had. Else it leaves
-- the system as it was, and a device that is closed again does too.
pub tap_dev_open_lem :
    (calls : TapCalls) (sys : Sys)
    → let result = tap_dev_open calls sys in
      ((result ≡ (failed, sys))
        × ((calls.memory ≡ none) ⊎ ((calls.open_clone ≡ none) ⊎ (calls.set_iff ≡ false))))
      ⊎ ((address fd : ℕ) × (calls.memory ≡ some address)
          × (calls.open_clone ≡ some fd)
          × (calls.set_iff ≡ true)
          × (result.0 ≡ opened (record { address = address; fd = some fd }))
          × (tap_dev_close (record { address = address; fd = some fd }) result.1 ≡ sys))
unfolding tap_dev_open tap_dev_close sys_free sys_close sys_open sys_alloc remove
tap_dev_open_lem calls sys = elim (Option-cases calls.memory) [
  | inl missing ↦ inl (rw (tap_dev_open, missing) refl, inl missing)
  | inr (address, got) ↦ elim (Option-cases calls.open_clone) [
    | inl no_fd ↦ inl (rw (tap_dev_open, got, no_fd) (ground arith), inr (inl no_fd))
    | inr (fd, e) ↦ elim (Bool-cases calls.set_iff) [
      | inl set ↦ inr (
        address,
        fd,
        got,
        e,
        set,
        rw (tap_dev_open, got, e, set) refl,
        rw (tap_dev_open, got, e, set) (ground arith),
      )
      | inr not_set ↦ inl (rw (tap_dev_open, got, e, not_set) (ground arith), inr (inr not_set))
    ]
  ]
]

-- Either device's hardware address is that of the interface, cut to the size asked for, if the system gives
-- one; otherwise nothing is stored. No descriptor stays open.
pub dev_addr_lem :
    (socket : Option ℕ) (hwaddr : Option (List ℕ)) (dst : List ℕ) (size : ℕ) (sys : Sys)
    → (soc_dev_addr socket hwaddr dst size sys ≡ tap_dev_addr socket hwaddr dst size sys)
      × ((tap_dev_addr socket hwaddr dst size sys).1 ≡ sys)
      × (((tap_dev_addr socket hwaddr dst size sys).0 ≡ (false, dst))
          ⊎ ((fd : ℕ) × (bytes : List ℕ) × (socket ≡ some fd)
              × (hwaddr ≡ some bytes)
              × ((tap_dev_addr socket hwaddr dst size sys).0
                  ≡ (true, take size bytes ++ drop size dst))))
unfolding soc_dev_addr tap_dev_addr
dev_addr_lem none hwaddr dst size sys = (refl, refl, inl refl)
dev_addr_lem (some fd) none dst size sys = (refl, close_socket fd sys, inl refl)
dev_addr_lem (some fd) (some bytes) dst size sys =
    (refl, close_socket fd sys, inr (fd, bytes, refl, refl, refl))
