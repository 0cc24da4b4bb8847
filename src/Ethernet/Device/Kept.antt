-- ===== src/Ethernet/Device/Kept.antt =====
-- ethernet.c: `ethernet_open` and `ethernet_close` over a raw device that keeps what it should.
use protocol_stack.Base.{
  take, Bool-cases, sym, subst, if◌then◌else◌, List, Bool, ◌≡◌, false, true, inr, inl, ℕ,
}
use protocol_stack.Ethernet.Device.{
  ethernet_addr_any, ethernet_addr_len, bytes_eq, ethernet_open_done, Port, RawOps, ethernet_open,
  ethernet_close,
}

-- What a raw device's operations promise: an open that fails, a close of what was opened, and the question
-- for the address leave its state the same.
pub record IsRaw {W : Type 0} (Same : W → W → Type 0) (ops : RawOps W) : Type 0 where
  pub fails : (w : W) → (ops.open_raw w).0 ≡ false → Same w (ops.open_raw w).1
  pub closes : (w : W) → (ops.open_raw w).0 ≡ true → Same w (ops.close_raw (ops.open_raw w).1)
  pub asks : (dst : List ℕ) (w : W) → (ops.addr_raw dst w).1 ≡ w
  pub same_self : (w : W) → Same w w

-- What a device leaves of the raw device's state: a failed open, or one that is closed again, nothing new.
abbrev pub Leaves : {W : Type 0} → (W → W → Type 0) → RawOps W → Bool → Bool → Port W → Type 0
Leaves Same ops malloc_ok raw_ok port =
    ((ethernet_open ops malloc_ok raw_ok port).0 ≡ false
      → Same port.world (ethernet_open ops malloc_ok raw_ok port).1.world)
    × ((ethernet_open ops malloc_ok raw_ok port).0 ≡ true
        → Same port.world (ethernet_close ops (ethernet_open ops malloc_ok raw_ok port).1).1.world)

pub IsRaw-Leaves :
    {W : Type 0} (Same : W → W → Type 0) (ops : RawOps W) (malloc_ok raw_ok : Bool) (port : Port W)
    → IsRaw Same ops
    → Leaves Same ops malloc_ok raw_ok port
unfolding ethernet_open ethernet_open_done ethernet_close
IsRaw-Leaves Same ops false raw_ok port is = (λ e. is.same_self port.world, λ e. absurd (cc))
IsRaw-Leaves Same ops true false port is = (λ e. is.same_self port.world, λ e. absurd (cc))
IsRaw-Leaves Same ops true true port is = elim (Bool-cases (ops.open_raw port.world).0) [
  | inr fails ↦ rw (ethernet_open, fails) (λ e. is.fails port.world fails, λ e. absurd (cc))
  | inl works ↦
      rw (ethernet_open, works)
        (
          λ e. absurd (cc),
          λ e. closed (bytes_eq (take ethernet_addr_len port.addr) ethernet_addr_any) works,
        )
]
  where
    closed :
        (unset : Bool)
        → (ops.open_raw port.world).0 ≡ true
        → Same port.world (
            ops.close_raw (
              if unset
              then (ops.addr_raw port.addr (ops.open_raw port.world).1).1
              else (ops.open_raw port.world).1))
    closed false works = is.closes port.world works
    closed true works =
        subst (λ w. Same port.world (ops.close_raw w))
          (sym (is.asks port.addr (ops.open_raw port.world).1)) (is.closes port.world works)
