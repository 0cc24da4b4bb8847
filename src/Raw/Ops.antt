-- ===== src/Raw/Ops.antt =====
-- raw/soc.c and raw/tap_linux.c: the tables `soc_dev_ops` and `tap_dev_ops`, as the raw device below an
-- Ethernet device.
use protocol_stack.Ethernet.Device.Kept.{IsRaw-Leaves, Leaves, IsRaw}
use protocol_stack.Ethernet.{ethernet_addr_len}
use protocol_stack.Raw.System.{opened, failed, Handle, Sys}
use protocol_stack.Raw.Tap.{
  tap_dev_open, tap_dev_open_lem, dev_addr_lem, tap_dev_addr, tap_dev_open_wrap, tap_dev_close_wrap,
  TapCalls,
}
use protocol_stack.Raw.{Rawdev}
use protocol_stack.Raw.Soc.{
  soc_dev_open, soc_dev_open_lem, soc_dev_addr, soc_dev_open_wrap, soc_dev_close_wrap, SocCalls,
}
use protocol_stack.Base.{
  sym, subst, refl, true, inr, inl, ◌∙◌, ap, ◌≡◌, Bool, List, Option, false, some, none, ℕ,
}
use protocol_stack.Ethernet.Device.{Port, RawOps}

-- A raw device and the system; `none` after the use of a null pointer.
abbrev pub RawWorld : Type 0
RawWorld = Option (Rawdev Handle × Sys)

-- What the calls of `addr` return.
pub record AddrCalls : Type 0 where
  pub socket : Option ℕ
  pub hwaddr : Option (List ℕ)

unfoldable pub soc_open : SocCalls → RawWorld → Bool × RawWorld
soc_open calls none = (false, none)
soc_open calls (some (dev, sys)) =
    let (result, sys') = soc_dev_open_wrap calls dev sys in
    elim result [ none ↦ (false, none) | some (ok, dev') ↦ (ok, some (dev', sys')) ]

-- `close` of a device, the wrapper given.
unfoldable pub close_by : (Rawdev Handle → Sys → Option Sys) → RawWorld → RawWorld
close_by close none = none
close_by close (some (dev, sys)) = elim (close dev sys) [
  | none ↦ none
  | some sys' ↦ some (dev, sys')
]

-- `soc_dev_addr_wrap` or `tap_dev_addr_wrap`, which pass on the name and the destination of six bytes.
unfoldable pub addr_by :
    (List ℕ → ℕ → Sys → (Bool × List ℕ) × Sys) → List ℕ → RawWorld → List ℕ × RawWorld
addr_by addr dst none = (dst, none)
addr_by addr dst (some (dev, sys)) =
    let (result, sys') = addr dst ethernet_addr_len sys in (result.1, some (dev, sys'))

unfoldable pub soc_ops : SocCalls → AddrCalls → RawOps RawWorld
soc_ops calls addr = record {
  open_raw = soc_open calls;
  close_raw = close_by soc_dev_close_wrap;
  addr_raw = addr_by (soc_dev_addr addr.socket addr.hwaddr);
}

unfoldable pub tap_open : TapCalls → RawWorld → Bool × RawWorld
tap_open calls none = (false, none)
tap_open calls (some (dev, sys)) =
    let (result, sys') = tap_dev_open_wrap calls dev sys in (result.0, some (result.1, sys'))

unfoldable pub tap_ops : TapCalls → AddrCalls → RawOps RawWorld
tap_ops calls addr = record {
  open_raw = tap_open calls;
  close_raw = close_by tap_dev_close_wrap;
  addr_raw = addr_by (tap_dev_addr addr.socket addr.hwaddr);
}

-- The same descriptors and objects; a null pointer used before stays used.
abbrev pub SameSystem : RawWorld → RawWorld → Type 0
SameSystem none none = Unit
SameSystem none (some after) = ⊥
SameSystem (some before) none = ⊥
SameSystem (some (dev, sys)) (some (dev', sys')) =
    (sys'.fds ≡ sys.fds) × (sys'.objects ≡ sys.objects)

SameSystem-refl : (w : RawWorld) → SameSystem w w
SameSystem-refl none = tt
SameSystem-refl (some (dev, sys)) = (refl, refl)

soc_ops-IsRaw :
    (calls : SocCalls) (addr : AddrCalls) (address : ℕ)
    → calls.memory ≡ some address
    → IsRaw SameSystem (soc_ops calls addr)
unfolding soc_ops soc_open soc_dev_open_wrap close_by soc_dev_close_wrap addr_by
soc_ops-IsRaw calls addr address memory = record {
  fails = fails;
  closes = closes;
  asks = asks;
  same_self = SameSystem-refl;
}
  where
    shape_failed :
        (dev : Rawdev Handle) (sys : Sys)
        → soc_dev_open calls sys ≡ (failed, sys)
        → soc_open calls (some (dev, sys)) ≡ (false, some (record dev { priv = none }, sys))
    shape_failed dev sys r = rw (soc_open, soc_dev_open_wrap, r, soc_dev_open_wrap, r) refl

    shape_opened :
        (dev : Rawdev Handle) (sys : Sys) (handle : Handle)
        → (soc_dev_open calls sys).0 ≡ opened handle
        → soc_open calls (some (dev, sys))
          ≡ (true, some (record dev { priv = some handle }, (soc_dev_open calls sys).1))
    shape_opened dev sys handle r = rw (soc_open, soc_dev_open_wrap, r) refl

    fails : (w : RawWorld) → (soc_open calls w).0 ≡ false → SameSystem w (soc_open calls w).1
    fails none e = tt
    fails (some (dev, sys)) e = elim (soc_dev_open_lem calls sys) [
      | inl (no_memory, r) ↦ absurd (cc)
      | inr (had, inl r) ↦
          subst (λ (x : Bool × RawWorld). SameSystem (some (dev, sys)) x.1)
            (sym (shape_failed dev sys r)) (refl, refl)
      | inr (had, inr (handle, r, closed)) ↦
          let shape = ap (λ (x : Bool × RawWorld). x.0) (shape_opened dev sys handle r) in
          absurd (cc)
    ]

    closes :
        (w : RawWorld)
        → (soc_open calls w).0 ≡ true
        → SameSystem w (close_by soc_dev_close_wrap (soc_open calls w).1)
    closes none e = absurd (cc)
    closes (some (dev, sys)) e = elim (soc_dev_open_lem calls sys) [
      | inl (no_memory, r) ↦ absurd (cc)
      | inr (had, inl r) ↦
          let shape = ap (λ (x : Bool × RawWorld). x.0) (shape_failed dev sys r) in absurd (cc)
      | inr (had, inr (handle, r, closed)) ↦
          subst
            (λ (x : Bool × RawWorld).
              SameSystem (some (dev, sys)) (close_by soc_dev_close_wrap x.1))
            (sym (shape_opened dev sys handle r))
            (ap (λ (s : Sys). s.fds) closed, ap (λ (s : Sys). s.objects) closed)
    ]

    asks :
        (dst : List ℕ) (w : RawWorld) → (addr_by (soc_dev_addr addr.socket addr.hwaddr) dst w).1 ≡ w
    asks dst none = refl
    asks dst (some (dev, sys)) =
        let (same, kept, result) = dev_addr_lem addr.socket addr.hwaddr dst ethernet_addr_len sys in
        ap (λ (s : Sys). some (dev, s)) (ap (λ r. r.1) same ∙ kept)

tap_ops-IsRaw : (calls : TapCalls) (addr : AddrCalls) → IsRaw SameSystem (tap_ops calls addr)
unfolding tap_ops tap_open tap_dev_open_wrap close_by tap_dev_close_wrap addr_by
tap_ops-IsRaw calls addr = record {
  fails = fails;
  closes = closes;
  asks = asks;
  same_self = SameSystem-refl;
}
  where
    shape_failed :
        (dev : Rawdev Handle) (sys : Sys)
        → tap_dev_open calls sys ≡ (failed, sys)
        → tap_open calls (some (dev, sys)) ≡ (false, some (record dev { priv = none }, sys))
    shape_failed dev sys r = rw (tap_open, tap_dev_open_wrap, r) refl

    shape_opened :
        (dev : Rawdev Handle) (sys : Sys) (handle : Handle)
        → (tap_dev_open calls sys).0 ≡ opened handle
        → tap_open calls (some (dev, sys))
          ≡ (true, some (record dev { priv = some handle }, (tap_dev_open calls sys).1))
    shape_opened dev sys handle r = rw (tap_open, tap_dev_open_wrap, r) refl

    fails : (w : RawWorld) → (tap_open calls w).0 ≡ false → SameSystem w (tap_open calls w).1
    fails none e = tt
    fails (some (dev, sys)) e = elim (tap_dev_open_lem calls sys) [
      | inl (r, why) ↦
          subst (λ (x : Bool × RawWorld). SameSystem (some (dev, sys)) x.1)
            (sym (shape_failed dev sys r)) (refl, refl)
      | inr (address, fd, memory, clone, set, r, closed) ↦
          let shape =
            ap (λ (x : Bool × RawWorld). x.0)
              (shape_opened dev sys (record { address = address; fd = some fd }) r) in
          absurd (cc)
    ]

    closes :
        (w : RawWorld)
        → (tap_open calls w).0 ≡ true
        → SameSystem w (close_by tap_dev_close_wrap (tap_open calls w).1)
    closes none e = absurd (cc)
    closes (some (dev, sys)) e = elim (tap_dev_open_lem calls sys) [
      | inl (r, why) ↦
          let shape = ap (λ (x : Bool × RawWorld). x.0) (shape_failed dev sys r) in absurd (cc)
      | inr (address, fd, memory, clone, set, r, closed) ↦
          subst
            (λ (x : Bool × RawWorld).
              SameSystem (some (dev, sys)) (close_by tap_dev_close_wrap x.1))
            (sym (shape_opened dev sys (record { address = address; fd = some fd }) r))
            (ap (λ (s : Sys). s.fds) closed, ap (λ (s : Sys). s.objects) closed)
    ]

    asks :
        (dst : List ℕ) (w : RawWorld) → (addr_by (tap_dev_addr addr.socket addr.hwaddr) dst w).1 ≡ w
    asks dst none = refl
    asks dst (some (dev, sys)) =
        let (same, kept, result) = dev_addr_lem addr.socket addr.hwaddr dst ethernet_addr_len sys in
        ap (λ (s : Sys). some (dev, s)) kept

-- Over a packet socket, if `soc_dev_open` gets memory, or over a tap interface, whatever the system calls
-- return: an `ethernet_open` that fails, and one that `ethernet_close` follows, leave the descriptors and
-- the objects of the raw device's file as they were.
pub ethernet_close-ops :
    (soc : SocCalls) (tap : TapCalls) (addr : AddrCalls) (address : ℕ) (malloc_ok raw_ok : Bool)
    (port : Port RawWorld)
    → soc.memory ≡ some address
    → Leaves SameSystem (soc_ops soc addr) malloc_ok raw_ok port
      × Leaves SameSystem (tap_ops tap addr) malloc_ok raw_ok port
ethernet_close-ops soc tap addr address malloc_ok raw_ok port memory = (
  IsRaw-Leaves SameSystem (soc_ops soc addr) malloc_ok raw_ok port
      (soc_ops-IsRaw soc addr address memory),
  IsRaw-Leaves SameSystem (tap_ops tap addr) malloc_ok raw_ok port (tap_ops-IsRaw tap addr),
)
