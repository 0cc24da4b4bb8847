-- ===== src/Raw.antt =====
-- raw.h and raw.c: raw devices, and which operations a device gets. `HAVE_PF_PACKET` is taken as defined:
-- without it `rawdev_detect_type` does not compile.
pub mod System
pub mod Soc
pub mod Tap
pub mod Ops
use protocol_stack.Base.{
  arith, ◌↔◌, ◌≢◌, ◌==◌, ◌&&◌, take, ◌≡◌, if◌then◌else◌, Option, Bool, List, ◌∷◌, false, some, none,
  [], ℕ, ◌+◌,
}
use protocol_stack.Ethernet.{bytes_eq}

abbrev pub rawdev_type_auto : ℕ
rawdev_type_auto = 0

abbrev pub rawdev_type_tap : ℕ
rawdev_type_tap = 1

abbrev pub rawdev_type_socket : ℕ
rawdev_type_socket = 2

pub data RawdevOps : Type 0 where
  tap_dev_ops soc_dev_ops : RawdevOps

-- `struct rawdev`; `priv` is the descriptor's object, once the device is open.
pub record Rawdev (P : Type 0) : Type 0 where
  pub type : ℕ
  pub name : List ℕ
  pub ops : RawdevOps
  pub priv : Option P

-- `strncmp(name, "tap", 3) == 0`
unfoldable pub rawdev_detect_type : List ℕ → ℕ
rawdev_detect_type name =
    if bytes_eq (take 3 name) (116 ∷ 97 ∷ 112 ∷ []) then rawdev_type_tap else rawdev_type_socket

-- The `switch` on the type; `have_tap` says whether `HAVE_TAP` is defined.
unfoldable pub ops_of : Bool → ℕ → Option RawdevOps
ops_of have_tap type =
    if have_tap && type == rawdev_type_tap
    then some tap_dev_ops
    else if type == rawdev_type_socket
    then some soc_dev_ops
    else none

unfoldable pub rawdev_alloc : {P : Type 0} → Bool → Bool → ℕ → List ℕ → Option (Rawdev P)
rawdev_alloc have_tap malloc_ok type name =
    let type' = if type == rawdev_type_auto then rawdev_detect_type name else type in
    elim (ops_of have_tap type') [
      | none ↦ none
      | some ops ↦
          if malloc_ok
          then some (record { type = type'; name = name; ops = ops; priv = none })
          else none
    ]

-- A device is allocated only with the operations of its own type: for a given type that of the type, and
-- else that of its name, which is a tap device's exactly if it begins with "tap" and those are compiled in.
pub rawdev_alloc_lem :
    {P : Type 0} (have_tap malloc_ok : Bool) (type : ℕ) (name : List ℕ) (dev : Rawdev P)
    → rawdev_alloc have_tap malloc_ok type name ≡ some dev
    → (dev.name ≡ name)
      × (dev.priv ≡ none)
      × (type ≢ rawdev_type_auto → dev.type ≡ type)
      × ((dev.ops ≡ tap_dev_ops) ↔ (dev.type ≡ rawdev_type_tap))
      × ((dev.ops ≡ soc_dev_ops) ↔ (dev.type ≡ rawdev_type_socket))
      × (have_tap ≡ false → dev.ops ≡ soc_dev_ops)
unfolding rawdev_alloc ops_of
rawdev_alloc_lem have_tap malloc_ok type name dev e = ground arith
