-- ===== src/Ethernet/Device.antt =====
-- ethernet.c: a device from `ethernet_open` to `ethernet_close`, and its receiving thread. The raw device is
-- an interface over its state `W`; the calls are the main thread's.
pub mod Reach
pub mod Kept
pub mod Frames
use protocol_stack.Raw.System.{Read, Poll}
use protocol_stack.Base.{
  ◌-◌, not, ◌==◌, if◌then◌else◌, take, List, Option, Bool, ◌∷◌, false, true, some, none, [], ℕ, ◌+◌,
}
use protocol_stack.Ethernet.{
  netdev_rx_handler, ethernet_rx, Netdev, NetdevProto, Endian, bytes_eq, ethernet_addr_any,
  ethernet_addr_broadcast, ethernet_addr_len, memcpy,
}

-- `open` says whether 0 is returned, and `addr` what is then at its destination.
pub record RawOps (W : Type 0) : Type 0 where
  pub open_raw : W → Bool × W
  pub close_raw : W → W
  pub addr_raw : List ℕ → W → List ℕ × W

-- `struct ethernet_priv`: whether `raw` is a device, and the thread, `none` being the main one.
pub record EthernetPriv : Type 0 where
  pub raw : Bool
  pub thread : Option ℕ
  pub terminate : Bool

-- A device, the numbers of `ethernet_priv` and `rawdev` objects that are allocated, and the threads that run.
pub record Port (W : Type 0) : Type 0 where
  pub priv : Option EthernetPriv
  pub addr : List ℕ
  pub broadcast : List ℕ
  pub privs : ℕ
  pub raws : ℕ
  pub threads : List ℕ
  pub world : W

-- `pthread_join` of a receiving thread, which ends once it sees `terminate`.
unfoldable pub thread_end : ℕ → List ℕ → List ℕ
thread_end t [] = []
thread_end t (u ∷ threads) =
    let rest = thread_end t threads in if u == t then threads else (u ∷ rest)

-- A thread that joins itself gets an error, which is not looked at.
unfoldable pub pthread_join : Option ℕ → List ℕ → List ℕ
pthread_join none threads = threads
pthread_join (some t) threads = thread_end t threads

module _ {W : Type 0} (ops : RawOps W) where
  -- The raw device is open: the device is filled in.
  unfoldable pub ethernet_open_done : Port W → Port W
  ethernet_open_done port =
      let unset = bytes_eq (take ethernet_addr_len port.addr) ethernet_addr_any in
      let asked = ops.addr_raw port.addr port.world in
      record port {
        priv = some (record { raw = true; thread = none; terminate = false });
        addr = if unset then asked.0 else port.addr;
        world = if unset then asked.1 else port.world;
        broadcast = memcpy port.broadcast ethernet_addr_broadcast;
        privs = port.privs + 1;
        raws = port.raws + 1;
      }

  -- Whether 0 is returned. `malloc_ok` is about `priv`, `raw_ok` says whether `rawdev_alloc` gives a device.
  unfoldable pub ethernet_open : Bool → Bool → Port W → Bool × Port W
  ethernet_open malloc_ok raw_ok port =
      if not malloc_ok
      then (false, port)
      else if not raw_ok
      then (false, port)
      else (let (ok, world) = ops.open_raw port.world in
          if ok
          then (true, ethernet_open_done (record port { world = world }))
          else (false, record port { world = world }))

  -- The value returned. The `rawdev` object is not freed.
  unfoldable pub ethernet_close : Port W → ℕ × Port W
  ethernet_close port = elim port.priv [
    | none ↦ (1, port)
    | some priv ↦ (
      0,
      record port {
        threads = pthread_join priv.thread port.threads;
        world = if priv.raw then ops.close_raw port.world else port.world;
        privs = port.privs - 1;
        priv = none;
      },
    )
  ]

  -- `created` is the thread that `pthread_create` starts, if it does. `none` is the use of a null pointer.
  unfoldable pub ethernet_run : Option ℕ → Port W → Option (Bool × Port W)
  ethernet_run created port = elim port.priv [
    | none ↦ none
    | some priv ↦ elim created [
      | none ↦ some (false, port)
      | some t ↦ some (
        true,
        record port { priv = some (record priv { thread = some t }); threads = t ∷ port.threads },
      )
    ]
  ]

  unfoldable pub ethernet_stop : Port W → Option (Port W)
  ethernet_stop port = elim port.priv [
    | none ↦ none
    | some priv ↦ some (record port {
      priv = some (record priv { thread = none; terminate = false });
      threads = pthread_join priv.thread port.threads;
    })
  ]

-- A round of the receiving thread: what it sees in `terminate`, and what the system gives.
pub record Round : Type 0 where
  pub terminate : Bool
  pub poll : Poll
  pub read : Read

-- `rx` is the raw device's, and `callback` is `ethernet_rx` at the device.
unfoldable pub ethernet_rx_thread :
    {S : Type 0} → (Poll → Read → (List ℕ → S → S) → S → S) → (List ℕ → S → S) → List Round → S → S
ethernet_rx_thread rx callback [] s = s
ethernet_rx_thread rx callback (r ∷ rounds) s =
    let s' = ethernet_rx_thread rx callback rounds (rx r.poll r.read callback s) in
    if r.terminate then s else s'

-- The device and its handlers: what `ethernet_rx` passes on goes to the protocols.
unfoldable pub ethernet_rx_callback :
    {S : Type 0} → Endian → List (NetdevProto S) → Netdev → List ℕ → S → S
ethernet_rx_callback m protos dev frame s = elim (ethernet_rx m dev frame) [
  | none ↦ s
  | some (type, payload) ↦ netdev_rx_handler m protos dev type payload s
]
