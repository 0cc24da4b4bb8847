-- ===== src/Ethernet/Device/Reach.antt =====
-- ethernet.c: the states that a device can come to.
use protocol_stack.Base.{
  refl, take, arith, ◌&&◌, Bool-cases, ◌⊎◌, Option, ◌≡◌, Bool, inr, inl, ◌∷◌, false, true, some,
  none, [], ℕ, ◌+◌,
}
use protocol_stack.Ethernet.Device.{
  ethernet_addr_any, bytes_eq, ethernet_addr_broadcast, thread_end, EthernetPriv, pthread_join,
  ethernet_open_done, Port, RawOps, ethernet_open, ethernet_close, ethernet_run, ethernet_stop,
}

module _ {W : Type 0} (ops : RawOps W) where
  -- The calls of a program that opens a device only when it is not open, and runs it only when no receiving
  -- thread is known; it may stop and close it at any time, and any call may fail.
  pub data EthernetStep : Port W → Port W → Type 0 where
    opening :
        {port : Port W} (malloc_ok raw_ok : Bool)
        → port.priv ≡ none
        → EthernetStep port (ethernet_open ops malloc_ok raw_ok port).1
    running :
        {port port' : Port W} (created : Option ℕ) (ok : Bool) (priv : EthernetPriv)
        → port.priv ≡ some priv
        → priv.thread ≡ none
        → ethernet_run ops created port ≡ some (ok, port')
        → EthernetStep port port'
    stopping : {port port' : Port W} → ethernet_stop ops port ≡ some port' → EthernetStep port port'
    closing : {port : Port W} → EthernetStep port (ethernet_close ops port).1

  pub data EthernetReach : Port W → Port W → Type 0 where
    start : {port : Port W} → EthernetReach port port
    then_step :
        {port port' port'' : Port W}
        → EthernetReach port port'
        → EthernetStep port' port''
        → EthernetReach port port''

-- A device that is not open has no thread and no object; one that is open has one object and an open raw
-- device, and the thread that runs is the one it knows.
abbrev pub IsPort : {W : Type 0} → Port W → Type 0
IsPort port =
    ((port.priv ≡ none) × (port.threads ≡ []) × (port.privs ≡ 0))
    ⊎ ((priv : EthernetPriv) × (port.priv ≡ some priv)
        × (priv.raw ≡ true)
        × (priv.terminate ≡ false)
        × (port.privs ≡ 1)
        × (((priv.thread ≡ none) × (port.threads ≡ []))
            ⊎ ((t : ℕ) × (priv.thread ≡ some t) × (port.threads ≡ t ∷ []))))

module _ {W : Type 0} (ops : RawOps W) where
  -- An open either fails, and then allocates nothing, or gives a device with the broadcast address of all
  -- ones, which keeps its address if that was not all zeros and else has what the raw device gave. Running it
  -- starts a thread; closing it then ends that thread, closes the raw device and frees the object, but not
  -- that of the raw device.
  pub ethernet_open_lem :
      (malloc_ok raw_ok : Bool) (t : ℕ) (port : Port W)
      → let (ok, after) = ethernet_open ops malloc_ok raw_ok port in
        ((ok ≡ false)
          × (after.priv ≡ port.priv)
          × (after.privs ≡ port.privs)
          × (after.raws ≡ port.raws))
        ⊎ ((ok ≡ true)
            × (take 6 after.broadcast ≡ ethernet_addr_broadcast)
            × (bytes_eq (take 6 port.addr) ethernet_addr_any ≡ false → after.addr ≡ port.addr)
            × (bytes_eq (take 6 port.addr) ethernet_addr_any ≡ true
                → after.addr ≡ (ops.addr_raw port.addr (ops.open_raw port.world).1).0)
            × (running : Port W) × (ethernet_run ops (some t) after ≡ some (true, running))
            × (running.threads ≡ t ∷ port.threads)
            × ((ethernet_close ops running).0 ≡ 0)
            × ((ethernet_close ops running).1.priv ≡ none)
            × ((ethernet_close ops running).1.threads ≡ port.threads)
            × ((ethernet_close ops running).1.privs ≡ port.privs)
            × ((ethernet_close ops running).1.raws ≡ port.raws + 1)
            × ((ethernet_close ops running).1.world ≡ ops.close_raw after.world))
  unfolding ethernet_open ethernet_open_done ethernet_run ethernet_close pthread_join thread_end
  ethernet_open_lem malloc_ok raw_ok t port =
      elim (Bool-cases (malloc_ok && (raw_ok && (ops.open_raw port.world).0))) [
        | inr fails ↦ inl (ground arith)
        | inl works ↦
            let opened =
              ethernet_open_done ops (record port { world = (ops.open_raw port.world).1 }) in
            let running : Port W = record opened {
              priv = some (record { raw = true; thread = some t; terminate = false });
              threads = t ∷ port.threads;
            } in
            inr (
              ground arith,
              ground arith,
              ground arith,
              ground arith,
              running,
              ground arith,
              refl,
              refl,
              refl,
              ground arith,
              ground arith,
              refl,
              ground arith,
            )
      ]
