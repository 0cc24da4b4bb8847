-- ===== src/Ethernet/Device/Frames.antt =====
-- ethernet.c: a frame from `ethernet_tx` of one device to the handler above another, by its thread.
use protocol_stack.Net.Laws.{netdev_rx_handler-find, proto_type}
use protocol_stack.Base.Registry.{find, IsDistinct}
use protocol_stack.Ethernet.Laws.{ethernet_rx-frame, IsAddressed}
use protocol_stack.Ethernet.{hton16, netdev_rx_handler, ethernet_frame}
use protocol_stack.Raw.Tap.{tap_dev_rx}
use protocol_stack.Raw.Soc.{soc_dev_rx}
use protocol_stack.Base.{
  ◌∙◌, ◌-◌, replicate, ◌^◌, ◌++◌, All, true, some, take_all, ap, arith, ◌≤◌, length, ◌<◌, ◌⊎◌, List,
  ◌≡◌, ◌∷◌, refl, false, [], ℕ,
}
use protocol_stack.Ethernet.Device.{
  NetdevProto, Netdev, Endian, Round, ethernet_rx_thread, ethernet_rx_callback,
}
use protocol_stack.Raw.System.{
  rx_buf_size, read_error, poll_error, poll_ready, poll_timeout, read_bytes, Poll, Read,
}

-- A round in which nothing is read.
abbrev pub IsIdle : Round → Type 0
IsIdle r =
    (r.terminate ≡ false)
    × ((r.poll ≡ poll_error)
        ⊎ ((r.poll ≡ poll_timeout) ⊎ ((r.read ≡ read_error) ⊎ (r.read ≡ read_bytes []))))

-- What `rx` of a raw device promises: it calls back with what was read, if that fits its buffer.
pub record IsRx {S : Type 0} (rx : Poll → Read → (List ℕ → S → S) → S → S) : Type 0 where
  pub idle :
      (r : Round) (callback : List ℕ → S → S) (s : S) → IsIdle r → rx r.poll r.read callback s ≡ s
  pub frame :
      (bytes : List ℕ) (callback : List ℕ → S → S) (s : S)
      → 0 < length bytes
      → length bytes ≤ rx_buf_size
      → rx poll_ready (read_bytes bytes) callback s ≡ callback bytes s

soc_quiet :
    {S : Type 0} (p : Poll) (x : Read) (callback : List ℕ → S → S) (s : S)
    → (p ≡ poll_error) ⊎ ((p ≡ poll_timeout) ⊎ ((x ≡ read_error) ⊎ (x ≡ read_bytes [])))
    → soc_dev_rx p x callback s ≡ s
unfolding soc_dev_rx
soc_quiet poll_error x callback s h = refl
soc_quiet poll_timeout x callback s h = refl
soc_quiet poll_ready read_error callback s h = refl
soc_quiet poll_ready (read_bytes []) callback s h = refl
soc_quiet poll_ready (read_bytes (b ∷ bytes)) callback s h = ground arith

pub soc_dev_rx-IsRx : {S : Type 0} → IsRx {S = S} soc_dev_rx
unfolding soc_dev_rx
soc_dev_rx-IsRx = record {
  idle = λ r callback s h. soc_quiet r.poll r.read callback s h.1;
  frame = frame;
}
  where
    frame :
        {S : Type 0} (bytes : List ℕ) (callback : List ℕ → S → S) (s : S)
        → 0 < length bytes
        → length bytes ≤ rx_buf_size
        → soc_dev_rx poll_ready (read_bytes bytes) callback s ≡ callback bytes s
    frame [] callback s some_bytes fits = absurd (omega arith)
    frame (b ∷ bytes) callback s some_bytes fits =
        ap (λ f. callback f s) (take_all rx_buf_size (b ∷ bytes) fits)

tap_quiet :
    {S : Type 0} (p : Poll) (x : Read) (callback : List ℕ → S → S) (s : S)
    → (p ≡ poll_error) ⊎ ((p ≡ poll_timeout) ⊎ ((x ≡ read_error) ⊎ (x ≡ read_bytes [])))
    → tap_dev_rx p x callback s ≡ s
unfolding tap_dev_rx
tap_quiet poll_error x callback s h = refl
tap_quiet poll_timeout x callback s h = refl
tap_quiet poll_ready read_error callback s h = refl
tap_quiet poll_ready (read_bytes []) callback s h = refl
tap_quiet poll_ready (read_bytes (b ∷ bytes)) callback s h = ground arith

pub tap_dev_rx-IsRx : {S : Type 0} → IsRx {S = S} tap_dev_rx
unfolding tap_dev_rx
tap_dev_rx-IsRx = record {
  idle = λ r callback s h. tap_quiet r.poll r.read callback s h.1;
  frame = frame;
}
  where
    frame :
        {S : Type 0} (bytes : List ℕ) (callback : List ℕ → S → S) (s : S)
        → 0 < length bytes
        → length bytes ≤ rx_buf_size
        → tap_dev_rx poll_ready (read_bytes bytes) callback s ≡ callback bytes s
    frame [] callback s some_bytes fits = absurd (omega arith)
    frame (b ∷ bytes) callback s some_bytes fits =
        ap (λ f. callback f s) (take_all rx_buf_size (b ∷ bytes) fits)

module _ {S : Type 0} (rx : Poll → Read → (List ℕ → S → S) → S → S) (is : IsRx rx) where
  thread-idle :
      (callback : List ℕ → S → S) (idle rounds : List Round) (s : S)
      → All IsIdle idle
      → ethernet_rx_thread rx callback (idle ++ rounds) s ≡ ethernet_rx_thread rx callback rounds s
  unfolding ethernet_rx_thread
  thread-idle callback [] rounds s h = refl
  thread-idle callback (r ∷ idle) rounds s (first, rest) =
      let quiet = is.idle r callback s first in
      rw (ethernet_rx_thread, first.0, quiet) (thread-idle callback idle rounds s rest)

  -- A frame that `ethernet_tx` hands to the raw device, read by the thread of a device that it is addressed
  -- to, after any number of rounds in which nothing is read, makes the thread call the handler of its type,
  -- once, with the payload and zeros up to 46 bytes; then the thread ends if it is told to.
  pub ethernet_rx_thread-frame :
      (m : Endian) (sender receiver : Netdev) (type : ℕ) (payload dst frame : List ℕ)
      (protos : List (NetdevProto S)) (entry : NetdevProto S) (idle : List Round) (stop : Round)
      (later : List Round) (s : S)
      → type < 2 ^ 16
      → 6 ≤ length dst
      → 6 ≤ length sender.addr
      → ethernet_frame m sender type (some payload) (some dst) ≡ some frame
      → IsAddressed receiver dst
      → All (λ (p : NetdevProto S). p.type < 2 ^ 16) protos
      → IsDistinct proto_type protos
      → find proto_type type protos ≡ some entry
      → All IsIdle idle
      → stop.terminate ≡ true
      → ethernet_rx_thread rx
          (ethernet_rx_callback m protos receiver)
          (idle
            ++ (record { terminate = false; poll = poll_ready; read = read_bytes frame }
                ∷ stop
                ∷ later))
          s
        ≡ entry.handler (payload ++ replicate (46 - length payload) 0) receiver s
  unfolding ethernet_rx_thread ethernet_rx_callback
  ethernet_rx_thread-frame m sender receiver type payload dst frame protos entry idle stop later s
        ht hd ha e to small distinct found quiet ends =
      let (taken, dropped, low, high) =
        ethernet_rx-frame m sender receiver type payload dst frame ht hd ha e in
      let callback = ethernet_rx_callback m protos receiver in
      let read = is.frame frame callback s (omega (arith, low)) (omega (arith, high)) in
      let passed : callback frame s
          ≡ netdev_rx_handler m protos receiver (hton16 m type)
              (payload ++ replicate (46 - length payload) 0) s =
        rw (ethernet_rx_callback, taken to) refl in
      let handled =
        netdev_rx_handler-find m receiver (payload ++ replicate (46 - length payload) 0) protos type
          entry s ht small distinct found in
      thread-idle callback idle
        (record { terminate = false; poll = poll_ready; read = read_bytes frame } ∷ stop ∷ later) s
        quiet
      ∙ rw (ethernet_rx_thread, ends) (read ∙ passed ∙ handled)
