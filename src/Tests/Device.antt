-- ===== src/Tests/Device.antt =====
-- The bit mask, and the raw and Ethernet devices, at concrete inputs.
use protocol_stack.Base.Registry.{find}
use protocol_stack.Ethernet.Device.Frames.{tap_dev_rx-IsRx, ethernet_rx_thread-frame}
use protocol_stack.Util.ByteOrder.{little}
use protocol_stack.Raw.{tap_dev_ops}
use protocol_stack.Ethernet.Device.Kept.{Leaves}
use protocol_stack.Raw.Tap.{tap_dev_rx, TapCalls}
use protocol_stack.Raw.Ops.{ethernet_close-ops, tap_ops, soc_ops, SameSystem, AddrCalls, RawWorld}
use protocol_stack.Util.Mask.Check.{maskchk_lem}
use protocol_stack.Util.Mask.Ranges.{RangeSet}
use protocol_stack.Util.Mask.Laws.{maskset_lem}
use protocol_stack.Ethernet.{ethernet_addr_any, ethernet_addr_broadcast, bytes_eq}
use protocol_stack.Util.Mask.Words.{SetsRange}
use protocol_stack.Ethernet.Device.Reach.{ethernet_open_lem}
use protocol_stack.Ethernet.Device.{
  ethernet_run, ethernet_rx_callback, ethernet_rx_thread, ethernet_close, ethernet_open_done,
  ethernet_open, Port, RawOps,
}
use protocol_stack.Raw.Soc.{
  soc_dev_open_lem, soc_dev_close, soc_dev_error, soc_dev_setup, soc_dev_open, SocCalls,
}
use protocol_stack.Raw.System.{
  poll_timeout, poll_ready, read_bytes, read_error, remove, iff_promisc, sys_alloc, sys_open,
  opened, sys_close, Handle, sys_free, failed, null_write, Sys,
}
use protocol_stack.Util.Mask.{set_tail, set_loop, set_rest, first_run, maskchk, first_bits, maskset}
use protocol_stack.Tests.Link.{counters, hello_frame, ethernet_frame_runs}
use protocol_stack.Tests.Data.{dev_a, dev_b, hello}
use protocol_stack.Net.{NetdevProto}
use protocol_stack.Base.{
  inr, bit_or, arith, take, ◌⊎◌, ◌↔◌, ◌≡◌, replicate, Bool, List, ◌∷◌, refl, false, true, inl, some,
  none, [], ℕ, ◌+◌,
}

abbrev clear_mask : List ℕ
clear_mask = replicate 3 0

maskset_runs : maskset clear_mask 28 40 ≡ some (0xf0000000 ∷ 0xffffffff ∷ 0xf ∷ [])
unfolding maskset first_bits first_run set_rest set_loop set_tail
maskset_runs = refl

maskset_lem_example :
    (mask' : List ℕ) × (maskset clear_mask 28 40 ≡ some mask')
    × SetsRange 28 (28 + 40) clear_mask mask'
maskset_lem_example =
    maskset_lem clear_mask 28 40 (omega arith, (omega arith, (omega arith, tt))) (omega arith)
      (omega arith)

maskchk_lem_example :
    (b : Bool) × (maskchk clear_mask 28 40 ≡ some b)
    × ((b ≡ true) ↔ RangeSet 28 (28 + 40) clear_mask)
maskchk_lem_example =
    maskchk_lem clear_mask 28 40 (omega arith, (omega arith, (omega arith, tt))) (omega arith)
      (omega arith)

abbrev empty_sys : Sys
empty_sys = record { fds = []; objects = []; flags = 0x43 }

-- The interface cannot be made promiscuous.
abbrev calls : SocCalls
calls = record {
  memory = some 1;
  socket = some 3;
  ifindex = true;
  bind = true;
  get_flags = true;
  set_flags = false;
}

soc_dev_open_runs : soc_dev_open calls empty_sys ≡ (failed, empty_sys)
unfolding soc_dev_open soc_dev_setup soc_dev_error soc_dev_close sys_free sys_close sys_open
    sys_alloc remove
soc_dev_open_runs = refl

soc_dev_open_lem_example :
    let result = soc_dev_open calls empty_sys in
    ((calls.memory ≡ none) × (result ≡ (null_write, empty_sys)))
    ⊎ (((address : ℕ) × (calls.memory ≡ some address))
        × ((result ≡ (failed, empty_sys))
            ⊎ ((dev : Handle) × (result.0 ≡ opened dev)
                × (soc_dev_close dev result.1
                    ≡ record empty_sys { flags = bit_or 0x43 iff_promisc }))))
soc_dev_open_lem_example = soc_dev_open_lem calls empty_sys

-- A raw device that counts how often it is closed.
abbrev raw_ops : RawOps ℕ
raw_ops = record {
  open_raw = λ w. (true, w);
  close_raw = λ w. w + 1;
  addr_raw = λ dst w. (2 ∷ 0 ∷ 0 ∷ 0 ∷ 0 ∷ 10 ∷ [], w);
}

abbrev fresh_port : Port ℕ
fresh_port = record {
  priv = none;
  addr = replicate 6 0;
  broadcast = replicate 6 0;
  privs = 0;
  raws = 0;
  threads = [];
  world = 0;
}

abbrev open_port : Port ℕ
open_port = record {
  priv = some (record { raw = true; thread = none; terminate = false });
  addr = 2 ∷ 0 ∷ 0 ∷ 0 ∷ 0 ∷ 10 ∷ [];
  broadcast = replicate 6 255;
  privs = 1;
  raws = 1;
  threads = [];
  world = 0;
}

ethernet_open_runs : ethernet_open raw_ops true true fresh_port ≡ (true, open_port)
unfolding ethernet_open ethernet_open_done bytes_eq
ethernet_open_runs = refl

ethernet_open_lem_example :
    let (ok, after) = ethernet_open raw_ops true true fresh_port in
    ((ok ≡ false) × (after.priv ≡ none) × (after.privs ≡ 0) × (after.raws ≡ 0))
    ⊎ ((ok ≡ true)
        × (take 6 after.broadcast ≡ ethernet_addr_broadcast)
        × (bytes_eq (take 6 fresh_port.addr) ethernet_addr_any ≡ false
            → after.addr ≡ fresh_port.addr)
        × (bytes_eq (take 6 fresh_port.addr) ethernet_addr_any ≡ true
            → after.addr
              ≡ (raw_ops.addr_raw fresh_port.addr (raw_ops.open_raw fresh_port.world).1).0)
        × (running : Port ℕ) × (ethernet_run raw_ops (some 7) after ≡ some (true, running))
        × (running.threads ≡ 7 ∷ [])
        × ((ethernet_close raw_ops running).0 ≡ 0)
        × ((ethernet_close raw_ops running).1.priv ≡ none)
        × ((ethernet_close raw_ops running).1.threads ≡ [])
        × ((ethernet_close raw_ops running).1.privs ≡ 0)
        × ((ethernet_close raw_ops running).1.raws ≡ 0 + 1)
        × ((ethernet_close raw_ops running).1.world ≡ raw_ops.close_raw after.world))
ethernet_open_lem_example = ethernet_open_lem raw_ops true true 7 fresh_port

abbrev ip_counter : NetdevProto (ℕ × ℕ)
ip_counter = record { type = 0x0800; handler = λ p d s. (s.0 + 1, s.1) }

-- A frame after a round without one, over a tap interface.
ethernet_rx_thread-frame_example :
    ethernet_rx_thread tap_dev_rx
      (ethernet_rx_callback little counters dev_b)
      (record { terminate = false; poll = poll_timeout; read = read_error }
        ∷ record { terminate = false; poll = poll_ready; read = read_bytes hello_frame }
        ∷ record { terminate = true; poll = poll_timeout; read = read_error }
        ∷ [])
      (0, 0)
    ≡ (1, 0)
ethernet_rx_thread-frame_example =
    ethernet_rx_thread-frame tap_dev_rx tap_dev_rx-IsRx little dev_a dev_b 0x0800 hello dev_b.addr
      hello_frame counters ip_counter
      (record { terminate = false; poll = poll_timeout; read = read_error } ∷ [])
      (record { terminate = true; poll = poll_timeout; read = read_error }) [] (0, 0) (omega arith)
      (omega arith) (omega arith) ethernet_frame_runs (inl refl) (omega arith, (omega arith, tt))
      (unfold find in (refl, (refl, tt))) (unfold find in refl) ((refl, inr (inl refl)), tt) refl

abbrev raw_port : Port RawWorld
raw_port = record {
  priv = none;
  addr = replicate 6 0;
  broadcast = replicate 6 0;
  privs = 0;
  raws = 0;
  threads = [];
  world = some (
    record { type = 1; name = b't' ∷ b'a' ∷ b'p' ∷ []; ops = tap_dev_ops; priv = none },
    empty_sys,
  );
}

abbrev tap_calls : TapCalls
tap_calls = record { memory = some 1; open_clone = some 3; set_iff = true }

abbrev addr_calls : AddrCalls
addr_calls = record { socket = some 4; hwaddr = some (2 ∷ 0 ∷ 0 ∷ 0 ∷ 0 ∷ 10 ∷ []) }

ethernet_close-ops_example :
    Leaves SameSystem (soc_ops calls addr_calls) true true raw_port
    × Leaves SameSystem (tap_ops tap_calls addr_calls) true true raw_port
ethernet_close-ops_example = ethernet_close-ops calls tap_calls addr_calls 1 true true raw_port refl
