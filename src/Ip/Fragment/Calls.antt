-- ===== src/Ip/Fragment/Calls.antt =====
-- ip.c: calls of `ip_fragment_process` for one datagram and for others, in any order.
use protocol_stack.Ip.Tx.Plan.{piece_bytes}
use protocol_stack.Ip.Fragment.{ip_fragment_search, IpFragment}
use protocol_stack.Util.ByteOrder.{Endian}
use protocol_stack.Ip.Header.{IpHdr}
use protocol_stack.Ip.Fragment.Process.{
  IsRoomy, ip_fragment_process, Process, Chunk, Reassembly, Clock, pending, completed,
}
use protocol_stack.Base.{◌++◌, ◌⊎◌, ◌≤◌, ◌≡◌, ◌<◌, Option, List, ◌∷◌, some, [], ℕ, ◌+◌}
use protocol_stack.Ip.Fragment.Arrivals.{Arrival, IsArrival, SameDatagram}
use protocol_stack.Ip.Fragment.Others.{IsFresh}

-- A call for another datagram: what it is given.
pub record Call : Type 0 where
  pub hdr : IpHdr
  pub payload : List ℕ
  pub plen : ℕ
  pub clock : Clock
  pub chunk : Option Chunk

-- There is an object for the datagram, or memory and room for one, the bytes behind it included.
abbrev pub HasPlace : IpHdr → Option Chunk → Reassembly → Type 0
HasPlace hdr chunk st =
    ((f : IpFragment) × (ip_fragment_search hdr st.fragments ≡ some f))
    ⊎ ((c : Chunk) × (chunk ≡ some c) × IsRoomy c × (st.count < 8))

abbrev pub arrive : Endian → List ℕ → Arrival → Reassembly → Process
arrive m payload a st =
    ip_fragment_process m a.clock a.hdr (piece_bytes payload a.piece ++ a.padding) a.piece.size
      a.chunk st

abbrev pub call : Endian → Call → Reassembly → Process
call m c st = ip_fragment_process m c.clock c.hdr c.payload c.plen c.chunk st

-- The states that calls come to in the 30 seconds from `since` on, with the fragments of the payload that
-- have come in, the last one first. None of these calls has returned an object; those for other datagrams
-- may.
pub data Mixed (m : Endian) (step : ℕ) (payload : List ℕ) (hdr : IpHdr) (since : ℕ)
    (first : Reassembly) : List Arrival → Reassembly → Type 0 where
  start : Mixed m step payload hdr since first [] first
  own :
      {arrivals : List Arrival} {st st' : Reassembly} (a : Arrival)
      → Mixed m step payload hdr since first arrivals st
      → IsArrival m step payload hdr since a
      → IsFresh a.chunk st.fragments
      → HasPlace hdr a.chunk st
      → arrive m payload a st ≡ pending st'
      → Mixed m step payload hdr since first (a ∷ arrivals) st'
  other :
      {arrivals : List Arrival} {st st' : Reassembly} (c : Call)
      → Mixed m step payload hdr since first arrivals st
      → ¬ SameDatagram c.hdr hdr
      → since ≤ c.clock.stamped
      → c.clock.patrolled_at ≤ since + 30
      → IsFresh c.chunk st.fragments
      → (call m c st ≡ pending st') ⊎ ((g : IpFragment) × (call m c st ≡ completed g st'))
      → Mixed m step payload hdr since first arrivals st'
