-- ===== src/Ip/Fragment.antt =====
-- ip.c: the list of datagrams in reassembly: search, detach and patrol. An object's address in memory is
-- its field `address`.
pub mod Laws
pub mod Process
pub mod Buffer
pub mod Collect
pub mod Arrivals
pub mod Complete
pub mod Starve
pub mod Others
pub mod Since
pub mod Seen
pub mod Mixed
pub mod Count
pub mod Finish
pub mod Written
pub mod Calls
use protocol_stack.Base.{
  ℕ, ◌+◌, Bool, true, false, ◌&&◌, List, [], ◌∷◌, Option, none, some, ◌==◌, ltb, if◌then◌else◌,
}
use protocol_stack.Ip.Header.{IpHdr}

abbrev pub ip_fragment_timeout_sec : ℕ
ip_fragment_timeout_sec = 30

pub record IpFragment : Type 0 where
  pub address : ℕ
  pub src : ℕ
  pub dst : ℕ
  pub id : ℕ
  pub protocol : ℕ
  pub len : ℕ
  pub bytes : List ℕ
  pub mask : List ℕ
  pub timestamp : ℕ

unfoldable pub is_same_datagram : IpHdr → IpFragment → Bool
is_same_datagram hdr entry =
    entry.src == hdr.src
    && (entry.dst == hdr.dst && (entry.id == hdr.id && entry.protocol == hdr.protocol))

unfoldable pub ip_fragment_search : IpHdr → List IpFragment → Option IpFragment
ip_fragment_search hdr [] = none
ip_fragment_search hdr (entry ∷ rest) =
    if is_same_datagram hdr entry then some entry else ip_fragment_search hdr rest

-- The list after the call; the object of the address is the one that is returned.
unfoldable pub ip_fragment_detach : ℕ → List IpFragment → List IpFragment
ip_fragment_detach address [] = []
ip_fragment_detach address (entry ∷ rest) =
    let rest' = ip_fragment_detach address rest in
    if entry.address == address then rest else (entry ∷ rest')

-- `now - entry->timestamp > IP_FRAGMENT_TIMEOUT_SEC`, a signed comparison.
unfoldable pub is_timed_out : ℕ → IpFragment → Bool
is_timed_out now entry = ltb (entry.timestamp + ip_fragment_timeout_sec) now

-- `use_after_free` is a loop that goes on with an object that it has freed; `patrolled` holds the list
-- and the count.
pub data Patrol : Type 0 where
  use_after_free : Patrol
  patrolled : List IpFragment → ℕ → Patrol

-- The source sets `entry` to the successor before it calls `free(entry)`: what is freed is the successor,
-- and the loop goes on with it. `free` of a null pointer does nothing.
unfoldable pub ip_fragment_patrol : ℕ → List IpFragment → Patrol
ip_fragment_patrol now [] = patrolled [] 0
ip_fragment_patrol now (entry ∷ rest) = elim (is_timed_out now entry) [
  | true ↦ unlink rest
  | false ↦ elim (ip_fragment_patrol now rest) [
    | use_after_free ↦ use_after_free
    | patrolled list count ↦ patrolled (entry ∷ list) count
  ]
]
  where
    unlink : List IpFragment → Patrol
    unlink [] = patrolled [] 1
    unlink (next ∷ more) = use_after_free
