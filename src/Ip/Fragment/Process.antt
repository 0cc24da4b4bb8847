-- ===== src/Ip/Fragment/Process.antt =====
-- ip.c: `ip_fragment_alloc` and `ip_fragment_process`, under its mutex. The static variables of the file and
-- of the function are the state `Reassembly`.
use protocol_stack.Base.Bits.{◌<<<◌}
use protocol_stack.Util.Mask.{maskset, maskchk, maskclr}
use protocol_stack.Ip.Fragment.{
  ip_fragment_detach, use_after_free, patrolled, ip_fragment_patrol, ip_fragment_search, IpFragment,
}
use protocol_stack.Ip.Header.{IpHdr}
use protocol_stack.Base.{
  ◌≤◌, ◌≡◌, ◌-◌, false, true, none, [], length, ◌||◌, drop, leb, ◌==◌, ltb, bit_and, ◌++◌, some,
  ◌∷◌, if◌then◌else◌, u16, take, Option, replicate, List, ◌*◌, ℕ, ◌+◌,
}
use protocol_stack.Util.ByteOrder.{ntoh16, Endian}

-- The size of `data`, and `sizeof(fragment->mask)`.
unfoldable pub data_size : ℕ
data_size = 65535

abbrev pub mask_words : ℕ
mask_words = 2048

abbrev pub mask_bytes : ℕ
mask_bytes = 4 * mask_words

abbrev pub ip_fragment_num_max : ℕ
ip_fragment_num_max = 8

unfoldable pub cleared_data : List ℕ
cleared_data = replicate data_size 0

pub record Reassembly : Type 0 where
  pub fragments : List IpFragment
  pub timestamp : ℕ
  pub count : ℕ

-- What `malloc` returns: an address, what the words of the mask hold there, and how many bytes behind the
-- mask the program may overwrite: the object's time, and what is mapped there and not in use.
pub record Chunk : Type 0 where
  pub address : ℕ
  pub old_mask : List ℕ
  pub behind : ℕ

-- What `time` returns at its calls: for the test, in the patrol, and for the object.
pub record Clock : Type 0 where
  pub tested : ℕ
  pub patrolled_at : ℕ
  pub stamped : ℕ

-- `maskclr` is given the size in bytes and clears as many words: so many bytes behind the mask.
abbrev pub cleared_behind : ℕ
cleared_behind = 4 * mask_bytes - mask_bytes

-- The memory for an object takes its mask, and the write behind it does no harm.
abbrev pub IsRoomy : Chunk → Type 0
IsRoomy chunk = (length chunk.old_mask ≡ mask_words) × (cleared_behind ≤ chunk.behind)

-- The object when the write behind the mask does no harm; the time is cleared by it.
unfoldable pub new_fragment : IpHdr → Chunk → IpFragment
new_fragment hdr chunk = record {
  address = chunk.address;
  src = hdr.src;
  dst = hdr.dst;
  id = hdr.id;
  protocol = hdr.protocol;
  len = 0;
  bytes = cleared_data;
  mask = maskclr chunk.old_mask mask_bytes;
  timestamp = 0;
}

-- `alloc_failed` is a null pointer; `alloc_overrun` a write behind the mask into memory in use.
pub data Alloc : Type 0 where
  alloc_failed alloc_overrun : Alloc
  allocated : IpFragment → List IpFragment → Alloc

unfoldable pub ip_fragment_alloc : IpHdr → Option Chunk → List IpFragment → Alloc
ip_fragment_alloc hdr none fragments = alloc_failed
ip_fragment_alloc hdr (some chunk) fragments =
    if ltb chunk.behind cleared_behind
    then alloc_overrun
    else allocated (new_fragment hdr chunk) (new_fragment hdr chunk ∷ fragments)

-- The object for a fragment: none, or one in the state that is left.
pub data Object : Type 0 where
  object_refused object_overrun : Object
  object_given : IpFragment → Reassembly → Object

-- Find or create an object, with the number of objects created.
unfoldable pub find_or_create : IpHdr → Option Chunk → Reassembly → Object
find_or_create hdr chunk st = elim (ip_fragment_search hdr st.fragments) [
  | some fragment ↦ object_given fragment st
  | none ↦
      if leb ip_fragment_num_max st.count
      then object_refused
      else elim (ip_fragment_alloc hdr chunk st.fragments) [
        | alloc_failed ↦ object_refused
        | alloc_overrun ↦ object_overrun
        | allocated fragment fragments ↦
            object_given fragment (record st { fragments = fragments; count = st.count + 1 })
      ]
]

-- `fault` is a write past the object or its buffer, or a read from past the payload; `undefined` is a mask
-- operation that is.
pub data Stored : Type 0 where
  fault undefined : Stored
  stored : IpFragment → Stored

-- `memcpy(data + off, payload, plen)`, inside the buffer.
unfoldable pub write_at : ℕ → List ℕ → List ℕ → List ℕ
write_at off new old = take off old ++ (new ++ drop (off + length new) old)

unfoldable pub fragment_off : Endian → IpHdr → ℕ
fragment_off m hdr = u16 (bit_and (ntoh16 m hdr.offset) 0x1fff <<< 3)

-- The length of the datagram, once its last fragment is there.
unfoldable pub known_len : Endian → IpHdr → ℕ → ℕ → ℕ
known_len m hdr plen len =
    if bit_and (ntoh16 m hdr.offset) 0x2000 == 0 then u16 (fragment_off m hdr + plen) else len

unfoldable pub ip_fragment_store : Endian → IpHdr → List ℕ → ℕ → ℕ → IpFragment → Stored
ip_fragment_store m hdr payload plen now fragment =
    let off = fragment_off m hdr in
    if ltb data_size (off + plen) || ltb (length payload) plen
    then fault
    else elim (maskset fragment.mask off plen) [
      | none ↦ undefined
      | some mask ↦ stored (record fragment {
        bytes = write_at off (take plen payload) fragment.bytes;
        mask = mask;
        len = known_len m hdr plen fragment.len;
        timestamp = now;
      })
    ]

-- The object in the list, which is changed in place.
unfoldable pub write_fragment : IpFragment → List IpFragment → List IpFragment
write_fragment fragment [] = []
write_fragment fragment (entry ∷ rest) =
    let rest' = write_fragment fragment rest in
    if entry.address == fragment.address then (fragment ∷ rest) else (entry ∷ rest')

-- What a call comes to: `patrol_crash` is the patrol's use of freed memory, `broken` an allocation or a store that is not defined,
-- and `pending` a null pointer returned.
pub data Process : Type 0 where
  patrol_crash : Process
  broken : Stored → Process
  pending : Reassembly → Process
  completed : IpFragment → Reassembly → Process

unfoldable pub ip_fragment_finish : IpFragment → Reassembly → Process
ip_fragment_finish fragment st =
    let fragments = write_fragment fragment st.fragments in
    if fragment.len == 0
    then pending (record st { fragments = fragments })
    else elim (maskchk fragment.mask 0 fragment.len) [
      | none ↦ broken undefined
      | some false ↦ pending (record st { fragments = fragments })
      | some true ↦ completed fragment (record st {
        fragments = ip_fragment_detach fragment.address fragments;
        count = st.count - 1;
      })
    ]

unfoldable pub ip_fragment_add :
    Endian → Clock → IpHdr → List ℕ → ℕ → Option Chunk → Reassembly → Process
ip_fragment_add m clock hdr payload plen chunk st = elim (find_or_create hdr chunk st) [
  | object_refused ↦ pending st
  | object_overrun ↦ broken fault
  | object_given fragment st' ↦ elim (ip_fragment_store m hdr payload plen clock.stamped fragment) [
    | stored fragment' ↦ ip_fragment_finish fragment' st'
    | fault ↦ broken fault
    | undefined ↦ broken undefined
  ]
]

-- The time of the last patrol is never recorded in the source, nor the objects that it frees in the
-- count.
unfoldable pub ip_fragment_process :
    Endian → Clock → IpHdr → List ℕ → ℕ → Option Chunk → Reassembly → Process
ip_fragment_process m clock hdr payload plen chunk st =
    if ltb (st.timestamp + 10) clock.tested
    then elim (ip_fragment_patrol clock.patrolled_at st.fragments) [
      | use_after_free ↦ patrol_crash
      | patrolled fragments _ ↦
          ip_fragment_add m clock hdr payload plen chunk (record st { fragments = fragments })
    ]
    else ip_fragment_add m clock hdr payload plen chunk st
