-- ===== src/Tests/IpMixed.antt =====
-- ip.c at concrete inputs: fragments of two datagrams.
use protocol_stack.Tests.IpReceive.{
  sender, second_piece, memory, at_100, ten_bytes, first_hdr, object,
}
use protocol_stack.Ip.Fragment.Arrivals.{Arrival}
use protocol_stack.Ip.Fragment.Calls.{Call}
use protocol_stack.Ip.Fragment.Others.{ip_fragment_process-others, KeepsResult}
use protocol_stack.Util.ByteOrder.{little}
use protocol_stack.Ip.Fragment.{ip_fragment_search}
use protocol_stack.Ip.Header.{IpHdr}
use protocol_stack.Ip.Receive.Packets.{piece_header}
use protocol_stack.Base.{arith, ◌∷◌, refl, some, none, []}
use protocol_stack.Ip.Fragment.Process.{ip_fragment_process, Reassembly}

abbrev one_object : Reassembly
one_object = record { fragments = object ∷ []; timestamp = 0; count = 1 }

abbrev other_hdr : IpHdr
other_hdr = record first_hdr { id = 0x8100 }

ip_fragment_process-others_runs : KeepsResult other_hdr (object ∷ []) (
    ip_fragment_process little at_100 other_hdr ten_bytes 8
      (some (record memory { address = 8 }))
      one_object)
ip_fragment_process-others_runs =
    ip_fragment_process-others little at_100 other_hdr ten_bytes 8
      (some (record memory { address = 8 })) one_object 100 (omega arith, tt) (omega arith)
      (tt, (λ h same. unfold ip_fragment_search in refl), tt) ((λ e. omega arith), tt)

-- The second fragment comes after a call for another datagram that gets no memory.
abbrev second_arrival : Arrival
second_arrival = record {
  piece = second_piece.piece;
  padding = [];
  hdr = piece_header little sender 10 second_piece.piece;
  clock = at_100;
  chunk = some memory;
}

abbrev refused_call : Call
refused_call = record {
  hdr = other_hdr;
  payload = ten_bytes;
  plen = 8;
  clock = at_100;
  chunk = none;
}
