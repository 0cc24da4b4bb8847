-- ===== src/Ip/Receive/Datagrams.antt =====
-- ip.c: the packets of `ip_tx` through `ip_rx`.
use mathlib.Core.List.{append_assoc}
use protocol_stack.Ip.Receive.Packets.{
  piece_packet, arrivals_of-HasByte, Process-cases, packets_of, CarriesByte, piece-fragmented,
  arrivals_of, arrival_of, IsCarried, ip_rx_all, Carried, piece_header, Reaches, Sender,
}
use protocol_stack.Ip.Fragment.Complete.{ip_fragment_run_lem}
use protocol_stack.Ip.Tx.Laws.{ip_rx_check-ip_tx_header}
use protocol_stack.Util.ByteOrder.Laws.{ntoh16-hton16}
use protocol_stack.Ip.Fragment.{ip_fragment_search, IpFragment}
use protocol_stack.Ip.Protocol.{ip_dispatch, Delivery}
use protocol_stack.Ip.Header.{write_header}
use protocol_stack.Net.{Netif}
use protocol_stack.Ip.Receive.{
  ip_rx_deliver, ip_rx_accepted, ip_rx, ip_rx_check, Accepted, IpRx, IpProtocol, Netdev, Endian,
  rx_broken, rx_crash, rx_done,
}
use protocol_stack.Ip.Rx.{accepted}
use protocol_stack.Ip.Tx.{fragment_offset, ip_tx_header, source_of}
use protocol_stack.Ip.Fragment.Process.{
  IsRoomy, patrol_crash, ip_fragment_process, Reassembly, Chunk, Process, completed, broken,
  pending,
}
use protocol_stack.Base.{
  none, Bool, ap, sym, ◌∙◌, length-drop, take, drop, length-take, arith, All, ◌++◌, length, ◌≡◌,
  ◌<◌, ◌≤◌, List, ◌∷◌, refl, suc, true, inr, inl, some, [], ℕ,
}
use protocol_stack.Ip.Tx.Plan.{Piece, piece_bytes}
use protocol_stack.Ip.Fragment.Arrivals.{IsSince, ip_fragment_run, IsArrival}

module _ {S : Type 0} (m : Endian) (from : Sender) (receiver : Netdev) (n : Netif)
    (protocols : List (IpProtocol S)) (step : ℕ) (buf : List ℕ) (since : ℕ)
    (reaches : Reaches from receiver n) (more : step < length buf)
    (small : length buf ≤ 65515) where
  arrival-IsArrival :
      (c : Carried) (p : Piece)
      → IsCarried step (length buf) since c
      → IsArrival m step buf
          (piece_header m from (length buf) p)
          since
          (arrival_of m from (length buf) c)
  unfolding piece_header ip_tx_header
  arrival-IsArrival c p carried = record {
    piece = carried.piece;
    header = record {
      field =
          ntoh16-hton16 m (fragment_offset (length buf) c.piece.pos c.piece.size)
            (ground (arith, carried.piece.flag));
    };
    same = (refl, refl, refl, refl);
    after = carried.after;
    in_time = carried.in_time;
  }

  arrivals-All :
      (pieces : List Carried) (p : Piece)
      → All (IsCarried step (length buf) since) pieces
      → All
          (IsArrival m step buf (piece_header m from (length buf) p) since)
          (arrivals_of m from (length buf) pieces)
  arrivals-All [] p h = tt
  arrivals-All (c ∷ pieces) p (first, rest) =
      (arrival-IsArrival c p first, arrivals-All pieces p rest)

  abbrev accepted_of : Carried → Accepted
  accepted_of c = record {
    hdr = piece_header m from (length buf) c.piece;
    payload = piece_bytes buf c.piece ++ c.padding;
    plen = c.piece.size;
    netif = n;
    fragmented = true;
  }

  piece_accepted :
      (c : Carried)
      → IsCarried step (length buf) since c
      → ip_rx_check m receiver (piece_packet m from buf c.piece ++ c.padding)
        ≡ accepted (accepted_of c)
  unfolding piece_header
  piece_accepted c carried =
      let piece = carried.piece in
      let offset = fragment_offset (length buf) c.piece.pos c.piece.size in
      let size : length (piece_bytes buf c.piece) ≡ c.piece.size = omega (
        arith,
        length-take c.piece.size (drop c.piece.pos buf),
        length-drop c.piece.pos buf,
        piece.within,
      ) in
      let fragmented = piece-fragmented step (length buf) c.piece more (omega arith) piece in
      ap (ip_rx_check m receiver) (
        append_assoc (write_header m (piece_header m from (length buf) c.piece))
          (piece_bytes buf c.piece) c.padding)
      ∙ ip_rx_check-ip_tx_header m from.netif from.protocol c.piece.size from.id offset from.dst
          from.src (omega (arith, piece.within)) reaches.protocol reaches.id
          (ground (arith, piece.flag)) reaches.dst reaches.src receiver n (piece_bytes buf c.piece)
          c.padding size reaches.interface reaches.to_n
      ∙ ap (λ (b : Bool). accepted (record (accepted_of c) { fragmented = b })) fragmented

  -- What the handler is called with.
  abbrev delivery : List ℕ → ℕ → Delivery
  delivery payload plen = record {
    payload = payload;
    plen = plen;
    src = source_of from.netif from.src;
    dst = from.dst;
    netif = n;
  }

  ip_rx_all-run :
      (pieces : List Carried) (st st' : Reassembly) (s : S) (f : IpFragment)
      → All (IsCarried step (length buf) since) pieces
      → ip_fragment_run m buf (arrivals_of m from (length buf) pieces) st ≡ completed f st'
      → (k : ℕ) × (ip_rx_all m receiver protocols (take k (packets_of m from buf pieces)) st s
          ≡ rx_done st' (ip_dispatch protocols from.protocol (delivery f.bytes f.len) s))
  unfolding ip_fragment_run ip_rx_all ip_rx ip_rx_accepted ip_rx_deliver piece_header ip_tx_header
  ip_rx_all-run [] st st' s f h run = absurd (cc)
  ip_rx_all-run (c ∷ pieces) st st' s f (first, rest) run =
      let check = piece_accepted c first in
      let hdr = piece_header m from (length buf) c.piece in
      elim (Process-cases (
        ip_fragment_process m c.clock hdr (piece_bytes buf c.piece ++ c.padding) c.piece.size
          c.chunk st)) [
            | inl (inl e) ↦ let stops = as_call patrol_crash e in absurd (cc)
            | inl (inr (bad, e)) ↦ let stops = as_call (broken bad) e in absurd (cc)
            | inr (inl (st1, e)) ↦
                let (k, all) =
                  ip_rx_all-run pieces st1 st' s f rest (sym (as_call (pending st1) e) ∙ run) in
                (suc k, rw (ip_rx_all, ip_rx, check, ip_rx_accepted, e) all)
            | inr (inr (g, st2, e)) ↦ (
              1,
              rw (ip_rx_all, ip_rx, check, ip_rx_accepted, e)
                  (ap result (sym (as_call (completed g st2) e) ∙ run)),
            )
          ]
    where
      after : Process → Process
      after patrol_crash = patrol_crash
      after (broken bad) = broken bad
      after (completed g st2) = completed g st2
      after (pending st1) = ip_fragment_run m buf (arrivals_of m from (length buf) pieces) st1

      as_call :
          (p : Process)
          → ip_fragment_process m c.clock
              (piece_header m from (length buf) c.piece)
              (piece_bytes buf c.piece ++ c.padding)
              c.piece.size
              c.chunk
              st
            ≡ p
          → ip_fragment_run m buf (arrivals_of m from (length buf) (c ∷ pieces)) st ≡ after p
      as_call patrol_crash e = rw (ip_fragment_run, e) refl
      as_call (broken bad) e = rw (ip_fragment_run, e) refl
      as_call (completed g st2) e = rw (ip_fragment_run, e) refl
      as_call (pending st1) e = rw (ip_fragment_run, e) refl

      result : Process → IpRx S
      result patrol_crash = rx_crash
      result (broken bad) = rx_broken bad
      result (pending st1) = rx_done st1 s
      result (completed g st2) =
          rx_done st2 (ip_dispatch protocols from.protocol (delivery g.bytes g.len) s)

  -- The packets that `ip_tx_core` makes of the pieces of a payload may arrive in any order, and more than
  -- once. If they cover the payload, arrive within 30 seconds, and there is memory and room for an object,
  -- then after some of them `ip_rx` calls the handler of the protocol, once, with the payload and the
  -- sender's addresses, and the state of reassembly is again what it was.
  pub ip_rx_all-ip_tx :
      (c : Carried) (pieces : List Carried) (chunk : Chunk) (st : Reassembly) (s : S)
      → All (IsCarried step (length buf) since) (c ∷ pieces)
      → ((k : ℕ) → k < length buf → CarriesByte (c ∷ pieces) k)
      → c.chunk ≡ some chunk
      → IsRoomy chunk
      → IsSince since st.fragments
      → st.count < 8
      → ip_fragment_search (piece_header m from (length buf) c.piece) st.fragments ≡ none
      → (k plen : ℕ) × (payload : List ℕ) × (ip_rx_all m receiver protocols
            (take k (packets_of m from buf (c ∷ pieces)))
            st
            s
          ≡ rx_done st (ip_dispatch protocols from.protocol (delivery payload plen) s))
        × (take plen payload ≡ buf)
  ip_rx_all-ip_tx c pieces chunk st s carried cover memory size old room missing =
      let (f, run, bytes) =
        ip_fragment_run_lem m step buf (piece_header m from (length buf) c.piece) since
          (arrival_of m from (length buf) c) (arrivals_of m from (length buf) pieces) chunk st
          (omega arith) (omega arith)
          (record {
            pieces = arrivals-All (c ∷ pieces) c.piece carried;
            cover = λ k h. arrivals_of-HasByte m from (length buf) (c ∷ pieces) k (cover k h);
          })
          memory size old room missing in
      let (k, all) = ip_rx_all-run (c ∷ pieces) st st s f carried run in
      (k, f.len, f.bytes, all, bytes)
