-- ===== src/Tcp/Block.antt =====
-- tcp.c: an invariant of the control blocks, and that `tcp_rx` keeps it.
use protocol_stack.Base.{
  ℕ, ◌^◌, ◌<◌, ◌≡◌, ◌≢◌, ◌⊎◌, inl, inr, refl, sym, ◌∙◌, arith, true, List, Option, none, some,
  length, get_elem?, All, All-set, All-get, length-set, Option-cases,
}
use protocol_stack.Util.ByteOrder.{Endian}
use protocol_stack.Net.{Netif}
use protocol_stack.Tcp.Cb.{is_closed, TcpCb, closed, listen}
use protocol_stack.Tcp.Segment.{quiet, TcpHdr, Action}
use protocol_stack.Tcp.Segment.Checksum.{IsCb}
use protocol_stack.Tcp.Event.{
  tcp_event_segment_arrives, arrives_closed, arrives_syn_sent, arrives_rst, arrives_syn,
}
use protocol_stack.Tcp.Rx.{
  probe, is_free, found, searched, Search, take_free, listener, handle, tcp_rx_loop, tcp_rx_valid,
}
use protocol_stack.Tcp.Rx.Find.{IsResult, tcp_rx_loop_lem}
use protocol_stack.Tcp.Rx.Laws.{kind-get}

-- A block that is not CLOSED is in use, has an interface, and does not listen; its ports, its peer's
-- address, its window and the sequence numbers that it computes fit their widths.
pub record IsBlock (cb : TcpCb) : Type 0 where
  pub fits : IsCb cb
  pub snd_nxt : cb.snd_nxt < 2 ^ 32
  pub iss : cb.iss < 2 ^ 32
  pub rcv_nxt : cb.rcv_nxt < 2 ^ 32
  pub state : (cb.state ≡ closed) ⊎ ((cb.used ≡ true) × (cb.iface ≢ none) × (cb.state ≢ listen))

abbrev pub IsTcpTable : List TcpCb → Type 0
IsTcpTable table = All IsBlock table

pub event-IsBlock :
    (m : Endian) (cb : TcpCb) (hdr : TcpHdr) (len : ℕ)
    → IsBlock cb
    → IsBlock (tcp_event_segment_arrives m cb hdr len).0
unfolding tcp_event_segment_arrives arrives_closed arrives_syn_sent arrives_rst arrives_syn
event-IsBlock m cb hdr len h = ground (arith)

take_free-IsBlock :
    (hdr : TcpHdr) (src : ℕ) (iface : Netif) (cb : TcpCb) (lcb : Option ℕ) (l : Option TcpCb)
    → hdr.src < 2 ^ 16
    → src < 2 ^ 32
    → IsBlock cb
    → cb.state ≡ closed
    → ((c : TcpCb) → l ≡ some c → IsBlock c)
    → IsBlock (take_free hdr src iface cb lcb l)
unfolding take_free
take_free-IsBlock hdr src iface cb lcb none hp hs fits state lh = ground (arith)
take_free-IsBlock hdr src iface cb lcb (some c) hp hs fits state lh =
    let parent = lh c refl in ground (arith, parent)

handle-IsTcpTable :
    (m : Endian) (table : List TcpCb) (hdr : TcpHdr) (len i : ℕ) (prepare : TcpCb → TcpCb)
    → IsTcpTable table
    → ((cb : TcpCb) → get_elem? table i ≡ some cb → IsBlock (prepare cb))
    → IsTcpTable (handle m table hdr len i prepare).0
      × (length (handle m table hdr len i prepare).0 ≡ length table)
unfolding handle
handle-IsTcpTable m table hdr len i prepare h ready = elim (Option-cases (get_elem? table i)) [
  | inl e ↦ rw (handle, e) (h, refl)
  | inr (cb, e) ↦
      rw (handle, e)
        (
          All-set IsBlock table i _ (event-IsBlock m (prepare cb) hdr len (ready cb e)) h,
          length-set table i _,
        )
]

probe-free_closed :
    (hdr : TcpHdr) (src : ℕ) (iface : Netif) (cb : TcpCb)
    → probe hdr src iface cb ≡ is_free
    → cb.state ≡ closed
unfolding probe is_closed
probe-free_closed hdr src iface cb e = ground arith

module _ (m : Endian) (table : List TcpCb) (hdr : TcpHdr) (len src : ℕ) (iface : Netif)
    (h : IsTcpTable table) (hp : hdr.src < 2 ^ 16) (hs : src < 2 ^ 32) where
  listener-IsBlock : (lcb : Option ℕ) (c : TcpCb) → listener table lcb ≡ some c → IsBlock c
  unfolding listener
  listener-IsBlock none c e = absurd (cc)
  listener-IsBlock (some l) c e = All-get IsBlock table l e h

  after_search : Search → List TcpCb × Action
  after_search (found i) = handle m table hdr len i (λ cb. cb)
  after_search (searched none lcb) = (table, quiet)
  after_search (searched (some i) lcb) =
      handle m table hdr len i (λ cb. take_free hdr src iface cb lcb (listener table lcb))

  after_search-IsTcpTable :
      (r : Search)
      → IsResult hdr src iface table r
      → IsTcpTable (after_search r).0 × (length (after_search r).0 ≡ length table)
  unfolding after_search
  after_search-IsTcpTable (found i) result =
      handle-IsTcpTable m table hdr len i (λ cb. cb) h (λ cb e. All-get IsBlock table i e h)
  after_search-IsTcpTable (searched none lcb) result = (h, refl)
  after_search-IsTcpTable (searched (some i) lcb) result =
      handle-IsTcpTable m table hdr len i
        (λ cb. take_free hdr src iface cb lcb (listener table lcb)) h
        (λ cb e.
          take_free-IsBlock hdr src iface cb lcb (listener table lcb) hp hs
            (All-get IsBlock table i e h)
            (probe-free_closed hdr src iface cb
              (sym (kind-get hdr src iface table i cb e) ∙ result.1.1))
            (listener-IsBlock lcb))

  pub tcp_rx_valid-IsTcpTable :
      IsTcpTable (tcp_rx_valid m table hdr len src iface).0
      × (length (tcp_rx_valid m table hdr len src iface).0 ≡ length table)
  unfolding tcp_rx_valid after_search
  tcp_rx_valid-IsTcpTable =
      after_search-IsTcpTable (tcp_rx_loop hdr src iface table 0 none none)
        (tcp_rx_loop_lem hdr src iface table)
