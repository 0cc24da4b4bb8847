-- ===== src/Tcp/Event/Laws.antt =====
-- tcp.c: a segment that arrives for a block in SYN_SENT, whose SYN is its only unacknowledged number.
use protocol_stack.Base.{bit_or, ◌≤◌, u32, ℕ, ◌+◌, ◌<◌, ◌≡◌, ◌≢◌, ◌↔◌, ◌⊎◌, arith, true, false, []}
use protocol_stack.Util.ByteOrder.{Endian, ntoh32}
use protocol_stack.Tcp.Cb.{syn_rcvd, TcpCb, syn_sent, established}
use protocol_stack.Tcp.Segment.{
  undefined_write, TcpHdr, Action, quiet, tcp_tx, tcp_flg_isset, tcp_flg_ack, tcp_flg_rst,
  tcp_flg_syn,
}
use protocol_stack.Tcp.Event.{tcp_event_segment_arrives, arrives_syn_sent, arrives_rst, arrives_syn}

module _ (m : Endian) (cb : TcpCb) (hdr : TcpHdr) (len : ℕ) (here : cb.state ≡ syn_sent)
    (una : cb.snd_una ≡ cb.iss) (nxt : cb.snd_nxt ≡ cb.iss + 1) where
  abbrev ack : ℕ
  ack = ntoh32 m hdr.ack

  abbrev after : TcpCb × Action
  after = tcp_event_segment_arrives m cb hdr len

  -- The block with what a SYN tells.
  abbrev known : TcpCb
  known = record cb { rcv_nxt = u32 (ntoh32 m hdr.seq + 1); irs = ntoh32 m hdr.seq; snd_una = ack }

  -- The block becomes ESTABLISHED exactly when the segment has a SYN and no RST, and either
  -- acknowledges the block's SYN, or has no ACK at all and more than the block's first sequence number
  -- in the field that an ACK would give a meaning.
  pub arrives-established_iff : (after.0.state ≡ established) ↔ (
      (tcp_flg_isset hdr.flg tcp_flg_syn ≡ true)
      × (tcp_flg_isset hdr.flg tcp_flg_rst ≡ false)
      × (((tcp_flg_isset hdr.flg tcp_flg_ack ≡ true) × (ack ≡ cb.iss + 1))
          ⊎ ((tcp_flg_isset hdr.flg tcp_flg_ack ≡ false) × (cb.iss < ack))))
  unfolding tcp_event_segment_arrives arrives_syn_sent arrives_rst arrives_syn
  arrives-established_iff = ground arith

  -- All branches, where `ack` is the acknowledgment field: an ACK of anything but the block's SYN is
  -- answered with a reset; of the rest, a reset that acknowledges the SYN is an undefined write and another is
  -- dropped; a SYN sets the block's numbers and moves it to ESTABLISHED with an ACK if the field is over
  -- the first sequence number, to SYN_RCVD with a SYN and ACK if not; what has neither is dropped.
  pub arrives-syn_sent_lem :
      ((tcp_flg_isset hdr.flg tcp_flg_ack ≡ true)
        → ack ≢ cb.iss + 1
        → after ≡ (cb, tcp_tx m cb ack 0 tcp_flg_rst []))
      × ((tcp_flg_isset hdr.flg tcp_flg_ack ≡ true)
          → (ack ≡ cb.iss + 1)
          → (tcp_flg_isset hdr.flg tcp_flg_rst ≡ true)
          → after ≡ (cb, undefined_write))
      × ((tcp_flg_isset hdr.flg tcp_flg_ack ≡ false)
          → (tcp_flg_isset hdr.flg tcp_flg_rst ≡ true)
          → after ≡ (cb, quiet))
      × ((tcp_flg_isset hdr.flg tcp_flg_ack ≡ false) ⊎ (ack ≡ cb.iss + 1)
          → (tcp_flg_isset hdr.flg tcp_flg_rst ≡ false)
          → (tcp_flg_isset hdr.flg tcp_flg_syn ≡ true)
          → (cb.iss < ack
              → after ≡ (
                record known { state = established },
                tcp_tx m
                    (record known { state = established })
                    cb.snd_nxt
                    known.rcv_nxt
                    tcp_flg_ack
                    [],
              ))
            × (ack ≤ cb.iss
                → after ≡ (
                  record known { state = syn_rcvd },
                  tcp_tx m
                      (record known { state = syn_rcvd })
                      cb.iss
                      known.rcv_nxt
                      (bit_or tcp_flg_syn tcp_flg_ack)
                      [],
                )))
      × ((tcp_flg_isset hdr.flg tcp_flg_ack ≡ false) ⊎ (ack ≡ cb.iss + 1)
          → (tcp_flg_isset hdr.flg tcp_flg_rst ≡ false)
          → (tcp_flg_isset hdr.flg tcp_flg_syn ≡ false)
          → after ≡ (cb, quiet))
  unfolding tcp_event_segment_arrives arrives_syn_sent arrives_rst arrives_syn
  arrives-syn_sent_lem = (
    λ a n. ground arith,
    λ a n r. ground arith,
    λ a r. ground arith,
    λ a r s. (λ over. ground arith, λ under. ground arith),
    λ a r s. ground arith,
  )
