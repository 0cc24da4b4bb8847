-- ===== src/Tcp/Api/Laws.antt =====
-- tcp.c: what `tcp_api_open` and `tcp_api_connect` do on each branch.
use protocol_stack.Ip.Netif.{ip_netif_by_peer}
use mathlib.Core.Option.{some-injective}
use protocol_stack.Base.{
  subst, ℕ, zero, suc, ◌+◌, ◌<◌, ◌≡◌, ◌≢◌, ◌⊎◌, inl, inr, refl, sym, ap, ◌∙◌, arith, Bool, true,
  false, List, [], ◌∷◌, Option, none, some, length, get_elem?, set, u32, Bool-cases,
}
use protocol_stack.Util.ByteOrder.{hton16_call, ntoh16, little, big, Endian, hton16}
use protocol_stack.Util.ByteOrder.Laws.{ntoh16-hton16}
use protocol_stack.Net.{Netif}
use protocol_stack.Tcp.Cb.{
  syn_rcvd, established, fin_wait1, fin_wait2, closing, time_wait, close_wait, last_ack, listen,
  State, TcpCb, closed, syn_sent, is_closed, window_size,
}
use protocol_stack.Tcp.Segment.{tcp_tx, tcp_segment, tcp_flg_syn}
use protocol_stack.Tcp.Api.{
  ip_netif_by_peer, tcp_tx, Outgoing, first_unused, tcp_api_open, choose_port, Connect,
  connect_error, connect_wait, connect_unsent, connect_cb, connect_sent, tcp_api_connect,
}
use protocol_stack.Tcp.Api.Port.{choose_port-IsFresh}

abbrev pub AllUsed : List TcpCb → Type 0
AllUsed table = (j : ℕ) (c : TcpCb) → get_elem? table j ≡ some c → c.used ≡ true

-- The block at `i` is the first that is not in use.
abbrev pub IsFirstUnused : List TcpCb → ℕ → TcpCb → Type 0
IsFirstUnused table i cb =
    (get_elem? table i ≡ some cb)
    × (cb.used ≡ false)
    × ((j : ℕ) (c : TcpCb) → j < i → get_elem? table j ≡ some c → c.used ≡ true)

first_unused_lem :
    (table : List TcpCb) (k : ℕ)
    → (AllUsed table × (first_unused table k ≡ none))
      ⊎ ((i : ℕ) × (cb : TcpCb) × IsFirstUnused table i cb × (first_unused table k ≡ some (k + i)))
unfolding first_unused
first_unused_lem [] k = inl (λ j c e. absurd (cc), refl)
first_unused_lem (cb ∷ rest) k = elim (Bool-cases cb.used) [
  | inr unused ↦
      inr
        (0, cb, (refl, unused, λ j c lt e. absurd (omega arith)), rw unused (ap some (omega arith)))
  | inl used ↦ elim (first_unused_lem rest (suc k)) [
    | inl (all, e) ↦ inl (here used all, rw used e)
    | inr (i, c, (at, unused, before), e) ↦
        inr (suc i, c, (at, unused, below used before), rw used (e ∙ ap some (omega arith)))
  ]
]
  where
    here :
        cb.used ≡ true
        → ((j : ℕ) (c : TcpCb) → get_elem? rest j ≡ some c → c.used ≡ true)
        → (j : ℕ) (c : TcpCb) → get_elem? (cb ∷ rest) j ≡ some c
        → c.used ≡ true
    here used all zero c e = subst (λ (b : TcpCb). b.used ≡ true) (some-injective _ _ e) used
    here used all (suc j) c e = all j c e

    below :
        {i : ℕ}
        → cb.used ≡ true
        → ((j : ℕ) (c : TcpCb) → j < i → get_elem? rest j ≡ some c → c.used ≡ true)
        → (j : ℕ) (c : TcpCb) → j < suc i
        → get_elem? (cb ∷ rest) j ≡ some c
        → c.used ≡ true
    below used before zero c lt e = subst (λ (b : TcpCb). b.used ≡ true) (some-injective _ _ e) used
    below used before (suc j) c lt e = before j c (omega arith) e

-- `tcp_api_open` fails and changes nothing if every block is in use; if not, it returns the index of the
-- first that is not, which is then in use and CLOSED. Nothing else of the block changes: its port and
-- its peer stay what they were.
pub tcp_api_open_lem :
    (table : List TcpCb)
    → (AllUsed table × (tcp_api_open table ≡ (table, none)))
      ⊎ ((i : ℕ) × (cb : TcpCb) × IsFirstUnused table i cb
          × (tcp_api_open table
              ≡ (set table i (record cb { used = true; state = closed }), some i)))
unfolding tcp_api_open
tcp_api_open_lem table = elim (first_unused_lem table 0) [
  | inl (all, e) ↦ inl (all, rw (tcp_api_open, e) refl)
  | inr (i, cb, first, e) ↦
      let at : first_unused table 0 ≡ some i = e ∙ ap some (omega arith) in
      inr (i, cb, first, rw (tcp_api_open, at, first.0) refl)
]

ntoh16_zero : (m : Endian) → ntoh16 m 0 ≡ 0
unfolding ntoh16 hton16 hton16_call
ntoh16_zero little = refl
ntoh16_zero big = refl

given_port :
    (m : Endian) (table : List TcpCb) (port time : ℕ) → choose_port m table (suc port) time ≢ 0
unfolding choose_port
given_port m table port time missing = ground arith

-- A port that the search finds is not 0.
pub choose_port-positive :
    (m : Endian) (table : List TcpCb) (port time : ℕ)
    → length table < 15361
    → choose_port m table port time ≢ 0
choose_port-positive m table zero time small none_left =
    let fresh = choose_port-IsFresh m table time small in
    let back = ntoh16-hton16 m fresh.number (omega (arith, fresh.below)) in
    let zeros : ntoh16 m 0 ≡ 0 = ntoh16_zero m in
    let nothing = sym back ∙ ap (ntoh16 m) (sym fresh.network_order ∙ none_left) ∙ zeros in
    omega (arith, fresh.above, nothing)
choose_port-positive m table (suc port) time small none_left =
    absurd (given_port m table port time none_left)

closed-is_closed : (s : State) → s ≢ closed → is_closed s ≡ false
unfolding is_closed
closed-is_closed closed ne = absurd (ne refl)
closed-is_closed listen ne = refl
closed-is_closed syn_sent ne = refl
closed-is_closed syn_rcvd ne = refl
closed-is_closed established ne = refl
closed-is_closed fin_wait1 ne = refl
closed-is_closed fin_wait2 ne = refl
closed-is_closed closing ne = refl
closed-is_closed time_wait ne = refl
closed-is_closed close_wait ne = refl
closed-is_closed last_ack ne = refl

-- The block when the SYN is sent.
abbrev pub numbered : Endian → TcpCb → ℕ → ℕ → ℕ → Netif → ℕ → TcpCb
numbered m cb source addr port netif random = record cb {
  iface = some netif;
  port = source;
  peer_addr = addr;
  peer_port = hton16 m port;
  rcv_wnd = window_size;
  iss = u32 random;
}

-- The block when the wait begins.
abbrev pub connecting : Endian → TcpCb → ℕ → ℕ → ℕ → Netif → ℕ → TcpCb
connecting m cb source addr port netif random =
    record (numbered m cb source addr port netif random) {
      snd_una = u32 random;
      snd_nxt = u32 (u32 random + 1);
      state = syn_sent;
    }

abbrev pub syn_of : Endian → TcpCb → ℕ → Netif → Outgoing
syn_of m cb addr netif = record {
  netif = netif;
  segment = tcp_segment m netif.unicast cb cb.iss 0 tcp_flg_syn [];
  peer = addr;
}

module _ (m : Endian) (table : List TcpCb) (soc addr port time random : ℕ)
    (default_netif : Option Netif) (sent : Bool) where
  abbrev result : List TcpCb × Connect
  result = tcp_api_connect m table soc addr port time default_netif random sent

  -- `tcp_api_connect` fails and changes nothing unless the socket is a block in use that is CLOSED.
  -- Otherwise, with the block's own port or one that is found: without a default interface it fails and the block
  -- keeps the port and the peer; with one it sends a SYN by the interface and waits in SYN_SENT with its
  -- numbers set, or, if `ip_tx` fails, it fails and the block remains CLOSED.
  pub tcp_api_connect_lem :
      (cb : TcpCb)
      → length table < 15361
      → let source = choose_port m table cb.port time in
        (get_elem? table soc ≡ none → result ≡ (table, connect_error))
        × (get_elem? table soc ≡ some cb
            → ((cb.used ≡ false) ⊎ (cb.state ≢ closed) → result ≡ (table, connect_error))
              × (cb.used ≡ true
                  → cb.state ≡ closed
                  → (default_netif ≡ none
                      → result ≡ (
                        set table soc (record cb {
                          port = source;
                          peer_addr = addr;
                          peer_port = hton16 m port;
                          iface = none;
                        }),
                        connect_error,
                      ))
                    × ((netif : Netif)
                        → default_netif ≡ some netif
                        → let block = numbered m cb source addr port netif random in
                          (sent ≡ true
                            → result ≡ (
                              set table soc (connecting m cb source addr port netif random),
                              connect_wait (syn_of m block addr netif),
                            ))
                          × (sent ≡ false
                              → result ≡ (
                                set table soc block,
                                connect_unsent (syn_of m block addr netif),
                              )))))
  unfolding tcp_api_connect ip_netif_by_peer connect_cb connect_sent is_closed tcp_tx
  tcp_api_connect_lem cb small =
      let positive = choose_port-positive m table cb.port time small in
      (
        λ e. rw (tcp_api_connect, e) refl,
        λ at. (
          λ bad. elim bad [
            | inl unused ↦ rw (tcp_api_connect, at, unused) refl
            | inr busy ↦
                let no = closed-is_closed cb.state busy in rw (tcp_api_connect, at) (ground arith)
          ],
          λ used state. (
            λ no_route. rw (tcp_api_connect, at) (ground (arith, no_route)),
            λ netif routed. (
              λ ok. rw (tcp_api_connect, at) (ground (arith, routed)),
              λ bad. rw (tcp_api_connect, at) (ground (arith, routed)),
            ),
          ),
        ),
      )
