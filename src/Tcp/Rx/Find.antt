-- ===== src/Tcp/Rx/Find.antt =====
-- tcp.c: what the loop of `tcp_rx` finds.
use protocol_stack.Base.{
  ◌∙◌, sym, ap, subst, ℕ, zero, suc, ◌+◌, ◌<◌, ◌≡◌, ◌≢◌, ◌⊎◌, inl, inr, refl, arith, List, [], ◌∷◌,
  Option, none, some, length,
}
use protocol_stack.Net.{Netif}
use protocol_stack.Tcp.Cb.{TcpCb}
use protocol_stack.Tcp.Segment.{TcpHdr}
use protocol_stack.Tcp.Rx.{
  Probe, is_free, is_connection, is_listener, is_other, probe, Search, found, searched,
  first_listener, tcp_rx_loop,
}

Probe-cases : (p : Probe) → (p ≡ is_free) ⊎ (p ≡ is_connection) ⊎ (p ≡ is_listener) ⊎ (p ≡ is_other)
Probe-cases is_free = inl refl
Probe-cases is_connection = inr (inl refl)
Probe-cases is_listener = inr (inr (inl refl))
Probe-cases is_other = inr (inr (inr refl))

module _ (hdr : TcpHdr) (src : ℕ) (iface : Netif) where
  -- What the loop makes of the block at an index; there is nothing past the end.
  unfoldable pub kind : List TcpCb → ℕ → Probe
  kind [] j = is_other
  kind (cb ∷ rest) zero = probe hdr src iface cb
  kind (cb ∷ rest) (suc j) = kind rest j

  module _ (table : List TcpCb) where
    -- Of the blocks below `i`, the last that is free.
    abbrev pub IsLastFree : ℕ → Option ℕ → Type 0
    IsLastFree i none = (j : ℕ) → j < i → kind table j ≢ is_free
    IsLastFree i (some k) =
        (k < i) × (kind table k ≡ is_free) × ((j : ℕ) → k < j → j < i → kind table j ≢ is_free)

    -- Of the blocks below `i`, the first that listens.
    abbrev pub IsFirstListener : ℕ → Option ℕ → Type 0
    IsFirstListener i none = (j : ℕ) → j < i → kind table j ≢ is_listener
    IsFirstListener i (some k) =
        (k < i) × (kind table k ≡ is_listener) × ((j : ℕ) → j < k → kind table j ≢ is_listener)

    abbrev pub IsNoConnection : ℕ → Type 0
    IsNoConnection i = (j : ℕ) → j < i → kind table j ≢ is_connection

    abbrev pub IsResult : Search → Type 0
    IsResult (found i) = (i < length table) × (kind table i ≡ is_connection) × IsNoConnection i
    IsResult (searched fcb lcb) =
        IsNoConnection (length table)
        × IsLastFree (length table) fcb
        × IsFirstListener (length table) lcb

    at_most : {P : ℕ → Type 0} (i : ℕ) → ((j : ℕ) → j < i → P j) → P i → (j : ℕ) → j < suc i → P j
    at_most {P = P} i below here j h = elim (cases) [
      | inl e ↦ subst P (sym e) here
      | inr lt ↦ below j lt
    ]
      where
        cases : (j ≡ i) ⊎ (j < i)
        cases = ground arith

    free-suc :
        (i : ℕ) (fcb : Option ℕ)
        → kind table i ≢ is_free
        → IsLastFree i fcb
        → IsLastFree (suc i) fcb
    free-suc i none here h = at_most i h here
    free-suc i (some k) here h = (
      omega (arith, h.0),
      h.1,
      λ j above below.
          at_most {P = λ j. k < j → kind table j ≢ is_free} i (λ j lt gt. h.2 j gt lt) (λ _. here) j
            below above,
    )

    listener-suc :
        (i : ℕ) (lcb : Option ℕ)
        → kind table i ≢ is_listener
        → IsFirstListener i lcb
        → IsFirstListener (suc i) lcb
    listener-suc i none here h = at_most i h here
    listener-suc i (some k) here h = (omega (arith, h.0), h.1, h.2)

    listener-here :
        (i : ℕ) (lcb : Option ℕ)
        → kind table i ≡ is_listener
        → IsFirstListener i lcb
        → IsFirstListener (suc i) (first_listener lcb i)
    unfolding first_listener
    listener-here i none here h = (omega arith, here, h)
    listener-here i (some k) here h = (omega (arith, h.0), h.1, h.2)

    -- The blocks from `i` on are `rest`, and those below `i` have been looked at.
    tcp_rx_loop-IsResult :
        (rest : List TcpCb) (i : ℕ) (fcb lcb : Option ℕ)
        → (i + length rest ≡ length table)
        → ((j : ℕ) → kind table (i + j) ≡ kind rest j)
        → IsNoConnection i
        → IsLastFree i fcb
        → IsFirstListener i lcb
        → IsResult (tcp_rx_loop hdr src iface rest i fcb lcb)
    unfolding tcp_rx_loop kind
    tcp_rx_loop-IsResult [] i fcb lcb size same nc free listen =
        let e : length table ≡ i = omega arith in rw e (nc, free, listen)
    tcp_rx_loop-IsResult (cb ∷ rest) i fcb lcb size same nc free listen =
        let here : kind table i ≡ probe hdr src iface cb = ap (kind table) (omega arith) ∙ same 0 in
        let next : (j : ℕ) → kind table (suc i + j) ≡ kind rest j =
          λ j. ap (kind table) (omega arith) ∙ same (suc j) in
        let size' : suc i + length rest ≡ length table = omega arith in
        elim (Probe-cases (probe hdr src iface cb)) [
          | inl e ↦
              rw (tcp_rx_loop, e)
                (tcp_rx_loop-IsResult rest (suc i) (some i) lcb size' next (at_most i nc (λ c. cc))
                  (omega arith, here ∙ e, λ j above below. absurd (omega arith))
                  (listener-suc i lcb (λ c. cc) listen))
          | inr (inl e) ↦ rw (tcp_rx_loop, e) (omega arith, here ∙ e, nc)
          | inr (inr (inl e)) ↦
              rw (tcp_rx_loop, e)
                (tcp_rx_loop-IsResult rest (suc i) fcb (first_listener lcb i) size' next
                  (at_most i nc (λ c. cc)) (free-suc i fcb (λ c. cc) free)
                  (listener-here i lcb (here ∙ e) listen))
          | inr (inr (inr e)) ↦
              rw (tcp_rx_loop, e)
                (tcp_rx_loop-IsResult rest (suc i) fcb lcb size' next (at_most i nc (λ c. cc))
                  (free-suc i fcb (λ c. cc) free) (listener-suc i lcb (λ c. cc) listen))
        ]

    -- The loop of `tcp_rx` breaks at the first block that is the segment's connection; if there is none it
    -- ends with the last free block and the first listener.
    pub tcp_rx_loop_lem : IsResult (tcp_rx_loop hdr src iface table 0 none none)
    tcp_rx_loop_lem =
        tcp_rx_loop-IsResult table 0 none none (omega arith) (λ j. ap (kind table) (omega arith))
          (λ j h. absurd (omega arith)) (λ j h. absurd (omega arith)) (λ j h. absurd (omega arith))
