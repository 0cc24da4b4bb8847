-- ===== src/Tcp/Rx/Laws.antt =====
-- tcp.c: what `tcp_rx` does with a segment of a connection, and with one that no one expects.
use mathlib.Core.Option.{some-injective}
use protocol_stack.Base.{
  ap, ℕ, zero, suc, ◌<◌, ◌≤◌, ◌≡◌, ◌≢◌, ◌⊎◌, inl, inr, refl, arith, List, [], ◌∷◌, none, some,
  length, get_elem?,
}
use protocol_stack.Util.ByteOrder.{Endian}
use protocol_stack.Util.Checksum.{cksum16}
use protocol_stack.Net.{Netif}
use protocol_stack.Tcp.Cb.{TcpCb}
use protocol_stack.Tcp.Segment.{TcpHdr, read_tcp_hdr}
use protocol_stack.Tcp.Rx.{
  is_free, is_connection, is_listener, is_other, probe, Search, found, searched, tcp_rx_pseudo,
  tcp_rx_loop, tcp_rx_valid, tcp_rx,
}
use protocol_stack.Tcp.Rx.Find.{kind, IsResult, IsNoConnection, tcp_rx_loop_lem}

-- The tests of `tcp_rx` before it looks at the table.
abbrev pub IsForUs : Endian → List ℕ → ℕ → ℕ → Netif → Type 0
IsForUs m segment src dst iface =
    (dst ≡ iface.unicast)
    × (20 ≤ length segment)
    × (cksum16 m segment (tcp_rx_pseudo m src dst (length segment)) ≡ 0)

pub tcp_rx-passes :
    (m : Endian) (table : List TcpCb) (segment : List ℕ) (src dst : ℕ) (iface : Netif)
    → IsForUs m segment src dst iface
    → tcp_rx m table segment src dst iface
      ≡ tcp_rx_valid m table (read_tcp_hdr m segment) (length segment) src iface
unfolding tcp_rx
tcp_rx-passes m table segment src dst iface h = ground (arith, h)

module _ (hdr : TcpHdr) (src : ℕ) (iface : Netif) where
  pub kind-get :
      (table : List TcpCb) (i : ℕ) (cb : TcpCb)
      → get_elem? table i ≡ some cb
      → kind hdr src iface table i ≡ probe hdr src iface cb
  unfolding kind
  kind-get [] i cb e = absurd (cc)
  kind-get (c ∷ rest) zero cb e = ap (probe hdr src iface) (some-injective _ _ e)
  kind-get (c ∷ rest) (suc i) cb e = kind-get rest i cb e

  pub get-kind :
      (table : List TcpCb) (i : ℕ)
      → kind hdr src iface table i ≢ is_other
      → (cb : TcpCb) × (get_elem? table i ≡ some cb)
  unfolding kind
  get-kind [] i h = absurd (h refl)
  get-kind (c ∷ rest) zero h = (c, refl)
  get-kind (c ∷ rest) (suc i) h = get-kind rest i h

  module _ (table : List TcpCb) where
    one_result :
        (r : Search) (i : ℕ)
        → IsResult hdr src iface table r
        → i < length table
        → kind hdr src iface table i ≡ is_connection
        → IsNoConnection hdr src iface table i
        → r ≡ found i
    one_result (searched fcb lcb) i result lt here before = absurd (result.0 i lt here)
    one_result (found k) i result lt here before = elim (cases) [
      | inl e ↦ ap found e
      | inr (inl below) ↦ absurd (before k below result.1)
      | inr (inr above) ↦ absurd (result.2 i above here)
    ]
      where
        cases : (k ≡ i) ⊎ (k < i) ⊎ (i < k)
        cases = ground arith

    pub tcp_rx_loop-found :
        (i : ℕ)
        → i < length table
        → kind hdr src iface table i ≡ is_connection
        → IsNoConnection hdr src iface table i
        → tcp_rx_loop hdr src iface table 0 none none ≡ found i
    tcp_rx_loop-found i lt here before =
        one_result (tcp_rx_loop hdr src iface table 0 none none) i
          (tcp_rx_loop_lem hdr src iface table) lt here before

    free_result :
        (r : Search)
        → IsResult hdr src iface table r
        → ((j : ℕ) → kind hdr src iface table j ≢ is_connection)
        → ((j : ℕ) → kind hdr src iface table j ≢ is_listener)
        → (k : ℕ) → k < length table
        → kind hdr src iface table k ≡ is_free
        → (i : ℕ) × (r ≡ searched (some i) none) × (kind hdr src iface table i ≡ is_free)
    free_result (found i) result nc nl k lt free = absurd (nc i result.1)
    free_result (searched none lcb) result nc nl k lt free = absurd (result.1 k lt free)
    free_result (searched (some i) none) result nc nl k lt free = (i, refl, result.1.1)
    free_result (searched (some i) (some l)) result nc nl k lt free = absurd (nl l result.2.1)

    pub tcp_rx_loop-free :
        ((j : ℕ) → kind hdr src iface table j ≢ is_connection)
        → ((j : ℕ) → kind hdr src iface table j ≢ is_listener)
        → (k : ℕ) → k < length table
        → kind hdr src iface table k ≡ is_free
        → (i : ℕ) × (tcp_rx_loop hdr src iface table 0 none none ≡ searched (some i) none)
          × (kind hdr src iface table i ≡ is_free)
    tcp_rx_loop-free nc nl k lt free =
        free_result (tcp_rx_loop hdr src iface table 0 none none)
          (tcp_rx_loop_lem hdr src iface table) nc nl k lt free
