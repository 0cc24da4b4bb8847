-- ===== src/Ip/Protocol.antt =====
-- ip.c: the list of protocol handlers, `ip_add_protocol`, and the loop of `ip_rx` over it.
use protocol_stack.Base.{
  Bool, true, arith, ◌≢◌, ◌≡◌, ℕ, List, [], ◌∷◌, none, some, ◌==◌, if◌then◌else◌,
}
use protocol_stack.Base.Registry.{find}
use protocol_stack.Net.{Netif}

-- What a handler is called with: the payload and its length, both addresses and the interface.
pub record Delivery : Type 0 where
  pub payload : List ℕ
  pub plen : ℕ
  pub src : ℕ
  pub dst : ℕ
  pub netif : Netif

pub record IpProtocol (S : Type 0) : Type 0 where
  pub type : ℕ
  pub handler : Delivery → S → S

-- What `ip_add_protocol` comes to: -1, a write through a null pointer, or 0 and the new list.
pub data AddProtocol (S : Type 0) : Type 0 where
  add_refused add_null_write : AddProtocol S
  added : List (IpProtocol S) → AddProtocol S

module _ {S : Type 0} where
  abbrev pub protocol_type : IpProtocol S → ℕ
  protocol_type p = p.type

  -- `malloc_ok` says whether there is memory for the entry, which is not checked.
  unfoldable pub ip_add_protocol :
      ℕ → (Delivery → S → S) → Bool → List (IpProtocol S) → AddProtocol S
  ip_add_protocol protocol handler malloc_ok protocols =
      elim (find protocol_type protocol protocols) [
        | some _ ↦ add_refused
        | none ↦
            if malloc_ok
            then added (record { type = protocol; handler = handler } ∷ protocols)
            else add_null_write
      ]

  -- The first handler of the type is called; then the loop ends.
  unfoldable pub ip_dispatch : List (IpProtocol S) → ℕ → Delivery → S → S
  ip_dispatch [] protocol d s = s
  ip_dispatch (p ∷ protocols) protocol d s =
      if p.type == protocol then p.handler d s else ip_dispatch protocols protocol d s

  -- A protocol can be added once; from then on its packets go to its handler, and those of the other
  -- protocols where they went before.
  pub ip_dispatch-add :
      (protocol : ℕ) (handler : Delivery → S → S) (protocols protocols' : List (IpProtocol S))
      (d : Delivery) (s : S)
      → ip_add_protocol protocol handler true protocols ≡ added protocols'
      → (ip_add_protocol protocol handler true protocols' ≡ add_refused)
        × (ip_dispatch protocols' protocol d s ≡ handler d s)
        × ((other : ℕ)
            → other ≢ protocol
            → ip_dispatch protocols' other d s ≡ ip_dispatch protocols other d s)
  unfolding ip_add_protocol ip_dispatch find
  ip_dispatch-add protocol handler protocols protocols' d s e =
      (ground arith, ground arith, λ other ne. ground arith)
