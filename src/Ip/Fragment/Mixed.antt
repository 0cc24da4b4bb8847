-- ===== src/Ip/Fragment/Mixed.antt =====
-- ip.c: the fragments of one datagram through `ip_fragment_process`, with those of other datagrams in between.
use protocol_stack.Ip.Fragment.Calls.{own, other, other, own}
use protocol_stack.Ip.Fragment.Seen.{Seen}
use protocol_stack.Ip.Fragment.Laws.{IsReassembly}
use protocol_stack.Ip.Fragment.Finish.{IsDone}
use protocol_stack.Ip.Fragment.Collect.{HoldsPart}
use protocol_stack.Ip.Fragment.{ip_fragment_search, IpFragment}
use protocol_stack.Util.ByteOrder.{Endian}
use protocol_stack.Ip.Header.{IpHdr}
use protocol_stack.Ip.Fragment.Process.{Process, Reassembly, pending, completed}
use protocol_stack.Base.{none, ◌⊎◌, ◌≤◌, length, ◌≡◌, ◌<◌, List, ◌∷◌, some, [], ℕ}
use protocol_stack.Ip.Fragment.Arrivals.{IsSince, Arrival}

module _ (payload : List ℕ) (positive : 0 < length payload) (small : length payload ≤ 65535) where
  module _ (m : Endian) (step : ℕ) (hdr : IpHdr) (since : ℕ) where
    -- What holds of the state between two calls.
    record Held (arrivals : List Arrival) (st : Reassembly) : Type 0 where
      pub wf : IsReassembly st.fragments
      pub old : IsSince since st.fragments
      pub object :
          ((arrivals ≡ []) × (ip_fragment_search hdr st.fragments ≡ none))
          ⊎ ((f : IpFragment) × (ip_fragment_search hdr st.fragments ≡ some f)
              × Seen payload f arrivals
              × ¬ IsDone payload f)

    -- A call for the datagram either returns it or has its fragment.
    abbrev Outcome : Arrival → List Arrival → Process → Type 0
    Outcome a arrivals result =
        ((f : IpFragment) × (st : Reassembly) × (result ≡ completed f st)
          × IsDone payload f
          × HoldsPart payload f)
        ⊎ ((f : IpFragment) × (st : Reassembly) × (result ≡ pending st)
            × (ip_fragment_search hdr st.fragments ≡ some f)
            × Seen payload f (a ∷ arrivals)
            × ¬ IsDone payload f)
