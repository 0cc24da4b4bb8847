-- ===== src/Ip/Fragment/Complete.antt =====
-- ip.c: the fragments of one datagram, in any order, through `ip_fragment_process`: the datagram comes out.
use protocol_stack.Ip.Fragment.Finish.{
  done-bytes, ip_fragment_finish_lem, Awaits-rest, Awaits-none, IsDone, Awaits,
}
use protocol_stack.Util.Mask.{maskclr}
use protocol_stack.Util.Mask.Words.{mask_bit-replicate, replicate-IsMask, IsMask, mask_bit}
use protocol_stack.Ip.Fragment.Collect.{ip_fragment_store-IsPiece, HoldsPart}
use protocol_stack.Util.Mask.Check.{maskclr_lem}
use protocol_stack.Ip.Fragment.{ip_fragment_search, is_same_datagram, IpFragment}
use protocol_stack.Ip.Fragment.Arrivals.{
  SameDatagram, find_new, ip_fragment_search_cong, is_same_datagram_cong, process_kept, find_head,
  state, ip_fragment_run, HasByte, IsSince, IsArrival, Arrival,
}
use protocol_stack.Ip.Header.{IpHdr}
use protocol_stack.Util.ByteOrder.{Endian}
use protocol_stack.Ip.Fragment.Process.{
  IsRoomy, object_given, ip_fragment_process, mask_bytes, find_or_create, Process, ip_fragment_add,
  Reassembly, mask_words, data_size, Chunk, cleared_data, new_fragment, pending, completed,
}
use protocol_stack.Base.{
  length-replicate, none, sym, subst, ◌++◌, replicate, ap, ◌∙◌, ◌-◌, ◌⊎◌, take, arith, ◌≡◌, All,
  ◌≤◌, length, ◌<◌, List, ◌∷◌, refl, true, inr, inl, some, [], ℕ, ◌+◌,
}
use protocol_stack.Ip.Tx.Plan.{piece_bytes}

module _ (payload : List ℕ) (positive : 0 < length payload) (small : length payload ≤ 65535) where
  module _ (m : Endian) (step : ℕ) (hdr : IpHdr) (since t : ℕ) (rest : List IpFragment)
      (others : IsSince since rest) where
    -- What holds of the object of the datagram while fragments are to come.
    record Collecting (f : IpFragment) (arrivals : List Arrival) : Type 0 where
      pub same : is_same_datagram hdr f ≡ true
      pub holds : HoldsPart payload f
      pub known : (f.len ≡ 0) ⊎ (f.len ≡ length payload)
      pub awaits : Awaits payload f arrivals

    abbrev call : Arrival → Reassembly → Process
    call a st =
        ip_fragment_process m a.clock a.hdr (piece_bytes payload a.piece ++ a.padding) a.piece.size
          a.chunk st

    -- The object that a call finds or creates stands at the front of the list.
    call_lem :
        (a : Arrival) (arrivals : List Arrival) (st : Reassembly) (f : IpFragment) (c : ℕ)
        → IsArrival m step payload hdr since a
        → IsSince since st.fragments
        → find_or_create a.hdr a.chunk st ≡ object_given f (state (f ∷ rest) t c)
        → Collecting f (a ∷ arrivals)
        → (f' : IpFragment) × (((call a st ≡ completed f' (state rest t (c - 1)))
              × (take f'.len f'.bytes ≡ payload))
            ⊎ ((call a st ≡ pending (state (f' ∷ rest) t c))
                × ¬ IsDone payload f'
                × (since ≤ f'.timestamp)
                × Collecting f' arrivals))
    unfolding ip_fragment_add
    call_lem a arrivals st f c arrives old found now =
        let (f', e, holds', gains, stamp) =
          ip_fragment_store-IsPiece m step payload a.piece a.hdr small arrives.piece arrives.header
            a.padding a.clock.stamped f now.holds in
        let (awaits', known') =
          Awaits-rest payload positive small step f f' a arrivals arrives.piece gains now.known
            now.awaits in
        let kept =
          process_kept m a.clock a.hdr (piece_bytes payload a.piece ++ a.padding) a.piece.size
            a.chunk st since old arrives.in_time in
        (
          f',
          elim (ip_fragment_finish_lem payload positive small f f' rest t c gains.same_address
              holds' known') [
                | inl (done, finish) ↦ inl (
                  rw (kept, ip_fragment_add, found, e) finish,
                  done-bytes payload positive small f' holds' done,
                )
                | inr (lacks, finish) ↦ inr (
                  rw (kept, ip_fragment_add, found, e) finish,
                  lacks,
                  omega (arith, stamp, arrives.after),
                  record {
                    same = gains.same_datagram hdr ∙ now.same;
                    holds = holds';
                    known = known';
                    awaits = awaits';
                  },
                )
              ],
        )

    run_lem :
        (a : Arrival) (arrivals : List Arrival) (st : Reassembly) (f : IpFragment) (c : ℕ)
        → All (IsArrival m step payload hdr since) (a ∷ arrivals)
        → IsSince since st.fragments
        → find_or_create a.hdr a.chunk st ≡ object_given f (state (f ∷ rest) t c)
        → Collecting f (a ∷ arrivals)
        → (f' : IpFragment) × (ip_fragment_run m payload (a ∷ arrivals) st
            ≡ completed f' (state rest t (c - 1)))
          × (take f'.len f'.bytes ≡ payload)
    unfolding ip_fragment_run
    run_lem a [] st f c (arrives, more) old found now =
        let (f', result) = call_lem a [] st f c arrives old found now in
        elim result [
          | inl (e, bytes) ↦ (f', rw (ip_fragment_run, e) refl, bytes)
          | inr (e, lacks, stamp, next) ↦ absurd (lacks (Awaits-none payload f' next.awaits))
        ]
    run_lem a (b ∷ arrivals) st f c (arrives, more) old found now =
        let (f', result) = call_lem a (b ∷ arrivals) st f c arrives old found now in
        elim result [
          | inl (e, bytes) ↦ (f', rw (ip_fragment_run, e) refl, bytes)
          | inr (e, lacks, stamp, next) ↦
              let (g, run, bytes) =
                run_lem b arrivals (state (f' ∷ rest) t c) f' c more (stamp, others)
                  (find_head b.hdr b.chunk f' rest t c
                    (is_same_datagram_cong b.hdr hdr f' more.0.same ∙ next.same))
                  next in
              (g, rw (ip_fragment_run, e) run, bytes)
        ]

-- What the theorem on fragments asks: the first call gets memory for an object, whose mask is 2048 words
-- and behind whose mask 24576 bytes may be overwritten;
-- all fragments are pieces of the payload and arrive in the 30 seconds from `since` on.
pub record AreFragments (m : Endian) (step : ℕ) (payload : List ℕ) (hdr : IpHdr) (since : ℕ)
    (arrivals : List Arrival) : Type 0 where
  pub pieces : All (IsArrival m step payload hdr since) arrivals
  pub cover : (k : ℕ) → k < length payload → HasByte arrivals k

pub new-HoldsPart :
    (payload : List ℕ) (hdr : IpHdr) (chunk : Chunk)
    → length chunk.old_mask ≡ mask_words
    → HoldsPart payload (new_fragment hdr chunk)
unfolding new_fragment cleared_data
new-HoldsPart payload hdr chunk size =
    let cleared : maskclr chunk.old_mask mask_bytes ≡ replicate mask_words 0 =
      maskclr_lem chunk.old_mask mask_bytes (omega (arith, size)) ∙ ap (λ n. replicate n 0) size in
    record {
      is_mask = subst IsMask (sym cleared) (replicate-IsMask mask_words);
      words = ap length cleared ∙ length-replicate {A = ℕ} mask_words 0;
      room = length-replicate {A = ℕ} data_size 0;
      held = λ k bit.
          absurd
            (omega (arith, bit, ap (λ w. mask_bit w k) cleared, mask_bit-replicate mask_words k));
    }

new-same :
    (h h' : IpHdr) (chunk : Chunk)
    → SameDatagram h h'
    → is_same_datagram h' (new_fragment h chunk) ≡ true
unfolding new_fragment is_same_datagram
new-same h h' chunk (src, dst, id, protocol) = ground (arith, src, dst, id, protocol)

-- The fragments of a datagram, of at most 65535 bytes of payload, may arrive in any order, and more than
-- once. If they cover the payload, arrive within 30 seconds, and there is memory and room for an object,
-- then some call returns an object with the payload, and leaves the state as it was before the first.
pub ip_fragment_run_lem :
    (m : Endian) (step : ℕ) (payload : List ℕ) (hdr : IpHdr) (since : ℕ) (a : Arrival)
    (arrivals : List Arrival) (chunk : Chunk) (st : Reassembly)
    → 0 < length payload
    → length payload ≤ 65535
    → AreFragments m step payload hdr since (a ∷ arrivals)
    → a.chunk ≡ some chunk
    → IsRoomy chunk
    → IsSince since st.fragments
    → st.count < 8
    → ip_fragment_search hdr st.fragments ≡ none
    → (f : IpFragment) × (ip_fragment_run m payload (a ∷ arrivals) st ≡ completed f st)
      × (take f.len f.bytes ≡ payload)
ip_fragment_run_lem m step payload hdr since a arrivals chunk st positive small fragments memory
      roomy old room missing =
    let missing' =
      ip_fragment_search_cong a.hdr hdr st.fragments fragments.pieces.0.same ∙ missing in
    let f = new_fragment a.hdr chunk in
    let found : find_or_create a.hdr a.chunk st
        ≡ object_given f (state (f ∷ st.fragments) st.timestamp (st.count + 1)) =
      ap (λ c. find_or_create a.hdr c st) memory ∙ find_new a.hdr chunk st missing' room roomy.1 in
    let (g, run, bytes) =
      run_lem payload positive small m step hdr since st.timestamp st.fragments old a arrivals st f
        (st.count + 1) fragments.pieces old found
        (record {
          same = new-same a.hdr hdr chunk fragments.pieces.0.same;
          holds = new-HoldsPart payload a.hdr chunk roomy.0;
          known = inl (unfold new_fragment in refl);
          awaits = (
            λ k h. inr (fragments.cover k h),
            inr (fragments.cover (length payload - 1) (omega (arith, positive))),
          );
        }) in
    let restored : st.count + 1 - 1 ≡ st.count = omega arith in
    (g, run ∙ ap (λ (c : ℕ). completed g (state st.fragments st.timestamp c)) restored, bytes)
