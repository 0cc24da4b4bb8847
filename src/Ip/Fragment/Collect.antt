-- ===== src/Ip/Fragment/Collect.antt =====
-- ip.c: an object of reassembly that collects the fragments of one payload.
use protocol_stack.Util.Mask.Laws.{maskset_lem}
use protocol_stack.Ip.Fragment.Buffer.{write_at_lem, get_or-drop, get_or-take}
use protocol_stack.Base.Bits.{bit_and_mask, bit_and_shift, ◌<<<◌, ◌>>>◌}
use protocol_stack.Ip.Tx.{fragment_offset}
use protocol_stack.Util.Mask.Words.{mask_bit, IsMask}
use protocol_stack.Util.ByteOrder.{ntoh16, Endian}
use protocol_stack.Ip.Fragment.{is_same_datagram, IpHdr, IpFragment}
use protocol_stack.Ip.Fragment.Process.{
  write_at, data_size, ip_fragment_store, known_len, fragment_off, mask_words, stored,
}
use protocol_stack.Base.{
  length-append, ◌||◌, ltb, take_prefix, sym, take, ap, length-drop, length-take, ◌∙◌, ◌⊎◌, drop,
  ◌++◌, ◌^◌, ◌-◌, arith, ◌%◌, get_or, ◌==◌, bit_and, length, ◌≡◌, ◌<◌, ◌/◌, ◌≤◌, List, refl, false,
  inr, inl, ℕ, ◌+◌,
}
use protocol_stack.Ip.Tx.Plan.{Piece, IsPiece, piece_bytes}

-- The bits that are set stand for bytes of the payload that are in their place.
pub record HoldsPart (payload : List ℕ) (f : IpFragment) : Type 0 where
  pub is_mask : IsMask f.mask
  pub words : length f.mask ≡ mask_words
  pub room : length f.bytes ≡ data_size
  pub held :
      (k : ℕ)
      → mask_bit f.mask k ≡ 1
      → (k < length payload) × (get_or f.bytes k 0 ≡ get_or payload k 0)

abbrev pub InPiece : Piece → ℕ → Type 0
InPiece p k = (p.pos ≤ k) × (k < p.pos + p.size)

-- The object after the store of a piece.
pub record Gains (len : ℕ) (p : Piece) (f f' : IpFragment) : Type 0 where
  pub same_address : f'.address ≡ f.address
  pub same_datagram : (hdr : IpHdr) → is_same_datagram hdr f' ≡ is_same_datagram hdr f
  pub gained : (k : ℕ) → InPiece p k → mask_bit f'.mask k ≡ 1
  pub kept : (k : ℕ) → mask_bit f.mask k ≡ 1 → mask_bit f'.mask k ≡ 1
  pub ends : p.pos + p.size ≡ len → f'.len ≡ len
  pub goes_on : p.pos + p.size < len → f'.len ≡ f.len

-- The header of a fragment that is the piece.
pub record IsHeaderOf (m : Endian) (len : ℕ) (p : Piece) (hdr : IpHdr) : Type 0 where
  pub field : ntoh16 m hdr.offset ≡ fragment_offset len p.pos p.size

flag_test : (x : ℕ) → x / 8192 < 2 → (bit_and x 0x2000 == 0) ≡ (x / 8192 == 0)
flag_test x h =
    let shift : bit_and x 0x2000 ≡ bit_and (x >>> 13) 1 <<< 13 = bit_and_shift 13 x 1 in
    let low : bit_and (x >>> 13) 1 ≡ (x >>> 13) % 2 = bit_and_mask 1 (x >>> 13) in
    ground (arith, shift, low)

module _ (m : Endian) (step : ℕ) (payload : List ℕ) (p : Piece) (hdr : IpHdr)
    (small : length payload ≤ 65535) (piece : IsPiece step (length payload) p)
    (is : IsHeaderOf m (length payload) p hdr) where
  fragment_off-IsHeaderOf : fragment_off m hdr ≡ p.pos
  unfolding fragment_off
  fragment_off-IsHeaderOf =
      let low : bit_and (ntoh16 m hdr.offset) 0x1fff ≡ ntoh16 m hdr.offset % 2 ^ 13 =
        bit_and_mask 13 (ntoh16 m hdr.offset) in
      rw (low, is.field) (omega (arith, piece.aligned, piece.within))

  known_len-IsHeaderOf :
      (len : ℕ)
      → (p.pos + p.size ≡ length payload → known_len m hdr p.size len ≡ length payload)
        × (p.pos + p.size < length payload → known_len m hdr p.size len ≡ len)
  unfolding known_len
  known_len-IsHeaderOf len =
      let off = fragment_off-IsHeaderOf in
      let test =
        flag_test (fragment_offset (length payload) p.pos p.size) (ground (arith, piece.flag)) in
      (
        λ last. rw (known_len, is.field, off) (ground (arith, test, piece.flag, last)),
        λ more. rw (known_len, is.field, off) (ground (arith, test, piece.flag, more)),
      )

  piece_byte :
      (k : ℕ) → InPiece p k → get_or (piece_bytes payload p) (k - p.pos) 0 ≡ get_or payload k 0
  piece_byte k h =
      let index : p.pos + (k - p.pos) ≡ k = omega arith in
      get_or-take p.size (drop p.pos payload) (k - p.pos) (omega arith)
      ∙ get_or-drop p.pos payload (k - p.pos)
      ∙ ap (λ (i : ℕ). get_or payload i 0) index

  -- A fragment that is a piece of the payload, with any padding after it, is stored.
  pub ip_fragment_store-IsPiece :
      (padding : List ℕ) (now : ℕ) (f : IpFragment)
      → HoldsPart payload f
      → (f' : IpFragment) × (ip_fragment_store m hdr (piece_bytes payload p ++ padding) p.size now f
          ≡ stored f')
        × HoldsPart payload f'
        × Gains (length payload) p f f'
        × (f'.timestamp ≡ now)
  unfolding ip_fragment_store data_size
  ip_fragment_store-IsPiece padding now f holds =
      let bytes = piece_bytes payload p in
      let size : length bytes ≡ p.size =
        omega (
          arith,
          length-take p.size (drop p.pos payload),
          length-drop p.pos payload,
          piece.within,
        ) in
      let off = fragment_off-IsHeaderOf in
      let (mask', e, sets) =
        maskset_lem f.mask p.pos p.size holds.is_mask piece.nonempty
          (omega (arith, holds.words, piece.within)) in
      let whole : take p.size (bytes ++ padding) ≡ bytes =
        ap (λ (n : ℕ). take n (bytes ++ padding)) (sym size) ∙ take_prefix bytes padding in
      let (same_room, new, old) =
        write_at_lem p.pos bytes f.bytes (omega (arith, size, holds.room, piece.within)) in
      let no_fault : (ltb 65535 (p.pos + p.size) || ltb (length (bytes ++ padding)) p.size)
          ≡ false =
        ground (arith, piece.within, length-append bytes padding, size) in
      (
        record f {
          bytes = write_at p.pos bytes f.bytes;
          mask = mask';
          len = known_len m hdr p.size f.len;
          timestamp = now;
        },
        rw (ip_fragment_store, off, no_fault, e, whole, off) refl,
        record {
          is_mask = sets.is_mask;
          words = sets.same_length ∙ holds.words;
          room = same_room ∙ holds.room;
          held = λ k bit. elim (cases k) [
            | inl inside ↦ (
              omega (arith, piece.within),
              new k inside.0 (omega (arith, size)) ∙ piece_byte k inside,
            )
            | inr out ↦
                let (low, here) = holds.held k (sym (sets.outside k out) ∙ bit) in
                (low, old k (beyond k size out) ∙ here)
          ];
        },
        record {
          same_address = refl;
          same_datagram = λ h. unfold is_same_datagram in refl;
          gained = λ k inside. sets.inside k inside.0 inside.1;
          kept = λ k bit. elim (cases k) [
            | inl inside ↦ sets.inside k inside.0 inside.1
            | inr out ↦ sets.outside k out ∙ bit
          ];
          ends = (known_len-IsHeaderOf f.len).0;
          goes_on = (known_len-IsHeaderOf f.len).1;
        },
        refl,
      )
    where
      cases : (k : ℕ) → InPiece p k ⊎ ((k < p.pos) ⊎ (p.pos + p.size ≤ k))
      cases k = ground arith

      beyond :
          {n : ℕ} (k : ℕ)
          → n ≡ p.size
          → (k < p.pos) ⊎ (p.pos + p.size ≤ k)
          → (k < p.pos) ⊎ (p.pos + n ≤ k)
      beyond k same out = ground arith
