-- ===== src/Segment/RoundTrip.antt =====
-- What fgwSegmentEncode writes, fgwSegmentPeekHeader and fgwSegmentVerifyCrc read back.
use libfgw.Prelude.{
  ℕ, ◌+◌, ◌-◌, ◌^◌, ◌≤◌, ◌<◌, ◌≡◌, ◌≢◌, ==_iff, ==_ne, refl, sym, ◌∙◌, inl, inr, bit_or, true,
  false, List, ◌∷◌, ◌++◌, append_assoc, some, ◌==◌, if◌then◌else◌, Bool-cases, length, take, drop,
  length-append, take-append, take-length, arith,
}
use libfgw.Codes.{pos, ok}
use libfgw.Segment.Header.{
  FgwSegmentHeader, InRange, segment_magic, max_payload, has_flag, flag_hdr_ext, flag_hdr_route,
  pack_be32,
}
use libfgw.Segment.Crc.{crc_bytes, fgw_crc32, crc_ok}
use libfgw.Segment.Crc.Detect.{fgw_crc32_single_byte, crc_bytes-append, fgw_crc32-lt}
use libfgw.Segment.Encode.{
  is_routed, wire_header_size, header_prefix, seal_frame, fgw_segment_encode,
}
use libfgw.Segment.Decode.{found, fgw_segment_peek_header, fgw_segment_verify_crc}
use libfgw.Segment.Layout.{length-header_prefix, peek_prefix, drop_header, take_prefix}

-- The frame with zeros where its checksum goes.
abbrev pub unsealed : FgwSegmentHeader → List ℕ → List ℕ
unsealed hdr payload = header_prefix hdr (length payload) ++ (pack_be32 0 ++ payload)

abbrev pub frame_of : FgwSegmentHeader → List ℕ → List ℕ
frame_of hdr payload = seal_frame (header_prefix hdr (length payload)) payload

-- The header that the far side sees.
abbrev pub wire_header : FgwSegmentHeader → List ℕ → FgwSegmentHeader
wire_header hdr payload = record hdr {
  magic = segment_magic;
  flags = bit_or hdr.flags flag_hdr_ext;
  payload_len = length payload;
  outport_id = if is_routed hdr then hdr.outport_id else 0;
  crc32 = fgw_crc32 (unsealed hdr payload) 0;
}

-- crc_ok compares the stated checksum with fgwCrc32 of the frame whose CRC field is zeroed.
pub crc_ok_lem :
    (bytes : List ℕ) (header_wire payload_len expect_crc : ℕ)
    → crc_ok bytes header_wire payload_len expect_crc ≡ (
        fgw_crc32
          (take (header_wire - 4) bytes
            ++ (pack_be32 0 ++ take payload_len (drop header_wire bytes)))
          0
        == expect_crc)
unfolding crc_ok fgw_crc32
crc_ok_lem bytes header_wire payload_len expect_crc =
    rw
      (
        crc_bytes-append 0xFFFFFFFF (take (header_wire - 4) bytes)
            (pack_be32 0 ++ take payload_len (drop header_wire bytes)),
        crc_bytes-append (crc_bytes 0xFFFFFFFF (take (header_wire - 4) bytes)) (pack_be32 0)
            (take payload_len (drop header_wire bytes)),
      )
      refl

pub length-frame_of :
    (hdr : FgwSegmentHeader) (payload : List ℕ)
    → length (frame_of hdr payload) ≡ wire_header_size hdr + length payload
unfolding seal_frame
length-frame_of hdr payload = omega (
  arith,
  length-header_prefix hdr (length payload),
  length-append (header_prefix hdr (length payload))
      (pack_be32 (fgw_crc32 (unsealed hdr payload) 0) ++ payload),
)

-- fgwSegmentEncode writes the frame at the front of a buffer that is large enough, and returns
-- the frame's length.
pub fgw_segment_encode_lem :
    (out : List ℕ) (hdr : FgwSegmentHeader) (payload : List ℕ)
    → length payload ≤ max_payload
    → wire_header_size hdr + length payload ≤ length out
    → fgw_segment_encode (some out) hdr (some payload) (pos (length payload))
      ≡ ok (
        wire_header_size hdr + length payload,
        frame_of hdr payload ++ drop (wire_header_size hdr + length payload) out,
      )
unfolding fgw_segment_encode
fgw_segment_encode_lem out hdr payload h fits = ground (arith, take-length payload (length payload))

sealed_rest :
    (hdr : FgwSegmentHeader) (payload rest : List ℕ)
    → frame_of hdr payload ++ rest
      ≡ header_prefix hdr (length payload)
        ++ (pack_be32 (fgw_crc32 (unsealed hdr payload) 0) ++ (payload ++ rest))
unfolding seal_frame
sealed_rest hdr payload rest = append_assoc (header_prefix hdr (length payload)) _ rest

module _ (hdr : FgwSegmentHeader) (payload rest : List ℕ) (r : InRange hdr)
    (fits : length payload ≤ max_payload) where
  -- A frame, with anything behind it, is recognised, and its header is read back: the fields of
  -- the encoded header, FLAG_HDR_EXT added, the outport only if the frame is routed.
  pub peek-frame_of :
      fgw_segment_peek_header (frame_of hdr payload ++ rest)
      ≡ found (wire_header_size hdr) (wire_header hdr payload)
  peek-frame_of = rw (sealed_rest hdr payload rest) (
      peek_prefix hdr (length payload) (fgw_crc32 (unsealed hdr payload) 0) (payload ++ rest) r fits
        (fgw_crc32-lt (unsealed hdr payload) 0 (omega arith)))

-- Behind the header of a frame stands its payload.
pub payload_of_frame :
    (hdr : FgwSegmentHeader) (payload rest : List ℕ)
    → take (length payload) (drop (wire_header_size hdr) (frame_of hdr payload ++ rest)) ≡ payload
payload_of_frame hdr payload rest =
    rw
      (
        sealed_rest hdr payload rest,
        drop_header hdr (length payload) (fgw_crc32 (unsealed hdr payload) 0) (payload ++ rest),
      )
      (take-append payload rest (length payload) refl)

-- The size that fgwSegmentVerifyCrc asks for.
verify-crc_ok :
    (bytes : List ℕ) (hdr wire : FgwSegmentHeader)
    → fgw_segment_verify_crc bytes wire (wire_header_size hdr)
      ≡ crc_ok bytes (wire_header_size hdr) wire.payload_len wire.crc32
unfolding fgw_segment_verify_crc wire_header_size
verify-crc_ok bytes hdr wire = elim (Bool-cases (is_routed hdr)) [
  | inl e ↦ rw e refl
  | inr e ↦ rw e refl
]

-- The checksum of a frame that is checked with the payload `p` in place of the encoded one.
verify_with :
    (hdr : FgwSegmentHeader) (payload p rest : List ℕ)
    → length p ≡ length payload
    → fgw_segment_verify_crc
        (header_prefix hdr (length payload)
          ++ (pack_be32 (fgw_crc32 (unsealed hdr payload) 0) ++ (p ++ rest)))
        (wire_header hdr payload)
        (wire_header_size hdr)
      ≡ (fgw_crc32 (header_prefix hdr (length payload) ++ (pack_be32 0 ++ p)) 0
          == fgw_crc32 (unsealed hdr payload) 0)
verify_with hdr payload p rest e =
    verify-crc_ok _ hdr (wire_header hdr payload)
    ∙ crc_ok_lem _ (wire_header_size hdr) (length payload) (fgw_crc32 (unsealed hdr payload) 0)
    ∙ rw
        (
          take_prefix hdr (length payload) (fgw_crc32 (unsealed hdr payload) 0) (p ++ rest),
          drop_header hdr (length payload) (fgw_crc32 (unsealed hdr payload) 0) (p ++ rest),
          take-append p rest (length payload) (sym e),
        )
        refl

-- A frame passes the CRC check of the receiver.
pub verify-frame_of :
    (hdr : FgwSegmentHeader) (payload rest : List ℕ)
    → fgw_segment_verify_crc
        (frame_of hdr payload ++ rest)
        (wire_header hdr payload)
        (wire_header_size hdr)
      ≡ true
verify-frame_of hdr payload rest =
    rw (sealed_rest hdr payload rest)
      (verify_with hdr payload payload rest refl ∙ (==_iff _ _).1 refl)

-- A frame whose payload was changed on the way, in one byte to another byte, fails the CRC check,
-- whatever comes behind the frame.
pub verify_corrupted :
    (hdr : FgwSegmentHeader) (front back rest : List ℕ) (a b : ℕ)
    → a < 2 ^ 8
    → b < 2 ^ 8
    → a ≢ b
    → let payload = front ++ a ∷ back in
      fgw_segment_verify_crc
        (header_prefix hdr (length payload)
          ++ (pack_be32 (fgw_crc32 (unsealed hdr payload) 0) ++ ((front ++ b ∷ back) ++ rest)))
        (wire_header hdr payload)
        (wire_header_size hdr)
      ≡ false
verify_corrupted hdr front back rest a b ha hb ne =
    verify_with hdr (front ++ a ∷ back) (front ++ b ∷ back) rest
      (length-append front (b ∷ back) ∙ sym (length-append front (a ∷ back)))
    ∙ ==_ne _ _ (λ e. differs (sym e))
  where
    head : List ℕ
    head = header_prefix hdr (length (front ++ a ∷ back)) ++ pack_be32 0

    regroup :
        (x : ℕ)
        → header_prefix hdr (length (front ++ a ∷ back)) ++ (pack_be32 0 ++ (front ++ x ∷ back))
          ≡ (head ++ front) ++ x ∷ back
    regroup x = simp append_assoc

    differs :
        fgw_crc32 (unsealed hdr (front ++ a ∷ back)) 0
        ≢ fgw_crc32
            (header_prefix hdr (length (front ++ a ∷ back)) ++ (pack_be32 0 ++ (front ++ b ∷ back)))
            0
    differs =
        rw (regroup a, regroup b)
          (fgw_crc32_single_byte (head ++ front) back a b 0 ha hb (omega arith) ne)

-- A payload that fits, with a header whose fields are in range, is encoded at the front of a
-- destination that is long enough. Whatever comes behind the frame, the receiver reads back the
-- header, finds the checksum right, and finds the payload behind the header. The flags read are
-- the encoded ones with FLAG_HDR_EXT, and the outport is read if the frame is routed.
pub encode_decode :
    (out : List ℕ) (hdr : FgwSegmentHeader) (payload rest : List ℕ)
    → InRange hdr
    → length payload ≤ max_payload
    → wire_header_size hdr + length payload ≤ length out
    → (frame : List ℕ) × (length frame ≡ wire_header_size hdr + length payload)
      × (fgw_segment_encode (some out) hdr (some payload) (pos (length payload))
          ≡ ok (length frame, frame ++ drop (length frame) out))
      × (wire : FgwSegmentHeader) × (wire ≡ record hdr {
        magic = segment_magic;
        flags = bit_or hdr.flags flag_hdr_ext;
        payload_len = length payload;
        outport_id = if has_flag hdr.flags flag_hdr_route then hdr.outport_id else 0;
        crc32 = wire.crc32;
      })
      × (fgw_segment_peek_header (frame ++ rest) ≡ found (wire_header_size hdr) wire)
      × (fgw_segment_verify_crc (frame ++ rest) wire (wire_header_size hdr) ≡ true)
      × (take (length payload) (drop (wire_header_size hdr) (frame ++ rest)) ≡ payload)
encode_decode out hdr payload rest r fits large = (
  frame_of hdr payload,
  length-frame_of hdr payload,
  rw (length-frame_of hdr payload) (fgw_segment_encode_lem out hdr payload fits large),
  wire_header hdr payload,
  unfold is_routed in refl,
  peek-frame_of hdr payload rest r fits,
  verify-frame_of hdr payload rest,
  payload_of_frame hdr payload rest,
)
