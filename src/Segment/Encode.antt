-- ===== src/Segment/Encode.antt =====
-- src/zfgw_segment.cpp: fgwSegmentEncode.
use libfgw.Prelude.{
  ℕ, ◌+◌, ◌%◌, ◌^◌, bit_or, Bool, List, [], ◌∷◌, ◌++◌, Option, none, some, ltb, if◌then◌else◌, take,
  drop, length,
}
use libfgw.Codes.{Result, ℤ, pos, negsuc, ok, err, memory, bad_segment}
use libfgw.Segment.Header.{
  FgwSegmentHeader, segment_magic, max_payload, header_size, routed_header_size, flag_hdr_route,
  flag_hdr_ext, has_flag, pack_be16, pack_be32,
}
use libfgw.Segment.Crc.{fgw_crc32}

unfoldable pub is_routed : FgwSegmentHeader → Bool
is_routed hdr = has_flag hdr.flags flag_hdr_route

unfoldable pub wire_header_size : FgwSegmentHeader → ℕ
unfolding is_routed
wire_header_size hdr = if is_routed hdr then routed_header_size else header_size

-- The header up to its CRC field.
unfoldable pub header_prefix : FgwSegmentHeader → ℕ → List ℕ
unfolding is_routed
header_prefix hdr payload_len =
    segment_magic ∷ bit_or hdr.flags flag_hdr_ext ∷ pack_be16 (payload_len % 2 ^ 16)
    ++ (pack_be32 hdr.session_id
        ++ (pack_be32 hdr.seq_num
            ++ (pack_be32 hdr.ingress_id
                ++ (if is_routed hdr then pack_be32 hdr.outport_id else []))))

-- The bytes that stand behind the header: the payload, or what the buffer held if there is none.
unfoldable pub body_bytes : List ℕ → ℕ → Option (List ℕ) → ℕ → List ℕ
body_bytes out hdr_sz none payload_len = take payload_len (drop hdr_sz out)
body_bytes out hdr_sz (some payload) payload_len = take payload_len payload

-- The frame: the CRC is taken over the frame with zeros in the CRC field, then put there.
unfoldable pub seal_frame : List ℕ → List ℕ → List ℕ
seal_frame prefix body =
    prefix ++ (pack_be32 (fgw_crc32 (prefix ++ (pack_be32 0 ++ body)) 0) ++ body)

-- `out` is the destination, or null; the result is the byte count and the destination afterwards.
unfoldable pub fgw_segment_encode :
    Option (List ℕ) → FgwSegmentHeader → Option (List ℕ) → ℤ → Result (ℕ × List ℕ)
unfolding wire_header_size header_prefix body_bytes seal_frame
fgw_segment_encode none hdr payload payload_len = err memory
fgw_segment_encode (some out) hdr payload (negsuc n) = err bad_segment
fgw_segment_encode (some out) hdr payload (pos payload_len) =
    let hdr_sz = wire_header_size hdr in
    let total = hdr_sz + payload_len in
    let body = body_bytes out hdr_sz payload payload_len in
    if ltb max_payload payload_len
    then err bad_segment
    else if ltb (length out) total
    then err memory
    else ok (total, seal_frame (header_prefix hdr payload_len) body ++ drop total out)
