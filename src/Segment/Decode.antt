-- ===== src/Segment/Decode.antt =====
-- src/zfgw_segment.cpp: fgwSegmentPeekHeader and fgwSegmentVerifyCrc.
use libfgw.Prelude.{ℕ, Bool, false, not, ◌&&◌, List, ltb, ◌==◌, if◌then◌else◌, get_or, length}
use libfgw.Segment.Header.{
  FgwSegmentHeader, segment_magic, max_payload, header_size, legacy_header_size, routed_header_size,
  is_hdr_route, is_hdr_ext, unpack_be16, unpack_be32,
}
use libfgw.Segment.Crc.{crc_ok}

-- 0, ZFGW_ERRCODE_BADSEGMENT, or the header's size on the wire with the header.
pub data Peek : Type 0 where
  need_more : Peek
  bad : Peek
  found : ℕ → FgwSegmentHeader → Peek

-- The part of the header that all three layouts share.
unfoldable pub common_header : List ℕ → FgwSegmentHeader
common_header bytes = record {
  magic = get_or bytes 0 0;
  flags = get_or bytes 1 0;
  payload_len = unpack_be16 bytes 2;
  session_id = unpack_be32 bytes 4;
  seq_num = unpack_be32 bytes 8;
  ingress_id = 0;
  outport_id = 0;
  crc32 = 0;
}

unfoldable pub peek_layout : List ℕ → FgwSegmentHeader → Peek
peek_layout bytes hdr =
    if is_hdr_route hdr
    then (if ltb (length bytes) routed_header_size
        then need_more
        else found routed_header_size (record hdr {
          ingress_id = unpack_be32 bytes 12;
          outport_id = unpack_be32 bytes 16;
          crc32 = unpack_be32 bytes 20;
        }))
    else if is_hdr_ext hdr
    then (if ltb (length bytes) header_size
        then need_more
        else found header_size (record hdr {
          ingress_id = unpack_be32 bytes 12;
          outport_id = 0;
          crc32 = unpack_be32 bytes 16;
        }))
    else found legacy_header_size
        (record hdr { ingress_id = 0; outport_id = 0; crc32 = unpack_be32 bytes 12 })

unfoldable pub fgw_segment_peek_header : List ℕ → Peek
unfolding common_header peek_layout
fgw_segment_peek_header bytes =
    let hdr = common_header bytes in
    if ltb (length bytes) legacy_header_size
    then need_more
    else if not (get_or bytes 0 0 == segment_magic)
    then bad
    else if ltb max_payload hdr.payload_len
    then bad
    else peek_layout bytes hdr

unfoldable pub fgw_segment_verify_crc : List ℕ → FgwSegmentHeader → ℕ → Bool
fgw_segment_verify_crc bytes hdr header_wire_bytes =
    if not (header_wire_bytes == legacy_header_size)
      && (not (header_wire_bytes == header_size) && not (header_wire_bytes == routed_header_size))
    then false
    else crc_ok bytes header_wire_bytes hdr.payload_len hdr.crc32
