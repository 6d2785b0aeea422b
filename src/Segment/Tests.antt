-- ===== src/Segment/Tests.antt =====
-- Runs of the segment codec, and the theorems at concrete inputs.
use libfgw.Prelude.{
  ℕ, ◌+◌, ◌^◌, ◌≤◌, ◌<◌, All, ◌≡◌, ◌≢◌, ◌⊎◌, refl, bit_or, Bool, ltb, true, false, List, [], ◌∷◌,
  ◌++◌, some, if◌then◌else◌, length, take, drop, replicate, arith,
}
use libfgw.Codes.{ok, pos}
use libfgw.Segment.Received.{IsByte, peek-InRange}
use libfgw.Segment.Header.{
  FgwSegmentHeader, InRange, default_header, segment_magic, max_payload, has_flag, flag_hdr_ext,
  flag_hdr_route, pack_be32,
}
use libfgw.Segment.Encode.{is_routed, wire_header_size, header_prefix, fgw_segment_encode}
use libfgw.Segment.Decode.{need_more, found, fgw_segment_peek_header, fgw_segment_verify_crc}
use libfgw.Segment.Flags.{WireFlags, wire_flags}
use libfgw.Segment.Prefix.{peek-append}
use libfgw.Segment.RoundTrip.{unsealed, wire_header, encode_decode, verify_corrupted}
use libfgw.Segment.Crc.Detect.{fgw_crc32_single_byte}
use libfgw.Segment.Crc.{crc32_table, crc_update, crc_bytes, fgw_crc32}

check_digits :
    fgw_crc32 (0x31 ∷ 0x32 ∷ 0x33 ∷ 0x34 ∷ 0x35 ∷ 0x36 ∷ 0x37 ∷ 0x38 ∷ 0x39 ∷ []) 0 ≡ 0xCBF43926
unfolding fgw_crc32 crc_bytes crc_update crc32_table
check_digits = refl

abbrev test_header : FgwSegmentHeader
test_header = record default_header {
  flags = 0x44;
  session_id = 7;
  seq_num = 0x01020304;
  ingress_id = 9;
  outport_id = 11;
}

test_header-InRange : InRange test_header
test_header-InRange = record {
  flags_lt = omega arith;
  payload_len_lt = omega arith;
  session_id_lt = omega arith;
  seq_num_lt = omega arith;
  ingress_id_lt = omega arith;
  outport_id_lt = omega arith;
}

encode_decode_example :
    (frame : List ℕ) × (length frame ≡ wire_header_size test_header + 2)
    × (fgw_segment_encode (some (replicate 64 0)) test_header (some (1 ∷ 2 ∷ [])) (pos 2)
        ≡ ok (length frame, frame ++ drop (length frame) (replicate 64 0)))
    × (wire : FgwSegmentHeader) × (wire ≡ record test_header {
      magic = segment_magic;
      flags = bit_or 0x44 flag_hdr_ext;
      payload_len = 2;
      outport_id = if has_flag 0x44 flag_hdr_route then 11 else 0;
      crc32 = wire.crc32;
    })
    × (fgw_segment_peek_header (frame ++ 5 ∷ []) ≡ found (wire_header_size test_header) wire)
    × (fgw_segment_verify_crc (frame ++ 5 ∷ []) wire (wire_header_size test_header) ≡ true)
    × (take 2 (drop (wire_header_size test_header) (frame ++ 5 ∷ [])) ≡ 1 ∷ 2 ∷ [])
encode_decode_example =
    encode_decode (replicate 64 0) test_header (1 ∷ 2 ∷ []) (5 ∷ []) test_header-InRange
      (omega arith) (unfold wire_header_size is_routed has_flag in omega arith)

verify_corrupted_example :
    fgw_segment_verify_crc
      (header_prefix test_header 2
        ++ (pack_be32 (fgw_crc32 (unsealed test_header (1 ∷ 2 ∷ [])) 0) ++ (1 ∷ 3 ∷ [] ++ 5 ∷ [])))
      (wire_header test_header (1 ∷ 2 ∷ []))
      (wire_header_size test_header)
    ≡ false
verify_corrupted_example =
    verify_corrupted test_header (1 ∷ []) [] (5 ∷ []) 2 3 (omega arith) (omega arith) (omega arith)

fgw_crc32_single_byte_example : fgw_crc32 (1 ∷ 2 ∷ 3 ∷ []) 0 ≢ fgw_crc32 (1 ∷ 8 ∷ 3 ∷ []) 0
fgw_crc32_single_byte_example =
    fgw_crc32_single_byte (1 ∷ []) (3 ∷ []) 2 8 0 (omega arith) (omega arith) (omega arith)
      (omega arith)

peek-append_example :
    (fgw_segment_peek_header (0xF6 ∷ []) ≡ need_more)
    ⊎ (fgw_segment_peek_header (0xF6 ∷ 1 ∷ []) ≡ fgw_segment_peek_header (0xF6 ∷ []))
peek-append_example = peek-append (0xF6 ∷ []) (1 ∷ [])

wire_flags_example : WireFlags 0x44
wire_flags_example = wire_flags 0x44 (omega arith)

-- A legacy header, with nothing behind it.
abbrev arrived : List ℕ
arrived = 0xF6 ∷ 4 ∷ 0 ∷ 2 ∷ 0 ∷ 0 ∷ 0 ∷ 5 ∷ 0 ∷ 0 ∷ 1 ∷ 0 ∷ 0 ∷ 0 ∷ 0 ∷ 9 ∷ []

abbrev arrived_header : FgwSegmentHeader
arrived_header = record default_header {
  flags = 4;
  payload_len = 2;
  session_id = 5;
  seq_num = 256;
  crc32 = 9;
}

arrived-found : fgw_segment_peek_header arrived ≡ found 16 arrived_header
unfolding fgw_segment_peek_header has_flag
arrived-found = refl

abbrev all_bytes : List ℕ → Bool
all_bytes [] = true
all_bytes (b ∷ bytes) = if ltb b (2 ^ 8) then all_bytes bytes else false

all_bytes-IsByte : (bytes : List ℕ) → all_bytes bytes ≡ true → All IsByte bytes
all_bytes-IsByte [] h = tt
all_bytes-IsByte (b ∷ bytes) h = (ground arith, all_bytes-IsByte bytes (ground arith))

peek-InRange_example :
    InRange arrived_header
    × (arrived_header.magic ≡ segment_magic)
    × (arrived_header.payload_len ≤ max_payload)
    × (arrived_header.crc32 < 2 ^ 32)
    × (16 ≤ length arrived)
peek-InRange_example =
    peek-InRange arrived 16 arrived_header (all_bytes-IsByte arrived refl) arrived-found
