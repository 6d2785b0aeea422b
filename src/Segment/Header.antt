-- ===== src/Segment/Header.antt =====
-- src/zfgw_segment.h: the fixed header of a segment, its flags and sizes; and the big-endian
-- helpers of src/zfgw_segment.cpp.
use libfgw.Prelude.{
  ℕ, ◌+◌, ◌*◌, ◌/◌, ◌%◌, ◌^◌, ◌<◌, bit_and, Bool, not, List, [], ◌∷◌, ◌==◌, get_or,
}

pub record FgwSegmentHeader : Type 0 where
  pub magic : ℕ
  pub flags : ℕ
  pub payload_len : ℕ
  pub session_id : ℕ
  pub seq_num : ℕ
  pub ingress_id : ℕ
  pub outport_id : ℕ
  pub crc32 : ℕ

abbrev pub segment_magic : ℕ
segment_magic = 0xF6

abbrev pub max_payload : ℕ
max_payload = 65519

abbrev pub header_size : ℕ
header_size = 20

abbrev pub legacy_header_size : ℕ
legacy_header_size = 16

abbrev pub routed_header_size : ℕ
routed_header_size = 24

abbrev pub flag_syn : ℕ
flag_syn = 0x01

abbrev pub flag_fin : ℕ
flag_fin = 0x02

abbrev pub flag_data : ℕ
flag_data = 0x04

abbrev pub flag_ack : ℕ
flag_ack = 0x08

abbrev pub flag_heartbeat : ℕ
flag_heartbeat = 0x10

abbrev pub flag_hello : ℕ
flag_hello = 0x20

abbrev pub flag_hdr_route : ℕ
flag_hdr_route = 0x40

abbrev pub flag_hdr_ext : ℕ
flag_hdr_ext = 0x80

-- The members' initial values.
abbrev pub default_header : FgwSegmentHeader
default_header = record {
  magic = segment_magic;
  flags = 0;
  payload_len = 0;
  session_id = 0;
  seq_num = 0;
  ingress_id = 0;
  outport_id = 0;
  crc32 = 0;
}

-- (flags & f) != 0
unfoldable pub has_flag : ℕ → ℕ → Bool
has_flag flags f = not (bit_and flags f == 0)

abbrev pub is_data : FgwSegmentHeader → Bool
is_data h = has_flag h.flags flag_data

abbrev pub is_hello : FgwSegmentHeader → Bool
is_hello h = has_flag h.flags flag_hello

abbrev pub is_heartbeat : FgwSegmentHeader → Bool
is_heartbeat h = has_flag h.flags flag_heartbeat

abbrev pub is_fin : FgwSegmentHeader → Bool
is_fin h = has_flag h.flags flag_fin

abbrev pub is_syn : FgwSegmentHeader → Bool
is_syn h = has_flag h.flags flag_syn

abbrev pub is_ack : FgwSegmentHeader → Bool
is_ack h = has_flag h.flags flag_ack

abbrev pub is_hdr_ext : FgwSegmentHeader → Bool
is_hdr_ext h = has_flag h.flags flag_hdr_ext

abbrev pub is_hdr_route : FgwSegmentHeader → Bool
is_hdr_route h = has_flag h.flags flag_hdr_route

-- What the members' types hold: uint8, uint16 and uint32.
pub record InRange (h : FgwSegmentHeader) : Type 0 where
  pub flags_lt : h.flags < 2 ^ 8
  pub payload_len_lt : h.payload_len < 2 ^ 16
  pub session_id_lt : h.session_id < 2 ^ 32
  pub seq_num_lt : h.seq_num < 2 ^ 32
  pub ingress_id_lt : h.ingress_id < 2 ^ 32
  pub outport_id_lt : h.outport_id < 2 ^ 32

abbrev pub pack_be16 : ℕ → List ℕ
pack_be16 v = (v / 2 ^ 8 % 2 ^ 8) ∷ (v % 2 ^ 8) ∷ []

abbrev pub pack_be32 : ℕ → List ℕ
pack_be32 v = (v / 2 ^ 24 % 2 ^ 8) ∷ (v / 2 ^ 16 % 2 ^ 8) ∷ (v / 2 ^ 8 % 2 ^ 8) ∷ (v % 2 ^ 8) ∷ []

-- The two bytes at `p`. Bytes are below 2 ^ 8, so `|` of the shifted bytes is their sum.
abbrev pub unpack_be16 : List ℕ → ℕ → ℕ
unpack_be16 buf p = get_or buf p 0 * 2 ^ 8 + get_or buf (p + 1) 0

abbrev pub unpack_be32 : List ℕ → ℕ → ℕ
unpack_be32 buf p =
    get_or buf p 0 * 2 ^ 24
    + get_or buf (p + 1) 0 * 2 ^ 16
    + get_or buf (p + 2) 0 * 2 ^ 8
    + get_or buf (p + 3) 0
