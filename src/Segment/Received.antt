-- ===== src/Segment/Received.antt =====
-- src/zfgw_segment.cpp: the header that fgwSegmentPeekHeader reads, whatever bytes arrive.
use libfgw.Prelude.{
  ℕ, zero, suc, ◌+◌, ◌^◌, ◌≤◌, ◌<◌, ◌≡◌, subst, not, List, [], ◌∷◌, ltb, ◌==◌, if_cases, if_either,
  length, get_or, All, arith,
}
use libfgw.Segment.Header.{
  FgwSegmentHeader, InRange, segment_magic, max_payload, header_size, legacy_header_size,
  routed_header_size, is_hdr_route, is_hdr_ext, unpack_be16, unpack_be32,
}
use libfgw.Segment.Decode.{
  Peek, need_more, bad, found, common_header, peek_layout, fgw_segment_peek_header,
}

abbrev pub IsByte : ℕ → Type 0
IsByte b = b < 2 ^ 8

byte_at : (bytes : List ℕ) (i : ℕ) → All IsByte bytes → get_or bytes i 0 < 2 ^ 8
byte_at [] i h = omega arith
byte_at (b ∷ bytes) zero h = h.0
byte_at (b ∷ bytes) (suc i) h = byte_at bytes i h.1

unpack_be16_lt : (bytes : List ℕ) (p : ℕ) → All IsByte bytes → unpack_be16 bytes p < 2 ^ 16
unpack_be16_lt bytes p h =
    let a : get_or bytes p 0 < 2 ^ 8 = byte_at bytes p h in
    let b : get_or bytes (p + 1) 0 < 2 ^ 8 = byte_at bytes (p + 1) h in omega arith

unpack_be32_lt : (bytes : List ℕ) (p : ℕ) → All IsByte bytes → unpack_be32 bytes p < 2 ^ 32
unpack_be32_lt bytes p h =
    let a : get_or bytes p 0 < 2 ^ 8 = byte_at bytes p h in
    let b : get_or bytes (p + 1) 0 < 2 ^ 8 = byte_at bytes (p + 1) h in
    let c : get_or bytes (p + 2) 0 < 2 ^ 8 = byte_at bytes (p + 2) h in
    let d : get_or bytes (p + 3) 0 < 2 ^ 8 = byte_at bytes (p + 3) h in omega arith

-- A header that was read from `n` bytes.
abbrev Sound : ℕ → Peek → Type 0
Sound n need_more = Unit
Sound n bad = Unit
Sound n (found hr hdr) =
    InRange hdr
    × (hdr.magic ≡ segment_magic)
    × (hdr.payload_len ≤ max_payload)
    × (hdr.crc32 < 2 ^ 32)
    × (hr ≤ n)

peek_layout-Sound :
    (bytes : List ℕ)
    → All IsByte bytes
    → legacy_header_size ≤ length bytes
    → get_or bytes 0 0 ≡ segment_magic
    → unpack_be16 bytes 2 ≤ max_payload
    → Sound (length bytes) (peek_layout bytes (common_header bytes))
unfolding peek_layout common_header
peek_layout-Sound bytes h long magic fits =
    if_either (Sound (length bytes)) (is_hdr_route (common_header bytes)) _ _
      (if_cases (Sound (length bytes)) (ltb (length bytes) routed_header_size) need_more _ (λ e. tt)
        (λ e. (
          range (unpack_be32 bytes 12) (unpack_be32 bytes 16) (unpack_be32 bytes 20)
              (unpack_be32_lt bytes 12 h) (unpack_be32_lt bytes 16 h),
          magic,
          fits,
          unpack_be32_lt bytes 20 h,
          ground arith,
        )))
      (if_either (Sound (length bytes)) (is_hdr_ext (common_header bytes)) _ _
        (if_cases (Sound (length bytes)) (ltb (length bytes) header_size) need_more _ (λ e. tt)
          (λ e. (
            range (unpack_be32 bytes 12) 0 (unpack_be32 bytes 16) (unpack_be32_lt bytes 12 h)
                (omega arith),
            magic,
            fits,
            unpack_be32_lt bytes 16 h,
            ground arith,
          )))
        (
          range 0 0 (unpack_be32 bytes 12) (omega arith) (omega arith),
          magic,
          fits,
          unpack_be32_lt bytes 12 h,
          long,
        ))
  where
    range :
        (ingress outport crc : ℕ)
        → ingress < 2 ^ 32
        → outport < 2 ^ 32
        → InRange (record (common_header bytes) {
          ingress_id = ingress;
          outport_id = outport;
          crc32 = crc;
        })
    range ingress outport crc below below' = record {
      flags_lt = byte_at bytes 1 h;
      payload_len_lt = unpack_be16_lt bytes 2 h;
      session_id_lt = unpack_be32_lt bytes 4 h;
      seq_num_lt = unpack_be32_lt bytes 8 h;
      ingress_id_lt = below;
      outport_id_lt = below';
    }

peek-Sound :
    (bytes : List ℕ) → All IsByte bytes → Sound (length bytes) (fgw_segment_peek_header bytes)
unfolding fgw_segment_peek_header common_header
peek-Sound bytes h =
    if_cases (Sound (length bytes)) (ltb (length bytes) legacy_header_size) need_more _ (λ e. tt)
      (λ long.
        if_cases (Sound (length bytes)) (not (get_or bytes 0 0 == segment_magic)) bad _ (λ e. tt)
          (λ magic.
            if_cases (Sound (length bytes)) (ltb max_payload (unpack_be16 bytes 2)) bad _ (λ e. tt)
              (λ fits. peek_layout-Sound bytes h (ground arith) (ground arith) (ground arith))))

-- Whatever bytes arrive, a header that the peek finds in them lies whole in them, has the magic, a
-- payload that the format allows, and every field in the range of its type.
pub peek-InRange :
    (bytes : List ℕ) (hr : ℕ) (hdr : FgwSegmentHeader)
    → All IsByte bytes
    → fgw_segment_peek_header bytes ≡ found hr hdr
    → InRange hdr
      × (hdr.magic ≡ segment_magic)
      × (hdr.payload_len ≤ max_payload)
      × (hdr.crc32 < 2 ^ 32)
      × (hr ≤ length bytes)
peek-InRange bytes hr hdr h e = subst (Sound (length bytes)) e (peek-Sound bytes h)
