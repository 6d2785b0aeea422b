-- ===== src/Segment/Layout.antt =====
-- The header's bytes on the wire, and what fgwSegmentPeekHeader reads from them.
use libfgw.Prelude.{
  ℕ, ◌+◌, ◌-◌, ◌*◌, ◌/◌, ◌%◌, ◌^◌, ◌≤◌, ◌<◌, ◌≡◌, refl, ◌∙◌, inl, inr, bit_or, true, false, List,
  [], ◌∷◌, ◌++◌, append_assoc, if◌then◌else◌, Bool-cases, length, take, drop, length-append,
  take-append, drop-append, arith,
}
use libfgw.Segment.Header.{
  FgwSegmentHeader, InRange, segment_magic, max_payload, has_flag, flag_hdr_ext, flag_hdr_route,
  pack_be16, pack_be32,
}
use libfgw.Segment.Encode.{is_routed, wire_header_size, header_prefix}
use libfgw.Segment.Decode.{found, fgw_segment_peek_header}
use libfgw.Segment.Flags.{wire_flags}

pub length-header_prefix :
    (hdr : FgwSegmentHeader) (n : ℕ) → length (header_prefix hdr n) + 4 ≡ wire_header_size hdr
unfolding header_prefix wire_header_size
length-header_prefix hdr n = elim (Bool-cases (is_routed hdr)) [
  | inl e ↦ rw e (omega arith)
  | inr e ↦ rw e (omega arith)
]

be32_back :
    (v : ℕ)
    → v < 2 ^ 32
    → v / 2 ^ 24 % 2 ^ 8 * 2 ^ 24
        + v / 2 ^ 16 % 2 ^ 8 * 2 ^ 16
        + v / 2 ^ 8 % 2 ^ 8 * 2 ^ 8
        + v % 2 ^ 8
      ≡ v
be32_back v h = omega arith

be16_back : (v : ℕ) → v < 2 ^ 16 → v % 2 ^ 16 / 2 ^ 8 % 2 ^ 8 * 2 ^ 8 + v % 2 ^ 16 % 2 ^ 8 ≡ v
be16_back v h = omega arith

-- The bytes of a header with its checksum `c`, and what follows.
abbrev laid_out : ℕ → ℕ → ℕ → ℕ → ℕ → List ℕ → ℕ → List ℕ → List ℕ
laid_out f n sid seq ing route c tail =
    segment_magic ∷ f ∷ pack_be16 (n % 2 ^ 16)
    ++ (pack_be32 sid ++ (pack_be32 seq ++ (pack_be32 ing ++ (route ++ (pack_be32 c ++ tail)))))

module _ (f n sid seq ing c : ℕ) (tail : List ℕ) (fits : n ≤ max_payload) (hs : sid < 2 ^ 32)
    (hq : seq < 2 ^ 32) (hi : ing < 2 ^ 32) (hc : c < 2 ^ 32)
    (ext : has_flag f flag_hdr_ext ≡ true) where
  peek_routed :
      (out : ℕ)
      → out < 2 ^ 32
      → has_flag f flag_hdr_route ≡ true
      → fgw_segment_peek_header (laid_out f n sid seq ing (pack_be32 out) c tail)
        ≡ found 24 (record {
          magic = segment_magic;
          flags = f;
          payload_len = n;
          session_id = sid;
          seq_num = seq;
          ingress_id = ing;
          outport_id = out;
          crc32 = c;
        })
  unfolding fgw_segment_peek_header
  peek_routed out ho routed =
      let in_range : n < 2 ^ 16 = omega arith in
      rw
        (
          routed,
          be16_back n in_range,
          be32_back sid hs,
          be32_back seq hq,
          be32_back ing hi,
          be32_back out ho,
          be32_back c hc,
        )
        (ground arith)

  peek_extended :
      has_flag f flag_hdr_route ≡ false
      → fgw_segment_peek_header (laid_out f n sid seq ing [] c tail)
        ≡ found 20 (record {
          magic = segment_magic;
          flags = f;
          payload_len = n;
          session_id = sid;
          seq_num = seq;
          ingress_id = ing;
          outport_id = 0;
          crc32 = c;
        })
  unfolding fgw_segment_peek_header
  peek_extended plain =
      let in_range : n < 2 ^ 16 = omega arith in
      rw
        (
          plain,
          ext,
          be16_back n in_range,
          be32_back sid hs,
          be32_back seq hq,
          be32_back ing hi,
          be32_back c hc,
        )
        (ground arith)

route_bytes : FgwSegmentHeader → List ℕ
route_bytes hdr = if is_routed hdr then pack_be32 hdr.outport_id else []

prefix-laid_out :
    (hdr : FgwSegmentHeader) (n c : ℕ) (tail : List ℕ)
    → header_prefix hdr n ++ (pack_be32 c ++ tail)
      ≡ laid_out
          (bit_or hdr.flags flag_hdr_ext)
          n
          hdr.session_id
          hdr.seq_num
          hdr.ingress_id
          (route_bytes hdr)
          c
          tail
unfolding route_bytes header_prefix
prefix-laid_out hdr n c tail = refl

pub peek_prefix :
    (hdr : FgwSegmentHeader) (n c : ℕ) (tail : List ℕ)
    → InRange hdr
    → n ≤ max_payload
    → c < 2 ^ 32
    → fgw_segment_peek_header (header_prefix hdr n ++ (pack_be32 c ++ tail))
      ≡ found (wire_header_size hdr) (record hdr {
        magic = segment_magic;
        flags = bit_or hdr.flags flag_hdr_ext;
        payload_len = n;
        outport_id = if is_routed hdr then hdr.outport_id else 0;
        crc32 = c;
      })
unfolding route_bytes wire_header_size
peek_prefix hdr n c tail r fits hc =
    let w = wire_flags hdr.flags r.flags_lt in
    rw (prefix-laid_out hdr n c tail) (elim (Bool-cases (is_routed hdr)) [
      | inl e ↦ rw e (
          peek_routed (bit_or hdr.flags flag_hdr_ext) n hdr.session_id hdr.seq_num hdr.ingress_id c
            tail fits r.session_id_lt r.seq_num_lt r.ingress_id_lt hc w.extended hdr.outport_id
            r.outport_id_lt (w.route_kept ∙ unfold is_routed in e))
      | inr e ↦ rw e (
          peek_extended (bit_or hdr.flags flag_hdr_ext) n hdr.session_id hdr.seq_num hdr.ingress_id
            c tail fits r.session_id_lt r.seq_num_lt r.ingress_id_lt hc w.extended
            (w.route_kept ∙ unfold is_routed in e))
    ])

pub drop_header :
    (hdr : FgwSegmentHeader) (n c : ℕ) (tail : List ℕ)
    → drop (wire_header_size hdr) (header_prefix hdr n ++ (pack_be32 c ++ tail)) ≡ tail
drop_header hdr n c tail = rw (← append_assoc (header_prefix hdr n) (pack_be32 c) tail) (
    drop-append (header_prefix hdr n ++ pack_be32 c) tail (wire_header_size hdr) (
      omega (arith, length-header_prefix hdr n, length-append (header_prefix hdr n) (pack_be32 c))))

pub take_prefix :
    (hdr : FgwSegmentHeader) (n c : ℕ) (tail : List ℕ)
    → take (wire_header_size hdr - 4) (header_prefix hdr n ++ (pack_be32 c ++ tail))
      ≡ header_prefix hdr n
take_prefix hdr n c tail =
    take-append (header_prefix hdr n) (pack_be32 c ++ tail) (wire_header_size hdr - 4)
      (omega (arith, length-header_prefix hdr n))
