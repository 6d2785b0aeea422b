-- ===== src/Segment/Prefix.antt =====
-- fgwSegmentPeekHeader on the bytes that have come so far: more bytes do not change an answer.
use libfgw.Prelude.{
  ℕ, ◌+◌, ◌≤◌, ◌≡◌, ◌⊎◌, refl, inl, inr, true, false, not, List, ◌++◌, ltb, ◌==◌, if◌then◌else◌,
  Bool-cases, length, length-append, get_or-append_left, arith,
}
use libfgw.Segment.Header.{
  FgwSegmentHeader, unpack_be16, unpack_be32, segment_magic, max_payload, legacy_header_size,
}
use libfgw.Segment.Decode.{
  Peek, need_more, bad, found, common_header, peek_layout, fgw_segment_peek_header,
}

unpack_be16-append :
    (xs ys : List ℕ) (p : ℕ) → p + 2 ≤ length xs → unpack_be16 (xs ++ ys) p ≡ unpack_be16 xs p
unpack_be16-append xs ys p h =
    rw
      (get_or-append_left xs ys p 0 (omega arith), get_or-append_left xs ys (p + 1) 0 (omega arith))
      refl

unpack_be32-append :
    (xs ys : List ℕ) (p : ℕ) → p + 4 ≤ length xs → unpack_be32 (xs ++ ys) p ≡ unpack_be32 xs p
unpack_be32-append xs ys p h =
    rw
      (
        get_or-append_left xs ys p 0 (omega arith),
        get_or-append_left xs ys (p + 1) 0 (omega arith),
        get_or-append_left xs ys (p + 2) 0 (omega arith),
        get_or-append_left xs ys (p + 3) 0 (omega arith),
      )
      refl

common_header-append :
    (xs ys : List ℕ) → 16 ≤ length xs → common_header (xs ++ ys) ≡ common_header xs
unfolding common_header
common_header-append xs ys h =
    rw
      (
        get_or-append_left xs ys 0 0 (omega arith),
        get_or-append_left xs ys 1 0 (omega arith),
        unpack_be16-append xs ys 2 (omega arith),
        unpack_be32-append xs ys 4 (omega arith),
        unpack_be32-append xs ys 8 (omega arith),
      )
      refl

layout-append :
    (xs ys : List ℕ) (hdr : FgwSegmentHeader)
    → 16 ≤ length xs
    → (peek_layout xs hdr ≡ need_more) ⊎ (peek_layout (xs ++ ys) hdr ≡ peek_layout xs hdr)
unfolding peek_layout
layout-append xs ys hdr h = ground (
  arith,
  length-append xs ys,
  unpack_be32-append xs ys 12,
  unpack_be32-append xs ys 16,
  unpack_be32-append xs ys 20,
)

-- What follows the test of the length.
abbrev answer : List ℕ → FgwSegmentHeader → Peek
answer bytes hdr =
    if not (hdr.magic == segment_magic)
    then bad
    else if ltb max_payload hdr.payload_len
    then bad
    else peek_layout bytes hdr

peek-answer :
    (bytes : List ℕ)
    → 16 ≤ length bytes
    → fgw_segment_peek_header bytes ≡ answer bytes (common_header bytes)
unfolding fgw_segment_peek_header
peek-answer bytes h =
    let long : ltb (length bytes) legacy_header_size ≡ false = ground arith in rw long refl

answer-append :
    (xs ys : List ℕ) (hdr : FgwSegmentHeader)
    → 16 ≤ length xs
    → (answer xs hdr ≡ need_more) ⊎ (answer (xs ++ ys) hdr ≡ answer xs hdr)
answer-append xs ys hdr h = ground (arith, layout-append xs ys hdr h)

short-need_more :
    (xs : List ℕ)
    → ltb (length xs) legacy_header_size ≡ true
    → fgw_segment_peek_header xs ≡ need_more
unfolding fgw_segment_peek_header
short-need_more xs short = rw short refl

-- An answer on some bytes, an error or a header, is the answer on more bytes.
pub peek-append :
    (xs ys : List ℕ)
    → (fgw_segment_peek_header xs ≡ need_more)
      ⊎ (fgw_segment_peek_header (xs ++ ys) ≡ fgw_segment_peek_header xs)
peek-append xs ys = elim (Bool-cases (ltb (length xs) legacy_header_size)) [
  | inl short ↦ inl (short-need_more xs short)
  | inr long ↦
      let h : 16 ≤ length xs = ground arith in
      rw
        (
          peek-answer xs h,
          peek-answer (xs ++ ys) (omega (arith, length-append xs ys)),
          common_header-append xs ys h,
        )
        (answer-append xs ys (common_header xs) h)
]

-- A header that is found lies in the bytes, and states a payload of at most max_payload bytes.
pub peek-bounds :
    (xs : List ℕ) (hr : ℕ) (hdr : FgwSegmentHeader)
    → fgw_segment_peek_header xs ≡ found hr hdr
    → (16 ≤ hr) × (hr ≤ 24) × (hr ≤ length xs) × (hdr.payload_len ≤ max_payload)
unfolding fgw_segment_peek_header peek_layout
peek-bounds xs hr hdr e = ground arith
