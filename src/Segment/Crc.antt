-- ===== src/Segment/Crc.antt =====
-- src/zfgw_segment.cpp: the CRC-32 table, fgwCrc32 and crc_ok.
pub mod Detect
use libfgw.Prelude.{
  ℕ, zero, suc, ◌+◌, ◌-◌, ◌/◌, ◌^◌, bit_and, bit_xor, Bool, List, [], ◌∷◌, ◌==◌, if◌then◌else◌,
  get_or, take, drop,
}

abbrev crc32_poly : ℕ
crc32_poly = 0xEDB88320

-- for (k = 0; k < 8; ++k) c = (c & 1) ? (poly ^ (c >> 1)) : (c >> 1), with `k` rounds left.
crc_rounds : ℕ → ℕ → ℕ
crc_rounds zero c = c
crc_rounds (suc k) c = crc_rounds k (if bit_and c 1 == 0 then c / 2 else bit_xor crc32_poly (c / 2))

-- table[i .. i + n)
crc_entries : ℕ → ℕ → List ℕ
unfolding crc_rounds
crc_entries zero i = []
crc_entries (suc n) i = crc_rounds 8 i ∷ crc_entries n (i + 1)

unfoldable pub crc32_table : List ℕ
unfolding crc_entries
crc32_table = crc_entries 256 0

-- crc = table[(crc ^ b) & 0xFF] ^ (crc >> 8)
unfoldable pub crc_update : ℕ → ℕ → ℕ
crc_update crc b = bit_xor (get_or crc32_table (bit_and (bit_xor crc b) 0xFF) 0) (crc / 2 ^ 8)

-- The loop over a range of bytes.
unfoldable pub crc_bytes : ℕ → List ℕ → ℕ
crc_bytes crc [] = crc
crc_bytes crc (b ∷ bs) = crc_bytes (crc_update crc b) bs

unfoldable pub fgw_crc32 : List ℕ → ℕ → ℕ
fgw_crc32 bytes seed = bit_xor (crc_bytes (bit_xor seed 0xFFFFFFFF) bytes) 0xFFFFFFFF

-- The bytes before the CRC field, four zero bytes in its place, then the payload, as three loops
-- that hand the register on.
unfoldable pub crc_ok : List ℕ → ℕ → ℕ → ℕ → Bool
crc_ok bytes header_wire payload_len expect_crc =
    let crc_off = header_wire - 4 in
    let head = crc_bytes 0xFFFFFFFF (take crc_off bytes) in
    let field = crc_bytes head (0 ∷ 0 ∷ 0 ∷ 0 ∷ []) in
    let whole = crc_bytes field (take payload_len (drop header_wire bytes)) in
    bit_xor whole 0xFFFFFFFF == expect_crc
