-- ===== src/Segment/Crc/Detect.antt =====
-- What the CRC detects: the register after a range of bytes determines each one of them.
use libfgw.Prelude.{
  every_below, every_below-at, ℕ, zero, suc, ◌+◌, ◌/◌, ◌%◌, ◌^◌, ◌<◌, ◌≡◌, refl, ap, ◌∙◌, sym,
  bit_xor, Bool, true, ◌&&◌, List, [], ◌∷◌, ◌++◌, ◌==◌, ltb, get_or, arith, ◌≢◌,
}
use libfgw.Prelude.Bits.{
  bit_and_mask, bit_xor-lt, bit_xor-div, bit_xor-mod, bit_xor_cancel_right, bit_xor_comm,
  bit_xor-zero,
}
use libfgw.Segment.Crc.{crc_rounds, crc_entries, crc32_table, crc_update, crc_bytes, fgw_crc32}

-- The table index that a top byte belongs to.
abbrev top_byte_index : List ℕ
top_byte_index =
    0 ∷ 65 ∷ 195 ∷ 130 ∷ 134 ∷ 199 ∷ 69 ∷ 4 ∷ 77 ∷ 12 ∷ 142 ∷ 207 ∷ 203 ∷ 138 ∷ 8 ∷ 73 ∷ 154 ∷ 219
    ∷ 89 ∷ 24 ∷ 28 ∷ 93 ∷ 223 ∷ 158 ∷ 215 ∷ 150 ∷ 20 ∷ 85 ∷ 81 ∷ 16 ∷ 146 ∷ 211 ∷ 117 ∷ 52 ∷ 182
    ∷ 247 ∷ 243 ∷ 178 ∷ 48 ∷ 113 ∷ 56 ∷ 121 ∷ 251 ∷ 186 ∷ 190 ∷ 255 ∷ 125 ∷ 60 ∷ 239 ∷ 174 ∷ 44
    ∷ 109 ∷ 105 ∷ 40 ∷ 170 ∷ 235 ∷ 162 ∷ 227 ∷ 97 ∷ 32 ∷ 36 ∷ 101 ∷ 231 ∷ 166 ∷ 234 ∷ 171 ∷ 41 ∷ 104
    ∷ 108 ∷ 45 ∷ 175 ∷ 238 ∷ 167 ∷ 230 ∷ 100 ∷ 37 ∷ 33 ∷ 96 ∷ 226 ∷ 163 ∷ 112 ∷ 49 ∷ 179 ∷ 242 ∷ 246
    ∷ 183 ∷ 53 ∷ 116 ∷ 61 ∷ 124 ∷ 254 ∷ 191 ∷ 187 ∷ 250 ∷ 120 ∷ 57 ∷ 159 ∷ 222 ∷ 92 ∷ 29 ∷ 25 ∷ 88
    ∷ 218 ∷ 155 ∷ 210 ∷ 147 ∷ 17 ∷ 80 ∷ 84 ∷ 21 ∷ 151 ∷ 214 ∷ 5 ∷ 68 ∷ 198 ∷ 135 ∷ 131 ∷ 194 ∷ 64
    ∷ 1 ∷ 72 ∷ 9 ∷ 139 ∷ 202 ∷ 206 ∷ 143 ∷ 13 ∷ 76 ∷ 149 ∷ 212 ∷ 86 ∷ 23 ∷ 19 ∷ 82 ∷ 208 ∷ 145 ∷ 216
    ∷ 153 ∷ 27 ∷ 90 ∷ 94 ∷ 31 ∷ 157 ∷ 220 ∷ 15 ∷ 78 ∷ 204 ∷ 141 ∷ 137 ∷ 200 ∷ 74 ∷ 11 ∷ 66 ∷ 3 ∷ 129
    ∷ 192 ∷ 196 ∷ 133 ∷ 7 ∷ 70 ∷ 224 ∷ 161 ∷ 35 ∷ 98 ∷ 102 ∷ 39 ∷ 165 ∷ 228 ∷ 173 ∷ 236 ∷ 110 ∷ 47
    ∷ 43 ∷ 106 ∷ 232 ∷ 169 ∷ 122 ∷ 59 ∷ 185 ∷ 248 ∷ 252 ∷ 189 ∷ 63 ∷ 126 ∷ 55 ∷ 118 ∷ 244 ∷ 181
    ∷ 177 ∷ 240 ∷ 114 ∷ 51 ∷ 127 ∷ 62 ∷ 188 ∷ 253 ∷ 249 ∷ 184 ∷ 58 ∷ 123 ∷ 50 ∷ 115 ∷ 241 ∷ 176
    ∷ 180 ∷ 245 ∷ 119 ∷ 54 ∷ 229 ∷ 164 ∷ 38 ∷ 103 ∷ 99 ∷ 34 ∷ 160 ∷ 225 ∷ 168 ∷ 233 ∷ 107 ∷ 42 ∷ 46
    ∷ 111 ∷ 237 ∷ 172 ∷ 10 ∷ 75 ∷ 201 ∷ 136 ∷ 140 ∷ 205 ∷ 79 ∷ 14 ∷ 71 ∷ 6 ∷ 132 ∷ 197 ∷ 193 ∷ 128
    ∷ 2 ∷ 67 ∷ 144 ∷ 209 ∷ 83 ∷ 18 ∷ 22 ∷ 87 ∷ 213 ∷ 148 ∷ 221 ∷ 156 ∷ 30 ∷ 95 ∷ 91 ∷ 26 ∷ 152 ∷ 217
    ∷ []

entry_checks : ℕ → Bool
entry_checks i =
    ltb (crc_rounds 8 i) (2 ^ 32) && get_or top_byte_index (crc_rounds 8 i / 2 ^ 24) 0 == i

entries_checked : every_below entry_checks 256 ≡ true
unfolding entry_checks crc_rounds
entries_checked = refl

get_or-crc_entries : (n i j : ℕ) → j < n → get_or (crc_entries n i) j 0 ≡ crc_rounds 8 (i + j)
unfolding crc_entries
get_or-crc_entries zero i j h = absurd (omega arith)
get_or-crc_entries (suc n) i zero h = ap (crc_rounds 8) (omega arith)
get_or-crc_entries (suc n) i (suc j) h =
    get_or-crc_entries n (i + 1) j (omega arith) ∙ ap (crc_rounds 8) (omega arith)

entry_lem : (i : ℕ) → i < 256 → get_or crc32_table i 0 ≡ crc_rounds 8 i
unfolding crc32_table
entry_lem i h = get_or-crc_entries 256 0 i h ∙ ap (crc_rounds 8) (omega arith)

entry-lt : (i : ℕ) → i < 256 → get_or crc32_table i 0 < 2 ^ 32
unfolding entry_checks
entry-lt i h =
    rw (entry_lem i h) (ground (arith, every_below-at entry_checks 256 i h entries_checked))

-- The top byte of a table entry determines its index.
entry_injective :
    (i j : ℕ)
    → i < 256
    → j < 256
    → get_or crc32_table i 0 / 2 ^ 24 ≡ get_or crc32_table j 0 / 2 ^ 24
    → i ≡ j
unfolding entry_checks
entry_injective i j hi hj h = ground (
  arith,
  entry_lem i hi,
  entry_lem j hj,
  every_below-at entry_checks 256 i hi entries_checked,
  every_below-at entry_checks 256 j hj entries_checked,
)

index : ℕ → ℕ → ℕ
index crc b = bit_xor (crc % 2 ^ 8) (b % 2 ^ 8)

index-lt : (crc b : ℕ) → index crc b < 256
unfolding index
index-lt crc b = bit_xor-lt 8 (crc % 2 ^ 8) (b % 2 ^ 8) (omega arith) (omega arith)

crc_update_lem :
    (crc b : ℕ) → crc_update crc b ≡ bit_xor (get_or crc32_table (index crc b) 0) (crc / 2 ^ 8)
unfolding crc_update index
crc_update_lem crc b = rw (bit_and_mask 8 (bit_xor crc b), bit_xor-mod 8 crc b)

pub crc_update-lt : (crc b : ℕ) → crc < 2 ^ 32 → crc_update crc b < 2 ^ 32
crc_update-lt crc b h =
    rw (crc_update_lem crc b)
      (bit_xor-lt 32 _ _ (entry-lt (index crc b) (index-lt crc b)) (omega arith))

-- A register below 2 ^ 32 has a shifted part below 2 ^ 24, so the top byte is the entry's.
top_byte :
    (crc b : ℕ)
    → crc < 2 ^ 32
    → crc_update crc b / 2 ^ 24 ≡ get_or crc32_table (index crc b) 0 / 2 ^ 24
top_byte crc b h =
    let shifted : crc / 2 ^ 8 / 2 ^ 24 ≡ 0 = omega arith in
    rw
      (
        crc_update_lem crc b,
        bit_xor-div 24 (get_or crc32_table (index crc b) 0) (crc / 2 ^ 8),
        shifted,
      )
      (bit_xor-zero _)

same_index :
    (c d a b : ℕ)
    → c < 2 ^ 32
    → d < 2 ^ 32
    → crc_update c a ≡ crc_update d b
    → index c a ≡ index d b
same_index c d a b hc hd h =
    entry_injective (index c a) (index d b) (index-lt c a) (index-lt d b)
      (sym (top_byte c a hc) ∙ ap (λ (t : ℕ). t / 2 ^ 24) h ∙ top_byte d b hd)

-- With one register, the result determines the byte.
crc_update_byte :
    (c a b : ℕ) → c < 2 ^ 32 → a < 2 ^ 8 → b < 2 ^ 8 → crc_update c a ≡ crc_update c b → a ≡ b
unfolding index
crc_update_byte c a b hc ha hb h =
    let e : a % 2 ^ 8 ≡ b % 2 ^ 8 = bit_xor_cancel_right (a % 2 ^ 8) (b % 2 ^ 8) (c % 2 ^ 8) (
      bit_xor_comm (a % 2 ^ 8) (c % 2 ^ 8)
      ∙ same_index c c a b hc hc h
      ∙ bit_xor_comm (c % 2 ^ 8) (b % 2 ^ 8)) in
    omega arith

-- With one byte, the result determines the register.
crc_update_register :
    (c d b : ℕ) → c < 2 ^ 32 → d < 2 ^ 32 → crc_update c b ≡ crc_update d b → c ≡ d
unfolding index
crc_update_register c d b hc hd h =
    let low : c % 2 ^ 8 ≡ d % 2 ^ 8 =
      bit_xor_cancel_right (c % 2 ^ 8) (d % 2 ^ 8) (b % 2 ^ 8) (same_index c d b b hc hd h) in
    let high : c / 2 ^ 8 ≡ d / 2 ^ 8 =
      bit_xor_cancel_right (c / 2 ^ 8) (d / 2 ^ 8) (get_or crc32_table (index c b) 0) (
        bit_xor_comm (c / 2 ^ 8) _
        ∙ sym (crc_update_lem c b)
        ∙ h
        ∙ crc_update_lem d b
        ∙ ap (λ (t : ℕ). bit_xor (get_or crc32_table t 0) (d / 2 ^ 8))
            (sym (same_index c d b b hc hd h))
        ∙ bit_xor_comm _ (d / 2 ^ 8)) in
    omega arith

pub crc_bytes-lt : (crc : ℕ) (bs : List ℕ) → crc < 2 ^ 32 → crc_bytes crc bs < 2 ^ 32
unfolding crc_bytes
crc_bytes-lt crc [] h = h
crc_bytes-lt crc (b ∷ bs) h = crc_bytes-lt (crc_update crc b) bs (crc_update-lt crc b h)

crc_bytes_register :
    (c d : ℕ) (bs : List ℕ) → c < 2 ^ 32 → d < 2 ^ 32 → crc_bytes c bs ≡ crc_bytes d bs → c ≡ d
unfolding crc_bytes
crc_bytes_register c d [] hc hd h = h
crc_bytes_register c d (b ∷ bs) hc hd h = crc_update_register c d b hc hd (
    crc_bytes_register (crc_update c b) (crc_update d b) bs (crc_update-lt c b hc)
      (crc_update-lt d b hd) h)

pub crc_bytes-append :
    (c : ℕ) (xs ys : List ℕ) → crc_bytes c (xs ++ ys) ≡ crc_bytes (crc_bytes c xs) ys
unfolding crc_bytes
crc_bytes-append c [] ys = refl
crc_bytes-append c (x ∷ xs) ys = crc_bytes-append (crc_update c x) xs ys

pub fgw_crc32-lt : (bytes : List ℕ) (seed : ℕ) → seed < 2 ^ 32 → fgw_crc32 bytes seed < 2 ^ 32
unfolding fgw_crc32
fgw_crc32-lt bytes seed h =
    bit_xor-lt 32 _ _ (crc_bytes-lt _ bytes (bit_xor-lt 32 _ _ h (omega arith))) (omega arith)

-- Two byte strings that differ in exactly one byte have different checksums, whatever stands
-- before and behind that byte and whatever the seed of 32 bits.
pub fgw_crc32_single_byte :
    (front back : List ℕ) (a b seed : ℕ)
    → a < 2 ^ 8
    → b < 2 ^ 8
    → seed < 2 ^ 32
    → a ≢ b
    → fgw_crc32 (front ++ a ∷ back) seed ≢ fgw_crc32 (front ++ b ∷ back) seed
unfolding fgw_crc32 crc_bytes
fgw_crc32_single_byte front back a b seed ha hb hs ne h = ne (
    crc_update_byte start a b start_lt ha hb (
      crc_bytes_register (crc_update start a) (crc_update start b) back
        (crc_update-lt start a start_lt) (crc_update-lt start b start_lt)
        (sym (crc_bytes-append init front (a ∷ back))
          ∙ bit_xor_cancel_right _ _ 0xFFFFFFFF h
          ∙ crc_bytes-append init front (b ∷ back))))
  where
    init : ℕ
    init = bit_xor seed 0xFFFFFFFF

    start : ℕ
    start = crc_bytes init front

    start_lt : start < 2 ^ 32
    start_lt = crc_bytes-lt init front (bit_xor-lt 32 seed 0xFFFFFFFF hs (omega arith))
