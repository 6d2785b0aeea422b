-- ===== src/Codec/Fields.antt =====
-- src/zfgw_pack.cpp: the one shape of the generated functions. A struct's members stand in the
-- order of their bits. zds_pack gathers the bits of the members that are not empty, writes the
-- struct header with them, then each member whose bit is set; CHECKLEN_MOVEBUF_ADDRET_DECSIZE moves
-- on behind what was written, or returns the error. zds_unpack reads the bits, reads or resets each
-- member, and skips the members that it does not know.
use libfgw.Prelude.{
  ℕ, zero, suc, ◌+◌, ◌-◌, ◌/◌, ◌%◌, ◌^◌, bit_and, bit_or, Bool, not, List, [], ◌++◌, ◌==◌,
  if◌then◌else◌, length,
}
use libfgw.Codes.{Result, ok, ◌>>=◌}
use libfgw.Codec.Zds.{Zds, Member}

pub data Fields : Type 1 where
  stop : Fields
  member : {A : Type 0} → Member A → Fields → Fields

-- The members' values.
abbrev pub Values : Fields → Type 0
Values stop = Unit
Values (member {A} m fs) = A × Values fs

unfoldable pub count : Fields → ℕ
count stop = 0
count (member m fs) = suc (count fs)

-- if (!is_empty_member(_t.x)) _struct_prefix |= 1ull << i;
unfoldable pub struct_prefix : (fs : Fields) → ℕ → ℕ → Values fs → ℕ
struct_prefix stop i acc t = acc
struct_prefix (member m fs) i acc (x, t) =
    struct_prefix fs (i + 1) (if m.is_empty x then acc else bit_or acc (2 ^ i)) t

-- _struct_prefix & (1ull << i)
unfoldable pub has_bit : ℕ → ℕ → Bool
has_bit prefix i = not (bit_and prefix (2 ^ i) == 0)

unfoldable pub pack_members : (fs : Fields) → ℕ → ℕ → ℕ → Values fs → Result (List ℕ)
unfolding has_bit
pack_members stop i prefix size t = ok []
pack_members (member m fs) i prefix size (x, t) =
    (if has_bit prefix i then m.pack size x else ok []) >>= λ bytes.
    pack_members fs (i + 1) prefix (size - length bytes) t >>= λ more. ok (bytes ++ more)

unfoldable pub unpack_members : (fs : Fields) → ℕ → ℕ → List ℕ → Result (Values fs × List ℕ)
unfolding has_bit
unpack_members stop i prefix bytes = ok (tt, bytes)
unpack_members (member m fs) i prefix bytes =
    (if has_bit prefix i then m.unpack bytes else ok (m.empty, bytes)) >>= λ (x, rest).
    unpack_members fs (i + 1) prefix rest >>= λ (t, rest'). ok ((x, t), rest')

module _ (z : Zds) where
  -- The loop over the bits of unknown members. The bits are 64, so are the turns.
  unfoldable pub skip_unknown : ℕ → ℕ → List ℕ → Result (List ℕ)
  skip_unknown zero prefix bytes = ok bytes
  skip_unknown (suc fuel) zero bytes = ok bytes
  skip_unknown (suc fuel) (suc p) bytes =
      (if suc p % 2 == 1 then z.unpack_skip bytes else ok bytes) >>= λ rest.
      skip_unknown fuel (suc p / 2) rest

  unfoldable pub pack_struct : (fs : Fields) → Bool → ℕ → Values fs → Result (List ℕ)
  unfolding struct_prefix pack_members
  pack_struct fs has_prefix size t =
      let prefix = struct_prefix fs 0 0 t in
      z.pack_struct_header size prefix has_prefix >>= λ head.
      pack_members fs 0 prefix (size - length head) t >>= λ bytes. ok (head ++ bytes)

  unfoldable pub unpack_struct : (fs : Fields) → Bool → List ℕ → Result (Values fs × List ℕ)
  unfolding unpack_members skip_unknown count
  unpack_struct fs has_prefix bytes = z.unpack_struct_header has_prefix bytes >>= λ (prefix, rest).
      unpack_members fs 0 prefix rest >>= λ (t, rest').
      skip_unknown 64 (prefix / 2 ^ count fs) rest' >>= λ rest''. ok (t, rest'')
