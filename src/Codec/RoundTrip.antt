-- ===== src/Codec/RoundTrip.antt =====
-- src/zfgw_pack.cpp: what zds_pack wrote, zds_unpack reads, also with the members of a newer schema
-- behind those that the reader knows.
use libfgw.Prelude.{
  ℕ, ◌+◌, ◌-◌, ◌/◌, ◌^◌, ◌≡◌, refl, Bool, true, false, not, List, [], ◌++◌, length, append_assoc,
  if◌then◌else◌, arith,
}
use libfgw.Codes.{Result, ok, err, ◌>>=◌}
use libfgw.Codec.Zds.{Zds, Member, MemberLaws, Skips}
use libfgw.Codec.Fields.{Fields, stop, member, Values, count, has_bit, pack_members, unpack_members}
use libfgw.Codec.Presence.{mask, has_bit-head, mask-tail}

pub bind_ok {ℓ κ} :
    {A : Type ℓ} {B : Type κ} (m : Result A) (f : A → Result B) (b : B)
    → (m >>= f) ≡ ok b
    → (a : A) × (m ≡ ok a) × (f a ≡ ok b)
bind_ok (ok a) f b h = (a, refl, h)
bind_ok (err e) f b h = ground arith

-- The members of a newer schema stand behind the old ones.
infixr 20 ◌⊕◌
abbrev pub ◌⊕◌ : Fields → Fields → Fields
stop ⊕ more = more
member m fs ⊕ more = member m (fs ⊕ more)

abbrev pub join : (fs more : Fields) → Values fs → Values more → Values (fs ⊕ more)
join stop more t u = u
join (member m fs) more (x, t) u = (x, join fs more t u)

abbrev pub AllHold : (fs : Fields) → Values fs → Type 0
AllHold stop t = Unit
AllHold (member m fs) (x, t) = m.Holds x × AllHold fs t

abbrev pub AllLaws : Fields → Type 0
AllLaws stop = Unit
AllLaws (member m fs) = MemberLaws m × AllLaws fs

abbrev pub AllSkip : Zds → Fields → Type 0
AllSkip z stop = Unit
AllSkip z (member m fs) = Skips z m × AllSkip z fs

pub ok_inj {ℓ} : {A : Type ℓ} (a b : A) → ok a ≡ ok b → a ≡ b
ok_inj a b h = cc

-- What a struct's first member wrote, and what the others did.
pub pack_cases :
    {A : Type 0} (m : Member A) (fs : Fields) (x : A) (t : Values fs) (i prefix size : ℕ)
    (bytes : List ℕ)
    → pack_members (member m fs) i prefix size (x, t) ≡ ok bytes
    → (first : List ℕ) × (others : List ℕ) × ((if has_bit prefix i then m.pack size x else ok [])
        ≡ ok first)
      × (pack_members fs (i + 1) prefix (size - length first) t ≡ ok others)
      × (first ++ others ≡ bytes)
unfolding pack_members
pack_cases m fs x t i prefix size bytes h =
    let (first, p, h') = bind_ok _ _ bytes h in
    let (others, q, h'') = bind_ok _ _ bytes h' in (first, others, p, q, ok_inj _ _ h'')

-- One member: read if its bit is set, else reset, which is its value.
one_member :
    {A : Type 0} (m : Member A)
    → MemberLaws m
    → (x : A) → m.Holds x
    → (size : ℕ) (bytes rest : List ℕ) (b : Bool) → b ≡ not (m.is_empty x)
    → (if b then m.pack size x else ok []) ≡ ok bytes
    → (if b then m.unpack (bytes ++ rest) else ok (m.empty, bytes ++ rest)) ≡ ok (x, rest)
one_member m laws x holds size bytes rest true there packed =
    laws.unpack_packed x holds size bytes rest packed
one_member m laws x holds size bytes rest false gone packed = grind (arith, laws.empty_only x holds)

-- The bit's number after the members.
abbrev pub after : Fields → ℕ → ℕ
after stop i = i
after (member m fs) i = after fs (i + 1)

pub after-count : (fs : Fields) (i : ℕ) → after fs i ≡ i + count fs
unfolding count
after-count stop i = omega arith
after-count (member m fs) i = omega (arith, after-count fs (i + 1))

-- What the writer did for the members behind `fs`, when the reader has read those of `fs`.
pub record ReadUpTo (fs more : Fields) (t : Values fs) (u : Values more) (i prefix : ℕ)
    (bytes rest : List ℕ) : Type 0 where
  pub left : List ℕ
  pub room : ℕ
  pub packed_left : pack_members more (after fs i) prefix room u ≡ ok left
  pub bits_left : prefix / 2 ^ after fs i ≡ mask more u
  pub read : unpack_members fs i prefix (bytes ++ rest) ≡ ok (t, left ++ rest)

read_member :
    {A : Type 0} (m : Member A) (fs : Fields) (x : A) (t : Values fs) (i prefix : ℕ)
    (bytes others rest : List ℕ)
    → (if has_bit prefix i then m.unpack bytes else ok (m.empty, bytes)) ≡ ok (x, others)
    → unpack_members fs (i + 1) prefix others ≡ ok (t, rest)
    → unpack_members (member m fs) i prefix bytes ≡ ok ((x, t), rest)
unfolding unpack_members
read_member m fs x t i prefix bytes others rest p q = rw (p, q)

pub unpack-pack_members :
    (fs more : Fields) (t : Values fs) (u : Values more)
    → AllLaws fs
    → AllHold fs t
    → (i prefix size : ℕ) (bytes rest : List ℕ)
    → prefix / 2 ^ i ≡ mask (fs ⊕ more) (join fs more t u)
    → pack_members (fs ⊕ more) i prefix size (join fs more t u) ≡ ok bytes
    → ReadUpTo fs more t u i prefix bytes rest
unpack-pack_members stop more t u laws holds i prefix size bytes rest bits packed = record {
  left = bytes;
  room = size;
  packed_left = packed;
  bits_left = bits;
  read = unfold unpack_members in refl;
}
unpack-pack_members (member m fs) more (x, t) u (ml, laws) (xh, holds) i prefix size bytes rest bits
      packed =
    let (first, others, p, q, split) =
      pack_cases m (fs ⊕ more) x (join fs more t u) i prefix size bytes packed in
    let set = has_bit-head prefix i (mask (fs ⊕ more) (join fs more t u)) (m.is_empty x) bits in
    let tail = mask-tail prefix i (mask (fs ⊕ more) (join fs more t u)) (m.is_empty x) bits in
    let ih =
      unpack-pack_members fs more t u laws holds (i + 1) prefix (size - length first) others rest
        tail q in
    let here = one_member m ml x xh size first (others ++ rest) (has_bit prefix i) set p in
    record {
      left = ih.left;
      room = ih.room;
      packed_left = ih.packed_left;
      bits_left = ih.bits_left;
      read =
          read_member m fs x t i prefix (bytes ++ rest) (others ++ rest) (ih.left ++ rest)
            (rw (← append_assoc first others rest, split) at here) ih.read;
    }
