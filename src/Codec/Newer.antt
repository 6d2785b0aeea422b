-- ===== src/Codec/Newer.antt =====
-- src/zfgw_pack.cpp: a reader skips the members that only a newer writer knows.
use libfgw.Prelude.{
  ℕ, zero, suc, ◌+◌, ◌-◌, ◌/◌, ◌%◌, ◌^◌, ◌<◌, ◌≤◌, ◌≡◌, refl, sym, ◌∙◌, Bool, true, false, not,
  List, [], ◌++◌, length, append_assoc, ◌==◌, if◌then◌else◌, arith,
}
use libfgw.Codes.{Result, ok, err, ◌>>=◌}
use libfgw.Codec.Zds.{Zds, ZdsLaws, Member, Skips}
use libfgw.Codec.Fields.{
  Fields, stop, member, Values, count, struct_prefix, pack_members, skip_unknown, pack_struct,
  unpack_struct,
}
use libfgw.Codec.Presence.{
  mask, mask-lt, struct_prefix-mask, has_bit-head, mask-tail, mask-half, mask-odd,
}
use libfgw.Codec.RoundTrip.{
  bind_ok, ok_inj, ◌⊕◌, join, AllHold, AllLaws, AllSkip, pack_cases, unpack-pack_members, after,
  after-count,
}
use native.Mathlib.Nat.{pow-suc, pow-le-pow_right}

skip_done : (z : Zds) (fuel : ℕ) (bytes : List ℕ) → skip_unknown z fuel 0 bytes ≡ ok bytes
unfolding skip_unknown
skip_done z zero bytes = refl
skip_done z (suc fuel) bytes = refl

skip_step :
    (z : Zds) (fuel p : ℕ) (bytes : List ℕ)
    → skip_unknown z (suc fuel) p bytes ≡ (
        (if p % 2 == 1 then z.unpack_skip bytes else ok bytes) >>= λ rest.
        skip_unknown z fuel (p / 2) rest)
skip_step z fuel zero bytes = unfold skip_unknown in sym (skip_done z fuel bytes)
skip_step z fuel (suc p) bytes = unfold skip_unknown in refl

skip-next :
    (z : Zds) (fuel p k : ℕ) (b : Bool) (bytes rest : List ℕ)
    → p / 2 ≡ k
    → (p % 2 == 1) ≡ b
    → (if b then z.unpack_skip bytes else ok bytes) ≡ ok rest
    → skip_unknown z (suc fuel) p bytes ≡ skip_unknown z fuel k rest
skip-next z fuel p k b bytes rest half bit skipped =
    rw (skip_step z fuel p bytes, bit, skipped, half)

-- A member that was packed or left out is passed over.
one_skip :
    {A : Type 0} (z : Zds) (m : Member A)
    → Skips z m
    → (x : A) → m.Holds x
    → (size : ℕ) (bytes rest : List ℕ) (b : Bool) → (if b then m.pack size x else ok []) ≡ ok bytes
    → (if b then z.unpack_skip (bytes ++ rest) else ok (bytes ++ rest)) ≡ ok rest
one_skip z m skips x holds size bytes rest true packed = skips x holds size bytes rest packed
one_skip z m skips x holds size bytes rest false packed = rw (← ok_inj [] bytes packed)

skip-packed :
    (z : Zds) (more : Fields) (u : Values more)
    → AllSkip z more
    → AllHold more u
    → (j prefix size fuel : ℕ) (bytes rest : List ℕ) → count more ≤ fuel
    → prefix / 2 ^ j ≡ mask more u
    → pack_members more j prefix size u ≡ ok bytes
    → skip_unknown z fuel (mask more u) (bytes ++ rest) ≡ ok rest
skip-packed z stop u skips holds j prefix size fuel bytes rest enough bits packed =
    rw (← ok_inj [] bytes (unfold pack_members in packed)) (skip_done z fuel rest)
skip-packed z (member m fs) (x, u) skips holds j prefix size zero bytes rest enough bits packed =
    absurd (unfold count in omega arith)
skip-packed z (member m fs) (x, u) (ms, skips) (xh, holds) j prefix size (suc fuel) bytes rest
      enough bits packed =
    let (first, others, p, q, split) = pack_cases m fs x u j prefix size bytes packed in
    let b = m.is_empty x in
    let set = has_bit-head prefix j (mask fs u) b bits in
    let tail = mask-tail prefix j (mask fs u) b bits in
    let here = one_skip z m ms x xh size first (others ++ rest) (not b) (rw set at p) in
    let ih =
      skip-packed z fs u skips holds (j + 1) prefix (size - length first) fuel others rest
        (unfold count in omega arith) tail q in
    skip-next z fuel (mask (member m fs) (x, u)) (mask fs u) (not b) (bytes ++ rest)
      (others ++ rest) (mask-half b (mask fs u)) (mask-odd b (mask fs u))
      (rw (← append_assoc first others rest, split) at here)
    ∙ ih

count-⊕ : (fs more : Fields) → count (fs ⊕ more) ≡ count fs + count more
unfolding count
count-⊕ stop more = omega arith
count-⊕ (member m fs) more = omega (arith, count-⊕ fs more)

-- A struct has at most 64 members: as many bits as its header holds.
prefix-lt : (fs : Fields) (t : Values fs) → count fs ≤ 64 → struct_prefix fs 0 0 t < 2 ^ 64
prefix-lt fs t few = omega (
  arith,
  struct_prefix-mask fs 0 0 t (omega arith),
  mask-lt fs t,
  pow-le-pow_right {n = 2} (omega arith) few,
)

prefix_bits : (fs : Fields) (t : Values fs) → struct_prefix fs 0 0 t / 2 ^ 0 ≡ mask fs t
prefix_bits fs t = rw (struct_prefix-mask fs 0 0 t (omega arith)) (omega arith)

-- What is packed, with or without the presence prefix, of a structure whose schema has further
-- members behind those of the reader's schema, the reader unpacks to the values of its own members
-- and consumes whole, whatever follows. The two schemas have at most 64 members, the reader's
-- members keep the laws of zce's codec, the further ones can be skipped, and all values are in
-- range.
pub unpack_newer :
    (z : Zds)
    → ZdsLaws z
    → (fs more : Fields) (t : Values fs) (u : Values more) → AllLaws fs
    → AllSkip z more
    → AllHold fs t
    → AllHold more u
    → count (fs ⊕ more) ≤ 64
    → (has_prefix : Bool) (size : ℕ) (bytes rest : List ℕ)
    → pack_struct z (fs ⊕ more) has_prefix size (join fs more t u) ≡ ok bytes
    → unpack_struct z fs has_prefix (bytes ++ rest) ≡ ok (t, rest)
unfolding pack_struct unpack_struct
unpack_newer z zl fs more t u laws skips th uh few has_prefix size bytes rest packed =
    let (head, p, h1) = bind_ok _ _ bytes packed in
    let (body, q, h2) = bind_ok _ _ bytes h1 in
    let split = ok_inj _ _ h2 in
    let prefix = struct_prefix (fs ⊕ more) 0 0 (join fs more t u) in
    let bits = prefix_bits (fs ⊕ more) (join fs more t u) in
    let r =
      unpack-pack_members fs more t u laws th 0 prefix (size - length head) body rest bits q in
    let small = prefix-lt (fs ⊕ more) (join fs more t u) few in
    let read_head = zl.header_laws prefix has_prefix size head (body ++ rest) small p in
    let at_end : after fs 0 ≡ count fs = omega (arith, after-count fs 0) in
    let counted : prefix / 2 ^ count fs ≡ mask more u = rw at_end at r.bits_left in
    let skipped =
      skip-packed z more u skips uh (after fs 0) prefix r.room 64 r.left rest
        (omega (arith, count-⊕ fs more)) r.bits_left r.packed_left in
    rw (← split, append_assoc head body rest, read_head, r.read, counted, skipped)

bind_ext {ℓ κ} :
    {A : Type ℓ} {B : Type κ} (m : Result A) (f g : A → Result B)
    → ((a : A) → f a ≡ g a)
    → (m >>= f) ≡ (m >>= g)
bind_ext (ok a) f g h = h a
bind_ext (err e) f g h = refl

-- The loop over the bits of unknown members ends: on a number of a certain count of bits it does in
-- that many turns what it does in any more.
pub skip_unknown-fuel :
    (z : Zds) (turns fuel prefix : ℕ) (bytes : List ℕ)
    → turns ≤ fuel
    → prefix < 2 ^ turns
    → skip_unknown z fuel prefix bytes ≡ skip_unknown z turns prefix bytes
skip_unknown-fuel z zero fuel prefix bytes enough small =
    let none : prefix ≡ 0 = omega arith in rw (none, skip_done z fuel bytes, skip_done z 0 bytes)
skip_unknown-fuel z (suc turns) zero prefix bytes enough small = absurd (omega arith)
skip_unknown-fuel z (suc turns) (suc fuel) prefix bytes enough small =
    rw (skip_step z fuel prefix bytes, skip_step z turns prefix bytes)
      (bind_ext (if prefix % 2 == 1 then z.unpack_skip bytes else ok bytes)
        (skip_unknown z fuel (prefix / 2)) (skip_unknown z turns (prefix / 2))
        (λ rest.
          skip_unknown-fuel z turns fuel (prefix / 2) rest (omega arith)
            (omega (arith, pow-suc 2 turns))))
