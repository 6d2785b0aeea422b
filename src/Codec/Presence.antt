-- ===== src/Codec/Presence.antt =====
-- src/zfgw_pack.cpp: the bits of a struct header are those of the members that are not empty.
use libfgw.Prelude.{
  ℕ, zero, suc, ◌+◌, ◌*◌, ◌/◌, ◌%◌, ◌^◌, ◌<◌, ◌≡◌, ap, ◌∙◌, bit_and, bit_or, ◌==◌, if◌then◌else◌,
  arith, Bool, true, false, not,
}
use libfgw.Prelude.Bits.{bit_and_step, bit_and_mask, bit_or_step}
use libfgw.Codec.Fields.{Fields, stop, member, Values, count, struct_prefix, has_bit}
use native.Mathlib.Nat.{pow-succ', pow-suc, one-le-pow, div-div-eq-div-mul, div-one}

bit_and-two_pow : (i a : ℕ) → bit_and a (2 ^ i) ≡ a / 2 ^ i % 2 * 2 ^ i
bit_and-two_pow zero a = omega (arith, bit_and_mask 1 a, div-one a)
bit_and-two_pow (suc i) a =
    rw (pow-succ' 2 i, ← div-div-eq-div-mul a 2 (2 ^ i))
      (omega (arith, bit_and_step a (2 * 2 ^ i), bit_and-two_pow i (a / 2), halved, even))
  where
    halved : bit_and (a / 2) (2 * 2 ^ i / 2) ≡ bit_and (a / 2) (2 ^ i)
    halved = ap (bit_and (a / 2)) (omega arith)

    even : 2 * 2 ^ i % 2 ≡ 0
    even = omega arith

pub has_bit-div : (prefix i : ℕ) → has_bit prefix i ≡ (prefix / 2 ^ i % 2 == 1)
unfolding has_bit
has_bit-div prefix i = rw (bit_and-two_pow i prefix) (by_digit (prefix / 2 ^ i % 2) (omega arith))
  where
    by_digit : (d : ℕ) → d < 2 → not (d * 2 ^ i == 0) ≡ (d == 1)
    by_digit zero h = ground arith
    by_digit (suc zero) h = ground (arith, one-le-pow i 2)
    by_digit (suc (suc d)) h = absurd (omega arith)

pub bit_or-two_pow : (i a : ℕ) → a < 2 ^ i → bit_or a (2 ^ i) ≡ a + 2 ^ i
bit_or-two_pow zero a h = let e : a ≡ 0 = omega arith in rw e
bit_or-two_pow (suc i) a h = rw (pow-succ' 2 i) (
    omega (
      arith,
      bit_or_step a (2 * 2 ^ i),
      bit_or-two_pow i (a / 2) (omega (arith, pow-suc 2 i)),
      halved,
      even,
    ))
  where
    halved : bit_or (a / 2) (2 * 2 ^ i / 2) ≡ bit_or (a / 2) (2 ^ i)
    halved = ap (bit_or (a / 2)) (omega arith)

    even : 2 * 2 ^ i % 2 ≡ 0
    even = omega arith

-- The bits from the first member on, as a number.
abbrev pub bit_of : Bool → ℕ
bit_of true = 0
bit_of false = 1

abbrev pub mask : (fs : Fields) → Values fs → ℕ
mask stop t = 0
mask (member m fs) (x, t) = bit_of (m.is_empty x) + 2 * mask fs t

bit_of-lt : (b : Bool) → bit_of b < 2
bit_of-lt true = omega arith
bit_of-lt false = omega arith

pub mask-lt : (fs : Fields) (t : Values fs) → mask fs t < 2 ^ count fs
unfolding count
mask-lt stop t = omega arith
mask-lt (member m fs) (x, t) =
    omega (arith, pow-suc 2 (count fs), mask-lt fs t, bit_of-lt (m.is_empty x))

with_bit :
    (b : Bool) (i acc : ℕ)
    → acc < 2 ^ i
    → (if b then acc else bit_or acc (2 ^ i)) ≡ acc + bit_of b * 2 ^ i
with_bit true i acc h = omega arith
with_bit false i acc h = omega (arith, bit_or-two_pow i acc h)

next_bit : (i : ℕ) → 2 ^ (i + 1) ≡ 2 ^ i * 2
next_bit i = ap (λ (t : ℕ). 2 ^ t) (omega arith) ∙ pow-suc 2 i

with_bit-lt : (b : Bool) (i acc : ℕ) → acc < 2 ^ i → acc + bit_of b * 2 ^ i < 2 ^ (i + 1)
with_bit-lt true i acc h = omega (arith, next_bit i)
with_bit-lt false i acc h = omega (arith, next_bit i)

-- What the code gathers is the mask, behind the bits that were there.
pub struct_prefix-mask :
    (fs : Fields) (i acc : ℕ) (t : Values fs)
    → acc < 2 ^ i
    → struct_prefix fs i acc t ≡ acc + mask fs t * 2 ^ i
unfolding struct_prefix
struct_prefix-mask stop i acc t h = omega arith
struct_prefix-mask (member m fs) i acc (x, t) h = rw (with_bit (m.is_empty x) i acc h) (
    struct_prefix-mask fs (i + 1) (acc + bit_of (m.is_empty x) * 2 ^ i) t
      (with_bit-lt (m.is_empty x) i acc h)
    ∙ shift (mask fs t) (bit_of (m.is_empty x)))
  where
    shift : (k b : ℕ) → acc + b * 2 ^ i + k * 2 ^ (i + 1) ≡ acc + (b + 2 * k) * 2 ^ i
    shift k b = omega (arith, ap (λ (t : ℕ). k * t) (next_bit i))

-- The bit of the member at the head, and the bits behind it.
pub has_bit-head :
    (prefix i k : ℕ) (b : Bool) → prefix / 2 ^ i ≡ bit_of b + 2 * k → has_bit prefix i ≡ not b
has_bit-head prefix i k true h = rw (has_bit-div prefix i, h) (ground arith)
has_bit-head prefix i k false h = rw (has_bit-div prefix i, h) (ground arith)

pub mask-tail :
    (prefix i k : ℕ) (b : Bool) → prefix / 2 ^ i ≡ bit_of b + 2 * k → prefix / 2 ^ (i + 1) ≡ k
mask-tail prefix i k b h =
    rw (next_bit i, ← div-div-eq-div-mul prefix (2 ^ i) 2, h) (omega (arith, bit_of-lt b))

pub mask-half : (b : Bool) (k : ℕ) → (bit_of b + 2 * k) / 2 ≡ k
mask-half b k = omega (arith, bit_of-lt b)

pub mask-odd : (b : Bool) (k : ℕ) → ((bit_of b + 2 * k) % 2 == 1) ≡ not b
mask-odd true k = ground arith
mask-odd false k = ground arith
