-- ===== src/Prelude/Bits.antt =====
-- Laws of the native bit operations at variables, from the recursion on binary digits.
use Prim.Native.Nat.{ℕ, zero, suc, ◌+◌, ◌-◌, ◌*◌, ◌/◌, ◌%◌, ◌^◌, ◌≤◌, ◌<◌, min, max}
use Prim.Native.Nat.{bit_and, bit_or, bit_xor, digits, bitwise, differ}
use Prim.Native.Nat.{bit_and-bitwise, bit_or-bitwise, bit_xor-bitwise}
use mathlib.Core.Path.{◌≡◌, refl, ap, ◌∙◌}
use native.Mathlib.Nat.{
  pow-suc, pow-succ', one-le-pow, div-div-eq-div-mul, mod-eq-sub-div-mul, div-mul-le_self, div-one,
}
use native.Mathlib.Omega.{arith}

module _ (tail : ℕ → ℕ) (digit : ℕ → ℕ → ℕ) where
  -- Fuel above the first number does no more than fuel equal to it.
  digits-stable : (i j x y : ℕ) → x ≤ j → x ≤ i → digits tail digit i x y ≡ digits tail digit j x y
  digits-stable (suc i) (suc j) zero y below above = refl
  digits-stable (suc i) (suc j) (suc x) y below above =
      rw (digits-stable i j (suc x / 2) (y / 2) (omega arith) (omega arith))
  digits-stable (suc i) zero zero y below above = refl
  digits-stable (suc i) zero (suc x) y below above = absurd (omega arith)
  digits-stable zero (suc j) zero y below above = refl
  digits-stable zero j (suc x) y below above = absurd (omega arith)
  digits-stable zero zero zero y below above = refl

  lowest_digit :
      (x y : ℕ)
      → bitwise tail digit (suc x) y
        ≡ bitwise tail digit (suc x / 2) (y / 2) * 2 + digit (suc x % 2) (y % 2)
  lowest_digit x y =
      let stable = digits-stable (suc x / 2) x (suc x / 2) (y / 2) (omega arith) (omega arith) in
      omega (arith, stable)

differ-eq-mod : (x y : ℕ) → x < 2 → y < 2 → differ x y ≡ (x + y) % 2
differ-eq-mod zero y hx hy = omega arith
differ-eq-mod (suc zero) zero hx hy = refl
differ-eq-mod (suc zero) (suc y) hx hy = omega arith
differ-eq-mod (suc (suc x)) zero hx hy = absurd (omega arith)
differ-eq-mod (suc (suc x)) (suc y) hx hy = absurd (omega arith)

-- Exclusive or, one binary digit at a time.
pub bit_xor_step : (x y : ℕ) → bit_xor x y ≡ bit_xor (x / 2) (y / 2) * 2 + (x + y) % 2
bit_xor_step zero y = simp bit_xor-bitwise (omega arith)
bit_xor_step (suc x) y = simp bit_xor-bitwise (
    omega (
      arith,
      lowest_digit (λ t. t) differ x y,
      differ-eq-mod (suc x % 2) (y % 2) (omega arith) (omega arith),
    ))

pub bit_and_step : (x y : ℕ) → bit_and x y ≡ bit_and (x / 2) (y / 2) * 2 + min (x % 2) (y % 2)
bit_and_step (suc x) y = simp bit_and-bitwise (lowest_digit (λ t. 0) min x y)
bit_and_step zero y = simp bit_and-bitwise (omega arith)

pub bit_or_step : (x y : ℕ) → bit_or x y ≡ bit_or (x / 2) (y / 2) * 2 + max (x % 2) (y % 2)
bit_or_step (suc x) y = simp bit_or-bitwise (lowest_digit (λ t. t) max x y)
bit_or_step zero y = simp bit_or-bitwise (omega arith)

-- The remainder by `2 ^ suc k`, one binary digit at a time.
mod-two_pow_suc : (k a : ℕ) → a % 2 ^ suc k ≡ a / 2 % 2 ^ k * 2 + a % 2
mod-two_pow_suc k a = rw (pow-succ' 2 k) (
    omega (
      arith,
      mod-eq-sub-div-mul a (2 * 2 ^ k),
      mod-eq-sub-div-mul (a / 2) (2 ^ k),
      div-mul-le_self (a / 2) (2 ^ k),
      ap (λ (t : ℕ). t * 2 ^ k) (div-div-eq-div-mul a 2 (2 ^ k)),
    ))

bit_and-zero : (n x : ℕ) → x ≤ n → bit_and x 0 ≡ 0
bit_and-zero n zero h = refl
bit_and-zero zero (suc x) h = absurd (omega arith)
bit_and-zero (suc n) (suc x) h =
    omega (arith, bit_and_step (suc x) 0, bit_and-zero n (suc x / 2) (omega arith))

-- A mask of `k` low bits is the remainder by `2 ^ k`.
pub bit_and_mask : (k a : ℕ) → bit_and a (2 ^ k - 1) ≡ a % 2 ^ k
bit_and_mask zero a = omega (arith, bit_and-zero a a)
bit_and_mask (suc k) a =
    rw (bit_and_step a (2 ^ suc k - 1), mod-two_pow_suc k a, halved, odd)
      (omega (arith, bit_and_mask k (a / 2)))
  where
    halved : (2 ^ suc k - 1) / 2 ≡ 2 ^ k - 1
    halved = omega (arith, pow-suc 2 k, one-le-pow k 2)

    odd : (2 ^ suc k - 1) % 2 ≡ 1
    odd = omega (arith, pow-suc 2 k, one-le-pow k 2)

-- `^` stays within `k` bits.
pub bit_xor-lt : (k a b : ℕ) → a < 2 ^ k → b < 2 ^ k → bit_xor a b < 2 ^ k
bit_xor-lt zero a b ha hb =
    let ea : a ≡ 0 = omega arith in let eb : b ≡ 0 = omega arith in rw (ea, eb) (omega arith)
bit_xor-lt (suc k) a b ha hb = omega (
  arith,
  pow-suc 2 k,
  bit_xor_step a b,
  bit_xor-lt k (a / 2) (b / 2) (omega (arith, pow-suc 2 k)) (omega (arith, pow-suc 2 k)),
)

-- `(a ^ b) >> k` is `(a >> k) ^ (b >> k)`.
pub bit_xor-div : (k a b : ℕ) → bit_xor a b / 2 ^ k ≡ bit_xor (a / 2 ^ k) (b / 2 ^ k)
bit_xor-div zero a b = rw (div-one a, div-one b, div-one (bit_xor a b))
bit_xor-div (suc k) a b =
    rw
      (
        pow-succ' 2 k,
        ← div-div-eq-div-mul (bit_xor a b) 2 (2 ^ k),
        ← div-div-eq-div-mul a 2 (2 ^ k),
        ← div-div-eq-div-mul b 2 (2 ^ k),
        ← bit_xor-div k (a / 2) (b / 2),
      )
      (ap (λ t. t / 2 ^ k) (omega (arith, bit_xor_step a b)))

-- The low `k` bits of `a ^ b` are those of `a` and `b`.
pub bit_xor-mod : (k a b : ℕ) → bit_xor a b % 2 ^ k ≡ bit_xor (a % 2 ^ k) (b % 2 ^ k)
bit_xor-mod zero a b =
    let ea : a % 1 ≡ 0 = omega arith in
    let eb : b % 1 ≡ 0 = omega arith in rw (ea, eb) (omega arith)
bit_xor-mod (suc k) a b =
    rw
      (
        bit_xor_step (a % 2 ^ suc k) (b % 2 ^ suc k),
        mod-two_pow_suc k (bit_xor a b),
        mod-two_pow_suc k a,
        mod-two_pow_suc k b,
        halve (a / 2 % 2 ^ k) a,
        halve (b / 2 % 2 ^ k) b,
        ← bit_xor-mod k (a / 2) (b / 2),
        half,
      )
      (omega (arith, bit_xor_step a b))
  where
    half : bit_xor a b / 2 ≡ bit_xor (a / 2) (b / 2)
    half = omega (arith, bit_xor_step a b)

    halve : (q x : ℕ) → (q * 2 + x % 2) / 2 ≡ q
    halve q x = omega arith

bit_xor_cancel_below : (n a b c : ℕ) → a ≤ n → b ≤ n → bit_xor a c ≡ bit_xor b c → a ≡ b
bit_xor_cancel_below zero zero zero c ha hb h = refl
bit_xor_cancel_below zero zero (suc b) c ha hb h = elim hb [ ]
bit_xor_cancel_below zero (suc a) b c ha hb h = elim ha [ ]
bit_xor_cancel_below (suc n) a b c ha hb h =
    let halves : a / 2 ≡ b / 2 =
      bit_xor_cancel_below n (a / 2) (b / 2) (c / 2) (omega arith) (omega arith)
        (omega (arith, bit_xor_step a c, bit_xor_step b c)) in
    omega (arith, bit_xor_step a c, bit_xor_step b c, ap (λ (t : ℕ). bit_xor t (c / 2)) halves)

-- `^ c` loses nothing.
pub bit_xor_cancel_right : (a b c : ℕ) → bit_xor a c ≡ bit_xor b c → a ≡ b
bit_xor_cancel_right a b c h = bit_xor_cancel_below (a + b) a b c (omega arith) (omega arith) h

bit_xor_comm_below : (n a b : ℕ) → a ≤ n → b ≤ n → bit_xor a b ≡ bit_xor b a
bit_xor_comm_below zero zero zero ha hb = refl
bit_xor_comm_below zero zero (suc b) ha hb = elim hb [ ]
bit_xor_comm_below zero (suc a) b ha hb = elim ha [ ]
bit_xor_comm_below (suc n) a b ha hb = omega (
  arith,
  bit_xor_step a b,
  bit_xor_step b a,
  bit_xor_comm_below n (a / 2) (b / 2) (omega arith) (omega arith),
)

pub bit_xor_comm : (a b : ℕ) → bit_xor a b ≡ bit_xor b a
bit_xor_comm a b = bit_xor_comm_below (a + b) a b (omega arith) (omega arith)

pub bit_xor-zero : (a : ℕ) → bit_xor a 0 ≡ a
bit_xor-zero a = bit_xor_comm a 0 ∙ simp bit_xor-bitwise
