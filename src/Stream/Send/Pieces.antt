-- ===== src/Stream/Send/Pieces.antt =====
-- The segments of sendSessionData of src/zfgw_datastream.cpp, put together again.
use libfgw.Prelude.{
  ℕ, zero, suc, ◌+◌, ◌-◌, ◌*◌, ◌<◌, ◌≤◌, ◌≡◌, sym, ap, ap₂, ◌∙◌, List, ◌++◌, ◌==◌, if◌then◌else◌,
  ltb, ltb→lt, Bool-cases, inl, inr, if_cases, length, take, drop, drop-drop, take_all, take-take,
  length-take, length-drop, concat, arith,
}
use libfgw.Stream.Deliver.Order.{segments}
use libfgw.Stream.Send.Chunks.{chunk}

-- How many segments of `size` bytes there are, with the number of bytes as fuel.
unfoldable pub pieces : ℕ → ℕ → ℕ → ℕ
pieces zero size len = 0
pieces (suc fuel) size len =
    let rest = pieces fuel size (len - size) in if len == 0 then 0 else suc rest

pub pieces-below : (fuel size len k : ℕ) → k < pieces fuel size len → k * size < len
unfolding pieces
pieces-below zero size len k h = absurd (omega arith)
pieces-below (suc fuel) size len zero h = ground arith
pieces-below (suc fuel) size len (suc k) h = ground (arith, pieces-below fuel size (len - size) k)

pub pieces-enough : (fuel size len : ℕ) → 0 < size → len ≤ fuel → len ≤ pieces fuel size len * size
unfolding pieces
pieces-enough zero size len ample h = omega arith
pieces-enough (suc fuel) size len ample h =
    if_cases (λ (n : ℕ). len ≤ n * size) (len == 0) _ _ (λ none. ground arith)
      (λ more.
        let left : len - size ≤ fuel = ground arith in
        omega (arith, pieces-enough fuel size (len - size) ample left))

mul_le : (n k size : ℕ) → n ≤ k → n * size ≤ k * size
mul_le zero k size h = omega arith
mul_le (suc n) zero size h = absurd (omega arith)
mul_le (suc n) (suc k) size h = omega (arith, mul_le n k size (omega arith))

pub below-pieces :
    (fuel size len k : ℕ) → 0 < size → len ≤ fuel → k * size < len → k < pieces fuel size len
below-pieces fuel size len k ample h lt = elim (Bool-cases (ltb k (pieces fuel size len))) [
  | inl less ↦ ltb→lt k (pieces fuel size len) less
  | inr past ↦
      let no_less : pieces fuel size len ≤ k = ground arith in
      absurd (
        omega (
          arith,
          pieces-enough fuel size len ample h,
          mul_le (pieces fuel size len) k size no_less,
        ))
]

-- Each segment has a byte at least.
pub chunk-full :
    (size : ℕ) (bytes : List ℕ) (k : ℕ)
    → 0 < size
    → k * size < length bytes
    → 0 < length (chunk size bytes k)
chunk-full size bytes k ample h =
    omega (arith, length-take size (drop (k * size) bytes), length-drop (k * size) bytes)

-- A row of segments is a stretch of the bytes.
pub concat-segments :
    (size : ℕ) (bytes : List ℕ) (p : ℕ → List ℕ) (e m : ℕ)
    → ((k : ℕ) → e ≤ k → k < e + m → p k ≡ chunk size bytes k)
    → concat (segments p e m) ≡ take (m * size) (drop (e * size) bytes)
concat-segments size bytes p e zero same =
    let z : 0 ≡ 0 * size = omega arith in ap (λ (n : ℕ). take n (drop (e * size) bytes)) z
concat-segments size bytes p e (suc m) same =
    ap₂ (λ (a b : List ℕ). a ++ b) (same e (omega arith) (omega arith))
      (concat-segments size bytes p (e + 1) m (λ k a b. same k (omega arith) (omega arith))
        ∙ ap (take (m * size))
            (sym (drop-drop (e * size) size ((e + 1) * size) bytes (omega arith))))
    ∙ take-take size (m * size) (suc m * size) (drop (e * size) bytes) (omega arith)

-- All of them are the bytes.
pub concat-pieces :
    (size : ℕ) (bytes : List ℕ) (p : ℕ → List ℕ) (n : ℕ)
    → ((k : ℕ) → k < n → p k ≡ chunk size bytes k)
    → length bytes ≤ n * size
    → concat (segments p 0 n) ≡ bytes
concat-pieces size bytes p n same enough =
    concat-segments size bytes p 0 n (λ k a b. same k (omega arith))
    ∙ take_all (drop (0 * size) bytes) (n * size) (omega (arith, length-drop (0 * size) bytes))
    ∙ ap (λ (k : ℕ). drop k bytes) nothing
  where
    nothing : 0 * size ≡ 0
    nothing = omega arith
