-- ===== src/Stream/Deliver/Order.antt =====
-- The reorder buffer: what emplace and the first loop of deliverInOrder do to a buffer that holds
-- payloads of one sequence, below the wrap of the sequence numbers.
use libfgw.Prelude.{
  ℕ, zero, suc, ◌+◌, ◌%◌, ◌^◌, max, ◌≤◌, ◌<◌, ◌≡◌, ◌⊎◌, inl, inr, refl, ap, ◌∙◌, true, false, List,
  [], ◌∷◌, ◌++◌, some, none, ◌==◌, Bool-cases, ==_iff, subst, ap₂, length, Map, lookup, insert,
  emplace, has_key, nat_ord, arith,
}
use libfgw.Stream.Deliver.{collect}

module _ (p : ℕ → List ℕ) where
  -- p e, p (e + 1), …, n of them.
  abbrev pub segments : ℕ → ℕ → List (List ℕ)
  segments e zero = []
  segments e (suc n) = p e ∷ segments (e + 1) n

  pub segments-append :
      (a c n k : ℕ) → c ≡ a + n → segments a n ++ segments c k ≡ segments a (n + k)
  segments-append a c zero k e =
      let e' : c ≡ a = omega arith in rw e' (let z : k ≡ 0 + k = omega arith in ap (segments a) z)
  segments-append a c (suc n) k e =
      let z : suc (n + k) ≡ suc n + k = omega arith in
      ap (◌∷◌ (p a)) (segments-append (a + 1) c n k (omega arith)) ∙ ap (segments a) z

  -- Keys rise strictly from `e` on, stay below `n`, and each holds its payload.
  abbrev pub Buffered : ℕ → ℕ → Map ℕ (List ℕ) → Type 0
  Buffered n e [] = Unit {0}
  Buffered n e ((k, v) ∷ m) = (e ≤ k) × (k < n) × (v ≡ p k) × Buffered n (k + 1) m

  pub Buffered-weaken : (n a b : ℕ) (m : Map ℕ (List ℕ)) → a ≤ b → Buffered n b m → Buffered n a m
  Buffered-weaken n a b [] h w = tt
  Buffered-weaken n a b ((k, v) ∷ m) h w = (omega arith, w.1, w.2, w.3)

  -- No key is below the bound.
  pub Buffered-absent :
      (n a k : ℕ) (m : Map ℕ (List ℕ)) → k < a → Buffered n a m → has_key k m ≡ false
  unfolding has_key lookup
  Buffered-absent n a k [] below w = refl
  Buffered-absent n a k ((j, v) ∷ m) below w =
      let other : (j == k) ≡ false = ground arith in
      rw (other, has_key, lookup) (Buffered-absent n (j + 1) k m (omega arith) w.3)

  insert-Buffered :
      (n e k : ℕ) (m : Map ℕ (List ℕ))
      → e ≤ k
      → k < n
      → Buffered n e m
      → Buffered n e (insert k (p k) m)
  unfolding insert
  insert-Buffered n e k [] he hn w = (he, hn, refl, tt)
  insert-Buffered n e k ((j, v) ∷ m) he hn w =
      ground (arith, insert-Buffered n (j + 1) k m, Buffered-weaken n (k + 1) (j + 1) m)

  -- Buffering a new payload, or a copy of one that is there.
  pub emplace-Buffered :
      (n e k : ℕ) (m : Map ℕ (List ℕ))
      → e ≤ k
      → k < n
      → Buffered n e m
      → Buffered n e (emplace k (p k) m)
  unfolding emplace
  emplace-Buffered n e k m he hn w =
      elim (lookup k m) as (λ o. Buffered n e (elim o [ none ↦ insert k (p k) m | some v ↦ m ])) [
        | none ↦ insert-Buffered n e k m he hn w
        | some v ↦ w
      ]

  -- What the loop takes is the run of consecutive payloads from `e` on, and the number it stops
  -- at is not in what it leaves.
  pub record Collected (n e : ℕ) (m : Map ℕ (List ℕ)) (out : List (List ℕ) × ℕ × Map ℕ (List ℕ))
      : Type 0 where
    pub ready : out.0 ≡ segments e (length out.0)
    pub next : out.1 ≡ e + length out.0
    pub left : Buffered n (out.1 + 1) out.2
    pub kept : (k : ℕ) → has_key k m ≡ true → (k < out.1) ⊎ (has_key k out.2 ≡ true)
    pub bounded : out.1 ≤ max e n

  pub collect-Collected :
      (n e : ℕ) (m : Map ℕ (List ℕ))
      → n + 1 < 2 ^ 32
      → Buffered n e m
      → Collected n e m (collect e m)
  unfolding collect has_key lookup
  collect-Collected n e [] small w = record {
    ready = refl;
    next = omega arith;
    left = tt;
    kept = λ k h. inr h;
    bounded = omega arith;
  }
  collect-Collected n e ((k, v) ∷ m) small w = elim (Bool-cases (k == e)) [
    | inl same ↦
        let ke : k ≡ e = (==_iff k e).0 same in
        let wrap : (e + 1) % 2 ^ 32 ≡ e + 1 = omega arith in
        let rest : Collected n (e + 1) m (collect (e + 1) m) =
          collect-Collected n (e + 1) m small (subst (λ x. Buffered n (x + 1) m) ke w.3) in
        rw (same, wrap)
          (record {
            ready = ap₂ ◌∷◌ (w.2 ∙ ap p ke) rest.ready;
            next = omega (arith, rest.next);
            left = rest.left;
            kept = λ j h. ground (arith, rest.kept j, rest.next);
            bounded = omega (arith, rest.bounded);
          })
    | inr other ↦
        let later : e + 1 ≤ k = ground arith in
        rw other (record {
          ready = refl;
          next = omega arith;
          left = (later, w.1, w.2, w.3);
          kept = λ j h. inr h;
          bounded = omega arith;
        })
  ]
