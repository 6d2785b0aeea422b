-- ===== src/Transit/Routes.antt =====
-- src/zfgw_transit.cpp: the two routing tables of a TransitService and its table of links.
use libfgw.Prelude.{
  ℕ, ◌<◌, ◌≡◌, ◌≢◌, refl, subst, Bool, true, [], ◌∷◌, Option, none, some, ◌==◌, if◌then◌else◌, Map,
  lookup, insert, erase, lookup-insert, lookup-erase, nat_ord, some_inj, arith, Bool-cases, inl,
  inr, ==_iff, if_cases, if_either, ltb, ltb→lt,
}
use libfgw.Transit.State.{Link}
use libfgw.Transit.Dial.{without}

-- The direction of the link at `p`, if it is in the table.
unfoldable pub direction : ℕ → Map ℕ Link → Option Bool
direction p links = elim (lookup p links) [ none ↦ none | some link ↦ some link.outbound ]

pub direction-insert :
    (p q : ℕ) (link : Link) (links : Map ℕ Link)
    → direction q (insert p link links) ≡ (if p == q then some link.outbound else direction q links)
unfolding direction
direction-insert p q link links = ground (arith, lookup-insert p q link links)

pub direction-erase :
    (p q : ℕ) (links : Map ℕ Link)
    → direction q (erase p links) ≡ (if p == q then none else direction q links)
unfolding direction
direction-erase p q links = ground (arith, lookup-erase p q links)

abbrev pub Above : ℕ → Map ℕ ℕ → Type 0
Above k [] = Unit
Above k ((j, v) ∷ m) = (k < j) × Above k m

-- The keys rise.
abbrev pub Sorted : Map ℕ ℕ → Type 0
Sorted [] = Unit
Sorted ((k, v) ∷ m) = Above k m × Sorted m

Above-less : (i k : ℕ) (m : Map ℕ ℕ) → i < k → Above k m → Above i m
Above-less i k [] h a = a
Above-less i k ((j, v) ∷ m) h a = (omega arith, Above-less i k m h a.1)

Above-key : (k : ℕ) (m : Map ℕ ℕ) → Above k m → lookup k m ≡ none
unfolding lookup
Above-key k [] a = refl
Above-key k ((j, v) ∷ m) a = ground (arith, Above-key k m)

insert-Above : (i k v : ℕ) (m : Map ℕ ℕ) → i < k → Above i m → Above i (insert k v m)
unfolding insert
insert-Above i k v [] h a = (h, a)
insert-Above i k v ((j, w) ∷ m) h a =
    if_either (Above i) (j == k) ((k, v) ∷ m) _ (h, a.1)
      (if_either (Above i) (ltb k j) ((k, v) ∷ (j, w) ∷ m) ((j, w) ∷ insert k v m) (h, a)
        (a.0, insert-Above i k v m h a.1))

pub insert-Sorted : (k v : ℕ) (m : Map ℕ ℕ) → Sorted m → Sorted (insert k v m)
unfolding insert
insert-Sorted k v [] s = (s, s)
insert-Sorted k v ((j, w) ∷ m) s =
    if_cases Sorted (j == k) ((k, v) ∷ m) _
      (λ e. (subst (λ (i : ℕ). Above i m) ((==_iff j k).0 e) s.0, s.1))
      (λ e.
        if_cases Sorted (ltb k j) ((k, v) ∷ (j, w) ∷ m) ((j, w) ∷ insert k v m)
          (λ below. ((ltb→lt k j below, Above-less k j m (ltb→lt k j below) s.0), s))
          (λ after. (insert-Above j k v m (ground arith) s.0, insert-Sorted k v m s.1)))

without-Above : (i ch : ℕ) (m : Map ℕ ℕ) → Above i m → Above i (without ch m)
unfolding without
without-Above i ch [] a = a
without-Above i ch ((j, p) ∷ m) a =
    if_either (Above i) (p == ch) (without ch m) ((j, p) ∷ without ch m) (without-Above i ch m a.1)
      (a.0, without-Above i ch m a.1)

pub without-Sorted : (ch : ℕ) (m : Map ℕ ℕ) → Sorted m → Sorted (without ch m)
unfolding without
without-Sorted ch [] s = s
without-Sorted ch ((j, p) ∷ m) s =
    if_either Sorted (p == ch) (without ch m) ((j, p) ∷ without ch m) (without-Sorted ch m s.1)
      (without-Above j ch m s.0, without-Sorted ch m s.1)

-- What is left without `ch` was there, and does not lead to `ch`.
pub lookup-without :
    (ch k p : ℕ) (m : Map ℕ ℕ)
    → Sorted m
    → lookup k (without ch m) ≡ some p
    → (p ≢ ch) × (lookup k m ≡ some p)
unfolding without lookup
lookup-without ch k p [] s h = absurd (ground arith)
lookup-without ch k p ((j, q) ∷ m) s h = elim (Bool-cases (q == ch)) [
  | inl e ↦ skipped e (lookup-without ch k p m s.1 (ground arith))
  | inr e ↦ elim (Bool-cases (j == k)) [
    | inl f ↦ (λ g. ground (arith, some_inj q p), ground arith)
    | inr f ↦ (
      (lookup-without ch k p m s.1 (ground arith)).0,
      ground (arith, (lookup-without ch k p m s.1 (ground arith)).1),
    )
  ]
]
  where
    skipped :
        (q == ch) ≡ true
        → (p ≢ ch) × (lookup k m ≡ some p)
        → (p ≢ ch) × (lookup k ((j, q) ∷ m) ≡ some p)
    skipped e ih = (ih.0, ground (arith, ih.1, Above-key j m s.0))
