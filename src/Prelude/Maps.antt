-- ===== src/Prelude/Maps.antt =====
-- std::map as an association list in key order. The laws need the keys' equality alone.
use Prim.Native.Nat.{ℕ}
use mathlib.Core.Path.{◌≡◌, refl}
use mathlib.Core.Logic.{◌↔◌, ◌≢◌, ◌⊎◌}
use mathlib.Core.Bool.{Bool, true, false, ◌&&◌}
use mathlib.Core.List.{List, [], ◌∷◌}
use mathlib.Core.Option.{Option, none, some}
use native.Mathlib.Omega.{arith}
use libfgw.Prelude.Tests.{ltb, ◌==◌ as nat_eq, ==_iff, if◌then◌else◌}

-- The key type's operator< and the equality that it induces.
pub record Ord {ℓ} (K : Type ℓ) : Type ℓ where
  pub eq : K → K → Bool
  pub lt : K → K → Bool
  pub eq_iff : (a b : K) → (eq a b ≡ true) ↔ (a ≡ b)

instance abbrev pub nat_ord : Ord ℕ
nat_ord = record { eq = nat_eq; lt = ltb; eq_iff = ==_iff }

abbrev pub pair_eq : ℕ × ℕ → ℕ × ℕ → Bool
pair_eq (a, b) (c, d) = nat_eq a c && nat_eq b d

abbrev pub pair_lt : ℕ × ℕ → ℕ × ℕ → Bool
pair_lt (a, b) (c, d) = if ltb a c then true else if nat_eq a c then ltb b d else false

pub pair_eq_iff : (p q : ℕ × ℕ) → (pair_eq p q ≡ true) ↔ (p ≡ q)
pair_eq_iff (a, b) (c, d) = (λ h. ground arith, λ h. ground arith)

instance abbrev pub pair_ord : Ord (ℕ × ℕ)
pair_ord = record { eq = pair_eq; lt = pair_lt; eq_iff = pair_eq_iff }

abbrev pub Map {ℓ κ} : Type ℓ → Type κ → Type (ℓ ⊔ κ)
Map K V = List (K × V)

pub eq_refl {ℓ} : {K : Type ℓ} ⦃o : Ord K⦄ (k : K) → o.eq k k ≡ true
eq_refl ⦃o⦄ k = (o.eq_iff k k).1 refl

module _ {ℓ κ} {K : Type ℓ} {V : Type κ} ⦃o : Ord K⦄ where
  unfoldable pub lookup : K → Map K V → Option V
  lookup k [] = none
  lookup k ((j, v) ∷ m) = if o.eq j k then some v else lookup k m

  -- m[k] = v
  unfoldable pub insert : K → V → Map K V → Map K V
  insert k v [] = (k, v) ∷ []
  insert k v ((j, w) ∷ m) =
      if o.eq j k
      then (k, v) ∷ m
      else if o.lt k j
      then (k, v) ∷ (j, w) ∷ m
      else (j, w) ∷ insert k v m

  -- m.emplace(k, v): a key that is there keeps its value.
  unfoldable pub emplace : K → V → Map K V → Map K V
  unfolding insert lookup
  emplace k v m = elim (lookup k m) [ none ↦ insert k v m | some w ↦ m ]

  unfoldable pub erase : K → Map K V → Map K V
  erase k [] = []
  erase k ((j, w) ∷ m) = if o.eq j k then erase k m else (j, w) ∷ erase k m

  unfoldable pub has_key : K → Map K V → Bool
  unfolding lookup
  has_key k m = elim (lookup k m) [ none ↦ false | some v ↦ true ]

  pub lookup-insert :
      (k j : K) (v : V) (m : Map K V)
      → lookup j (insert k v m) ≡ (if o.eq k j then some v else lookup j m)
  unfolding lookup insert
  lookup-insert k j v [] = refl
  lookup-insert k j v ((i, w) ∷ m) =
      ground (arith, o.eq_iff k j, o.eq_iff i k, o.eq_iff i j, lookup-insert k j v m)

  pub lookup-insert_self : (k : K) (v : V) (m : Map K V) → lookup k (insert k v m) ≡ some v
  lookup-insert_self k v m = rw (lookup-insert k k v m, eq_refl k)

  pub lookup-insert_ne :
      (k j : K) (v : V) (m : Map K V) → o.eq k j ≡ false → lookup j (insert k v m) ≡ lookup j m
  lookup-insert_ne k j v m h = rw (lookup-insert k j v m, h)

  pub lookup-erase :
      (k j : K) (m : Map K V) → lookup j (erase k m) ≡ (if o.eq k j then none else lookup j m)
  unfolding lookup erase
  lookup-erase k j [] = ground arith
  lookup-erase k j ((i, w) ∷ m) =
      ground (arith, o.eq_iff k j, o.eq_iff i k, o.eq_iff i j, lookup-erase k j m)

  pub has_key-insert :
      (k j : K) (v : V) (m : Map K V)
      → has_key j (insert k v m) ≡ true
      → (k ≡ j) ⊎ (has_key j m ≡ true)
  unfolding has_key
  has_key-insert k j v m h = ground (arith, lookup-insert k j v m, o.eq_iff k j)

  pub has_key-insert_self : (k : K) (v : V) (m : Map K V) → has_key k (insert k v m) ≡ true
  unfolding has_key
  has_key-insert_self k v m = ground (arith, lookup-insert k k v m, o.eq_iff k k)

  pub has_key-insert_old :
      (k j : K) (v : V) (m : Map K V) → has_key j m ≡ true → has_key j (insert k v m) ≡ true
  unfolding has_key
  has_key-insert_old k j v m h = ground (arith, lookup-insert k j v m)

  pub has_key-erase :
      (k j : K) (m : Map K V) → has_key j (erase k m) ≡ true → (k ≢ j) × (has_key j m ≡ true)
  unfolding has_key
  has_key-erase k j m h =
      (λ e. ground (arith, lookup-erase k j m, o.eq_iff k j), ground (arith, lookup-erase k j m))

  pub has_key-erase_ne :
      (k j : K) (m : Map K V) → k ≢ j → has_key j m ≡ true → has_key j (erase k m) ≡ true
  unfolding has_key
  has_key-erase_ne k j m ne h = ground (arith, lookup-erase k j m, o.eq_iff k j)

  pub has_key-emplace_self : (k : K) (v : V) (m : Map K V) → has_key k (emplace k v m) ≡ true
  unfolding has_key emplace
  has_key-emplace_self k v m = ground (arith, lookup-insert k k v m, o.eq_iff k k)

  pub has_key-emplace_old :
      (k j : K) (v : V) (m : Map K V) → has_key j m ≡ true → has_key j (emplace k v m) ≡ true
  unfolding has_key emplace
  has_key-emplace_old k j v m h = ground (arith, lookup-insert k j v m)
