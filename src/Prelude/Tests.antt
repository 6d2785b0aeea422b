-- ===== src/Prelude/Tests.antt =====
-- Boolean tests on the native numbers, the conditional, and case splits that keep the equation.
use Prim.Native.Nat.{ℕ, zero, suc, ◌<◌, compare, Ordering}
use mathlib.Core.Path.{◌≡◌, refl, sym, subst}
use mathlib.Core.Logic.{◌≢◌, ◌↔◌, ◌⊎◌, inl, inr}
use mathlib.Core.Bool.{Bool, true, false, ◌&&◌}
use mathlib.Core.Option.{Option, none, some}
use native.Mathlib.Omega.{arith}

abbrev pub ltb : ℕ → ℕ → Bool
ltb a b = elim (compare a b) [ Ordering.lt ↦ true | _ ↦ false ]

abbrev pub leb : ℕ → ℕ → Bool
leb a b = elim (compare a b) [ Ordering.gt ↦ false | _ ↦ true ]

infix 50 ◌==◌
abbrev pub ◌==◌ : ℕ → ℕ → Bool
a == b = elim (compare a b) [ Ordering.eq ↦ true | _ ↦ false ]

infix 1 if◌then◌else◌
abbrev pub if◌then◌else◌ {ℓ} : {A : Type ℓ} → Bool → A → A → A
if true then x else y = x
if false then x else y = y

pub ltb→lt : (a b : ℕ) → ltb a b ≡ true → a < b
ltb→lt a b h = ground arith

pub lt→ltb : (a b : ℕ) → a < b → ltb a b ≡ true
lt→ltb a b h = ground arith

pub ==_iff : (a b : ℕ) → ((a == b) ≡ true) ↔ (a ≡ b)
==_iff a b = ground arith

pub Bool-cases : (b : Bool) → (b ≡ true) ⊎ (b ≡ false)
Bool-cases true = inl refl
Bool-cases false = inr refl

pub Option-cases {ℓ} : {A : Type ℓ} (o : Option A) → (o ≡ none) ⊎ ((a : A) × (o ≡ some a))
Option-cases none = inl refl
Option-cases (some a) = inr (a, refl)

pub ==_ne : (a b : ℕ) → a ≢ b → (a == b) ≡ false
==_ne a b h = ground arith

-- A test passed by every number below `k`, each checked by evaluation.
abbrev pub every_below : (ℕ → Bool) → ℕ → Bool
every_below test zero = true
every_below test (suc k) = test k && every_below test k

pub every_below-at : (test : ℕ → Bool) (k i : ℕ) → i < k → every_below test k ≡ true → test i ≡ true
every_below-at test (suc k) i below passed = ground (arith, every_below-at test k i)
every_below-at test zero i below passed = absurd (omega arith)

-- A property of both branches is one of the whole.
pub if_either {ℓ κ} :
    {A : Type ℓ} (P : A → Type κ) (b : Bool) (x y : A) → P x → P y → P (if b then x else y)
if_either P true x y px py = px
if_either P false x y px py = py

pub option_both {ℓ κ μ} :
    {A : Type ℓ} {C : Type κ} (P : A → Type μ) (o : Option C) (a : A) (f : C → A)
    → P a
    → ((c : C) → o ≡ some c → P (f c))
    → P (elim o [ none ↦ a | some c ↦ f c ])
option_both P none a f pa pf = pa
option_both P (some c) a f pa pf = pf c refl

pub if_cases {ℓ κ} :
    {A : Type ℓ} (P : A → Type κ) (b : Bool) (x y : A)
    → (b ≡ true → P x)
    → (b ≡ false → P y)
    → P (if b then x else y)
if_cases P true x y px py = px refl
if_cases P false x y px py = py refl

pub some_inj {ℓ} : {A : Type ℓ} (a b : A) → some a ≡ some b → a ≡ b
some_inj a b h = cc

pub option_known {ℓ κ μ} :
    {A : Type ℓ} {C : Type κ} (P : A → Type μ) (o : Option C) (c : C) (a : A) (f : C → A)
    → o ≡ some c
    → P (f c)
    → P (elim o [ none ↦ a | some d ↦ f d ])
option_known P none c a f h pf = absurd (ground arith)
option_known P (some d) c a f h pf = subst (λ x. P (f x)) (some_inj c d (sym h)) pf

pub option_cases {ℓ κ μ} :
    {A : Type ℓ} {C : Type κ} (P : A → Type μ) (o : Option C) (a : A) (f : C → A)
    → (o ≡ none → P a)
    → ((c : C) → o ≡ some c → P (f c))
    → P (elim o [ none ↦ a | some c ↦ f c ])
option_cases P none a f pa pf = pa refl
option_cases P (some c) a f pa pf = pf c refl

-- A function of a test's result, branch by branch.
pub both_if :
    {A B : Type 0} (f : A → B) (b : Bool) (x y : A) (x' y' : B)
    → f x ≡ x'
    → f y ≡ y'
    → f (if b then x else y) ≡ (if b then x' else y')
both_if f true x y x' y' p q = p
both_if f false x y x' y' p q = q

pub both_option :
    {A B K : Type 0} (f : A → B) (o : Option K) (x : A) (g : K → A) (x' : B) (g' : K → B)
    → f x ≡ x'
    → ((k : K) → f (g k) ≡ g' k)
    → f (elim o [ none ↦ x | some k ↦ g k ]) ≡ elim o [ none ↦ x' | some k ↦ g' k ]
both_option f none x g x' g' p q = p
both_option f (some k) x g x' g' p q = q k

-- A lookup against the test whether it finds anything.
pub option_if :
    {A B K : Type 0} (f : A → B) (o : Option K) (x : A) (g : K → A) (x' y' : B)
    → f x ≡ y'
    → ((k : K) → f (g k) ≡ x')
    → f (elim o [ none ↦ x | some k ↦ g k ])
      ≡ (if elim o [ none ↦ false | some k ↦ true ] then x' else y')
option_if f none x g x' y' p q = p
option_if f (some k) x g x' y' p q = q k
