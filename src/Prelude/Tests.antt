-- ===== src/Prelude/Tests.antt =====
-- Boolean tests, the conditional and equality as an interface.
use Prim.Native.Nat.{ℕ, compare, Ordering}
use mathlib.Core.Path.{◌≡◌, refl}
use mathlib.Core.Logic.{◌↔◌, ◌⊎◌, inl, inr}
use mathlib.Core.Bool.{Bool, true, false, ◌&&◌}
use mathlib.Core.Option.{Option, none, some}
use mathlib.Core.List.{List, [], ◌∷◌}
use native.Mathlib.Omega.{arith}

abbrev pub ltb : ℕ → ℕ → Bool
ltb a b = elim (compare a b) [ Ordering.lt ↦ true | _ ↦ false ]

abbrev pub leb : ℕ → ℕ → Bool
leb a b = elim (compare a b) [ Ordering.gt ↦ false | _ ↦ true ]

abbrev pub nat_beq : ℕ → ℕ → Bool
nat_beq a b = elim (compare a b) [ Ordering.eq ↦ true | _ ↦ false ]

infix 1 if◌then◌else◌
abbrev pub if◌then◌else◌ {ℓ} : {A : Type ℓ} → Bool → A → A → A
if true then x else y = x
if false then x else y = y

pub nat_beq_iff : (a b : ℕ) → (nat_beq a b ≡ true) ↔ (a ≡ b)
nat_beq_iff a b = ground arith

-- To split on a computed value and keep the equation.
pub Bool-cases : (b : Bool) → (b ≡ true) ⊎ (b ≡ false)
Bool-cases true = inl refl
Bool-cases false = inr refl

pub Option-cases {ℓ} : {A : Type ℓ} (o : Option A) → (o ≡ none) ⊎ ((a : A) × (o ≡ some a))
Option-cases none = inl refl
Option-cases (some a) = inr (a, refl)

-- The comparison that Go's `==` makes at a type of the program.
pub record Comparable {κ} (K : Type κ) : Type κ where
  pub test : K → K → Bool
  pub test_iff : (x y : K) → (test x y ≡ true) ↔ (x ≡ y)

infix 50 ◌==◌
abbrev pub ◌==◌ {κ} : {K : Type κ} ⦃q : Comparable K⦄ → K → K → Bool
◌==◌ ⦃q⦄ x y = q.test x y

pub eq_iff {ℓ} : {A : Type ℓ} ⦃q : Comparable A⦄ (a b : A) → ((a == b) ≡ true) ↔ (a ≡ b)
eq_iff ⦃q⦄ = q.test_iff

pub eq_refl {ℓ} : {A : Type ℓ} ⦃q : Comparable A⦄ (a : A) → (a == a) ≡ true
eq_refl ⦃q⦄ a = (q.test_iff a a).1 refl

pub beq_of_ne {ℓ} : {A : Type ℓ} ⦃q : Comparable A⦄ {a b : A} → ¬ (a ≡ b) → (a == b) ≡ false
beq_of_ne {a} {b} h = ground (arith, eq_iff a b)

pub beq_false_sym {ℓ} :
    {A : Type ℓ} ⦃q : Comparable A⦄ (a b : A) → (a == b) ≡ false → (b == a) ≡ false
beq_false_sym a b h = ground (arith, eq_iff a b, eq_iff b a)

instance abbrev pub nat_eq : Comparable ℕ
nat_eq = record { test = nat_beq; test_iff = nat_beq_iff }

module _ {ℓ} {A : Type ℓ} ⦃q : Comparable A⦄ where
  unfoldable pub list_beq : List A → List A → Bool
  list_beq [] [] = true
  list_beq (x ∷ xs) (y ∷ ys) = x == y && list_beq xs ys
  list_beq _ _ = false

  pub list_beq_iff : (xs ys : List A) → (list_beq xs ys ≡ true) ↔ (xs ≡ ys)
  unfolding list_beq
  list_beq_iff [] [] = (λ _. refl, λ _. refl)
  list_beq_iff [] (y ∷ ys) = (λ h. ground arith, λ h. ground arith)
  list_beq_iff (x ∷ xs) [] = (λ h. ground arith, λ h. ground arith)
  list_beq_iff (x ∷ xs) (y ∷ ys) = (
    λ h. ground (arith, eq_iff x y, list_beq_iff xs ys),
    λ h. ground (arith, eq_iff x y, list_beq_iff xs ys),
  )

instance abbrev pub list_eq {ℓ} : {A : Type ℓ} ⦃q : Comparable A⦄ → Comparable (List A)
list_eq = record { test = list_beq; test_iff = list_beq_iff }
