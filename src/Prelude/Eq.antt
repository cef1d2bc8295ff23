-- ===== src/Prelude/Eq.antt =====
-- Equality tests: an interface with an instance for the numbers and one for lists (byte strings).
use Prim.Native.Nat.{ℕ, compare, Ordering}
use mathlib.Core.Path.{◌≡◌, refl}
use mathlib.Core.Logic.{◌↔◌}
use mathlib.Core.Bool.{Bool, true, false, ◌&&◌}
use mathlib.Core.List.{List, [], ◌∷◌}
use native.Mathlib.Omega.{arith}

infix 50 ◌==◌
-- A test, and that it decides equality.
pub record Equality {ℓ} (A : Type ℓ) : Type ℓ where
  pub beq : A → A → Bool
  pub beq_iff : (x y : A) → (beq x y ≡ true) ↔ (x ≡ y)

module _ {ℓ} {A : Type ℓ} ⦃e : Equality A⦄ where
  abbrev pub ◌==◌ : A → A → Bool
  ◌==◌ x y = e.beq x y

abbrev pub nat_beq : ℕ → ℕ → Bool
nat_beq a b = elim (compare a b) [ Ordering.eq ↦ true | _ ↦ false ]

pub nat_beq_iff : (a b : ℕ) → (nat_beq a b ≡ true) ↔ (a ≡ b)
nat_beq_iff a b = ground arith

instance abbrev pub nat_equality : Equality ℕ
nat_equality = record { beq = nat_beq; beq_iff = nat_beq_iff }

module _ {ℓ} {A : Type ℓ} ⦃e : Equality A⦄ where
  unfoldable pub list_beq : List A → List A → Bool
  list_beq [] [] = true
  list_beq (x ∷ xs) (y ∷ ys) = e.beq x y && list_beq xs ys
  list_beq _ _ = false

  pub list_beq_iff : (xs ys : List A) → (list_beq xs ys ≡ true) ↔ (xs ≡ ys)
  unfolding list_beq
  list_beq_iff [] [] = (λ _. refl, λ _. refl)
  list_beq_iff (x ∷ xs) (y ∷ ys) = ground (arith, e.beq_iff x y, list_beq_iff xs ys)
  list_beq_iff [] (y ∷ ys) = ground arith
  list_beq_iff (x ∷ xs) [] = ground arith

  instance abbrev pub list_equality : Equality (List A)
  list_equality = record { beq = list_beq; beq_iff = list_beq_iff }

pub ==_refl {ℓ} : {A : Type ℓ} ⦃e : Equality A⦄ (a : A) → (a == a) ≡ true
==_refl ⦃e⦄ a = (e.beq_iff a a).1 refl

module _ {ℓ} {A : Type ℓ} ⦃e : Equality A⦄ (a b : A) where
  pub ==→eq : (a == b) ≡ true → a ≡ b
  ==→eq = (e.beq_iff a b).0

  pub ==→ne : (a == b) ≡ false → ¬ (a ≡ b)
  ==→ne h p = ground (arith, e.beq_iff a b)

  pub ne→== : ¬ (a ≡ b) → (a == b) ≡ false
  ne→== h = ground (arith, e.beq_iff a b)
