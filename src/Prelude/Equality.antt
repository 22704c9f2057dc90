-- ===== src/Prelude/Equality.antt =====
-- Go's `==` on the types that serve as map keys.
use Prim.Native.Nat.{ℕ}
use mathlib.Core.Path.{◌≡◌, refl}
use mathlib.Core.Logic.{◌↔◌}
use mathlib.Core.Bool.{Bool, true, false, ◌&&◌}
use mathlib.Core.List.{List, [], ◌∷◌}
use native.Mathlib.Omega.{arith}
use process_exporter.Prelude.Tests.{nat_beq, nat_beq_iff}

abbrev pub bytes_beq : List ℕ → List ℕ → Bool
bytes_beq [] [] = true
bytes_beq (x ∷ xs) (y ∷ ys) = nat_beq x y && bytes_beq xs ys
bytes_beq _ _ = false

pub bytes_beq_refl : (xs : List ℕ) → bytes_beq xs xs ≡ true
bytes_beq_refl [] = refl
bytes_beq_refl (x ∷ xs) = ground (arith, bytes_beq_refl xs)

pub eq_of_bytes_beq : (xs ys : List ℕ) → bytes_beq xs ys ≡ true → xs ≡ ys
eq_of_bytes_beq [] [] h = refl
eq_of_bytes_beq [] (y ∷ ys) h = ground arith
eq_of_bytes_beq (x ∷ xs) [] h = ground arith
eq_of_bytes_beq (x ∷ xs) (y ∷ ys) h = ground (arith, eq_of_bytes_beq xs ys)

pub bytes_beq_of_eq : (xs ys : List ℕ) → xs ≡ ys → bytes_beq xs ys ≡ true
bytes_beq_of_eq xs ys e = ground (arith, bytes_beq_refl xs)

-- The types that have `==`, and what it decides.
pub record Eq {ℓ} (A : Type ℓ) : Type ℓ where
  pub equal : A → A → Bool
  pub equal_iff : (x y : A) → (equal x y ≡ true) ↔ (x ≡ y)

module _ {ℓ} {A : Type ℓ} ⦃keys : Eq A⦄ where
  infix 50 ◌==◌
  abbrev pub ◌==◌ : A → A → Bool
  x == y = keys.equal x y

  pub eq_refl : (x : A) → (x == x) ≡ true
  eq_refl x = (keys.equal_iff x x).1 refl

instance abbrev pub bytes_eq : Eq (List ℕ)
bytes_eq = record {
  equal = bytes_beq;
  equal_iff = λ xs ys. (eq_of_bytes_beq xs ys, bytes_beq_of_eq xs ys);
}

instance abbrev pub nat_eq : Eq ℕ
nat_eq = record { equal = nat_beq; equal_iff = nat_beq_iff }
