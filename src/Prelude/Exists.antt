-- ===== src/Prelude/Exists.antt =====
-- An element of a list that satisfies a predicate, and how `map`, `++` and a filter keep it.
use mathlib.Core.Path.{◌≡◌, refl, ap, sym, ◌∙◌}
use mathlib.Core.Logic.{◌↔◌, ◌⊎◌, inl, inr}
use mathlib.Core.Option.{Option, none, some}
use mathlib.Core.Bool.{Bool, true, false}
use mathlib.Core.List.{List, [], ◌∷◌, ◌++◌, map}
use Prim.Native.Nat.{ℕ, zero, suc, ◌≤◌}
use process_exporter.Prelude.Lists.{length}
use native.Mathlib.Omega.{arith}
use process_exporter.Prelude.Tests.{if◌then◌else◌, some_inj}

module _ {A : Type 0} where
  -- Some element satisfies `P`.
  abbrev pub Any : (A → Type 0) → List A → Type 0
  Any P [] = ⊥
  Any P (x ∷ xs) = P x ⊎ Any P xs

  abbrev pub IsIn : A → List A → Type 0
  IsIn x xs = Any (λ y. y ≡ x) xs

  pub Any-iff : {P Q : A → Type 0} (f : (x : A) → P x ↔ Q x) (xs : List A) → Any P xs ↔ Any Q xs
  Any-iff f [] = ((λ h. elim h [ ]), λ h. elim h [ ])
  Any-iff f (x ∷ xs) = (
    (λ h. elim h [ inl p ↦ inl ((f x).0 p) | inr r ↦ inr ((Any-iff f xs).0 r) ]),
    λ h. elim h [ inl p ↦ inl ((f x).1 p) | inr r ↦ inr ((Any-iff f xs).1 r) ],
  )

  pub Any-append : (P : A → Type 0) (xs ys : List A) → Any P (xs ++ ys) ↔ (Any P xs ⊎ Any P ys)
  Any-append P [] ys = ((λ h. inr h), λ h. elim h [ inl p ↦ elim p [ ] | inr r ↦ r ])
  Any-append P (x ∷ xs) ys = (
    (λ h. elim h [
      | inl p ↦ inl (inl p)
      | inr r ↦ elim ((Any-append P xs ys).0 r) [ inl p ↦ inl (inr p) | inr s ↦ inr s ]
    ]),
    λ h. elim h [
      | inl a ↦ elim a [ inl p ↦ inl p | inr r ↦ inr ((Any-append P xs ys).1 (inl r)) ]
      | inr s ↦ inr ((Any-append P xs ys).1 (inr s))
    ],
  )

  abbrev pub nth : ℕ → List A → Option A
  nth n [] = none
  nth zero (x ∷ xs) = some x
  nth (suc n) (x ∷ xs) = nth n xs

  pub IsIn-nth : (n : ℕ) (x : A) (xs : List A) → nth n xs ≡ some x → IsIn x xs
  IsIn-nth n x [] e = cc
  IsIn-nth zero x (y ∷ xs) e = inl (some_inj e)
  IsIn-nth (suc n) x (y ∷ xs) e = inr (IsIn-nth n x xs e)

  -- Go's loop that keeps the elements that pass a test.
  unfoldable pub filter : (A → Bool) → List A → List A
  filter test [] = []
  filter test (x ∷ xs) = let rest = filter test xs in if test x then x ∷ rest else rest

  IsIn-keep :
      (test : A → Bool) (x y : A) (xs rest : List A) (b : Bool)
      → test y ≡ b
      → IsIn x rest ↔ (IsIn x xs × (test x ≡ true))
      → IsIn x (if b then y ∷ rest else rest) ↔ (IsIn x (y ∷ xs) × (test x ≡ true))
  IsIn-keep test x y xs rest true e h = (
    (λ i. elim i [ inl p ↦ (inl p, sym (ap test p) ∙ e) | inr r ↦ (inr (h.0 r).0, (h.0 r).1) ]),
    λ i. elim i.0 [ inl p ↦ inl p | inr r ↦ inr (h.1 (r, i.1)) ],
  )
  IsIn-keep test x y xs rest false e h = (
    (λ i. (inr (h.0 i).0, (h.0 i).1)),
    λ i. elim i.0 [ inl p ↦ ground (arith, e, i.1, ap test p) | inr r ↦ h.1 (r, i.1) ],
  )

  pub IsIn-filter :
      (test : A → Bool) (x : A) (xs : List A)
      → IsIn x (filter test xs) ↔ (IsIn x xs × (test x ≡ true))
  unfolding filter
  IsIn-filter test x [] = ((λ h. elim h [ ]), λ h. elim h.0 [ ])
  IsIn-filter test x (y ∷ xs) =
      IsIn-keep test x y xs (filter test xs) (test y) refl (IsIn-filter test x xs)

  pub length-filter : (test : A → Bool) (xs : List A) → length (filter test xs) ≤ length xs
  unfolding filter
  length-filter test [] = omega arith
  length-filter test (x ∷ xs) = ground (arith, length-filter test xs)

module _ {A B : Type 0} where
  pub length-map : (f : A → B) (xs : List A) → length (map f xs) ≡ length xs
  length-map f [] = refl
  length-map f (x ∷ xs) = ap suc (length-map f xs)

  pub Any-map :
      (P : B → Type 0) (f : A → B) (xs : List A) → Any P (map f xs) ↔ Any (λ x. P (f x)) xs
  Any-map P f [] = ((λ h. h), λ h. h)
  Any-map P f (x ∷ xs) = (
    (λ h. elim h [ inl p ↦ inl p | inr r ↦ inr ((Any-map P f xs).0 r) ]),
    λ h. elim h [ inl p ↦ inl p | inr r ↦ inr ((Any-map P f xs).1 r) ],
  )
