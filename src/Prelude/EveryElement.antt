-- ===== src/Prelude/EveryElement.antt =====
-- A predicate of every element as an inductive type, whose list can be read off a goal.
use mathlib.Core.List.{List, [], ◌∷◌, ◌++◌}

pub data Every {A : Type 0} (P : A → Type 0) : List A → Type 0 where
  nil : Every P []
  cons : {x : A} {xs : List A} → P x → Every P xs → Every P (x ∷ xs)

module _ {A : Type 0} where
  pub Every-append :
      {P : A → Type 0} {xs ys : List A} → Every P xs → Every P ys → Every P (xs ++ ys)
  Every-append nil k = k
  Every-append (cons p h) k = cons p (Every-append h k)

  pub Every-map :
      {P Q : A → Type 0} (f : (x : A) → P x → Q x) {xs : List A} → Every P xs → Every Q xs
  Every-map f nil = nil
  Every-map f (cons p h) = cons (f _ p) (Every-map f h)
