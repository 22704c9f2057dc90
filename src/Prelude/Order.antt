-- ===== src/Prelude/Order.antt =====
-- Go's order on strings, which is the order of their bytes, and `sort.Strings`.
use Prim.Native.Nat.{ℕ, suc}
use mathlib.Core.Path.{◌≡◌, refl, ◌∙◌, ap}
use mathlib.Core.Logic.{◌↔◌, ◌⊎◌, inl, inr}
use mathlib.Core.Bool.{Bool, true, false, ◌&&◌, ◌||◌}
use mathlib.Core.List.{List, [], ◌∷◌}
use native.Mathlib.Omega.{arith}
use process_exporter.Prelude.Tests.{if◌then◌else◌, if_both, Bool-cases, ltb, nat_beq, if_both}
use process_exporter.Prelude.Lists.{length, All, All-map}
use process_exporter.Prelude.Exists.{Any}

abbrev pub text_leb : List ℕ → List ℕ → Bool
text_leb [] ys = true
text_leb (x ∷ xs) [] = false
text_leb (x ∷ xs) (y ∷ ys) = ltb x y || (nat_beq x y && text_leb xs ys)

text_leb_total : (xs ys : List ℕ) → text_leb xs ys ≡ false → text_leb ys xs ≡ true
text_leb_total [] ys h = ground arith
text_leb_total (x ∷ xs) [] h = refl
text_leb_total (x ∷ xs) (y ∷ ys) h = ground (arith, text_leb_total xs ys)

text_leb_trans :
    (xs ys zs : List ℕ) → text_leb xs ys ≡ true → text_leb ys zs ≡ true → text_leb xs zs ≡ true
text_leb_trans [] ys zs h k = refl
text_leb_trans (x ∷ xs) [] zs h k = ground arith
text_leb_trans (x ∷ xs) (y ∷ ys) [] h k = ground arith
text_leb_trans (x ∷ xs) (y ∷ ys) (z ∷ zs) h k = ground (arith, text_leb_trans xs ys zs)

-- Each text is at most every later one.
abbrev pub IsSorted : List (List ℕ) → Type 0
IsSorted [] = Unit
IsSorted (x ∷ xs) = All (λ y. text_leb x y ≡ true) xs × IsSorted xs

unfoldable pub insert_text : List ℕ → List (List ℕ) → List (List ℕ)
insert_text x [] = x ∷ []
insert_text x (y ∷ ys) =
    let rest = insert_text x ys in if text_leb x y then x ∷ y ∷ ys else y ∷ rest

unfoldable pub sort_texts : List (List ℕ) → List (List ℕ)
unfolding insert_text
sort_texts [] = []
sort_texts (x ∷ xs) = insert_text x (sort_texts xs)

All-insert_text {κ} :
    (P : List ℕ → Type κ) (x : List ℕ) (ys : List (List ℕ))
    → P x
    → All P ys
    → All P (insert_text x ys)
unfolding insert_text
All-insert_text P x [] p h = (p, tt)
All-insert_text P x (y ∷ ys) p h =
    if_both (All P) (text_leb x y) (p, h) (h.0, All-insert_text P x ys p h.1)

insert_text-IsSorted : (x : List ℕ) (ys : List (List ℕ)) → IsSorted ys → IsSorted (insert_text x ys)
unfolding insert_text
insert_text-IsSorted x [] h = (tt, tt)
insert_text-IsSorted x (y ∷ ys) h = elim (Bool-cases (text_leb x y)) [
  | inl e ↦ rw (e) ((e, All-map (λ z. text_leb_trans x y z e) ys h.0), h)
  | inr e ↦ rw (e) (
    All-insert_text (λ z. text_leb y z ≡ true) x ys (text_leb_total x y e) h.0,
    insert_text-IsSorted x ys h.1,
  )
]

pub sort_texts-IsSorted : (xs : List (List ℕ)) → IsSorted (sort_texts xs)
unfolding sort_texts
sort_texts-IsSorted [] = tt
sort_texts-IsSorted (x ∷ xs) = insert_text-IsSorted x (sort_texts xs) (sort_texts-IsSorted xs)

Any-insert_text :
    (P : List ℕ → Type 0) (x : List ℕ) (ys : List (List ℕ))
    → Any P (insert_text x ys) ↔ (P x ⊎ Any P ys)
unfolding insert_text
Any-insert_text P x [] = ((λ h. h), λ h. h)
Any-insert_text P x (y ∷ ys) =
    if_both (λ l. Any P l ↔ (P x ⊎ Any P (y ∷ ys))) (text_leb x y) ((λ h. h), λ h. h)
      (
        (λ h. elim h [
          | inl p ↦ inr (inl p)
          | inr r ↦ elim ((Any-insert_text P x ys).0 r) [ inl p ↦ inl p | inr s ↦ inr (inr s) ]
        ]),
        λ h. elim h [
          | inl p ↦ inr ((Any-insert_text P x ys).1 (inl p))
          | inr a ↦ elim a [ inl p ↦ inl p | inr s ↦ inr ((Any-insert_text P x ys).1 (inr s)) ]
        ],
      )

pub Any-sort_texts : (P : List ℕ → Type 0) (xs : List (List ℕ)) → Any P (sort_texts xs) ↔ Any P xs
unfolding sort_texts
Any-sort_texts P [] = ((λ h. h), λ h. h)
Any-sort_texts P (x ∷ xs) = (
  (λ h. elim ((Any-insert_text P x (sort_texts xs)).0 h) [
    | inl p ↦ inl p
    | inr r ↦ inr ((Any-sort_texts P xs).0 r)
  ]),
  λ h.
      (Any-insert_text P x (sort_texts xs)).1
        (elim h [ inl p ↦ inl p | inr r ↦ inr ((Any-sort_texts P xs).1 r) ]),
)

length-insert_text : (x : List ℕ) (ys : List (List ℕ)) → length (insert_text x ys) ≡ suc (length ys)
unfolding insert_text
length-insert_text x [] = refl
length-insert_text x (y ∷ ys) =
    if_both {A = List (List ℕ)} (λ l. length l ≡ suc (suc (length ys))) (text_leb x y) refl
      (ap suc (length-insert_text x ys))

pub length-sort_texts : (xs : List (List ℕ)) → length (sort_texts xs) ≡ length xs
unfolding sort_texts
length-sort_texts [] = refl
length-sort_texts (x ∷ xs) = length-insert_text x (sort_texts xs) ∙ ap suc (length-sort_texts xs)
