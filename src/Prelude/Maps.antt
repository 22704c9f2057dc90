-- ===== src/Prelude/Maps.antt =====
-- Go's maps as association lists with one entry for each key; iteration goes through the entries
-- in the order in which they stand.
use mathlib.Core.Path.{◌≡◌, refl, subst}
use mathlib.Core.Option.{Option, none, some}
use mathlib.Core.List.{List, [], ◌∷◌}
use native.Mathlib.Omega.{arith}
use process_exporter.Prelude.Tests.{if◌then◌else◌, Bool-cases, some_inj}
use process_exporter.Prelude.Lists.{All}
use mathlib.Core.Logic.{inl, inr}
use process_exporter.Prelude.Equality.{Eq, ◌==◌, eq_refl}

abbrev pub Map {ℓ κ} : Type ℓ → Type κ → Type (ℓ ⊔ κ)
Map K V = List (K × V)

module _ {ℓ κ} {K : Type ℓ} {V : Type κ} ⦃e : Eq K⦄ where
  -- `v, ok := m[k]`
  unfoldable pub get : K → Map K V → Option V
  get k [] = none
  get k ((j, v) ∷ m) = if j == k then some v else get k m

  -- `m[k] = v`
  unfoldable pub put : K → V → Map K V → Map K V
  put k v [] = (k, v) ∷ []
  put k v ((j, w) ∷ m) = if j == k then (k, v) ∷ m else (j, w) ∷ put k v m

  -- `delete(m, k)`
  unfoldable pub remove : K → Map K V → Map K V
  remove k [] = []
  remove k ((j, v) ∷ m) = let rest = remove k m in if j == k then rest else (j, v) ∷ rest

  pub get-put :
      (k j : K) (v : V) (m : Map K V) → get j (put k v m) ≡ (if k == j then some v else get j m)
  unfolding get put
  get-put k j v [] = refl
  get-put k j v ((i, w) ∷ m) =
      ground (arith, e.equal_iff k j, e.equal_iff i k, e.equal_iff i j, get-put k j v m)

  pub get-remove : (k j : K) (m : Map K V) → get j (remove k m) ≡ (if k == j then none else get j m)
  unfolding get remove
  get-remove k j [] = ground arith
  get-remove k j ((i, w) ∷ m) =
      ground (arith, e.equal_iff k j, e.equal_iff i k, e.equal_iff i j, get-remove k j m)

  pub get-put_self : (k : K) (v : V) (m : Map K V) → get k (put k v m) ≡ some v
  get-put_self k v m = ground (arith, get-put k k v m, eq_refl k)

  -- No two entries have one key, as in every map of Go.
  abbrev pub Distinct : Map K V → Type κ
  Distinct [] = Unit
  Distinct ((k, v) ∷ m) = (get k m ≡ none) × Distinct m

  pub put-Distinct : (k : K) (v : V) (m : Map K V) → Distinct m → Distinct (put k v m)
  unfolding get put
  put-Distinct k v [] h = (refl, tt)
  put-Distinct k v ((j, w) ∷ m) h =
      ground (arith, put-Distinct k v m h.1, get-put k j v m, e.equal_iff j k, e.equal_iff k j)

  pub remove-Distinct : (k : K) (m : Map K V) → Distinct m → Distinct (remove k m)
  unfolding get remove
  remove-Distinct k [] h = tt
  remove-Distinct k ((j, w) ∷ m) h =
      ground (arith, remove-Distinct k m h.1, get-remove k j m, e.equal_iff j k, e.equal_iff k j)

  -- A property of all values of a map.
  abbrev pub AllValues {ι} : (V → Type ι) → Map K V → Type ι
  AllValues P m = All (λ entry. P entry.1) m

  pub AllValues-get {ι} :
      (P : V → Type ι) (k : K) (v : V) (m : Map K V) → AllValues P m → get k m ≡ some v → P v
  unfolding get
  AllValues-get P k v [] h e = cc
  AllValues-get P k v ((j, w) ∷ m) h e = elim (Bool-cases (j == k)) [
    | inl same ↦ subst P (some_inj (rw same at e)) h.0
    | inr other ↦ AllValues-get P k v m h.1 (rw other at e)
  ]

  pub AllValues-put {ι} :
      (P : V → Type ι) (k : K) (v : V) (m : Map K V) → AllValues P m → P v → AllValues P (put k v m)
  unfolding put
  AllValues-put P k v [] h p = (p, tt)
  AllValues-put P k v ((j, w) ∷ m) h p = elim (Bool-cases (j == k)) [
    | inl e ↦ rw e (p, h.1)
    | inr e ↦ rw e (h.0, AllValues-put P k v m h.1 p)
  ]
