-- ===== src/Config/Agree.antt =====
-- `cmdlineMatcher.Match` (config/config.go) from two maps of captures: where they agree.
use process_exporter.Prelude.{
  ◌≡◌, refl, sym, ◌∙◌, ◌⊎◌, inl, inr, Bool, true, false, Option, none, some, List, [], ◌∷◌, ◌++◌,
  Text, Map, get, put, get-put, length, arith, bytes_eq, nat_eq, ◌==◌, Bool-cases, IsIn, Any-append,
}
use process_exporter.Config.Matchers.{Engine, or_nil, put_captures, put_all, match_regexes}

-- The maps give the same for every key that is not among `names`.
abbrev pub Agree : List Text → Map Text Text → Map Text Text → Type 0
Agree names m m' = (k : Text) → IsIn k names ⊎ (get k m ≡ get k m')

put_captures-get :
    (k : Text) (names captures : List Text) (m m' : Map Text Text)
    → length names ≡ length captures
    → IsIn k names ⊎ (get k m ≡ get k m')
    → get k (put_captures names captures m) ≡ get k (put_captures names captures m')
unfolding put_captures
put_captures-get k [] captures m m' e (inl i) = elim i [ ]
put_captures-get k [] captures m m' e (inr same) = same
put_captures-get k (n ∷ names) [] m m' e h = ground (arith, e)
put_captures-get k (n ∷ names) (c ∷ captures) m m' e h =
    put_captures-get k names captures (put n c m) (put n c m') (omega (arith, e))
      (elim (Bool-cases (n == k)) [
        | inl same ↦ inr (get-put n k c m ∙ rw same (sym (get-put n k c m' ∙ rw same refl)))
        | inr other ↦ elim h [
          | inl i ↦ elim i [
            | inl p ↦ ground (arith, other, (bytes_eq.equal_iff n k).1 p)
            | inr r ↦ inl r
          ]
          | inr same ↦
              inr (get-put n k c m ∙ rw other (same ∙ sym (get-put n k c m' ∙ rw other refl)))
        ]
      ])

-- After the captures of `names` are put, `names` no longer make a difference.
pub put_captures-Agree :
    (names rest captures : List Text) (m m' : Map Text Text)
    → length names ≡ length captures
    → Agree (names ++ rest) m m'
    → Agree rest (put_captures names captures m) (put_captures names captures m')
put_captures-Agree names rest captures m m' e h k = elim (h k) [
  | inl i ↦ elim ((Any-append (λ y. y ≡ k) names rest).0 i) [
    | inl now ↦ inr (put_captures-get k names captures m m' e (inl now))
    | inr later ↦ inl later
  ]
  | inr same ↦ inr (put_captures-get k names captures m m' e (inr same))
]

-- They still agree where they did.
pub put_captures-Agree_same :
    (all names captures : List Text) (m m' : Map Text Text)
    → length names ≡ length captures
    → Agree all m m'
    → Agree all (put_captures names captures m) (put_captures names captures m')
put_captures-Agree_same all names captures m m' e h k = elim (h k) [
  | inl i ↦ inl i
  | inr same ↦ inr (put_captures-get k names captures m m' e (inr same))
]

-- Captures for names that are in `all` change nothing else.
put_captures-Agree_left :
    (all names captures : List Text) (m m0 : Map Text Text)
    → ((k : Text) → IsIn k names → IsIn k all)
    → Agree all m m0
    → Agree all (put_captures names captures m) m0
unfolding put_captures
put_captures-Agree_left all [] captures m m0 own h = h
put_captures-Agree_left all (n ∷ names) [] m m0 own h = h
put_captures-Agree_left all (n ∷ names) (c ∷ captures) m m0 own h =
    put_captures-Agree_left all names captures (put n c m) m0 (λ k i. own k (inr i))
      (λ k. elim (Bool-cases (n == k)) [
        | inl e ↦ inl (own k (inl ((bytes_eq.equal_iff n k).0 e)))
        | inr e ↦ elim (h k) [ inl i ↦ inl i | inr same ↦ inr (get-put n k c m ∙ rw e same) ]
      ])

abbrev or_else : Option Text → Option Text → Option Text
or_else none o = o
or_else (some c) o = some c

put_all_lem : (k : Text) (c m : Map Text Text) → get k (put_all c m) ≡ or_else (get k c) (get k m)
unfolding put_all get
put_all_lem k [] m = refl
put_all_lem k ((j, v) ∷ c) m =
    get-put j k v (put_all c m)
    ∙ elim (Bool-cases (j == k)) [ inl e ↦ rw e refl | inr e ↦ rw e (put_all_lem k c m) ]

-- What a map of captures adds depends on what it gives for each key.
pub get-put_all :
    (k : Text) (c c' m m' : Map Text Text)
    → get k c ≡ get k c'
    → get k m ≡ get k m'
    → get k (put_all c m) ≡ get k (put_all c' m')
get-put_all k c c' m m' e h = put_all_lem k c m ∙ rw (e, h) (sym (put_all_lem k c' m'))

module _ {R T : Type 0} (engine : Engine R T) where
  unfoldable pub all_names : List R → List Text
  all_names [] = []
  all_names (r ∷ rs) = engine.subexp_names r ++ all_names rs

  -- Two runs of the loop from captures that agree but on the names to come: they match alike,
  -- leave captures that agree where they did, and, if they match, everywhere.
  pub data LoopsAlike (all : List Text)
      : Bool × Option (Map Text Text) → Bool × Option (Map Text Text) → Type 0 where
    both_match :
        (m m' : Map Text Text) → Agree [] m m' → LoopsAlike all (true, some m) (true, some m')
    both_fail :
        (m m' : Map Text Text) → Agree all m m' → LoopsAlike all (false, some m) (false, some m')

  pub match_regexes-LoopsAlike :
      (all : List Text) (rs : List R) (text : Text) (m m' : Map Text Text)
      → Agree all m m'
      → Agree (all_names rs) m m'
      → LoopsAlike all
          (match_regexes engine rs text (some m))
          (match_regexes engine rs text (some m'))
  unfolding match_regexes all_names
  match_regexes-LoopsAlike all [] text m m' h k = both_match m m' k
  match_regexes-LoopsAlike all (r ∷ rs) text m m' h k =
      let names = engine.subexp_names r in
      let captures = or_nil (engine.find_submatch r text) in
      elim (Bool-cases (length names == length captures)) [
        | inl e ↦
            let len = (nat_eq.equal_iff (length names) (length captures)).0 e in
            rw e (
              match_regexes-LoopsAlike all rs text (put_captures names captures m)
                (put_captures names captures m')
                (put_captures-Agree_same all names captures m m' len h)
                (put_captures-Agree names (all_names rs) captures m m' len k))
        | inr e ↦ rw e (both_fail m m' h)
      ]

  -- The loop changes what is captured for the names of its expressions only.
  pub match_regexes-Agree :
      (all : List Text) (rs : List R) (text : Text) (m m0 : Map Text Text)
      → ((k : Text) → IsIn k (all_names rs) → IsIn k all)
      → Agree all m m0
      → (m1 : Map Text Text) × ((match_regexes engine rs text (some m)).1 ≡ some m1)
        × Agree all m1 m0
  unfolding match_regexes all_names
  match_regexes-Agree all [] text m m0 own h = (m, refl, h)
  match_regexes-Agree all (r ∷ rs) text m m0 own h =
      let names = engine.subexp_names r in
      let captures = or_nil (engine.find_submatch r text) in
      elim (Bool-cases (length names == length captures)) [
        | inl e ↦ rw e (
            match_regexes-Agree all rs text (put_captures names captures m) m0
              (λ k i. own k ((Any-append (λ y. y ≡ k) names (all_names rs)).1 (inr i)))
              (put_captures-Agree_left all names captures m m0
                (λ k i. own k ((Any-append (λ y. y ≡ k) names (all_names rs)).1 (inl i))) h))
        | inr e ↦ rw e (m, refl, h)
      ]
