-- ===== src/Cmd/Listed.antt =====
-- What the command line selects (cmd/process-exporter/main.go): which lists of tokens are accepted, and
-- which names `-namemapping` and `-procnames` give together.
use process_exporter.Prelude.{
  ℕ, suc, ◌≡◌, ◌≢◌, ◌↔◌, ◌⊎◌, inl, inr, refl, sym, ap, ◌∙◌, true, false, Bool-cases, Option, none,
  some, List, [], ◌∷◌, Text, get, put, get-put, bytes_eq, is_empty, if◌then◌else◌, ◌==◌, arith,
  IsIn, ◌++◌, bytes,
}
use process_exporter.Proc.Types.{ProcAttributes}
use process_exporter.Cmd.NameMapper.{
  then_pairs, put_regex, put_pairs, is_odd, split_commas, parse_name_mapper, Mapped, mapped,
  PrefixRegex, NameMapper, name_from, map_name, list_name, list_names,
}
use process_exporter.Config.Matchers.{Engine}

is_empty_iff : (s : Text) → (is_empty s ≡ true) ↔ (s ≡ [])
is_empty_iff [] = ((λ h. refl), λ h. refl)
is_empty_iff (c ∷ s) = ((λ h. cc), λ h. cc)

nonempty : (s : Text) → is_empty s ≡ false → s ≢ []
nonempty [] h e = cc
nonempty (c ∷ s) h e = cc

empty_of : (s : Text) → s ≢ [] → is_empty s ≡ false
empty_of [] h = elim (h refl) [ ]
empty_of (c ∷ s) h = refl

no_entry : {A : Type 0} {a : A} → none ≡ some a → ⊥
no_entry e = cc

abbrev listed_entry : {R : Type 0} → Option (Option (PrefixRegex R))
listed_entry = some none

not_same :
    (R : Type 0) (s n : Text) (names : List Text)
    → ¬ IsIn n (s ∷ names)
    → (if s == n then listed_entry {R = R} else none) ≡ none
not_same R s n names out = elim (Bool-cases (s == n)) [
  | inl same ↦ elim (out (inl ((bytes_eq.equal_iff s n).0 same))) [ ]
  | inr differs ↦ rw differs refl
]

module _ {R : Type 0} where
  list_name-known :
      (s n : Text) (entry : Option (PrefixRegex R)) (mapper : NameMapper R)
      (there : Option (Option (PrefixRegex R)))
      → get s mapper ≡ there
      → get n mapper ≡ some entry
      → get n (list_name s there mapper) ≡ some entry
  list_name-known s n entry mapper (some other) at known = known
  list_name-known s n entry mapper none at known = elim (Bool-cases (s == n)) [
    | inl same ↦
        elim (no_entry
          (sym at ∙ ap (λ x. get x mapper) ((bytes_eq.equal_iff s n).0 same) ∙ known)) [ ]
    | inr differs ↦ rw (get-put s n none mapper, differs) known
  ]

  -- A name that is not there is added if it is the one that is listed.
  list_name-new :
      (s n : Text) (mapper : NameMapper R) (there : Option (Option (PrefixRegex R)))
      → get s mapper ≡ there
      → get n mapper ≡ none
      → get n (list_name s there mapper) ≡ (if s == n then some none else none)
  list_name-new s n mapper none at new = rw (get-put s n none mapper, new) refl
  list_name-new s n mapper (some other) at new = elim (Bool-cases (s == n)) [
    | inl same ↦
        elim (no_entry
          (sym new ∙ ap (λ x. get x mapper) (sym ((bytes_eq.equal_iff s n).0 same)) ∙ at)) [ ]
    | inr differs ↦ rw (differs, new) refl
  ]

  list_names-known :
      (names : List Text) (n : Text) (entry : Option (PrefixRegex R)) (mapper : NameMapper R)
      → get n mapper ≡ some entry
      → get n (list_names names mapper) ≡ some entry
  unfolding list_names
  list_names-known [] n entry mapper known = known
  list_names-known (s ∷ names) n entry mapper known = elim (Bool-cases (is_empty s)) [
    | inl empty ↦ rw empty (list_names-known names n entry mapper known)
    | inr there ↦ rw there (
        list_names-known names n entry (list_name s (get s mapper) mapper)
          (list_name-known s n entry mapper (get s mapper) refl known))
  ]

  list_names-listed :
      (names : List Text) (n : Text) (mapper : NameMapper R)
      → n ≢ []
      → get n mapper ≡ none
      → IsIn n names
      → get n (list_names names mapper) ≡ some none
  unfolding list_names
  list_names-listed [] n mapper proper new i = elim i [ ]
  list_names-listed (s ∷ names) n mapper proper new i = elim (Bool-cases (is_empty s)) [
    | inl empty ↦ rw empty (
        list_names-listed names n mapper proper new (elim i [
          | inl e ↦ elim (proper (sym e ∙ (is_empty_iff s).0 empty)) [ ]
          | inr later ↦ later
        ]))
    | inr there ↦ rw there (elim (Bool-cases (s == n)) [
      | inl same ↦
          list_names-known names n none (list_name s (get s mapper) mapper)
            (list_name-new s n mapper (get s mapper) refl new ∙ rw same refl)
      | inr differs ↦
          list_names-listed names n (list_name s (get s mapper) mapper) proper
            (list_name-new s n mapper (get s mapper) refl new ∙ rw differs refl)
            (elim i [
              | inl e ↦ ground (arith, differs, (bytes_eq.equal_iff s n).1 e)
              | inr later ↦ later
            ])
    ])
  ]

  list_names-unlisted :
      (names : List Text) (n : Text) (mapper : NameMapper R)
      → get n mapper ≡ none
      → ¬ IsIn n names
      → get n (list_names names mapper) ≡ none
  unfolding list_names
  list_names-unlisted [] n mapper new out = new
  list_names-unlisted (s ∷ names) n mapper new out = elim (Bool-cases (is_empty s)) [
    | inl empty ↦ rw empty (list_names-unlisted names n mapper new (λ i. out (inr i)))
    | inr there ↦ rw there (
        list_names-unlisted names n (list_name s (get s mapper) mapper)
          (list_name-new s n mapper (get s mapper) refl new ∙ not_same R s n names out)
          (λ i. out (inr i)))
  ]

module _ {R T : Type 0} (engine : Engine R T) where
  -- Whatever names are listed with `-procnames`: a process whose name has a regular expression in
  -- `-namemapping` is named by the match of that expression alone, or ignored where there is none.
  pub mapped_name_ignores_list :
      (names : List Text) (mapper : NameMapper R) (attrs : ProcAttributes) (r : PrefixRegex R)
      → get attrs.name mapper ≡ some (some r)
      → map_name engine (list_names names mapper) attrs ≡ name_from engine r attrs.cmdline
  unfolding map_name
  mapped_name_ignores_list names mapper attrs r e =
      rw (list_names-known names attrs.name (some r) mapper e) refl

  -- A process whose name is not in `-namemapping` is named by its own name if that is listed with
  -- `-procnames` and not empty, and ignored if it is not listed.
  pub listed_name_is_tracked :
      (names : List Text) (mapper : NameMapper R) (attrs : ProcAttributes)
      → get attrs.name mapper ≡ none
      → ((attrs.name ≢ [])
          → IsIn attrs.name names
          → map_name engine (list_names names mapper) attrs ≡ (true, attrs.name))
        × (¬ IsIn attrs.name names → map_name engine (list_names names mapper) attrs ≡ (false, []))
  unfolding map_name
  listed_name_is_tracked names mapper attrs new = (
    (λ proper i. rw (list_names-listed names attrs.name mapper proper new i) refl),
    λ out. rw (list_names-unlisted names attrs.name mapper new out) refl,
  )

  -- Names and regular expressions in turn, none of them empty, and each expression compiles.
  abbrev pub AreAccepted : List Text → Type 0
  AreAccepted [] = Unit
  AreAccepted (name ∷ []) = ⊥
  AreAccepted (name ∷ tok ∷ toks) =
      (name ≢ []) × (tok ≢ []) × ((r : R) × (engine.compile tok ≡ some r)) × AreAccepted toks

  -- What follows an expression that compiles.
  compiled :
      (name tok : Text) (mapper m : NameMapper R) (k : NameMapper R → Mapped (NameMapper R))
      (c : Option R)
      → then_pairs engine (put_regex engine name tok c mapper) k ≡ mapped m
      → ((r : R) × (c ≡ some r)) × ((mapper' : NameMapper R) × (k mapper' ≡ mapped m))
  compiled name tok mapper m k none h = cc
  compiled name tok mapper m k (some r) h = ((r, refl), (_, h))

  accepted :
      (i : ℕ) (toks : List Text) (mapper m : NameMapper R)
      → is_odd toks ≡ false
      → put_pairs engine i toks mapper ≡ mapped m
      → AreAccepted toks
  unfolding put_pairs is_odd
  accepted i [] mapper m even h = tt
  accepted i (name ∷ []) mapper m even h = cc
  accepted i (name ∷ tok ∷ toks) mapper m even h = elim (Bool-cases (is_empty name)) [
    | inl empty ↦ ground (arith, rw empty at h)
    | inr proper ↦ elim (Bool-cases (is_empty tok)) [
      | inl empty ↦ ground (arith, rw (proper, empty) at h)
      | inr proper' ↦
          let (there, (mapper', rest)) =
            compiled name tok mapper m (put_pairs engine (suc (suc i)) toks) (engine.compile tok)
              (rw (proper, proper') at h) in
          (
            nonempty name proper,
            nonempty tok proper',
            there,
            accepted (suc (suc i)) toks mapper' m even rest,
          )
    ]
  ]

  accepts :
      (i : ℕ) (toks : List Text) (mapper : NameMapper R)
      → AreAccepted toks
      → (is_odd toks ≡ false) × ((m : NameMapper R) × (put_pairs engine i toks mapper ≡ mapped m))
  unfolding put_pairs is_odd
  accepts i [] mapper h = (refl, (mapper, refl))
  accepts i (name ∷ []) mapper h = elim h [ ]
  accepts i (name ∷ tok ∷ toks) mapper (proper, proper', (r, c), h) =
      let (even, (m, rest)) =
        accepts (suc (suc i)) toks
          (put name (some (record { prefix = name ++ bytes ":"; regex = r })) mapper) h in
      (even, (m, rw (empty_of name proper, empty_of tok proper', c) rest))

  -- `-namemapping` is accepted exactly if it is empty, or if its tokens between commas are names and
  -- regular expressions in turn, none of them empty, and each expression compiles.
  pub parse_name_mapper_accepts :
      (s : Text)
      → ((m : NameMapper R) × (parse_name_mapper engine s ≡ mapped m))
        ↔ ((s ≡ []) ⊎ AreAccepted (split_commas s))
  unfolding parse_name_mapper
  parse_name_mapper_accepts [] = ((λ h. inl refl), λ h. ([], refl))
  parse_name_mapper_accepts (b ∷ s) = (
    (λ (m, h). elim (Bool-cases (is_odd (split_commas (b ∷ s)))) [
      | inl odd ↦ ground (arith, rw odd at h)
      | inr even ↦ inr (accepted 0 (split_commas (b ∷ s)) [] m even (rw even at h))
    ]),
    λ h. elim h [
      | inl e ↦ elim (nonempty (b ∷ s) refl e) [ ]
      | inr good ↦
          let (even, (m, parsed)) = accepts 0 (split_commas (b ∷ s)) [] good in
          (m, rw (even, parsed) refl)
    ],
  )
