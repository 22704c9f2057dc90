-- ===== src/Cmd/NameMapper.antt =====
-- cmd/process-exporter/main.go: `parseNameMapper`, `nameMapperRegex.MatchAndName` and the loop over
-- `-procnames`.
use process_exporter.Prelude.{
  ℕ, suc, Bool, true, false, Option, none, some, List, [], ◌∷◌, ◌++◌, Text, bytes, Map, get, put,
  bytes_eq, nat_eq, is_empty, if◌then◌else◌, ◌==◌,
}
use process_exporter.Proc.Types.{ProcAttributes, MatchNamer}
use process_exporter.Config.Matchers.{Engine, join_words}

-- `prefixRegex`
pub record PrefixRegex (R : Type 0) : Type 0 where
  pub prefix : Text
  pub regex : R

-- `nameMapperRegex`; a name without a regular expression has nil.
abbrev pub NameMapper : Type 0 → Type 0
NameMapper R = Map Text (Option (PrefixRegex R))

pub data MapperError : Type 0 where
  odd_number_of_tokens : MapperError
  token_is_empty : ℕ → MapperError
  bad_regexp : Text → MapperError

pub data Mapped (A : Type 0) : Type 0 where
  mapped : A → Mapped A
  refused : MapperError → Mapped A

-- `strings.Split(s, ",")`
abbrev onto_token : ℕ → List Text → List Text
onto_token c [] = (c ∷ []) ∷ []
onto_token c (tok ∷ toks) = (c ∷ tok) ∷ toks

unfoldable pub split_commas : Text → List Text
split_commas [] = [] ∷ []
split_commas (c ∷ s) = let rest = split_commas s in if c == 44 then [] ∷ rest else onto_token c rest

-- `len(toks)%2 == 1`
unfoldable pub is_odd : List Text → Bool
is_odd [] = false
is_odd (tok ∷ []) = true
is_odd (name ∷ tok ∷ toks) = is_odd toks

module _ {R T : Type 0} (engine : Engine R T) where
  abbrev pub put_regex : Text → Text → Option R → NameMapper R → Mapped (NameMapper R)
  put_regex name tok none mapper = refused (bad_regexp tok)
  put_regex name tok (some r) mapper =
      mapped (put name (some (record { prefix = name ++ bytes ":"; regex = r })) mapper)

  abbrev pub then_pairs :
      Mapped (NameMapper R) → (NameMapper R → Mapped (NameMapper R)) → Mapped (NameMapper R)
  then_pairs (refused e) k = refused e
  then_pairs (mapped mapper) k = k mapper

  -- The loop over the tokens, two at a time: `i` is the index of the first of them.
  unfoldable pub put_pairs : ℕ → List Text → NameMapper R → Mapped (NameMapper R)
  put_pairs i [] mapper = mapped mapper
  put_pairs i (name ∷ []) mapper =
      if is_empty name then refused (token_is_empty i) else mapped mapper
  put_pairs i (name ∷ tok ∷ toks) mapper =
      let rest =
        then_pairs (put_regex name tok (engine.compile tok) mapper)
          (put_pairs (suc (suc i)) toks) in
      if is_empty name
      then refused (token_is_empty i)
      else if is_empty tok
      then refused (token_is_empty (suc i))
      else rest

  -- `parseNameMapper(s)`
  unfoldable pub parse_name_mapper : Text → Mapped (NameMapper R)
  unfolding split_commas is_odd put_pairs
  parse_name_mapper s =
      let parsed = put_pairs 0 (split_commas s) [] in
      if is_empty s
      then mapped []
      else if is_odd (split_commas s)
      then refused odd_number_of_tokens
      else parsed

  -- The loop over `matches[1:]`: the first that is not empty.
  unfoldable pub first_nonempty : List Text → Option Text
  first_nonempty [] = none
  first_nonempty (m ∷ matches) =
      let rest = first_nonempty matches in if is_empty m then rest else some m

  -- `matches[1:]`, where there is one; no match is nil.
  abbrev pub captures : Option (List Text) → List Text
  captures (some (whole ∷ matches)) = matches
  captures _ = []

  abbrev pub named_by : PrefixRegex R → Option Text → Bool × Text
  named_by r none = (false, [])
  named_by r (some m) = (true, r.prefix ++ m)

  -- What a match on the command line gives.
  unfoldable pub name_from : PrefixRegex R → List Text → Bool × Text
  unfolding first_nonempty join_words
  name_from r cmdline =
      named_by r (first_nonempty (captures (engine.find_submatch r.regex (join_words cmdline))))

  abbrev pub name_of_entry : ProcAttributes → Option (Option (PrefixRegex R)) → Bool × Text
  name_of_entry attrs none = (false, [])
  name_of_entry attrs (some none) = (true, attrs.name)
  name_of_entry attrs (some (some r)) = name_from r attrs.cmdline

  -- `nameMapperRegex.MatchAndName`
  unfoldable pub map_name : NameMapper R → MatchNamer
  unfolding name_from
  map_name mapper attrs = name_of_entry attrs (get attrs.name mapper)

-- `if _, ok := namemapper.mapping[s]; !ok { namemapper.mapping[s] = nil }`
abbrev pub list_name :
    {R : Type 0} → Text → Option (Option (PrefixRegex R)) → NameMapper R → NameMapper R
list_name s none mapper = put s none mapper
list_name s (some entry) mapper = mapper

-- The loop over the names of `-procnames`.
unfoldable pub list_names : {R : Type 0} → List Text → NameMapper R → NameMapper R
list_names [] mapper = mapper
list_names (s ∷ names) mapper =
    list_names names (if is_empty s then mapper else list_name s (get s mapper) mapper)
