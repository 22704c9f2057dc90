-- ===== src/Config/Matchers.antt =====
-- config/config.go: the matchers and namers. `regexp`, `text/template` and `filepath.Base` are the
-- fields of a record.
use process_exporter.Prelude.{
  ℕ, Bool, true, false, Option, none, some, List, [], ◌∷◌, ◌++◌, Text, Time, Map, get, put, length,
  bytes_eq, nat_eq, ◌==◌, if◌then◌else◌, is_empty,
}
use process_exporter.Proc.Types.{ProcAttributes}

-- The fields that a name template sees. Of `Matches` it sees what each key maps to.
pub record TemplateParams : Type 0 where
  pub cgroups : List Text
  pub comm : Text
  pub exe_base : Text
  pub exe_full : Text
  pub username : Text
  pub pid : ℕ
  pub start_time : Time
  pub captured : Text → Option Text

-- What the matchers ask of regular expressions `R` and of templates `T`. `find_submatch` is
-- `FindStringSubmatch`, where `none` is nil; `compile` and `parse_template` fail with `none`.
pub record Engine (R T : Type 0) : Type 0 where
  pub compile : Text → Option R
  pub find_submatch : R → Text → Option (List Text)
  pub subexp_names : R → List Text
  pub base : Text → Text
  pub parse_template : Text → Option T
  pub execute : T → TemplateParams → Text

-- The implementations of `Matcher`; `captures` is `none` where the source has a nil map.
pub data Matcher (R : Type 0) : Type 0 where
  comm_matcher : Map Text Bool → Matcher R
  exe_matcher : Map Text Text → Matcher R
  cmdline_matcher : List R → Option (Map Text Text) → Matcher R

pub record NamedMatcher (R T : Type 0) : Type 0 where
  pub matchers : List (Matcher R)
  pub template : T

-- `strings.Join(words, " ")`
unfoldable pub join_words : List Text → Text
join_words [] = []
join_words (w ∷ []) = w
join_words (w ∷ x ∷ words) = w ++ 32 ∷ join_words (x ∷ words)

abbrev pub or_nil : Option (List Text) → List Text
or_nil none = []
or_nil (some captures) = captures

-- The inner loop of `cmdlineMatcher.Match`.
unfoldable pub put_captures : List Text → List Text → Map Text Text → Map Text Text
put_captures [] captures m = m
put_captures (name ∷ names) [] m = m
put_captures (name ∷ names) (c ∷ captures) m = put_captures names captures (put name c m)

-- The entries of one map put into another.
unfoldable pub put_all : Map Text Text → Map Text Text → Map Text Text
put_all [] m = m
put_all ((k, v) ∷ captures) m = put k v (put_all captures m)

abbrev pub found : {A : Type 0} → Option A → Bool
found none = false
found (some a) = true

-- `fqpath, found := m.exes[thisbase]` and what follows
abbrev pub path_matches : Text → Option Text → Bool
path_matches exe none = false
path_matches exe (some path) = if is_empty path then true else path == exe

-- `exebase` and `exefull` without a command line are the name.
abbrev pub exe_full_of : ProcAttributes → List Text → Text
exe_full_of attrs [] = attrs.name
exe_full_of attrs (exe ∷ args) = exe

abbrev pub keep_rest {ℓ} : {A : Type ℓ} → A → List A → Bool × A → Bool × List A → Bool × List A
keep_rest m ms (true, m') (b, ms') = (b, m' ∷ ms')
keep_rest m ms (false, m') rest = (false, m' ∷ ms)

-- `if matched { return true, name }` in the loop over the namers.
abbrev pub first_of {ℓ} :
    {A : Type ℓ} → List A → Option Text × A → Option Text × List A → Option Text × List A
first_of ms (some name, m') rest = (some name, m' ∷ ms)
first_of ms (none, m') (name, ms') = (name, m' ∷ ms')

module _ {R T : Type 0} (engine : Engine R T) where
  abbrev pub exe_base_of : ProcAttributes → List Text → Text
  exe_base_of attrs [] = attrs.name
  exe_base_of attrs (exe ∷ args) = engine.base exe

  abbrev pub exe_matches : Map Text Text → List Text → Bool
  exe_matches exes [] = false
  exe_matches exes (exe ∷ args) = path_matches exe (get (engine.base exe) exes)

  -- The loop of `cmdlineMatcher.Match`: the captures change even if a later expression fails.
  unfoldable pub match_regexes :
      List R → Text → Option (Map Text Text) → Bool × Option (Map Text Text)
  unfolding put_captures
  match_regexes [] text captures = (true, captures)
  match_regexes (r ∷ rs) text none = (false, none)
  match_regexes (r ∷ rs) text (some m) =
      let names = engine.subexp_names r in
      let captures = or_nil (engine.find_submatch r text) in
      let rest = match_regexes rs text (some (put_captures names captures m)) in
      if length names == length captures then rest else (false, some m)

  -- `Match` of each implementation, with the matcher that it leaves.
  unfoldable pub match_one : Matcher R → ProcAttributes → Bool × Matcher R
  unfolding match_regexes
  match_one (comm_matcher comms) attrs = (found (get attrs.name comms), comm_matcher comms)
  match_one (exe_matcher exes) attrs = (exe_matches exes attrs.cmdline, exe_matcher exes)
  match_one (cmdline_matcher rs captures) attrs =
      let (matched, captures') = match_regexes rs (join_words attrs.cmdline) captures in
      (matched, cmdline_matcher rs captures')

  -- `andMatcher.Match`: the first that fails ends the loop.
  unfoldable pub match_every : List (Matcher R) → ProcAttributes → Bool × List (Matcher R)
  unfolding match_one
  match_every [] attrs = (true, [])
  match_every (m ∷ ms) attrs = keep_rest m ms (match_one m attrs) (match_every ms attrs)

  -- The captures of all `cmdlineMatcher`s.
  unfoldable pub all_captures : List (Matcher R) → Map Text Text → Map Text Text
  unfolding put_all
  all_captures [] m = m
  all_captures (comm_matcher comms ∷ ms) m = all_captures ms m
  all_captures (exe_matcher exes ∷ ms) m = all_captures ms m
  all_captures (cmdline_matcher rs none ∷ ms) m = all_captures ms m
  all_captures (cmdline_matcher rs (some captures) ∷ ms) m = all_captures ms (put_all captures m)

  unfoldable pub params_of : List (Matcher R) → ProcAttributes → TemplateParams
  unfolding all_captures
  params_of ms attrs = record {
    cgroups = attrs.cgroups;
    comm = attrs.name;
    exe_base = exe_base_of attrs attrs.cmdline;
    exe_full = exe_full_of attrs attrs.cmdline;
    username = attrs.username;
    pid = attrs.pid;
    start_time = attrs.start_time;
    captured = λ k. get k (all_captures ms []);
  }

  abbrev pub name_if : T → ProcAttributes → Bool × List (Matcher R) → Option Text
  name_if template attrs (true, ms) = some (engine.execute template (params_of ms attrs))
  name_if template attrs (false, ms) = none

  -- `(m *matchNamer) MatchAndName(nacl)`: `none` is `false, ""`.
  unfoldable pub match_and_name : NamedMatcher R T → ProcAttributes → Option Text × NamedMatcher R T
  unfolding match_every params_of
  match_and_name m attrs =
      let r = match_every m.matchers attrs in
      (name_if m.template attrs r, record m { matchers = r.1 })

  -- `(f FirstMatcher) MatchAndName(nacl)`
  unfoldable pub first_match :
      List (NamedMatcher R T) → ProcAttributes → Option Text × List (NamedMatcher R T)
  unfolding match_and_name
  first_match [] attrs = (none, [])
  first_match (m ∷ ms) attrs = first_of ms (match_and_name m attrs) (first_match ms attrs)
