-- ===== src/Config/Alike.antt =====
-- Two states of the matchers of config/config.go whose captures may differ, and what they make of
-- one process.
use process_exporter.Prelude.{
  ◌≡◌, refl, ap, Bool, true, false, Option, some, List, [], ◌∷◌, Text, Map, inl, inr, get, bytes_eq,
}
use mathlib.Core.Path.{fun_ext}
use process_exporter.Proc.Types.{ProcAttributes}
use process_exporter.Config.Matchers.{
  Engine, Matcher, comm_matcher, exe_matcher, cmdline_matcher, join_words, match_one, keep_rest,
  match_every, all_captures, exe_base_of, exe_full_of, params_of, name_if,
}
use process_exporter.Config.Agree.{
  Agree, all_names, LoopsAlike, both_match, both_fail, match_regexes-LoopsAlike, get-put_all,
}

module _ {R T : Type 0} (engine : Engine R T) where
  -- Two states of one matcher: the captures agree but on the names of `scope`.
  pub data Alike (scope : List R → List Text) : Matcher R → Matcher R → Type 0 where
    comm_alike : (comms : Map Text Bool) → Alike scope (comm_matcher comms) (comm_matcher comms)
    exe_alike : (exes : Map Text Text) → Alike scope (exe_matcher exes) (exe_matcher exes)
    cmdline_alike :
        (rs : List R) (m m' : Map Text Text)
        → Agree (scope rs) m m'
        → Alike scope (cmdline_matcher rs (some m)) (cmdline_matcher rs (some m'))

  pub data ListAlike (scope : List R → List Text)
      : List (Matcher R) → List (Matcher R) → Type 0 where
    nil_alike : ListAlike scope [] []
    cons_alike :
        {m m' : Matcher R} {ms ms' : List (Matcher R)}
        → Alike scope m m'
        → ListAlike scope ms ms'
        → ListAlike scope (m ∷ ms) (m' ∷ ms')

  abbrev pub own_names : List R → List Text
  own_names rs = all_names engine rs

  abbrev pub no_names : List R → List Text
  no_names rs = []

  Agree-no_names : (names : List Text) (m m' : Map Text Text) → Agree [] m m' → Agree names m m'
  Agree-no_names names m m' h k = elim (h k) [ inl i ↦ elim i [ ] | inr same ↦ inr same ]

  -- What two states of a matcher make of one process.
  pub data OneAlike : Bool × Matcher R → Bool × Matcher R → Type 0 where
    one_matches :
        {m m' : Matcher R}
        → Alike no_names m m'
        → Alike own_names m m'
        → OneAlike (true, m) (true, m')
    one_fails : {m m' : Matcher R} → Alike own_names m m' → OneAlike (false, m) (false, m')

  one_of :
      (b : Bool) {m m' : Matcher R}
      → Alike no_names m m'
      → Alike own_names m m'
      → OneAlike (b, m) (b, m')
  one_of true a o = one_matches a o
  one_of false a o = one_fails o

  of_loops :
      (rs : List R) {x y : Bool × Option (Map Text Text)}
      → LoopsAlike engine (own_names rs) x y
      → OneAlike (x.0, cmdline_matcher rs x.1) (y.0, cmdline_matcher rs y.1)
  of_loops rs (both_match m m' h) =
      one_matches (cmdline_alike rs m m' h)
        (cmdline_alike rs m m' (Agree-no_names (own_names rs) m m' h))
  of_loops rs (both_fail m m' h) = one_fails (cmdline_alike rs m m' h)

  match_one-OneAlike :
      {m m' : Matcher R} (attrs : ProcAttributes)
      → Alike own_names m m'
      → OneAlike (match_one engine m attrs) (match_one engine m' attrs)
  unfolding match_one
  match_one-OneAlike attrs (comm_alike comms) = one_of _ (comm_alike comms) (comm_alike comms)
  match_one-OneAlike attrs (exe_alike exes) = one_of _ (exe_alike exes) (exe_alike exes)
  match_one-OneAlike attrs (cmdline_alike rs m m' h) =
      of_loops rs
        (match_regexes-LoopsAlike engine (own_names rs) rs (join_words attrs.cmdline) m m' h h)

  pub data EveryAlike : Bool × List (Matcher R) → Bool × List (Matcher R) → Type 0 where
    every_matches :
        {ms ms' : List (Matcher R)}
        → ListAlike no_names ms ms'
        → ListAlike own_names ms ms'
        → EveryAlike (true, ms) (true, ms')
    every_fails :
        {ms ms' : List (Matcher R)}
        → ListAlike own_names ms ms'
        → EveryAlike (false, ms) (false, ms')

  keep_rest-EveryAlike :
      (m m' : Matcher R) {ms ms' : List (Matcher R)} {x y : Bool × Matcher R}
      {r s : Bool × List (Matcher R)}
      → ListAlike own_names ms ms'
      → OneAlike x y
      → EveryAlike r s
      → EveryAlike (keep_rest m ms x r) (keep_rest m' ms' y s)
  keep_rest-EveryAlike m m' old (one_matches a o) (every_matches b q) =
      every_matches (cons_alike a b) (cons_alike o q)
  keep_rest-EveryAlike m m' old (one_matches a o) (every_fails q) = every_fails (cons_alike o q)
  keep_rest-EveryAlike m m' old (one_fails o) r = every_fails (cons_alike o old)

  pub match_every-EveryAlike :
      {ms ms' : List (Matcher R)} (attrs : ProcAttributes)
      → ListAlike own_names ms ms'
      → EveryAlike (match_every engine ms attrs) (match_every engine ms' attrs)
  unfolding match_every
  match_every-EveryAlike attrs nil_alike = every_matches nil_alike nil_alike
  match_every-EveryAlike attrs (cons_alike {m = m} {m' = m'} a rest) =
      keep_rest-EveryAlike m m' rest (match_one-OneAlike attrs a)
        (match_every-EveryAlike attrs rest)

  get-all_captures :
      {ms ms' : List (Matcher R)} (k : Text) (c c' : Map Text Text)
      → ListAlike no_names ms ms'
      → get k c ≡ get k c'
      → get k (all_captures engine ms c) ≡ get k (all_captures engine ms' c')
  unfolding all_captures
  get-all_captures k c c' nil_alike e = e
  get-all_captures k c c' (cons_alike (comm_alike comms) rest) e = get-all_captures k c c' rest e
  get-all_captures k c c' (cons_alike (exe_alike exes) rest) e = get-all_captures k c c' rest e
  get-all_captures k c c' (cons_alike (cmdline_alike rs m m' h) rest) e =
      get-all_captures k _ _ rest
        (get-put_all k m m' c c' (elim (h k) [ inl i ↦ elim i [ ] | inr same ↦ same ]) e)

  params_of-ListAlike :
      {ms ms' : List (Matcher R)} (attrs : ProcAttributes)
      → ListAlike no_names ms ms'
      → params_of engine ms attrs ≡ params_of engine ms' attrs
  unfolding params_of
  params_of-ListAlike attrs rest =
      ap
        (λ f. record {
          cgroups = attrs.cgroups;
          comm = attrs.name;
          exe_base = exe_base_of engine attrs attrs.cmdline;
          exe_full = exe_full_of attrs attrs.cmdline;
          username = attrs.username;
          pid = attrs.pid;
          start_time = attrs.start_time;
          captured = f;
        })
        (fun_ext (λ k. get-all_captures k [] [] rest refl))

  pub name_if-EveryAlike :
      (template : T) (attrs : ProcAttributes) {x y : Bool × List (Matcher R)}
      → EveryAlike x y
      → (name_if engine template attrs x ≡ name_if engine template attrs y)
        × ListAlike own_names x.1 y.1
  name_if-EveryAlike template attrs (every_matches a o) =
      (ap (λ params. some (engine.execute template params)) (params_of-ListAlike attrs a), o)
  name_if-EveryAlike template attrs (every_fails o) = (refl, o)
