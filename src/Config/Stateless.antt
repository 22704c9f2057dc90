-- ===== src/Config/Stateless.antt =====
-- `FirstMatcher.MatchAndName` (config/config.go) keeps captures between calls, and yet names every
-- process as if it were the first.
use process_exporter.Prelude.{
  ◌≡◌, refl, sym, ap, subst, Bool, true, false, Option, none, some, List, [], ◌∷◌, Text, inr,
  bytes_eq, is_empty, if◌then◌else◌, arith, All, All-append, All,
}
use process_exporter.Proc.Types.{ProcAttributes}
use process_exporter.Config.Matchers.{
  Engine, Matcher, cmdline_matcher, NamedMatcher, join_words, match_one, keep_rest, match_every,
  first_of, first_match,
}
use process_exporter.Config.Rules.{
  MatcherGroup, to_config, ok, comm_part, exe_part, cmdline_part, named, named_matcher, ok_inj,
  >>=-eq-ok, compile_all, parsed_template, default_template,
}
use process_exporter.Config.Agree.{match_regexes-Agree}
use process_exporter.Config.Alike.{
  Alike, comm_alike, exe_alike, cmdline_alike, ListAlike, nil_alike, cons_alike, own_names,
  match_every-EveryAlike, name_if-EveryAlike,
}

module _ {R T : Type 0} (engine : Engine R T) where
  -- Two states of one configuration.
  pub data NamersAlike : List (NamedMatcher R T) → List (NamedMatcher R T) → Type 0 where
    none_alike : NamersAlike [] []
    also_alike :
        (template : T) {ms ms' : List (Matcher R)} {rest rest' : List (NamedMatcher R T)}
        → ListAlike engine (own_names engine) ms ms'
        → NamersAlike rest rest'
        → NamersAlike
            (record { matchers = ms; template = template } ∷ rest)
            (record { matchers = ms'; template = template } ∷ rest')

  first_of_name :
      (o o' : Option Text) (m m' : NamedMatcher R T) (ms ms' : List (NamedMatcher R T))
      (r r' : Option Text × List (NamedMatcher R T))
      → o ≡ o'
      → r.0 ≡ r'.0
      → (first_of ms (o, m) r).0 ≡ (first_of ms' (o', m') r').0
  first_of_name none none m m' ms ms' r r' e h = h
  first_of_name (some name) (some name') m m' ms ms' r r' e h = e
  first_of_name none (some name') m m' ms ms' r r' e h = ground (arith, e)
  first_of_name (some name) none m m' ms ms' r r' e h = ground (arith, e)

  first_match-NamersAlike :
      {ms ms' : List (NamedMatcher R T)} (attrs : ProcAttributes)
      → NamersAlike ms ms'
      → (first_match engine ms attrs).0 ≡ (first_match engine ms' attrs).0
  unfolding first_match
  first_match-NamersAlike attrs none_alike = refl
  first_match-NamersAlike attrs (also_alike template {ms = ms} {ms' = ms'} a rest) =
      first_of_name _ _ _ _ _ _ _ _
        (name_if-EveryAlike engine template attrs (match_every-EveryAlike engine attrs a)).0
        (first_match-NamersAlike attrs rest)

  match_one-Alike :
      {m m0 : Matcher R} (attrs : ProcAttributes)
      → Alike engine (own_names engine) m m0
      → Alike engine (own_names engine) (match_one engine m attrs).1 m0
  unfolding match_one
  match_one-Alike attrs (comm_alike comms) = comm_alike comms
  match_one-Alike attrs (exe_alike exes) = exe_alike exes
  match_one-Alike attrs (cmdline_alike rs m m0 h) =
      let (m1, e, h1) =
        match_regexes-Agree engine ((own_names engine) rs) rs (join_words attrs.cmdline) m m0
          (λ k i. i) h in
      subst
        (λ c. Alike engine (own_names engine) (cmdline_matcher rs c) (cmdline_matcher rs (some m0)))
        (sym e) (cmdline_alike rs m1 m0 h1)

  keep_rest-ListAlike :
      {m0 : Matcher R} {ms ms0 : List (Matcher R)} (m : Matcher R) (x : Bool × Matcher R)
      (r : Bool × List (Matcher R))
      → Alike engine (own_names engine) x.1 m0
      → ListAlike engine (own_names engine) ms ms0
      → ListAlike engine (own_names engine) r.1 ms0
      → ListAlike engine (own_names engine) (keep_rest m ms x r).1 (m0 ∷ ms0)
  keep_rest-ListAlike m (true, m1) (b, ms1) a old new = cons_alike a new
  keep_rest-ListAlike m (false, m1) r a old new = cons_alike a old

  match_every-ListAlike :
      {ms ms0 : List (Matcher R)} (attrs : ProcAttributes)
      → ListAlike engine (own_names engine) ms ms0
      → ListAlike engine (own_names engine) (match_every engine ms attrs).1 ms0
  unfolding match_every
  match_every-ListAlike attrs nil_alike = nil_alike
  match_every-ListAlike attrs (cons_alike {m = m} a rest) =
      keep_rest-ListAlike m _ _ (match_one-Alike attrs a) rest (match_every-ListAlike attrs rest)

  first_of-NamersAlike :
      (o : Option Text) (template : T) {ms ms0 : List (Matcher R)}
      {rest rest0 : List (NamedMatcher R T)} (r : Option Text × List (NamedMatcher R T))
      → ListAlike engine (own_names engine) ms ms0
      → NamersAlike rest rest0
      → NamersAlike r.1 rest0
      → NamersAlike
          (first_of rest (o, record { matchers = ms; template = template }) r).1
          (record { matchers = ms0; template = template } ∷ rest0)
  first_of-NamersAlike none template (name, rest1) a old new = also_alike template a new
  first_of-NamersAlike (some name) template r a old new = also_alike template a old

  -- A call leaves a state of the same configuration.
  first_match-NamersAlike_left :
      {ms ms0 : List (NamedMatcher R T)} (attrs : ProcAttributes)
      → NamersAlike ms ms0
      → NamersAlike (first_match engine ms attrs).1 ms0
  unfolding first_match
  first_match-NamersAlike_left attrs none_alike = none_alike
  first_match-NamersAlike_left attrs (also_alike template a rest) =
      first_of-NamersAlike _ template _ (match_every-ListAlike attrs a) rest
        (first_match-NamersAlike_left attrs rest)

  -- The state after a call for each process of a list.
  unfoldable pub after_calls :
      List ProcAttributes → List (NamedMatcher R T) → List (NamedMatcher R T)
  after_calls [] ms = ms
  after_calls (attrs ∷ history) ms = after_calls history (first_match engine ms attrs).1

  after_calls-NamersAlike :
      (history : List ProcAttributes) {ms ms0 : List (NamedMatcher R T)}
      → NamersAlike ms ms0
      → NamersAlike (after_calls history ms) ms0
  unfolding after_calls
  after_calls-NamersAlike [] a = a
  after_calls-NamersAlike (attrs ∷ history) a =
      after_calls-NamersAlike history (first_match-NamersAlike_left attrs a)

  -- A matcher of a new configuration: its map of captures is not nil.
  abbrev pub IsReady : Matcher R → Type 0
  IsReady m = Alike engine (own_names engine) m m

  ready_list : (ms : List (Matcher R)) → All IsReady ms → ListAlike engine (own_names engine) ms ms
  ready_list [] h = nil_alike
  ready_list (m ∷ ms) h = cons_alike h.0 (ready_list ms h.1)

  comm_part-IsReady : (rules : Option (List Text)) → All IsReady (comm_part engine rules)
  comm_part-IsReady none = tt
  comm_part-IsReady (some rules) = (comm_alike _, tt)

  exe_part-IsReady : (rules : Option (List Text)) → All IsReady (exe_part engine rules)
  exe_part-IsReady none = tt
  exe_part-IsReady (some rules) = (exe_alike _, tt)

  cmdline_part-IsReady :
      (rules : Option (List Text)) (ms : List (Matcher R))
      → cmdline_part engine rules ≡ ok ms
      → All IsReady ms
  unfolding cmdline_part
  cmdline_part-IsReady none ms e = subst (All IsReady) (ok_inj e) tt
  cmdline_part-IsReady (some rules) ms e =
      let (rs, _, same) = >>=-eq-ok (compile_all engine rules) _ e in
      subst (All IsReady) (ok_inj same) (cmdline_alike rs [] [] (λ k. inr refl), tt)

  matchers-named :
      (name : Text) (ms : List (Matcher R)) (m : NamedMatcher R T)
      → named engine name ms ≡ ok m
      → ms ≡ m.matchers
  unfolding named
  matchers-named name [] m e = ground (arith, e)
  matchers-named name (c ∷ ms) m e =
      let text = if is_empty name then default_template else name in
      let (t, _, same) =
        >>=-eq-ok (parsed_template engine text (engine.parse_template text))
          (λ t. ok (record { matchers = c ∷ ms; template = t })) e in
      ap (λ (x : NamedMatcher R T). x.matchers) (ok_inj same)

  named_matcher-IsReady :
      (group : MatcherGroup) (m : NamedMatcher R T)
      → named_matcher engine group ≡ ok m
      → All IsReady m.matchers
  unfolding named_matcher
  named_matcher-IsReady group m e =
      let (cmdlines, parts, made) = >>=-eq-ok (cmdline_part engine group.cmdline_rules) _ e in
      subst (All IsReady) (matchers-named group.name _ m made) (
        All-append IsReady _ cmdlines
          (All-append IsReady (comm_part engine group.comm_rules) _
            (comm_part-IsReady group.comm_rules) (exe_part-IsReady group.exe_rules))
          (cmdline_part-IsReady group.cmdline_rules cmdlines parts))

  to_config-NamersAlike :
      (rules : List MatcherGroup) (ms : List (NamedMatcher R T))
      → to_config engine rules ≡ ok ms
      → NamersAlike ms ms
  unfolding to_config
  to_config-NamersAlike [] ms e = subst (λ x. NamersAlike x x) (ok_inj e) none_alike
  to_config-NamersAlike (group ∷ rules) ms e =
      let (m, made, more) = >>=-eq-ok (named_matcher engine group) _ e in
      let (rest, others, same) = >>=-eq-ok (to_config engine rules) _ more in
      subst (λ x. NamersAlike x x) (ok_inj same)
        (also_alike m.template (ready_list m.matchers (named_matcher-IsReady group m made))
          (to_config-NamersAlike rules rest others))

  -- With a configuration made from rules, a process gets the name that it would get from the new
  -- configuration, whatever processes were named before: the captures that earlier calls leave in
  -- the matchers make no difference.
  pub naming_is_stateless :
      (rules : List MatcherGroup) (ms : List (NamedMatcher R T)) (history : List ProcAttributes)
      (attrs : ProcAttributes)
      → to_config engine rules ≡ ok ms
      → (first_match engine (after_calls history ms) attrs).0 ≡ (first_match engine ms attrs).0
  naming_is_stateless rules ms history attrs e =
      first_match-NamersAlike attrs
        (after_calls-NamersAlike history (to_config-NamersAlike rules ms e))
