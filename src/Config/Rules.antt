-- ===== src/Config/Rules.antt =====
-- config/config.go: `MatcherRules.ToConfig`, from rules to matchers.
use process_exporter.Prelude.{
  Bool, true, false, ◌||◌, Option, none, some, List, [], ◌∷◌, ◌++◌, Text, bytes, Map, put, bytes_eq,
  nat_beq, if◌then◌else◌, is_empty, ◌≡◌, refl, arith,
}
use process_exporter.Config.Matchers.{
  Engine, Matcher, NamedMatcher, comm_matcher, exe_matcher, cmdline_matcher,
}

-- A list of rules is `none` where the source has a nil slice.
pub record MatcherGroup : Type 0 where
  pub name : Text
  pub comm_rules : Option (List Text)
  pub exe_rules : Option (List Text)
  pub cmdline_rules : Option (List Text)

pub data ConfigError : Type 0 where
  bad_regex bad_template : Text → ConfigError
  no_matchers : ConfigError

pub data Configured {ℓ} (A : Type ℓ) : Type ℓ where
  ok : A → Configured A
  err : ConfigError → Configured A

infixl 5 ◌>>=◌
abbrev pub ◌>>=◌ {ℓ κ} :
    {A : Type ℓ} {B : Type κ} → Configured A → (A → Configured B) → Configured B
ok a >>= f = f a
err e >>= f = err e

pub >>=-eq-ok {ℓ κ} :
    {A : Type ℓ} {B : Type κ} (x : Configured A) (f : A → Configured B) {b : B}
    → (x >>= f) ≡ ok b
    → (a : A) × (x ≡ ok a) × (f a ≡ ok b)
>>=-eq-ok (ok a) f h = (a, refl, h)
>>=-eq-ok (err e) f h = ground (arith, h)

pub ok_inj {ℓ} : {A : Type ℓ} {a b : A} → ok a ≡ ok b → a ≡ b
ok_inj h = cc

unfoldable pub comm_set : List Text → Map Text Bool → Map Text Bool
comm_set [] comms = comms
comm_set (c ∷ rules) comms = comm_set rules (put c true comms)

-- `strings.Contains(e, "/")`
unfoldable pub has_slash : Text → Bool
has_slash [] = false
has_slash (c ∷ s) = nat_beq c 47 || has_slash s

abbrev pub default_template : Text
default_template = bytes "{{.ExeBase}}"

module _ {R T : Type 0} (engine : Engine R T) where
  unfoldable pub exe_map : List Text → Map Text Text → Map Text Text
  unfolding has_slash
  exe_map [] exes = exes
  exe_map (e ∷ rules) exes =
      exe_map rules (if has_slash e then put (engine.base e) e exes else put e [] exes)

  abbrev pub compiled : Text → Option R → Configured R
  compiled text none = err (bad_regex text)
  compiled text (some r) = ok r

  unfoldable pub compile_all : List Text → Configured (List R)
  compile_all [] = ok []
  compile_all (c ∷ rules) = do
    r ← compiled c (engine.compile c)
    rs ← compile_all rules
    ok (r ∷ rs)

  abbrev pub comm_part : Option (List Text) → List (Matcher R)
  comm_part none = []
  comm_part (some rules) = comm_matcher (comm_set rules []) ∷ []

  abbrev pub exe_part : Option (List Text) → List (Matcher R)
  exe_part none = []
  exe_part (some rules) = exe_matcher (exe_map rules []) ∷ []

  unfoldable pub cmdline_part : Option (List Text) → Configured (List (Matcher R))
  unfolding compile_all
  cmdline_part none = ok []
  cmdline_part (some rules) = do rs ← compile_all rules; ok (cmdline_matcher rs (some []) ∷ [])

  abbrev pub parsed_template : Text → Option T → Configured T
  parsed_template text none = err (bad_template text)
  parsed_template text (some t) = ok t

  -- The template is parsed once there is a matcher.
  unfoldable pub named : Text → List (Matcher R) → Configured (NamedMatcher R T)
  named name [] = err no_matchers
  named name (m ∷ ms) = do
    let text = if is_empty name then default_template else name
    t ← parsed_template text (engine.parse_template text)
    ok (record { matchers = m ∷ ms; template = t })

  -- The body of the loop of `ToConfig`.
  unfoldable pub named_matcher : MatcherGroup → Configured (NamedMatcher R T)
  unfolding cmdline_part named exe_map comm_set
  named_matcher group = do
    cmdlines ← cmdline_part group.cmdline_rules
    named group.name (comm_part group.comm_rules ++ exe_part group.exe_rules ++ cmdlines)

  -- `(r MatcherRules) ToConfig()`
  unfoldable pub to_config : List MatcherGroup → Configured (List (NamedMatcher R T))
  unfolding named_matcher
  to_config [] = ok []
  to_config (group ∷ rules) = do m ← named_matcher group; ms ← to_config rules; ok (m ∷ ms)
