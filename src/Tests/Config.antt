-- ===== src/Tests/Config.antt =====
-- The theorem on naming at a concrete input.
use process_exporter.Prelude.{◌≡◌, refl, none, some, List, [], ◌∷◌, Text, bytes}
use process_exporter.Proc.Types.{ProcAttributes}
use process_exporter.Config.Matchers.{Engine, NamedMatcher, cmdline_matcher, first_match}
use process_exporter.Config.Rules.{MatcherGroup, to_config}
use process_exporter.Config.Stateless.{after_calls, naming_is_stateless}

-- An expression that captures the whole line under one name.
abbrev whole_line : Engine Text Text
whole_line = record {
  compile = λ text. some text;
  find_submatch = λ r text. some (text ∷ text ∷ []);
  subexp_names = λ r. [] ∷ r ∷ [];
  base = λ path. path;
  parse_template = λ text. some text;
  execute = λ t params. params.comm;
}

abbrev one_rule : List MatcherGroup
one_rule =
    record {
      name = bytes "x";
      comm_rules = none;
      exe_rules = none;
      cmdline_rules = some (bytes "line" ∷ []);
    }
    ∷ []

abbrev configured : List (NamedMatcher Text Text)
configured =
    record { matchers = cmdline_matcher (bytes "line" ∷ []) (some []) ∷ []; template = bytes "x" }
    ∷ []

abbrev attrs_of : Text → ProcAttributes
attrs_of name = record {
  name = name;
  cmdline = name ∷ [];
  cgroups = [];
  username = [];
  pid = 1;
  start_time = 0;
}

naming_is_stateless_example :
    (first_match whole_line
      (after_calls whole_line (attrs_of (bytes "a") ∷ []) configured)
      (attrs_of (bytes "b"))).0
    ≡ (first_match whole_line configured (attrs_of (bytes "b"))).0
unfolding to_config
naming_is_stateless_example =
    naming_is_stateless whole_line one_rule configured (attrs_of (bytes "a") ∷ [])
      (attrs_of (bytes "b")) refl
