-- ===== src/Config/Settings.antt =====
-- config/config.go: `CgroupConfig`, and `UnmarshalYAML` after the YAML library has filled its `root`.
use process_exporter.Prelude.{Option, none, some, List, Text, ℤ}
use process_exporter.Config.Matchers.{Engine, NamedMatcher}
use process_exporter.Config.Rules.{MatcherGroup, Configured, ok, ◌>>=◌, to_config}

pub record CgroupConfig : Type 0 where
  pub psi_windows : List Text
  pub memory_stat_fields : List Text
  pub paths : List Text
  pub max_paths : ℤ

pub record Config (R T : Type 0) : Type 0 where
  pub match_namers : List (NamedMatcher R T)
  pub cgroups : CgroupConfig

-- The local type `root`, with the rules below `cgroups` in one record.
pub record YamlRoot : Type 0 where
  pub matchers : List MatcherGroup
  pub windows : List Text
  pub stat_fields : List Text
  pub cgroup_paths : List Text
  pub cgroup_max_paths : ℤ

-- `UnmarshalYAML(unmarshal)`; the outer `none` is the error of `unmarshal`.
unfoldable pub unmarshal_yaml :
    {R T : Type 0} → Engine R T → Option YamlRoot → Option (Configured (Config R T))
unfolding to_config
unmarshal_yaml engine none = none
unmarshal_yaml engine (some r) = some (do
  namers ← to_config engine r.matchers
  ok (record {
    match_namers = namers;
    cgroups = record {
      psi_windows = r.windows;
      memory_stat_fields = r.stat_fields;
      paths = r.cgroup_paths;
      max_paths = r.cgroup_max_paths;
    };
  }))
