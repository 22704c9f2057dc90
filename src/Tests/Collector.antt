-- ===== src/Tests/Collector.antt =====
-- The theorems on the collectors at concrete inputs.
use process_exporter.Prelude.{
  ℕ, ◌≡◌, ◌↔◌, refl, true, false, Option, none, some, [], ◌∷◌, ◌++◌, ◌||◌, Text, bytes, pos, ◌==◌,
  bytes_eq, if◌then◌else◌, All, IsIn, Every, get, put, is_empty, sort_texts, inl, inr, List,
}
use process_exporter.Cgroup.Stat.{parse_uint64}
use process_exporter.Cgroup.Psi.{parse_psi}
use process_exporter.Cgroup.Reader.{
  expand_pattern, exists_dir, dir_names, Root, read_psi, read_uint64, segments_of,
}
use process_exporter.Proc.Grouper.Defs.{groups}
use process_exporter.Proc.Grouper.Reports.{reports_of}
use process_exporter.Proc.Grouper.Folds.{paths}
use process_exporter.Collector.Metric.{Metric, gauge_value}
use process_exporter.Collector.Descs.{group_descs, path_descs}
use process_exporter.Collector.Families.{
  collect_memory, CgroupCollector, collect_one, collect_psi, when, if_loaded, if_some,
}
use process_exporter.Collector.Cgroups.{
  CgroupCollectorOption, new_cgroup_collector, incremented, collect_group, collect_paths,
  resolve_psi_windows,
}
use process_exporter.Cgroup.Patterns.{Follows}
use process_exporter.Collector.Policy.{skip_and_count}
use process_exporter.Collector.Windows.{IsAllowed, OfWindow, psi_windows_respected}
use process_exporter.Collector.Paths.{IsPathMetric, paths_collected_exactly}
use process_exporter.Collector.Overlaps.{IsBefore, overlapping_patterns_repeat}
use process_exporter.Tests.Data.{nat_float, update_of, grouper_of}
use process_exporter.Tests.Grouper.{main, two_reports, main_group}

-- A hierarchy with the cgroups "/a/x" and "/a/y", with one answer for each kind of file.
abbrev file_root : Root
file_root = record {
  read_all = λ path.
      if path == bytes "a/x/memory.current"
      then some (bytes "42\n")
      else if path == bytes "a/x/cpu.pressure"
      then some (bytes "some avg10=0.10 avg60=0.20 avg300=0.30 total=900\n")
      else none;
  entries =
      λ path. if path == bytes "a" then some ((bytes "y", true) ∷ (bytes "x", true) ∷ []) else none;
  is_dir = λ path. some true;
  join = λ dir name. dir ++ 47 ∷ name;
  glob = λ pat name. some true;
}

abbrev options : CgroupCollectorOption
options = record {
  opened = some file_root;
  psi = true;
  memory = true;
  cpu = false;
  pids = false;
  io = false;
  config = record {
    psi_windows = bytes "avg10" ∷ bytes "hourly" ∷ [];
    memory_stat_fields = [];
    paths = bytes "/a/*" ∷ bytes "/a/x" ∷ [];
    max_paths = pos 0;
  };
}

abbrev made_of : Option (Option (CgroupCollector ℕ)) → CgroupCollector ℕ
made_of (some (some c)) = c
made_of _ = record {
  reader = file_root;
  psi = false;
  memory = false;
  cpu = false;
  pids = false;
  io = false;
  psi_windows = [];
  mem_stat_fields = [];
  paths = [];
  max_paths = pos 0;
  skipped = 0;
  pattern_dropped = 0;
}

abbrev pub cgroups : CgroupCollector ℕ
cgroups = made_of (new_cgroup_collector options)

psi_windows_respected_example :
    Every
      (OfWindow {F = ℕ} (IsAllowed options.config.psi_windows) group_descs main)
      (collect_psi cgroups group_descs main (bytes "/a/x"))
unfolding new_cgroup_collector
psi_windows_respected_example =
    psi_windows_respected options cgroups group_descs main (bytes "/a/x") refl

skip_and_count_example :
    ((q : Text)
      → All (λ p. p ≡ q) (paths (reports_of main two_reports))
      → collect_group cgroups main main_group ≡ (
          if is_empty q || q == bytes "/"
          then (cgroups, [])
          else (cgroups, collect_one cgroups group_descs main q)))
    × (((q : Text) → ¬ All (λ p. p ≡ q) (paths (reports_of main two_reports)))
        → collect_group cgroups main main_group
          ≡ (record cgroups { skipped = incremented cgroups.skipped }, []))
unfolding reports_of groups get put
skip_and_count_example =
    skip_and_count cgroups main two_reports (grouper_of false) (update_of 3) (update_of 4 ∷ [])
      main_group refl refl

-- The first metric of "/a/x" that is sent for a path.
abbrev pub memory_metric : Metric ℕ
memory_metric = record {
  desc = path_descs.memory_current;
  value_type = gauge_value;
  value = 42;
  label_values = bytes "/a/x" ∷ [];
}

paths_collected_exactly_example :
    IsIn memory_metric (collect_paths cgroups).1 ↔ IsPathMetric cgroups cgroups.paths memory_metric
paths_collected_exactly_example = paths_collected_exactly cgroups memory_metric

own_metric : IsIn memory_metric (collect_one cgroups path_descs (bytes "/a/x") (bytes "/a/x"))
unfolding new_cgroup_collector collect_one collect_memory when if_loaded read_psi parse_psi if_some
    get resolve_psi_windows put read_uint64 parse_uint64
own_metric = inr (inl refl)

star_selects_in :
    (patterns : List Text)
    → IsIn (bytes "/a/*") patterns
    → IsPathMetric cgroups patterns memory_metric
unfolding new_cgroup_collector expand_pattern sort_texts dir_names exists_dir Follows segments_of
star_selects_in patterns i = record {
  pattern = bytes "/a/*";
  is_configured = i;
  matches = bytes "/a/x" ∷ bytes "/a/y" ∷ [];
  expands = refl;
  path = bytes "/a/x";
  follows = inl (refl, refl);
  exists = refl;
  own = own_metric;
}

star_selects : IsPathMetric cgroups (bytes "/a/*" ∷ []) memory_metric
star_selects = star_selects_in (bytes "/a/*" ∷ []) (inl refl)

pub metric_of_path : IsIn memory_metric (collect_paths cgroups).1
unfolding new_cgroup_collector
metric_of_path =
    (paths_collected_exactly cgroups memory_metric).1 (star_selects_in cgroups.paths (inl refl))

name_selects : IsPathMetric cgroups (bytes "/a/x" ∷ []) memory_metric
unfolding new_cgroup_collector expand_pattern sort_texts dir_names exists_dir Follows segments_of
name_selects = record {
  pattern = bytes "/a/x";
  is_configured = inl refl;
  matches = bytes "/a/x" ∷ [];
  expands = refl;
  path = bytes "/a/x";
  follows = refl;
  exists = refl;
  own = own_metric;
}

overlapping_patterns_repeat_example : IsBefore memory_metric memory_metric (collect_paths cgroups).1
unfolding new_cgroup_collector
overlapping_patterns_repeat_example =
    overlapping_patterns_repeat cgroups memory_metric (bytes "/a/*") (bytes "/a/x")
      (inl (refl, inl refl)) star_selects name_selects
