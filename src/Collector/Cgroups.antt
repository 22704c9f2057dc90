-- ===== src/Collector/Cgroups.antt =====
-- collector/cgroup_collector.go: construction, the policy for groups, path patterns and the summary.
use process_exporter.Prelude.{
  Bool, true, ◌||◌, Option, none, some, List, [], ◌∷◌, ◌++◌, Text, bytes, Map, put, bytes_eq, ◌==◌,
  Float64, if◌then◌else◌, is_empty, ℤ, pos, is_zero,
}
use process_exporter.Cgroup.Reader.{Root, Expansion, expanded, expand_pattern}
use process_exporter.Config.Settings.{CgroupConfig}
use process_exporter.Proc.Grouper.Group.{Group}
use process_exporter.Collector.Metric.{Metric}
use process_exporter.Collector.Descs.{
  group_descs, path_descs, cgroup_skipped_desc, cgroup_pattern_dropped_desc,
}
use process_exporter.Collector.Families.{CgroupCollector, collect_one, counter_of}

-- `CgroupCollectorOption`; `opened` is what `cgroup.NewReader(opt.CgroupFSPath)` answers, where
-- `none` is an error.
pub record CgroupCollectorOption : Type 0 where
  pub opened : Option Root
  pub psi : Bool
  pub memory : Bool
  pub cpu : Bool
  pub pids : Bool
  pub io : Bool
  pub config : CgroupConfig

abbrev pub default_max_paths : ℤ
default_max_paths = pos 200

abbrev pub default_memory_stat_fields : List Text
default_memory_stat_fields =
    bytes "anon" ∷ bytes "file" ∷ bytes "kernel" ∷ bytes "slab" ∷ bytes "sock" ∷ []

-- The entries of the switch in `resolvePSIWindows`.
unfoldable pub is_window : Text → Bool
is_window w = w == bytes "total" || w == bytes "avg10" || w == bytes "avg60" || w == bytes "avg300"

unfoldable pub window_set : List Text → Map Text Bool → Map Text Bool
unfolding is_window
window_set [] set = set
window_set (w ∷ windows) set = window_set windows (if is_window w then put w true set else set)

-- `resolvePSIWindows(windows)`
unfoldable pub resolve_psi_windows : List Text → Map Text Bool
unfolding window_set
resolve_psi_windows [] = (bytes "total", true) ∷ []
resolve_psi_windows (w ∷ windows) = window_set (w ∷ windows) []

abbrev pub or_default : List Text → List Text
or_default [] = default_memory_stat_fields
or_default (field ∷ fields) = field ∷ fields

module _ {F : Type 0} ⦃fl : Float64 F⦄ where
  abbrev pub opened_with : CgroupCollectorOption → Option Root → Option (Option (CgroupCollector F))
  opened_with opt none = none
  opened_with opt (some reader) = some (
      some (record {
        reader = reader;
        psi = opt.psi;
        memory = opt.memory;
        cpu = opt.cpu;
        pids = opt.pids;
        io = opt.io;
        psi_windows = resolve_psi_windows opt.config.psi_windows;
        mem_stat_fields = or_default opt.config.memory_stat_fields;
        paths = opt.config.paths;
        max_paths =
            if is_zero opt.config.max_paths then default_max_paths else opt.config.max_paths;
        skipped = fl.fzero;
        pattern_dropped = fl.fzero;
      }))

  -- `newCgroupCollector(opt)`: the outer `none` is an error, the inner one that no family is
  -- enabled.
  unfoldable pub new_cgroup_collector : CgroupCollectorOption → Option (Option (CgroupCollector F))
  new_cgroup_collector opt =
      let made = opened_with opt opt.opened in
      if opt.psi || opt.memory || opt.cpu || opt.pids || opt.io then made else some none

  -- `x++` on a `float64`
  abbrev pub incremented : F → F
  incremented x = fl.fadd x (fl.of_uint 1)

  -- `(c *cgroupCollector) collectGroup(ch, gname, group)`
  unfoldable pub collect_group :
      CgroupCollector F → Text → Group F → CgroupCollector F × List (Metric F)
  unfolding collect_one
  collect_group c gname group =
      if group.cgroup_v2_conflict
      then (record c { skipped = incremented c.skipped }, [])
      else if is_empty group.cgroup_v2_path || group.cgroup_v2_path == bytes "/"
      then (c, [])
      else (c, collect_one c group_descs gname group.cgroup_v2_path)

  -- The inner loop of `collectPaths`.
  unfoldable pub collect_matches : CgroupCollector F → List Text → List (Metric F)
  unfolding collect_one
  collect_matches c [] = []
  collect_matches c (p ∷ matches) = collect_one c path_descs p p ++ collect_matches c matches

  abbrev pub collect_expansion : CgroupCollector F → Expansion → CgroupCollector F × List (Metric F)
  collect_expansion c (expanded matches) = (c, collect_matches c matches)
  collect_expansion c _ = (record c { pattern_dropped = incremented c.pattern_dropped }, [])

  unfoldable pub collect_patterns :
      List Text → CgroupCollector F → CgroupCollector F × List (Metric F)
  unfolding collect_matches expand_pattern
  collect_patterns [] c = (c, [])
  collect_patterns (pat ∷ patterns) c =
      let (c', ms) = collect_expansion c (expand_pattern c.reader pat c.max_paths) in
      let (c'', rest) = collect_patterns patterns c' in (c'', ms ++ rest)

  -- `(c *cgroupCollector) collectPaths(ch)`
  unfoldable pub collect_paths : CgroupCollector F → CgroupCollector F × List (Metric F)
  unfolding collect_patterns
  collect_paths c = collect_patterns c.paths c

  -- `(c *cgroupCollector) collectSummary(ch)`
  unfoldable pub collect_summary : CgroupCollector F → List (Metric F)
  unfolding cgroup_skipped_desc cgroup_pattern_dropped_desc
  collect_summary c =
      counter_of cgroup_skipped_desc c.skipped []
      ++ counter_of cgroup_pattern_dropped_desc c.pattern_dropped []
