-- ===== src/Collector/Descs.antt =====
-- collector/cgroup_collector.go: the descriptors.
use process_exporter.Prelude.{List, [], ◌∷◌, ◌++◌, Text, bytes}
use process_exporter.Collector.Metric.{Desc}

-- `descSet`
pub record DescSet : Type 0 where
  pub psi_cpu_waiting : Desc
  pub psi_cpu_stalled : Desc
  pub psi_memory_waiting : Desc
  pub psi_memory_stalled : Desc
  pub psi_io_waiting : Desc
  pub psi_io_stalled : Desc
  pub psi_percent : Desc
  pub memory_current : Desc
  pub memory_swap_current : Desc
  pub memory_stat : Desc
  pub memory_events : Desc
  pub cpu : Desc
  pub pids_current : Desc
  pub pids_max : Desc
  pub pids_peak : Desc
  pub pids_events_max : Desc
  pub io_bytes : Desc
  pub io_ops : Desc

-- `withExtra`
abbrev pub with_extra : Text → List Text → List Text
with_extra label extra = label ∷ extra

-- `prometheus.NewDesc(prefix+suffix, ..., withExtra(label, extra...), nil)`
abbrev pub desc_of : Text → Text → Text → List Text → Desc
desc_of prefix label suffix extra = record {
  fq_name = prefix ++ suffix;
  labels = with_extra label extra;
}

-- `newDescSet(prefix, label, subject)`
unfoldable pub new_desc_set : Text → Text → DescSet
new_desc_set prefix label = record {
  psi_cpu_waiting = desc_of prefix label (bytes "_pressure_cpu_waiting_seconds_total") [];
  psi_cpu_stalled = desc_of prefix label (bytes "_pressure_cpu_stalled_seconds_total") [];
  psi_memory_waiting = desc_of prefix label (bytes "_pressure_memory_waiting_seconds_total") [];
  psi_memory_stalled = desc_of prefix label (bytes "_pressure_memory_stalled_seconds_total") [];
  psi_io_waiting = desc_of prefix label (bytes "_pressure_io_waiting_seconds_total") [];
  psi_io_stalled = desc_of prefix label (bytes "_pressure_io_stalled_seconds_total") [];
  psi_percent =
      desc_of prefix label (bytes "_pressure_percent")
        (bytes "resource" ∷ bytes "kind" ∷ bytes "window" ∷ []);
  memory_current = desc_of prefix label (bytes "_memory_current_bytes") [];
  memory_swap_current = desc_of prefix label (bytes "_memory_swap_current_bytes") [];
  memory_stat = desc_of prefix label (bytes "_memory_stat_bytes") (bytes "field" ∷ []);
  memory_events = desc_of prefix label (bytes "_memory_events_total") (bytes "event" ∷ []);
  cpu = desc_of prefix label (bytes "_cpu_seconds_total") (bytes "mode" ∷ []);
  pids_current = desc_of prefix label (bytes "_pids_current") [];
  pids_max = desc_of prefix label (bytes "_pids_max") [];
  pids_peak = desc_of prefix label (bytes "_pids_peak") [];
  pids_events_max = desc_of prefix label (bytes "_pids_events_max_total") [];
  io_bytes = desc_of prefix label (bytes "_io_bytes_total") (bytes "device" ∷ bytes "iomode" ∷ []);
  io_ops = desc_of prefix label (bytes "_io_ops_total") (bytes "device" ∷ bytes "iomode" ∷ []);
}

unfoldable pub group_descs : DescSet
unfolding new_desc_set
group_descs = new_desc_set (bytes "namedprocess_namegroup_cgroup") (bytes "groupname")

unfoldable pub path_descs : DescSet
unfolding new_desc_set
path_descs = new_desc_set (bytes "namedprocess_cgroup") (bytes "cgroup")

unfoldable pub cgroup_skipped_desc : Desc
cgroup_skipped_desc = record { fq_name = bytes "namedprocess_scrape_cgroup_skipped"; labels = [] }

unfoldable pub cgroup_pattern_dropped_desc : Desc
cgroup_pattern_dropped_desc = record {
  fq_name = bytes "namedprocess_scrape_cgroup_pattern_dropped";
  labels = [];
}

-- The descriptors of a set, in the order in which `describe` sends them.
unfoldable pub set_descs : DescSet → List Desc
set_descs d =
    d.psi_cpu_waiting ∷ d.psi_cpu_stalled ∷ d.psi_memory_waiting ∷ d.psi_memory_stalled
    ∷ d.psi_io_waiting ∷ d.psi_io_stalled ∷ d.psi_percent ∷ d.memory_current ∷ d.memory_swap_current
    ∷ d.memory_stat ∷ d.memory_events ∷ d.cpu ∷ d.pids_current ∷ d.pids_max ∷ d.pids_peak
    ∷ d.pids_events_max ∷ d.io_bytes ∷ d.io_ops ∷ []

-- `(c *cgroupCollector) describe(ch)`
unfoldable pub describe_cgroups : List Desc
unfolding set_descs group_descs path_descs cgroup_skipped_desc cgroup_pattern_dropped_desc
describe_cgroups =
    set_descs group_descs
    ++ set_descs path_descs
    ++ (cgroup_skipped_desc ∷ cgroup_pattern_dropped_desc ∷ [])
