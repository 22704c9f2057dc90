-- ===== src/Collector/Families.antt =====
-- collector/cgroup_collector.go: the metrics of one cgroup. A file that cannot be read gives no
-- metric; what is only logged is left out.
use process_exporter.Prelude.{
  ℕ, Bool, true, false, Option, none, some, List, [], ◌∷◌, ◌++◌, Text, bytes, Map, get, bytes_eq,
  Float64, if◌then◌else◌, ℤ,
}
use process_exporter.Cgroup.Psi.{PsiLine, PsiStats}
use process_exporter.Cgroup.Reader.{
  Root, Loaded, loaded, unreadable, malformed, read_psi, read_uint64, read_keyed, read_pids_max,
  read_io_stat,
}
use process_exporter.Collector.Metric.{Desc, Metric, gauge_value, counter_value}
use process_exporter.Collector.Descs.{DescSet}

-- `cgroupCollector`; the reader is the answers of the operating system under it.
pub record CgroupCollector (F : Type 0) : Type 0 where
  pub reader : Root
  pub psi : Bool
  pub memory : Bool
  pub cpu : Bool
  pub pids : Bool
  pub io : Bool
  pub psi_windows : Map Text Bool
  pub mem_stat_fields : List Text
  pub paths : List Text
  pub max_paths : ℤ
  pub skipped : F
  pub pattern_dropped : F

-- `c.psiWindows[w]`, which is false for a window that is not there
abbrev pub is_set : Option Bool → Bool
is_set none = false
is_set (some b) = b

-- What is sent if a read succeeds.
unfoldable pub if_loaded : {F E A : Type 0} → Loaded E A → (A → List (Metric F)) → List (Metric F)
if_loaded (loaded a) send = send a
if_loaded unreadable send = []
if_loaded (malformed e) send = []

-- What is sent if a value is there.
unfoldable pub if_some : {F A : Type 0} → Option A → (A → List (Metric F)) → List (Metric F)
if_some none send = []
if_some (some a) send = send a

unfoldable pub when : {F : Type 0} → Bool → List (Metric F) → List (Metric F)
when b ms = if b then ms else []

-- `ioStatFields`
pub record IoField : Type 0 where
  pub key : Text
  pub is_bytes : Bool
  pub iomode : Text

abbrev pub io_stat_fields : List IoField
io_stat_fields =
    record { key = bytes "rbytes"; is_bytes = true; iomode = bytes "read" }
    ∷ record { key = bytes "wbytes"; is_bytes = true; iomode = bytes "write" }
    ∷ record { key = bytes "dbytes"; is_bytes = true; iomode = bytes "discard" }
    ∷ record { key = bytes "rios"; is_bytes = false; iomode = bytes "read" }
    ∷ record { key = bytes "wios"; is_bytes = false; iomode = bytes "write" }
    ∷ record { key = bytes "dios"; is_bytes = false; iomode = bytes "discard" }
    ∷ []

-- `psiTarget`; `none` is a nil descriptor.
pub record PsiTarget : Type 0 where
  pub resource : Text
  pub some_desc : Desc
  pub full_desc : Option Desc

abbrev pub psi_targets : DescSet → List PsiTarget
psi_targets d =
    record {
      resource = bytes "cpu";
      some_desc = d.psi_cpu_waiting;
      full_desc = some d.psi_cpu_stalled;
    }
    ∷ record {
      resource = bytes "memory";
      some_desc = d.psi_memory_waiting;
      full_desc = some d.psi_memory_stalled;
    }
    ∷ record {
      resource = bytes "io";
      some_desc = d.psi_io_waiting;
      full_desc = some d.psi_io_stalled;
    }
    ∷ []

module _ {F : Type 0} ⦃fl : Float64 F⦄ where
  abbrev pub gauge_of : Desc → F → List Text → List (Metric F)
  gauge_of desc v labels =
      record { desc = desc; value_type = gauge_value; value = v; label_values = labels } ∷ []

  abbrev pub counter_of : Desc → F → List Text → List (Metric F)
  counter_of desc v labels =
      record { desc = desc; value_type = counter_value; value = v; label_values = labels } ∷ []

  -- `float64(v)/microsecondsPerSecond`
  abbrev pub seconds_of : ℕ → F
  seconds_of v = fl.fdiv (fl.of_uint v) (fl.of_uint 1000000)

  -- The loop over `memory.events`.
  unfoldable pub event_metrics : DescSet → Text → Map Text ℕ → List (Metric F)
  event_metrics d id [] = []
  event_metrics d id ((event, v) ∷ events) =
      counter_of d.memory_events (fl.of_uint v) (id ∷ event ∷ []) ++ event_metrics d id events

  -- The loop over the fields of `memory.stat` that are allowed.
  unfoldable pub stat_metrics : DescSet → Text → List Text → Map Text ℕ → List (Metric F)
  stat_metrics d id [] stat = []
  stat_metrics d id (field ∷ fields) stat =
      if_some (get field stat) (λ v. gauge_of d.memory_stat (fl.of_uint v) (id ∷ field ∷ []))
      ++ stat_metrics d id fields stat

  -- The loop over `ioStatFields` for one device.
  unfoldable pub device_metrics :
      DescSet → Text → Text → List IoField → Map Text ℕ → List (Metric F)
  device_metrics d id dev [] counters = []
  device_metrics d id dev (f ∷ fields) counters =
      if_some (get f.key counters) (λ v.
        counter_of (if f.is_bytes then d.io_bytes else d.io_ops) (fl.of_uint v)
          (id ∷ dev ∷ f.iomode ∷ []))
      ++ device_metrics d id dev fields counters

  unfoldable pub devices_metrics : DescSet → Text → Map Text (Map Text ℕ) → List (Metric F)
  unfolding device_metrics
  devices_metrics d id [] = []
  devices_metrics d id ((dev, counters) ∷ devices) =
      device_metrics d id dev io_stat_fields counters ++ devices_metrics d id devices

  module _ (c : CgroupCollector F) (d : DescSet) (id path : Text) where
    -- `collectMemory`
    unfoldable pub collect_memory : List (Metric F)
    unfolding event_metrics stat_metrics
    collect_memory =
        if_loaded (read_uint64 c.reader path (bytes "memory.current"))
          (λ cur. gauge_of d.memory_current (fl.of_uint cur) (id ∷ []))
        ++ if_loaded (read_uint64 c.reader path (bytes "memory.swap.current"))
            (λ sw. gauge_of d.memory_swap_current (fl.of_uint sw) (id ∷ []))
        ++ if_loaded (read_keyed c.reader path (bytes "memory.events")) (event_metrics d id)
        ++ if_loaded (read_keyed c.reader path (bytes "memory.stat"))
            (stat_metrics d id c.mem_stat_fields)

    -- `collectCPU`
    unfoldable pub collect_cpu : List (Metric F)
    collect_cpu = if_loaded (read_keyed c.reader path (bytes "cpu.stat")) (λ stat.
        if_some (get (bytes "user_usec") stat)
          (λ v. counter_of d.cpu (seconds_of v) (id ∷ bytes "user" ∷ []))
        ++ if_some (get (bytes "system_usec") stat)
            (λ v. counter_of d.cpu (seconds_of v) (id ∷ bytes "system" ∷ [])))

    -- `collectPids`
    unfoldable pub collect_pids : List (Metric F)
    collect_pids =
        if_loaded (read_uint64 c.reader path (bytes "pids.current"))
          (λ cur. gauge_of d.pids_current (fl.of_uint cur) (id ∷ []))
        ++ if_loaded (read_pids_max c.reader path)
            (λ limit. when limit.1 (gauge_of d.pids_max (fl.of_uint limit.0) (id ∷ [])))
        ++ if_loaded (read_uint64 c.reader path (bytes "pids.peak"))
            (λ peak. gauge_of d.pids_peak (fl.of_uint peak) (id ∷ []))
        ++ if_loaded (read_keyed c.reader path (bytes "pids.events")) (λ events.
          if_some (get (bytes "max") events)
            (λ v. counter_of d.pids_events_max (fl.of_uint v) (id ∷ [])))

    -- `collectIO`
    unfoldable pub collect_io : List (Metric F)
    unfolding devices_metrics
    collect_io = if_loaded (read_io_stat c.reader path) (devices_metrics d id)

    -- `emitPercents`
    unfoldable pub emit_percents : Text → Text → PsiLine F → List (Metric F)
    emit_percents resource kind line =
        when (is_set (get (bytes "avg10") c.psi_windows))
          (gauge_of d.psi_percent line.avg10 (id ∷ resource ∷ kind ∷ bytes "avg10" ∷ []))
        ++ when (is_set (get (bytes "avg60") c.psi_windows))
            (gauge_of d.psi_percent line.avg60 (id ∷ resource ∷ kind ∷ bytes "avg60" ∷ []))
        ++ when (is_set (get (bytes "avg300") c.psi_windows))
            (gauge_of d.psi_percent line.avg300 (id ∷ resource ∷ kind ∷ bytes "avg300" ∷ []))

    -- The metrics of one line of a pressure file.
    unfoldable pub line_metrics : Text → Text → Desc → PsiLine F → List (Metric F)
    unfolding emit_percents
    line_metrics resource kind desc line =
        when (is_set (get (bytes "total") c.psi_windows))
          (counter_of desc (seconds_of line.total) (id ∷ []))
        ++ emit_percents resource kind line

    unfoldable pub target_metrics : PsiTarget → PsiStats F → List (Metric F)
    unfolding line_metrics
    target_metrics tgt stats =
        if_some stats.some_line (line_metrics tgt.resource (bytes "some") tgt.some_desc)
        ++ if_some stats.full_line (λ line.
          if_some tgt.full_desc (λ desc. line_metrics tgt.resource (bytes "full") desc line))

    -- The loop over the targets.
    unfoldable pub targets_metrics : List PsiTarget → List (Metric F)
    unfolding target_metrics
    targets_metrics [] = []
    targets_metrics (tgt ∷ targets) =
        if_loaded (read_psi c.reader path tgt.resource) (target_metrics tgt)
        ++ targets_metrics targets

    -- `collectPSI`
    unfoldable pub collect_psi : List (Metric F)
    unfolding targets_metrics
    collect_psi = targets_metrics (psi_targets d)

    -- `collectOne`
    unfoldable pub collect_one : List (Metric F)
    unfolding collect_psi collect_memory collect_cpu collect_pids collect_io
    collect_one =
        when c.psi collect_psi
        ++ when c.memory collect_memory
        ++ when c.cpu collect_cpu
        ++ when c.pids collect_pids
        ++ when c.io collect_io
