-- ===== src/Collector/Scrape/Metrics.antt =====
-- collector/process_collector.go: what `scrape` sends for one group, the cgroup metrics aside.
use process_exporter.Prelude.{
  ℕ, ◌-◌, ◌/◌, List, [], ◌∷◌, ◌++◌, Text, bytes, Time, ℤ, pos, negsuc, to_signed, Map, Float64, ltb,
  if◌then◌else◌,
}
use process_exporter.Proc.Grouper.Group.{Threads, Group}
use process_exporter.Collector.Metric.{Metric}
use process_exporter.Collector.ProcessDescs
use process_exporter.Collector.Families.{gauge_of, counter_of}

-- `t.Unix()`; the zero value of `time.Time` is 62135596800 seconds before the Unix epoch.
unfoldable pub unix : Time → ℤ
unix t =
    let seconds = t / 1000000000 in
    if ltb seconds 62135596800
    then negsuc (62135596800 - 1 - seconds)
    else pos (seconds - 62135596800)

module _ {F : Type 0} ⦃fl : Float64 F⦄ where
  -- `float64(x)` of an `int`
  abbrev pub float_of : ℕ → F
  float_of n = fl.of_int (to_signed n)

  -- The metrics that every group has.
  unfoldable pub counts_metrics : Text → Group F → List (Metric F)
  unfolding unix
  counts_metrics gname grp =
      gauge_of ProcessDescs.num_procs_desc (float_of grp.procs) (gname ∷ [])
      ++ gauge_of ProcessDescs.membytes_desc (fl.of_uint grp.memory.resident_bytes)
          (gname ∷ bytes "resident" ∷ [])
      ++ gauge_of ProcessDescs.membytes_desc (fl.of_uint grp.memory.virtual_bytes)
          (gname ∷ bytes "virtual" ∷ [])
      ++ gauge_of ProcessDescs.membytes_desc (fl.of_uint grp.memory.vm_swap_bytes)
          (gname ∷ bytes "swapped" ∷ [])
      ++ gauge_of ProcessDescs.start_time_desc (fl.of_int (unix grp.oldest_start_time)) (gname ∷ [])
      ++ gauge_of ProcessDescs.open_fds_desc (fl.of_uint grp.open_fds) (gname ∷ [])
      ++ gauge_of ProcessDescs.worst_fd_ratio_desc grp.worst_fd_ratio (gname ∷ [])
      ++ counter_of ProcessDescs.cpu_secs_desc grp.counts.cpu_user_time (gname ∷ bytes "user" ∷ [])
      ++ counter_of ProcessDescs.cpu_secs_desc grp.counts.cpu_system_time
          (gname ∷ bytes "system" ∷ [])
      ++ counter_of ProcessDescs.read_bytes_desc (fl.of_uint grp.counts.read_bytes) (gname ∷ [])
      ++ counter_of ProcessDescs.write_bytes_desc (fl.of_uint grp.counts.write_bytes) (gname ∷ [])
      ++ counter_of ProcessDescs.major_page_faults_desc (fl.of_uint grp.counts.major_page_faults)
          (gname ∷ [])
      ++ counter_of ProcessDescs.minor_page_faults_desc (fl.of_uint grp.counts.minor_page_faults)
          (gname ∷ [])
      ++ counter_of ProcessDescs.context_switches_desc (fl.of_uint grp.counts.ctx_switch_voluntary)
          (gname ∷ bytes "voluntary" ∷ [])
      ++ counter_of ProcessDescs.context_switches_desc
          (fl.of_uint grp.counts.ctx_switch_nonvoluntary) (gname ∷ bytes "nonvoluntary" ∷ [])
      ++ gauge_of ProcessDescs.num_threads_desc (fl.of_uint grp.num_threads) (gname ∷ [])
      ++ gauge_of ProcessDescs.states_desc (float_of grp.states.running)
          (gname ∷ bytes "Running" ∷ [])
      ++ gauge_of ProcessDescs.states_desc (float_of grp.states.sleeping)
          (gname ∷ bytes "Sleeping" ∷ [])
      ++ gauge_of ProcessDescs.states_desc (float_of grp.states.waiting)
          (gname ∷ bytes "Waiting" ∷ [])
      ++ gauge_of ProcessDescs.states_desc (float_of grp.states.zombie)
          (gname ∷ bytes "Zombie" ∷ [])
      ++ gauge_of ProcessDescs.states_desc (float_of grp.states.other) (gname ∷ bytes "Other" ∷ [])

  -- The loop over `gcounts.Wchans`.
  unfoldable pub wchan_metrics : Text → Map Text ℕ → List (Metric F)
  wchan_metrics gname [] = []
  wchan_metrics gname ((wchan, count) ∷ wchans) =
      gauge_of ProcessDescs.thread_wchan_desc (float_of count) (gname ∷ wchan ∷ [])
      ++ wchan_metrics gname wchans

  -- What is sent if `p.smaps`.
  unfoldable pub smaps_metrics : Text → Group F → List (Metric F)
  smaps_metrics gname grp =
      gauge_of ProcessDescs.membytes_desc (fl.of_uint grp.memory.proportional_bytes)
        (gname ∷ bytes "proportionalResident" ∷ [])
      ++ gauge_of ProcessDescs.membytes_desc (fl.of_uint grp.memory.proportional_swap_bytes)
          (gname ∷ bytes "proportionalSwapped" ∷ [])

  -- The loop over `gcounts.Threads`.
  unfoldable pub threads_metrics : Text → List (Threads F) → List (Metric F)
  threads_metrics gname [] = []
  threads_metrics gname (thr ∷ threads) =
      gauge_of ProcessDescs.thread_count_desc (float_of thr.num_threads) (gname ∷ thr.name ∷ [])
      ++ counter_of ProcessDescs.thread_cpu_secs_desc thr.counts.cpu_user_time
          (gname ∷ thr.name ∷ bytes "user" ∷ [])
      ++ counter_of ProcessDescs.thread_cpu_secs_desc thr.counts.cpu_system_time
          (gname ∷ thr.name ∷ bytes "system" ∷ [])
      ++ counter_of ProcessDescs.thread_io_bytes_desc (fl.of_uint thr.counts.read_bytes)
          (gname ∷ thr.name ∷ bytes "read" ∷ [])
      ++ counter_of ProcessDescs.thread_io_bytes_desc (fl.of_uint thr.counts.write_bytes)
          (gname ∷ thr.name ∷ bytes "write" ∷ [])
      ++ counter_of ProcessDescs.thread_major_page_faults_desc
          (fl.of_uint thr.counts.major_page_faults) (gname ∷ thr.name ∷ [])
      ++ counter_of ProcessDescs.thread_minor_page_faults_desc
          (fl.of_uint thr.counts.minor_page_faults) (gname ∷ thr.name ∷ [])
      ++ counter_of ProcessDescs.thread_context_switches_desc
          (fl.of_uint thr.counts.ctx_switch_voluntary) (gname ∷ thr.name ∷ bytes "voluntary" ∷ [])
      ++ counter_of ProcessDescs.thread_context_switches_desc
          (fl.of_uint thr.counts.ctx_switch_nonvoluntary)
          (gname ∷ thr.name ∷ bytes "nonvoluntary" ∷ [])
      ++ threads_metrics gname threads
