-- ===== src/Collector/ProcessDescs.antt =====
-- collector/process_collector.go: the descriptors of the process metrics.
use process_exporter.Prelude.{List, [], ◌∷◌, Text, bytes}
use process_exporter.Collector.Metric.{Desc}

-- `prometheus.NewDesc(name, ..., labels, nil)`
abbrev new_desc : Text → List Text → Desc
new_desc name labels = record { fq_name = name; labels = labels }

abbrev group_labels : List Text → List Text
group_labels labels = bytes "groupname" ∷ labels

abbrev thread_labels : List Text → List Text
thread_labels labels = group_labels (bytes "threadname" ∷ labels)

unfoldable pub num_procs_desc : Desc
num_procs_desc = new_desc (bytes "namedprocess_namegroup_num_procs") (group_labels [])

unfoldable pub cpu_secs_desc : Desc
cpu_secs_desc =
    new_desc (bytes "namedprocess_namegroup_cpu_seconds_total") (group_labels (bytes "mode" ∷ []))

unfoldable pub read_bytes_desc : Desc
read_bytes_desc = new_desc (bytes "namedprocess_namegroup_read_bytes_total") (group_labels [])

unfoldable pub write_bytes_desc : Desc
write_bytes_desc = new_desc (bytes "namedprocess_namegroup_write_bytes_total") (group_labels [])

unfoldable pub major_page_faults_desc : Desc
major_page_faults_desc =
    new_desc (bytes "namedprocess_namegroup_major_page_faults_total") (group_labels [])

unfoldable pub minor_page_faults_desc : Desc
minor_page_faults_desc =
    new_desc (bytes "namedprocess_namegroup_minor_page_faults_total") (group_labels [])

unfoldable pub context_switches_desc : Desc
context_switches_desc =
    new_desc (bytes "namedprocess_namegroup_context_switches_total")
      (group_labels (bytes "ctxswitchtype" ∷ []))

unfoldable pub membytes_desc : Desc
membytes_desc =
    new_desc (bytes "namedprocess_namegroup_memory_bytes") (group_labels (bytes "memtype" ∷ []))

unfoldable pub open_fds_desc : Desc
open_fds_desc = new_desc (bytes "namedprocess_namegroup_open_filedesc") (group_labels [])

unfoldable pub worst_fd_ratio_desc : Desc
worst_fd_ratio_desc = new_desc (bytes "namedprocess_namegroup_worst_fd_ratio") (group_labels [])

unfoldable pub start_time_desc : Desc
start_time_desc =
    new_desc (bytes "namedprocess_namegroup_oldest_start_time_seconds") (group_labels [])

unfoldable pub num_threads_desc : Desc
num_threads_desc = new_desc (bytes "namedprocess_namegroup_num_threads") (group_labels [])

unfoldable pub states_desc : Desc
states_desc = new_desc (bytes "namedprocess_namegroup_states") (group_labels (bytes "state" ∷ []))

unfoldable pub scrape_errors_desc : Desc
scrape_errors_desc = new_desc (bytes "namedprocess_scrape_errors") []

unfoldable pub scrape_proc_read_errors_desc : Desc
scrape_proc_read_errors_desc = new_desc (bytes "namedprocess_scrape_procread_errors") []

unfoldable pub scrape_partial_errors_desc : Desc
scrape_partial_errors_desc = new_desc (bytes "namedprocess_scrape_partial_errors") []

unfoldable pub thread_wchan_desc : Desc
thread_wchan_desc =
    new_desc (bytes "namedprocess_namegroup_threads_wchan") (group_labels (bytes "wchan" ∷ []))

unfoldable pub thread_count_desc : Desc
thread_count_desc = new_desc (bytes "namedprocess_namegroup_thread_count") (thread_labels [])

unfoldable pub thread_cpu_secs_desc : Desc
thread_cpu_secs_desc =
    new_desc (bytes "namedprocess_namegroup_thread_cpu_seconds_total")
      (thread_labels (bytes "mode" ∷ []))

unfoldable pub thread_io_bytes_desc : Desc
thread_io_bytes_desc =
    new_desc (bytes "namedprocess_namegroup_thread_io_bytes_total")
      (thread_labels (bytes "iomode" ∷ []))

unfoldable pub thread_major_page_faults_desc : Desc
thread_major_page_faults_desc =
    new_desc (bytes "namedprocess_namegroup_thread_major_page_faults_total") (thread_labels [])

unfoldable pub thread_minor_page_faults_desc : Desc
thread_minor_page_faults_desc =
    new_desc (bytes "namedprocess_namegroup_thread_minor_page_faults_total") (thread_labels [])

unfoldable pub thread_context_switches_desc : Desc
thread_context_switches_desc =
    new_desc (bytes "namedprocess_namegroup_thread_context_switches_total")
      (thread_labels (bytes "ctxswitchtype" ∷ []))

-- What `Describe` sends of its own, in order.
unfoldable pub process_descs : List Desc
unfolding cpu_secs_desc num_procs_desc read_bytes_desc write_bytes_desc membytes_desc open_fds_desc
    worst_fd_ratio_desc start_time_desc major_page_faults_desc minor_page_faults_desc
    context_switches_desc num_threads_desc states_desc scrape_errors_desc
    scrape_proc_read_errors_desc scrape_partial_errors_desc thread_wchan_desc thread_count_desc
    thread_cpu_secs_desc thread_io_bytes_desc thread_major_page_faults_desc
    thread_minor_page_faults_desc thread_context_switches_desc
process_descs =
    cpu_secs_desc ∷ num_procs_desc ∷ read_bytes_desc ∷ write_bytes_desc ∷ membytes_desc
    ∷ open_fds_desc ∷ worst_fd_ratio_desc ∷ start_time_desc ∷ major_page_faults_desc
    ∷ minor_page_faults_desc ∷ context_switches_desc ∷ num_threads_desc ∷ states_desc
    ∷ scrape_errors_desc ∷ scrape_proc_read_errors_desc ∷ scrape_partial_errors_desc
    ∷ thread_wchan_desc ∷ thread_count_desc ∷ thread_cpu_secs_desc ∷ thread_io_bytes_desc
    ∷ thread_major_page_faults_desc ∷ thread_minor_page_faults_desc ∷ thread_context_switches_desc
    ∷ []
