-- ===== src/Tests/Procfs.antt =====
-- The theorems on the reading of procfs at concrete inputs. The state of the world is the number of
-- files that have been read.
use process_exporter.Prelude.{
  ℕ, suc, ◌≡◌, refl, false, none, some, [], ◌∷◌, Text, bytes, arith, ltb, if◌then◌else◌, List, map,
  All, ◌++◌, subst, length, ◌<◌,
}
use process_exporter.Proc.Types.{Proc, Static, Read, ok, err, other_error, Counts, Metrics}
use process_exporter.Proc.Procfs.Metrics.{get_counts, get_states, gather, get_metrics}
use process_exporter.Proc.Procfs.Failures.{status_is_read_twice, metrics_failure_is_counted}
use process_exporter.Proc.Procfs.Details.{
  zero_status, cgroup_paths, zero_stat, get_static, start_time_of, or_zero_value,
}
use process_exporter.Proc.Procfs.Listing.{thread_fs, at_least_two, get_threads}
use process_exporter.Proc.Procfs.Visits.{read_all, get_threads_reads_all}
use process_exporter.Proc.Tracker.Scan.{handle_metrics, scan}
use process_exporter.Proc.Procfs.Hierarchy.{IsOfVersion1, unified_path_is_last}
use process_exporter.Proc.Procfs.{
  Cgroup, get_status, get_io, get_wchan, got, failed, lib_error, os_not_exist, ProcStat, Library,
  Fs, ProcCache, new_cache, get_proc_id, get_stat,
}
use process_exporter.Proc.Procfs.Identity.{identity_is_kept}
use process_exporter.Proc.Tracker.Defs.{no_errors}
use process_exporter.Proc.Tracker.Pids.{DistinctPids}
use process_exporter.Proc.Procfs.Ends.{IsBounded}
use process_exporter.Proc.Procfs.Scanning.{scan_procfs}
use process_exporter.Proc.Procfs.Refines.{scan_procfs_refines}
use process_exporter.Proc.Procfs.Snapshot.{ReadInTurn}
use process_exporter.Tests.Data.{counts_of, metrics_of, nat_float, proc_of, id_of, tracker_of_one}

abbrev stat_at : ℕ → ProcStat
stat_at now = record zero_stat { comm = bytes "worker"; state = bytes "S"; starttime = 7 }

-- The status can be read up to the second read of a file; each process has the threads 1 and 2.
abbrev small_lib : Library ℕ ℕ Text
small_lib = record {
  pid = λ h. h;
  new_stat = λ h now. (got (stat_at now), suc now);
  new_status = λ h now. (
    (if ltb now 2 then got (record zero_status { vm_swap = 5 }) else failed os_not_exist),
    suc now,
  );
  cgroups = λ h now. (failed lib_error, suc now);
  cmd_line = λ h now. (got (some []), suc now);
  wchan = λ h now. (failed lib_error, suc now);
  io = λ h now. (got (record { read_bytes = now; write_bytes = now }), suc now);
  file_descriptors_len = λ h now. (got 3, suc now);
  open_files_limit = λ h now. (got 1024, suc now);
  smaps_rollup = λ h now. (failed lib_error, suc now);
  new_fs = λ path now. (got path, suc now);
  boot_time = λ fs now. (got 1000, suc now);
  all_procs = λ fs now. (got (1 ∷ 2 ∷ []), suc now);
  task_path = λ dir pid. dir;
}

abbrev small_fs : Fs Text
small_fs = record {
  fs = bytes "/proc";
  boot_time = 1000;
  mount_point = bytes "/proc";
  gather_smaps = false;
}

abbrev after_id : ProcCache ℕ
after_id = (get_proc_id small_lib (new_cache 10) 0).1

identity_is_kept_example :
    ((now : ℕ) → get_proc_id small_lib after_id now ≡ (got (id_of 10), after_id, now))
    × ((id_of 10).pid ≡ 10)
    × ((static : Static) (p' : ProcCache ℕ) (now after : ℕ)
        → get_static small_lib small_fs after_id now ≡ (ok static, p', after)
        → static.start_time ≡ start_time_of 1000 7)
unfolding get_proc_id get_stat
identity_is_kept_example = identity_is_kept small_lib small_fs 10 0 1 (id_of 10) after_id refl

metrics_failure_is_counted_example :
    handle_metrics
      (proc_of 10 1)
      60
      (id_of 10)
      none
      tracker_of_one
      (get_metrics small_lib small_fs (new_cache 10) 2).0
    ≡ (tracker_of_one, none, record { read = 1; partial = 0 })
unfolding get_metrics get_stat get_status
metrics_failure_is_counted_example =
    metrics_failure_is_counted small_lib small_fs {F = ℕ} (new_cache 10) other_error 2 4
      (proc_of 10 1) 60 (id_of 10) none tracker_of_one refl

abbrev counts_read : Read (Counts ℕ × ℕ) × ℕ
counts_read =
    get_counts small_lib small_fs {F = ℕ}
      (record (new_cache 10) { stat = some (stat_at 0); status = none }) 1

abbrev metrics_read : Read (Metrics ℕ × ℕ) × ℕ
metrics_read =
    get_metrics small_lib small_fs {F = ℕ}
      (record (new_cache 10) { stat = some (stat_at 0); status = none }) 1

abbrev counts_of_read : Read (Counts ℕ × ℕ) → Counts ℕ
counts_of_read (ok r) = r.0
counts_of_read (err e) = counts_of 0

abbrev metrics_of_read : Read (Metrics ℕ × ℕ) → Metrics ℕ
metrics_of_read (ok r) = r.0
metrics_of_read (err e) = metrics_of 0

-- The second reading of the status fails, and the swap is 0.
status_is_read_twice_example :
    ((metrics_of_read metrics_read.0).counts ≡ counts_of_read counts_read.0)
    × ((metrics_of_read metrics_read.0).memory.vm_swap_bytes ≡ 0)
unfolding get_counts get_metrics get_stat get_status get_io get_wchan get_states gather
status_is_read_twice_example =
    status_is_read_twice small_lib small_fs {F = ℕ} (new_cache 10) (stat_at 0)
      (counts_of_read counts_read.0) (metrics_of_read metrics_read.0) 0 1 1 3 7 refl refl

abbrev task_fs : Fs Text
task_fs = small_fs

get_threads_reads_all_example :
    get_threads small_lib {F = ℕ} 3 small_fs (new_cache 10) 0
    ≡ some (
      (
        at_least_two small_lib task_fs (read_all small_lib task_fs {F = ℕ} (1 ∷ 2 ∷ []) [] 2).0,
        false,
      ),
      (read_all small_lib task_fs {F = ℕ} (1 ∷ 2 ∷ []) [] 2).1,
    )
unfolding thread_fs
get_threads_reads_all_example =
    get_threads_reads_all small_lib {F = ℕ} 3 small_fs task_fs (new_cache 10) (1 ∷ 2 ∷ []) 0 1 2
      refl refl (omega arith)

abbrev lines : List Cgroup
lines =
    record { hierarchy_id = 4; path = bytes "/cpu" }
    ∷ record { hierarchy_id = 0; path = bytes "/app" }
    ∷ record { hierarchy_id = 2; path = bytes "/pids" }
    ∷ []

unified_path_is_last_example :
    ((cgroup_paths lines [] []).0 ≡ map (λ c. c.path) lines)
    × (All IsOfVersion1 lines → (cgroup_paths lines [] []).1 ≡ [])
    × ((before after : List Cgroup) (c : Cgroup)
        → lines ≡ before ++ c ∷ after
        → c.hierarchy_id ≡ 0
        → All IsOfVersion1 after
        → (cgroup_paths lines [] []).1 ≡ c.path)
unified_path_is_last_example = unified_path_is_last lines

two_threads : IsBounded small_lib 2
two_threads fs w procs e = subst (λ r. length (or_zero_value [] r) < 3) e (omega arith)

scan_procfs_refines_example :
    (procs : List (Proc ℕ)) × (w' : ℕ) × ReadInTurn small_lib 3 small_fs 60
      (10 ∷ 11 ∷ [])
      tracker_of_one
      0
      procs
      w'
    × DistinctPids procs
    × (scan_procfs small_lib 3 small_fs 60 (10 ∷ 11 ∷ []) [] no_errors tracker_of_one 0
        ≡ some (scan procs 60 [] no_errors tracker_of_one, w'))
scan_procfs_refines_example =
    scan_procfs_refines small_lib {F = ℕ} 2 small_fs 60 (10 ∷ 11 ∷ []) [] no_errors tracker_of_one 0
      two_threads ((λ e. ground (arith, e), tt), (tt, tt))
