-- ===== src/Proc/Procfs/Details.antt =====
-- proc/read.go: `GetStatic`, and what the methods share: zero values and errors.
use process_exporter.Prelude.{
  ℕ, suc, ◌+◌, ◌*◌, ◌-◌, ◌%◌, Bool, true, false, Option, none, some, List, [], ◌∷◌, Text, Time, ℤ,
  pos, negsuc, to_signed, add_duration, u64, ◌==◌, bytes_eq, nat_eq, if◌then◌else◌, ◌++◌,
}
use process_exporter.Proc.Types.{Static, ReadError, proc_not_exist, other_error, Read, ok, err}
use process_exporter.Proc.Procfs.{
  LibError, os_not_exist, lib_error, Reply, got, failed, ProcStat, ProcStatus, Cgroup, Library, Fs,
  ProcCache, get_stat, get_status, get_cgroups, get_cmd_line,
}

-- The value that comes with an error: the zero value.
abbrev pub or_zero_value : {A : Type 0} → A → Reply A → A
or_zero_value zero (got a) = a
or_zero_value zero (failed e) = zero

abbrev pub has_failed : {A : Type 0} → Reply A → Bool
has_failed (got a) = false
has_failed (failed e) = true

abbrev pub zero_stat : ProcStat
zero_stat = record {
  comm = [];
  state = [];
  ppid = 0;
  min_flt = 0;
  maj_flt = 0;
  utime = 0;
  stime = 0;
  num_threads = 0;
  starttime = 0;
  resident_memory = 0;
  virtual_memory = 0;
}

abbrev pub zero_status : ProcStatus
zero_status = record {
  effective_uid = 0;
  vm_swap = 0;
  voluntary_ctxt_switches = 0;
  non_voluntary_ctxt_switches = 0;
}

-- `time.Unix(sec, 0)`; the zero value of `time.Time` is 62135596800 seconds before the Unix epoch.
unfoldable pub unix_time : ℤ → Time
unix_time (pos n) = (62135596800 + n) * 1000000000
unix_time (negsuc n) = (62135596800 - suc n) * 1000000000

-- The start time: a clock tick is `time.Second / userHZ`, and the product is an `int64`.
unfoldable pub start_time_of : ℕ → ℕ → Time
unfolding unix_time
start_time_of boot_time starttime =
    add_duration (unix_time (to_signed boot_time)) (to_signed (10000000 * starttime % u64))

-- The loop over the cgroups of a process, which keeps the path of the last unified hierarchy.
unfoldable pub cgroup_paths : List Cgroup → List Text → Text → List Text × Text
cgroup_paths [] strs v2 = (strs, v2)
cgroup_paths (c ∷ cgroups) strs v2 =
    cgroup_paths cgroups (strs ++ c.path ∷ []) (if c.hierarchy_id == 0 then c.path else v2)

abbrev pub some_slice : {A : Type 0} → Option (List A) → List A
some_slice none = []
some_slice (some xs) = xs

abbrev pub paths_of : Reply (Option (List Cgroup)) → List Text × Text
paths_of (failed e) = ([], [])
paths_of (got cgroups) = cgroup_paths (some_slice cgroups) [] []

-- `err == os.ErrNotExist` becomes `ErrProcNotExist`, and then `fmt.Errorf` with `%v` makes a new error
-- of whatever it is.
abbrev pub as_read_error : LibError → ReadError
as_read_error os_not_exist = proc_not_exist
as_read_error lib_error = other_error

abbrev pub formatted : ReadError → ReadError
formatted e = other_error

-- An error of the library as the tracker sees it: it is not `ErrProcNotExist`.
abbrev pub passed_on : LibError → ReadError
passed_on e = other_error

module _ {W H M : Type 0} (lib : Library W H M) (fs : Fs M) where
  abbrev pub static_from : ProcStat → ProcStatus → Option (List Text) → List Text × Text → Static
  static_from stat status cmdline paths = record {
    name = stat.comm;
    cmdline = some_slice cmdline;
    cgroups = paths.0;
    cgroup_v2_path = paths.1;
    parent_pid = stat.ppid;
    start_time = start_time_of fs.boot_time stat.starttime;
    effective_uid = status.effective_uid;
  }

  -- `GetStatic` after each of its reads.
  abbrev pub static_status :
      Option (List Text)
      → ProcStat
      → Reply ProcStatus × ProcCache H × W
      → Read Static × ProcCache H × W
  static_status cmdline stat (failed e, p, w) = (err (passed_on e), p, w)
  static_status cmdline stat (got status, p, w) =
      let (r, p', w') = get_cgroups lib p w in
      (ok (static_from stat status cmdline (paths_of r)), p', w')

  abbrev pub static_stat :
      Option (List Text) → Reply ProcStat × ProcCache H × W → Read Static × ProcCache H × W
  static_stat cmdline (failed e, p, w) = (err (passed_on e), p, w)
  static_stat cmdline (got stat, p, w) = static_status cmdline stat (get_status lib p w)

  abbrev pub static_cmdline :
      Reply (Option (List Text)) × ProcCache H × W → Read Static × ProcCache H × W
  static_cmdline (failed e, p, w) = (err (passed_on e), p, w)
  static_cmdline (got cmdline, p, w) = static_stat cmdline (get_stat lib p w)

  -- `GetStatic`, a method on the pointer: the cache stays.
  unfoldable pub get_static : ProcCache H → W → Read Static × ProcCache H × W
  unfolding start_time_of cgroup_paths
  get_static p w = static_cmdline (get_cmd_line lib p w)
