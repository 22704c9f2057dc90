-- ===== src/Proc/Procfs.antt =====
-- proc/read.go: `proccache`, what the program uses of the library procfs, and `FS`. A read of a file
-- takes the state of the world and returns it, so that two reads of one file may differ.
use process_exporter.Prelude.{ℕ, Bool, Option, none, some, List, Text}
use process_exporter.Proc.Types.{ProcId}
pub mod Details
pub mod Metrics
pub mod Listing
pub mod Identity
pub mod Failures
pub mod Visits
pub mod Hierarchy
pub mod Scanning
pub mod Snapshot
pub mod Refines
pub mod Ends

-- An error of the library: `os.ErrNotExist` itself, or another.
pub data LibError : Type 0 where
  os_not_exist lib_error : LibError

pub data Reply (A : Type 0) : Type 0 where
  got : A → Reply A
  failed : LibError → Reply A

-- What the program uses of `procfs.ProcStat`, with the results of its methods `ResidentMemory` and
-- `VirtualMemory`.
pub record ProcStat : Type 0 where
  pub comm : Text
  pub state : Text
  pub ppid : ℕ
  pub min_flt : ℕ
  pub maj_flt : ℕ
  pub utime : ℕ
  pub stime : ℕ
  pub num_threads : ℕ
  pub starttime : ℕ
  pub resident_memory : ℕ
  pub virtual_memory : ℕ

-- `procfs.ProcStatus`; the second of the four user ids is the effective one.
pub record ProcStatus : Type 0 where
  pub effective_uid : ℕ
  pub vm_swap : ℕ
  pub voluntary_ctxt_switches : ℕ
  pub non_voluntary_ctxt_switches : ℕ

pub record Cgroup : Type 0 where
  pub hierarchy_id : ℕ
  pub path : Text

pub record ProcIo : Type 0 where
  pub read_bytes : ℕ
  pub write_bytes : ℕ

pub record SmapsRollup : Type 0 where
  pub pss : ℕ
  pub swap_pss : ℕ

-- The library: `H` is the type of its `Proc`, `M` that of its `FS`, `W` the state of the world. A
-- slice that may be nil is an option.
pub record Library (W H M : Type 0) : Type 0 where
  pub pid : H → ℕ
  pub new_stat : H → W → Reply ProcStat × W
  pub new_status : H → W → Reply ProcStatus × W
  pub cgroups : H → W → Reply (Option (List Cgroup)) × W
  pub cmd_line : H → W → Reply (Option (List Text)) × W
  pub wchan : H → W → Reply Text × W
  pub io : H → W → Reply ProcIo × W
  pub file_descriptors_len : H → W → Reply ℕ × W
  -- `NewLimits`, of which only `OpenFiles` is used
  pub open_files_limit : H → W → Reply ℕ × W
  pub smaps_rollup : H → W → Reply SmapsRollup × W
  pub new_fs : Text → W → Reply M × W
  -- `NewStat` of the file system, of which only `BootTime` is used
  pub boot_time : M → W → Reply ℕ × W
  pub all_procs : M → W → Reply (List H) × W
  -- `filepath.Join(mountPoint, pid, "task")`
  pub task_path : Text → Text → Text

-- `FS`
pub record Fs (M : Type 0) : Type 0 where
  pub fs : M
  pub boot_time : ℕ
  pub mount_point : Text
  pub gather_smaps : Bool

-- `proccache`, without `fs`; `none` is nil.
pub record ProcCache (H : Type 0) : Type 0 where
  pub handle : H
  pub procid : Option ProcId
  pub stat : Option ProcStat
  pub status : Option ProcStatus
  pub cmdline : Option (List Text)
  pub cgroups : Option (List Cgroup)
  pub io : Option ProcIo
  pub wchan : Option Text

-- `&proc{proccache{Proc: p.Procs[i], fs: p.fs}}`
abbrev pub new_cache : {H : Type 0} → H → ProcCache H
new_cache h = record {
  handle = h;
  procid = none;
  stat = none;
  status = none;
  cmdline = none;
  cgroups = none;
  io = none;
  wchan = none;
}

-- The reads that are cached. Each returns the value that is there, or reads it and keeps it if the
-- read succeeds.
module _ {W H : Type 0} where
  -- What a read that was not cached leaves.
  abbrev pub kept :
      {A : Type 0}
      → (A → ProcCache H → ProcCache H)
      → ProcCache H
      → Reply A × W
      → Reply A × ProcCache H × W
  kept store p (got a, w) = (got a, store a p, w)
  kept store p (failed e, w) = (failed e, p, w)

  abbrev pub cached :
      {A : Type 0}
      → Option A
      → (A → ProcCache H → ProcCache H)
      → (W → Reply A × W)
      → ProcCache H
      → W
      → Reply A × ProcCache H × W
  cached (some a) store read p w = (got a, p, w)
  cached none store read p w = kept store p (read w)

  -- A slice: nil is kept as nil, and so read again.
  abbrev pub cached_slice :
      {A : Type 0}
      → Option (List A)
      → (Option (List A) → ProcCache H → ProcCache H)
      → (W → Reply (Option (List A)) × W)
      → ProcCache H
      → W
      → Reply (Option (List A)) × ProcCache H × W
  cached_slice (some xs) store read p w = (got (some xs), p, w)
  cached_slice none store read p w = kept store p (read w)

module _ {W H M : Type 0} (lib : Library W H M) where
  -- `getStat`
  unfoldable pub get_stat : ProcCache H → W → Reply ProcStat × ProcCache H × W
  get_stat p w = cached p.stat (λ s q. record q { stat = some s }) (lib.new_stat p.handle) p w

  -- `getStatus`
  unfoldable pub get_status : ProcCache H → W → Reply ProcStatus × ProcCache H × W
  get_status p w =
      cached p.status (λ s q. record q { status = some s }) (lib.new_status p.handle) p w

  -- `getCgroups`
  unfoldable pub get_cgroups : ProcCache H → W → Reply (Option (List Cgroup)) × ProcCache H × W
  get_cgroups p w =
      cached_slice p.cgroups (λ s q. record q { cgroups = s }) (lib.cgroups p.handle) p w

  -- `getCmdLine`
  unfoldable pub get_cmd_line : ProcCache H → W → Reply (Option (List Text)) × ProcCache H × W
  get_cmd_line p w =
      cached_slice p.cmdline (λ s q. record q { cmdline = s }) (lib.cmd_line p.handle) p w

  -- `getWchan`
  unfoldable pub get_wchan : ProcCache H → W → Reply Text × ProcCache H × W
  get_wchan p w = cached p.wchan (λ s q. record q { wchan = some s }) (lib.wchan p.handle) p w

  -- `getIo`
  unfoldable pub get_io : ProcCache H → W → Reply ProcIo × ProcCache H × W
  get_io p w = cached p.io (λ s q. record q { io = some s }) (lib.io p.handle) p w

  -- `&ID{Pid: p.GetPid(), StartTimeRel: stat.Starttime}`
  abbrev pub id_from : ProcCache H → ProcStat → ProcId
  id_from p stat = record { pid = lib.pid p.handle; start_time_rel = stat.starttime }

  abbrev pub with_procid : Reply ProcStat × ProcCache H × W → Reply ProcId × ProcCache H × W
  with_procid (got stat, p, w) =
      (got (id_from p stat), record p { procid = some (id_from p stat) }, w)
  with_procid (failed e, p, w) = (failed e, p, w)

  abbrev pub or_read_id : Option ProcId → ProcCache H → W → Reply ProcId × ProcCache H × W
  or_read_id (some id) p w = (got id, p, w)
  or_read_id none p w = with_procid (get_stat p w)

  -- `GetProcID`
  unfoldable pub get_proc_id : ProcCache H → W → Reply ProcId × ProcCache H × W
  unfolding get_stat
  get_proc_id p w = or_read_id p.procid p w
