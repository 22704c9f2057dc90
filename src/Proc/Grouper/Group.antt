-- ===== src/Proc/Grouper/Group.antt =====
-- proc/grouper.go: `Group` and `groupadd`, which adds one report to a group.
use process_exporter.Prelude.{
  ℕ, suc, Bool, true, false, none, some, List, [], ◌∷◌, Text, Time, ℤ, pos, negsuc, Float64, ◌==◌,
  if◌then◌else◌, ltb, Map, get, put, is_empty, not, ◌&&◌, ◌||◌, add64, to_u64, nat_eq, bytes_eq,
}
use process_exporter.Proc.Types.{Counts, Memory, States}
use process_exporter.Proc.Counts.{zero_counts, add_counts, zero_states, add_states}
use process_exporter.Proc.Tracker.Defs.{Update}

pub record Threads (F : Type 0) : Type 0 where
  pub name : Text
  pub num_threads : ℕ
  pub counts : Counts F

pub record Group (F : Type 0) : Type 0 where
  pub counts : Counts F
  pub states : States
  pub wchans : Map Text ℕ
  pub procs : ℕ
  pub memory : Memory
  pub oldest_start_time : Time
  pub open_fds : ℕ
  pub worst_fd_ratio : F
  pub num_threads : ℕ
  pub threads : List (Threads F)
  pub cgroup_v2_path : Text
  pub cgroup_v2_conflict : Bool
  pub cgroup_v2_saw_empty : Bool

abbrev pub zero_memory : Memory
zero_memory = record {
  resident_bytes = 0;
  virtual_bytes = 0;
  vm_swap_bytes = 0;
  proportional_bytes = 0;
  proportional_swap_bytes = 0;
}

unfoldable pub add_memory : Memory → Memory → Memory
add_memory a b = record {
  resident_bytes = add64 a.resident_bytes b.resident_bytes;
  virtual_bytes = add64 a.virtual_bytes b.virtual_bytes;
  vm_swap_bytes = add64 a.vm_swap_bytes b.vm_swap_bytes;
  proportional_bytes = add64 a.proportional_bytes b.proportional_bytes;
  proportional_swap_bytes = add64 a.proportional_swap_bytes b.proportional_swap_bytes;
}

-- `grp.Wchans[wchan] += count` for each entry of the report
unfoldable pub add_wchans : Map Text ℕ → Map Text ℕ → Map Text ℕ
add_wchans [] m = m
add_wchans ((wchan, count) ∷ wchans) m =
    add_wchans wchans
      (elim (get wchan m) [ none ↦ put wchan count m | some n ↦ put wchan (add64 n count) m ])

-- `ts.Filedesc.Open != -1`
abbrev pub is_known : ℤ → Bool
is_known (pos n) = true
is_known (negsuc (suc n)) = true
is_known _ = false

unfoldable pub add_open_fds : ℕ → ℤ → ℕ
add_open_fds fds count = if is_known count then add64 fds (to_u64 count) else fds

unfoldable pub older : Time → Time → Time
older oldest start = if (oldest == 0) || ltb start oldest then start else oldest

-- The three fields of a group that follow the cgroup of its processes.
pub record Cgroups : Type 0 where
  pub path : Text
  pub conflict : Bool
  pub saw_empty : Bool

-- Empty seen together with a resolved path.
unfoldable pub mark_mixed : Cgroups → Cgroups
mark_mixed c = if c.saw_empty && not (is_empty c.path) then record c { conflict = true } else c

-- The block under `if !grp.CgroupV2Conflict`.
unfoldable pub add_cgroup : Text → Cgroups → Cgroups
unfolding mark_mixed
add_cgroup path c =
    if c.conflict
    then c
    else mark_mixed (
        if is_empty path
        then record c { saw_empty = true }
        else if is_empty c.path
        then record c { path = path }
        else if c.path == path
        then c
        else record c { conflict = true })

module _ {F : Type 0} ⦃fl : Float64 F⦄ where
  -- The zero value of `Group`.
  unfoldable pub zero_group : Group F
  unfolding zero_counts
  zero_group = record {
    counts = zero_counts;
    states = zero_states;
    wchans = [];
    procs = 0;
    memory = zero_memory;
    oldest_start_time = 0;
    open_fds = 0;
    worst_fd_ratio = fl.fzero;
    num_threads = 0;
    threads = [];
    cgroup_v2_path = [];
    cgroup_v2_conflict = false;
    cgroup_v2_saw_empty = false;
  }

  abbrev pub cgroups_of : Group F → Cgroups
  cgroups_of grp = record {
    path = grp.cgroup_v2_path;
    conflict = grp.cgroup_v2_conflict;
    saw_empty = grp.cgroup_v2_saw_empty;
  }

  unfoldable pub groupadd : Group F → Update F → Group F
  unfolding add_memory add_open_fds
  groupadd grp ts =
      let cgroups = add_cgroup ts.cgroup_v2_path (cgroups_of grp) in
      let openratio = fl.fdiv (fl.of_int ts.filedesc.open_count) (fl.of_uint ts.filedesc.limit) in
      record grp {
        procs = add64 grp.procs 1;
        memory = add_memory grp.memory ts.memory;
        open_fds = add_open_fds grp.open_fds ts.filedesc.open_count;
        worst_fd_ratio =
            if fl.flt grp.worst_fd_ratio openratio then openratio else grp.worst_fd_ratio;
        num_threads = add64 grp.num_threads ts.num_threads;
        counts = add_counts grp.counts ts.latest;
        states = add_states grp.states ts.states;
        oldest_start_time = older grp.oldest_start_time ts.start;
        wchans = add_wchans ts.wchans grp.wchans;
        cgroup_v2_path = cgroups.path;
        cgroup_v2_conflict = cgroups.conflict;
        cgroup_v2_saw_empty = cgroups.saw_empty;
      }
