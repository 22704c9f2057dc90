-- ===== src/Tests/Data.antt =====
-- Inputs of the tests: natural numbers in place of `float64`, processes and trackers.
use process_exporter.Prelude.{
  ℕ, ◌+◌, ◌-◌, Bool, true, false, some, [], ◌∷◌, bytes, ltb, nat_beq, Float64, pos,
}
use process_exporter.Proc.Types.{
  ProcId, Static, Counts, Memory, States, Metrics, IdInfo, Proc, Iter, MatchNamer, ok,
}
use process_exporter.Proc.Tracker.Defs.{Tracker, TrackedProc, Update}
use process_exporter.Proc.Tracker.Cycle.{Env}
use process_exporter.Proc.Grouper.Defs.{Grouper}

instance abbrev pub nat_float : Float64 ℕ
nat_float = record {
  fzero = 0;
  fadd = λ a b. a + b;
  fsub = λ a b. a - b;
  fdiv = λ a b. 0;
  flt = ltb;
  of_int = λ z. 0;
  of_uint = λ n. n;
  parse_float = λ s. some 0;
}

abbrev pub counts_of : ℕ → Counts ℕ
counts_of n = record {
  cpu_user_time = n;
  cpu_system_time = n;
  read_bytes = n;
  write_bytes = n;
  major_page_faults = n;
  minor_page_faults = n;
  ctx_switch_voluntary = n;
  ctx_switch_nonvoluntary = n;
}

abbrev pub memory_of : ℕ → Memory
memory_of n = record {
  resident_bytes = n;
  virtual_bytes = n;
  vm_swap_bytes = 0;
  proportional_bytes = 0;
  proportional_swap_bytes = 0;
}

abbrev pub one_running : States
one_running = record { running = 1; sleeping = 0; waiting = 0; zombie = 0; other = 0 }

abbrev pub metrics_of : ℕ → Metrics ℕ
metrics_of n = record {
  counts = counts_of n;
  memory = memory_of n;
  filedesc = record { open_count = pos n; limit = 100 };
  num_threads = 1;
  states = one_running;
  wchan = [];
}

abbrev pub id_of : ℕ → ProcId
id_of pid = record { pid = pid; start_time_rel = 7 }

abbrev pub static_of : ℕ → Static
static_of parent = record {
  name = bytes "worker";
  cmdline = [];
  cgroups = [];
  cgroup_v2_path = bytes "/a";
  parent_pid = parent;
  start_time = 40;
  effective_uid = 0;
}

-- A process, by its pid and the pid of its parent.
abbrev pub info_of : ℕ → ℕ → IdInfo ℕ
info_of pid parent = record {
  id = id_of pid;
  static = static_of parent;
  metrics = metrics_of pid;
  threads = [];
}

abbrev pub proc_of : ℕ → ℕ → Proc ℕ
proc_of pid parent = record {
  get_proc_id = ok (id_of pid);
  get_static = ok (static_of parent);
  get_metrics = ok (metrics_of pid, 0);
  get_threads = ([], false);
}

abbrev pub two_procs : Iter ℕ
two_procs = record { procs = proc_of 10 1 ∷ proc_of 11 10 ∷ []; close_fails = false }

-- Names the process of pid 10 alone.
abbrev pub namer : MatchNamer
namer attrs = (nat_beq attrs.pid 10, bytes "main")

abbrev pub env_at : ℕ → Env
env_at now = record {
  start = now;
  scan_time = now;
  ignore_time = λ id. now;
  lookup_id = λ uid. some (bytes "root");
}

abbrev pub tracked_of : ℕ → TrackedProc ℕ
tracked_of pid = record {
  last_update = 50;
  static = static_of 1;
  metrics = metrics_of pid;
  lastaccum = counts_of 0;
  group_name = bytes "main";
  threads = [];
}

-- A tracker that tracks the process of pid 10.
abbrev pub tracker_of_one : Tracker ℕ
tracker_of_one = record {
  namer = namer;
  tracked = (id_of 10, some (tracked_of 10)) ∷ [];
  proc_ids = (10, id_of 10) ∷ [];
  first_update_at = 45;
  track_children = true;
  recheck = false;
  recheck_time_limit = pos 0;
  username = [];
}

abbrev pub update_of : ℕ → Update ℕ
update_of n = record {
  group_name = bytes "main";
  cgroup_v2_path = bytes "/a";
  latest = counts_of n;
  memory = memory_of n;
  filedesc = record { open_count = pos n; limit = 100 };
  start = 40 + n;
  num_threads = 1;
  states = one_running;
  wchans = [];
  threads = [];
}

-- A grouper whose group "main" has counted 5 of everything.
abbrev pub grouper_of : Bool → Grouper ℕ
grouper_of remove_empty = record {
  group_accum = (bytes "main", counts_of 5) ∷ [];
  tracker = tracker_of_one;
  thread_accum = [];
  remove_empty_groups = remove_empty;
}
