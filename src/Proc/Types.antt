-- ===== src/Proc/Types.antt =====
-- The types of proc/read.go and common.go. Go's `int` counters and `uint64` are 64-bit patterns;
-- a pid is a natural number, as procfs takes it from the name of a directory.
use process_exporter.Prelude.{
  ℕ, ◌≡◌, ◌↔◌, Bool, true, false, ◌&&◌, List, arith, Text, Time, ℤ, Eq, nat_beq, false,
}

-- A process is named by its pid and its start time after boot, in clock ticks.
pub record ProcId : Type 0 where
  pub pid : ℕ
  pub start_time_rel : ℕ

unfoldable pub id_beq : ProcId → ProcId → Bool
id_beq a b = nat_beq a.pid b.pid && nat_beq a.start_time_rel b.start_time_rel

pub id_beq_iff : (a b : ProcId) → (id_beq a b ≡ true) ↔ (a ≡ b)
unfolding id_beq
id_beq_iff a b = ground arith

instance abbrev pub id_eq : Eq ProcId
id_eq = record { equal = id_beq; equal_iff = id_beq_iff }

abbrev pub ThreadId : Type 0
ThreadId = ProcId

-- What `Proc.GetStatic` reads.
pub record Static : Type 0 where
  pub name : Text
  pub cmdline : List Text
  pub cgroups : List Text
  pub cgroup_v2_path : Text
  pub parent_pid : ℕ
  pub start_time : Time
  pub effective_uid : ℕ

-- Counters of threads, processes and groups; `F` stands for `float64`.
pub record Counts (F : Type 0) : Type 0 where
  pub cpu_user_time : F
  pub cpu_system_time : F
  pub read_bytes : ℕ
  pub write_bytes : ℕ
  pub major_page_faults : ℕ
  pub minor_page_faults : ℕ
  pub ctx_switch_voluntary : ℕ
  pub ctx_switch_nonvoluntary : ℕ

-- `Delta` has the representation of `Counts`.
abbrev pub Delta : Type 0 → Type 0
Delta F = Counts F

pub record Memory : Type 0 where
  pub resident_bytes : ℕ
  pub virtual_bytes : ℕ
  pub vm_swap_bytes : ℕ
  pub proportional_bytes : ℕ
  pub proportional_swap_bytes : ℕ

-- `open_count` is -1 if it is unknown.
pub record Filedesc : Type 0 where
  pub open_count : ℤ
  pub limit : ℕ

pub record States : Type 0 where
  pub running : ℕ
  pub sleeping : ℕ
  pub waiting : ℕ
  pub zombie : ℕ
  pub other : ℕ

pub record Metrics (F : Type 0) : Type 0 where
  pub counts : Counts F
  pub memory : Memory
  pub filedesc : Filedesc
  pub num_threads : ℕ
  pub states : States
  pub wchan : Text

pub record Thread (F : Type 0) : Type 0 where
  pub thread_id : ThreadId
  pub thread_name : Text
  pub counts : Counts F
  pub wchan : Text
  pub states : States

pub record IdInfo (F : Type 0) : Type 0 where
  pub id : ProcId
  pub static : Static
  pub metrics : Metrics F
  pub threads : List (Thread F)

-- The errors of the reads: `ErrProcNotExist`, and every other.
pub data ReadError : Type 0 where
  proc_not_exist other_error : ReadError

pub data Read {ℓ} (A : Type ℓ) : Type ℓ where
  ok : A → Read A
  err : ReadError → Read A

-- What the methods of a `Proc` answer while the tracker handles it: each is called at most once.
-- `get_metrics` returns the count of soft errors too, and `get_threads` may fail and yet return
-- threads, hence the flag.
pub record Proc (F : Type 0) : Type 0 where
  pub get_proc_id : Read ProcId
  pub get_static : Read Static
  pub get_metrics : Read (Metrics F × ℕ)
  pub get_threads : List (Thread F) × Bool

-- An `Iter`: the processes for which `Next` returns true, in order, and whether `Close` fails.
pub record Iter (F : Type 0) : Type 0 where
  pub procs : List (Proc F)
  pub close_fails : Bool

-- What a namer sees of a process (common.go).
pub record ProcAttributes : Type 0 where
  pub name : Text
  pub cmdline : List Text
  pub cgroups : List Text
  pub username : Text
  pub pid : ℕ
  pub start_time : Time

-- `MatchNamer.MatchAndName`.
abbrev pub MatchNamer : Type 0
MatchNamer = ProcAttributes → Bool × Text

-- `IDInfo` as a `Proc`: its methods return the fields, and never fail.
abbrev pub as_proc : {F : Type 0} → IdInfo F → Proc F
as_proc info = record {
  get_proc_id = ok info.id;
  get_static = ok info.static;
  get_metrics = ok (info.metrics, 0);
  get_threads = (info.threads, false);
}
