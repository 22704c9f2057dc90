-- ===== src/Proc/Procfs/Listing.antt =====
-- proc/read.go: the iterator, `NewFS`, `AllProcs` and `GetThreads`.
use process_exporter.Prelude.{
  ℕ, zero, suc, Bool, true, false, Option, none, some, List, [], ◌∷◌, ◌++◌, Text, itoa, ℤ, pos,
  negsuc, nth, Float64, if◌then◌else◌,
}
use process_exporter.Proc.Types.{ProcId, Static, Counts, Thread, Read, ok, err}
use process_exporter.Proc.Procfs.{
  Reply, got, failed, Library, Fs, ProcCache, new_cache, get_proc_id,
}
use process_exporter.Proc.Procfs.Details.{get_static}
use process_exporter.Proc.Procfs.Metrics.{get_counts, get_states, get_wchan_value}

-- `procIterator`: the processes, the index and the current process; `fails` is whether there is an
-- error.
pub record ProcIterator (H : Type 0) : Type 0 where
  pub procs : List H
  pub idx : ℤ
  pub fails : Bool
  pub current : Option (ProcCache H)

-- `pi.idx++`
abbrev pub next_index : ℤ → ℤ
next_index (pos n) = pos (suc n)
next_index (negsuc zero) = pos 0
next_index (negsuc (suc n)) = negsuc n

module _ {H : Type 0} where
  abbrev pub opened : List H → Bool → ProcIterator H
  opened procs fails = record { procs = procs; idx = negsuc 0; fails = fails; current = none }

  -- The process at an index, where `idx < length` and the index is not negative.
  abbrev pub proc_at : ℤ → List H → Option (ProcCache H)
  proc_at (negsuc n) procs = none
  proc_at (pos n) procs = elim (nth n procs) [ none ↦ none | some h ↦ some (new_cache h) ]

  abbrev pub is_there : Option (ProcCache H) → Bool
  is_there none = false
  is_there (some p) = true

  -- `Next`
  unfoldable pub next : ProcIterator H → Bool × ProcIterator H
  next it =
      let idx = next_index it.idx in
      let current = proc_at idx it.procs in
      (is_there current, record it { idx = idx; current = current })

  -- `Close`: the error.
  unfoldable pub close : ProcIterator H → Bool × ProcIterator H
  unfolding next
  close it = let (more, it') = next it in (it'.fails, record it' { procs = []; current = none })

module _ {W H M : Type 0} (lib : Library W H M) where
  abbrev pub booted : Text → M → Reply ℕ × W → Option (Fs M) × W
  booted mount_point fs (failed e, w) = (none, w)
  booted mount_point fs (got boot_time, w) = (
    some (record {
      fs = fs;
      boot_time = boot_time;
      mount_point = mount_point;
      gather_smaps = false;
    }),
    w,
  )

  abbrev pub mounted : Text → Reply M × W → Option (Fs M) × W
  mounted mount_point (failed e, w) = (none, w)
  mounted mount_point (got fs, w) = booted mount_point fs (lib.boot_time fs w)

  -- `NewFS`; `none` is an error.
  unfoldable pub new_fs : Text → W → Option (Fs M) × W
  new_fs mount_point w = mounted mount_point (lib.new_fs mount_point w)

  abbrev pub with_tasks : Fs M → Text → Reply M × W → Option (Fs M) × W
  with_tasks fs mount_point (failed e, w) = (none, w)
  with_tasks fs mount_point (got tfs, w) = (
    some (record {
      fs = tfs;
      boot_time = fs.boot_time;
      mount_point = mount_point;
      gather_smaps = fs.gather_smaps;
    }),
    w,
  )

  -- `threadFs`
  unfoldable pub thread_fs : Fs M → ℕ → W → Option (Fs M) × W
  thread_fs fs pid w =
      let mount_point = lib.task_path fs.mount_point (itoa pid) in
      with_tasks fs mount_point (lib.new_fs mount_point w)

  abbrev pub iterator_of : Reply (List H) × W → ProcIterator H × W
  iterator_of (got procs, w) = (opened procs false, w)
  iterator_of (failed e, w) = (opened [] true, w)

  -- `AllProcs`
  unfoldable pub all_procs : Fs M → W → ProcIterator H × W
  all_procs fs w = iterator_of (lib.all_procs fs.fs w)

  module _ {F : Type 0} ⦃fl : Float64 F⦄ (fs : Fs M) where
    abbrev pub thread_counts :
        ProcId → Static → ProcCache H → Read (Counts F × ℕ) × W → Option (Thread F) × W
    thread_counts id static p (err e, w) = (none, w)
    thread_counts id static p (ok (counts, soft), w) =
        let (wchan, w') = get_wchan_value lib fs p w in
        let (states, w'') = get_states lib fs p w' in
        (
          some (record {
            thread_id = id;
            thread_name = static.name;
            counts = counts;
            wchan = wchan;
            states = states;
          }),
          w'',
        )

    abbrev pub thread_static : ProcId → Read Static × ProcCache H × W → Option (Thread F) × W
    thread_static id (err e, p, w) = (none, w)
    thread_static id (ok static, p, w) = thread_counts id static p (get_counts lib fs p w)

    abbrev pub read_thread_id : Reply ProcId × ProcCache H × W → Option (Thread F) × W
    read_thread_id (failed e, p, w) = (none, w)
    read_thread_id (got id, p, w) = thread_static id (get_static lib fs p w)

    -- The body of the loop in `GetThreads`: `none` is a thread that is skipped.
    unfoldable pub read_thread : ProcCache H → W → Option (Thread F) × W
    unfolding get_wchan_value
    read_thread p w = read_thread_id (get_proc_id lib p w)

    abbrev pub append_some : List (Thread F) → Option (Thread F) → List (Thread F)
    append_some threads none = threads
    append_some threads (some thread) = threads ++ thread ∷ []

    -- The loop `for iter.Next()`, on fuel: `none` is a loop that has not ended.
    unfoldable pub read_threads :
        ℕ → ProcIterator H → List (Thread F) → W → Option (List (Thread F) × ProcIterator H × W)
    unfolding read_thread next
    read_threads zero it threads w = none
    read_threads (suc fuel) it threads w =
        let (more, it') = next it in
        elim it'.current [
          | none ↦ some (threads, it', w)
          | some p ↦
              let (thread, w') = read_thread p w in
              read_threads fuel it' (append_some threads thread) w'
        ]

    -- `len(threads) < 2`
    abbrev pub at_least_two : List (Thread F) → List (Thread F)
    at_least_two (t ∷ u ∷ threads) = t ∷ u ∷ threads
    at_least_two _ = []

    abbrev pub threads_end : List (Thread F) × ProcIterator H × W → (List (Thread F) × Bool) × W
    threads_end (threads, it, w) =
        let (fails, it') = close it in ((if fails then [] else at_least_two threads, fails), w)

    abbrev pub threads_result :
        Option (List (Thread F) × ProcIterator H × W) → Option ((List (Thread F) × Bool) × W)
    threads_result none = none
    threads_result (some read) = some (threads_end read)

  module _ {F : Type 0} ⦃fl : Float64 F⦄ where
    abbrev pub threads_in : ℕ → Option (Fs M) × W → Option ((List (Thread F) × Bool) × W)
    threads_in fuel (none, w) = some (([], true), w)
    threads_in fuel (some tfs, w) =
        let (it, w') = all_procs tfs w in threads_result tfs (read_threads tfs fuel it [] w')

    -- `GetThreads`: the threads, and whether there is an error; the outer `none` is a loop that has not
    -- ended on this fuel.
    unfoldable pub get_threads : ℕ → Fs M → ProcCache H → W → Option ((List (Thread F) × Bool) × W)
    unfolding thread_fs all_procs read_threads close
    get_threads fuel fs p w = threads_in fuel (thread_fs fs (lib.pid p.handle) w)
