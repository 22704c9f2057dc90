-- ===== src/Proc/Procfs/Metrics.antt =====
-- proc/read.go: `GetCounts`, `GetStates` and `GetMetrics`. A method on a `proc` value works on a copy
-- of the cache, which is lost when it returns.
use process_exporter.Prelude.{
  ℕ, Bool, true, false, [], Text, bytes, ℤ, pos, negsuc, bit_or, Float64, ◌==◌, bytes_eq, nat_eq,
  if◌then◌else◌,
}
use process_exporter.Proc.Types.{Counts, Memory, States, Metrics, Read, ok, err}
use process_exporter.Proc.Counts.{zero_states}
use process_exporter.Proc.Procfs.{
  Reply, got, failed, ProcStat, ProcStatus, ProcIo, SmapsRollup, Library, Fs, ProcCache, get_stat,
  get_status, get_wchan, get_io,
}
use process_exporter.Proc.Procfs.Details.{
  or_zero_value, has_failed, zero_stat, zero_status, as_read_error, formatted, passed_on,
}

-- The switch in `GetStates`.
unfoldable pub states_of : Text → States
states_of state =
    if state == bytes "R"
    then record zero_states { running = 1 }
    else if state == bytes "S"
    then record zero_states { sleeping = 1 }
    else if state == bytes "D"
    then record zero_states { waiting = 1 }
    else if state == bytes "Z"
    then record zero_states { zombie = 1 }
    else record zero_states { other = 1 }

module _ {W H M : Type 0} (lib : Library W H M) (fs : Fs M) where
  module _ {F : Type 0} ⦃fl : Float64 F⦄ where
    abbrev pub counts_from : ProcStat → ProcStatus → ProcIo → Counts F
    counts_from stat status io = record {
      cpu_user_time = fl.fdiv (fl.of_uint stat.utime) (fl.of_uint 100);
      cpu_system_time = fl.fdiv (fl.of_uint stat.stime) (fl.of_uint 100);
      read_bytes = io.read_bytes;
      write_bytes = io.write_bytes;
      major_page_faults = stat.maj_flt;
      minor_page_faults = stat.min_flt;
      ctx_switch_voluntary = status.voluntary_ctxt_switches;
      ctx_switch_nonvoluntary = status.non_voluntary_ctxt_switches;
    }

    abbrev pub counts_io :
        ProcStat → ProcStatus → Reply ProcIo × ProcCache H × W → Read (Counts F × ℕ) × W
    counts_io stat status (r, p, w) = (
      ok (
        counts_from stat status (or_zero_value (record { read_bytes = 0; write_bytes = 0 }) r),
        if has_failed r then 1 else 0,
      ),
      w,
    )

    abbrev pub counts_status :
        ProcStat → Reply ProcStatus × ProcCache H × W → Read (Counts F × ℕ) × W
    counts_status stat (failed e, p, w) = (err (formatted (as_read_error e)), w)
    counts_status stat (got status, p, w) = counts_io stat status (get_io lib p w)

    abbrev pub counts_stat : Reply ProcStat × ProcCache H × W → Read (Counts F × ℕ) × W
    counts_stat (failed e, p, w) = (err (formatted (as_read_error e)), w)
    counts_stat (got stat, p, w) = counts_status stat (get_status lib p w)

    -- `GetCounts`, a method on the value: what it reads is not kept.
    unfoldable pub get_counts : ProcCache H → W → Read (Counts F × ℕ) × W
    get_counts p w = counts_stat (get_stat lib p w)

  -- `GetStates`, whose error the callers ignore
  unfoldable pub get_states : ProcCache H → W → States × W
  unfolding states_of
  get_states p w =
      let (r, p', w') = get_stat lib p w in
      ((elim r [ got stat ↦ states_of stat.state | failed e ↦ zero_states ]), w')

  -- `GetWchan`, whose error `GetThreads` ignores
  unfoldable pub get_wchan_value : ProcCache H → W → Text × W
  get_wchan_value p w = let (r, p', w') = get_wchan lib p w in (or_zero_value [] r, w')

  abbrev pub memory_from : ProcStat → ProcStatus → Memory
  memory_from stat status = record {
    resident_bytes = stat.resident_memory;
    virtual_bytes = stat.virtual_memory;
    vm_swap_bytes = status.vm_swap;
    proportional_bytes = 0;
    proportional_swap_bytes = 0;
  }

  -- `softerrors |= 1`, if a read has failed
  abbrev pub soften : {A : Type 0} → Reply A → ℕ → ℕ
  soften (got a) soft = soft
  soften (failed e) soft = bit_or soft 1

  -- `int64(numfds)`, which is -1 if the read has failed
  abbrev pub open_count_of : Reply ℕ → ℤ
  open_count_of (got n) = pos n
  open_count_of (failed e) = negsuc 0

  abbrev pub add_smaps : Memory → Reply SmapsRollup × W → Memory × Bool × W
  add_smaps memory (got smaps, w) = (
    record memory { proportional_bytes = smaps.pss; proportional_swap_bytes = smaps.swap_pss },
    false,
    w,
  )
  add_smaps memory (failed e, w) = (memory, true, w)

  -- The block under `if p.proccache.fs.GatherSMaps`; the flag is whether the read has failed.
  unfoldable pub gather : H → Memory → W → Memory × Bool × W
  gather h memory w =
      let read = add_smaps memory (lib.smaps_rollup h w) in
      if fs.gather_smaps then read else (memory, false, w)

  module _ {F : Type 0} ⦃fl : Float64 F⦄ where
    -- `GetMetrics` from the wait channel on.
    abbrev pub metrics_end :
        Counts F
        → ProcStat
        → States
        → ProcStatus
        → Reply ℕ
        → ℕ
        → ProcCache H
        → ℕ
        → W
        → Read (Metrics F × ℕ) × W
    metrics_end counts stat states status numfds limit p soft w =
        let (wchan, p', w') = get_wchan lib p w in
        let (memory, lost, w'') = gather p'.handle (memory_from stat status) w' in
        let soft' = soften wchan soft in
        (
          ok (
            record {
              counts = counts;
              memory = memory;
              filedesc = record { open_count = open_count_of numfds; limit = limit };
              num_threads = stat.num_threads;
              states = states;
              wchan = or_zero_value [] wchan;
            },
            if lost then bit_or soft' 1 else soft',
          ),
          w'',
        )

    abbrev pub metrics_limits :
        Counts F
        → ProcStat
        → States
        → ProcStatus
        → Reply ℕ
        → ProcCache H
        → ℕ
        → Reply ℕ × W
        → Read (Metrics F × ℕ) × W
    metrics_limits counts stat states status numfds p soft (failed e, w) = (err (passed_on e), w)
    metrics_limits counts stat states status numfds p soft (got limit, w) =
        metrics_end counts stat states status numfds limit p soft w

    -- `GetMetrics` after `GetCounts`, on its own copy of the cache.
    abbrev pub metrics_counts : ProcCache H → Read (Counts F × ℕ) × W → Read (Metrics F × ℕ) × W
    metrics_counts p (err e, w) = (err e, w)
    metrics_counts p (ok (counts, soft), w) =
        let (stat, p1, w1) = get_stat lib p w in
        let (states, w2) = get_states p1 w1 in
        let (status, p2, w3) = get_status lib p1 w2 in
        let (numfds, w4) = lib.file_descriptors_len p2.handle w3 in
        metrics_limits counts (or_zero_value zero_stat stat) states
          (or_zero_value zero_status status) numfds p2 (soften numfds soft)
          (lib.open_files_limit p2.handle w4)

    -- `GetMetrics`, a method on the value: the caller's cache stays as it was.
    unfoldable pub get_metrics : ProcCache H → W → Read (Metrics F × ℕ) × W
    unfolding get_counts get_states gather
    get_metrics p w = metrics_counts p (get_counts p w)
