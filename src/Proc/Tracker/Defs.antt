-- ===== src/Proc/Tracker/Defs.antt =====
-- proc/tracker.go: `Tracker`, `trackedProc`, `track`, `ignore`, `trackedProc.update` and
-- `getUpdate`. What is only logged is left out.
use process_exporter.Prelude.{
  ℕ, Bool, Option, none, some, List, [], ◌∷◌, Text, Time, Duration, Float64, ◌==◌, if◌then◌else◌,
  ltb, Map, get, put, is_empty, length, add64, add_duration, nat_eq, bytes_eq, is_zero,
}
use process_exporter.Proc.Types.{
  ProcId, ThreadId, Static, Counts, Delta, Memory, Filedesc, States, Metrics, Thread, IdInfo,
  MatchNamer, id_eq,
}
use process_exporter.Proc.Counts.{zero_counts, sub_counts}

pub record TrackedThread (F : Type 0) : Type 0 where
  pub name : Text
  pub accum : Counts F
  pub latest : Delta F
  pub last_update : Time
  pub wchan : Text

-- `threads` is empty where the source has a nil map.
pub record TrackedProc (F : Type 0) : Type 0 where
  pub last_update : Time
  pub static : Static
  pub metrics : Metrics F
  pub lastaccum : Delta F
  pub group_name : Text
  pub threads : Map ThreadId (TrackedThread F)

-- `tracked` holds nil, here `none`, for a process that is ignored.
pub record Tracker (F : Type 0) : Type 0 where
  pub namer : MatchNamer
  pub tracked : Map ProcId (Option (TrackedProc F))
  pub proc_ids : Map ℕ ProcId
  pub first_update_at : Time
  pub track_children : Bool
  pub recheck : Bool
  pub recheck_time_limit : Duration
  pub username : Map ℕ Text

pub record ThreadUpdate (F : Type 0) : Type 0 where
  pub thread_name : Text
  pub latest : Delta F

pub record Update (F : Type 0) : Type 0 where
  pub group_name : Text
  pub cgroup_v2_path : Text
  pub latest : Delta F
  pub memory : Memory
  pub filedesc : Filedesc
  pub start : Time
  pub num_threads : ℕ
  pub states : States
  pub wchans : Map Text ℕ
  pub threads : List (ThreadUpdate F)

pub record CollectErrors : Type 0 where
  pub read : ℕ
  pub partial : ℕ

abbrev pub no_errors : CollectErrors
no_errors = record { read = 0; partial = 0 }

-- `u.Wchans[wchan]++`, unless the name is empty
unfoldable pub count_wchan : Text → Map Text ℕ → Map Text ℕ
count_wchan wchan m =
    if is_empty wchan
    then m
    else elim (get wchan m) [ none ↦ put wchan 1 m | some n ↦ put wchan (add64 n 1) m ]

module _ {F : Type 0} where
  unfoldable pub thread_updates : Map ThreadId (TrackedThread F) → List (ThreadUpdate F)
  thread_updates [] = []
  thread_updates ((id, thr) ∷ threads) =
      record { thread_name = thr.name; latest = thr.latest } ∷ thread_updates threads

  unfoldable pub count_wchans : Map ThreadId (TrackedThread F) → Map Text ℕ → Map Text ℕ
  unfolding count_wchan
  count_wchans [] m = m
  count_wchans ((id, thr) ∷ threads) m = count_wchans threads (count_wchan thr.wchan m)

  -- `(tp *trackedProc) getUpdate()`
  unfoldable pub get_update : TrackedProc F → Update F
  unfolding thread_updates count_wchans
  get_update tp = record {
    group_name = tp.group_name;
    cgroup_v2_path = tp.static.cgroup_v2_path;
    latest = tp.lastaccum;
    memory = tp.metrics.memory;
    filedesc = tp.metrics.filedesc;
    start = tp.static.start_time;
    num_threads = tp.metrics.num_threads;
    states = tp.metrics.states;
    wchans = if ltb 1 (length tp.threads) then count_wchans tp.threads own else own;
    threads = if ltb 1 (length tp.threads) then thread_updates tp.threads else [];
  }
    where
      own : Map Text ℕ
      own = if is_empty tp.metrics.wchan then [] else (tp.metrics.wchan, 1) ∷ []

  -- `(t *Tracker) ignore(id, startTime)`, where `now` is what `time.Now()` answers
  unfoldable pub ignore : ProcId → Time → Time → Tracker F → Tracker F
  ignore id start_time now t =
      let ignored : Tracker F = record t { tracked = put id none t.tracked } in
      if t.recheck
      then if is_zero t.recheck_time_limit
        then t
        else if ltb now (add_duration start_time t.recheck_time_limit)
        then t
        else ignored
      else ignored

module _ {F : Type 0} ⦃fl : Float64 F⦄ where
  -- `NewTracker`
  unfoldable pub new_tracker : MatchNamer → Bool → Bool → Duration → Tracker F
  new_tracker namer track_children recheck recheck_time_limit = record {
    namer = namer;
    tracked = [];
    proc_ids = [];
    first_update_at = 0;
    track_children = track_children;
    recheck = recheck;
    recheck_time_limit = recheck_time_limit;
    username = [];
  }

  unfoldable pub first_threads :
      List (Thread F) → Map ThreadId (TrackedThread F) → Map ThreadId (TrackedThread F)
  first_threads [] m = m
  first_threads (thr ∷ threads) m = first_threads threads (
      put thr.thread_id
        (record {
          name = thr.thread_name;
          accum = thr.counts;
          latest = zero_counts;
          last_update = 0;
          wchan = thr.wchan;
        })
        m)

  -- `(t *Tracker) track(groupName, idinfo)`
  unfoldable pub track : Text → IdInfo F → Tracker F → Tracker F
  unfolding first_threads
  track group_name info t = record t {
    tracked =
        put info.id
          (some (record {
            last_update = 0;
            static = info.static;
            metrics = info.metrics;
            lastaccum =
                if ltb t.first_update_at info.static.start_time
                then info.metrics.counts
                else zero_counts;
            group_name = group_name;
            threads = first_threads info.threads [];
          }))
          t.tracked;
  }

  -- The entry of a thread after an update: a thread seen before reports its increase.
  unfoldable pub next_thread : Time → Thread F → Option (TrackedThread F) → TrackedThread F
  next_thread now thr none = record {
    name = thr.thread_name;
    accum = thr.counts;
    latest = zero_counts;
    last_update = now;
    wchan = thr.wchan;
  }
  next_thread now thr (some old) = record {
    name = thr.thread_name;
    accum = thr.counts;
    latest = sub_counts thr.counts old.accum;
    last_update = now;
    wchan = thr.wchan;
  }

  unfoldable pub put_threads :
      Time → List (Thread F) → Map ThreadId (TrackedThread F) → Map ThreadId (TrackedThread F)
  unfolding next_thread
  put_threads now [] m = m
  put_threads now (thr ∷ threads) m =
      put_threads now threads (put thr.thread_id (next_thread now thr (get thr.thread_id m)) m)

  unfoldable pub drop_old_threads :
      Time → Map ThreadId (TrackedThread F) → Map ThreadId (TrackedThread F)
  drop_old_threads now [] = []
  drop_old_threads now ((id, thr) ∷ m) =
      let rest = drop_old_threads now m in if thr.last_update == now then (id, thr) ∷ rest else rest

  -- `(tp *trackedProc) update(metrics, now, cerrs, threads)`
  unfoldable pub update_proc : Metrics F → Time → List (Thread F) → TrackedProc F → TrackedProc F
  unfolding put_threads drop_old_threads
  update_proc metrics now threads tp = record tp {
    lastaccum = sub_counts metrics.counts tp.metrics.counts;
    metrics = metrics;
    last_update = now;
    threads =
        if ltb 1 (length threads)
        then drop_old_threads now (put_threads now threads tp.threads)
        else [];
  }
