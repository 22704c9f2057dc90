-- ===== src/Proc/Procfs/Scanning.antt =====
-- The scan of proc/tracker.go over the processes of proc/read.go: `handleProc` on a process that is
-- read from procfs call by call, and the loop over them. `none` is a loop of `GetThreads` that has not
-- ended.
use process_exporter.Prelude.{ℕ, Bool, Option, none, some, List, [], ◌∷◌, Time, Float64, get, put}
use process_exporter.Proc.Types.{
  ProcId, Metrics, Thread, IdInfo, Read, ok, err, other_error, proc_not_exist, id_eq,
}
use process_exporter.Proc.Tracker.Defs.{Tracker, TrackedProc, CollectErrors, no_errors, update_proc}
use process_exporter.Proc.Tracker.Scan.{
  Handled, handle_new, with_threads, soft_errors, push, add_errors,
}
use process_exporter.Proc.Procfs.{
  Reply, got, failed, Library, Fs, ProcCache, new_cache, get_proc_id,
}
use process_exporter.Proc.Procfs.Details.{get_static}
use process_exporter.Proc.Procfs.Metrics.{get_metrics}
use process_exporter.Proc.Procfs.Listing.{get_threads}

module _ {W H M : Type 0} (lib : Library W H M) {F : Type 0} ⦃fl : Float64 F⦄ (fuel : ℕ) (fs : Fs M)
    (now : Time) where
  -- From the test `if known` on: `GetStatic` is called for a new process only.
  abbrev pub read_procfs :
      ProcId
      → Option (TrackedProc F)
      → Metrics F
      → List (Thread F)
      → CollectErrors
      → Tracker F
      → ProcCache H
      → W
      → Handled F × W
  read_procfs id (some last) metrics threads cerrs t p w = (
    (
      record t { tracked = put id (some (update_proc metrics now threads last)) t.tracked },
      none,
      cerrs,
    ),
    w,
  )
  read_procfs id none metrics threads cerrs t p w =
      let (static, p', w') = get_static lib fs p w in
      (handle_new id metrics threads cerrs t static, w')

  -- After `GetThreads`.
  abbrev pub threads_procfs :
      ProcId
      → Option (TrackedProc F)
      → Metrics F × ℕ
      → Tracker F
      → ProcCache H
      → Option ((List (Thread F) × Bool) × W)
      → Option (Handled F × W)
  threads_procfs id known (metrics, soft) t p none = none
  threads_procfs id known (metrics, soft) t p (some ((threads, lost), w)) = some (
      read_procfs id known (with_threads threads metrics) threads
        (record { read = 0; partial = soft_errors soft lost }) t p w)

  -- After `GetMetrics`.
  abbrev pub metrics_procfs :
      ProcId
      → Option (TrackedProc F)
      → Tracker F
      → ProcCache H
      → Read (Metrics F × ℕ) × W
      → Option (Handled F × W)
  metrics_procfs id known t p (err proc_not_exist, w) = some ((t, none, no_errors), w)
  metrics_procfs id known t p (err other_error, w) =
      some ((t, none, record { read = 1; partial = 0 }), w)
  metrics_procfs id known t p (ok metrics, w) =
      threads_procfs id known metrics t p (get_threads lib fuel fs p w)

  -- The test whether the process is known, and whether it is ignored.
  abbrev pub known_procfs :
      ProcId
      → Tracker F
      → ProcCache H
      → W
      → Option (Option (TrackedProc F))
      → Option (Handled F × W)
  known_procfs id t p w (some none) = some ((t, none, no_errors), w)
  known_procfs id t p w (some (some last)) =
      metrics_procfs id (some last) t p (get_metrics lib fs p w)
  known_procfs id t p w none = metrics_procfs id none t p (get_metrics lib fs p w)

  -- After `GetProcID`.
  abbrev pub id_procfs : Tracker F → Reply ProcId × ProcCache H × W → Option (Handled F × W)
  id_procfs t (failed e, p, w) = some ((t, none, no_errors), w)
  id_procfs t (got id, p, w) = known_procfs id t p w (get id t.tracked)

  -- `(t *Tracker) handleProc(proc, updateTime)` on the process with this handle.
  unfoldable pub handle_procfs : Tracker F → H → W → Option (Handled F × W)
  unfolding get_static get_metrics get_threads get_proc_id handle_new with_threads update_proc
  handle_procfs t h w = id_procfs t (get_proc_id lib (new_cache h) w)

  abbrev pub scan_handled :
      Option (Handled F × W)
      → (Handled F → W → Option ((Tracker F × List (IdInfo F) × CollectErrors) × W))
      → Option ((Tracker F × List (IdInfo F) × CollectErrors) × W)
  scan_handled none k = none
  scan_handled (some (handled, w)) k = k handled w

  -- The loop `for procs.Next()` of `update` over the processes that `AllProcs` lists.
  unfoldable pub scan_procfs :
      List H
      → List (IdInfo F)
      → CollectErrors
      → Tracker F
      → W
      → Option ((Tracker F × List (IdInfo F) × CollectErrors) × W)
  unfolding handle_procfs add_errors
  scan_procfs [] news errs t w = some ((t, news, errs), w)
  scan_procfs (h ∷ handles) news errs t w = scan_handled (handle_procfs t h w) (λ handled w'.
      let (t', new, cerrs) = handled in
      scan_procfs handles (push news new) (add_errors errs cerrs) t' w')
