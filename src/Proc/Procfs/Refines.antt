-- ===== src/Proc/Procfs/Refines.antt =====
-- The scan over procfs is a scan over processes that have their answers at hand
-- (proc/tracker.go, proc/read.go).
use process_exporter.Prelude.{
  suc, ℕ, ◌≡◌, refl, sym, ap, ◌∙◌, Bool, Option, none, some, List, [], ◌∷◌, Time, Float64, get,
}
use process_exporter.Proc.Types.{
  ProcId, Metrics, Thread, IdInfo, Proc, Read, ok, err, proc_not_exist, other_error, id_eq,
}
use process_exporter.Proc.Tracker.Defs.{Tracker, TrackedProc, CollectErrors}
use process_exporter.Proc.Tracker.Scan.{
  handle_new, handle_read, handle_metrics, handle_known, handle_id, handle_proc, push, add_errors,
  scan,
}
use process_exporter.Proc.Tracker.Pids.{DistinctPids}
use process_exporter.Proc.Procfs.{
  Reply, got, failed, Library, Fs, ProcCache, new_cache, get_proc_id,
}
use process_exporter.Proc.Procfs.Ends.{IsBounded, get_threads-HasEnded}
use process_exporter.Proc.Procfs.Details.{get_static}
use process_exporter.Proc.Procfs.Metrics.{get_metrics}
use process_exporter.Proc.Procfs.Listing.{get_threads}
use process_exporter.Proc.Procfs.Scanning.{
  read_procfs, threads_procfs, metrics_procfs, known_procfs, id_procfs, handle_procfs, scan_procfs,
}
use process_exporter.Proc.Procfs.Snapshot.{
  DistinctHandles, snapshot_threads, snapshot_id, snapshot, ReadInTurn, all_read, next_read,
  ReadInTurn-DistinctPids,
}

module _ {W H M : Type 0} (lib : Library W H M) {F : Type 0} ⦃fl : Float64 F⦄ (n : ℕ)
    (bound : IsBounded lib n) (fs : Fs M) (now : Time) where
  -- Each part of `handleProc` over procfs is the part of `handleProc` on a process that has these
  -- answers at hand.
  read_procfs-handle_read :
      (id : ProcId) (known : Option (TrackedProc F)) (metrics : Metrics F)
      (threads : List (Thread F)) (cerrs : CollectErrors) (t : Tracker F) (p : ProcCache H) (w : W)
      (q : Proc F)
      → q.get_static ≡ (get_static lib fs p w).0
      → (w' : W) × (read_procfs lib (suc n) fs now id known metrics threads cerrs t p w
          ≡ (handle_read q now id known metrics threads cerrs t, w'))
  unfolding handle_read
  read_procfs-handle_read id (some last) metrics threads cerrs t p w q static = (w, refl)
  read_procfs-handle_read id none metrics threads cerrs t p w q static = (
    (get_static lib fs p w).2,
    ap (λ s. (handle_new id metrics threads cerrs t s, (get_static lib fs p w).2)) (sym static),
  )

  metrics_procfs-handle_metrics :
      (id : ProcId) (known : Option (TrackedProc F)) (t : Tracker F) (p : ProcCache H)
      (r : Read (Metrics F × ℕ) × W) (threads : List (Thread F) × Bool) (w : W) (q : Proc F)
      → get_threads lib (suc n) fs p r.1 ≡ some (threads, w)
      → q.get_threads ≡ threads
      → q.get_static ≡ (get_static lib fs p w).0
      → (w' : W) × (metrics_procfs lib (suc n) fs now id known t p r
          ≡ some (handle_metrics q now id known t r.0, w'))
  unfolding handle_metrics
  metrics_procfs-handle_metrics id known t p (err proc_not_exist, w0) threads w q e k l = (w0, refl)
  metrics_procfs-handle_metrics id known t p (err other_error, w0) threads w q e k l = (w0, refl)
  metrics_procfs-handle_metrics id known t p (ok (metrics, soft), w0) threads w q e k l =
      let (w', same) = read_procfs-handle_read id known _ _ _ t p w q l in
      (
        w',
        ap (threads_procfs lib (suc n) fs now id known (metrics, soft) t p)
              (e ∙ ap (λ x. some (x, w)) (sym k))
            ∙ ap some same,
      )

  known_procfs-handle_known :
      (id : ProcId) (t : Tracker F) (p : ProcCache H) (w0 : W)
      (known : Option (Option (TrackedProc F))) (threads : List (Thread F) × Bool) (w : W)
      (q : Proc F)
      → get_threads lib (suc n) fs p (get_metrics lib fs {F = F} p w0).1 ≡ some (threads, w)
      → q.get_metrics ≡ (get_metrics lib fs {F = F} p w0).0
      → q.get_threads ≡ threads
      → q.get_static ≡ (get_static lib fs p w).0
      → (w' : W) × (known_procfs lib (suc n) fs now id t p w0 known
          ≡ some (handle_known q now id t known, w'))
  unfolding handle_known
  known_procfs-handle_known id t p w0 (some none) threads w q e m k l = (w0, refl)
  known_procfs-handle_known id t p w0 (some (some last)) threads w q e m k l =
      let (w', same) =
        metrics_procfs-handle_metrics id (some last) t p (get_metrics lib fs {F = F} p w0) threads w
          q e k l in
      (w', same ∙ ap (λ x. some (handle_metrics q now id (some last) t x, w')) (sym m))
  known_procfs-handle_known id t p w0 none threads w q e m k l =
      let (w', same) =
        metrics_procfs-handle_metrics id none t p (get_metrics lib fs {F = F} p w0) threads w q e k
          l in
      (w', same ∙ ap (λ x. some (handle_metrics q now id none t x, w')) (sym m))

  id_procfs-handle_id :
      (t : Tracker F) (r : Reply ProcId × ProcCache H × W)
      → (q : Proc F) × (w' : W) × (snapshot_id lib (suc n) fs r ≡ some q)
        × (id_procfs lib (suc n) fs now t r ≡ some (handle_id q now t q.get_proc_id, w'))
  unfolding handle_id
  id_procfs-handle_id t (failed e, p, w) = (_, w, refl, refl)
  id_procfs-handle_id t (got id, p, w) =
      let metrics = get_metrics lib fs {F = F} p w in
      let ((threads, w3), e) = get_threads-HasEnded lib {F = F} n bound fs p metrics.1 in
      let q : Proc F = record {
        get_proc_id = ok id;
        get_static = (get_static lib fs p w3).0;
        get_metrics = metrics.0;
        get_threads = threads;
      } in
      let (w', same) =
        known_procfs-handle_known id t p w (get id t.tracked) threads w3 q e refl refl refl in
      (q, w', ap (snapshot_threads lib (suc n) fs id metrics.0 p) e, same)

  handle_procfs-handle_proc :
      (t : Tracker F) (h : H) (w : W)
      → (q : Proc F) × (w' : W) × (snapshot lib (suc n) fs h w ≡ some q)
        × (handle_procfs lib (suc n) fs now t h w ≡ some (handle_proc q now t, w'))
  unfolding handle_procfs handle_proc snapshot
  handle_procfs-handle_proc t h w = id_procfs-handle_id t (get_proc_id lib (new_cache h) w)

  scan_procfs-scan :
      (handles : List H) (news : List (IdInfo F)) (errs : CollectErrors) (t : Tracker F) (w : W)
      → (procs : List (Proc F)) × (w' : W) × ReadInTurn lib (suc n) fs now handles t w procs w'
        × (scan_procfs lib (suc n) fs now handles news errs t w
            ≡ some (scan procs now news errs t, w'))
  unfolding scan_procfs scan
  scan_procfs-scan [] news errs t w = ([], w, all_read, refl)
  scan_procfs-scan (h ∷ handles) news errs t w =
      let (q, w1, read, handled) = handle_procfs-handle_proc t h w in
      let (t', new, cerrs) = handle_proc q now t in
      let (procs, w', others, same) =
        scan_procfs-scan handles (push news new) (add_errors errs cerrs) t' w1 in
      (q ∷ procs, w', next_read read handled others, rw handled same)

module _ {W H M : Type 0} (lib : Library W H M) {F : Type 0} ⦃fl : Float64 F⦄ where
  -- If no listing has more than `n` processes, and no two of the processes that procfs lists have
  -- one pid, then a scan that reads each of them call by call when its turn comes ends; its result
  -- is that of a scan over what procfs answers about each of them, in order, from the moment of its
  -- turn on; and these processes have distinct pids.
  pub scan_procfs_refines :
      (n : ℕ) (fs : Fs M) (now : Time) (handles : List H) (news : List (IdInfo F))
      (errs : CollectErrors) (t : Tracker F) (w : W)
      → IsBounded lib n
      → DistinctHandles lib handles
      → (procs : List (Proc F)) × (w' : W) × ReadInTurn lib (suc n) fs now handles t w procs w'
        × DistinctPids procs
        × (scan_procfs lib (suc n) fs now handles news errs t w
            ≡ some (scan procs now news errs t, w'))
  scan_procfs_refines n fs now handles news errs t w bound distinct =
      let (procs, w', read, same) = scan_procfs-scan lib n bound fs now handles news errs t w in
      (procs, w', read, ReadInTurn-DistinctPids lib (suc n) fs read distinct, same)
