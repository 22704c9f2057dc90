-- ===== src/Proc/Procfs/Snapshot.antt =====
-- What procfs answers about processes when it is asked about one after the other (proc/read.go), as
-- the processes of proc/tracker.go that have their answers at hand.
use process_exporter.Prelude.{
  ℕ, ◌≡◌, ◌≢◌, refl, sym, ap, ◌∙◌, subst, Bool, Option, none, some, some_inj, List, [], ◌∷◌, Time,
  Float64, All, false,
}
use process_exporter.Proc.Types.{ProcId, Metrics, Thread, Proc, Read, ok, err, other_error, id_eq}
use process_exporter.Proc.Tracker.Defs.{Tracker}
use process_exporter.Proc.Tracker.Scan.{handle_proc}
use process_exporter.Proc.Tracker.Pids.{HasOtherPid, DistinctPids}
use process_exporter.Proc.Procfs.{
  Reply, got, failed, Library, Fs, ProcCache, new_cache, get_proc_id,
}
use process_exporter.Proc.Procfs.Details.{get_static}
use process_exporter.Proc.Procfs.Metrics.{get_metrics}
use process_exporter.Proc.Procfs.Listing.{get_threads}
use process_exporter.Proc.Procfs.Identity.{identity_is_kept}
use process_exporter.Proc.Procfs.Scanning.{handle_procfs}

ok_inj : {A : Type 0} {a b : A} → ok a ≡ ok b → a ≡ b
ok_inj e = cc

module _ {W H M : Type 0} (lib : Library W H M) where
  -- No two handles have one pid.
  abbrev pub DistinctHandles : List H → Type 0
  DistinctHandles [] = Unit
  DistinctHandles (h ∷ handles) =
      All (λ other. lib.pid other ≢ lib.pid h) handles × DistinctHandles handles

module _ {W H M : Type 0} (lib : Library W H M) {F : Type 0} ⦃fl : Float64 F⦄ (fuel : ℕ)
    (fs : Fs M) where
  -- What the methods answer about a process when they are called in turn, each one, in the order
  -- `GetProcID`, `GetMetrics`, `GetThreads`, `GetStatic`. Without an identity nothing else is read.
  abbrev pub snapshot_threads :
      ProcId
      → Read (Metrics F × ℕ)
      → ProcCache H
      → Option ((List (Thread F) × Bool) × W)
      → Option (Proc F)
  snapshot_threads id metrics p none = none
  snapshot_threads id metrics p (some (threads, w)) = some (record {
    get_proc_id = ok id;
    get_static = (get_static lib fs p w).0;
    get_metrics = metrics;
    get_threads = threads;
  })

  abbrev pub snapshot_id : Reply ProcId × ProcCache H × W → Option (Proc F)
  snapshot_id (failed e, p, w) = some (record {
    get_proc_id = err other_error;
    get_static = err other_error;
    get_metrics = err other_error;
    get_threads = ([], false);
  })
  snapshot_id (got id, p, w) =
      let (metrics, w') = get_metrics lib fs p w in
      snapshot_threads id metrics p (get_threads lib fuel fs p w')

  -- All that procfs answers about a process from this state of the world on.
  unfoldable pub snapshot : H → W → Option (Proc F)
  unfolding get_proc_id get_metrics get_threads get_static
  snapshot h w = snapshot_id (get_proc_id lib (new_cache h) w)

  -- The processes are what procfs answers about these handles, each from the state of the world in
  -- which `handleProc` left the process before it.
  pub data ReadInTurn (now : Time) : List H → Tracker F → W → List (Proc F) → W → Type 0 where
    all_read : {t : Tracker F} {w : W} → ReadInTurn now [] t w [] w
    next_read :
        {h : H} {handles : List H} {t : Tracker F} {w w' w'' : W} {q : Proc F}
        {procs : List (Proc F)}
        → snapshot h w ≡ some q
        → handle_procfs lib fuel fs now t h w ≡ some (handle_proc q now t, w')
        → ReadInTurn now handles (handle_proc q now t).0 w' procs w''
        → ReadInTurn now (h ∷ handles) t w (q ∷ procs) w''

  -- If the process gives an identity, its pid is this one.
  abbrev HasPid : ℕ → Proc F → Type 0
  HasPid n q = (id : ProcId) → q.get_proc_id ≡ ok id → id.pid ≡ n

  threads-HasPid :
      (id : ProcId) (metrics : Read (Metrics F × ℕ)) (p : ProcCache H)
      (r : Option ((List (Thread F) × Bool) × W)) (q : Proc F)
      → snapshot_threads id metrics p r ≡ some q
      → HasPid id.pid q
  threads-HasPid id metrics p none q e = cc
  threads-HasPid id metrics p (some (threads, w)) q e =
      subst (HasPid id.pid) (some_inj e) (λ i k. ap (λ j. j.pid) (sym (ok_inj k)))

  id-HasPid :
      (n : ℕ) (r : Reply ProcId × ProcCache H × W) (q : Proc F)
      → ((id : ProcId) → r.0 ≡ got id → id.pid ≡ n)
      → snapshot_id r ≡ some q
      → HasPid n q
  id-HasPid n (failed f, p, w) q known e = subst (HasPid n) (some_inj e) (λ i k. cc)
  id-HasPid n (got id, p, w) q known e = λ i k.
      threads-HasPid id (get_metrics lib fs p w).0 p
        (get_threads lib fuel fs p (get_metrics lib fs p w).1) q e i k
      ∙ known id refl

  snapshot-HasPid : (h : H) (w : W) (q : Proc F) → snapshot h w ≡ some q → HasPid (lib.pid h) q
  unfolding snapshot
  snapshot-HasPid h w q e =
      let r = get_proc_id lib (new_cache h) w in
      id-HasPid (lib.pid h) r q
        (λ id k. (identity_is_kept lib fs h w r.2 id r.1 (ap (λ x. (x, r.1, r.2)) k)).1) e

  ReadInTurn-HasOtherPid :
      (n : ℕ) {now : Time} {handles : List H} {t : Tracker F} {w w' : W} {procs : List (Proc F)}
      → ReadInTurn now handles t w procs w'
      → All (λ other. lib.pid other ≢ n) handles
      → All (HasOtherPid n) procs
  ReadInTurn-HasOtherPid n all_read h = tt
  ReadInTurn-HasOtherPid n (next_read {q = q} read _ rest) h = (
    (λ id e same. h.0 (sym (snapshot-HasPid _ _ q read id e) ∙ same)),
    ReadInTurn-HasOtherPid n rest h.1,
  )

  pub ReadInTurn-DistinctPids :
      {now : Time} {handles : List H} {t : Tracker F} {w w' : W} {procs : List (Proc F)}
      → ReadInTurn now handles t w procs w'
      → DistinctHandles lib handles
      → DistinctPids procs
  ReadInTurn-DistinctPids all_read h = tt
  ReadInTurn-DistinctPids (next_read {q = q} {procs = procs} read _ rest) h = (
    (λ id e.
        subst (λ n. All (HasOtherPid n) procs) (sym (snapshot-HasPid _ _ q read id e))
          (ReadInTurn-HasOtherPid _ rest h.0)),
    ReadInTurn-DistinctPids rest h.1,
  )
