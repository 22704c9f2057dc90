-- ===== src/Proc/Tracker/Scan.antt =====
-- proc/tracker.go: `handleProc` and `(t *Tracker) update`, one pass over the processes.
use process_exporter.Prelude.{
  true, false, Option, none, some, List, [], ◌∷◌, ◌++◌, Time, Float64, ◌==◌, if◌then◌else◌, Map,
  get, put, remove, add64, bit_or, nat_eq, ℕ, Bool,
}
use process_exporter.Proc.Types.{
  ProcId, Metrics, Thread, IdInfo, Proc, Iter, id_eq, Read, Static, ok, err, proc_not_exist,
  other_error,
}
use process_exporter.Proc.Counts.{add_states}
use process_exporter.Proc.Tracker.Defs.{Tracker, TrackedProc, CollectErrors, no_errors, update_proc}

unfoldable pub add_errors : CollectErrors → CollectErrors → CollectErrors
add_errors a b = record { read = add64 a.read b.read; partial = add64 a.partial b.partial }

-- `softerrors |= 1`, if the threads could not be read
abbrev pub soft_errors : ℕ → Bool → ℕ
soft_errors soft failed = if failed then bit_or soft 1 else soft

module _ {F : Type 0} where
  unfoldable pub add_threads : List (Thread F) → Metrics F → Metrics F
  add_threads [] m = m
  add_threads (thr ∷ threads) m = add_threads threads (record m {
    counts = record m.counts {
      ctx_switch_nonvoluntary =
          add64 m.counts.ctx_switch_nonvoluntary thr.counts.ctx_switch_nonvoluntary;
      ctx_switch_voluntary = add64 m.counts.ctx_switch_voluntary thr.counts.ctx_switch_voluntary;
    };
    states = add_states m.states thr.states;
  })

  -- With threads, the context switches are the sums over them, and their states are added.
  unfoldable pub with_threads : List (Thread F) → Metrics F → Metrics F
  unfolding add_threads
  with_threads [] m = m
  with_threads (thr ∷ threads) m = add_threads (thr ∷ threads) (record m {
    counts = record m.counts { ctx_switch_nonvoluntary = 0; ctx_switch_voluntary = 0 };
  })

  abbrev pub forget :
      Option ProcId → Map ProcId (Option (TrackedProc F)) → Map ProcId (Option (TrackedProc F))
  forget none m = m
  forget (some old) m = remove old m

  -- A new process: an older process of the same pid is forgotten.
  unfoldable pub remember : ProcId → Tracker F → Tracker F
  remember id t = record t {
    tracked = forget (get id.pid t.proc_ids) t.tracked;
    proc_ids = put id.pid id t.proc_ids;
  }

-- What `handleProc` returns: the tracker, the new process and the errors.
abbrev pub Handled : Type 0 → Type 0
Handled F = Tracker F × Option (IdInfo F) × CollectErrors

module _ {F : Type 0} ⦃fl : Float64 F⦄ where
  -- The part of `handleProc` that reads the static details of a new process.
  unfoldable pub handle_new :
      ProcId → Metrics F → List (Thread F) → CollectErrors → Tracker F → Read Static → Handled F
  unfolding remember
  handle_new id metrics threads cerrs t (err e) = (t, none, cerrs)
  handle_new id metrics threads cerrs t (ok static) = (
    remember id t,
    some (record { id = id; static = static; metrics = metrics; threads = threads }),
    cerrs,
  )

  -- The part of `handleProc` after the metrics and the threads have been read.
  unfoldable pub handle_read :
      Proc F
      → Time
      → ProcId
      → Option (TrackedProc F)
      → Metrics F
      → List (Thread F)
      → CollectErrors
      → Tracker F
      → Handled F
  unfolding handle_new
  handle_read p now id (some last) metrics threads cerrs t = (
    record t { tracked = put id (some (update_proc metrics now threads last)) t.tracked },
    none,
    cerrs,
  )
  handle_read p now id none metrics threads cerrs t =
      handle_new id metrics threads cerrs t p.get_static

  -- The part of `handleProc` for a process that is not ignored, given what `GetMetrics` answers.
  unfoldable pub handle_metrics :
      Proc F → Time → ProcId → Option (TrackedProc F) → Tracker F → Read (Metrics F × ℕ) → Handled F
  unfolding handle_read with_threads
  handle_metrics p now id known t (err proc_not_exist) = (t, none, no_errors)
  handle_metrics p now id known t (err other_error) = (t, none, record { read = 1; partial = 0 })
  handle_metrics p now id known t (ok (metrics, soft)) =
      handle_read p now id known (with_threads p.get_threads.0 metrics) p.get_threads.0
        (record { read = 0; partial = soft_errors soft p.get_threads.1 }) t

  -- The test whether the process is known, and whether it is ignored.
  unfoldable pub handle_known :
      Proc F → Time → ProcId → Tracker F → Option (Option (TrackedProc F)) → Handled F
  unfolding handle_metrics
  handle_known p now id t (some none) = (t, none, no_errors)
  handle_known p now id t (some (some last)) = handle_metrics p now id (some last) t p.get_metrics
  handle_known p now id t none = handle_metrics p now id none t p.get_metrics

  unfoldable pub handle_id : Proc F → Time → Tracker F → Read ProcId → Handled F
  unfolding handle_known
  handle_id p now t (err e) = (t, none, no_errors)
  handle_id p now t (ok id) = handle_known p now id t (get id t.tracked)

  -- `(t *Tracker) handleProc(proc, updateTime)`
  unfoldable pub handle_proc : Proc F → Time → Tracker F → Handled F
  unfolding handle_id
  handle_proc p now t = handle_id p now t p.get_proc_id

  abbrev pub push : List (IdInfo F) → Option (IdInfo F) → List (IdInfo F)
  push news none = news
  push news (some info) = news ++ info ∷ []

  -- The loop `for procs.Next()`.
  unfoldable pub scan :
      List (Proc F)
      → Time
      → List (IdInfo F)
      → CollectErrors
      → Tracker F
      → Tracker F × List (IdInfo F) × CollectErrors
  unfolding add_errors
  scan [] now news errs t = (t, news, errs)
  scan (p ∷ procs) now news errs t =
      let (t', new, cerrs) = handle_proc p now t in
      scan procs now (push news new) (add_errors errs cerrs) t'

module _ {F : Type 0} where
  -- The loop over `t.tracked`, given its entries, that removes what was not seen at `now`.
  unfoldable pub drop_stale : Time → Map ProcId (Option (TrackedProc F)) → Tracker F → Tracker F
  drop_stale now [] t = t
  drop_stale now ((id, none) ∷ entries) t = drop_stale now entries t
  drop_stale now ((id, some tp) ∷ entries) t = drop_stale now entries (
      if tp.last_update == now
      then t
      else record t { tracked = remove id t.tracked; proc_ids = remove id.pid t.proc_ids })

  -- The end of `update`: an error of `Close` leaves the stale processes in place.
  unfoldable pub finish_update :
      Bool
      → Time
      → Tracker F × List (IdInfo F) × CollectErrors
      → Tracker F × Option (List (IdInfo F)) × CollectErrors
  unfolding drop_stale
  finish_update true now (t, news, errs) = (t, none, errs)
  finish_update false now (t, news, errs) = (drop_stale now t.tracked t, some news, errs)

module _ {F : Type 0} ⦃fl : Float64 F⦄ where
  -- `(t *Tracker) update(procs)`; `none` is the error of `Close`.
  unfoldable pub update :
      Iter F → Time → Tracker F → Tracker F × Option (List (IdInfo F)) × CollectErrors
  unfolding scan finish_update
  update iter now t = finish_update iter.close_fails now (scan iter.procs now [] no_errors t)
